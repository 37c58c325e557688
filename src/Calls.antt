-- ===== src/Calls.antt =====
-- Arguments and results of functions: LowerFormalArguments and LowerReturn of TOYRISCVISelLowering.cpp, with
-- the conventions of TOYRISCVCallingConv.td.
pub mod Conventions
pub mod Lower
pub mod Places
pub mod Incoming
pub mod Outgoing
pub mod Tests
