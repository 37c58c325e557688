-- ===== src/Mc.antt =====
-- The machine-code layer: lib/Target/TOYRISCV/MCTargetDesc and TOYRISCVMCInstLower.cpp.
pub mod BaseInfo
pub mod Expr
pub mod InstLower
pub mod Printer
