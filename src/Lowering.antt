-- ===== src/Lowering.antt =====
-- Instruction selection: TOYRISCVISelLowering.cpp and TOYRISCVISelDagToDag.h.
pub mod Dag
pub mod Cond
pub mod Custom
pub mod Actions
pub mod Inserter
mod Sample
mod Tests
