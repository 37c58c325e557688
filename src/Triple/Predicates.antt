-- ===== src/Triple/Predicates.antt =====
-- The predicates on triples: llvm/include/llvm/ADT/Triple.h.
pub mod Systems
pub mod Archs
pub mod Laws
pub mod FormatLaws
pub mod WidthLaws
pub mod Tests
