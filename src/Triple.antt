-- ===== src/Triple.antt =====
-- Target triples.
pub mod Types
pub mod ArchNames
pub mod ArchName
pub mod Names
pub mod Host
pub mod ArchCases
pub mod Parse
pub mod ParseArch
pub mod LlvmNames
pub mod Numbers
pub mod Predicates
pub mod Versions
pub mod ArmCpu
pub mod ArmCpuLaws
pub mod Normalize
pub mod Properties
pub mod Widths
pub mod Endians
pub mod Formats
pub mod NameLaws
pub mod Target
pub mod ArchLaws
pub mod Accessors
pub mod Setters
pub mod NameTables
pub mod SetterLaws
pub mod Variants
pub mod WidthLaws
pub mod EndianLaws
pub mod VariantLaws
pub mod Tests
