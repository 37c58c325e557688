-- ===== src/Machine.antt =====
-- The target machine: computeDataLayout and getEffectiveRelocModel of TOYRISCVTargetMachine.cpp, and
-- createTOYRISCVMCSubtargetInfo of MCTargetDesc/TOYRISCVMCTargetDesc.cpp.
pub mod Layout
pub mod Abi
pub mod Tests
use toy_riscv.Base.{
  ℕ, Bool, true, false, Option, none, some, Text, codes, is_empty, if◌then◌else◌, Outcome, ok, stop,
  assertion,
}
use toy_riscv.Triple.Types.{ArchType}
use toy_riscv.Triple.Target.{TargetTriple}
use toy_riscv.Triple.Properties.{is_arch_64_bit, is_arch_32_bit}

-- computeDataLayout
unfoldable pub compute_data_layout : TargetTriple → Outcome Text
compute_data_layout t =
    if is_arch_64_bit t.arch
    then ok (codes "e-m:m-p:64:64-i8:8:32-i16:16:32-i64:64-n64-S128")
    else if is_arch_32_bit t.arch
    then ok (codes "e-m:m-p:32:32-i8:8:32-i16:16:32-i64:64-n32-S64")
    else stop (assertion "TOYRISCV must be 32bit or 64bit architecture")

-- Reloc::Model
pub data RelocModel : Type 0 where
  static pic dynamic_no_pic ropi rwpi ropi_rwpi : RelocModel

-- getEffectiveRelocModel
unfoldable pub get_effective_reloc_model : (jit : Bool) → Option RelocModel → RelocModel
get_effective_reloc_model jit none = static
get_effective_reloc_model true (some m) = static
get_effective_reloc_model false (some m) = m

-- The CPU that createTOYRISCVMCSubtargetInfo takes.
unfoldable pub choose_mc_cpu : ArchType → Text → Text
choose_mc_cpu a cpu =
    if is_empty cpu then (if is_arch_64_bit a then codes "cpu-rv64" else codes "cpu-rv32") else cpu
