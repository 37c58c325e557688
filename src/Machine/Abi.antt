-- ===== src/Machine/Abi.antt =====
-- TOYRISCVABIInfo::computeTargetABI of MCTargetDesc/TOYRISCVABIInfo.cpp.
use toy_riscv.Base.{
  false, ◌||◌, if◌then◌else◌, Text, codes, is_empty, text_eq, Outcome, ok, stop, aborted, ◌≡◌,
  arith,
}

-- TOYRISCVABIInfo::ABI
pub data Abi : Type 0 where
  unknown lp stack : Abi

unfoldable pub compute_target_abi : Text → Outcome Abi
compute_target_abi name =
    if is_empty name || text_eq name (codes "lp")
    then ok lp
    else if text_eq name (codes "stack")
    then ok stack
    else stop aborted

-- Any name but the empty one and those of the two ABIs stops the compiler.
compute_target_abi-accepts :
    (name : Text)
    → is_empty name || (text_eq name (codes "lp") || text_eq name (codes "stack")) ≡ false
    → compute_target_abi name ≡ stop aborted
unfolding compute_target_abi
compute_target_abi-accepts name h = ground (arith, h)
