-- ===== src/Mc/BaseInfo.antt =====
-- MCTargetDesc/TOYRISCVBaseInfo.h: the operand flags, which the lowering sets and the emission reads,
-- and the instruction formats.
use toy_riscv.Base.{ℕ}

-- The flags of TOYRISCVII, and any other number in the field.
pub data OperandFlag : Type 0 where
  mo_none mo_call mo_plt mo_lo mo_hi mo_pcrel_lo mo_pcrel_hi : OperandFlag
  mo_unknown : ℕ → OperandFlag
