-- ===== src/Lowering/Cond.antt =====
-- translateSetCCForBranch of TOYRISCVISelLowering.cpp, getRISCVCCForIntCC of TOYRISCVISelDagToDag.h
-- and getBrCond of TOYRISCVInstrInfo.cpp: how a comparison becomes a branch instruction.
pub mod Preserve
use toy_riscv.Base.{
  ℕ, ◌-◌, ◌%◌, ◌<◌, ◌≡◌, refl, Bool, true, false, not, ◌&&◌, ◌⊎◌, inl, inr, some, arith, ltb, ◌==◌,
  if◌then◌else◌, XLen, rv32, rv64, modulus, signed_lt, Outcome, ok, stop, unreachable, ◌>>=◌,
  Bool-cases,
}
use toy_riscv.Lowering.Dag.{
  Dag, Meaning, CondCode, seteq, setne, setlt, setge, setult, setuge, setgt, setle, setugt, setule,
  other_cc, holds, xlen_vt,
}

-- The operands of a comparison and its code, which the function takes by reference.
pub record Comparison (V : Type 0) : Type 0 where
  pub lhs : V
  pub rhs : V
  pub cc : CondCode

abbrev pub is_setgt : CondCode → Bool
is_setgt setgt = true
is_setgt _ = false

abbrev pub is_setlt : CondCode → Bool
is_setlt setlt = true
is_setlt _ = false

module _ (d : Dag) where
  open d use {
    Value, value_type, get_constant, is_all_ones_constant, is_one_constant, swapped_operands,
  }

  -- The switch at the end.
  unfoldable pub swap_operands : Comparison Value → Comparison Value
  swap_operands c =
      let swapped : Comparison Value = record {
        lhs = c.rhs;
        rhs = c.lhs;
        cc = swapped_operands c.cc;
      } in
      elim c.cc [ setgt ↦ swapped | setle ↦ swapped | setugt ↦ swapped | setule ↦ swapped | _ ↦ c ]

  unfoldable pub translate_set_cc_for_branch : Comparison Value → Comparison Value
  translate_set_cc_for_branch c =
      if is_setgt c.cc && is_all_ones_constant c.rhs
      then record { lhs = c.lhs; rhs = get_constant 0 (value_type c.rhs); cc = setge }
      else if is_setlt c.cc && is_one_constant c.rhs
      then record { lhs = get_constant 0 (value_type c.lhs); rhs = c.lhs; cc = setge }
      else swap_operands c

  -- A comparison of two words of the register width.
  pub record IsWordComparison (c : Comparison Value) : Type 0 where
    pub lhs_type : value_type c.lhs ≡ xlen_vt d.xlen
    pub rhs_type : value_type c.rhs ≡ xlen_vt d.xlen

-- TOYRISCVCC::CondCode
pub data BranchCode : Type 0 where
  cond_eq cond_ne cond_lt cond_ge cond_ltu cond_geu cond_invalid : BranchCode

unfoldable pub get_riscv_cc_for_int_cc : CondCode → Outcome BranchCode
get_riscv_cc_for_int_cc seteq = ok cond_eq
get_riscv_cc_for_int_cc setne = ok cond_ne
get_riscv_cc_for_int_cc setlt = ok cond_lt
get_riscv_cc_for_int_cc setge = ok cond_ge
get_riscv_cc_for_int_cc setult = ok cond_ltu
get_riscv_cc_for_int_cc setuge = ok cond_geu
get_riscv_cc_for_int_cc _ = stop (unreachable "Unsupported CondCode")

-- The branch instructions.
pub data BranchOpcode : Type 0 where
  beq bne blt bge bltu bgeu : BranchOpcode

unfoldable pub get_br_cond : BranchCode → Outcome BranchOpcode
get_br_cond cond_eq = ok beq
get_br_cond cond_ne = ok bne
get_br_cond cond_lt = ok blt
get_br_cond cond_ge = ok bge
get_br_cond cond_ltu = ok bltu
get_br_cond cond_geu = ok bgeu
get_br_cond cond_invalid = stop (unreachable "Unknown condition code!")

-- When a branch instruction is taken, by the RISC-V specification.
abbrev pub takes : XLen → BranchOpcode → ℕ → ℕ → Bool
takes x beq a b = a == b
takes x bne a b = not (a == b)
takes x blt a b = signed_lt x a b
takes x bge a b = not (signed_lt x a b)
takes x bltu a b = ltb a b
takes x bgeu a b = not (ltb a b)

-- The codes of integer comparisons that the target names.
abbrev pub is_integer : CondCode → Bool
is_integer (other_cc n) = false
is_integer _ = true

-- The instruction for a comparison, as selection finds it.
unfoldable pub branch_opcode : CondCode → Outcome BranchOpcode
unfolding get_riscv_cc_for_int_cc get_br_cond
branch_opcode cc = get_riscv_cc_for_int_cc cc >>= get_br_cond

-- signed x > -1 and x >= 0, x < 1 and 0 >= x
pub gt_minus_one :
    (x : XLen) (a : ℕ) → a < modulus x → signed_lt x (modulus x - 1) a ≡ not (signed_lt x a 0)
gt_minus_one rv32 a h = ground arith
gt_minus_one rv64 a h = ground arith

pub lt_one : (x : XLen) (a : ℕ) → a < modulus x → signed_lt x a 1 ≡ not (signed_lt x 0 a)
lt_one rv32 a h = ground arith
lt_one rv64 a h = ground arith

pub zero-mod : (x : XLen) → 0 % modulus x ≡ 0
zero-mod rv32 = refl
zero-mod rv64 = refl
