-- ===== src/Lowering/Cond/Preserve.antt =====
-- The translation of a comparison keeps its truth and leaves a code for which there is a branch.
use toy_riscv.Base.{
  ℕ, ◌≡◌, refl, sym, ◌∙◌, Bool, true, false, ◌&&◌, inl, inr, arith, ok, Bool-cases,
}
use toy_riscv.Lowering.Dag.{
  Dag, Meaning, CondCode, seteq, setne, setlt, setge, setult, setuge, setgt, holds, xlen_vt,
}
use toy_riscv.Lowering.Cond.{
  Comparison, swap_operands, translate_set_cc_for_branch, IsWordComparison, is_setgt, is_setlt,
  BranchOpcode, branch_opcode, takes, is_integer, gt_minus_one, lt_one, zero-mod,
}

setgt_of : (cc : CondCode) → is_setgt cc ≡ true → cc ≡ setgt
setgt_of cc h = ground arith

setlt_of : (cc : CondCode) → is_setlt cc ≡ true → cc ≡ setlt
setlt_of cc h = ground arith

and_left : (a b : Bool) → (a && b) ≡ true → (a ≡ true) × (b ≡ true)
and_left a b h = ground arith

-- The codes for which there is a branch instruction.
abbrev is_branch_code : CondCode → Bool
is_branch_code seteq = true
is_branch_code setne = true
is_branch_code setlt = true
is_branch_code setge = true
is_branch_code setult = true
is_branch_code setuge = true
is_branch_code _ = false

branch_opcode_total :
    (cc : CondCode) → is_branch_code cc ≡ true → (o : BranchOpcode) × (branch_opcode cc ≡ ok o)
unfolding branch_opcode
branch_opcode_total seteq h = (_, refl)
branch_opcode_total setne h = (_, refl)
branch_opcode_total setlt h = (_, refl)
branch_opcode_total setge h = (_, refl)
branch_opcode_total setult h = (_, refl)
branch_opcode_total setuge h = (_, refl)
branch_opcode_total _ h = cc

module _ (d : Dag) (m : Meaning d) where
  open d use {Value, xlen, value_type, get_constant, is_all_ones_constant, is_one_constant}
  open m use {eval, other}

  -- Whether a comparison holds.
  abbrev pub truth : Comparison Value → Bool
  truth c = holds other xlen c.cc (eval c.lhs) (eval c.rhs)

  eval_zero : (v : Value) → value_type v ≡ xlen_vt xlen → eval (get_constant 0 (value_type v)) ≡ 0
  eval_zero v h = rw h (m.eval-get_constant 0 ∙ zero-mod xlen)

  truth-swap_operands : (c : Comparison Value) → truth (swap_operands d c) ≡ truth c
  unfolding swap_operands
  truth-swap_operands c = ground (arith, m.swapped_gt, m.swapped_le, m.swapped_ugt, m.swapped_ule)

  truth-ge_zero :
      (l r : Value)
      → value_type l ≡ xlen_vt xlen
      → value_type r ≡ xlen_vt xlen
      → is_all_ones_constant r ≡ true
      → truth (record { lhs = l; rhs = get_constant 0 (value_type r); cc = setge })
        ≡ truth (record { lhs = l; rhs = r; cc = setgt })
  truth-ge_zero l r hl hr ones =
      rw (eval_zero r hr, m.all_ones r ones hr) (sym (gt_minus_one xlen (eval l) (m.eval-lt l hl)))

  truth-zero_ge :
      (l r : Value)
      → value_type l ≡ xlen_vt xlen
      → is_one_constant r ≡ true
      → truth (record { lhs = get_constant 0 (value_type l); rhs = l; cc = setge })
        ≡ truth (record { lhs = l; rhs = r; cc = setlt })
  truth-zero_ge l r hl one =
      rw (eval_zero l hl, m.one r one) (sym (lt_one xlen (eval l) (m.eval-lt l hl)))

  -- The rewritten comparison holds exactly when the given one does, for words of the register width.
  pub truth-translate :
      (c : Comparison Value)
      → IsWordComparison d c
      → truth (translate_set_cc_for_branch d c) ≡ truth c
  unfolding translate_set_cc_for_branch
  truth-translate c h = elim (Bool-cases (is_setgt c.cc && is_all_ones_constant c.rhs)) [
    | inl e ↦
        let (gt, ones) = and_left _ _ e in
        rw (e, setgt_of c.cc gt) (truth-ge_zero c.lhs c.rhs h.lhs_type h.rhs_type ones)
    | inr e ↦ elim (Bool-cases (is_setlt c.cc && is_one_constant c.rhs)) [
      | inl e' ↦
          let (lt, one) = and_left _ _ e' in
          rw (e, e', setlt_of c.cc lt) (truth-zero_ge c.lhs c.rhs h.lhs_type one)
      | inr e' ↦ rw (e, e') (truth-swap_operands c)
    ]
  ]

  branch_opcode-holds :
      (cc : CondCode) (o : BranchOpcode) (a b : ℕ)
      → branch_opcode cc ≡ ok o
      → takes xlen o a b ≡ holds other xlen cc a b
  unfolding branch_opcode
  branch_opcode-holds cc o a b h = ground arith

  is_branch_code-translate :
      (c : Comparison Value)
      → is_integer c.cc ≡ true
      → is_branch_code (translate_set_cc_for_branch d c).cc ≡ true
  unfolding translate_set_cc_for_branch swap_operands
  is_branch_code-translate c h =
      ground (arith, m.swapped_gt, m.swapped_le, m.swapped_ugt, m.swapped_ule)

  -- For every integer comparison of two words that the target names, selection finds a branch
  -- instruction after the translation, and this branch is taken exactly when the comparison holds.
  pub branch_opcode-translate :
      (c : Comparison Value)
      → IsWordComparison d c
      → is_integer c.cc ≡ true
      → let c' = translate_set_cc_for_branch d c in
        (o : BranchOpcode) × (branch_opcode c'.cc ≡ ok o)
        × (takes xlen o (eval c'.lhs) (eval c'.rhs) ≡ truth c)
  branch_opcode-translate c h i =
      let c' = translate_set_cc_for_branch d c in
      let (o, found) = branch_opcode_total c'.cc (is_branch_code-translate c i) in
      (o, found, branch_opcode-holds c'.cc o _ _ found ∙ truth-translate c h)
