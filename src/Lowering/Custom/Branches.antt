-- ===== src/Lowering/Custom/Branches.antt =====
-- lowerBRCOND keeps the branch: its chain, when it is taken, and where it goes.
use toy_riscv.Base.{
  ◌≡◌, sym, ◌∙◌, ap, Bool, true, not, some, ◌==◌, if◌then◌else◌, arith, Option-cases, inl, inr,
}
use toy_riscv.Lowering.Dag.{Dag, Meaning, Mvt, setcc, xlen_vt, is_xlen_vt, is_xlen_vt_sound}
use toy_riscv.Lowering.Cond.{Comparison, IsWordComparison, zero-mod}
use toy_riscv.Lowering.Cond.Preserve.{truth, truth-translate}
use toy_riscv.Lowering.Custom.{word_setcc, lower_brcond}

module _ (d : Dag) where
  open d use {Value, xlen, view, value_type}

  found :
      (v : Value) (c : Comparison Value)
      → word_setcc d v ≡ some c
      → (view v ≡ setcc c.lhs c.rhs c.cc) × (is_xlen_vt xlen (value_type c.lhs) ≡ true)
  unfolding word_setcc
  found v c h = ground arith

module _ (d : Dag) (m : Meaning d) where
  open d use {Value, xlen, view, value_type, get_constant}
  open m use {eval, branch, other}

  -- A comparison that is found is that of the node, on words of the register width.
  pub word_setcc-some :
      (v : Value) (c : Comparison Value)
      → word_setcc d v ≡ some c
      → (view v ≡ setcc c.lhs c.rhs c.cc) × IsWordComparison d c
  word_setcc-some v c h =
      let (shown, wide) = found d v c h in
      let left = is_xlen_vt_sound xlen _ wide in
      (shown, record { lhs_type = left; rhs_type = m.setcc_types v _ _ _ shown ∙ left })

  -- The node of such a comparison is 1 where the comparison holds, and 0 elsewhere.
  pub eval-word_setcc :
      (v : Value) (c : Comparison Value)
      → word_setcc d v ≡ some c
      → eval v ≡ (if truth d m c then 1 else 0)
  eval-word_setcc v c h =
      let (shown, words) = word_setcc-some v c h in m.eval_setcc v _ _ _ shown words.lhs_type

  pub eval_zero : eval (get_constant 0 (xlen_vt xlen)) ≡ 0
  eval_zero = m.eval-get_constant 0 ∙ zero-mod xlen

  bit_test : (b : Bool) → b ≡ not ((if b then 1 else 0) == 0)
  bit_test b = ground arith

  -- The branch that lowerBRCOND builds has the chain and the destination of the BRCOND node, and is
  -- taken exactly when its condition is not zero.
  pub branch-lower_brcond :
      (chain cond dest : Value) (ty : Mvt)
      → branch (lower_brcond d chain cond dest ty) ≡ some (chain, not (eval cond == 0), dest)
  unfolding lower_brcond
  branch-lower_brcond chain cond dest ty = elim (Option-cases (word_setcc d cond)) [
    | inl e ↦ rw (e, lower_brcond, m.branch-br_cc, eval_zero)
    | inr (c, e) ↦
        let (shown, words) = word_setcc-some cond c e in
        rw (e, lower_brcond, m.branch-br_cc)
          (ap (λ t. some (chain, t, dest))
            (truth-translate d m c words
              ∙ bit_test (truth d m c)
              ∙ ap (λ n. not (n == 0)) (sym (eval-word_setcc cond c e))))
  ]
