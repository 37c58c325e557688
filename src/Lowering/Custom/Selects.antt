-- ===== src/Lowering/Custom/Selects.antt =====
-- lowerSELECT keeps the value of a select of scalars.
use toy_riscv.Base.{
  ℕ, ◌<◌, ◌≡◌, refl, sym, ◌∙◌, ap, Bool, true, false, not, some, ◌==◌, if◌then◌else◌, arith,
  Bool-cases, Option-cases, ◌⊎◌, inl, inr, XLen, rv32, rv64, modulus, add_word, sub_word,
}
use toy_riscv.Lowering.Dag.{
  Dag, Meaning, Mvt, constant, xlen_vt, is_xlen_vt, is_xlen_vt_sound, add, sub, select_cc, setne,
}
use toy_riscv.Lowering.Cond.{Comparison, is_setlt, translate_set_cc_for_branch}
use toy_riscv.Lowering.Cond.Preserve.{truth, truth-translate}
use toy_riscv.Lowering.Custom.{
  constant_value, word_setcc, select_of_constants, select_of_comparison, lower_scalar_select,
}
use toy_riscv.Lowering.Custom.Branches.{word_setcc-some, eval-word_setcc, eval_zero}

-- The two ways in which constants differ by one, for a condition that is 0 or 1.
step_down :
    (x : XLen) (b : Bool) (t f : ℕ)
    → t < modulus x
    → sub_word x t 1 ≡ f
    → add_word x (if b then 1 else 0) f ≡ (if b then t else f)
step_down rv32 b t f h e = ground arith
step_down rv64 b t f h e = ground arith

step_up :
    (x : XLen) (b : Bool) (t f : ℕ)
    → t < modulus x
    → add_word x t 1 ≡ f
    → sub_word x f (if b then 1 else 0) ≡ (if b then t else f)
step_up rv32 b t f h e = ground arith
step_up rv64 b t f h e = ground arith

if_bit {ℓ} :
    {A : Type ℓ} (b : Bool) (t f : A)
    → (if (if b then 1 else 0) == 0 then f else t) ≡ (if b then t else f)
if_bit true t f = refl
if_bit false t f = refl

if_not {ℓ} : {A : Type ℓ} (b : Bool) (t f : A) → (if not b then t else f) ≡ (if b then f else t)
if_not true t f = refl
if_not false t f = refl

module _ (d : Dag) where
  open d use {Value, xlen, view, get_node}

  constant_value-some : (v : Value) (n : ℕ) → constant_value d v ≡ some n → view v ≡ constant n
  unfolding constant_value
  constant_value-some v n h = ground arith

  select_of_constants-some :
      (cond true_v false_v v : Value) (ty : Mvt)
      → select_of_constants d cond true_v false_v ty ≡ some v
      → (t f : ℕ) × (constant_value d true_v ≡ some t)
        × (constant_value d false_v ≡ some f)
        × (((sub_word xlen t 1 ≡ f) × (v ≡ get_node (add cond false_v) ty))
            ⊎ ((add_word xlen t 1 ≡ f) × (v ≡ get_node (sub false_v cond) ty)))
  unfolding select_of_constants
  select_of_constants-some cond true_v false_v v ty h =
      elim (Option-cases (constant_value d true_v)) [
        | inl e ↦ absurd (ground arith)
        | inr (t, et) ↦ elim (Option-cases (constant_value d false_v)) [
          | inl e ↦ absurd (ground arith)
          | inr (f, ef) ↦ (t, f, et, ef, ground arith)
        ]
      ]

module _ (d : Dag) (m : Meaning d) where
  open d use {Value, xlen, view, value_type, get_constant, get_node}
  open m use {eval}

  module _ (c : Comparison Value) (cond true_v false_v : Value) (ty : Mvt)
      (is_cond : word_setcc d cond ≡ some c) (true_type : value_type true_v ≡ xlen_vt xlen) where
    eval-select_of_constants :
        (v : Value)
        → select_of_constants d cond true_v false_v ty ≡ some v
        → eval v ≡ (if truth d m c then eval true_v else eval false_v)
    eval-select_of_constants v h =
        let (t, f, et, ef, kinds) = select_of_constants-some d cond true_v false_v v ty h in
        let tv = m.eval_constant true_v t (constant_value-some d true_v t et) in
        let fv = m.eval_constant false_v f (constant_value-some d false_v f ef) in
        let bound : t < modulus xlen = rw tv at (m.eval-lt true_v true_type) in
        elim kinds [
          | inl (diff, node) ↦
              rw (node, m.eval-add, eval-word_setcc d m cond c is_cond, tv, fv)
                (step_down xlen (truth d m c) t f bound diff)
          | inr (diff, node) ↦
              rw (node, m.eval-sub, eval-word_setcc d m cond c is_cond, tv, fv)
                (step_up xlen (truth d m c) t f bound diff)
        ]

    eval-general :
        let c' = translate_set_cc_for_branch d c in
        eval (get_node (select_cc c'.lhs c'.rhs c'.cc true_v false_v) ty)
        ≡ (if truth d m c then eval true_v else eval false_v)
    eval-general =
        let (shown, words) = word_setcc-some d m cond c is_cond in
        m.eval-select_cc _ _ _ _ _ _
        ∙ ap (λ b. if b then eval true_v else eval false_v) (truth-translate d m c words)

    eval-select_of_comparison :
        eval (select_of_comparison d c cond true_v false_v ty)
        ≡ (if truth d m c then eval true_v else eval false_v)
    unfolding select_of_comparison
    eval-select_of_comparison = elim (Bool-cases (is_setlt c.cc)) [
      | inr other ↦ rw (other, select_of_comparison) eval-general
      | inl lt ↦ elim (Option-cases (select_of_constants d cond true_v false_v ty)) [
        | inl e ↦ rw (lt, e, select_of_comparison) eval-general
        | inr (v, e) ↦ rw (lt, e, select_of_comparison) (eval-select_of_constants v e)
      ]
    ]

  eval-zero_test :
      (cond true_v false_v : Value) (ty : Mvt)
      → eval (get_node (select_cc cond (get_constant 0 (xlen_vt xlen)) setne true_v false_v) ty)
        ≡ (if eval cond == 0 then eval false_v else eval true_v)
  eval-zero_test cond true_v false_v ty =
      rw (m.eval-select_cc, eval_zero d m) (if_not (eval cond == 0) _ _)

  -- A scalar select is lowered to a node with its value: that of the first alternative if the
  -- condition is not zero, and that of the second if it is.
  pub eval-lower_scalar_select :
      (cond true_v false_v : Value) (ty : Mvt)
      → value_type true_v ≡ ty
      → eval (lower_scalar_select d cond true_v false_v ty)
        ≡ (if eval cond == 0 then eval false_v else eval true_v)
  unfolding lower_scalar_select
  eval-lower_scalar_select cond true_v false_v ty h = elim (Bool-cases (is_xlen_vt xlen ty)) [
    | inr e ↦ rw (e, lower_scalar_select) (eval-zero_test cond true_v false_v ty)
    | inl e ↦ elim (Option-cases (word_setcc d cond)) [
      | inl e' ↦ rw (e, e', lower_scalar_select) (eval-zero_test cond true_v false_v ty)
      | inr (c, e') ↦
          rw (e, e', lower_scalar_select)
            (eval-select_of_comparison c cond true_v false_v ty e' (h ∙ is_xlen_vt_sound xlen ty e)
              ∙ sym (if_bit (truth d m c) _ _)
              ∙ ap (λ n. if n == 0 then eval false_v else eval true_v)
                  (sym (eval-word_setcc d m cond c e')))
    ]
  ]
