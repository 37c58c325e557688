-- ===== src/Lowering/Custom/Operations.antt =====
-- LowerOperation as a whole keeps what an operation computes.
use toy_riscv.Base.{ℕ, ◌≡◌, sym, ◌∙◌, false, ok}
use toy_riscv.Lowering.Dag.{Dag, Meaning, is_vector, brcond, global_address, select}
use toy_riscv.Lowering.Custom.{
  Target, lower_brcond, lower_select, lower_scalar_select, lower_operation,
}
use toy_riscv.Lowering.Custom.Branches.{branch-lower_brcond}
use toy_riscv.Lowering.Custom.Selects.{eval-lower_scalar_select}
use toy_riscv.Lowering.Custom.Addresses.{Relocations, CanAddress, eval-lower_global_address}

module _ (d : Dag) (m : Meaning d) (t : Target) (r : Relocations d m t) where
  open d use {Value, view, value_type}
  open m use {eval, branch}

  -- The operations that LowerOperation is registered for, on scalars, and addresses that the target
  -- can form.
  pub data IsCustom (op : Value) : Type 0 where
    branch_op : (chain cond dest : Value) → view op ≡ brcond chain cond dest → IsCustom op
    address_op :
        (g offset : ℕ) → view op ≡ global_address g offset → CanAddress d m t r g → IsCustom op
    select_op :
        (cond true_v false_v : Value)
        → view op ≡ select cond true_v false_v
        → is_vector (value_type op) ≡ false
        → IsCustom op

  -- The lowered node stands for the operation: a control node takes the same branch, and a value node
  -- has the same value.
  abbrev pub SameMeaning : Value → Value → Type 0
  SameMeaning op v = elim (view op) [
    | brcond chain cond dest ↦ branch v ≡ branch op
    | _ ↦ eval v ≡ eval op
  ]

  -- LowerOperation lowers every branch on a condition, every scalar select, and every address of a
  -- global that the target can form, to a node that stands for it.
  pub lower_operation-same :
      (op : Value) → IsCustom op → (v : Value) × (lower_operation d t op ≡ ok v) × SameMeaning op v
  unfolding lower_operation
  lower_operation-same op (branch_op chain cond dest e) = (
    lower_brcond d chain cond dest (value_type op),
    rw (e, lower_operation),
    rw (e, SameMeaning)
        (branch-lower_brcond d m chain cond dest (value_type op)
          ∙ sym (m.branch_brcond op chain cond dest e)),
  )
  lower_operation-same op (address_op g offset e can) =
      let (v, found, value) = eval-lower_global_address d m t r g offset (value_type op) can in
      (
        v,
        rw (e, lower_operation) found,
        rw (e, SameMeaning) (value ∙ sym (m.eval_global_address op g offset e)),
      )
  lower_operation-same op (select_op cond true_v false_v e scalar) = (
    lower_select d cond true_v false_v (value_type op),
    rw (e, lower_operation),
    rw (e, SameMeaning)
        (lowered
          ∙ eval-lower_scalar_select d m cond true_v false_v (value_type op)
              (m.select_types op cond true_v false_v e).0
          ∙ sym (m.eval_select op cond true_v false_v e)),
  )
    where
      lowered :
          eval (lower_select d cond true_v false_v (value_type op))
          ≡ eval (lower_scalar_select d cond true_v false_v (value_type op))
      lowered = unfold lower_select in rw scalar
