-- ===== src/Lowering/Actions/Handled.antt =====
-- The operations that the constructor of TOYRISCVTargetLowering marks, and those that
-- LowerOperation handles.
use toy_riscv.Base.{
  ℕ, true, false, ◌&&◌, ◌||◌, ◌==◌, XLen, ◌≡◌, ◌⊎◌, ◌↔◌, refl, ◌∙◌, sym, inl, inr, ok, arith,
}
use toy_riscv.Lowering.Dag.{Mvt, is_xlen_vt, Dag, brcond, global_address, select}
use toy_riscv.Lowering.Custom.{
  Target, lower_brcond, lower_global_address, lower_select, lower_operation,
}
use toy_riscv.Lowering.Actions.{
  Operation, operation_number, Actions, is_other_vt, set_operation_action, set_load_ext_action,
  configure, is_custom, brcond_op, global_address_op, select_op,
}

-- Only three operations are lowered by the target, when TargetLowering starts with none.
is_custom-configure :
    (x : XLen) (a : Actions) (o : Operation) (ty : Mvt)
    → is_custom (a.operation_action o ty) ≡ false
    → is_custom ((configure x a).operation_action o ty)
      ≡ ((operation_number o == 0) && is_xlen_vt x ty)
        || (((operation_number o == 2) && is_other_vt ty)
            || ((operation_number o == 3) && is_xlen_vt x ty))
unfolding configure set_operation_action set_load_ext_action operation_number
is_custom-configure x a o ty start = ground (arith, start)

-- SDNode::getOpcode: the operation of a node, by which the views of the three operations of
-- LowerOperation are told.
pub record Opcodes (d : Dag) : Type 0 where
  pub get_opcode : d.Value → Operation
  pub opcode_brcond :
      (op : d.Value)
      → get_opcode op ≡ brcond_op
      → (chain : d.Value) × (cond : d.Value) × (dest : d.Value) × (d.view op
          ≡ brcond chain cond dest)
  pub brcond_opcode :
      (op chain cond dest : d.Value)
      → d.view op ≡ brcond chain cond dest
      → get_opcode op ≡ brcond_op
  pub opcode_address :
      (op : d.Value)
      → get_opcode op ≡ global_address_op
      → (g : ℕ) × (offset : ℕ) × (d.view op ≡ global_address g offset)
  pub address_opcode :
      (op : d.Value) (g offset : ℕ)
      → d.view op ≡ global_address g offset
      → get_opcode op ≡ global_address_op
  pub opcode_select :
      (op : d.Value)
      → get_opcode op ≡ select_op
      → (cond : d.Value) × (true_v : d.Value) × (false_v : d.Value) × (d.view op
          ≡ select cond true_v false_v)
  pub select_opcode :
      (op cond true_v false_v : d.Value)
      → d.view op ≡ select cond true_v false_v
      → get_opcode op ≡ select_op

which_operation :
    (x : XLen) (o : Operation) (ty : Mvt)
    → ((operation_number o == 0) && is_xlen_vt x ty)
        || (((operation_number o == 2) && is_other_vt ty)
            || ((operation_number o == 3) && is_xlen_vt x ty))
      ≡ true
    → ((o ≡ brcond_op) × (is_other_vt ty ≡ true))
      ⊎ ((o ≡ global_address_op) × (is_xlen_vt x ty ≡ true))
      ⊎ ((o ≡ select_op) × (is_xlen_vt x ty ≡ true))
unfolding operation_number
which_operation x brcond_op ty h = inl (refl, ground (arith, h))
which_operation x global_address_op ty h = inr (inl (refl, ground (arith, h)))
which_operation x select_op ty h = inr (inr (refl, ground (arith, h)))
which_operation x _ ty h = absurd (ground (arith, h))

module _ (d : Dag) (t : Target) (c : Opcodes d) where
  open d use {Value, xlen, view, value_type}
  open c use {get_opcode}

  -- A branch on a condition, or an address or a select of the register width, with the case of
  -- LowerOperation that lowers it.
  abbrev pub IsHandled : Value → Type 0
  IsHandled op =
      ((chain : Value) × (cond : Value) × (dest : Value) × (view op ≡ brcond chain cond dest)
        × (is_other_vt (value_type op) ≡ true)
        × (lower_operation d t op ≡ ok (lower_brcond d chain cond dest (value_type op))))
      ⊎ ((g : ℕ) × (offset : ℕ) × (view op ≡ global_address g offset)
          × (is_xlen_vt xlen (value_type op) ≡ true)
          × (lower_operation d t op ≡ lower_global_address d t g offset (value_type op)))
      ⊎ ((cond : Value) × (true_v : Value) × (false_v : Value) × (view op
            ≡ select cond true_v false_v)
          × (is_xlen_vt xlen (value_type op) ≡ true)
          × (lower_operation d t op ≡ ok (lower_select d cond true_v false_v (value_type op))))

  marked-IsHandled :
      (op : Value)
      → ((get_opcode op ≡ brcond_op) × (is_other_vt (value_type op) ≡ true))
        ⊎ ((get_opcode op ≡ global_address_op) × (is_xlen_vt xlen (value_type op) ≡ true))
        ⊎ ((get_opcode op ≡ select_op) × (is_xlen_vt xlen (value_type op) ≡ true))
      → IsHandled op
  unfolding lower_operation
  marked-IsHandled op (inl (o, ty)) =
      let (chain, cond, dest, e) = c.opcode_brcond op o in
      inl (chain, cond, dest, e, ty, rw (e, lower_operation) refl)
  marked-IsHandled op (inr (inl (o, ty))) =
      let (g, offset, e) = c.opcode_address op o in
      inr (inl (g, offset, e, ty, rw (e, lower_operation) refl))
  marked-IsHandled op (inr (inr (o, ty))) =
      let (cond, true_v, false_v, e) = c.opcode_select op o in
      inr (inr (cond, true_v, false_v, e, ty, rw (e, lower_operation) refl))

  IsHandled-marked :
      (op : Value)
      → IsHandled op
      → ((operation_number (get_opcode op) == 0) && is_xlen_vt xlen (value_type op))
          || (((operation_number (get_opcode op) == 2) && is_other_vt (value_type op))
              || ((operation_number (get_opcode op) == 3) && is_xlen_vt xlen (value_type op)))
        ≡ true
  unfolding operation_number
  IsHandled-marked op (inl (chain, cond, dest, e, ty, run)) =
      rw (c.brcond_opcode op chain cond dest e, ty) refl
  IsHandled-marked op (inr (inl (g, offset, e, ty, run))) =
      rw (c.address_opcode op g offset e, ty) refl
  IsHandled-marked op (inr (inr (cond, true_v, false_v, e, ty, run))) =
      rw (c.select_opcode op cond true_v false_v e, ty) refl

  -- When TargetLowering itself does not mark the operation of a node Custom, the constructor marks
  -- it Custom for the type of the node exactly if the node is a branch on a condition, or an
  -- address of a global or a select of the register width; and these are lowered by their cases of
  -- LowerOperation, not by report_fatal_error of its default.
  pub lower_operation-IsHandled :
      (a : Actions) (op : Value)
      → is_custom (a.operation_action (get_opcode op) (value_type op)) ≡ false
      → (is_custom ((configure xlen a).operation_action (get_opcode op) (value_type op)) ≡ true)
        ↔ IsHandled op
  lower_operation-IsHandled a op start =
      let which = is_custom-configure xlen a (get_opcode op) (value_type op) start in
      (
        λ marked.
            marked-IsHandled op
              (which_operation xlen (get_opcode op) (value_type op) (sym which ∙ marked)),
        λ handled. which ∙ IsHandled-marked op handled,
      )
