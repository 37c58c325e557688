-- ===== src/Lowering/Custom.antt =====
-- LowerOperation of TOYRISCVISelLowering.cpp and the functions that it calls: lowerBRCOND,
-- lowerSELECT, getAddr and lowerGlobalAddress.
pub mod Branches
pub mod Selects
pub mod Addresses
pub mod Operations
use toy_riscv.Base.{
  ℕ, ◌+◌, ◌-◌, ◌%◌, ◌≡◌, Bool, true, false, not, ◌&&◌, Option, none, some, ◌==◌, if◌then◌else◌,
  modulus, Outcome, ok, stop, fatal_error, ◌>>=◌, sub_word, add_word, XLen,
}
use toy_riscv.Mc.BaseInfo.{OperandFlag, mo_none, mo_lo, mo_hi}
use toy_riscv.Lowering.Dag.{
  Dag, Mvt, i1, vector, is_vector, is_scalable_vector, change_vector_element_type, xlen_vt,
  is_xlen_vt, CondCode, setne, setlt, View, brcond, global_address, select, setcc, constant,
  other_view, add, sub, vselect, splat_vector, splat_build_vector, select_cc, br_cc, pseudo_lla,
  pseudo_la, machine_lui, machine_addi,
}
use toy_riscv.Lowering.Cond.{Comparison, translate_set_cc_for_branch, is_setlt}

-- CodeModel::Small and Medium, and the models that the target does not support.
pub data CodeModel : Type 0 where
  small_model medium_model other_model : CodeModel

-- What the target machine and the global values answer.
pub record Target : Type 0 where
  pub is_position_independent : Bool
  pub code_model : CodeModel
  pub should_assume_dso_local : ℕ → Bool

module _ (d : Dag) where
  open d use {Value, xlen, view, value_type, get_constant, get_node, get_target_global_address}

  -- isa<ConstantSDNode> and getAPIntValue.
  unfoldable pub constant_value : Value → Option ℕ
  constant_value v = elim (view v) [ constant n ↦ some n | _ ↦ none ]

  -- The comparison of a SETCC node on operands of the register width.
  unfoldable pub word_setcc : Value → Option (Comparison Value)
  word_setcc v = elim (view v) [
    | setcc l r cc ↦
        if is_xlen_vt xlen (value_type l) then some (record { lhs = l; rhs = r; cc = cc }) else none
    | _ ↦ none
  ]

  unfoldable pub lower_brcond : Value → Value → Value → Mvt → Value
  lower_brcond chain cond dest ty = elim (word_setcc cond) [
    | some c ↦
        let c' = translate_set_cc_for_branch d c in
        get_node (br_cc chain c'.lhs c'.rhs c'.cc dest) ty
    | none ↦ get_node (br_cc chain cond (get_constant 0 (xlen_vt xlen)) setne dest) ty
  ]

  -- The node for a select of two constants that differ by one. The differences are those of APInt,
  -- which wrap.
  unfoldable pub select_of_constants : Value → Value → Value → Mvt → Option Value
  select_of_constants cond true_v false_v ty = elim (constant_value true_v) [
    | none ↦ none
    | some t ↦ elim (constant_value false_v) [
      | none ↦ none
      | some f ↦
          if sub_word xlen t 1 == f
          then some (get_node (add cond false_v) ty)
          else if add_word xlen t 1 == f
          then some (get_node (sub false_v cond) ty)
          else none
    ]
  ]

  unfoldable pub select_of_comparison : Comparison Value → Value → Value → Value → Mvt → Value
  select_of_comparison c cond true_v false_v ty =
      let c' = translate_set_cc_for_branch d c in
      let general = get_node (select_cc c'.lhs c'.rhs c'.cc true_v false_v) ty in
      if is_setlt c.cc
      then elim (select_of_constants cond true_v false_v ty) [ some v ↦ v | none ↦ general ]
      else general

  unfoldable pub lower_scalar_select : Value → Value → Value → Mvt → Value
  lower_scalar_select cond true_v false_v ty =
      let zero_test =
        get_node (select_cc cond (get_constant 0 (xlen_vt xlen)) setne true_v false_v) ty in
      if is_xlen_vt xlen ty
      then elim (word_setcc cond) [
        | some c ↦ select_of_comparison c cond true_v false_v ty
        | none ↦ zero_test
      ]
      else zero_test

  unfoldable pub lower_select : Value → Value → Value → Mvt → Value
  lower_select cond true_v false_v ty =
      if is_vector ty
      then (let splat_ty = change_vector_element_type ty i1 in
          let splat =
            if is_scalable_vector ty
            then get_node (splat_vector cond) splat_ty
            else get_node (splat_build_vector cond) splat_ty in
          get_node (vselect splat true_v false_v) ty)
      else lower_scalar_select cond true_v false_v ty

  module _ (t : Target) where
    open t use {is_position_independent, code_model, should_assume_dso_local}

    -- The pointer type is that of the register width.
    unfoldable pub get_addr : ℕ → Bool → Outcome Value
    get_addr g is_local =
        let ty = xlen_vt xlen in
        let plain = get_target_global_address g ty mo_none in
        if is_position_independent
        then (if is_local
            then ok (get_node (pseudo_lla plain) ty)
            else ok (get_node (pseudo_la plain) ty))
        else elim code_model [
          | other_model ↦ stop (fatal_error "Unsupported code model for lowering")
          | small_model ↦ ok (
              get_node
                (machine_addi (get_node (machine_lui (get_target_global_address g ty mo_hi)) ty)
                  (get_target_global_address g ty mo_lo))
                ty)
          | medium_model ↦ ok (get_node (pseudo_lla plain) ty)
        ]

    unfoldable pub lower_global_address : ℕ → ℕ → Mvt → Outcome Value
    lower_global_address g offset ty = get_addr g (should_assume_dso_local g) >>= λ addr.
        if not (offset == 0)
        then ok (get_node (add addr (get_constant offset (xlen_vt xlen))) ty)
        else ok addr

    unfoldable pub lower_operation : Value → Outcome Value
    lower_operation op = elim (view op) [
      | brcond chain cond dest ↦ ok (lower_brcond chain cond dest (value_type op))
      | global_address g offset ↦ lower_global_address g offset (value_type op)
      | select cond true_v false_v ↦ ok (lower_select cond true_v false_v (value_type op))
      | _ ↦ stop (fatal_error "unimplemented operand")
    ]
