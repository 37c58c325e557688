-- ===== src/Lowering/Actions.antt =====
-- The constructor of TOYRISCVTargetLowering in TOYRISCVISelLowering.cpp: what is to be done with the operations of
-- the DAG.
use toy_riscv.Base.{ℕ, ◌+◌, Bool, true, false, ◌&&◌, ◌==◌, if◌then◌else◌, XLen, rv32, rv64}
use toy_riscv.Lowering.Dag.{
  Mvt, i1, i32, i64, other_vt, vector, xlen_vt, is_xlen_vt, Dag, View, brcond, global_address,
  select, setcc, constant, other_view,
}
pub mod Handled

-- TargetLowering::LegalizeAction
pub data LegalizeAction : Type 0 where
  legal promote_action expand lib_call custom : LegalizeAction

-- The operations of ISD that the constructor names, and the others.
pub data Operation : Type 0 where
  global_address_op br_cc_op brcond_op select_op select_cc_op : Operation
  extload_op sextload_op zextload_op : Operation
  other_op : ℕ → Operation

unfoldable pub operation_number : Operation → ℕ
operation_number global_address_op = 0
operation_number br_cc_op = 1
operation_number brcond_op = 2
operation_number select_op = 3
operation_number select_cc_op = 4
operation_number extload_op = 5
operation_number sextload_op = 6
operation_number zextload_op = 7
operation_number (other_op n) = 8 + n

abbrev pub is_other_vt : Mvt → Bool
is_other_vt other_vt = true
is_other_vt _ = false

-- The tables of TargetLowering: actions of operations on a type, actions of loads from a type into another.
pub record Actions : Type 0 where
  pub operation_action : Operation → Mvt → LegalizeAction
  pub load_ext_action : Operation → Mvt → Mvt → LegalizeAction

-- setOperationAction, on a type that a test recognises.
unfoldable pub set_operation_action : Operation → (Mvt → Bool) → LegalizeAction → Actions → Actions
set_operation_action o is_type action a = record a {
  operation_action = λ p ty.
      if (operation_number p == operation_number o) && is_type ty
      then action
      else a.operation_action p ty;
}

abbrev pub is_i1 : Mvt → Bool
is_i1 i1 = true
is_i1 _ = false

-- setLoadExtAction
unfoldable pub set_load_ext_action :
    Operation → (Mvt → Bool) → (Mvt → Bool) → LegalizeAction → Actions → Actions
set_load_ext_action o is_value is_memory action a = record a {
  load_ext_action = λ p ty memory.
      if (operation_number p == operation_number o) && (is_value ty && is_memory memory)
      then action
      else a.load_ext_action p ty memory;
}

-- The constructor, from the actions that TargetLowering starts with.
unfoldable pub configure : XLen → Actions → Actions
configure x a =
    let promoted = set_load_ext_action zextload_op (is_xlen_vt x) is_i1 promote_action (
      set_load_ext_action sextload_op (is_xlen_vt x) is_i1 promote_action
        (set_load_ext_action extload_op (is_xlen_vt x) is_i1 promote_action a)) in
    set_operation_action select_cc_op (is_xlen_vt x) expand (
      set_operation_action select_op (is_xlen_vt x) custom (
        set_operation_action brcond_op is_other_vt custom (
          set_operation_action br_cc_op (is_xlen_vt x) expand
            (set_operation_action global_address_op (is_xlen_vt x) custom promoted))))

abbrev pub is_custom : LegalizeAction → Bool
is_custom custom = true
is_custom _ = false
