-- ===== src/Lowering/Tests.antt =====
-- The theorems about lowering at nodes of the sample DAG, and runs of the functions.
use toy_riscv.Base.{◌==◌, ◌^◌, ◌-◌, ◌≡◌, refl, true, false, some, rv32, add_word, ok, ◌↔◌}
use toy_riscv.Lowering.Dag.{i32, setgt, setlt, setult}
use toy_riscv.Lowering.Cond.{
  Comparison, translate_set_cc_for_branch, IsWordComparison, branch_opcode, takes, BranchOpcode,
  bge,
}
use toy_riscv.Lowering.Cond.Preserve.{truth, truth-translate, branch_opcode-translate}
use toy_riscv.Lowering.Custom.{
  Target, small_model, medium_model, lower_brcond, lower_scalar_select, get_addr,
  lower_global_address, lower_operation, select_of_constants, select_of_comparison, word_setcc,
  constant_value,
}
use toy_riscv.Lowering.Custom.Branches.{branch-lower_brcond}
use toy_riscv.Lowering.Custom.Selects.{eval-lower_scalar_select}
use toy_riscv.Lowering.Custom.Addresses.{
  CanAddress, entry_near, get_addr_iff, eval-lower_global_address,
}
use toy_riscv.Lowering.Custom.Operations.{IsCustom, select_op, lower_operation-same}
use toy_riscv.Lowering.Actions.{
  Actions, legal, configure, set_operation_action, set_load_ext_action, is_custom, operation_number,
}
use toy_riscv.Lowering.Actions.Handled.{IsHandled, lower_operation-IsHandled}
use toy_riscv.Lowering.Sample.{
  Term, reg, entry, block, const, select_term, setcc_term, add_term, value, place, branch_of,
  sample_dag, sample_meaning, sample_opcodes, operation_of, br_cc_term, sample_relocations,
}

-- x > -1
abbrev above_minus_one : Comparison Term
above_minus_one = record { lhs = reg 5; rhs = const (2 ^ 32 - 1); cc = setgt }

above_minus_one-words : IsWordComparison sample_dag above_minus_one
above_minus_one-words = record { lhs_type = refl; rhs_type = refl }

truth-translate_example :
    truth sample_dag sample_meaning (translate_set_cc_for_branch sample_dag above_minus_one) ≡ true
truth-translate_example =
    truth-translate sample_dag sample_meaning above_minus_one above_minus_one-words

branch_opcode-translate_example :
    let c' = translate_set_cc_for_branch sample_dag above_minus_one in
    (o : BranchOpcode) × (branch_opcode c'.cc ≡ ok o)
    × (takes rv32 o (value c'.lhs) (value c'.rhs) ≡ true)
branch_opcode-translate_example =
    branch_opcode-translate sample_dag sample_meaning above_minus_one above_minus_one-words refl

above_minus_one_is_bge :
    branch_opcode (translate_set_cc_for_branch sample_dag above_minus_one).cc ≡ ok bge
unfolding branch_opcode translate_set_cc_for_branch
above_minus_one_is_bge = refl

-- br (5 <u 7), block 1
abbrev less : Term
less = setcc_term (reg 5) (reg 7) setult

branch-lower_brcond_example :
    branch_of (lower_brcond sample_dag entry less (block 1) i32) ≡ some (entry, true, block 1)
branch-lower_brcond_example = branch-lower_brcond sample_dag sample_meaning entry less (block 1) i32

-- select (3 < 4), 10, 9
abbrev signed_less : Term
signed_less = setcc_term (reg 3) (reg 4) setlt

eval-lower_scalar_select_example :
    value (lower_scalar_select sample_dag signed_less (const 10) (const 9) i32) ≡ 10
eval-lower_scalar_select_example =
    eval-lower_scalar_select sample_dag sample_meaning signed_less (const 10) (const 9) i32 refl

adjacent_constants :
    lower_scalar_select sample_dag signed_less (const 10) (const 9) i32
    ≡ add_term signed_less (const 9)
unfolding lower_scalar_select select_of_comparison select_of_constants word_setcc constant_value
adjacent_constants = refl

abbrev small : Target
small = record {
  is_position_independent = false;
  code_model = small_model;
  should_assume_dso_local = λ g. true;
}

-- Position-independent code, where global 1 is local and the others are in the table.
abbrev shared : Target
shared = record {
  is_position_independent = true;
  code_model = medium_model;
  should_assume_dso_local = λ g. g == 1;
}

get_addr_iff_example :
    ((v : Term) × (get_addr sample_dag shared 1 true ≡ ok v) × (value v ≡ place 1))
    ↔ CanAddress sample_dag sample_meaning shared (sample_relocations shared) 1
get_addr_iff_example =
    get_addr_iff sample_dag sample_meaning shared (sample_relocations shared) 1 refl

eval-lower_global_address_example :
    (v : Term) × (lower_global_address sample_dag shared 2 8 i32 ≡ ok v)
    × (value v ≡ add_word rv32 (place 2) 8)
eval-lower_global_address_example =
    eval-lower_global_address sample_dag sample_meaning shared (sample_relocations shared) 2 8 i32
      (entry_near refl refl tt)

abbrev choose : Term
choose = select_term less (reg 20) (reg 30)

choose-IsCustom : IsCustom sample_dag sample_meaning small (sample_relocations small) choose
choose-IsCustom = select_op less (reg 20) (reg 30) refl refl

lower_operation-same_example :
    (v : Term) × (lower_operation sample_dag small choose ≡ ok v) × (value v ≡ 20)
lower_operation-same_example =
    lower_operation-same sample_dag sample_meaning small (sample_relocations small) choose
      choose-IsCustom

-- TargetLowering starts with every operation legal.
abbrev all_legal : Actions
all_legal = record { operation_action = λ o ty. legal; load_ext_action = λ o ty memory. legal }

lower_operation-IsHandled_example :
    (is_custom ((configure rv32 all_legal).operation_action (operation_of choose) i32) ≡ true)
    ↔ IsHandled sample_dag small sample_opcodes choose
lower_operation-IsHandled_example =
    lower_operation-IsHandled sample_dag small sample_opcodes all_legal choose refl

-- A BR_CC node is expanded, so that LowerOperation does not see it.
br_cc_expanded :
    is_custom (
      (configure rv32 all_legal).operation_action
        (operation_of (br_cc_term entry (reg 3) (reg 4) setlt (block 1)))
        i32)
    ≡ false
unfolding configure set_operation_action set_load_ext_action operation_number
br_cc_expanded = refl
