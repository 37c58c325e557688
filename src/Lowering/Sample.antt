-- ===== src/Lowering/Sample.antt =====
-- A concrete DAG on RV32, for the tests: a node is a tree, every node is a word, and the records of
-- laws hold of it.
use toy_riscv.Base.{
  ℕ, ◌+◌, ◌-◌, ◌*◌, ◌%◌, ◌^◌, ◌<◌, ◌≡◌, refl, Bool, true, false, not, Option, none, some, ◌==◌,
  if◌then◌else◌, rv32, modulus, arith, add_word, sub_word,
}
use toy_riscv.Mc.BaseInfo.{OperandFlag, mo_none, mo_lo, mo_hi}
use toy_riscv.Lowering.Dag.{
  Dag, Meaning, Mvt, i32, CondCode, setlt, setge, setult, setuge, setgt, setle, setugt, setule,
  View, brcond, global_address, select, setcc, constant, other_view, Node, add, sub, vselect,
  splat_vector, splat_build_vector, select_cc, br_cc, pseudo_lla, pseudo_la, machine_lui,
  machine_addi, holds,
}
use toy_riscv.Lowering.Actions.{
  Operation, brcond_op, global_address_op, select_op, select_cc_op, br_cc_op, other_op,
}
use toy_riscv.Lowering.Actions.Handled.{Opcodes}
use toy_riscv.Lowering.Custom.{Target}
use toy_riscv.Lowering.Custom.Addresses.{Relocations, pcrel_result, hi_field, lo_field, lui_result}

pub data Term : Type 0 where
  -- a virtual register with its value, the entry of a chain, and a basic block
  reg : ℕ → Term
  entry : Term
  block : ℕ → Term
  const : ℕ → Term
  brcond_term : Term → Term → Term → Term
  global_term : ℕ → ℕ → Term
  select_term : Term → Term → Term → Term
  setcc_term : Term → Term → CondCode → Term
  symbol : ℕ → OperandFlag → Term
  add_term sub_term : Term → Term → Term
  vector_term : Term → Term
  select_cc_term : Term → Term → CondCode → Term → Term → Term
  br_cc_term : Term → Term → Term → CondCode → Term → Term
  auipc_term : Term → Term
  load_term : Term → Term
  lui_term : Term → Term

-- Global g stands at this address.
abbrev pub place : ℕ → ℕ
place g = (0x12345 * g + 0x7ff00fff) % 2 ^ 32

-- The instructions that address a global stand here, its entry in the table 4096 bytes after the global.
abbrev pub instructions : ℕ → ℕ
instructions g = 0x10000

abbrev pub table : ℕ → ℕ
table a = (a + 0x1000) % 2 ^ 32

abbrev pub slots : ℕ → ℕ
slots a = (a + (2 ^ 32 - 0x1000)) % 2 ^ 32

abbrev pub no_code : ℕ → ℕ → ℕ → Bool
no_code n a b = false

abbrev pub value : Term → ℕ
value (reg n) = n % 2 ^ 32
value entry = 0
value (block n) = 0
value (const n) = n % 2 ^ 32
value (brcond_term c v d) = 0
value (global_term g n) = add_word rv32 (place g) (n % 2 ^ 32)
value (select_term c t f) = if value c == 0 then value f else value t
value (setcc_term l r cc) = if holds no_code rv32 cc (value l) (value r) then 1 else 0
value (symbol g mo_none) = place g
value (symbol g mo_hi) = hi_field (place g)
value (symbol g mo_lo) = lo_field rv32 (place g)
value (symbol g _) = 0
value (add_term a b) = add_word rv32 (value a) (value b)
value (sub_term a b) = sub_word rv32 (value a) (value b)
value (vector_term a) = 0
value (select_cc_term l r cc t f) =
    if holds no_code rv32 cc (value l) (value r) then value t else value f
value (br_cc_term c l r cc d) = 0
value (auipc_term a) = pcrel_result rv32 (instructions 0) (value a)
value (load_term a) = slots (pcrel_result rv32 (instructions 0) (table (value a)))
value (lui_term a) = value a * 2 ^ 12 % 2 ^ 32

abbrev pub look : Term → View Term
look (brcond_term c v d) = brcond c v d
look (global_term g n) = global_address g n
look (select_term c t f) = select c t f
look (setcc_term l r cc) = setcc l r cc
look (const n) = constant (n % 2 ^ 32)
look _ = other_view

abbrev pub build : Node Term → Mvt → Term
build (add a b) t = add_term a b
build (sub a b) t = sub_term a b
build (vselect a b c) t = vector_term a
build (splat_vector a) t = vector_term a
build (splat_build_vector a) t = vector_term a
build (select_cc l r cc a b) t = select_cc_term l r cc a b
build (br_cc c l r cc d) t = br_cc_term c l r cc d
build (pseudo_lla a) t = auipc_term a
build (pseudo_la a) t = load_term a
build (machine_lui a) t = lui_term a
build (machine_addi a b) t = add_term a b

abbrev pub swap_code : CondCode → CondCode
swap_code setgt = setlt
swap_code setle = setge
swap_code setugt = setult
swap_code setule = setuge
swap_code setlt = setgt
swap_code setge = setle
swap_code setult = setugt
swap_code setuge = setule
swap_code cc = cc

abbrev pub is_const : ℕ → Term → Bool
is_const k (const n) = n % 2 ^ 32 == k
is_const k _ = false

abbrev pub sample_dag : Dag
sample_dag = record {
  Value = Term;
  xlen = rv32;
  view = look;
  value_type = λ v. i32;
  get_constant = λ n t. const n;
  get_node = build;
  get_target_global_address = λ g t f. symbol g f;
  is_all_ones_constant = is_const (2 ^ 32 - 1);
  is_one_constant = is_const 1;
  swapped_operands = swap_code;
}

abbrev pub branch_of : Term → Option (Term × Bool × Term)
branch_of (brcond_term c v d) = some (c, not (value v == 0), d)
branch_of (br_cc_term c l r cc d) = some (c, holds no_code rv32 cc (value l) (value r), d)
branch_of _ = none

pub value-lt : (v : Term) → value v < 2 ^ 32
value-lt (select_term c t f) = ground (arith, value-lt t, value-lt f)
value-lt (select_cc_term l r cc t f) = ground (arith, value-lt t, value-lt f)
value-lt (symbol g f) = ground arith
value-lt (setcc_term l r cc) = ground arith
value-lt _ = omega arith

pub all_ones_const :
    (v : Term) → is_const (2 ^ 32 - 1) v ≡ true → i32 ≡ i32 → value v ≡ modulus rv32 - 1
all_ones_const (const n) h e = ground arith
all_ones_const _ h e = cc

pub one_const : (v : Term) → is_const 1 v ≡ true → value v ≡ 1
one_const (const n) h = ground arith
one_const _ h = cc

pub constant_law : (v : Term) (n : ℕ) → look v ≡ constant n → value v ≡ n
constant_law (const k) n h = cc
constant_law _ n h = cc

pub setcc_law :
    (v l r : Term) (cc : CondCode)
    → look v ≡ setcc l r cc
    → i32 ≡ i32
    → value v ≡ (if holds no_code rv32 cc (value l) (value r) then 1 else 0)
setcc_law (setcc_term a b c) l r cc h e = ground arith
setcc_law _ l r cc h e = ground arith

pub select_law :
    (v c t f : Term) → look v ≡ select c t f → value v ≡ (if value c == 0 then value f else value t)
select_law (select_term a b e) c t f h = ground arith
select_law _ c t f h = cc

pub global_law :
    (v : Term) (g offset : ℕ)
    → look v ≡ global_address g offset
    → value v ≡ add_word rv32 (place g) (offset % modulus rv32)
global_law (global_term a n) g offset h = ground arith
global_law _ g offset h = cc

pub brcond_law :
    (v chain c dest : Term)
    → look v ≡ brcond chain c dest
    → branch_of v ≡ some (chain, not (value c == 0), dest)
brcond_law (brcond_term a b e) chain c dest h = ground arith
brcond_law _ chain c dest h = cc

pub lui_law :
    (a : Term) (t : Mvt) → value a < 2 ^ 20 → value (lui_term a) ≡ lui_result rv32 (value a)
lui_law a t h = omega arith

abbrev pub sample_meaning : Meaning sample_dag
sample_meaning = record {
  eval = value;
  branch = branch_of;
  address = place;
  other = no_code;
  eval-lt = λ v e. value-lt v;
  all_ones = all_ones_const;
  one = one_const;
  swapped_gt = refl;
  swapped_le = refl;
  swapped_ugt = refl;
  swapped_ule = refl;
  eval_constant = constant_law;
  eval_setcc = setcc_law;
  setcc_types = λ v l r cc e. refl;
  eval_select = select_law;
  select_types = λ v c t f e. (refl, refl);
  eval_global_address = global_law;
  branch_brcond = brcond_law;
  eval-get_constant = λ n. refl;
  eval-add = λ a b t. refl;
  eval-sub = λ a b t. refl;
  eval-select_cc = λ l r cc a b t. refl;
  branch-br_cc = λ c l r cc d t. refl;
}

pub slots-table : (g : ℕ) → slots (table (place g)) ≡ place g
slots-table g = omega arith

pub table-lt : (a : ℕ) → table a < 2 ^ 32
table-lt a = omega arith

-- All globals are local to the linked object, whatever the target assumes.
abbrev pub sample_relocations : (t : Target) → Relocations sample_dag sample_meaning t
sample_relocations t = record {
  definition = place;
  pc = instructions;
  got = λ g. table (place g);
  load = slots;
  address-lt = λ g. omega arith;
  definition-lt = λ g. omega arith;
  pc-lt = λ g. omega arith;
  got-lt = λ g. table-lt (place g);
  definition_local = λ g h. refl;
  definition_fixed = λ g h. refl;
  load-got = slots-table;
  eval-pseudo_lla = λ g ty. refl;
  eval-pseudo_la = λ g ty. refl;
  eval_hi = λ g ty. refl;
  eval_lo = λ g ty. refl;
  eval-machine_lui = lui_law;
  eval-machine_addi = λ a b ty. refl;
}

-- The operation of a node.
abbrev pub operation_of : Term → Operation
operation_of (brcond_term c v d) = brcond_op
operation_of (global_term g n) = global_address_op
operation_of (select_term c t f) = select_op
operation_of (select_cc_term l r cc t f) = select_cc_op
operation_of (br_cc_term c l r cc d) = br_cc_op
operation_of _ = other_op 0

pub find_brcond :
    (op : Term)
    → operation_of op ≡ brcond_op
    → (chain : Term) × (c : Term) × (dest : Term) × (look op ≡ brcond chain c dest)
find_brcond (brcond_term a b e) h = (a, b, e, refl)
find_brcond _ h = cc

pub find_address :
    (op : Term)
    → operation_of op ≡ global_address_op
    → (g : ℕ) × (offset : ℕ) × (look op ≡ global_address g offset)
find_address (global_term g n) h = (g, n, refl)
find_address _ h = cc

pub find_select :
    (op : Term)
    → operation_of op ≡ select_op
    → (c : Term) × (t : Term) × (f : Term) × (look op ≡ select c t f)
find_select (select_term c t f) h = (c, t, f, refl)
find_select _ h = cc

pub is_brcond : (op a b e : Term) → look op ≡ brcond a b e → operation_of op ≡ brcond_op
is_brcond (brcond_term x y z) a b e h = refl
is_brcond _ a b e h = cc

pub is_address :
    (op : Term) (g n : ℕ) → look op ≡ global_address g n → operation_of op ≡ global_address_op
is_address (global_term x y) g n h = refl
is_address _ g n h = cc

pub is_select : (op a b e : Term) → look op ≡ select a b e → operation_of op ≡ select_op
is_select (select_term x y z) a b e h = refl
is_select _ a b e h = cc

abbrev pub sample_opcodes : Opcodes sample_dag
sample_opcodes = record {
  get_opcode = operation_of;
  opcode_brcond = find_brcond;
  brcond_opcode = is_brcond;
  opcode_address = find_address;
  address_opcode = is_address;
  opcode_select = find_select;
  select_opcode = is_select;
}
