-- ===== src/Lowering/Dag.antt =====
-- What the lowering uses of llvm::SelectionDAG: the nodes that it reads, the nodes that it builds, and
-- what these compute. The DAG itself is LLVM's, so it is a record of operations, and the documented
-- meaning of its nodes a record of laws over it. Debug locations are left out.
use toy_riscv.Base.{
  ℕ, ◌-◌, ◌%◌, ◌<◌, ◌≡◌, Bool, true, false, not, Option, some, ltb, ◌==◌, if◌then◌else◌, XLen, rv32,
  rv64, modulus, signed_lt, add_word, sub_word, arith,
}
use toy_riscv.Mc.BaseInfo.{OperandFlag}

-- The value types that the code names; a vector says whether it is scalable.
pub data Mvt : Type 0 where
  i1 i32 i64 other_vt : Mvt
  vector : Bool → ℕ → Mvt → Mvt

abbrev pub is_vector : Mvt → Bool
is_vector (vector s n t) = true
is_vector _ = false

abbrev pub is_scalable_vector : Mvt → Bool
is_scalable_vector (vector s n t) = s
is_scalable_vector _ = false

abbrev pub change_vector_element_type : Mvt → Mvt → Mvt
change_vector_element_type (vector s n t) u = vector s n u
change_vector_element_type t u = t

-- Subtarget.getXLenVT(), and the test against it.
abbrev pub xlen_vt : XLen → Mvt
xlen_vt rv32 = i32
xlen_vt rv64 = i64

abbrev pub is_xlen_vt : XLen → Mvt → Bool
is_xlen_vt rv32 i32 = true
is_xlen_vt rv64 i64 = true
is_xlen_vt _ _ = false

pub is_xlen_vt_sound : (x : XLen) (t : Mvt) → is_xlen_vt x t ≡ true → t ≡ xlen_vt x
is_xlen_vt_sound x t h = ground arith

-- The integer codes of ISD::CondCode that the target names, and any other.
pub data CondCode : Type 0 where
  seteq setne setlt setge setult setuge setgt setle setugt setule : CondCode
  other_cc : ℕ → CondCode

-- What the code reads of a node. A global and a frame index are numbers; an int64_t offset is its
-- bit pattern.
pub data View (V : Type 0) : Type 0 where
  brcond : V → V → V → View V
  global_address : ℕ → ℕ → View V
  select : V → V → V → View V
  setcc : V → V → CondCode → View V
  constant : ℕ → View V
  other_view : View V

-- The nodes that the code builds: those of ISD and TOYRISCVISD, and machine instructions.
pub data Node (V : Type 0) : Type 0 where
  add sub : V → V → Node V
  vselect : V → V → V → Node V
  splat_vector splat_build_vector : V → Node V
  select_cc : V → V → CondCode → V → V → Node V
  br_cc : V → V → V → CondCode → V → Node V
  pseudo_lla pseudo_la machine_lui : V → Node V
  machine_addi : V → V → Node V

pub record Dag : Type 1 where
  pub Value : Type 0
  pub xlen : XLen
  pub view : Value → View Value
  pub value_type : Value → Mvt
  pub get_constant : ℕ → Mvt → Value
  pub get_node : Node Value → Mvt → Value
  pub get_target_global_address : ℕ → Mvt → OperandFlag → Value
  pub is_all_ones_constant : Value → Bool
  pub is_one_constant : Value → Bool
  -- ISD::getSetCCSwappedOperands
  pub swapped_operands : CondCode → CondCode

-- Whether a comparison holds of two words; `other` interprets the codes that the target does not name.
abbrev pub holds : (other : ℕ → ℕ → ℕ → Bool) → XLen → CondCode → ℕ → ℕ → Bool
holds other x seteq a b = a == b
holds other x setne a b = not (a == b)
holds other x setlt a b = signed_lt x a b
holds other x setge a b = not (signed_lt x a b)
holds other x setult a b = ltb a b
holds other x setuge a b = not (ltb a b)
holds other x setgt a b = signed_lt x b a
holds other x setle a b = not (signed_lt x b a)
holds other x setugt a b = ltb b a
holds other x setule a b = not (ltb b a)
holds other x (other_cc n) a b = other n a b

-- The values of the nodes of a DAG, and the branches that its control nodes take: the chain, whether
-- the branch is taken, and its destination.
pub record Meaning (d : Dag) : Type 0 where
  pub eval : d.Value → ℕ
  pub branch : d.Value → Option (d.Value × Bool × d.Value)
  pub address : ℕ → ℕ
  pub other : ℕ → ℕ → ℕ → Bool
  pub eval-lt : (v : d.Value) → d.value_type v ≡ xlen_vt d.xlen → eval v < modulus d.xlen
  pub all_ones :
      (v : d.Value)
      → d.is_all_ones_constant v ≡ true
      → d.value_type v ≡ xlen_vt d.xlen
      → eval v ≡ modulus d.xlen - 1
  pub one : (v : d.Value) → d.is_one_constant v ≡ true → eval v ≡ 1
  pub swapped_gt : d.swapped_operands setgt ≡ setlt
  pub swapped_le : d.swapped_operands setle ≡ setge
  pub swapped_ugt : d.swapped_operands setugt ≡ setult
  pub swapped_ule : d.swapped_operands setule ≡ setuge
  -- the nodes that are read
  pub eval_constant : (v : d.Value) (n : ℕ) → d.view v ≡ constant n → eval v ≡ n
  pub eval_setcc :
      (v l r : d.Value) (cc : CondCode)
      → d.view v ≡ setcc l r cc
      → d.value_type l ≡ xlen_vt d.xlen
      → eval v ≡ (if holds other d.xlen cc (eval l) (eval r) then 1 else 0)
  pub setcc_types :
      (v l r : d.Value) (cc : CondCode) → d.view v ≡ setcc l r cc → d.value_type r ≡ d.value_type l
  pub eval_select :
      (v c t f : d.Value)
      → d.view v ≡ select c t f
      → eval v ≡ (if eval c == 0 then eval f else eval t)
  pub select_types :
      (v c t f : d.Value)
      → d.view v ≡ select c t f
      → (d.value_type t ≡ d.value_type v) × (d.value_type f ≡ d.value_type v)
  pub eval_global_address :
      (v : d.Value) (g offset : ℕ)
      → d.view v ≡ global_address g offset
      → eval v ≡ add_word d.xlen (address g) (offset % modulus d.xlen)
  pub branch_brcond :
      (v chain c dest : d.Value)
      → d.view v ≡ brcond chain c dest
      → branch v ≡ some (chain, not (eval c == 0), dest)
  -- the nodes that are built
  pub eval-get_constant : (n : ℕ) → eval (d.get_constant n (xlen_vt d.xlen)) ≡ n % modulus d.xlen
  pub eval-add :
      (a b : d.Value) (t : Mvt) → eval (d.get_node (add a b) t) ≡ add_word d.xlen (eval a) (eval b)
  pub eval-sub :
      (a b : d.Value) (t : Mvt) → eval (d.get_node (sub a b) t) ≡ sub_word d.xlen (eval a) (eval b)
  pub eval-select_cc :
      (l r : d.Value) (cc : CondCode) (a b : d.Value) (t : Mvt)
      → eval (d.get_node (select_cc l r cc a b) t)
        ≡ (if holds other d.xlen cc (eval l) (eval r) then eval a else eval b)
  pub branch-br_cc :
      (chain l r : d.Value) (cc : CondCode) (dest : d.Value) (t : Mvt)
      → branch (d.get_node (br_cc chain l r cc dest) t)
        ≡ some (chain, holds other d.xlen cc (eval l) (eval r), dest)
