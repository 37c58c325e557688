-- ===== src/Calls/Conventions.antt =====
-- The conventions of TOYRISCVCallingConv.td, and the registers of TOYRISCVRegisterInfo.td that they name.
use mathlib.Core.Option
use toy_riscv.Base.{
  ℕ, ◌+◌, Bool, true, false, ◌||◌, ◌==◌, if◌then◌else◌, List, [], ◌∷◌, ◌++◌, Option, none, some,
  ◌≡◌, Outcome, ok, stop, Failure,
}

-- The registers that arguments and results are passed in.
pub data Register : Type 0 where
  a0 a1 a2 a3 a4 a5 a6 a7 : Register

-- HWEncoding
unfoldable pub encoding : Register → ℕ
encoding a0 = 10
encoding a1 = 11
encoding a2 = 12
encoding a3 = 13
encoding a4 = 14
encoding a5 = 15
encoding a6 = 16
encoding a7 = 17

-- The types that the conventions name, and the others.
pub data ValueType : Type 0 where
  i8 i16 i32 i64 : ValueType
  other_type : ℕ → ValueType

-- Where a value is passed, with the type of the location: CCValAssign.
pub data Location : Type 0 where
  reg_loc : Register → ValueType → Location
  stack_loc : ℕ → ValueType → Location

-- What CCState knows while it assigns: the registers that are taken, and the bytes of the stack.
pub record Assigned : Type 0 where
  pub used : List Register
  pub stack : ℕ

abbrev pub nothing_assigned : Assigned
nothing_assigned = record { used = []; stack = 0 }

unfoldable pub is_used : Register → List Register → Bool
unfolding encoding
is_used r [] = false
is_used r (u ∷ us) = (encoding r == encoding u) || is_used r us

-- CCAssignToReg takes the first register of its list that is not taken.
unfoldable pub first_free : List Register → List Register → Option Register
first_free [] used = none
first_free (r ∷ rs) used = let rest = first_free rs used in if is_used r used then rest else some r

abbrev pub assign_found : ValueType → Assigned → Option Register → Option (Location × Assigned)
assign_found t a none = none
assign_found t a (some r) = some (reg_loc r t, record a { used = a.used ++ (r ∷ []) })

abbrev pub assign_to_reg : List Register → ValueType → Assigned → Option (Location × Assigned)
assign_to_reg rs t a = assign_found t a (first_free rs a.used)

-- CCAssignToStack<8, 8>
abbrev pub assign_to_stack : ValueType → Assigned → Location × Assigned
assign_to_stack t a = (stack_loc a.stack t, record a { stack = a.stack + 8 })

abbrev pub or_stack :
    ValueType → Assigned → Option (Location × Assigned) → Option (Location × Assigned)
or_stack t a none = some (assign_to_stack t a)
or_stack t a (some r) = some r

abbrev pub argument_regs : List Register
argument_regs = a0 ∷ a1 ∷ a2 ∷ a3 ∷ a4 ∷ a5 ∷ a6 ∷ a7 ∷ []

abbrev pub return_regs : List Register
return_regs = a0 ∷ a1 ∷ []

-- CCPromoteToType<i32> of i8 and i16
unfoldable pub promote : ValueType → ValueType
promote i8 = i32
promote i16 = i32
promote t = t

unfoldable pub is_i32_or_i64 : ValueType → Bool
is_i32_or_i64 i32 = true
is_i32_or_i64 i64 = true
is_i32_or_i64 _ = false

unfoldable pub cc_riscv32 : ValueType → Assigned → Option (Location × Assigned)
cc_riscv32 t a =
    let vt = promote t in
    or_stack vt a (if is_i32_or_i64 vt then assign_to_reg argument_regs vt a else none)

unfoldable pub ret_cc_riscv32 : ValueType → Assigned → Option (Location × Assigned)
ret_cc_riscv32 t a = if is_i32_or_i64 t then assign_to_reg return_regs t a else none

-- A convention on one value after the other.
abbrev pub Convention : Type 0
Convention = ValueType → Assigned → Option (Location × Assigned)

abbrev pub with_rest :
    (Assigned → Option (List Location)) → Option (Location × Assigned) → Option (List Location)
with_rest next none = none
with_rest next (some (l, a)) = Option.map (◌∷◌ l) (next a)

unfoldable pub assign_all : Convention → Assigned → List ValueType → Option (List Location)
assign_all f a [] = some []
assign_all f a (t ∷ ts) = with_rest (λ a'. assign_all f a' ts) (f t a)

-- CCState of LLVM: AnalyzeFormalArguments and AnalyzeReturn pass each type to the convention, and stop the
-- compiler if the convention finds no location.
pub record CallState : Type 0 where
  pub analyze_formal_arguments : Convention → List ValueType → Outcome (List Location)
  pub analyze_return : Convention → List ValueType → Outcome (List Location)

-- The documented behaviour of the two.
pub record IsAnalysis (analyze : Convention → List ValueType → Outcome (List Location))
    : Type 0 where
  pub finds :
      (f : Convention) (ts : List ValueType) (ls : List Location)
      → assign_all f nothing_assigned ts ≡ some ls
      → analyze f ts ≡ ok ls
  pub stops :
      (f : Convention) (ts : List ValueType)
      → assign_all f nothing_assigned ts ≡ none
      → (e : Failure) × (analyze f ts ≡ stop e)
