-- ===== src/Lowering/Inserter.antt =====
-- EmitInstrWithCustomInserter and emitSelectPseudo of TOYRISCVISelLowering.cpp: a run of select
-- pseudo-instructions on one condition becomes a branch over an empty block, with a PHI for each select.
-- Registers and blocks are numbers.
pub mod Run
pub mod Scan
pub mod Writes
pub mod Straight
pub mod Emit
pub mod Equivalent
pub mod Blocks
pub mod Steps
pub mod Layout
pub mod Follow
pub mod Placed
pub mod Refine
pub mod Tests
use toy_riscv.Base.{
  take, drop, ℕ, zero, suc, ◌+◌, Bool, true, false, not, ◌&&◌, ◌||◌, ◌==◌, if◌then◌else◌, List, [],
  ◌∷◌, ◌++◌, map, any, member, Outcome, ok, stop, unreachable, ◌>>=◌,
}
use toy_riscv.Lowering.Cond.{
  BranchCode, cond_eq, cond_ne, cond_lt, cond_ge, cond_ltu, cond_geu, cond_invalid, BranchOpcode,
  get_br_cond,
}

-- The instructions of a block, as far as the code tells them apart: Select_GPR_Using_CC_GPR with its
-- operands; a debug instruction, numbered; any other, with the registers it defines and uses and the
-- answers of hasUnmodeledSideEffects and mayLoadOrStore; a conditional branch and a jump; a PHI with its
-- incoming registers and blocks.
pub data Instr : Type 0 where
  select_pseudo : (dst lhs rhs : ℕ) → BranchCode → (true_v false_v : ℕ) → Instr
  debug : ℕ → Instr
  plain : (opcode : ℕ) → (defs uses : List ℕ) → (side_effects load_or_store : Bool) → Instr
  branch : BranchOpcode → (lhs rhs target : ℕ) → Instr
  jump : ℕ → Instr
  phi : ℕ → List (ℕ × ℕ) → Instr

-- The values of TOYRISCVCC::CondCode, by which getImm compares.
unfoldable pub code_number : BranchCode → ℕ
code_number cond_eq = 0
code_number cond_ne = 1
code_number cond_lt = 2
code_number cond_ge = 3
code_number cond_ltu = 4
code_number cond_geu = 5
code_number cond_invalid = 6

unfoldable pub is_select_pseudo : Instr → Bool
is_select_pseudo (select_pseudo d l r c t f) = true
is_select_pseudo _ = false

-- The registers that an instruction uses.
unfoldable pub uses : Instr → List ℕ
uses (select_pseudo d l r c t f) = l ∷ r ∷ t ∷ f ∷ []
uses (plain o ds us e m) = us
uses (branch o l r t) = l ∷ r ∷ []
uses (phi d inc) = map (λ p. p.0) inc
uses _ = []

-- hasUnmodeledSideEffects() || mayLoadOrStore()
unfoldable pub is_unsafe : Instr → Bool
is_unsafe (plain o ds us e m) = e || m
is_unsafe _ = false

-- MachineInstr::collectDebugValues of LLVM: the debug instructions, among those that follow a select,
-- that it collects for the select's register.
pub record DebugValues : Type 0 where
  pub collect_debug_values : ℕ → List Instr → List ℕ

-- The condition of the sequence: LHS, RHS and CC of the first select.
pub record Condition : Type 0 where
  pub lhs : ℕ
  pub rhs : ℕ
  pub cc : BranchCode

-- What the scan leaves: the number of instructions from the first select through LastSelectPseudo, and
-- SelectDebugValues.
pub record ScanResult : Type 0 where
  pub last : ℕ
  pub debug_values : List ℕ

-- The test that ends the sequence at a select.
unfoldable pub differs : Condition → List ℕ → ℕ → ℕ → BranchCode → ℕ → ℕ → Bool
unfolding code_number
differs c dests l r code t f =
    not (l == c.lhs)
    || (not (r == c.rhs)
        || (not (code_number code == code_number c.cc) || (member t dests || member f dests)))

-- The test that ends the sequence at another instruction.
unfoldable pub depends : List ℕ → Instr → Bool
depends dests i = is_unsafe i || any (λ r. member r dests) (uses i)

module _ (v : DebugValues) where
  -- The loop over the instructions from the first select on; `pos` of them have been passed.
  unfoldable pub scan :
      Condition
      → (dests : List ℕ) → (pos last : ℕ) → (debug_values : List ℕ) → List Instr
      → ScanResult
  scan c dests pos last ds [] = record { last = last; debug_values = ds }
  scan c dests pos last ds (debug n ∷ is) = scan c dests (pos + 1) last ds is
  scan c dests pos last ds (select_pseudo d l r code t f ∷ is) =
      let rest = scan c (d ∷ dests) (pos + 1) (pos + 1) (ds ++ v.collect_debug_values d is) is in
      if differs c dests l r code t f then record { last = last; debug_values = ds } else rest
  scan c dests pos last ds (i ∷ is) =
      let rest = scan c dests (pos + 1) last ds is in
      if depends dests i then record { last = last; debug_values = ds } else rest

-- removeFromParent on the collected debug instructions.
unfoldable pub remove_debug : List ℕ → List Instr → List Instr
remove_debug ns [] = []
remove_debug ns (debug n ∷ is) =
    let rest = remove_debug ns is in if member n ns then rest else debug n ∷ rest
remove_debug ns (i ∷ is) = i ∷ remove_debug ns is

-- What eraseFromParent on the selects leaves of the sequence in HeadMBB.
unfoldable pub without_selects : List Instr → List Instr
without_selects [] = []
without_selects (select_pseudo d l r c t f ∷ is) = without_selects is
without_selects (i ∷ is) = i ∷ without_selects is

-- The PHIs of the selects, for HeadMBB and IfFalseMBB.
unfoldable pub phis : (head if_false : ℕ) → List Instr → List Instr
phis head if_false [] = []
phis head if_false (select_pseudo d l r c t f ∷ is) =
    phi d ((t, head) ∷ (f, if_false) ∷ []) ∷ phis head if_false is
phis head if_false (i ∷ is) = phis head if_false is

-- The instructions that emitSelectPseudo leaves from the first select on: in HeadMBB and in TailMBB.
-- IfFalseMBB has none.
pub record Triangle : Type 0 where
  pub head_instrs : List Instr
  pub tail_instrs : List Instr

module _ (v : DebugValues) where
  -- The branch goes to TailMBB.
  unfoldable pub emit_select_pseudo :
      (head if_false tail : ℕ)
      → (dst lhs rhs : ℕ) → BranchCode
      → (true_v false_v : ℕ) → List Instr
      → Outcome Triangle
  emit_select_pseudo head if_false tail d l r code t f after =
      let whole = select_pseudo d l r code t f ∷ after in
      let found = scan v (record { lhs = l; rhs = r; cc = code }) (d ∷ []) 0 1 [] whole in
      let sequence = remove_debug found.debug_values (take found.last whole) in
      let rest = remove_debug found.debug_values (drop found.last whole) in
      get_br_cond code >>= λ opcode. ok (record {
        head_instrs = without_selects sequence ++ (branch opcode l r tail ∷ []);
        tail_instrs = phis head if_false sequence ++ (map debug found.debug_values ++ rest);
      })
