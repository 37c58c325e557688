-- ===== src/Lowering/Inserter/Blocks.antt =====
-- emitSelectPseudo in its function: the new blocks, the successors, and the PHIs of the successors.
-- TOYRISCVISelLowering.cpp.
use toy_riscv.Base.{
  ℕ, ◌==◌, if◌then◌else◌, List, [], ◌∷◌, ◌++◌, map, member, Outcome, ok, stop, unreachable, ◌>>=◌,
}
use toy_riscv.Lowering.Cond.{BranchCode}
use toy_riscv.Lowering.Inserter.{
  Instr, select_pseudo, phi, DebugValues, Triangle, emit_select_pseudo,
}

pub record Block : Type 0 where
  pub number : ℕ
  pub instrs : List Instr
  pub successors : List ℕ

-- A function is its blocks in the order of its layout.
abbrev pub Function : Type 0
Function = List Block

-- MachineBasicBlock::replacePhiUsesWith: the PHIs that name one block name another.
abbrev pub rename : (old new : ℕ) → ℕ → ℕ
rename old new b = if b == old then new else b

unfoldable pub rename_incoming : (old new : ℕ) → List (ℕ × ℕ) → List (ℕ × ℕ)
rename_incoming old new [] = []
rename_incoming old new ((r, b) ∷ is) = (r, rename old new b) ∷ rename_incoming old new is

unfoldable pub replace_phi_uses : (old new : ℕ) → List Instr → List Instr
replace_phi_uses old new (phi d inc ∷ is) =
    phi d (rename_incoming old new inc) ∷ replace_phi_uses old new is
replace_phi_uses old new is = is

-- transferSuccessorsAndUpdatePHIs, at one block of the function.
unfoldable pub update_phis : (old new : ℕ) → List ℕ → Block → Block
update_phis old new succs b =
    if member b.number succs then record b { instrs = replace_phi_uses old new b.instrs } else b

-- The new blocks stand behind the head.
unfoldable pub insert_blocks : (head if_false tail : Block) → Function → Function
insert_blocks h i t [] = []
insert_blocks h i t (b ∷ bs) =
    let rest = insert_blocks h i t bs in if b.number == h.number then h ∷ i ∷ t ∷ bs else b ∷ rest

-- The operands of a select pseudo-instruction.
pub record Select : Type 0 where
  pub dst : ℕ
  pub lhs : ℕ
  pub rhs : ℕ
  pub cc : BranchCode
  pub true_v : ℕ
  pub false_v : ℕ

abbrev pub pseudo : Select → Instr
pseudo s = select_pseudo s.dst s.lhs s.rhs s.cc s.true_v s.false_v

-- The three blocks for the block that the select stands in, between `before` and `after`.
abbrev pub head_block : Block → (if_false tail : ℕ) → List Instr → Triangle → Block
head_block bb i t before tri = record {
  number = bb.number;
  instrs = before ++ tri.head_instrs;
  successors = i ∷ t ∷ [];
}

abbrev pub if_false_block : (if_false tail : ℕ) → Block
if_false_block i t = record { number = i; instrs = []; successors = t ∷ [] }

abbrev pub tail_block : Block → (tail : ℕ) → Triangle → Block
tail_block bb t tri = record { number = t; instrs = tri.tail_instrs; successors = bb.successors }

-- EmitInstrWithCustomInserter, for the select between `before` and `after` in a block of the function. The
-- two numbers are those of CreateMachineBasicBlock.
unfoldable pub emit_instr_with_custom_inserter :
    DebugValues
    → Function
    → (bb : Block) → (before : List Instr) → Instr
    → (after : List Instr) → (if_false tail : ℕ) → Outcome Function
emit_instr_with_custom_inserter v fn bb before (select_pseudo d l r code t f) after if_false tail =
    emit_select_pseudo v bb.number if_false tail d l r code t f after >>= λ tri. ok (
      map (update_phis bb.number tail bb.successors) (
        insert_blocks (head_block bb if_false tail before tri) (if_false_block if_false tail)
          (tail_block bb tail tri) fn))
emit_instr_with_custom_inserter v fn bb before mi after if_false tail =
    stop (unreachable "Unexpected instr type to insert")
