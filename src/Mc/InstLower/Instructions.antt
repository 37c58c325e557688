-- ===== src/Mc/InstLower/Instructions.antt =====
-- Whole instructions.
use toy_riscv.Base.{
  ◌≡◌, refl, Bool, true, false, Option, none, some, List, [], ◌∷◌, ok, if◌then◌else◌, arith,
  Bool-cases, inl, inr,
}
use toy_riscv.Mc.InstLower.{
  MachineOperand, register, McOperand, MachineInstr, McInst, AsmPrinter, lower_instr_operand,
  lower_operands, lower_machine_instr,
}
use toy_riscv.Mc.InstLower.Operands.{IsAccepted, lower_instr_operand_iff}

-- The operands that stay: an implicit register is left out.
abbrev pub is_implicit : MachineOperand → Bool
is_implicit (register r implicit) = implicit
is_implicit _ = false

abbrev pub explicit : List MachineOperand → List MachineOperand
explicit [] = []
explicit (mo ∷ mos) = let rest = explicit mos in if is_implicit mo then rest else mo ∷ rest

abbrev pub AllAccepted : List MachineOperand → Type 0
AllAccepted [] = Unit
AllAccepted (mo ∷ mos) = IsAccepted mo × AllAccepted mos

module _ (ap : AsmPrinter) where
  -- One MCOperand for each operand, in their order.
  abbrev pub Lowered : List MachineOperand → List McOperand → Type 0
  Lowered [] [] = Unit
  Lowered (mo ∷ mos) (o ∷ os) = (lower_instr_operand ap mo ≡ ok (some o)) × Lowered mos os
  Lowered _ _ = ⊥

  dropped :
      (mo : MachineOperand) (o : Option McOperand)
      → is_implicit mo ≡ true
      → lower_instr_operand ap mo ≡ ok o
      → o ≡ none
  unfolding lower_instr_operand
  dropped (register r implicit) o i h = ground arith
  dropped _ o i h = cc

  kept :
      (mo : MachineOperand) (o : Option McOperand)
      → is_implicit mo ≡ false
      → lower_instr_operand ap mo ≡ ok o
      → (a : McOperand) × (o ≡ some a)
  unfolding lower_instr_operand
  kept mo none i h = absurd (ground arith)
  kept mo (some a) i h = (a, refl)

  lower_operands_run :
      (mos : List MachineOperand)
      → AllAccepted mos
      → (os : List McOperand) × (lower_operands ap mos ≡ ok os) × Lowered (explicit mos) os
  unfolding lower_operands
  lower_operands_run [] h = ([], refl, tt)
  lower_operands_run (mo ∷ mos) h =
      let (o, first) = (lower_instr_operand_iff ap mo).1 h.0 in
      let (os, rest, lowered) = lower_operands_run mos h.1 in
      elim (Bool-cases (is_implicit mo)) [
        | inl drop ↦ (os, rw (first, rest, dropped mo o drop first), rw drop lowered)
        | inr keep ↦
            let (a, found) = kept mo o keep first in
            let kept_first : lower_instr_operand ap mo ≡ ok (some a) = cc (first, found) in
            (a ∷ os, rw (first, rest, found), rw keep (kept_first, lowered))
      ]

  -- An instruction whose operands the lowering accepts becomes one with the same opcode and one
  -- operand for each operand that is not an implicit register, in their order, each lowered as
  -- lower_instr_operand does.
  pub lower_machine_instr_lem :
      (mi : MachineInstr)
      → AllAccepted mi.operands
      → (out : McInst) × (lower_machine_instr ap mi ≡ ok out)
        × (out.opcode ≡ mi.opcode)
        × Lowered (explicit mi.operands) out.operands
  unfolding lower_machine_instr
  lower_machine_instr_lem mi h =
      let (os, run, lowered) = lower_operands_run mi.operands h in
      (record { opcode = mi.opcode; operands = os }, rw run, refl, lowered)
