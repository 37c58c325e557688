-- ===== src/Mc/InstLower/Operands.antt =====
-- Single operands.
use toy_riscv.Base.{
  ℕ, ◌+◌, ◌≡◌, ◌↔◌, List, [], ◌∷◌, refl, Bool, true, false, Option, none, some, ok, if◌then◌else◌,
  arith, ◌-◌, ◌%◌, ◌/◌, ◌^◌, ltb, ap, Outcome, ◌>>=◌, ◌==◌, Bool-cases, inl, inr,
}
use toy_riscv.Mc.BaseInfo.{
  OperandFlag, mo_none, mo_call, mo_plt, mo_lo, mo_hi, mo_pcrel_lo, mo_pcrel_hi, mo_unknown,
}
use toy_riscv.Mc.Expr.{
  VariantKind, vk_lo, vk_hi, vk_pcrel_lo, vk_pcrel_hi, vk_call, SignExtend, evaluate_as_int64,
  McExpr, constant, symbol_ref, unary, binary, add, other_opcode, target,
}
use toy_riscv.Mc.InstLower.{
  MachineOperand, register, immediate, basic_block, global_address, McOperand, reg, imm, expr,
  AsmPrinter, kind_of_flag, symbol_plus, with_kind, lower_symbol_operand, lower_instr_operand,
  lower_machine_operand,
}

-- The flags that have a modifier.
abbrev pub is_known_flag : OperandFlag → Bool
is_known_flag mo_plt = false
is_known_flag (mo_unknown n) = false
is_known_flag _ = true

kind_of_flag_total :
    (flag : OperandFlag)
    → is_known_flag flag ≡ true
    → (k : VariantKind) × (kind_of_flag flag ≡ ok k)
unfolding kind_of_flag
kind_of_flag_total mo_none h = (_, refl)
kind_of_flag_total mo_call h = (_, refl)
kind_of_flag_total mo_lo h = (_, refl)
kind_of_flag_total mo_hi h = (_, refl)
kind_of_flag_total mo_pcrel_lo h = (_, refl)
kind_of_flag_total mo_pcrel_hi h = (_, refl)
kind_of_flag_total _ h = cc

-- What an expression stands for, in 64-bit arithmetic, where symbols have addresses, an operation
-- that is not known is given, and the instruction that PC-relative operands refer to stands at
-- `pc`. A modifier stands for the field that it asks for: %lo and %hi for those that
-- evaluateAsInt64 computes, of the value or of its distance from the instruction, and a call for
-- that distance.
module _ (m : SignExtend) (address : ℕ → ℕ) (pc : ℕ) (other : ℕ → List ℕ → ℕ) where
  abbrev distance : ℕ → ℕ
  distance a = (a + (2 ^ 64 - pc % 2 ^ 64)) % 2 ^ 64

  abbrev field : VariantKind → ℕ → Outcome ℕ
  field vk_pcrel_lo a = evaluate_as_int64 m vk_lo (distance a)
  field vk_pcrel_hi a = evaluate_as_int64 m vk_hi (distance a)
  field vk_call a = ok (distance a)
  field k a = evaluate_as_int64 m k a

  abbrev pub number : McExpr → Outcome ℕ
  number (constant n) = ok (n % 2 ^ 64)
  number (symbol_ref s) = ok (address s % 2 ^ 64)
  number (unary op e) = number e >>= λ a. ok (other op (a ∷ []))
  number (binary add l r) = number l >>= λ a. number r >>= λ b. ok ((a + b) % 2 ^ 64)
  number (binary (other_opcode op) l r) =
      number l >>= λ a. number r >>= λ b. ok (other op (a ∷ b ∷ []))
  number (target k e) = number e >>= field k

  -- The fields that the flags ask for: the value itself, its distance, or the rounded upper and the
  -- signed lower part of one of the two.
  abbrev low : ℕ → ℕ
  low a = if ltb (a % 4096) 2048 then a % 4096 else a % 4096 + (2 ^ 64 - 4096)

  abbrev high : ℕ → ℕ
  high a = (a + 2048) % 2 ^ 64 / 4096 % 2 ^ 20

  abbrev pub flag_field : OperandFlag → ℕ → ℕ
  flag_field mo_call a = distance a
  flag_field mo_lo a = low a
  flag_field mo_hi a = high a
  flag_field mo_pcrel_lo a = low (distance a)
  flag_field mo_pcrel_hi a = high (distance a)
  flag_field _ a = a

  number-symbol_plus : (n s : ℕ) → number (symbol_plus (some n) s) ≡ ok ((address s + n) % 2 ^ 64)
  unfolding symbol_plus
  number-symbol_plus n s = elim (Bool-cases (n == 0)) [
    | inl e ↦
        let zero : n ≡ 0 = ground (arith, e) in
        let plain : address s % 2 ^ 64 ≡ (address s + n) % 2 ^ 64 = omega (arith, zero) in
        rw e (ap ok plain)
    | inr e ↦
        let sum : (address s % 2 ^ 64 + n % 2 ^ 64) % 2 ^ 64 ≡ (address s + n) % 2 ^ 64 =
          omega arith in
        rw e (ap ok sum)
  ]

  -- A symbol operand with one of the six known flags becomes an expression that stands for the
  -- field that the flag asks for, of the address of the symbol plus the offset, modulo 2^64: MO_LO
  -- for the signed twelve low bits, MO_HI for the twenty bits above them, rounded, MO_PCREL_LO and
  -- MO_PCREL_HI for those of the distance from the instruction at pc, MO_CALL for the distance, and
  -- no flag for the sum itself.
  pub number-lower_symbol_operand :
      (flag : OperandFlag) (offset s : ℕ)
      → is_known_flag flag ≡ true
      → (e : McExpr) × (lower_symbol_operand flag (some offset) s ≡ ok (expr e))
        × (number e ≡ ok (flag_field flag ((address s + offset) % 2 ^ 64)))
  unfolding lower_symbol_operand kind_of_flag with_kind evaluate_as_int64
  number-lower_symbol_operand mo_none offset s h = (_, refl, number-symbol_plus offset s)
  number-lower_symbol_operand mo_call offset s h = (_, refl, rw (number-symbol_plus offset s) refl)
  number-lower_symbol_operand mo_lo offset s h =
      (_, refl, rw (number-symbol_plus offset s) (ap ok (m.sign_extend_12_lem _)))
  number-lower_symbol_operand mo_hi offset s h = (_, refl, rw (number-symbol_plus offset s) refl)
  number-lower_symbol_operand mo_pcrel_lo offset s h =
      (_, refl, rw (number-symbol_plus offset s) (ap ok (m.sign_extend_12_lem _)))
  number-lower_symbol_operand mo_pcrel_hi offset s h =
      (_, refl, rw (number-symbol_plus offset s) refl)
  number-lower_symbol_operand _ offset s h = absurd (ground (arith, h))

-- The operands that the lowering of an instruction accepts.
abbrev pub IsAccepted : MachineOperand → Type 0
IsAccepted (register r implicit) = Unit
IsAccepted (immediate n) = Unit
IsAccepted (basic_block b flag) = Unit
IsAccepted (global_address g flag offset) = is_known_flag flag ≡ true
IsAccepted _ = ⊥

-- A basic block carries no flag.
abbrev pub HasPlainBlock : MachineOperand → Type 0
HasPlainBlock (basic_block b flag) = flag ≡ mo_none
HasPlainBlock _ = Unit

module _ (ap : AsmPrinter) where
  accepts :
      (mo : MachineOperand)
      → IsAccepted mo
      → (o : Option McOperand) × (lower_instr_operand ap mo ≡ ok o)
  unfolding lower_instr_operand lower_symbol_operand
  accepts (register r true) h = (none, refl)
  accepts (register r false) h = (some (reg r), refl)
  accepts (immediate n) h = (some (imm n), refl)
  accepts (basic_block b flag) h = (_, refl)
  accepts (global_address g flag offset) h =
      let (k, found) = kind_of_flag_total flag h in
      (
        some (expr (with_kind k (symbol_plus (some offset) (ap.get_symbol_prefer_local g)))),
        rw found,
      )
  accepts _ h = absurd h

  accepted :
      (mo : MachineOperand) (o : Option McOperand)
      → lower_instr_operand ap mo ≡ ok o
      → IsAccepted mo
  unfolding lower_instr_operand lower_symbol_operand kind_of_flag
  accepted (register r implicit) o h = tt
  accepted (immediate n) o h = tt
  accepted (basic_block b flag) o h = tt
  accepted (global_address g flag offset) o h = ground arith
  accepted _ o h = cc

  -- The lowering of an instruction accepts exactly these operands; on any other it stops.
  pub lower_instr_operand_iff :
      (mo : MachineOperand)
      → ((o : Option McOperand) × (lower_instr_operand ap mo ≡ ok o)) ↔ IsAccepted mo
  lower_instr_operand_iff mo = ((λ h. accepted mo h.0 h.1), accepts mo)

  -- The two lowerings agree on every operand that the lowering of an instruction accepts, a basic
  -- block with a flag apart.
  lower_machine_operand-agrees :
      (mo : MachineOperand) (o : Option McOperand)
      → HasPlainBlock mo
      → lower_instr_operand ap mo ≡ ok o
      → lower_machine_operand ap mo ≡ ok o
  unfolding lower_instr_operand lower_machine_operand lower_symbol_operand kind_of_flag with_kind
      symbol_plus
  lower_machine_operand-agrees (register r implicit) o h e = e
  lower_machine_operand-agrees (immediate n) o h e = e
  lower_machine_operand-agrees (basic_block b flag) o h e = rw h e
  lower_machine_operand-agrees (global_address g flag offset) o h e = e
  lower_machine_operand-agrees _ o h e = cc
