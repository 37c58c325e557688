-- ===== src/Mc/Printer/Operands.antt =====
-- How the operands of machine instructions print after their lowering.
use mathlib.Core.List.{append-nil, append_assoc}
use toy_riscv.Base.{
  ℕ, Bool, true, false, ◌==◌, not, some, [], ◌++◌, Text, codes, ok, ◌≡◌, refl, Bool-cases, inl, inr,
  if◌then◌else◌,
}
use toy_riscv.Mc.BaseInfo.{
  OperandFlag, mo_none, mo_call, mo_plt, mo_lo, mo_hi, mo_pcrel_lo, mo_pcrel_hi, mo_unknown,
}
use toy_riscv.Mc.Expr.{
  McExpr, constant, symbol_ref, binary, add, create, get_variant_kind_name, print_impl,
}
use toy_riscv.Mc.InstLower.{
  MachineOperand, register, immediate, basic_block, global_address, McOperand, AsmPrinter,
  kind_of_flag, symbol_plus, with_kind, lower_symbol_operand, lower_instr_operand,
}
use toy_riscv.Mc.InstLower.Operands.{IsAccepted, is_known_flag}
use toy_riscv.Mc.Printer.{Tables, lower, print_reg_name, print_expr, print_operand}

-- A text in parentheses behind the modifier of a flag, for the flags that have one.
abbrev pub modified : OperandFlag → Text → Text
modified mo_lo t = codes "%lo(" ++ t ++ codes ")"
modified mo_hi t = codes "%hi(" ++ t ++ codes ")"
modified mo_pcrel_lo t = codes "%pcrel_lo(" ++ t ++ codes ")"
modified mo_pcrel_hi t = codes "%pcrel_hi(" ++ t ++ codes ")"
modified _ t = t

-- A symbol, and a sum if there is an offset.
abbrev pub symbol_sum : ℕ → ℕ → McExpr
symbol_sum s n = if n == 0 then symbol_ref s else binary add (symbol_ref s) (constant n)

module _ (tables : Tables) (ap : AsmPrinter) where
  open tables use {register_name, decimal, print_plain}
  open ap use {block_symbol, get_symbol_prefer_local}

  -- What an operand should print as.
  abbrev pub operand_text : MachineOperand → Text
  operand_text (register r implicit) = lower (register_name r)
  operand_text (immediate n) = decimal n
  operand_text (basic_block b flag) = print_plain (symbol_ref (block_symbol b))
  operand_text (global_address g flag n) =
      modified flag (print_plain (symbol_sum (get_symbol_prefer_local g) n))
  operand_text _ = []

  abbrev pub is_explicit : MachineOperand → Bool
  is_explicit (register r implicit) = not implicit
  is_explicit _ = true

  print_plain-symbol :
      (n sym : ℕ)
      → print_expr tables (symbol_plus (some n) sym) ≡ ok (print_plain (symbol_sum sym n))
  unfolding symbol_plus print_expr
  print_plain-symbol n sym = elim (Bool-cases (n == 0)) [ inl e ↦ rw e refl | inr e ↦ rw e refl ]

  symbol_plus-sum : (n sym : ℕ) → symbol_plus (some n) sym ≡ symbol_sum sym n
  unfolding symbol_plus
  symbol_plus-sum n sym = elim (Bool-cases (n == 0)) [ inl e ↦ rw e refl | inr e ↦ rw e refl ]

  print_expr-symbol :
      (flag : OperandFlag) (n sym : ℕ)
      → is_known_flag flag ≡ true
      → (op : McOperand) × (lower_symbol_operand flag (some n) sym ≡ ok op)
        × (print_operand tables op ≡ ok (modified flag (print_plain (symbol_sum sym n))))
  unfolding lower_symbol_operand kind_of_flag with_kind create print_operand print_expr print_impl
      get_variant_kind_name
  print_expr-symbol mo_none n sym h = (_, refl, print_plain-symbol n sym)
  print_expr-symbol mo_call n sym h = (_, refl, rw (symbol_plus-sum n sym) (simp append-nil))
  print_expr-symbol mo_plt n sym h = cc
  print_expr-symbol (mo_unknown u) n sym h = cc
  print_expr-symbol mo_lo n sym h = (_, refl, rw (symbol_plus-sum n sym) (simp append_assoc))
  print_expr-symbol _ n sym h = (_, refl, rw (symbol_plus-sum n sym) (simp append_assoc))

  -- An explicit operand that the lowering of an instruction accepts becomes an operand that prints: a register
  -- as its name in lower case, a number as LLVM prints it, a block as its symbol, and a global as its symbol,
  -- with the offset if there is one, in parentheses behind %lo, %hi, %pcrel_lo or %pcrel_hi if its flag
  -- is one of these.
  pub print_operand-lower_instr_operand :
      (mo : MachineOperand)
      → IsAccepted mo
      → is_explicit mo ≡ true
      → (op : McOperand) × (lower_instr_operand ap mo ≡ ok (some op))
        × (print_operand tables op ≡ ok (operand_text mo))
  unfolding lower_instr_operand print_operand print_reg_name print_expr
  print_operand-lower_instr_operand (register r true) a h = cc
  print_operand-lower_instr_operand (register r false) a h = (_, refl, refl)
  print_operand-lower_instr_operand (immediate n) a h = (_, refl, refl)
  print_operand-lower_instr_operand (basic_block b flag) a h = (_, refl, refl)
  print_operand-lower_instr_operand (global_address g flag n) a h =
      let (op, lowered, printed) = print_expr-symbol flag n (get_symbol_prefer_local g) a in
      (op, rw lowered refl, printed)
  print_operand-lower_instr_operand _ a h = absurd a
