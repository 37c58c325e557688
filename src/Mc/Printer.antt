-- ===== src/Mc/Printer.antt =====
-- MCTargetDesc/TOYRISCVInstPrinter.cpp: the text of an operand. What LLVM and TableGen print (the names of
-- registers, numbers, and expressions that are not the backend's own) is a parameter.
pub mod Operands
mod Tests
use toy_riscv.Base.{ℕ, ◌+◌, Bool, ◌&&◌, leb, List, [], ◌∷◌, map, Text, Outcome, ok, if◌then◌else◌}
use toy_riscv.Mc.Expr.{McExpr, target, print_impl}
use toy_riscv.Mc.InstLower.{McOperand, reg, imm, expr}

-- getRegisterName with the ABI names, which TableGen makes; an int64_t on a stream; MCExpr::print.
pub record Tables : Type 0 where
  pub register_name : ℕ → Text
  pub decimal : ℕ → Text
  pub print_plain : McExpr → Text

-- StringRef::lower
unfoldable pub lower : Text → Text
lower [] = []
lower (c ∷ t) = (if leb 65 c && leb c 90 then c + 32 else c) ∷ lower t

module _ (tables : Tables) where
  open tables use {register_name, decimal, print_plain}

  -- printRegName
  unfoldable pub print_reg_name : ℕ → Text
  print_reg_name r = lower (register_name r)

  -- MCExpr::print passes a target expression to printImpl.
  unfoldable pub print_expr : McExpr → Outcome Text
  print_expr (target k e) = print_impl print_plain (record { expr = e; kind = k })
  print_expr e = ok (print_plain e)

  -- printOperand
  unfoldable pub print_operand : McOperand → Outcome Text
  print_operand (reg r) = ok (print_reg_name r)
  print_operand (imm n) = ok (decimal n)
  print_operand (expr e) = print_expr e
