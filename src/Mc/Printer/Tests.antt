-- ===== src/Mc/Printer/Tests.antt =====
-- The printed operands of a load from a global.
use toy_riscv.Base.{some, Text, codes, [], ok, ◌≡◌, refl}
use toy_riscv.Mc.BaseInfo.{mo_lo}
use toy_riscv.Mc.Expr.{McExpr, symbol_ref, constant, binary}
use toy_riscv.Mc.InstLower.{global_address, McOperand, reg, AsmPrinter, lower_instr_operand}
use toy_riscv.Mc.Printer.{Tables, lower, print_reg_name, print_operand}
use toy_riscv.Mc.Printer.Operands.{print_operand-lower_instr_operand}

abbrev printed : McExpr → Text
printed (symbol_ref s) = codes "x"
printed (constant n) = codes "4"
printed (binary op l r) = codes "x+4"
printed _ = []

abbrev tables : Tables
tables = record {
  register_name = λ r. codes "A1";
  decimal = λ n. codes "12";
  print_plain = printed;
}

abbrev printer : AsmPrinter
printer = record {
  block_symbol = λ b. b;
  get_symbol_prefer_local = λ g. g;
  get_block_address_symbol = λ b. b;
  get_external_symbol_symbol = λ s. s;
  get_cpi_symbol = λ i. i;
  get_jti_symbol = λ i. i;
}

print_operand-lower_instr_operand_example :
    (op : McOperand) × (lower_instr_operand printer (global_address 7 mo_lo 4) ≡ ok (some op))
    × (print_operand tables op ≡ ok (codes "%lo(x+4)"))
print_operand-lower_instr_operand_example =
    print_operand-lower_instr_operand tables printer (global_address 7 mo_lo 4) refl refl

register_printed : print_operand tables (reg 11) ≡ ok (codes "a1")
unfolding print_operand print_reg_name lower
register_printed = refl
