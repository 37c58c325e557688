-- ===== src/Registers/Tests.antt =====
-- Instances of the theorems on registers.
use toy_riscv.Base.{◌≡◌}
use toy_riscv.Registers
use toy_riscv.Registers.{hw_encoding, dwarf_reg_num, get_reserved_regs, is_callee_saved}
use toy_riscv.Registers.Laws.{dwarf_reg_num-hw_encoding}

dwarf_reg_num-hw_encoding_example : dwarf_reg_num Registers.a5 ≡ 11
unfolding hw_encoding
dwarf_reg_num-hw_encoding_example = dwarf_reg_num-hw_encoding Registers.a5
