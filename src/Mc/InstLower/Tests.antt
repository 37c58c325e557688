-- ===== src/Mc/InstLower/Tests.antt =====
-- The theorems about the lowering of instructions at one `lw`.
use toy_riscv.Base.{
  ◌+◌, ◌*◌, ◌%◌, ◌≡◌, refl, true, false, some, [], ◌∷◌, ok, ◌-◌, ◌^◌, ltb, if◌then◌else◌,
}
use toy_riscv.Mc.BaseInfo.{mo_lo, mo_pcrel_hi}
use toy_riscv.Mc.Expr.{McExpr, symbol_ref, binary, add, constant, target, vk_lo, SignExtend}
use toy_riscv.Mc.InstLower.{
  register, global_address, MachineInstr, reg, expr, McInst, AsmPrinter, kind_of_flag,
  lower_symbol_operand, lower_instr_operand, lower_machine_instr, lower_operands, symbol_plus,
  with_kind,
}
use toy_riscv.Mc.InstLower.Operands.{number, number-lower_symbol_operand}
use toy_riscv.Mc.InstLower.Instructions.{Lowered, explicit, lower_machine_instr_lem}

abbrev printer : AsmPrinter
printer = record {
  block_symbol = λ b. 100 + b;
  get_symbol_prefer_local = λ g. g;
  get_block_address_symbol = λ b. 200 + b;
  get_external_symbol_symbol = λ s. 300 + s;
  get_cpi_symbol = λ i. 400 + i;
  get_jti_symbol = λ i. 500 + i;
}

-- lw a0, %lo(g7 + 4)(a1), with an implicit operand
abbrev load : MachineInstr
load = record {
  opcode = 17;
  operands =
      register 10 false ∷ register 11 false ∷ global_address 7 mo_lo 4 ∷ register 2 true ∷ [];
}

lower_machine_instr_lem_example :
    (out : McInst) × (lower_machine_instr printer load ≡ ok out)
    × (out.opcode ≡ 17)
    × Lowered printer (explicit load.operands) out.operands
lower_machine_instr_lem_example = lower_machine_instr_lem printer load (tt, (tt, (refl, (tt, tt))))

load_lowered :
    lower_machine_instr printer load
    ≡ ok (record {
      opcode = 17;
      operands =
          reg 10 ∷ reg 11 ∷ expr (target vk_lo (binary add (symbol_ref 7) (constant 4))) ∷ [];
    })
unfolding lower_machine_instr lower_operands lower_instr_operand lower_symbol_operand kind_of_flag
    symbol_plus with_kind
load_lowered = refl

abbrev sign_extend : SignExtend
sign_extend = record {
  sign_extend_12 = λ x. if ltb (x % 4096) 2048 then x % 4096 else x % 4096 + (2 ^ 64 - 4096);
  sign_extend_12_lem = λ x. refl;
}

-- %pcrel_hi(s7 + 4) at 0x1000, where s7 stands at 0x7000.
number-lower_symbol_operand_example :
    (e : McExpr) × (lower_symbol_operand mo_pcrel_hi (some 4) 7 ≡ ok (expr e))
    × (number sign_extend (λ s. 0x1000 * s) 0x1000 (λ op values. 0) e ≡ ok 6)
number-lower_symbol_operand_example =
    number-lower_symbol_operand sign_extend (λ s. 0x1000 * s) 0x1000 (λ op values. 0) mo_pcrel_hi 4
      7 refl
