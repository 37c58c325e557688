-- ===== src/Mc/InstLower.antt =====
-- llvm/lib/Target/TOYRISCV/TOYRISCVMCInstLower.cpp: machine instructions become MCInst. Registers,
-- symbols, blocks, globals and indices are numbers, and an int64_t is its bit pattern. The symbols
-- that the AsmPrinter hands out are a parameter.
pub mod Operands
pub mod Instructions
mod Tests
use toy_riscv.Base.{
  ℕ, ◌≡◌, Bool, true, false, not, ◌&&◌, Option, none, some, List, [], ◌∷◌, Outcome, ok, stop,
  fatal_error, unreachable, ◌>>=◌, ◌==◌, if◌then◌else◌,
}
use toy_riscv.Mc.BaseInfo.{
  OperandFlag, mo_none, mo_call, mo_plt, mo_lo, mo_hi, mo_pcrel_lo, mo_pcrel_hi, mo_unknown,
}
use toy_riscv.Mc.Expr.{
  VariantKind, vk_none, vk_call, vk_lo, vk_hi, vk_pcrel_lo, vk_pcrel_hi, McExpr, constant,
  symbol_ref, binary, add, create,
}

pub data MachineOperand : Type 0 where
  register : ℕ → (is_implicit : Bool) → MachineOperand
  register_mask : MachineOperand
  immediate : ℕ → MachineOperand
  basic_block : ℕ → OperandFlag → MachineOperand
  global_address block_address external_symbol constant_pool_index :
      ℕ → OperandFlag → (offset : ℕ) → MachineOperand
  jump_table_index : ℕ → OperandFlag → MachineOperand
  other_operand : MachineOperand

pub record MachineInstr : Type 0 where
  pub opcode : ℕ
  pub operands : List MachineOperand

pub data McOperand : Type 0 where
  reg imm : ℕ → McOperand
  expr : McExpr → McOperand

pub record McInst : Type 0 where
  pub opcode : ℕ
  pub operands : List McOperand

-- getSymbol of a block, and the methods of AsmPrinter that find a symbol.
pub record AsmPrinter : Type 0 where
  pub block_symbol : ℕ → ℕ
  pub get_symbol_prefer_local : ℕ → ℕ
  pub get_block_address_symbol : ℕ → ℕ
  pub get_external_symbol_symbol : ℕ → ℕ
  pub get_cpi_symbol : ℕ → ℕ
  pub get_jti_symbol : ℕ → ℕ

unfoldable pub kind_of_flag : OperandFlag → Outcome VariantKind
kind_of_flag mo_none = ok vk_none
kind_of_flag mo_call = ok vk_call
kind_of_flag mo_lo = ok vk_lo
kind_of_flag mo_hi = ok vk_hi
kind_of_flag mo_pcrel_lo = ok vk_pcrel_lo
kind_of_flag mo_pcrel_hi = ok vk_pcrel_hi
kind_of_flag _ = stop (unreachable "Unknown target flag on GV operand")

abbrev pub is_none_kind : VariantKind → Bool
is_none_kind vk_none = true
is_none_kind _ = false

-- The reference to the symbol, with the offset if there is one and it is not zero.
unfoldable pub symbol_plus : Option ℕ → ℕ → McExpr
symbol_plus none sym = symbol_ref sym
symbol_plus (some n) sym =
    if not (n == 0) then binary add (symbol_ref sym) (constant n) else symbol_ref sym

unfoldable pub with_kind : VariantKind → McExpr → McExpr
unfolding create
with_kind kind me = if not (is_none_kind kind) then create me kind else me

-- lowerSymbolOperand, of an operand with this flag. `offset` is none for a jump-table index and for a
-- basic block, which have no offset.
unfoldable pub lower_symbol_operand : OperandFlag → Option ℕ → ℕ → Outcome McOperand
lower_symbol_operand flag offset sym =
    kind_of_flag flag >>= λ kind. ok (expr (with_kind kind (symbol_plus offset sym)))

module _ (ap : AsmPrinter) where
  open ap use {
    block_symbol, get_symbol_prefer_local, get_block_address_symbol, get_external_symbol_symbol,
    get_cpi_symbol, get_jti_symbol,
  }

  -- One round of the loop: `none` is the `continue` on an implicit register.
  unfoldable pub lower_instr_operand : MachineOperand → Outcome (Option McOperand)
  lower_instr_operand (register r implicit) = if implicit then ok none else ok (some (reg r))
  lower_instr_operand (immediate n) = ok (some (imm n))
  lower_instr_operand (basic_block b flag) = ok (some (expr (symbol_ref (block_symbol b))))
  lower_instr_operand (global_address g flag offset) =
      lower_symbol_operand flag (some offset) (get_symbol_prefer_local g) >>= λ op. ok (some op)
  lower_instr_operand _ =
      stop (fatal_error "LowerTOYRISCVMachineInstrToMCInst: unknown operand type")

  abbrev pub add_operand : Option McOperand → List McOperand → List McOperand
  add_operand none ops = ops
  add_operand (some op) ops = op ∷ ops

  unfoldable pub lower_operands : List MachineOperand → Outcome (List McOperand)
  lower_operands [] = ok []
  lower_operands (mo ∷ mos) = do
    op ← lower_instr_operand mo
    ops ← lower_operands mos
    ok (add_operand op ops)

  -- LowerTOYRISCVMachineInstrToMCInst
  unfoldable pub lower_machine_instr : MachineInstr → Outcome McInst
  lower_machine_instr mi =
      lower_operands mi.operands >>= λ ops. ok (record { opcode = mi.opcode; operands = ops })

  -- LowerTOYRISCVMachineOperandToMCOperand: `none` is the result false.
  unfoldable pub lower_machine_operand : MachineOperand → Outcome (Option McOperand)
  lower_machine_operand (register r implicit) = if implicit then ok none else ok (some (reg r))
  lower_machine_operand register_mask = ok none
  lower_machine_operand (immediate n) = ok (some (imm n))
  lower_machine_operand (basic_block b flag) =
      lower_symbol_operand flag none (block_symbol b) >>= λ op. ok (some op)
  lower_machine_operand (global_address g flag offset) =
      lower_symbol_operand flag (some offset) (get_symbol_prefer_local g) >>= λ op. ok (some op)
  lower_machine_operand (block_address b flag offset) =
      lower_symbol_operand flag (some offset) (get_block_address_symbol b) >>= λ op. ok (some op)
  lower_machine_operand (external_symbol s flag offset) =
      lower_symbol_operand flag (some offset) (get_external_symbol_symbol s) >>= λ op. ok (some op)
  lower_machine_operand (constant_pool_index i flag offset) =
      lower_symbol_operand flag (some offset) (get_cpi_symbol i) >>= λ op. ok (some op)
  lower_machine_operand (jump_table_index i flag) =
      lower_symbol_operand flag none (get_jti_symbol i) >>= λ op. ok (some op)
  lower_machine_operand other_operand =
      stop (fatal_error "LowerTOYRISCVMachineOperandToMCOperand: unknown operand type")
