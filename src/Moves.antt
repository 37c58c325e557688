-- ===== src/Moves.antt =====
-- Instructions that move a register or an address: copyPhysReg of TOYRISCVInstrInfo.cpp, and Select of
-- TOYRISCVISelDagToDag.cpp.
pub mod Laws
pub mod Tests
use toy_riscv.Base.{ℕ, ltb, Bool, ◌&&◌, if◌then◌else◌, List, [], ◌∷◌, Outcome, ok, stop, assertion}
use toy_riscv.Frame.{Operand, frame_index, immediate}

-- ADDI with the encodings of its registers and its immediate.
pub record Addi : Type 0 where
  pub dst : ℕ
  pub src : ℕ
  pub is_killed : Bool
  pub imm : ℕ

-- GPRRegClass.contains, of an encoding.
unfoldable pub is_gpr : ℕ → Bool
is_gpr r = ltb r 32

-- TOYRISCVInstrInfo::copyPhysReg
unfoldable pub copy_phys_reg : (dst src : ℕ) → (kill_src : Bool) → Outcome Addi
copy_phys_reg dst src kill_src =
    if is_gpr dst && is_gpr src
    then ok (record { dst = dst; src = src; is_killed = kill_src; imm = 0 })
    else stop (assertion "Impossible reg-to-reg copy")

-- The nodes that Select tells apart.
pub data Node : Type 0 where
  machine_opcode : Node
  frame_index_node : ℕ → Node
  other_node : ℕ → Node

-- What Select does with a node: set its id to -1, replace it by ADDI with operands, or pass it to the
-- selection that TableGen makes of the patterns.
pub data Selection : Type 0 where
  set_node_id replaced_by_table : Selection
  replaced_by_addi : List Operand → Selection

-- TOYRISCVDAGToDAGISel::Select
unfoldable pub select : Node → Selection
select machine_opcode = set_node_id
select (frame_index_node i) = replaced_by_addi (frame_index i ∷ immediate 0 ∷ [])
select (other_node n) = replaced_by_table
