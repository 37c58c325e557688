-- ===== src/Frame.antt =====
-- Frames: TOYRISCVFrameLowering.cpp and TOYRISCVRegisterInfo.cpp of llvm/lib/Target/TOYRISCV.
use toy_riscv.Base.{
  ℕ, suc, ◌+◌, ◌%◌, ◌^◌, Bool, true, false, ◌||◌, ◌==◌, ltb, leb, if◌then◌else◌, Option, none, some,
  List, get_elem?, set, Outcome, ok, stop, fatal_error, assertion, ◌>>=◌, ◌-◌,
}
pub mod Laws
pub mod Tests

-- What a machine function tells about its frame.
pub record MachineFunction : Type 0 where
  pub disable_frame_pointer_elim : Bool
  pub has_stack_realignment : Bool
  pub has_var_sized_objects : Bool
  pub is_frame_address_taken : Bool

-- TOYRISCVFrameLowering::hasFP
unfoldable pub has_fp : MachineFunction → Bool
has_fp mf =
    mf.disable_frame_pointer_elim
    || (mf.has_stack_realignment || (mf.has_var_sized_objects || mf.is_frame_address_taken))

pub data FrameRegister : Type 0 where
  fp sp : FrameRegister

-- TOYRISCVRegisterInfo::getFrameRegister
unfoldable pub get_frame_register : MachineFunction → FrameRegister
get_frame_register mf = if has_fp mf then fp else sp

pub data Operand : Type 0 where
  register : FrameRegister → Operand
  frame_index immediate : ℕ → Operand
  other_operand : Operand

-- TargetFrameLowering::getFrameIndexReference of LLVM, given the frame register of the function: the
-- register, which it may replace, and the offset of the slot from it, a 64-bit number.
pub record FrameLayout : Type 0 where
  pub base_of : MachineFunction → ℕ → FrameRegister → FrameRegister
  pub offset_of : MachineFunction → ℕ → FrameRegister → ℕ

-- isInt<12>, of a 64-bit number.
unfoldable pub is_int_12 : ℕ → Bool
is_int_12 n = ltb n 2048 || leb (2 ^ 64 - 2048) n

-- MachineOperand::getIndex and getImm, which assert the kind of the operand.
unfoldable pub get_index : Option Operand → Outcome ℕ
get_index (some (frame_index i)) = ok i
get_index _ = stop (assertion "Wrong MachineOperand accessor")

unfoldable pub get_imm : Option Operand → Outcome ℕ
get_imm (some (immediate n)) = ok n
get_imm _ = stop (assertion "Wrong MachineOperand accessor")

-- The part of eliminateFrameIndex from the assertion on: the operands of the instruction with the
-- register in place of the frame index and the offset in place of the immediate.
unfoldable pub replace_operands :
    MachineFunction → FrameRegister → ℕ → List Operand → ℕ → Outcome (List Operand)
replace_operands mf reg offset ops n =
    if has_fp mf
    then (if is_int_12 offset
        then ok (set (set ops n (register reg)) (suc n) (immediate offset))
        else stop (fatal_error "Frame offsets outside of the signed 12-bit range not supported"))
    else stop (assertion "eliminateFrameIndex currently requires hasFP")

-- TOYRISCVRegisterInfo::eliminateFrameIndex, on the operands of the instruction.
unfoldable pub eliminate_frame_index :
    FrameLayout → MachineFunction → ℕ → List Operand → ℕ → Outcome (List Operand)
eliminate_frame_index l mf sp_adj ops n =
    if sp_adj == 0
    then (get_index (get_elem? ops n) >>= λ i. get_imm (get_elem? ops (suc n)) >>= λ imm.
        replace_operands mf (l.base_of mf i (get_frame_register mf))
          ((l.offset_of mf i (get_frame_register mf) + imm) % 2 ^ 64) ops n)
    else stop (assertion "Unexpected non-zero SPAdj value")
