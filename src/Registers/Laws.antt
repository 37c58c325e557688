-- ===== src/Registers/Laws.antt =====
-- How the sets of registers go with the registers of calls and of frames.
use toy_riscv.Base.{◌-◌, true, false, ◌&&◌, if◌then◌else◌, leb, ◌≡◌, refl, Bool-cases, inl, inr}
use toy_riscv.Calls.Conventions.{Register, a0, a1, a2, a3, a4, a5, a6, a7, encoding}
use toy_riscv.Frame.{FrameRegister, MachineFunction, has_fp, get_frame_register}
use toy_riscv.Registers.{
  Gpr, hw_encoding, dwarf_reg_num, set_all, get_reserved_regs, is_callee_saved,
}
use toy_riscv.Registers

abbrev pub gpr_of_argument : Register → Gpr
gpr_of_argument a0 = Registers.a0
gpr_of_argument a1 = Registers.a1
gpr_of_argument a2 = Registers.a2
gpr_of_argument a3 = Registers.a3
gpr_of_argument a4 = Registers.a4
gpr_of_argument a5 = Registers.a5
gpr_of_argument a6 = Registers.a6
gpr_of_argument a7 = Registers.a7

abbrev pub gpr_of_frame : FrameRegister → Gpr
gpr_of_frame FrameRegister.fp = Registers.fp
gpr_of_frame FrameRegister.sp = Registers.sp

-- A register that arguments and results are passed in is not reserved and not saved by the callee, and has the encoding
-- that the conventions order it by.
encoding-hw_encoding :
    (r : Register)
    → (encoding r ≡ hw_encoding (gpr_of_argument r))
      × (get_reserved_regs (gpr_of_argument r) ≡ false)
      × (is_callee_saved (gpr_of_argument r) ≡ false)
unfolding encoding hw_encoding get_reserved_regs set_all
encoding-hw_encoding a0 = (refl, refl, refl)
encoding-hw_encoding a1 = (refl, refl, refl)
encoding-hw_encoding a2 = (refl, refl, refl)
encoding-hw_encoding a3 = (refl, refl, refl)
encoding-hw_encoding a4 = (refl, refl, refl)
encoding-hw_encoding a5 = (refl, refl, refl)
encoding-hw_encoding a6 = (refl, refl, refl)
encoding-hw_encoding a7 = (refl, refl, refl)

-- The register that frame indices are addressed by is reserved, so that no value is kept in it, and saved by the callee.
get_frame_register-get_reserved_regs :
    (mf : MachineFunction)
    → (get_reserved_regs (gpr_of_frame (get_frame_register mf)) ≡ true)
      × (is_callee_saved (gpr_of_frame (get_frame_register mf)) ≡ true)
unfolding get_frame_register hw_encoding get_reserved_regs set_all
get_frame_register-get_reserved_regs mf = elim (Bool-cases (has_fp mf)) [
  | inl e ↦ rw e (refl, refl)
  | inr e ↦ rw e (refl, refl)
]

-- The DWARF number of a register is its encoding, but for A4 to A7, which have those of A0 to A3.
pub dwarf_reg_num-hw_encoding :
    (r : Gpr)
    → dwarf_reg_num r ≡ (
        if leb 14 (hw_encoding r) && leb (hw_encoding r) 17
        then hw_encoding r - 4
        else hw_encoding r)
unfolding dwarf_reg_num hw_encoding
dwarf_reg_num-hw_encoding Registers.zero_reg = refl
dwarf_reg_num-hw_encoding Registers.ra = refl
dwarf_reg_num-hw_encoding Registers.sp = refl
dwarf_reg_num-hw_encoding Registers.gp = refl
dwarf_reg_num-hw_encoding Registers.tp = refl
dwarf_reg_num-hw_encoding Registers.t0 = refl
dwarf_reg_num-hw_encoding Registers.t1 = refl
dwarf_reg_num-hw_encoding Registers.t2 = refl
dwarf_reg_num-hw_encoding Registers.fp = refl
dwarf_reg_num-hw_encoding Registers.s1 = refl
dwarf_reg_num-hw_encoding Registers.a0 = refl
dwarf_reg_num-hw_encoding Registers.a1 = refl
dwarf_reg_num-hw_encoding Registers.a2 = refl
dwarf_reg_num-hw_encoding Registers.a3 = refl
dwarf_reg_num-hw_encoding Registers.a4 = refl
dwarf_reg_num-hw_encoding Registers.a5 = refl
dwarf_reg_num-hw_encoding Registers.a6 = refl
dwarf_reg_num-hw_encoding Registers.a7 = refl
dwarf_reg_num-hw_encoding Registers.s2 = refl
dwarf_reg_num-hw_encoding Registers.s3 = refl
dwarf_reg_num-hw_encoding Registers.s4 = refl
dwarf_reg_num-hw_encoding Registers.s5 = refl
dwarf_reg_num-hw_encoding Registers.s6 = refl
dwarf_reg_num-hw_encoding Registers.s7 = refl
dwarf_reg_num-hw_encoding Registers.s8 = refl
dwarf_reg_num-hw_encoding Registers.s9 = refl
dwarf_reg_num-hw_encoding Registers.s10 = refl
dwarf_reg_num-hw_encoding Registers.s11 = refl
dwarf_reg_num-hw_encoding Registers.t3 = refl
dwarf_reg_num-hw_encoding Registers.t4 = refl
dwarf_reg_num-hw_encoding Registers.t5 = refl
dwarf_reg_num-hw_encoding Registers.t6 = refl
