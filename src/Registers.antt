-- ===== src/Registers.antt =====
-- The registers of TOYRISCVRegisterInfo.td, those that TOYRISCVRegisterInfo.cpp reserves, and those that
-- TOYRISCVCallingConv.td lets the callee save.
pub mod Laws
pub mod Tests
use toy_riscv.Base.{ℕ, Bool, true, false, ◌==◌, if◌then◌else◌, List, [], ◌∷◌, String, any}

pub data Gpr : Type 0 where
  zero_reg ra sp gp tp t0 t1 t2 : Gpr
  fp s1 a0 a1 a2 a3 a4 a5 : Gpr
  a6 a7 s2 s3 s4 s5 s6 s7 : Gpr
  s8 s9 s10 s11 t3 t4 t5 t6 : Gpr

-- HWEncoding
unfoldable pub hw_encoding : Gpr → ℕ
hw_encoding zero_reg = 0
hw_encoding ra = 1
hw_encoding sp = 2
hw_encoding gp = 3
hw_encoding tp = 4
hw_encoding t0 = 5
hw_encoding t1 = 6
hw_encoding t2 = 7
hw_encoding fp = 8
hw_encoding s1 = 9
hw_encoding a0 = 10
hw_encoding a1 = 11
hw_encoding a2 = 12
hw_encoding a3 = 13
hw_encoding a4 = 14
hw_encoding a5 = 15
hw_encoding a6 = 16
hw_encoding a7 = 17
hw_encoding s2 = 18
hw_encoding s3 = 19
hw_encoding s4 = 20
hw_encoding s5 = 21
hw_encoding s6 = 22
hw_encoding s7 = 23
hw_encoding s8 = 24
hw_encoding s9 = 25
hw_encoding s10 = 26
hw_encoding s11 = 27
hw_encoding t3 = 28
hw_encoding t4 = 29
hw_encoding t5 = 30
hw_encoding t6 = 31

-- DwarfRegNum
unfoldable pub dwarf_reg_num : Gpr → ℕ
dwarf_reg_num zero_reg = 0
dwarf_reg_num ra = 1
dwarf_reg_num sp = 2
dwarf_reg_num gp = 3
dwarf_reg_num tp = 4
dwarf_reg_num t0 = 5
dwarf_reg_num t1 = 6
dwarf_reg_num t2 = 7
dwarf_reg_num fp = 8
dwarf_reg_num s1 = 9
dwarf_reg_num a0 = 10
dwarf_reg_num a1 = 11
dwarf_reg_num a2 = 12
dwarf_reg_num a3 = 13
dwarf_reg_num a4 = 10
dwarf_reg_num a5 = 11
dwarf_reg_num a6 = 12
dwarf_reg_num a7 = 13
dwarf_reg_num s2 = 18
dwarf_reg_num s3 = 19
dwarf_reg_num s4 = 20
dwarf_reg_num s5 = 21
dwarf_reg_num s6 = 22
dwarf_reg_num s7 = 23
dwarf_reg_num s8 = 24
dwarf_reg_num s9 = 25
dwarf_reg_num s10 = 26
dwarf_reg_num s11 = 27
dwarf_reg_num t3 = 28
dwarf_reg_num t4 = 29
dwarf_reg_num t5 = 30
dwarf_reg_num t6 = 31

abbrev pub is_same : Gpr → Gpr → Bool
is_same r s = hw_encoding r == hw_encoding s

-- The loop of getReservedRegs: a bit is set for each register of the list.
unfoldable pub set_all : List Gpr → (Gpr → Bool) → Gpr → Bool
set_all [] bits = bits
set_all (r ∷ rs) bits = set_all rs (λ s. if is_same r s then true else bits s)

unfoldable pub get_reserved_regs : Gpr → Bool
get_reserved_regs = set_all (zero_reg ∷ ra ∷ fp ∷ sp ∷ gp ∷ tp ∷ []) (λ r. false)

-- CSR_LP32, which getCalleeSavedRegs returns.
abbrev pub get_callee_saved_regs : List Gpr
get_callee_saved_regs = ra ∷ sp ∷ fp ∷ s1 ∷ s2 ∷ s3 ∷ s4 ∷ s5 ∷ s6 ∷ s7 ∷ s8 ∷ s9 ∷ s10 ∷ s11 ∷ []

abbrev pub is_callee_saved : Gpr → Bool
is_callee_saved r = any (is_same r) get_callee_saved_regs
