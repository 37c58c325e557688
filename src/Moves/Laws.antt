-- ===== src/Moves/Laws.antt =====
-- The copies that copyPhysReg makes, and the address that a selected frame index becomes.
use toy_riscv.Base.{
  ℕ, ◌+◌, ◌%◌, ◌^◌, ◌<◌, ◌==◌, ==_iff, ==_refl, Bool, true, false, if◌then◌else◌, List, [], ◌∷◌,
  get_elem?, some, ok, XLen, rv32, rv64, modulus, add_word, ◌≡◌, ◌≢◌, refl, ap, ◌∙◌, arith,
}
use toy_riscv.Frame.{
  MachineFunction, has_fp, FrameRegister, get_frame_register, Operand, frame_index, immediate,
  other_operand, FrameLayout, is_int_12, eliminate_frame_index,
}
use toy_riscv.Frame.Laws.{address, offset, address-eliminate_frame_index}
use toy_riscv.Moves.{Addi, is_gpr, copy_phys_reg, frame_index_node, select, replaced_by_addi}

-- Register 0 reads as zero.
abbrev pub read : (ℕ → ℕ) → ℕ → ℕ
read regs r = if r == 0 then 0 else regs r

-- ADDI on registers of a width.
abbrev pub run_addi : XLen → Addi → (ℕ → ℕ) → ℕ → ℕ
run_addi x i regs r = if r == i.dst then add_word x (read regs i.src) i.imm else regs r

unequal : (a b : ℕ) → a ≢ b → (a == b) ≡ false
unequal a b n = ground (arith, ==_iff a b, n)

word_zero : (x : XLen) (a : ℕ) → a < modulus x → add_word x a 0 ≡ a
word_zero rv32 a h = omega (arith, h)
word_zero rv64 a h = omega (arith, h)

read_word :
    (x : XLen) (regs : ℕ → ℕ) → ((r : ℕ) → regs r < modulus x) → (r : ℕ) → read regs r < modulus x
read_word rv32 regs h r = ground (arith, h r)
read_word rv64 regs h r = ground (arith, h r)

-- Of two general-purpose registers, the destination not the zero register, and with words in the registers,
-- copyPhysReg makes an ADDI after which the destination reads what the source read, and every other register
-- what it read.
pub run_addi-copy_phys_reg :
    (x : XLen) (dst src : ℕ) (kill : Bool) (regs : ℕ → ℕ)
    → dst < 32
    → src < 32
    → dst ≢ 0
    → ((r : ℕ) → regs r < modulus x)
    → (i : Addi) × (copy_phys_reg dst src kill ≡ ok i)
      × (read (run_addi x i regs) dst ≡ read regs src)
      × ((r : ℕ) → r ≢ dst → read (run_addi x i regs) r ≡ read regs r)
unfolding copy_phys_reg is_gpr
run_addi-copy_phys_reg x dst src kill regs d s n words = (
  record { dst = dst; src = src; is_killed = kill; imm = 0 },
  ground (arith, d, s),
  rw (unequal dst 0 n, ==_refl dst) (word_zero x (read regs src) (read_word x regs words src)),
  λ r other. rw (unequal r dst other) refl,
)

-- The ADDI that Select makes of a frame index, with its destination before the operands, in a function with
-- a frame pointer and with the offset of the slot in range: eliminateFrameIndex gives it a register and an
-- immediate whose sum is the address of the slot, if the base and the offset of the slot's layout name that
-- address.
address-select :
    (l : FrameLayout) (mf : MachineFunction) (i slot : ℕ) (rv : FrameRegister → ℕ)
    → (rv (l.base_of mf i (get_frame_register mf)) + l.offset_of mf i (get_frame_register mf))
        % 2 ^ 64
      ≡ slot
    → has_fp mf ≡ true
    → is_int_12 (offset l mf i 0) ≡ true
    → (ops r : List Operand) × (select (frame_index_node i) ≡ replaced_by_addi ops)
      × (eliminate_frame_index l mf 0 (other_operand ∷ ops) 1 ≡ ok r)
      × (address rv (get_elem? r 1) (get_elem? r 2) ≡ some slot)
      × (get_elem? r 0 ≡ some other_operand)
unfolding select
address-select l mf i slot rv named fp_h fits =
    let ops = frame_index i ∷ immediate 0 ∷ [] in
    let (r, made, sum, kept) =
      address-eliminate_frame_index l mf (other_operand ∷ ops) 1 i 0 refl refl rv slot 0 named fp_h
        fits (λ e. omega (arith, e)) (λ e. omega (arith, e)) in
    (ops, r, refl, made, sum ∙ ap some (whole slot _ named), kept)
  where
    whole : (s a : ℕ) → a % 2 ^ 64 ≡ s → (s + 0) % 2 ^ 64 ≡ s
    whole s a h = omega (arith, h)
