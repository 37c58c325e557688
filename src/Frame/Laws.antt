-- ===== src/Frame/Laws.antt =====
-- What eliminateFrameIndex leaves of the operands: TOYRISCVRegisterInfo.cpp.
use toy_riscv.Base.{
  ℕ, suc, ◌+◌, ◌-◌, ◌%◌, ◌^◌, ◌≤◌, ◌<◌, true, Bool-cases, Option, none, some, List, get_elem?, set,
  get_elem?-set_same, get_elem?-set_other, ok, ◌≡◌, ◌≢◌, ◌↔◌, ◌⊎◌, refl, sym, ap, ◌∙◌, inl, inr,
  arith,
}
use toy_riscv.Frame.{
  MachineFunction, has_fp, FrameRegister, get_frame_register, Operand, register, frame_index,
  immediate, FrameLayout, is_int_12, get_index, get_imm, replace_operands, eliminate_frame_index,
}

-- The address that a register and an immediate next to it name, given what the registers hold.
unfoldable pub address : (FrameRegister → ℕ) → Option Operand → Option Operand → Option ℕ
address rv (some (register r)) (some (immediate n)) = some ((rv r + n) % 2 ^ 64)
address rv _ _ = none

-- The offset that is written for a slot and an immediate.
abbrev pub offset : FrameLayout → MachineFunction → ℕ → ℕ → ℕ
offset l mf i m = (l.offset_of mf i (get_frame_register mf) + m) % 2 ^ 64

module _ (l : FrameLayout) (mf : MachineFunction) (ops : List Operand) (n i m : ℕ)
    (index_h : get_elem? ops n ≡ some (frame_index i))
    (imm_h : get_elem? ops (suc n) ≡ some (immediate m)) where
  pub run_eliminate :
      eliminate_frame_index l mf 0 ops n
      ≡ replace_operands mf (l.base_of mf i (get_frame_register mf)) (offset l mf i m) ops n
  unfolding eliminate_frame_index get_index get_imm
  run_eliminate = rw (index_h, imm_h) refl

  is_int_12_iff : (x : ℕ) → (is_int_12 x ≡ true) ↔ ((x < 2048) ⊎ (2 ^ 64 - 2048 ≤ x))
  unfolding is_int_12
  is_int_12_iff x = (λ h. ground (arith, h), λ h. ground (arith, h))

  replace_only :
      (reg : FrameRegister) (off : ℕ) (r : List Operand)
      → replace_operands mf reg off ops n ≡ ok r
      → (has_fp mf ≡ true) × (is_int_12 off ≡ true)
  unfolding replace_operands
  replace_only reg off r h = elim (Bool-cases (has_fp mf)) [
    | inl e ↦ elim (Bool-cases (is_int_12 off)) [ inl f ↦ (e, f) | inr f ↦ ground arith ]
    | inr e ↦ ground arith
  ]

  replaced :
      (reg : FrameRegister) (off : ℕ)
      → has_fp mf ≡ true
      → is_int_12 off ≡ true
      → replace_operands mf reg off ops n
        ≡ ok (set (set ops n (register reg)) (suc n) (immediate off))
  unfolding replace_operands
  replaced reg off fp_h fits_h = rw (fp_h, fits_h) refl

  adjusted_only :
      (sp_adj : ℕ) (r : List Operand) → eliminate_frame_index l mf sp_adj ops n ≡ ok r → sp_adj ≡ 0
  unfolding eliminate_frame_index
  adjusted_only sp_adj r h = ground arith

  -- On an instruction with a frame index and an immediate after it, eliminateFrameIndex gives operands
  -- exactly when there is no adjustment of the stack pointer, the function has a frame pointer, and the
  -- offset is in the signed 12-bit range.
  pub eliminate_frame_index_iff :
      (sp_adj : ℕ)
      → ((r : List Operand) × (eliminate_frame_index l mf sp_adj ops n ≡ ok r)) ↔ (
          (sp_adj ≡ 0)
          × (has_fp mf ≡ true)
          × (((offset l mf i m) < 2048) ⊎ (2 ^ 64 - 2048 ≤ (offset l mf i m))))
  eliminate_frame_index_iff sp_adj = (
    λ (r, h).
        let zero_h = adjusted_only sp_adj r h in
        let kept =
          replace_only _ _ r
            (sym run_eliminate ∙ ap (λ a. eliminate_frame_index l mf a ops n) (sym zero_h) ∙ h) in
        (zero_h, kept.0, (is_int_12_iff (offset l mf i m)).0 kept.1),
    λ (zero_h, fp_h, range_h). (
      _,
      ap (λ a. eliminate_frame_index l mf a ops n) zero_h
          ∙ run_eliminate
          ∙ replaced _ _ fp_h ((is_int_12_iff (offset l mf i m)).1 range_h),
    ),
  )

  word_sum :
      (a b : ℕ) {slot : ℕ}
      → (a + b) % 2 ^ 64 ≡ slot
      → (a + (b + m) % 2 ^ 64) % 2 ^ 64 ≡ (slot + m) % 2 ^ 64
  word_sum a b h = ground (arith, h)

  -- On an instruction with a frame index and an immediate after it, with no adjustment of the stack
  -- pointer, in a function with a frame pointer and with the offset in range, eliminateFrameIndex gives
  -- operands that name the address of the slot plus the immediate, if the base and the offset of the
  -- slot's layout name the slot, and every other operand is as it was.
  pub address-eliminate_frame_index :
      (rv : FrameRegister → ℕ) (slot k : ℕ)
      → (rv (l.base_of mf i (get_frame_register mf)) + l.offset_of mf i (get_frame_register mf))
          % 2 ^ 64
        ≡ slot
      → has_fp mf ≡ true
      → is_int_12 (offset l mf i m) ≡ true
      → k ≢ n
      → k ≢ suc n
      → (r : List Operand) × (eliminate_frame_index l mf 0 ops n ≡ ok r)
        × (address rv (get_elem? r n) (get_elem? r (suc n)) ≡ some ((slot + m) % 2 ^ 64))
        × (get_elem? r k ≡ get_elem? ops k)
  unfolding replace_operands address
  address-eliminate_frame_index rv slot k slot_h fp_h fits_h kn ksn =
      let reg = l.base_of mf i (get_frame_register mf) in
      let once = set ops n (register reg) in
      (
        set once (suc n) (immediate (offset l mf i m)),
        run_eliminate ∙ rw (fp_h, fits_h) refl,
        rw
            (
              get_elem?-set_other once (suc n) n (immediate (offset l mf i m))
                  (λ e. omega (arith, e)),
              get_elem?-set_same ops n (frame_index i) (register reg) index_h,
              get_elem?-set_same once (suc n) (immediate m) (immediate (offset l mf i m)) (
                  get_elem?-set_other ops n (suc n) (register reg) (λ e. omega (arith, e)) ∙ imm_h),
            )
            (ap some (word_sum (rv reg) (l.offset_of mf i (get_frame_register mf)) slot_h)),
        get_elem?-set_other once (suc n) k (immediate (offset l mf i m)) ksn
            ∙ get_elem?-set_other ops n k (register reg) kn,
      )
