-- ===== src/Mc/Expr/Immediates.antt =====
-- The split of an immediate into its upper twenty and lower twelve bits, as `evaluate_as_int64` and
-- the pattern for 32-bit constants make it.
use toy_riscv.Base.{ℕ, ◌+◌, ◌-◌, ◌*◌, ◌%◌, ◌^◌, ◌≤◌, ◌<◌, ◌≡◌, ok, arith, ltb, if◌then◌else◌, ◌⊎◌}
use toy_riscv.Mc.Expr.{SignExtend, evaluate_as_int64, vk_lo, vk_hi}

-- The value of `lui rd, hi`: the twenty bits in place, sign-extended from bit 31.
abbrev pub lui_64 : ℕ → ℕ
lui_64 hi = if ltb hi (2 ^ 19) then hi * 2 ^ 12 else hi * 2 ^ 12 + (2 ^ 64 - 2 ^ 32)

module _ (m : SignExtend) where
  open m use {sign_extend_12, sign_extend_12_lem}

  -- For every 64-bit value the two modifiers give parts within their fields that add up to the value
  -- in 32-bit arithmetic: the upper part has twenty bits, the lower one is a signed 12-bit number,
  -- and lui followed by addi restores the value modulo 2 ^ 32.
  pub hi-add-lo :
      (value hi lo : ℕ)
      → evaluate_as_int64 m vk_hi value ≡ ok hi
      → evaluate_as_int64 m vk_lo value ≡ ok lo
      → (hi < 2 ^ 20)
        × ((lo < 2 ^ 11) ⊎ (2 ^ 64 - 2 ^ 11 ≤ lo))
        × ((hi * 2 ^ 12 + lo) % 2 ^ 32 ≡ value % 2 ^ 32)
  unfolding evaluate_as_int64
  hi-add-lo value hi lo p q = ground (arith, sign_extend_12_lem value)
