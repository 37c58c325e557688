-- ===== src/Base/Words.antt =====
-- The two register widths, and words as numbers below a power of two.
use Prim.Native.Nat.{ℕ, ◌+◌, ◌-◌, ◌%◌, ◌^◌}
use mathlib.Core.Bool.{Bool}
use toy_riscv.Base.Tests.{ltb, if◌then◌else◌}

pub data XLen : Type 0 where
  rv32 rv64 : XLen

abbrev pub modulus : XLen → ℕ
modulus rv32 = 2 ^ 32
modulus rv64 = 2 ^ 64

abbrev pub half : XLen → ℕ
half rv32 = 2 ^ 31
half rv64 = 2 ^ 63

-- A word with the sign bit flipped: its unsigned order is the signed order of the word.
abbrev pub flip_sign : XLen → ℕ → ℕ
flip_sign x a = if ltb a (half x) then a + half x else a - half x

abbrev pub signed_lt : XLen → ℕ → ℕ → Bool
signed_lt x a b = ltb (flip_sign x a) (flip_sign x b)

abbrev pub add_word : XLen → ℕ → ℕ → ℕ
add_word x a b = (a + b) % modulus x

abbrev pub sub_word : XLen → ℕ → ℕ → ℕ
sub_word x a b = (a + (modulus x - b)) % modulus x
