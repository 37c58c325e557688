-- ===== src/Triple/Normalize/FoundLaws.antt =====
-- The positions and the list that notes which are found.
use toy_riscv.Base.{
  ℕ, zero, suc, ◌<◌, Bool, true, List, [], ◌∷◌, length, set, drop, ◌≡◌, ◌≢◌, refl, sym, ap, ◌∙◌,
  arith,
}
use toy_riscv.Triple.Normalize.Moves.{is_fixed}
use toy_riscv.Triple.Normalize.MoveLaws.{fixed}
use toy_riscv.Triple.Normalize.Parts.{
  Position, arch_position, vendor_position, os_position, environment_position, index,
}

abbrev pub position_at : ℕ → Position
position_at zero = arch_position
position_at (suc zero) = vendor_position
position_at (suc (suc zero)) = os_position
position_at (suc (suc (suc n))) = environment_position

position_at-index : (pos : Position) → position_at (index pos) ≡ pos
position_at-index arch_position = refl
position_at-index vendor_position = refl
position_at-index os_position = refl
position_at-index environment_position = refl

pub index-injective : (pos at : Position) → index pos ≡ index at → pos ≡ at
index-injective pos at e = sym (position_at-index pos) ∙ ap position_at e ∙ position_at-index at

pub fixed-drop : (n : ℕ) (fs : List Bool) → is_fixed (drop n fs) ≡ fixed fs n
unfolding fixed
fixed-drop zero [] = refl
fixed-drop zero (b ∷ fs) = refl
fixed-drop (suc n) [] = refl
fixed-drop (suc n) (b ∷ fs) = fixed-drop n fs

-- A fixed index is a position.
pub fixed-index :
    (fs : List Bool) (i : ℕ) → length fs ≡ 4 → fixed fs i ≡ true → index (position_at i) ≡ i
unfolding fixed
fixed-index fs zero e h = refl
fixed-index fs (suc zero) e h = refl
fixed-index fs (suc (suc zero)) e h = refl
fixed-index fs (suc (suc (suc zero))) e h = refl
fixed-index [] (suc (suc (suc (suc i)))) e h = cc
fixed-index (a ∷ []) (suc (suc (suc (suc i)))) e h = cc
fixed-index (a ∷ b ∷ []) (suc (suc (suc (suc i)))) e h = cc
fixed-index (a ∷ b ∷ c ∷ []) (suc (suc (suc (suc i)))) e h = cc
fixed-index (a ∷ b ∷ c ∷ d ∷ []) (suc (suc (suc (suc i)))) e h = cc
fixed-index (a ∷ b ∷ c ∷ d ∷ x ∷ fs) (suc (suc (suc (suc i)))) e h = absurd (omega (arith, e))

pub length-set : (fs : List Bool) (n : ℕ) (b : Bool) → length (set fs n b) ≡ length fs
length-set [] n b = refl
length-set (x ∷ fs) zero b = refl
length-set (x ∷ fs) (suc n) b = ap suc (length-set fs n b)

pub fixed-set : (fs : List Bool) (n i : ℕ) → i ≢ n → fixed (set fs n true) i ≡ fixed fs i
unfolding fixed
fixed-set [] n i d = refl
fixed-set (x ∷ fs) zero zero d = absurd (d refl)
fixed-set (x ∷ fs) zero (suc i) d = refl
fixed-set (x ∷ fs) (suc n) zero d = refl
fixed-set (x ∷ fs) (suc n) (suc i) d = fixed-set fs n i (λ e. d (ap suc e))

pub fixed-set_same : (fs : List Bool) (n : ℕ) → n < length fs → fixed (set fs n true) n ≡ true
unfolding fixed
fixed-set_same [] n lt = absurd (omega (arith, lt))
fixed-set_same (x ∷ fs) zero lt = refl
fixed-set_same (x ∷ fs) (suc n) lt = fixed-set_same fs n (omega (arith, lt))

pub index-lt : (pos : Position) → index pos < 4
index-lt arch_position = omega arith
index-lt vendor_position = omega arith
index-lt os_position = omega arith
index-lt environment_position = omega arith
