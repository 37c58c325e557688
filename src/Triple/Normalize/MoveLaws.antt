-- ===== src/Triple/Normalize/MoveLaws.antt =====
-- The moves of components: what stays, what is counted, and where the component arrives.
use toy_riscv.Base.{
  ℕ, zero, suc, ◌+◌, ◌≤◌, ◌<◌, Bool, true, false, if◌then◌else◌, List, [], ◌∷◌, get_elem?, set,
  get_elem?-set_same, get_elem?-set_other, some, Text, text_eq, is_empty, ok, ◌≡◌, ◌≢◌, refl, ◌∙◌,
  arith, Bool-cases, inl, inr,
}
use toy_riscv.Triple.Normalize.Moves.{is_fixed, later, displace, displace_from, insert_left}

-- How often a text is among the components.
unfoldable pub count : Text → List Text → ℕ
count x [] = 0
count x (c ∷ cs) = (if text_eq c x then 1 else 0) + count x cs

abbrev pub one : Text → Text → ℕ
one x c = if text_eq c x then 1 else 0

-- Whether a position is fixed.
unfoldable pub fixed : List Bool → ℕ → Bool
fixed [] i = false
fixed (b ∷ bs) zero = b
fixed (b ∷ bs) (suc i) = fixed bs i

pub is_empty-one : (x c : Text) → is_empty x ≡ false → is_empty c ≡ true → text_eq c x ≡ false
is_empty-one x [] h k = ground (arith, h)
is_empty-one [] (c ∷ cs) h k = cc
is_empty-one (x ∷ xs) (c ∷ cs) h k = cc

displace-count :
    (x : Text) (fs : List Bool) (hand : Text) (cs : List Text)
    → is_empty x ≡ false
    → count x (displace fs hand cs).0 + one x (displace fs hand cs).1 ≡ one x hand + count x cs
unfolding count displace
displace-count x fs hand [] n = omega arith
displace-count x fs hand (c ∷ cs) n = elim (Bool-cases (is_fixed fs)) [
  | inl e ↦ rw e (omega (arith, displace-count x (later fs) hand cs n))
  | inr e ↦ elim (Bool-cases (is_empty c)) [
    | inl f ↦ rw (e, f) (rw (is_empty-one x [] n refl, is_empty-one x c n f) (omega arith))
    | inr f ↦ rw (e, f) (omega (arith, displace-count x (later fs) c cs n))
  ]
]

displace-keeps :
    (fs : List Bool) (hand : Text) (cs : List Text) (i : ℕ) (v : Text)
    → fixed fs i ≡ true
    → get_elem? cs i ≡ some v
    → get_elem? (displace fs hand cs).0 i ≡ some v
unfolding displace fixed
displace-keeps fs hand [] i v h k = cc
displace-keeps [] hand (c ∷ cs) i v h k = cc
displace-keeps (true ∷ fs) hand (c ∷ cs) zero v h k = k
displace-keeps (true ∷ fs) hand (c ∷ cs) (suc i) v h k = displace-keeps fs hand cs i v h k
displace-keeps (false ∷ fs) hand (c ∷ cs) zero v h k = cc
displace-keeps (false ∷ fs) hand (c ∷ cs) (suc i) v h k = elim (Bool-cases (is_empty c)) [
  | inl f ↦ rw f k
  | inr f ↦ rw f (displace-keeps fs c cs i v h k)
]

emptied : (c : Text) → some c ≡ some [] → is_empty c ≡ true
emptied [] e = refl
emptied (x ∷ c) e = cc

-- The component in hand is put down before an empty place that is not fixed.
displace-ends :
    (fs : List Bool) (hand : Text) (cs : List Text) (k : ℕ)
    → fixed fs k ≡ false
    → get_elem? cs k ≡ some []
    → (displace fs hand cs).1 ≡ []
unfolding displace fixed
displace-ends fs hand [] k h e = cc
displace-ends [] hand (c ∷ cs) zero h e = rw (emptied c e) refl
displace-ends [] hand (c ∷ cs) (suc k) h e = elim (Bool-cases (is_empty c)) [
  | inl f ↦ rw f refl
  | inr f ↦ rw f (displace-ends [] c cs k h e)
]
displace-ends (true ∷ fs) hand (c ∷ cs) zero h e = cc
displace-ends (true ∷ fs) hand (c ∷ cs) (suc k) h e = displace-ends fs hand cs k h e
displace-ends (false ∷ fs) hand (c ∷ cs) zero h e = rw (emptied c e) refl
displace-ends (false ∷ fs) hand (c ∷ cs) (suc k) h e = elim (Bool-cases (is_empty c)) [
  | inl f ↦ rw f refl
  | inr f ↦ rw f (displace-ends fs c cs k h e)
]

-- The same from an index on.
pub displace_from-count :
    (x : Text) (n : ℕ) (fs : List Bool) (hand : Text) (cs : List Text)
    → is_empty x ≡ false
    → count x (displace_from n fs hand cs).0 + one x (displace_from n fs hand cs).1
      ≡ one x hand + count x cs
unfolding count displace_from
displace_from-count x zero fs hand cs h = displace-count x fs hand cs h
displace_from-count x (suc n) fs hand [] h = omega arith
displace_from-count x (suc n) fs hand (c ∷ cs) h =
    omega (arith, displace_from-count x n (later fs) hand cs h)

pub displace_from-keeps :
    (n : ℕ) (fs : List Bool) (hand : Text) (cs : List Text) (i : ℕ) (v : Text)
    → fixed fs i ≡ true
    → get_elem? cs i ≡ some v
    → get_elem? (displace_from n fs hand cs).0 i ≡ some v
unfolding displace_from fixed
displace_from-keeps zero fs hand cs i v h k = displace-keeps fs hand cs i v h k
displace_from-keeps (suc n) fs hand [] i v h k = cc
displace_from-keeps (suc n) fs hand (c ∷ cs) zero v h k = k
displace_from-keeps (suc n) [] hand (c ∷ cs) (suc i) v h k = cc
displace_from-keeps (suc n) (b ∷ fs) hand (c ∷ cs) (suc i) v h k =
    displace_from-keeps n fs hand cs i v h k

displace_from-ends :
    (n : ℕ) (fs : List Bool) (hand : Text) (cs : List Text) (k : ℕ)
    → n ≤ k
    → fixed fs k ≡ false
    → get_elem? cs k ≡ some []
    → (displace_from n fs hand cs).1 ≡ []
unfolding displace_from fixed
displace_from-ends zero fs hand cs k le h e = displace-ends fs hand cs k h e
displace_from-ends (suc n) fs hand [] k le h e = cc
displace_from-ends (suc n) fs hand (c ∷ cs) zero le h e = absurd (omega (arith, le))
displace_from-ends (suc n) [] hand (c ∷ cs) (suc k) le h e =
    displace_from-ends n [] hand cs k (omega (arith, le)) h e
displace_from-ends (suc n) (b ∷ fs) hand (c ∷ cs) (suc k) le h e =
    displace_from-ends n fs hand cs k (omega (arith, le)) h e

-- The component in hand comes to the first index, if it is not fixed.
displace-first :
    (fs : List Bool) (hand : Text) (c : Text) (cs : List Text)
    → is_fixed fs ≡ false
    → get_elem? (displace fs hand (c ∷ cs)).0 0 ≡ some hand
unfolding displace
displace-first fs hand c cs h = elim (Bool-cases (is_empty c)) [
  | inl f ↦ rw (h, f) refl
  | inr f ↦ rw (h, f) refl
]

displace_from-first :
    (n : ℕ) (fs : List Bool) (hand : Text) (cs : List Text) (k : ℕ) (v : Text)
    → n ≤ k
    → fixed fs n ≡ false
    → get_elem? cs k ≡ some v
    → get_elem? (displace_from n fs hand cs).0 n ≡ some hand
unfolding displace_from fixed
displace_from-first n fs hand [] k v le h e = cc
displace_from-first zero [] hand (c ∷ cs) k v le h e = displace-first [] hand c cs h
displace_from-first zero (b ∷ fs) hand (c ∷ cs) k v le h e = displace-first (b ∷ fs) hand c cs h
displace_from-first (suc n) fs hand (c ∷ cs) zero v le h e = absurd (omega (arith, le))
displace_from-first (suc n) [] hand (c ∷ cs) (suc k) v le h e =
    displace_from-first n [] hand cs k v (omega (arith, le)) h e
displace_from-first (suc n) (b ∷ fs) hand (c ∷ cs) (suc k) v le h e =
    displace_from-first n fs hand cs k v (omega (arith, le)) h e

-- A component taken out.
count-set :
    (x : Text) (cs : List Text) (i : ℕ) (c : Text)
    → is_empty x ≡ false
    → get_elem? cs i ≡ some c
    → one x c + count x (set cs i []) ≡ count x cs
unfolding count
count-set x [] i c n h = cc
count-set x (d ∷ cs) zero c n h = ground (arith, h, is_empty-one x [] n refl)
count-set x (d ∷ cs) (suc i) c n h = omega (arith, count-set x cs i c n h)

module _ (fs : List Bool) (pos idx : ℕ) (c : Text) (cs : List Text) (at : get_elem? cs idx ≡ some c)
    (present : is_empty c ≡ false) (movable : fixed fs idx ≡ false)
    (free : fixed fs pos ≡ false) where
  -- What a move does: the component is at Pos, what is fixed stays, and every component is still there.
  abbrev pub Moved : List Text → Type 0
  Moved ds =
      (get_elem? ds pos ≡ some c)
      × ((i : ℕ) (v : Text) → fixed fs i ≡ true → get_elem? cs i ≡ some v → get_elem? ds i ≡ some v)
      × ((x : Text) → is_empty x ≡ false → count x ds ≡ count x cs)

  other : (i : ℕ) → fixed fs i ≡ true → i ≢ idx
  other i h e = cc

  pub insert_left-Moved :
      pos < idx → (ds : List Text) × (insert_left fs pos idx c cs ≡ ok ds) × Moved ds
  unfolding insert_left
  insert_left-Moved lt =
      let cleared = set cs idx [] in
      let d = displace_from pos fs c cleared in
      let cleared_at = get_elem?-set_same cs idx c [] at in
      let done = displace_from-ends pos fs c cleared idx (omega (arith, lt)) movable cleared_at in
      (
        d.0,
        rw (present, done) refl,
        (
          displace_from-first pos fs c cleared idx [] (omega (arith, lt)) free cleared_at,
          λ i v h e.
              displace_from-keeps pos fs c cleared i v h
                (get_elem?-set_other cs idx i [] (other i h) ∙ e),
          λ x n.
              let counted = rw done at (displace_from-count x pos fs c cleared n) in
              omega (arith, rw (is_empty-one x [] n refl) at counted, count-set x cs idx c n at),
        ),
      )
