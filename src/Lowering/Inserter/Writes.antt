-- ===== src/Lowering/Inserter/Writes.antt =====
-- Registers written late: the selects of a sequence, done after its other instructions.
use toy_riscv.Base.{
  ℕ, Bool, true, false, ◌||◌, ◌==◌, ==_iff, if◌then◌else◌, List, [], ◌∷◌, ◌++◌, map, any, member,
  ◌≡◌, refl, sym, ap₂, arith, Bool-cases, inl, inr,
}
use mathlib.Core.Path.{fun_ext}
use toy_riscv.Lowering.Inserter.Run.{write, write_all}
use toy_riscv.Lowering.Inserter.Scan.{Fresh}

-- A select by its destination and its two operands.
abbrev pub Choice : Type 0
Choice = ℕ × ℕ × ℕ

-- The registers after the selects, the latest first, which all read `base`.
unfoldable pub choose : Bool → List Choice → (ℕ → ℕ) → ℕ → ℕ
choose b [] base = base
choose b ((d, t, f) ∷ ps) base = write d (base (if b then t else f)) (choose b ps base)

-- The destinations are in `dests` and are neither of two registers, and all registers are in `seen`.
unfoldable pub Known : (l r : ℕ) → (dests seen : List ℕ) → List Choice → Type 0
Known l r dests seen [] = Unit
Known l r dests seen ((d, t, f) ∷ ps) =
    (member d dests ≡ true)
    × (member d seen ≡ true)
    × (member t seen ≡ true)
    × (member f seen ≡ true)
    × ((l == d) ≡ false)
    × ((r == d) ≡ false)
    × Known l r dests seen ps

pub or_false : (a b : Bool) → (a || b) ≡ false → (a ≡ false) × (b ≡ false)
or_false true b h = cc
or_false false b h = (refl, h)

pub member_ne :
    (q d : ℕ) (seen : List ℕ) → member q seen ≡ true → member d seen ≡ false → (q == d) ≡ false
member_ne q d seen h n = elim (Bool-cases (q == d)) [
  | inl e ↦ cc (h, n, (==_iff q d).0 e)
  | inr e ↦ e
]

write_comm :
    (e d u v : ℕ) (f : ℕ → ℕ) → (d == e) ≡ false → write e u (write d v f) ≡ write d v (write e u f)
write_comm e d u v f h = fun_ext (λ q. ground (arith, h, ==_iff q e, ==_iff q d))

pub member-append : (q : ℕ) (xs seen : List ℕ) → member q seen ≡ true → member q (xs ++ seen) ≡ true
member-append q [] seen h = h
member-append q (x ∷ xs) seen h = ground (arith, member-append q xs seen h)

module _ (l r : ℕ) where
  pub Known-append :
      (dests xs seen : List ℕ) (ps : List Choice)
      → Known l r dests seen ps
      → Known l r dests (xs ++ seen) ps
  unfolding Known
  Known-append dests xs seen [] h = tt
  Known-append dests xs seen ((e, t, f) ∷ ps) h = (
    h.0,
    member-append e xs seen h.1,
    member-append t xs seen h.2,
    member-append f xs seen h.3,
    h.4,
    h.5,
    Known-append dests xs seen ps h.6,
  )

  pub Known-cons :
      (d : ℕ) (dests seen : List ℕ) (ps : List Choice)
      → Known l r dests seen ps
      → Known l r (d ∷ dests) seen ps
  unfolding Known
  Known-cons d dests seen [] h = tt
  Known-cons d dests seen ((e, t, f) ∷ ps) h =
      (ground (arith, h.0), h.1, h.2, h.3, h.4, h.5, Known-cons d dests seen ps h.6)

  -- Registers that are not destinations are as they were.
  pub choose_other :
      (b : Bool) (dests seen : List ℕ) (ps : List Choice) (base : ℕ → ℕ) (q : ℕ)
      → Known l r dests seen ps
      → member q dests ≡ false
      → choose b ps base q ≡ base q
  unfolding choose Known
  choose_other b dests seen [] base q h n = refl
  choose_other b dests seen ((d, t, f) ∷ ps) base q h n =
      ground (arith, choose_other b dests seen ps base q h.6 n, ==_iff q d, h.0, h.1)

  pub map-choose :
      (b : Bool) (dests seen : List ℕ) (ps : List Choice) (base : ℕ → ℕ) (us : List ℕ)
      → Known l r dests seen ps
      → any (λ u. member u dests) us ≡ false
      → map (choose b ps base) us ≡ map base us
  map-choose b dests seen ps base [] h n = refl
  map-choose b dests seen ps base (u ∷ us) h n =
      let (first, rest) = or_false (member u dests) (any (λ a. member a dests) us) n in
      ap₂ ◌∷◌ (choose_other b dests seen ps base u h first)
        (map-choose b dests seen ps base us h rest)

  pub choose_left :
      (b : Bool) (dests seen : List ℕ) (ps : List Choice) (base : ℕ → ℕ)
      → Known l r dests seen ps
      → (choose b ps base l ≡ base l) × (choose b ps base r ≡ base r)
  unfolding choose Known
  choose_left b dests seen [] base h = (refl, refl)
  choose_left b dests seen ((d, t, f) ∷ ps) base h =
      let ih = choose_left b dests seen ps base h.6 in (rw h.4 ih.0, rw h.5 ih.1)

-- Fresh registers are none that were seen.
pub write_all_other :
    (ds vs seen : List ℕ) (base : ℕ → ℕ) (q : ℕ)
    → Fresh ds seen
    → member q seen ≡ true
    → write_all ds vs base q ≡ base q
unfolding write_all
write_all_other [] vs seen base q h n = refl
write_all_other (d ∷ ds) [] seen base q h n = refl
write_all_other (d ∷ ds) (v ∷ vs) seen base q h n =
    rw (member_ne q d seen n h.0) (write_all_other ds vs seen base q h.1 n)

pub write_all-write :
    (ds vs seen : List ℕ) (d v : ℕ) (base : ℕ → ℕ)
    → Fresh ds seen
    → member d seen ≡ true
    → write_all ds vs (write d v base) ≡ write d v (write_all ds vs base)
unfolding write_all
write_all-write [] vs seen d v base h n = refl
write_all-write (e ∷ ds) [] seen d v base h n = refl
write_all-write (e ∷ ds) (u ∷ vs) seen d v base h n =
    rw (write_all-write ds vs seen d v base h.1 n)
      (write_comm e d u v (write_all ds vs base) (member_ne d e seen n h.0))

-- Instructions that define fresh registers may come before the selects.
pub choose-write_all :
    (l r : ℕ) (b : Bool) (dests seen : List ℕ) (ps : List Choice) (ds vs : List ℕ) (base : ℕ → ℕ)
    → Known l r dests seen ps
    → Fresh ds seen
    → choose b ps (write_all ds vs base) ≡ write_all ds vs (choose b ps base)
unfolding choose Known
choose-write_all l r b dests seen [] ds vs base h n = refl
choose-write_all l r true dests seen ((d, t, f) ∷ ps) ds vs base h n =
    rw
      (
        write_all_other ds vs seen base t n h.2,
        choose-write_all l r true dests seen ps ds vs base h.6 n,
      )
      (sym (write_all-write ds vs seen d (base t) (choose true ps base) n h.1))
choose-write_all l r false dests seen ((d, t, f) ∷ ps) ds vs base h n =
    rw
      (
        write_all_other ds vs seen base f n h.3,
        choose-write_all l r false dests seen ps ds vs base h.6 n,
      )
      (sym (write_all-write ds vs seen d (base f) (choose false ps base) n h.1))
