-- ===== src/Triple/Normalize/RoundLaws.antt =====
-- The loop over the positions in Triple::normalize.
use toy_riscv.Base.{
  ℕ, true, false, ◌==◌, List, get_elem?, set, Option, some, Text, text_eq_refl, Outcome, ok, ◌>>=◌,
  ◌≡◌, ◌≢◌, refl, sym, ap, ◌∙◌, arith, Bool-cases, inl, inr,
}
use toy_riscv.Triple.Host.{Host}
use toy_riscv.Triple.Normalize.{place, place_at, round, permute}
use toy_riscv.Triple.Normalize.Moves.{check_moved}
use toy_riscv.Triple.Normalize.MoveLaws.{fixed}
use toy_riscv.Triple.Normalize.PushLaws.{Fits, move_component-Moved}
use toy_riscv.Triple.Normalize.Parts.{
  Parsed, Progress, Position, arch_position, vendor_position, os_position, environment_position,
  index, find_valid,
}
use toy_riscv.Triple.Normalize.PartLaws.{
  Holds, is_missing, find_valid-others, Holds-present, find_valid-Found, Found,
}
use toy_riscv.Triple.Normalize.FoundLaws.{
  position_at, index-injective, fixed-drop, fixed-index, length-set, fixed-set, fixed-set_same,
  index-lt,
}
use toy_riscv.Triple.Normalize.StateLaws.{Good, Same, Same-refl, Same-trans}

module _ (h : Host) where
  Good-Fits : (s : Progress) → Good h s → Fits s.found s.components
  Good-Fits s g i f =
      let e : index (position_at i) ≡ i = fixed-index s.found i g.four f in
      let (c, at, holds) = g.filled (position_at i) (ap (fixed s.found) e ∙ f) in (c, rw e at at)

  -- Nothing valid is left for a position.
  leave-Good :
      (pos : Position) (s : Progress) (p : Parsed)
      → Good h s
      → fixed s.found (index pos) ≡ false
      → is_missing h pos p ≡ true
      → ((at : Position)
          → index pos ≢ index at
          → ((c : Text) → Holds h at c s.parsed → Holds h at c p)
            × (is_missing h at p ≡ is_missing h at s.parsed))
      → Good h (record s { parsed = p })
  leave-Good pos s p g free m others = record {
    four = g.four;
    filled = λ at f.
        let (c, there, holds) = g.filled at f in
        let d : index pos ≢ index at = λ e. cc in (c, there, (others at d).0 c holds);
    missing = λ at f. elim (Bool-cases (index pos == index at)) [
      | inl e ↦ rw (sym (index-injective pos at (ground (arith, e)))) m
      | inr e ↦
          let d : index pos ≢ index at = λ k. ground (arith, e, k) in
          (others at d).1 ∙ g.missing at f
    ];
  }

  -- A valid component has been moved to its position.
  take-Good :
      (pos : Position) (s : Progress) (p : Parsed) (c : Text) (ds : List Text)
      → Good h s
      → get_elem? ds (index pos) ≡ some c
      → ((i : ℕ) (v : Text)
          → fixed s.found i ≡ true
          → get_elem? s.components i ≡ some v
          → get_elem? ds i ≡ some v)
      → Holds h pos c p
      → ((at : Position)
          → index pos ≢ index at
          → ((c : Text) → Holds h at c s.parsed → Holds h at c p)
            × (is_missing h at p ≡ is_missing h at s.parsed))
      → Good h (record { found = set s.found (index pos) true; components = ds; parsed = p })
  take-Good pos s p c ds g there kept holds others = record {
    four = length-set s.found (index pos) true ∙ g.four;
    filled = λ at f. elim (Bool-cases (index pos == index at)) [
      | inl e ↦ rw (sym (index-injective pos at (ground (arith, e)))) (c, there, holds)
      | inr e ↦
          let d : index pos ≢ index at = λ k. ground (arith, e, k) in
          let was = sym (fixed-set s.found (index pos) (index at) (λ k. d (sym k))) ∙ f in
          let (b, at_b, held) = g.filled at was in
          (b, kept (index at) b was at_b, (others at d).0 b held)
    ];
    missing = λ at f. elim (Bool-cases (index pos == index at)) [
      | inl e ↦
          let same : index pos ≡ index at = ground (arith, e) in
          let lt = rw (← g.four) at (index-lt pos) in
          let is : fixed (set s.found (index pos) true) (index at) ≡ true =
            sym (ap (fixed (set s.found (index pos) true)) same)
            ∙ fixed-set_same s.found (index pos) lt in
          cc
      | inr e ↦
          let d : index pos ≢ index at = λ k. ground (arith, e, k) in
          (others at d).1
          ∙ g.missing at (sym (fixed-set s.found (index pos) (index at) (λ k. d (sym k))) ∙ f)
    ];
  }

  -- A round never stops, and leaves a good state with the same components.
  abbrev pub Goes : Progress → Outcome Progress → Type 0
  Goes s o = (t : Progress) × (o ≡ ok t) × Good h t × Same h s t

  place_at-Goes :
      (pos : Position) (s : Progress) (p : Parsed) (k : ℕ) (c : Text)
      → Good h s
      → fixed s.found (index pos) ≡ false
      → get_elem? s.components k ≡ some c
      → fixed s.found k ≡ false
      → Holds h pos c p
      → ((at : Position)
          → index pos ≢ index at
          → ((c : Text) → Holds h at c s.parsed → Holds h at c p)
            × (is_missing h at p ≡ is_missing h at s.parsed))
      → Goes s (place_at pos s p k (some c))
  unfolding place_at check_moved
  place_at-Goes pos s p k c g free at movable holds others =
      let (ds, moved, (there, kept, same)) =
        move_component-Moved s.found (index pos) c (Holds-present h pos c p holds) free k
          s.components at movable (Good-Fits s g) in
      (
        record { found = set s.found (index pos) true; components = ds; parsed = p },
        rw (moved, there, text_eq_refl c) refl,
        take-Good pos s p c ds g there kept holds others,
        (
          same,
          λ i v f e.
              let d : i ≢ index pos = λ k. cc in
              (fixed-set s.found (index pos) i d ∙ f, kept i v f e),
        ),
      )

  place-Goes :
      (pos : Position) (s : Progress) (r : Parsed × Option ℕ)
      → Good h s
      → fixed s.found (index pos) ≡ false
      → Found h pos 0 s.found s.components r
      → ((at : Position)
          → index pos ≢ index at
          → ((c : Text) → Holds h at c s.parsed → Holds h at c r.0)
            × (is_missing h at r.0 ≡ is_missing h at s.parsed))
      → Goes s (place pos s r)
  unfolding place
  place-Goes pos s (p, found) g free (inl (e, m)) others =
      (record s { parsed = p }, rw e refl, leave-Good pos s p g free m others, Same-refl h s)
  place-Goes pos s (p, found) g free (inr (k, c, e, at, movable, holds)) others =
      let at_k : found ≡ some k = e ∙ ap some (omega arith) in
      rw (at_k) (rw at (place_at-Goes pos s p k c g free at movable holds others))

  round-Goes : (pos : Position) (s : Progress) → Good h s → Goes s (round h pos s)
  unfolding round
  round-Goes pos s g = elim (Bool-cases (fixed s.found (index pos))) [
    | inl e ↦ (s, rw (fixed-drop (index pos) s.found, e) refl, g, Same-refl h s)
    | inr e ↦
        rw (fixed-drop (index pos) s.found, e)
          (place-Goes pos s (find_valid h pos 0 s.found s.components s.parsed) g e
            (find_valid-Found h pos 0 s.found s.components s.parsed (g.missing pos e))
            (find_valid-others h pos 0 s.found s.components s.parsed))
  ]

  Goes->>= :
      (pos : Position) (s : Progress) (o : Outcome Progress) → Goes s o → Goes s (o >>= round h pos)
  Goes->>= pos s o (t, e, g, same) =
      let (u, f, good, sames) = round-Goes pos t g in
      rw e (u, f, good, Same-trans h s t u same sames)

  pub permute-Goes : (s : Progress) → Good h s → Goes s (permute h s)
  unfolding permute
  permute-Goes s g =
      Goes->>= environment_position s _
        (Goes->>= os_position s _ (Goes->>= vendor_position s _ (round-Goes arch_position s g)))
