-- ===== src/Triple/Normalize/StateLaws.antt =====
-- What the loop over the positions keeps, and the state before it.
use toy_riscv.Base.{
  ℕ, Bool, true, false, not, List, length, get_elem?, Option, none, some, Text, is_empty, ◌≡◌, refl,
  ◌∙◌, arith, inl,
}
use toy_riscv.Triple.Host.{Host}
use toy_riscv.Triple.Normalize.MoveLaws.{fixed, count}
use toy_riscv.Triple.Normalize.Parts.{
  Progress, Position, arch_position, vendor_position, os_position, environment_position, index,
  parse_components, parse_at, is_unknown_os, is_unknown_vendor,
}
use toy_riscv.Triple.Parse.{parse_environment, parse_os, parse_vendor}
use toy_riscv.Triple.ParseArch.{is_unknown_arch, parse_arch}
use toy_riscv.Triple.Setters.{is_unknown_environment}
use toy_riscv.Triple.Types.{unknown_arch, unknown_environment, unknown_os, unknown_vendor}
use toy_riscv.Triple.Normalize.PartLaws.{Holds, is_missing}

-- A component that is parsed into a known value is there.
parse_at-known :
    {A : Type 0} (f : Text → A) (u : A) (unknown : A → Bool)
    → unknown u ≡ true
    → (o : Option Text) → not (unknown (parse_at f u o)) ≡ true
    → (c : Text) × (o ≡ some c) × (f c ≡ parse_at f u o) × (unknown (parse_at f u o) ≡ false)
parse_at-known f u unknown e none k = ground (arith, e, k)
parse_at-known f u unknown e (some c) k = (c, refl, refl, ground (arith, k))

module _ (h : Host) where
  -- A found position has a component that its variables were parsed from; the variable of any other is unknown.
  pub record Good (s : Progress) : Type 0 where
    pub four : length s.found ≡ 4
    pub filled :
        (at : Position)
        → fixed s.found (index at) ≡ true
        → (c : Text) × (get_elem? s.components (index at) ≡ some c) × Holds h at c s.parsed
    pub missing :
        (at : Position) → fixed s.found (index at) ≡ false → is_missing h at s.parsed ≡ true

  -- The components are the same, but for empty ones and their order, and what has been found stays.
  abbrev pub Same : Progress → Progress → Type 0
  Same s t =
      ((x : Text) → is_empty x ≡ false → count x t.components ≡ count x s.components)
      × ((i : ℕ) (c : Text)
          → fixed s.found i ≡ true
          → get_elem? s.components i ≡ some c
          → (fixed t.found i ≡ true) × (get_elem? t.components i ≡ some c))

  pub Same-refl : (s : Progress) → Same s s
  Same-refl s = (λ x n. refl, λ i c f e. (f, e))

  pub Same-trans : (s t u : Progress) → Same s t → Same t u → Same s u
  Same-trans s t u (counts, keeps) (counts', keeps') =
      (λ x n. counts' x n ∙ counts x n, λ i c f e. let (g, k) = keeps i c f e in keeps' i c g k)

  -- The state before the loop.
  first_filled :
      (cs : List Text) (at : Position)
      → fixed (parse_components h cs).found (index at) ≡ true
      → (c : Text) × (get_elem? cs (index at) ≡ some c)
        × Holds h at c (parse_components h cs).parsed
  unfolding parse_components fixed
  first_filled cs arch_position f =
      let (c, e, k, known) =
        parse_at-known (parse_arch h) unknown_arch is_unknown_arch refl (get_elem? cs 0) f in
      (c, e, (k, known))
  first_filled cs vendor_position f =
      let (c, e, k, known) =
        parse_at-known parse_vendor unknown_vendor is_unknown_vendor refl (get_elem? cs 1) f in
      (c, e, (k, known))
  first_filled cs os_position f =
      let (c, e, k, known) =
        parse_at-known parse_os unknown_os is_unknown_os refl (get_elem? cs 2) f in
      (c, e, (k, rw e refl, rw e refl, rw known refl))
  first_filled cs environment_position f =
      let (c, e, k, known) =
        parse_at-known parse_environment unknown_environment is_unknown_environment refl
          (get_elem? cs 3) f in
      (c, e, (k, inl known))

  first_missing :
      (cs : List Text) (at : Position)
      → fixed (parse_components h cs).found (index at) ≡ false
      → is_missing h at (parse_components h cs).parsed ≡ true
  unfolding parse_components fixed
  first_missing cs arch_position f = ground (arith, f)
  first_missing cs vendor_position f = ground (arith, f)
  first_missing cs os_position f = ground (arith, f)
  first_missing cs environment_position f = ground (arith, f)

  pub parse_components-Good : (cs : List Text) → Good (parse_components h cs)
  unfolding parse_components
  parse_components-Good cs = record {
    four = refl;
    filled = first_filled cs;
    missing = first_missing cs;
  }
