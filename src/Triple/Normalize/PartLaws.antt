-- ===== src/Triple/Normalize/PartLaws.antt =====
-- What a component is parsed into, and what the search for a valid component leaves.
use toy_riscv.Base.{
  ℕ, suc, ◌+◌, Bool, true, false, not, ◌||◌, List, [], ◌∷◌, get_elem?, Option, none, some, Text,
  is_empty, ◌≡◌, ◌≢◌, ◌⊎◌, refl, ap, ◌∙◌, arith, Bool-cases, inl, inr,
}
use toy_riscv.Triple.Types.{EnvironmentType, ObjectFormatType}
use toy_riscv.Triple.Host.{Host}
use toy_riscv.Triple.Parse.{parse_vendor, parse_os, parse_environment, parse_format}
use toy_riscv.Triple.ParseArch.{parse_arch, parse_special_arch, is_unknown_arch}
use toy_riscv.Triple.Target.{is_unknown_format}
use toy_riscv.Triple.Setters.{is_unknown_environment}
use toy_riscv.Triple.Normalize.Moves.{is_fixed, later}
use toy_riscv.Triple.Normalize.MoveLaws.{fixed}
use toy_riscv.Triple.Normalize.Parts.{
  is_unknown_vendor, is_unknown_os, Parsed, Position, arch_position, vendor_position, os_position,
  environment_position, index, is_cygwin_name, is_mingw_name, try_component, find_valid,
}

fixed-zero : (fs : List Bool) → fixed fs 0 ≡ is_fixed fs
unfolding fixed
fixed-zero [] = refl
fixed-zero (b ∷ fs) = refl

fixed-suc : (fs : List Bool) (k : ℕ) → fixed fs (suc k) ≡ fixed (later fs) k
unfolding fixed
fixed-suc [] k = refl
fixed-suc (b ∷ fs) k = refl

module _ (h : Host) where
  -- A component is valid for its position, and has been parsed into the variables of that position.
  abbrev pub Holds : Position → Text → Parsed → Type 0
  Holds arch_position c p = (parse_arch h c ≡ p.arch) × (is_unknown_arch p.arch ≡ false)
  Holds vendor_position c p = (parse_vendor c ≡ p.vendor) × (is_unknown_vendor p.vendor ≡ false)
  Holds os_position c p =
      (parse_os c ≡ p.os)
      × (is_cygwin_name c ≡ p.is_cygwin)
      × (is_mingw_name c ≡ p.is_mingw32)
      × (not (is_unknown_os p.os) || (p.is_cygwin || p.is_mingw32) ≡ true)
  Holds environment_position c p =
      (parse_environment c ≡ p.environment)
      × ((is_unknown_environment p.environment ≡ false)
          ⊎ ((parse_format c ≡ p.object_format) × (is_unknown_format p.object_format ≡ false)))

  -- The variable of a position is unknown.
  abbrev pub is_missing : Position → Parsed → Bool
  is_missing arch_position p = is_unknown_arch p.arch
  is_missing vendor_position p = is_unknown_vendor p.vendor
  is_missing os_position p = is_unknown_os p.os
  is_missing environment_position p = is_unknown_environment p.environment

  try_component-Holds :
      (pos : Position) (c : Text) (p : Parsed)
      → (try_component h pos c p).1 ≡ true
      → Holds pos c (try_component h pos c p).0
  unfolding try_component
  try_component-Holds arch_position c p v = (refl, ground (arith, v))
  try_component-Holds vendor_position c p v = (refl, ground (arith, v))
  try_component-Holds os_position c p v = (refl, refl, refl, v)
  try_component-Holds environment_position c p v =
      elim (Bool-cases (is_unknown_environment (parse_environment c))) [
        | inl e ↦ rw e (refl, inr (refl, ground (arith, v, e)))
        | inr e ↦ rw e (refl, inl e)
      ]

  try_component-missing :
      (pos : Position) (c : Text) (p : Parsed)
      → (try_component h pos c p).1 ≡ false
      → is_missing pos (try_component h pos c p).0 ≡ true
  unfolding try_component
  try_component-missing arch_position c p v = ground (arith, v)
  try_component-missing vendor_position c p v = ground (arith, v)
  try_component-missing os_position c p v = ground (arith, v)
  try_component-missing environment_position c p v =
      elim (Bool-cases (is_unknown_environment (parse_environment c))) [
        | inl e ↦ rw e e
        | inr e ↦ ground (arith, v, e)
      ]

  -- The other positions are as they were.
  Holds-try_component :
      (pos at : Position) (c d : Text) (p : Parsed)
      → index pos ≢ index at
      → Holds at c p
      → Holds at c (try_component h pos d p).0
  unfolding try_component
  Holds-try_component arch_position arch_position c d p n k = absurd (n refl)
  Holds-try_component arch_position vendor_position c d p n k = k
  Holds-try_component arch_position os_position c d p n k = k
  Holds-try_component arch_position environment_position c d p n k = k
  Holds-try_component vendor_position vendor_position c d p n k = absurd (n refl)
  Holds-try_component vendor_position arch_position c d p n k = k
  Holds-try_component vendor_position os_position c d p n k = k
  Holds-try_component vendor_position environment_position c d p n k = k
  Holds-try_component os_position os_position c d p n k = absurd (n refl)
  Holds-try_component os_position arch_position c d p n k = k
  Holds-try_component os_position vendor_position c d p n k = k
  Holds-try_component os_position environment_position c d p n k = k
  Holds-try_component environment_position at c d p n k =
      elim (Bool-cases (is_unknown_environment (parse_environment d))) [
        | inl e ↦ rw e (keeps _ _ at n k)
        | inr e ↦ rw e (keeps _ _ at n k)
      ]
    where
      keeps :
          (e : EnvironmentType) (f : ObjectFormatType) (at : Position)
          → index environment_position ≢ index at
          → Holds at c p
          → Holds at c (record p { environment = e; object_format = f })
      keeps e f arch_position n k = k
      keeps e f vendor_position n k = k
      keeps e f os_position n k = k
      keeps e f environment_position n k = absurd (n refl)

  is_missing-try_component :
      (pos at : Position) (d : Text) (p : Parsed)
      → index pos ≢ index at
      → is_missing at (try_component h pos d p).0 ≡ is_missing at p
  unfolding try_component
  is_missing-try_component arch_position arch_position d p n = absurd (n refl)
  is_missing-try_component arch_position vendor_position d p n = refl
  is_missing-try_component arch_position os_position d p n = refl
  is_missing-try_component arch_position environment_position d p n = refl
  is_missing-try_component vendor_position vendor_position d p n = absurd (n refl)
  is_missing-try_component vendor_position arch_position d p n = refl
  is_missing-try_component vendor_position os_position d p n = refl
  is_missing-try_component vendor_position environment_position d p n = refl
  is_missing-try_component os_position os_position d p n = absurd (n refl)
  is_missing-try_component os_position arch_position d p n = refl
  is_missing-try_component os_position vendor_position d p n = refl
  is_missing-try_component os_position environment_position d p n = refl
  is_missing-try_component environment_position at d p n =
      elim (Bool-cases (is_unknown_environment (parse_environment d))) [
        | inl e ↦ rw e (keeps _ _ at n)
        | inr e ↦ rw e (keeps _ _ at n)
      ]
    where
      keeps :
          (e : EnvironmentType) (f : ObjectFormatType) (at : Position)
          → index environment_position ≢ index at
          → is_missing at (record p { environment = e; object_format = f }) ≡ is_missing at p
      keeps e f arch_position n = refl
      keeps e f vendor_position n = refl
      keeps e f os_position n = refl
      keeps e f environment_position n = absurd (n refl)

  -- An empty component is valid nowhere.
  pub Holds-present : (pos : Position) (c : Text) (p : Parsed) → Holds pos c p → is_empty c ≡ false
  unfolding parse_arch parse_special_arch parse_vendor parse_os parse_environment parse_format
  Holds-present pos (x ∷ c) p k = refl
  Holds-present arch_position [] p k = ground (arith, k.0, k.1)
  Holds-present vendor_position [] p k = ground (arith, k.0, k.1)
  Holds-present os_position [] p k = ground (arith, k.0, k.1, k.2, k.3)
  Holds-present environment_position [] p (k, inl e) = ground (arith, k, e)
  Holds-present environment_position [] p (k, inr (f, e)) = ground (arith, k, e, f)

  -- What the search does to the variables of other positions, and what it finds.
  module _ (pos : Position) where
    pub find_valid-others :
        (idx : ℕ) (fs : List Bool) (cs : List Text) (p : Parsed) (at : Position)
        → index pos ≢ index at
        → ((c : Text) → Holds at c p → Holds at c (find_valid h pos idx fs cs p).0)
          × (is_missing at (find_valid h pos idx fs cs p).0 ≡ is_missing at p)
    unfolding find_valid
    find_valid-others idx fs [] p at n = (λ c k. k, refl)
    find_valid-others idx fs (d ∷ cs) p at n = elim (Bool-cases (is_fixed fs)) [
      | inl e ↦ rw e (find_valid-others (suc idx) (later fs) cs p at n)
      | inr e ↦ elim (Bool-cases (try_component h pos d p).1) [
        | inl f ↦
            rw (e, f)
              (λ c k. Holds-try_component pos at c d p n k, is_missing-try_component pos at d p n)
        | inr f ↦
            let (holds, missing) =
              find_valid-others (suc idx) (later fs) cs (try_component h pos d p).0 at n in
            rw (e, f)
              (
                λ c k. holds c (Holds-try_component pos at c d p n k),
                missing ∙ is_missing-try_component pos at d p n,
              )
      ]
    ]

    -- The search finds a valid component that is not fixed, or leaves the variable of the position unknown.
    abbrev pub Found : ℕ → List Bool → List Text → Parsed × Option ℕ → Type 0
    Found idx fs cs r =
        (r.1 ≡ none) × (is_missing pos r.0 ≡ true)
        ⊎ ((k : ℕ) × (c : Text) × (r.1 ≡ some (idx + k))
            × (get_elem? cs k ≡ some c)
            × (fixed fs k ≡ false)
            × Holds pos c r.0)

    Found-later :
        (idx : ℕ) (fs : List Bool) (d : Text) (cs : List Text) (r : Parsed × Option ℕ)
        → Found (suc idx) (later fs) cs r
        → Found idx fs (d ∷ cs) r
    Found-later idx fs d cs r (inl e) = inl e
    Found-later idx fs d cs r (inr (k, c, e, at, free, holds)) =
        inr (suc k, c, e ∙ ap some (omega arith), at, fixed-suc fs k ∙ free, holds)

    pub find_valid-Found :
        (idx : ℕ) (fs : List Bool) (cs : List Text) (p : Parsed)
        → is_missing pos p ≡ true
        → Found idx fs cs (find_valid h pos idx fs cs p)
    unfolding find_valid
    find_valid-Found idx fs [] p m = inl (refl, m)
    find_valid-Found idx fs (d ∷ cs) p m = elim (Bool-cases (is_fixed fs)) [
      | inl e ↦ rw e (Found-later idx fs d cs _ (find_valid-Found (suc idx) (later fs) cs p m))
      | inr e ↦ elim (Bool-cases (try_component h pos d p).1) [
        | inl f ↦
            rw (e, f)
              (inr (
                0,
                d,
                ap some (omega arith),
                refl,
                fixed-zero fs ∙ e,
                try_component-Holds pos d p f,
              ))
        | inr f ↦
            rw (e, f)
              (Found-later idx fs d cs _ (
                find_valid-Found (suc idx) (later fs) cs (try_component h pos d p).0
                  (try_component-missing pos d p f)))
      ]
    ]
