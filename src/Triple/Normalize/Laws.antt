-- ===== src/Triple/Normalize/Laws.antt =====
-- Triple::normalize as a whole.
use toy_riscv.Base.{
  ℕ, zero, suc, ◌<◌, true, false, ltb, List, [], ◌∷◌, ◌++◌, length, get_elem?, set, drop, some,
  Text, codes, has_prefix, is_empty, ok, ◌≡◌, refl, sym, ap, ◌∙◌, arith, Bool-cases, inl, inr,
}
use toy_riscv.Triple.Types.{VendorType, suse, EnvironmentType, android, gnueabi}
use toy_riscv.Triple.Host.{Host}
use toy_riscv.Triple.Setters.{is_unknown_environment}
use toy_riscv.Triple.Normalize.{
  permute, fill_unknown, is_android, is_suse_gnueabi, name_android, fix_android, fix_suse, finish,
  normalize,
}
use toy_riscv.Triple.Normalize.MoveLaws.{fixed, count}
use toy_riscv.Triple.Normalize.Parts.{
  Parsed, Progress, Position, environment_position, index, split_all, parse_components,
}
use toy_riscv.Triple.Normalize.StateLaws.{Good, parse_components-Good}
use toy_riscv.Triple.Normalize.RoundLaws.{permute-Goes}

get_elem?-fill_unknown :
    (cs : List Text) (n : ℕ) (c : Text)
    → get_elem? cs n ≡ some c
    → (d : Text) × (get_elem? (fill_unknown cs) n ≡ some d)
unfolding fill_unknown
get_elem?-fill_unknown [] n c e = cc
get_elem?-fill_unknown (x ∷ cs) zero c e = (_, refl)
get_elem?-fill_unknown (x ∷ cs) (suc n) c e = get_elem?-fill_unknown cs n c e

get_elem?-lt : (cs : List Text) (n : ℕ) (c : Text) → get_elem? cs n ≡ some c → n < length cs
get_elem?-lt [] n c e = cc
get_elem?-lt (x ∷ cs) zero c e = omega arith
get_elem?-lt (x ∷ cs) (suc n) c e = omega (arith, get_elem?-lt cs n c e)

length-set : (cs : List Text) (n : ℕ) (c : Text) → length (set cs n c) ≡ length cs
length-set [] n c = refl
length-set (x ∷ cs) zero c = refl
length-set (x ∷ cs) (suc n) c = ap suc (length-set cs n c)

android-known : (e : EnvironmentType) → is_android e ≡ true → is_unknown_environment e ≡ false
android-known android h = refl
android-known _ h = ground (arith, h)

suse_gnueabi-known :
    (v : VendorType) (e : EnvironmentType)
    → is_suse_gnueabi v e ≡ true
    → is_unknown_environment e ≡ false
suse_gnueabi-known suse gnueabi h = refl
suse_gnueabi-known _ _ h = ground (arith, h)

get_elem?-ge : (cs : List Text) (n : ℕ) → n < length cs → (c : Text) × (get_elem? cs n ≡ some c)
get_elem?-ge [] n lt = absurd (omega (arith, lt))
get_elem?-ge (x ∷ cs) zero lt = (x, refl)
get_elem?-ge (x ∷ cs) (suc n) lt = get_elem?-ge cs n (omega (arith, lt))

-- A known environment has a component, which the special cases change.
fix_android-ok :
    (p : Parsed) (cs : List Text)
    → (is_unknown_environment p.environment ≡ false → 3 < length cs)
    → (ds : List Text) × (fix_android p cs ≡ ok ds) × (length ds ≡ length cs)
unfolding fix_android name_android
fix_android-ok p cs room = elim (Bool-cases (is_android p.environment)) [
  | inl e ↦
      let (c, at) = get_elem?-ge cs 3 (room (android-known p.environment e)) in
      elim (Bool-cases (has_prefix (codes "androideabi") c)) [
        | inl f ↦ rw (e, at, f) (_, refl, length-set cs 3 (codes "android" ++ drop 11 c))
        | inr f ↦ rw (e, at, f) (cs, refl, refl)
      ]
  | inr e ↦ rw e (cs, refl, refl)
]

fix_suse-ok :
    (p : Parsed) (cs : List Text)
    → (is_unknown_environment p.environment ≡ false → 3 < length cs)
    → (ds : List Text) × (fix_suse p cs ≡ ok ds)
unfolding fix_suse
fix_suse-ok p cs room = elim (Bool-cases (is_suse_gnueabi p.vendor p.environment)) [
  | inl e ↦
      let far : ltb 3 (length cs) ≡ true =
        ground (arith, room (suse_gnueabi-known p.vendor p.environment e)) in
      rw (e, far) (_, refl)
  | inr e ↦ rw e (_, refl)
]

module _ (h : Host) where
  has_environment :
      (s : Progress)
      → Good h s
      → is_unknown_environment s.parsed.environment ≡ false
      → 3 < length (fill_unknown s.components)
  has_environment s g known = elim (Bool-cases (fixed s.found 3)) [
    | inl f ↦
        let (c, at, holds) = g.filled environment_position f in
        let (d, there) = get_elem?-fill_unknown s.components 3 c at in
        get_elem?-lt (fill_unknown s.components) 3 d there
    | inr f ↦ let unknown = g.missing environment_position f in cc
  ]

  finish-ok : (s : Progress) → Good h s → (u : Text) × (finish s ≡ ok u)
  unfolding finish
  finish-ok s g =
      let room = has_environment s g in
      let (cs, e, same) = fix_android-ok s.parsed (fill_unknown s.components) room in
      let (ds, f) = fix_suse-ok s.parsed cs (λ k. rw same (room k)) in rw (e, f) (_, refl)

  -- The loop over the positions never stops. After it, a found position has a component that its variables are
  -- parsed from, and the variable of any other position is unknown; every component that is not empty is there as
  -- often as before; and a component that was in its position has not moved.
  pub permute-Good :
      (cs : List Text)
      → (s : Progress) × (permute h (parse_components h cs) ≡ ok s)
        × Good h s
        × ((x : Text) → is_empty x ≡ false → count x s.components ≡ count x cs)
        × ((at : Position)
            → fixed (parse_components h cs).found (index at) ≡ true
            → get_elem? s.components (index at) ≡ get_elem? cs (index at))
  unfolding parse_components
  permute-Good cs =
      let good = parse_components-Good h cs in
      let (s, e, g, (counts, keeps)) = permute-Goes h (parse_components h cs) good in
      (
        s,
        e,
        g,
        counts,
        λ at f.
            let (c, there, holds) = good.filled at f in (keeps (index at) c f there).1 ∙ sym there,
      )

  -- Triple::normalize returns a text for every text on every host: no index is out of range, and the assertion
  -- that a component has been moved to its position holds.
  pub normalize-ok : (t : Text) → (u : Text) × (normalize h t ≡ ok u)
  unfolding normalize
  normalize-ok t =
      let (s, e, g, same) =
        permute-Goes h (parse_components h (split_all t)) (parse_components-Good h (split_all t)) in
      rw e (finish-ok s g)
