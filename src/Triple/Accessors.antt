-- ===== src/Triple/Accessors.antt =====
-- The fields of a triple against its names, the constructors, and setArch: llvm/lib/Support/Triple.cpp.
use toy_riscv.Base.{
  ℕ, suc, true, false, Bool-cases, [], ◌∷◌, Text, ◌≡◌, refl, inl, inr, ◌∙◌, sym, arith,
}
use toy_riscv.Triple.Types.{ArchType, SubArchType}
use toy_riscv.Triple.Host.{Host}
use toy_riscv.Triple.ArchName.{name_of_arch}
use toy_riscv.Triple.ArchLaws.{parse_arch-name_of_arch, has_dash-name_of_arch}
use toy_riscv.Triple.ParseArch.{parse_arch}
use toy_riscv.Triple.Parse.{parse_vendor, parse_os}
use toy_riscv.Triple.Target.{
  first, second, has_dash, split, ◌⌢◌, with_default_format, fields, parse_triple, create_3,
  create_4, get_arch_name, get_vendor_name, get_os_name, get_os_and_environment_name, set_arch_name,
  set_arch,
}

pub first-⌢ : (s t : Text) → has_dash s ≡ false → first (s ⌢ t) ≡ s
first-⌢ [] t h = refl
first-⌢ (c ∷ s) t h = ground (arith, first-⌢ s t)

pub second-⌢ : (s t : Text) → has_dash s ≡ false → second (s ⌢ t) ≡ t
second-⌢ [] t h = refl
second-⌢ (c ∷ s) t h = ground (arith, second-⌢ s t)

pub has_dash-⌢ : (s t : Text) → has_dash (s ⌢ t) ≡ true
has_dash-⌢ [] t = refl
has_dash-⌢ (c ∷ s) t = ground (arith, has_dash-⌢ s t)

pub has_dash-first : (t : Text) → has_dash (first t) ≡ false
has_dash-first [] = refl
has_dash-first (c ∷ t) = ground (arith, has_dash-first t)

pub first_whole : (t : Text) → has_dash t ≡ false → first t ≡ t
first_whole [] h = refl
first_whole (c ∷ t) h = ground (arith, first_whole t)

pub second_whole : (t : Text) → has_dash t ≡ false → second t ≡ []
second_whole [] h = refl
second_whole (c ∷ t) h = ground (arith, second_whole t)

pub split-⌢ : (n : ℕ) (s t : Text) → has_dash s ≡ false → split (suc n) (s ⌢ t) ≡ s ∷ split n t
split-⌢ n s t h = rw (has_dash-⌢ s t, first-⌢ s t h, second-⌢ s t h) refl

module _ (h : Host) where
  pub fields-split :
      (x : Text)
      → ((parse_triple h x).text ≡ x)
        × ((parse_triple h x).arch ≡ parse_arch h (first x))
        × ((parse_triple h x).vendor ≡ parse_vendor (first (second x)))
        × ((parse_triple h x).os ≡ parse_os (first (second (second x))))
  unfolding parse_triple with_default_format fields parse_vendor parse_os
  fields-split x = elim (Bool-cases (has_dash x)) [
    | inr e ↦ rw (e, first_whole x e, second_whole x e) (refl, refl, refl, refl)
    | inl e ↦ elim (Bool-cases (has_dash (second x))) [
      | inr f ↦
          rw (e, f, first_whole (second x) f, second_whole (second x) f) (refl, refl, refl, refl)
      | inl f ↦ elim (Bool-cases (has_dash (second (second x)))) [
        | inr g ↦ rw (e, f, g, first_whole (second (second x)) g) (refl, refl, refl, refl)
        | inl g ↦ rw (e, f, g) (refl, refl, refl, refl)
      ]
    ]
  ]

  -- A parsed triple keeps its text, and its architecture, its vendor and its operating system are
  -- what the parsers read in the names that getArchName, getVendorName and getOSName cut out of the
  -- text, however many components the text has.
  pub parse_triple_lem :
      (x : Text)
      → ((parse_triple h x).text ≡ x)
        × ((parse_triple h x).arch ≡ parse_arch h (get_arch_name (parse_triple h x)))
        × ((parse_triple h x).vendor ≡ parse_vendor (get_vendor_name (parse_triple h x)))
        × ((parse_triple h x).os ≡ parse_os (get_os_name (parse_triple h x)))
  unfolding get_arch_name get_vendor_name get_os_name
  parse_triple_lem x = let f = fields-split x in (f.0, rw f.0 f.1, rw f.0 f.2, rw f.0 f.3)

  -- With three texts without '-' for an architecture, a vendor and an operating system, the
  -- constructor that takes them gives the triple that parsing the joined text gives.
  pub parse_triple-create_3 :
      (a v o : Text)
      → has_dash a ≡ false
      → has_dash v ≡ false
      → has_dash o ≡ false
      → parse_triple h (a ⌢ v ⌢ o) ≡ create_3 h a v o
  unfolding parse_triple create_3 fields
  parse_triple-create_3 a v o p q r = rw (split-⌢ 2 a (v ⌢ o) p, split-⌢ 1 v o q, r) refl

  -- With an environment too, which may have a '-' of its own, the constructor of four texts gives the
  -- triple that parsing the joined text gives.
  pub parse_triple-create_4 :
      (a v o e : Text)
      → has_dash a ≡ false
      → has_dash v ≡ false
      → has_dash o ≡ false
      → parse_triple h (a ⌢ v ⌢ o ⌢ e) ≡ create_4 h a v o e
  unfolding parse_triple create_4 fields
  parse_triple-create_4 a v o e p q r =
      rw (split-⌢ 2 a (v ⌢ o ⌢ e) p, split-⌢ 1 v (o ⌢ e) q, split-⌢ 0 o e r) refl

  -- The fields of three joined texts.
  pub fields-join :
      (a v o : Text)
      → has_dash a ≡ false
      → has_dash v ≡ false
      → ((parse_triple h (a ⌢ v ⌢ o)).arch ≡ parse_arch h a)
        × ((parse_triple h (a ⌢ v ⌢ o)).vendor ≡ parse_vendor v)
        × ((parse_triple h (a ⌢ v ⌢ o)).os ≡ parse_os (first o))
  fields-join a v o p q =
      let f = fields-split (a ⌢ v ⌢ o) in
      (
        f.1 ∙ rw (first-⌢ a (v ⌢ o) p) refl,
        f.2 ∙ rw (second-⌢ a (v ⌢ o) p, first-⌢ v o q) refl,
        f.3 ∙ rw (second-⌢ a (v ⌢ o) p, second-⌢ v o q) refl,
      )

  -- After setArch on a parsed triple, the architecture is the one that was set, with any
  -- sub-architecture, and the vendor and the operating system are as they were.
  pub set_arch_lem :
      (x : Text) (k : ArchType) (s : SubArchType)
      → ((set_arch h (parse_triple h x) k s).arch ≡ k)
        × ((set_arch h (parse_triple h x) k s).vendor ≡ (parse_triple h x).vendor)
        × ((set_arch h (parse_triple h x) k s).os ≡ (parse_triple h x).os)
  unfolding set_arch set_arch_name get_vendor_name get_os_and_environment_name
  set_arch_lem x k s =
      let f = fields-split x in
      let g =
        fields-join (name_of_arch k s) (first (second x)) (second (second x))
          (has_dash-name_of_arch k s) (has_dash-first (second x)) in
      (rw f.0 (g.0 ∙ parse_arch-name_of_arch h k s), rw f.0 (g.1 ∙ sym f.2), rw f.0 (g.2 ∙ sym f.3))
