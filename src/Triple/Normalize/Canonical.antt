-- ===== src/Triple/Normalize/Canonical.antt =====
-- Texts that Triple::normalize of llvm/lib/Support/Triple.cpp has nothing to do for.
use toy_riscv.Base.{
  ℕ, false, ◌==◌, List, [], ◌∷◌, Text, ok, ◌≡◌, refl, sym, ap, ◌∙◌, arith, Bool-cases, inl, inr,
}
use toy_riscv.Triple.Host.{Host}
use toy_riscv.Triple.Parse.{parse_vendor, parse_os, parse_environment}
use toy_riscv.Triple.ParseArch.{parse_arch, is_unknown_arch}
use toy_riscv.Triple.Setters.{is_unknown_environment}
use toy_riscv.Triple.Target.{has_dash, ◌⌢◌}
use toy_riscv.Triple.Normalize.{
  round, permute, fill_unknown, is_android, is_suse_gnueabi, is_win32, fix_android, fix_suse,
  fix_windows, add_format, finish, normalize,
}
use toy_riscv.Triple.Normalize.Parts.{
  is_unknown_vendor, is_unknown_os, put_first, split_all, join, is_cygwin_name, is_mingw_name,
  parse_components, arch_position, vendor_position, os_position, environment_position,
}
use toy_riscv.Triple.Normalize.PartLaws.{Holds-present}

split_all-cons : (t : Text) → (x : Text) × (xs : List Text) × (split_all t ≡ x ∷ xs)
unfolding split_all
split_all-cons [] = ([], [], refl)
split_all-cons (c ∷ t) =
    let (x, xs, e) = split_all-cons t in
    elim (Bool-cases (c == 45)) [
      | inl f ↦ rw f ([], split_all t, refl)
      | inr f ↦ rw (f, e) (c ∷ x, xs, refl)
    ]

join-put_first :
    (c : ℕ) (x : Text) (xs : List Text) → join (put_first c (x ∷ xs)) ≡ c ∷ join (x ∷ xs)
unfolding join
join-put_first c x [] = refl
join-put_first c x (y ∷ ys) = refl

-- The components of a text, joined, are the text.
join-split_all : (t : Text) → join (split_all t) ≡ t
unfolding split_all join
join-split_all [] = refl
join-split_all (c ∷ t) =
    let (x, xs, e) = split_all-cons t in
    let joined = join-split_all t in
    let joined' : join (x ∷ xs) ≡ t = ap join (sym e) ∙ joined in
    elim (Bool-cases (c == 45)) [
      | inl f ↦
          let dash : c ≡ 45 = ground (arith, f) in
          rw (f, e) (ap (λ r. 45 ∷ r) joined' ∙ ap (λ d. d ∷ t) (sym dash))
      | inr f ↦ rw (f, e) (join-put_first c x xs ∙ ap (λ r. c ∷ r) joined')
    ]

split_all-whole : (s : Text) → has_dash s ≡ false → split_all s ≡ s ∷ []
unfolding split_all
split_all-whole [] h = refl
split_all-whole (c ∷ s) h =
    let no_dash : (c == 45) ≡ false = ground (arith, h) in
    let rest : has_dash s ≡ false = ground (arith, h) in rw (no_dash, split_all-whole s rest) refl

split_all-⌢ : (s t : Text) → has_dash s ≡ false → split_all (s ⌢ t) ≡ s ∷ split_all t
unfolding split_all
split_all-⌢ [] t h = refl
split_all-⌢ (c ∷ s) t h =
    let no_dash : (c == 45) ≡ false = ground (arith, h) in
    let rest : has_dash s ≡ false = ground (arith, h) in rw (no_dash, split_all-⌢ s t rest) refl

module _ (h : Host) where
  -- Four components that are known in their places stay there.
  permute-known :
      (a v o e : Text)
      → is_unknown_arch (parse_arch h a) ≡ false
      → is_unknown_vendor (parse_vendor v) ≡ false
      → is_unknown_os (parse_os o) ≡ false
      → is_unknown_environment (parse_environment e) ≡ false
      → permute h (parse_components h (a ∷ v ∷ o ∷ e ∷ []))
        ≡ ok (parse_components h (a ∷ v ∷ o ∷ e ∷ []))
  unfolding permute round parse_components
  permute-known a v o e ka kv ko ke = rw (ka, kv, ko, ke) refl

  finish-known :
      (a v o e : Text)
      → is_unknown_arch (parse_arch h a) ≡ false
      → is_unknown_vendor (parse_vendor v) ≡ false
      → is_unknown_os (parse_os o) ≡ false
      → is_unknown_environment (parse_environment e) ≡ false
      → (is_win32 (parse_os o) ≡ false) × (is_cygwin_name o ≡ false) × (is_mingw_name o ≡ false)
      → is_android (parse_environment e) ≡ false
      → is_suse_gnueabi (parse_vendor v) (parse_environment e) ≡ false
      → finish (parse_components h (a ∷ v ∷ o ∷ e ∷ [])) ≡ ok (a ⌢ v ⌢ o ⌢ e)
  unfolding finish fix_android fix_suse fix_windows add_format fill_unknown join parse_components
  finish-known a v o e ka kv ko ke (w, cyg, ming) android suse =
      let p = (parse_components h (a ∷ v ∷ o ∷ e ∷ [])).parsed in
      let na = Holds-present h arch_position a p (refl, ka) in
      let nv = Holds-present h vendor_position v p (refl, kv) in
      let no = Holds-present h os_position o p (refl, refl, refl, rw ko refl) in
      let ne = Holds-present h environment_position e p (refl, inl ke) in
      rw (na, nv, no, ne, android, suse, w, cyg, ming) refl

  -- A text of four components, each known in its place, is returned as it is, unless the operating system is
  -- Win32, MinGW or Cygwin, the environment Android, or the environment of SUSE GNUEABI.
  pub normalize-known :
      (a v o e : Text)
      → (has_dash a ≡ false) × (has_dash v ≡ false) × (has_dash o ≡ false) × (has_dash e ≡ false)
      → is_unknown_arch (parse_arch h a) ≡ false
      → is_unknown_vendor (parse_vendor v) ≡ false
      → is_unknown_os (parse_os o) ≡ false
      → is_unknown_environment (parse_environment e) ≡ false
      → (is_win32 (parse_os o) ≡ false) × (is_cygwin_name o ≡ false) × (is_mingw_name o ≡ false)
      → is_android (parse_environment e) ≡ false
      → is_suse_gnueabi (parse_vendor v) (parse_environment e) ≡ false
      → normalize h (a ⌢ v ⌢ o ⌢ e) ≡ ok (a ⌢ v ⌢ o ⌢ e)
  unfolding normalize
  normalize-known a v o e (da, dv, do', de) ka kv ko ke (w, cyg, ming) android suse =
      rw
        (
          split_all-⌢ a (v ⌢ o ⌢ e) da,
          split_all-⌢ v (o ⌢ e) dv,
          split_all-⌢ o e do',
          split_all-whole e de,
          permute-known a v o e ka kv ko ke,
        )
        (finish-known a v o e ka kv ko ke (w, cyg, ming) android suse)
