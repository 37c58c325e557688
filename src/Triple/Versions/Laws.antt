-- ===== src/Triple/Versions/Laws.antt =====
-- The versions that are read from the texts of triples.
use toy_riscv.Base.{
  ℕ, ◌+◌, ◌-◌, ◌≤◌, ◌<◌, Bool, true, false, ◌&&◌, ◌==◌, ltb, leb, if◌then◌else◌, Outcome, ok, stop,
  unreachable, ◌≡◌, ◌⊎◌, refl, ap, ◌∙◌, arith, Bool-cases, inl, inr,
}
use toy_riscv.Triple.Types.{OsType, darwin, ios, macosx, tvos, watchos}
use toy_riscv.Triple.Formats.{is_os_darwin}
use toy_riscv.Triple.Properties.{is_arch_64_bit}
use toy_riscv.Triple.Target.{TargetTriple}
use toy_riscv.Triple.Predicates.Systems.{is_android_triple}
use toy_riscv.Triple.Versions.{
  VersionTuple, get_environment_version, get_os_version, skew_darwin, mac_osx_version_of,
  get_mac_osx_version, is_android_version_lt,
}

-- What VersionTuple documents: the numbers are compared in order, and those that are missing are zero.
pub record Lawful (v : VersionTuple) : Type 0 where
  pub major_1 : (n : ℕ) → v.get_major (v.version_1 n) ≡ n
  pub major_2 : (n m : ℕ) → v.get_major (v.version_2 n m) ≡ n
  pub less_1 : (u : v.Version) (n : ℕ) → v.less u (v.version_1 n) ≡ ltb (v.get_major u) n
  pub less_2_zero : (u : v.Version) (n : ℕ) → v.less u (v.version_2 n 0) ≡ v.less u (v.version_1 n)
  pub less_2_below :
      (u : v.Version) (n m : ℕ) → v.get_major u < n → v.less u (v.version_2 n m) ≡ true
  pub less_2_above :
      (u : v.Version) (n m : ℕ) → n < v.get_major u → v.less u (v.version_2 n m) ≡ false
  pub less_2_same : (n a b : ℕ) → v.less (v.version_2 n a) (v.version_2 n b) ≡ ltb a b

module _ (v : VersionTuple) (laws : Lawful v) where
  -- A version that was found is 10 or more, and one that was not is below, but not missing.
  abbrev pub IsMacVersion : Outcome (v.Version × Bool) → Type 0
  IsMacVersion o =
      (u : v.Version) × ((o ≡ ok (u, true)) × (10 ≤ v.get_major u)
        ⊎ (o ≡ ok (u, false)) × (0 < v.get_major u) × (v.get_major u < 10))

  skewed : (u : v.Version) → 0 < v.get_major u → IsMacVersion (ok (skew_darwin v u))
  unfolding skew_darwin
  skewed u pos = elim (Bool-cases (ltb (v.get_major u) 4)) [
    | inl e ↦ rw e (u, inr (refl, pos, ground (arith, e)))
    | inr e ↦ elim (Bool-cases (leb (v.get_major u) 19)) [
      | inl f ↦ rw (e, f) (_, inl (refl, rw (laws.major_2 10 (v.get_major u - 4)) (omega arith)))
      | inr f ↦
          rw (e, f) (_, inl (refl, rw (laws.major_1 (11 + v.get_major u - 20)) (ground (arith, f))))
    ]
  ]

  default_10_4 : IsMacVersion (ok (v.version_2 10 4, true))
  default_10_4 = (_, inl (refl, rw (laws.major_2 10 4) (omega arith)))

  mac_osx_version_of-IsMacVersion :
      (o : OsType) (u : v.Version) → is_os_darwin o ≡ true → IsMacVersion (mac_osx_version_of v o u)
  unfolding mac_osx_version_of is_os_darwin
  mac_osx_version_of-IsMacVersion darwin u d = elim (Bool-cases (v.get_major u == 0)) [
    | inl e ↦ rw e (skewed (v.version_1 8) (rw (laws.major_1 8) (omega arith)))
    | inr e ↦ rw e (skewed u (ground (arith, e)))
  ]
  mac_osx_version_of-IsMacVersion macosx u d = elim (Bool-cases (v.get_major u == 0)) [
    | inl e ↦ rw e default_10_4
    | inr e ↦ elim (Bool-cases (ltb (v.get_major u) 10)) [
      | inl f ↦ rw (e, f) (u, inr (refl, ground (arith, e), ground (arith, f)))
      | inr f ↦ rw (e, f) (u, inl (refl, ground (arith, f)))
    ]
  ]
  mac_osx_version_of-IsMacVersion ios u d = default_10_4
  mac_osx_version_of-IsMacVersion tvos u d = default_10_4
  mac_osx_version_of-IsMacVersion watchos u d = default_10_4
  mac_osx_version_of-IsMacVersion _ u d = ground (arith, d)

  mac_osx_version_of-stops :
      (o : OsType) (u : v.Version)
      → is_os_darwin o ≡ false
      → mac_osx_version_of v o u ≡ stop (unreachable "unexpected OS for Darwin triple")
  unfolding mac_osx_version_of is_os_darwin
  mac_osx_version_of-stops darwin u d = ground (arith, d)
  mac_osx_version_of-stops macosx u d = ground (arith, d)
  mac_osx_version_of-stops ios u d = ground (arith, d)
  mac_osx_version_of-stops tvos u d = ground (arith, d)
  mac_osx_version_of-stops watchos u d = ground (arith, d)
  mac_osx_version_of-stops _ u d = refl

  -- For a Darwin triple, getMacOSXVersion returns true with a version of 10 or more, or false with a version that is
  -- not zero and below 10.
  pub get_mac_osx_version-IsMacVersion :
      (t : TargetTriple) → is_os_darwin t.os ≡ true → IsMacVersion (get_mac_osx_version v t)
  unfolding get_mac_osx_version
  get_mac_osx_version-IsMacVersion t = mac_osx_version_of-IsMacVersion t.os (get_os_version v t)

  -- For any other triple it reaches llvm_unreachable.
  get_mac_osx_version-stops :
      (t : TargetTriple)
      → is_os_darwin t.os ≡ false
      → get_mac_osx_version v t ≡ stop (unreachable "unexpected OS for Darwin triple")
  unfolding get_mac_osx_version
  get_mac_osx_version-stops t = mac_osx_version_of-stops t.os (get_os_version v t)

  -- The 64-bit systems begin with 21: isAndroidVersionLT compares with 21 where a 64-bit triple has less.
  is_android_version_lt_lem :
      (t : TargetTriple) (major : ℕ)
      → is_android_triple t ≡ true
      → is_android_version_lt v t major
        ≡ ok (
            ltb
              (if is_arch_64_bit t.arch && ltb (v.get_major (get_environment_version v t)) 21
                then 21
                else v.get_major (get_environment_version v t))
              major)
  unfolding is_android_version_lt
  is_android_version_lt_lem t major a =
      let m = v.get_major (get_environment_version v t) in
      elim (Bool-cases (is_arch_64_bit t.arch && ltb m 21)) [
        | inl e ↦
            rw (a, e)
              (ap ok (laws.less_1 (v.version_1 21) major ∙ ap (λ k. ltb k major) (laws.major_1 21)))
        | inr e ↦ rw (a, e) (ap ok (laws.less_1 (get_environment_version v t) major))
      ]
