-- ===== src/Triple/Versions/MacLaws.antt =====
-- The comparison of macOS versions, and the versions of macOS that Darwin's are translated to.
use toy_riscv.Base.{
  ℕ, ◌+◌, ◌-◌, ◌%◌, ◌^◌, ◌≤◌, ◌<◌, Bool, true, false, not, ◌||◌, ◌==◌, ltb, leb, ok, ◌≡◌, refl, sym,
  ap, ◌∙◌, ◌⊎◌, arith, Bool-cases, inl, inr,
}
use toy_riscv.Triple.Types.{OsType, darwin, macosx}
use toy_riscv.Triple.Target.{TargetTriple}
use toy_riscv.Triple.Numbers.{os_number}
use toy_riscv.Triple.Predicates.Systems.{is_mac_osx}
use toy_riscv.Triple.Versions.{
  VersionTuple, get_os_version, skew_darwin, mac_osx_version_of, get_mac_osx_version,
  is_os_version_lt, is_mac_osx_version_lt,
}
use toy_riscv.Triple.Versions.Laws.{Lawful}

which_mac :
    (o : OsType)
    → (os_number o == os_number darwin) || (os_number o == os_number macosx) ≡ true
    → (o ≡ darwin) ⊎ (o ≡ macosx)
unfolding os_number
which_mac darwin h = inl refl
which_mac macosx h = inr refl
which_mac _ h = absurd (ground (arith, h))

ok_first : {A : Type 0} (p q : A × Bool) → ok p ≡ ok q → p.0 ≡ q.0
ok_first p q e = let same : p ≡ q = cc in ap (λ r. r.0) same

module _ (v : VersionTuple) (laws : Lawful v) where
  -- A version of Darwin that is translated, compared with 10 and a minor number, and with 11 or more.
  skew_darwin-10 :
      (u : v.Version) (minor : ℕ)
      → 4 ≤ v.get_major u
      → minor ≤ 16
      → v.less (skew_darwin v u).0 (v.version_2 10 minor) ≡ ltb (v.get_major u) (minor + 4)
  unfolding skew_darwin
  skew_darwin-10 u minor known small =
      let f : ltb (v.get_major u) 4 ≡ false = ground (arith, known) in
      elim (Bool-cases (leb (v.get_major u) 19)) [
        | inl g ↦ rw (f, g) (laws.less_2_same 10 (v.get_major u - 4) minor ∙ ground (arith, known))
        | inr g ↦
            let w = v.version_1 (11 + v.get_major u - 20) in
            let above : 10 < v.get_major w =
              rw (laws.major_1 (11 + v.get_major u - 20)) (ground (arith, g)) in
            rw (f, g) (laws.less_2_above w 10 minor above ∙ ground (arith, g, small))
      ]

  skew_darwin-11 :
      (u : v.Version) (major : ℕ)
      → 4 ≤ v.get_major u
      → 11 ≤ major
      → v.less (skew_darwin v u).0 (v.version_1 major) ≡ ltb (v.get_major u) (major + 9)
  unfolding skew_darwin
  skew_darwin-11 u major known new =
      let f : ltb (v.get_major u) 4 ≡ false = ground (arith, known) in
      elim (Bool-cases (leb (v.get_major u) 19)) [
        | inl g ↦
            let w = v.version_2 10 (v.get_major u - 4) in
            let m : v.get_major w ≡ 10 = laws.major_2 10 (v.get_major u - 4) in
            rw (f, g) (laws.less_1 w major ∙ rw m (ground (arith, g, new)))
        | inr g ↦
            let w = v.version_1 (11 + v.get_major u - 20) in
            let m : v.get_major w ≡ 11 + v.get_major u - 20 =
              laws.major_1 (11 + v.get_major u - 20) in
            rw (f, g) (laws.less_1 w major ∙ rw m (ground (arith, g, new)))
      ]

  -- What is compared, for a macOS triple with a version that getMacOSXVersion accepts.
  abbrev Agrees : TargetTriple → v.Version → Type 0
  Agrees t w =
      ((minor : ℕ)
        → minor ≤ 16
        → is_mac_osx_version_lt v t 10 minor 0 ≡ ok (v.less w (v.version_2 10 minor)))
      × ((major : ℕ)
          → 11 ≤ major
          → major + 9 < 2 ^ 32
          → is_mac_osx_version_lt v t major 0 0 ≡ ok (v.less w (v.version_1 major)))

  darwin-Agrees :
      (t : TargetTriple)
      → t.os ≡ darwin
      → 4 ≤ v.get_major (get_os_version v t)
      → Agrees t (skew_darwin v (get_os_version v t)).0
  unfolding is_mac_osx_version_lt is_os_version_lt os_number
  darwin-Agrees t e known =
      let u = get_os_version v t in
      let n : os_number t.os ≡ 3 = ap os_number e in
      (
        λ minor small.
            let wide : (minor + 4) % 2 ^ 32 ≡ minor + 4 = omega (arith, small) in
            rw (n, wide)
              (ap ok (laws.less_1 u (minor + 4) ∙ sym (skew_darwin-10 u minor known small))),
        λ major new bound.
            let wide : (major - 11 + 20) % 2 ^ 32 ≡ major + 9 = omega (arith, new, bound) in
            let not_10 : (major == 10) ≡ false = ground (arith, new) in
            let is_11 : leb 11 major ≡ true = ground (arith, new) in
            rw (n, not_10, is_11, wide)
              (ap ok (laws.less_1 u (major + 9) ∙ sym (skew_darwin-11 u major known new))),
      )

  macosx-Agrees : (t : TargetTriple) → t.os ≡ macosx → Agrees t (get_os_version v t)
  unfolding is_mac_osx_version_lt is_os_version_lt os_number
  macosx-Agrees t e =
      let u = get_os_version v t in
      let n : os_number t.os ≡ 11 = ap os_number e in
      (
        λ minor small. elim (Bool-cases (minor == 0)) [
          | inl z ↦
              let zero' : minor ≡ 0 = ground (arith, z) in
              rw (n, zero') (ap ok (sym (laws.less_2_zero u 10)))
          | inr z ↦ rw (n, z) refl
        ],
        λ major new bound. rw n refl,
      )

  known_darwin :
      (u w : v.Version)
      → 0 < v.get_major u
      → mac_osx_version_of v darwin u ≡ ok (w, true)
      → (4 ≤ v.get_major u) × (w ≡ (skew_darwin v u).0)
  unfolding mac_osx_version_of skew_darwin
  known_darwin u w pos h =
      let there : (v.get_major u == 0) ≡ false = ground (arith, pos) in
      let h' : ok (skew_darwin v u) ≡ ok (w, true) = rw there at h in
      let pair : skew_darwin v u ≡ (w, true) = cc in
      let second : (skew_darwin v u).1 ≡ true = ap (λ p. p.1) pair in
      elim (Bool-cases (ltb (v.get_major u) 4)) [
        | inl e ↦ absurd (ground (arith, rw e at second))
        | inr e ↦ (ground (arith, e), ap (λ p. p.0) (sym pair))
      ]

  known_macosx :
      (u w : v.Version) → 0 < v.get_major u → mac_osx_version_of v macosx u ≡ ok (w, true) → w ≡ u
  unfolding mac_osx_version_of
  known_macosx u w pos h =
      let there : (v.get_major u == 0) ≡ false = ground (arith, pos) in
      sym (ok_first (u, not (ltb (v.get_major u) 10)) (w, true) (rw there at h))

  agrees :
      (t : TargetTriple) (w : v.Version)
      → is_mac_osx t ≡ true
      → 0 < v.get_major (get_os_version v t)
      → get_mac_osx_version v t ≡ ok (w, true)
      → Agrees t w
  unfolding get_mac_osx_version
  agrees t w mac pos h =
      let u = get_os_version v t in
      elim (which_mac t.os mac) [
        | inl e ↦
            let (known, same) =
              known_darwin u w pos (ap (λ o. mac_osx_version_of v o u) (sym e) ∙ h) in
            rw same (darwin-Agrees t e known)
        | inr e ↦
            let same = known_macosx u w pos (ap (λ o. mac_osx_version_of v o u) (sym e) ∙ h) in
            rw same (macosx-Agrees t e)
      ]

  -- The versions from 10.0 to 10.16, and those from 11 on without a minor number.
  abbrev pub IsMacRelease : (major minor : ℕ) → Type 0
  IsMacRelease major minor =
      (major ≡ 10) × (minor ≤ 16) ⊎ (11 ≤ major) × (major + 9 < 2 ^ 32) × (minor ≡ 0)

  -- For a triple of macOS whose text has a version, which getMacOSXVersion accepts, isMacOSXVersionLT with a major and
  -- a minor number compares the version that getMacOSXVersion gives with these numbers, when they are 10 and at most 16,
  -- or at least 11 and 0.
  pub is_mac_osx_version_lt-get_mac_osx_version :
      (t : TargetTriple) (w : v.Version) (major minor : ℕ)
      → is_mac_osx t ≡ true
      → 0 < v.get_major (get_os_version v t)
      → get_mac_osx_version v t ≡ ok (w, true)
      → IsMacRelease major minor
      → is_mac_osx_version_lt v t major minor 0 ≡ ok (v.less w (v.version_2 major minor))
  is_mac_osx_version_lt-get_mac_osx_version t w major minor mac pos h (inl (e, small)) =
      rw e ((agrees t w mac pos h).0 minor small)
  is_mac_osx_version_lt-get_mac_osx_version t w major minor mac pos h (inr (new, bound, e)) =
      rw e ((agrees t w mac pos h).1 major new bound ∙ ap ok (sym (laws.less_2_zero w major)))
