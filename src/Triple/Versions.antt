-- ===== src/Triple/Versions.antt =====
-- The versions in the texts of triples: llvm/lib/Support/Triple.cpp and llvm/include/llvm/ADT/Triple.h.
pub mod Laws
pub mod MacLaws
pub mod Compatible
pub mod Tests
use toy_riscv.Base.{
  ℕ, ◌+◌, ◌-◌, ◌%◌, ◌^◌, Bool, true, false, not, ◌&&◌, ◌||◌, ◌==◌, ltb, leb, if◌then◌else◌, Text,
  String, codes, length, drop, has_prefix, Outcome, ok, stop, assertion, unreachable, ◌>>=◌,
}
use toy_riscv.Triple.Types.{aarch64, OsType, darwin, ios, macosx, tvos, watchos, apple}
use toy_riscv.Triple.Host.{Host}
use toy_riscv.Triple.Names.{get_environment_type_name, get_os_type_name}
use toy_riscv.Triple.Properties.{is_arch_64_bit}
use toy_riscv.Triple.Target.{TargetTriple, get_environment_name, get_os_name}
use toy_riscv.Triple.Numbers.{has_arch, has_os, has_vendor}
use toy_riscv.Triple.Predicates.Systems.{
  is_mac_osx, is_simulator_environment, is_mac_catalyst_environment, is_android_triple,
}
use toy_riscv.Triple.Predicates.Archs.{is_arm64e}

-- llvm::VersionTuple: its constructors from no number up to three, getMajor, operator<, operator==, the tuple
-- after tryParse, and withoutBuild.
pub record VersionTuple : Type 1 where
  pub Version : Type 0
  pub no_version : Version
  pub version_1 : ℕ → Version
  pub version_2 : ℕ → ℕ → Version
  pub version_3 : ℕ → ℕ → ℕ → Version
  pub get_major : Version → ℕ
  pub less : Version → Version → Bool
  pub equal : Version → Version → Bool
  pub try_parse : Text → Version
  pub without_build : Version → Version

module _ (v : VersionTuple) where
  -- parseVersionFromName
  abbrev pub parse_version_from_name : Text → v.Version
  parse_version_from_name name = v.without_build (v.try_parse name)

  -- Triple::getEnvironmentVersion
  unfoldable pub get_environment_version : TargetTriple → v.Version
  get_environment_version t =
      let name = get_environment_name t in
      let type_name = get_environment_type_name t.environment in
      parse_version_from_name
        (if has_prefix type_name name then drop (length type_name) name else name)

  -- StringRef::consume_front
  abbrev pub consume_front : Text → Text → Text
  consume_front prefix t = if has_prefix prefix t then drop (length prefix) t else t

  -- Triple::getOSVersion
  unfoldable pub get_os_version : TargetTriple → v.Version
  get_os_version t =
      let name = get_os_name t in
      let type_name = get_os_type_name t.os in
      parse_version_from_name (
        if has_prefix type_name name
        then drop (length type_name) name
        else if has_os t macosx
        then consume_front (codes "macos") name
        else name)

  -- The cases of Triple::getMacOSXVersion: the version, and whether it was found.
  unfoldable pub skew_darwin : v.Version → v.Version × Bool
  skew_darwin u =
      if ltb (v.get_major u) 4
      then (u, false)
      else if leb (v.get_major u) 19
      then (v.version_2 10 (v.get_major u - 4), true)
      else (v.version_1 (11 + v.get_major u - 20), true)

  unfoldable pub mac_osx_version_of : OsType → v.Version → Outcome (v.Version × Bool)
  mac_osx_version_of darwin u = ok (skew_darwin (if v.get_major u == 0 then v.version_1 8 else u))
  mac_osx_version_of macosx u =
      if v.get_major u == 0
      then ok (v.version_2 10 4, true)
      else ok (u, not (ltb (v.get_major u) 10))
  mac_osx_version_of ios u = ok (v.version_2 10 4, true)
  mac_osx_version_of tvos u = ok (v.version_2 10 4, true)
  mac_osx_version_of watchos u = ok (v.version_2 10 4, true)
  mac_osx_version_of _ u = stop (unreachable "unexpected OS for Darwin triple")

  -- Triple::getMacOSXVersion
  unfoldable pub get_mac_osx_version : TargetTriple → Outcome (v.Version × Bool)
  get_mac_osx_version t = mac_osx_version_of t.os (get_os_version t)

  -- The case of iOS and tvOS in Triple::getiOSVersion
  abbrev pub ios_default : Bool → v.Version → v.Version
  ios_default is_arm64 u =
      if v.get_major u == 0 then (if is_arm64 then v.version_1 7 else v.version_1 5) else u

  unfoldable pub ios_version_of : OsType → Bool → v.Version → Outcome v.Version
  ios_version_of darwin a u = ok (v.version_1 5)
  ios_version_of macosx a u = ok (v.version_1 5)
  ios_version_of ios a u = ok (ios_default a u)
  ios_version_of tvos a u = ok (ios_default a u)
  ios_version_of watchos a u = stop (unreachable "conflicting triple info")
  ios_version_of _ a u = stop (unreachable "unexpected OS for Darwin triple")

  -- Triple::getiOSVersion
  unfoldable pub get_ios_version : TargetTriple → Outcome v.Version
  get_ios_version t = ios_version_of t.os (has_arch t aarch64) (get_os_version t)

  unfoldable pub watch_os_version_of : OsType → v.Version → Outcome v.Version
  watch_os_version_of darwin u = ok (v.version_1 2)
  watch_os_version_of macosx u = ok (v.version_1 2)
  watch_os_version_of watchos u = ok (if v.get_major u == 0 then v.version_1 2 else u)
  watch_os_version_of ios u = stop (unreachable "conflicting triple info")
  watch_os_version_of _ u = stop (unreachable "unexpected OS for Darwin triple")

  -- Triple::getWatchOSVersion
  unfoldable pub get_watch_os_version : TargetTriple → Outcome v.Version
  get_watch_os_version t = watch_os_version_of t.os (get_os_version t)

  -- Triple::isOSVersionLT
  unfoldable pub is_os_version_lt : TargetTriple → (major minor micro : ℕ) → Bool
  is_os_version_lt t major minor micro =
      if minor == 0
      then v.less (get_os_version t) (v.version_1 major)
      else if micro == 0
      then v.less (get_os_version t) (v.version_2 major minor)
      else v.less (get_os_version t) (v.version_3 major minor micro)

  -- Triple::isMacOSXVersionLT, on unsigned numbers of 32 bits.
  unfoldable pub is_mac_osx_version_lt : TargetTriple → (major minor micro : ℕ) → Outcome Bool
  is_mac_osx_version_lt t major minor micro =
      if not (is_mac_osx t)
      then stop (assertion "Not an OS X triple!")
      else if has_os t macosx
      then ok (is_os_version_lt t major minor micro)
      else if major == 10
      then ok (is_os_version_lt t ((minor + 4) % 2 ^ 32) micro 0)
      else if leb 11 major
      then ok (is_os_version_lt t ((major - 11 + 20) % 2 ^ 32) minor micro)
      else stop (assertion "Unexpected major version")

  -- Triple::isAndroidVersionLT
  unfoldable pub is_android_version_lt : TargetTriple → (major : ℕ) → Outcome Bool
  is_android_version_lt t major =
      if not (is_android_triple t)
      then stop (assertion "Not an Android triple!")
      else if is_arch_64_bit t.arch && ltb (v.get_major (get_environment_version t)) 21
      then ok (v.less (v.version_1 21) (v.version_1 major))
      else ok (v.less (get_environment_version t) (v.version_1 major))

  -- The switch of Triple::getMinimumSupportedOSVersion
  abbrev pub minimum_of : OsType → TargetTriple → v.Version
  minimum_of macosx t = v.version_3 11 0 0
  minimum_of ios t =
      if is_mac_catalyst_environment t || is_simulator_environment t
      then v.version_3 14 0 0
      else if is_arm64e t
      then v.version_3 14 0 0
      else v.no_version
  minimum_of tvos t = if is_simulator_environment t then v.version_3 14 0 0 else v.no_version
  minimum_of watchos t = if is_simulator_environment t then v.version_3 7 0 0 else v.no_version
  minimum_of _ t = v.no_version

  -- Triple::getMinimumSupportedOSVersion
  unfoldable pub get_minimum_supported_os_version : TargetTriple → v.Version
  get_minimum_supported_os_version t =
      if not (has_vendor t apple) || not (has_arch t aarch64)
      then v.no_version
      else minimum_of t.os t

  -- Triple::getCanonicalVersionForOS
  unfoldable pub get_canonical_version_for_os : OsType → v.Version → v.Version
  get_canonical_version_for_os macosx u =
      if v.equal u (v.version_2 10 16) then v.version_2 11 0 else u
  get_canonical_version_for_os _ u = u

  -- Triple::merge
  unfoldable pub merge : TargetTriple → TargetTriple → Text
  merge t u =
      if has_vendor t apple && v.less (get_os_version u) (get_os_version t) then t.text else u.text
