-- ===== src/Triple/Versions/Tests.antt =====
-- Instances of the theorems on versions, with a version as three numbers.
use toy_riscv.Base.{
  ℕ, ◌+◌, ◌-◌, ◌*◌, Bool, true, false, ◌&&◌, ◌||◌, ◌==◌, ltb, if◌then◌else◌, [], ◌∷◌, Text, codes,
  ok, inl, ◌≡◌, refl, arith,
}
use toy_riscv.Triple.Formats.{is_os_darwin}
use toy_riscv.Triple.Parse.{parse_os, parse_environment}
use toy_riscv.Triple.ParseArch.{parse_arch}
use toy_riscv.Triple.Names.{get_os_type_name, get_environment_type_name}
use toy_riscv.Triple.Numbers.{os_number, environment_number}
use toy_riscv.Triple.Tests.{host}
use toy_riscv.Triple.Target.{
  TargetTriple, parse_triple, with_default_format, fields, get_os_name, get_environment_name,
}
use toy_riscv.Triple.Properties.{is_arch_64_bit}
use toy_riscv.Triple.Versions.{
  VersionTuple, get_mac_osx_version, is_mac_osx_version_lt, is_android_version_lt,
  get_environment_version, get_os_version, mac_osx_version_of, skew_darwin, is_os_version_lt,
}
use toy_riscv.Triple.Versions.Laws.{Lawful, IsMacVersion, get_mac_osx_version-IsMacVersion}
use toy_riscv.Triple.Versions.Compatible.{is_compatible_with, common, is_compatible_with-common}
use toy_riscv.Triple.Versions.MacLaws.{is_mac_osx_version_lt-get_mac_osx_version}

-- Up to the first character that is no digit.
abbrev digits : ℕ → Text → ℕ
digits n [] = n
digits n (c ∷ t) =
    let more = digits (n * 10 + (c - 48)) t in if ltb c 48 || ltb 57 c then n else more

abbrev before : ℕ × ℕ × ℕ → ℕ × ℕ × ℕ → Bool
before (a, b, c) (d, e, f) = ltb a d || ((a == d) && (ltb b e || ((b == e) && ltb c f)))

abbrev versions : VersionTuple
versions = record {
  Version = ℕ × ℕ × ℕ;
  no_version = (0, 0, 0);
  version_1 = λ a. (a, 0, 0);
  version_2 = λ a b. (a, b, 0);
  version_3 = λ a b c. (a, b, c);
  get_major = λ u. u.0;
  less = before;
  equal = λ u w. (u.0 == w.0) && ((u.1 == w.1) && (u.2 == w.2));
  try_parse = λ t. (digits 0 t, 0, 0);
  without_build = λ u. u;
}

versions-Lawful : Lawful versions
versions-Lawful = record {
  major_1 = λ n. refl;
  major_2 = λ n m. refl;
  less_1 = λ (a, b, c) n. ground arith;
  less_2_zero = λ (a, b, c) n. refl;
  less_2_below = λ (a, b, c) n m h. ground (arith, h);
  less_2_above = λ (a, b, c) n m h. ground (arith, h);
  less_2_same = λ n a b. ground arith;
}

abbrev darwin_19 : TargetTriple
darwin_19 = parse_triple host (codes "x86_64-apple-darwin19")

abbrev darwin_0 : TargetTriple
darwin_0 = parse_triple host (codes "x86_64-apple-darwin")

abbrev phone : TargetTriple
phone = parse_triple host (codes "aarch64-unknown-linux-android16")

get_mac_osx_version-IsMacVersion_example :
    IsMacVersion versions versions-Lawful (get_mac_osx_version versions darwin_19)
unfolding parse_triple with_default_format fields parse_os is_os_darwin
get_mac_osx_version-IsMacVersion_example =
    get_mac_osx_version-IsMacVersion versions versions-Lawful darwin_19 refl

is_mac_osx_version_lt-get_mac_osx_version_example :
    is_mac_osx_version_lt versions darwin_19 10 16 0 ≡ ok (before (10, 15, 0) (10, 16, 0))
unfolding os_number parse_triple with_default_format fields parse_os get_os_version get_os_type_name
    get_os_name get_mac_osx_version mac_osx_version_of skew_darwin
is_mac_osx_version_lt-get_mac_osx_version_example =
    is_mac_osx_version_lt-get_mac_osx_version versions versions-Lawful darwin_19 (10, 15, 0) 10 16
      refl (omega arith) refl (inl (refl, omega arith))

is_android_version_lt_runs : is_android_version_lt versions phone 17 ≡ ok false
unfolding is_android_version_lt environment_number parse_triple with_default_format fields
    parse_environment is_arch_64_bit parse_arch get_environment_version get_environment_type_name
    get_environment_name
is_android_version_lt_runs = refl

-- With no version in the text, the version is 10.4, and below 10.4 too.
unversioned_darwin :
    (get_mac_osx_version versions darwin_0 ≡ ok ((10, 4, 0), true))
    × (is_mac_osx_version_lt versions darwin_0 10 4 0 ≡ ok true)
unfolding os_number parse_triple with_default_format fields parse_os get_os_version get_os_type_name
    get_os_name get_mac_osx_version mac_osx_version_of skew_darwin is_mac_osx_version_lt
    is_os_version_lt
unversioned_darwin = (refl, refl)

is_compatible_with-common_example :
    is_compatible_with (parse_triple host (codes "x86_64-apple-macosx10")) darwin_19
    ≡ common (parse_triple host (codes "x86_64-apple-macosx10")) darwin_19
is_compatible_with-common_example =
    is_compatible_with-common (parse_triple host (codes "x86_64-apple-macosx10")) darwin_19
