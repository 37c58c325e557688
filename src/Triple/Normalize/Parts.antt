-- ===== src/Triple/Normalize/Parts.antt =====
-- The components of a text and what Triple::normalize parses them into: llvm/lib/Support/Triple.cpp.
use toy_riscv.Base.{
  ℕ, suc, Bool, true, false, not, ◌||◌, ◌==◌, if◌then◌else◌, List, [], ◌∷◌, ◌++◌, get_elem?, Option,
  none, some, Text, codes, has_prefix,
}
use toy_riscv.Triple.Types.{
  ArchType, unknown_arch, VendorType, unknown_vendor, OsType, unknown_os, EnvironmentType,
  unknown_environment, ObjectFormatType, unknown_object_format,
}
use toy_riscv.Triple.Host.{Host}
use toy_riscv.Triple.Parse.{parse_vendor, parse_os, parse_environment, parse_format}
use toy_riscv.Triple.ParseArch.{parse_arch, is_unknown_arch}
use toy_riscv.Triple.Target.{is_unknown_format}
use toy_riscv.Triple.Setters.{is_unknown_environment}
use toy_riscv.Triple.Normalize.Moves.{is_fixed, later}

abbrev pub is_unknown_vendor : VendorType → Bool
is_unknown_vendor unknown_vendor = true
is_unknown_vendor _ = false

abbrev pub is_unknown_os : OsType → Bool
is_unknown_os unknown_os = true
is_unknown_os _ = false

-- StringRef::split(Components, '-')
abbrev pub put_first : ℕ → List Text → List Text
put_first c [] = (c ∷ []) ∷ []
put_first c (x ∷ xs) = (c ∷ x) ∷ xs

unfoldable pub split_all : Text → List Text
split_all [] = [] ∷ []
split_all (c ∷ t) = let rest = split_all t in if c == 45 then [] ∷ rest else put_first c rest

-- join(Components, "-")
unfoldable pub join : List Text → Text
join [] = []
join (x ∷ []) = x
join (x ∷ y ∷ ys) = x ++ (45 ∷ join (y ∷ ys))

-- The variables that the components are parsed into.
pub record Parsed : Type 0 where
  pub arch : ArchType
  pub vendor : VendorType
  pub os : OsType
  pub is_cygwin : Bool
  pub is_mingw32 : Bool
  pub environment : EnvironmentType
  pub object_format : ObjectFormatType

-- With what Found notes of the positions, and Components.
pub record Progress : Type 0 where
  pub found : List Bool
  pub components : List Text
  pub parsed : Parsed

-- The component at an index is parsed if there is one.
abbrev pub parse_at {ℓ} : {A : Type ℓ} → (Text → A) → A → Option Text → A
parse_at f unknown none = unknown
parse_at f unknown (some c) = f c

abbrev pub is_cygwin_name : Text → Bool
is_cygwin_name = has_prefix (codes "cygwin")

abbrev pub is_mingw_name : Text → Bool
is_mingw_name = has_prefix (codes "mingw")

-- The part before the loop.
unfoldable pub parse_components : Host → List Text → Progress
parse_components h cs =
    let arch = parse_at (parse_arch h) unknown_arch (get_elem? cs 0) in
    let vendor = parse_at parse_vendor unknown_vendor (get_elem? cs 1) in
    let os = parse_at parse_os unknown_os (get_elem? cs 2) in
    let environment = parse_at parse_environment unknown_environment (get_elem? cs 3) in
    record {
      found =
          not (is_unknown_arch arch)
          ∷ not (is_unknown_vendor vendor)
          ∷ not (is_unknown_os os)
          ∷ not (is_unknown_environment environment)
          ∷ [];
      components = cs;
      parsed = record {
        arch = arch;
        vendor = vendor;
        os = os;
        is_cygwin = parse_at is_cygwin_name false (get_elem? cs 2);
        is_mingw32 = parse_at is_mingw_name false (get_elem? cs 2);
        environment = environment;
        object_format = parse_at parse_format unknown_object_format (get_elem? cs 4);
      };
    }

-- The positions that the loop goes through.
pub data Position : Type 0 where
  arch_position vendor_position os_position environment_position : Position

abbrev pub index : Position → ℕ
index arch_position = 0
index vendor_position = 1
index os_position = 2
index environment_position = 3

-- The switch on Pos: what a component is parsed into, and whether it is valid for the position.
unfoldable pub try_component : Host → Position → Text → Parsed → Parsed × Bool
try_component h arch_position c p =
    let arch = parse_arch h c in (record p { arch = arch }, not (is_unknown_arch arch))
try_component h vendor_position c p =
    let vendor = parse_vendor c in (record p { vendor = vendor }, not (is_unknown_vendor vendor))
try_component h os_position c p =
    let os = parse_os c in
    (
      record p { os = os; is_cygwin = is_cygwin_name c; is_mingw32 = is_mingw_name c },
      not (is_unknown_os os) || (is_cygwin_name c || is_mingw_name c),
    )
try_component h environment_position c p =
    let environment = parse_environment c in
    let format = parse_format c in
    if is_unknown_environment environment
    then (
      record p { environment = environment; object_format = format },
      not (is_unknown_format format),
    )
    else (record p { environment = environment }, true)

-- The loop over Idx up to the first component that is not fixed and valid: what has been parsed, and
-- the index, if there is one.
unfoldable pub find_valid :
    Host → Position → (idx : ℕ) → List Bool → List Text → Parsed → Parsed × Option ℕ
find_valid h pos idx fs [] p = (p, none)
find_valid h pos idx fs (c ∷ cs) p =
    let skipped = find_valid h pos (suc idx) (later fs) cs p in
    let tried = try_component h pos c p in
    let failed = find_valid h pos (suc idx) (later fs) cs tried.0 in
    if is_fixed fs then skipped else if tried.1 then (tried.0, some idx) else failed
