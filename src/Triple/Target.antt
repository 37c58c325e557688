-- ===== src/Triple/Target.antt =====
-- The class Triple of llvm/lib/Support/Triple.cpp: its fields, constructors, names and setters.
use toy_riscv.Base.{
  ℕ, zero, suc, Bool, true, false, ◌==◌, if◌then◌else◌, List, [], ◌∷◌, ◌++◌, Text, is_empty,
  Pattern, exact, starts_with, string_switch,
}
use toy_riscv.Triple.Types.{
  ArchType, unknown_arch, SubArchType, no_sub_arch, VendorType, unknown_vendor, OsType, unknown_os,
  EnvironmentType, unknown_environment, gnu, gnuabin32, gnuabi64, ObjectFormatType,
  unknown_object_format,
}
use toy_riscv.Triple.Host.{Host}
use toy_riscv.Triple.ArchName.{name_of_arch}
use toy_riscv.Triple.ParseArch.{parse_arch, parse_sub_arch}
use toy_riscv.Triple.Parse.{parse_vendor, parse_os, parse_environment, parse_format}
use toy_riscv.Triple.Formats.{get_default_format}

-- The fields of Triple; `text` is Data.
pub record TargetTriple : Type 0 where
  pub text : Text
  pub arch : ArchType
  pub sub_arch : SubArchType
  pub vendor : VendorType
  pub os : OsType
  pub environment : EnvironmentType
  pub object_format : ObjectFormatType

abbrev target_triple :
    Text
    → ArchType
    → SubArchType
    → VendorType
    → OsType
    → EnvironmentType
    → ObjectFormatType
    → TargetTriple
target_triple x a s v o e f = record {
  text = x;
  arch = a;
  sub_arch = s;
  vendor = v;
  os = o;
  environment = e;
  object_format = f;
}

-- StringRef::split('-'): the text before the first '-' and after it; with no '-' the second is
-- empty.
abbrev pub first : Text → Text
first [] = []
first (c ∷ t) = let rest = first t in if c == 45 then [] else c ∷ rest

abbrev pub second : Text → Text
second [] = []
second (c ∷ t) = let rest = second t in if c == 45 then t else rest

abbrev pub has_dash : Text → Bool
has_dash [] = false
has_dash (c ∷ t) = let rest = has_dash t in if c == 45 then true else rest

-- StringRef::split(Components, '-', MaxSplit): at most n splits.
abbrev pub split : ℕ → Text → List Text
split zero t = t ∷ []
split (suc n) t = let rest = split n (second t) in if has_dash t then first t ∷ rest else t ∷ []

-- The environment of a name of one component.
abbrev pub mips_cases : List (Pattern × EnvironmentType)
mips_cases =
    (starts_with "mipsn32", gnuabin32)
    ∷ (starts_with "mips64", gnuabi64)
    ∷ (starts_with "mipsisa64", gnuabi64)
    ∷ (starts_with "mipsisa32", gnu)
    ∷ (exact "mips", gnu)
    ∷ (exact "mipsel", gnu)
    ∷ (exact "mipsr6", gnu)
    ∷ (exact "mipsr6el", gnu)
    ∷ []

-- The end of each constructor: an unknown object format becomes the default one.
abbrev pub is_unknown_format : ObjectFormatType → Bool
is_unknown_format unknown_object_format = true
is_unknown_format _ = false

unfoldable pub with_default_format : TargetTriple → TargetTriple
with_default_format t =
    target_triple t.text t.arch t.sub_arch t.vendor t.os t.environment (
      if is_unknown_format t.object_format then get_default_format t.arch t.os else t.object_format)

-- The fields from the components of the text.
unfoldable pub fields : Host → Text → List Text → TargetTriple
fields h x [] =
    target_triple x unknown_arch no_sub_arch unknown_vendor unknown_os unknown_environment
      unknown_object_format
fields h x (a ∷ []) =
    target_triple x (parse_arch h a) (parse_sub_arch h a) unknown_vendor unknown_os
      (string_switch mips_cases unknown_environment a) unknown_object_format
fields h x (a ∷ v ∷ []) =
    target_triple x (parse_arch h a) (parse_sub_arch h a) (parse_vendor v) unknown_os
      unknown_environment unknown_object_format
fields h x (a ∷ v ∷ o ∷ []) =
    target_triple x (parse_arch h a) (parse_sub_arch h a) (parse_vendor v) (parse_os o)
      unknown_environment unknown_object_format
fields h x (a ∷ v ∷ o ∷ e ∷ _) =
    target_triple x (parse_arch h a) (parse_sub_arch h a) (parse_vendor v) (parse_os o)
      (parse_environment e) (parse_format e)

-- Triple(const Twine &Str), which setTriple assigns.
unfoldable pub parse_triple : Host → Text → TargetTriple
parse_triple h x = with_default_format (fields h x (split 3 x))

-- Twine's concatenation with a '-' between.
infixr 42 ◌⌢◌
abbrev pub ◌⌢◌ : Text → Text → Text
s ⌢ t = s ++ (45 ∷ t)

-- The constructor from an architecture, a vendor and an operating system.
unfoldable pub create_3 : Host → Text → Text → Text → TargetTriple
create_3 h a v o = with_default_format (
    target_triple (a ⌢ v ⌢ o) (parse_arch h a) (parse_sub_arch h a) (parse_vendor v) (parse_os o)
      unknown_environment unknown_object_format)

-- The constructor that takes an environment too.
unfoldable pub create_4 : Host → Text → Text → Text → Text → TargetTriple
create_4 h a v o e = with_default_format (
    target_triple (a ⌢ v ⌢ o ⌢ e) (parse_arch h a) (parse_sub_arch h a) (parse_vendor v)
      (parse_os o) (parse_environment e) (parse_format e))

-- getArchName, getVendorName, getOSName, getEnvironmentName and getOSAndEnvironmentName.
unfoldable pub get_arch_name : TargetTriple → Text
get_arch_name t = first t.text

unfoldable pub get_vendor_name : TargetTriple → Text
get_vendor_name t = first (second t.text)

unfoldable pub get_os_name : TargetTriple → Text
get_os_name t = first (second (second t.text))

unfoldable pub get_environment_name : TargetTriple → Text
get_environment_name t = second (second (second t.text))

unfoldable pub get_os_and_environment_name : TargetTriple → Text
get_os_and_environment_name t = second (second t.text)

-- setArchName, setVendorName, setOSName, setEnvironmentName and setOSAndEnvironmentName.
unfoldable pub set_arch_name : Host → TargetTriple → Text → TargetTriple
set_arch_name h t s = parse_triple h (s ⌢ get_vendor_name t ⌢ get_os_and_environment_name t)

unfoldable pub set_vendor_name : Host → TargetTriple → Text → TargetTriple
set_vendor_name h t s = parse_triple h (get_arch_name t ⌢ s ⌢ get_os_and_environment_name t)

unfoldable pub set_os_name : Host → TargetTriple → Text → TargetTriple
set_os_name h t s =
    if is_empty (get_environment_name t)
    then parse_triple h (get_arch_name t ⌢ get_vendor_name t ⌢ s)
    else parse_triple h (get_arch_name t ⌢ get_vendor_name t ⌢ s ⌢ get_environment_name t)

unfoldable pub set_environment_name : Host → TargetTriple → Text → TargetTriple
set_environment_name h t s =
    parse_triple h (get_arch_name t ⌢ get_vendor_name t ⌢ get_os_name t ⌢ s)

unfoldable pub set_os_and_environment_name : Host → TargetTriple → Text → TargetTriple
set_os_and_environment_name h t s = parse_triple h (get_arch_name t ⌢ get_vendor_name t ⌢ s)

-- setArch
unfoldable pub set_arch : Host → TargetTriple → ArchType → SubArchType → TargetTriple
set_arch h t k s = set_arch_name h t (name_of_arch k s)
