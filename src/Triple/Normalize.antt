-- ===== src/Triple/Normalize.antt =====
-- Triple::normalize of llvm/lib/Support/Triple.cpp: the components of a text, moved to the positions of the
-- architecture, the vendor, the operating system and the environment.
pub mod Moves
pub mod Parts
pub mod MoveLaws
pub mod PushLaws
pub mod PartLaws
pub mod FoundLaws
pub mod StateLaws
pub mod RoundLaws
pub mod Canonical
pub mod Laws
pub mod Tests
use toy_riscv.Base.{
  ℕ, zero, suc, ◌+◌, ◌-◌, Bool, true, false, not, ◌&&◌, ◌||◌, ◌==◌, ltb, if◌then◌else◌, List, [],
  ◌∷◌, ◌++◌, length, get_elem?, set, take, drop, Option, none, some, Text, String, codes, text_eq,
  is_empty, has_prefix, Outcome, ok, stop, assertion, ◌>>=◌,
}
use toy_riscv.Triple.Types.{
  ArchType, unknown_arch, VendorType, unknown_vendor, suse, OsType, unknown_os, win32,
  EnvironmentType, unknown_environment, android, gnueabi, ObjectFormatType, unknown_object_format,
  coff,
}
use toy_riscv.Triple.Host.{Host}
use toy_riscv.Triple.Parse.{parse_vendor, parse_os, parse_environment, parse_format}
use toy_riscv.Triple.ParseArch.{parse_arch, is_unknown_arch}
use toy_riscv.Triple.Names.{get_object_format_type_name}
use toy_riscv.Triple.Target.{is_unknown_format}
use toy_riscv.Triple.Setters.{is_unknown_environment}
use toy_riscv.Triple.Normalize.Moves.{
  is_fixed, later, displace, displace_from, no_overrun, push_back, insert_left, insert_empty,
  leading, next_free, push_right, move_component, is_component, check_moved,
}
use toy_riscv.Triple.Normalize.Parts.{
  is_unknown_vendor, is_unknown_os, put_first, split_all, join, Parsed, Progress, parse_at,
  is_cygwin_name, is_mingw_name, parse_components, Position, arch_position, vendor_position,
  os_position, environment_position, index, try_component, find_valid,
}

-- One round of the loop over Pos. Components[Idx] is in range, as the search has found it there.
unfoldable pub place_at : Position → Progress → Parsed → ℕ → Option Text → Outcome Progress
place_at pos s p idx none = stop (assertion "idx < size()")
place_at pos s p idx (some c) =
    move_component s.found (index pos) idx c s.components >>= check_moved (index pos) c >>= λ cs.
    ok (record { found = set s.found (index pos) true; components = cs; parsed = p })

unfoldable pub place : Position → Progress → Parsed × Option ℕ → Outcome Progress
place pos s (p, none) = ok (record s { parsed = p })
place pos s (p, some idx) = place_at pos s p idx (get_elem? s.components idx)

unfoldable pub round : Host → Position → Progress → Outcome Progress
round h pos s =
    if is_fixed (drop (index pos) s.found)
    then ok s
    else place pos s (find_valid h pos 0 s.found s.components s.parsed)

-- The loop over Pos.
unfoldable pub permute : Host → Progress → Outcome Progress
permute h s =
    round h arch_position s
    >>= round h vendor_position
    >>= round h os_position
    >>= round h environment_position

-- Empty components become "unknown".
unfoldable pub fill_unknown : List Text → List Text
fill_unknown [] = []
fill_unknown (c ∷ cs) = (if is_empty c then codes "unknown" else c) ∷ fill_unknown cs

abbrev pub is_android : EnvironmentType → Bool
is_android android = true
is_android _ = false

abbrev pub is_suse_gnueabi : VendorType → EnvironmentType → Bool
is_suse_gnueabi suse gnueabi = true
is_suse_gnueabi _ _ = false

abbrev pub is_win32 : OsType → Bool
is_win32 win32 = true
is_win32 _ = false

abbrev pub is_coff_or_unknown : ObjectFormatType → Bool
is_coff_or_unknown coff = true
is_coff_or_unknown unknown_object_format = true
is_coff_or_unknown _ = false

-- The version behind androideabi, of Components[3].
unfoldable pub name_android : List Text → Option Text → Outcome (List Text)
name_android cs none = stop (assertion "idx < size()")
name_android cs (some c) =
    if has_prefix (codes "androideabi") c
    then ok (set cs 3 (codes "android" ++ drop 11 c))
    else ok cs

unfoldable pub fix_android : Parsed → List Text → Outcome (List Text)
fix_android p cs = if is_android p.environment then name_android cs (get_elem? cs 3) else ok cs

unfoldable pub fix_suse : Parsed → List Text → Outcome (List Text)
fix_suse p cs =
    if is_suse_gnueabi p.vendor p.environment
    then (if ltb 3 (length cs)
        then ok (set cs 3 (codes "gnueabihf"))
        else stop (assertion "idx < size()"))
    else ok cs

-- SmallVector::resize
unfoldable pub resize : ℕ → List Text → List Text
resize zero cs = []
resize (suc n) [] = [] ∷ resize n []
resize (suc n) (c ∷ cs) = c ∷ resize n cs

unfoldable pub fix_windows : Parsed → List Text → List Text
fix_windows p cs =
    if is_win32 p.os
    then (let windows = set (resize 4 cs) 2 (codes "windows") in
        if is_unknown_environment p.environment
        then set windows 3 (
            if is_coff_or_unknown p.object_format
            then codes "msvc"
            else get_object_format_type_name p.object_format)
        else windows)
    else if p.is_mingw32
    then set (set (resize 4 cs) 2 (codes "windows")) 3 (codes "gnu")
    else if p.is_cygwin
    then set (set (resize 4 cs) 2 (codes "windows")) 3 (codes "cygnus")
    else cs

unfoldable pub add_format : Parsed → List Text → List Text
add_format p cs =
    if (p.is_mingw32
        || (p.is_cygwin || (is_win32 p.os && not (is_unknown_environment p.environment))))
      && not (is_coff_or_unknown p.object_format)
    then set (resize 5 cs) 4 (get_object_format_type_name p.object_format)
    else cs

-- The part after the loop.
unfoldable pub finish : Progress → Outcome Text
finish s = fix_android s.parsed (fill_unknown s.components) >>= fix_suse s.parsed >>= λ cs.
    ok (join (add_format s.parsed (fix_windows s.parsed cs)))

-- Triple::normalize
unfoldable pub normalize : Host → Text → Outcome Text
normalize h t = permute h (parse_components h (split_all t)) >>= finish
