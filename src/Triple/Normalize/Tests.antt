-- ===== src/Triple/Normalize/Tests.antt =====
-- Instances of the theorems on Triple::normalize.
use toy_riscv.Base.{
  true, false, List, [], ◌∷◌, get_elem?, Text, String, codes, is_empty, Outcome, ok, ◌≡◌, refl,
}
use toy_riscv.Triple.Tests.{host}
use toy_riscv.Triple.Target.{◌⌢◌}
use toy_riscv.Triple.Parse.{parse_vendor, parse_os, parse_environment, parse_format}
use toy_riscv.Triple.ParseArch.{
  parse_arch, parse_special_arch, parse_bpf_arch, parse_arm_arch, arm_arch_of,
}
use toy_riscv.Triple.Names.{get_object_format_type_name}
use toy_riscv.Triple.Normalize.Moves.{
  displace, displace_from, insert_left, insert_empty, leading, next_free, push_right,
  move_component, check_moved,
}
use toy_riscv.Triple.Normalize.{
  permute, normalize, round, place, place_at, fill_unknown, finish, fix_android, name_android,
  fix_suse, fix_windows, add_format, resize,
}
use toy_riscv.Triple.Normalize.MoveLaws.{fixed, count}
use toy_riscv.Triple.Normalize.Parts.{
  Progress, Position, index, split_all, join, parse_components, try_component, find_valid,
}
use toy_riscv.Triple.Normalize.StateLaws.{Good}
use toy_riscv.Triple.Normalize.Canonical.{normalize-known}
use toy_riscv.Triple.Normalize.Laws.{permute-Good, normalize-ok}

abbrev normal : String → Outcome Text
normal s = normalize host (codes s)

-- A missing vendor, components to move to the left and to the right, the special cases, and an empty text.
normalize_runs :
    (normal "i386-mingw32" ≡ ok (codes "i386-unknown-windows-gnu"))
    × (normal "a-b-i386" ≡ ok (codes "i386-a-b"))
    × (normal "pc-a" ≡ ok (codes "unknown-pc-a"))
    × (normal "arm-linux-androideabi21" ≡ ok (codes "arm-unknown-linux-android21"))
    × (normal "i686-pc-win32-elf" ≡ ok (codes "i686-pc-windows-elf"))
    × (normal "" ≡ ok (codes "unknown"))
unfolding normalize permute round place place_at fill_unknown finish fix_android name_android
    fix_suse fix_windows add_format resize parse_components split_all join try_component find_valid
    move_component insert_left check_moved push_right insert_empty next_free leading displace_from
    displace parse_arch parse_special_arch parse_bpf_arch parse_arm_arch arm_arch_of parse_vendor
    parse_os parse_environment parse_format get_object_format_type_name
normalize_runs = (refl, refl, refl, refl, refl, refl)

abbrev scrambled : List Text
scrambled = codes "linux" ∷ codes "pc" ∷ codes "i386" ∷ []

permute-Good_example :
    (s : Progress) × (permute host (parse_components host scrambled) ≡ ok s)
    × Good host s
    × ((x : Text) → is_empty x ≡ false → count x s.components ≡ count x scrambled)
    × ((at : Position)
        → fixed (parse_components host scrambled).found (index at) ≡ true
        → get_elem? s.components (index at) ≡ get_elem? scrambled (index at))
permute-Good_example = permute-Good host scrambled

normalize-ok_example : (u : Text) × (normalize host (codes "linux-pc-i386-mingw") ≡ ok u)
normalize-ok_example = normalize-ok host (codes "linux-pc-i386-mingw")

normalize-known_example :
    normalize host (codes "toyriscv32" ⌢ codes "pc" ⌢ codes "linux" ⌢ codes "gnu")
    ≡ ok (codes "toyriscv32" ⌢ codes "pc" ⌢ codes "linux" ⌢ codes "gnu")
unfolding parse_arch parse_vendor parse_os parse_environment
normalize-known_example =
    normalize-known host (codes "toyriscv32") (codes "pc") (codes "linux") (codes "gnu")
      (refl, refl, refl, refl) refl refl refl refl (refl, refl, refl) refl refl
