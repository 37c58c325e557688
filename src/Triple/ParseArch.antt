-- ===== src/Triple/ParseArch.antt =====
-- parseArch and parseSubArch of llvm/lib/Support/Triple.cpp.
use toy_riscv.Base.{
  List, [], ◌∷◌, Text, codes, Pattern, ends_with, string_switch, Bool, true, false, ◌==◌, ◌&&◌,
  ◌||◌, has_prefix, has_suffix, is_empty, equals, if◌then◌else◌,
}
use toy_riscv.Triple.Types.{
  ArchType, unknown_arch, arm, armeb, aarch64, aarch64_be, bpfel, bpfeb, thumb, thumbeb,
  SubArchType, no_sub_arch, arm_v9_3a, arm_v9_2a, arm_v9_1a, arm_v9, arm_v8_8a, arm_v8_7a,
  arm_v8_6a, arm_v8_5a, arm_v8_4a, arm_v8_3a, arm_v8_2a, arm_v8_1a, arm_v8, arm_v8r,
  arm_v8m_baseline, arm_v8m_mainline, arm_v8_1m_mainline, arm_v7, arm_v7em, arm_v7m, arm_v7s,
  arm_v7k, arm_v7ve, arm_v6, arm_v6m, arm_v6k, arm_v6t2, arm_v5, arm_v5te, arm_v4t, aarch64_arm64e,
  kalimba_v3, kalimba_v4, kalimba_v5, mips_r6, ppc_spe,
}
use toy_riscv.Triple.ArchCases.{arch_cases}
use toy_riscv.Triple.Host.{
  Host, IsaKind, isa_invalid, isa_arm, isa_thumb, isa_aarch64, EndianKind, endian_invalid,
  endian_little, endian_big, ArmArchKind, kind_armv4, kind_armv4t, kind_armv5t, kind_armv5te,
  kind_iwmmxt, kind_iwmmxt2, kind_xscale, kind_armv5tej, kind_armv6, kind_armv6k, kind_armv6kz,
  kind_armv6t2, kind_armv6m, kind_armv7a, kind_armv7r, kind_armv7ve, kind_armv7k, kind_armv7m,
  kind_armv7s, kind_armv7em, kind_armv8a, kind_armv8_1a, kind_armv8_2a, kind_armv8_3a,
  kind_armv8_4a, kind_armv8_5a, kind_armv8_6a, kind_armv8_7a, kind_armv8_8a, kind_armv9a,
  kind_armv9_1a, kind_armv9_2a, kind_armv9_3a, kind_armv8r, kind_armv8m_baseline,
  kind_armv8m_mainline, kind_armv8_1m_mainline,
}

-- The switch on ARM::ArchKind in parseSubArch.
unfoldable pub sub_arch_of_kind : ArmArchKind → SubArchType
sub_arch_of_kind kind_armv4 = no_sub_arch
sub_arch_of_kind kind_armv4t = arm_v4t
sub_arch_of_kind kind_armv5t = arm_v5
sub_arch_of_kind kind_armv5te = arm_v5te
sub_arch_of_kind kind_iwmmxt = arm_v5te
sub_arch_of_kind kind_iwmmxt2 = arm_v5te
sub_arch_of_kind kind_xscale = arm_v5te
sub_arch_of_kind kind_armv5tej = arm_v5te
sub_arch_of_kind kind_armv6 = arm_v6
sub_arch_of_kind kind_armv6k = arm_v6k
sub_arch_of_kind kind_armv6kz = arm_v6k
sub_arch_of_kind kind_armv6t2 = arm_v6t2
sub_arch_of_kind kind_armv6m = arm_v6m
sub_arch_of_kind kind_armv7a = arm_v7
sub_arch_of_kind kind_armv7r = arm_v7
sub_arch_of_kind kind_armv7ve = arm_v7ve
sub_arch_of_kind kind_armv7k = arm_v7k
sub_arch_of_kind kind_armv7m = arm_v7m
sub_arch_of_kind kind_armv7s = arm_v7s
sub_arch_of_kind kind_armv7em = arm_v7em
sub_arch_of_kind kind_armv8a = arm_v8
sub_arch_of_kind kind_armv8_1a = arm_v8_1a
sub_arch_of_kind kind_armv8_2a = arm_v8_2a
sub_arch_of_kind kind_armv8_3a = arm_v8_3a
sub_arch_of_kind kind_armv8_4a = arm_v8_4a
sub_arch_of_kind kind_armv8_5a = arm_v8_5a
sub_arch_of_kind kind_armv8_6a = arm_v8_6a
sub_arch_of_kind kind_armv8_7a = arm_v8_7a
sub_arch_of_kind kind_armv8_8a = arm_v8_8a
sub_arch_of_kind kind_armv9a = arm_v9
sub_arch_of_kind kind_armv9_1a = arm_v9_1a
sub_arch_of_kind kind_armv9_2a = arm_v9_2a
sub_arch_of_kind kind_armv9_3a = arm_v9_3a
sub_arch_of_kind kind_armv8r = arm_v8r
sub_arch_of_kind kind_armv8m_baseline = arm_v8m_baseline
sub_arch_of_kind kind_armv8m_mainline = arm_v8m_mainline
sub_arch_of_kind kind_armv8_1m_mainline = arm_v8_1m_mainline
sub_arch_of_kind _ = no_sub_arch

abbrev pub kalimba_cases : List (Pattern × SubArchType)
kalimba_cases =
    (ends_with "kalimba3", kalimba_v3)
    ∷ (ends_with "kalimba4", kalimba_v4)
    ∷ (ends_with "kalimba5", kalimba_v5)
    ∷ []

-- parseSubArch
unfoldable pub parse_sub_arch : Host → Text → SubArchType
parse_sub_arch h t =
    if has_prefix (codes "mips") t && (has_suffix (codes "r6el") t || has_suffix (codes "r6") t)
    then mips_r6
    else if equals t "powerpcspe"
    then ppc_spe
    else if equals t "arm64e"
    then aarch64_arm64e
    else if is_empty (h.get_canonical_arch_name t)
    then string_switch kalimba_cases no_sub_arch t
    else sub_arch_of_kind (h.parse_arm_arch_kind (h.get_canonical_arch_name t))

-- parseBPFArch
unfoldable pub parse_bpf_arch : Host → Text → ArchType
parse_bpf_arch h t =
    if equals t "bpf"
    then (if h.is_little_endian_host then bpfel else bpfeb)
    else if equals t "bpf_be" || equals t "bpfeb"
    then bpfeb
    else if equals t "bpf_le" || equals t "bpfel"
    then bpfel
    else unknown_arch

-- The switches on the byte order and the instruction set in parseARMArch.
unfoldable pub arm_arch_of : EndianKind → IsaKind → ArchType
arm_arch_of endian_little isa_arm = arm
arm_arch_of endian_little isa_thumb = thumb
arm_arch_of endian_little isa_aarch64 = aarch64
arm_arch_of endian_little isa_invalid = unknown_arch
arm_arch_of endian_big isa_arm = armeb
arm_arch_of endian_big isa_thumb = thumbeb
arm_arch_of endian_big isa_aarch64 = aarch64_be
arm_arch_of endian_big isa_invalid = unknown_arch
arm_arch_of endian_invalid isa = unknown_arch

abbrev pub is_thumb_isa : IsaKind → Bool
is_thumb_isa isa_thumb = true
is_thumb_isa _ = false

abbrev pub is_big : EndianKind → Bool
is_big endian_big = true
is_big _ = false

-- parseARMArch
unfoldable pub parse_arm_arch : Host → Text → ArchType
parse_arm_arch h t =
    let isa = h.parse_arch_isa t in
    let endian = h.parse_arch_endian t in
    let name = h.get_canonical_arch_name t in
    if is_empty name
    then unknown_arch
    else if is_thumb_isa isa && (has_prefix (codes "v2") name || has_prefix (codes "v3") name)
    then unknown_arch
    else if h.has_profile_m name && (h.parse_arch_version name == 6)
    then (if is_big endian then thumbeb else thumb)
    else arm_arch_of endian isa

abbrev pub is_unknown_arch : ArchType → Bool
is_unknown_arch unknown_arch = true
is_unknown_arch _ = false

-- The names that the table of parseArch leaves to parseARMArch and parseBPFArch.
unfoldable pub parse_special_arch : Host → Text → ArchType
parse_special_arch h t =
    if has_prefix (codes "arm") t
      || (has_prefix (codes "thumb") t || has_prefix (codes "aarch64") t)
    then parse_arm_arch h t
    else if has_prefix (codes "bpf") t
    then parse_bpf_arch h t
    else unknown_arch

-- parseArch
unfoldable pub parse_arch : Host → Text → ArchType
parse_arch h t =
    let listed = string_switch arch_cases unknown_arch t in
    if is_unknown_arch listed then parse_special_arch h t else listed
