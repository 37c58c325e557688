-- ===== src/Triple/ArchName.antt =====
-- The name of an architecture with a sub-architecture: llvm/lib/Support/Triple.cpp.
use toy_riscv.Base.{Text, codes, Bool, true, false, if◌then◌else◌}
use toy_riscv.Triple.Types.{ArchType, mips, mipsel, mips64, mips64el, SubArchType, mips_r6}
use toy_riscv.Triple.ArchNames.{get_arch_type_name}

abbrev pub is_mips_r6 : SubArchType → Bool
is_mips_r6 mips_r6 = true
is_mips_r6 _ = false

-- Triple::getArchName(ArchType, SubArchType)
unfoldable pub name_of_arch : ArchType → SubArchType → Text
name_of_arch mips s = if is_mips_r6 s then codes "mipsisa32r6" else get_arch_type_name mips
name_of_arch mipsel s = if is_mips_r6 s then codes "mipsisa32r6el" else get_arch_type_name mipsel
name_of_arch mips64 s = if is_mips_r6 s then codes "mipsisa64r6" else get_arch_type_name mips64
name_of_arch mips64el s =
    if is_mips_r6 s then codes "mipsisa64r6el" else get_arch_type_name mips64el
name_of_arch k s = get_arch_type_name k
