-- ===== src/Triple/Variants.antt =====
-- get32BitArchVariant, get64BitArchVariant, getBigEndianArchVariant and getLittleEndianArchVariant.
use toy_riscv.Base.{String, if◌then◌else◌, Outcome, ok, stop, unreachable}
use toy_riscv.Triple.Types.{no_sub_arch}
use toy_riscv.Triple.Host.{Host}
use toy_riscv.Triple.Properties.{is_little_endian}
use toy_riscv.Triple.Widths.{
  ArchChange, keep, impossible, change, change_with_sub, change_to_32_bit, change_to_64_bit,
}
use toy_riscv.Triple.Endians.{change_to_big_endian, change_to_little_endian}
use toy_riscv.Triple.Target.{TargetTriple, set_arch}

-- The copy T of a variant, changed.
unfoldable pub apply_change : Host → String → ArchChange → TargetTriple → Outcome TargetTriple
apply_change h m keep t = ok t
apply_change h m impossible t = stop (unreachable m)
apply_change h m (change k) t = ok (set_arch h t k no_sub_arch)
apply_change h m (change_with_sub k) t = ok (set_arch h t k t.sub_arch)

unfoldable pub get_32_bit_arch_variant : Host → TargetTriple → Outcome TargetTriple
get_32_bit_arch_variant h t = apply_change h "" (change_to_32_bit t.arch) t

unfoldable pub get_64_bit_arch_variant : Host → TargetTriple → Outcome TargetTriple
get_64_bit_arch_variant h t = apply_change h "" (change_to_64_bit t.arch) t

unfoldable pub get_big_endian_arch_variant : Host → TargetTriple → Outcome TargetTriple
get_big_endian_arch_variant h t =
    if is_little_endian t.arch
    then apply_change h "getBigEndianArchVariant: unknown triple." (change_to_big_endian t.arch) t
    else ok t

unfoldable pub get_little_endian_arch_variant : Host → TargetTriple → Outcome TargetTriple
get_little_endian_arch_variant h t =
    if is_little_endian t.arch
    then ok t
    else apply_change h "getLittleEndianArchVariant: unknown triple."
        (change_to_little_endian t.arch) t
