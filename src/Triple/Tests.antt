-- ===== src/Triple/Tests.antt =====
-- Instances of the theorems on triples, on a host without ARM names.
use toy_riscv.Base.{true, false, [], Text, codes, ◌≡◌, ◌⊎◌, stop, unreachable}
use toy_riscv.Triple.Types.{aarch64_32, arc, toyriscv32, no_sub_arch}
use toy_riscv.Triple.Host.{Host, isa_invalid, endian_invalid, kind_other}
use toy_riscv.Triple.Parse.{parse_vendor, parse_os}
use toy_riscv.Triple.ParseArch.{parse_arch}
use toy_riscv.Triple.Target.{parse_triple, get_arch_name, get_vendor_name, get_os_name, set_arch}
use toy_riscv.Triple.Accessors.{parse_triple_lem, set_arch_lem}
use toy_riscv.Triple.WidthLaws.{HasWidth}
use toy_riscv.Triple.EndianLaws.{IsBig, IsLittle}
use toy_riscv.Triple.Variants.{
  get_64_bit_arch_variant, get_big_endian_arch_variant, get_little_endian_arch_variant,
}
use toy_riscv.Triple.VariantLaws.{
  Becomes, get_64_bit_arch_variant_lem, get_big_endian_arch_variant_lem,
  get_little_endian_arch_variant_lem,
}

abbrev pub host : Host
host = record {
  is_little_endian_host = true;
  parse_arch_isa = λ t. isa_invalid;
  parse_arch_endian = λ t. endian_invalid;
  get_canonical_arch_name = λ t. [];
  has_profile_m = λ t. false;
  parse_arch_version = λ t. 0;
  parse_arm_arch_kind = λ t. kind_other;
}

abbrev toy : Text
toy = codes "toyriscv64-unknown-linux-gnu"

parse_triple_lem_example :
    ((parse_triple host toy).text ≡ toy)
    × ((parse_triple host toy).arch ≡ parse_arch host (get_arch_name (parse_triple host toy)))
    × ((parse_triple host toy).vendor ≡ parse_vendor (get_vendor_name (parse_triple host toy)))
    × ((parse_triple host toy).os ≡ parse_os (get_os_name (parse_triple host toy)))
parse_triple_lem_example = parse_triple_lem host toy

set_arch_lem_example :
    ((set_arch host (parse_triple host toy) toyriscv32 no_sub_arch).arch ≡ toyriscv32)
    × ((set_arch host (parse_triple host toy) toyriscv32 no_sub_arch).vendor
        ≡ (parse_triple host toy).vendor)
    × ((set_arch host (parse_triple host toy) toyriscv32 no_sub_arch).os
        ≡ (parse_triple host toy).os)
set_arch_lem_example = set_arch_lem host toy toyriscv32 no_sub_arch

get_64_bit_arch_variant_lem_example :
    Becomes
      (HasWidth 64)
      (get_64_bit_arch_variant host (parse_triple host toy))
      (parse_triple host toy)
get_64_bit_arch_variant_lem_example = get_64_bit_arch_variant_lem host toy

get_big_endian_arch_variant_lem_example :
    (((parse_triple host (codes "aarch64_32")).arch ≡ aarch64_32)
      × (get_big_endian_arch_variant host (parse_triple host (codes "aarch64_32"))
          ≡ stop (unreachable "getBigEndianArchVariant: unknown triple.")))
    ⊎ Becomes IsBig
        (get_big_endian_arch_variant host (parse_triple host (codes "aarch64_32")))
        (parse_triple host (codes "aarch64_32"))
get_big_endian_arch_variant_lem_example = get_big_endian_arch_variant_lem host (codes "aarch64_32")

get_little_endian_arch_variant_lem_example :
    (((parse_triple host (codes "arc")).arch ≡ arc)
      × (get_little_endian_arch_variant host (parse_triple host (codes "arc"))
          ≡ stop (unreachable "getLittleEndianArchVariant: unknown triple.")))
    ⊎ Becomes IsLittle
        (get_little_endian_arch_variant host (parse_triple host (codes "arc")))
        (parse_triple host (codes "arc"))
get_little_endian_arch_variant_lem_example = get_little_endian_arch_variant_lem host (codes "arc")
