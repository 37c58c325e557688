-- ===== src/Triple/Predicates/Tests.antt =====
-- Instances of the theorems on the predicates.
use toy_riscv.Base.{codes, ◌≡◌, refl}
use toy_riscv.Triple.Tests.{host}
use toy_riscv.Triple.Target.{TargetTriple, parse_triple, with_default_format, fields}
use toy_riscv.Triple.ParseArch.{parse_arch}
use toy_riscv.Triple.Numbers.{arch_number}
use toy_riscv.Triple.Predicates.Laws.{families, prefixes, families-get_arch_type_prefix}
use toy_riscv.Triple.Predicates.FormatLaws.{binary_formats, binary_formats-parse_triple}

abbrev mips_triple : TargetTriple
mips_triple = parse_triple host (codes "mips64el-unknown-linux-gnu")

abbrev arm64_triple : TargetTriple
arm64_triple = parse_triple host (codes "aarch64-unknown-linux-gnu_ilp32")

families-get_arch_type_prefix_example : families mips_triple ≡ prefixes mips_triple.arch
families-get_arch_type_prefix_example = families-get_arch_type_prefix mips_triple

binary_formats-parse_triple_example :
    binary_formats (parse_triple host (codes "toyriscv64-unknown-linux-gnu")) ≡ 1
unfolding parse_triple parse_arch arch_number with_default_format fields
binary_formats-parse_triple_example =
    binary_formats-parse_triple host (codes "toyriscv64-unknown-linux-gnu") refl
