-- ===== src/Subtarget/Tests.antt =====
-- An instance of the theorem on the subtarget, on a parser that looks at the CPU alone.
use toy_riscv.Base.{[], codes, equals, ok, ◌≡◌, refl, inr}
use toy_riscv.Triple.Target.{TargetTriple}
use toy_riscv.Triple.Types.{toyriscv64, no_sub_arch, pc, linux, gnu, elf}
use toy_riscv.Triple.Properties.{get_arch_pointer_bit_width}
use toy_riscv.Subtarget.{
  FeatureParser, Subtarget, initialize_subtarget_dependencies, bits, is_generic,
  initialize_subtarget_dependencies-bits,
}

abbrev parser : FeatureParser
parser = record {
  sets_has_rv64 = λ cpu tune fs. equals cpu "cpu-rv64";
  cpu_rv32_lem = λ tune. refl;
  cpu_rv64_lem = λ tune. refl;
}

abbrev target : TargetTriple
target = record {
  text = codes "toyriscv64-pc-linux-gnu";
  arch = toyriscv64;
  sub_arch = no_sub_arch;
  vendor = pc;
  os = linux;
  environment = gnu;
  object_format = elf;
}

initialize_subtarget_dependencies-bits_example :
    (s : Subtarget) × (initialize_subtarget_dependencies parser target (codes "generic") [] []
      ≡ ok s)
    × (bits s.xlen ≡ get_arch_pointer_bit_width toyriscv64)
unfolding is_generic
initialize_subtarget_dependencies-bits_example =
    initialize_subtarget_dependencies-bits parser target (codes "generic") [] (inr refl) refl
