-- ===== src/Machine/Tests.antt =====
-- The widths for a triple of the 64-bit architecture, and the relocation models.
use toy_riscv.Base.{◌*◌, [], some, true, false, Text, codes, ok, ◌≡◌, refl, inr}
use toy_riscv.Triple.Types.{toyriscv64, no_sub_arch, pc, linux, gnu, elf}
use toy_riscv.Triple.Target.{TargetTriple}
use toy_riscv.Triple.Properties.{get_arch_pointer_bit_width, is_little_endian}
use toy_riscv.Subtarget.{FeatureParser, Subtarget, initialize_subtarget_dependencies, bits}
use toy_riscv.Machine.{compute_data_layout, choose_mc_cpu, static, pic, get_effective_reloc_model}
use toy_riscv.Machine.Layout.{
  pointer_bits, native_bits, stack_bits, is_little, compute_data_layout-bits,
}
use toy_riscv.Base.{equals}

abbrev parser : FeatureParser
parser = record {
  sets_has_rv64 = λ cpu tune fs. equals cpu "cpu-rv64";
  cpu_rv32_lem = λ tune. refl;
  cpu_rv64_lem = λ tune. refl;
}

abbrev target : TargetTriple
target = record {
  text = codes "toyriscv64-pc-linux-gnu";
  arch = toyriscv64;
  sub_arch = no_sub_arch;
  vendor = pc;
  os = linux;
  environment = gnu;
  object_format = elf;
}

compute_data_layout-bits_example :
    (d : Text) × (s : Subtarget) × (compute_data_layout target ≡ ok d)
    × (initialize_subtarget_dependencies parser target [] [] [] ≡ ok s)
    × (get_arch_pointer_bit_width toyriscv64 ≡ bits s.xlen)
    × (pointer_bits d ≡ some (bits s.xlen))
    × (native_bits d ≡ some (bits s.xlen))
    × (stack_bits d ≡ some (2 * bits s.xlen))
    × (is_little d ≡ is_little_endian toyriscv64)
    × (choose_mc_cpu toyriscv64 [] ≡ s.cpu)
compute_data_layout-bits_example = compute_data_layout-bits parser target [] (inr refl)

jit_is_static : get_effective_reloc_model true (some pic) ≡ static
unfolding get_effective_reloc_model
jit_is_static = refl

model_is_kept : get_effective_reloc_model false (some pic) ≡ pic
unfolding get_effective_reloc_model
model_is_kept = refl
