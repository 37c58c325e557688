-- ===== src/Triple/Predicates/WidthLaws.antt =====
-- The width that isAArch64 is asked for, and the width of pointers.
use toy_riscv.Base.{not, ◌&&◌, ◌||◌, ◌==◌, ok, ◌≡◌, refl, Bool-cases, inl, inr}
use toy_riscv.Triple.Types.{
  ArchType, unknown_arch, arm, armeb, aarch64, aarch64_be, aarch64_32, arc, avr, bpfel, bpfeb, csky,
  hexagon, m68k, mips, mipsel, mips64, mips64el, msp430, ppc, ppcle, ppc64, ppc64le, r600, amdgcn,
  riscv32, riscv64, toyriscv32, toyriscv64, sparc, sparcv9, sparcel, systemz, tce, tcele, thumb,
  thumbeb, x86, x86_64, xcore, nvptx, nvptx64, le32, le64, amdil, amdil64, hsail, hsail64, spir,
  spir64, spirv32, spirv64, kalimba, shave, lanai, wasm32, wasm64, renderscript32, renderscript64,
  ve, gnuilp32,
}
use toy_riscv.Triple.Properties.{get_arch_pointer_bit_width}
use toy_riscv.Triple.Target.{TargetTriple}
use toy_riscv.Triple.Numbers.{arch_number, has_environment_type}
use toy_riscv.Triple.Predicates.Archs.{is_aarch64, is_aarch64_of_width}

-- What isAArch64 answers for 64 and for 32.
abbrev pub Widths : TargetTriple → Type 0
Widths t =
    (is_aarch64_of_width 64 t
      ≡ ok (
          is_aarch64 t
          && (get_arch_pointer_bit_width t.arch == 64 && not (has_environment_type t gnuilp32))))
    × (is_aarch64_of_width 32 t
        ≡ ok (
            is_aarch64 t
            && (get_arch_pointer_bit_width t.arch == 32 || has_environment_type t gnuilp32)))

arch-Widths : (t : TargetTriple) (a : ArchType) → Widths (record t { arch = a })
unfolding is_aarch64_of_width get_arch_pointer_bit_width arch_number
arch-Widths t unknown_arch = (refl, refl)
arch-Widths t arm = (refl, refl)
arch-Widths t armeb = (refl, refl)
arch-Widths t aarch64 = elim (Bool-cases (has_environment_type t gnuilp32)) [
  | inl e ↦ rw e (refl, refl)
  | inr e ↦ rw e (refl, refl)
]
arch-Widths t aarch64_be = elim (Bool-cases (has_environment_type t gnuilp32)) [
  | inl e ↦ rw e (refl, refl)
  | inr e ↦ rw e (refl, refl)
]
arch-Widths t aarch64_32 = (refl, refl)
arch-Widths t arc = (refl, refl)
arch-Widths t avr = (refl, refl)
arch-Widths t bpfel = (refl, refl)
arch-Widths t bpfeb = (refl, refl)
arch-Widths t csky = (refl, refl)
arch-Widths t hexagon = (refl, refl)
arch-Widths t m68k = (refl, refl)
arch-Widths t mips = (refl, refl)
arch-Widths t mipsel = (refl, refl)
arch-Widths t mips64 = (refl, refl)
arch-Widths t mips64el = (refl, refl)
arch-Widths t msp430 = (refl, refl)
arch-Widths t ppc = (refl, refl)
arch-Widths t ppcle = (refl, refl)
arch-Widths t ppc64 = (refl, refl)
arch-Widths t ppc64le = (refl, refl)
arch-Widths t r600 = (refl, refl)
arch-Widths t amdgcn = (refl, refl)
arch-Widths t riscv32 = (refl, refl)
arch-Widths t riscv64 = (refl, refl)
arch-Widths t toyriscv32 = (refl, refl)
arch-Widths t toyriscv64 = (refl, refl)
arch-Widths t sparc = (refl, refl)
arch-Widths t sparcv9 = (refl, refl)
arch-Widths t sparcel = (refl, refl)
arch-Widths t systemz = (refl, refl)
arch-Widths t tce = (refl, refl)
arch-Widths t tcele = (refl, refl)
arch-Widths t thumb = (refl, refl)
arch-Widths t thumbeb = (refl, refl)
arch-Widths t x86 = (refl, refl)
arch-Widths t x86_64 = (refl, refl)
arch-Widths t xcore = (refl, refl)
arch-Widths t nvptx = (refl, refl)
arch-Widths t nvptx64 = (refl, refl)
arch-Widths t le32 = (refl, refl)
arch-Widths t le64 = (refl, refl)
arch-Widths t amdil = (refl, refl)
arch-Widths t amdil64 = (refl, refl)
arch-Widths t hsail = (refl, refl)
arch-Widths t hsail64 = (refl, refl)
arch-Widths t spir = (refl, refl)
arch-Widths t spir64 = (refl, refl)
arch-Widths t spirv32 = (refl, refl)
arch-Widths t spirv64 = (refl, refl)
arch-Widths t kalimba = (refl, refl)
arch-Widths t shave = (refl, refl)
arch-Widths t lanai = (refl, refl)
arch-Widths t wasm32 = (refl, refl)
arch-Widths t wasm64 = (refl, refl)
arch-Widths t renderscript32 = (refl, refl)
arch-Widths t renderscript64 = (refl, refl)
arch-Widths t ve = (refl, refl)

-- isAArch64 of a width holds of the AArch64 triples whose pointers have that width, where the environment GNUILP32
-- makes the width 32.
is_aarch64_of_width-get_arch_pointer_bit_width : (t : TargetTriple) → Widths t
is_aarch64_of_width-get_arch_pointer_bit_width t = arch-Widths t t.arch
