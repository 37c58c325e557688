-- ===== src/Triple/Predicates/Laws.antt =====
-- How the predicates on architectures and object formats go with the tables of llvm/lib/Support/Triple.cpp.
use toy_riscv.Base.{Bool, ◌&&◌, ◌||◌, ◌==◌, List, [], ◌∷◌, String, codes, text_eq, ◌≡◌, refl}
use toy_riscv.Triple.Types.{
  ArchType, unknown_arch, arm, armeb, aarch64, aarch64_be, aarch64_32, arc, avr, bpfel, bpfeb, csky,
  hexagon, m68k, mips, mipsel, mips64, mips64el, msp430, ppc, ppcle, ppc64, ppc64le, r600, amdgcn,
  riscv32, riscv64, toyriscv32, toyriscv64, sparc, sparcv9, sparcel, systemz, tce, tcele, thumb,
  thumbeb, x86, x86_64, xcore, nvptx, nvptx64, le32, le64, amdil, amdil64, hsail, hsail64, spir,
  spir64, spirv32, spirv64, kalimba, shave, lanai, wasm32, wasm64, renderscript32, renderscript64,
  ve,
}
use toy_riscv.Triple.ArchNames.{get_arch_type_prefix}
use toy_riscv.Triple.Properties.{get_arch_pointer_bit_width}
use toy_riscv.Triple.Target.{TargetTriple}
use toy_riscv.Triple.Numbers.{arch_number}
use toy_riscv.Triple.Predicates.Archs.{
  is_spir, is_spirv, is_nvptx, is_amdgcn, is_thumb, is_arm, is_aarch64, is_mips32, is_mips64,
  is_mips, is_ppc, is_ppc32, is_ppc64, is_riscv, is_system_z, is_x86, is_ve, is_wasm, is_csky,
}

-- The answers of the predicates on families of architectures, and what the prefix of the architecture says.
abbrev pub families : TargetTriple → List Bool
families t =
    is_aarch64 t
    ∷ (is_arm t || is_thumb t)
    ∷ is_mips t
    ∷ is_ppc t
    ∷ is_riscv t
    ∷ is_system_z t
    ∷ is_x86 t
    ∷ is_ve t
    ∷ is_wasm t
    ∷ is_csky t
    ∷ is_nvptx t
    ∷ is_spir t
    ∷ is_spirv t
    ∷ is_amdgcn t
    ∷ []

abbrev pub prefixes : ArchType → List Bool
prefixes a =
    let named : String → Bool = λ s. text_eq (get_arch_type_prefix a) (codes s) in
    named "aarch64"
    ∷ named "arm"
    ∷ named "mips"
    ∷ named "ppc"
    ∷ named "riscv"
    ∷ named "s390"
    ∷ named "x86"
    ∷ named "ve"
    ∷ named "wasm"
    ∷ named "csky"
    ∷ named "nvvm"
    ∷ named "spir"
    ∷ named "spirv"
    ∷ named "amdgcn"
    ∷ []

families_of : (t : TargetTriple) (a : ArchType) → families (record t { arch = a }) ≡ prefixes a
unfolding get_arch_type_prefix arch_number
families_of t unknown_arch = refl
families_of t arm = refl
families_of t armeb = refl
families_of t aarch64 = refl
families_of t aarch64_be = refl
families_of t aarch64_32 = refl
families_of t arc = refl
families_of t avr = refl
families_of t bpfel = refl
families_of t bpfeb = refl
families_of t csky = refl
families_of t hexagon = refl
families_of t m68k = refl
families_of t mips = refl
families_of t mipsel = refl
families_of t mips64 = refl
families_of t mips64el = refl
families_of t msp430 = refl
families_of t ppc = refl
families_of t ppcle = refl
families_of t ppc64 = refl
families_of t ppc64le = refl
families_of t r600 = refl
families_of t amdgcn = refl
families_of t riscv32 = refl
families_of t riscv64 = refl
families_of t toyriscv32 = refl
families_of t toyriscv64 = refl
families_of t sparc = refl
families_of t sparcv9 = refl
families_of t sparcel = refl
families_of t systemz = refl
families_of t tce = refl
families_of t tcele = refl
families_of t thumb = refl
families_of t thumbeb = refl
families_of t x86 = refl
families_of t x86_64 = refl
families_of t xcore = refl
families_of t nvptx = refl
families_of t nvptx64 = refl
families_of t le32 = refl
families_of t le64 = refl
families_of t amdil = refl
families_of t amdil64 = refl
families_of t hsail = refl
families_of t hsail64 = refl
families_of t spir = refl
families_of t spir64 = refl
families_of t spirv32 = refl
families_of t spirv64 = refl
families_of t kalimba = refl
families_of t shave = refl
families_of t lanai = refl
families_of t wasm32 = refl
families_of t wasm64 = refl
families_of t renderscript32 = refl
families_of t renderscript64 = refl
families_of t ve = refl

-- The predicates on the families AArch64, ARM with Thumb, MIPS, PowerPC, RISC-V, SystemZ, x86, VE, WebAssembly, CSKY, NVPTX, SPIR,
-- SPIR-V and AMDGCN hold of a triple exactly when getArchTypePrefix gives the prefix of that family for its architecture.
pub families-get_arch_type_prefix : (t : TargetTriple) → families t ≡ prefixes t.arch
families-get_arch_type_prefix t = families_of t t.arch

-- The halves of MIPS and PowerPC, and the width of their pointers.
abbrev pub Halves : TargetTriple → Type 0
Halves t =
    (is_mips32 t ≡ is_mips t && (get_arch_pointer_bit_width t.arch == 32))
    × (is_mips64 t ≡ is_mips t && (get_arch_pointer_bit_width t.arch == 64))
    × (is_ppc32 t ≡ is_ppc t && (get_arch_pointer_bit_width t.arch == 32))
    × (is_ppc64 t ≡ is_ppc t && (get_arch_pointer_bit_width t.arch == 64))

arch-Halves : (t : TargetTriple) (a : ArchType) → Halves (record t { arch = a })
unfolding get_arch_pointer_bit_width arch_number
arch-Halves t unknown_arch = (refl, refl, refl, refl)
arch-Halves t arm = (refl, refl, refl, refl)
arch-Halves t armeb = (refl, refl, refl, refl)
arch-Halves t aarch64 = (refl, refl, refl, refl)
arch-Halves t aarch64_be = (refl, refl, refl, refl)
arch-Halves t aarch64_32 = (refl, refl, refl, refl)
arch-Halves t arc = (refl, refl, refl, refl)
arch-Halves t avr = (refl, refl, refl, refl)
arch-Halves t bpfel = (refl, refl, refl, refl)
arch-Halves t bpfeb = (refl, refl, refl, refl)
arch-Halves t csky = (refl, refl, refl, refl)
arch-Halves t hexagon = (refl, refl, refl, refl)
arch-Halves t m68k = (refl, refl, refl, refl)
arch-Halves t mips = (refl, refl, refl, refl)
arch-Halves t mipsel = (refl, refl, refl, refl)
arch-Halves t mips64 = (refl, refl, refl, refl)
arch-Halves t mips64el = (refl, refl, refl, refl)
arch-Halves t msp430 = (refl, refl, refl, refl)
arch-Halves t ppc = (refl, refl, refl, refl)
arch-Halves t ppcle = (refl, refl, refl, refl)
arch-Halves t ppc64 = (refl, refl, refl, refl)
arch-Halves t ppc64le = (refl, refl, refl, refl)
arch-Halves t r600 = (refl, refl, refl, refl)
arch-Halves t amdgcn = (refl, refl, refl, refl)
arch-Halves t riscv32 = (refl, refl, refl, refl)
arch-Halves t riscv64 = (refl, refl, refl, refl)
arch-Halves t toyriscv32 = (refl, refl, refl, refl)
arch-Halves t toyriscv64 = (refl, refl, refl, refl)
arch-Halves t sparc = (refl, refl, refl, refl)
arch-Halves t sparcv9 = (refl, refl, refl, refl)
arch-Halves t sparcel = (refl, refl, refl, refl)
arch-Halves t systemz = (refl, refl, refl, refl)
arch-Halves t tce = (refl, refl, refl, refl)
arch-Halves t tcele = (refl, refl, refl, refl)
arch-Halves t thumb = (refl, refl, refl, refl)
arch-Halves t thumbeb = (refl, refl, refl, refl)
arch-Halves t x86 = (refl, refl, refl, refl)
arch-Halves t x86_64 = (refl, refl, refl, refl)
arch-Halves t xcore = (refl, refl, refl, refl)
arch-Halves t nvptx = (refl, refl, refl, refl)
arch-Halves t nvptx64 = (refl, refl, refl, refl)
arch-Halves t le32 = (refl, refl, refl, refl)
arch-Halves t le64 = (refl, refl, refl, refl)
arch-Halves t amdil = (refl, refl, refl, refl)
arch-Halves t amdil64 = (refl, refl, refl, refl)
arch-Halves t hsail = (refl, refl, refl, refl)
arch-Halves t hsail64 = (refl, refl, refl, refl)
arch-Halves t spir = (refl, refl, refl, refl)
arch-Halves t spir64 = (refl, refl, refl, refl)
arch-Halves t spirv32 = (refl, refl, refl, refl)
arch-Halves t spirv64 = (refl, refl, refl, refl)
arch-Halves t kalimba = (refl, refl, refl, refl)
arch-Halves t shave = (refl, refl, refl, refl)
arch-Halves t lanai = (refl, refl, refl, refl)
arch-Halves t wasm32 = (refl, refl, refl, refl)
arch-Halves t wasm64 = (refl, refl, refl, refl)
arch-Halves t renderscript32 = (refl, refl, refl, refl)
arch-Halves t renderscript64 = (refl, refl, refl, refl)
arch-Halves t ve = (refl, refl, refl, refl)

-- isMIPS32, isMIPS64, isPPC32 and isPPC64 hold of the triples of their family whose pointers have that width.
get_arch_pointer_bit_width-Halves : (t : TargetTriple) → Halves t
get_arch_pointer_bit_width-Halves t = arch-Halves t t.arch
