-- ===== src/Triple/Widths.antt =====
-- The switches that change the width of an architecture: llvm/lib/Support/Triple.cpp.
use toy_riscv.Triple.Types.{
  ArchType, unknown_arch, arm, armeb, aarch64, aarch64_be, aarch64_32, arc, avr, bpfel, bpfeb, csky,
  hexagon, m68k, mips, mipsel, mips64, mips64el, msp430, ppc, ppcle, ppc64, ppc64le, r600, amdgcn,
  riscv32, riscv64, toyriscv32, toyriscv64, sparc, sparcv9, sparcel, systemz, tce, tcele, thumb,
  thumbeb, x86, x86_64, xcore, nvptx, nvptx64, le32, le64, amdil, amdil64, hsail, hsail64, spir,
  spir64, spirv32, spirv64, kalimba, shave, lanai, wasm32, wasm64, renderscript32, renderscript64,
  ve,
}

-- What a variant does with the architecture of a triple: nothing, setArch, setArch with the
-- sub-architecture kept, or llvm_unreachable.
pub data ArchChange : Type 0 where
  keep impossible : ArchChange
  change change_with_sub : ArchType → ArchChange

-- The switch of Triple::get32BitArchVariant.
unfoldable pub change_to_32_bit : ArchType → ArchChange
change_to_32_bit unknown_arch = change unknown_arch
change_to_32_bit amdgcn = change unknown_arch
change_to_32_bit avr = change unknown_arch
change_to_32_bit bpfeb = change unknown_arch
change_to_32_bit bpfel = change unknown_arch
change_to_32_bit msp430 = change unknown_arch
change_to_32_bit systemz = change unknown_arch
change_to_32_bit ve = change unknown_arch
change_to_32_bit aarch64_32 = keep
change_to_32_bit amdil = keep
change_to_32_bit arc = keep
change_to_32_bit arm = keep
change_to_32_bit armeb = keep
change_to_32_bit csky = keep
change_to_32_bit hexagon = keep
change_to_32_bit hsail = keep
change_to_32_bit kalimba = keep
change_to_32_bit lanai = keep
change_to_32_bit le32 = keep
change_to_32_bit m68k = keep
change_to_32_bit mips = keep
change_to_32_bit mipsel = keep
change_to_32_bit nvptx = keep
change_to_32_bit ppc = keep
change_to_32_bit ppcle = keep
change_to_32_bit r600 = keep
change_to_32_bit renderscript32 = keep
change_to_32_bit riscv32 = keep
change_to_32_bit toyriscv32 = keep
change_to_32_bit shave = keep
change_to_32_bit sparc = keep
change_to_32_bit sparcel = keep
change_to_32_bit spir = keep
change_to_32_bit spirv32 = keep
change_to_32_bit tce = keep
change_to_32_bit tcele = keep
change_to_32_bit thumb = keep
change_to_32_bit thumbeb = keep
change_to_32_bit wasm32 = keep
change_to_32_bit x86 = keep
change_to_32_bit xcore = keep
change_to_32_bit aarch64 = change arm
change_to_32_bit aarch64_be = change armeb
change_to_32_bit amdil64 = change amdil
change_to_32_bit hsail64 = change hsail
change_to_32_bit le64 = change le32
change_to_32_bit mips64 = change_with_sub mips
change_to_32_bit mips64el = change_with_sub mipsel
change_to_32_bit nvptx64 = change nvptx
change_to_32_bit ppc64 = change ppc
change_to_32_bit ppc64le = change ppcle
change_to_32_bit renderscript64 = change renderscript32
change_to_32_bit riscv64 = change riscv32
change_to_32_bit toyriscv64 = change toyriscv32
change_to_32_bit sparcv9 = change sparc
change_to_32_bit spir64 = change spir
change_to_32_bit spirv64 = change spirv32
change_to_32_bit wasm64 = change wasm32
change_to_32_bit x86_64 = change x86

-- The switch of Triple::get64BitArchVariant.
unfoldable pub change_to_64_bit : ArchType → ArchChange
change_to_64_bit unknown_arch = change unknown_arch
change_to_64_bit arc = change unknown_arch
change_to_64_bit avr = change unknown_arch
change_to_64_bit csky = change unknown_arch
change_to_64_bit hexagon = change unknown_arch
change_to_64_bit kalimba = change unknown_arch
change_to_64_bit lanai = change unknown_arch
change_to_64_bit m68k = change unknown_arch
change_to_64_bit msp430 = change unknown_arch
change_to_64_bit r600 = change unknown_arch
change_to_64_bit shave = change unknown_arch
change_to_64_bit sparcel = change unknown_arch
change_to_64_bit tce = change unknown_arch
change_to_64_bit tcele = change unknown_arch
change_to_64_bit xcore = change unknown_arch
change_to_64_bit aarch64 = keep
change_to_64_bit aarch64_be = keep
change_to_64_bit amdgcn = keep
change_to_64_bit amdil64 = keep
change_to_64_bit bpfeb = keep
change_to_64_bit bpfel = keep
change_to_64_bit hsail64 = keep
change_to_64_bit le64 = keep
change_to_64_bit mips64 = keep
change_to_64_bit mips64el = keep
change_to_64_bit nvptx64 = keep
change_to_64_bit ppc64 = keep
change_to_64_bit ppc64le = keep
change_to_64_bit renderscript64 = keep
change_to_64_bit riscv64 = keep
change_to_64_bit toyriscv64 = keep
change_to_64_bit sparcv9 = keep
change_to_64_bit spir64 = keep
change_to_64_bit spirv64 = keep
change_to_64_bit systemz = keep
change_to_64_bit ve = keep
change_to_64_bit wasm64 = keep
change_to_64_bit x86_64 = keep
change_to_64_bit aarch64_32 = change aarch64
change_to_64_bit amdil = change amdil64
change_to_64_bit arm = change aarch64
change_to_64_bit armeb = change aarch64_be
change_to_64_bit hsail = change hsail64
change_to_64_bit le32 = change le64
change_to_64_bit mips = change_with_sub mips64
change_to_64_bit mipsel = change_with_sub mips64el
change_to_64_bit nvptx = change nvptx64
change_to_64_bit ppc = change ppc64
change_to_64_bit ppcle = change ppc64le
change_to_64_bit renderscript32 = change renderscript64
change_to_64_bit riscv32 = change riscv64
change_to_64_bit toyriscv32 = change toyriscv64
change_to_64_bit sparc = change sparcv9
change_to_64_bit spir = change spir64
change_to_64_bit spirv32 = change spirv64
change_to_64_bit thumb = change aarch64
change_to_64_bit thumbeb = change aarch64_be
change_to_64_bit wasm32 = change wasm64
change_to_64_bit x86 = change x86_64
