-- ===== src/Triple/Properties.antt =====
-- The width of pointers and the byte order of an architecture: llvm/lib/Support/Triple.cpp.
use toy_riscv.Base.{Bool, true, false, ℕ, ◌==◌}
use toy_riscv.Triple.Types.{
  ArchType, unknown_arch, arm, armeb, aarch64, aarch64_be, aarch64_32, arc, avr, bpfel, bpfeb, csky,
  hexagon, m68k, mips, mipsel, mips64, mips64el, msp430, ppc, ppcle, ppc64, ppc64le, r600, amdgcn,
  riscv32, riscv64, toyriscv32, toyriscv64, sparc, sparcv9, sparcel, systemz, tce, tcele, thumb,
  thumbeb, x86, x86_64, xcore, nvptx, nvptx64, le32, le64, amdil, amdil64, hsail, hsail64, spir,
  spir64, spirv32, spirv64, kalimba, shave, lanai, wasm32, wasm64, renderscript32, renderscript64,
  ve,
}

-- getArchPointerBitWidth
unfoldable pub get_arch_pointer_bit_width : ArchType → ℕ
get_arch_pointer_bit_width unknown_arch = 0
get_arch_pointer_bit_width avr = 16
get_arch_pointer_bit_width msp430 = 16
get_arch_pointer_bit_width aarch64_32 = 32
get_arch_pointer_bit_width amdil = 32
get_arch_pointer_bit_width arc = 32
get_arch_pointer_bit_width arm = 32
get_arch_pointer_bit_width armeb = 32
get_arch_pointer_bit_width csky = 32
get_arch_pointer_bit_width hexagon = 32
get_arch_pointer_bit_width hsail = 32
get_arch_pointer_bit_width kalimba = 32
get_arch_pointer_bit_width lanai = 32
get_arch_pointer_bit_width le32 = 32
get_arch_pointer_bit_width m68k = 32
get_arch_pointer_bit_width mips = 32
get_arch_pointer_bit_width mipsel = 32
get_arch_pointer_bit_width nvptx = 32
get_arch_pointer_bit_width ppc = 32
get_arch_pointer_bit_width ppcle = 32
get_arch_pointer_bit_width r600 = 32
get_arch_pointer_bit_width renderscript32 = 32
get_arch_pointer_bit_width riscv32 = 32
get_arch_pointer_bit_width toyriscv32 = 32
get_arch_pointer_bit_width shave = 32
get_arch_pointer_bit_width sparc = 32
get_arch_pointer_bit_width sparcel = 32
get_arch_pointer_bit_width spir = 32
get_arch_pointer_bit_width spirv32 = 32
get_arch_pointer_bit_width tce = 32
get_arch_pointer_bit_width tcele = 32
get_arch_pointer_bit_width thumb = 32
get_arch_pointer_bit_width thumbeb = 32
get_arch_pointer_bit_width wasm32 = 32
get_arch_pointer_bit_width x86 = 32
get_arch_pointer_bit_width xcore = 32
get_arch_pointer_bit_width aarch64 = 64
get_arch_pointer_bit_width aarch64_be = 64
get_arch_pointer_bit_width amdgcn = 64
get_arch_pointer_bit_width amdil64 = 64
get_arch_pointer_bit_width bpfeb = 64
get_arch_pointer_bit_width bpfel = 64
get_arch_pointer_bit_width hsail64 = 64
get_arch_pointer_bit_width le64 = 64
get_arch_pointer_bit_width mips64 = 64
get_arch_pointer_bit_width mips64el = 64
get_arch_pointer_bit_width nvptx64 = 64
get_arch_pointer_bit_width ppc64 = 64
get_arch_pointer_bit_width ppc64le = 64
get_arch_pointer_bit_width renderscript64 = 64
get_arch_pointer_bit_width riscv64 = 64
get_arch_pointer_bit_width toyriscv64 = 64
get_arch_pointer_bit_width sparcv9 = 64
get_arch_pointer_bit_width spir64 = 64
get_arch_pointer_bit_width spirv64 = 64
get_arch_pointer_bit_width systemz = 64
get_arch_pointer_bit_width ve = 64
get_arch_pointer_bit_width wasm64 = 64
get_arch_pointer_bit_width x86_64 = 64

-- Triple::isLittleEndian, of the architecture.
unfoldable pub is_little_endian : ArchType → Bool
is_little_endian aarch64 = true
is_little_endian aarch64_32 = true
is_little_endian amdgcn = true
is_little_endian amdil64 = true
is_little_endian amdil = true
is_little_endian arm = true
is_little_endian avr = true
is_little_endian bpfel = true
is_little_endian csky = true
is_little_endian hexagon = true
is_little_endian hsail64 = true
is_little_endian hsail = true
is_little_endian kalimba = true
is_little_endian le32 = true
is_little_endian le64 = true
is_little_endian mips64el = true
is_little_endian mipsel = true
is_little_endian msp430 = true
is_little_endian nvptx64 = true
is_little_endian nvptx = true
is_little_endian ppcle = true
is_little_endian ppc64le = true
is_little_endian r600 = true
is_little_endian renderscript32 = true
is_little_endian renderscript64 = true
is_little_endian riscv32 = true
is_little_endian riscv64 = true
is_little_endian toyriscv32 = true
is_little_endian toyriscv64 = true
is_little_endian shave = true
is_little_endian sparcel = true
is_little_endian spir64 = true
is_little_endian spir = true
is_little_endian spirv32 = true
is_little_endian spirv64 = true
is_little_endian tcele = true
is_little_endian thumb = true
is_little_endian ve = true
is_little_endian wasm32 = true
is_little_endian wasm64 = true
is_little_endian x86 = true
is_little_endian x86_64 = true
is_little_endian xcore = true
is_little_endian _ = false

-- Triple::isArch64Bit, isArch32Bit and isArch16Bit.
unfoldable pub is_arch_64_bit : ArchType → Bool
unfolding get_arch_pointer_bit_width
is_arch_64_bit a = get_arch_pointer_bit_width a == 64

unfoldable pub is_arch_32_bit : ArchType → Bool
unfolding get_arch_pointer_bit_width
is_arch_32_bit a = get_arch_pointer_bit_width a == 32

unfoldable pub is_arch_16_bit : ArchType → Bool
unfolding get_arch_pointer_bit_width
is_arch_16_bit a = get_arch_pointer_bit_width a == 16
