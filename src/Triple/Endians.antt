-- ===== src/Triple/Endians.antt =====
-- The switches that change the byte order of an architecture: llvm/lib/Support/Triple.cpp.
use toy_riscv.Triple.Types.{
  ArchType, unknown_arch, arm, armeb, aarch64, aarch64_be, avr, bpfel, bpfeb, csky, hexagon, m68k,
  mips, mipsel, mips64, mips64el, msp430, ppc, ppcle, ppc64, ppc64le, r600, amdgcn, riscv32,
  riscv64, toyriscv32, toyriscv64, sparc, sparcv9, sparcel, systemz, tce, tcele, thumb, thumbeb,
  x86, x86_64, xcore, nvptx, nvptx64, le32, le64, amdil, amdil64, hsail, hsail64, spir, spir64,
  spirv32, spirv64, kalimba, shave, lanai, wasm32, wasm64, renderscript32, renderscript64, ve,
}
use toy_riscv.Triple.Widths.{ArchChange, impossible, change, change_with_sub}

-- The switch of Triple::getBigEndianArchVariant.
unfoldable pub change_to_big_endian : ArchType → ArchChange
change_to_big_endian unknown_arch = change unknown_arch
change_to_big_endian amdgcn = change unknown_arch
change_to_big_endian amdil64 = change unknown_arch
change_to_big_endian amdil = change unknown_arch
change_to_big_endian avr = change unknown_arch
change_to_big_endian hexagon = change unknown_arch
change_to_big_endian hsail64 = change unknown_arch
change_to_big_endian hsail = change unknown_arch
change_to_big_endian kalimba = change unknown_arch
change_to_big_endian le32 = change unknown_arch
change_to_big_endian le64 = change unknown_arch
change_to_big_endian msp430 = change unknown_arch
change_to_big_endian nvptx64 = change unknown_arch
change_to_big_endian nvptx = change unknown_arch
change_to_big_endian r600 = change unknown_arch
change_to_big_endian renderscript32 = change unknown_arch
change_to_big_endian renderscript64 = change unknown_arch
change_to_big_endian riscv32 = change unknown_arch
change_to_big_endian riscv64 = change unknown_arch
change_to_big_endian toyriscv32 = change unknown_arch
change_to_big_endian toyriscv64 = change unknown_arch
change_to_big_endian shave = change unknown_arch
change_to_big_endian spir64 = change unknown_arch
change_to_big_endian spir = change unknown_arch
change_to_big_endian spirv32 = change unknown_arch
change_to_big_endian spirv64 = change unknown_arch
change_to_big_endian wasm32 = change unknown_arch
change_to_big_endian wasm64 = change unknown_arch
change_to_big_endian x86 = change unknown_arch
change_to_big_endian x86_64 = change unknown_arch
change_to_big_endian xcore = change unknown_arch
change_to_big_endian ve = change unknown_arch
change_to_big_endian csky = change unknown_arch
change_to_big_endian arm = change unknown_arch
change_to_big_endian thumb = change unknown_arch
change_to_big_endian aarch64 = change aarch64_be
change_to_big_endian bpfel = change bpfeb
change_to_big_endian mips64el = change_with_sub mips64
change_to_big_endian mipsel = change_with_sub mips
change_to_big_endian ppcle = change ppc
change_to_big_endian ppc64le = change ppc64
change_to_big_endian sparcel = change sparc
change_to_big_endian tcele = change tce
change_to_big_endian _ = impossible

-- The switch of Triple::getLittleEndianArchVariant.
unfoldable pub change_to_little_endian : ArchType → ArchChange
change_to_little_endian unknown_arch = change unknown_arch
change_to_little_endian lanai = change unknown_arch
change_to_little_endian sparcv9 = change unknown_arch
change_to_little_endian systemz = change unknown_arch
change_to_little_endian m68k = change unknown_arch
change_to_little_endian armeb = change unknown_arch
change_to_little_endian thumbeb = change unknown_arch
change_to_little_endian aarch64_be = change aarch64
change_to_little_endian bpfeb = change bpfel
change_to_little_endian mips64 = change_with_sub mips64el
change_to_little_endian mips = change_with_sub mipsel
change_to_little_endian ppc = change ppcle
change_to_little_endian ppc64 = change ppc64le
change_to_little_endian sparc = change sparcel
change_to_little_endian tce = change tcele
change_to_little_endian _ = impossible
