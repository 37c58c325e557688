-- ===== src/Triple/WidthLaws.antt =====
-- The architectures that the changes of width reach: llvm/lib/Support/Triple.cpp.
use toy_riscv.Base.{◌≡◌, refl, inl, inr, ℕ, ◌⊎◌}
use toy_riscv.Triple.Types.{
  ArchType, unknown_arch, arm, armeb, aarch64, aarch64_be, aarch64_32, arc, avr, bpfel, bpfeb, csky,
  hexagon, m68k, mips, mipsel, mips64, mips64el, msp430, ppc, ppcle, ppc64, ppc64le, r600, amdgcn,
  riscv32, riscv64, toyriscv32, toyriscv64, sparc, sparcv9, sparcel, systemz, tce, tcele, thumb,
  thumbeb, x86, x86_64, xcore, nvptx, nvptx64, le32, le64, amdil, amdil64, hsail, hsail64, spir,
  spir64, spirv32, spirv64, kalimba, shave, lanai, wasm32, wasm64, renderscript32, renderscript64,
  ve,
}
use toy_riscv.Triple.Properties.{get_arch_pointer_bit_width}
use toy_riscv.Triple.Widths.{
  ArchChange, keep, impossible, change, change_with_sub, change_to_32_bit, change_to_64_bit,
}

-- A change leaves an architecture with the property.
unfoldable pub Reaches : (ArchType → Type 0) → ArchChange → ArchType → Type 0
Reaches P keep k = P k
Reaches P impossible k = ⊥
Reaches P (change m) k = P m
Reaches P (change_with_sub m) k = P m

-- The architecture is unknown, or its pointers have w bits.
unfoldable pub HasWidth : ℕ → ArchType → Type 0
HasWidth w k = (k ≡ unknown_arch) ⊎ (get_arch_pointer_bit_width k ≡ w)

pub change_to_32_bit-Reaches : (k : ArchType) → Reaches (HasWidth 32) (change_to_32_bit k) k
unfolding Reaches HasWidth change_to_32_bit get_arch_pointer_bit_width
change_to_32_bit-Reaches unknown_arch = inl refl
change_to_32_bit-Reaches arm = inr refl
change_to_32_bit-Reaches armeb = inr refl
change_to_32_bit-Reaches aarch64 = inr refl
change_to_32_bit-Reaches aarch64_be = inr refl
change_to_32_bit-Reaches aarch64_32 = inr refl
change_to_32_bit-Reaches arc = inr refl
change_to_32_bit-Reaches avr = inl refl
change_to_32_bit-Reaches bpfel = inl refl
change_to_32_bit-Reaches bpfeb = inl refl
change_to_32_bit-Reaches csky = inr refl
change_to_32_bit-Reaches hexagon = inr refl
change_to_32_bit-Reaches m68k = inr refl
change_to_32_bit-Reaches mips = inr refl
change_to_32_bit-Reaches mipsel = inr refl
change_to_32_bit-Reaches mips64 = inr refl
change_to_32_bit-Reaches mips64el = inr refl
change_to_32_bit-Reaches msp430 = inl refl
change_to_32_bit-Reaches ppc = inr refl
change_to_32_bit-Reaches ppcle = inr refl
change_to_32_bit-Reaches ppc64 = inr refl
change_to_32_bit-Reaches ppc64le = inr refl
change_to_32_bit-Reaches r600 = inr refl
change_to_32_bit-Reaches amdgcn = inl refl
change_to_32_bit-Reaches riscv32 = inr refl
change_to_32_bit-Reaches riscv64 = inr refl
change_to_32_bit-Reaches toyriscv32 = inr refl
change_to_32_bit-Reaches toyriscv64 = inr refl
change_to_32_bit-Reaches sparc = inr refl
change_to_32_bit-Reaches sparcv9 = inr refl
change_to_32_bit-Reaches sparcel = inr refl
change_to_32_bit-Reaches systemz = inl refl
change_to_32_bit-Reaches tce = inr refl
change_to_32_bit-Reaches tcele = inr refl
change_to_32_bit-Reaches thumb = inr refl
change_to_32_bit-Reaches thumbeb = inr refl
change_to_32_bit-Reaches x86 = inr refl
change_to_32_bit-Reaches x86_64 = inr refl
change_to_32_bit-Reaches xcore = inr refl
change_to_32_bit-Reaches nvptx = inr refl
change_to_32_bit-Reaches nvptx64 = inr refl
change_to_32_bit-Reaches le32 = inr refl
change_to_32_bit-Reaches le64 = inr refl
change_to_32_bit-Reaches amdil = inr refl
change_to_32_bit-Reaches amdil64 = inr refl
change_to_32_bit-Reaches hsail = inr refl
change_to_32_bit-Reaches hsail64 = inr refl
change_to_32_bit-Reaches spir = inr refl
change_to_32_bit-Reaches spir64 = inr refl
change_to_32_bit-Reaches spirv32 = inr refl
change_to_32_bit-Reaches spirv64 = inr refl
change_to_32_bit-Reaches kalimba = inr refl
change_to_32_bit-Reaches shave = inr refl
change_to_32_bit-Reaches lanai = inr refl
change_to_32_bit-Reaches wasm32 = inr refl
change_to_32_bit-Reaches wasm64 = inr refl
change_to_32_bit-Reaches renderscript32 = inr refl
change_to_32_bit-Reaches renderscript64 = inr refl
change_to_32_bit-Reaches ve = inl refl

pub change_to_64_bit-Reaches : (k : ArchType) → Reaches (HasWidth 64) (change_to_64_bit k) k
unfolding Reaches HasWidth change_to_64_bit get_arch_pointer_bit_width
change_to_64_bit-Reaches unknown_arch = inl refl
change_to_64_bit-Reaches arm = inr refl
change_to_64_bit-Reaches armeb = inr refl
change_to_64_bit-Reaches aarch64 = inr refl
change_to_64_bit-Reaches aarch64_be = inr refl
change_to_64_bit-Reaches aarch64_32 = inr refl
change_to_64_bit-Reaches arc = inl refl
change_to_64_bit-Reaches avr = inl refl
change_to_64_bit-Reaches bpfel = inr refl
change_to_64_bit-Reaches bpfeb = inr refl
change_to_64_bit-Reaches csky = inl refl
change_to_64_bit-Reaches hexagon = inl refl
change_to_64_bit-Reaches m68k = inl refl
change_to_64_bit-Reaches mips = inr refl
change_to_64_bit-Reaches mipsel = inr refl
change_to_64_bit-Reaches mips64 = inr refl
change_to_64_bit-Reaches mips64el = inr refl
change_to_64_bit-Reaches msp430 = inl refl
change_to_64_bit-Reaches ppc = inr refl
change_to_64_bit-Reaches ppcle = inr refl
change_to_64_bit-Reaches ppc64 = inr refl
change_to_64_bit-Reaches ppc64le = inr refl
change_to_64_bit-Reaches r600 = inl refl
change_to_64_bit-Reaches amdgcn = inr refl
change_to_64_bit-Reaches riscv32 = inr refl
change_to_64_bit-Reaches riscv64 = inr refl
change_to_64_bit-Reaches toyriscv32 = inr refl
change_to_64_bit-Reaches toyriscv64 = inr refl
change_to_64_bit-Reaches sparc = inr refl
change_to_64_bit-Reaches sparcv9 = inr refl
change_to_64_bit-Reaches sparcel = inl refl
change_to_64_bit-Reaches systemz = inr refl
change_to_64_bit-Reaches tce = inl refl
change_to_64_bit-Reaches tcele = inl refl
change_to_64_bit-Reaches thumb = inr refl
change_to_64_bit-Reaches thumbeb = inr refl
change_to_64_bit-Reaches x86 = inr refl
change_to_64_bit-Reaches x86_64 = inr refl
change_to_64_bit-Reaches xcore = inl refl
change_to_64_bit-Reaches nvptx = inr refl
change_to_64_bit-Reaches nvptx64 = inr refl
change_to_64_bit-Reaches le32 = inr refl
change_to_64_bit-Reaches le64 = inr refl
change_to_64_bit-Reaches amdil = inr refl
change_to_64_bit-Reaches amdil64 = inr refl
change_to_64_bit-Reaches hsail = inr refl
change_to_64_bit-Reaches hsail64 = inr refl
change_to_64_bit-Reaches spir = inr refl
change_to_64_bit-Reaches spir64 = inr refl
change_to_64_bit-Reaches spirv32 = inr refl
change_to_64_bit-Reaches spirv64 = inr refl
change_to_64_bit-Reaches kalimba = inl refl
change_to_64_bit-Reaches shave = inl refl
change_to_64_bit-Reaches lanai = inl refl
change_to_64_bit-Reaches wasm32 = inr refl
change_to_64_bit-Reaches wasm64 = inr refl
change_to_64_bit-Reaches renderscript32 = inr refl
change_to_64_bit-Reaches renderscript64 = inr refl
change_to_64_bit-Reaches ve = inr refl
