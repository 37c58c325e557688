-- ===== src/Triple/EndianLaws.antt =====
-- The architectures that the changes of byte order reach: llvm/lib/Support/Triple.cpp.
use toy_riscv.Base.{◌≡◌, refl, inl, inr, ◌⊎◌, true, false}
use toy_riscv.Triple.Types.{
  ArchType, unknown_arch, arm, armeb, aarch64, aarch64_be, aarch64_32, arc, avr, bpfel, bpfeb, csky,
  hexagon, m68k, mips, mipsel, mips64, mips64el, msp430, ppc, ppcle, ppc64, ppc64le, r600, amdgcn,
  riscv32, riscv64, toyriscv32, toyriscv64, sparc, sparcv9, sparcel, systemz, tce, tcele, thumb,
  thumbeb, x86, x86_64, xcore, nvptx, nvptx64, le32, le64, amdil, amdil64, hsail, hsail64, spir,
  spir64, spirv32, spirv64, kalimba, shave, lanai, wasm32, wasm64, renderscript32, renderscript64,
  ve,
}
use toy_riscv.Triple.Properties.{is_little_endian}
use toy_riscv.Triple.Endians.{change_to_big_endian, change_to_little_endian}
use toy_riscv.Triple.WidthLaws.{Reaches}

-- The byte order is big, which an unknown architecture counts as.
unfoldable pub IsBig : ArchType → Type 0
IsBig k = is_little_endian k ≡ false

-- The architecture is unknown, or its byte order is little.
unfoldable pub IsLittle : ArchType → Type 0
IsLittle k = (k ≡ unknown_arch) ⊎ (is_little_endian k ≡ true)

pub change_to_big_endian-Reaches :
    (k : ArchType)
    → is_little_endian k ≡ true
    → (k ≡ aarch64_32) ⊎ Reaches IsBig (change_to_big_endian k) k
unfolding Reaches IsBig change_to_big_endian is_little_endian
change_to_big_endian-Reaches unknown_arch h = cc
change_to_big_endian-Reaches arm h = inr refl
change_to_big_endian-Reaches armeb h = cc
change_to_big_endian-Reaches aarch64 h = inr refl
change_to_big_endian-Reaches aarch64_be h = cc
change_to_big_endian-Reaches aarch64_32 h = inl refl
change_to_big_endian-Reaches arc h = cc
change_to_big_endian-Reaches avr h = inr refl
change_to_big_endian-Reaches bpfel h = inr refl
change_to_big_endian-Reaches bpfeb h = cc
change_to_big_endian-Reaches csky h = inr refl
change_to_big_endian-Reaches hexagon h = inr refl
change_to_big_endian-Reaches m68k h = cc
change_to_big_endian-Reaches mips h = cc
change_to_big_endian-Reaches mipsel h = inr refl
change_to_big_endian-Reaches mips64 h = cc
change_to_big_endian-Reaches mips64el h = inr refl
change_to_big_endian-Reaches msp430 h = inr refl
change_to_big_endian-Reaches ppc h = cc
change_to_big_endian-Reaches ppcle h = inr refl
change_to_big_endian-Reaches ppc64 h = cc
change_to_big_endian-Reaches ppc64le h = inr refl
change_to_big_endian-Reaches r600 h = inr refl
change_to_big_endian-Reaches amdgcn h = inr refl
change_to_big_endian-Reaches riscv32 h = inr refl
change_to_big_endian-Reaches riscv64 h = inr refl
change_to_big_endian-Reaches toyriscv32 h = inr refl
change_to_big_endian-Reaches toyriscv64 h = inr refl
change_to_big_endian-Reaches sparc h = cc
change_to_big_endian-Reaches sparcv9 h = cc
change_to_big_endian-Reaches sparcel h = inr refl
change_to_big_endian-Reaches systemz h = cc
change_to_big_endian-Reaches tce h = cc
change_to_big_endian-Reaches tcele h = inr refl
change_to_big_endian-Reaches thumb h = inr refl
change_to_big_endian-Reaches thumbeb h = cc
change_to_big_endian-Reaches x86 h = inr refl
change_to_big_endian-Reaches x86_64 h = inr refl
change_to_big_endian-Reaches xcore h = inr refl
change_to_big_endian-Reaches nvptx h = inr refl
change_to_big_endian-Reaches nvptx64 h = inr refl
change_to_big_endian-Reaches le32 h = inr refl
change_to_big_endian-Reaches le64 h = inr refl
change_to_big_endian-Reaches amdil h = inr refl
change_to_big_endian-Reaches amdil64 h = inr refl
change_to_big_endian-Reaches hsail h = inr refl
change_to_big_endian-Reaches hsail64 h = inr refl
change_to_big_endian-Reaches spir h = inr refl
change_to_big_endian-Reaches spir64 h = inr refl
change_to_big_endian-Reaches spirv32 h = inr refl
change_to_big_endian-Reaches spirv64 h = inr refl
change_to_big_endian-Reaches kalimba h = inr refl
change_to_big_endian-Reaches shave h = inr refl
change_to_big_endian-Reaches lanai h = cc
change_to_big_endian-Reaches wasm32 h = inr refl
change_to_big_endian-Reaches wasm64 h = inr refl
change_to_big_endian-Reaches renderscript32 h = inr refl
change_to_big_endian-Reaches renderscript64 h = inr refl
change_to_big_endian-Reaches ve h = inr refl

pub change_to_little_endian-Reaches :
    (k : ArchType)
    → is_little_endian k ≡ false
    → (k ≡ arc) ⊎ Reaches IsLittle (change_to_little_endian k) k
unfolding Reaches IsLittle change_to_little_endian is_little_endian
change_to_little_endian-Reaches unknown_arch h = inr (inl refl)
change_to_little_endian-Reaches arm h = cc
change_to_little_endian-Reaches armeb h = inr (inl refl)
change_to_little_endian-Reaches aarch64 h = cc
change_to_little_endian-Reaches aarch64_be h = inr (inr refl)
change_to_little_endian-Reaches aarch64_32 h = cc
change_to_little_endian-Reaches arc h = inl refl
change_to_little_endian-Reaches avr h = cc
change_to_little_endian-Reaches bpfel h = cc
change_to_little_endian-Reaches bpfeb h = inr (inr refl)
change_to_little_endian-Reaches csky h = cc
change_to_little_endian-Reaches hexagon h = cc
change_to_little_endian-Reaches m68k h = inr (inl refl)
change_to_little_endian-Reaches mips h = inr (inr refl)
change_to_little_endian-Reaches mipsel h = cc
change_to_little_endian-Reaches mips64 h = inr (inr refl)
change_to_little_endian-Reaches mips64el h = cc
change_to_little_endian-Reaches msp430 h = cc
change_to_little_endian-Reaches ppc h = inr (inr refl)
change_to_little_endian-Reaches ppcle h = cc
change_to_little_endian-Reaches ppc64 h = inr (inr refl)
change_to_little_endian-Reaches ppc64le h = cc
change_to_little_endian-Reaches r600 h = cc
change_to_little_endian-Reaches amdgcn h = cc
change_to_little_endian-Reaches riscv32 h = cc
change_to_little_endian-Reaches riscv64 h = cc
change_to_little_endian-Reaches toyriscv32 h = cc
change_to_little_endian-Reaches toyriscv64 h = cc
change_to_little_endian-Reaches sparc h = inr (inr refl)
change_to_little_endian-Reaches sparcv9 h = inr (inl refl)
change_to_little_endian-Reaches sparcel h = cc
change_to_little_endian-Reaches systemz h = inr (inl refl)
change_to_little_endian-Reaches tce h = inr (inr refl)
change_to_little_endian-Reaches tcele h = cc
change_to_little_endian-Reaches thumb h = cc
change_to_little_endian-Reaches thumbeb h = inr (inl refl)
change_to_little_endian-Reaches x86 h = cc
change_to_little_endian-Reaches x86_64 h = cc
change_to_little_endian-Reaches xcore h = cc
change_to_little_endian-Reaches nvptx h = cc
change_to_little_endian-Reaches nvptx64 h = cc
change_to_little_endian-Reaches le32 h = cc
change_to_little_endian-Reaches le64 h = cc
change_to_little_endian-Reaches amdil h = cc
change_to_little_endian-Reaches amdil64 h = cc
change_to_little_endian-Reaches hsail h = cc
change_to_little_endian-Reaches hsail64 h = cc
change_to_little_endian-Reaches spir h = cc
change_to_little_endian-Reaches spir64 h = cc
change_to_little_endian-Reaches spirv32 h = cc
change_to_little_endian-Reaches spirv64 h = cc
change_to_little_endian-Reaches kalimba h = cc
change_to_little_endian-Reaches shave h = cc
change_to_little_endian-Reaches lanai h = inr (inl refl)
change_to_little_endian-Reaches wasm32 h = cc
change_to_little_endian-Reaches wasm64 h = cc
change_to_little_endian-Reaches renderscript32 h = cc
change_to_little_endian-Reaches renderscript64 h = cc
change_to_little_endian-Reaches ve h = cc
