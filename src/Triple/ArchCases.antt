-- ===== src/Triple/ArchCases.antt =====
-- The cases of parseArch in llvm/lib/Support/Triple.cpp.
use toy_riscv.Base.{List, [], ◌∷◌, Pattern, exact, starts_with}
use toy_riscv.Triple.Types.{
  ArchType, arm, armeb, aarch64, aarch64_be, aarch64_32, arc, avr, csky, hexagon, m68k, mips,
  mipsel, mips64, mips64el, msp430, ppc, ppcle, ppc64, ppc64le, r600, amdgcn, riscv32, riscv64,
  toyriscv32, toyriscv64, sparc, sparcv9, sparcel, systemz, tce, tcele, thumb, thumbeb, x86, x86_64,
  xcore, nvptx, nvptx64, le32, le64, amdil, amdil64, hsail, hsail64, spir, spir64, spirv32, spirv64,
  kalimba, shave, lanai, wasm32, wasm64, renderscript32, renderscript64, ve,
}

abbrev pub arch_cases : List (Pattern × ArchType)
arch_cases =
    (exact "i386", x86)
    ∷ (exact "i486", x86)
    ∷ (exact "i586", x86)
    ∷ (exact "i686", x86)
    ∷ (exact "i786", x86)
    ∷ (exact "i886", x86)
    ∷ (exact "i986", x86)
    ∷ (exact "amd64", x86_64)
    ∷ (exact "x86_64", x86_64)
    ∷ (exact "x86_64h", x86_64)
    ∷ (exact "powerpc", ppc)
    ∷ (exact "powerpcspe", ppc)
    ∷ (exact "ppc", ppc)
    ∷ (exact "ppc32", ppc)
    ∷ (exact "powerpcle", ppcle)
    ∷ (exact "ppcle", ppcle)
    ∷ (exact "ppc32le", ppcle)
    ∷ (exact "powerpc64", ppc64)
    ∷ (exact "ppu", ppc64)
    ∷ (exact "ppc64", ppc64)
    ∷ (exact "powerpc64le", ppc64le)
    ∷ (exact "ppc64le", ppc64le)
    ∷ (exact "xscale", arm)
    ∷ (exact "xscaleeb", armeb)
    ∷ (exact "aarch64", aarch64)
    ∷ (exact "aarch64_be", aarch64_be)
    ∷ (exact "aarch64_32", aarch64_32)
    ∷ (exact "arc", arc)
    ∷ (exact "arm64", aarch64)
    ∷ (exact "arm64_32", aarch64_32)
    ∷ (exact "arm64e", aarch64)
    ∷ (exact "arm", arm)
    ∷ (exact "armeb", armeb)
    ∷ (exact "thumb", thumb)
    ∷ (exact "thumbeb", thumbeb)
    ∷ (exact "avr", avr)
    ∷ (exact "m68k", m68k)
    ∷ (exact "msp430", msp430)
    ∷ (exact "mips", mips)
    ∷ (exact "mipseb", mips)
    ∷ (exact "mipsallegrex", mips)
    ∷ (exact "mipsisa32r6", mips)
    ∷ (exact "mipsr6", mips)
    ∷ (exact "mipsel", mipsel)
    ∷ (exact "mipsallegrexel", mipsel)
    ∷ (exact "mipsisa32r6el", mipsel)
    ∷ (exact "mipsr6el", mipsel)
    ∷ (exact "mips64", mips64)
    ∷ (exact "mips64eb", mips64)
    ∷ (exact "mipsn32", mips64)
    ∷ (exact "mipsisa64r6", mips64)
    ∷ (exact "mips64r6", mips64)
    ∷ (exact "mipsn32r6", mips64)
    ∷ (exact "mips64el", mips64el)
    ∷ (exact "mipsn32el", mips64el)
    ∷ (exact "mipsisa64r6el", mips64el)
    ∷ (exact "mips64r6el", mips64el)
    ∷ (exact "mipsn32r6el", mips64el)
    ∷ (exact "r600", r600)
    ∷ (exact "amdgcn", amdgcn)
    ∷ (exact "riscv32", riscv32)
    ∷ (exact "riscv64", riscv64)
    ∷ (exact "toyriscv32", toyriscv32)
    ∷ (exact "toyriscv64", toyriscv64)
    ∷ (exact "hexagon", hexagon)
    ∷ (exact "s390x", systemz)
    ∷ (exact "systemz", systemz)
    ∷ (exact "sparc", sparc)
    ∷ (exact "sparcel", sparcel)
    ∷ (exact "sparcv9", sparcv9)
    ∷ (exact "sparc64", sparcv9)
    ∷ (exact "tce", tce)
    ∷ (exact "tcele", tcele)
    ∷ (exact "xcore", xcore)
    ∷ (exact "nvptx", nvptx)
    ∷ (exact "nvptx64", nvptx64)
    ∷ (exact "le32", le32)
    ∷ (exact "le64", le64)
    ∷ (exact "amdil", amdil)
    ∷ (exact "amdil64", amdil64)
    ∷ (exact "hsail", hsail)
    ∷ (exact "hsail64", hsail64)
    ∷ (exact "spir", spir)
    ∷ (exact "spir64", spir64)
    ∷ (exact "spirv32", spirv32)
    ∷ (exact "spirv64", spirv64)
    ∷ (starts_with "kalimba", kalimba)
    ∷ (exact "lanai", lanai)
    ∷ (exact "renderscript32", renderscript32)
    ∷ (exact "renderscript64", renderscript64)
    ∷ (exact "shave", shave)
    ∷ (exact "ve", ve)
    ∷ (exact "wasm32", wasm32)
    ∷ (exact "wasm64", wasm64)
    ∷ (exact "csky", csky)
    ∷ []
