-- ===== src/Triple/LlvmNames.antt =====
-- Triple::getArchTypeForLLVMName of llvm/lib/Support/Triple.cpp.
use toy_riscv.Base.{
  List, [], ◌∷◌, Text, Pattern, exact, starts_with, string_switch, Bool, true, false, if◌then◌else◌,
  ◌≡◌, refl,
}
use toy_riscv.Triple.Types.{
  ArchType, aarch64, aarch64_32, aarch64_be, amdgcn, amdil, amdil64, arc, arm, armeb, avr, bpfeb,
  bpfel, csky, hexagon, hsail, hsail64, kalimba, lanai, le32, le64, m68k, mips, mips64, mips64el,
  mipsel, msp430, nvptx, nvptx64, ppc, ppc64, ppc64le, ppcle, r600, renderscript32, renderscript64,
  riscv32, riscv64, shave, sparc, sparcel, sparcv9, spir, spir64, spirv32, spirv64, systemz, tce,
  tcele, thumb, thumbeb, toyriscv32, toyriscv64, unknown_arch, ve, wasm32, wasm64, x86, x86_64,
  xcore,
}
use toy_riscv.Triple.Host.{Host}
use toy_riscv.Triple.ArchNames.{get_arch_type_name}
use toy_riscv.Triple.ParseArch.{parse_bpf_arch}

-- The cases of the switch, where the architecture of a name of BPF is given.
abbrev pub llvm_name_cases : ArchType → List (Pattern × ArchType)
llvm_name_cases bpf =
    (exact "aarch64", aarch64)
    ∷ (exact "aarch64_be", aarch64_be)
    ∷ (exact "aarch64_32", aarch64_32)
    ∷ (exact "arc", arc)
    ∷ (exact "arm64", aarch64)
    ∷ (exact "arm64_32", aarch64_32)
    ∷ (exact "arm", arm)
    ∷ (exact "armeb", armeb)
    ∷ (exact "avr", avr)
    ∷ (starts_with "bpf", bpf)
    ∷ (exact "m68k", m68k)
    ∷ (exact "mips", mips)
    ∷ (exact "mipsel", mipsel)
    ∷ (exact "mips64", mips64)
    ∷ (exact "mips64el", mips64el)
    ∷ (exact "msp430", msp430)
    ∷ (exact "ppc64", ppc64)
    ∷ (exact "ppc32", ppc)
    ∷ (exact "ppc", ppc)
    ∷ (exact "ppc32le", ppcle)
    ∷ (exact "ppcle", ppcle)
    ∷ (exact "ppc64le", ppc64le)
    ∷ (exact "r600", r600)
    ∷ (exact "amdgcn", amdgcn)
    ∷ (exact "riscv32", riscv32)
    ∷ (exact "riscv64", riscv64)
    ∷ (exact "toyriscv32", toyriscv32)
    ∷ (exact "toyriscv64", toyriscv64)
    ∷ (exact "hexagon", hexagon)
    ∷ (exact "sparc", sparc)
    ∷ (exact "sparcel", sparcel)
    ∷ (exact "sparcv9", sparcv9)
    ∷ (exact "systemz", systemz)
    ∷ (exact "tce", tce)
    ∷ (exact "tcele", tcele)
    ∷ (exact "thumb", thumb)
    ∷ (exact "thumbeb", thumbeb)
    ∷ (exact "x86", x86)
    ∷ (exact "x86-64", x86_64)
    ∷ (exact "xcore", xcore)
    ∷ (exact "nvptx", nvptx)
    ∷ (exact "nvptx64", nvptx64)
    ∷ (exact "le32", le32)
    ∷ (exact "le64", le64)
    ∷ (exact "amdil", amdil)
    ∷ (exact "amdil64", amdil64)
    ∷ (exact "hsail", hsail)
    ∷ (exact "hsail64", hsail64)
    ∷ (exact "spir", spir)
    ∷ (exact "spir64", spir64)
    ∷ (exact "spirv32", spirv32)
    ∷ (exact "spirv64", spirv64)
    ∷ (exact "kalimba", kalimba)
    ∷ (exact "lanai", lanai)
    ∷ (exact "shave", shave)
    ∷ (exact "wasm32", wasm32)
    ∷ (exact "wasm64", wasm64)
    ∷ (exact "renderscript32", renderscript32)
    ∷ (exact "renderscript64", renderscript64)
    ∷ (exact "ve", ve)
    ∷ (exact "csky", csky)
    ∷ []

unfoldable pub get_arch_type_for_llvm_name : Host → Text → ArchType
get_arch_type_for_llvm_name h name =
    string_switch (llvm_name_cases (parse_bpf_arch h name)) unknown_arch name

abbrev pub has_other_llvm_name : ArchType → Bool
has_other_llvm_name ppc64 = true
has_other_llvm_name ppc64le = true
has_other_llvm_name ppc = true
has_other_llvm_name ppcle = true
has_other_llvm_name systemz = true
has_other_llvm_name x86 = true
has_other_llvm_name x86_64 = true
has_other_llvm_name _ = false

-- The canonical name of an architecture, given as an LLVM name, names the same architecture, except for the
-- four of PowerPC, SystemZ and the two of x86, whose canonical names are not LLVM names and give the unknown
-- architecture.
get_arch_type_for_llvm_name-get_arch_type_name :
    (h : Host) (a : ArchType)
    → get_arch_type_for_llvm_name h (get_arch_type_name a)
      ≡ (if has_other_llvm_name a then unknown_arch else a)
unfolding get_arch_type_for_llvm_name get_arch_type_name parse_bpf_arch
get_arch_type_for_llvm_name-get_arch_type_name h unknown_arch = refl
get_arch_type_for_llvm_name-get_arch_type_name h arm = refl
get_arch_type_for_llvm_name-get_arch_type_name h armeb = refl
get_arch_type_for_llvm_name-get_arch_type_name h aarch64 = refl
get_arch_type_for_llvm_name-get_arch_type_name h aarch64_be = refl
get_arch_type_for_llvm_name-get_arch_type_name h aarch64_32 = refl
get_arch_type_for_llvm_name-get_arch_type_name h arc = refl
get_arch_type_for_llvm_name-get_arch_type_name h avr = refl
get_arch_type_for_llvm_name-get_arch_type_name h bpfel = refl
get_arch_type_for_llvm_name-get_arch_type_name h bpfeb = refl
get_arch_type_for_llvm_name-get_arch_type_name h csky = refl
get_arch_type_for_llvm_name-get_arch_type_name h hexagon = refl
get_arch_type_for_llvm_name-get_arch_type_name h m68k = refl
get_arch_type_for_llvm_name-get_arch_type_name h mips = refl
get_arch_type_for_llvm_name-get_arch_type_name h mipsel = refl
get_arch_type_for_llvm_name-get_arch_type_name h mips64 = refl
get_arch_type_for_llvm_name-get_arch_type_name h mips64el = refl
get_arch_type_for_llvm_name-get_arch_type_name h msp430 = refl
get_arch_type_for_llvm_name-get_arch_type_name h ppc = refl
get_arch_type_for_llvm_name-get_arch_type_name h ppcle = refl
get_arch_type_for_llvm_name-get_arch_type_name h ppc64 = refl
get_arch_type_for_llvm_name-get_arch_type_name h ppc64le = refl
get_arch_type_for_llvm_name-get_arch_type_name h r600 = refl
get_arch_type_for_llvm_name-get_arch_type_name h amdgcn = refl
get_arch_type_for_llvm_name-get_arch_type_name h riscv32 = refl
get_arch_type_for_llvm_name-get_arch_type_name h riscv64 = refl
get_arch_type_for_llvm_name-get_arch_type_name h toyriscv32 = refl
get_arch_type_for_llvm_name-get_arch_type_name h toyriscv64 = refl
get_arch_type_for_llvm_name-get_arch_type_name h sparc = refl
get_arch_type_for_llvm_name-get_arch_type_name h sparcv9 = refl
get_arch_type_for_llvm_name-get_arch_type_name h sparcel = refl
get_arch_type_for_llvm_name-get_arch_type_name h systemz = refl
get_arch_type_for_llvm_name-get_arch_type_name h tce = refl
get_arch_type_for_llvm_name-get_arch_type_name h tcele = refl
get_arch_type_for_llvm_name-get_arch_type_name h thumb = refl
get_arch_type_for_llvm_name-get_arch_type_name h thumbeb = refl
get_arch_type_for_llvm_name-get_arch_type_name h x86 = refl
get_arch_type_for_llvm_name-get_arch_type_name h x86_64 = refl
get_arch_type_for_llvm_name-get_arch_type_name h xcore = refl
get_arch_type_for_llvm_name-get_arch_type_name h nvptx = refl
get_arch_type_for_llvm_name-get_arch_type_name h nvptx64 = refl
get_arch_type_for_llvm_name-get_arch_type_name h le32 = refl
get_arch_type_for_llvm_name-get_arch_type_name h le64 = refl
get_arch_type_for_llvm_name-get_arch_type_name h amdil = refl
get_arch_type_for_llvm_name-get_arch_type_name h amdil64 = refl
get_arch_type_for_llvm_name-get_arch_type_name h hsail = refl
get_arch_type_for_llvm_name-get_arch_type_name h hsail64 = refl
get_arch_type_for_llvm_name-get_arch_type_name h spir = refl
get_arch_type_for_llvm_name-get_arch_type_name h spir64 = refl
get_arch_type_for_llvm_name-get_arch_type_name h spirv32 = refl
get_arch_type_for_llvm_name-get_arch_type_name h spirv64 = refl
get_arch_type_for_llvm_name-get_arch_type_name h kalimba = refl
get_arch_type_for_llvm_name-get_arch_type_name h shave = refl
get_arch_type_for_llvm_name-get_arch_type_name h lanai = refl
get_arch_type_for_llvm_name-get_arch_type_name h wasm32 = refl
get_arch_type_for_llvm_name-get_arch_type_name h wasm64 = refl
get_arch_type_for_llvm_name-get_arch_type_name h renderscript32 = refl
get_arch_type_for_llvm_name-get_arch_type_name h renderscript64 = refl
get_arch_type_for_llvm_name-get_arch_type_name h ve = refl
