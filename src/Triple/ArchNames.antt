-- ===== src/Triple/ArchNames.antt =====
-- The names of architectures: llvm/lib/Support/Triple.cpp.
use toy_riscv.Base.{[], Text, codes}
use toy_riscv.Triple.Types.{
  ArchType, unknown_arch, arm, armeb, aarch64, aarch64_be, aarch64_32, arc, avr, bpfel, bpfeb, csky,
  hexagon, m68k, mips, mipsel, mips64, mips64el, msp430, ppc, ppcle, ppc64, ppc64le, r600, amdgcn,
  riscv32, riscv64, toyriscv32, toyriscv64, sparc, sparcv9, sparcel, systemz, tce, tcele, thumb,
  thumbeb, x86, x86_64, xcore, nvptx, nvptx64, le32, le64, amdil, amdil64, hsail, hsail64, spir,
  spir64, spirv32, spirv64, kalimba, shave, lanai, wasm32, wasm64, renderscript32, renderscript64,
  ve,
}

-- Triple::getArchTypeName
unfoldable pub get_arch_type_name : ArchType → Text
get_arch_type_name unknown_arch = codes "unknown"
get_arch_type_name aarch64 = codes "aarch64"
get_arch_type_name aarch64_32 = codes "aarch64_32"
get_arch_type_name aarch64_be = codes "aarch64_be"
get_arch_type_name amdgcn = codes "amdgcn"
get_arch_type_name amdil64 = codes "amdil64"
get_arch_type_name amdil = codes "amdil"
get_arch_type_name arc = codes "arc"
get_arch_type_name arm = codes "arm"
get_arch_type_name armeb = codes "armeb"
get_arch_type_name avr = codes "avr"
get_arch_type_name bpfeb = codes "bpfeb"
get_arch_type_name bpfel = codes "bpfel"
get_arch_type_name csky = codes "csky"
get_arch_type_name hexagon = codes "hexagon"
get_arch_type_name hsail64 = codes "hsail64"
get_arch_type_name hsail = codes "hsail"
get_arch_type_name kalimba = codes "kalimba"
get_arch_type_name lanai = codes "lanai"
get_arch_type_name le32 = codes "le32"
get_arch_type_name le64 = codes "le64"
get_arch_type_name m68k = codes "m68k"
get_arch_type_name mips64 = codes "mips64"
get_arch_type_name mips64el = codes "mips64el"
get_arch_type_name mips = codes "mips"
get_arch_type_name mipsel = codes "mipsel"
get_arch_type_name msp430 = codes "msp430"
get_arch_type_name nvptx64 = codes "nvptx64"
get_arch_type_name nvptx = codes "nvptx"
get_arch_type_name ppc64 = codes "powerpc64"
get_arch_type_name ppc64le = codes "powerpc64le"
get_arch_type_name ppc = codes "powerpc"
get_arch_type_name ppcle = codes "powerpcle"
get_arch_type_name r600 = codes "r600"
get_arch_type_name renderscript32 = codes "renderscript32"
get_arch_type_name renderscript64 = codes "renderscript64"
get_arch_type_name riscv32 = codes "riscv32"
get_arch_type_name riscv64 = codes "riscv64"
get_arch_type_name toyriscv32 = codes "toyriscv32"
get_arch_type_name toyriscv64 = codes "toyriscv64"
get_arch_type_name shave = codes "shave"
get_arch_type_name sparc = codes "sparc"
get_arch_type_name sparcel = codes "sparcel"
get_arch_type_name sparcv9 = codes "sparcv9"
get_arch_type_name spir64 = codes "spir64"
get_arch_type_name spir = codes "spir"
get_arch_type_name spirv32 = codes "spirv32"
get_arch_type_name spirv64 = codes "spirv64"
get_arch_type_name systemz = codes "s390x"
get_arch_type_name tce = codes "tce"
get_arch_type_name tcele = codes "tcele"
get_arch_type_name thumb = codes "thumb"
get_arch_type_name thumbeb = codes "thumbeb"
get_arch_type_name ve = codes "ve"
get_arch_type_name wasm32 = codes "wasm32"
get_arch_type_name wasm64 = codes "wasm64"
get_arch_type_name x86 = codes "i386"
get_arch_type_name x86_64 = codes "x86_64"
get_arch_type_name xcore = codes "xcore"

-- Triple::getArchTypePrefix; the default is the empty text.
unfoldable pub get_arch_type_prefix : ArchType → Text
get_arch_type_prefix aarch64 = codes "aarch64"
get_arch_type_prefix aarch64_be = codes "aarch64"
get_arch_type_prefix aarch64_32 = codes "aarch64"
get_arch_type_prefix arc = codes "arc"
get_arch_type_prefix arm = codes "arm"
get_arch_type_prefix armeb = codes "arm"
get_arch_type_prefix thumb = codes "arm"
get_arch_type_prefix thumbeb = codes "arm"
get_arch_type_prefix avr = codes "avr"
get_arch_type_prefix ppc64 = codes "ppc"
get_arch_type_prefix ppc64le = codes "ppc"
get_arch_type_prefix ppc = codes "ppc"
get_arch_type_prefix ppcle = codes "ppc"
get_arch_type_prefix m68k = codes "m68k"
get_arch_type_prefix mips = codes "mips"
get_arch_type_prefix mipsel = codes "mips"
get_arch_type_prefix mips64 = codes "mips"
get_arch_type_prefix mips64el = codes "mips"
get_arch_type_prefix hexagon = codes "hexagon"
get_arch_type_prefix amdgcn = codes "amdgcn"
get_arch_type_prefix r600 = codes "r600"
get_arch_type_prefix bpfel = codes "bpf"
get_arch_type_prefix bpfeb = codes "bpf"
get_arch_type_prefix sparcv9 = codes "sparc"
get_arch_type_prefix sparcel = codes "sparc"
get_arch_type_prefix sparc = codes "sparc"
get_arch_type_prefix systemz = codes "s390"
get_arch_type_prefix x86 = codes "x86"
get_arch_type_prefix x86_64 = codes "x86"
get_arch_type_prefix xcore = codes "xcore"
get_arch_type_prefix nvptx = codes "nvvm"
get_arch_type_prefix nvptx64 = codes "nvvm"
get_arch_type_prefix le32 = codes "le32"
get_arch_type_prefix le64 = codes "le64"
get_arch_type_prefix amdil = codes "amdil"
get_arch_type_prefix amdil64 = codes "amdil"
get_arch_type_prefix hsail = codes "hsail"
get_arch_type_prefix hsail64 = codes "hsail"
get_arch_type_prefix spir = codes "spir"
get_arch_type_prefix spir64 = codes "spir"
get_arch_type_prefix spirv32 = codes "spirv"
get_arch_type_prefix spirv64 = codes "spirv"
get_arch_type_prefix kalimba = codes "kalimba"
get_arch_type_prefix lanai = codes "lanai"
get_arch_type_prefix shave = codes "shave"
get_arch_type_prefix wasm32 = codes "wasm"
get_arch_type_prefix wasm64 = codes "wasm"
get_arch_type_prefix riscv32 = codes "riscv"
get_arch_type_prefix riscv64 = codes "riscv"
get_arch_type_prefix toyriscv32 = codes "toyriscv"
get_arch_type_prefix toyriscv64 = codes "toyriscv"
get_arch_type_prefix ve = codes "ve"
get_arch_type_prefix csky = codes "csky"
get_arch_type_prefix _ = []
