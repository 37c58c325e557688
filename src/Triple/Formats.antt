-- ===== src/Triple/Formats.antt =====
-- The default object format of a triple: llvm/lib/Support/Triple.cpp.
use toy_riscv.Base.{Bool, true, false, if◌then◌else◌}
use toy_riscv.Triple.Types.{
  ArchType, unknown_arch, arm, armeb, aarch64, aarch64_be, aarch64_32, arc, avr, bpfel, bpfeb, csky,
  hexagon, m68k, mips, mipsel, mips64, mips64el, msp430, ppc, ppcle, ppc64, ppc64le, r600, amdgcn,
  riscv32, riscv64, toyriscv32, toyriscv64, sparc, sparcv9, sparcel, systemz, tce, tcele, thumb,
  thumbeb, x86, x86_64, xcore, nvptx, nvptx64, le32, le64, amdil, amdil64, hsail, hsail64, spir,
  spir64, spirv32, spirv64, kalimba, shave, lanai, wasm32, wasm64, renderscript32, renderscript64,
  ve, OsType, darwin, ios, macosx, win32, zos, aix, tvos, watchos, ObjectFormatType,
  unknown_object_format, coff, elf, goff, macho, wasm, xcoff,
}

-- Triple::isOSDarwin: macOS, iOS, tvOS or watchOS.
unfoldable pub is_os_darwin : OsType → Bool
is_os_darwin darwin = true
is_os_darwin macosx = true
is_os_darwin ios = true
is_os_darwin tvos = true
is_os_darwin watchos = true
is_os_darwin _ = false

-- Triple::isOSWindows
unfoldable pub is_os_windows : OsType → Bool
is_os_windows win32 = true
is_os_windows _ = false

abbrev pub object_format_of_os : OsType → ObjectFormatType
object_format_of_os o = if is_os_darwin o then macho else if is_os_windows o then coff else elf

abbrev pub if_aix : OsType → ObjectFormatType
if_aix aix = xcoff
if_aix _ = elf

abbrev pub if_zos : OsType → ObjectFormatType
if_zos zos = goff
if_zos _ = elf

-- getDefaultFormat, of the architecture and the operating system of a triple.
unfoldable pub get_default_format : ArchType → OsType → ObjectFormatType
get_default_format unknown_arch o = object_format_of_os o
get_default_format aarch64 o = object_format_of_os o
get_default_format aarch64_32 o = object_format_of_os o
get_default_format arm o = object_format_of_os o
get_default_format thumb o = object_format_of_os o
get_default_format x86 o = object_format_of_os o
get_default_format x86_64 o = object_format_of_os o
get_default_format aarch64_be o = elf
get_default_format amdgcn o = elf
get_default_format amdil64 o = elf
get_default_format amdil o = elf
get_default_format arc o = elf
get_default_format armeb o = elf
get_default_format avr o = elf
get_default_format bpfeb o = elf
get_default_format bpfel o = elf
get_default_format csky o = elf
get_default_format hexagon o = elf
get_default_format hsail64 o = elf
get_default_format hsail o = elf
get_default_format kalimba o = elf
get_default_format lanai o = elf
get_default_format le32 o = elf
get_default_format le64 o = elf
get_default_format m68k o = elf
get_default_format mips64 o = elf
get_default_format mips64el o = elf
get_default_format mips o = elf
get_default_format mipsel o = elf
get_default_format msp430 o = elf
get_default_format nvptx64 o = elf
get_default_format nvptx o = elf
get_default_format ppc64le o = elf
get_default_format ppcle o = elf
get_default_format r600 o = elf
get_default_format renderscript32 o = elf
get_default_format renderscript64 o = elf
get_default_format riscv32 o = elf
get_default_format riscv64 o = elf
get_default_format toyriscv32 o = elf
get_default_format toyriscv64 o = elf
get_default_format shave o = elf
get_default_format sparc o = elf
get_default_format sparcel o = elf
get_default_format sparcv9 o = elf
get_default_format spir64 o = elf
get_default_format spir o = elf
get_default_format tce o = elf
get_default_format tcele o = elf
get_default_format thumbeb o = elf
get_default_format ve o = elf
get_default_format xcore o = elf
get_default_format ppc64 o = if_aix o
get_default_format ppc o = if_aix o
get_default_format systemz o = if_zos o
get_default_format wasm32 o = wasm
get_default_format wasm64 o = wasm
get_default_format spirv32 o = unknown_object_format
get_default_format spirv64 o = unknown_object_format
