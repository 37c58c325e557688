-- ===== src/Triple/Names.antt =====
-- The names of vendors, operating systems, environments and object formats: Triple.cpp.
use toy_riscv.Base.{Text, codes}
use toy_riscv.Triple.Types.{
  VendorType, unknown_vendor, apple, pc, scei, freescale, ibm, imagination_technologies,
  mips_technologies, nvidia, csr, myriad, amd, mesa, suse, open_embedded, OsType, unknown_os,
  ananas, cloudabi, darwin, dragonfly, freebsd, fuchsia, ios, kfreebsd, linux, lv2, macosx, netbsd,
  openbsd, solaris, win32, zos, haiku, minix, rtems, nacl, aix, cuda, nvcl, amdhsa, ps4, elfiamcu,
  tvos, watchos, mesa3d, contiki, amdpal, hermit_core, hurd, wasi, emscripten, EnvironmentType,
  unknown_environment, gnu, gnuabin32, gnuabi64, gnueabi, gnueabihf, gnux32, gnuilp32, code16, eabi,
  eabihf, android, musl, musleabi, musleabihf, muslx32, msvc, itanium, cygnus, coreclr, simulator,
  macabi, ObjectFormatType, unknown_object_format, coff, elf, goff, macho, wasm, xcoff,
}

-- Triple::getVendorTypeName
unfoldable pub get_vendor_type_name : VendorType → Text
get_vendor_type_name unknown_vendor = codes "unknown"
get_vendor_type_name amd = codes "amd"
get_vendor_type_name apple = codes "apple"
get_vendor_type_name csr = codes "csr"
get_vendor_type_name freescale = codes "fsl"
get_vendor_type_name ibm = codes "ibm"
get_vendor_type_name imagination_technologies = codes "img"
get_vendor_type_name mesa = codes "mesa"
get_vendor_type_name mips_technologies = codes "mti"
get_vendor_type_name myriad = codes "myriad"
get_vendor_type_name nvidia = codes "nvidia"
get_vendor_type_name open_embedded = codes "oe"
get_vendor_type_name pc = codes "pc"
get_vendor_type_name scei = codes "scei"
get_vendor_type_name suse = codes "suse"

-- Triple::getOSTypeName
unfoldable pub get_os_type_name : OsType → Text
get_os_type_name unknown_os = codes "unknown"
get_os_type_name aix = codes "aix"
get_os_type_name amdhsa = codes "amdhsa"
get_os_type_name amdpal = codes "amdpal"
get_os_type_name ananas = codes "ananas"
get_os_type_name cuda = codes "cuda"
get_os_type_name cloudabi = codes "cloudabi"
get_os_type_name contiki = codes "contiki"
get_os_type_name darwin = codes "darwin"
get_os_type_name dragonfly = codes "dragonfly"
get_os_type_name elfiamcu = codes "elfiamcu"
get_os_type_name emscripten = codes "emscripten"
get_os_type_name freebsd = codes "freebsd"
get_os_type_name fuchsia = codes "fuchsia"
get_os_type_name haiku = codes "haiku"
get_os_type_name hermit_core = codes "hermit"
get_os_type_name hurd = codes "hurd"
get_os_type_name ios = codes "ios"
get_os_type_name kfreebsd = codes "kfreebsd"
get_os_type_name linux = codes "linux"
get_os_type_name lv2 = codes "lv2"
get_os_type_name macosx = codes "macosx"
get_os_type_name mesa3d = codes "mesa3d"
get_os_type_name minix = codes "minix"
get_os_type_name nvcl = codes "nvcl"
get_os_type_name nacl = codes "nacl"
get_os_type_name netbsd = codes "netbsd"
get_os_type_name openbsd = codes "openbsd"
get_os_type_name ps4 = codes "ps4"
get_os_type_name rtems = codes "rtems"
get_os_type_name solaris = codes "solaris"
get_os_type_name tvos = codes "tvos"
get_os_type_name wasi = codes "wasi"
get_os_type_name watchos = codes "watchos"
get_os_type_name win32 = codes "windows"
get_os_type_name zos = codes "zos"

-- Triple::getEnvironmentTypeName
unfoldable pub get_environment_type_name : EnvironmentType → Text
get_environment_type_name unknown_environment = codes "unknown"
get_environment_type_name android = codes "android"
get_environment_type_name code16 = codes "code16"
get_environment_type_name coreclr = codes "coreclr"
get_environment_type_name cygnus = codes "cygnus"
get_environment_type_name eabi = codes "eabi"
get_environment_type_name eabihf = codes "eabihf"
get_environment_type_name gnu = codes "gnu"
get_environment_type_name gnuabi64 = codes "gnuabi64"
get_environment_type_name gnuabin32 = codes "gnuabin32"
get_environment_type_name gnueabi = codes "gnueabi"
get_environment_type_name gnueabihf = codes "gnueabihf"
get_environment_type_name gnux32 = codes "gnux32"
get_environment_type_name gnuilp32 = codes "gnu_ilp32"
get_environment_type_name itanium = codes "itanium"
get_environment_type_name msvc = codes "msvc"
get_environment_type_name macabi = codes "macabi"
get_environment_type_name musl = codes "musl"
get_environment_type_name musleabi = codes "musleabi"
get_environment_type_name musleabihf = codes "musleabihf"
get_environment_type_name muslx32 = codes "muslx32"
get_environment_type_name simulator = codes "simulator"

-- getObjectFormatTypeName
unfoldable pub get_object_format_type_name : ObjectFormatType → Text
get_object_format_type_name unknown_object_format = codes ""
get_object_format_type_name coff = codes "coff"
get_object_format_type_name elf = codes "elf"
get_object_format_type_name goff = codes "goff"
get_object_format_type_name macho = codes "macho"
get_object_format_type_name wasm = codes "wasm"
get_object_format_type_name xcoff = codes "xcoff"
