-- ===== src/Triple/Parse.antt =====
-- parseVendor, parseOS, parseEnvironment and parseFormat of llvm/lib/Support/Triple.cpp.
use toy_riscv.Base.{List, [], ◌∷◌, Text, Pattern, exact, starts_with, ends_with, string_switch}
use toy_riscv.Triple.Types.{
  VendorType, unknown_vendor, apple, pc, scei, freescale, ibm, imagination_technologies,
  mips_technologies, nvidia, csr, myriad, amd, mesa, suse, open_embedded, OsType, unknown_os,
  ananas, cloudabi, darwin, dragonfly, freebsd, fuchsia, ios, kfreebsd, linux, lv2, macosx, netbsd,
  openbsd, solaris, win32, zos, haiku, minix, rtems, nacl, aix, cuda, nvcl, amdhsa, ps4, elfiamcu,
  tvos, watchos, mesa3d, contiki, amdpal, hermit_core, hurd, wasi, emscripten, EnvironmentType,
  unknown_environment, gnu, gnuabin32, gnuabi64, gnueabi, gnueabihf, gnux32, gnuilp32, code16, eabi,
  eabihf, android, musl, musleabi, musleabihf, muslx32, msvc, itanium, cygnus, coreclr, simulator,
  macabi, ObjectFormatType, unknown_object_format, coff, elf, goff, macho, wasm, xcoff,
}

abbrev pub vendor_cases : List (Pattern × VendorType)
vendor_cases =
    (exact "apple", apple)
    ∷ (exact "pc", pc)
    ∷ (exact "scei", scei)
    ∷ (exact "sie", scei)
    ∷ (exact "fsl", freescale)
    ∷ (exact "ibm", ibm)
    ∷ (exact "img", imagination_technologies)
    ∷ (exact "mti", mips_technologies)
    ∷ (exact "nvidia", nvidia)
    ∷ (exact "csr", csr)
    ∷ (exact "myriad", myriad)
    ∷ (exact "amd", amd)
    ∷ (exact "mesa", mesa)
    ∷ (exact "suse", suse)
    ∷ (exact "oe", open_embedded)
    ∷ []

-- parseVendor
unfoldable pub parse_vendor : Text → VendorType
parse_vendor = string_switch vendor_cases unknown_vendor

abbrev pub os_cases : List (Pattern × OsType)
os_cases =
    (starts_with "ananas", ananas)
    ∷ (starts_with "cloudabi", cloudabi)
    ∷ (starts_with "darwin", darwin)
    ∷ (starts_with "dragonfly", dragonfly)
    ∷ (starts_with "freebsd", freebsd)
    ∷ (starts_with "fuchsia", fuchsia)
    ∷ (starts_with "ios", ios)
    ∷ (starts_with "kfreebsd", kfreebsd)
    ∷ (starts_with "linux", linux)
    ∷ (starts_with "lv2", lv2)
    ∷ (starts_with "macos", macosx)
    ∷ (starts_with "netbsd", netbsd)
    ∷ (starts_with "openbsd", openbsd)
    ∷ (starts_with "solaris", solaris)
    ∷ (starts_with "win32", win32)
    ∷ (starts_with "windows", win32)
    ∷ (starts_with "zos", zos)
    ∷ (starts_with "haiku", haiku)
    ∷ (starts_with "minix", minix)
    ∷ (starts_with "rtems", rtems)
    ∷ (starts_with "nacl", nacl)
    ∷ (starts_with "aix", aix)
    ∷ (starts_with "cuda", cuda)
    ∷ (starts_with "nvcl", nvcl)
    ∷ (starts_with "amdhsa", amdhsa)
    ∷ (starts_with "ps4", ps4)
    ∷ (starts_with "elfiamcu", elfiamcu)
    ∷ (starts_with "tvos", tvos)
    ∷ (starts_with "watchos", watchos)
    ∷ (starts_with "mesa3d", mesa3d)
    ∷ (starts_with "contiki", contiki)
    ∷ (starts_with "amdpal", amdpal)
    ∷ (starts_with "hermit", hermit_core)
    ∷ (starts_with "hurd", hurd)
    ∷ (starts_with "wasi", wasi)
    ∷ (starts_with "emscripten", emscripten)
    ∷ []

-- parseOS
unfoldable pub parse_os : Text → OsType
parse_os = string_switch os_cases unknown_os

abbrev pub environment_cases : List (Pattern × EnvironmentType)
environment_cases =
    (starts_with "eabihf", eabihf)
    ∷ (starts_with "eabi", eabi)
    ∷ (starts_with "gnuabin32", gnuabin32)
    ∷ (starts_with "gnuabi64", gnuabi64)
    ∷ (starts_with "gnueabihf", gnueabihf)
    ∷ (starts_with "gnueabi", gnueabi)
    ∷ (starts_with "gnux32", gnux32)
    ∷ (starts_with "gnu_ilp32", gnuilp32)
    ∷ (starts_with "code16", code16)
    ∷ (starts_with "gnu", gnu)
    ∷ (starts_with "android", android)
    ∷ (starts_with "musleabihf", musleabihf)
    ∷ (starts_with "musleabi", musleabi)
    ∷ (starts_with "muslx32", muslx32)
    ∷ (starts_with "musl", musl)
    ∷ (starts_with "msvc", msvc)
    ∷ (starts_with "itanium", itanium)
    ∷ (starts_with "cygnus", cygnus)
    ∷ (starts_with "coreclr", coreclr)
    ∷ (starts_with "simulator", simulator)
    ∷ (starts_with "macabi", macabi)
    ∷ []

-- parseEnvironment
unfoldable pub parse_environment : Text → EnvironmentType
parse_environment = string_switch environment_cases unknown_environment

abbrev pub format_cases : List (Pattern × ObjectFormatType)
format_cases =
    (ends_with "xcoff", xcoff)
    ∷ (ends_with "coff", coff)
    ∷ (ends_with "elf", elf)
    ∷ (ends_with "goff", goff)
    ∷ (ends_with "macho", macho)
    ∷ (ends_with "wasm", wasm)
    ∷ []

-- parseFormat
unfoldable pub parse_format : Text → ObjectFormatType
parse_format = string_switch format_cases unknown_object_format
