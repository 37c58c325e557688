-- ===== src/Triple/NameLaws.antt =====
-- The parsers of Triple.cpp read the names that it prints.
use toy_riscv.Base.{Text, ◌≡◌, refl, ◌++◌}
use toy_riscv.Triple.Types.{
  VendorType, unknown_vendor, apple, pc, scei, freescale, ibm, imagination_technologies,
  mips_technologies, nvidia, csr, myriad, amd, mesa, suse, open_embedded, OsType, unknown_os,
  ananas, cloudabi, darwin, dragonfly, freebsd, fuchsia, ios, kfreebsd, linux, lv2, macosx, netbsd,
  openbsd, solaris, win32, zos, haiku, minix, rtems, nacl, aix, cuda, nvcl, amdhsa, ps4, elfiamcu,
  tvos, watchos, mesa3d, contiki, amdpal, hermit_core, hurd, wasi, emscripten, EnvironmentType,
  unknown_environment, gnu, gnuabin32, gnuabi64, gnueabi, gnueabihf, gnux32, gnuilp32, code16, eabi,
  eabihf, android, musl, musleabi, musleabihf, muslx32, msvc, itanium, cygnus, coreclr, simulator,
  macabi,
}
use toy_riscv.Triple.Names.{get_vendor_type_name, get_os_type_name, get_environment_type_name}
use toy_riscv.Triple.Parse.{parse_vendor, parse_os, parse_environment}

-- The parser of vendors reads each vendor back from its name.
pub parse_vendor-get_vendor_type_name : (x : VendorType) → parse_vendor (get_vendor_type_name x) ≡ x
unfolding parse_vendor get_vendor_type_name
parse_vendor-get_vendor_type_name unknown_vendor = refl
parse_vendor-get_vendor_type_name apple = refl
parse_vendor-get_vendor_type_name pc = refl
parse_vendor-get_vendor_type_name scei = refl
parse_vendor-get_vendor_type_name freescale = refl
parse_vendor-get_vendor_type_name ibm = refl
parse_vendor-get_vendor_type_name imagination_technologies = refl
parse_vendor-get_vendor_type_name mips_technologies = refl
parse_vendor-get_vendor_type_name nvidia = refl
parse_vendor-get_vendor_type_name csr = refl
parse_vendor-get_vendor_type_name myriad = refl
parse_vendor-get_vendor_type_name amd = refl
parse_vendor-get_vendor_type_name mesa = refl
parse_vendor-get_vendor_type_name suse = refl
parse_vendor-get_vendor_type_name open_embedded = refl

-- The parser of operating systems reads each operating system back from its name with any text
-- after it, such as a version.
pub parse_os-get_os_type_name :
    (x : OsType) (rest : Text) → parse_os (get_os_type_name x ++ rest) ≡ x
unfolding parse_os get_os_type_name
parse_os-get_os_type_name unknown_os rest = refl
parse_os-get_os_type_name ananas rest = refl
parse_os-get_os_type_name cloudabi rest = refl
parse_os-get_os_type_name darwin rest = refl
parse_os-get_os_type_name dragonfly rest = refl
parse_os-get_os_type_name freebsd rest = refl
parse_os-get_os_type_name fuchsia rest = refl
parse_os-get_os_type_name ios rest = refl
parse_os-get_os_type_name kfreebsd rest = refl
parse_os-get_os_type_name linux rest = refl
parse_os-get_os_type_name lv2 rest = refl
parse_os-get_os_type_name macosx rest = refl
parse_os-get_os_type_name netbsd rest = refl
parse_os-get_os_type_name openbsd rest = refl
parse_os-get_os_type_name solaris rest = refl
parse_os-get_os_type_name win32 rest = refl
parse_os-get_os_type_name zos rest = refl
parse_os-get_os_type_name haiku rest = refl
parse_os-get_os_type_name minix rest = refl
parse_os-get_os_type_name rtems rest = refl
parse_os-get_os_type_name nacl rest = refl
parse_os-get_os_type_name aix rest = refl
parse_os-get_os_type_name cuda rest = refl
parse_os-get_os_type_name nvcl rest = refl
parse_os-get_os_type_name amdhsa rest = refl
parse_os-get_os_type_name ps4 rest = refl
parse_os-get_os_type_name elfiamcu rest = refl
parse_os-get_os_type_name tvos rest = refl
parse_os-get_os_type_name watchos rest = refl
parse_os-get_os_type_name mesa3d rest = refl
parse_os-get_os_type_name contiki rest = refl
parse_os-get_os_type_name amdpal rest = refl
parse_os-get_os_type_name hermit_core rest = refl
parse_os-get_os_type_name hurd rest = refl
parse_os-get_os_type_name wasi rest = refl
parse_os-get_os_type_name emscripten rest = refl

-- The parser of environments reads each environment back from its name.
pub parse_environment-get_environment_type_name :
    (x : EnvironmentType) → parse_environment (get_environment_type_name x) ≡ x
unfolding parse_environment get_environment_type_name
parse_environment-get_environment_type_name unknown_environment = refl
parse_environment-get_environment_type_name gnu = refl
parse_environment-get_environment_type_name gnuabin32 = refl
parse_environment-get_environment_type_name gnuabi64 = refl
parse_environment-get_environment_type_name gnueabi = refl
parse_environment-get_environment_type_name gnueabihf = refl
parse_environment-get_environment_type_name gnux32 = refl
parse_environment-get_environment_type_name gnuilp32 = refl
parse_environment-get_environment_type_name code16 = refl
parse_environment-get_environment_type_name eabi = refl
parse_environment-get_environment_type_name eabihf = refl
parse_environment-get_environment_type_name android = refl
parse_environment-get_environment_type_name musl = refl
parse_environment-get_environment_type_name musleabi = refl
parse_environment-get_environment_type_name musleabihf = refl
parse_environment-get_environment_type_name muslx32 = refl
parse_environment-get_environment_type_name msvc = refl
parse_environment-get_environment_type_name itanium = refl
parse_environment-get_environment_type_name cygnus = refl
parse_environment-get_environment_type_name coreclr = refl
parse_environment-get_environment_type_name simulator = refl
parse_environment-get_environment_type_name macabi = refl
