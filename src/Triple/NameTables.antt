-- ===== src/Triple/NameTables.antt =====
-- More about the names of Triple.cpp: none has a dash in it, and some can be read with more text around.
use toy_riscv.Base.{◌≡◌, ◌≢◌, refl, Text, codes, true, false}
use toy_riscv.Triple.Types.{
  VendorType, unknown_vendor, apple, pc, scei, freescale, ibm, imagination_technologies,
  mips_technologies, nvidia, csr, myriad, amd, mesa, suse, open_embedded, OsType, unknown_os,
  ananas, cloudabi, darwin, dragonfly, freebsd, fuchsia, ios, kfreebsd, linux, lv2, macosx, netbsd,
  openbsd, solaris, win32, zos, haiku, minix, rtems, nacl, aix, cuda, nvcl, amdhsa, ps4, elfiamcu,
  tvos, watchos, mesa3d, contiki, amdpal, hermit_core, hurd, wasi, emscripten, EnvironmentType,
  unknown_environment, gnu, gnuabin32, gnuabi64, gnueabi, gnueabihf, gnux32, gnuilp32, code16, eabi,
  eabihf, android, musl, musleabi, musleabihf, muslx32, msvc, itanium, cygnus, coreclr, simulator,
  macabi, ObjectFormatType, unknown_object_format, coff, elf, goff, macho, wasm, xcoff,
}
use mathlib.Core.List.{reverse-append}
use toy_riscv.Triple.Names.{
  get_vendor_type_name, get_os_type_name, get_environment_type_name, get_object_format_type_name,
}
use toy_riscv.Triple.Parse.{parse_environment, parse_format}
use toy_riscv.Triple.Target.{has_dash, ◌⌢◌}
use toy_riscv.Triple.Setters.{is_unknown_environment}

pub has_dash-get_vendor_type_name : (k : VendorType) → has_dash (get_vendor_type_name k) ≡ false
unfolding get_vendor_type_name
has_dash-get_vendor_type_name unknown_vendor = refl
has_dash-get_vendor_type_name apple = refl
has_dash-get_vendor_type_name pc = refl
has_dash-get_vendor_type_name scei = refl
has_dash-get_vendor_type_name freescale = refl
has_dash-get_vendor_type_name ibm = refl
has_dash-get_vendor_type_name imagination_technologies = refl
has_dash-get_vendor_type_name mips_technologies = refl
has_dash-get_vendor_type_name nvidia = refl
has_dash-get_vendor_type_name csr = refl
has_dash-get_vendor_type_name myriad = refl
has_dash-get_vendor_type_name amd = refl
has_dash-get_vendor_type_name mesa = refl
has_dash-get_vendor_type_name suse = refl
has_dash-get_vendor_type_name open_embedded = refl

pub has_dash-get_os_type_name : (k : OsType) → has_dash (get_os_type_name k) ≡ false
unfolding get_os_type_name
has_dash-get_os_type_name unknown_os = refl
has_dash-get_os_type_name ananas = refl
has_dash-get_os_type_name cloudabi = refl
has_dash-get_os_type_name darwin = refl
has_dash-get_os_type_name dragonfly = refl
has_dash-get_os_type_name freebsd = refl
has_dash-get_os_type_name fuchsia = refl
has_dash-get_os_type_name ios = refl
has_dash-get_os_type_name kfreebsd = refl
has_dash-get_os_type_name linux = refl
has_dash-get_os_type_name lv2 = refl
has_dash-get_os_type_name macosx = refl
has_dash-get_os_type_name netbsd = refl
has_dash-get_os_type_name openbsd = refl
has_dash-get_os_type_name solaris = refl
has_dash-get_os_type_name win32 = refl
has_dash-get_os_type_name zos = refl
has_dash-get_os_type_name haiku = refl
has_dash-get_os_type_name minix = refl
has_dash-get_os_type_name rtems = refl
has_dash-get_os_type_name nacl = refl
has_dash-get_os_type_name aix = refl
has_dash-get_os_type_name cuda = refl
has_dash-get_os_type_name nvcl = refl
has_dash-get_os_type_name amdhsa = refl
has_dash-get_os_type_name ps4 = refl
has_dash-get_os_type_name elfiamcu = refl
has_dash-get_os_type_name tvos = refl
has_dash-get_os_type_name watchos = refl
has_dash-get_os_type_name mesa3d = refl
has_dash-get_os_type_name contiki = refl
has_dash-get_os_type_name amdpal = refl
has_dash-get_os_type_name hermit_core = refl
has_dash-get_os_type_name hurd = refl
has_dash-get_os_type_name wasi = refl
has_dash-get_os_type_name emscripten = refl

pub parse_environment-⌢ :
    (k : EnvironmentType) (t : Text) → parse_environment (get_environment_type_name k ⌢ t) ≡ k
unfolding parse_environment get_environment_type_name
parse_environment-⌢ unknown_environment t = refl
parse_environment-⌢ gnu t = refl
parse_environment-⌢ gnuabin32 t = refl
parse_environment-⌢ gnuabi64 t = refl
parse_environment-⌢ gnueabi t = refl
parse_environment-⌢ gnueabihf t = refl
parse_environment-⌢ gnux32 t = refl
parse_environment-⌢ gnuilp32 t = refl
parse_environment-⌢ code16 t = refl
parse_environment-⌢ eabi t = refl
parse_environment-⌢ eabihf t = refl
parse_environment-⌢ android t = refl
parse_environment-⌢ musl t = refl
parse_environment-⌢ musleabi t = refl
parse_environment-⌢ musleabihf t = refl
parse_environment-⌢ muslx32 t = refl
parse_environment-⌢ msvc t = refl
parse_environment-⌢ itanium t = refl
parse_environment-⌢ cygnus t = refl
parse_environment-⌢ coreclr t = refl
parse_environment-⌢ simulator t = refl
parse_environment-⌢ macabi t = refl

pub parse_format-get_object_format_type_name :
    (k : ObjectFormatType) → parse_format (get_object_format_type_name k) ≡ k
unfolding parse_format get_object_format_type_name
parse_format-get_object_format_type_name unknown_object_format = refl
parse_format-get_object_format_type_name coff = refl
parse_format-get_object_format_type_name elf = refl
parse_format-get_object_format_type_name goff = refl
parse_format-get_object_format_type_name macho = refl
parse_format-get_object_format_type_name wasm = refl
parse_format-get_object_format_type_name xcoff = refl

-- The name of an object format is not the name of an environment.
pub parse_environment-get_object_format_type_name :
    (k : ObjectFormatType) → parse_environment (get_object_format_type_name k) ≡ unknown_environment
unfolding parse_environment get_object_format_type_name
parse_environment-get_object_format_type_name unknown_object_format = refl
parse_environment-get_object_format_type_name coff = refl
parse_environment-get_object_format_type_name elf = refl
parse_environment-get_object_format_type_name goff = refl
parse_environment-get_object_format_type_name macho = refl
parse_environment-get_object_format_type_name wasm = refl
parse_environment-get_object_format_type_name xcoff = refl

-- An object format is read after any text and a '-'.
pub parse_format-⌢ :
    (e : Text) (k : ObjectFormatType)
    → k ≢ unknown_object_format
    → parse_format (e ⌢ get_object_format_type_name k) ≡ k
unfolding parse_format get_object_format_type_name
parse_format-⌢ e unknown_object_format h = absurd (h refl)
parse_format-⌢ e coff h = rw (reverse-append e (codes "-coff")) refl
parse_format-⌢ e elf h = rw (reverse-append e (codes "-elf")) refl
parse_format-⌢ e goff h = rw (reverse-append e (codes "-goff")) refl
parse_format-⌢ e macho h = rw (reverse-append e (codes "-macho")) refl
parse_format-⌢ e wasm h = rw (reverse-append e (codes "-wasm")) refl
parse_format-⌢ e xcoff h = rw (reverse-append e (codes "-xcoff")) refl

-- Only the unknown environment passes the test.
pub is_unknown_environment_sound :
    (k : EnvironmentType) → is_unknown_environment k ≡ true → k ≡ unknown_environment
is_unknown_environment_sound unknown_environment p = refl
is_unknown_environment_sound gnu p = cc
is_unknown_environment_sound gnuabin32 p = cc
is_unknown_environment_sound gnuabi64 p = cc
is_unknown_environment_sound gnueabi p = cc
is_unknown_environment_sound gnueabihf p = cc
is_unknown_environment_sound gnux32 p = cc
is_unknown_environment_sound gnuilp32 p = cc
is_unknown_environment_sound code16 p = cc
is_unknown_environment_sound eabi p = cc
is_unknown_environment_sound eabihf p = cc
is_unknown_environment_sound android p = cc
is_unknown_environment_sound musl p = cc
is_unknown_environment_sound musleabi p = cc
is_unknown_environment_sound musleabihf p = cc
is_unknown_environment_sound muslx32 p = cc
is_unknown_environment_sound msvc p = cc
is_unknown_environment_sound itanium p = cc
is_unknown_environment_sound cygnus p = cc
is_unknown_environment_sound coreclr p = cc
is_unknown_environment_sound simulator p = cc
is_unknown_environment_sound macabi p = cc
