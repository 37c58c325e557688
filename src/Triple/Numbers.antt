-- ===== src/Triple/Numbers.antt =====
-- The enumerators of llvm/include/llvm/ADT/Triple.h as numbers, the comparison of a triple's fields with an
-- enumerator, and operator==.
use toy_riscv.Base.{ℕ, Bool, ◌&&◌, ◌==◌}
use toy_riscv.Triple.Types.{
  ArchType, unknown_arch, arm, armeb, aarch64, aarch64_be, aarch64_32, arc, avr, bpfel, bpfeb, csky,
  hexagon, m68k, mips, mipsel, mips64, mips64el, msp430, ppc, ppcle, ppc64, ppc64le, r600, amdgcn,
  riscv32, riscv64, toyriscv32, toyriscv64, sparc, sparcv9, sparcel, systemz, tce, tcele, thumb,
  thumbeb, x86, x86_64, xcore, nvptx, nvptx64, le32, le64, amdil, amdil64, hsail, hsail64, spir,
  spir64, spirv32, spirv64, kalimba, shave, lanai, wasm32, wasm64, renderscript32, renderscript64,
  ve, SubArchType, no_sub_arch, arm_v9_3a, arm_v9_2a, arm_v9_1a, arm_v9, arm_v8_8a, arm_v8_7a,
  arm_v8_6a, arm_v8_5a, arm_v8_4a, arm_v8_3a, arm_v8_2a, arm_v8_1a, arm_v8, arm_v8r,
  arm_v8m_baseline, arm_v8m_mainline, arm_v8_1m_mainline, arm_v7, arm_v7em, arm_v7m, arm_v7s,
  arm_v7k, arm_v7ve, arm_v6, arm_v6m, arm_v6k, arm_v6t2, arm_v5, arm_v5te, arm_v4t, aarch64_arm64e,
  kalimba_v3, kalimba_v4, kalimba_v5, mips_r6, ppc_spe, VendorType, unknown_vendor, apple, pc, scei,
  freescale, ibm, imagination_technologies, mips_technologies, nvidia, csr, myriad, amd, mesa, suse,
  open_embedded, OsType, unknown_os, ananas, cloudabi, darwin, dragonfly, freebsd, fuchsia, ios,
  kfreebsd, linux, lv2, macosx, netbsd, openbsd, solaris, win32, zos, haiku, minix, rtems, nacl,
  aix, cuda, nvcl, amdhsa, ps4, elfiamcu, tvos, watchos, mesa3d, contiki, amdpal, hermit_core, hurd,
  wasi, emscripten, EnvironmentType, unknown_environment, gnu, gnuabin32, gnuabi64, gnueabi,
  gnueabihf, gnux32, gnuilp32, code16, eabi, eabihf, android, musl, musleabi, musleabihf, muslx32,
  msvc, itanium, cygnus, coreclr, simulator, macabi, ObjectFormatType,
}
use toy_riscv.Triple.Target.{TargetTriple}
use toy_riscv.Triple.Setters.{format_number}

-- Triple::ArchType
unfoldable pub arch_number : ArchType → ℕ
arch_number unknown_arch = 0
arch_number arm = 1
arch_number armeb = 2
arch_number aarch64 = 3
arch_number aarch64_be = 4
arch_number aarch64_32 = 5
arch_number arc = 6
arch_number avr = 7
arch_number bpfel = 8
arch_number bpfeb = 9
arch_number csky = 10
arch_number hexagon = 11
arch_number m68k = 12
arch_number mips = 13
arch_number mipsel = 14
arch_number mips64 = 15
arch_number mips64el = 16
arch_number msp430 = 17
arch_number ppc = 18
arch_number ppcle = 19
arch_number ppc64 = 20
arch_number ppc64le = 21
arch_number r600 = 22
arch_number amdgcn = 23
arch_number riscv32 = 24
arch_number riscv64 = 25
arch_number toyriscv32 = 26
arch_number toyriscv64 = 27
arch_number sparc = 28
arch_number sparcv9 = 29
arch_number sparcel = 30
arch_number systemz = 31
arch_number tce = 32
arch_number tcele = 33
arch_number thumb = 34
arch_number thumbeb = 35
arch_number x86 = 36
arch_number x86_64 = 37
arch_number xcore = 38
arch_number nvptx = 39
arch_number nvptx64 = 40
arch_number le32 = 41
arch_number le64 = 42
arch_number amdil = 43
arch_number amdil64 = 44
arch_number hsail = 45
arch_number hsail64 = 46
arch_number spir = 47
arch_number spir64 = 48
arch_number spirv32 = 49
arch_number spirv64 = 50
arch_number kalimba = 51
arch_number shave = 52
arch_number lanai = 53
arch_number wasm32 = 54
arch_number wasm64 = 55
arch_number renderscript32 = 56
arch_number renderscript64 = 57
arch_number ve = 58

-- Triple::SubArchType
unfoldable pub sub_arch_number : SubArchType → ℕ
sub_arch_number no_sub_arch = 0
sub_arch_number arm_v9_3a = 1
sub_arch_number arm_v9_2a = 2
sub_arch_number arm_v9_1a = 3
sub_arch_number arm_v9 = 4
sub_arch_number arm_v8_8a = 5
sub_arch_number arm_v8_7a = 6
sub_arch_number arm_v8_6a = 7
sub_arch_number arm_v8_5a = 8
sub_arch_number arm_v8_4a = 9
sub_arch_number arm_v8_3a = 10
sub_arch_number arm_v8_2a = 11
sub_arch_number arm_v8_1a = 12
sub_arch_number arm_v8 = 13
sub_arch_number arm_v8r = 14
sub_arch_number arm_v8m_baseline = 15
sub_arch_number arm_v8m_mainline = 16
sub_arch_number arm_v8_1m_mainline = 17
sub_arch_number arm_v7 = 18
sub_arch_number arm_v7em = 19
sub_arch_number arm_v7m = 20
sub_arch_number arm_v7s = 21
sub_arch_number arm_v7k = 22
sub_arch_number arm_v7ve = 23
sub_arch_number arm_v6 = 24
sub_arch_number arm_v6m = 25
sub_arch_number arm_v6k = 26
sub_arch_number arm_v6t2 = 27
sub_arch_number arm_v5 = 28
sub_arch_number arm_v5te = 29
sub_arch_number arm_v4t = 30
sub_arch_number aarch64_arm64e = 31
sub_arch_number kalimba_v3 = 32
sub_arch_number kalimba_v4 = 33
sub_arch_number kalimba_v5 = 34
sub_arch_number mips_r6 = 35
sub_arch_number ppc_spe = 36

-- Triple::VendorType
unfoldable pub vendor_number : VendorType → ℕ
vendor_number unknown_vendor = 0
vendor_number apple = 1
vendor_number pc = 2
vendor_number scei = 3
vendor_number freescale = 4
vendor_number ibm = 5
vendor_number imagination_technologies = 6
vendor_number mips_technologies = 7
vendor_number nvidia = 8
vendor_number csr = 9
vendor_number myriad = 10
vendor_number amd = 11
vendor_number mesa = 12
vendor_number suse = 13
vendor_number open_embedded = 14

-- Triple::OSType
unfoldable pub os_number : OsType → ℕ
os_number unknown_os = 0
os_number ananas = 1
os_number cloudabi = 2
os_number darwin = 3
os_number dragonfly = 4
os_number freebsd = 5
os_number fuchsia = 6
os_number ios = 7
os_number kfreebsd = 8
os_number linux = 9
os_number lv2 = 10
os_number macosx = 11
os_number netbsd = 12
os_number openbsd = 13
os_number solaris = 14
os_number win32 = 15
os_number zos = 16
os_number haiku = 17
os_number minix = 18
os_number rtems = 19
os_number nacl = 20
os_number aix = 21
os_number cuda = 22
os_number nvcl = 23
os_number amdhsa = 24
os_number ps4 = 25
os_number elfiamcu = 26
os_number tvos = 27
os_number watchos = 28
os_number mesa3d = 29
os_number contiki = 30
os_number amdpal = 31
os_number hermit_core = 32
os_number hurd = 33
os_number wasi = 34
os_number emscripten = 35

-- Triple::EnvironmentType
unfoldable pub environment_number : EnvironmentType → ℕ
environment_number unknown_environment = 0
environment_number gnu = 1
environment_number gnuabin32 = 2
environment_number gnuabi64 = 3
environment_number gnueabi = 4
environment_number gnueabihf = 5
environment_number gnux32 = 6
environment_number gnuilp32 = 7
environment_number code16 = 8
environment_number eabi = 9
environment_number eabihf = 10
environment_number android = 11
environment_number musl = 12
environment_number musleabi = 13
environment_number musleabihf = 14
environment_number muslx32 = 15
environment_number msvc = 16
environment_number itanium = 17
environment_number cygnus = 18
environment_number coreclr = 19
environment_number simulator = 20
environment_number macabi = 21

-- The comparison of a field with an enumerator.
abbrev pub has_arch : TargetTriple → ArchType → Bool
has_arch t x = arch_number t.arch == arch_number x

abbrev pub has_sub_arch : TargetTriple → SubArchType → Bool
has_sub_arch t x = sub_arch_number t.sub_arch == sub_arch_number x

abbrev pub has_vendor : TargetTriple → VendorType → Bool
has_vendor t x = vendor_number t.vendor == vendor_number x

abbrev pub has_os : TargetTriple → OsType → Bool
has_os t x = os_number t.os == os_number x

abbrev pub has_environment_type : TargetTriple → EnvironmentType → Bool
has_environment_type t x = environment_number t.environment == environment_number x

abbrev pub has_object_format : TargetTriple → ObjectFormatType → Bool
has_object_format t x = format_number t.object_format == format_number x

-- operator==
abbrev pub same_triple : TargetTriple → TargetTriple → Bool
same_triple t u =
    has_arch t u.arch
    && (has_sub_arch t u.sub_arch
        && (has_vendor t u.vendor
            && (has_os t u.os
                && (has_environment_type t u.environment && has_object_format t u.object_format))))
