-- ===== src/Triple/Predicates/Systems.antt =====
-- The predicates of llvm/include/llvm/ADT/Triple.h on operating systems, environments and object formats.
use toy_riscv.Base.{Bool, not, ◌&&◌, ◌||◌}
use toy_riscv.Triple.Types.{
  aix, android, arm_v7k, coff, contiki, coreclr, cygnus, darwin, dragonfly, elf, elfiamcu,
  emscripten, freebsd, fuchsia, gnu, gnuabi64, gnuabin32, gnueabi, gnueabihf, gnux32, goff, haiku,
  hurd, ios, itanium, kfreebsd, linux, macabi, macho, macosx, msvc, musl, musleabi, musleabihf,
  muslx32, nacl, netbsd, openbsd, simulator, solaris, tvos, unknown_environment, unknown_os, wasi,
  wasm, watchos, xcoff, zos,
}
use toy_riscv.Triple.Formats.{is_os_darwin, is_os_windows}
use toy_riscv.Triple.Target.{TargetTriple}
use toy_riscv.Triple.Numbers.{has_environment_type, has_object_format, has_os, has_sub_arch}

-- Triple::isMacOSX
abbrev pub is_mac_osx : TargetTriple → Bool
is_mac_osx t = has_os t darwin || has_os t macosx

-- Triple::isTvOS
abbrev pub is_tv_os : TargetTriple → Bool
is_tv_os t = has_os t tvos

-- Triple::isiOS
abbrev pub is_ios : TargetTriple → Bool
is_ios t = has_os t ios || is_tv_os t

-- Triple::isWatchOS
abbrev pub is_watch_os : TargetTriple → Bool
is_watch_os t = has_os t watchos

-- Triple::isWatchABI
abbrev pub is_watch_abi : TargetTriple → Bool
is_watch_abi t = has_sub_arch t arm_v7k

-- Triple::isOSzOS
abbrev pub is_os_zos : TargetTriple → Bool
is_os_zos t = has_os t zos

-- Triple::isSimulatorEnvironment
abbrev pub is_simulator_environment : TargetTriple → Bool
is_simulator_environment t = has_environment_type t simulator

-- Triple::isMacCatalystEnvironment
abbrev pub is_mac_catalyst_environment : TargetTriple → Bool
is_mac_catalyst_environment t = has_environment_type t macabi

-- Triple::isTargetMachineMac
abbrev pub is_target_machine_mac : TargetTriple → Bool
is_target_machine_mac t =
    is_mac_osx t
    || (is_os_darwin t.os && (is_simulator_environment t || is_mac_catalyst_environment t))

-- Triple::isOSNetBSD
abbrev pub is_os_netbsd : TargetTriple → Bool
is_os_netbsd t = has_os t netbsd

-- Triple::isOSOpenBSD
abbrev pub is_os_openbsd : TargetTriple → Bool
is_os_openbsd t = has_os t openbsd

-- Triple::isOSFreeBSD
abbrev pub is_os_freebsd : TargetTriple → Bool
is_os_freebsd t = has_os t freebsd

-- Triple::isOSFuchsia
abbrev pub is_os_fuchsia : TargetTriple → Bool
is_os_fuchsia t = has_os t fuchsia

-- Triple::isOSDragonFly
abbrev pub is_os_dragonfly : TargetTriple → Bool
is_os_dragonfly t = has_os t dragonfly

-- Triple::isOSSolaris
abbrev pub is_os_solaris : TargetTriple → Bool
is_os_solaris t = has_os t solaris

-- Triple::isOSIAMCU
abbrev pub is_os_iamcu : TargetTriple → Bool
is_os_iamcu t = has_os t elfiamcu

-- Triple::isOSUnknown
abbrev pub is_os_unknown : TargetTriple → Bool
is_os_unknown t = has_os t unknown_os

-- Triple::isGNUEnvironment
abbrev pub is_gnu_environment : TargetTriple → Bool
is_gnu_environment t =
    has_environment_type t gnu
    || (has_environment_type t gnuabin32
        || (has_environment_type t gnuabi64
            || (has_environment_type t gnueabi
                || (has_environment_type t gnueabihf || has_environment_type t gnux32))))

-- Triple::isOSContiki
abbrev pub is_os_contiki : TargetTriple → Bool
is_os_contiki t = has_os t contiki

-- Triple::isOSHaiku
abbrev pub is_os_haiku : TargetTriple → Bool
is_os_haiku t = has_os t haiku

-- Triple::isKnownWindowsMSVCEnvironment
abbrev pub is_known_windows_msvc_environment : TargetTriple → Bool
is_known_windows_msvc_environment t = is_os_windows t.os && has_environment_type t msvc

-- Triple::isWindowsMSVCEnvironment
abbrev pub is_windows_msvc_environment : TargetTriple → Bool
is_windows_msvc_environment t =
    is_known_windows_msvc_environment t
    || (is_os_windows t.os && has_environment_type t unknown_environment)

-- Triple::isWindowsCoreCLREnvironment
abbrev pub is_windows_core_clr_environment : TargetTriple → Bool
is_windows_core_clr_environment t = is_os_windows t.os && has_environment_type t coreclr

-- Triple::isWindowsItaniumEnvironment
abbrev pub is_windows_itanium_environment : TargetTriple → Bool
is_windows_itanium_environment t = is_os_windows t.os && has_environment_type t itanium

-- Triple::isWindowsCygwinEnvironment
abbrev pub is_windows_cygwin_environment : TargetTriple → Bool
is_windows_cygwin_environment t = is_os_windows t.os && has_environment_type t cygnus

-- Triple::isWindowsGNUEnvironment
abbrev pub is_windows_gnu_environment : TargetTriple → Bool
is_windows_gnu_environment t = is_os_windows t.os && has_environment_type t gnu

-- Triple::isOSCygMing
abbrev pub is_os_cyg_ming : TargetTriple → Bool
is_os_cyg_ming t = is_windows_cygwin_environment t || is_windows_gnu_environment t

-- Triple::isOSMSVCRT
abbrev pub is_os_msvcrt : TargetTriple → Bool
is_os_msvcrt t =
    is_windows_msvc_environment t
    || (is_windows_gnu_environment t || is_windows_itanium_environment t)

-- Triple::isOSNaCl
abbrev pub is_os_nacl : TargetTriple → Bool
is_os_nacl t = has_os t nacl

-- Triple::isOSLinux
abbrev pub is_os_linux : TargetTriple → Bool
is_os_linux t = has_os t linux

-- Triple::isOSKFreeBSD
abbrev pub is_os_kfreebsd : TargetTriple → Bool
is_os_kfreebsd t = has_os t kfreebsd

-- Triple::isOSHurd
abbrev pub is_os_hurd : TargetTriple → Bool
is_os_hurd t = has_os t hurd

-- Triple::isOSWASI
abbrev pub is_os_wasi : TargetTriple → Bool
is_os_wasi t = has_os t wasi

-- Triple::isOSEmscripten
abbrev pub is_os_emscripten : TargetTriple → Bool
is_os_emscripten t = has_os t emscripten

-- Triple::isAndroid
abbrev pub is_android_triple : TargetTriple → Bool
is_android_triple t = has_environment_type t android

-- Triple::isOSGlibc
abbrev pub is_os_glibc : TargetTriple → Bool
is_os_glibc t =
    (has_os t linux || (has_os t kfreebsd || has_os t hurd)) && not (is_android_triple t)

-- Triple::isOSAIX
abbrev pub is_os_aix : TargetTriple → Bool
is_os_aix t = has_os t aix

-- Triple::isMusl
abbrev pub is_musl : TargetTriple → Bool
is_musl t =
    has_environment_type t musl
    || (has_environment_type t musleabi
        || (has_environment_type t musleabihf || has_environment_type t muslx32))

-- Triple::isX32
abbrev pub is_x32 : TargetTriple → Bool
is_x32 t = has_environment_type t gnux32 || has_environment_type t muslx32

-- Triple::isOSBinFormatELF
abbrev pub is_os_bin_format_elf : TargetTriple → Bool
is_os_bin_format_elf t = has_object_format t elf

-- Triple::isOSBinFormatCOFF
abbrev pub is_os_bin_format_coff : TargetTriple → Bool
is_os_bin_format_coff t = has_object_format t coff

-- Triple::isOSBinFormatGOFF
abbrev pub is_os_bin_format_goff : TargetTriple → Bool
is_os_bin_format_goff t = has_object_format t goff

-- Triple::isOSBinFormatMachO
abbrev pub is_os_bin_format_macho : TargetTriple → Bool
is_os_bin_format_macho t = has_object_format t macho

-- Triple::isOSBinFormatWasm
abbrev pub is_os_bin_format_wasm : TargetTriple → Bool
is_os_bin_format_wasm t = has_object_format t wasm

-- Triple::isOSBinFormatXCOFF
abbrev pub is_os_bin_format_xcoff : TargetTriple → Bool
is_os_bin_format_xcoff t = has_object_format t xcoff
