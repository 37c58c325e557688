-- ===== src/Triple/Predicates/Archs.antt =====
-- The predicates of llvm/include/llvm/ADT/Triple.h on architectures.
use toy_riscv.Base.{
  ℕ, Bool, true, false, not, ◌&&◌, ◌||◌, ◌==◌, if◌then◌else◌, Outcome, ok, stop, assertion,
}
use toy_riscv.Triple.Types.{
  aarch64, aarch64_32, aarch64_arm64e, aarch64_be, amdgcn, arm, armeb, csky, eabi, eabihf, gnueabi,
  gnueabihf, mips, mips64, mips64el, mipsel, musleabi, musleabihf, nvptx, nvptx64, ppc, ppc64,
  ppc64le, ppcle, ps4, r600, riscv32, riscv64, scei, spir, spir64, spirv32, spirv64, systemz, thumb,
  thumbeb, ve, wasm32, wasm64, x86, x86_64, SubArchType, arm_v8m_baseline, arm_v7s, arm_v7k,
  arm_v7ve, arm_v6, arm_v6m, arm_v6k, arm_v6t2, arm_v5, arm_v5te, arm_v4t, arm_v7m, arm_v7em,
  arm_v8m_mainline, arm_v8_1m_mainline, gnuilp32,
}
use toy_riscv.Triple.Formats.{is_os_windows}
use toy_riscv.Triple.Target.{TargetTriple}
use toy_riscv.Triple.Numbers.{has_arch, has_environment_type, has_os, has_sub_arch, has_vendor}
use toy_riscv.Triple.Predicates.Systems.{
  is_android_triple, is_os_bin_format_elf, is_os_bin_format_macho, is_os_bin_format_xcoff,
  is_os_openbsd, is_windows_cygwin_environment,
}

-- Triple::isPS4CPU
abbrev pub is_ps4_cpu : TargetTriple → Bool
is_ps4_cpu t = has_arch t x86_64 && (has_vendor t scei && has_os t ps4)

-- Triple::isPS4
abbrev pub is_ps4 : TargetTriple → Bool
is_ps4 t = has_vendor t scei && has_os t ps4

-- Triple::isSPIR
abbrev pub is_spir : TargetTriple → Bool
is_spir t = has_arch t spir || has_arch t spir64

-- Triple::isSPIRV
abbrev pub is_spirv : TargetTriple → Bool
is_spirv t = has_arch t spirv32 || has_arch t spirv64

-- Triple::isNVPTX
abbrev pub is_nvptx : TargetTriple → Bool
is_nvptx t = has_arch t nvptx || has_arch t nvptx64

-- Triple::isAMDGCN
abbrev pub is_amdgcn : TargetTriple → Bool
is_amdgcn t = has_arch t amdgcn

-- Triple::isAMDGPU
abbrev pub is_amdgpu : TargetTriple → Bool
is_amdgpu t = has_arch t r600 || has_arch t amdgcn

-- Triple::isThumb
abbrev pub is_thumb : TargetTriple → Bool
is_thumb t = has_arch t thumb || has_arch t thumbeb

-- Triple::isARM
abbrev pub is_arm : TargetTriple → Bool
is_arm t = has_arch t arm || has_arch t armeb

-- Triple::isTargetEHABICompatible
abbrev pub is_target_ehabi_compatible : TargetTriple → Bool
is_target_ehabi_compatible t =
    ((is_arm t || is_thumb t)
      && (has_environment_type t eabi
          || (has_environment_type t gnueabi
              || (has_environment_type t musleabi
                  || (has_environment_type t eabihf
                      || (has_environment_type t gnueabihf
                          || (has_environment_type t musleabihf || is_android_triple t)))))))
    && is_os_bin_format_elf t

-- Triple::isAArch64
abbrev pub is_aarch64 : TargetTriple → Bool
is_aarch64 t = has_arch t aarch64 || (has_arch t aarch64_be || has_arch t aarch64_32)

-- Triple::isMIPS32
abbrev pub is_mips32 : TargetTriple → Bool
is_mips32 t = has_arch t mips || has_arch t mipsel

-- Triple::isMIPS64
abbrev pub is_mips64 : TargetTriple → Bool
is_mips64 t = has_arch t mips64 || has_arch t mips64el

-- Triple::isMIPS
abbrev pub is_mips : TargetTriple → Bool
is_mips t = is_mips32 t || is_mips64 t

-- Triple::isPPC
abbrev pub is_ppc : TargetTriple → Bool
is_ppc t = has_arch t ppc || (has_arch t ppc64 || (has_arch t ppcle || has_arch t ppc64le))

-- Triple::isPPC32
abbrev pub is_ppc32 : TargetTriple → Bool
is_ppc32 t = has_arch t ppc || has_arch t ppcle

-- Triple::isPPC64
abbrev pub is_ppc64 : TargetTriple → Bool
is_ppc64 t = has_arch t ppc64 || has_arch t ppc64le

-- Triple::isRISCV
abbrev pub is_riscv : TargetTriple → Bool
is_riscv t = has_arch t riscv32 || has_arch t riscv64

-- Triple::isSystemZ
abbrev pub is_system_z : TargetTriple → Bool
is_system_z t = has_arch t systemz

-- Triple::isX86
abbrev pub is_x86 : TargetTriple → Bool
is_x86 t = has_arch t x86 || has_arch t x86_64

-- Triple::isVE
abbrev pub is_ve : TargetTriple → Bool
is_ve t = has_arch t ve

-- Triple::isWasm
abbrev pub is_wasm : TargetTriple → Bool
is_wasm t = has_arch t wasm32 || has_arch t wasm64

-- Triple::isCSKY
abbrev pub is_csky : TargetTriple → Bool
is_csky t = has_arch t csky

-- Triple::isArm64e
abbrev pub is_arm64e : TargetTriple → Bool
is_arm64e t = has_arch t aarch64 && has_sub_arch t aarch64_arm64e

-- Triple::supportsCOMDAT
abbrev pub supports_comdat : TargetTriple → Bool
supports_comdat t = not (is_os_bin_format_macho t || is_os_bin_format_xcoff t)

-- Triple::hasDefaultEmulatedTLS
abbrev pub has_default_emulated_tls : TargetTriple → Bool
has_default_emulated_tls t =
    is_android_triple t || (is_os_openbsd t || is_windows_cygwin_environment t)

-- Triple::hasDefaultDataSections
abbrev pub has_default_data_sections : TargetTriple → Bool
has_default_data_sections t = is_os_bin_format_xcoff t || is_wasm t

-- Triple::hasDLLImportExport
abbrev pub has_dll_import_export : TargetTriple → Bool
has_dll_import_export t = is_os_windows t.os || is_ps4_cpu t

-- Triple::isArmT32, of a sub-architecture.
abbrev pub is_arm_t32 : SubArchType → Bool
is_arm_t32 arm_v8m_baseline = false
is_arm_t32 arm_v7s = false
is_arm_t32 arm_v7k = false
is_arm_t32 arm_v7ve = false
is_arm_t32 arm_v6 = false
is_arm_t32 arm_v6m = false
is_arm_t32 arm_v6k = false
is_arm_t32 arm_v6t2 = false
is_arm_t32 arm_v5 = false
is_arm_t32 arm_v5te = false
is_arm_t32 arm_v4t = false
is_arm_t32 _ = true

-- Triple::isArmMClass, of a sub-architecture.
abbrev pub is_arm_m_class : SubArchType → Bool
is_arm_m_class arm_v6m = true
is_arm_m_class arm_v7m = true
is_arm_m_class arm_v7em = true
is_arm_m_class arm_v8m_mainline = true
is_arm_m_class arm_v8_1m_mainline = true
is_arm_m_class arm_v8m_baseline = true
is_arm_m_class _ = false

-- Triple::isAArch64 with a pointer width.
unfoldable pub is_aarch64_of_width : ℕ → TargetTriple → Outcome Bool
is_aarch64_of_width width t =
    if not (width == 64 || width == 32)
    then stop (assertion "PointerWidth == 64 || PointerWidth == 32")
    else if not (is_aarch64 t)
    then ok false
    else if has_arch t aarch64_32 || has_environment_type t gnuilp32
    then ok (width == 32)
    else ok (width == 64)
