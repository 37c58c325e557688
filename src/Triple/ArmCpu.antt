-- ===== src/Triple/ArmCpu.antt =====
-- Triple::getARMCPUForArch of llvm/lib/Support/Triple.cpp.
use toy_riscv.Base.{not, ◌&&◌, if◌then◌else◌, leb, Text, codes, is_empty, text_eq}
use toy_riscv.Triple.Types.{
  OsType, freebsd, netbsd, openbsd, win32, ios, macosx, tvos, watchos, nacl, EnvironmentType, eabi,
  eabihf, gnueabi, gnueabihf, musleabihf,
}
use toy_riscv.Triple.Host.{Host}
use toy_riscv.Triple.Target.{TargetTriple, get_arch_name}

-- The case of FreeBSD, NetBSD and OpenBSD.
abbrev pub bsd_cpu : Text → Text → Text
bsd_cpu m rest =
    if not (is_empty m) && text_eq m (codes "v6")
    then codes "arm1176jzf-s"
    else if not (is_empty m) && text_eq m (codes "v7")
    then codes "cortex-a8"
    else rest

-- The first switch: a CPU that is forced, or the CPU that the rest gives.
unfoldable pub forced_cpu : Host → OsType → Text → Text → Text
forced_cpu h freebsd m rest = bsd_cpu m rest
forced_cpu h netbsd m rest = bsd_cpu m rest
forced_cpu h openbsd m rest = bsd_cpu m rest
forced_cpu h win32 m rest = if leb (h.parse_arch_version m) 7 then codes "cortex-a9" else rest
forced_cpu h ios m rest = if text_eq m (codes "v7k") then codes "cortex-a7" else rest
forced_cpu h macosx m rest = if text_eq m (codes "v7k") then codes "cortex-a7" else rest
forced_cpu h tvos m rest = if text_eq m (codes "v7k") then codes "cortex-a7" else rest
forced_cpu h watchos m rest = if text_eq m (codes "v7k") then codes "cortex-a7" else rest
forced_cpu h _ m rest = rest

-- The minimum CPU of the operating system and the environment.
abbrev pub netbsd_cpu : EnvironmentType → Text
netbsd_cpu eabi = codes "arm926ej-s"
netbsd_cpu eabihf = codes "arm926ej-s"
netbsd_cpu gnueabi = codes "arm926ej-s"
netbsd_cpu gnueabihf = codes "arm926ej-s"
netbsd_cpu _ = codes "strongarm"

abbrev pub environment_cpu : EnvironmentType → Text
environment_cpu eabihf = codes "arm1176jzf-s"
environment_cpu gnueabihf = codes "arm1176jzf-s"
environment_cpu musleabihf = codes "arm1176jzf-s"
environment_cpu _ = codes "arm7tdmi"

unfoldable pub minimum_cpu : OsType → EnvironmentType → Text
minimum_cpu netbsd e = netbsd_cpu e
minimum_cpu nacl e = codes "cortex-a8"
minimum_cpu openbsd e = codes "cortex-a8"
minimum_cpu _ e = environment_cpu e

-- With ARM::getDefaultCPU as a parameter.
module _ (get_default_cpu : Text → Text) where
  -- The CPU of the architecture, unless it has none.
  unfoldable pub default_cpu : Text → Text → Text
  default_cpu m rest =
      let cpu = get_default_cpu m in
      if not (is_empty cpu) && not (text_eq cpu (codes "invalid")) then cpu else rest

  -- The part after the names have been made canonical.
  unfoldable pub canonical_cpu : Host → TargetTriple → Text → Text
  canonical_cpu h t m =
      forced_cpu h t.os m
        (if is_empty m then codes "" else default_cpu m (minimum_cpu t.os t.environment))

  -- Triple::getARMCPUForArch
  unfoldable pub get_arm_cpu_for_arch : Host → TargetTriple → Text → Text
  get_arm_cpu_for_arch h t arch =
      canonical_cpu h t
        (h.get_canonical_arch_name (if is_empty arch then get_arch_name t else arch))
