-- ===== src/Triple/ArmCpuLaws.antt =====
-- The CPU of an ARM triple is named.
use toy_riscv.Base.{false, if◌then◌else◌, Text, is_empty, ◌≡◌, refl, arith}
use toy_riscv.Triple.Types.{
  OsType, freebsd, netbsd, openbsd, win32, ios, macosx, tvos, watchos, nacl, EnvironmentType,
}
use toy_riscv.Triple.Host.{Host}
use toy_riscv.Triple.Target.{TargetTriple, get_arch_name}
use toy_riscv.Triple.ArmCpu.{
  bsd_cpu, forced_cpu, environment_cpu, minimum_cpu, default_cpu, canonical_cpu,
  get_arm_cpu_for_arch,
}

environment_cpu-is_empty : (e : EnvironmentType) → is_empty (environment_cpu e) ≡ false
environment_cpu-is_empty e = ground arith

minimum_cpu-is_empty : (o : OsType) (e : EnvironmentType) → is_empty (minimum_cpu o e) ≡ false
unfolding minimum_cpu
minimum_cpu-is_empty netbsd e = ground arith
minimum_cpu-is_empty nacl e = refl
minimum_cpu-is_empty openbsd e = refl
minimum_cpu-is_empty _ e = environment_cpu-is_empty e

bsd_cpu-is_empty : (m rest : Text) → is_empty rest ≡ false → is_empty (bsd_cpu m rest) ≡ false
bsd_cpu-is_empty m rest h = ground (arith, h)

forced_cpu-is_empty :
    (h : Host) (o : OsType) (m rest : Text)
    → is_empty rest ≡ false
    → is_empty (forced_cpu h o m rest) ≡ false
unfolding forced_cpu
forced_cpu-is_empty h freebsd m rest k = bsd_cpu-is_empty m rest k
forced_cpu-is_empty h netbsd m rest k = bsd_cpu-is_empty m rest k
forced_cpu-is_empty h openbsd m rest k = bsd_cpu-is_empty m rest k
forced_cpu-is_empty h win32 m rest k = ground (arith, k)
forced_cpu-is_empty h ios m rest k = ground (arith, k)
forced_cpu-is_empty h macosx m rest k = ground (arith, k)
forced_cpu-is_empty h tvos m rest k = ground (arith, k)
forced_cpu-is_empty h watchos m rest k = ground (arith, k)
forced_cpu-is_empty h _ m rest k = k

module _ (get_default_cpu : Text → Text) where
  default_cpu-is_empty :
      (m rest : Text)
      → is_empty rest ≡ false
      → is_empty (default_cpu get_default_cpu m rest) ≡ false
  unfolding default_cpu
  default_cpu-is_empty m rest k = ground (arith, k)

  -- getARMCPUForArch names a CPU whenever the canonical name of the architecture is not empty, whatever
  -- ARM::getDefaultCPU knows.
  get_arm_cpu_for_arch-is_empty :
      (h : Host) (t : TargetTriple) (arch : Text)
      → is_empty (h.get_canonical_arch_name (if is_empty arch then get_arch_name t else arch))
        ≡ false
      → is_empty (get_arm_cpu_for_arch get_default_cpu h t arch) ≡ false
  unfolding get_arm_cpu_for_arch canonical_cpu
  get_arm_cpu_for_arch-is_empty h t arch k =
      let m = h.get_canonical_arch_name (if is_empty arch then get_arch_name t else arch) in
      rw k (
        forced_cpu-is_empty h t.os m
          (default_cpu get_default_cpu m (minimum_cpu t.os t.environment))
          (default_cpu-is_empty m (minimum_cpu t.os t.environment)
            (minimum_cpu-is_empty t.os t.environment)))
