-- ===== src/Subtarget.antt =====
-- The subtarget: TOYRISCVSubtarget.cpp of llvm/lib/Target/TOYRISCV.
use toy_riscv.Base.{
  ℕ, [], Bool, true, false, ◌||◌, ◌==◌, if◌then◌else◌, Text, codes, equals, is_empty, XLen, rv32,
  rv64, Outcome, ok, stop, aborted, ◌>>=◌, ◌≡◌, ◌⊎◌, refl, inl, inr,
}
use toy_riscv.Triple.Types.{ArchType, toyriscv32, toyriscv64, linux}
use toy_riscv.Triple.Target.{TargetTriple}
use toy_riscv.Triple.Properties.{get_arch_pointer_bit_width}
pub mod Tests

-- ParseSubtargetFeatures, which TableGen makes of TOYRISCV.td: whether it sets HasRV64 for a CPU, a CPU
-- to tune for, and features. The processors of TOYRISCV.td are cpu-rv32 and cpu-rv64, of which the
-- second has the feature.
pub record FeatureParser : Type 0 where
  pub sets_has_rv64 : Text → Text → Text → Bool
  pub cpu_rv32_lem : (tune : Text) → sets_has_rv64 (codes "cpu-rv32") tune [] ≡ false
  pub cpu_rv64_lem : (tune : Text) → sets_has_rv64 (codes "cpu-rv64") tune [] ≡ true

-- What initializeSubtargetDependencies sets: the CPU and XLenVT.
pub record Subtarget : Type 0 where
  pub cpu : Text
  pub xlen : XLen

unfoldable pub is_generic : Text → Bool
is_generic cpu = is_empty cpu || equals cpu "generic"

-- The tests on the architecture.
unfoldable pub choose_cpu : ArchType → Text → Outcome Text
choose_cpu toyriscv32 cpu = ok (if is_generic cpu then codes "cpu-rv32" else cpu)
choose_cpu toyriscv64 cpu = ok (if is_generic cpu then codes "cpu-rv64" else cpu)
choose_cpu _ cpu = stop aborted

-- TOYRISCVSubtarget::initializeSubtargetDependencies
unfoldable pub initialize_subtarget_dependencies :
    FeatureParser → TargetTriple → Text → Text → Text → Outcome Subtarget
initialize_subtarget_dependencies p t cpu tune fs = choose_cpu t.arch cpu >>= λ chosen.
    ok (record { cpu = chosen; xlen = (if p.sets_has_rv64 chosen tune fs then rv64 else rv32) })

abbrev pub bits : XLen → ℕ
bits rv32 = 32
bits rv64 = 64

-- For a triple of toyriscv32 or toyriscv64, with the CPU empty or generic and no further features, the
-- subtarget is made, and its registers are as wide as the pointers of the architecture.
pub initialize_subtarget_dependencies-bits :
    (p : FeatureParser) (t : TargetTriple) (cpu tune : Text)
    → (t.arch ≡ toyriscv32) ⊎ (t.arch ≡ toyriscv64)
    → is_generic cpu ≡ true
    → (s : Subtarget) × (initialize_subtarget_dependencies p t cpu tune [] ≡ ok s)
      × (bits s.xlen ≡ get_arch_pointer_bit_width t.arch)
unfolding initialize_subtarget_dependencies choose_cpu get_arch_pointer_bit_width
initialize_subtarget_dependencies-bits p t cpu tune (inl e) g =
    (record { cpu = codes "cpu-rv32"; xlen = rv32 }, rw (e, g, p.cpu_rv32_lem tune) refl, rw e refl)
initialize_subtarget_dependencies-bits p t cpu tune (inr e) g =
    (record { cpu = codes "cpu-rv64"; xlen = rv64 }, rw (e, g, p.cpu_rv64_lem tune) refl, rw e refl)
