-- ===== src/Triple/Versions/Compatible.antt =====
-- Triple::isCompatibleWith of llvm/lib/Support/Triple.cpp.
use toy_riscv.Base.{
  ℕ, Bool, true, ◌&&◌, ◌||◌, ◌==◌, if◌then◌else◌, ◌≡◌, sym, ◌∙◌, arith, Bool-cases, inl, inr,
}
use toy_riscv.Triple.Types.{arm, armeb, thumb, thumbeb, apple}
use toy_riscv.Triple.Target.{TargetTriple}
use toy_riscv.Triple.Numbers.{
  arch_number, has_arch, has_sub_arch, has_vendor, has_os, has_environment_type, has_object_format,
  same_triple,
}

-- The pairs of an ARM and a Thumb triple.
abbrev pub is_arm_with_thumb : TargetTriple → TargetTriple → Bool
is_arm_with_thumb t u =
    (has_arch t thumb && has_arch u arm)
    || ((has_arch t arm && has_arch u thumb)
        || ((has_arch t thumbeb && has_arch u armeb) || (has_arch t armeb && has_arch u thumbeb)))

unfoldable pub is_compatible_with : TargetTriple → TargetTriple → Bool
is_compatible_with t u =
    if is_arm_with_thumb t u
    then (if has_vendor t apple
        then has_sub_arch t u.sub_arch && (has_vendor t u.vendor && has_os t u.os)
        else has_sub_arch t u.sub_arch
          && (has_vendor t u.vendor
              && (has_os t u.os
                  && (has_environment_type t u.environment
                      && has_object_format t u.object_format))))
    else if has_vendor t apple
    then has_arch t u.arch
      && (has_sub_arch t u.sub_arch && (has_vendor t u.vendor && has_os t u.os))
    else same_triple t u

-- The number of an architecture, with Thumb taken for ARM.
abbrev pub arm_for_thumb : ℕ → ℕ
arm_for_thumb n = if n == 34 then 1 else if n == 35 then 2 else n

-- What two compatible triples have in common.
abbrev pub common : TargetTriple → TargetTriple → Bool
common t u =
    (arm_for_thumb (arch_number t.arch) == arm_for_thumb (arch_number u.arch))
    && (has_sub_arch t u.sub_arch
        && (has_vendor t u.vendor
            && (has_os t u.os
                && (has_vendor t apple
                    || (has_environment_type t u.environment
                        && has_object_format t u.object_format)))))

arch_eq :
    (a b : ℕ)
    → ((a == 34) && (b == 1))
        || (((a == 1) && (b == 34)) || (((a == 35) && (b == 2)) || ((a == 2) && (b == 35))))
        || (a == b)
      ≡ (arm_for_thumb a == arm_for_thumb b)
arch_eq a b = ground arith

-- Two triples are compatible exactly when they agree on the architecture, with Thumb taken for ARM, on the
-- sub-architecture, the vendor and the operating system, and, unless the vendor is Apple, on the environment and the
-- object format.
pub is_compatible_with-common : (t u : TargetTriple) → is_compatible_with t u ≡ common t u
unfolding is_compatible_with arch_number
is_compatible_with-common t u =
    let arch = arch_eq (arch_number t.arch) (arch_number u.arch) in
    elim (Bool-cases (is_arm_with_thumb t u)) [
      | inl e ↦ elim (Bool-cases (has_vendor t apple)) [
        | inl f ↦ ground (arith, arch, e, f)
        | inr f ↦ ground (arith, arch, e, f)
      ]
      | inr e ↦ elim (Bool-cases (has_vendor t apple)) [
        | inl f ↦ ground (arith, arch, e, f)
        | inr f ↦ ground (arith, arch, e, f)
      ]
    ]

common_refl : (t : TargetTriple) → common t t ≡ true
common_refl t = ground arith

common_sym : (t u : TargetTriple) → common t u ≡ true → common u t ≡ true
common_sym t u h = ground (arith, h)

common_trans : (t u w : TargetTriple) → common t u ≡ true → common u w ≡ true → common t w ≡ true
common_trans t u w h k = ground (arith, h, k)

-- Compatibility of triples is reflexive, symmetric and transitive.
abbrev pub Equivalence : (TargetTriple → TargetTriple → Bool) → Type 0
Equivalence r =
    ((t : TargetTriple) → r t t ≡ true)
    × ((t u : TargetTriple) → r t u ≡ true → r u t ≡ true)
    × ((t u w : TargetTriple) → r t u ≡ true → r u w ≡ true → r t w ≡ true)

is_compatible_with-Equivalence : Equivalence is_compatible_with
is_compatible_with-Equivalence = (
  λ t. is_compatible_with-common t t ∙ common_refl t,
  λ t u h. is_compatible_with-common u t ∙ common_sym t u (sym (is_compatible_with-common t u) ∙ h),
  λ t u w h k.
      is_compatible_with-common t w
      ∙ common_trans t u w (sym (is_compatible_with-common t u) ∙ h)
          (sym (is_compatible_with-common u w) ∙ k),
)
