-- ===== src/Triple/VariantLaws.antt =====
-- What the variants of a triple are: get32BitArchVariant and the others of llvm/lib/Support/Triple.cpp.
use toy_riscv.Base.{
  Bool-cases, Text, String, ◌≡◌, refl, ◌⊎◌, inl, inr, Outcome, ok, stop, unreachable,
}
use toy_riscv.Triple.Types.{ArchType, aarch64_32, arc, no_sub_arch}
use toy_riscv.Triple.Host.{Host}
use toy_riscv.Triple.Properties.{is_little_endian}
use toy_riscv.Triple.Widths.{ArchChange, keep, impossible, change, change_with_sub}
use toy_riscv.Triple.Endians.{change_to_big_endian, change_to_little_endian}
use toy_riscv.Triple.WidthLaws.{
  Reaches, HasWidth, change_to_32_bit-Reaches, change_to_64_bit-Reaches,
}
use toy_riscv.Triple.EndianLaws.{
  IsBig, IsLittle, change_to_big_endian-Reaches, change_to_little_endian-Reaches,
}
use toy_riscv.Triple.Target.{TargetTriple, parse_triple}
use toy_riscv.Triple.Accessors.{set_arch_lem}
use toy_riscv.Triple.Variants.{
  apply_change, get_32_bit_arch_variant, get_64_bit_arch_variant, get_big_endian_arch_variant,
  get_little_endian_arch_variant,
}

-- The outcome is a triple of which the architecture has the property, and the vendor and the
-- operating system are those of the other triple.
unfoldable pub Becomes : (ArchType → Type 0) → Outcome TargetTriple → TargetTriple → Type 0
Becomes P r t = (u : TargetTriple) × (r ≡ ok u) × P u.arch × (u.vendor ≡ t.vendor) × (u.os ≡ t.os)

module _ (h : Host) (x : Text) where
  pub apply_change-Becomes :
      (P : ArchType → Type 0) (m : String) (c : ArchChange)
      → Reaches P c (parse_triple h x).arch
      → Becomes P (apply_change h m c (parse_triple h x)) (parse_triple h x)
  unfolding Reaches Becomes apply_change
  apply_change-Becomes P m keep p = (parse_triple h x, refl, p, refl, refl)
  apply_change-Becomes P m impossible p = absurd p
  apply_change-Becomes P m (change k) p =
      let s = set_arch_lem h x k no_sub_arch in (_, refl, rw s.0 p, s.1, s.2)
  apply_change-Becomes P m (change_with_sub k) p =
      let s = set_arch_lem h x k (parse_triple h x).sub_arch in (_, refl, rw s.0 p, s.1, s.2)

  -- The 32-bit variant of a parsed triple always exists: its architecture is unknown or has pointers
  -- of 32 bits, and its vendor and operating system are those of the triple.
  get_32_bit_arch_variant_lem :
      Becomes (HasWidth 32) (get_32_bit_arch_variant h (parse_triple h x)) (parse_triple h x)
  unfolding get_32_bit_arch_variant
  get_32_bit_arch_variant_lem =
      apply_change-Becomes (HasWidth 32) "" _ (change_to_32_bit-Reaches (parse_triple h x).arch)

  -- The 64-bit variant of a parsed triple always exists: its architecture is unknown or has pointers
  -- of 64 bits, and its vendor and operating system are those of the triple.
  pub get_64_bit_arch_variant_lem :
      Becomes (HasWidth 64) (get_64_bit_arch_variant h (parse_triple h x)) (parse_triple h x)
  unfolding get_64_bit_arch_variant
  get_64_bit_arch_variant_lem =
      apply_change-Becomes (HasWidth 64) "" _ (change_to_64_bit-Reaches (parse_triple h x).arch)

  -- The big-endian variant of a parsed triple is a triple whose architecture is not little-endian,
  -- with the vendor and the operating system kept, save that for aarch64_32 the function stops at
  -- llvm_unreachable.
  pub get_big_endian_arch_variant_lem :
      (((parse_triple h x).arch ≡ aarch64_32)
        × (get_big_endian_arch_variant h (parse_triple h x)
            ≡ stop (unreachable "getBigEndianArchVariant: unknown triple.")))
      ⊎ Becomes IsBig (get_big_endian_arch_variant h (parse_triple h x)) (parse_triple h x)
  unfolding get_big_endian_arch_variant change_to_big_endian apply_change Becomes IsBig
  get_big_endian_arch_variant_lem = elim (Bool-cases (is_little_endian (parse_triple h x).arch)) [
    | inl e ↦ rw e (elim (change_to_big_endian-Reaches (parse_triple h x).arch e) [
      | inl f ↦ inl (f, rw f refl)
      | inr p ↦ inr (apply_change-Becomes IsBig _ _ p)
    ])
    | inr e ↦ inr (rw e (_, refl, e, refl, refl))
  ]

  -- The little-endian variant of a parsed triple is a triple whose architecture is unknown or
  -- little-endian, with the vendor and the operating system kept, save that for arc the function
  -- stops at llvm_unreachable.
  pub get_little_endian_arch_variant_lem :
      (((parse_triple h x).arch ≡ arc)
        × (get_little_endian_arch_variant h (parse_triple h x)
            ≡ stop (unreachable "getLittleEndianArchVariant: unknown triple.")))
      ⊎ Becomes IsLittle (get_little_endian_arch_variant h (parse_triple h x)) (parse_triple h x)
  unfolding get_little_endian_arch_variant change_to_little_endian apply_change Becomes IsLittle
  get_little_endian_arch_variant_lem =
      elim (Bool-cases (is_little_endian (parse_triple h x).arch)) [
        | inr e ↦ rw e (elim (change_to_little_endian-Reaches (parse_triple h x).arch e) [
          | inl f ↦ inl (f, rw f refl)
          | inr p ↦ inr (apply_change-Becomes IsLittle _ _ p)
        ])
        | inl e ↦ inr (rw e (_, refl, inr e, refl, refl))
      ]
