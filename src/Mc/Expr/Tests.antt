-- ===== src/Mc/Expr/Tests.antt =====
-- The theorems about target expressions at concrete inputs.
use toy_riscv.Base.{
  ℕ, ◌+◌, ◌-◌, ◌*◌, ◌%◌, ◌^◌, ◌≤◌, ◌<◌, ◌≡◌, refl, ◌≢◌, ◌↔◌, ◌⊎◌, Bool, true, false, Option, none,
  some, Text, codes, ◌++◌, ok, stop, unreachable, ltb, if◌then◌else◌,
}
use toy_riscv.Mc.Expr.{
  VariantKind, vk_none, vk_lo, vk_got_hi, vk_tls_gd_hi, vk_invalid, McExpr, constant, symbol_ref,
  unary, binary, target, add, TargetExpr, SignExtend, evaluate_as_int64, get_variant_kind_for_name,
  get_variant_kind_name, print_impl,
}
use toy_riscv.Mc.Expr.Immediates.{hi-add-lo}
use toy_riscv.Mc.Expr.Names.{IsModifier, got_hi, for_name-name, print_impl-modifier}
use toy_riscv.Mc.Expr.Tls.{
  stt_tls, stt_other, fix_elf_symbols_in_tls_fixups, occurs, fix_elf_symbols_in_tls_fixups-marks,
  Symbols,
}
use toy_riscv.Mc.Expr.Evaluate.{
  McValue, Evaluation, evaluate_as_relocatable_impl, evaluate_as_constant, HasConstant,
  is_link_time, evaluate_as_relocatable_impl_lem, evaluate_as_constant_iff,
  evaluate_as_constant-stops,
}

abbrev sign_extend : SignExtend
sign_extend = record {
  sign_extend_12 = λ x. if ltb (x % 4096) 2048 then x % 4096 else x % 4096 + (2 ^ 64 - 4096);
  sign_extend_12_lem = λ x. refl;
}

hi-add-lo_example :
    (0x12346 < 2 ^ 20)
    × ((2 ^ 64 - 0x544 < 2 ^ 11) ⊎ (2 ^ 64 - 2 ^ 11 ≤ 2 ^ 64 - 0x544))
    × ((0x12346 * 2 ^ 12 + (2 ^ 64 - 0x544)) % 2 ^ 32 ≡ 0x12345abc % 2 ^ 32)
unfolding evaluate_as_int64
hi-add-lo_example = hi-add-lo sign_extend 0x12345abc 0x12346 (2 ^ 64 - 0x544) refl refl

for_name-name_example :
    ((get_variant_kind_for_name (codes "got_pcrel_hi") ≡ vk_got_hi) × (vk_got_hi ≢ vk_invalid))
    ↔ (IsModifier vk_got_hi × (get_variant_kind_name vk_got_hi ≡ ok (codes "got_pcrel_hi")))
for_name-name_example = for_name-name (codes "got_pcrel_hi") vk_got_hi

abbrev plain : McExpr → Text
plain e = codes "sym"

print_impl-modifier_example :
    (name : Text) × (get_variant_kind_for_name name ≡ vk_got_hi)
    × (print_impl plain (record { expr = symbol_ref 1; kind = vk_got_hi })
        ≡ ok (codes "%" ++ name ++ codes "(" ++ codes "sym" ++ codes ")"))
print_impl-modifier_example = print_impl-modifier plain (symbol_ref 1) got_hi

-- %tls_gd_pcrel_hi(s3 + 4)
abbrev tls_sum : TargetExpr
tls_sum = record { expr = binary add (symbol_ref 3) (constant 4); kind = vk_tls_gd_hi }

abbrev no_types : Symbols
no_types = λ x. stt_other 0

fix_elf_symbols_in_tls_fixups-marks_example :
    (types : Symbols) × (fix_elf_symbols_in_tls_fixups tls_sum no_types ≡ ok types)
    × ((x : ℕ) → types x ≡ (if occurs x tls_sum.expr then stt_tls else stt_other 0))
fix_elf_symbols_in_tls_fixups-marks_example =
    fix_elf_symbols_in_tls_fixups-marks tls_sum no_types refl

abbrev nested : TargetExpr
nested = record { expr = unary 0 (target vk_lo (symbol_ref 3)); kind = vk_tls_gd_hi }

abbrev value_of : Option ℕ → ℕ → McValue
value_of s n = record { sym_a = s; sym_b = none; offset = n; ref_kind = vk_none }

abbrev run : McExpr → McValue → McValue × Bool
run (constant n) v = (value_of none n, true)
run (symbol_ref s) v = (value_of (some s) 0, true)
run _ v = (v, false)

abbrev absolute : McValue → Bool
absolute v = elim v.sym_a [
  | none ↦ (elim v.sym_b [ none ↦ true | some s ↦ false ])
  | some s ↦ false
]

abbrev library : Evaluation
library = record { evaluate = run; default_value = value_of none 0; is_absolute = absolute }

abbrev lo_of : McExpr → TargetExpr
lo_of e = record { expr = e; kind = vk_lo }

evaluate_as_relocatable_impl_lem_example :
    ((evaluate_as_relocatable_impl library (lo_of (symbol_ref 5)) (value_of none 0)).1 ≡ true) ↔ (
      (◌≡◌ {A = Bool} true true)
      × ((◌≡◌ {A = Option ℕ} none none) ⊎ (vk_lo ≡ vk_none))
      × ((evaluate_as_relocatable_impl library (lo_of (symbol_ref 5)) (value_of none 0)).0
          ≡ record (value_of (some 5) 0) { ref_kind = vk_lo }))
evaluate_as_relocatable_impl_lem_example =
    evaluate_as_relocatable_impl_lem library (lo_of (symbol_ref 5)) (value_of none 0)

-- %lo of 0x1800 is -0x800.
evaluate_as_constant_iff_example :
    ((evaluate_as_constant library sign_extend (lo_of (constant 0x1800))
        ≡ ok (some (2 ^ 64 - 0x800)))
      ↔ ((◌≡◌ {A = Bool} true true)
          × (◌≡◌ {A = Bool} true true)
          × HasConstant vk_lo 0x1800 (2 ^ 64 - 0x800)))
    × ((evaluate_as_constant library sign_extend (lo_of (constant 0x1800)) ≡ ok none)
        ↔ ((◌≡◌ {A = Bool} true false) ⊎ (◌≡◌ {A = Bool} true false) ⊎ (is_link_time vk_lo ≡ true)))
evaluate_as_constant_iff_example =
    evaluate_as_constant_iff library sign_extend (lo_of (constant 0x1800)) (2 ^ 64 - 0x800)

abbrev bare : TargetExpr
bare = record { expr = constant 7; kind = vk_none }

evaluate_as_constant-stops_example :
    (evaluate_as_constant library sign_extend bare ≡ stop (unreachable "Invalid kind")) ↔ (
      (◌≡◌ {A = Bool} true true)
      × (◌≡◌ {A = Bool} true true)
      × ((vk_none ≡ vk_none) ⊎ (vk_none ≡ VariantKind.vk_32_pcrel) ⊎ (vk_none ≡ vk_invalid)))
evaluate_as_constant-stops_example = evaluate_as_constant-stops library sign_extend bare
