-- ===== src/Mc/Expr/Names.antt =====
-- The names of the modifiers and the printed form.
use mathlib.Core.List.{append_assoc}
use toy_riscv.Base.{
  ◌≡◌, refl, ◌≢◌, ◌↔◌, inl, inr, true, Text, codes, text_eq_sound, ok, ◌++◌, arith, Pattern, exact,
  starts_with, ends_with, fits, AllCases, string_switch_sound,
}
use toy_riscv.Mc.Expr.{
  VariantKind, vk_lo, vk_hi, vk_pcrel_lo, vk_pcrel_hi, vk_got_hi, vk_tprel_lo, vk_tprel_hi,
  vk_tprel_add, vk_tls_got_hi, vk_tls_gd_hi, vk_invalid, McExpr, variant_kind_cases,
  get_variant_kind_for_name, get_variant_kind_name, print_impl,
}

-- The kinds that have a modifier in assembly text.
pub data IsModifier : VariantKind → Type 0 where
  lo : IsModifier vk_lo
  hi : IsModifier vk_hi
  pcrel_lo : IsModifier vk_pcrel_lo
  pcrel_hi : IsModifier vk_pcrel_hi
  got_hi : IsModifier vk_got_hi
  tprel_lo : IsModifier vk_tprel_lo
  tprel_hi : IsModifier vk_tprel_hi
  tprel_add : IsModifier vk_tprel_add
  tls_got_hi : IsModifier vk_tls_got_hi
  tls_gd_hi : IsModifier vk_tls_gd_hi

for_name_of_name :
    {k : VariantKind}
    → IsModifier k
    → (name : Text) → get_variant_kind_name k ≡ ok name
    → get_variant_kind_for_name name ≡ k
unfolding get_variant_kind_name get_variant_kind_for_name
for_name_of_name lo name h = ground arith
for_name_of_name _ name h = ground arith

abbrev IsNamed : Pattern → VariantKind → Type 0
IsNamed (exact s) k = IsModifier k × (get_variant_kind_name k ≡ ok (codes s))
IsNamed _ k = ⊥

cases-IsNamed : AllCases IsNamed variant_kind_cases
unfolding get_variant_kind_name
cases-IsNamed =
    search
      (lo, hi, pcrel_lo, pcrel_hi, got_hi, tprel_lo, tprel_hi, tprel_add, tls_got_hi, tls_gd_hi)

named_by_case :
    (p : Pattern) (name : Text) (k : VariantKind)
    → fits p name ≡ true
    → IsNamed p k
    → IsModifier k × (get_variant_kind_name k ≡ ok name)
named_by_case (exact s) name k e h = (h.0, rw (text_eq_sound name (codes s) e) h.1)
named_by_case (starts_with s) name k e h = absurd h
named_by_case (ends_with s) name k e h = absurd h

name_of_for_name :
    (name : Text)
    → get_variant_kind_for_name name ≢ vk_invalid
    → IsModifier (get_variant_kind_for_name name)
      × (get_variant_kind_name (get_variant_kind_for_name name) ≡ ok name)
unfolding get_variant_kind_for_name
name_of_for_name name h =
    elim (string_switch_sound IsNamed variant_kind_cases vk_invalid name cases-IsNamed) [
      | inl e ↦ absurd (h e)
      | inr (p, e, n) ↦ named_by_case p name _ e n
    ]

modifier_valid : {k : VariantKind} → IsModifier k → k ≢ vk_invalid
modifier_valid lo h = cc
modifier_valid _ h = cc

modifier_named :
    {k : VariantKind} → IsModifier k → (name : Text) × (get_variant_kind_name k ≡ ok name)
unfolding get_variant_kind_name
modifier_named lo = (codes "lo", refl)
modifier_named _ = (_, refl)

print_named :
    (print : McExpr → Text) (e : McExpr) {k : VariantKind}
    → IsModifier k
    → (name : Text) → get_variant_kind_name k ≡ ok name
    → print_impl print (record { expr = e; kind = k })
      ≡ ok (codes "%" ++ name ++ codes "(" ++ print e ++ codes ")")
unfolding print_impl
print_named print e lo name h = rw h (simp append_assoc)
print_named print e _ name h = rw h (simp append_assoc)

-- A name parses as a kind other than vk_invalid exactly when it is the printed name of that kind, and
-- the kind is one of the ten modifiers.
pub for_name-name :
    (name : Text) (k : VariantKind)
    → ((get_variant_kind_for_name name ≡ k) × (k ≢ vk_invalid))
      ↔ (IsModifier k × (get_variant_kind_name k ≡ ok name))
for_name-name name k = (
  (λ h. rw (← h.0) (name_of_for_name name (rw h.0 h.1))),
  (λ h. (for_name_of_name h.0 name h.1, modifier_valid h.0)),
)

-- An expression with one of the ten modifiers prints as the modifier, whose name parses back to its
-- kind, and the sub-expression in parentheses.
pub print_impl-modifier :
    (print : McExpr → Text) (e : McExpr) {k : VariantKind}
    → IsModifier k
    → (name : Text) × (get_variant_kind_for_name name ≡ k)
      × (print_impl print (record { expr = e; kind = k })
          ≡ ok (codes "%" ++ name ++ codes "(" ++ print e ++ codes ")"))
unfolding print_impl
print_impl-modifier print e {k} m =
    let (name, named) = modifier_named m in
    (name, for_name_of_name m name named, print_named print e m name named)
