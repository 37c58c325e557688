-- ===== src/Mc/Expr/Evaluate.antt =====
-- evaluateAsRelocatableImpl, evaluateAsConstant and getPCRelHiFixup of TOYRISCVMCExpr.cpp. What
-- LLVM does with a plain expression is the parameter of the section: evaluateAsRelocatable without
-- layout and assembler writes its first argument and says whether it succeeded.
use toy_riscv.Base.{
  ℕ, ◌≡◌, ◌↔◌, ◌⊎◌, Bool, true, false, not, Option, none, some, Outcome, ok, stop, unreachable,
  ◌>>=◌, ◌==◌, arith, ◌+◌, ◌-◌, ◌%◌, ◌/◌, ◌^◌, ltb, if◌then◌else◌,
}
use toy_riscv.Mc.Expr.{
  VariantKind, vk_none, vk_pcrel_lo, vk_pcrel_hi, vk_got_hi, vk_tprel_lo, vk_tprel_hi, vk_tprel_add,
  vk_tls_got_hi, vk_tls_gd_hi, vk_call, vk_call_plt, vk_32_pcrel, vk_invalid, vk_lo, vk_hi, McExpr,
  TargetExpr, SignExtend, evaluate_as_int64,
}

-- MCValue: two symbols, a constant and a kind.
pub record McValue : Type 0 where
  pub sym_a : Option ℕ
  pub sym_b : Option ℕ
  pub offset : ℕ
  pub ref_kind : VariantKind

-- A data fragment holds a number of bytes, and the node after it may be another one.
pub record Fragments : Type 1 where
  pub DataFragment : Type 0
  pub Fixup : Type 0
  pub fragment_of : ℕ → Option DataFragment
  pub offset_of : ℕ → ℕ
  pub contents_size : DataFragment → ℕ
  pub next_node : DataFragment → Option DataFragment

pub record Evaluation : Type 0 where
  pub evaluate : McExpr → McValue → McValue × Bool
  -- MCValue(), the value of a default-constructed one
  pub default_value : McValue
  pub is_absolute : McValue → Bool

abbrev is_some {ℓ} : {A : Type ℓ} → Option A → Bool
is_some none = false
is_some (some a) = true

abbrev pub is_none_kind : VariantKind → Bool
is_none_kind vk_none = true
is_none_kind _ = false

-- The kinds that evaluateAsConstant turns down first.
abbrev pub is_relocated : VariantKind → Bool
is_relocated vk_pcrel_hi = true
is_relocated vk_pcrel_lo = true
is_relocated vk_got_hi = true
is_relocated vk_tprel_hi = true
is_relocated vk_tprel_lo = true
is_relocated vk_tprel_add = true
is_relocated vk_tls_got_hi = true
is_relocated vk_tls_gd_hi = true
is_relocated vk_call = true
is_relocated vk_call_plt = true
is_relocated _ = false

-- The constant of a kind.
abbrev pub HasConstant : VariantKind → ℕ → ℕ → Type 0
HasConstant vk_lo v n = n ≡ (if ltb (v % 4096) 2048 then v % 4096 else v % 4096 + (2 ^ 64 - 4096))
HasConstant vk_hi v n = n ≡ (v + 0x800) % 2 ^ 64 / 4096 % 2 ^ 20
HasConstant _ v n = ⊥

-- The kinds that only the linker can evaluate.
abbrev pub is_link_time : VariantKind → Bool
is_link_time vk_lo = false
is_link_time vk_hi = false
is_link_time vk_none = false
is_link_time vk_32_pcrel = false
is_link_time vk_invalid = false
is_link_time _ = true

module _ (lib : Evaluation) where
  open lib use {evaluate, default_value, is_absolute}

  unfoldable pub evaluate_as_relocatable_impl : TargetExpr → McValue → McValue × Bool
  evaluate_as_relocatable_impl e res =
      let (value, done) = evaluate e.expr res in
      if not done then (value, false) else (
        record value { ref_kind = e.kind },
        (if is_some value.sym_b then is_none_kind e.kind else true),
      )

  -- `none` is `false`; `some` is `true` with the value that is written to Res.
  unfoldable pub evaluate_as_constant : SignExtend → TargetExpr → Outcome (Option ℕ)
  unfolding evaluate_as_int64
  evaluate_as_constant m e =
      let (value, done) = evaluate e.expr default_value in
      if is_relocated e.kind
      then ok none
      else if not done
      then ok none
      else if not (is_absolute value)
      then ok none
      else (evaluate_as_int64 m e.kind value.offset >>= λ res. ok (some res))

  module _ (f : Fragments) where
    open f use {DataFragment, Fixup, fragment_of, offset_of, contents_size, next_node}

    -- After the fragment and the offset are found, the function ends with `return nullptr`.
    unfoldable pub get_pcrel_hi_fixup : TargetExpr → Option Fixup
    get_pcrel_hi_fixup e =
        let (value, done) = evaluate e.expr default_value in
        if not done then none else elim value.sym_a [
          | none ↦ none
          | some symbol ↦ elim (fragment_of symbol) [
            | none ↦ none
            | some fragment ↦
                if contents_size fragment == offset_of symbol
                then elim (next_node fragment) [ none ↦ none | some next ↦ none ]
                else none
          ]
        ]

  -- A successful evaluation keeps the symbols and the constant of the sub-expression and carries
  -- the kind of the modifier; it succeeds exactly if the sub-expression does, and is no difference
  -- of symbols unless the kind is vk_none.
  pub evaluate_as_relocatable_impl_lem :
      (e : TargetExpr) (res : McValue)
      → ((evaluate_as_relocatable_impl e res).1 ≡ true) ↔ (
          ((evaluate e.expr res).1 ≡ true)
          × (((evaluate e.expr res).0.sym_b ≡ none) ⊎ (e.kind ≡ vk_none))
          × ((evaluate_as_relocatable_impl e res).0
              ≡ record (evaluate e.expr res).0 { ref_kind = e.kind }))
  unfolding evaluate_as_relocatable_impl
  evaluate_as_relocatable_impl_lem e res = ground arith

  -- evaluateAsConstant gives a constant exactly if the sub-expression evaluates to an absolute
  -- value and the kind is vk_lo or vk_hi: of vk_lo the twelve low bits, sign-extended, and of vk_hi
  -- the twenty bits above them, rounded. It gives false exactly if the sub-expression does not
  -- evaluate, or not to an absolute value, or the kind is none of vk_lo, vk_hi, vk_none,
  -- vk_32_pcrel and vk_invalid.
  pub evaluate_as_constant_iff :
      (m : SignExtend) (e : TargetExpr) (n : ℕ)
      → ((evaluate_as_constant m e ≡ ok (some n)) ↔ (
          ((evaluate e.expr default_value).1 ≡ true)
          × (is_absolute (evaluate e.expr default_value).0 ≡ true)
          × HasConstant e.kind (evaluate e.expr default_value).0.offset n))
        × ((evaluate_as_constant m e ≡ ok none) ↔ (
            ((evaluate e.expr default_value).1 ≡ false)
            ⊎ (is_absolute (evaluate e.expr default_value).0 ≡ false)
            ⊎ (is_link_time e.kind ≡ true)))
  unfolding evaluate_as_constant evaluate_as_int64
  evaluate_as_constant_iff m e n =
      let low = m.sign_extend_12_lem (evaluate e.expr default_value).0.offset in
      (ground (arith, low), ground arith)

  -- The call stops the compiler exactly if the kind is vk_none, vk_32_pcrel or vk_invalid and the
  -- sub-expression evaluates to an absolute value.
  pub evaluate_as_constant-stops :
      (m : SignExtend) (e : TargetExpr)
      → (evaluate_as_constant m e ≡ stop (unreachable "Invalid kind")) ↔ (
          ((evaluate e.expr default_value).1 ≡ true)
          × (is_absolute (evaluate e.expr default_value).0 ≡ true)
          × ((e.kind ≡ vk_none) ⊎ (e.kind ≡ vk_32_pcrel) ⊎ (e.kind ≡ vk_invalid)))
  unfolding evaluate_as_constant
  evaluate_as_constant-stops m e = ground arith
