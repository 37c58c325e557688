-- ===== src/Mc/Expr.antt =====
-- llvm/lib/Target/TOYRISCV/MCTargetDesc/TOYRISCVMCExpr.h and TOYRISCVMCExpr.cpp: expressions with a
-- relocation modifier. An int64_t is its bit pattern, a number below 2 ^ 64. What LLVM provides (the
-- evaluation and the printing of a plain expression, SignExtend64) is a parameter.
pub mod Immediates
pub mod Names
pub mod Tls
pub mod Evaluate
mod Tests
use toy_riscv.Base.{
  ℕ, ◌+◌, ◌-◌, ◌*◌, ◌/◌, ◌%◌, ◌^◌, ◌≡◌, Bool, true, false, not, ◌&&◌, ◌||◌, Option, none, some,
  List, [], ◌∷◌, ◌++◌, Text, String, codes, Pattern, exact, string_switch, Outcome, ok, stop,
  unreachable, ◌>>=◌, ltb, ◌==◌, if◌then◌else◌,
}

-- The constructors of VariantKind without the prefix VK_RISCV_.
pub data VariantKind : Type 0 where
  vk_none vk_lo vk_hi vk_pcrel_lo vk_pcrel_hi vk_got_hi vk_tprel_lo vk_tprel_hi vk_tprel_add :
      VariantKind
  vk_tls_got_hi vk_tls_gd_hi vk_call vk_call_plt vk_32_pcrel vk_invalid : VariantKind

-- The kinds of MCExpr that the code switches on. A symbol is a number, and so is the opcode of an
-- operation; `add` is the one that the backend builds.
pub data BinaryOpcode : Type 0 where
  add : BinaryOpcode
  other_opcode : ℕ → BinaryOpcode

pub data McExpr : Type 0 where
  constant : ℕ → McExpr
  symbol_ref : ℕ → McExpr
  unary : ℕ → McExpr → McExpr
  binary : BinaryOpcode → McExpr → McExpr → McExpr
  target : VariantKind → McExpr → McExpr

-- TOYRISCVMCExpr: a sub-expression and its kind.
pub record TargetExpr : Type 0 where
  pub expr : McExpr
  pub kind : VariantKind

-- TOYRISCVMCExpr::create: the new object, as an expression.
unfoldable pub create : McExpr → VariantKind → McExpr
create e k = target k e

abbrev pub variant_kind_cases : List (Pattern × VariantKind)
variant_kind_cases =
    (exact "lo", vk_lo)
    ∷ (exact "hi", vk_hi)
    ∷ (exact "pcrel_lo", vk_pcrel_lo)
    ∷ (exact "pcrel_hi", vk_pcrel_hi)
    ∷ (exact "got_pcrel_hi", vk_got_hi)
    ∷ (exact "tprel_lo", vk_tprel_lo)
    ∷ (exact "tprel_hi", vk_tprel_hi)
    ∷ (exact "tprel_add", vk_tprel_add)
    ∷ (exact "tls_ie_pcrel_hi", vk_tls_got_hi)
    ∷ (exact "tls_gd_pcrel_hi", vk_tls_gd_hi)
    ∷ []

unfoldable pub get_variant_kind_for_name : Text → VariantKind
get_variant_kind_for_name = string_switch variant_kind_cases vk_invalid

unfoldable pub get_variant_kind_name : VariantKind → Outcome Text
get_variant_kind_name vk_invalid = stop (unreachable "Invalid ELF symbol kind")
get_variant_kind_name vk_none = stop (unreachable "Invalid ELF symbol kind")
get_variant_kind_name vk_lo = ok (codes "lo")
get_variant_kind_name vk_hi = ok (codes "hi")
get_variant_kind_name vk_pcrel_lo = ok (codes "pcrel_lo")
get_variant_kind_name vk_pcrel_hi = ok (codes "pcrel_hi")
get_variant_kind_name vk_got_hi = ok (codes "got_pcrel_hi")
get_variant_kind_name vk_tprel_lo = ok (codes "tprel_lo")
get_variant_kind_name vk_tprel_hi = ok (codes "tprel_hi")
get_variant_kind_name vk_tls_got_hi = ok (codes "tls_ie_pcrel_hi")
get_variant_kind_name vk_tprel_add = ok (codes "tprel_add")
get_variant_kind_name vk_tls_gd_hi = ok (codes "tls_gd_pcrel_hi")
get_variant_kind_name vk_call = ok (codes "call")
get_variant_kind_name vk_call_plt = ok (codes "call_plt")
get_variant_kind_name vk_32_pcrel = ok (codes "32_pcrel")

abbrev pub is_call_plt : VariantKind → Bool
is_call_plt vk_call_plt = true
is_call_plt _ = false

-- HasVariant in printImpl.
abbrev pub has_variant : VariantKind → Bool
has_variant vk_none = false
has_variant vk_call = false
has_variant vk_call_plt = false
has_variant _ = true

-- printImpl, as the text that it writes.
unfoldable pub print_impl : (McExpr → Text) → TargetExpr → Outcome Text
print_impl print e = do
  opening ←
      (if has_variant e.kind
        then (get_variant_kind_name e.kind >>= λ name. ok (codes "%" ++ name ++ codes "("))
        else ok [])
  ok (
      opening
      ++ print e.expr
      ++ (if is_call_plt e.kind then codes "@plt" else [])
      ++ (if has_variant e.kind then codes ")" else []))

-- What the backend uses of llvm/Support/MathExtras.h. `sign_extend_12 x` is SignExtend64<12>(x).
pub record SignExtend : Type 0 where
  pub sign_extend_12 : ℕ → ℕ
  pub sign_extend_12_lem :
      (x : ℕ)
      → sign_extend_12 x ≡ (if ltb (x % 4096) 2048 then x % 4096 else x % 4096 + (2 ^ 64 - 4096))

-- evaluateAsInt64. The `&` with 0xfffff keeps twenty bits, so the arithmetic shift to the right and
-- the logical one agree there.
unfoldable pub evaluate_as_int64 : SignExtend → VariantKind → ℕ → Outcome ℕ
evaluate_as_int64 m vk_lo value = ok (m.sign_extend_12 value)
evaluate_as_int64 m vk_hi value = ok ((value + 0x800) % 2 ^ 64 / 2 ^ 12 % 2 ^ 20)
evaluate_as_int64 m _ value = stop (unreachable "Invalid kind")
