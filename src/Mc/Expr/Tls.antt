-- ===== src/Mc/Expr/Tls.antt =====
-- fixELFSymbolsInTLSFixups of TOYRISCVMCExpr.cpp: it marks the symbols of a TLS fixup. The types of
-- the ELF symbols are a store that MCSymbolELF::setType writes.
use toy_riscv.Base.{
  ℕ, ◌≡◌, refl, inl, inr, Bool, true, false, ◌&&◌, ◌||◌, Outcome, ok, stop, unreachable, ◌>>=◌,
  ◌==◌, arith, if◌then◌else◌, Bool-cases,
}
use toy_riscv.Mc.Expr.{
  VariantKind, vk_tprel_hi, vk_tls_got_hi, vk_tls_gd_hi, McExpr, constant, symbol_ref, unary,
  binary, target, TargetExpr,
}

-- ELF::STT_TLS, and any other type.
pub data SymbolType : Type 0 where
  stt_tls : SymbolType
  stt_other : ℕ → SymbolType

abbrev pub Symbols : Type 0
Symbols = ℕ → SymbolType

abbrev pub set_type : ℕ → SymbolType → Symbols → Symbols
set_type s t types = λ x. if x == s then t else types x

unfoldable pub fix_elf_symbols_impl : McExpr → Symbols → Outcome Symbols
fix_elf_symbols_impl (target k e) types = stop (unreachable "Can't handle nested target expression")
fix_elf_symbols_impl (constant n) types = ok types
fix_elf_symbols_impl (binary op l r) types =
    fix_elf_symbols_impl l types >>= λ types'. fix_elf_symbols_impl r types'
fix_elf_symbols_impl (symbol_ref s) types = ok (set_type s stt_tls types)
fix_elf_symbols_impl (unary op e) types = fix_elf_symbols_impl e types

unfoldable pub fix_elf_symbols_in_tls_fixups : TargetExpr → Symbols → Outcome Symbols
fix_elf_symbols_in_tls_fixups e types = elim e.kind [
  | vk_tprel_hi ↦ fix_elf_symbols_impl e.expr types
  | vk_tls_got_hi ↦ fix_elf_symbols_impl e.expr types
  | vk_tls_gd_hi ↦ fix_elf_symbols_impl e.expr types
  | _ ↦ ok types
]

-- A target expression inside.
abbrev pub is_nested : McExpr → Bool
is_nested (target k e) = true
is_nested (constant n) = false
is_nested (symbol_ref s) = false
is_nested (unary op e) = is_nested e
is_nested (binary op l r) = is_nested l || is_nested r

-- The symbols that an expression refers to.
abbrev pub occurs : ℕ → McExpr → Bool
occurs x (target k e) = occurs x e
occurs x (constant n) = false
occurs x (symbol_ref s) = x == s
occurs x (unary op e) = occurs x e
occurs x (binary op l r) = occurs x l || occurs x r

abbrev pub is_tls_kind : VariantKind → Bool
is_tls_kind vk_tprel_hi = true
is_tls_kind vk_tls_got_hi = true
is_tls_kind vk_tls_gd_hi = true
is_tls_kind _ = false

impl_marks :
    (e : McExpr) (types : Symbols)
    → is_nested e ≡ false
    → (types' : Symbols) × (fix_elf_symbols_impl e types ≡ ok types')
      × ((x : ℕ) → types' x ≡ (if occurs x e then stt_tls else types x))
unfolding fix_elf_symbols_impl
impl_marks (target k e) types h = cc
impl_marks (constant n) types h = (types, refl, λ x. refl)
impl_marks (symbol_ref s) types h = (set_type s stt_tls types, refl, λ x. refl)
impl_marks (unary op e) types h = impl_marks e types h
impl_marks (binary op l r) types h =
    let (t, run, marked) = impl_marks l types (ground arith) in
    let (t', run', marked') = impl_marks r t (ground arith) in
    (t', rw run run', λ x. ground (arith, marked x, marked' x))

impl_stops :
    (e : McExpr) (types : Symbols)
    → is_nested e ≡ true
    → fix_elf_symbols_impl e types ≡ stop (unreachable "Can't handle nested target expression")
unfolding fix_elf_symbols_impl
impl_stops (target k e) types h = refl
impl_stops (constant n) types h = cc
impl_stops (symbol_ref s) types h = cc
impl_stops (unary op e) types h = impl_stops e types h
impl_stops (binary op l r) types h = elim (Bool-cases (is_nested l)) [
  | inl first ↦ rw (impl_stops l types first)
  | inr later ↦
      let (t, run, marked) = impl_marks l types later in rw run (impl_stops r t (ground arith))
]

-- The call on a TLS kind runs the recursion, on any other it changes nothing.
by_kind :
    (e : TargetExpr) (types : Symbols)
    → fix_elf_symbols_in_tls_fixups e types
      ≡ (if is_tls_kind e.kind then fix_elf_symbols_impl e.expr types else ok types)
unfolding fix_elf_symbols_in_tls_fixups
by_kind e types = ground arith

-- Of a TLS kind (vk_tprel_hi, vk_tls_got_hi, vk_tls_gd_hi) with no target expression inside, the call
-- makes STT_TLS of every symbol that the sub-expression refers to; of any other kind it changes
-- nothing. All other symbols keep their types.
pub fix_elf_symbols_in_tls_fixups-marks :
    (e : TargetExpr) (types : Symbols)
    → (is_tls_kind e.kind && is_nested e.expr) ≡ false
    → (types' : Symbols) × (fix_elf_symbols_in_tls_fixups e types ≡ ok types')
      × ((x : ℕ) → types' x ≡ (if is_tls_kind e.kind && occurs x e.expr then stt_tls else types x))
fix_elf_symbols_in_tls_fixups-marks e types h = elim (Bool-cases (is_tls_kind e.kind)) [
  | inl tls ↦
      let (t, run, marked) = impl_marks e.expr types (ground arith) in
      (t, rw (by_kind e types, tls) run, λ x. rw tls (marked x))
  | inr other ↦ (types, rw (by_kind e types, other), λ x. rw other)
]

-- Of a TLS kind with a target expression inside, the call stops the compiler.
fix_elf_symbols_in_tls_fixups-stops :
    (e : TargetExpr) (types : Symbols)
    → is_tls_kind e.kind ≡ true
    → is_nested e.expr ≡ true
    → fix_elf_symbols_in_tls_fixups e types
      ≡ stop (unreachable "Can't handle nested target expression")
fix_elf_symbols_in_tls_fixups-stops e types k h =
    rw (by_kind e types, k) (impl_stops e.expr types h)
