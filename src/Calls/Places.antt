-- ===== src/Calls/Places.antt =====
-- The places of arguments, and what virtual registers stand for.
use toy_riscv.Base.{
  take, drop, ℕ, zero, suc, ◌<◌, Bool, true, false, ◌&&◌, ◌==◌, ==_iff, ==_refl, leb, ltb,
  if◌then◌else◌, List, [], ◌∷◌, ◌++◌, length, Option, none, some, ◌≡◌, refl, XLen, arith,
  Bool-cases, inl, inr,
}
use toy_riscv.Calls.Conventions.{
  Register, a0, a1, a2, a3, a4, a5, a6, a7, encoding, ValueType, Location, reg_loc, Assigned,
  is_used, first_free, assign_found, assign_to_reg, or_stack, argument_regs, promote, is_i32_or_i64,
  cc_riscv32, assign_all,
}
use toy_riscv.Calls.Lower.{xlen_vt, is_xlen_vt}

-- All types are XLenVT, or are promoted to it.
unfoldable pub all_fit : XLen → List ValueType → Bool
all_fit x [] = true
all_fit x (t ∷ ts) = is_xlen_vt x (promote t) && all_fit x ts

-- At most eight arguments, all of them fitting.
abbrev pub fits : XLen → List ValueType → Bool
fits x ts = all_fit x ts && leb (length ts) 8

-- The argument registers in their turn.
pub next_register :
    (k : ℕ)
    → k < 8
    → (r : Register) × (first_free argument_regs (take k argument_regs) ≡ some r)
      × (take k argument_regs ++ (r ∷ []) ≡ take (suc k) argument_regs)
      × (drop k argument_regs ≡ r ∷ drop (suc k) argument_regs)
unfolding first_free is_used encoding
next_register zero h = (a0, refl, refl, refl)
next_register (suc zero) h = (a1, refl, refl, refl)
next_register (suc (suc zero)) h = (a2, refl, refl, refl)
next_register (suc (suc (suc zero))) h = (a3, refl, refl, refl)
next_register (suc (suc (suc (suc zero)))) h = (a4, refl, refl, refl)
next_register (suc (suc (suc (suc (suc zero))))) h = (a5, refl, refl, refl)
next_register (suc (suc (suc (suc (suc (suc zero)))))) h = (a6, refl, refl, refl)
next_register (suc (suc (suc (suc (suc (suc (suc zero))))))) h = (a7, refl, refl, refl)
next_register (suc (suc (suc (suc (suc (suc (suc (suc k)))))))) h = absurd (omega (arith, h))

pub no_register : first_free argument_regs (take 8 argument_regs) ≡ none
unfolding first_free is_used encoding
no_register = refl

abbrev pub taken : ℕ → ℕ → Assigned
taken k s = record { used = take k argument_regs; stack = s }

fitting_type :
    (x : XLen) (t : ValueType) → is_xlen_vt x (promote t) ≡ true → is_i32_or_i64 (promote t) ≡ true
unfolding is_xlen_vt promote is_i32_or_i64
fitting_type x t h = ground (arith, h)

pub xlen_vt_of : (x : XLen) (t : ValueType) → is_xlen_vt x t ≡ true → t ≡ xlen_vt x
unfolding is_xlen_vt
xlen_vt_of x t h = ground (arith, h)

-- The convention finds a place for each value, on the stack if need be.
or_stack-total :
    (t : ValueType) (a : Assigned) (o : Option (Location × Assigned))
    → (l : Location) × (a' : Assigned) × (or_stack t a o ≡ some (l, a'))
or_stack-total t a none = (_, _, refl)
or_stack-total t a (some (l, a')) = (l, a', refl)

pub placed_type :
    (t : ValueType) (a : Assigned) (b : Bool) (o : Option Register) (r : Register) (u : ValueType)
    (a' : Assigned)
    → or_stack t a (if b then assign_found t a o else none) ≡ some (reg_loc r u, a')
    → u ≡ t
placed_type t a true none r u a' h = cc
placed_type t a true (some q) r u a' h = cc
placed_type t a false o r u a' h = cc

pub cc_riscv32-total :
    (t : ValueType) (a : Assigned)
    → (l : Location) × (a' : Assigned) × (cc_riscv32 t a ≡ some (l, a'))
unfolding cc_riscv32
cc_riscv32-total t a =
    or_stack-total (promote t) a
      (if is_i32_or_i64 (promote t) then assign_to_reg argument_regs (promote t) a else none)

pub assign_all-total :
    (ts : List ValueType) (a : Assigned)
    → (ls : List Location) × (assign_all cc_riscv32 a ts ≡ some ls)
unfolding assign_all
assign_all-total [] a = ([], refl)
assign_all-total (t ∷ ts) a =
    let (l, a', e) = cc_riscv32-total t a in
    let (ls, rest) = assign_all-total ts a' in (l ∷ ls, rw (e, rest) refl)

pub cc_riscv32-fits :
    (x : XLen) (t : ValueType) (k s : ℕ) (lt : k < 8)
    → is_xlen_vt x (promote t) ≡ true
    → cc_riscv32 t (taken k s) ≡ some (reg_loc (next_register k lt).0 (promote t), taken (suc k) s)
unfolding cc_riscv32
cc_riscv32-fits x t k s lt h =
    let next = next_register k lt in rw (fitting_type x t h, next.1, next.2) refl

module _ {ℓ} {A : Type ℓ} where
  -- The physical register that a virtual register stands for on entry, and what it holds.
  abbrev pub held : List (Register × ℕ) → (Register → A) → ℕ → Option A
  held [] regs v = none
  held ((r, u) ∷ ps) regs v = let rest = held ps regs v in if u == v then some (regs r) else rest

  pub held-append :
      (ps qs : List (Register × ℕ)) (regs : Register → A) (v : ℕ) (w : A)
      → held ps regs v ≡ some w
      → held (ps ++ qs) regs v ≡ some w
  held-append [] qs regs v w h = cc
  held-append ((r, u) ∷ ps) qs regs v w h = elim (Bool-cases (u == v)) [
    | inl e ↦ rw e (rw e at h)
    | inr e ↦ rw e (held-append ps qs regs v w (rw e at h))
  ]

-- The virtual registers of the live-ins have been made before the next one.
unfoldable pub all_below : ℕ → List (Register × ℕ) → Bool
all_below n [] = true
all_below n ((r, u) ∷ ps) = ltb u n && all_below n ps

pub held-new :
    {A : Type 0} (ps : List (Register × ℕ)) (regs : Register → A) (n : ℕ) (r : Register)
    → all_below n ps ≡ true
    → held (ps ++ ((r, n) ∷ [])) regs n ≡ some (regs r)
unfolding all_below
held-new [] regs n r h = rw (==_refl n) refl
held-new ((q, u) ∷ ps) regs n r h = ground (arith, held-new ps regs n r, ==_iff u n)

pub all_below-new :
    (ps : List (Register × ℕ)) (n : ℕ) (r : Register)
    → all_below n ps ≡ true
    → all_below (suc n) (ps ++ ((r, n) ∷ [])) ≡ true
unfolding all_below
all_below-new [] n r h = ground arith
all_below-new ((q, u) ∷ ps) n r h = ground (arith, all_below-new ps n r)
