-- ===== src/Calls/Incoming.antt =====
-- What LowerFormalArguments makes of the arguments: TOYRISCVISelLowering.cpp.
use mathlib.Core.Bool.{and-eq-true_iff}
use toy_riscv.Base.{
  take, drop, ℕ, suc, ◌+◌, ◌≤◌, ◌<◌, Bool, true, false, ◌&&◌, leb, ltb, List, [], ◌∷◌, map, length,
  some, ◌≡◌, ◌⊎◌, refl, ap, ap₂, ◌∙◌, XLen, ok, stop, Failure, fatal_error, arith, Bool-cases, inl,
  inr,
}
use toy_riscv.Calls.Conventions.{
  Register, ValueType, Location, reg_loc, stack_loc, Assigned, assign_to_stack, argument_regs,
  promote, is_i32_or_i64, cc_riscv32, assign_all, CallState, IsAnalysis,
}
use toy_riscv.Calls.Lower.{
  CallingConv, c_conv, other_conv, xlen_vt, is_xlen_vt, RegInfo, Arguments, add_live_in,
  lower_arguments, lower_formal_arguments,
}
use toy_riscv.Calls.Places.{
  all_fit, fits, next_register, no_register, taken, xlen_vt_of, placed_type, cc_riscv32-total,
  assign_all-total, cc_riscv32-fits, held, held-append, all_below, held-new, all_below-new,
}

module _ {C A : Type 0} (x : XLen) (chain : C) (regs : Register → A) where
  abbrev Received : RegInfo → List Location → List Register → Type 0
  Received i ls rs =
      (a : Arguments C) × (lower_arguments x chain i ls ≡ ok a)
      × ((v : ℕ) (w : A)
          → held i.live_ins regs v ≡ some w
          → held a.reg_info.live_ins regs v ≡ some w)
      × (map (λ c. held a.reg_info.live_ins regs c.reg) a.in_vals ≡ map (λ r. some (regs r)) rs)
      × (map (λ c. c.type) a.in_vals ≡ map (λ r. xlen_vt x) rs)
      × (a.chain ≡ chain)

  lower_arguments-fits :
      (ts : List ValueType) (k s : ℕ) (i : RegInfo)
      → all_fit x ts ≡ true
      → k + length ts ≤ 8
      → all_below i.next i.live_ins ≡ true
      → (ls : List Location) × (assign_all cc_riscv32 (taken k s) ts ≡ some ls)
        × Received i ls (take (length ts) (drop k argument_regs))
  unfolding assign_all lower_arguments all_fit
  lower_arguments-fits [] k s i fit few below = (
    [],
    refl,
    (record { chain = chain; in_vals = []; reg_info = i }, refl, λ v w h. h, refl, refl, refl),
  )
  lower_arguments-fits (t ∷ ts) k s i fit few below =
      let lt : k < 8 = omega (arith, few) in
      let (r, free, taken_h, left) = next_register k lt in
      let (this, others) = (and-eq-true_iff (is_xlen_vt x (promote t)) (all_fit x ts)).0 fit in
      let i' = add_live_in x chain i r in
      let (ls, assigned, (a, lowered, keeps, reads, types, same)) =
        lower_arguments-fits ts (suc k) s i' others (omega (arith, few))
          (all_below-new i.live_ins i.next r below) in
      (
        reg_loc r (promote t) ∷ ls,
        rw (cc_riscv32-fits x t k s lt this, assigned) refl,
        (
          record a {
            in_vals = record { chain = chain; reg = i.next; type = promote t } ∷ a.in_vals;
          },
          rw (this, lowered) refl,
          λ v w h. keeps v w (held-append i.live_ins ((r, i.next) ∷ []) regs v w h),
          rw left (ap₂ ◌∷◌ (keeps i.next (regs r) (held-new i.live_ins regs i.next r below)) reads),
          rw left (ap₂ ◌∷◌ (xlen_vt_of x (promote t) this) types),
          same,
        ),
      )

  -- The loop stops at the first location that is on the stack or of another type.
  abbrev Stops : RegInfo → List Location → Type 0
  Stops i ls = (e : Failure) × (lower_arguments x chain i ls ≡ stop e)

  Stops-later :
      (r : Register) (t : ValueType) (ls : List Location) (i : RegInfo)
      → ((i' : RegInfo) → Stops i' ls)
      → Stops i (reg_loc r t ∷ ls)
  unfolding lower_arguments
  Stops-later r t ls i later = elim (Bool-cases (is_xlen_vt x t)) [
    | inl e ↦
        let (failure, stopped) = later (add_live_in x chain i r) in (failure, rw (e, stopped) refl)
    | inr e ↦ (fatal_error "unhandled argument type", rw e refl)
  ]

  Stops-type :
      (t : ValueType) (a : Assigned) (ls : List Location) (l : Location) (a' : Assigned)
      (i : RegInfo)
      → is_xlen_vt x (promote t) ≡ false
      → cc_riscv32 t a ≡ some (l, a')
      → Stops i (l ∷ ls)
  unfolding cc_riscv32 lower_arguments
  Stops-type t a ls (stack_loc o u) a' i other h = (_, refl)
  Stops-type t a ls (reg_loc r u) a' i other h =
      let same = placed_type (promote t) a (is_i32_or_i64 (promote t)) _ r u a' h in
      (fatal_error "unhandled argument type", rw (same, other) refl)

  cc_riscv32-full :
      (t : ValueType) (s : ℕ)
      → cc_riscv32 t (taken 8 s) ≡ some (assign_to_stack (promote t) (taken 8 s))
  unfolding cc_riscv32
  cc_riscv32-full t s = elim (Bool-cases (is_i32_or_i64 (promote t))) [
    | inl e ↦ rw (e, no_register) refl
    | inr e ↦ rw e refl
  ]

  lower_arguments-Stops :
      (ts : List ValueType) (k s : ℕ)
      → k ≤ 8
      → all_fit x ts && leb (k + length ts) 8 ≡ false
      → (ls : List Location) × (assign_all cc_riscv32 (taken k s) ts ≡ some ls)
        × ((i : RegInfo) → Stops i ls)
  unfolding assign_all all_fit lower_arguments
  lower_arguments-Stops [] k s le h = ground (arith, h)
  lower_arguments-Stops (t ∷ ts) k s le h = elim (Bool-cases (is_xlen_vt x (promote t))) [
    | inl e ↦ elim (Bool-cases (ltb k 8)) [
      | inl f ↦
          let lt : k < 8 = ground (arith, f) in
          let (ls, assigned, stops) =
            lower_arguments-Stops ts (suc k) s lt (ground (arith, h, e)) in
          let r = (next_register k lt).0 in
          (
            reg_loc r (promote t) ∷ ls,
            rw (cc_riscv32-fits x t k s lt e, assigned) refl,
            λ i. Stops-later r (promote t) ls i stops,
          )
      | inr f ↦
          let last : k ≡ 8 = ground (arith, f, le) in
          let placed = ap (λ n. cc_riscv32 t (taken n s)) last ∙ cc_riscv32-full t s in
          let (ls, rest) = assign_all-total ts (assign_to_stack (promote t) (taken 8 s)).1 in
          (
            stack_loc s (promote t) ∷ ls,
            rw (placed, rest) refl,
            λ i. (fatal_error "Defined with too many args", refl),
          )
    ]
    | inr e ↦
        let (l, a', placed) = cc_riscv32-total t (taken k s) in
        let (ls, rest) = assign_all-total ts a' in
        (l ∷ ls, rw (placed, rest) refl, λ i. Stops-type t (taken k s) ls l a' i e placed)
  ]

-- LowerFormalArguments, where LLVM assigns locations by the convention and the virtual registers of the
-- live-ins have been made before: with the C convention and no variable arguments, if there are at most
-- eight arguments and their types, after promotion, are XLenVT, it returns its chain and a value of that type
-- for each argument, and from every register file, the values read a0, a1 and so on, and the live-ins
-- before keep what they read; otherwise it stops.
pub lower_formal_arguments_lem :
    {C A : Type 0} (x : XLen) (chain : C) (cs : CallState) (ts : List ValueType) (i : RegInfo)
    (regs : Register → A)
    → IsAnalysis cs.analyze_formal_arguments
    → all_below i.next i.live_ins ≡ true
    → (fits x ts ≡ true
        → (a : Arguments C) × (lower_formal_arguments x chain cs c_conv false ts i ≡ ok a)
          × (a.chain ≡ chain)
          × (map (λ c. c.type) a.in_vals ≡ map (λ r. xlen_vt x) (take (length ts) argument_regs))
          × (map (λ c. held a.reg_info.live_ins regs c.reg) a.in_vals
              ≡ map (λ r. some (regs r)) (take (length ts) argument_regs))
          × ((v : ℕ) (w : A)
              → held i.live_ins regs v ≡ some w
              → held a.reg_info.live_ins regs v ≡ some w))
      × ((conv : CallingConv) (is_var_arg : Bool)
          → (conv ≡ other_conv) ⊎ ((is_var_arg ≡ true) ⊎ (fits x ts ≡ false))
          → (e : Failure) × (lower_formal_arguments x chain cs conv is_var_arg ts i ≡ stop e))
unfolding lower_formal_arguments
lower_formal_arguments_lem x chain cs ts i regs analysis below = (
  λ fit.
      let (all, few) = (and-eq-true_iff (all_fit x ts) (leb (length ts) 8)).0 fit in
      let (ls, assigned, (a, lowered, keeps, reads, types, same)) =
        lower_arguments-fits x chain regs ts 0 0 i all (ground (arith, few)) below in
      (a, rw (analysis.finds cc_riscv32 ts ls assigned) lowered, same, types, reads, keeps),
  refuses,
)
  where
    refuses :
        (conv : CallingConv) (is_var_arg : Bool)
        → (conv ≡ other_conv) ⊎ ((is_var_arg ≡ true) ⊎ (fits x ts ≡ false))
        → (e : Failure) × (lower_formal_arguments x chain cs conv is_var_arg ts i ≡ stop e)
    refuses other_conv is_var_arg h = (fatal_error "Unsupported calling convention", refl)
    refuses c_conv true h = (fatal_error "VarArg not supported", refl)
    refuses c_conv false (inl e) = cc
    refuses c_conv false (inr (inl e)) = cc
    refuses c_conv false (inr (inr e)) =
        let (ls, assigned, stops) =
          lower_arguments-Stops x chain regs ts 0 0 (ground arith) (ground (arith, e)) in
        let (failure, stopped) = stops i in
        (failure, rw (analysis.finds cc_riscv32 ts ls assigned) stopped)
