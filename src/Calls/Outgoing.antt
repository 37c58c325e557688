-- ===== src/Calls/Outgoing.antt =====
-- What LowerReturn makes of the results: TOYRISCVISelLowering.cpp.
use toy_riscv.Base.{
  take, Bool, true, false, not, ◌&&◌, ◌==◌, leb, if◌then◌else◌, List, [], ◌∷◌, map, length, none,
  some, ◌≡◌, ◌⊎◌, refl, ok, stop, Failure, fatal_error, arith, Bool-cases, inl, inr,
}
use toy_riscv.Calls.Conventions.{
  Register, a0, a1, encoding, ValueType, reg_loc, nothing_assigned, is_used, first_free,
  return_regs, is_i32_or_i64, ret_cc_riscv32, assign_all, CallState, IsAnalysis,
}
use toy_riscv.Calls.Lower.{Chain, entry, copy_to_reg, Return, lower_results, lower_return}

module _ {V : Type 0} where
  -- What the registers hold after the copies of a chain.
  unfoldable pub run_copies : Chain V → (Register → V) → Register → V
  unfolding encoding
  run_copies entry regs q = regs q
  run_copies (copy_to_reg c r v glued) regs q =
      let before = run_copies c regs q in if encoding q == encoding r then v else before

  -- The copies from the last one back: each but the first after the entry is glued to the one before it.
  unfoldable pub is_stuck : Chain V → Bool
  is_stuck entry = true
  is_stuck (copy_to_reg entry r v glued) = not glued
  is_stuck (copy_to_reg (copy_to_reg c q w glued) r v g) = g && is_stuck (copy_to_reg c q w glued)

unfoldable pub all_words : List ValueType → Bool
all_words [] = true
all_words (t ∷ ts) = is_i32_or_i64 t && all_words ts

abbrev returnable : List ValueType → Bool
returnable ts = all_words ts && leb (length ts) 2

assign_return-one :
    (t : ValueType)
    → is_i32_or_i64 t ≡ true
    → assign_all ret_cc_riscv32 nothing_assigned (t ∷ []) ≡ some (reg_loc a0 t ∷ [])
unfolding assign_all ret_cc_riscv32 first_free is_used encoding
assign_return-one t h = rw h refl

assign_return-two :
    (t u : ValueType)
    → is_i32_or_i64 t ≡ true
    → is_i32_or_i64 u ≡ true
    → assign_all ret_cc_riscv32 nothing_assigned (t ∷ u ∷ [])
      ≡ some (reg_loc a0 t ∷ reg_loc a1 u ∷ [])
unfolding assign_all ret_cc_riscv32 first_free is_used encoding
assign_return-two t u h k = rw (h, k) refl

-- The convention has no place for a third result or one of another type.
refused :
    (ts : List ValueType)
    → returnable ts ≡ false
    → assign_all ret_cc_riscv32 nothing_assigned ts ≡ none
unfolding assign_all ret_cc_riscv32 all_words first_free is_used encoding
refused [] h = cc
refused (t ∷ []) h = elim (Bool-cases (is_i32_or_i64 t)) [
  | inl e ↦ ground (arith, h, e)
  | inr e ↦ rw e refl
]
refused (t ∷ u ∷ ts) h = elim (Bool-cases (is_i32_or_i64 t)) [
  | inl e ↦ elim (Bool-cases (is_i32_or_i64 u)) [
    | inl f ↦ third ts (ground (arith, h, e, f)) e f
    | inr f ↦ rw (e, f) refl
  ]
  | inr e ↦ rw e refl
]
  where
    third :
        (ts : List ValueType)
        → returnable (t ∷ u ∷ ts) ≡ false
        → is_i32_or_i64 t ≡ true
        → is_i32_or_i64 u ≡ true
        → assign_all ret_cc_riscv32 nothing_assigned (t ∷ u ∷ ts) ≡ none
    third [] h e f = ground (arith, h, e, f)
    third (x ∷ ts) h e f = elim (Bool-cases (is_i32_or_i64 x)) [
      | inl g ↦ rw (e, f, g) refl
      | inr g ↦ rw (e, f, g) refl
    ]

module _ {W : Type 0} (cs : CallState) (analysis : IsAnalysis cs.analyze_return) where
  -- The return operands for the results.
  abbrev Returns : List ValueType → List W → Type 0
  Returns ts vs =
      (r : Return W) × (lower_return cs false entry ts vs ≡ ok r)
      × (map (λ p. p.0) r.registers ≡ take (length ts) return_regs)
      × (map (λ p. p.1) r.registers ≡ ts)
      × (is_stuck r.chain ≡ true)
      × (r.flag ≡ not (length ts == 0))
      × ((regs : Register → W)
          → (map (λ q. run_copies r.chain regs q) (take (length ts) return_regs) ≡ vs)
            × ((q : Register)
                → is_used q (take (length ts) return_regs) ≡ false
                → run_copies r.chain regs q ≡ regs q))

  returns :
      (ts : List ValueType) (vs : List W)
      → length vs ≡ length ts
      → returnable ts ≡ true
      → Returns ts vs
  unfolding lower_return lower_results run_copies is_stuck is_used encoding all_words assign_all
  returns [] [] h fit = (
    record { chain = entry; registers = []; flag = false },
    rw (analysis.finds ret_cc_riscv32 [] [] refl) refl,
    refl,
    refl,
    refl,
    refl,
    λ regs. (refl, λ q h. refl),
  )
  returns (t ∷ []) (v ∷ []) h fit = (
    record { chain = copy_to_reg entry a0 v false; registers = (a0, t) ∷ []; flag = true },
    rw
        (analysis.finds ret_cc_riscv32 (t ∷ []) (reg_loc a0 t ∷ [])
          (assign_return-one t (ground (arith, fit))))
        refl,
    refl,
    refl,
    refl,
    refl,
    λ regs. (refl, λ q h. ground (arith, h)),
  )
  returns (t ∷ u ∷ []) (v ∷ w ∷ []) h fit = (
    record {
      chain = copy_to_reg (copy_to_reg entry a0 v false) a1 w true;
      registers = (a0, t) ∷ (a1, u) ∷ [];
      flag = true;
    },
    rw
        (analysis.finds ret_cc_riscv32 (t ∷ u ∷ []) (reg_loc a0 t ∷ reg_loc a1 u ∷ [])
          (assign_return-two t u (ground (arith, fit)) (ground (arith, fit))))
        refl,
    refl,
    refl,
    refl,
    refl,
    λ regs. (refl, λ q h. ground (arith, h)),
  )
  returns [] (v ∷ vs) h fit = ground (arith, h)
  returns (t ∷ []) [] h fit = ground (arith, h)
  returns (t ∷ []) (v ∷ w ∷ vs) h fit = ground (arith, h)
  returns (t ∷ u ∷ []) [] h fit = ground (arith, h)
  returns (t ∷ u ∷ []) (v ∷ []) h fit = ground (arith, h)
  returns (t ∷ u ∷ []) (v ∷ w ∷ x ∷ vs) h fit = ground (arith, h)
  returns (t ∷ u ∷ x ∷ ts) vs h fit = ground (arith, fit)

-- LowerReturn, where LLVM assigns locations by the convention, from the entry of the chain, and with a value
-- for each result: without variable arguments, if there are at most two results of the types i32 and i64,
-- RET_FLAG has the registers a0 and a1 that they take, with their types; after its chain these registers hold
-- the values in order and every other one what it held; the copies are glued to each other and RET_FLAG to
-- the last; otherwise it stops.
pub lower_return_lem :
    {V : Type 0} (cs : CallState) (ts : List ValueType) (vs : List V)
    → IsAnalysis cs.analyze_return
    → length vs ≡ length ts
    → (all_words ts && leb (length ts) 2 ≡ true
        → (r : Return V) × (lower_return cs false entry ts vs ≡ ok r)
          × (map (λ p. p.0) r.registers ≡ take (length ts) return_regs)
          × (map (λ p. p.1) r.registers ≡ ts)
          × (is_stuck r.chain ≡ true)
          × (r.flag ≡ not (length ts == 0))
          × ((regs : Register → V)
              → (map (λ q. run_copies r.chain regs q) (take (length ts) return_regs) ≡ vs)
                × ((q : Register)
                    → is_used q (take (length ts) return_regs) ≡ false
                    → run_copies r.chain regs q ≡ regs q)))
      × ((is_var_arg : Bool)
          → (is_var_arg ≡ true) ⊎ (all_words ts && leb (length ts) 2 ≡ false)
          → (e : Failure) × (lower_return cs is_var_arg entry ts vs ≡ stop e))
unfolding lower_return
lower_return_lem cs ts vs analysis h = (returns cs analysis ts vs h, refuses)
  where
    refuses :
        (is_var_arg : Bool)
        → (is_var_arg ≡ true) ⊎ (all_words ts && leb (length ts) 2 ≡ false)
        → (e : Failure) × (lower_return cs is_var_arg entry ts vs ≡ stop e)
    refuses true h = (fatal_error "VarArg not supported", refl)
    refuses false (inl e) = cc
    refuses false (inr e) =
        let (failure, stopped) = analysis.stops ret_cc_riscv32 ts (refused ts e) in
        (failure, rw stopped refl)
