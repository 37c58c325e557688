-- ===== src/Calls/Tests.antt =====
-- Arguments and results on concrete functions, with locations that follow the convention.
use toy_riscv.Base.{
  take, ℕ, ◌+◌, Bool, true, false, not, ◌&&◌, ◌==◌, leb, List, [], ◌∷◌, map, Option, none, some,
  ◌≡◌, ◌⊎◌, refl, rv32, Outcome, ok, stop, Failure, fatal_error, unreachable,
}
use toy_riscv.Calls.Conventions.{
  Register, a0, a1, encoding, ValueType, i8, i32, other_type, Location, nothing_assigned, is_used,
  first_free, argument_regs, return_regs, promote, is_i32_or_i64, cc_riscv32, Convention,
  assign_all, CallState, IsAnalysis,
}
use toy_riscv.Calls.Lower.{
  CallingConv, c_conv, other_conv, xlen_vt, is_xlen_vt, RegInfo, Arguments, lower_arguments,
  lower_formal_arguments, entry, Return, lower_return,
}
use toy_riscv.Calls.Places.{fits, held, all_below}
use toy_riscv.Calls.Incoming.{lower_formal_arguments_lem}
use toy_riscv.Calls.Outgoing.{run_copies, is_stuck, all_words, lower_return_lem}

abbrev located : Option (List Location) → Outcome (List Location)
located none = stop (unreachable "no location")
located (some ls) = ok ls

abbrev analyze : Convention → List ValueType → Outcome (List Location)
analyze f ts = located (assign_all f nothing_assigned ts)

abbrev calls : CallState
calls = record { analyze_formal_arguments = analyze; analyze_return = analyze }

analyze-IsAnalysis : IsAnalysis analyze
analyze-IsAnalysis = record {
  finds = λ f ts ls h. rw h refl;
  stops = λ f ts h. (unreachable "no location", rw h refl);
}

-- A byte and a word, when virtual register 4 already stands for a live-in.
abbrev two_types : List ValueType
two_types = i8 ∷ i32 ∷ []

abbrev before : RegInfo
before = record { next = 5; live_ins = (a1, 4) ∷ [] }

abbrev start : ℕ
start = 7

abbrev results : List ℕ
results = 8 ∷ 9 ∷ []

abbrev with_codes : Register → ℕ
with_codes r = encoding r + 100

lower_formal_arguments_lem_example :
    (fits rv32 two_types ≡ true
      → (a : Arguments ℕ) × (lower_formal_arguments rv32 start calls c_conv false two_types before
          ≡ ok a)
        × (a.chain ≡ 7)
        × (map (λ c. c.type) a.in_vals ≡ map (λ r. xlen_vt rv32) (take 2 argument_regs))
        × (map (λ c. held a.reg_info.live_ins with_codes c.reg) a.in_vals
            ≡ map (λ r. some (with_codes r)) (take 2 argument_regs))
        × ((v : ℕ) (w : ℕ)
            → held before.live_ins with_codes v ≡ some w
            → held a.reg_info.live_ins with_codes v ≡ some w))
    × ((conv : CallingConv) (is_var_arg : Bool)
        → (conv ≡ other_conv) ⊎ ((is_var_arg ≡ true) ⊎ (fits rv32 two_types ≡ false))
        → (e : Failure) × (lower_formal_arguments rv32 start calls conv is_var_arg two_types before
            ≡ stop e))
unfolding all_below
lower_formal_arguments_lem_example =
    lower_formal_arguments_lem rv32 start calls two_types before with_codes analyze-IsAnalysis refl

lower_two :
    lower_formal_arguments rv32 start calls c_conv false two_types before
    ≡ ok (record {
      chain = 7;
      in_vals =
          record { chain = 7; reg = 5; type = i32 }
          ∷ record { chain = 7; reg = 6; type = i32 }
          ∷ [];
      reg_info = record { next = 7; live_ins = (a1, 4) ∷ (a0, 5) ∷ (a1, 6) ∷ [] };
    })
unfolding lower_formal_arguments lower_arguments assign_all cc_riscv32 promote is_i32_or_i64
    first_free is_used encoding is_xlen_vt
lower_two = refl

lower_float :
    lower_formal_arguments rv32 start calls c_conv false (other_type 0 ∷ []) before
    ≡ stop (fatal_error "Defined with too many args")
unfolding lower_formal_arguments lower_arguments assign_all cc_riscv32 promote is_i32_or_i64
lower_float = refl

lower_return_lem_example :
    (all_words (i32 ∷ i32 ∷ []) && leb 2 2 ≡ true
      → (r : Return ℕ) × (lower_return calls false entry (i32 ∷ i32 ∷ []) results ≡ ok r)
        × (map (λ p. p.0) r.registers ≡ take 2 return_regs)
        × (map (λ p. p.1) r.registers ≡ i32 ∷ i32 ∷ [])
        × (is_stuck r.chain ≡ true)
        × (r.flag ≡ not (2 == 0))
        × ((regs : Register → ℕ)
            → (map (λ q. run_copies r.chain regs q) (take 2 return_regs) ≡ 8 ∷ 9 ∷ [])
              × ((q : Register)
                  → is_used q (take 2 return_regs) ≡ false
                  → run_copies r.chain regs q ≡ regs q)))
    × ((is_var_arg : Bool)
        → (is_var_arg ≡ true) ⊎ (all_words (i32 ∷ i32 ∷ []) && leb 2 2 ≡ false)
        → (e : Failure) × (lower_return calls is_var_arg entry (i32 ∷ i32 ∷ []) results ≡ stop e))
lower_return_lem_example = lower_return_lem calls (i32 ∷ i32 ∷ []) results analyze-IsAnalysis refl
