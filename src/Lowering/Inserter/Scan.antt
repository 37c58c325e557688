-- ===== src/Lowering/Inserter/Scan.antt =====
-- What the loop of emitSelectPseudo finds: the instructions through LastSelectPseudo.
use toy_riscv.Base.{
  take, ℕ, zero, suc, ◌+◌, Bool, true, false, ==_refl, List, [], ◌∷◌, ◌++◌, member, ◌≡◌, refl, ◌⊎◌,
  inl, inr, arith, Bool-cases,
}
use toy_riscv.Lowering.Cond.{BranchCode}
use toy_riscv.Lowering.Inserter.{
  Instr, select_pseudo, debug, plain, branch, jump, phi, uses, Condition, differs, depends,
  DebugValues, scan, code_number,
}
use toy_riscv.Lowering.Inserter.Run.{is_straight}

-- The registers that an instruction defines.
unfoldable pub defs : Instr → List ℕ
defs (select_pseudo d l r code t f) = d ∷ []
defs (plain o ds us e a) = ds
defs (phi d inc) = d ∷ []
defs _ = []

-- None of the registers is in the list.
abbrev pub Fresh : List ℕ → List ℕ → Type 0
Fresh [] seen = Unit
Fresh (d ∷ ds) seen = (member d seen ≡ false) × Fresh ds seen

-- A register is not defined after it was used or defined: single assignment, within a block, where `seen`
-- has come before.
unfoldable pub IsSsa : List ℕ → List Instr → Type 0
IsSsa seen [] = Unit
IsSsa seen (i ∷ is) =
    Fresh (defs i) seen × Fresh (defs i) (uses i) × IsSsa (defs i ++ (uses i ++ seen)) is

-- Neither selects nor PHIs.
unfoldable pub is_ending : List Instr → Bool
is_ending [] = true
is_ending (select_pseudo d l r code t f ∷ is) = false
is_ending (phi d inc ∷ is) = false
is_ending (i ∷ is) = is_ending is

-- No PHI, and no select after a branch or a jump: PHIs come first in a block, and control flow last.
unfoldable pub is_shaped : List Instr → Bool
is_shaped [] = true
is_shaped (branch o l r t ∷ is) = is_ending is
is_shaped (jump t ∷ is) = is_ending is
is_shaped (phi d inc ∷ is) = false
is_shaped (i ∷ is) = is_shaped is

-- Each select is on the condition and, like every other instruction, does not read a register that an
-- earlier select of the list defines.
unfoldable pub Admits : Condition → List ℕ → List Instr → Type 0
Admits c dests [] = Unit
Admits c dests (select_pseudo d l r code t f ∷ is) =
    (differs c dests l r code t f ≡ false) × Admits c (d ∷ dests) is
Admits c dests (debug n ∷ is) = Admits c dests is
Admits c dests (i ∷ is) = (depends dests i ≡ false) × Admits c dests is

module _ (v : DebugValues) (c : Condition) where
  pub scan-is_ending :
      (dests : List ℕ) (pos last : ℕ) (ds : List ℕ) (is : List Instr)
      → is_ending is ≡ true
      → (scan v c dests pos last ds is).last ≡ last
  unfolding scan is_ending
  scan-is_ending dests pos last ds [] h = refl
  scan-is_ending dests pos last ds (select_pseudo d l r code t f ∷ is) h = cc
  scan-is_ending dests pos last ds (phi d inc ∷ is) h = cc
  scan-is_ending dests pos last ds (debug n ∷ is) h = scan-is_ending dests (pos + 1) last ds is h
  scan-is_ending dests pos last ds (i ∷ is) h =
      ground (arith, scan-is_ending dests (pos + 1) last ds is h)

  -- The loop keeps `last`, or passes a part of the list that it admits and that has no control flow.
  abbrev Passes : List ℕ → ℕ → ℕ → List Instr → ℕ → Type 0
  Passes dests pos last is n =
      (n ≡ last)
      ⊎ ((k : ℕ) × (n ≡ pos + k) × Admits c dests (take k is) × (is_straight (take k is) ≡ true))

  pub scan-Passes :
      (dests : List ℕ) (pos last : ℕ) (ds : List ℕ) (is : List Instr)
      → is_shaped is ≡ true
      → Passes dests pos last is (scan v c dests pos last ds is).last
  unfolding scan is_shaped Admits is_straight
  scan-Passes dests pos last ds [] h = inl refl
  scan-Passes dests pos last ds (debug n ∷ is) h = elim (scan-Passes dests (pos + 1) last ds is h) [
    | inl e ↦ inl e
    | inr (k, e, a, s) ↦ inr (suc k, omega (arith, e), a, s)
  ]
  scan-Passes dests pos last ds (select_pseudo d l r code t f ∷ is) h =
      elim (Bool-cases (differs c dests l r code t f)) [
        | inl e ↦ rw e (inl refl)
        | inr e ↦
            rw e
              (elim (scan-Passes (d ∷ dests) (pos + 1) (pos + 1) (ds ++ v.collect_debug_values d is)
                is h) [
                  | inl e' ↦ inr (1, e', (e, tt), refl)
                  | inr (k, e', a, s) ↦ inr (suc k, omega (arith, e'), (e, a), s)
                ])
      ]
  scan-Passes dests pos last ds (plain o xs us b m ∷ is) h =
      elim (Bool-cases (depends dests (plain o xs us b m))) [
        | inl e ↦ rw e (inl refl)
        | inr e ↦ rw e (elim (scan-Passes dests (pos + 1) last ds is h) [
          | inl e' ↦ inl e'
          | inr (k, e', a, s) ↦ inr (suc k, omega (arith, e'), (e, a), s)
        ])
      ]
  scan-Passes dests pos last ds (phi d inc ∷ is) h = cc
  scan-Passes dests pos last ds (i ∷ is) h =
      inl (ground (arith, scan-is_ending dests (pos + 1) last ds is h))

module _ (v : DebugValues) (d l r : ℕ) (code : BranchCode) (t f : ℕ) where
  abbrev pub condition : Condition
  condition = record { lhs = l; rhs = r; cc = code }

  -- The first select passes its own test.
  pub differs-own :
      Fresh (d ∷ []) (l ∷ r ∷ t ∷ f ∷ []) → differs condition (d ∷ []) l r code t f ≡ false
  unfolding differs
  differs-own h = ground (arith, ==_refl l, ==_refl r, ==_refl (code_number code))

  -- LastSelectPseudo is the first select, or the end of a part of what follows that the loop admits.
  pub scan-after :
      (after : List Instr)
      → Fresh (d ∷ []) (l ∷ r ∷ t ∷ f ∷ [])
      → is_shaped after ≡ true
      → (k : ℕ) × ((scan v condition (d ∷ []) 0 1 [] (select_pseudo d l r code t f ∷ after)).last
          ≡ suc k)
        × Admits condition (d ∷ d ∷ []) (take k after)
        × (is_straight (take k after) ≡ true)
  unfolding scan Admits is_straight
  scan-after after fresh shaped =
      rw (differs-own fresh)
        (elim (scan-Passes v condition (d ∷ d ∷ []) 1 1 (v.collect_debug_values d after) after
          shaped) [ inl e ↦ (0, e, tt, refl) | inr (k, e, a, s) ↦ (k, omega (arith, e), a, s) ])

pub IsSsa-take : (n : ℕ) (seen : List ℕ) (is : List Instr) → IsSsa seen is → IsSsa seen (take n is)
unfolding IsSsa
IsSsa-take zero seen is h = tt
IsSsa-take (suc n) seen [] h = tt
IsSsa-take (suc n) seen (i ∷ is) h = (h.0, h.1, IsSsa-take n _ is h.2)
