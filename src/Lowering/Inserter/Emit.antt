-- ===== src/Lowering/Inserter/Emit.antt =====
-- The PHIs and the instructions in the blocks of emitSelectPseudo: TOYRISCVISelLowering.cpp.
use toy_riscv.Base.{
  take, drop, ℕ, zero, suc, Bool, true, false, ◌==◌, ==_iff, ==_refl, if◌then◌else◌, List, [], ◌∷◌,
  ◌++◌, map, some, ◌≡◌, ◌≢◌, refl, ap, arith,
}
use toy_riscv.Lowering.Cond.{BranchOpcode}
use toy_riscv.Lowering.Inserter.{
  Instr, select_pseudo, debug, plain, branch, jump, phi, remove_debug, without_selects, phis,
}
use toy_riscv.Lowering.Inserter.Run.{Machine, State, run_instr, run, incoming, enter, is_straight}
use toy_riscv.Lowering.Inserter.Scan.{is_shaped, is_ending}
use toy_riscv.Lowering.Inserter.Writes.{Choice, choose}
use toy_riscv.Lowering.Inserter.Straight.{choices_onto}

pub take-append-drop {ℓ} : {A : Type ℓ} (n : ℕ) (xs : List A) → take n xs ++ drop n xs ≡ xs
take-append-drop zero xs = refl
take-append-drop (suc n) [] = refl
take-append-drop (suc n) (x ∷ xs) = ap (◌∷◌ x) (take-append-drop n xs)

-- No PHI is in the list.
unfoldable pub no_phis : List Instr → Bool
no_phis [] = true
no_phis (phi d inc ∷ is) = false
no_phis (i ∷ is) = no_phis is

pub enter-no_phis :
    {W : Type 0} (m : Machine W) (from : ℕ) (is : List Instr) (base f : ℕ → ℕ)
    → no_phis is ≡ true
    → enter m from is base f ≡ f
unfolding enter no_phis
enter-no_phis m from [] base f h = refl
enter-no_phis m from (phi d inc ∷ is) base f h = cc
enter-no_phis m from (i ∷ is) base f h = refl

pub no_phis-is_ending : (is : List Instr) → is_ending is ≡ true → no_phis is ≡ true
unfolding no_phis is_ending
no_phis-is_ending [] h = refl
no_phis-is_ending (select_pseudo d l r code t f ∷ is) h = cc
no_phis-is_ending (phi d inc ∷ is) h = cc
no_phis-is_ending (i ∷ is) h = no_phis-is_ending is h

pub no_phis-is_shaped : (is : List Instr) → is_shaped is ≡ true → no_phis is ≡ true
unfolding no_phis is_shaped
no_phis-is_shaped [] h = refl
no_phis-is_shaped (branch o l r t ∷ is) h = no_phis-is_ending is h
no_phis-is_shaped (jump t ∷ is) h = no_phis-is_ending is h
no_phis-is_shaped (phi d inc ∷ is) h = cc
no_phis-is_shaped (i ∷ is) h = no_phis-is_shaped is h

pub no_phis-branch :
    (o : BranchOpcode) (l r t : ℕ) (is : List Instr)
    → is_straight is ≡ true
    → no_phis (is ++ (branch o l r t ∷ [])) ≡ true
unfolding no_phis is_straight
no_phis-branch o l r t [] h = refl
no_phis-branch o l r t (phi d inc ∷ is) h = cc
no_phis-branch o l r t (branch p a b c ∷ is) h = cc
no_phis-branch o l r t (jump u ∷ is) h = cc
no_phis-branch o l r t (i ∷ is) h = no_phis-branch o l r t is h

pub no_phis-drop : (n : ℕ) (is : List Instr) → no_phis is ≡ true → no_phis (drop n is) ≡ true
unfolding no_phis
no_phis-drop zero is h = h
no_phis-drop (suc n) [] h = refl
no_phis-drop (suc n) (phi d inc ∷ is) h = cc
no_phis-drop (suc n) (i ∷ is) h = no_phis-drop n is h

pub no_phis-remove_debug :
    (ns : List ℕ) (is : List Instr) → no_phis is ≡ true → no_phis (remove_debug ns is) ≡ true
unfolding no_phis remove_debug
no_phis-remove_debug ns [] h = refl
no_phis-remove_debug ns (phi d inc ∷ is) h = cc
no_phis-remove_debug ns (debug n ∷ is) h = ground (arith, no_phis-remove_debug ns is h)
no_phis-remove_debug ns (i ∷ is) h = no_phis-remove_debug ns is h

pub no_phis-debugs :
    (ns : List ℕ) (is : List Instr) → no_phis is ≡ true → no_phis (map debug ns ++ is) ≡ true
unfolding no_phis
no_phis-debugs [] is h = h
no_phis-debugs (n ∷ ns) is h = no_phis-debugs ns is h

pub is_straight-without_selects :
    (is : List Instr) → is_straight is ≡ true → is_straight (without_selects is) ≡ true
unfolding is_straight without_selects
is_straight-without_selects [] h = refl
is_straight-without_selects (select_pseudo d l r code t f ∷ is) h = is_straight-without_selects is h
is_straight-without_selects (debug n ∷ is) h = is_straight-without_selects is h
is_straight-without_selects (plain o ds us e a ∷ is) h = is_straight-without_selects is h
is_straight-without_selects (branch o l r t ∷ is) h = cc
is_straight-without_selects (jump t ∷ is) h = cc
is_straight-without_selects (phi d inc ∷ is) h = cc

pub is_straight-remove_debug :
    (ns : List ℕ) (is : List Instr)
    → is_straight is ≡ true
    → is_straight (remove_debug ns is) ≡ true
unfolding is_straight remove_debug
is_straight-remove_debug ns [] h = refl
is_straight-remove_debug ns (select_pseudo d l r code t f ∷ is) h = is_straight-remove_debug ns is h
is_straight-remove_debug ns (debug n ∷ is) h = ground (arith, is_straight-remove_debug ns is h)
is_straight-remove_debug ns (plain o ds us e a ∷ is) h = is_straight-remove_debug ns is h
is_straight-remove_debug ns (branch o l r t ∷ is) h = cc
is_straight-remove_debug ns (jump t ∷ is) h = cc
is_straight-remove_debug ns (phi d inc ∷ is) h = cc

differ : {a b : ℕ} → a ≢ b → (a == b) ≡ false
differ {a} {b} n = ground (arith, n, ==_iff a b)

module _ (head if_false : ℕ) where
  pub phis-remove_debug :
      (ns : List ℕ) (is : List Instr)
      → phis head if_false (remove_debug ns is) ≡ phis head if_false is
  unfolding phis remove_debug
  phis-remove_debug ns [] = refl
  phis-remove_debug ns (select_pseudo d l r code t f ∷ is) =
      ap (◌∷◌ (phi d ((t, head) ∷ (f, if_false) ∷ []))) (phis-remove_debug ns is)
  phis-remove_debug ns (debug n ∷ is) = ground (arith, phis-remove_debug ns is)
  phis-remove_debug ns (i ∷ is) = phis-remove_debug ns is

  module _ {W : Type 0} (m : Machine W) where
    pub run-phis :
        (is ys : List Instr) (s : State W) → run m (phis head if_false is ++ ys) s ≡ run m ys s
    unfolding run run_instr phis
    run-phis [] ys s = refl
    run-phis (select_pseudo d l r code t f ∷ is) ys s = run-phis is ys s
    run-phis (i ∷ is) ys s = run-phis is ys s

    incoming_false :
        head ≢ if_false → (t f : ℕ) → incoming m if_false ((t, head) ∷ (f, if_false) ∷ []) ≡ some f
    incoming_false n t f = rw (differ n, ==_refl if_false) refl

    -- On entry from HeadMBB the PHIs take the first operands of the selects, and from IfFalseMBB the
    -- second.
    pub enter-phis :
        head ≢ if_false
        → (b : Bool) (is ys : List Instr) (ps : List Choice) (base : ℕ → ℕ)
        → enter m
            (if b then head else if_false)
            (phis head if_false is ++ ys)
            base
            (choose b ps base)
          ≡ enter m (if b then head else if_false) ys base (choose b (choices_onto is ps) base)
    unfolding enter phis choices_onto choose
    enter-phis n b [] ys ps base = refl
    enter-phis n true (select_pseudo d l r code t f ∷ is) ys ps base =
        rw (enter, ==_refl head) (enter-phis n true is ys ((d, t, f) ∷ ps) base)
    enter-phis n false (select_pseudo d l r code t f ∷ is) ys ps base =
        rw (enter, incoming_false n t f) (enter-phis n false is ys ((d, t, f) ∷ ps) base)
    enter-phis n b (i ∷ is) ys ps base = enter-phis n b is ys ps base
