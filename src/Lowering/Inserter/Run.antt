-- ===== src/Lowering/Inserter/Run.antt =====
-- What the instructions of a block do: the meaning that the proofs about emitSelectPseudo compare.
use toy_riscv.Base.{
  ℕ, Bool, true, false, not, ◌==◌, if◌then◌else◌, List, [], ◌∷◌, ◌++◌, map, Option, none, some, ◌≡◌,
  refl, XLen, signed_lt, ltb, ok, arith,
}
use toy_riscv.Lowering.Cond.{
  BranchCode, cond_eq, cond_ne, cond_lt, cond_ge, cond_ltu, cond_geu, cond_invalid, BranchOpcode,
  get_br_cond, takes,
}
use toy_riscv.Lowering.Inserter.{
  Instr, select_pseudo, debug, plain, branch, jump, phi, remove_debug, without_selects,
}

-- Whether the comparison that a code names holds of two words.
unfoldable pub code_holds : XLen → BranchCode → ℕ → ℕ → Bool
code_holds x cond_eq a b = a == b
code_holds x cond_ne a b = not (a == b)
code_holds x cond_lt a b = signed_lt x a b
code_holds x cond_ge a b = not (signed_lt x a b)
code_holds x cond_ltu a b = ltb a b
code_holds x cond_geu a b = not (ltb a b)
code_holds x cond_invalid a b = false

pub takes-get_br_cond :
    (x : XLen) (code : BranchCode) (o : BranchOpcode) (a b : ℕ)
    → get_br_cond code ≡ ok o
    → takes x o a b ≡ code_holds x code a b
unfolding get_br_cond code_holds
takes-get_br_cond x code o a b h = ground arith

-- A register file, with a value written to one register or to several.
abbrev pub write : ℕ → ℕ → (ℕ → ℕ) → ℕ → ℕ
write r v f q = if q == r then v else f q

unfoldable pub write_all : List ℕ → List ℕ → (ℕ → ℕ) → ℕ → ℕ
write_all [] vs f = f
write_all (d ∷ ds) [] f = f
write_all (d ∷ ds) (v ∷ vs) f = write d v (write_all ds vs f)

-- The registers and the rest of the machine, such as memory.
pub record State (W : Type 0) : Type 0 where
  pub regs : ℕ → ℕ
  pub world : W

-- The width of registers, and what an instruction makes of the registers it uses and of the rest of the
-- machine: the values of the registers it defines.
pub record Machine (W : Type 0) : Type 0 where
  pub xlen : XLen
  pub effect : ℕ → List ℕ → W → List ℕ × W

module _ {W : Type 0} (m : Machine W) where
  open m use {xlen, effect}

  -- An instruction that is not control flow. A debug instruction does nothing.
  unfoldable pub run_instr : Instr → State W → State W
  run_instr (select_pseudo d l r code t f) s = record s {
    regs =
        write d (if code_holds xlen code (s.regs l) (s.regs r) then s.regs t else s.regs f) s.regs;
  }
  run_instr (plain o ds us e a) s =
      let result = effect o (map s.regs us) s.world in
      record { regs = write_all ds result.0 s.regs; world = result.1 }
  run_instr _ s = s

  -- Instructions without control flow.
  unfoldable pub run_all : List Instr → State W → State W
  run_all [] s = s
  run_all (i ∷ is) s = run_all is (run_instr i s)

  -- A block up to the first branch that is taken, with the target of that branch.
  unfoldable pub run : List Instr → State W → State W × Option ℕ
  run [] s = (s, none)
  run (branch o l r t ∷ is) s =
      let rest = run is s in if takes xlen o (s.regs l) (s.regs r) then (s, some t) else rest
  run (jump t ∷ is) s = (s, some t)
  run (i ∷ is) s = run is (run_instr i s)

  -- The register of a PHI for the block that control comes from.
  abbrev pub incoming : ℕ → List (ℕ × ℕ) → Option ℕ
  incoming from [] = none
  incoming from ((r, b) ∷ is) = let rest = incoming from is in if b == from then some r else rest

  abbrev pub write_incoming : ℕ → Option ℕ → (ℕ → ℕ) → (ℕ → ℕ) → ℕ → ℕ
  write_incoming d none base f = f
  write_incoming d (some r) base f = write d (base r) f

  -- The PHIs at the start of a block all read the registers as they were on entry.
  unfoldable pub enter : ℕ → List Instr → (ℕ → ℕ) → (ℕ → ℕ) → ℕ → ℕ
  enter from [] base f = f
  enter from (phi d inc ∷ is) base f =
      enter from is base (write_incoming d (incoming from inc) base f)
  enter from (i ∷ is) base f = f

-- No control flow and no PHI.
unfoldable pub is_straight : List Instr → Bool
is_straight [] = true
is_straight (branch o l r t ∷ is) = false
is_straight (jump t ∷ is) = false
is_straight (phi d inc ∷ is) = false
is_straight (i ∷ is) = is_straight is

module _ {W : Type 0} (m : Machine W) where
  pub run-append :
      (xs ys : List Instr) (s : State W)
      → is_straight xs ≡ true
      → run m (xs ++ ys) s ≡ run m ys (run_all m xs s)
  unfolding run run_all is_straight
  run-append [] ys s h = refl
  run-append (select_pseudo d l r code t f ∷ xs) ys s h = run-append xs ys _ h
  run-append (debug n ∷ xs) ys s h = run-append xs ys _ h
  run-append (plain o ds us e a ∷ xs) ys s h = run-append xs ys _ h
  run-append (branch o l r t ∷ xs) ys s h = cc
  run-append (jump t ∷ xs) ys s h = cc
  run-append (phi d inc ∷ xs) ys s h = cc

  -- Debug instructions may be added and removed.
  pub run-debugs :
      (ns : List ℕ) (is : List Instr) (s : State W) → run m (map debug ns ++ is) s ≡ run m is s
  unfolding run run_instr
  run-debugs [] is s = refl
  run-debugs (n ∷ ns) is s = run-debugs ns is s

  pub run-remove_debug :
      (ns : List ℕ) (is : List Instr) (s : State W) → run m (remove_debug ns is) s ≡ run m is s
  unfolding run run_instr remove_debug
  run-remove_debug ns [] s = refl
  run-remove_debug ns (select_pseudo d l r code t f ∷ is) s = run-remove_debug ns is _
  run-remove_debug ns (debug n ∷ is) s = ground (arith, run-remove_debug ns is s)
  run-remove_debug ns (plain o ds us e a ∷ is) s = run-remove_debug ns is _
  run-remove_debug ns (branch o l r t ∷ is) s = rw (run-remove_debug ns is s) refl
  run-remove_debug ns (jump t ∷ is) s = refl
  run-remove_debug ns (phi d inc ∷ is) s = run-remove_debug ns is _

  pub run_all-remove_debug :
      (ns : List ℕ) (is : List Instr) (s : State W)
      → run_all m (without_selects (remove_debug ns is)) s ≡ run_all m (without_selects is) s
  unfolding run_all run_instr remove_debug without_selects
  run_all-remove_debug ns [] s = refl
  run_all-remove_debug ns (select_pseudo d l r code t f ∷ is) s = run_all-remove_debug ns is _
  run_all-remove_debug ns (debug n ∷ is) s = ground (arith, run_all-remove_debug ns is s)
  run_all-remove_debug ns (i ∷ is) s = run_all-remove_debug ns is _
