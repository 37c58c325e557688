-- ===== src/Lowering/Inserter/Follow.antt =====
-- Runs of blocks: their parts, and what the update of the PHIs leaves as it was.
use toy_riscv.Base.{
  ℕ, Bool, true, false, ◌==◌, ==_iff, List, [], ◌∷◌, ◌++◌, member, Option, none, some, ◌≡◌, refl,
  arith, Bool-cases, inl, inr,
}
use mathlib.Core.Bool.{and-eq-true_iff}
use toy_riscv.Lowering.Inserter.{Instr, branch, jump, phi}
use toy_riscv.Lowering.Inserter.Run.{Machine, State, run_all, run, enter}
use toy_riscv.Lowering.Inserter.Emit.{no_phis, enter-no_phis}
use toy_riscv.Lowering.Inserter.Blocks.{Block, Function, rename, update_phis}
use toy_riscv.Lowering.Inserter.Steps.{find_block, Config, entered, run_block, Steps, once, again}
use toy_riscv.Lowering.Inserter.Layout.{leaves_out, unnamed, run-replace_phi_uses, enter-rename}

-- No branch and no jump.
unfoldable pub goes_on : List Instr → Bool
goes_on [] = true
goes_on (branch o l r t ∷ is) = false
goes_on (jump t ∷ is) = false
goes_on (i ∷ is) = goes_on is

pub find_block-number :
    (fn : Function) (n : ℕ) (b : Block) → find_block fn n ≡ some b → b.number ≡ n
unfolding find_block
find_block-number [] n b h = cc
find_block-number (c ∷ cs) n b h = ground (arith, find_block-number cs n b, ==_iff c.number n)

pub not_both : (o : Option Block) (b : Block) → o ≡ none → o ≡ some b → ⊥
not_both none b h e = cc
not_both (some a) b h e = cc

pub only : (o : Option Block) (a b : Block) → o ≡ some a → o ≡ some b → a ≡ b
only none a b h e = cc
only (some x) a b h e = cc

pub flip : (a b : ℕ) → (a == b) ≡ false → (b == a) ≡ false
flip a b h = ground (arith, ==_iff a b, ==_iff b a)

unnamed-no_phis : (n : ℕ) (is : List Instr) → no_phis is ≡ true → unnamed n is ≡ true
unfolding unnamed no_phis
unnamed-no_phis n [] h = refl
unnamed-no_phis n (phi d inc ∷ is) h = cc
unnamed-no_phis n (i ∷ is) h = refl

pub unnamed-append :
    (n : ℕ) (xs ys zs : List Instr)
    → unnamed n (xs ++ zs) ≡ true
    → no_phis ys ≡ true
    → unnamed n (xs ++ ys) ≡ true
unfolding unnamed
unnamed-append n [] ys zs h np = unnamed-no_phis n ys np
unnamed-append n (phi d inc ∷ xs) ys zs h np =
    let (first, rest) = (and-eq-true_iff (leaves_out n inc) (unnamed n (xs ++ zs))).0 h in
    rw first (unnamed-append n xs ys zs rest np)
unnamed-append n (i ∷ xs) ys zs h np = refl

module _ {W : Type 0} (m : Machine W) where
  run-goes_on :
      (xs ys : List Instr) (s : State W)
      → goes_on xs ≡ true
      → run m (xs ++ ys) s ≡ run m ys (run_all m xs s)
  unfolding run run_all goes_on
  run-goes_on [] ys s h = refl
  run-goes_on (branch o l r t ∷ xs) ys s h = cc
  run-goes_on (jump t ∷ xs) ys s h = cc
  run-goes_on (i ∷ xs) ys s h = run-goes_on xs ys _ h

  -- What follows the PHIs does not matter on entry.
  enter-append :
      (from : ℕ) (xs ys : List Instr) (base f : ℕ → ℕ)
      → no_phis ys ≡ true
      → enter m from (xs ++ ys) base f ≡ enter m from xs base f
  unfolding enter
  enter-append from [] ys base f h = enter-no_phis m from ys base f h
  enter-append from (phi d inc ∷ xs) ys base f h = enter-append from xs ys base _ h
  enter-append from (i ∷ xs) ys base f h = refl

  -- The block before control flow, then what stands behind.
  pub run_block-append :
      (from : ℕ) (xs ys : List Instr) (s : State W)
      → goes_on xs ≡ true
      → no_phis ys ≡ true
      → run_block m from (xs ++ ys) s ≡ run m ys (run_all m xs (entered m from xs s))
  run_block-append from xs ys s h np =
      rw (enter-append from xs ys s.regs s.regs np) (run-goes_on xs ys _ h)

  -- A block whose PHIs have been updated reads them for the renamed block as it did for the block.
  pub run_block-update :
      (old new : ℕ) (succs : List ℕ) (b : Block) (from : ℕ) (s : State W)
      → (from == new) ≡ false
      → unnamed new b.instrs ≡ true
      → (from ≡ old → member b.number succs ≡ true)
      → run_block m (rename old new from) (update_phis old new succs b).instrs s
        ≡ run_block m from b.instrs s
  unfolding update_phis
  run_block-update old new succs b from s n un honest = elim (Bool-cases (member b.number succs)) [
    | inl e ↦
        rw (e, run-replace_phi_uses m old new b.instrs)
          (rw (enter-rename m old new from b.instrs s.regs s.regs n un) refl)
    | inr e ↦ elim (Bool-cases (from == old)) [
      | inl f ↦ ground (arith, e, honest ((==_iff from old).0 f))
      | inr f ↦ rw (e, f) refl
    ]
  ]

pub Steps-append :
    {W : Type 0} {m : Machine W} {fn : Function} {c c' c'' : Config W}
    → Steps m fn c c'
    → Steps m fn c' c''
    → Steps m fn c c''
Steps-append (once one) more = again one more
Steps-append (again one rest) more = again one (Steps-append rest more)
