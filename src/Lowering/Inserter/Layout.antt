-- ===== src/Lowering/Inserter/Layout.antt =====
-- Where the new blocks of emitSelectPseudo stand, and what the renamed PHIs read.
use toy_riscv.Base.{
  ℕ, Bool, true, false, ◌&&◌, ◌==◌, ==_iff, ==_refl, if◌then◌else◌, List, [], ◌∷◌, map, none, some,
  ◌≡◌, ◌≢◌, refl, arith, Bool-cases, inl, inr,
}
use mathlib.Core.Option
use mathlib.Core.Bool.{and-eq-true_iff}
use toy_riscv.Lowering.Inserter.{Instr, phi}
use toy_riscv.Lowering.Inserter.Run.{
  Machine, State, run_instr, run, incoming, write_incoming, enter,
}
use toy_riscv.Lowering.Inserter.Blocks.{
  Block, Function, rename, rename_incoming, replace_phi_uses, update_phis, insert_blocks,
}
use toy_riscv.Lowering.Inserter.Steps.{find_block, first_number, layout_successor}

-- The PHIs at the start of a list do not name a block.
unfoldable pub leaves_out : ℕ → List (ℕ × ℕ) → Bool
leaves_out n [] = true
leaves_out n ((r, b) ∷ is) = (if b == n then false else true) && leaves_out n is

unfoldable pub unnamed : ℕ → List Instr → Bool
unnamed n (phi d inc ∷ is) = leaves_out n inc && unnamed n is
unnamed n is = true

module _ {W : Type 0} (m : Machine W) (old new : ℕ) where
  pub run-replace_phi_uses :
      (is : List Instr) (s : State W) → run m (replace_phi_uses old new is) s ≡ run m is s
  unfolding run run_instr replace_phi_uses
  run-replace_phi_uses [] s = refl
  run-replace_phi_uses (phi d inc ∷ is) s = run-replace_phi_uses is s
  run-replace_phi_uses (i ∷ is) s = refl

  incoming-rename :
      (from : ℕ) (inc : List (ℕ × ℕ))
      → (from == new) ≡ false
      → leaves_out new inc ≡ true
      → incoming m (rename old new from) (rename_incoming old new inc) ≡ incoming m from inc
  unfolding rename_incoming leaves_out
  incoming-rename from [] n h = refl
  incoming-rename from ((r, b) ∷ is) n h = ground (
    arith,
    incoming-rename from is n,
    ==_iff b old,
    ==_iff from old,
    ==_iff b from,
    ==_iff b new,
    ==_iff from new,
    ==_refl new,
  )

  pub enter-rename :
      (from : ℕ) (is : List Instr) (base f : ℕ → ℕ)
      → (from == new) ≡ false
      → unnamed new is ≡ true
      → enter m (rename old new from) (replace_phi_uses old new is) base f ≡ enter m from is base f
  unfolding enter replace_phi_uses unnamed
  enter-rename from [] base f n h = refl
  enter-rename from (phi d inc ∷ is) base f n h =
      let (first, rest) = (and-eq-true_iff _ _).0 h in
      rw (enter, incoming-rename from inc n first)
        (enter-rename from is base (write_incoming m d (incoming m from inc) base f) n rest)
  enter-rename from (i ∷ is) base f n h = refl

module _ (old new : ℕ) (succs : List ℕ) where
  pub find_block-update :
      (fn : Function) (n : ℕ)
      → find_block (map (update_phis old new succs) fn) n
        ≡ Option.map (update_phis old new succs) (find_block fn n)
  unfolding find_block update_phis
  find_block-update [] n = refl
  find_block-update (b ∷ bs) n = ground (arith, find_block-update bs n)

  pub layout_successor-update :
      (fn : Function) (n : ℕ)
      → layout_successor (map (update_phis old new succs) fn) n ≡ layout_successor fn n
  unfolding layout_successor update_phis
  layout_successor-update [] n = refl
  layout_successor-update (b ∷ []) n = ground (arith)
  layout_successor-update (b ∷ c ∷ bs) n = ground (arith, layout_successor-update (c ∷ bs) n)

module _ (h i t : Block) where
  pub find_block-insert_other :
      (fn : Function) (n : ℕ)
      → (h.number == n) ≡ false
      → (i.number == n) ≡ false
      → (t.number == n) ≡ false
      → find_block (insert_blocks h i t fn) n ≡ find_block fn n
  unfolding find_block insert_blocks
  find_block-insert_other [] n p q r = refl
  find_block-insert_other (b ∷ bs) n p q r = ground (
    arith,
    find_block-insert_other bs n p q r,
    ==_iff b.number n,
    ==_iff b.number h.number,
    ==_iff h.number n,
  )

  first_number-insert : (fn : Function) → first_number (insert_blocks h i t fn) ≡ first_number fn
  unfolding insert_blocks
  first_number-insert [] = refl
  first_number-insert (b ∷ bs) = ground (arith, ==_iff b.number h.number)

  pub layout_successor-insert_other :
      (fn : Function) (n : ℕ)
      → (h.number == n) ≡ false
      → (i.number == n) ≡ false
      → (t.number == n) ≡ false
      → layout_successor (insert_blocks h i t fn) n ≡ layout_successor fn n
  unfolding layout_successor insert_blocks
  layout_successor-insert_other [] n p q r = refl
  layout_successor-insert_other (b ∷ bs) n p q r = elim (Bool-cases (b.number == h.number)) [
    | inl e ↦ rw (e, p, q, r, (==_iff b.number h.number).0 e, p) refl
    | inr e ↦ rw (e, first_number-insert bs, layout_successor-insert_other bs n p q r) refl
  ]

  -- The new blocks, in a function that has the head and no blocks of the new numbers.
  module _ (hi : (h.number == i.number) ≡ false) (ht : (h.number == t.number) ≡ false)
      (it : (i.number == t.number) ≡ false) where
    pub insert_blocks_lem :
        (fn : Function)
        → find_block fn i.number ≡ none
        → find_block fn t.number ≡ none
        → find_block fn h.number ≢ none
        → (find_block (insert_blocks h i t fn) h.number ≡ some h)
          × (find_block (insert_blocks h i t fn) i.number ≡ some i)
          × (find_block (insert_blocks h i t fn) t.number ≡ some t)
          × (layout_successor (insert_blocks h i t fn) h.number ≡ some i.number)
          × (layout_successor (insert_blocks h i t fn) i.number ≡ some t.number)
          × (layout_successor (insert_blocks h i t fn) t.number ≡ layout_successor fn h.number)
    unfolding find_block layout_successor insert_blocks
    insert_blocks_lem [] p q r = absurd (r refl)
    insert_blocks_lem (b ∷ bs) p q r = elim (Bool-cases (b.number == h.number)) [
      | inl e ↦
          rw (e, hi, ht, it, ==_refl h.number, ==_refl i.number, ==_refl t.number)
            (refl, refl, refl, refl, refl, refl)
      | inr e ↦ elim (Bool-cases (b.number == i.number)) [
        | inl f ↦ ground (arith, f)
        | inr f ↦ elim (Bool-cases (b.number == t.number)) [
          | inl g ↦ ground (arith, g)
          | inr g ↦ rw (e, e, f, g) (insert_blocks_lem bs (rw f at p) (rw g at q) (rw e at r))
        ]
      ]
    ]
