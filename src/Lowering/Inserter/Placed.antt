-- ===== src/Lowering/Inserter/Placed.antt =====
-- A select placed in a function, the blocks that emitSelectPseudo puts there, and the steps of the others.
use toy_riscv.Base.{
  ℕ, true, false, ◌==◌, ==_iff, List, ◌∷◌, ◌++◌, map, member, Option, none, some, ◌≡◌, ◌≢◌, refl,
  ap, ◌∙◌, Bool-cases, inl, inr,
}
use mathlib.Core.Option
use toy_riscv.Lowering.Cond.{cond_invalid}
use toy_riscv.Lowering.Inserter.{Instr, Triangle}
use toy_riscv.Lowering.Inserter.Run.{Machine, State}
use toy_riscv.Lowering.Inserter.Scan.{IsSsa, is_shaped}
use toy_riscv.Lowering.Inserter.Blocks.{
  Block, Function, rename, update_phis, insert_blocks, Select, pseudo, head_block, if_false_block,
  tail_block,
}
use toy_riscv.Lowering.Inserter.Steps.{
  find_block, layout_successor, Config, next_block, run_block, Step, runs,
}
use toy_riscv.Lowering.Inserter.Layout.{
  unnamed, find_block-update, layout_successor-update, find_block-insert_other,
  layout_successor-insert_other, insert_blocks_lem,
}
use toy_riscv.Lowering.Inserter.Follow.{
  goes_on, find_block-number, run_block-update, not_both, flip,
}

-- A select in its function: its block, the instructions around it, and the numbers of the new blocks.
pub record Site : Type 0 where
  pub function : Function
  pub block : Block
  pub before : List Instr
  pub select : Select
  pub after : List Instr
  pub if_false : ℕ
  pub tail : ℕ

-- The function that EmitInstrWithCustomInserter leaves.
abbrev pub update : Site → Block → Block
update p = update_phis p.block.number p.tail p.block.successors

abbrev pub inserted : Site → Triangle → Function
inserted p tri =
    insert_blocks (head_block p.block p.if_false p.tail p.before tri)
      (if_false_block p.if_false p.tail) (tail_block p.block p.tail tri) p.function

abbrev pub result : Site → Triangle → Function
result p tri = map (update p) (inserted p tri)

module _ {W : Type 0} (m : Machine W) (p : Site) where
  open p use {function, block, before, select, after, if_false, tail}

  -- The block is in the function, without control flow before the select, and control leaves it to its
  -- successors only; the select has a condition code and stands in a block in single-assignment form, where
  -- `seen` has come before it; the new numbers are new.
  pub record IsPlaced (seen : List ℕ) : Type 0 where
    pub found : find_block function block.number ≡ some block
    pub split : block.instrs ≡ before ++ (pseudo select ∷ after)
    pub straight : goes_on before ≡ true
    pub leaves :
        (from t : ℕ) (s : State W)
        → next_block (run_block m from block.instrs s).1 (layout_successor function block.number)
          ≡ some t
        → member t block.successors ≡ true
    pub valid : select.cc ≢ cond_invalid
    pub ssa : IsSsa seen (pseudo select ∷ after)
    pub lhs_seen : member select.lhs seen ≡ true
    pub rhs_seen : member select.rhs seen ≡ true
    pub shaped : is_shaped after ≡ true
    pub distinct : (if_false == tail) ≡ false
    pub new_if_false : find_block function if_false ≡ none
    pub new_tail : find_block function tail ≡ none
    pub no_edge_if_false : member if_false block.successors ≡ false
    pub no_edge_tail : member tail block.successors ≡ false
    pub no_phi_tail :
        (b : Block) (n : ℕ) → find_block function n ≡ some b → unnamed tail b.instrs ≡ true

  -- Control does not come from the new block, and comes from the block of the select to a successor.
  abbrev pub IsEntry : Config W → Type 0
  IsEntry c =
      ((c.from == tail) ≡ false) × (c.from ≡ block.number → member c.block block.successors ≡ true)

  -- Where the run was in the block of the select, it now comes from its tail.
  abbrev pub renamed : Config W → Config W
  renamed c = record c { from = rename block.number tail c.from }

  module _ (seen : List ℕ) (placed : IsPlaced seen) where
    open placed use {
      found, split, straight, leaves, distinct, new_if_false, new_tail, no_edge_if_false,
      no_edge_tail, no_phi_tail, shaped, valid, ssa, lhs_seen, rhs_seen,
    }

    pub differs_found :
        (n k : ℕ) (b : Block)
        → find_block function n ≡ some b
        → find_block function k ≡ none
        → ((n == k) ≡ false) × ((k == n) ≡ false)
    differs_found n k b h e = elim (Bool-cases (n == k)) [
      | inl f ↦
          absurd
            (not_both (find_block function n) b (ap (find_block function) ((==_iff n k).0 f) ∙ e) h)
      | inr f ↦ (f, flip n k f)
    ]

    module _ (tri : Triangle) where
      -- A step of another block stays.
      pub Step-other :
          (b : Block) (n from t : ℕ) (s s' : State W) (target : Option ℕ)
          → (block.number == n) ≡ false
          → IsEntry (record { block = n; from = from; state = s })
          → find_block function n ≡ some b
          → run_block m from b.instrs s ≡ (s', target)
          → next_block target (layout_successor function n) ≡ some t
          → Step m
              (result p tri)
              (record { block = n; from = rename block.number tail from; state = s })
              (record { block = t; from = n; state = s' })
      Step-other b n from t s s' target other entry f r next =
          let ni = (differs_found n if_false b f new_if_false).1 in
          let nt = (differs_found n tail b f new_tail).1 in
          runs {b = update p b}
            (find_block-update block.number tail block.successors _ n
              ∙ ap (Option.map (update p))
                  (find_block-insert_other _ _ _ function n other ni nt ∙ f))
            (run_block-update m block.number tail block.successors b from s entry.0
                (no_phi_tail b n f) (λ e. rw (find_block-number function n b f) (entry.1 e))
              ∙ r)
            (rw
              (
                layout_successor-update block.number tail block.successors (inserted p tri) n,
                layout_successor-insert_other (head_block block if_false tail before tri)
                    (if_false_block if_false tail) (tail_block block tail tri) function n other ni
                    nt,
              )
              next)

      -- The new blocks, after the update of the PHIs.
      update_new : (b : Block) → member b.number block.successors ≡ false → update p b ≡ b
      unfolding update_phis
      update_new b h = rw h refl

      abbrev pub NewBlocks : Type 0
      NewBlocks =
          (find_block (result p tri) block.number
            ≡ some (update p (head_block block if_false tail before tri)))
          × (find_block (result p tri) if_false ≡ some (if_false_block if_false tail))
          × (find_block (result p tri) tail ≡ some (tail_block block tail tri))
          × (layout_successor (result p tri) block.number ≡ some if_false)
          × (layout_successor (result p tri) if_false ≡ some tail)
          × (layout_successor (result p tri) tail ≡ layout_successor function block.number)

      pub NewBlocks_lem : NewBlocks
      NewBlocks_lem =
          let hi = (differs_found block.number if_false block found new_if_false).0 in
          let ht = (differs_found block.number tail block found new_tail).0 in
          let h = head_block block if_false tail before tri in
          let i = if_false_block if_false tail in
          let t = tail_block block tail tri in
          let placed_blocks =
            insert_blocks_lem h i t hi ht distinct function new_if_false new_tail
              (λ e. not_both _ block e found) in
          let finds = find_block-update block.number tail block.successors (inserted p tri) in
          let follows =
            layout_successor-update block.number tail block.successors (inserted p tri) in
          (
            finds block.number ∙ ap (Option.map (update p)) placed_blocks.0,
            finds if_false
                ∙ ap (Option.map (update p)) placed_blocks.1
                ∙ ap some (update_new i no_edge_if_false),
            finds tail
                ∙ ap (Option.map (update p)) placed_blocks.2
                ∙ ap some (update_new t no_edge_tail),
            follows block.number ∙ placed_blocks.3,
            follows if_false ∙ placed_blocks.4,
            follows tail ∙ placed_blocks.5,
          )
