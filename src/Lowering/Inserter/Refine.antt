-- ===== src/Lowering/Inserter/Refine.antt =====
-- The run of the function that EmitInstrWithCustomInserter leaves beside that of the function before it.
-- TOYRISCVISelLowering.cpp.
use toy_riscv.Base.{
  ℕ, Bool, true, false, ◌==◌, ==_iff, ==_refl, List, ◌∷◌, member, Option, some, ◌≡◌, refl, sym, ap,
  ◌∙◌, arith, Bool-cases, inl, inr, ok,
}
use toy_riscv.Lowering.Inserter.{DebugValues, Triangle}
use toy_riscv.Lowering.Inserter.Run.{Machine, State, run_all, run, enter}
use toy_riscv.Lowering.Inserter.Emit.{no_phis, no_phis-is_shaped}
use toy_riscv.Lowering.Inserter.Equivalent.{run_triangle, target_of, emit_select_pseudo_lem}
use toy_riscv.Lowering.Inserter.Blocks.{
  Function, rename, pseudo, head_block, emit_instr_with_custom_inserter,
}
use toy_riscv.Lowering.Inserter.Steps.{
  layout_successor, Config, next_block, entered, run_block, Step, runs, Steps, once, again,
}
use toy_riscv.Lowering.Inserter.Layout.{unnamed}
use toy_riscv.Lowering.Inserter.Follow.{
  unnamed-append, run_block-append, run_block-update, only, flip, Steps-append,
}
use toy_riscv.Lowering.Inserter.Placed.{
  Site, IsPlaced, IsEntry, renamed, update, result, differs_found, Step-other, NewBlocks_lem,
}

module _ {W : Type 0} (m : Machine W) (p : Site) where
  open p use {function, block, before, select, after, if_false, tail}

  module _ (seen : List ℕ) (placed : IsPlaced m p seen) (tri : Triangle) where
    open placed use {found, split, straight, leaves, new_tail, no_phi_tail, shaped}

    -- The run of the head comes to the branch as the block comes to the select.
    run_block-head :
        (from : ℕ) (s : State W)
        → IsEntry m p (record { block = block.number; from = from; state = s })
        → no_phis tri.head_instrs ≡ true
        → run_block m
            (rename block.number tail from)
            (update p (head_block block if_false tail before tri)).instrs
            s
          ≡ run m tri.head_instrs (run_all m before (entered m from before s))
    run_block-head from s entry np =
        run_block-update m block.number tail block.successors
          (head_block block if_false tail before tri) from s entry.0
          (unnamed-append tail before tri.head_instrs (pseudo select ∷ after)
            (ap (unnamed tail) (sym split) ∙ no_phi_tail block block.number found) np)
          entry.1
        ∙ run_block-append m from before tri.head_instrs s straight np

    -- A step of the block of the select is one of its head, one of its tail, and one of the empty block between
    -- them if the branch is not taken.
    Step-site :
        (from t : ℕ) (s s' : State W) (target : Option ℕ)
        → IsEntry m p (record { block = block.number; from = from; state = s })
        → no_phis tri.head_instrs ≡ true
        → (b : Bool)
        → (run m tri.head_instrs (run_all m before (entered m from before s))).1
          ≡ target_of m block.number if_false tail b
        → run_triangle m block.number if_false tail tri (run_all m before (entered m from before s))
          ≡ (s', target)
        → next_block target (layout_successor function block.number) ≡ some t
        → Steps m
            (result p tri)
            (record { block = block.number; from = rename block.number tail from; state = s })
            (record { block = t; from = tail; state = s' })
    unfolding run_triangle run enter
    Step-site from t s s' target entry np true goes r next =
        again
          (runs (NewBlocks_lem m p seen placed tri).0 (run_block-head from s entry np)
            (ap (λ o. next_block o (layout_successor (result p tri) block.number)) goes))
          (once (
            runs (NewBlocks_lem m p seen placed tri).2 (rw goes at r)
              (ap (next_block target) (NewBlocks_lem m p seen placed tri).5 ∙ next)))
    Step-site from t s s' target entry np false goes r next =
        again
          (runs (NewBlocks_lem m p seen placed tri).0 (run_block-head from s entry np) (
            ap (λ o. next_block o (layout_successor (result p tri) block.number)) goes
            ∙ (NewBlocks_lem m p seen placed tri).3))
          (again
            (runs (NewBlocks_lem m p seen placed tri).1 refl (NewBlocks_lem m p seen placed tri).4)
            (once (
              runs (NewBlocks_lem m p seen placed tri).2 (rw goes at r)
                (ap (next_block target) (NewBlocks_lem m p seen placed tri).5 ∙ next))))

    -- What a step of the function becomes.
    Step_lem :
        (c c' : Config W)
        → IsEntry m p c
        → no_phis tri.head_instrs ≡ true
        → ((s : State W)
            → (run_triangle m block.number if_false tail tri s ≡ run m (pseudo select ∷ after) s)
              × (b : Bool) × ((run m tri.head_instrs s).1
                  ≡ target_of m block.number if_false tail b))
        → Step m function c c'
        → Steps m (result p tri) (renamed m p c) (renamed m p c') × IsEntry m p c'
    unfolding no_phis
    Step_lem c c' entry np does
          (runs {b = b} {n = n} {from = from} {t = t} {s = s} {s' = s'} {target = target} f r
            next) =
        elim (Bool-cases (block.number == n)) [
          | inl e ↦
              let same = (==_iff block.number n).0 e in
              let is_block = only _ b block (rw (← same) at f) found in
              let next' = rw (← same) at next in
              let start = run_all m before (entered m from before s) in
              let whole =
                sym (
                  run_block-append m from before (pseudo select ∷ after) s straight
                    (no_phis-is_shaped after shaped))
                ∙ ap (λ is. run_block m from is s) (sym split)
                ∙ ap (λ x. run_block m from x.instrs s) (sym is_block)
                ∙ r in
              (
                rw (← same, ==_refl block.number)
                    (Step-site from t s s' target
                      (entry.0, λ q. ap (λ x. member x block.successors) same ∙ entry.1 q) np
                      (does start).1 (does start).2 ((does start).0 ∙ whole) next'),
                (
                  (differs_found m p seen placed n tail b f new_tail).0,
                  λ _. leaves from t s (
                      ap
                        (λ x.
                          next_block (run_block m from x.instrs s).1
                            (layout_successor function block.number))
                        (sym is_block)
                      ∙ ap (λ q. next_block q.1 (layout_successor function block.number)) r
                      ∙ next'),
                ),
              )
          | inr e ↦ (
            rw (flip block.number n e)
                (once (Step-other m p seen placed tri b n from t s s' target e entry f r next)),
            (
              (differs_found m p seen placed n tail b f new_tail).0,
              λ same. ground (arith, ==_iff block.number n, same, e),
            ),
          )
        ]

    Steps_lem :
        (c c' : Config W)
        → IsEntry m p c
        → no_phis tri.head_instrs ≡ true
        → ((s : State W)
            → (run_triangle m block.number if_false tail tri s ≡ run m (pseudo select ∷ after) s)
              × (b : Bool) × ((run m tri.head_instrs s).1
                  ≡ target_of m block.number if_false tail b))
        → Steps m function c c'
        → Steps m (result p tri) (renamed m p c) (renamed m p c')
    Steps_lem c c' entry np does (once one) = (Step_lem c c' entry np does one).0
    Steps_lem c c' entry np does (again {c' = mid} one more) =
        let (first, entered_next) = Step_lem c mid entry np does one in
        Steps-append first (Steps_lem mid c' entered_next np does more)

-- For a select with a condition code in a block of a function, with no control flow before it, single
-- assignment from it on, its condition's registers defined before it, no PHI and no select after control flow
-- behind it, and complete successors of the block, where the numbers of the two new blocks are new and no PHI
-- names the tail: EmitInstrWithCustomInserter succeeds, and from every state that control enters by an edge
-- of the function, each run of the function is one of the function that it leaves, with the same blocks,
-- registers and rest of the machine at its ends, where a block that came from the block of the select
-- now comes from its tail.
pub Steps-emit_instr_with_custom_inserter :
    {W : Type 0} (m : Machine W) (v : DebugValues) (p : Site) (seen : List ℕ)
    → IsPlaced m p seen
    → (fn : Function) × (emit_instr_with_custom_inserter v p.function p.block p.before
          (pseudo p.select)
          p.after
          p.if_false
          p.tail
        ≡ ok fn)
      × ((c c' : Config W)
          → IsEntry m p c
          → Steps m p.function c c'
          → Steps m fn (renamed m p c) (renamed m p c'))
unfolding emit_instr_with_custom_inserter
Steps-emit_instr_with_custom_inserter m v p seen placed =
    let new =
      (differs_found m p seen placed p.block.number p.if_false p.block placed.found
        placed.new_if_false).0 in
    let (tri, made, np, does) =
      emit_select_pseudo_lem m v p.block.number p.if_false p.tail p.select.dst p.select.lhs
        p.select.rhs p.select.cc p.select.true_v p.select.false_v p.after seen placed.valid
        (λ e. ground (arith, ==_iff p.block.number p.if_false, e, new)) placed.ssa placed.lhs_seen
        placed.rhs_seen placed.shaped in
    (result p tri, rw made refl, λ c c' entry. Steps_lem m p seen placed tri c c' entry np does)
