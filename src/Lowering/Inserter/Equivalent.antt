-- ===== src/Lowering/Inserter/Equivalent.antt =====
-- The run of the blocks of emitSelectPseudo beside the run of the block: TOYRISCVISelLowering.cpp.
use toy_riscv.Base.{
  take, drop, ℕ, suc, Bool, true, false, if◌then◌else◌, List, [], ◌∷◌, ◌++◌, map, member, Option,
  none, some, ◌≡◌, ◌≢◌, refl, sym, ap, ◌∙◌, ok,
}
use toy_riscv.Lowering.Cond.{
  BranchCode, cond_eq, cond_ne, cond_lt, cond_ge, cond_ltu, cond_geu, cond_invalid, BranchOpcode,
  get_br_cond,
}
use toy_riscv.Lowering.Inserter.{
  uses, Instr, select_pseudo, debug, branch, DebugValues, Condition, scan, remove_debug,
  without_selects, phis, Triangle, emit_select_pseudo,
}
use toy_riscv.Lowering.Inserter.Run.{
  Machine, State, code_holds, takes-get_br_cond, run_all, run, enter, is_straight, run-append,
  run-debugs, run-remove_debug, run_all-remove_debug,
}
use toy_riscv.Lowering.Inserter.Scan.{
  defs, IsSsa, IsSsa-take, is_shaped, Admits, condition, differs-own, scan-after,
}
use toy_riscv.Lowering.Inserter.Writes.{choose, Known}
use toy_riscv.Lowering.Inserter.Straight.{choices_onto, run_all-choose}
use toy_riscv.Lowering.Inserter.Emit.{
  take-append-drop, no_phis, no_phis-branch, no_phis-is_shaped, no_phis-drop, no_phis-remove_debug,
  no_phis-debugs, enter-no_phis, is_straight-without_selects, is_straight-remove_debug,
  phis-remove_debug, run-phis, enter-phis,
}

-- From HeadMBB control goes to TailMBB if the branch is taken, and else through IfFalseMBB, which is empty.
abbrev pub from_block : (head if_false : ℕ) → Option ℕ → ℕ
from_block head if_false none = if_false
from_block head if_false (some _) = head

module _ {W : Type 0} (m : Machine W) (head if_false tail : ℕ) where
  open m use {xlen}

  -- The run of the blocks.
  unfoldable pub run_triangle : Triangle → State W → State W × Option ℕ
  run_triangle tri s =
      let left = run m tri.head_instrs s in
      run m tri.tail_instrs (record {
        regs = enter m (from_block head if_false left.1) tri.tail_instrs left.0.regs left.0.regs;
        world = left.0.world;
      })

  -- The blocks for a sequence, what follows it, and collected debug instructions.
  abbrev pub blocks : Condition → BranchOpcode → List ℕ → (sequence rest : List Instr) → Triangle
  blocks c o ns sequence rest =
      let kept = remove_debug ns sequence in
      record {
        head_instrs = without_selects kept ++ (branch o c.lhs c.rhs tail ∷ []);
        tail_instrs = phis head if_false kept ++ (map debug ns ++ remove_debug ns rest);
      }

  abbrev pub target_of : Bool → Option ℕ
  target_of b = if b then some tail else none

  from_target : (b : Bool) → from_block head if_false (target_of b) ≡ (if b then head else if_false)
  from_target true = refl
  from_target false = refl

  module _ (c : Condition) (o : BranchOpcode) (found : get_br_cond c.cc ≡ ok o) where
    abbrev holds : State W → Bool
    holds s = code_holds xlen c.cc (s.regs c.lhs) (s.regs c.rhs)

    abbrev after_branch : State W → Bool → State W × Option ℕ
    after_branch s b = if b then (s, some tail) else (s, none)

    pair_of : (b : Bool) (s : State W) → after_branch s b ≡ (s, target_of b)
    pair_of true s = refl
    pair_of false s = refl

    -- The head ends in the branch, which goes by the condition.
    run-head :
        (is : List Instr) (s : State W)
        → is_straight is ≡ true
        → run m (is ++ (branch o c.lhs c.rhs tail ∷ [])) s
          ≡ (run_all m is s, target_of (holds (run_all m is s)))
    unfolding run
    run-head is s straight =
        let s' = run_all m is s in
        run-append m is (branch o c.lhs c.rhs tail ∷ []) s straight
        ∙ ap (after_branch s') (takes-get_br_cond xlen c.cc o (s'.regs c.lhs) (s'.regs c.rhs) found)
        ∙ pair_of (holds s') s'

    -- The run of the blocks is that of the sequence and what follows it.
    run_triangle-blocks :
        (ns dests seen : List ℕ) (sequence rest : List Instr) (s : State W)
        → head ≢ if_false
        → is_straight sequence ≡ true
        → no_phis rest ≡ true
        → Admits c dests sequence
        → IsSsa seen sequence
        → member c.lhs seen ≡ true
        → member c.rhs seen ≡ true
        → run_triangle (blocks c o ns sequence rest) s ≡ run m (sequence ++ rest) s
    unfolding run_triangle Known choose
    run_triangle-blocks ns dests seen sequence rest s n straight np ad ssa kl kr =
        let kept = remove_debug ns sequence in
        let done =
          run_all-choose m c (holds s) sequence dests seen [] s straight ad ssa tt kl kr refl in
        rw
          (
            run-head (without_selects kept) s
                (is_straight-without_selects kept (is_straight-remove_debug ns sequence straight)),
            run_all-remove_debug m ns sequence s,
            done.1,
            from_target (holds s),
            phis-remove_debug head if_false ns sequence,
            run-phis head if_false m sequence (map debug ns ++ remove_debug ns rest) _,
          )
          (rw
            (
              run-debugs m ns (remove_debug ns rest) _,
              run-remove_debug m ns rest _,
              enter-phis head if_false m n (holds s) sequence (map debug ns ++ remove_debug ns rest)
                  [] (run_all m (without_selects sequence) s).regs,
              enter-no_phis m (if holds s then head else if_false)
                  (map debug ns ++ remove_debug ns rest)
                  (run_all m (without_selects sequence) s).regs
                  (choose (holds s) (choices_onto sequence [])
                    (run_all m (without_selects sequence) s).regs)
                  (no_phis-debugs ns (remove_debug ns rest) (no_phis-remove_debug ns rest np)),
            )
            (ap (run m rest) (sym done.0) ∙ sym (run-append m sequence rest s straight)))

-- The branch exists for each code but COND_INVALID.
get_br_cond_total :
    (code : BranchCode) → code ≢ cond_invalid → (o : BranchOpcode) × (get_br_cond code ≡ ok o)
unfolding get_br_cond
get_br_cond_total cond_eq n = (_, refl)
get_br_cond_total cond_ne n = (_, refl)
get_br_cond_total cond_lt n = (_, refl)
get_br_cond_total cond_ge n = (_, refl)
get_br_cond_total cond_ltu n = (_, refl)
get_br_cond_total cond_geu n = (_, refl)
get_br_cond_total cond_invalid n = absurd (n refl)

-- What emitSelectPseudo makes: its blocks, which behave as the block, and where the head goes on to.
pub emit_select_pseudo_lem :
    {W : Type 0} (m : Machine W) (v : DebugValues) (head if_false tail d l r : ℕ)
    (code : BranchCode) (t f : ℕ) (after : List Instr) (seen : List ℕ)
    → code ≢ cond_invalid
    → head ≢ if_false
    → IsSsa seen (select_pseudo d l r code t f ∷ after)
    → member l seen ≡ true
    → member r seen ≡ true
    → is_shaped after ≡ true
    → (tri : Triangle) × (emit_select_pseudo v head if_false tail d l r code t f after ≡ ok tri)
      × (no_phis tri.head_instrs ≡ true)
      × ((s : State W)
          → (run_triangle m head if_false tail tri s
              ≡ run m (select_pseudo d l r code t f ∷ after) s)
            × (b : Bool) × ((run m tri.head_instrs s).1 ≡ target_of m head if_false tail b))
unfolding emit_select_pseudo IsSsa Admits is_straight defs uses
emit_select_pseudo_lem m v head if_false tail d l r code t f after seen valid n ssa kl kr shaped =
    let c = condition v d l r code t f in
    let mi = select_pseudo d l r code t f in
    let (o, found) = get_br_cond_total code valid in
    let (k, last, ad, straight) = scan-after v d l r code t f after ssa.1 shaped in
    let ns = (scan v c (d ∷ []) 0 1 [] (mi ∷ after)).debug_values in
    let head_straight =
      is_straight-without_selects _ (is_straight-remove_debug ns (mi ∷ take k after) straight) in
    (
      blocks m head if_false tail c o ns (mi ∷ take k after) (drop k after),
      rw (found, last) refl,
      no_phis-branch o l r tail _ head_straight,
      λ s. (
        run_triangle-blocks m head if_false tail c o found ns (d ∷ []) seen (mi ∷ take k after)
              (drop k after) s n straight (no_phis-drop k after (no_phis-is_shaped after shaped))
              (differs-own v d l r code t f ssa.1, ad) (IsSsa-take (suc k) seen (mi ∷ after) ssa) kl
              kr
            ∙ ap (λ is. run m (mi ∷ is) s) (take-append-drop k after),
        _,
        ap (λ p. p.1) (run-head m head if_false tail c o found _ s head_straight),
      ),
    )

-- For a select with a condition code in a block in single-assignment form, whose condition's registers
-- have come before, and with no PHI and no select after control flow behind it, emitSelectPseudo makes its
-- blocks, whatever debug instructions LLVM collects; and the head, the branch and the tail, with its PHIs,
-- leave the registers, the rest of the machine and the next block that the instructions of the block leave,
-- from every state and for every effect of the other instructions.
pub run_triangle-emit_select_pseudo :
    {W : Type 0} (m : Machine W) (v : DebugValues) (head if_false tail d l r : ℕ)
    (code : BranchCode) (t f : ℕ) (after : List Instr) (seen : List ℕ)
    → code ≢ cond_invalid
    → head ≢ if_false
    → IsSsa seen (select_pseudo d l r code t f ∷ after)
    → member l seen ≡ true
    → member r seen ≡ true
    → is_shaped after ≡ true
    → (tri : Triangle) × (emit_select_pseudo v head if_false tail d l r code t f after ≡ ok tri)
      × ((s : State W)
          → run_triangle m head if_false tail tri s
            ≡ run m (select_pseudo d l r code t f ∷ after) s)
run_triangle-emit_select_pseudo m v head if_false tail d l r code t f after seen valid n ssa kl kr
      shaped =
    let (tri, made, np, runs) =
      emit_select_pseudo_lem m v head if_false tail d l r code t f after seen valid n ssa kl kr
        shaped in
    (tri, made, λ s. (runs s).0)
