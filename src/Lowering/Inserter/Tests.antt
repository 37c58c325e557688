-- ===== src/Lowering/Inserter/Tests.antt =====
-- Concrete runs of emitSelectPseudo and of EmitInstrWithCustomInserter.
use toy_riscv.Base.{
  ℕ, Bool, true, false, if◌then◌else◌, List, [], ◌∷◌, ◌++◌, member, Option, none, some, ◌≡◌, ◌≢◌,
  refl, rv32, ◌+◌, arith, ok,
}
use toy_riscv.Lowering.Cond.{get_br_cond, cond_lt, cond_invalid, beq, blt}
use toy_riscv.Lowering.Inserter.{
  Instr, select_pseudo, debug, plain, branch, phi, DebugValues, Triangle, emit_select_pseudo,
  without_selects, phis, remove_debug, scan, differs, depends, is_unsafe, uses, code_number,
}
use toy_riscv.Lowering.Inserter.Run.{Machine, State, run_instr, run}
use toy_riscv.Lowering.Inserter.Scan.{defs, IsSsa, is_shaped, is_ending}
use toy_riscv.Lowering.Inserter.Equivalent.{run_triangle, run_triangle-emit_select_pseudo}
use toy_riscv.Lowering.Inserter.Blocks.{
  Block, Function, pseudo, update_phis, insert_blocks, replace_phi_uses, rename_incoming,
  emit_instr_with_custom_inserter,
}
use toy_riscv.Lowering.Inserter.Steps.{next_block, Config, Steps, find_block, layout_successor}
use toy_riscv.Lowering.Inserter.Follow.{goes_on}
use toy_riscv.Lowering.Inserter.Layout.{unnamed, leaves_out}
use toy_riscv.Lowering.Inserter.Placed.{Site, IsPlaced, IsEntry, renamed}
use toy_riscv.Lowering.Inserter.Refine.{Steps-emit_instr_with_custom_inserter}

-- Every debug instruction that follows a select at once is collected.
abbrev leading_debug : List Instr → List ℕ
leading_debug (debug n ∷ is) = n ∷ leading_debug is
leading_debug _ = []

abbrev collecting : DebugValues
collecting = record { collect_debug_values = λ r is. leading_debug is }

-- Each instruction adds what it uses and counts.
abbrev sum : List ℕ → ℕ
sum [] = 0
sum (x ∷ xs) = x + sum xs

abbrev counting : Machine ℕ
counting = record { xlen = rv32; effect = λ o us w. (sum us ∷ [], w + 1) }

-- Two selects on one condition with a debug instruction and a sum between, a third that reads the first.
abbrev two_selects : List Instr
two_selects =
    debug 9
    ∷ plain 0 (11 ∷ []) (1 ∷ []) false false
    ∷ select_pseudo 12 1 2 cond_lt 11 3
    ∷ select_pseudo 13 1 2 cond_lt 12 10
    ∷ []

abbrev two_selects_blocks : Triangle
two_selects_blocks = record {
  head_instrs = plain 0 (11 ∷ []) (1 ∷ []) false false ∷ branch blt 1 2 7 ∷ [];
  tail_instrs =
      phi 10 ((3, 5) ∷ (4, 6) ∷ [])
      ∷ phi 12 ((11, 5) ∷ (3, 6) ∷ [])
      ∷ debug 9
      ∷ select_pseudo 13 1 2 cond_lt 12 10
      ∷ [];
}

emit_two_selects :
    emit_select_pseudo collecting 5 6 7 10 1 2 cond_lt 3 4 two_selects ≡ ok two_selects_blocks
unfolding emit_select_pseudo get_br_cond without_selects phis remove_debug scan differs depends
    is_unsafe uses code_number
emit_two_selects = refl

abbrev before_selects : List ℕ
before_selects = 1 ∷ 2 ∷ 3 ∷ 4 ∷ []

two_selects-IsSsa : IsSsa before_selects (select_pseudo 10 1 2 cond_lt 3 4 ∷ two_selects)
unfolding IsSsa defs uses
two_selects-IsSsa = (
  (refl, tt),
  (refl, tt),
  (tt, tt, ((refl, tt), (refl, tt), ((refl, tt), (refl, tt), ((refl, tt), (refl, tt), tt)))),
)

two_selects-is_shaped : is_shaped two_selects ≡ true
unfolding is_shaped
two_selects-is_shaped = refl

cond_lt-valid : cond_lt ≢ cond_invalid
cond_lt-valid e = cc

run_triangle-emit_select_pseudo_example :
    (tri : Triangle) × (emit_select_pseudo collecting 5 6 7 10 1 2 cond_lt 3 4 two_selects ≡ ok tri)
    × ((s : State ℕ)
        → run_triangle counting 5 6 7 tri s
          ≡ run counting (select_pseudo 10 1 2 cond_lt 3 4 ∷ two_selects) s)
run_triangle-emit_select_pseudo_example =
    run_triangle-emit_select_pseudo counting collecting 5 6 7 10 1 2 cond_lt 3 4 two_selects
      before_selects cond_lt-valid (λ e. omega (arith, e)) two_selects-IsSsa refl refl
      two_selects-is_shaped

-- The selects in a loop: block 5 goes back to itself or on to block 8.
abbrev last_instrs : List Instr
last_instrs = two_selects ++ (branch beq 13 0 5 ∷ [])

abbrev loop_block : Block
loop_block = record {
  number = 5;
  instrs = phi 3 ((20, 1) ∷ (13, 5) ∷ []) ∷ select_pseudo 10 1 2 cond_lt 3 4 ∷ last_instrs;
  successors = 5 ∷ 8 ∷ [];
}

abbrev loop : Function
loop =
    record { number = 1; instrs = []; successors = 5 ∷ [] }
    ∷ loop_block
    ∷ record { number = 8; instrs = phi 21 ((12, 5) ∷ []) ∷ []; successors = [] }
    ∷ []

abbrev loop_site : Site
loop_site = record {
  function = loop;
  block = loop_block;
  before = phi 3 ((20, 1) ∷ (13, 5) ∷ []) ∷ [];
  select = record { dst = 10; lhs = 1; rhs = 2; cc = cond_lt; true_v = 3; false_v = 4 };
  after = last_instrs;
  if_false = 6;
  tail = 7;
}

goes_to :
    (t : ℕ) (b : Bool) (s : State ℕ)
    → next_block (if◌then◌else◌ {A = State ℕ × Option ℕ} b (s, some 5) (s, none)).1 (some 8)
      ≡ some t
    → member t (5 ∷ 8 ∷ []) ≡ true
goes_to t true s e = ground (arith, e)
goes_to t false s e = ground (arith, e)

names_no_tail : (n : ℕ) (b : Block) → find_block loop n ≡ some b → unnamed 7 b.instrs ≡ true
unfolding find_block unnamed leaves_out
names_no_tail n b e = ground (arith, e)

loop_site-IsPlaced : IsPlaced counting loop_site before_selects
unfolding find_block goes_on layout_successor run run_instr IsSsa is_shaped is_ending defs uses
loop_site-IsPlaced = record {
  found = refl;
  split = refl;
  straight = refl;
  leaves = λ from t s e. goes_to t _ _ e;
  valid = cond_lt-valid;
  ssa = (
    (refl, tt),
    (refl, tt),
    (
      tt,
      tt,
      ((refl, tt), (refl, tt), ((refl, tt), (refl, tt), ((refl, tt), (refl, tt), (tt, tt, tt)))),
    ),
  );
  lhs_seen = refl;
  rhs_seen = refl;
  shaped = refl;
  distinct = refl;
  new_if_false = refl;
  new_tail = refl;
  no_edge_if_false = refl;
  no_edge_tail = refl;
  no_phi_tail = λ b n e. names_no_tail n b e;
}

-- The PHI of block 5 for its own loop, and that of block 8, now name the tail.
abbrev loop_after : Function
loop_after =
    record { number = 1; instrs = []; successors = 5 ∷ [] }
    ∷ record {
      number = 5;
      instrs = phi 3 ((20, 1) ∷ (13, 7) ∷ []) ∷ two_selects_blocks.head_instrs;
      successors = 6 ∷ 7 ∷ [];
    }
    ∷ record { number = 6; instrs = []; successors = 7 ∷ [] }
    ∷ record {
      number = 7;
      instrs = two_selects_blocks.tail_instrs ++ (branch beq 13 0 5 ∷ []);
      successors = 5 ∷ 8 ∷ [];
    }
    ∷ record { number = 8; instrs = phi 21 ((12, 7) ∷ []) ∷ []; successors = [] }
    ∷ []

emit_loop :
    emit_instr_with_custom_inserter collecting loop loop_block loop_site.before
      (pseudo loop_site.select)
      loop_site.after
      6
      7
    ≡ ok loop_after
unfolding emit_instr_with_custom_inserter emit_select_pseudo get_br_cond without_selects phis
    remove_debug scan differs depends is_unsafe uses code_number update_phis insert_blocks
    replace_phi_uses rename_incoming
emit_loop = refl

Steps-emit_instr_with_custom_inserter_example :
    (fn : Function) × (emit_instr_with_custom_inserter collecting loop loop_block loop_site.before
        (pseudo loop_site.select)
        loop_site.after
        6
        7
      ≡ ok fn)
    × ((c c' : Config ℕ)
        → IsEntry counting loop_site c
        → Steps counting loop c c'
        → Steps counting fn (renamed counting loop_site c) (renamed counting loop_site c'))
Steps-emit_instr_with_custom_inserter_example =
    Steps-emit_instr_with_custom_inserter counting collecting loop_site before_selects
      loop_site-IsPlaced
