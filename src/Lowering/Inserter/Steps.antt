-- ===== src/Lowering/Inserter/Steps.antt =====
-- The run of a function block by block, as a relation of steps.
use toy_riscv.Base.{ℕ, ◌==◌, if◌then◌else◌, List, [], ◌∷◌, Option, none, some, ◌≡◌}
use toy_riscv.Lowering.Inserter.{Instr}
use toy_riscv.Lowering.Inserter.Run.{Machine, State, run, enter}
use toy_riscv.Lowering.Inserter.Blocks.{Block, Function}

unfoldable pub find_block : Function → ℕ → Option Block
find_block [] n = none
find_block (b ∷ bs) n = let rest = find_block bs n in if b.number == n then some b else rest

abbrev pub first_number : Function → Option ℕ
first_number [] = none
first_number (b ∷ bs) = some b.number

-- The block behind a block in the layout.
unfoldable pub layout_successor : Function → ℕ → Option ℕ
layout_successor [] n = none
layout_successor (b ∷ bs) n =
    let rest = layout_successor bs n in if b.number == n then first_number bs else rest

-- A block to be run, the block that control comes from, and the state.
pub record Config (W : Type 0) : Type 0 where
  pub block : ℕ
  pub from : ℕ
  pub state : State W

-- Where control goes after a block: to the target of a branch, or to the next block of the layout.
abbrev pub next_block : Option ℕ → Option ℕ → Option ℕ
next_block (some t) behind = some t
next_block none behind = behind

module _ {W : Type 0} (m : Machine W) where
  -- The state after the PHIs of a block.
  abbrev pub entered : ℕ → List Instr → State W → State W
  entered from is s = record s { regs = enter m from is s.regs s.regs }

  abbrev pub run_block : ℕ → List Instr → State W → State W × Option ℕ
  run_block from is s = run m is (entered from is s)

  -- One block: control goes on to a block, with this one as the block that it comes from.
  pub data Step (fn : Function) : Config W → Config W → Type 0 where
    runs :
        {b : Block} {n from t : ℕ} {s s' : State W} {target : Option ℕ}
        → find_block fn n ≡ some b
        → run_block from b.instrs s ≡ (s', target)
        → next_block target (layout_successor fn n) ≡ some t
        → Step fn
            (record { block = n; from = from; state = s })
            (record { block = t; from = n; state = s' })

  -- One block or more.
  pub data Steps (fn : Function) : Config W → Config W → Type 0 where
    once : {c c' : Config W} → Step fn c c' → Steps fn c c'
    again : {c c' c'' : Config W} → Step fn c c' → Steps fn c' c'' → Steps fn c c''
