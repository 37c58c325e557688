-- ===== src/Lowering/Inserter/Straight.antt =====
-- The instructions of the sequence beside those with the selects done after all others.
use toy_riscv.Base.{
  ℕ, Bool, true, false, ◌||◌, ==_refl, if◌then◌else◌, List, [], ◌∷◌, ◌++◌, map, any, member, ◌≡◌,
  refl, arith,
}
use toy_riscv.Lowering.Cond.{BranchCode}
use toy_riscv.Lowering.Inserter.{
  Instr, select_pseudo, debug, plain, branch, jump, phi, uses, Condition, code_number, differs,
  depends, is_unsafe, without_selects,
}
use toy_riscv.Lowering.Inserter.Run.{
  Machine, State, code_holds, write, write_all, run_instr, run_all, is_straight,
}
use toy_riscv.Lowering.Inserter.Scan.{IsSsa, defs, Admits}
use toy_riscv.Lowering.Inserter.Writes.{
  Choice, choose, Known, member-append, Known-append, Known-cons, choose_other, map-choose,
  or_false, member_ne, choose_left, write_all_other, choose-write_all,
}

-- The selects of a list, the latest first, before those that came earlier.
unfoldable pub choices_onto : List Instr → List Choice → List Choice
choices_onto [] ps = ps
choices_onto (select_pseudo d l r code t f ∷ is) ps = choices_onto is ((d, t, f) ∷ ps)
choices_onto (i ∷ is) ps = choices_onto is ps

-- The four tests of a select that belongs to the sequence.
pub record Belongs (c : Condition) (dests : List ℕ) (l r : ℕ) (code : BranchCode) (t f : ℕ)
    : Type 0 where
  pub left : l ≡ c.lhs
  pub right : r ≡ c.rhs
  pub same : code ≡ c.cc
  pub free_true : member t dests ≡ false
  pub free_false : member f dests ≡ false

code_number-injective : (a b : BranchCode) → code_number a ≡ code_number b → a ≡ b
unfolding code_number
code_number-injective a b h = ground arith

pub Belongs-of :
    (c : Condition) (dests : List ℕ) (l r : ℕ) (code : BranchCode) (t f : ℕ)
    → differs c dests l r code t f ≡ false
    → Belongs c dests l r code t f
unfolding differs code_number
Belongs-of c dests l r code t f h = record {
  left = ground arith;
  right = ground arith;
  same = code_number-injective code c.cc (ground arith);
  free_true = ground arith;
  free_false = ground arith;
}

choose-cons :
    (b : Bool) (d t f : ℕ) (ps : List Choice) (base : ℕ → ℕ)
    → choose b ((d, t, f) ∷ ps) base ≡ write d (base (if b then t else f)) (choose b ps base)
unfolding choose
choose-cons b d t f ps base = refl

if_apply : (b : Bool) (g : ℕ → ℕ) (t f : ℕ) → (if b then g t else g f) ≡ g (if b then t else f)
if_apply true g t f = refl
if_apply false g t f = refl

Known-choice :
    (c : Condition) (dests seen : List ℕ) (ps : List Choice) (d l r t f : ℕ)
    → Known c.lhs c.rhs dests seen ps
    → member c.lhs seen ≡ true
    → member c.rhs seen ≡ true
    → member d seen ≡ false
    → Known c.lhs c.rhs (d ∷ dests) (d ∷ l ∷ r ∷ t ∷ f ∷ seen) ((d, t, f) ∷ ps)
unfolding Known
Known-choice c dests seen ps d l r t f known kl kr fresh = (
  ground (arith, ==_refl d),
  ground (arith, ==_refl d),
  ground (arith, ==_refl t),
  ground (arith, ==_refl f),
  member_ne c.lhs d seen kl fresh,
  member_ne c.rhs d seen kr fresh,
  Known-cons c.lhs c.rhs d dests (d ∷ l ∷ r ∷ t ∷ f ∷ seen) ps
      (Known-append c.lhs c.rhs dests (d ∷ l ∷ r ∷ t ∷ f ∷ []) seen ps known),
)

module _ {W : Type 0} (m : Machine W) (c : Condition) (b : Bool) where
  open m use {xlen, effect}

  abbrev pub state : (ℕ → ℕ) → W → State W
  state f w = record { regs = f; world = w }

  -- The condition, in a state.
  abbrev pub decides : State W → Bool
  decides s = code_holds xlen c.cc (s.regs c.lhs) (s.regs c.rhs)

  pub run_all-choose :
      (is : List Instr) (dests seen : List ℕ) (ps : List Choice) (s : State W)
      → is_straight is ≡ true
      → Admits c dests is
      → IsSsa seen is
      → Known c.lhs c.rhs dests seen ps
      → member c.lhs seen ≡ true
      → member c.rhs seen ≡ true
      → decides s ≡ b
      → let s' = run_all m (without_selects is) s in
        (run_all m is (state (choose b ps s.regs) s.world)
          ≡ state (choose b (choices_onto is ps) s'.regs) s'.world)
        × (decides s' ≡ b)
  unfolding is_straight Admits IsSsa run_all without_selects choices_onto run_instr defs uses
      depends is_unsafe
  run_all-choose [] dests seen ps s st ad ssa known kl kr dec = (refl, dec)
  run_all-choose (debug n ∷ is) dests seen ps s st ad ssa known kl kr dec =
      run_all-choose is dests seen ps s st ad ssa.2 known kl kr dec
  run_all-choose (plain o ds us e a ∷ is) dests seen ps s st ad ssa known kl kr dec =
      let out = effect o (map s.regs us) s.world in
      let next = state (write_all ds out.0 s.regs) out.1 in
      let dec' : decides next ≡ b =
        rw
          (
            write_all_other ds out.0 seen s.regs c.lhs ssa.0 kl,
            write_all_other ds out.0 seen s.regs c.rhs ssa.0 kr,
          )
          dec in
      let free = (or_false (e || a) (any (λ u. member u dests) us) ad.0).1 in
      rw
        (
          map-choose c.lhs c.rhs b dests seen ps s.regs us known free,
          ← choose-write_all c.lhs c.rhs b dests seen ps ds out.0 s.regs known ssa.0,
        )
        (run_all-choose is dests (ds ++ (us ++ seen)) ps next st ad.1 ssa.2
          (Known-append c.lhs c.rhs dests ds (us ++ seen) ps
            (Known-append c.lhs c.rhs dests us seen ps known))
          (member-append c.lhs ds (us ++ seen) (member-append c.lhs us seen kl))
          (member-append c.rhs ds (us ++ seen) (member-append c.rhs us seen kr)) dec')
  run_all-choose (select_pseudo d l r code t f ∷ is) dests seen ps s st ad ssa known kl kr dec =
      let bl = Belongs-of c dests l r code t f ad.0 in
      let both = choose_left c.lhs c.rhs b dests seen ps s.regs known in
      let taken : code_holds xlen code (choose b ps s.regs l) (choose b ps s.regs r) ≡ b =
        rw (bl.left, bl.right, bl.same, both.0, both.1) dec in
      let more = d ∷ l ∷ r ∷ t ∷ f ∷ [] in
      rw
        (
          taken,
          choose_other c.lhs c.rhs b dests seen ps s.regs t known bl.free_true,
          choose_other c.lhs c.rhs b dests seen ps s.regs f known bl.free_false,
          if_apply b s.regs t f,
        )
        (rw (choose-cons b d t f ps s.regs) at (
          run_all-choose is (d ∷ dests) (more ++ seen) ((d, t, f) ∷ ps) s st ad.1 ssa.2
            (Known-choice c dests seen ps d l r t f known kl kr ssa.0.0)
            (member-append c.lhs more seen kl) (member-append c.rhs more seen kr) dec))
  run_all-choose (branch o l r t ∷ is) dests seen ps s st ad ssa known kl kr dec = cc
  run_all-choose (jump t ∷ is) dests seen ps s st ad ssa known kl kr dec = cc
  run_all-choose (phi d inc ∷ is) dests seen ps s st ad ssa known kl kr dec = cc
