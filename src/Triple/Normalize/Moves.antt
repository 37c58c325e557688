-- ===== src/Triple/Normalize/Moves.antt =====
-- The moves of components in Triple::normalize: llvm/lib/Support/Triple.cpp.
use toy_riscv.Base.{
  ℕ, zero, suc, ◌+◌, Bool, false, ltb, if◌then◌else◌, List, [], ◌∷◌, ◌++◌, get_elem?, set, drop,
  Option, none, some, Text, text_eq, is_empty, Outcome, ok, stop, assertion,
}

-- Found[i], which is false behind the end of the array, and the rest of the array.
abbrev pub is_fixed : List Bool → Bool
is_fixed [] = false
is_fixed (b ∷ bs) = b

abbrev pub later : List Bool → List Bool
later [] = []
later (b ∷ bs) = bs

-- The loops over i, from an index on: the component in hand is placed, and the one that it displaces goes to
-- the next position that is not fixed, until an empty component is displaced. With what is in hand at
-- the end.
unfoldable pub displace : List Bool → Text → List Text → List Text × Text
displace fs hand [] = ([], hand)
displace fs hand (c ∷ cs) =
    let skipped = displace (later fs) hand cs in
    let moved = displace (later fs) c cs in
    if is_fixed fs
    then (c ∷ skipped.0, skipped.1)
    else if is_empty c
    then (hand ∷ cs, [])
    else (hand ∷ moved.0, moved.1)

-- The same from an index on.
unfoldable pub displace_from : ℕ → List Bool → Text → List Text → List Text × Text
displace_from zero fs hand cs = displace fs hand cs
displace_from (suc n) fs hand [] = ([], hand)
displace_from (suc n) fs hand (c ∷ cs) =
    let rest = displace_from n (later fs) hand cs in (c ∷ rest.0, rest.1)

-- The loop to the left from Pos, which would run over the end with a component in hand.
abbrev pub no_overrun : List Text × Text → Outcome (List Text)
no_overrun (cs, hand) = if is_empty hand then ok cs else stop (assertion "idx < size()")

-- The loop to the right from Idx, and push_back.
abbrev pub push_back : List Text × Text → List Text
push_back (cs, hand) = if is_empty hand then cs else cs ++ (hand ∷ [])

-- A component is moved from Idx to Pos, on the left of it.
unfoldable pub insert_left : List Bool → (pos idx : ℕ) → Text → List Text → Outcome (List Text)
insert_left fs pos idx c cs =
    if is_empty c then ok (set cs idx []) else no_overrun (displace_from pos fs c (set cs idx []))

-- One empty component is inserted at Idx.
unfoldable pub insert_empty : List Bool → (idx : ℕ) → List Text → List Text
insert_empty fs idx cs = push_back (displace_from idx fs [] cs)

-- The number of fixed positions at the start, and the next index that is not fixed.
unfoldable pub leading : List Bool → ℕ
leading [] = 0
leading (b ∷ bs) = let rest = leading bs in if b then suc rest else 0

unfoldable pub next_free : List Bool → ℕ → ℕ
unfolding leading
next_free fs idx = suc idx + leading (drop (suc idx) fs)

-- The loop that pushes the component at Idx to Pos, of at most so many rounds.
unfoldable pub push_right : (rounds : ℕ) → List Bool → (pos idx : ℕ) → List Text → List Text
push_right zero fs pos idx cs = cs
push_right (suc n) fs pos idx cs =
    let once = insert_empty fs idx cs in
    let more = push_right n fs pos (next_free fs idx) once in
    if ltb (next_free fs idx) pos then more else once

unfoldable pub move_component : List Bool → (pos idx : ℕ) → Text → List Text → Outcome (List Text)
move_component fs pos idx c cs =
    if ltb pos idx
    then insert_left fs pos idx c cs
    else if ltb idx pos
    then ok (push_right pos fs pos idx cs)
    else ok cs

-- The assertion on Components[Pos].
abbrev pub is_component : Option Text → Text → Bool
is_component none c = false
is_component (some d) c = text_eq d c

unfoldable pub check_moved : ℕ → Text → List Text → Outcome (List Text)
check_moved pos c cs =
    if is_component (get_elem? cs pos) c then ok cs else stop (assertion "Component moved wrong!")
