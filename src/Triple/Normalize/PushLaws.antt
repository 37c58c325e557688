-- ===== src/Triple/Normalize/PushLaws.antt =====
-- The moves to the right in Triple::normalize.
use toy_riscv.Base.{
  ℕ, zero, suc, ◌+◌, ◌≤◌, ◌<◌, Bool, true, false, ltb, List, [], ◌∷◌, ◌++◌, get_elem?, drop, some,
  Text, is_empty, ok, ◌≡◌, refl, ◌∙◌, arith, Bool-cases, inl, inr,
}
use toy_riscv.Triple.Normalize.Moves.{
  displace, displace_from, push_back, insert_empty, leading, next_free, push_right, move_component,
}
use toy_riscv.Triple.Normalize.MoveLaws.{
  count, one, fixed, is_empty-one, displace_from-count, displace_from-keeps, insert_left-Moved,
}

-- What is fixed is within the components.
abbrev pub Fits : List Bool → List Text → Type 0
Fits fs cs = (i : ℕ) → fixed fs i ≡ true → (v : Text) × (get_elem? cs i ≡ some v)

push_back-cons : (c : Text) (r : List Text × Text) → push_back (c ∷ r.0, r.1) ≡ c ∷ push_back r
push_back-cons c (cs, hand) = elim (Bool-cases (is_empty hand)) [
  | inl e ↦ rw e refl
  | inr e ↦ rw e refl
]

count-append : (x : Text) (cs ds : List Text) → count x (cs ++ ds) ≡ count x cs + count x ds
unfolding count
count-append x [] ds = omega arith
count-append x (c ∷ cs) ds = omega (arith, count-append x cs ds)

count-push_back :
    (x : Text) (r : List Text × Text)
    → is_empty x ≡ false
    → count x (push_back r) ≡ count x r.0 + one x r.1
unfolding count
count-push_back x (cs, hand) h = elim (Bool-cases (is_empty hand)) [
  | inl e ↦ rw (e, is_empty-one x hand h e) (omega arith)
  | inr e ↦ rw (e, count-append x cs (hand ∷ [])) (omega arith)
]

get_elem?-append :
    (cs ds : List Text) (i : ℕ) (v : Text)
    → get_elem? cs i ≡ some v
    → get_elem? (cs ++ ds) i ≡ some v
get_elem?-append [] ds i v h = cc
get_elem?-append (c ∷ cs) ds zero v h = h
get_elem?-append (c ∷ cs) ds (suc i) v h = get_elem?-append cs ds i v h

push_back-keeps :
    (r : List Text × Text) (i : ℕ) (v : Text)
    → get_elem? r.0 i ≡ some v
    → get_elem? (push_back r) i ≡ some v
push_back-keeps (cs, hand) i v h = elim (Bool-cases (is_empty hand)) [
  | inl e ↦ rw e h
  | inr e ↦ rw e (get_elem?-append cs (hand ∷ []) i v h)
]

-- A component in hand comes to the next index that is not fixed.
displace-leading :
    (fs : List Bool) (c : Text) (cs : List Text)
    → is_empty c ≡ false
    → Fits fs cs
    → get_elem? (push_back (displace fs c cs)) (leading fs) ≡ some c
unfolding displace leading fixed
displace-leading [] c [] n fit = rw n refl
displace-leading (false ∷ fs) c [] n fit = rw n refl
displace-leading (true ∷ fs) c [] n fit = let (v, e) = fit 0 refl in cc
displace-leading [] c (d ∷ cs) n fit = elim (Bool-cases (is_empty d)) [
  | inl e ↦ rw e refl
  | inr e ↦ rw e (push_back-keeps (c ∷ (displace [] d cs).0, (displace [] d cs).1) 0 c refl)
]
displace-leading (false ∷ fs) c (d ∷ cs) n fit = elim (Bool-cases (is_empty d)) [
  | inl e ↦ rw e refl
  | inr e ↦ rw e (push_back-keeps (c ∷ (displace fs d cs).0, (displace fs d cs).1) 0 c refl)
]
displace-leading (true ∷ fs) c (d ∷ cs) n fit =
    rw (push_back-cons d (displace fs c cs)) (displace-leading fs c cs n (λ i. fit (suc i)))

is_empty-at : (d c : Text) → some d ≡ some c → is_empty c ≡ false → is_empty d ≡ false
is_empty-at d c e n = cc

-- After an empty component is inserted at the component's index, the component is at the next index that is not fixed.
insert_empty-at :
    (idx : ℕ) (fs : List Bool) (c : Text) (cs : List Text) (j : ℕ)
    → is_empty c ≡ false
    → fixed fs idx ≡ false
    → get_elem? cs idx ≡ some c
    → Fits fs cs
    → j ≡ idx + suc (leading (drop (suc idx) fs))
    → get_elem? (push_back (displace_from idx fs [] cs)) j ≡ some c
unfolding displace_from displace fixed
insert_empty-at idx fs c cs zero n h e fit k = absurd (omega (arith, k))
insert_empty-at zero fs c [] (suc j) n h e fit k = cc
insert_empty-at zero [] c (d ∷ cs) (suc j) n h e fit k =
    let nd = is_empty-at d c e n in
    let last : j ≡ leading [] = omega (arith, k) in
    rw (nd, push_back-cons [] (displace [] d cs), last)
      (displace-leading [] d cs nd (λ i. fit (suc i)) ∙ e)
insert_empty-at zero (true ∷ fs) c (d ∷ cs) (suc j) n h e fit k = cc
insert_empty-at zero (false ∷ fs) c (d ∷ cs) (suc j) n h e fit k =
    let nd = is_empty-at d c e n in
    let last : j ≡ leading fs = omega (arith, k) in
    rw (nd, push_back-cons [] (displace fs d cs), last)
      (displace-leading fs d cs nd (λ i. fit (suc i)) ∙ e)
insert_empty-at (suc idx) fs c [] (suc j) n h e fit k = cc
insert_empty-at (suc idx) [] c (d ∷ cs) (suc j) n h e fit k =
    rw (push_back-cons d (displace_from idx [] [] cs))
      (insert_empty-at idx [] c cs j n h e (λ i. fit (suc i)) (omega (arith, k)))
insert_empty-at (suc idx) (b ∷ fs) c (d ∷ cs) (suc j) n h e fit k =
    rw (push_back-cons d (displace_from idx fs [] cs))
      (insert_empty-at idx fs c cs j n h e (λ i. fit (suc i)) (omega (arith, k)))

-- The next index that is not fixed is not behind any other such index.
leading-le : (fs : List Bool) (k : ℕ) → fixed fs k ≡ false → leading fs ≤ k
unfolding fixed leading
leading-le [] k h = omega arith
leading-le (false ∷ fs) k h = omega arith
leading-le (true ∷ fs) zero h = cc
leading-le (true ∷ fs) (suc k) h = omega (arith, leading-le fs k h)

leading-drop-le :
    (n : ℕ) (fs : List Bool) (k : ℕ) → fixed fs k ≡ false → n ≤ k → n + leading (drop n fs) ≤ k
unfolding fixed leading
leading-drop-le zero fs k h le = omega (arith, leading-le fs k h)
leading-drop-le (suc n) fs zero h le = absurd (omega (arith, le))
leading-drop-le (suc n) [] (suc k) h le = omega (arith, le)
leading-drop-le (suc n) (b ∷ fs) (suc k) h le =
    omega (arith, leading-drop-le n fs k h (omega (arith, le)))

fixed-leading : (fs : List Bool) → fixed fs (leading fs) ≡ false
unfolding fixed leading
fixed-leading [] = refl
fixed-leading (false ∷ fs) = refl
fixed-leading (true ∷ fs) = fixed-leading fs

fixed-leading-drop :
    (n : ℕ) (fs : List Bool) (j : ℕ) → j ≡ n + leading (drop n fs) → fixed fs j ≡ false
unfolding fixed
fixed-leading-drop zero fs j e =
    let e' : j ≡ leading fs = omega (arith, e) in rw e' (fixed-leading fs)
fixed-leading-drop (suc n) [] j e = refl
fixed-leading-drop (suc n) (b ∷ fs) zero e = absurd (omega (arith, e))
fixed-leading-drop (suc n) (b ∷ fs) (suc j) e = fixed-leading-drop n fs j (omega (arith, e))

none_of : (x : Text) → is_empty x ≡ false → one x [] ≡ 0
none_of x h = rw (is_empty-one x [] h refl) refl

module _ (fs : List Bool) (pos : ℕ) (c : Text) (present : is_empty c ≡ false)
    (free : fixed fs pos ≡ false) where
  -- With so many rounds as there are positions in between, the component reaches Pos.
  push_right-Moved :
      (n idx : ℕ) (cs : List Text)
      → idx < pos
      → pos ≤ idx + n
      → get_elem? cs idx ≡ some c
      → fixed fs idx ≡ false
      → Fits fs cs
      → (get_elem? (push_right n fs pos idx cs) pos ≡ some c)
        × ((i : ℕ) (v : Text)
            → fixed fs i ≡ true
            → get_elem? cs i ≡ some v
            → get_elem? (push_right n fs pos idx cs) i ≡ some v)
        × ((x : Text) → is_empty x ≡ false → count x (push_right n fs pos idx cs) ≡ count x cs)
  unfolding push_right insert_empty next_free
  push_right-Moved zero idx cs lt enough at movable fit = absurd (omega (arith, lt, enough))
  push_right-Moved (suc n) idx cs lt enough at movable fit =
      let d = displace_from idx fs [] cs in
      let next = suc idx + leading (drop (suc idx) fs) in
      let arrived : get_elem? (push_back d) next ≡ some c =
        insert_empty-at idx fs c cs next present movable at fit (omega arith) in
      let keeps : (i : ℕ) (v : Text)
          → fixed fs i ≡ true
          → get_elem? cs i ≡ some v
          → get_elem? (push_back d) i ≡ some v =
        λ i v h e. push_back-keeps d i v (displace_from-keeps idx fs [] cs i v h e) in
      let counted : (x : Text) → is_empty x ≡ false → count x (push_back d) ≡ count x cs = λ x nx.
        omega
          (arith, count-push_back x d nx, displace_from-count x idx fs [] cs nx, none_of x nx) in
      let bound : next ≤ pos = leading-drop-le (suc idx) fs pos free (omega (arith, lt)) in
      elim (Bool-cases (ltb next pos)) [
        | inl e ↦
            let fit' : Fits fs (push_back d) = λ i h. let (v, k) = fit i h in (v, keeps i v h k) in
            let (there, kept, same) =
              push_right-Moved n next (push_back d) (ground (arith, e)) (omega (arith, enough))
                arrived (fixed-leading-drop (suc idx) fs next refl) fit' in
            rw e (there, λ i v h k. kept i v h (keeps i v h k), λ x nx. same x nx ∙ counted x nx)
        | inr e ↦
            let last : next ≡ pos = ground (arith, e, bound) in
            rw e (rw last at arrived, keeps, counted)
      ]

  -- The move of a component to Pos, whether it goes to the left, to the right or stays.
  pub move_component-Moved :
      (idx : ℕ) (cs : List Text)
      → get_elem? cs idx ≡ some c
      → fixed fs idx ≡ false
      → Fits fs cs
      → (ds : List Text) × (move_component fs pos idx c cs ≡ ok ds)
        × ((get_elem? ds pos ≡ some c)
            × ((i : ℕ) (v : Text)
                → fixed fs i ≡ true
                → get_elem? cs i ≡ some v
                → get_elem? ds i ≡ some v)
            × ((x : Text) → is_empty x ≡ false → count x ds ≡ count x cs))
  unfolding move_component
  move_component-Moved idx cs at movable fit = elim (Bool-cases (ltb pos idx)) [
    | inl e ↦ rw e (insert_left-Moved fs pos idx c cs at present movable free (ground (arith, e)))
    | inr e ↦ elim (Bool-cases (ltb idx pos)) [
      | inl f ↦ (
        push_right pos fs pos idx cs,
        rw (e, f) refl,
        push_right-Moved pos idx cs (ground (arith, f)) (omega arith) at movable fit,
      )
      | inr f ↦
          let same : idx ≡ pos = ground (arith, e, f) in
          (cs, rw (e, f) refl, (rw same at at, λ i v h k. k, λ x nx. refl))
    ]
  ]
