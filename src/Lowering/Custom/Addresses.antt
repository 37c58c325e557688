-- ===== src/Lowering/Custom/Addresses.antt =====
-- getAddr and lowerGlobalAddress: the value that the built nodes compute is the address.
use toy_riscv.Base.{
  ℕ, ◌+◌, ◌-◌, ◌*◌, ◌/◌, ◌%◌, ◌^◌, ◌≤◌, ◌<◌, ◌≡◌, refl, sym, ◌∙◌, true, false, not, ◌&&◌, ◌==◌, ltb,
  if◌then◌else◌, arith, Bool-cases, ◌⊎◌, inl, inr, XLen, rv32, rv64, modulus, add_word, sub_word,
  Outcome, ok, ◌↔◌, ==_iff,
}
use toy_riscv.Mc.BaseInfo.{mo_none, mo_lo, mo_hi}
use toy_riscv.Lowering.Dag.{
  Dag, Meaning, Mvt, xlen_vt, add, pseudo_lla, pseudo_la, machine_lui, machine_addi,
}
use toy_riscv.Lowering.Custom.{
  CodeModel, small_model, medium_model, other_model, Target, get_addr, lower_global_address,
}

-- The fields that the linker computes for %hi and %lo, and the result of lui, all in a register.
abbrev pub hi_field : ℕ → ℕ
hi_field a = (a + 0x800) / 2 ^ 12 % 2 ^ 20

abbrev pub lo_field : XLen → ℕ → ℕ
lo_field x a = if ltb (a % 4096) 2048 then a % 4096 else a % 4096 + (modulus x - 4096)

abbrev pub lui_result : XLen → ℕ → ℕ
lui_result rv32 hi = hi * 2 ^ 12
lui_result rv64 hi = if ltb hi (2 ^ 19) then hi * 2 ^ 12 else hi * 2 ^ 12 + (2 ^ 64 - 2 ^ 32)

-- auipc with the upper part of the distance from pc to a, and addi with the lower part.
abbrev pub pcrel_result : XLen → ℕ → ℕ → ℕ
pcrel_result x pc a =
    let distance = sub_word x a pc in
    add_word x (add_word x pc (lui_result x (hi_field distance))) (lo_field x distance)

-- What the machine nodes compute. The linker places the definition of a global that it sees, which is
-- where the global stands when the program runs if the global is local to the linked object, or if
-- the code is not position-independent; the table of global offsets holds the address in any case.
pub record Relocations (d : Dag) (m : Meaning d) (t : Target) : Type 0 where
  pub definition : ℕ → ℕ
  -- the place of the instructions that address a global, and that of its entry in the table
  pub pc : ℕ → ℕ
  pub got : ℕ → ℕ
  pub load : ℕ → ℕ
  pub address-lt : (g : ℕ) → m.address g < modulus d.xlen
  pub definition-lt : (g : ℕ) → definition g < modulus d.xlen
  pub pc-lt : (g : ℕ) → pc g < modulus d.xlen
  pub got-lt : (g : ℕ) → got g < modulus d.xlen
  pub definition_local : (g : ℕ) → t.should_assume_dso_local g ≡ true → definition g ≡ m.address g
  pub definition_fixed : (g : ℕ) → t.is_position_independent ≡ false → definition g ≡ m.address g
  pub load-got : (g : ℕ) → load (got g) ≡ m.address g
  pub eval-pseudo_lla :
      (g : ℕ) (ty : Mvt)
      → m.eval (d.get_node (pseudo_lla (d.get_target_global_address g ty mo_none)) ty)
        ≡ pcrel_result d.xlen (pc g) (definition g)
  pub eval-pseudo_la :
      (g : ℕ) (ty : Mvt)
      → m.eval (d.get_node (pseudo_la (d.get_target_global_address g ty mo_none)) ty)
        ≡ load (pcrel_result d.xlen (pc g) (got g))
  pub eval_hi :
      (g : ℕ) (ty : Mvt) → m.eval (d.get_target_global_address g ty mo_hi) ≡ hi_field (definition g)
  pub eval_lo :
      (g : ℕ) (ty : Mvt)
      → m.eval (d.get_target_global_address g ty mo_lo) ≡ lo_field d.xlen (definition g)
  pub eval-machine_lui :
      (a : d.Value) (ty : Mvt)
      → m.eval a < 2 ^ 20
      → m.eval (d.get_node (machine_lui a) ty) ≡ lui_result d.xlen (m.eval a)
  pub eval-machine_addi :
      (a b : d.Value) (ty : Mvt)
      → m.eval (d.get_node (machine_addi a b) ty) ≡ add_word d.xlen (m.eval a) (m.eval b)

-- The addresses that lui and addi can form: all of RV32, and on RV64 those from -2^31 - 2^11 up to,
-- but not including, 2^31 - 2^11.
abbrev pub InReach : XLen → ℕ → Type 0
InReach rv32 a = Unit
InReach rv64 a = (a < 2 ^ 31 - 2 ^ 11) ⊎ (2 ^ 64 - 2 ^ 31 - 2 ^ 11 ≤ a)

hi_field-lt : (a : ℕ) → hi_field a < 2 ^ 20
hi_field-lt a = omega arith

lui-addi :
    (x : XLen) (a : ℕ)
    → a < modulus x
    → InReach x a
    → add_word x (lui_result x (hi_field a)) (lo_field x a) ≡ a
lui-addi rv32 a h r = ground arith
lui-addi rv64 a h r = ground arith

lui-addi_InReach :
    (x : XLen) (a : ℕ)
    → a < modulus x
    → add_word x (lui_result x (hi_field a)) (lo_field x a) ≡ a
    → InReach x a
lui-addi_InReach rv32 a h e = tt
lui-addi_InReach rv64 a h e = ground arith

add_word_assoc :
    (x : XLen) (a b c : ℕ) → add_word x (add_word x a b) c ≡ add_word x a (add_word x b c)
add_word_assoc rv32 a b c = omega arith
add_word_assoc rv64 a b c = omega arith

add_word-sub_word :
    (x : XLen) (a pc : ℕ) → a < modulus x → pc < modulus x → add_word x pc (sub_word x a pc) ≡ a
add_word-sub_word rv32 a pc h k = omega arith
add_word-sub_word rv64 a pc h k = omega arith

add_word_cancel :
    (x : XLen) (a b pc : ℕ)
    → pc < modulus x
    → add_word x pc (b % modulus x) ≡ a
    → b % modulus x ≡ sub_word x a pc
add_word_cancel rv32 a b pc h e = omega arith
add_word_cancel rv64 a b pc h e = omega arith

sub_word-lt : (x : XLen) (a pc : ℕ) → sub_word x a pc < modulus x
sub_word-lt rv32 a pc = omega arith
sub_word-lt rv64 a pc = omega arith

-- The distance from pc to an address is in reach.
abbrev pub IsNear : XLen → ℕ → ℕ → Type 0
IsNear x pc a = InReach x (sub_word x a pc)

pcrel-IsNear :
    (x : XLen) (pc a : ℕ) → pc < modulus x → a < modulus x → IsNear x pc a → pcrel_result x pc a ≡ a
pcrel-IsNear x pc a h k near =
    let distance = sub_word x a pc in
    rw (add_word_assoc x pc (lui_result x (hi_field distance)) (lo_field x distance))
      (rw (lui-addi x distance (sub_word-lt x a pc) near) (add_word-sub_word x a pc k h))

IsNear-pcrel : (x : XLen) (pc a : ℕ) → pc < modulus x → pcrel_result x pc a ≡ a → IsNear x pc a
IsNear-pcrel x pc a h e =
    let distance = sub_word x a pc in
    let hi = lui_result x (hi_field distance) in
    let lo = lo_field x distance in
    lui-addi_InReach x distance (sub_word-lt x a pc)
      (add_word_cancel x a (hi + lo) pc h (sym (add_word_assoc x pc hi lo) ∙ e))

module _ (d : Dag) (m : Meaning d) (t : Target) (r : Relocations d m t) where
  open d use {Value, xlen, get_node, get_target_global_address, get_constant}
  open m use {eval, address}
  open t use {is_position_independent, code_model, should_assume_dso_local}

  -- When the target can address a global. Position-independent code reaches a local global, or else
  -- the entry of the global in the table, from the instructions; other code reaches the global from
  -- the instructions in the medium code model, and from 0 in the small one.
  pub data CanAddress (g : ℕ) : Type 0 where
    local_near :
        is_position_independent ≡ true
        → should_assume_dso_local g ≡ true
        → IsNear xlen (r.pc g) (address g)
        → CanAddress g
    entry_near :
        is_position_independent ≡ true
        → should_assume_dso_local g ≡ false
        → IsNear xlen (r.pc g) (r.got g)
        → CanAddress g
    medium_near :
        is_position_independent ≡ false
        → code_model ≡ medium_model
        → IsNear xlen (r.pc g) (address g)
        → CanAddress g
    small_reach :
        is_position_independent ≡ false
        → code_model ≡ small_model
        → InReach xlen (address g)
        → CanAddress g

  small_address :
      (g : ℕ) (ty : Mvt)
      → eval (
          get_node
            (machine_addi
              (get_node (machine_lui (get_target_global_address g ty mo_hi)) ty)
              (get_target_global_address g ty mo_lo))
            ty)
        ≡ add_word xlen
            (lui_result xlen (hi_field (r.definition g)))
            (lo_field xlen (r.definition g))
  small_address g ty =
      let hi = get_target_global_address g ty mo_hi in
      rw (
        r.eval-machine_addi,
        r.eval-machine_lui hi ty (rw r.eval_hi (hi_field-lt (r.definition g))),
        r.eval_hi,
        r.eval_lo,
      )

  lla-IsNear :
      (g : ℕ) (ty : Mvt)
      → r.definition g ≡ address g
      → IsNear xlen (r.pc g) (address g)
      → eval (get_node (pseudo_lla (get_target_global_address g ty mo_none)) ty) ≡ address g
  lla-IsNear g ty e near =
      r.eval-pseudo_lla g ty
      ∙ pcrel-IsNear xlen (r.pc g) (r.definition g) (r.pc-lt g) (r.definition-lt g) (rw e near)
      ∙ e

  la-IsNear :
      (g : ℕ) (ty : Mvt)
      → IsNear xlen (r.pc g) (r.got g)
      → eval (get_node (pseudo_la (get_target_global_address g ty mo_none)) ty) ≡ address g
  la-IsNear g ty near = rw (
    r.eval-pseudo_la,
    pcrel-IsNear xlen (r.pc g) (r.got g) (r.pc-lt g) (r.got-lt g) near,
    r.load-got,
  )

  IsNear-lla :
      (g : ℕ) (ty : Mvt)
      → r.definition g ≡ address g
      → eval (get_node (pseudo_lla (get_target_global_address g ty mo_none)) ty) ≡ address g
      → IsNear xlen (r.pc g) (address g)
  IsNear-lla g ty e value = rw (sym e) (
      IsNear-pcrel xlen (r.pc g) (r.definition g) (r.pc-lt g)
        (sym (r.eval-pseudo_lla g ty) ∙ value ∙ sym e))

  -- The result is a node whose value is the address.
  abbrev Finds : ℕ → Outcome Value → Type 0
  Finds n o = (v : Value) × (o ≡ ok v) × (eval v ≡ n)

  get_addr-Finds :
      (g : ℕ) → CanAddress g → Finds (address g) (get_addr d t g (should_assume_dso_local g))
  unfolding get_addr
  get_addr-Finds g (local_near pic here near) =
      (_, rw (pic, here, get_addr), lla-IsNear g (xlen_vt xlen) (r.definition_local g here) near)
  get_addr-Finds g (entry_near pic away near) =
      (_, rw (pic, away, get_addr), la-IsNear g (xlen_vt xlen) near)
  get_addr-Finds g (medium_near fixed medium near) = (
    _,
    rw (fixed, medium, get_addr),
    lla-IsNear g (xlen_vt xlen) (r.definition_fixed g fixed) near,
  )
  get_addr-Finds g (small_reach fixed small near) =
      let e = r.definition_fixed g fixed in
      (
        _,
        rw (fixed, small, get_addr),
        small_address g (xlen_vt xlen)
            ∙ lui-addi xlen (r.definition g) (r.definition-lt g) (rw e near)
            ∙ e,
      )

  small_only :
      (g : ℕ) (v : Value)
      → is_position_independent ≡ false
      → code_model ≡ small_model
      → get_addr d t g (should_assume_dso_local g) ≡ ok v
      → eval v ≡ address g
      → InReach xlen (address g)
  unfolding get_addr
  small_only g v fixed small found value =
      let node = rw (fixed, small, get_addr) at found in
      let e = r.definition_fixed g fixed in
      rw (sym e) (
        lui-addi_InReach xlen (r.definition g) (r.definition-lt g)
          (sym (small_address g (xlen_vt xlen)) ∙ cc (node, value, e)))

  fixed_only :
      (g : ℕ) (c : CodeModel)
      → code_model ≡ c
      → is_position_independent ≡ false
      → Finds (address g) (get_addr d t g (should_assume_dso_local g))
      → CanAddress g
  unfolding get_addr
  fixed_only g small_model e fixed (v, found, value) =
      small_reach fixed e (small_only g v fixed e found value)
  fixed_only g medium_model e fixed (v, found, value) =
      let node = rw (fixed, e, get_addr) at found in
      medium_near fixed e
        (IsNear-lla g (xlen_vt xlen) (r.definition_fixed g fixed) (cc (node, value)))
  fixed_only g other_model e fixed (v, found, value) =
      absurd (cc (rw (fixed, e, get_addr) at found))

  get_addr_only :
      (g : ℕ)
      → is_position_independent && not (should_assume_dso_local g) ≡ false
      → Finds (address g) (get_addr d t g (should_assume_dso_local g))
      → CanAddress g
  unfolding get_addr
  get_addr_only g h (v, found, value) = elim (Bool-cases is_position_independent) [
    | inr fixed ↦ fixed_only g code_model refl fixed (v, found, value)
    | inl pic ↦ elim (Bool-cases (should_assume_dso_local g)) [
      | inr away ↦ absurd (ground (arith, h, pic, away))
      | inl here ↦
          let node = rw (pic, here, get_addr) at found in
          local_near pic here
            (IsNear-lla g (xlen_vt xlen) (r.definition_local g here) (cc (node, value)))
    ]
  ]

  -- Where the code is not position-independent or the global is local, getAddr, called as
  -- lowerGlobalAddress calls it, returns a node whose value is the address of the global exactly
  -- when the target can address it: in position-independent code and in the medium code model, the
  -- distance from the instructions to the global is in reach, and in the small code model, the
  -- address itself is; no other code model addresses it. On RV32 all is in reach, on RV64 what lies
  -- from -2^31 - 2^11 up to, but not including, 2^31 - 2^11.
  pub get_addr_iff :
      (g : ℕ)
      → is_position_independent && not (should_assume_dso_local g) ≡ false
      → ((v : Value) × (get_addr d t g (should_assume_dso_local g) ≡ ok v) × (eval v ≡ address g))
        ↔ CanAddress g
  get_addr_iff g h = (get_addr_only g h, get_addr-Finds g)

  add_zero : (x : XLen) (a : ℕ) → a < modulus x → a ≡ add_word x a (0 % modulus x)
  add_zero rv32 a h = omega arith
  add_zero rv64 a h = omega arith

  -- The lowered address of a global with an offset has the value of the address plus the offset.
  pub eval-lower_global_address :
      (g offset : ℕ) (ty : Mvt)
      → CanAddress g
      → (v : Value) × (lower_global_address d t g offset ty ≡ ok v)
        × (eval v ≡ add_word xlen (address g) (offset % modulus xlen))
  unfolding lower_global_address
  eval-lower_global_address g offset ty can =
      let (v, found, value) = get_addr-Finds g can in
      elim (Bool-cases (offset == 0)) [
        | inl zero ↦ (
          v,
          rw (lower_global_address, found) (rw zero),
          rw (value, (==_iff offset 0).0 zero) (add_zero xlen (address g) (r.address-lt g)),
        )
        | inr some ↦ (
          get_node (add v (get_constant offset (xlen_vt xlen))) ty,
          rw (lower_global_address, found) (rw some),
          rw (m.eval-add, m.eval-get_constant, value),
        )
      ]
