-- ===== src/Machine/Layout.antt =====
-- What the parts of the backend make of a triple's width: the data layout, the subtarget and the CPU.
use toy_riscv.Base.{
  ℕ, ◌+◌, ◌-◌, ◌*◌, Bool, ◌&&◌, ◌==◌, leb, List, [], ◌∷◌, Option, none, some, Text, codes, equals,
  rv32, rv64, if◌then◌else◌, ok, ◌≡◌, ◌⊎◌, inl, inr, refl,
}
use toy_riscv.Triple.Types.{toyriscv32, toyriscv64}
use toy_riscv.Triple.Target.{TargetTriple, first}
use toy_riscv.Triple.Properties.{
  get_arch_pointer_bit_width, is_little_endian, is_arch_64_bit, is_arch_32_bit,
}
use toy_riscv.Subtarget.{
  FeatureParser, Subtarget, choose_cpu, is_generic, initialize_subtarget_dependencies, bits,
}
use toy_riscv.Machine.{compute_data_layout, choose_mc_cpu}

-- The items of a data layout, between dashes.
abbrev pub items : Text → List Text
items [] = [] ∷ []
items (c ∷ t) = item c (items t)
  where
    item : ℕ → List Text → List Text
    item c [] = (c ∷ []) ∷ []
    item c (i ∷ is) = if c == 45 then [] ∷ i ∷ is else (c ∷ i) ∷ is

-- The digits at the start of a text, read as a decimal number after the one that is given.
abbrev pub number_from : ℕ → Text → ℕ
number_from n [] = n
number_from n (c ∷ t) =
    let rest = number_from (n * 10 + (c - 48)) t in if leb 48 c && leb c 57 then rest else n

-- What an item says after a prefix.
abbrev pub after_prefix : Text → Text → Option Text
after_prefix [] t = some t
after_prefix (c ∷ p) [] = none
after_prefix (c ∷ p) (d ∷ t) = let rest = after_prefix p t in if c == d then rest else none

-- The number of the first item with the prefix.
abbrev pub find_number : Text → List Text → Option ℕ
find_number p [] = none
find_number p (i ∷ is) = number_or (find_number p is) (after_prefix p i)
  where
    number_or : Option ℕ → Option Text → Option ℕ
    number_or rest none = rest
    number_or rest (some t) = some (number_from 0 t)

-- LLVM's data layout: `e` for little endian, `p:<size>` for pointers, `n<size>` for the native integers,
-- S<size> for the alignment of the stack.
abbrev pub is_little : Text → Bool
is_little d = equals (first d) "e"

abbrev pub pointer_bits : Text → Option ℕ
pointer_bits d = find_number (codes "p:") (items d)

abbrev pub native_bits : Text → Option ℕ
native_bits d = find_number (codes "n") (items d)

abbrev pub stack_bits : Text → Option ℕ
stack_bits d = find_number (codes "S") (items d)

-- For a triple of toyriscv32 or toyriscv64, with no CPU and no features, the data layout and the subtarget
-- are made; the pointers and the native integers of the data layout, the registers of the subtarget and the
-- pointers of the triple have one width, the stack is aligned to two registers of it, the data layout is
-- little-endian as the triple is, and the MC layer takes the CPU that the subtarget takes.
pub compute_data_layout-bits :
    (p : FeatureParser) (t : TargetTriple) (tune : Text)
    → (t.arch ≡ toyriscv32) ⊎ (t.arch ≡ toyriscv64)
    → (d : Text) × (s : Subtarget) × (compute_data_layout t ≡ ok d)
      × (initialize_subtarget_dependencies p t [] tune [] ≡ ok s)
      × (get_arch_pointer_bit_width t.arch ≡ bits s.xlen)
      × (pointer_bits d ≡ some (bits s.xlen))
      × (native_bits d ≡ some (bits s.xlen))
      × (stack_bits d ≡ some (2 * bits s.xlen))
      × (is_little d ≡ is_little_endian t.arch)
      × (choose_mc_cpu t.arch [] ≡ s.cpu)
unfolding compute_data_layout initialize_subtarget_dependencies choose_cpu is_generic
    get_arch_pointer_bit_width is_little_endian choose_mc_cpu is_arch_64_bit is_arch_32_bit
compute_data_layout-bits p t tune (inl e) = (
  codes "e-m:m-p:32:32-i8:8:32-i16:16:32-i64:64-n32-S64",
  record { cpu = codes "cpu-rv32"; xlen = rv32 },
  rw e refl,
  rw (e, p.cpu_rv32_lem tune) refl,
  rw e refl,
  refl,
  refl,
  refl,
  rw e refl,
  rw e refl,
)
compute_data_layout-bits p t tune (inr e) = (
  codes "e-m:m-p:64:64-i8:8:32-i16:16:32-i64:64-n64-S128",
  record { cpu = codes "cpu-rv64"; xlen = rv64 },
  rw e refl,
  rw (e, p.cpu_rv64_lem tune) refl,
  rw e refl,
  refl,
  refl,
  refl,
  rw e refl,
  rw e refl,
)
