-- ===== src/Frame/Tests.antt =====
-- Instances of the theorems on frames: a load from a slot 16 bytes below the frame pointer.
use toy_riscv.Base.{
  ℕ, ◌+◌, ◌-◌, ◌%◌, ◌^◌, ◌≤◌, ◌<◌, true, false, some, List, [], ◌∷◌, get_elem?, ok, ◌≡◌, ◌↔◌, ◌⊎◌,
  refl, arith,
}
use toy_riscv.Frame.{
  MachineFunction, has_fp, FrameRegister, fp, sp, Operand, register, frame_index, immediate,
  FrameLayout, eliminate_frame_index, get_frame_register, is_int_12,
}
use toy_riscv.Frame.Laws.{offset, eliminate_frame_index_iff, address, address-eliminate_frame_index}

abbrev layout : FrameLayout
layout = record { base_of = λ mf i r. r; offset_of = λ mf i r. 2 ^ 64 - 16 }

abbrev function : MachineFunction
function = record {
  disable_frame_pointer_elim = true;
  has_stack_realignment = false;
  has_var_sized_objects = false;
  is_frame_address_taken = false;
}

abbrev load : List Operand
load = register sp ∷ frame_index 0 ∷ immediate 4 ∷ []

abbrev registers : FrameRegister → ℕ
registers fp = 4096
registers sp = 2048

abbrev no_adjustment : ℕ
no_adjustment = 0

eliminate_frame_index_iff_example :
    ((r : List Operand) × (eliminate_frame_index layout function 0 load 1 ≡ ok r)) ↔ (
      (no_adjustment ≡ 0)
      × (has_fp function ≡ true)
      × ((offset layout function 0 4 < 2048) ⊎ (2 ^ 64 - 2048 ≤ offset layout function 0 4)))
eliminate_frame_index_iff_example =
    eliminate_frame_index_iff layout function load 1 0 4 refl refl no_adjustment

address-eliminate_frame_index_example :
    (r : List Operand) × (eliminate_frame_index layout function 0 load 1 ≡ ok r)
    × (address registers (get_elem? r 1) (get_elem? r 2) ≡ some ((4080 + 4) % 2 ^ 64))
    × (get_elem? r 0 ≡ get_elem? load 0)
unfolding has_fp get_frame_register is_int_12
address-eliminate_frame_index_example =
    address-eliminate_frame_index layout function load 1 0 4 refl refl registers 4080 0 refl refl
      refl (λ e. omega (arith, e)) (λ e. omega (arith, e))
