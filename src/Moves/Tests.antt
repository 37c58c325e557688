-- ===== src/Moves/Tests.antt =====
-- A copy between two registers, and the address of a slot below the frame pointer.
use toy_riscv.Base.{ℕ, ◌-◌, ◌^◌, true, false, ok, stop, assertion, rv32, ◌≡◌, ◌≢◌, refl, arith}
use toy_riscv.Frame.{MachineFunction, FrameRegister, fp, sp, FrameLayout}
use toy_riscv.Moves.{Addi, is_gpr, copy_phys_reg}
use toy_riscv.Moves.Laws.{read, run_addi, run_addi-copy_phys_reg}

abbrev all_fives : ℕ → ℕ
all_fives r = 5

abbrev a0 : ℕ
a0 = 10

abbrev s1 : ℕ
s1 = 9

run_addi-copy_phys_reg_example :
    (i : Addi) × (copy_phys_reg a0 s1 true ≡ ok i)
    × (read (run_addi rv32 i all_fives) a0 ≡ read all_fives s1)
    × ((r : ℕ) → r ≢ a0 → read (run_addi rv32 i all_fives) r ≡ read all_fives r)
run_addi-copy_phys_reg_example =
    run_addi-copy_phys_reg rv32 a0 s1 true all_fives (omega arith) (omega arith)
      (λ e. omega (arith, e)) (λ r. omega arith)

no_such_register : copy_phys_reg 32 s1 false ≡ stop (assertion "Impossible reg-to-reg copy")
unfolding copy_phys_reg is_gpr
no_such_register = refl

abbrev layout : FrameLayout
layout = record { base_of = λ mf i r. r; offset_of = λ mf i r. 2 ^ 64 - 24 }

abbrev function : MachineFunction
function = record {
  disable_frame_pointer_elim = false;
  has_stack_realignment = false;
  has_var_sized_objects = true;
  is_frame_address_taken = false;
}

abbrev registers : FrameRegister → ℕ
registers fp = 8192
registers sp = 4096
