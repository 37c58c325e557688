-- ===== src/Calls/Lower.antt =====
-- LowerFormalArguments and LowerReturn of TOYRISCVISelLowering.cpp.
use toy_riscv.Base.{
  ℕ, suc, Bool, true, false, if◌then◌else◌, List, [], ◌∷◌, ◌++◌, XLen, rv32, rv64, Outcome, ok,
  stop, fatal_error, assertion, ◌>>=◌,
}
use toy_riscv.Calls.Conventions.{
  Register, ValueType, i32, i64, Location, reg_loc, stack_loc, cc_riscv32, ret_cc_riscv32,
  CallState,
}

pub data CallingConv : Type 0 where
  c_conv other_conv : CallingConv

abbrev pub xlen_vt : XLen → ValueType
xlen_vt rv32 = i32
xlen_vt rv64 = i64

-- RegVT == XLenVT
unfoldable pub is_xlen_vt : XLen → ValueType → Bool
is_xlen_vt rv32 i32 = true
is_xlen_vt rv64 i64 = true
is_xlen_vt _ _ = false

-- MachineRegisterInfo: the number of the next virtual register, and the physical registers that are
-- live at the entry with their virtual registers.
pub record RegInfo : Type 0 where
  pub next : ℕ
  pub live_ins : List (Register × ℕ)

-- A CopyFromReg node: its chain, register and type.
pub record CopyFromReg (C : Type 0) : Type 0 where
  pub chain : C
  pub reg : ℕ
  pub type : ValueType

-- The chain returned, InVals and the register information after it.
pub record Arguments (C : Type 0) : Type 0 where
  pub chain : C
  pub in_vals : List (CopyFromReg C)
  pub reg_info : RegInfo

module _ {C : Type 0} (x : XLen) (chain : C) where
  -- addLiveIn of a new virtual register for a location.
  abbrev pub add_live_in : RegInfo → Register → RegInfo
  add_live_in i r = record { next = suc i.next; live_ins = i.live_ins ++ ((r, i.next) ∷ []) }

  -- The loop over ArgLocs.
  unfoldable pub lower_arguments : RegInfo → List Location → Outcome (Arguments C)
  lower_arguments i [] = ok (record { chain = chain; in_vals = []; reg_info = i })
  lower_arguments i (stack_loc o t ∷ ls) = stop (fatal_error "Defined with too many args")
  lower_arguments i (reg_loc r t ∷ ls) =
      let rest = lower_arguments (add_live_in i r) ls in
      if is_xlen_vt x t
      then (rest >>= λ a.
          ok (record a { in_vals = record { chain = chain; reg = i.next; type = t } ∷ a.in_vals }))
      else stop (fatal_error "unhandled argument type")

  -- TOYRISCVTargetLowering::LowerFormalArguments
  unfoldable pub lower_formal_arguments :
      CallState
      → CallingConv
      → (is_var_arg : Bool) → List ValueType
      → RegInfo
      → Outcome (Arguments C)
  lower_formal_arguments cs other_conv is_var_arg ins i =
      stop (fatal_error "Unsupported calling convention")
  lower_formal_arguments cs c_conv true ins i = stop (fatal_error "VarArg not supported")
  lower_formal_arguments cs c_conv false ins i =
      cs.analyze_formal_arguments cc_riscv32 ins >>= lower_arguments i

-- A chain of CopyToReg nodes: each after a chain, with the register, the value, and whether it is glued to
-- the copy before it by the flag.
pub data Chain (V : Type 0) : Type 0 where
  entry : Chain V
  copy_to_reg : Chain V → Register → V → (glued : Bool) → Chain V

-- The operands of RET_FLAG: the chain, the registers with their types, and whether the flag is added.
pub record Return (V : Type 0) : Type 0 where
  pub chain : Chain V
  pub registers : List (Register × ValueType)
  pub flag : Bool

module _ {V : Type 0} where
  -- The loop over RVLocs, with the values that are left; the flag is that of the last copy.
  unfoldable pub lower_results :
      Chain V → (flag : Bool) → List Location → List V → Outcome (Return V)
  lower_results c g [] vs = ok (record { chain = c; registers = []; flag = g })
  lower_results c g (stack_loc o t ∷ ls) vs = stop (assertion "Can only return in registers!")
  lower_results c g (reg_loc r t ∷ ls) [] = stop (assertion "idx < size()")
  lower_results c g (reg_loc r t ∷ ls) (v ∷ vs) =
      lower_results (copy_to_reg c r v g) true ls vs >>= λ result.
      ok (record result { registers = (r, t) ∷ result.registers })

  -- TOYRISCVTargetLowering::LowerReturn
  unfoldable pub lower_return :
      CallState → (is_var_arg : Bool) → Chain V → List ValueType → List V → Outcome (Return V)
  lower_return cs true c outs vals = stop (fatal_error "VarArg not supported")
  lower_return cs false c outs vals =
      cs.analyze_return ret_cc_riscv32 outs >>= λ ls. lower_results c false ls vals
