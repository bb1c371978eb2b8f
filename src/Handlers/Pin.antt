-- ===== src/Handlers/Pin.antt =====
-- What the handlers use of Pin, a parameter, and the macros of src/ins_helper.h that insert calls.
use libdft64_ect.Prelude.{ℕ, Bool, true, false, not, ◌&&◌, List, [], ◌∷◌, if◌then◌else◌}
use libdft64_ect.Tag.{TagTraits}
use libdft64_ect.Machine.{Cmd, pure, ◌>>◌, tagmap_clrn}
use libdft64_ect.Handlers.Opcode.{Opcode}
use libdft64_ect.Ins.Reg.{Reg, invalid, reg_indx}

-- Pin's questions about an instruction, `INS_*`, and about a register, `REG_is_*`; `same_reg` is
-- `==` on `REG`.
pub record Pin : Type 1 where
  pub Ins : Type 0
  pub memory_operand_count : Ins → ℕ
  pub operand_is_memory : Ins → ℕ → Bool
  pub operand_is_reg : Ins → ℕ → Bool
  pub operand_is_immediate : Ins → ℕ → Bool
  pub operand_reg : Ins → ℕ → Reg
  pub operand_is_implicit : Ins → ℕ → Bool
  pub opcode : Ins → Opcode
  pub operand_width : Ins → ℕ → ℕ
  pub memory_operand_size : Ins → ℕ → ℕ
  pub memory_base_reg : Ins → Reg
  pub memory_index_reg : Ins → Reg
  pub rep_prefix : Ins → Bool
  pub rep_count_register : Ins → Reg
  pub is_gr64 : Reg → Bool
  pub is_gr32 : Reg → Bool
  pub is_gr16 : Reg → Bool
  pub is_xmm : Reg → Bool
  pub is_ymm : Reg → Bool
  pub is_mm : Reg → Bool
  pub is_lower8 : Reg → Bool
  pub is_upper8 : Reg → Bool
  pub is_gr8 : Reg → Bool
  pub is_seg : Reg → Bool
  pub same_reg : Reg → Reg → Bool

-- What Pin passes to a call when the instruction runs: `IARG_THREAD_ID`, `IARG_MEMORYREAD_EA`,
-- `IARG_MEMORYWRITE_EA`, `IARG_FIRST_REP_ITERATION` and `IARG_REG_VALUE`; `read_value` is the number
-- that the program has at `read_ea`, and `executes` is the
-- predicate of the instruction.
pub record Run : Type 0 where
  pub tid : ℕ
  pub read_ea : ℕ
  pub write_ea : ℕ
  pub executes : Bool
  pub first_rep : Bool
  pub reg_value : Reg → ℕ
  pub read_value : ℕ

-- A call that was inserted before an instruction.
pub record Call (o : TagTraits) : Type 0 where
  pub predicated : Bool
  pub body : Run → Cmd o (Unit {0})

abbrev pub is_invalid : Reg → Bool
is_invalid r = elim r [ invalid ↦ true | _ ↦ false ]

-- `INS_MemoryWriteSize`, a macro of src/ins_helper.h.
abbrev pub memory_write_size : (p : Pin) → p.Ins → ℕ
memory_write_size p ins = p.memory_operand_size ins 0

module _ {o : TagTraits} where
  -- `INS_InsertCall` and `INS_InsertPredicatedCall`.
  abbrev pub insert_call : (Run → Cmd o (Unit {0})) → List (Call o)
  insert_call f = record { predicated = false; body = f } ∷ []

  abbrev pub insert_predicated_call : (Run → Cmd o (Unit {0})) → List (Call o)
  insert_predicated_call f = record { predicated = true; body = f } ∷ []

  -- The macros of src/ins_helper.h.
  abbrev pub r_call : (ℕ → ℕ → Cmd o (Unit {0})) → Reg → List (Call o)
  r_call fn dst = insert_call λ run. fn run.tid (reg_indx dst)

  -- `CALL`, and `M_CALL_W` and `M_CALL_R`.
  abbrev pub call : (ℕ → Cmd o (Unit {0})) → List (Call o)
  call fn = insert_call λ run. fn run.tid

  abbrev pub m_call_w : (ℕ → ℕ → Cmd o (Unit {0})) → List (Call o)
  m_call_w fn = insert_call λ run. fn run.tid run.write_ea

  abbrev pub m_call_r : (ℕ → ℕ → Cmd o (Unit {0})) → List (Call o)
  m_call_r fn = insert_call λ run. fn run.tid run.read_ea

  abbrev pub r2r_call : (ℕ → ℕ → ℕ → Cmd o (Unit {0})) → Reg → Reg → List (Call o)
  r2r_call fn dst src = insert_call λ run. fn run.tid (reg_indx dst) (reg_indx src)

  abbrev pub r2r_call_p : (ℕ → ℕ → ℕ → Cmd o (Unit {0})) → Reg → Reg → List (Call o)
  r2r_call_p fn dst src = insert_predicated_call λ run. fn run.tid (reg_indx dst) (reg_indx src)

  abbrev pub m2r_call : (ℕ → ℕ → ℕ → Cmd o (Unit {0})) → Reg → List (Call o)
  m2r_call fn dst = insert_call λ run. fn run.tid (reg_indx dst) run.read_ea

  abbrev pub m2r_call_p : (ℕ → ℕ → ℕ → Cmd o (Unit {0})) → Reg → List (Call o)
  m2r_call_p fn dst = insert_predicated_call λ run. fn run.tid (reg_indx dst) run.read_ea

  abbrev pub r2m_call : (ℕ → ℕ → ℕ → Cmd o (Unit {0})) → Reg → List (Call o)
  r2m_call fn src = insert_call λ run. fn run.tid run.write_ea (reg_indx src)

  abbrev pub m2m_call : (ℕ → ℕ → Cmd o (Unit {0})) → List (Call o)
  m2m_call fn = insert_predicated_call λ run. fn run.write_ea run.read_ea

  abbrev pub m_clear_n : ℕ → List (Call o)
  m_clear_n n = insert_call λ run. tagmap_clrn run.write_ea n

  abbrev pub rr2r_call : (ℕ → ℕ → ℕ → ℕ → Cmd o (Unit {0})) → Reg → Reg → Reg → List (Call o)
  rr2r_call fn dst src1 src2 =
      insert_call λ run. fn run.tid (reg_indx dst) (reg_indx src1) (reg_indx src2)

  -- Pin runs the calls in the order in which they were inserted, a predicated one only if the
  -- instruction executes.
  unfoldable pub run_calls : List (Call o) → Run → Cmd o (Unit {0})
  run_calls [] run = pure tt
  run_calls (c ∷ cs) run =
      (if c.predicated && not run.executes then pure tt else c.body run) >> run_calls cs run
