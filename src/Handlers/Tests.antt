-- ===== src/Handlers/Tests.antt =====
-- Runs of the handlers of src/ins_*.cpp with a Pin that answers as it documents.
use libdft64_ect.Prelude.{
  ℕ, ◌≡◌, refl, ap, ◌⊎◌, Bool, true, false, none, some, ◌&&◌, ◌==◌, if◌then◌else◌, arith,
}
use libdft64_ect.Tag.Instances.{uint8_traits, uint8_model, uint8_laws, zero_of}
use libdft64_ect.TagMap.{TagDir, tag_dir_getb_as_ptr}
use libdft64_ect.Machine.{State}
use libdft64_ect.Machine.Loop.{Ends}
use libdft64_ect.Machine.Effect.{Loc, reg, mem, look, Became}
use libdft64_ect.Machine.Meaning.{Outcome, IsState}
use libdft64_ect.Machine.Join.{Joined}
use libdft64_ect.Handlers.Opcode.{Opcode, iclass_mov, iclass_add, iclass_xor, iclass_mulsd}
use libdft64_ect.Ins.Reg.{Reg, reg_indx, ah, bl, invalid}
use libdft64_ect.Prelude.{◌>>=◌ as and_then}
use libdft64_ect.Ins.Xfer.Bytes.{to_part}
use libdft64_ect.Ins.Reg.{xmm0, xmm1}
use libdft64_ect.Ins.Binary.{r2r_binary_opx}
use libdft64_ect.Ins.Xfer.{r2r_xfer_opx}
use libdft64_ect.Handlers.Pin.{Pin, Run, run_calls}
use libdft64_ect.Handlers.Class.{
  Class, gr64, gr32, gr16, lower8, upper8, xmm_reg, ymm_reg, mm_reg, class_of, PinLaws,
}
use libdft64_ect.Handlers.Form.{Form, regs, store}
use libdft64_ect.Handlers.Xfer.{ins_xfer_op}
use libdft64_ect.Handlers.Binary.{ins_binary_op}
use libdft64_ect.Handlers.Moves.{moved, ins_xfer_op-copies}
use libdft64_ect.Handlers.Core.{reg_eq, ins_inspect}
use libdft64_ect.Handlers.Idiom.{by_xor, ins_inspect-clears}
use libdft64_ect.Handlers.Joins.{gained, ins_binary_op-gains}

-- Two operands, of which the second is in memory if `loads`, and the first if `stores`.
record Operands : Type 0 where
  first : Reg
  second : Reg
  loads : Bool
  stores : Bool
  op : Opcode

abbrev has_class : (Class → Bool) → Reg → Bool
has_class f r = elim (class_of r) [ none ↦ false | some c ↦ f c ]

abbrev listed : Pin
listed = record {
  Ins = Operands;
  memory_operand_count = λ ins. if ins.loads then 1 else if ins.stores then 1 else 0;
  operand_is_memory = λ ins i. if i == 1 then ins.loads else ins.stores;
  operand_is_reg = λ ins i. true;
  operand_is_immediate = λ ins i. false;
  operand_reg = λ ins i. if i == 0 then ins.first else ins.second;
  operand_is_implicit = λ ins i. false;
  opcode = λ ins. ins.op;
  operand_width = λ ins i. 64;
  memory_operand_size = λ ins i. 8;
  memory_base_reg = λ ins. invalid;
  memory_index_reg = λ ins. invalid;
  rep_prefix = λ ins. false;
  rep_count_register = λ ins. invalid;
  is_gr64 = has_class λ c. elim c [ gr64 ↦ true | _ ↦ false ];
  is_gr32 = has_class λ c. elim c [ gr32 ↦ true | _ ↦ false ];
  is_gr16 = has_class λ c. elim c [ gr16 ↦ true | _ ↦ false ];
  is_xmm = has_class λ c. elim c [ xmm_reg ↦ true | _ ↦ false ];
  is_ymm = has_class λ c. elim c [ ymm_reg ↦ true | _ ↦ false ];
  is_mm = has_class λ c. elim c [ mm_reg ↦ true | _ ↦ false ];
  is_lower8 = has_class λ c. elim c [ lower8 ↦ true | _ ↦ false ];
  is_upper8 = has_class λ c. elim c [ upper8 ↦ true | _ ↦ false ];
  is_gr8 = has_class λ c. elim c [ lower8 ↦ true | upper8 ↦ true | _ ↦ false ];
  is_seg = λ r. false;
  same_reg = λ r q. reg_indx r == reg_indx q;
}

has_class-eq : (f : Class → Bool) (r : Reg) (c : Class) → class_of r ≡ some c → has_class f r ≡ f c
has_class-eq f r c e = ap (λ x. elim x [ none ↦ false | some c' ↦ f c' ]) e

listed-PinLaws : PinLaws listed
listed-PinLaws r c e = record {
  gr64_eq = has_class-eq _ r c e;
  gr32_eq = has_class-eq _ r c e;
  gr16_eq = has_class-eq _ r c e;
  xmm_eq = has_class-eq _ r c e;
  ymm_eq = has_class-eq _ r c e;
  mm_eq = has_class-eq _ r c e;
  lower8_eq = has_class-eq _ r c e;
  upper8_eq = has_class-eq _ r c e;
}

-- A page for the first addresses, and taint in `AH` of thread 0.
abbrev page_dir : TagDir ℕ
page_dir = record {
  table = λ i. if i == 0 then some (λ j. if j == 0 then some (λ _. 0) else none) else none;
  mem_left = 98;
}

abbrev tainted : State uint8_traits
tainted = record {
  gpr = λ t q i. if t == 0 && (q == 10 && i == 1) then 1 else 0;
  dir = page_dir;
  store = tt;
}

abbrev run : Run
run = record {
  tid = 0;
  read_ea = 64;
  write_ea = 128;
  executes = true;
  first_rep = true;
  reg_value = λ _. 0;
  read_value = 0;
}

-- `MOV BL, AH`.
abbrev mov_bl_ah : Operands
mov_bl_ah = record { first = bl; second = ah; loads = false; stores = false; op = iclass_mov }

two_bytes : Form listed mov_bl_ah run
unfolding class_of
two_bytes = regs lower8 upper8 refl refl refl refl

ins_xfer_op-copies_example :
    Ends
      (Became tainted 0 (moved run two_bytes tainted))
      tainted
      (run_calls (ins_xfer_op listed mov_bl_ah) run)
unfolding two_bytes
ins_xfer_op-copies_example =
    ins_xfer_op-copies listed mov_bl_ah run tainted listed-PinLaws zero_of two_bytes (omega arith)

-- `ADD [128], AH`.
abbrev add_mem_ah : Operands
add_mem_ah = record { first = invalid; second = ah; loads = false; stores = true; op = iclass_add }

to_memory : Form listed add_mem_ah run
unfolding class_of
to_memory = store upper8 refl refl refl (omega arith)

tainted-IsState : IsState uint8_laws tainted tt
unfolding tag_dir_getb_as_ptr
tainted-IsState = record { store = tt; tags = known }
  where
    known : (l : Loc) (t : ℕ) → look tainted l ≡ some t → (t ≡ 0) ⊎ (t ≡ 1)
    known (reg t' q i) t e = ground arith
    known (mem a) t e = ground arith

ins_binary_op-gains_example :
    Outcome uint8_model
      (λ r. Joined uint8_laws tainted 2 (gained uint8_laws run to_memory tainted) r.1)
      (run_calls (ins_binary_op listed add_mem_ah) run tainted)
unfolding to_memory
ins_binary_op-gains_example =
    ins_binary_op-gains listed uint8_laws add_mem_ah run tainted tt tainted-IsState listed-PinLaws
      refl to_memory (omega arith)

-- `XOR AH, AH`.
abbrev xor_ah_ah : Operands
xor_ah_ah = record { first = ah; second = ah; loads = false; stores = false; op = iclass_xor }

ins_inspect-clears_example :
    Ends
      (Became tainted 0 (to_part 0 (reg_indx ah) 1 1 (λ _. some 0) tainted))
      tainted
      (run_calls (ins_inspect listed xor_ah_ah) run)
unfolding class_of reg_eq reg_indx
ins_inspect-clears_example =
    ins_inspect-clears listed xor_ah_ah run tainted upper8 listed-PinLaws by_xor refl refl refl
      (omega arith)

-- `MULSD XMM0, XMM1` with taint in XMM0 only: the move that follows the union takes it away.
abbrev mulsd : Operands
mulsd = record { first = xmm0; second = xmm1; loads = false; stores = false; op = iclass_mulsd }

abbrev tainted_xmm0 : State uint8_traits
tainted_xmm0 = record { gpr = λ t q i. if q == 19 then 1 else 0; dir = page_dir; store = tt }

mulsd_forgets :
    and_then (run_calls (ins_inspect listed mulsd) run tainted_xmm0) (λ r. some (r.1.gpr 0 19 3))
    ≡ some 0
unfolding run_calls ins_inspect class_of reg_indx r2r_binary_opx r2r_xfer_opx
mulsd_forgets = refl
