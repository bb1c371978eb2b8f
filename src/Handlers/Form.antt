-- ===== src/Handlers/Form.antt =====
-- The forms of the two-operand instructions that src/ins_*.cpp tell apart.
use libdft64_ect.Prelude.{ℕ, ◌+◌, ◌*◌, ◌≤◌, ◌≡◌, ◌≢◌, refl, true, false, some, ◌==◌}
use libdft64_ect.Tag.{TagTraits}
use libdft64_ect.TagMap.{max_addr}
use libdft64_ect.Machine.{State, Cmd}
use libdft64_ect.Machine.Loop.{Ends}
use libdft64_ect.Tag.Laws.{TagModel}
use libdft64_ect.Machine.Meaning
use libdft64_ect.Machine.Meaning.{Outcome, returns}
use libdft64_ect.Handlers.Pin.{Pin, Run, insert_call, run_calls}
use libdft64_ect.Handlers.Class.{
  gr64, gr32, gr16, lower8, upper8, xmm_reg, ymm_reg, mm_reg, Class, class_of, class_bytes, byte_at,
}

-- A part keeps its bytes at the start of the register, unless it is one byte.
pub whole : (d : Class) (i : ℕ) → class_bytes d ≢ 1 → i ≡ byte_at d i
whole gr64 i h = refl
whole gr32 i h = refl
whole gr16 i h = refl
whole lower8 i h = refl
whole upper8 i h = absurd (h refl)
whole xmm_reg i h = refl
whole ymm_reg i h = refl
whole mm_reg i h = refl

-- Two registers of one size, a load from user memory, or a store to it.
pub data Form (p : Pin) (ins : p.Ins) (run : Run) : Type 0 where
  regs :
      (c d : Class)
      → p.memory_operand_count ins ≡ 0
      → class_of (p.operand_reg ins 0) ≡ some c
      → class_of (p.operand_reg ins 1) ≡ some d
      → class_bytes c ≡ class_bytes d
      → Form p ins run
  load :
      (c : Class)
      → (p.memory_operand_count ins == 0) ≡ false
      → p.operand_is_memory ins 1 ≡ true
      → class_of (p.operand_reg ins 0) ≡ some c
      → run.read_ea + class_bytes c ≤ max_addr + 1
      → Form p ins run
  store :
      (d : Class)
      → (p.memory_operand_count ins == 0) ≡ false
      → p.operand_is_memory ins 1 ≡ false
      → class_of (p.operand_reg ins 1) ≡ some d
      → run.write_ea + class_bytes d ≤ max_addr + 1
      → Form p ins run

module _ {p : Pin} {ins : p.Ins} {run : Run} where
  -- The blocks of memory that the target may take.
  abbrev pub price : Form p ins run → ℕ
  price (regs c d _ _ _ _) = 0
  price (load c _ _ _ _) = 0
  price (store d _ _ _ _) = 2 * class_bytes d

module _ {o : TagTraits} where
  pub insert_call-Ends :
      (P : State o → Type 0) (s : State o) (run : Run) (f : Run → Cmd o (Unit {0}))
      → Ends P s (f run)
      → Ends P s (run_calls (insert_call f) run)
  unfolding run_calls
  insert_call-Ends P s run f (s', e, w) = (s', rw e refl, w)

  pub insert_call-Outcome :
      (m : TagModel o) (P : State o → Type 0) (s : State o) (run : Run) (f : Run → Cmd o (Unit {0}))
      → Outcome m (λ r. P r.1) (f run s)
      → Outcome m (λ r. P r.1) (run_calls (insert_call f) run s)
  unfolding run_calls
  insert_call-Outcome m P s run f w = Meaning.bind w λ r q. returns q
