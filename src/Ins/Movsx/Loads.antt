-- ===== src/Ins/Movsx/Loads.antt =====
-- What the memory forms of src/ins_movsx_op.cpp do to every tag.
use libdft64_ect.Prelude.{ℕ, ◌+◌, ◌%◌, ◌≤◌, ◌≡◌, some, arith, ◌==◌, Bool-cases, inl, inr}
use libdft64_ect.Tag.{TagTraits}
use libdft64_ect.TagMap.{max_addr}
use libdft64_ect.Machine.{State, Cmd, add64, tagmap_getb, ◌>>=◌}
use libdft64_ect.Machine.Loop.{Ends}
use libdft64_ect.Machine.Effect.{mem, look, to_reg, Became, getb-some}
use libdft64_ect.Ins.Movsx.{
  fill_reg, pick2, pick4, movsx_m2r_opwb, movsx_m2r_oplb, movsx_m2r_opqb, movsx_m2r_oplw,
  movsx_m2r_opqw, movsx_m2r_opql,
}
use libdft64_ect.Ins.Movsx.Laws.{fill_reg-Ends, two-Ends}

-- The memory forms.
pub data Load : Type 0 where
  wb lb qb lw_load qw_load ql_load : Load

abbrev pub loaded : Load → ℕ
loaded wb = 2
loaded lb = 4
loaded qb = 8
loaded lw_load = 4
loaded qw_load = 8
loaded ql_load = 8

-- The bytes of memory.
abbrev pub operand : Load → ℕ
operand wb = 1
operand lb = 1
operand qb = 1
operand lw_load = 2
operand qw_load = 2
operand ql_load = 4

module _ {o : TagTraits} where
  unfoldable pub movsx_m2r : Load → ℕ → ℕ → ℕ → Cmd o (Unit {0})
  movsx_m2r wb = movsx_m2r_opwb
  movsx_m2r lb = movsx_m2r_oplb
  movsx_m2r qb = movsx_m2r_opqb
  movsx_m2r lw_load = movsx_m2r_oplw
  movsx_m2r qw_load = movsx_m2r_opqw
  movsx_m2r ql_load = movsx_m2r_opql

  module _ (s : State o) where
    pub getb-at :
        (addr i : ℕ)
        → addr + i ≤ max_addr
        → (t : o.Tag) × (tagmap_getb (add64 addr i) s ≡ some (t, s))
          × (look s (mem (addr + i)) ≡ some t)
    getb-at addr i h =
        let no_wrap : add64 addr i ≡ addr + i = omega arith in rw no_wrap (getb-some s (addr + i) h)

    byte-at : (addr : ℕ) (t : o.Tag) → look s (mem addr) ≡ some t → look s (mem (addr + 0)) ≡ some t
    byte-at addr t l = let none_on : addr + 0 ≡ addr = omega arith in rw none_on l

    word-at :
        (addr i : ℕ) (t0 t1 : o.Tag)
        → look s (mem addr) ≡ some t0
        → look s (mem (addr + 1)) ≡ some t1
        → look s (mem (addr + i % 2)) ≡ some (pick2 t0 t1 i)
    word-at addr i t0 t1 l0 l1 = elim (Bool-cases (i % 2 == 0)) [
      | inl even ↦ let e : i % 2 ≡ 0 = ground arith in rw e (byte-at addr t0 l0)
      | inr odd ↦ let e : i % 2 ≡ 1 = ground arith in rw e l1
    ]

    long-at :
        (addr i : ℕ) (t0 t1 t2 t3 : o.Tag)
        → look s (mem addr) ≡ some t0
        → look s (mem (addr + 1)) ≡ some t1
        → look s (mem (addr + 2)) ≡ some t2
        → look s (mem (addr + 3)) ≡ some t3
        → look s (mem (addr + i % 4)) ≡ some (pick4 t0 t1 t2 t3 i)
    long-at addr i t0 t1 t2 t3 l0 l1 l2 l3 = elim (Bool-cases (i % 4 == 0)) [
      | inl h ↦ let e : i % 4 ≡ 0 = ground arith in rw e (byte-at addr t0 l0)
      | inr h0 ↦ elim (Bool-cases (i % 4 == 1)) [
        | inl h ↦ let e : i % 4 ≡ 1 = ground arith in rw e l1
        | inr h1 ↦ elim (Bool-cases (i % 4 == 2)) [
          | inl h ↦ let e : i % 4 ≡ 2 = ground arith in rw e l2
          | inr h2 ↦ let e : i % 4 ≡ 3 = ground arith in rw e l3
        ]
      ]
    ]

    one-Ends :
        (n tid dst src : ℕ)
        → src ≤ max_addr
        → Ends
            (Became s 0 (to_reg tid dst n (λ i. look s (mem (src + i % 1))) s))
            s
            (tagmap_getb src >>= λ t. fill_reg n tid dst (λ _. t))
    one-Ends n tid dst src h =
        let (t, e, l) = getb-some s src h in
        rw e (
          fill_reg-Ends s n tid dst (λ _. t) _
            λ i k. let at : i % 1 ≡ 0 = omega arith in rw at (byte-at src t l))

    word-Ends :
        (n tid dst src : ℕ)
        → src + 1 ≤ max_addr
        → Ends (Became s 0 (to_reg tid dst n (λ i. look s (mem (src + i % 2))) s)) s (
            tagmap_getb src >>= λ t0.
            tagmap_getb (add64 src 1) >>= λ t1. fill_reg n tid dst (pick2 t0 t1))
    word-Ends n tid dst src h =
        let (t0, e0, l0) = getb-some s src (omega arith) in
        let (t1, e1, l1) = getb-at src 1 h in
        rw (e0, e1) (fill_reg-Ends s n tid dst (pick2 t0 t1) _ λ i k. word-at src i t0 t1 l0 l1)

    -- An extension from user memory gives the bytes of the register the tags of the operand's bytes over
    -- and over, and changes no other tag.
    pub movsx_m2r-repeats :
        (v : Load) (tid dst src : ℕ)
        → src + operand v ≤ max_addr + 1
        → Ends
            (Became s 0 (to_reg tid dst (loaded v) (λ i. look s (mem (src + i % operand v))) s))
            s
            (movsx_m2r v tid dst src)
    unfolding movsx_m2r movsx_m2r_opwb movsx_m2r_oplb movsx_m2r_opqb movsx_m2r_oplw movsx_m2r_opqw
        movsx_m2r_opql
    movsx_m2r-repeats wb tid dst src h =
        let (t, e, l) = getb-some s src (omega arith) in
        rw e
          (two-Ends s tid dst t _ λ i. let at : i % 1 ≡ 0 = omega arith in rw at (byte-at src t l))
    movsx_m2r-repeats lb tid dst src h = one-Ends 4 tid dst src (omega arith)
    movsx_m2r-repeats qb tid dst src h = one-Ends 8 tid dst src (omega arith)
    movsx_m2r-repeats lw_load tid dst src h = word-Ends 4 tid dst src (omega arith)
    movsx_m2r-repeats qw_load tid dst src h = word-Ends 8 tid dst src (omega arith)
    movsx_m2r-repeats ql_load tid dst src h =
        let (t0, e0, l0) = getb-some s src (omega arith) in
        let (t1, e1, l1) = getb-at src 1 (omega arith) in
        let (t2, e2, l2) = getb-at src 2 (omega arith) in
        let (t3, e3, l3) = getb-at src 3 (omega arith) in
        rw (e0, e1, e2, e3)
          (fill_reg-Ends s 8 tid dst (pick4 t0 t1 t2 t3) _
            λ i k. long-at src i t0 t1 t2 t3 l0 l1 l2 l3)
