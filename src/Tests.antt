-- ===== src/Tests.antt =====
-- Runs of the tag map of src/tagmap.cpp and of the analysis functions of src/ins_*.cpp, with the
-- tags `uint8_t` of src/tag_trait.cpp.
use libdft64_ect.Prelude.{
  ◌≤◌, ℕ, ◌+◌, ◌-◌, ◌%◌, ◌≡◌, refl, ◌⊎◌, none, some, ◌&&◌, ◌==◌, if◌then◌else◌, arith,
}
use libdft64_ect.Tag.Instances.{uint8_traits, uint8_model, uint8_laws, zero_of}
use libdft64_ect.TagMap.{TagDir, tag_dir_getb_as_ptr}
use libdft64_ect.Machine.{State, tagmap_clrn, tagmap_getn, tagmap_getn_reg}
use libdft64_ect.Machine.Loop.{Ends}
use libdft64_ect.Machine.Effect.{Loc, reg, mem, look, to_reg, to_mem, Became}
use libdft64_ect.Machine.Clear.{tagmap_clrn-clears}
use libdft64_ect.Machine.Meaning.{Outcome, IsState, Combined}
use libdft64_ect.Machine.Getn.{any_offsets, tagmap_getn-union, tagmap_getn_reg-union}
use libdft64_ect.Machine.Join.{Joined}
use libdft64_ect.Ins.Width.{word, long, quad, ymm}
use libdft64_ect.Ins.Xfer.{dft_reg_rax}
use libdft64_ect.Ins.Xfer.Moves.{r2r_xfer, r2m_xfer, r2r_xfer-copies, r2m_xfer-copies}
use libdft64_ect.Ins.Clear.Laws.{r_clr, cleared, is_cpuid, r_clr-clears, r_clrl4-clears}
use libdft64_ect.Ins.Clear.{r_clrl4}
use libdft64_ect.Ins.Binary.Laws.{
  r2r_binary, r2m_binary, gain_reg, gain_mem, r2r_binary-gains, r2m_binary-gains,
}
use libdft64_ect.Ins.Stos.Laws.{of_word, lowest, rep_stos, rep_stos-fills}
use libdft64_ect.Ins.Movsx.Laws.{qw, movsx_r2r, movsx_r2r-repeats}
use libdft64_ect.Ins.Movsx.Loads.{ql_load, movsx_m2r, movsx_m2r-repeats}
use libdft64_ect.Ins.Xchg.Bytes.{upper_lower, traded, xchg_pair, xchg_pair-swaps}
use libdft64_ect.Ins.Xchg.Swap.{l4, q8, first_bytes, exchanged, xchg_mem, xchg_mem-swaps}
use libdft64_ect.Ins.Xchg.Regs.{wide_quad, swapped, xchg_regs, xchg_regs-swaps}
use libdft64_ect.Ins.Xchg.Compare.{compared, same_values, cmpxchg_regs, cmpxchg_regs-moves}
use libdft64_ect.Ins.Reg.{reg_indx, grp_num, ymm15}
use libdft64_ect.Ins.Reg.Rows.{reg_indx_bounds}
use libdft64_ect.Ins.Movbe.Stores.{reversed, r2m_rev, r2m_rev-reverses}
use libdft64_ect.Ins.Movbe.Laws.{swap_long, m2r_rev, m2r_rev-reverses}

-- No page, and then one byte of taint at 0x1000.
abbrev empty_dir : TagDir ℕ
empty_dir = record { table = λ _. none; mem_left = 100 }

abbrev tainted_page : ℕ → ℕ
tainted_page i = if i == 0 then 1 else 0

abbrev tainted_dir : TagDir ℕ
tainted_dir = record {
  table = λ i. if i == 0 then some (λ j. if j == 1 then some tainted_page else none) else none;
  mem_left = 98;
}

-- `RAX` of thread 0 has taint in its second byte.
abbrev start : State uint8_traits
start = record {
  gpr = λ t q i. if t == 0 && (q == 10 && i == 1) then 1 else 0;
  dir = tainted_dir;
  store = tt;
}

start-IsState : IsState uint8_laws start tt
unfolding tag_dir_getb_as_ptr
start-IsState = record { store = tt; tags = known }
  where
    known : (l : Loc) (t : ℕ) → look start l ≡ some t → (t ≡ 0) ⊎ (t ≡ 1)
    known (reg t' q i) t e = ground arith
    known (mem a) t e = ground arith

r2r_binary-gains_example :
    Outcome uint8_model
      (λ r. Joined uint8_laws start 0 (gain_reg uint8_laws 0 8 4 (reg 0 10) start) r.1)
      (r2r_binary long 0 8 10 start)
r2r_binary-gains_example = r2r_binary-gains uint8_laws start tt start-IsState long 0 8 10

r2m_binary-gains_example :
    Outcome uint8_model
      (λ r. Joined uint8_laws start 8 (gain_mem uint8_laws 4094 4 (reg 0 10) start) r.1)
      (r2m_binary long 0 4094 10 start)
r2m_binary-gains_example =
    r2m_binary-gains uint8_laws start tt start-IsState long 0 4094 10 (omega arith) (omega arith)

tagmap_getn-union_example :
    Outcome uint8_model
      (Combined uint8_laws start tt (any_offsets uint8_laws start (λ i. mem (4094 + i)) 4 0))
      (tagmap_getn 4094 4 start)
tagmap_getn-union_example = tagmap_getn-union uint8_laws start tt start-IsState 4094 4 (omega arith)

tagmap_getn_reg-union_example :
    Outcome uint8_model
      (Combined uint8_laws start tt (any_offsets uint8_laws start (reg 0 10) 4 0))
      (tagmap_getn_reg 0 10 4 start)
tagmap_getn_reg-union_example = tagmap_getn_reg-union uint8_laws start tt start-IsState 0 10 4

r2r_xfer-copies_example :
    Ends
      (Became start 0 (to_reg 0 8 8 (λ i. look start (reg 0 10 i)) start))
      start
      (r2r_xfer quad 0 8 10)
r2r_xfer-copies_example = r2r_xfer-copies start quad 0 8 10

r2m_xfer-copies_example :
    Ends
      (Became start 4 (to_mem 4095 2 (λ i. look start (reg 0 10 i)) start))
      start
      (r2m_xfer word 0 4095 10)
r2m_xfer-copies_example = r2m_xfer-copies start zero_of word 0 4095 10 (omega arith) (omega arith)

rep_stos-fills_example :
    Ends
      (Became start 12
        (to_mem (lowest 5000 6 0x400) 6 (λ i. look start (reg 0 dft_reg_rax (i % 2))) start))
      start
      (rep_stos of_word 0 5000 3 0x400)
rep_stos-fills_example =
    rep_stos-fills start zero_of of_word 0 5000 3 0x400 (omega arith) (omega arith) (omega arith)

tagmap_clrn-clears_example :
    Ends (Became start 0 (to_mem 4094 4 (λ _. some 0) start)) start (tagmap_clrn 4094 4)
tagmap_clrn-clears_example = tagmap_clrn-clears start 4094 4 zero_of refl (omega arith)

m2r_rev-reverses_example :
    Ends
      (Became start 0 (to_reg 0 8 4 (λ i. look start (mem (4094 + (3 - i)))) start))
      start
      (m2r_rev swap_long 0 8 4094)
m2r_rev-reverses_example = m2r_rev-reverses start swap_long 0 8 4094 (omega arith)

r_clr-clears_example :
    Ends (Became start 0 (to_reg 0 10 16 (λ _. some 0) start)) start (r_clr ymm 0 10)
r_clr-clears_example = r_clr-clears start ymm 0 10

r_clrl4-clears_example : Ends (Became start 0 (cleared is_cpuid 0 8 start)) start (r_clrl4 0)
r_clrl4-clears_example = r_clrl4-clears start 0

movsx_r2r-repeats_example :
    Ends
      (Became start 0 (to_reg 0 10 8 (λ i. look start (reg 0 10 (i % 2))) start))
      start
      (movsx_r2r qw 0 10 10)
movsx_r2r-repeats_example = movsx_r2r-repeats start qw 0 10 10

movsx_m2r-repeats_example :
    Ends
      (Became start 0 (to_reg 0 8 8 (λ i. look start (mem (4094 + i % 4))) start))
      start
      (movsx_m2r ql_load 0 8 4094)
movsx_m2r-repeats_example = movsx_m2r-repeats start ql_load 0 8 4094 (omega arith)

cmpxchg_regs-moves_example :
    Ends
      (Became start 0 (compared 0 8 8 8 9 (same_values q8 5 5) start))
      start
      (cmpxchg_regs q8 0 5 8 5 9)
cmpxchg_regs-moves_example = cmpxchg_regs-moves start q8 0 5 8 5 9 (omega arith) (omega arith)

xchg_regs-swaps_example :
    Ends (Became start 0 (swapped 0 10 8 8 start)) start (xchg_regs wide_quad 0 10 8)
xchg_regs-swaps_example = xchg_regs-swaps start wide_quad 0 10 8 (omega arith) (omega arith)

xchg_mem-swaps_example :
    Ends
      (Became start 8 (exchanged 0 10 0 4094 4 start))
      start
      (xchg_mem (first_bytes l4) 0 10 4094)
xchg_mem-swaps_example =
    xchg_mem-swaps start zero_of (first_bytes l4) 0 10 4094 (omega arith) (omega arith)

xchg_pair-swaps_example :
    Ends (Became start 0 (traded 0 1 10 1 10 0 start)) start (xchg_pair upper_lower 0 10 10)
xchg_pair-swaps_example = xchg_pair-swaps start upper_lower 0 10 10

r2m_rev-reverses_example :
    Ends (Became start 8 (reversed 0 10 4094 4097 start)) start (r2m_rev swap_long 0 4094 10)
r2m_rev-reverses_example =
    r2m_rev-reverses start zero_of 0 10 swap_long 4094 (omega arith) (omega arith)

reg_indx_bounds_example : (3 ≤ reg_indx ymm15) × (reg_indx ymm15 ≤ grp_num)
reg_indx_bounds_example = reg_indx_bounds ymm15
