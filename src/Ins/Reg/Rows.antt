-- ===== src/Ins/Reg/Rows.antt =====
-- The rows that `REG_INDX` of src/ins_helper.h gives.
use libdft64_ect.Prelude.{◌≤◌, arith}
use libdft64_ect.Ins.Reg.{
  Reg, reg_indx, grp_num, rdi, edi, di, dil, rsi, esi, si, sil, rbp, ebp, bp, bpl, rsp, esp, sp,
  spl, rax, eax, ax, ah, al, rbx, ebx, bx, bh, bl, rcx, ecx, cx, ch, cl, rdx, edx, dx, dh, dl, r8,
  r8d, r8w, r8b, r9, r9d, r9w, r9b, r10, r10d, r10w, r10b, r11, r11d, r11w, r11b, r12, r12d, r12w,
  r12b, r13, r13d, r13w, r13b, r14, r14d, r14w, r14b, r15, r15d, r15w, r15b, xmm0, ymm0, xmm1, ymm1,
  xmm2, ymm2, xmm3, ymm3, xmm4, ymm4, xmm5, ymm5, xmm6, ymm6, xmm7, ymm7, xmm8, ymm8, xmm9, ymm9,
  xmm10, ymm10, xmm11, ymm11, xmm12, ymm12, xmm13, ymm13, xmm14, ymm14, xmm15, ymm15, mm0, st0, mm1,
  st1, mm2, st2, mm3, st3, mm4, st4, mm5, st5, mm6, st6, mm7, st7, zmm0, zmm1, zmm2, zmm3, zmm4,
  zmm5, zmm6, zmm7, invalid, other,
}

-- What holds of each name.
record Row (r : Reg) : Type 0 where
  above : 3 ≤ reg_indx r
  inside : reg_indx r ≤ grp_num

row : (r : Reg) → Row r
unfolding reg_indx
row rdi = record { above = omega arith; inside = omega arith }
row edi = record { above = omega arith; inside = omega arith }
row di = record { above = omega arith; inside = omega arith }
row dil = record { above = omega arith; inside = omega arith }
row rsi = record { above = omega arith; inside = omega arith }
row esi = record { above = omega arith; inside = omega arith }
row si = record { above = omega arith; inside = omega arith }
row sil = record { above = omega arith; inside = omega arith }
row rbp = record { above = omega arith; inside = omega arith }
row ebp = record { above = omega arith; inside = omega arith }
row bp = record { above = omega arith; inside = omega arith }
row bpl = record { above = omega arith; inside = omega arith }
row rsp = record { above = omega arith; inside = omega arith }
row esp = record { above = omega arith; inside = omega arith }
row sp = record { above = omega arith; inside = omega arith }
row spl = record { above = omega arith; inside = omega arith }
row rax = record { above = omega arith; inside = omega arith }
row eax = record { above = omega arith; inside = omega arith }
row ax = record { above = omega arith; inside = omega arith }
row ah = record { above = omega arith; inside = omega arith }
row al = record { above = omega arith; inside = omega arith }
row rbx = record { above = omega arith; inside = omega arith }
row ebx = record { above = omega arith; inside = omega arith }
row bx = record { above = omega arith; inside = omega arith }
row bh = record { above = omega arith; inside = omega arith }
row bl = record { above = omega arith; inside = omega arith }
row rcx = record { above = omega arith; inside = omega arith }
row ecx = record { above = omega arith; inside = omega arith }
row cx = record { above = omega arith; inside = omega arith }
row ch = record { above = omega arith; inside = omega arith }
row cl = record { above = omega arith; inside = omega arith }
row rdx = record { above = omega arith; inside = omega arith }
row edx = record { above = omega arith; inside = omega arith }
row dx = record { above = omega arith; inside = omega arith }
row dh = record { above = omega arith; inside = omega arith }
row dl = record { above = omega arith; inside = omega arith }
row r8 = record { above = omega arith; inside = omega arith }
row r8d = record { above = omega arith; inside = omega arith }
row r8w = record { above = omega arith; inside = omega arith }
row r8b = record { above = omega arith; inside = omega arith }
row r9 = record { above = omega arith; inside = omega arith }
row r9d = record { above = omega arith; inside = omega arith }
row r9w = record { above = omega arith; inside = omega arith }
row r9b = record { above = omega arith; inside = omega arith }
row r10 = record { above = omega arith; inside = omega arith }
row r10d = record { above = omega arith; inside = omega arith }
row r10w = record { above = omega arith; inside = omega arith }
row r10b = record { above = omega arith; inside = omega arith }
row r11 = record { above = omega arith; inside = omega arith }
row r11d = record { above = omega arith; inside = omega arith }
row r11w = record { above = omega arith; inside = omega arith }
row r11b = record { above = omega arith; inside = omega arith }
row r12 = record { above = omega arith; inside = omega arith }
row r12d = record { above = omega arith; inside = omega arith }
row r12w = record { above = omega arith; inside = omega arith }
row r12b = record { above = omega arith; inside = omega arith }
row r13 = record { above = omega arith; inside = omega arith }
row r13d = record { above = omega arith; inside = omega arith }
row r13w = record { above = omega arith; inside = omega arith }
row r13b = record { above = omega arith; inside = omega arith }
row r14 = record { above = omega arith; inside = omega arith }
row r14d = record { above = omega arith; inside = omega arith }
row r14w = record { above = omega arith; inside = omega arith }
row r14b = record { above = omega arith; inside = omega arith }
row r15 = record { above = omega arith; inside = omega arith }
row r15d = record { above = omega arith; inside = omega arith }
row r15w = record { above = omega arith; inside = omega arith }
row r15b = record { above = omega arith; inside = omega arith }
row xmm0 = record { above = omega arith; inside = omega arith }
row ymm0 = record { above = omega arith; inside = omega arith }
row xmm1 = record { above = omega arith; inside = omega arith }
row ymm1 = record { above = omega arith; inside = omega arith }
row xmm2 = record { above = omega arith; inside = omega arith }
row ymm2 = record { above = omega arith; inside = omega arith }
row xmm3 = record { above = omega arith; inside = omega arith }
row ymm3 = record { above = omega arith; inside = omega arith }
row xmm4 = record { above = omega arith; inside = omega arith }
row ymm4 = record { above = omega arith; inside = omega arith }
row xmm5 = record { above = omega arith; inside = omega arith }
row ymm5 = record { above = omega arith; inside = omega arith }
row xmm6 = record { above = omega arith; inside = omega arith }
row ymm6 = record { above = omega arith; inside = omega arith }
row xmm7 = record { above = omega arith; inside = omega arith }
row ymm7 = record { above = omega arith; inside = omega arith }
row xmm8 = record { above = omega arith; inside = omega arith }
row ymm8 = record { above = omega arith; inside = omega arith }
row xmm9 = record { above = omega arith; inside = omega arith }
row ymm9 = record { above = omega arith; inside = omega arith }
row xmm10 = record { above = omega arith; inside = omega arith }
row ymm10 = record { above = omega arith; inside = omega arith }
row xmm11 = record { above = omega arith; inside = omega arith }
row ymm11 = record { above = omega arith; inside = omega arith }
row xmm12 = record { above = omega arith; inside = omega arith }
row ymm12 = record { above = omega arith; inside = omega arith }
row xmm13 = record { above = omega arith; inside = omega arith }
row ymm13 = record { above = omega arith; inside = omega arith }
row xmm14 = record { above = omega arith; inside = omega arith }
row ymm14 = record { above = omega arith; inside = omega arith }
row xmm15 = record { above = omega arith; inside = omega arith }
row ymm15 = record { above = omega arith; inside = omega arith }
row mm0 = record { above = omega arith; inside = omega arith }
row st0 = record { above = omega arith; inside = omega arith }
row mm1 = record { above = omega arith; inside = omega arith }
row st1 = record { above = omega arith; inside = omega arith }
row mm2 = record { above = omega arith; inside = omega arith }
row st2 = record { above = omega arith; inside = omega arith }
row mm3 = record { above = omega arith; inside = omega arith }
row st3 = record { above = omega arith; inside = omega arith }
row mm4 = record { above = omega arith; inside = omega arith }
row st4 = record { above = omega arith; inside = omega arith }
row mm5 = record { above = omega arith; inside = omega arith }
row st5 = record { above = omega arith; inside = omega arith }
row mm6 = record { above = omega arith; inside = omega arith }
row st6 = record { above = omega arith; inside = omega arith }
row mm7 = record { above = omega arith; inside = omega arith }
row st7 = record { above = omega arith; inside = omega arith }
row zmm0 = record { above = omega arith; inside = omega arith }
row zmm1 = record { above = omega arith; inside = omega arith }
row zmm2 = record { above = omega arith; inside = omega arith }
row zmm3 = record { above = omega arith; inside = omega arith }
row zmm4 = record { above = omega arith; inside = omega arith }
row zmm5 = record { above = omega arith; inside = omega arith }
row zmm6 = record { above = omega arith; inside = omega arith }
row zmm7 = record { above = omega arith; inside = omega arith }
row invalid = record { above = omega arith; inside = omega arith }
row other = record { above = omega arith; inside = omega arith }

-- Every row is one of the register file, and none is one of the three scratch registers.
pub reg_indx_bounds : (r : Reg) → (3 ≤ reg_indx r) × (reg_indx r ≤ grp_num)
reg_indx_bounds r = let a = row r in (a.above, a.inside)
