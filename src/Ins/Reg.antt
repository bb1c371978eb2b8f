-- ===== src/Ins/Reg.antt =====
-- `REG_INDX` of src/ins_helper.h: the row of a register of Pin in the register file.
pub mod Rows
use libdft64_ect.Prelude.{ℕ}

-- The values of Pin's `REG` that the source names, without the prefix `REG_`; `invalid` is
-- `REG_INVALID()`, and `other` stands for the rest.
pub data Reg : Type 0 where
  rdi edi di dil : Reg
  rsi esi si sil : Reg
  rbp ebp bp bpl : Reg
  rsp esp sp spl : Reg
  rax eax ax ah al : Reg
  rbx ebx bx bh bl : Reg
  rcx ecx cx ch cl : Reg
  rdx edx dx dh dl : Reg
  r8 r8d r8w r8b : Reg
  r9 r9d r9w r9b : Reg
  r10 r10d r10w r10b : Reg
  r11 r11d r11w r11b : Reg
  r12 r12d r12w r12b : Reg
  r13 r13d r13w r13b : Reg
  r14 r14d r14w r14b : Reg
  r15 r15d r15w r15b : Reg
  xmm0 ymm0 : Reg
  xmm1 ymm1 : Reg
  xmm2 ymm2 : Reg
  xmm3 ymm3 : Reg
  xmm4 ymm4 : Reg
  xmm5 ymm5 : Reg
  xmm6 ymm6 : Reg
  xmm7 ymm7 : Reg
  xmm8 ymm8 : Reg
  xmm9 ymm9 : Reg
  xmm10 ymm10 : Reg
  xmm11 ymm11 : Reg
  xmm12 ymm12 : Reg
  xmm13 ymm13 : Reg
  xmm14 ymm14 : Reg
  xmm15 ymm15 : Reg
  mm0 st0 : Reg
  mm1 st1 : Reg
  mm2 st2 : Reg
  mm3 st3 : Reg
  mm4 st4 : Reg
  mm5 st5 : Reg
  mm6 st6 : Reg
  mm7 st7 : Reg
  zmm0 zmm1 zmm2 zmm3 zmm4 zmm5 zmm6 zmm7 : Reg
  invalid other : Reg

-- The rows of the register file less one.
abbrev pub grp_num : ℕ
grp_num = 43

unfoldable pub reg_indx : Reg → ℕ
reg_indx invalid = grp_num
reg_indx rdi = 3
reg_indx edi = 3
reg_indx di = 3
reg_indx dil = 3
reg_indx rsi = 4
reg_indx esi = 4
reg_indx si = 4
reg_indx sil = 4
reg_indx rbp = 5
reg_indx ebp = 5
reg_indx bp = 5
reg_indx bpl = 5
reg_indx rsp = 6
reg_indx esp = 6
reg_indx sp = 6
reg_indx spl = 6
reg_indx rax = 10
reg_indx eax = 10
reg_indx ax = 10
reg_indx ah = 10
reg_indx al = 10
reg_indx rbx = 7
reg_indx ebx = 7
reg_indx bx = 7
reg_indx bh = 7
reg_indx bl = 7
reg_indx rcx = 9
reg_indx ecx = 9
reg_indx cx = 9
reg_indx ch = 9
reg_indx cl = 9
reg_indx rdx = 8
reg_indx edx = 8
reg_indx dx = 8
reg_indx dh = 8
reg_indx dl = 8
reg_indx r8 = 11
reg_indx r8d = 11
reg_indx r8w = 11
reg_indx r8b = 11
reg_indx r9 = 12
reg_indx r9d = 12
reg_indx r9w = 12
reg_indx r9b = 12
reg_indx r10 = 13
reg_indx r10d = 13
reg_indx r10w = 13
reg_indx r10b = 13
reg_indx r11 = 14
reg_indx r11d = 14
reg_indx r11w = 14
reg_indx r11b = 14
reg_indx r12 = 15
reg_indx r12d = 15
reg_indx r12w = 15
reg_indx r12b = 15
reg_indx r13 = 16
reg_indx r13d = 16
reg_indx r13w = 16
reg_indx r13b = 16
reg_indx r14 = 17
reg_indx r14d = 17
reg_indx r14w = 17
reg_indx r14b = 17
reg_indx r15 = 18
reg_indx r15d = 18
reg_indx r15w = 18
reg_indx r15b = 18
reg_indx xmm0 = 19
reg_indx ymm0 = 19
reg_indx xmm1 = 20
reg_indx ymm1 = 20
reg_indx xmm2 = 21
reg_indx ymm2 = 21
reg_indx xmm3 = 22
reg_indx ymm3 = 22
reg_indx xmm4 = 23
reg_indx ymm4 = 23
reg_indx xmm5 = 24
reg_indx ymm5 = 24
reg_indx xmm6 = 25
reg_indx ymm6 = 25
reg_indx xmm7 = 26
reg_indx ymm7 = 26
reg_indx xmm8 = 27
reg_indx ymm8 = 27
reg_indx xmm9 = 28
reg_indx ymm9 = 28
reg_indx xmm10 = 29
reg_indx ymm10 = 29
reg_indx xmm11 = 30
reg_indx ymm11 = 30
reg_indx xmm12 = 31
reg_indx ymm12 = 31
reg_indx xmm13 = 32
reg_indx ymm13 = 32
reg_indx xmm14 = 33
reg_indx ymm14 = 33
reg_indx xmm15 = 34
reg_indx ymm15 = 34
reg_indx mm0 = 35
reg_indx st0 = 35
reg_indx mm1 = 36
reg_indx st1 = 36
reg_indx mm2 = 37
reg_indx st2 = 37
reg_indx mm3 = 38
reg_indx st3 = 38
reg_indx mm4 = 39
reg_indx st4 = 39
reg_indx mm5 = 40
reg_indx st5 = 40
reg_indx mm6 = 41
reg_indx st6 = 41
reg_indx mm7 = 42
reg_indx st7 = 42
reg_indx zmm0 = grp_num
reg_indx zmm1 = grp_num
reg_indx zmm2 = grp_num
reg_indx zmm3 = grp_num
reg_indx zmm4 = grp_num
reg_indx zmm5 = grp_num
reg_indx zmm6 = grp_num
reg_indx zmm7 = grp_num
reg_indx other = grp_num
