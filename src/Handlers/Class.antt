-- ===== src/Handlers/Class.antt =====
-- What Pin documents of `REG_is_gr64` and its kin, on the registers that src/ins_helper.h lists.
use libdft64_ect.Prelude.{ℕ, ◌+◌, ◌≡◌, true, false, Option, none, some}
use libdft64_ect.Ins.Reg.{
  Reg, rdi, edi, di, dil, rsi, esi, si, sil, rbp, ebp, bp, bpl, rsp, esp, sp, spl, rax, eax, ax, ah,
  al, rbx, ebx, bx, bh, bl, rcx, ecx, cx, ch, cl, rdx, edx, dx, dh, dl, r8, r8d, r8w, r8b, r9, r9d,
  r9w, r9b, r10, r10d, r10w, r10b, r11, r11d, r11w, r11b, r12, r12d, r12w, r12b, r13, r13d, r13w,
  r13b, r14, r14d, r14w, r14b, r15, r15d, r15w, r15b, xmm0, ymm0, xmm1, ymm1, xmm2, ymm2, xmm3,
  ymm3, xmm4, ymm4, xmm5, ymm5, xmm6, ymm6, xmm7, ymm7, xmm8, ymm8, xmm9, ymm9, xmm10, ymm10, xmm11,
  ymm11, xmm12, ymm12, xmm13, ymm13, xmm14, ymm14, xmm15, ymm15, mm0, mm1, mm2, mm3, mm4, mm5, mm6,
  mm7, st0, st1, st2, st3, st4, st5, st6, st7, zmm0, zmm1, zmm2, zmm3, zmm4, zmm5, zmm6, zmm7,
  invalid, other,
}
use libdft64_ect.Handlers.Pin.{Pin}

-- The parts of registers that an instruction can name.
pub data Class : Type 0 where
  gr64 gr32 gr16 lower8 upper8 xmm_reg ymm_reg mm_reg : Class

-- The bytes of a part, and where they stand in its register.
abbrev pub class_bytes : Class → ℕ
class_bytes gr64 = 8
class_bytes gr32 = 4
class_bytes gr16 = 2
class_bytes lower8 = 1
class_bytes upper8 = 1
class_bytes xmm_reg = 16
class_bytes ymm_reg = 32
class_bytes mm_reg = 8

abbrev pub byte_at : Class → ℕ → ℕ
byte_at c i = elim c [ upper8 ↦ i + 1 | _ ↦ i ]

unfoldable pub class_of : Reg → Option Class
class_of rdi = some gr64
class_of edi = some gr32
class_of di = some gr16
class_of dil = some lower8
class_of rsi = some gr64
class_of esi = some gr32
class_of si = some gr16
class_of sil = some lower8
class_of rbp = some gr64
class_of ebp = some gr32
class_of bp = some gr16
class_of bpl = some lower8
class_of rsp = some gr64
class_of esp = some gr32
class_of sp = some gr16
class_of spl = some lower8
class_of rax = some gr64
class_of eax = some gr32
class_of ax = some gr16
class_of ah = some upper8
class_of al = some lower8
class_of rbx = some gr64
class_of ebx = some gr32
class_of bx = some gr16
class_of bh = some upper8
class_of bl = some lower8
class_of rcx = some gr64
class_of ecx = some gr32
class_of cx = some gr16
class_of ch = some upper8
class_of cl = some lower8
class_of rdx = some gr64
class_of edx = some gr32
class_of dx = some gr16
class_of dh = some upper8
class_of dl = some lower8
class_of r8 = some gr64
class_of r8d = some gr32
class_of r8w = some gr16
class_of r8b = some lower8
class_of r9 = some gr64
class_of r9d = some gr32
class_of r9w = some gr16
class_of r9b = some lower8
class_of r10 = some gr64
class_of r10d = some gr32
class_of r10w = some gr16
class_of r10b = some lower8
class_of r11 = some gr64
class_of r11d = some gr32
class_of r11w = some gr16
class_of r11b = some lower8
class_of r12 = some gr64
class_of r12d = some gr32
class_of r12w = some gr16
class_of r12b = some lower8
class_of r13 = some gr64
class_of r13d = some gr32
class_of r13w = some gr16
class_of r13b = some lower8
class_of r14 = some gr64
class_of r14d = some gr32
class_of r14w = some gr16
class_of r14b = some lower8
class_of r15 = some gr64
class_of r15d = some gr32
class_of r15w = some gr16
class_of r15b = some lower8
class_of xmm0 = some xmm_reg
class_of ymm0 = some ymm_reg
class_of xmm1 = some xmm_reg
class_of ymm1 = some ymm_reg
class_of xmm2 = some xmm_reg
class_of ymm2 = some ymm_reg
class_of xmm3 = some xmm_reg
class_of ymm3 = some ymm_reg
class_of xmm4 = some xmm_reg
class_of ymm4 = some ymm_reg
class_of xmm5 = some xmm_reg
class_of ymm5 = some ymm_reg
class_of xmm6 = some xmm_reg
class_of ymm6 = some ymm_reg
class_of xmm7 = some xmm_reg
class_of ymm7 = some ymm_reg
class_of xmm8 = some xmm_reg
class_of ymm8 = some ymm_reg
class_of xmm9 = some xmm_reg
class_of ymm9 = some ymm_reg
class_of xmm10 = some xmm_reg
class_of ymm10 = some ymm_reg
class_of xmm11 = some xmm_reg
class_of ymm11 = some ymm_reg
class_of xmm12 = some xmm_reg
class_of ymm12 = some ymm_reg
class_of xmm13 = some xmm_reg
class_of ymm13 = some ymm_reg
class_of xmm14 = some xmm_reg
class_of ymm14 = some ymm_reg
class_of xmm15 = some xmm_reg
class_of ymm15 = some ymm_reg
class_of mm0 = some mm_reg
class_of mm1 = some mm_reg
class_of mm2 = some mm_reg
class_of mm3 = some mm_reg
class_of mm4 = some mm_reg
class_of mm5 = some mm_reg
class_of mm6 = some mm_reg
class_of mm7 = some mm_reg
class_of st0 = none
class_of st1 = none
class_of st2 = none
class_of st3 = none
class_of st4 = none
class_of st5 = none
class_of st6 = none
class_of st7 = none
class_of zmm0 = none
class_of zmm1 = none
class_of zmm2 = none
class_of zmm3 = none
class_of zmm4 = none
class_of zmm5 = none
class_of zmm6 = none
class_of zmm7 = none
class_of invalid = none
class_of other = none

-- Pin's answers on a register of the class `c`.
pub record Answers (p : Pin) (r : Reg) (c : Class) : Type 0 where
  pub gr64_eq : p.is_gr64 r ≡ elim c [ gr64 ↦ true | _ ↦ false ]
  pub gr32_eq : p.is_gr32 r ≡ elim c [ gr32 ↦ true | _ ↦ false ]
  pub gr16_eq : p.is_gr16 r ≡ elim c [ gr16 ↦ true | _ ↦ false ]
  pub xmm_eq : p.is_xmm r ≡ elim c [ xmm_reg ↦ true | _ ↦ false ]
  pub ymm_eq : p.is_ymm r ≡ elim c [ ymm_reg ↦ true | _ ↦ false ]
  pub mm_eq : p.is_mm r ≡ elim c [ mm_reg ↦ true | _ ↦ false ]
  pub lower8_eq : p.is_lower8 r ≡ elim c [ lower8 ↦ true | _ ↦ false ]
  pub upper8_eq : p.is_upper8 r ≡ elim c [ upper8 ↦ true | _ ↦ false ]

abbrev pub PinLaws : Pin → Type 0
PinLaws p = (r : Reg) (c : Class) → class_of r ≡ some c → Answers p r c
