-- ===== src/Ins/Width.antt =====
-- The operand widths in the names of the analysis functions of src/ins_*.cpp.
use libdft64_ect.Prelude.{ℕ}

-- The suffixes `w`, `l`, `q`, `x` and `y`.
pub data Width : Type 0 where
  word long quad xmm ymm : Width

abbrev pub bytes : Width → ℕ
bytes word = 2
bytes long = 4
bytes quad = 8
bytes xmm = 16
bytes ymm = 32
