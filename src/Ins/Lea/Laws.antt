-- ===== src/Ins/Lea/Laws.antt =====
-- What the analysis functions for `LEA` of src/ins_xfer_op.cpp do to the offsets of every location.
use libdft64_ect.Prelude.{ℕ, Bool, ◌&&◌, ◌||◌, ◌==◌, ltb, if◌then◌else◌}
use libdft64_ect.Tag.{TagTraits}
use libdft64_ect.Tag.Laws.{TagLaws}
use libdft64_ect.Machine.{State, Cmd}
use libdft64_ect.Machine.Effect.{Loc, reg, mem}
use libdft64_ect.Machine.Meaning
use libdft64_ect.Machine.Meaning.{offsets, same_loc}
use libdft64_ect.Ins.Lea.{lea_opw, lea_opl, lea_opq}

-- The functions, by their width.
pub data LeaSize : Type 0 where
  lea_word lea_long lea_quad : LeaSize

abbrev pub lea_bytes : LeaSize → ℕ
lea_bytes lea_word = 2
lea_bytes lea_long = 4
lea_bytes lea_quad = 8

module _ {o : TagTraits} where
  unfoldable pub lea_op : LeaSize → ℕ → ℕ → ℕ → ℕ → Cmd o (Unit {0})
  lea_op lea_word = lea_opw
  lea_op lea_long = lea_opl
  lea_op lea_quad = lea_opq

module _ {o : TagTraits} (laws : TagLaws o) where
  -- The first `n` bytes of a register have the offsets of two others.
  abbrev pub joined_reg : ℕ → ℕ → ℕ → ℕ → ℕ → State o → Loc → ℕ → Bool
  joined_reg tid dst n base index s (reg t q i) k =
      if t == tid && (q == dst && ltb i n)
      then offsets laws s (reg tid base i) k || offsets laws s (reg tid index i) k
      else offsets laws s (reg t q i) k
  joined_reg tid dst n base index s (mem a) k = offsets laws s (mem a) k
