-- ===== src/Ins/Binary/Laws.antt =====
-- What the analysis functions of src/ins_binary_op.cpp do to the offsets of every location.
use libdft64_ect.Prelude.{
  ℕ, ◌+◌, ◌-◌, ◌*◌, ◌≤◌, ◌≡◌, refl, sym, ap, ◌∙◌, Bool, false, ◌&&◌, ◌||◌, none, some, ◌==◌, ltb,
  leb, if◌then◌else◌, arith, Bool-cases, inl, inr,
}
use libdft64_ect.Tag.{TagTraits}
use libdft64_ect.Tag.Laws.{TagLaws}
use libdft64_ect.TagMap.{max_addr}
use libdft64_ect.Machine.{State, Cmd, add64, combine, tagmap_setb_reg, tagmap_setb, ◌>>=◌}
use libdft64_ect.Machine.Effect.{Loc, reg, mem, look, getb-some}
use libdft64_ect.Machine.Meaning
use libdft64_ect.Machine.Meaning.{Outcome, returns, IsState, offsets, same_loc}
use libdft64_ect.Machine.Join.{
  for_up-Outcome, Joined, Joined-mono, with_offsets, into_reg-Outcome, into_mem-Outcome,
}
use libdft64_ect.Ins.Width.{Width, word, long, quad, xmm, ymm, bytes}
use libdft64_ect.Ins.Binary.{
  r2r_binary_loop, m2r_binary_loop, r2m_binary_loop, r2r_binary_opw, r2r_binary_opl, r2r_binary_opq,
  r2r_binary_opx, r2r_binary_opy, m2r_binary_opw, m2r_binary_opl, m2r_binary_opq, m2r_binary_opx,
  m2r_binary_opy, r2m_binary_opw, r2m_binary_opl, r2m_binary_opq, r2m_binary_opx, r2m_binary_opy,
}

module _ {o : TagTraits} where
  unfoldable pub r2r_binary : Width → ℕ → ℕ → ℕ → Cmd o (Unit {0})
  r2r_binary word = r2r_binary_opw
  r2r_binary long = r2r_binary_opl
  r2r_binary quad = r2r_binary_opq
  r2r_binary xmm = r2r_binary_opx
  r2r_binary ymm = r2r_binary_opy

  unfoldable pub m2r_binary : Width → ℕ → ℕ → ℕ → Cmd o (Unit {0})
  m2r_binary word = m2r_binary_opw
  m2r_binary long = m2r_binary_opl
  m2r_binary quad = m2r_binary_opq
  m2r_binary xmm = m2r_binary_opx
  m2r_binary ymm = m2r_binary_opy

  unfoldable pub r2m_binary : Width → ℕ → ℕ → ℕ → Cmd o (Unit {0})
  r2m_binary word = r2m_binary_opw
  r2m_binary long = r2m_binary_opl
  r2m_binary quad = r2m_binary_opq
  r2m_binary xmm = r2m_binary_opx
  r2m_binary ymm = r2m_binary_opy

module _ {o : TagTraits} (laws : TagLaws o) where
  -- The first `n` bytes of a register gain the offsets of the locations `src`.
  abbrev pub gain_reg : ℕ → ℕ → ℕ → (ℕ → Loc) → State o → Loc → ℕ → Bool
  gain_reg tid dst n src s (reg t q i) k =
      if t == tid && (q == dst && ltb i n)
      then offsets laws s (reg t q i) k || offsets laws s (src i) k
      else offsets laws s (reg t q i) k
  gain_reg tid dst n src s (mem a) k = offsets laws s (mem a) k

  -- The `n` bytes of memory from `addr` on gain those of a register.
  abbrev pub gain_mem : ℕ → ℕ → (ℕ → Loc) → State o → Loc → ℕ → Bool
  gain_mem addr n src s (reg t q i) k = offsets laws s (reg t q i) k
  gain_mem addr n src s (mem a) k =
      if leb addr a && ltb a (addr + n)
      then offsets laws s (mem a) k || offsets laws s (src (a - addr)) k
      else offsets laws s (mem a) k

  module _ (s : State o) (tid dst : ℕ) (src : ℕ → Loc) where
    -- One more byte of a register.
    gain_reg-step :
        (i : ℕ) (s' : State o) (b : o.Tag)
        → Joined laws s 0 (gain_reg tid dst i src s) s'
        → look s' (src i) ≡ some b
        → ((k : ℕ) → gain_reg tid dst i src s (src i) k ≡ offsets laws s (src i) k)
        → Outcome laws.model
            (λ r. Joined laws s 0 (gain_reg tid dst (i + 1) src s) r.1)
            ((combine (s'.gpr tid dst i) b tid >>= tagmap_setb_reg tid dst i) s')
    gain_reg-step i s' b j e unread =
        Meaning.mono
          (into_reg-Outcome laws s s' 0 _ j (s'.gpr tid dst i) b tid
            (j.wf.tags (reg tid dst i) _ refl) (j.wf.tags (src i) b e) tid dst i)
          λ r j'. Joined-mono laws s r.1 0 0 _ _ next refl j'
      where
        member_b : (k : ℕ) → laws.model.member s'.store b k ≡ offsets laws s (src i) k
        member_b k =
            sym (ap (λ x. elim x [ none ↦ false | some t ↦ laws.model.member s'.store t k ]) e)
            ∙ (j.same (src i) k ∙ unread k)

        next :
            (l : Loc) (k : ℕ)
            → with_offsets
                (reg tid dst i)
                (λ n.
                  laws.model.member s'.store (s'.gpr tid dst i) n || laws.model.member s'.store b n)
                (gain_reg tid dst i src s)
                l
                k
              ≡ gain_reg tid dst (i + 1) src s l k
        next (mem a) k = refl
        next (reg t q x) k = elim (Bool-cases (x == i)) [
          | inl hit ↦
              let same : x ≡ i = ground arith in
              rw same (ground (arith, member_b k, j.same (reg tid dst i) k))
          | inr miss ↦ ground arith
        ]

    gain_mem-step :
        (i : ℕ) (s' : State o) (a : o.Tag)
        → dst + i ≤ max_addr
        → 2 ≤ s'.dir.mem_left
        → Joined laws s (2 * i) (gain_mem dst i src s) s'
        → look s' (mem (dst + i)) ≡ some a
        → (b : o.Tag) → look s' (src i) ≡ some b
        → ((k : ℕ) → gain_mem dst i src s (src i) k ≡ offsets laws s (src i) k)
        → Outcome laws.model
            (λ r. Joined laws s (2 * (i + 1)) (gain_mem dst (i + 1) src s) r.1)
            ((combine a b tid >>= tagmap_setb (dst + i)) s')
    gain_mem-step i s' a h room j e b e' unread =
        Meaning.mono
          (into_mem-Outcome laws s s' (2 * i) _ j a b tid (j.wf.tags (mem (dst + i)) a e)
            (j.wf.tags (src i) b e') (dst + i) h room)
          λ r j'. Joined-mono laws s r.1 _ _ _ _ next (omega arith) j'
      where
        member_of :
            (l : Loc) (t : o.Tag)
            → look s' l ≡ some t
            → (k : ℕ) → laws.model.member s'.store t k ≡ gain_mem dst i src s l k
        member_of l t e k =
            sym (ap (λ x. elim x [ none ↦ false | some t ↦ laws.model.member s'.store t k ]) e)
            ∙ j.same l k

        next :
            (l : Loc) (k : ℕ)
            → with_offsets
                (mem (dst + i))
                (λ n. laws.model.member s'.store a n || laws.model.member s'.store b n)
                (gain_mem dst i src s)
                l
                k
              ≡ gain_mem dst (i + 1) src s l k
        next (reg t q x) k = refl
        next (mem x) k = elim (Bool-cases (x == dst + i)) [
          | inl hit ↦
              let same : x ≡ dst + i = ground arith in
              let at : dst + i - dst ≡ i = omega arith in
              rw (same, at)
                (ground
                  (arith, member_of (mem (dst + i)) a e k, member_of (src i) b e' k, unread k))
          | inr miss ↦ ground arith
        ]

  module _ (s : State o) (g : laws.model.Ghost) (ok : IsState laws s g) where
    start :
        (f : Loc → ℕ → Bool)
        → ((l : Loc) (n : ℕ) → offsets laws s l n ≡ f l n)
        → Joined laws s 0 f s
    start f same = record { ghost = g; wf = ok; same = same; memory = omega arith }

    gain_none :
        (tid dst : ℕ) (src : ℕ → Loc) (l : Loc) (n : ℕ)
        → offsets laws s l n ≡ gain_reg tid dst 0 src s l n
    gain_none tid dst src (mem a) n = refl
    gain_none tid dst src (reg t q i) n = ground arith

    gain_no_mem :
        (dst : ℕ) (src : ℕ → Loc) (l : Loc) (n : ℕ) → offsets laws s l n ≡ gain_mem dst 0 src s l n
    gain_no_mem dst src (mem a) n = ground arith
    gain_no_mem dst src (reg t q i) n = refl

    r2r_binary_loop-gains :
        (n tid dst src : ℕ)
        → Outcome laws.model
            (λ r. Joined laws s 0 (gain_reg tid dst n (reg tid src) s) r.1)
            (r2r_binary_loop n tid dst src s)
    unfolding r2r_binary_loop
    r2r_binary_loop-gains n tid dst src =
        for_up-Outcome laws.model (λ i. Joined laws s 0 (gain_reg tid dst i (reg tid src) s)) _ n
          (λ i s' h j.
            gain_reg-step s tid dst (reg tid src) i s' (s'.gpr tid src i) j refl
              (λ k. ground arith))
          n 0 s (omega arith)
          (start (gain_reg tid dst 0 (reg tid src) s) (gain_none tid dst (reg tid src)))

    m2r_binary_loop-gains :
        (n tid dst src : ℕ)
        → src + n ≤ max_addr + 1
        → Outcome laws.model
            (λ r. Joined laws s 0 (gain_reg tid dst n (λ i. mem (src + i)) s) r.1)
            (m2r_binary_loop n tid dst src s)
    unfolding m2r_binary_loop
    m2r_binary_loop-gains n tid dst src fits =
        for_up-Outcome laws.model (λ i. Joined laws s 0 (gain_reg tid dst i (λ x. mem (src + x)) s))
          _ n
          (λ i s' h j.
            let no_wrap : add64 src i ≡ src + i = omega arith in
            let (t, e, l) = getb-some s' (src + i) (omega arith) in
            rw (no_wrap, e) (gain_reg-step s tid dst (λ x. mem (src + x)) i s' t j l (λ k. refl)))
          n 0 s (omega arith) (start _ (gain_none tid dst (λ x. mem (src + x))))

    r2m_binary_loop-gains :
        (n tid dst src : ℕ)
        → dst + n ≤ max_addr + 1
        → 2 * n ≤ s.dir.mem_left
        → Outcome laws.model
            (λ r. Joined laws s (2 * n) (gain_mem dst n (reg tid src) s) r.1)
            (r2m_binary_loop n tid dst src s)
    unfolding r2m_binary_loop
    r2m_binary_loop-gains n tid dst src fits room =
        for_up-Outcome laws.model (λ i. Joined laws s (2 * i) (gain_mem dst i (reg tid src) s)) _ n
          (λ i s' h j.
            let no_wrap : add64 dst i ≡ dst + i = omega arith in
            let (t, e, l) = getb-some s' (dst + i) (omega arith) in
            rw (no_wrap, e)
              (gain_mem-step s tid dst (reg tid src) i s' t (omega arith) (omega (arith, j.memory))
                j l (s'.gpr tid src i) refl (λ k. refl)))
          n 0 s (omega arith) (start _ (gain_no_mem dst (reg tid src)))

    -- In a well-formed state, a binary operation on registers, at any width and also where both are one
    -- register, gives each of the first bytes of the target its offsets and those of the source; those
    -- of all else stay, and the state is well formed. It fails only where the tag library cannot
    -- combine two tags.
    pub r2r_binary-gains :
        (v : Width) (tid dst src : ℕ)
        → Outcome laws.model
            (λ r. Joined laws s 0 (gain_reg tid dst (bytes v) (reg tid src) s) r.1)
            (r2r_binary v tid dst src s)
    unfolding r2r_binary r2r_binary_opw r2r_binary_opl r2r_binary_opq r2r_binary_opx r2r_binary_opy
    r2r_binary-gains word tid dst src = r2r_binary_loop-gains 2 tid dst src
    r2r_binary-gains long tid dst src = r2r_binary_loop-gains 4 tid dst src
    r2r_binary-gains quad tid dst src = r2r_binary_loop-gains 8 tid dst src
    r2r_binary-gains xmm tid dst src = r2r_binary_loop-gains 16 tid dst src
    r2r_binary-gains ymm tid dst src = r2r_binary_loop-gains 32 tid dst src

    -- In a well-formed state, a binary operation with a source in user memory, at any
    -- width, gives each of the first bytes of the target its offsets and those of the source; those of
    -- all else stay, and the state is well formed. It fails only where the
    -- tag library cannot combine two tags.
    pub m2r_binary-gains :
        (v : Width) (tid dst src : ℕ)
        → src + bytes v ≤ max_addr + 1
        → Outcome laws.model
            (λ r. Joined laws s 0 (gain_reg tid dst (bytes v) (λ i. mem (src + i)) s) r.1)
            (m2r_binary v tid dst src s)
    unfolding m2r_binary m2r_binary_opw m2r_binary_opl m2r_binary_opq m2r_binary_opx m2r_binary_opy
    m2r_binary-gains word tid dst src h = m2r_binary_loop-gains 2 tid dst src h
    m2r_binary-gains long tid dst src h = m2r_binary_loop-gains 4 tid dst src h
    m2r_binary-gains quad tid dst src h = m2r_binary_loop-gains 8 tid dst src h
    m2r_binary-gains xmm tid dst src h = m2r_binary_loop-gains 16 tid dst src h
    m2r_binary-gains ymm tid dst src h = m2r_binary_loop-gains 32 tid dst src h

    -- In a well-formed state, a binary operation with a target in user memory, at any
    -- width, gives each of the first bytes of the target its offsets and those of the source; those of
    -- all else stay, and the state is well formed, if there is memory for the pages. It fails only where the
    -- tag library cannot combine two tags.
    pub r2m_binary-gains :
        (v : Width) (tid dst src : ℕ)
        → dst + bytes v ≤ max_addr + 1
        → 2 * bytes v ≤ s.dir.mem_left
        → Outcome laws.model
            (λ r. Joined laws s (2 * bytes v) (gain_mem dst (bytes v) (reg tid src) s) r.1)
            (r2m_binary v tid dst src s)
    unfolding r2m_binary r2m_binary_opw r2m_binary_opl r2m_binary_opq r2m_binary_opx r2m_binary_opy
    r2m_binary-gains word tid dst src h m = r2m_binary_loop-gains 2 tid dst src h m
    r2m_binary-gains long tid dst src h m = r2m_binary_loop-gains 4 tid dst src h m
    r2m_binary-gains quad tid dst src h m = r2m_binary_loop-gains 8 tid dst src h m
    r2m_binary-gains xmm tid dst src h m = r2m_binary_loop-gains 16 tid dst src h m
    r2m_binary-gains ymm tid dst src h m = r2m_binary_loop-gains 32 tid dst src h m
