-- ===== src/Fs/Blocks/Total.antt =====
-- Files that `file_truncate` can cut.
use mos_enhanced_shell.Base.{
  ℕ, zero, suc, ◌+◌, ◌-◌, ◌≤◌, ◌<◌, ◌≡◌, ◌≢◌, refl, ◌∙◌, sym, inl, inr, ◌⊎◌, true, false, Option,
  none, arith, ltb, leb, ◌==◌, if◌then◌else◌, Bool-cases, subst, ap,
}
use mos_enhanced_shell.Kernel.Result.{Error}
use mos_enhanced_shell.Kernel.Fallible.{done}
use mos_enhanced_shell.Fs.Disk.{Disk, read_block, block_is_free}
use mos_enhanced_shell.Fs.Blocks.{
  Files, direct, indirect, ndirect, nindirect, indirect_slot, file_block_walk, clear_slot,
  file_clear_block, clear_from, drop_indirect, resize, file_truncate, blocks_of,
}
use mos_enhanced_shell.Fs.Blocks.Map.{block_of}
use mos_enhanced_shell.Fs.Blocks.Clear.{Cleared, file_clear_block-Cleared}
use mos_enhanced_shell.Fs.Blocks.Truncate.{Truncated, blocks_kept, file_truncate-Truncated}

-- The indirect block of the file is in use, and it is not a block of the file.
pub record IsTrimmable (s : Files) : Type 0 where
  pub inside : s.1.f_indirect ≢ 0 → s.1.f_indirect < s.0.s_nblocks
  pub in_use : s.1.f_indirect ≢ 0 → block_is_free s.0 s.1.f_indirect ≡ false
  pub apart : (i : ℕ) → s.1.f_indirect ≢ 0 → block_of s i ≢ s.1.f_indirect

Cleared-IsTrimmable : (s u : Files) (j : ℕ) → Cleared s j u → IsTrimmable s → IsTrimmable u
Cleared-IsTrimmable s u j c w =
    let there : u.1.f_indirect ≢ 0 → s.1.f_indirect ≢ 0 = λ h e. h (c.indirect_same ∙ e) in
    record {
      inside = λ h. ground (arith, c.indirect_same, c.size, w.inside (there h));
      in_use = λ h.
          let other : block_of s j ≢ s.1.f_indirect = w.apart j (there h) in
          let used : block_is_free s.0 s.1.f_indirect ≡ false = w.in_use (there h) in
          let still : block_is_free u.0 s.1.f_indirect ≡ false =
            ground (arith, c.bits s.1.f_indirect) in
          ap (block_is_free u.0) c.indirect_same ∙ still;
      apart = λ i h. ground (arith, c.blocks i, c.indirect_same, w.apart i (there h), there h);
    }

narrower : {P : Type 0} (a b : ℕ) → b ≤ a → (a ≤ ndirect) ⊎ P → (b ≤ ndirect) ⊎ P
narrower a b h (inl near) = inl (omega arith)
narrower a b h (inr p) = inr p

module _ (mem_alloc : ℕ → Option Error) (room : (b : ℕ) → mem_alloc b ≡ none) where
  pub read_block-done :
      (d : Disk) (b : ℕ)
      → b < d.s_nblocks
      → block_is_free d b ≡ false
      → (d' : Disk) × (read_block mem_alloc d b ≡ done tt d')
  unfolding read_block
  read_block-done d b inside used = elim (Bool-cases (d.mapped b)) [
    | inl there ↦ (d, ground arith)
    | inr absent ↦ (
      record d {
        mapped = λ c. if c == b then true else d.mapped c;
        dirty = λ c. if c == b then false else d.dirty c;
        cache = λ c. if c == b then d.disk b else d.cache c;
      },
      ground (arith, room b),
    )
  ]

  file_clear_block-done :
      (s : Files) (j : ℕ)
      → IsTrimmable s
      → j < nindirect
      → (j < ndirect) ⊎ (s.1.f_indirect ≢ 0)
      → (u : Files) × (file_clear_block mem_alloc s j ≡ done tt u)
  unfolding file_clear_block file_block_walk indirect_slot
  file_clear_block-done (d, f) j w inside (inl near) = (clear_slot (d, f) (direct j), ground arith)
  file_clear_block-done (d, f) j w inside (inr there) = elim (Bool-cases (ltb j ndirect)) [
    | inl near ↦ (clear_slot (d, f) (direct j), ground arith)
    | inr far ↦
        let (d', read) = read_block-done d f.f_indirect (w.inside there) (w.in_use there) in
        let deep : ltb j nindirect ≡ true = ground arith in
        let present : (f.f_indirect == 0) ≡ false = ground arith in
        (clear_slot (d', f) (indirect f.f_indirect j), rw (far, deep, present, read) refl)
  ]

  clear_from-done :
      (n bno : ℕ) (s : Files)
      → IsTrimmable s
      → bno + n ≤ nindirect
      → (bno + n ≤ ndirect) ⊎ (s.1.f_indirect ≢ 0)
      → (t : Files) × (clear_from mem_alloc n bno s ≡ done tt t)
  unfolding clear_from
  clear_from-done zero bno s w small reach = (s, refl)
  clear_from-done (suc n) bno s w small reach =
      let (u, first) =
        file_clear_block-done s bno w (ground arith)
          (narrower (bno + suc n) (suc bno) (omega arith) reach) in
      let c = file_clear_block-Cleared mem_alloc s u bno first in
      let (t, rest) =
        clear_from-done n (bno + 1) u (Cleared-IsTrimmable s u bno c w) (omega arith) (
          subst (λ x. (bno + 1 + n ≤ ndirect) ⊎ (x ≢ 0)) (sym c.indirect_same)
            (narrower (bno + suc n) (bno + 1 + n) (omega arith) reach)) in
      (t, rw first rest)

  cleared-total :
      (s : Files) (kept : ℕ)
      → IsTrimmable s
      → blocks_of s.1.f_size ≤ nindirect
      → (blocks_of s.1.f_size ≤ ndirect) ⊎ (s.1.f_indirect ≢ 0)
      → (u : Files) × (clear_from mem_alloc (blocks_of s.1.f_size - kept) kept s ≡ done tt u)
  cleared-total s kept w small reach = elim (Bool-cases (leb (blocks_of s.1.f_size) kept)) [
    | inl longer ↦
        let nothing : blocks_of s.1.f_size - kept ≡ 0 = ground arith in
        (s, rw nothing (unfold clear_from in refl))
    | inr shorter ↦
        let all : kept + (blocks_of s.1.f_size - kept) ≡ blocks_of s.1.f_size = ground arith in
        clear_from-done (blocks_of s.1.f_size - kept) kept s w (omega arith) (
          narrower (blocks_of s.1.f_size) (kept + (blocks_of s.1.f_size - kept)) (omega arith)
            reach)
  ]

  -- When memory can be had, the indirect block of a file is in use and not one of its blocks, and
  -- the file has at most 1024 blocks and an indirect block if more than ten, `file_truncate`
  -- returns: the size is the new one, the blocks that are kept stay where they were, those behind
  -- are not in the map, the indirect block goes exactly if at most ten blocks are kept, the blocks
  -- behind and an indirect block that goes are free if they are blocks of the disk, and nothing
  -- else becomes free.
  pub file_truncate-total :
      (s : Files) (newsize : ℕ)
      → IsTrimmable s
      → blocks_of s.1.f_size ≤ nindirect
      → (blocks_of s.1.f_size ≤ ndirect) ⊎ (s.1.f_indirect ≢ 0)
      → (t : Files) × (file_truncate mem_alloc s newsize ≡ done tt t) × Truncated s newsize t
  file_truncate-total s newsize w small reach =
      let (u, ran) = cleared-total s (blocks_kept newsize) w small reach in
      let t : Files =
        resize newsize (if leb (blocks_kept newsize) ndirect then drop_indirect u else u) in
      let cut : file_truncate mem_alloc s newsize ≡ done tt t =
        unfold file_truncate in rw ran refl in
      (t, cut, file_truncate-Truncated mem_alloc s t newsize cut)
