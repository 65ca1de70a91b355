-- ===== src/Fs/Blocks/Truncate.antt =====
-- What `file_truncate` leaves of the block map.
use mos_enhanced_shell.Base.{
  ℕ, zero, suc, ◌+◌, ◌-◌, ◌≤◌, ◌<◌, ◌≡◌, ◌≢◌, refl, ◌∙◌, sym, inl, inr, ◌⊎◌, true, ◌&&◌, Option,
  arith, ltb, leb, ◌==◌, if◌then◌else◌, Bool-cases, subst, ap,
}
use mos_enhanced_shell.Kernel.Fallible.{Run, done, failed, panicked, and_then-done, done-state}
use mos_enhanced_shell.Kernel.Result.{Error, inval, not_found}
use mos_enhanced_shell.Fs.Disk.{block_is_free}
use mos_enhanced_shell.Fs.Blocks.{
  Files, direct, ndirect, nindirect, file_block_walk, clear_slot, file_clear_block, clear_from,
  drop_indirect, resize, file_truncate, blocks_of, no_failure,
}
use mos_enhanced_shell.Fs.Blocks.Map.{block_of}
use mos_enhanced_shell.Fs.Blocks.Clear.{frees, Cleared, free_block-frees, file_clear_block-Cleared}

-- The blocks from `bno` on, `n` of them, are not in the map any more, and are free; the others are
-- where they were, and no other block becomes free.
pub record Trimmed (s : Files) (n bno : ℕ) (t : Files) : Type 0 where
  pub blocks : (i : ℕ) → block_of t i ≡ (if leb bno i && ltb i (bno + n) then 0 else block_of s i)
  pub freed :
      (i : ℕ)
      → bno ≤ i
      → i < bno + n
      → block_of s i ≢ 0
      → block_of s i < s.0.s_nblocks
      → block_is_free t.0 (block_of s i) ≡ true
  pub still : (c : ℕ) → block_is_free s.0 c ≡ true → block_is_free t.0 c ≡ true
  pub only :
      (c : ℕ)
      → block_is_free t.0 c ≡ true
      → (block_is_free s.0 c ≡ true) ⊎ ((i : ℕ) × (bno ≤ i) × (i < bno + n) × (block_of s i ≡ c))
  pub size : t.0.s_nblocks ≡ s.0.s_nblocks
  pub indirect_same : t.1.f_indirect ≡ s.1.f_indirect
  pub size_same : t.1.f_size ≡ s.1.f_size

Trimmed-refl : (s : Files) (bno : ℕ) → Trimmed s 0 bno s
Trimmed-refl s bno = record {
  blocks = λ i. ground arith;
  freed = λ i lo hi. absurd (omega arith);
  still = λ c h. h;
  only = λ c h. inl h;
  size = refl;
  indirect_same = refl;
  size_same = refl;
}

Cleared-Trimmed :
    (s u t : Files) (n bno : ℕ)
    → Cleared s bno u
    → Trimmed u n (bno + 1) t
    → Trimmed s (suc n) bno t
Cleared-Trimmed s u t n bno c r = record {
  blocks = λ i. ground (arith, r.blocks i, c.blocks i);
  freed = λ i lo hi some_block inside. elim (Bool-cases (i == bno)) [
    | inl same ↦
        let at : i ≡ bno = ground arith in
        let here : block_of s i ≡ block_of s bno = ap (block_of s) at in
        r.still (block_of s i) (ground (arith, c.bits (block_of s i)))
    | inr other ↦
        let kept : block_of u i ≡ block_of s i = ground (arith, c.blocks i) in
        subst (λ x. block_is_free t.0 x ≡ true) kept
          (r.freed i (ground arith) (ground arith) (λ e. some_block (sym kept ∙ e))
            (ground (arith, c.size)))
  ];
  still = λ k h. r.still k (ground (arith, c.bits k));
  only = λ k h. elim (r.only k h) [
    | inl before ↦ elim (Bool-cases (block_is_free s.0 k)) [
      | inl free ↦ inl free
      | inr used ↦ inr (bno, omega arith, omega arith, ground (arith, c.bits k))
    ]
    | inr (i, lo, hi, here) ↦ inr (i, omega arith, omega arith, ground (arith, c.blocks i))
  ];
  size = r.size ∙ c.size;
  indirect_same = r.indirect_same ∙ c.indirect_same;
  size_same = r.size_same ∙ c.size_same;
}

-- The number of blocks for which `file_truncate` makes room.
abbrev pub blocks_kept : ℕ → ℕ
blocks_kept newsize = if newsize == 0 then 0 else blocks_of newsize

-- What a file and the bitmap are when the file is cut to `newsize`.
pub record Truncated (s : Files) (newsize : ℕ) (t : Files) : Type 0 where
  pub size_now : t.1.f_size ≡ newsize
  pub kept : (i : ℕ) → i < blocks_kept newsize → block_of t i ≡ block_of s i
  pub gone : (i : ℕ) → blocks_kept newsize ≤ i → i < blocks_of s.1.f_size → block_of t i ≡ 0
  pub no_indirect : blocks_kept newsize ≤ ndirect → t.1.f_indirect ≡ 0
  pub with_indirect : ndirect < blocks_kept newsize → t.1.f_indirect ≡ s.1.f_indirect
  pub indirect_freed :
      blocks_kept newsize ≤ ndirect
      → s.1.f_indirect ≢ 0
      → s.1.f_indirect < s.0.s_nblocks
      → block_is_free t.0 s.1.f_indirect ≡ true
  pub freed :
      (i : ℕ)
      → blocks_kept newsize ≤ i
      → i < blocks_of s.1.f_size
      → block_of s i ≢ 0
      → block_of s i < s.0.s_nblocks
      → block_is_free t.0 (block_of s i) ≡ true
  pub still : (c : ℕ) → block_is_free s.0 c ≡ true → block_is_free t.0 c ≡ true
  pub only :
      (c : ℕ)
      → block_is_free t.0 c ≡ true
      → (block_is_free s.0 c ≡ true)
        ⊎ (((i : ℕ) × (blocks_kept newsize ≤ i) × (i < blocks_of s.1.f_size) × (block_of s i ≡ c))
            ⊎ ((blocks_kept newsize ≤ ndirect) × (c ≡ s.1.f_indirect)))

drop_indirect-lem :
    (s : Files)
    → ((drop_indirect s).1.f_indirect ≡ 0)
      × ((i : ℕ) → block_of (drop_indirect s) i ≡ (if ltb i ndirect then block_of s i else 0))
      × ((c : ℕ)
          → block_is_free (drop_indirect s).0 c
            ≡ (if frees s.0 s.1.f_indirect c then true else block_is_free s.0 c))
unfolding drop_indirect block_of
drop_indirect-lem (d, f) = elim (Bool-cases (f.f_indirect == 0)) [
  | inl none_yet ↦ rw none_yet (ground arith, λ i. ground arith, λ c. ground arith)
  | inr there ↦
      rw there (refl, λ i. ground arith, λ c. ground (arith, free_block-frees d f.f_indirect c))
]

block_of-resize : (s : Files) (n i : ℕ) → block_of (resize n s) i ≡ block_of s i
unfolding block_of
block_of-resize (d, f) n i = refl

few-Truncated :
    (s u : Files) (newsize : ℕ)
    → blocks_kept newsize ≤ ndirect
    → Trimmed s (blocks_of s.1.f_size - blocks_kept newsize) (blocks_kept newsize) u
    → Truncated s newsize (resize newsize (drop_indirect u))
few-Truncated s u newsize few r =
    let (none_now, blocks, bits) = drop_indirect-lem u in
    let map : (i : ℕ)
        → block_of (resize newsize (drop_indirect u)) i
          ≡ (if ltb i ndirect then block_of u i else 0) =
      λ i. block_of-resize (drop_indirect u) newsize i ∙ blocks i in
    record {
      size_now = refl;
      kept = λ i near. ground (arith, map i, r.blocks i);
      gone = λ i lo hi. ground (arith, map i, r.blocks i);
      no_indirect = λ h. none_now;
      with_indirect = λ h. absurd (omega arith);
      indirect_freed =
          λ h there inside. ground (arith, bits s.1.f_indirect, r.indirect_same, r.size);
      freed = λ i lo hi some_block inside.
          ground (arith, bits (block_of s i), r.freed i lo (omega arith) some_block inside);
      still = λ c h. ground (arith, bits c, r.still c h);
      only = λ c h. elim (Bool-cases (block_is_free u.0 c)) [
        | inl free ↦ elim (r.only c free) [
          | inl before ↦ inl before
          | inr (i, lo, hi, here) ↦ inr (inl (i, lo, omega arith, here))
        ]
        | inr used ↦ inr (inr (few, ground (arith, bits c, r.indirect_same)))
      ];
    }

many-Truncated :
    (s u : Files) (newsize : ℕ)
    → ndirect < blocks_kept newsize
    → Trimmed s (blocks_of s.1.f_size - blocks_kept newsize) (blocks_kept newsize) u
    → Truncated s newsize (resize newsize u)
many-Truncated s u newsize many r = record {
  size_now = refl;
  kept = λ i near. ground (arith, block_of-resize u newsize i, r.blocks i);
  gone = λ i lo hi. ground (arith, block_of-resize u newsize i, r.blocks i);
  no_indirect = λ h. absurd (omega arith);
  with_indirect = λ h. r.indirect_same;
  indirect_freed = λ h there inside. absurd (omega arith);
  freed = λ i lo hi some_block inside. r.freed i lo (omega arith) some_block inside;
  still = r.still;
  only = λ c h. elim (r.only c h) [
    | inl before ↦ inl before
    | inr (i, lo, hi, here) ↦ inr (inl (i, lo, omega arith, here))
  ];
}

Trimmed-Truncated :
    (s u : Files) (newsize : ℕ)
    → Trimmed s (blocks_of s.1.f_size - blocks_kept newsize) (blocks_kept newsize) u
    → Truncated s newsize
        (resize newsize (if leb (blocks_kept newsize) ndirect then drop_indirect u else u))
Trimmed-Truncated s u newsize r = elim (Bool-cases (leb (blocks_kept newsize) ndirect)) [
  | inl few ↦ rw few (few-Truncated s u newsize (ground arith) r)
  | inr many ↦ rw many (many-Truncated s u newsize (ground arith) r)
]

no_failure-done :
    (r : Run Files (Unit {0})) (k : Files → Run Files (Unit {0})) (t : Files)
    → no_failure r k ≡ done tt t
    → (u : Files) × (r ≡ done tt u) × (k u ≡ done tt t)
no_failure-done (done x u) k t h = (u, refl, h)
no_failure-done (failed e u) k t h = cc
no_failure-done panicked k t h = cc

module _ (mem_alloc : ℕ → Option Error) where
  clear_from-Trimmed :
      (n bno : ℕ) (s t : Files) → clear_from mem_alloc n bno s ≡ done tt t → Trimmed s n bno t
  unfolding clear_from
  clear_from-Trimmed zero bno s t h =
      let end : s ≡ t = ground arith in subst (Trimmed s 0 bno) end (Trimmed-refl s bno)
  clear_from-Trimmed (suc n) bno s t h =
      let (u, first, rest) =
        no_failure-done (file_clear_block mem_alloc s bno) (clear_from mem_alloc n (bno + 1)) t h in
      Cleared-Trimmed s u t n bno (file_clear_block-Cleared mem_alloc s u bno first)
        (clear_from-Trimmed n (bno + 1) u t rest)

  -- Cutting a file.
  pub file_truncate-Truncated :
      (s t : Files) (newsize : ℕ)
      → file_truncate mem_alloc s newsize ≡ done tt t
      → Truncated s newsize t
  unfolding file_truncate
  file_truncate-Truncated s t newsize h =
      let n : ℕ = blocks_of s.1.f_size - blocks_kept newsize in
      let (x, u, ran, rest) =
        and_then-done (clear_from mem_alloc n (blocks_kept newsize) s) _ tt t h in
      subst (Truncated s newsize) (done-state tt tt _ t rest)
        (Trimmed-Truncated s u newsize (clear_from-Trimmed n (blocks_kept newsize) s u ran))

  near_clear :
      (s : Files) (j : ℕ)
      → j < ndirect
      → file_clear_block mem_alloc s j ≡ done tt (clear_slot s (direct j))
  unfolding file_clear_block file_block_walk
  near_clear (d, f) j near = ground arith

  far_clear :
      (s : Files) (j : ℕ)
      → ndirect ≤ j
      → s.1.f_indirect ≡ 0
      → (e : Error) × (file_clear_block mem_alloc s j ≡ failed e s)
  unfolding file_clear_block file_block_walk
  far_clear (d, f) j far none_yet = elim (Bool-cases (ltb j nindirect)) [
    | inl inside ↦ (not_found, ground arith)
    | inr outside ↦ (inval, ground arith)
  ]

  clear_from-panicked :
      (n bno : ℕ) (s : Files)
      → s.1.f_indirect ≡ 0
      → ndirect < bno + n
      → 0 < n
      → clear_from mem_alloc n bno s ≡ panicked
  unfolding clear_from
  clear_from-panicked zero bno s none_yet reach some_round = absurd (ground arith)
  clear_from-panicked (suc n) bno s none_yet reach some_round =
      elim (Bool-cases (ltb bno ndirect)) [
        | inl near ↦
            let first = near_clear s bno (ground arith) in
            let cleared =
              file_clear_block-Cleared mem_alloc s (clear_slot s (direct bno)) bno first in
            rw first (
              clear_from-panicked n (bno + 1) (clear_slot s (direct bno))
                (cleared.indirect_same ∙ none_yet) (omega arith) (ground arith))
        | inr far ↦ let (e, first) = far_clear s bno (ground arith) none_yet in rw first refl
      ]

  -- A file of more than ten blocks that has no indirect block cannot be cut to fewer blocks:
  -- `file_truncate` panics.
  pub file_truncate-sparse :
      (s : Files) (newsize : ℕ)
      → s.1.f_indirect ≡ 0
      → ndirect < blocks_of s.1.f_size
      → blocks_kept newsize < blocks_of s.1.f_size
      → file_truncate mem_alloc s newsize ≡ panicked
  unfolding file_truncate
  file_truncate-sparse s newsize none_yet long shorter =
      rw
        (clear_from-panicked (blocks_of s.1.f_size - blocks_kept newsize) (blocks_kept newsize) s
          none_yet (omega arith) (omega arith))
        refl
