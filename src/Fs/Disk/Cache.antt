-- ===== src/Fs/Disk/Cache.antt =====
-- What the operations on blocks do to the contents of other blocks.
use mos_enhanced_shell.Base.{
  ℕ, zero, suc, ◌+◌, ◌-◌, ◌≤◌, ◌<◌, ◌≡◌, ◌≢◌, refl, ◌∙◌, inl, inr, true, false, ◌||◌, Option, arith,
  leb, ◌==◌, if◌then◌else◌, Bool-cases, Option-cases, subst, ap,
}
use mos_enhanced_shell.Kernel.Fallible.{done, Run-cases}
use mos_enhanced_shell.Kernel.Result.{Error}
use mos_enhanced_shell.Fs.Disk.{
  Disk, bit, block_is_free, alloc_block_num, alloc_block, map_block, read_block, write_bitmap_block,
  alloc_from,
}
use mos_enhanced_shell.Fs.Disk.Bits.{Lowest, alloc_block_num-Lowest}

-- A word of a block, as a reader of the block finds it.
abbrev pub word : Disk → ℕ → ℕ → ℕ
word d b i = if d.mapped b then d.cache b i else d.disk b i

-- `d'` has the blocks of `d`, but for what is in the block `b`.
pub record SameBut (d : Disk) (b : ℕ) (d' : Disk) : Type 0 where
  pub words : (c i : ℕ) → c ≢ b → word d' c i ≡ word d c i
  pub pages : (c : ℕ) → c ≢ b → d'.mapped c ≡ d.mapped c
  pub size : d'.s_nblocks ≡ d.s_nblocks

-- A block that was free is taken, and is in the cache; it is all zeros unless it was there before.
pub record Allocated (d : Disk) (b : ℕ) (d' : Disk) : Type 0 where
  pub others : SameBut d b d'
  pub low : 3 ≤ b
  pub inside : b < d.s_nblocks
  pub was_free : block_is_free d b ≡ true
  pub bits : (j : ℕ) → block_is_free d' j ≡ (if j == b then false else block_is_free d j)
  pub cached : d'.mapped b ≡ true
  pub zeros : (i : ℕ) → d.mapped b ≡ false → word d' b i ≡ 0
  pub stale : (i : ℕ) → d.mapped b ≡ true → word d' b i ≡ word d b i

-- Only the two bitmaps may differ.
pub record BitsOnly (d d' : Disk) : Type 0 where
  pub cache_same : d'.cache ≡ d.cache
  pub disk_same : d'.disk ≡ d.disk
  pub mapped_same : d'.mapped ≡ d.mapped
  pub size_same : d'.s_nblocks ≡ d.s_nblocks

alloc_from-BitsOnly : (n i b : ℕ) (d d' : Disk) → alloc_from n i d ≡ done b d' → BitsOnly d d'
unfolding alloc_from write_bitmap_block
alloc_from-BitsOnly zero i b d d' h = cc
alloc_from-BitsOnly (suc n) i b d d' h = elim (Bool-cases (bit d.bitmap i)) [
  | inl free ↦ record {
    cache_same = ground arith;
    disk_same = ground arith;
    mapped_same = ground arith;
    size_same = ground arith;
  }
  | inr busy ↦ alloc_from-BitsOnly n (i + 1) b d d' (ground arith)
]

-- What `map_block` leaves.
record Mapped (d : Disk) (b : ℕ) (d' : Disk) : Type 0 where
  others : SameBut d b d'
  bits : d'.bitmap ≡ d.bitmap
  cached : d'.mapped b ≡ true
  zeros : (i : ℕ) → d.mapped b ≡ false → word d' b i ≡ 0
  stale : (i : ℕ) → d.mapped b ≡ true → word d' b i ≡ word d b i

SameBut-refl : (d : Disk) (b : ℕ) → SameBut d b d
SameBut-refl d b = record { words = λ c i h. refl; pages = λ c h. refl; size = refl }

alloc_block_num-BitsOnly : (b : ℕ) (d d' : Disk) → alloc_block_num d ≡ done b d' → BitsOnly d d'
unfolding alloc_block_num
alloc_block_num-BitsOnly b d d' h = alloc_from-BitsOnly (d.s_nblocks - 3) 3 b d d' h

taken-Mapped :
    (b : ℕ) (d s d' : Disk) → Lowest d (done b s) → BitsOnly d s → Mapped s b d' → Allocated d b d'
unfolding block_is_free
taken-Mapped b d s d' (lo, hi, free, _, bits, _, _, _) k m =
    let word_same : (c i : ℕ) → word s c i ≡ word d c i = λ c i. ground (
      arith,
      ap (λ f. f c) k.mapped_same,
      ap (λ f. f c i) k.cache_same,
      ap (λ f. f c i) k.disk_same,
    ) in
    let page_same : (c : ℕ) → s.mapped c ≡ d.mapped c = λ c. ap (λ f. f c) k.mapped_same in
    record {
      others = record {
        words = λ c i h. m.others.words c i h ∙ word_same c i;
        pages = λ c h. m.others.pages c h ∙ page_same c;
        size = m.others.size ∙ k.size_same;
      };
      low = lo;
      inside = hi;
      was_free = free;
      bits = λ j. ground (arith, bits j, ap (λ f. bit f j) m.bits, m.others.size);
      cached = m.cached;
      zeros = λ i off. m.zeros i (page_same b ∙ off);
      stale = λ i on. m.stale i (page_same b ∙ on) ∙ word_same b i;
    }

module _ (mem_alloc : ℕ → Option Error) where
  map_block-Mapped : (d d' : Disk) (b : ℕ) → map_block mem_alloc d b ≡ done tt d' → Mapped d b d'
  unfolding map_block
  map_block-Mapped d d' b h = elim (Bool-cases (d.mapped b)) [
    | inl there ↦
        let same : d ≡ d' = ground arith in
        subst (Mapped d b) same (record {
          others = SameBut-refl d b;
          bits = refl;
          cached = there;
          zeros = λ i off. absurd (ground arith);
          stale = λ i on. refl;
        })
    | inr absent ↦ elim (Option-cases (mem_alloc b)) [
      | inr (e, full) ↦ absurd (ground arith)
      | inl room ↦
          let fresh : Disk = record d {
            mapped = λ c. if c == b then true else d.mapped c;
            dirty = λ c. if c == b then false else d.dirty c;
            cache = λ c i. if c == b then 0 else d.cache c i;
          } in
          let same : fresh ≡ d' = ground arith in
          subst (Mapped d b) same (record {
            others = record {
              words = λ c i h. ground arith;
              pages = λ c h. ground arith;
              size = refl;
            };
            bits = refl;
            cached = ground arith;
            zeros = λ i off. ground arith;
            stale = λ i on. absurd (ground arith);
          })
    ]
  ]

  pub alloc_block-Allocated :
      (d d' : Disk) (b : ℕ) → alloc_block mem_alloc d ≡ done b d' → Allocated d b d'
  unfolding alloc_block
  alloc_block-Allocated d d' b h = elim (Run-cases (alloc_block_num d)) [
    | inr (inr e) ↦ absurd (ground arith)
    | inr (inl (x, s, e)) ↦ absurd (ground arith)
    | inl (c, s, e) ↦ elim (Run-cases (map_block mem_alloc s c)) [
      | inr (inr m) ↦ absurd (ground arith)
      | inr (inl (x, s', m)) ↦ absurd (ground arith)
      | inl (u, s', m) ↦
          let same : s' ≡ d' = ground arith in
          let here : c ≡ b = ground arith in
          let low = subst (Lowest d) e (alloc_block_num-Lowest d) in
          let all =
            taken-Mapped c d s s' low (alloc_block_num-BitsOnly c d s e)
              (map_block-Mapped s s' c m) in
          subst (λ x. Allocated d x d') here (subst (Allocated d c) same all)
    ]
  ]

-- A block that is read is in the cache, and no block's contents change.
pub record Loaded (d : Disk) (b : ℕ) (d' : Disk) : Type 0 where
  pub inside : b < d.s_nblocks
  pub in_use : block_is_free d b ≡ false
  pub size : d'.s_nblocks ≡ d.s_nblocks
  pub words : (c i : ℕ) → word d' c i ≡ word d c i
  pub cached : d'.mapped b ≡ true
  pub pages : (c : ℕ) → c ≢ b → d'.mapped c ≡ d.mapped c
  pub bits : (j : ℕ) → block_is_free d' j ≡ block_is_free d j

pub read_block-Loaded :
    (mem_alloc : ℕ → Option Error) (d d' : Disk) (b : ℕ)
    → read_block mem_alloc d b ≡ done tt d'
    → Loaded d b d'
unfolding read_block
read_block-Loaded mem_alloc d d' b h = elim (Bool-cases (leb d.s_nblocks b || block_is_free d b)) [
  | inl bad ↦ absurd (ground arith)
  | inr fine ↦ elim (Bool-cases (d.mapped b)) [
    | inl there ↦
        let same : d ≡ d' = ground arith in
        subst (Loaded d b) same (record {
          inside = ground arith;
          in_use = ground arith;
          size = refl;
          words = λ c i. refl;
          cached = there;
          pages = λ c k. refl;
          bits = λ j. refl;
        })
    | inr absent ↦ elim (Option-cases (mem_alloc b)) [
      | inr (e, full) ↦ absurd (ground arith)
      | inl room ↦
          let fresh : Disk = record d {
            mapped = λ c. if c == b then true else d.mapped c;
            dirty = λ c. if c == b then false else d.dirty c;
            cache = λ c. if c == b then d.disk b else d.cache c;
          } in
          let same : fresh ≡ d' = ground arith in
          subst (Loaded d b) same (record {
            inside = ground arith;
            in_use = ground arith;
            size = refl;
            words = λ c i. ground arith;
            cached = ground arith;
            pages = λ c k. ground arith;
            bits = λ j. unfold block_is_free in refl;
          })
    ]
  ]
]
