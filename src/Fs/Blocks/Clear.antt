-- ===== src/Fs/Blocks/Clear.antt =====
-- What `file_clear_block` leaves of the block map.
use mos_enhanced_shell.Base.{
  ℕ, ◌≤◌, ◌<◌, ◌≡◌, ◌≢◌, refl, ◌∙◌, sym, inl, inr, Bool, true, false, ◌&&◌, ◌||◌, not, Option,
  arith, ltb, leb, ◌==◌, if◌then◌else◌, Bool-cases, subst, ap,
}
use mos_enhanced_shell.Kernel.Fallible.{done, and_then-done}
use mos_enhanced_shell.Kernel.Result.{Error}
use mos_enhanced_shell.Fs.Disk.{Disk, read_block, block_is_free, free_block}
use mos_enhanced_shell.Fs.Disk.Cache.{Loaded, read_block-Loaded}
use mos_enhanced_shell.Fs.Disk.Bits.{block_is_free-free_block}
use mos_enhanced_shell.Fs.Blocks.{
  File, Files, Slot, direct, indirect, ndirect, on_disk, read_slot, write_slot, indirect_slot,
  file_block_walk, clear_slot, file_clear_block,
}
use mos_enhanced_shell.Fs.Blocks.Map.{
  block_of, IsSlot, read_slot-block_of, block_of-write_slot, on_disk-done,
}

-- Whether freeing `b` frees the block `c`.
abbrev pub frees : Disk → ℕ → ℕ → Bool
frees d b c = c == b && not (b == 0) && ltb b d.s_nblocks

-- Block `j` is not in the map any more, and is free. The other blocks are where they were.
pub record Cleared (s : Files) (j : ℕ) (t : Files) : Type 0 where
  pub blocks : (i : ℕ) → block_of t i ≡ (if i == j then 0 else block_of s i)
  pub bits :
      (c : ℕ)
      → block_is_free t.0 c ≡ (if frees s.0 (block_of s j) c then true else block_is_free s.0 c)
  pub size : t.0.s_nblocks ≡ s.0.s_nblocks
  pub indirect_same : t.1.f_indirect ≡ s.1.f_indirect
  pub size_same : t.1.f_size ≡ s.1.f_size

-- The file is as before, with the slot of block `j` found.
record Found (s : Files) (j : ℕ) (p : Slot) (t : Files) : Type 0 where
  slot : IsSlot t j p
  file_same : t.1 ≡ s.1
  blocks : (i : ℕ) → block_of t i ≡ block_of s i
  bits : (c : ℕ) → block_is_free t.0 c ≡ block_is_free s.0 c
  size : t.0.s_nblocks ≡ s.0.s_nblocks

pub free_block-frees :
    (d : Disk) (b c : ℕ)
    → block_is_free (free_block d b) c ≡ (if frees d b c then true else block_is_free d c)
unfolding free_block
free_block-frees d b c = elim (Bool-cases (b == 0 || leb d.s_nblocks b)) [
  | inl out ↦ ground arith
  | inr inside ↦ ground (arith, block_is_free-free_block d b c (ground arith) (ground arith))
]

-- Freeing a block touches the bitmap only.
free_block-pages :
    (d : Disk) (b : ℕ)
    → ((free_block d b).mapped ≡ d.mapped)
      × ((free_block d b).cache ≡ d.cache)
      × ((free_block d b).disk ≡ d.disk)
      × ((free_block d b).s_nblocks ≡ d.s_nblocks)
unfolding free_block
free_block-pages d b = elim (Bool-cases (b == 0 || leb d.s_nblocks b)) [
  | inl out ↦ rw out (refl, refl, refl, refl)
  | inr inside ↦ rw inside (refl, refl, refl, refl)
]

block_of-free_block :
    (d : Disk) (f : File) (b i : ℕ) → block_of (free_block d b, f) i ≡ block_of (d, f) i
unfolding block_of
block_of-free_block d f b i =
    let (m, c, k, n) = free_block-pages d b in
    ground (
      arith,
      ap (λ g. g f.f_indirect) m,
      ap (λ g. g f.f_indirect i) c,
      ap (λ g. g f.f_indirect i) k,
    )

IsSlot-free_block :
    (d : Disk) (f : File) (b j : ℕ) (p : Slot) → IsSlot (d, f) j p → IsSlot (free_block d b, f) j p
IsSlot-free_block d f b j (direct i) at = at
IsSlot-free_block d f b j (indirect c i) (same, far, here, there, cached) =
    (same, far, here, there, ap (λ g. g c) (free_block-pages d b).0 ∙ cached)

-- Writing a slot leaves the bitmap and the sizes.
write_slot-rest :
    (s : Files) (p : Slot) (v : ℕ)
    → ((c : ℕ) → block_is_free (write_slot s p v).0 c ≡ block_is_free s.0 c)
      × ((write_slot s p v).0.s_nblocks ≡ s.0.s_nblocks)
      × ((write_slot s p v).1.f_indirect ≡ s.1.f_indirect)
      × ((write_slot s p v).1.f_size ≡ s.1.f_size)
unfolding write_slot block_is_free
write_slot-rest (d, f) (direct i) v = (λ c. refl, refl, refl, refl)
write_slot-rest (d, f) (indirect b i) v = (λ c. refl, refl, refl, refl)

freed-Cleared :
    (d : Disk) (f : File) (j : ℕ) (p : Slot)
    → IsSlot (d, f) j p
    → Cleared (d, f) j (write_slot (free_block d (block_of (d, f) j), f) p 0)
freed-Cleared d f j p at =
    let b : ℕ = block_of (d, f) j in
    let kept : IsSlot (free_block d b, f) j p = IsSlot-free_block d f b j p at in
    let (bits, size, ind, len) = write_slot-rest (free_block d b, f) p 0 in
    record {
      blocks = λ i. ground (
        arith,
        block_of-write_slot (free_block d b, f) j i 0 p kept,
        block_of-free_block d f b i,
      );
      bits = λ c. bits c ∙ free_block-frees d b c;
      size = size ∙ (free_block-pages d b).3;
      indirect_same = ind;
      size_same = len;
    }

unused-Cleared : (s : Files) (j : ℕ) → block_of s j ≡ 0 → Cleared s j s
unused-Cleared s j empty = record {
  blocks = λ i. elim (Bool-cases (i == j)) [
    | inl same ↦ let here : i ≡ j = ground arith in ground (arith, empty, ap (block_of s) here)
    | inr other ↦ ground arith
  ];
  bits = λ c. ground (arith, empty);
  size = refl;
  indirect_same = refl;
  size_same = refl;
}

clear_slot-Cleared : (s : Files) (j : ℕ) (p : Slot) → IsSlot s j p → Cleared s j (clear_slot s p)
unfolding clear_slot
clear_slot-Cleared (d, f) j p at =
    let held : read_slot (d, f) p ≡ block_of (d, f) j = read_slot-block_of (d, f) j p at in
    elim (Bool-cases (read_slot (d, f) p == 0)) [
      | inl empty ↦ rw empty (unused-Cleared (d, f) j (sym held ∙ ground arith))
      | inr there ↦ rw (there, held) (freed-Cleared d f j p at)
    ]

Loaded-Found :
    (d d' : Disk) (f : File) (j : ℕ)
    → ndirect ≤ j
    → f.f_indirect ≢ 0
    → Loaded d f.f_indirect d'
    → Found (d, f) j (indirect f.f_indirect j) (d', f)
unfolding block_of
Loaded-Found d d' f j far there l = record {
  slot = (refl, far, refl, there, l.cached);
  file_same = refl;
  blocks = λ i. ground (arith, l.words f.f_indirect i);
  bits = l.bits;
  size = l.size;
}

Cleared-Found : (s t u : Files) (j : ℕ) (p : Slot) → Found s j p t → Cleared t j u → Cleared s j u
Cleared-Found s t u j p f c = record {
  blocks = λ i. ground (arith, c.blocks i, f.blocks i);
  bits = λ k. ground (arith, c.bits k, f.bits k, f.blocks j, f.size);
  size = c.size ∙ f.size;
  indirect_same = c.indirect_same ∙ ap (λ g. g.f_indirect) f.file_same;
  size_same = c.size_same ∙ ap (λ g. g.f_size) f.file_same;
}

module _ (mem_alloc : ℕ → Option Error) where
  indirect_slot-Found :
      (s t : Files) (j : ℕ) (p : Slot)
      → ndirect ≤ j
      → s.1.f_indirect ≢ 0
      → indirect_slot mem_alloc s j ≡ done p t
      → Found s j p t
  unfolding indirect_slot
  indirect_slot-Found (d, f) t j p far there h =
      let (u, s, read, rest) =
        and_then-done (on_disk f (read_block mem_alloc d f.f_indirect)) _ p t h in
      let (d', ran, same) = on_disk-done f (read_block mem_alloc d f.f_indirect) u s read in
      let found =
        Loaded-Found d d' f j far there (read_block-Loaded mem_alloc d d' f.f_indirect ran) in
      let here : indirect f.f_indirect j ≡ p = ground arith in
      let end : (d', f) ≡ t = sym same ∙ ground arith in
      subst (λ q. Found (d, f) j q t) here
        (subst (Found (d, f) j (indirect f.f_indirect j)) end found)

  near-Found : (s : Files) (j : ℕ) → j < ndirect → Found s j (direct j) s
  near-Found s j near = record {
    slot = (refl, near);
    file_same = refl;
    blocks = λ i. refl;
    bits = λ c. refl;
    size = refl;
  }

  file_block_walk-Found :
      (s t : Files) (j : ℕ) (p : Slot)
      → file_block_walk mem_alloc s j false ≡ done p t
      → Found s j p t
  unfolding file_block_walk
  file_block_walk-Found (d, f) t j p h = elim (Bool-cases (ltb j ndirect)) [
    | inl near ↦
        let here : direct j ≡ p = ground arith in
        let end : (d, f) ≡ t = ground arith in
        subst (λ q. Found (d, f) j q t) here
          (subst (Found (d, f) j (direct j)) end (near-Found (d, f) j (ground arith)))
    | inr far ↦ elim (Bool-cases (f.f_indirect == 0)) [
      | inr there ↦ indirect_slot-Found (d, f) t j p (ground arith) (ground arith) (ground arith)
      | inl missing ↦ absurd (ground arith)
    ]
  ]

  pub file_clear_block-Cleared :
      (s t : Files) (j : ℕ) → file_clear_block mem_alloc s j ≡ done tt t → Cleared s j t
  unfolding file_clear_block
  file_clear_block-Cleared s t j h =
      let (p, u, walked, rest) = and_then-done (file_block_walk mem_alloc s j false) _ tt t h in
      let found = file_block_walk-Found s u j p walked in
      let end : clear_slot u p ≡ t = ground arith in
      Cleared-Found s u t j p found (subst (Cleared u j) end (clear_slot-Cleared u j p found.slot))
