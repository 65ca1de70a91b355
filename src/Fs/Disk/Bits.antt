-- ===== src/Fs/Disk/Bits.antt =====
-- The bitmap: which block is handed out, and what the bits are then.
use mos_enhanced_shell.Base.{
  ℕ, zero, suc, ◌+◌, ◌-◌, ◌/◌, ◌≤◌, ◌<◌, ◌≡◌, refl, inl, inr, ◌⊎◌, Bool, true, false, arith, ◌==◌,
  if◌then◌else◌, Bool-cases,
}
use mos_enhanced_shell.Kernel.Fallible.{Run, done, failed, panicked}
use mos_enhanced_shell.Kernel.Result.{no_disk}
use mos_enhanced_shell.Fs.Disk.{
  Disk, bit, set_bit, block_is_free, free_block, write_bitmap_block, alloc_from, alloc_block_num,
  block_size_bit,
}

pub set_bit-bit :
    (m : ℕ → ℕ → Bool) (i j : ℕ) (v : Bool)
    → bit (set_bit m i v) j ≡ (if j == i then v else bit m j)
unfolding set_bit
set_bit-bit m i j v = ground arith

-- The state in which `b` is taken.
abbrev pub taken : Disk → ℕ → Disk
taken d b = write_bitmap_block (record d { bitmap = set_bit d.bitmap b false }) (b / block_size_bit)

-- What `alloc_block_num` may do: hand out the lowest free block from 3 on, marked as used in memory,
-- with its block of the bitmap written to the disk, or fail when there is none and change nothing.
abbrev pub Lowest : Disk → Run Disk ℕ → Type 0
Lowest d (done b d') =
    (3 ≤ b)
    × (b < d.s_nblocks)
    × (block_is_free d b ≡ true)
    × ((j : ℕ) → (j < 3) ⊎ (b ≤ j) ⊎ (block_is_free d j ≡ false))
    × ((j : ℕ) → block_is_free d' j ≡ (if j == b then false else block_is_free d j))
    × ((j : ℕ) → bit d'.bitmap j ≡ (if j == b then false else bit d.bitmap j))
    × ((j : ℕ)
        → bit d'.disk_bitmap j ≡ (
            if j / block_size_bit == b / block_size_bit
            then bit d'.bitmap j
            else bit d.disk_bitmap j))
    × ((d'.mapped ≡ d.mapped) × (d'.dirty ≡ d.dirty) × (d'.cache ≡ d.cache) × (d'.disk ≡ d.disk))
Lowest d (failed e d') =
    (e ≡ no_disk) × (d' ≡ d) × ((j : ℕ) → (j < 3) ⊎ (block_is_free d j ≡ false))
Lowest d panicked = ⊥

alloc_from-Lowest :
    (n i : ℕ) (d : Disk)
    → 3 ≤ i
    → d.s_nblocks ≤ i + n
    → (n ≡ 0) ⊎ (i + n ≤ d.s_nblocks)
    → ((j : ℕ) → (j < 3) ⊎ (i ≤ j) ⊎ (block_is_free d j ≡ false))
    → Lowest d (alloc_from n i d)
unfolding alloc_from block_is_free
alloc_from-Lowest zero i d lo top cap used = (refl, refl, λ j. ground (arith, used j))
alloc_from-Lowest (suc n) i d lo top cap used = elim (Bool-cases (bit d.bitmap i)) [
  | inl free ↦ rw free (
    lo,
    ground (arith, cap),
    ground (arith, cap),
    used,
    (λ j. unfold write_bitmap_block in ground (arith, set_bit-bit d.bitmap i j false)),
    (λ j. unfold write_bitmap_block in set_bit-bit d.bitmap i j false),
    (λ j. unfold write_bitmap_block in ground arith),
    (unfold write_bitmap_block in (refl, refl, refl, refl)),
  )
  | inr busy ↦ rw busy (
      alloc_from-Lowest n (i + 1) d (omega arith) (omega arith) (ground (arith, cap))
        (λ j. ground (arith, used j)))
]

-- On every disk, `alloc_block_num` hands out the lowest free block from 3 on, marks it and no
-- other as used in memory, writes the bits of its block of the bitmap and no others to the disk,
-- and changes nothing else; or it fails when there is no free block and changes nothing.
pub alloc_block_num-Lowest : (d : Disk) → Lowest d (alloc_block_num d)
unfolding alloc_block_num
alloc_block_num-Lowest d =
    alloc_from-Lowest (d.s_nblocks - 3) 3 d (omega arith) (omega arith) (ground arith)
      (λ j. ground arith)

pub block_is_free-free_block :
    (d : Disk) (b j : ℕ)
    → 0 < b
    → b < d.s_nblocks
    → block_is_free (free_block d b) j ≡ (if j == b then true else block_is_free d j)
unfolding free_block block_is_free
block_is_free-free_block d b j h k = ground (arith, set_bit-bit d.bitmap b j true)
