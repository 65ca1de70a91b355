-- ===== src/Fs/Disk.antt =====
-- The block layer of fs/fs.c: the bitmap of free blocks and the cache of blocks in memory. The
-- superblock and the bitmap are read already, so `super` and `bitmap` are not null. The bitmap is
-- kept as bits, apart from the other blocks.
pub mod Bits
pub mod Cache
pub mod Sync
use mos_enhanced_shell.Base.{
  ℕ, zero, suc, ◌+◌, ◌-◌, ◌*◌, ◌/◌, ◌%◌, Bool, true, false, ◌&&◌, ◌||◌, not, Option, none, some,
  ltb, leb, ◌==◌, if◌then◌else◌,
}
use mos_enhanced_shell.Kernel.Fallible.{
  Run, done, failed, panicked, and_then, Run-cases, and_then-done, done-state,
}
use mos_enhanced_shell.Kernel.Result.{Error, no_mem, no_disk, not_found}

-- Words of 32 bits, by block or by their place in a row.
pub record Disk : Type 0 where
  pub s_nblocks : ℕ
  pub bitmap : ℕ → ℕ → Bool
  pub disk_bitmap : ℕ → ℕ → Bool
  pub mapped : ℕ → Bool
  pub dirty : ℕ → Bool
  pub cache : ℕ → ℕ → ℕ
  pub disk : ℕ → ℕ → ℕ

-- Bits to a block, and words.
abbrev pub block_size_bit : ℕ
block_size_bit = 32768

abbrev pub bit : (ℕ → ℕ → Bool) → ℕ → Bool
bit m i = m (i / 32) (i % 32)

unfoldable pub set_bit : (ℕ → ℕ → Bool) → ℕ → Bool → ℕ → ℕ → Bool
set_bit m i v index inner = if index == i / 32 && inner == i % 32 then v else m index inner

unfoldable pub block_is_free : Disk → ℕ → Bool
block_is_free d blockno = if leb d.s_nblocks blockno then false else bit d.bitmap blockno

unfoldable pub block_is_dirty : Disk → ℕ → Bool
block_is_dirty d blockno = d.mapped blockno && d.dirty blockno

-- The page is mapped again at its own place, with the dirty bit, which does not fail.
unfoldable pub dirty_block : Disk → ℕ → Run Disk (Unit {0})
dirty_block d blockno =
    if not (d.mapped blockno)
    then failed not_found d
    else if d.dirty blockno
    then done tt d
    else done tt (record d { dirty = λ b. if b == blockno then true else d.dirty b })

-- A block of the cache. The dirty bit stays set.
unfoldable pub write_block : Disk → ℕ → Run Disk (Unit {0})
write_block d blockno =
    if not (d.mapped blockno)
    then panicked
    else done tt (record d { disk = λ b. if b == blockno then d.cache b else d.disk b })

-- The `k`-th block of the bitmap.
unfoldable pub write_bitmap_block : Disk → ℕ → Disk
write_bitmap_block d k = record d {
  disk_bitmap = λ index. if index / 1024 == k then d.bitmap index else d.disk_bitmap index;
}

unfoldable pub free_block : Disk → ℕ → Disk
free_block d blockno =
    if blockno == 0 || leb d.s_nblocks blockno
    then d
    else record d { bitmap = set_bit d.bitmap blockno true }

-- The loop of `alloc_block_num` from `blockno` on, with the rounds that are left.
unfoldable pub alloc_from : ℕ → ℕ → Disk → Run Disk ℕ
alloc_from zero blockno d = failed no_disk d
alloc_from (suc n) blockno d =
    let rest = alloc_from n (blockno + 1) d in
    if bit d.bitmap blockno
    then done blockno (
        write_bitmap_block (record d { bitmap = set_bit d.bitmap blockno false })
          (blockno / block_size_bit))
    else rest

unfoldable pub alloc_block_num : Disk → Run Disk ℕ
alloc_block_num d = alloc_from (d.s_nblocks - 3) 3 d

-- `mem_alloc b` is the error of `syscall_mem_alloc` for the page that caches the block `b`, if any.
module _ (mem_alloc : ℕ → Option Error) where
  unfoldable pub map_block : Disk → ℕ → Run Disk (Unit {0})
  map_block d blockno = if d.mapped blockno then done tt d else elim (mem_alloc blockno) [
    | some e ↦ failed e d
    | none ↦ done tt (record d {
      mapped = λ b. if b == blockno then true else d.mapped b;
      dirty = λ b. if b == blockno then false else d.dirty b;
      cache = λ b i. if b == blockno then 0 else d.cache b i;
    })
  ]

  unfoldable pub alloc_block : Disk → Run Disk ℕ
  alloc_block d = elim (alloc_block_num d) [
    | failed e d' ↦ failed e d'
    | panicked ↦ panicked
    | done bno d' ↦ elim (map_block d' bno) [
      | done _ d'' ↦ done bno d''
      | failed e d'' ↦ failed e (free_block d'' bno)
      | panicked ↦ panicked
    ]
  ]

  unfoldable pub read_block : Disk → ℕ → Run Disk (Unit {0})
  read_block d blockno =
      if leb d.s_nblocks blockno || block_is_free d blockno
      then panicked
      else if d.mapped blockno
      then done tt d
      else elim (mem_alloc blockno) [
        | some e ↦ failed e d
        | none ↦ done tt (record d {
          mapped = λ b. if b == blockno then true else d.mapped b;
          dirty = λ b. if b == blockno then false else d.dirty b;
          cache = λ b. if b == blockno then d.disk blockno else d.cache b;
        })
      ]

-- The loop of `fs_sync`, with the rounds that are left.
unfoldable pub sync_from : ℕ → ℕ → Disk → Run Disk (Unit {0})
sync_from zero i d = done tt d
sync_from (suc n) i d =
    if block_is_dirty d i
    then and_then (write_block d i) (λ _ d'. sync_from n (i + 1) d')
    else sync_from n (i + 1) d

unfoldable pub fs_sync : Disk → Run Disk (Unit {0})
fs_sync d = sync_from d.s_nblocks 0 d

abbrev pub drop_page : Disk → ℕ → Disk
drop_page d blockno = record d { mapped = λ b. if b == blockno then false else d.mapped b }

-- Unmapping a page that is not there is an error of the system call, and `panic_on` panics.
unfoldable pub unmap_block : Disk → ℕ → Run Disk (Unit {0})
unmap_block d blockno =
    if not (d.mapped blockno)
    then panicked
    else if not (block_is_free d blockno) && block_is_dirty d blockno
    then and_then (write_block d blockno) (λ _ d'. done tt (drop_page d' blockno))
    else done tt (drop_page d blockno)
