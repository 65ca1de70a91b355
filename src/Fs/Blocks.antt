-- ===== src/Fs/Blocks.antt =====
-- The block map of a file (fs/fs.c): ten blocks by themselves, and the others in an indirect block.
-- An operation works on the disk and the `struct File`.
pub mod Map
pub mod Fill
pub mod Clear
pub mod Truncate
pub mod Total
pub mod Outcome
mod Tests
use mos_enhanced_shell.Base.{
  ℕ, zero, suc, ◌+◌, ◌-◌, ◌*◌, ◌/◌, ◌%◌, ◌^◌, Bool, true, false, ◌&&◌, ◌||◌, not, Option, none,
  some, List, ltb, leb, ◌==◌, if◌then◌else◌,
}
use mos_enhanced_shell.Kernel.Fallible.{
  Run, done, failed, panicked, and_then, Run-cases, and_then-done, done-state,
}
use mos_enhanced_shell.Kernel.Result.{Error, inval, not_found}
use mos_enhanced_shell.Fs.Disk.{
  Disk, alloc_block, read_block, free_block, dirty_block, block_is_dirty, write_block,
}

abbrev pub ndirect : ℕ
ndirect = 10

abbrev pub nindirect : ℕ
nindirect = 1024

abbrev pub block_size : ℕ
block_size = 4096

-- The slots of `f_direct` and the rest of the structure, but for `f_dir`.
pub record File : Type 0 where
  pub f_name : List ℕ
  pub f_size : ℕ
  pub f_type : ℕ
  pub f_direct : ℕ → ℕ
  pub f_indirect : ℕ

abbrev pub Files : Type 0
Files = Disk × File

-- An operation on the disk alone.
abbrev pub on_disk : {A : Type 0} → File → Run Disk A → Run Files A
on_disk f (done a d) = done a (d, f)
on_disk f (failed e d) = failed e (d, f)
on_disk f panicked = panicked

-- Where `*ppdiskbno` points: into the file, or into a block in the cache.
pub data Slot : Type 0 where
  direct : ℕ → Slot
  indirect : (block index : ℕ) → Slot

unfoldable pub read_slot : Files → Slot → ℕ
read_slot (d, f) (direct i) = f.f_direct i
read_slot (d, f) (indirect b i) = d.cache b i

unfoldable pub write_slot : Files → Slot → ℕ → Files
write_slot (d, f) (direct i) v =
    (d, record f { f_direct = λ j. if j == i then v else f.f_direct j })
write_slot (d, f) (indirect b i) v =
    (record d { cache = λ c j. if c == b && j == i then v else d.cache c j }, f)

-- `ROUND(size, BLOCK_SIZE) / BLOCK_SIZE`
unfoldable pub blocks_of : ℕ → ℕ
blocks_of size = (size + 4095) % 2 ^ 32 / block_size

unfoldable pub clear_slot : Files → Slot → Files
clear_slot (d, f) p =
    if read_slot (d, f) p == 0
    then (d, f)
    else write_slot (free_block d (read_slot (d, f) p), f) p 0

-- `panic_on`
abbrev pub no_failure : Run Files (Unit {0}) → (Files → Run Files (Unit {0})) → Run Files (Unit {0})
no_failure (done _ s) k = k s
no_failure (failed e s) k = panicked
no_failure panicked k = panicked

unfoldable pub drop_indirect : Files → Files
drop_indirect (d, f) =
    if f.f_indirect == 0 then (d, f) else (free_block d f.f_indirect, record f { f_indirect = 0 })

abbrev pub resize : ℕ → Files → Files
resize n (d, f) = (d, record f { f_size = n })

unfoldable pub write_if_dirty : Files → ℕ → Run Files (Unit {0})
write_if_dirty (d, f) b = if block_is_dirty d b then on_disk f (write_block d b) else done tt (d, f)

module _ (mem_alloc : ℕ → Option Error) where
  -- Step 3 of `file_block_walk`: the indirect block is read.
  unfoldable pub indirect_slot : Files → ℕ → Run Files Slot
  indirect_slot (d, f) filebno =
      and_then (on_disk f (read_block mem_alloc d f.f_indirect))
        λ _ s. done (indirect f.f_indirect filebno) s

  unfoldable pub file_block_walk : Files → ℕ → Bool → Run Files Slot
  file_block_walk (d, f) filebno alloc =
      if ltb filebno ndirect
      then done (direct filebno) (d, f)
      else if not (ltb filebno nindirect)
      then failed inval (d, f)
      else if not (f.f_indirect == 0)
      then indirect_slot (d, f) filebno
      else if not alloc
      then failed not_found (d, f)
      else and_then (on_disk f (alloc_block mem_alloc d))
          λ r s. indirect_slot (s.0, record f { f_indirect = r }) filebno

  -- Step 2 of `file_map_block`, at the slot.
  unfoldable pub fill_slot : Files → Slot → Bool → Run Files ℕ
  fill_slot s p alloc =
      if not (read_slot s p == 0)
      then done (read_slot s p) s
      else if not alloc
      then failed not_found s
      else and_then (on_disk s.1 (alloc_block mem_alloc s.0)) λ r t. done r (write_slot t p r)

  unfoldable pub file_map_block : Files → ℕ → Bool → Run Files ℕ
  file_map_block s filebno alloc =
      and_then (file_block_walk s filebno alloc) λ p t. fill_slot t p alloc

  unfoldable pub file_clear_block : Files → ℕ → Run Files (Unit {0})
  file_clear_block s filebno =
      and_then (file_block_walk s filebno false) λ p t. done tt (clear_slot t p)

  -- `*blk` is the block that is read.
  unfoldable pub file_get_block : Files → ℕ → Run Files ℕ
  file_get_block s filebno =
      and_then (file_map_block s filebno true)
        λ diskbno t. and_then (on_disk t.1 (read_block mem_alloc t.0 diskbno)) λ _ u. done diskbno u

  unfoldable pub file_dirty : Files → ℕ → Run Files (Unit {0})
  file_dirty s offset =
      and_then (file_map_block s (offset / block_size) false)
        λ diskbno t. on_disk t.1 (dirty_block t.0 diskbno)

  -- The loop of `file_truncate` from `bno` on, with the rounds that are left.
  unfoldable pub clear_from : ℕ → ℕ → Files → Run Files (Unit {0})
  clear_from zero bno s = done tt s
  clear_from (suc n) bno s = no_failure (file_clear_block s bno) (clear_from n (bno + 1))

  unfoldable pub file_truncate : Files → ℕ → Run Files (Unit {0})
  file_truncate s newsize =
      let old_nblocks = blocks_of s.1.f_size in
      let new_nblocks = if newsize == 0 then 0 else blocks_of newsize in
      and_then (clear_from (old_nblocks - new_nblocks) new_nblocks s)
        λ _ t. done tt (resize newsize (if leb new_nblocks ndirect then drop_indirect t else t))

  -- The loop of `file_flush`, with the rounds that are left. Its errors are passed over.
  unfoldable pub flush_from : ℕ → ℕ → Files → Run Files (Unit {0})
  flush_from zero bno s = done tt s
  flush_from (suc n) bno s = elim (file_map_block s bno false) [
    | panicked ↦ panicked
    | failed e t ↦ flush_from n (bno + 1) t
    | done b t ↦ and_then (write_if_dirty t b) λ _ u. flush_from n (bno + 1) u
  ]

  unfoldable pub file_flush : Files → Run Files (Unit {0})
  file_flush s = flush_from (blocks_of s.1.f_size) 0 s

  -- `file_set_size`, for a file whose directory is not flushed here (`f_dir` is null).
  unfoldable pub file_set_size : Files → ℕ → Run Files (Unit {0})
  file_set_size s newsize =
      if ltb newsize s.1.f_size then file_truncate s newsize else done tt (resize newsize s)
