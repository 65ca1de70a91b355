-- ===== src/Fs/Blocks/Tests.antt =====
-- Tests on a disk of twenty blocks, with a file of twelve: ten blocks of its own and two in the
-- indirect block 14.
use mos_enhanced_shell.Base.{
  ℕ, ◌+◌, ◌≡◌, refl, inr, true, ◌&&◌, Option, none, [], ◌∷◌, arith, ltb, leb, ◌==◌, if◌then◌else◌,
}
use mos_enhanced_shell.Kernel.Result.{Error}
use mos_enhanced_shell.Kernel.Fallible.{done, panicked}
use mos_enhanced_shell.Fs.Disk.{Disk, alloc_block_num, block_is_free, fs_sync}
use mos_enhanced_shell.Fs.Disk.Bits.{Lowest, alloc_block_num-Lowest}
use mos_enhanced_shell.Fs.Disk.Sync.{Synced, fs_sync-Synced}
use mos_enhanced_shell.Fs.Blocks.{File, Files, file_map_block, file_truncate, blocks_of}
use mos_enhanced_shell.Fs.Blocks.Map.{block_of, IsFiles}
use mos_enhanced_shell.Fs.Blocks.Outcome.{Ended, file_map_block-Ended}
use mos_enhanced_shell.Fs.Blocks.Truncate.{Truncated, file_truncate-sparse}
use mos_enhanced_shell.Fs.Blocks.Total.{IsTrimmable, file_truncate-total}

-- Blocks 17 to 19 are free. Block `i` of the file is `i + 4`, and the last two are 15 and 16.
abbrev disk20 : Disk
disk20 = record {
  s_nblocks = 20;
  bitmap = λ k i. k == 0 && (leb 17 i && ltb i 20);
  disk_bitmap = λ k i. k == 0 && (leb 17 i && ltb i 20);
  mapped = λ b. b == 4;
  dirty = λ b. b == 4;
  cache = λ b i. if b == 4 then i else 0;
  disk = λ b i. if b == 14 && i == 10 then 15 else if b == 14 && i == 11 then 16 else 0;
}

abbrev file12 : File
file12 = record {
  f_name = 97 ∷ [];
  f_size = 49152;
  f_type = 0;
  f_direct = λ i. i + 4;
  f_indirect = 14;
}

abbrev always : ℕ → Option Error
always b = none

abbrev filed : Files
filed = (disk20, file12)

filed-IsFiles : IsFiles filed
unfolding block_is_free
filed-IsFiles = record { indirect_used = λ h. refl; fresh = λ b free. ground arith }

-- Block 10 of the file is block 15.
found_block : ℕ × ℕ
found_block = (block_of filed 0, block_of filed 10)

found : found_block ≡ (4, 15)
unfolding found_block block_of
found = refl

file_map_block-Ended_example : Ended filed 12 true (file_map_block always filed 12 true)
file_map_block-Ended_example =
    file_map_block-Ended always (λ b. refl) filed 12 true filed-IsFiles (λ h. omega arith)
      (omega arith)

twelve : blocks_of 49152 ≡ 12
unfolding blocks_of
twelve = refl

alloc_block_num-Lowest_example : Lowest disk20 (alloc_block_num disk20)
alloc_block_num-Lowest_example = alloc_block_num-Lowest disk20

fs_sync-Synced_example : (t : Disk) × (fs_sync disk20 ≡ done tt t) × Synced disk20 20 0 t
fs_sync-Synced_example = fs_sync-Synced disk20

filed-IsTrimmable : IsTrimmable filed
unfolding block_is_free block_of
filed-IsTrimmable = record {
  inside = λ h. ground arith;
  in_use = λ h. refl;
  apart = λ i h e. ground arith;
}

-- Cut to five blocks.
file_truncate-total_example :
    (t : Files) × (file_truncate always filed 20000 ≡ done tt t) × Truncated filed 20000 t
file_truncate-total_example =
    file_truncate-total always (λ b. refl) filed 20000 filed-IsTrimmable (omega (arith, twelve))
      (inr (λ h. ground arith))

-- The same file without its indirect block.
abbrev sparse : Files
sparse = (disk20, record file12 { f_indirect = 0 })

file_truncate-sparse_example : file_truncate always sparse 0 ≡ panicked
file_truncate-sparse_example =
    file_truncate-sparse always sparse 0 refl (omega (arith, twelve)) (omega (arith, twelve))
