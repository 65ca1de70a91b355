-- ===== src/Fs/Disk/Sync.antt =====
-- What `fs_sync` writes.
use mos_enhanced_shell.Base.{
  ℕ, zero, suc, ◌+◌, ◌≡◌, refl, ap, inl, inr, true, ◌&&◌, arith, ltb, leb, ◌==◌, if◌then◌else◌,
  Bool-cases,
}
use mos_enhanced_shell.Kernel.Fallible.{done}
use mos_enhanced_shell.Fs.Disk.{Disk, block_is_dirty, write_block, sync_from, fs_sync}

-- The dirty blocks from `i` on, `n` of them, are on the disk as they are in the cache; the other
-- blocks of the disk and the cache are as before.
pub record Synced (d : Disk) (n i : ℕ) (t : Disk) : Type 0 where
  pub written :
      (b j : ℕ)
      → t.disk b j
        ≡ (if leb i b && (ltb b (i + n) && block_is_dirty d b) then d.cache b j else d.disk b j)
  pub same_cache : t.cache ≡ d.cache
  pub same_mapped : t.mapped ≡ d.mapped
  pub same_dirty : t.dirty ≡ d.dirty
  pub same_bitmap : t.bitmap ≡ d.bitmap

abbrev written_one : Disk → ℕ → Disk
written_one d i = record d { disk = λ b. if b == i then d.cache b else d.disk b }

write_block-dirty :
    (d : Disk) (i : ℕ) → block_is_dirty d i ≡ true → write_block d i ≡ done tt (written_one d i)
unfolding write_block block_is_dirty
write_block-dirty d i h = ground arith

written_one-dirty : (d : Disk) (i b : ℕ) → block_is_dirty (written_one d i) b ≡ block_is_dirty d b
unfolding block_is_dirty
written_one-dirty d i b = refl

sync_from-Synced :
    (n i : ℕ) (d : Disk) → (t : Disk) × (sync_from n i d ≡ done tt t) × Synced d n i t
unfolding sync_from
sync_from-Synced zero i d = (
  d,
  refl,
  record {
    written = λ b j. ground arith;
    same_cache = refl;
    same_mapped = refl;
    same_dirty = refl;
    same_bitmap = refl;
  },
)
sync_from-Synced (suc n) i d = elim (Bool-cases (block_is_dirty d i)) [
  | inr clean ↦
      let (t, ran, r) = sync_from-Synced n (i + 1) d in
      (
        t,
        rw clean ran,
        record {
          written = λ b j. elim (Bool-cases (b == i)) [
            | inl same ↦
                let at : b ≡ i = ground arith in
                ground (arith, r.written b j, ap (block_is_dirty d) at)
            | inr other ↦ ground (arith, r.written b j)
          ];
          same_cache = r.same_cache;
          same_mapped = r.same_mapped;
          same_dirty = r.same_dirty;
          same_bitmap = r.same_bitmap;
        },
      )
  | inl stale ↦
      let (t, ran, r) = sync_from-Synced n (i + 1) (written_one d i) in
      (
        t,
        rw (stale, write_block-dirty d i stale) ran,
        record {
          written = λ b j. elim (Bool-cases (b == i)) [
            | inl same ↦
                let at : b ≡ i = ground arith in
                ground (arith, r.written b j, written_one-dirty d i b, ap (block_is_dirty d) at)
            | inr other ↦ ground (arith, r.written b j, written_one-dirty d i b)
          ];
          same_cache = r.same_cache;
          same_mapped = r.same_mapped;
          same_dirty = r.same_dirty;
          same_bitmap = r.same_bitmap;
        },
      )
]

-- On every disk, `fs_sync` returns; the blocks that are dirty in the cache are then on the disk as
-- they are in the cache, the other blocks of the disk are as before, and so is the cache.
pub fs_sync-Synced : (d : Disk) → (t : Disk) × (fs_sync d ≡ done tt t) × Synced d d.s_nblocks 0 t
unfolding fs_sync
fs_sync-Synced d = sync_from-Synced d.s_nblocks 0 d
