-- ===== src/Fs/Blocks/Outcome.antt =====
-- How `file_map_block` ends.
use mos_enhanced_shell.Base.{
  ℕ, ◌<◌, ◌≤◌, ◌≡◌, ◌≢◌, refl, ◌∙◌, sym, inl, inr, ◌⊎◌, Bool, true, false, Option, none, arith, ltb,
  ◌==◌, if◌then◌else◌, Bool-cases, subst,
}
use mos_enhanced_shell.Kernel.Result.{Error, no_disk, not_found}
use mos_enhanced_shell.Kernel.Fallible.{Run, done, failed, Run-cases}
use mos_enhanced_shell.Fs.Disk.{Disk, block_is_free, map_block, alloc_block, alloc_block_num}
use mos_enhanced_shell.Fs.Disk.Bits.{Lowest, alloc_block_num-Lowest}
use mos_enhanced_shell.Fs.Disk.Cache.{Allocated, alloc_block-Allocated}
use mos_enhanced_shell.Fs.Blocks.{
  File, Files, Slot, direct, indirect, ndirect, nindirect, read_slot, write_slot, indirect_slot,
  file_block_walk, fill_slot, file_map_block,
}
use mos_enhanced_shell.Fs.Blocks.Map.{block_of, IsFiles, IsFreeBut, read_slot-block_of}
use mos_enhanced_shell.Fs.Blocks.Fill.{Filled, file_block_walk-Walked, file_map_block-Filled}
use mos_enhanced_shell.Fs.Blocks.Total.{read_block-done}

-- No block from 3 on was free, but for one that became the indirect block for block `j`.
abbrev pub IsFull : Files → ℕ → Files → Type 0
IsFull s j t =
    (c : ℕ)
    → (c < 3)
      ⊎ (block_is_free s.0 c ≡ false)
      ⊎ ((c ≡ t.1.f_indirect) × (ndirect ≤ j) × (s.1.f_indirect ≡ 0))

-- The block is in the map, or the disk is full, or there is no such block and none is asked for.
abbrev pub Ended : Files → ℕ → Bool → Run Files ℕ → Type 0
Ended s j alloc r =
    ((b : ℕ) × (t : Files) × (r ≡ done b t) × Filled s j b t)
    ⊎ (((t : Files) × (r ≡ failed no_disk t) × (alloc ≡ true) × (block_of s j ≡ 0) × IsFull s j t)
        ⊎ ((t : Files) × (r ≡ failed not_found t) × (alloc ≡ false) × (block_of s j ≡ 0)))

full_behind :
    (s u : Files) (j c : ℕ)
    → (block_is_free s.0 c ≡ true → IsFreeBut s j u c)
    → (c < 3) ⊎ (block_is_free u.0 c ≡ false)
    → (c < 3)
      ⊎ (block_is_free s.0 c ≡ false)
      ⊎ ((c ≡ u.1.f_indirect) × (ndirect ≤ j) × (s.1.f_indirect ≡ 0))
full_behind s u j c behind (inl low) = inl low
full_behind s u j c behind (inr used) = elim (Bool-cases (block_is_free s.0 c)) [
  | inr before ↦ inr (inl before)
  | inl free ↦ elim (behind free) [ inl still ↦ absurd (ground arith) | inr made ↦ inr (inr made) ]
]

module _ (mem_alloc : ℕ → Option Error) (room : (b : ℕ) → mem_alloc b ≡ none) where
  map_block-done : (d : Disk) (b : ℕ) → (d' : Disk) × (map_block mem_alloc d b ≡ done tt d')
  unfolding map_block
  map_block-done d b = elim (Bool-cases (d.mapped b)) [
    | inl there ↦ (d, ground arith)
    | inr absent ↦ (
      record d {
        mapped = λ c. if c == b then true else d.mapped c;
        dirty = λ c. if c == b then false else d.dirty c;
        cache = λ c i. if c == b then 0 else d.cache c i;
      },
      ground (arith, room b),
    )
  ]

  alloc_block-ended :
      (d : Disk)
      → ((b : ℕ) × (d' : Disk) × (alloc_block mem_alloc d ≡ done b d'))
        ⊎ ((alloc_block mem_alloc d ≡ failed no_disk d)
            × ((c : ℕ) → (c < 3) ⊎ (block_is_free d c ≡ false)))
  unfolding alloc_block
  alloc_block-ended d = elim (Run-cases (alloc_block_num d)) [
    | inl (b, d', e) ↦ let (u, m) = map_block-done d' b in inl (b, u, ground (arith, m))
    | inr (inl (x, d', e)) ↦
        let (code, same, used) = subst (Lowest d) e (alloc_block_num-Lowest d) in
        inr (ground (arith, code), used)
    | inr (inr e) ↦ absurd (subst (Lowest d) e (alloc_block_num-Lowest d))
  ]

  indirect_slot-done :
      (d : Disk) (f : File) (j : ℕ)
      → f.f_indirect < d.s_nblocks
      → block_is_free d f.f_indirect ≡ false
      → (t : Files) × (indirect_slot mem_alloc (d, f) j ≡ done (indirect f.f_indirect j) t)
  unfolding indirect_slot
  indirect_slot-done d f j inside used =
      let (d', read) = read_block-done mem_alloc room d f.f_indirect inside used in
      ((d', f), rw read refl)

  file_block_walk-ended :
      (s : Files) (j : ℕ) (alloc : Bool)
      → IsFiles s
      → (s.1.f_indirect ≢ 0 → s.1.f_indirect < s.0.s_nblocks)
      → j < nindirect
      → ((p : Slot) × (t : Files) × (file_block_walk mem_alloc s j alloc ≡ done p t))
        ⊎ (((file_block_walk mem_alloc s j alloc ≡ failed no_disk s)
              × (alloc ≡ true)
              × (block_of s j ≡ 0)
              × ((c : ℕ) → (c < 3) ⊎ (block_is_free s.0 c ≡ false)))
            ⊎ ((file_block_walk mem_alloc s j alloc ≡ failed not_found s)
                × (alloc ≡ false)
                × (block_of s j ≡ 0)))
  unfolding file_block_walk block_of
  file_block_walk-ended (d, f) j alloc w inside small = elim (Bool-cases (ltb j ndirect)) [
    | inl near ↦ inl (direct j, (d, f), ground arith)
    | inr far ↦
        let deep : ltb j nindirect ≡ true = ground arith in
        elim (Bool-cases (f.f_indirect == 0)) [
          | inr there ↦
              let (t, read) =
                indirect_slot-done d f j (inside (ground arith)) (w.indirect_used (ground arith)) in
              inl (indirect f.f_indirect j, t, rw (far, deep, there) read)
          | inl missing ↦ elim (Bool-cases alloc) [
            | inr refused ↦ inr (inr (ground arith, refused, ground arith))
            | inl asked ↦ elim (alloc_block-ended d) [
              | inr (full, taken) ↦
                  inr (inl (rw (far, deep, missing, asked, full) refl, asked, ground arith, taken))
              | inl (r, d', made) ↦
                  let a : Allocated d r d' = alloc_block-Allocated mem_alloc d d' r made in
                  let (t, read) =
                    indirect_slot-done d' (record f { f_indirect = r }) j
                      (ground (arith, a.inside, a.others.size)) (ground (arith, a.bits r)) in
                  inl (indirect r j, t, rw (far, deep, missing, asked, made) read)
            ]
          ]
        ]
  ]

  fill_slot-ended :
      (s : Files) (p : Slot) (alloc : Bool)
      → ((b : ℕ) × (t : Files) × (fill_slot mem_alloc s p alloc ≡ done b t))
        ⊎ (((fill_slot mem_alloc s p alloc ≡ failed no_disk s)
              × (alloc ≡ true)
              × (read_slot s p ≡ 0)
              × ((c : ℕ) → (c < 3) ⊎ (block_is_free s.0 c ≡ false)))
            ⊎ ((fill_slot mem_alloc s p alloc ≡ failed not_found s)
                × (alloc ≡ false)
                × (read_slot s p ≡ 0)))
  unfolding fill_slot
  fill_slot-ended (d, f) p alloc = elim (Bool-cases (read_slot (d, f) p == 0)) [
    | inr there ↦ inl (read_slot (d, f) p, (d, f), ground arith)
    | inl empty ↦ elim (Bool-cases alloc) [
      | inr refused ↦ inr (inr (ground arith, refused, ground arith))
      | inl asked ↦ elim (alloc_block-ended d) [
        | inr (full, taken) ↦ inr (inl (rw (empty, asked, full) refl, asked, ground arith, taken))
        | inl (r, d', made) ↦ inl (r, write_slot (d', f) p r, rw (empty, asked, made) refl)
      ]
    ]
  ]

  -- When memory can be had, the indirect block of a file is in use and no free block is in the
  -- cache, for each of the 1024 blocks `file_map_block` gives the block that is in the map, or one
  -- that was free, which is in the map afterwards while the other blocks of the file stay where
  -- they were; or there is no such block, one was asked for, and none was free from block 3 on but
  -- for one that was made the indirect block; or there is no such block and none was asked for.
  pub file_map_block-Ended :
      (s : Files) (j : ℕ) (alloc : Bool)
      → IsFiles s
      → (s.1.f_indirect ≢ 0 → s.1.f_indirect < s.0.s_nblocks)
      → j < nindirect
      → Ended s j alloc (file_map_block mem_alloc s j alloc)
  unfolding file_map_block
  file_map_block-Ended s j alloc w inside small =
      elim (file_block_walk-ended s j alloc w inside small) [
        | inr (inl (full, asked, empty, taken)) ↦ inr (
            inl (
              s,
              rw full refl,
              asked,
              empty,
              λ c. elim (taken c) [ inl low ↦ inl low | inr used ↦ inr (inl used) ],
            ))
        | inr (inr (lost, refused, empty)) ↦ inr (inr (s, rw lost refl, refused, empty))
        | inl (p, u, walked) ↦
            let there = file_block_walk-Walked mem_alloc s u j alloc p w walked in
            elim (fill_slot-ended u p alloc) [
              | inr (inl (full, asked, empty, taken)) ↦ inr (
                  inl (
                    u,
                    rw walked full,
                    asked,
                    sym (there.blocks j small)
                        ∙ (sym (read_slot-block_of u j p there.slot) ∙ empty),
                    λ c. full_behind s u j c (there.free_behind c) (taken c),
                  ))
              | inr (inr (lost, refused, empty)) ↦ inr (
                  inr (
                    u,
                    rw walked lost,
                    refused,
                    sym (there.blocks j small)
                        ∙ (sym (read_slot-block_of u j p there.slot) ∙ empty),
                  ))
              | inl (b, t, ran) ↦
                  let all : file_map_block mem_alloc s j alloc ≡ done b t = rw walked ran in
                  inl (b, t, all, file_map_block-Filled mem_alloc s t j alloc b w all)
            ]
      ]
