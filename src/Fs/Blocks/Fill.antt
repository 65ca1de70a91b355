-- ===== src/Fs/Blocks/Fill.antt =====
-- Finding the slot of a block of a file, and filling it.
use mos_enhanced_shell.Base.{
  ℕ, ◌≤◌, ◌<◌, ◌≡◌, ◌≢◌, refl, ◌∙◌, sym, inl, inr, ◌⊎◌, Bool, true, Option, arith, ltb, ◌==◌,
  Bool-cases, subst, ap,
}
use mos_enhanced_shell.Kernel.Fallible.{done, and_then, and_then-done}
use mos_enhanced_shell.Kernel.Result.{Error}
use mos_enhanced_shell.Fs.Disk.{Disk, alloc_block, read_block, block_is_free}
use mos_enhanced_shell.Fs.Disk.Cache.{Allocated, alloc_block-Allocated, read_block-Loaded}
use mos_enhanced_shell.Fs.Blocks.{
  File, Files, Slot, direct, indirect, ndirect, nindirect, on_disk, read_slot, write_slot,
  indirect_slot, file_block_walk, fill_slot, file_map_block,
}
use mos_enhanced_shell.Fs.Blocks.Map.{
  block_of, IsFiles, IsSlot, Walked, read_slot-block_of, block_of-write_slot, write_slot-IsFiles,
  Loaded-Walked, Allocated-indirect, Allocated-IsFiles, Allocated-block_of, kept-IsFiles,
  kept-IsSlot, on_disk-done,
}

-- Block `j` is `b` now, and the other blocks of the file are where they were.
pub record Filled (s : Files) (j b : ℕ) (t : Files) : Type 0 where
  pub mapped_here : block_of t j ≡ b
  pub some_block : b ≢ 0
  pub others : (i : ℕ) → i < nindirect → i ≢ j → block_of t i ≡ block_of s i
  pub well : IsFiles t
  pub origin : (block_of s j ≡ b) ⊎ ((block_of s j ≡ 0) × (block_is_free s.0 b ≡ true))

found-Filled : (s : Files) (j b : ℕ) → IsFiles s → block_of s j ≡ b → b ≢ 0 → Filled s j b s
found-Filled s j b w here there = record {
  mapped_here = here;
  some_block = there;
  others = λ i h k. refl;
  well = w;
  origin = inl here;
}

new-Filled :
    (d d' : Disk) (f : File) (b j : ℕ) (p : Slot)
    → IsFiles (d, f)
    → Allocated d b d'
    → IsSlot (d, f) j p
    → block_of (d, f) j ≡ 0
    → Filled (d, f) j b (write_slot (d', f) p b)
new-Filled d d' f b j p w a at empty =
    let kept : IsSlot (d', f) j p = kept-IsSlot d d' f b j p w a at in
    record {
      mapped_here = ground (arith, block_of-write_slot (d', f) j j b p kept);
      some_block = λ e. ground (arith, a.low);
      others = λ i near other.
          ground
            (arith, block_of-write_slot (d', f) j i b p kept, Allocated-block_of d d' f b i w a);
      well = write_slot-IsFiles (d', f) j b p kept (kept-IsFiles d d' f b w a);
      origin = inr (empty, a.was_free);
    }

Walked-Filled :
    (s u t : Files) (j b : ℕ) (p : Slot)
    → j < nindirect
    → Walked s j p u
    → Filled u j b t
    → Filled s j b t
Walked-Filled s u t j b p inside w f = record {
  mapped_here = f.mapped_here;
  some_block = f.some_block;
  others = λ i near other. f.others i near other ∙ w.blocks i near;
  well = f.well;
  origin = elim f.origin [
    | inl here ↦ inl (sym (w.blocks j inside) ∙ here)
    | inr (empty, free) ↦ inr (sym (w.blocks j inside) ∙ empty, w.free_before b free)
  ];
}

module _ (mem_alloc : ℕ → Option Error) where
  indirect_slot-Walked :
      (s t : Files) (j : ℕ) (p : Slot)
      → ndirect ≤ j
      → s.1.f_indirect ≢ 0
      → IsFiles s
      → indirect_slot mem_alloc s j ≡ done p t
      → Walked s j p t
  unfolding indirect_slot
  indirect_slot-Walked (d, f) t j p far there w h =
      let (u, s, read, rest) =
        and_then-done (on_disk f (read_block mem_alloc d f.f_indirect)) _ p t h in
      let (d', ran, same) = on_disk-done f (read_block mem_alloc d f.f_indirect) u s read in
      let walked =
        Loaded-Walked d d' f j far there w (read_block-Loaded mem_alloc d d' f.f_indirect ran) in
      let here : indirect f.f_indirect j ≡ p = ground arith in
      let end : (d', f) ≡ t = sym same ∙ ground arith in
      subst (λ q. Walked (d, f) j q t) here
        (subst (Walked (d, f) j (indirect f.f_indirect j)) end walked)

  -- The first ten blocks.
  near-Walked : (s : Files) (j : ℕ) → j < ndirect → IsFiles s → Walked s j (direct j) s
  near-Walked s j near w = record {
    slot = (refl, near);
    blocks = λ i h. refl;
    well = w;
    free_before = λ b free. free;
    free_behind = λ b free. inl free;
    indirect_same = λ h. refl;
  }

  -- The indirect block is made.
  made-Walked :
      (d d' : Disk) (f : File) (r j : ℕ) (p : Slot) (t : Files)
      → f.f_indirect ≡ 0
      → ndirect ≤ j
      → IsFiles (d, f)
      → Allocated d r d'
      → indirect_slot mem_alloc (d', record f { f_indirect = r }) j ≡ done p t
      → Walked (d, f) j p t
  made-Walked d d' f r j p t none_yet far w a h =
      let above : r ≢ 0 = λ e. ground (arith, a.low) in
      let walked =
        indirect_slot-Walked (d', record f { f_indirect = r }) t j p far above
          (Allocated-IsFiles d d' f r w a) h in
      record {
        slot = walked.slot;
        blocks = λ i near. walked.blocks i near ∙ Allocated-indirect d d' f r i none_yet w a;
        well = walked.well;
        free_before = λ b free.
            let still : block_is_free d' b ≡ true = walked.free_before b free in
            ground (arith, a.bits b);
        free_behind = λ b free. elim (Bool-cases (b == r)) [
          | inl made ↦
              let here : t.1.f_indirect ≡ r = walked.indirect_same above in
              inr (ground arith, far, none_yet)
          | inr other ↦ elim (walked.free_behind b (ground (arith, a.bits b))) [
            | inl still ↦ inl still
            | inr (_, _, nothing) ↦ absurd (above nothing)
          ]
        ];
        indirect_same = λ there. absurd (there none_yet);
      }

  pub file_block_walk-Walked :
      (s t : Files) (j : ℕ) (alloc : Bool) (p : Slot)
      → IsFiles s
      → file_block_walk mem_alloc s j alloc ≡ done p t
      → Walked s j p t
  unfolding file_block_walk
  file_block_walk-Walked (d, f) t j alloc p w h = elim (Bool-cases (ltb j ndirect)) [
    | inl near ↦
        let here : direct j ≡ p = ground arith in
        let end : (d, f) ≡ t = ground arith in
        subst (λ q. Walked (d, f) j q t) here
          (subst (Walked (d, f) j (direct j)) end (near-Walked (d, f) j (ground arith) w))
    | inr far ↦ elim (Bool-cases (f.f_indirect == 0)) [
      | inr there ↦ indirect_slot-Walked (d, f) t j p (ground arith) (ground arith) w (ground arith)
      | inl missing ↦
          let asked : and_then (on_disk f (alloc_block mem_alloc d))
                (λ r s. indirect_slot mem_alloc (s.0, record f { f_indirect = r }) j)
              ≡ done p t =
            ground arith in
          let (r, s, ran, rest) = and_then-done (on_disk f (alloc_block mem_alloc d)) _ p t asked in
          let (d', made, same) = on_disk-done f (alloc_block mem_alloc d) r s ran in
          made-Walked d d' f r j p t (ground arith) (ground arith) w
            (alloc_block-Allocated mem_alloc d d' r made)
            (ap (λ u. indirect_slot mem_alloc (u.0, record f { f_indirect = r }) j) (sym same)
              ∙ rest)
    ]
  ]

  -- The slot filled, with what the result says of the state in which it was found.
  fill_slot-Filled :
      (s t : Files) (j : ℕ) (alloc : Bool) (p : Slot) (b : ℕ)
      → IsSlot s j p
      → IsFiles s
      → fill_slot mem_alloc s p alloc ≡ done b t
      → Filled s j b t
  unfolding fill_slot
  fill_slot-Filled (d, f) t j alloc p b at w h =
      let held : read_slot (d, f) p ≡ block_of (d, f) j = read_slot-block_of (d, f) j p at in
      elim (Bool-cases (read_slot (d, f) p == 0)) [
        | inr there ↦
            let here : read_slot (d, f) p ≡ b = ground arith in
            let end : (d, f) ≡ t = ground arith in
            subst (λ q. Filled (d, f) j b q) end
              (found-Filled (d, f) j b w (sym held ∙ here) (λ e. ground arith))
        | inl empty ↦
            let asked : and_then (on_disk f (alloc_block mem_alloc d))
                  (λ r u. done r (write_slot u p r))
                ≡ done b t =
              ground arith in
            let (r, s, ran, rest) =
              and_then-done (on_disk f (alloc_block mem_alloc d)) _ b t asked in
            let (d', made, same) = on_disk-done f (alloc_block mem_alloc d) r s ran in
            let here : r ≡ b = ground arith in
            let end : write_slot (d', f) p r ≡ t =
              ap (λ u. write_slot u p r) (sym same) ∙ ground arith in
            let took : Allocated d r d' = alloc_block-Allocated mem_alloc d d' r made in
            let filled = new-Filled d d' f r j p w took at (sym held ∙ ground arith) in
            subst (λ q. Filled (d, f) j q t) here (subst (Filled (d, f) j r) end filled)
      ]

  walked-inside :
      (s t : Files) (j : ℕ) (alloc : Bool) (p : Slot)
      → file_block_walk mem_alloc s j alloc ≡ done p t
      → j < nindirect
  unfolding file_block_walk
  walked-inside s t j alloc p h = elim (Bool-cases (ltb j nindirect)) [
    | inl inside ↦ ground arith
    | inr outside ↦ absurd (ground arith)
  ]

  -- A block of the file that is asked for is in the map afterwards: the one that was there before, or
  -- one that was free. The other blocks of the file stay where they were, and so does what is true of
  -- every file.
  pub file_map_block-Filled :
      (s t : Files) (j : ℕ) (alloc : Bool) (b : ℕ)
      → IsFiles s
      → file_map_block mem_alloc s j alloc ≡ done b t
      → Filled s j b t
  unfolding file_map_block
  file_map_block-Filled s t j alloc b w h =
      let (p, u, walked, rest) = and_then-done (file_block_walk mem_alloc s j alloc) _ b t h in
      let there = file_block_walk-Walked s u j alloc p w walked in
      Walked-Filled s u t j b p (walked-inside s u j alloc p walked) there
        (fill_slot-Filled u t j alloc p b there.slot there.well rest)
