-- ===== src/Fs/Blocks/Map.antt =====
-- The block map as a function from the blocks of a file to blocks of the disk.
use mos_enhanced_shell.Base.{
  ℕ, ◌≤◌, ◌<◌, ◌≡◌, ◌≢◌, refl, ◌∙◌, sym, inl, inr, ◌⊎◌, true, false, arith, ltb, ◌==◌,
  if◌then◌else◌, Bool-cases, ap,
}
use mos_enhanced_shell.Kernel.Fallible.{Run, done, failed, panicked}
use mos_enhanced_shell.Fs.Disk.{Disk, block_is_free}
use mos_enhanced_shell.Fs.Disk.Cache.{word, Allocated, Loaded}
use mos_enhanced_shell.Fs.Blocks.{
  File, Files, Slot, direct, indirect, ndirect, nindirect, on_disk, read_slot, write_slot,
}

-- The block of the disk that holds block `j` of the file, 0 for none.
unfoldable pub block_of : Files → ℕ → ℕ
block_of (d, f) j =
    if ltb j ndirect then f.f_direct j else if f.f_indirect == 0 then 0 else word d f.f_indirect j

-- The indirect block is in use, and no free block is in the cache.
pub record IsFiles (s : Files) : Type 0 where
  pub indirect_used : s.1.f_indirect ≢ 0 → block_is_free s.0 s.1.f_indirect ≡ false
  pub fresh : (b : ℕ) → block_is_free s.0 b ≡ true → s.0.mapped b ≡ false

-- The slot of block `j`: where it is, and that it is there to be written.
abbrev pub IsSlot : Files → ℕ → Slot → Type 0
IsSlot s j (direct i) = (i ≡ j) × (j < ndirect)
IsSlot s j (indirect b i) =
    (i ≡ j) × (ndirect ≤ j) × (b ≡ s.1.f_indirect) × (b ≢ 0) × (s.0.mapped b ≡ true)

-- The block is still free, or it is the indirect block that was made for block `j`.
abbrev pub IsFreeBut : Files → ℕ → Files → ℕ → Type 0
IsFreeBut s j t b =
    (block_is_free t.0 b ≡ true) ⊎ ((b ≡ t.1.f_indirect) × (ndirect ≤ j) × (s.1.f_indirect ≡ 0))

-- The state in which a slot was found: the file has the same blocks, and no more are free.
pub record Walked (s : Files) (j : ℕ) (p : Slot) (t : Files) : Type 0 where
  pub slot : IsSlot t j p
  pub blocks : (i : ℕ) → i < nindirect → block_of t i ≡ block_of s i
  pub well : IsFiles t
  pub free_before : (b : ℕ) → block_is_free t.0 b ≡ true → block_is_free s.0 b ≡ true
  pub free_behind : (b : ℕ) → block_is_free s.0 b ≡ true → IsFreeBut s j t b
  pub indirect_same : s.1.f_indirect ≢ 0 → t.1.f_indirect ≡ s.1.f_indirect

pub read_slot-block_of :
    (s : Files) (j : ℕ) (p : Slot) → IsSlot s j p → read_slot s p ≡ block_of s j
unfolding read_slot block_of
read_slot-block_of (d, f) j (direct i) h = ground arith
read_slot-block_of (d, f) j (indirect b i) h = ground arith

pub block_of-write_slot :
    (s : Files) (j i v : ℕ) (p : Slot)
    → IsSlot s j p
    → block_of (write_slot s p v) i ≡ (if i == j then v else block_of s i)
unfolding write_slot block_of
block_of-write_slot (d, f) j i v (direct k) h = ground arith
block_of-write_slot (d, f) j i v (indirect b k) h = ground arith

pub write_slot-IsFiles :
    (s : Files) (j v : ℕ) (p : Slot) → IsSlot s j p → IsFiles s → IsFiles (write_slot s p v)
unfolding write_slot block_is_free
write_slot-IsFiles (d, f) j v (direct i) h w = record {
  indirect_used = w.indirect_used;
  fresh = w.fresh;
}
write_slot-IsFiles (d, f) j v (indirect b i) h w = record {
  indirect_used = w.indirect_used;
  fresh = w.fresh;
}

-- Reading the indirect block that the file has.
pub Loaded-Walked :
    (d d' : Disk) (f : File) (j : ℕ)
    → ndirect ≤ j
    → f.f_indirect ≢ 0
    → IsFiles (d, f)
    → Loaded d f.f_indirect d'
    → Walked (d, f) j (indirect f.f_indirect j) (d', f)
unfolding block_of
Loaded-Walked d d' f j far there w l = record {
  slot = (refl, far, refl, there, l.cached);
  blocks = λ i h. ground (arith, l.words f.f_indirect i);
  well = record {
    indirect_used = λ h. l.bits f.f_indirect ∙ w.indirect_used h;
    fresh = λ b free.
        let before : block_is_free d b ≡ true = sym (l.bits b) ∙ free in
        l.pages b (λ e. ground (arith, l.in_use, ap (block_is_free d) e)) ∙ w.fresh b before;
  };
  free_before = λ b free. sym (l.bits b) ∙ free;
  free_behind = λ b free. inl (l.bits b ∙ free);
  indirect_same = λ h. refl;
}

used_not-Allocated : (d d' : Disk) (b c : ℕ) → Allocated d b d' → block_is_free d c ≡ false → c ≢ b
used_not-Allocated d d' b c a used e = ground (arith, a.was_free, ap (block_is_free d) e)

Allocated-fresh :
    (d d' : Disk) (f g : File) (b : ℕ)
    → IsFiles (d, f)
    → Allocated d b d'
    → (c : ℕ) → block_is_free d' c ≡ true
    → d'.mapped c ≡ false
Allocated-fresh d d' f g b w a c free =
    let other : c ≢ b = ground (arith, a.bits c) in
    a.others.pages c other ∙ w.fresh c (ground (arith, a.bits c))

-- A new indirect block.
pub Allocated-indirect :
    (d d' : Disk) (f : File) (b i : ℕ)
    → f.f_indirect ≡ 0
    → IsFiles (d, f)
    → Allocated d b d'
    → block_of (d', record f { f_indirect = b }) i ≡ block_of (d, f) i
unfolding block_of
Allocated-indirect d d' f b i none_yet w a = ground (arith, a.zeros i (w.fresh b a.was_free), a.low)

pub Allocated-IsFiles :
    (d d' : Disk) (f : File) (b : ℕ)
    → IsFiles (d, f)
    → Allocated d b d'
    → IsFiles (d', record f { f_indirect = b })
Allocated-IsFiles d d' f b w a = record {
  indirect_used = λ h. ground (arith, a.bits b);
  fresh = Allocated-fresh d d' f f b w a;
}

-- A new block for the file.
pub Allocated-block_of :
    (d d' : Disk) (f : File) (b i : ℕ)
    → IsFiles (d, f)
    → Allocated d b d'
    → block_of (d', f) i ≡ block_of (d, f) i
unfolding block_of
Allocated-block_of d d' f b i w a = elim (Bool-cases (f.f_indirect == 0)) [
  | inl no_block ↦ ground arith
  | inr there ↦
      let other : f.f_indirect ≢ b =
        used_not-Allocated d d' b f.f_indirect a (w.indirect_used (ground arith)) in
      ground (arith, a.others.words f.f_indirect i other)
]

pub kept-IsFiles :
    (d d' : Disk) (f : File) (b : ℕ) → IsFiles (d, f) → Allocated d b d' → IsFiles (d', f)
kept-IsFiles d d' f b w a = record {
  indirect_used = λ h. ground (arith, a.bits f.f_indirect, w.indirect_used h);
  fresh = Allocated-fresh d d' f f b w a;
}

pub kept-IsSlot :
    (d d' : Disk) (f : File) (b j : ℕ) (p : Slot)
    → IsFiles (d, f)
    → Allocated d b d'
    → IsSlot (d, f) j p
    → IsSlot (d', f) j p
kept-IsSlot d d' f b j (direct i) w a h = h
kept-IsSlot d d' f b j (indirect c i) w a (same, far, here, there, cached) =
    let used : block_is_free d c ≡ false =
      ap (block_is_free d) here ∙ w.indirect_used (λ e. there (here ∙ e)) in
    (same, far, here, there, a.others.pages c (used_not-Allocated d d' b c a used) ∙ cached)

pub on_disk-done :
    {A : Type 0} (f : File) (r : Run Disk A) (a : A) (t : Files)
    → on_disk f r ≡ done a t
    → (d : Disk) × (r ≡ done a d) × (t ≡ (d, f))
on_disk-done f (done a d) a' t h = (d, ground arith, ground arith)
on_disk-done f (failed e d) a' t h = cc
on_disk-done f panicked a' t h = cc
