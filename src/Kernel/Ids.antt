-- ===== src/Kernel/Ids.antt =====
-- Identifiers in kern/env.c: the bitmap of address space ids, by word and bit, and `mkenvid`.
use mos_enhanced_shell.Base.{
  ℕ, zero, suc, ◌+◌, ◌*◌, ◌/◌, ◌%◌, ◌^◌, ◌≤◌, ◌<◌, ◌≡◌, Bool, true, false, ◌&&◌, Option, none, some,
  arith, ◌==◌, if◌then◌else◌, Bool-cases, inl, inr,
}

abbrev pub Bitmap : Type 0
Bitmap = ℕ → ℕ → Bool

abbrev pub nasid : ℕ
nasid = 256

-- The bit of `i`.
abbrev pub bit : Bitmap → ℕ → Bool
bit m i = m (i / 32) (i % 32)

unfoldable pub set_bit : Bitmap → ℕ → Bool → Bitmap
set_bit m i v index inner = if index == i / 32 && inner == i % 32 then v else m index inner

-- The loop of `asid_alloc` from `i` on, with the rounds that are left; `none` for an error.
unfoldable pub alloc_from : ℕ → ℕ → Bitmap → Option (ℕ × Bitmap)
alloc_from zero i m = none
alloc_from (suc n) i m =
    let rest = alloc_from n (i + 1) m in if bit m i then rest else some (i, set_bit m i true)

unfoldable pub asid_alloc : Bitmap → Option (ℕ × Bitmap)
asid_alloc m = alloc_from nasid 0 m

unfoldable pub asid_free : Bitmap → ℕ → Bitmap
asid_free m i = set_bit m i false

-- `mkenvid` for the slot `e`, which lies below the bits of the counter, so that `|` is a sum. The
-- static counter is returned as well.
unfoldable pub mkenvid : ℕ → ℕ → ℕ × ℕ
mkenvid i e = let i' = (i + 1) % 2 ^ 32 in ((i' * 2048 % 2 ^ 32) + e, i')

alloc_from-free :
    (n i : ℕ) (m m' : Bitmap) (a : ℕ)
    → alloc_from n i m ≡ some (a, m')
    → (i ≤ a) × (a < i + n) × (bit m a ≡ false) × (m' ≡ set_bit m a true)
unfolding alloc_from
alloc_from-free zero i m m' a h = absurd (ground arith)
alloc_from-free (suc n) i m m' a h = elim (Bool-cases (bit m i)) [
  | inl taken ↦
      let rest = alloc_from-free n (i + 1) m m' a (ground arith) in
      (omega (arith, rest.0), omega (arith, rest.1), rest.2, rest.3)
  | inr free ↦
      let same : i ≡ a = ground arith in (omega arith, omega arith, ground arith, ground arith)
]

-- An id that is allocated was free, and is marked; every other bit is as before.
pub asid_alloc-bit :
    (m m' : Bitmap) (a i : ℕ)
    → asid_alloc m ≡ some (a, m')
    → (a < nasid) × (bit m a ≡ false) × (bit m' i ≡ (if i == a then true else bit m i))
unfolding asid_alloc set_bit
asid_alloc-bit m m' a i h =
    let (lo, hi, free, same) = alloc_from-free nasid 0 m m' a h in
    (omega arith, free, rw same (ground arith))

-- The slot can be read off an id.
pub mkenvid-slot : (i e : ℕ) → e < 1024 → (mkenvid i e).0 % 1024 ≡ e
unfolding mkenvid
mkenvid-slot i e h = omega arith
