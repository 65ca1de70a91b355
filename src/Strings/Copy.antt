-- ===== src/Strings/Copy.antt =====
-- The byte loops of lib/string.c that copy: `memmove`, `strcpy`, `strncpy`.
use mos_enhanced_shell.Base.{
  ℕ, zero, suc, ◌+◌, ◌-◌, ◌≤◌, ◌<◌, ◌≡◌, ◌⊎◌, inl, inr, ◌&&◌, some, List, [], ◌∷◌, arith, ltb, leb,
  if◌then◌else◌, length, Bool-cases,
}
use mos_enhanced_shell.Memory.{Memory, write, Copied, Filled}
use mos_enhanced_shell.Memory.Text.{IsText, IsText-write, IsText-moved}
use mos_enhanced_shell.Strings.{copy_up, copy_down, memmove, strcpy, pad, strncpy}

-- Going up is right when the target does not start inside the source.
pub copy_up-Copied :
    (n : ℕ) (m : Memory) (d s : ℕ) → (d ≤ s) ⊎ (s + n ≤ d) → Copied m d s n (copy_up n m d s)
unfolding copy_up write
copy_up-Copied zero m d s apart b = ground arith
copy_up-Copied (suc n) m d s apart b =
    ground (arith, copy_up-Copied n (write m d (m s)) (d + 1) (s + 1) (ground arith) b)

copy_down-Copied :
    (n : ℕ) (m : Memory) (d s : ℕ) → s ≤ d → Copied m d s n (copy_down n m (d + n) (s + n))
unfolding copy_down write
copy_down-Copied zero m d s above b = ground arith
copy_down-Copied (suc n) m d s above b =
    let top : d + suc n - 1 ≡ d + n = omega arith in
    let low : s + suc n - 1 ≡ s + n = omega arith in
    rw (top, low) (ground (arith, copy_down-Copied n (write m (d + n) (m (s + n))) d s above b))

-- `memmove` copies the `n` bytes as they were and writes nothing else, however the two regions
-- overlap.
pub memmove-Copied : (m : Memory) (dst src n : ℕ) → Copied m dst src n (memmove m dst src n)
unfolding memmove
memmove-Copied m dst src n b = elim (Bool-cases (ltb src dst && ltb dst (src + n))) [
  | inl down ↦ rw down (copy_down-Copied n m dst src (ground arith) b)
  | inr up ↦ rw up (copy_up-Copied n m dst src (ground arith) b)
]

-- With fuel for every byte, when the target does not start inside the string, `strcpy` returns,
-- copies the string and its zero byte, and writes nothing else.
pub strcpy-Copied :
    (k : ℕ) (m : Memory) (dst src : ℕ) (xs : List ℕ)
    → IsText m src xs
    → length xs < k
    → (dst ≤ src) ⊎ (src + length xs < dst)
    → (g : Memory) × (strcpy k m dst src ≡ some g) × Copied m dst src (length xs + 1) g
unfolding strcpy write
strcpy-Copied zero m dst src xs t fuel apart = absurd (omega arith)
strcpy-Copied (suc k) m dst src [] t fuel apart =
    (write m dst (m src), ground arith, λ b. ground arith)
strcpy-Copied (suc k) m dst src (x ∷ xs) t fuel apart =
    let (g, ran, copied) =
      strcpy-Copied k (write m dst (m src)) (dst + 1) (src + 1) xs
        (IsText-write m (src + 1) dst (m src) xs t.2 (ground arith)) (omega arith) (ground arith) in
    (g, ground arith, λ b. ground (arith, copied b))

-- What `strcpy` leaves at its target is the string.
pub strcpy-IsText :
    (k : ℕ) (m : Memory) (dst src : ℕ) (xs : List ℕ)
    → IsText m src xs
    → length xs < k
    → (dst ≤ src) ⊎ (src + length xs < dst)
    → (g : Memory) × (strcpy k m dst src ≡ some g) × IsText g dst xs
strcpy-IsText k m dst src xs t fuel apart =
    let (g, ran, copied) = strcpy-Copied k m dst src xs t fuel apart in
    (g, ran, IsText-moved m g src dst xs t (λ i h. ground (arith, copied (dst + i))))

pad-Filled : (n : ℕ) (m : Memory) (d : ℕ) → Filled m d 0 n (pad n m d)
unfolding pad write
pad-Filled zero m d b = ground arith
pad-Filled (suc n) m d b = ground (arith, pad-Filled n (write m d 0) (d + 1) b)

-- `g` is `m` with exactly `n` bytes written at `dst`: the first `k` from `src`, then zeros.
abbrev pub Padded : Memory → ℕ → ℕ → ℕ → ℕ → Memory → Type 0
Padded m dst src k n g =
    (b : ℕ)
    → g b ≡ (
        if leb dst b && ltb b (dst + n)
        then (if ltb (b - dst) k then m (src + (b - dst)) else 0)
        else m b)

-- When the target does not overlap the string, `strncpy` writes `n` bytes and no more: the string,
-- cut at `n` bytes, and zeros behind it.
pub strncpy-Padded :
    (n : ℕ) (m : Memory) (dst src : ℕ) (xs : List ℕ)
    → IsText m src xs
    → (dst + n ≤ src) ⊎ (src + length xs < dst)
    → Padded m dst src (length xs) n (strncpy n m dst src)
unfolding strncpy write
strncpy-Padded zero m dst src xs t apart b = ground arith
strncpy-Padded (suc n) m dst src [] t apart b = ground (arith, pad-Filled (suc n) m dst b)
strncpy-Padded (suc n) m dst src (x ∷ xs) t apart b = ground (
  arith,
  strncpy-Padded n (write m dst (m src)) (dst + 1) (src + 1) xs
      (IsText-write m (src + 1) dst (m src) xs t.2 (ground arith)) (ground arith) b,
)
