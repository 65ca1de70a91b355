-- ===== src/Memory/Text.antt =====
-- Strings in memory: the bytes before the terminating zero.
use mos_enhanced_shell.Base.{ℕ, suc, ◌+◌, ◌≤◌, ◌<◌, ◌≡◌, ◌≢◌, ◌⊎◌, List, [], ◌∷◌, arith, length}
use mos_enhanced_shell.Memory.{Memory, write}

-- The string at `a` is `xs`.
abbrev pub IsText : Memory → ℕ → List ℕ → Type 0
IsText m a [] = m a ≡ 0
IsText m a (x ∷ xs) = (m a ≡ x) × (x ≢ 0) × IsText m (a + 1) xs

-- A string is still there in a memory that agrees on its bytes.
pub IsText-same :
    (m g : Memory) (a : ℕ) (xs : List ℕ)
    → IsText m a xs
    → ((b : ℕ) → a ≤ b → b ≤ a + length xs → g b ≡ m b)
    → IsText g a xs
IsText-same m g a [] t same = ground (arith, same a)
IsText-same m g a (x ∷ xs) t same = (
  ground (arith, same a),
  t.1,
  IsText-same m g (a + 1) xs t.2 (λ b lo hi. same b (omega arith) (omega arith)),
)

-- A write beside a string leaves it.
pub IsText-write :
    (m : Memory) (a p v : ℕ) (xs : List ℕ)
    → IsText m a xs
    → (p < a) ⊎ (a + length xs < p)
    → IsText (write m p v) a xs
unfolding write
IsText-write m a p v xs t apart = IsText-same m (write m p v) a xs t (λ b lo hi. ground arith)

-- A string moved to another address.
pub IsText-moved :
    (m g : Memory) (a c : ℕ) (xs : List ℕ)
    → IsText m a xs
    → ((i : ℕ) → i ≤ length xs → g (c + i) ≡ m (a + i))
    → IsText g c xs
IsText-moved m g a c [] t moved = ground (arith, moved 0)
IsText-moved m g a c (x ∷ xs) t moved = (
  ground (arith, moved 0),
  t.1,
  IsText-moved m g (a + 1) (c + 1) xs t.2 (λ i h. ground (arith, moved (suc i))),
)
