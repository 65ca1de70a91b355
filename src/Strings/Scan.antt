-- ===== src/Strings/Scan.antt =====
-- `strlen`, `strchr` and `strcmp` against functions on the text that they read.
use mos_enhanced_shell.Base.{
  ℕ, zero, suc, ◌+◌, ◌<◌, ◌≡◌, ◌↔◌, refl, Option, none, some, List, [], ◌∷◌, arith, ltb, ◌==◌,
  if◌then◌else◌, length, ap,
}
use mos_enhanced_shell.Memory.{Memory}
use mos_enhanced_shell.Memory.Text.{IsText}
use mos_enhanced_shell.Strings.{strlen_loop, strlen, strchr, strcmp, Order, less, same, more}

strlen_loop-length :
    (k : ℕ) (m : Memory) (s n : ℕ) (xs : List ℕ)
    → IsText m s xs
    → length xs < k
    → strlen_loop k m s n ≡ some (n + length xs)
unfolding strlen_loop
strlen_loop-length zero m s n xs t fuel = absurd (omega arith)
strlen_loop-length (suc k) m s n [] t fuel = ground arith
strlen_loop-length (suc k) m s n (x ∷ xs) t fuel =
    ground (arith, strlen_loop-length k m (s + 1) (n + 1) xs)

-- With fuel for every byte of the string, `strlen` returns its length.
pub strlen-length :
    (k : ℕ) (m : Memory) (s : ℕ) (xs : List ℕ)
    → IsText m s xs
    → length xs < k
    → strlen k m s ≡ some (length xs)
unfolding strlen
strlen-length k m s xs t fuel = ground (arith, strlen_loop-length k m s 0 xs t)

-- The index of the first `c`.
unfoldable pub index_of : ℕ → List ℕ → Option ℕ
index_of c [] = none
index_of c (x ∷ xs) =
    if x == c then some 0 else elim (index_of c xs) [ none ↦ none | some i ↦ some (suc i) ]

abbrev pub address : ℕ → Option ℕ → ℕ
address s none = 0
address s (some i) = s + i

-- With fuel for every byte of the string, `strchr` returns the address of the first `c` in it, or
-- null if there is none; it never finds the terminating zero.
pub strchr-index_of :
    (k : ℕ) (m : Memory) (s c : ℕ) (xs : List ℕ)
    → IsText m s xs
    → length xs < k
    → strchr k m s c ≡ some (address s (index_of c xs))
unfolding strchr index_of
strchr-index_of zero m s c xs t fuel = absurd (omega arith)
strchr-index_of (suc k) m s c [] t fuel = ground arith
strchr-index_of (suc k) m s c (x ∷ xs) t fuel = ground (arith, strchr-index_of k m (s + 1) c xs)

-- The order of two texts by their first difference, a prefix first.
unfoldable pub compare_text : List ℕ → List ℕ → Order
compare_text [] [] = same
compare_text [] (y ∷ ys) = less
compare_text (x ∷ xs) [] = more
compare_text (x ∷ xs) (y ∷ ys) =
    if ltb x y then less else if ltb y x then more else compare_text xs ys

-- With fuel for every byte of the first string, `strcmp` returns the order of the two strings as
-- byte sequences.
pub strcmp-compare_text :
    (k : ℕ) (m : Memory) (p q : ℕ) (xs ys : List ℕ)
    → IsText m p xs
    → IsText m q ys
    → length xs < k
    → strcmp k m p q ≡ some (compare_text xs ys)
unfolding strcmp compare_text
strcmp-compare_text zero m p q xs ys t u fuel = absurd (omega arith)
strcmp-compare_text (suc k) m p q [] [] t u fuel = ground arith
strcmp-compare_text (suc k) m p q [] (y ∷ ys) t u fuel = ground arith
strcmp-compare_text (suc k) m p q (x ∷ xs) [] t u fuel = ground arith
strcmp-compare_text (suc k) m p q (x ∷ xs) (y ∷ ys) t u fuel =
    ground (arith, strcmp-compare_text k m (p + 1) (q + 1) xs ys)

pub compare_text-same : (xs ys : List ℕ) → compare_text xs ys ≡ same ↔ (xs ≡ ys)
unfolding compare_text
compare_text-same [] [] = (λ _. refl, λ _. refl)
compare_text-same [] (y ∷ ys) = (λ e. cc, λ e. cc)
compare_text-same (x ∷ xs) [] = (λ e. cc, λ e. cc)
compare_text-same (x ∷ xs) (y ∷ ys) = (
  λ e. ground (arith, (compare_text-same xs ys).0),
  λ e. ground (arith, (compare_text-same xs ys).1),
)

-- `strcmp` returns 0 exactly for equal strings.
pub strcmp-same :
    (k : ℕ) (m : Memory) (p q : ℕ) (xs ys : List ℕ)
    → IsText m p xs
    → IsText m q ys
    → length xs < k
    → (strcmp k m p q ≡ some same) ↔ (xs ≡ ys)
strcmp-same k m p q xs ys t u fuel =
    rw (strcmp-compare_text k m p q xs ys t u fuel)
      (λ e. (compare_text-same xs ys).0 (cc), λ e. ap some ((compare_text-same xs ys).1 e))
