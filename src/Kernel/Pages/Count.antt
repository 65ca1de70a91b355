-- ===== src/Kernel/Pages/Count.antt =====
-- Counting the numbers below a bound that pass a test.
use mos_enhanced_shell.Base.{
  ℕ, zero, suc, ◌+◌, ◌≤◌, ◌<◌, ◌≡◌, ◌≢◌, refl, Bool, true, false, arith, ◌==◌, if◌then◌else◌,
  Bool-cases, inl, inr, ap,
}

abbrev pub one_if : Bool → ℕ
one_if b = if b then 1 else 0

unfoldable pub count : ℕ → (ℕ → Bool) → ℕ
count zero f = 0
count (suc n) f = one_if (f n) + count n f

pub count-same : (n : ℕ) (f g : ℕ → Bool) → ((i : ℕ) → i < n → g i ≡ f i) → count n g ≡ count n f
unfolding count
count-same zero f g same = refl
count-same (suc n) f g same =
    ground (arith, same n (omega arith), count-same n f g (λ i h. same i (omega arith)))

-- A test that changes at one number.
pub count-changed :
    (n v : ℕ) (f g : ℕ → Bool)
    → v < n
    → ((i : ℕ) → i < n → i ≢ v → g i ≡ f i)
    → count n g + one_if (f v) ≡ count n f + one_if (g v)
unfolding count
count-changed zero v f g inside same = absurd (omega arith)
count-changed (suc n) v f g inside same = elim (Bool-cases (v == n)) [
  | inl last ↦
      let at : v ≡ n = ground arith in
      ground
        (arith, ap f at, ap g at, count-same n f g (λ i h. same i (omega arith) (ground arith)))
  | inr before ↦ ground (
    arith,
    same n (omega arith) (ground arith),
    count-changed n v f g (ground arith) (λ i h. same i (omega arith)),
  )
]

pub count-some : (n v : ℕ) (f : ℕ → Bool) → v < n → f v ≡ true → 1 ≤ count n f
unfolding count
count-some zero v f inside here = absurd (omega arith)
count-some (suc n) v f inside here = elim (Bool-cases (v == n)) [
  | inl last ↦ let at : v ≡ n = ground arith in ground (arith, ap f at)
  | inr before ↦ ground (arith, count-some n v f (ground arith) here)
]

pub count-two :
    (n v w : ℕ) (f : ℕ → Bool) → v < n → w < n → v ≢ w → f v ≡ true → f w ≡ true → 2 ≤ count n f
count-two n v w f hv hw other fv fw =
    let g : ℕ → Bool = λ i. if i == v then false else f i in
    let less = count-changed n v f g hv (λ i h k. ground arith) in
    let more = count-some n w g hw (ground arith) in ground arith

pub count-none : (n : ℕ) (f : ℕ → Bool) → ((i : ℕ) → f i ≡ false) → count n f ≡ 0
unfolding count
count-none zero f none_there = refl
count-none (suc n) f none_there = ground (arith, none_there n, count-none n f none_there)
