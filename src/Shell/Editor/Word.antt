-- ===== src/Shell/Editor/Word.antt =====
-- The last word of the editor's line, which Ctrl-W drops.
use mos_enhanced_shell.Base.{
  ℕ, zero, suc, ◌≤◌, ◌<◌, ◌≡◌, ◌≢◌, ◌⊎◌, inl, inr, refl, subst, Bool-cases, sym, true, false, List,
  arith, ◌==◌, length, get_or,
}
use mos_enhanced_shell.Shell.Editor.{skip_blanks, skip_word, is_blank}

-- A space or a tab.
abbrev pub IsGap : ℕ → Type 0
IsGap c = (c ≡ b' ') ⊎ (c ≡ 9)

-- The last word of a text starts at `n`: behind it are gaps only, it has none and is not empty
-- unless the text is gaps only, and before it is a gap or nothing.
pub record IsLastWord (b : List ℕ) (n : ℕ) : Type 0 where
  pub end : ℕ
  pub starts : n ≤ end
  pub inside : end ≤ length b
  pub gaps : (i : ℕ) → end ≤ i → i < length b → IsGap (get_or b i 0)
  pub word : (i : ℕ) → n ≤ i → i < end → get_or b i 0 ≢ b' ' × get_or b i 0 ≢ 9
  pub some_letter : (end ≡ 0) ⊎ (n < end)
  pub before : (n ≡ 0) ⊎ ((i : ℕ) × (n ≡ suc i) × IsGap (get_or b i 0))

pub skip_blanks-le : (b : List ℕ) (i : ℕ) → skip_blanks b i ≤ i
unfolding skip_blanks
skip_blanks-le b zero = omega arith
skip_blanks-le b (suc i) = ground (arith, skip_blanks-le b i)

pub skip_word-le : (b : List ℕ) (i : ℕ) → skip_word b i ≤ i
unfolding skip_word
skip_word-le b zero = omega arith
skip_word-le b (suc i) = ground (arith, skip_word-le b i)

unfoldable pub last_word : List ℕ → ℕ
last_word b = skip_word b (skip_blanks b (length b))

is_blank-IsGap : (c : ℕ) → is_blank c ≡ true → IsGap c
is_blank-IsGap c h = ground arith

skip_blanks-gaps : (b : List ℕ) (k i : ℕ) → skip_blanks b k ≤ i → i < k → IsGap (get_or b i 0)
unfolding skip_blanks
skip_blanks-gaps b zero i lo hi = absurd (omega arith)
skip_blanks-gaps b (suc k) i lo hi = elim (Bool-cases (is_blank (get_or b k 0))) [
  | inr letter ↦ absurd (let stays : suc k ≤ i = rw letter at lo in omega arith)
  | inl blank ↦ elim (Bool-cases (i == k)) [
    | inl here ↦
        let at : i ≡ k = ground arith in
        subst (λ j. IsGap (get_or b j 0)) (sym at) (is_blank-IsGap (get_or b k 0) blank)
    | inr other ↦ skip_blanks-gaps b k i (rw blank at lo) (ground arith)
  ]
]

-- Where the gaps end, a letter is before.
skip_blanks-letter :
    (b : List ℕ) (k : ℕ)
    → (skip_blanks b k ≡ 0)
      ⊎ ((i : ℕ) × (skip_blanks b k ≡ suc i) × (is_blank (get_or b i 0) ≡ false))
unfolding skip_blanks
skip_blanks-letter b zero = inl refl
skip_blanks-letter b (suc k) = elim (Bool-cases (is_blank (get_or b k 0))) [
  | inr letter ↦ inr (k, rw letter refl, letter)
  | inl blank ↦ rw blank (skip_blanks-letter b k)
]

skip_word-word :
    (b : List ℕ) (k i : ℕ) → skip_word b k ≤ i → i < k → get_or b i 0 ≢ b' ' × get_or b i 0 ≢ 9
unfolding skip_word
skip_word-word b zero i lo hi = absurd (omega arith)
skip_word-word b (suc k) i lo hi = elim (Bool-cases (is_blank (get_or b k 0))) [
  | inl blank ↦ absurd (let stays : suc k ≤ i = rw blank at lo in omega arith)
  | inr letter ↦ elim (Bool-cases (i == k)) [
    | inl here ↦
        let at : i ≡ k = ground arith in
        subst (λ j. get_or b j 0 ≢ b' ' × get_or b j 0 ≢ 9) (sym at) (ground arith, ground arith)
    | inr other ↦ skip_word-word b k i (rw letter at lo) (ground arith)
  ]
]

skip_word-IsGap :
    (b : List ℕ) (k : ℕ)
    → (skip_word b k ≡ 0) ⊎ ((i : ℕ) × (skip_word b k ≡ suc i) × IsGap (get_or b i 0))
unfolding skip_word
skip_word-IsGap b zero = inl refl
skip_word-IsGap b (suc k) = elim (Bool-cases (is_blank (get_or b k 0))) [
  | inl blank ↦ inr (k, rw blank refl, is_blank-IsGap (get_or b k 0) blank)
  | inr letter ↦ rw letter (skip_word-IsGap b k)
]

-- A letter before the end is in the word.
skip_word-some :
    (b : List ℕ) (k : ℕ) → is_blank (get_or b k 0) ≡ false → skip_word b (suc k) < suc k
unfolding skip_word
skip_word-some b k letter = rw letter (omega (arith, skip_word-le b k))

pub last_word-IsLastWord : (b : List ℕ) → IsLastWord b (last_word b)
unfolding last_word
last_word-IsLastWord b =
    let end : ℕ = skip_blanks b (length b) in
    record {
      end = skip_blanks b (length b);
      starts = skip_word-le b (skip_blanks b (length b));
      inside = skip_blanks-le b (length b);
      gaps = skip_blanks-gaps b (length b);
      word = skip_word-word b (skip_blanks b (length b));
      some_letter = elim (skip_blanks-letter b (length b)) [
        | inl first ↦ inl first
        | inr (i, at, letter) ↦
            inr (subst (λ e. skip_word b e < e) (sym at) (skip_word-some b i letter))
      ];
      before = skip_word-IsGap b (skip_blanks b (length b));
    }
