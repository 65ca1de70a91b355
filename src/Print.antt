-- ===== src/Print.antt =====
-- Padding in lib/print.c: `print_char` and `print_str`. The bytes that go to the callback are a list.
-- A width below 0 does what 0 does.
pub mod Num
use mos_enhanced_shell.Base.{
  ℕ, zero, suc, ◌-◌, ◌≡◌, refl, Bool, List, [], ◌∷◌, ◌++◌, arith, ltb, if◌then◌else◌, length,
  length-append,
}

-- A loop that puts out `n` spaces.
unfoldable pub spaces : ℕ → List ℕ
spaces zero = []
spaces (suc n) = b' ' ∷ spaces n

unfoldable pub print_char : ℕ → ℕ → Bool → List ℕ
print_char c width ladjust =
    let w = if ltb width 1 then 1 else width in
    if ladjust then c ∷ spaces (w - 1) else spaces (w - 1) ++ (c ∷ [])

unfoldable pub print_str : List ℕ → ℕ → Bool → List ℕ
print_str s width ladjust =
    let len = length s in
    let w = if ltb width len then len else width in
    if ladjust then s ++ spaces (w - len) else spaces (w - len) ++ s

length-spaces : (n : ℕ) → length (spaces n) ≡ n
unfolding spaces
length-spaces zero = refl
length-spaces (suc n) = omega (arith, length-spaces n)

-- What is put out is as long as the text or the width, whichever is more.
pub length-print_str :
    (s : List ℕ) (width : ℕ) (ladjust : Bool)
    → length (print_str s width ladjust) ≡ (if ltb width (length s) then length s else width)
unfolding print_str
length-print_str s width ladjust =
    let pad = (if ltb width (length s) then length s else width) - length s in
    ground (arith, length-append s (spaces pad), length-append (spaces pad) s, length-spaces pad)

-- A character is put out as the text that it is.
pub print_char-print_str :
    (c width : ℕ) (ladjust : Bool) → print_char c width ladjust ≡ print_str (c ∷ []) width ladjust
unfolding print_char print_str
print_char-print_str c width ladjust = refl
