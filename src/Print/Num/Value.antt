-- ===== src/Print/Num/Value.antt =====
-- What `print_num` prints, read as a number.
use native.Mathlib.Nat.{zero-div, div-lt_self, div-add-mod', mod-lt}
use mos_enhanced_shell.Base.{
  ◌≢◌, ℕ, zero, suc, ◌+◌, ◌-◌, ◌*◌, ◌/◌, ◌%◌, ◌≤◌, ◌<◌, ◌≡◌, refl, sym, ◌∙◌, ap, Bool, true, false,
  ◌&&◌, ◌||◌, arith, ltb, leb, ◌==◌, if◌then◌else◌, Bool-cases, ==_refl, inl, inr,
}
use mos_enhanced_shell.Print.Num.Turn.{turned_digits}
use mos_enhanced_shell.Print.Num.{Buffer, put, digit, put_digits, fill, turn, pad, print_num}

-- The value of a digit.
abbrev pub value : ℕ → ℕ
value c = if leb c b'9' then c - b'0' else if leb c b'Z' then c - b'A' + 10 else c - b'a' + 10

-- A digit of a number in that base, with letters of one kind.
abbrev pub is_digit : ℕ → Bool → ℕ → Bool
is_digit base upcase c =
    (leb b'0' c && leb c b'9'
      || (if upcase then leb b'A' c && leb c b'Z' else leb b'a' c && leb c b'z'))
    && ltb (value c) base

-- The value of `n` bytes, read from left to right.
pub read : ℕ → ℕ → Buffer → ℕ
read base zero f = 0
read base (suc n) f = read base n f * base + value (f n)

digit-value : (upcase : Bool) (tmp : ℕ) → tmp < 36 → value (digit upcase tmp) ≡ tmp
unfolding digit
digit-value upcase tmp h = ground arith

digit-is_digit :
    (base : ℕ) (upcase : Bool) (tmp : ℕ)
    → base ≤ 36
    → tmp < base
    → is_digit base upcase (digit upcase tmp) ≡ true
unfolding digit
digit-is_digit base upcase tmp hc h = ground arith

divided : (n u base : ℕ) → 2 ≤ base → u < suc n → u / base ≢ 0 → u / base < n
divided n zero base hb h some_left = absurd (some_left (zero-div base))
divided n (suc u) base hb h some_left =
    let less : suc u / base < suc u = div-lt_self (omega arith) (omega arith) in omega arith

-- The digits are there, the last one first, and nothing before them is changed.
put_digits-lem :
    (n p u base : ℕ) (upcase : Bool) (buf : Buffer)
    → 2 ≤ base
    → u < n
    → (p < (put_digits n p u base upcase buf).0)
      × ((j : ℕ) → j < p → (put_digits n p u base upcase buf).1 j ≡ buf j)
unfolding put_digits
put_digits-lem zero p u base upcase buf hb h = absurd (omega arith)
put_digits-lem (suc n) p u base upcase buf hb h = elim (Bool-cases (u / base == 0)) [
  | inl end ↦ rw end (omega arith, λ j k. ground arith)
  | inr more ↦
      let (far, kept) =
        put_digits-lem n (p + 1) (u / base) base upcase (put buf p (digit upcase (u % base))) hb
          (divided n u base hb h (ground arith)) in
      rw more (omega arith, λ j k. ground (arith, kept j (omega arith)))
]

-- All bytes that are written are digits.
put_digits-is_digit :
    (n p u base : ℕ) (upcase : Bool) (buf : Buffer) (j : ℕ)
    → 2 ≤ base
    → base ≤ 36
    → u < n
    → p ≤ j
    → j < (put_digits n p u base upcase buf).0
    → is_digit base upcase ((put_digits n p u base upcase buf).1 j) ≡ true
unfolding put_digits
put_digits-is_digit zero p u base upcase buf j hb hc h lo hi = absurd (omega arith)
put_digits-is_digit (suc n) p u base upcase buf j hb hc h lo hi =
    let fine = digit-is_digit base upcase (u % base) hc (mod-lt u {m = base} (omega arith)) in
    let buf' : Buffer = put buf p (digit upcase (u % base)) in
    elim (Bool-cases (u / base == 0)) [
      | inl end ↦
          let last_one : j < p + 1 = rw end at hi in
          let here : buf' j ≡ digit upcase (u % base) = ground arith in
          rw end (ap (is_digit base upcase) here ∙ fine)
      | inr more ↦
          let less : u / base < n = divided n u base hb h (ground arith) in
          let below : j < (put_digits n (p + 1) (u / base) base upcase buf').0 = rw more at hi in
          rw more (elim (Bool-cases (j == p)) [
            | inl first ↦
                let at : j ≡ p = ground arith in
                let (far, kept) = put_digits-lem n (p + 1) (u / base) base upcase buf' hb less in
                let here : (put_digits n (p + 1) (u / base) base upcase buf').1 j
                    ≡ digit upcase (u % base) =
                  kept j (omega arith) ∙ ground arith in
                ap (is_digit base upcase) here ∙ fine
            | inr after ↦
                put_digits-is_digit n (p + 1) (u / base) base upcase buf' j hb hc less
                  (ground arith) below
          ])
    ]

read-same :
    (base n : ℕ) (f g : Buffer) → ((i : ℕ) → i < n → g i ≡ f i) → read base n g ≡ read base n f
unfolding read
read-same base zero f g same = refl
read-same base (suc n) f g same =
    rw (same n (omega arith), read-same base n f g (λ i h. same i (omega arith))) refl

-- Zeros in front do not count.
read-lead :
    (base k m : ℕ) (f : Buffer)
    → ((i : ℕ) → i < k → value (f i) ≡ 0)
    → read base (k + m) f ≡ read base m (λ i. f (k + i))
unfolding read
read-lead base zero zero f none = refl
read-lead base (suc k) zero f none =
    let at : k + 0 ≡ k = omega arith in
    let before : read base k f ≡ 0 =
      sym (ap (λ x. read base x f) at) ∙ read-lead base k 0 f (λ i h. none i (omega arith)) in
    let shorter : suc k + 0 ≡ suc k = omega arith in
    rw (shorter, before, none k (omega arith)) (omega arith)
read-lead base k (suc m) f none =
    let longer : k + suc m ≡ suc (k + m) = omega arith in
    rw (longer, read-lead base k m f none) refl

-- The digits, read backwards, are the number.
put_digits-read :
    (n p u base : ℕ) (upcase : Bool) (buf : Buffer)
    → 2 ≤ base
    → base ≤ 36
    → u < n
    → read base
        ((put_digits n p u base upcase buf).0 - p)
        (λ i. (put_digits n p u base upcase buf).1 ((put_digits n p u base upcase buf).0 - 1 - i))
      ≡ u
unfolding put_digits read
put_digits-read zero p u base upcase buf hb hc h = absurd (omega arith)
put_digits-read (suc n) p u base upcase buf hb hc h =
    let small : u % base < 36 = omega (arith, mod-lt u {m = base} (omega arith)) in
    let parts : u / base * base + u % base ≡ u = div-add-mod' u base in
    elim (Bool-cases (u / base == 0)) [
      | inl end ↦
          let one : p + 1 - p ≡ 1 = omega arith in
          let at : p + 1 - 1 - 0 ≡ p = omega arith in
          let same : (p == p) ≡ true = ==_refl p in
          rw (end, one, at, same, digit-value upcase (u % base) small)
            (let gone : u / base ≡ 0 = ground arith in rw gone at parts)
      | inr more ↦
          let buf' : Buffer = put buf p (digit upcase (u % base)) in
          let less : u / base < n = divided n u base hb h (ground arith) in
          let (far, kept) = put_digits-lem n (p + 1) (u / base) base upcase buf' hb less in
          let rest = put_digits-read n (p + 1) (u / base) base upcase buf' hb hc less in
          let end : ℕ = (put_digits n (p + 1) (u / base) base upcase buf').0 in
          let longer : end - p ≡ suc (end - (p + 1)) = omega arith in
          let at : end - 1 - (end - (p + 1)) ≡ p = omega arith in
          let same : (p == p) ≡ true = ==_refl p in
          let here : (put_digits n (p + 1) (u / base) base upcase buf').1 p
              ≡ digit upcase (u % base) =
            kept p (omega arith) ∙ rw same refl in
          rw (more, longer, at, here, digit-value upcase (u % base) small, rest) parts
    ]

turned-read :
    (base e l : ℕ) (b : Buffer)
    → 0 < e
    → e ≤ l
    → read base l (turn l 0 (l - 1) (fill (l - e) e b'0' b)) ≡ read base e (λ i. b (e - 1 - i))
turned-read base e l b some_digit room =
    let out : Buffer = turn l 0 (l - 1) (fill (l - e) e b'0' b) in
    let all : (l - e) + e ≡ l = omega arith in
    let zeros : (i : ℕ) → i < l - e → value (out i) ≡ 0 = λ i h.
      let zero_byte : out i ≡ b'0' =
        ground (arith, turned_digits e l i b some_digit room (omega arith)) in
      ap value zero_byte in
    let digits : (i : ℕ) → i < e → out (l - e + i) ≡ b (e - 1 - i) = λ i h.
      let at : l - 1 - (l - e + i) ≡ e - 1 - i = omega arith in
      ground (arith, turned_digits e l (l - e + i) b some_digit room (omega arith), ap b at) in
    ap (λ x. read base x out) (sym all)
    ∙ (read-lead base (l - e) e out zeros
        ∙ read-same base e (λ i. b (e - 1 - i)) (λ i. out (l - e + i)) digits)

-- Turned around, all bytes are digits.
turned-is_digit :
    (base e l j : ℕ) (upcase : Bool) (b : Buffer)
    → 0 < e
    → e ≤ l
    → j < l
    → 2 ≤ base
    → ((i : ℕ) → i < e → is_digit base upcase (b i) ≡ true)
    → is_digit base upcase (turn l 0 (l - 1) (fill (l - e) e b'0' b) j) ≡ true
turned-is_digit base e l j upcase b some_digit room h hb digits =
    let at = turned_digits e l j b some_digit room h in
    elim (Bool-cases (ltb j (l - e))) [
      | inl front ↦
          let here : turn l 0 (l - 1) (fill (l - e) e b'0' b) j ≡ b'0' = at ∙ rw front refl in
          ap (is_digit base upcase) here ∙ ground arith
      | inr number ↦
          let here : turn l 0 (l - 1) (fill (l - e) e b'0' b) j ≡ b (l - 1 - j) =
            at ∙ rw number refl in
          ap (is_digit base upcase) here ∙ digits (l - 1 - j) (ground arith)
    ]

-- In a base from 2 to 36, printing a number that is not negative with zeros in front gives at
-- least `width` bytes, all of which are digits of that base with letters of the kind asked for,
-- and reading these in that base gives the number.
pub print_num-read :
    (u base width : ℕ) (upcase : Bool)
    → 2 ≤ base
    → base ≤ 36
    → (width ≤ (print_num u base false width false b'0' upcase).0)
      × ((i : ℕ)
          → i < (print_num u base false width false b'0' upcase).0
          → is_digit base upcase ((print_num u base false width false b'0' upcase).1 i) ≡ true)
      × (read base
            (print_num u base false width false b'0' upcase).0
            (print_num u base false width false b'0' upcase).1
          ≡ u)
unfolding print_num pad
print_num-read u base width upcase hb hc =
    let r : ℕ × Buffer = put_digits (suc u) 0 u base upcase (λ i. 0) in
    let l : ℕ = if ltb width r.0 then r.0 else width in
    let (far, kept) = put_digits-lem (suc u) 0 u base upcase (λ i. 0) hb (omega arith) in
    let number = put_digits-read (suc u) 0 u base upcase (λ i. 0) hb hc (omega arith) in
    let whole : r.0 - 0 ≡ r.0 = omega arith in
    let digits : (i : ℕ) → i < r.0 → is_digit base upcase (r.1 i) ≡ true = λ i h.
      put_digits-is_digit (suc u) 0 u base upcase (λ i. 0) i hb hc (omega arith) (omega arith) h in
    (
      ground arith,
      λ i h. turned-is_digit base r.0 l i upcase r.1 far (ground arith) h hb digits,
      turned-read base r.0 l r.1 far (ground arith) ∙ (rw whole at number),
    )
