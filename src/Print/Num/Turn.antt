-- ===== src/Print/Num/Turn.antt =====
-- The loops of `print_num` that pad the number and turn it around.
use mos_enhanced_shell.Base.{
  ℕ, zero, suc, ◌+◌, ◌-◌, ◌≤◌, ◌<◌, ◌≡◌, ap, ◌&&◌, arith, ltb, leb, ◌==◌, if◌then◌else◌, Bool-cases,
  inl, inr,
}
use mos_enhanced_shell.Print.Num.{Buffer, put, fill, turn}

fill-lem :
    (n i c : ℕ) (buf : Buffer) (j : ℕ)
    → fill n i c buf j ≡ (if leb i j && ltb j (i + n) then c else buf j)
unfolding fill
fill-lem zero i c buf j = ground arith
fill-lem (suc n) i c buf j = ground (arith, fill-lem n (i + 1) c (put buf i c) j)

turn-flat :
    (begin end : ℕ) (buf : Buffer) (j : ℕ)
    → end ≤ begin
    → buf j ≡ (if leb begin j && leb j end then buf (begin + end - j) else buf j)
turn-flat begin end buf j h = elim (Bool-cases (leb begin j && leb j end)) [
  | inl inside ↦ let at : begin + end - j ≡ j = ground arith in ground (arith, ap buf at)
  | inr outside ↦ ground arith
]

turn-lem :
    (n begin end : ℕ) (buf : Buffer) (j : ℕ)
    → end ≤ begin + n
    → turn n begin end buf j ≡ (if leb begin j && leb j end then buf (begin + end - j) else buf j)
unfolding turn
turn-lem zero begin end buf j h = turn-flat begin end buf j (omega arith)
turn-lem (suc n) begin end buf j h = elim (Bool-cases (ltb begin end)) [
  | inr over ↦ rw over (turn-flat begin end buf j (ground arith))
  | inl more ↦
      let swapped : Buffer = put (put buf begin (buf end)) end (buf begin) in
      let rest = turn-lem n (begin + 1) (end - 1) swapped j (omega arith) in
      rw more (elim (Bool-cases (j == begin)) [
        | inl first ↦
            let at : begin + end - j ≡ end = ground arith in ground (arith, rest, ap buf at)
        | inr after ↦ elim (Bool-cases (j == end)) [
          | inl final ↦
              let at : begin + end - j ≡ begin = ground arith in ground (arith, rest, ap buf at)
          | inr before ↦
              let at : begin + 1 + (end - 1) - j ≡ begin + end - j = ground arith in
              ground (arith, rest, ap swapped at)
        ]
      ])
]

-- Turned around, the zeros stand in front of the digits.
pub turned_digits :
    (e l j : ℕ) (b : Buffer)
    → 0 < e
    → e ≤ l
    → j < l
    → turn l 0 (l - 1) (fill (l - e) e b'0' b) j ≡ (if ltb j (l - e) then b'0' else b (l - 1 - j))
turned_digits e l j b some_digit room h =
    let at : 0 + (l - 1) - j ≡ l - 1 - j = omega arith in
    let padded : Buffer = fill (l - e) e b'0' b in
    ground (
      arith,
      turn-lem l 0 (l - 1) padded j (omega arith),
      ap padded at,
      fill-lem (l - e) e b'0' b (l - 1 - j),
    )
