-- ===== src/Print/Num.antt =====
-- `print_num` of lib/print.c, on a buffer as a function from its indices. The number is an unsigned
-- 32-bit number, and the base is at least 2.
pub mod Turn
pub mod Value
mod Tests
use mos_enhanced_shell.Base.{
  ℕ, zero, suc, ◌+◌, ◌-◌, ◌*◌, ◌/◌, ◌%◌, ◌≤◌, ◌<◌, ◌≡◌, refl, sym, ◌∙◌, ap, Bool, true, false, ◌&&◌,
  not, List, [], ◌∷◌, arith, ltb, leb, ◌==◌, if◌then◌else◌, Bool-cases, inl, inr,
}

abbrev pub Buffer : Type 0
Buffer = ℕ → ℕ

abbrev pub put : Buffer → ℕ → ℕ → Buffer
put buf i c = λ j. if j == i then c else buf j

unfoldable pub digit : Bool → ℕ → ℕ
digit upcase tmp =
    if leb tmp 9 then b'0' + tmp else if upcase then b'A' + tmp - 10 else b'a' + tmp - 10

-- The loop that writes the digits from `p` on, the last one first, on fuel: the end and the buffer.
unfoldable pub put_digits : ℕ → ℕ → ℕ → ℕ → Bool → Buffer → ℕ × Buffer
put_digits zero p u base upcase buf = (p, buf)
put_digits (suc n) p u base upcase buf =
    let buf' = put buf p (digit upcase (u % base)) in
    let rest = put_digits n (p + 1) (u / base) base upcase buf' in
    if u / base == 0 then (p + 1, buf') else rest

-- `n` bytes from `i` on.
unfoldable pub fill : ℕ → ℕ → ℕ → Buffer → Buffer
fill zero i c buf = buf
fill (suc n) i c buf = fill n (i + 1) c (put buf i c)

-- The loop that turns the part from `begin` to `end` around, on fuel.
unfoldable pub turn : ℕ → ℕ → ℕ → Buffer → Buffer
turn zero begin end buf = buf
turn (suc n) begin end buf =
    let rest = turn n (begin + 1) (end - 1) (put (put buf begin (buf end)) end (buf begin)) in
    if ltb begin end then rest else buf

-- The padding behind the number.
unfoldable pub pad : Bool → Bool → ℕ → ℕ → ℕ → Buffer → Buffer
pad neg_flag ladjust padc actual_length length buf =
    let c = if ladjust then b' ' else padc in
    if neg_flag && (not ladjust && c == b'0')
    then put (fill (length - actual_length) (actual_length - 1) c buf) (length - 1) b'-'
    else fill (length - actual_length) actual_length c buf

-- The length and the bytes that go to the callback.
unfoldable pub print_num : ℕ → ℕ → Bool → ℕ → Bool → ℕ → Bool → ℕ × Buffer
print_num u base neg_flag width ladjust padc upcase =
    let digits = put_digits (suc u) 0 u base upcase (λ i. 0) in
    let buf = if neg_flag then put digits.1 digits.0 b'-' else digits.1 in
    let actual_length = if neg_flag then digits.0 + 1 else digits.0 in
    let length = if ltb width actual_length then actual_length else width in
    let padded = pad neg_flag ladjust padc actual_length length buf in
    let end = if ladjust then actual_length - 1 else length - 1 in
    (length, turn length 0 end padded)
