-- ===== src/Print/Num/Tests.antt =====
-- Tests of `print_num`.
use mos_enhanced_shell.Base.{
  ℕ, zero, suc, ◌<◌, ◌≤◌, ◌≡◌, refl, true, false, List, [], ◌∷◌, map, arith,
}
use mos_enhanced_shell.Print.Num.{Buffer, print_num, put_digits, digit, fill, turn, pad}
use mos_enhanced_shell.Print.Num.Value.{is_digit, read, print_num-read}

printed : ℕ × Buffer → List ℕ
printed (n, f) = map f (upto n [])
  where
    upto : ℕ → List ℕ → List ℕ
    upto zero is = is
    upto (suc i) is = upto i (i ∷ is)

hex : printed (print_num 0x2af 16 false 5 false b'0' false) ≡ b'0' ∷ b'0' ∷ b'2' ∷ b'a' ∷ b'f' ∷ []
unfolding printed print_num put_digits digit fill turn pad
hex = refl

minus : printed (print_num 12 10 true 5 false b'0' false) ≡ b'-' ∷ b'0' ∷ b'0' ∷ b'1' ∷ b'2' ∷ []
unfolding printed print_num put_digits digit fill turn pad
minus = refl

left : printed (print_num 12 10 true 5 true b'0' false) ≡ b'-' ∷ b'1' ∷ b'2' ∷ b' ' ∷ b' ' ∷ []
unfolding printed print_num put_digits digit fill turn pad
left = refl

print_num-read_example :
    (5 ≤ (print_num 0x2af 16 false 5 false b'0' false).0)
    × ((i : ℕ)
        → i < (print_num 0x2af 16 false 5 false b'0' false).0
        → is_digit 16 false ((print_num 0x2af 16 false 5 false b'0' false).1 i) ≡ true)
    × (read 16
          (print_num 0x2af 16 false 5 false b'0' false).0
          (print_num 0x2af 16 false 5 false b'0' false).1
        ≡ 0x2af)
print_num-read_example = print_num-read 0x2af 16 5 false (omega arith) (omega arith)
