-- ===== src/Kernel/User.antt =====
-- The checks of kern/syscall_all.c on user addresses, and the loops that copy a string from user
-- memory. An address is a 32-bit number.
use mos_enhanced_shell.Base.{
  ℕ, zero, suc, ◌+◌, ◌%◌, ◌^◌, ◌≤◌, ◌<◌, ◌≡◌, ◌≢◌, refl, Bool, false, ◌||◌, Option, none, some,
  List, [], ◌∷◌, arith, ltb, leb, ◌==◌, if◌then◌else◌, length, take, Option-cases, ap, ◌∙◌, inl,
  inr,
}
use mos_enhanced_shell.Memory.{Memory}
use mos_enhanced_shell.Memory.Text.{IsText}

-- include/mmu.h
abbrev pub utemp : ℕ
utemp = 0x003fe000

abbrev pub utop : ℕ
utop = 0x7f400000

unfoldable pub is_illegal_va : ℕ → Bool
is_illegal_va va = ltb va utemp || leb utop va

unfoldable pub is_illegal_va_range : ℕ → ℕ → Bool
is_illegal_va_range va len =
    let end = (va + len) % 2 ^ 32 in
    if len == 0 then false else ltb end va || (ltb va utemp || ltb utop end)

-- The copying loop of `sys_set_var`, `sys_get_var` and `sys_unset_var`, with the rounds that are
-- left: the bytes before a zero, `max` at most, or `none` at an address that is not legal.
unfoldable pub copy_in : ℕ → Memory → ℕ → Option (List ℕ)
copy_in zero m p = some []
copy_in (suc n) m p =
    let rest = copy_in n m (p + 1) in
    if is_illegal_va p
    then none
    else if m p == 0
    then some []
    else elim rest [ none ↦ none | some xs ↦ some (m p ∷ xs) ]

abbrev pub NoZero : List ℕ → Type 0
NoZero [] = Unit {0}
NoZero (x ∷ xs) = (x ≢ 0) × NoZero xs

-- What is copied in fits the kernel's buffer with its zero byte.
pub copy_in-length :
    (n : ℕ) (m : Memory) (p : ℕ) (xs : List ℕ)
    → copy_in n m p ≡ some xs
    → (length xs ≤ n) × NoZero xs
unfolding copy_in
copy_in-length zero m p [] e = (omega arith, tt)
copy_in-length zero m p (x ∷ xs) e = cc
copy_in-length (suc n) m p [] e = (omega arith, tt)
copy_in-length (suc n) m p (x ∷ xs) e = elim (Option-cases (copy_in n m (p + 1))) [
  | inl stop ↦ ground arith
  | inr (ys, rest) ↦
      let same : ys ≡ xs = ground arith in
      let more = copy_in-length n m (p + 1) xs (rest ∙ ap some same) in
      (omega arith, (ground arith, more.1))
]

-- Where the string and its zero byte lie in the user's part of the address space, the loop copies
-- the string, cut at `n` bytes.
pub copy_in-take :
    (n : ℕ) (m : Memory) (p : ℕ) (xs : List ℕ)
    → IsText m p xs
    → utemp ≤ p
    → p + length xs < utop
    → copy_in n m p ≡ some (take n xs)
unfolding copy_in is_illegal_va
copy_in-take zero m p xs t lo hi = refl
copy_in-take (suc n) m p [] t lo hi = ground arith
copy_in-take (suc n) m p (x ∷ xs) t lo hi = ground (arith, copy_in-take n m (p + 1) xs t.2)
