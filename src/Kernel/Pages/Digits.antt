-- ===== src/Kernel/Pages/Digits.antt =====
-- The parts of an entry: its page and its valid bit.
use Prim.Native.Nat.{max, digits, bit_or, bit_or-bitwise}
use mos_enhanced_shell.Base.{
  ℕ, zero, suc, ◌+◌, ◌*◌, ◌/◌, ◌%◌, ◌^◌, ◌≤◌, ◌<◌, ◌≡◌, refl, ◌∙◌, sym, ◌≢◌, arith, true,
}
use mos_enhanced_shell.Kernel.Pages.{
  entry, ppn, page2pa, is_valid, pte_v, pte_c_cacheable, table_entry,
}

ap2 : {a b c d : ℕ} → a ≡ b → c ≡ d → bit_or a c ≡ bit_or b d
ap2 p q = cc

-- The law for the lowest digit, from the definition of the native operation.
abbrev or_digits : ℕ → ℕ → ℕ → ℕ
or_digits n a b = digits (λ b. b) max n a b

or_digits_fuel : (n m a b : ℕ) → a ≤ n → a ≤ m → or_digits n a b ≡ or_digits m a b
or_digits_fuel zero zero a b p q = refl
or_digits_fuel zero (suc m) zero b p q = refl
or_digits_fuel zero (suc m) (suc a) b p q = absurd (omega arith)
or_digits_fuel (suc n) zero zero b p q = refl
or_digits_fuel (suc n) zero (suc a) b p q = absurd (omega arith)
or_digits_fuel (suc n) (suc m) zero b p q = refl
or_digits_fuel (suc n) (suc m) (suc a) b p q =
    omega (arith, or_digits_fuel n m (suc a / 2) (b / 2) (omega arith) (omega arith))

zero-bit_or : (b : ℕ) → bit_or 0 b ≡ b
zero-bit_or b = bit_or-bitwise 0 b

bit_or_step : (a b : ℕ) → bit_or a b ≡ bit_or (a / 2) (b / 2) * 2 + max (a % 2) (b % 2)
bit_or_step zero b = omega (arith, zero-bit_or b, zero-bit_or (b / 2))
bit_or_step (suc a) b = omega (
  arith,
  bit_or-bitwise (suc a) b,
  bit_or-bitwise (suc a / 2) (b / 2),
  or_digits_fuel a (suc a / 2) (suc a / 2) (b / 2) (omega arith) (omega arith),
)

bit_or-zero_fuel : (n a : ℕ) → a ≤ n → bit_or a 0 ≡ a
bit_or-zero_fuel n zero h = refl
bit_or-zero_fuel zero (suc a) h = absurd (omega arith)
bit_or-zero_fuel (suc n) (suc a) h =
    omega (arith, bit_or_step (suc a) 0, bit_or-zero_fuel n (suc a / 2) (omega arith))

bit_or-zero : (a : ℕ) → bit_or a 0 ≡ a
bit_or-zero a = bit_or-zero_fuel a a (omega arith)

bit_or-half : (a b : ℕ) → bit_or a b / 2 ≡ bit_or (a / 2) (b / 2)
bit_or-half a b = omega (arith, bit_or_step a b)

abbrev halve : ℕ → ℕ → ℕ
halve zero a = a
halve (suc n) a = halve n (a / 2)

halve-bit_or : (n a b : ℕ) → halve n (bit_or a b) ≡ bit_or (halve n a) (halve n b)
halve-bit_or zero a b = refl
halve-bit_or (suc n) a b = rw bit_or-half (halve-bit_or n (a / 2) (b / 2))

halve_12 : (a : ℕ) → halve 12 a ≡ ppn a
halve_12 a = omega arith

halve_7 : (a : ℕ) → halve 7 a ≡ a / pte_v
halve_7 a = omega arith

bit_or-ppn : (a b : ℕ) → ppn (bit_or a b) ≡ bit_or (ppn a) (ppn b)
bit_or-ppn a b = sym (halve_12 (bit_or a b)) ∙ (halve-bit_or 12 a b ∙ ap2 (halve_12 a) (halve_12 b))

-- The valid bit of `a | PTE_V`.
bit_or-is_valid : (a : ℕ) → is_valid (bit_or a pte_v) ≡ true
bit_or-is_valid a =
    ground (arith, halve_7 (bit_or a pte_v), halve-bit_or 7 a pte_v, bit_or_step (halve 7 a) 1)

low_flags : (a b : ℕ) → b < 2 ^ 12 → ppn (bit_or a b) ≡ ppn a
low_flags a b low =
    let none_above : ppn b ≡ 0 = omega arith in bit_or-ppn a b ∙ rw none_above (bit_or-zero (ppn a))

pub entry-ppn : (pp perm : ℕ) → pp < 2 ^ 20 → perm < 2 ^ 12 → ppn (entry pp perm) ≡ pp
unfolding entry
entry-ppn pp perm small bits =
    low_flags _ pte_v (omega arith)
    ∙ (low_flags _ pte_c_cacheable (omega arith) ∙ (low_flags (page2pa pp) perm bits ∙ omega arith))

pub entry-is_valid : (pp perm : ℕ) → is_valid (entry pp perm) ≡ true
unfolding entry
entry-is_valid pp perm = bit_or-is_valid (bit_or (bit_or (page2pa pp) perm) pte_c_cacheable)

-- The directory's entry for a table, which is not 0.
pub table_entry-ppn : (pp : ℕ) → pp < 2 ^ 20 → ppn (table_entry pp) ≡ pp
unfolding table_entry
table_entry-ppn pp small =
    low_flags _ pte_v (omega arith)
    ∙ (low_flags (page2pa pp) pte_c_cacheable (omega arith) ∙ omega arith)

pub table_entry-some : (pp : ℕ) → table_entry pp ≢ 0
unfolding table_entry
table_entry-some pp = λ e. ground (arith, bit_or-is_valid (bit_or (page2pa pp) pte_c_cacheable))
