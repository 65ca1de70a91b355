-- ===== src/Shell/Line/Expand.antt =====
-- How long an expanded line is.
use mos_enhanced_shell.Base.{
  ℕ, zero, suc, ◌*◌, ◌≤◌, ◌<◌, ◌≡◌, refl, ◌∙◌, inl, inr, true, some, List, [], ◌∷◌, ◌++◌, arith,
  ◌==◌, take, drop, take-length-append, drop-length-append, take-all, length, length-drop,
  length-append, Bool-cases,
}
use mos_enhanced_shell.Kernel.Vars.{Table, max_var_name_len, max_var_value_len}
use mos_enhanced_shell.Shell.Line.{expand, get_var_value, name_len, is_name}

-- Every value in the table fits its array.
abbrev pub AllShort : Table → Type 0
AllShort t = (n : List ℕ) → length (get_var_value t n) ≤ max_var_value_len

-- With fuel for every byte the expansion of variables ends, and where values have at most 16 bytes
-- it is at most 16 times as long as the line.
pub expand-bound :
    (k : ℕ) (t : Table) (p : List ℕ)
    → AllShort t
    → length p < k
    → (e : List ℕ) × (expand k t p ≡ some e) × (length e ≤ 16 * length p)
unfolding expand
expand-bound zero t p short fuel = absurd (omega arith)
expand-bound (suc k) t [] short fuel = ([], refl, omega arith)
expand-bound (suc k) t (c ∷ p) short fuel = elim (Bool-cases (c == b'$')) [
  | inl dollar ↦
      let n = name_len p in
      let less = length-drop n p in
      let name = take max_var_name_len (take n p) in
      let (e, ran, le) = expand-bound k t (drop n p) short (omega arith) in
      let sum = length-append (get_var_value t name) e in
      (get_var_value t name ++ e, rw (dollar, ran) refl, omega (arith, short name))
  | inr other ↦
      let (e, ran, le) = expand-bound k t p short (omega arith) in
      (c ∷ e, rw (other, ran) refl, omega arith)
]

-- `n` times `$` and the name `name`.
unfoldable pub repeated : ℕ → List ℕ → List ℕ
repeated zero name = []
repeated (suc n) name = (b'$' ∷ name) ++ repeated n name

-- A name that is read as a whole.
abbrev pub IsName : List ℕ → Type 0
IsName [] = Unit {0}
IsName (c ∷ p) = (is_name c ≡ true) × IsName p

name_len-stop : (n : ℕ) (name : List ℕ) → name_len (repeated n name) ≡ 0
unfolding name_len repeated
name_len-stop zero name = refl
name_len-stop (suc n) name = refl

name_len-append :
    (name q : List ℕ) → IsName name → name_len q ≡ 0 → name_len (name ++ q) ≡ length name
unfolding name_len
name_len-append [] q h stop = stop
name_len-append (c ∷ p) q h stop = rw (h.0, name_len-append p q h.1 stop) refl

expand-dollar :
    (k : ℕ) (t : Table) (p e : List ℕ)
    → expand k t (drop (name_len p) p) ≡ some e
    → expand (suc k) t (b'$' ∷ p)
      ≡ some (get_var_value t (take max_var_name_len (take (name_len p) p)) ++ e)
unfolding expand
expand-dollar k t p e ran = rw ran refl

-- With fuel for every byte and a name of at most 16 name bytes, a line of `n` variables expands to
-- a text of `n` times the length of the value, however long that is.
pub expand-repeated :
    (k n : ℕ) (t : Table) (name : List ℕ)
    → IsName name
    → length name ≤ max_var_name_len
    → length (repeated n name) < k
    → (e : List ℕ) × (expand k t (repeated n name) ≡ some e)
      × (length e ≡ n * length (get_var_value t name))
unfolding repeated expand
expand-repeated zero n t name h short fuel = absurd (omega arith)
expand-repeated (suc k) zero t name h short fuel = ([], refl, omega arith)
expand-repeated (suc k) (suc n) t name h short fuel =
    let q = repeated n name in
    let size = length-append name q in
    let (e, ran, len) = expand-repeated k n t name h short (omega arith) in
    let sum = length-append (get_var_value t name) e in
    let reads = name_len-append name q h (name_len-stop n name) in
    let step = expand-dollar k t (name ++ q) e (rw (reads, drop-length-append name q) ran) in
    (
      get_var_value t name ++ e,
      step ∙ rw (reads, take-length-append name q, take-all max_var_name_len name short) refl,
      omega (arith, len, sum),
    )
