-- ===== src/Fs/Dirs/Packed.antt =====
-- A name that is written into a `struct File` is read back.
use mos_enhanced_shell.Base.{
  ℕ, zero, suc, ◌+◌, ◌-◌, ◌*◌, ◌/◌, ◌%◌, ◌^◌, ◌≤◌, ◌<◌, ◌≡◌, ◌≢◌, refl, ◌∙◌, sym, ap, inl, inr,
  true, false, List, [], ◌∷◌, arith, ltb, leb, ◌==◌, if◌then◌else◌, Bool-cases, ==_refl, length,
  drop, get_or,
}
use mos_enhanced_shell.Fs.Disk.{Disk}
use mos_enhanced_shell.Fs.Dirs.{
  Place, maxnamelen, get_file, name_from, name_byte, put_name, byte_at, word_at,
}

-- Four bytes in a word.
abbrev pub IsByte : ℕ → Type 0
IsByte x = x < 256

unpack :
    (a b c e m : ℕ)
    → IsByte a
    → IsByte b
    → IsByte c
    → IsByte e
    → m < 4
    → (a + b * 256 + c * 256 ^ 2 + e * 256 ^ 3) / 256 ^ m % 256
      ≡ (if m == 0 then a else if m == 1 then b else if m == 2 then c else e)
unpack a b c e zero ha hb hc he h = omega arith
unpack a b c e (suc zero) ha hb hc he h = omega arith
unpack a b c e (suc (suc zero)) ha hb hc he h = omega arith
unpack a b c e (suc (suc (suc zero))) ha hb hc he h = omega arith
unpack a b c e (suc (suc (suc (suc m)))) ha hb hc he h = absurd (omega arith)

abbrev pub AllBytes : List ℕ → Type 0
AllBytes [] = Unit {0}
AllBytes (x ∷ xs) = ((x ≢ 0) × IsByte x) × AllBytes xs

get_or-bytes :
    (xs : List ℕ) (i : ℕ)
    → AllBytes xs
    → i < length xs
    → (get_or xs i 0 ≢ 0) × IsByte (get_or xs i 0)
get_or-bytes [] i h k = absurd (omega arith)
get_or-bytes (x ∷ xs) zero h k = h.0
get_or-bytes (x ∷ xs) (suc i) h k = get_or-bytes xs i h.1 (omega arith)

name_byte-IsByte :
    (name : List ℕ) (old i : ℕ) → AllBytes name → IsByte old → IsByte (name_byte name old i)
unfolding name_byte
name_byte-IsByte name old i h k = elim (Bool-cases (ltb i (length name))) [
  | inl inside ↦ ground (arith, (get_or-bytes name i h (ground arith)).1)
  | inr outside ↦ ground arith
]

drop-get_or : (xs : List ℕ) (i : ℕ) → i < length xs → drop i xs ≡ get_or xs i 0 ∷ drop (suc i) xs
drop-get_or [] i h = absurd (omega arith)
drop-get_or (x ∷ xs) zero h = refl
drop-get_or (x ∷ xs) (suc i) h = drop-get_or xs i (omega arith)

drop-length : (xs : List ℕ) → drop (length xs) xs ≡ []
drop-length [] = refl
drop-length (x ∷ xs) = drop-length xs

picked :
    (name : List ℕ) (w j m : ℕ)
    → m < 4
    → (if m == 0
        then name_byte name (w % 256) (4 * j)
        else if m == 1
        then name_byte name (w / 256 % 256) (4 * j + 1)
        else if m == 2
        then name_byte name (w / 256 ^ 2 % 256) (4 * j + 2)
        else name_byte name (w / 256 ^ 3 % 256) (4 * j + 3))
      ≡ name_byte name (w / 256 ^ m % 256) (4 * j + m)
picked name w j zero h =
    let same : w / 256 ^ 0 ≡ w = omega arith in
    let at : 4 * j + 0 ≡ 4 * j = omega arith in rw (same, at) refl
picked name w j (suc zero) h = refl
picked name w j (suc (suc zero)) h = refl
picked name w j (suc (suc (suc zero))) h = refl
picked name w j (suc (suc (suc (suc m)))) h = absurd (omega arith)

-- Byte `m` of word `j`.
put_name-word :
    (d : Disk) (b o : ℕ) (name : List ℕ) (j m : ℕ)
    → AllBytes name
    → m < 4
    → 4 * j ≤ length name
    → word_at (put_name d (b, o) name) (b, o) j / 256 ^ m % 256
      ≡ name_byte name (word_at d (b, o) j / 256 ^ m % 256) (4 * j + m)
unfolding put_name
put_name-word d b o name j m h small inside =
    let at : o + j - o ≡ j = omega arith in
    let behind : leb o (o + j) ≡ true = ground arith in
    let reached : leb (4 * j) (length name) ≡ true = ground arith in
    let w : ℕ = d.cache b (o + j) in
    rw (==_refl b, behind, at, reached)
      (unpack _ _ _ _ m (name_byte-IsByte name (w % 256) (4 * j) h (omega arith))
          (name_byte-IsByte name (w / 256 % 256) (4 * j + 1) h (omega arith))
          (name_byte-IsByte name (w / 256 ^ 2 % 256) (4 * j + 2) h (omega arith))
          (name_byte-IsByte name (w / 256 ^ 3 % 256) (4 * j + 3) h (omega arith)) small
        ∙ picked name w j m small)

put_name-byte :
    (d : Disk) (p : Place) (name : List ℕ) (i : ℕ)
    → AllBytes name
    → i ≤ length name
    → byte_at (put_name d p name) p i ≡ name_byte name (byte_at d p i) i
put_name-byte d (b, o) name i h inside =
    let whole : 4 * (i / 4) + i % 4 ≡ i = omega arith in
    put_name-word d b o name (i / 4) (i % 4) h (omega arith) (omega arith)
    ∙ ap (name_byte name (byte_at d (b, o) i)) whole

name_from-put_name :
    (n i : ℕ) (d : Disk) (p : Place) (name : List ℕ)
    → AllBytes name
    → i ≤ length name
    → length name < i + n
    → name_from n (put_name d p name) p i ≡ drop i name
unfolding name_from name_byte
name_from-put_name zero i d p name h inside room = absurd (omega arith)
name_from-put_name (suc n) i d p name h inside room = elim (Bool-cases (i == length name)) [
  | inl end ↦
      let last_byte : byte_at (put_name d p name) p i ≡ 0 =
        ground (arith, put_name-byte d p name i h inside) in
      let at : length name ≡ i = ground arith in
      rw last_byte (sym (drop-length name) ∙ ap (λ x. drop x name) at)
  | inr on ↦
      let more : i < length name = ground arith in
      let here : byte_at (put_name d p name) p i ≡ get_or name i 0 =
        ground (arith, put_name-byte d p name i h inside) in
      let some_byte : (get_or name i 0 == 0) ≡ false =
        ground (arith, (get_or-bytes name i h more).0) in
      rw (here, some_byte, drop-get_or name i more)
        (let next : i + 1 ≡ suc i = omega arith in
          ap (λ x. get_or name i 0 ∷ x)
            (name_from-put_name n (i + 1) d p name h (omega arith) (omega arith)
              ∙ ap (λ x. drop x name) next))
]

-- The name is shorter than the room for it.
pub get_file-put_name :
    (d : Disk) (p : Place) (name : List ℕ)
    → AllBytes name
    → length name < maxnamelen
    → (get_file (put_name d p name) p).f_name ≡ name
unfolding get_file
get_file-put_name d p name h room =
    name_from-put_name maxnamelen 0 d p name h (omega arith) (omega arith)
