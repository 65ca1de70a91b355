-- ===== src/Shell/Editor/Zipper.antt =====
-- The editor's line as the text before the cursor and the text behind it.
use mos_enhanced_shell.Base.{
  ℕ, zero, suc, ◌-◌, ◌≤◌, ◌<◌, ◌≡◌, refl, ◌∙◌, sym, Bool, true, false, ◌&&◌, ◌||◌, List, [], ◌∷◌,
  ◌++◌, arith, ltb, leb, ◌==◌, if◌then◌else◌, length, take, length-take, length-append,
  take-length-append, drop-length-append, take-all, take-append, get_or, append-nil, append_assoc,
  ap,
}
use mos_enhanced_shell.Shell.Editor.Word.{
  IsLastWord, last_word, skip_blanks-le, skip_word-le, last_word-IsLastWord,
}
use mos_enhanced_shell.Shell.Editor.{
  Line, max_cmd_len, cut_out, insert, skip_blanks, skip_word, word_start, edit,
}

abbrev pub Zipper : Type 0
Zipper = List ℕ × List ℕ

abbrev pub joined : Zipper → Line
joined z = record { local_buf = z.0 ++ z.1; cursor_pos = length z.0 }

-- What a key does to the two texts; the last word of the first starts at `n`.
unfoldable pub edited : ℕ → ℕ → Zipper → Zipper
edited n c (b, a) =
    if c == 8 || c == 127
    then (take (length b - 1) b, a)
    else if c == 1
    then ([], b ++ a)
    else if c == 5
    then (b ++ a, [])
    else if c == 11
    then (b, [])
    else if c == 21
    then ([], a)
    else if c == 23
    then (take n b, a)
    else if ltb (length (b ++ a)) (max_cmd_len - 1) && (leb 32 c && ltb c 127)
    then (b ++ (c ∷ []), a)
    else (b, a)

if-joined :
    (b : Bool) (x y : Line) (u v : Zipper)
    → (b ≡ true → x ≡ joined u)
    → (b ≡ false → y ≡ joined v)
    → (if b then x else y) ≡ joined (if b then u else v)
if-joined true x y u v f g = f refl
if-joined false x y u v f g = g refl

if-both :
    {A : Type 0} (b : Bool) (x y z : A)
    → (b ≡ true → x ≡ z)
    → (b ≡ false → y ≡ z)
    → (if b then x else y) ≡ z
if-both true x y z f g = f refl
if-both false x y z f g = g refl

Line-eq :
    (b b' : List ℕ) (n n' : ℕ)
    → b ≡ b'
    → n ≡ n'
    → ◌≡◌ {A = Line}
        (record { local_buf = b; cursor_pos = n })
        (record { local_buf = b'; cursor_pos = n' })
Line-eq b b' n n' e f = cc

cut_out-joined :
    (n : ℕ) (b a : List ℕ)
    → n ≤ length b
    → cut_out n (length b) (joined (b, a)) ≡ joined (take n b, a)
unfolding cut_out
cut_out-joined n b a h =
    Line-eq _ _ _ _ (rw (take-append n b a h, drop-length-append b a) refl)
      (omega (arith, length-take n b))

insert-joined : (c : ℕ) (b a : List ℕ) → insert c (joined (b, a)) ≡ joined (b ++ (c ∷ []), a)
unfolding insert
insert-joined c b a =
    Line-eq _ _ _ _
      (rw (take-length-append b a, drop-length-append b a) (sym (append_assoc b (c ∷ []) a)))
      (omega (arith, length-append b (c ∷ [])))

get_or-front : (i : ℕ) (b a : List ℕ) → i < length b → get_or (b ++ a) i 0 ≡ get_or b i 0
get_or-front i [] a h = absurd (omega arith)
get_or-front zero (x ∷ b) a h = refl
get_or-front (suc i) (x ∷ b) a h = get_or-front i b a (omega arith)

skip_blanks-append :
    (i : ℕ) (b a : List ℕ) → i ≤ length b → skip_blanks (b ++ a) i ≡ skip_blanks b i
unfolding skip_blanks
skip_blanks-append zero b a h = refl
skip_blanks-append (suc i) b a h =
    rw (get_or-front i b a h, skip_blanks-append i b a (omega arith)) refl

skip_word-append : (i : ℕ) (b a : List ℕ) → i ≤ length b → skip_word (b ++ a) i ≡ skip_word b i
unfolding skip_word
skip_word-append zero b a h = refl
skip_word-append (suc i) b a h =
    rw (get_or-front i b a h, skip_word-append i b a (omega arith)) refl

pub word_start-le : (l : Line) → word_start l ≤ l.cursor_pos
unfolding word_start
word_start-le l = omega (
  arith,
  skip_word-le l.local_buf (skip_blanks l.local_buf l.cursor_pos),
  skip_blanks-le l.local_buf l.cursor_pos,
)

last_word-le : (b : List ℕ) → last_word b ≤ length b
unfolding last_word
last_word-le b =
    omega (arith, skip_word-le b (skip_blanks b (length b)), skip_blanks-le b (length b))

word_start-joined : (b a : List ℕ) → word_start (joined (b, a)) ≡ last_word b
unfolding word_start last_word
word_start-joined b a =
    rw (skip_blanks-append (length b) b a (omega arith))
      (skip_word-append (skip_blanks b (length b)) b a (skip_blanks-le b (length b)))

empty-joined : (b a : List ℕ) (n : ℕ) → length b ≡ 0 → joined (b, a) ≡ joined (take n b, a)
empty-joined [] a zero h = refl
empty-joined [] a (suc n) h = refl
empty-joined (x ∷ b) a n h = absurd (omega arith)

edit-joined_word :
    (c : ℕ) (b a : List ℕ) → edit c (joined (b, a)) ≡ joined (edited (last_word b) c (b, a))
unfolding edit edited
edit-joined_word c b a =
    if-joined (c == 8 || c == 127) _ _ _ _
      (λ _.
        if-both (ltb 0 (length b)) _ _ _ (λ there. cut_out-joined (length b - 1) b a (omega arith))
          (λ first. empty-joined b a (length b - 1) (ground arith)))
      λ _.
        if-joined (c == 1) _ _ _ _ (λ _. refl)
          λ _.
            if-joined (c == 5) _ _ _ _ (λ _. Line-eq _ _ _ _ (sym (append-nil (b ++ a))) refl)
              λ _.
                if-joined (c == 11) _ _ _ _
                  (λ _. Line-eq _ _ _ _ (take-length-append b a ∙ sym (append-nil b)) refl)
                  λ _.
                    if-joined (c == 21) _ _ _ _
                      (λ _.
                        if-both (ltb 0 (length b)) _ _ _
                          (λ there. cut_out-joined 0 b a (omega arith))
                          (λ first. empty-joined b a 0 (ground arith)))
                      λ _.
                        if-joined (c == 23) _ _ _ _
                          (λ _.
                            if-both (ltb (word_start (joined (b, a))) (length b)) _ _ _
                              (λ before.
                                rw (word_start-joined b a)
                                  (cut_out-joined (last_word b) b a (last_word-le b)))
                              (λ stays.
                                ap (λ q. joined (q, a))
                                  (sym (
                                    take-all (last_word b) b
                                      (ground (arith, word_start-joined b a))))))
                          λ _.
                            if-joined
                              (ltb (length (b ++ a)) (max_cmd_len - 1) && (leb 32 c && ltb c 127)) _
                              _ _ _ (λ _. insert-joined c b a) (λ _. refl)

-- Each editing key does to the editor's line what it does to the texts before and behind the
-- cursor: it drops the last byte, all from the start of the last word on, or all before the
-- cursor, drops what is behind it, moves to an end, or puts a printable byte in while there is
-- room; the last word is the longest run of bytes other than spaces and tabs that only spaces and
-- tabs follow.
pub edit-joined :
    (c : ℕ) (z : Zipper) → (n : ℕ) × IsLastWord z.0 n × (edit c (joined z) ≡ joined (edited n c z))
edit-joined c (b, a) = (last_word b, last_word-IsLastWord b, edit-joined_word c b a)
