-- ===== src/Shell/Editor/Bounds.antt =====
-- The editor stays within its buffer, and a line that is returned fits the caller's.
use mos_enhanced_shell.Base.{
  ℕ, zero, suc, ◌-◌, ◌≤◌, ◌<◌, ◌≡◌, refl, inl, inr, Bool, true, false, ◌&&◌, ◌||◌, Option, none,
  some, List, [], ◌∷◌, arith, ltb, leb, ◌==◌, if◌then◌else◌, length, take, drop, length-take,
  length-drop, length-append, Option-cases,
}
use mos_enhanced_shell.Shell.History.{History}
use mos_enhanced_shell.Shell.Editor.{
  Line, Editor, Entered, entered, end_of_input, read_error, out_of_fuel, max_cmd_len, cut_out,
  insert, word_start, edit, entry, at_end, up, down, right, left, arrow, escape, press, readline,
  readline_advanced, older, keep_unfinished,
}

-- The cursor is in the line, and the line fits its buffer with its zero byte.
pub record IsLine (l : Line) : Type 0 where
  pub inside : l.cursor_pos ≤ length l.local_buf
  pub fits : length l.local_buf < max_cmd_len

cut_out-IsLine :
    (from to : ℕ) (l : Line)
    → from ≤ to
    → to ≤ length l.local_buf
    → IsLine l
    → IsLine (cut_out from to l)
unfolding cut_out
cut_out-IsLine from to l h k i = record {
  inside = omega (
    arith,
    length-append (take from l.local_buf) (drop to l.local_buf),
    length-take from l.local_buf,
    length-drop to l.local_buf,
  );
  fits = omega (
    arith,
    length-append (take from l.local_buf) (drop to l.local_buf),
    length-take from l.local_buf,
    length-drop to l.local_buf,
    i.fits,
  );
}

insert-IsLine :
    (c : ℕ) (l : Line) → length l.local_buf < max_cmd_len - 1 → IsLine l → IsLine (insert c l)
unfolding insert
insert-IsLine c l room i =
    let sum = length-append (take l.cursor_pos l.local_buf) (c ∷ drop l.cursor_pos l.local_buf) in
    let a = length-take l.cursor_pos l.local_buf in
    let b = length-drop l.cursor_pos l.local_buf in
    record {
      inside = omega (arith, sum, a, b, i.inside);
      fits = omega (arith, sum, a, b, i.inside);
    }

if-keeps :
    {A : Type 0} (P : A → Type 0) (b : Bool) (x y : A)
    → (b ≡ true → P x)
    → (b ≡ false → P y)
    → P (if b then x else y)
if-keeps P true x y f g = f refl
if-keeps P false x y f g = g refl

-- Every key keeps the cursor in the line and the line in its buffer.
pub edit-IsLine : (c : ℕ) (l : Line) → IsLine l → IsLine (edit c l)
unfolding edit
edit-IsLine c l i =
    if-keeps IsLine (c == 8 || c == 127) _ _
      (λ _.
        if-keeps IsLine (ltb 0 l.cursor_pos) _ _
          (λ there. cut_out-IsLine (l.cursor_pos - 1) l.cursor_pos l (omega arith) i.inside i)
          (λ _. i))
      λ _.
        if-keeps IsLine (c == 1) _ _ (λ _. record { inside = omega arith; fits = i.fits })
          λ _.
            if-keeps IsLine (c == 5) _ _ (λ _. record { inside = omega arith; fits = i.fits })
              λ _.
                if-keeps IsLine (c == 11) _ _
                  (λ _. record {
                    inside = omega (arith, length-take l.cursor_pos l.local_buf, i.inside);
                    fits = omega (arith, length-take l.cursor_pos l.local_buf, i.fits);
                  })
                  λ _.
                    if-keeps IsLine (c == 21) _ _
                      (λ _.
                        if-keeps IsLine (ltb 0 l.cursor_pos) _ _
                          (λ _. cut_out-IsLine 0 l.cursor_pos l (omega arith) i.inside i) (λ _. i))
                      λ _.
                        if-keeps IsLine (c == 23) _ _
                          (λ _.
                            if-keeps IsLine (ltb (word_start l) l.cursor_pos) _ _
                              (λ before.
                                cut_out-IsLine (word_start l) l.cursor_pos l (ground arith) i.inside
                                  i)
                              (λ _. i))
                          λ _.
                            if-keeps IsLine
                              (ltb (length l.local_buf) (max_cmd_len - 1)
                                && (leb 32 c && ltb c 127))
                              _ _ (λ room. insert-IsLine c l (ground arith) i) (λ _. i)

-- Every command in the history fits its slot.
abbrev pub AllFit : History → Type 0
AllFit h = (i : ℕ) → length (h.history_buf i) < max_cmd_len

pub record IsEditor (e : Editor) : Type 0 where
  pub line_fits : IsLine e.line
  pub unfinished_fits : length e.unfinished < max_cmd_len

at_end-IsLine : (s : List ℕ) → length s < max_cmd_len → IsLine (at_end s)
at_end-IsLine s h = record { inside = omega arith; fits = h }

-- The line fits the caller's buffer with its zero byte, and the loop did not run out of fuel.
abbrev pub Fits : ℕ → Entered → Type 0
Fits size (entered s len) =
    (length s < size) × (length s < max_cmd_len) × (length s ≤ len) × (len < max_cmd_len)
Fits size end_of_input = Unit {0}
Fits size read_error = Unit {0}
Fits size out_of_fuel = ⊥

module _ (h : History) (all : AllFit h) where
  keep_unfinished-fits : (e : Editor) → IsEditor e → length (keep_unfinished e) < max_cmd_len
  keep_unfinished-fits e i = elim (Option-cases e.history_nav_pos) [
    | inl n ↦ rw n i.line_fits.fits
    | inr (k, n) ↦ rw n i.unfinished_fits
  ]

  up-IsEditor : (e : Editor) → IsEditor e → IsEditor (up h e)
  unfolding up entry
  up-IsEditor e i =
      if-keeps IsEditor (ltb (older e.history_nav_pos) h.history_count) _ _
        (λ _. record {
          line_fits = at_end-IsLine (entry h (older e.history_nav_pos)) (all _);
          unfinished_fits = keep_unfinished-fits e i;
        })
        (λ _. i)

  down_from :
      (nav : Option ℕ) (l : Line) (s : List ℕ)
      → IsEditor (record { line = l; history_nav_pos = nav; unfinished = s })
      → IsEditor (down h (record { line = l; history_nav_pos = nav; unfinished = s }))
  unfolding down entry
  down_from none l s i = i
  down_from (some zero) l s i = record {
    line_fits = at_end-IsLine s i.unfinished_fits;
    unfinished_fits = i.unfinished_fits;
  }
  down_from (some (suc n)) l s i = record {
    line_fits = at_end-IsLine (entry h n) (all _);
    unfinished_fits = i.unfinished_fits;
  }

  arrow-IsEditor : (c : ℕ) (e : Editor) → IsEditor e → IsEditor (arrow h c e)
  unfolding arrow right left
  arrow-IsEditor c e i =
      if-keeps IsEditor (c == b'A') _ _ (λ _. up-IsEditor e i)
        λ _.
          if-keeps IsEditor (c == b'B') _ _ (λ _. down_from e.history_nav_pos e.line e.unfinished i)
            λ _.
              if-keeps IsEditor (c == b'C') _ _
                (λ _. record {
                  line_fits =
                      if-keeps IsLine (ltb e.line.cursor_pos (length e.line.local_buf)) _ _
                        (λ room. record { inside = ground arith; fits = i.line_fits.fits })
                        (λ _. i.line_fits);
                  unfinished_fits = i.unfinished_fits;
                })
                λ _.
                  if-keeps IsEditor (c == b'D') _ _
                    (λ _. record {
                      line_fits =
                          if-keeps IsLine (ltb 0 e.line.cursor_pos) _ _
                            (λ there. record {
                              inside = omega (arith, i.line_fits.inside);
                              fits = i.line_fits.fits;
                            })
                            (λ _. i.line_fits);
                      unfinished_fits = i.unfinished_fits;
                    })
                    (λ _. i)

  escape-keeps :
      (keys : List ℕ) (e : Editor)
      → IsEditor e
      → IsEditor (escape h keys e).0 × (length (escape h keys e).1 ≤ length keys)
  unfolding escape
  escape-keeps [] e i = (i, omega arith)
  escape-keeps (c ∷ []) e i = (i, omega arith)
  escape-keeps (c ∷ d ∷ keys) e i =
      if-keeps {A = Editor × List ℕ} (λ r. IsEditor r.0 × (length r.1 ≤ suc (suc (length keys))))
        (c == b'[') _ _ (λ _. (arrow-IsEditor d e i, omega arith)) (λ _. (i, omega arith))

  press-keeps :
      (c : ℕ) (keys : List ℕ) (e : Editor)
      → IsEditor e
      → IsEditor (press h c keys e).0 × (length (press h c keys e).1 ≤ length keys)
  unfolding press
  press-keeps c keys e i =
      if-keeps {A = Editor × List ℕ} (λ r. IsEditor r.0 × (length r.1 ≤ length keys)) (c == 27) _ _
        (λ _. escape-keeps keys e i)
        (λ _. (
          record {
            line_fits = edit-IsLine c e.line i.line_fits;
            unfinished_fits = i.unfinished_fits;
          },
          omega arith,
        ))

  readline-Fits :
      (k size : ℕ) (keys : List ℕ) (broken : Bool) (e : Editor)
      → length keys < k
      → 0 < size
      → IsEditor e
      → Fits size (readline k size h keys broken e)
  unfolding readline
  readline-Fits zero size keys broken e fuel room i = absurd (omega arith)
  readline-Fits (suc k) size [] broken e fuel room i =
      if-keeps (Fits size) broken _ _ (λ _. tt) (λ _. tt)
  readline-Fits (suc k) size (c ∷ keys) broken e fuel room i =
      if-keeps (Fits size) (c == 13 || c == 10) _ _
        (λ _. (
          omega (arith, length-take (size - 1) e.line.local_buf),
          omega (arith, length-take (size - 1) e.line.local_buf, i.line_fits.fits),
          omega (arith, length-take (size - 1) e.line.local_buf),
          i.line_fits.fits,
        ))
        λ _.
          let after = press-keeps c keys e i in
          readline-Fits k size (press h c keys e).1 broken (press h c keys e).0
            (omega (arith, after.1)) room after.0

  -- For every sequence of keys and a history whose commands fit their slots, with fuel for every
  -- key and a buffer, `readline_advanced` returns, and a line that it returns fits the caller's
  -- buffer and the editor's own with the zero byte.
  pub readline_advanced-Fits :
      (k size : ℕ) (keys : List ℕ) (broken : Bool)
      → length keys < k
      → 0 < size
      → Fits size (readline_advanced k size h keys broken)
  unfolding readline_advanced
  readline_advanced-Fits k size keys broken fuel room =
      readline-Fits k size keys broken _ fuel room
        (record { line_fits = at_end-IsLine [] (omega arith); unfinished_fits = omega arith })
