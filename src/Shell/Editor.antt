-- ===== src/Shell/Editor.antt =====
-- The line editor of user/lib/shellio.c, `readline_advanced`, less what it draws. `local_buf` is the
-- text in it, so that `len` is its length; the keys are the bytes that `read` gives, and their end
-- is the end of the input, or an error if the input is `broken`.
pub mod Word
pub mod Zipper
pub mod Bounds
mod Tests
use mos_enhanced_shell.Base.{
  ℕ, zero, suc, ◌+◌, ◌-◌, ◌%◌, Bool, true, false, ◌&&◌, ◌||◌, not, Option, none, some, List, [],
  ◌∷◌, ◌++◌, ltb, leb, ◌==◌, if◌then◌else◌, length, take, drop, get_or,
}
use mos_enhanced_shell.Shell.History.{History, max_history}

abbrev pub max_cmd_len : ℕ
max_cmd_len = 1024

pub record Line : Type 0 where
  pub local_buf : List ℕ
  pub cursor_pos : ℕ

-- `memmove(&local_buf[from], &local_buf[to], len - to + 1)`, the cursor at `from`
unfoldable pub cut_out : ℕ → ℕ → Line → Line
cut_out from to l = record {
  local_buf = take from l.local_buf ++ drop to l.local_buf;
  cursor_pos = from;
}

unfoldable pub insert : ℕ → Line → Line
insert c l = record {
  local_buf = take l.cursor_pos l.local_buf ++ (c ∷ drop l.cursor_pos l.local_buf);
  cursor_pos = l.cursor_pos + 1;
}

-- `strchr(" \t", c)`
abbrev pub is_blank : ℕ → Bool
is_blank c = c == b' ' || c == 9

-- `while (start_pos > 0 && strchr(" \t", local_buf[start_pos-1])) start_pos--`
unfoldable pub skip_blanks : List ℕ → ℕ → ℕ
skip_blanks b zero = 0
skip_blanks b (suc i) =
    let rest = skip_blanks b i in if is_blank (get_or b i 0) then rest else suc i

-- `while (start_pos > 0 && !strchr(" \t", local_buf[start_pos-1])) start_pos--`
unfoldable pub skip_word : List ℕ → ℕ → ℕ
skip_word b zero = 0
skip_word b (suc i) =
    let rest = skip_word b i in if not (is_blank (get_or b i 0)) then rest else suc i

unfoldable pub word_start : Line → ℕ
word_start l = skip_word l.local_buf (skip_blanks l.local_buf l.cursor_pos)

-- The keys that edit; any other byte is dropped.
unfoldable pub edit : ℕ → Line → Line
edit c l =
    if c == 8 || c == 127
    then (if ltb 0 l.cursor_pos then cut_out (l.cursor_pos - 1) l.cursor_pos l else l)
    else if c == 1
    then record l { cursor_pos = 0 }
    else if c == 5
    then record l { cursor_pos = length l.local_buf }
    else if c == 11
    then record l { local_buf = take l.cursor_pos l.local_buf }
    else if c == 21
    then (if ltb 0 l.cursor_pos then cut_out 0 l.cursor_pos l else l)
    else if c == 23
    then (if ltb (word_start l) l.cursor_pos then cut_out (word_start l) l.cursor_pos l else l)
    else if ltb (length l.local_buf) (max_cmd_len - 1) && (leb 32 c && ltb c 127)
    then insert c l
    else l

-- The line, `history_nav_pos` (`none` for -1), and the unfinished line in the last slot.
pub record Editor : Type 0 where
  pub line : Line
  pub history_nav_pos : Option ℕ
  pub unfinished : List ℕ

unfoldable pub entry : History → ℕ → List ℕ
entry h nav = h.history_buf ((h.history_tail + max_history - 1 - nav) % max_history)

abbrev pub at_end : List ℕ → Line
at_end s = record { local_buf = s; cursor_pos = length s }

-- `history_nav_pos + 1`
abbrev pub older : Option ℕ → ℕ
older none = 0
older (some n) = suc n

abbrev pub keep_unfinished : Editor → List ℕ
keep_unfinished e = elim e.history_nav_pos [ none ↦ e.line.local_buf | some _ ↦ e.unfinished ]

unfoldable pub up : History → Editor → Editor
up h e =
    if ltb (older e.history_nav_pos) h.history_count
    then record {
      line = at_end (entry h (older e.history_nav_pos));
      history_nav_pos = some (older e.history_nav_pos);
      unfinished = keep_unfinished e;
    }
    else e

unfoldable pub down : History → Editor → Editor
down h e = elim e.history_nav_pos [
  | none ↦ e
  | some zero ↦ record e { line = at_end e.unfinished; history_nav_pos = none }
  | some (suc n) ↦ record e { line = at_end (entry h n); history_nav_pos = some n }
]

unfoldable pub right : Line → Line
right l =
    if ltb l.cursor_pos (length l.local_buf) then record l { cursor_pos = l.cursor_pos + 1 } else l

unfoldable pub left : Line → Line
left l = if ltb 0 l.cursor_pos then record l { cursor_pos = l.cursor_pos - 1 } else l

-- The key behind "ESC [".
unfoldable pub arrow : History → ℕ → Editor → Editor
arrow h c e =
    if c == b'A'
    then up h e
    else if c == b'B'
    then down h e
    else if c == b'C'
    then record e { line = right e.line }
    else if c == b'D'
    then record e { line = left e.line }
    else e

-- An escape sequence, and the keys behind it.
unfoldable pub escape : History → List ℕ → Editor → Editor × List ℕ
escape h [] e = (e, [])
escape h (c ∷ []) e = (e, [])
escape h (c ∷ d ∷ keys) e = if c == b'[' then (arrow h d e, keys) else (e, d ∷ keys)

-- What the call returns: the length of the line with the line in `buf`, 0 at the end of the input
-- or -1 on an error with `buf` as it was.
pub data Entered : Type 0 where
  entered : List ℕ → ℕ → Entered
  end_of_input : Entered
  read_error : Entered
  out_of_fuel : Entered

-- A key that does not end the line.
unfoldable pub press : History → ℕ → List ℕ → Editor → Editor × List ℕ
press h c keys e = if c == 27 then escape h keys e else (record e { line = edit c e.line }, keys)

unfoldable pub readline : ℕ → ℕ → History → List ℕ → Bool → Editor → Entered
readline zero size h keys broken e = out_of_fuel
readline (suc k) size h [] broken e = if broken then read_error else end_of_input
readline (suc k) size h (c ∷ keys) broken e =
    let after = press h c keys e in
    let rest = readline k size h after.1 broken after.0 in
    if c == 13 || c == 10
    then entered (take (size - 1) e.line.local_buf) (length e.line.local_buf)
    else rest

unfoldable pub readline_advanced : ℕ → ℕ → History → List ℕ → Bool → Entered
readline_advanced k size h keys broken = readline k size h keys broken (record {
  line = record { local_buf = []; cursor_pos = 0 };
  history_nav_pos = none;
  unfinished = [];
})
