-- ===== src/Shell/Chain.antt =====
-- The loop of `main` in user/sh.c that runs the commands of a line, joined by ";", "&&" and "||".
-- What a command does is a parameter: `W` is the state of the world outside the loop, and an `int`
-- is kept as its bit pattern.
pub mod Cut
pub mod Meaning
use mos_enhanced_shell.Base.{
  ℕ, zero, suc, ◌+◌, ◌*◌, ◌^◌, Bool, true, false, ◌&&◌, ◌||◌, not, Option, none, some, List, [],
  ◌∷◌, ltb, leb, ◌==◌, if◌then◌else◌, take, drop, get_or, text_eq,
}
use mos_enhanced_shell.Strings.Scan.{index_of}
use mos_enhanced_shell.Shell.Chars.{skip_space, peek_first_word, my_strstr}

abbrev pub and_text : List ℕ
and_text = b'&' ∷ b'&' ∷ []

abbrev pub or_text : List ℕ
or_text = b'|' ∷ b'|' ∷ []

-- `if (next && (!separator || next < separator)) separator = next`
unfoldable pub earlier : Option ℕ → Option ℕ → Option ℕ
earlier none old = old
earlier (some i) none = some i
earlier (some i) (some j) = if ltb i j then some i else some j

-- The offset of the separator that comes first.
unfoldable pub separator : List ℕ → Option ℕ
separator line =
    earlier (index_of b';' line)
      (earlier (my_strstr or_text line) (earlier (my_strstr and_text line) none))

-- `separator == next_semi`, for the separator at `i`
unfoldable pub is_semi : ℕ → List ℕ → Bool
is_semi i line = elim (index_of b';' line) [ none ↦ false | some j ↦ i == j ]

unfoldable pub sep_len : ℕ → List ℕ → ℕ
sep_len i line = if is_semi i line then 1 else 2

-- Whether the next command runs, after the separator at `i`.
unfoldable pub should_run_next : ℕ → List ℕ → ℕ → Bool
should_run_next i line last_status =
    if sep_len i line == 2 && get_or line i 0 == b'&'
    then last_status == 0
    else if sep_len i line == 2 && get_or line i 0 == b'|'
    then not (last_status == 0)
    else true

unfoldable pub negative : ℕ → Bool
negative n = leb (2 ^ 31) n

-- What the loop calls: `handle_backticks` (its status and the text), `run_history_cmd`, `runcmd`
-- for a built-in command, `wait`, and `fork` with `runcmd` in the child and `wait` in the shell,
-- `none` if there is no process to be had.
pub record Commands (W : Type 0) : Type 0 where
  pub handle_backticks : W → List ℕ → ℕ × List ℕ × W
  pub run_history_cmd : W → W
  pub runcmd : W → List ℕ → ℕ × W
  pub wait : W → ℕ → ℕ × W
  pub fork : W → List ℕ → Option (ℕ × W)

-- How a line ends: with a status, by `exit`, by a panic, or without fuel.
pub data Ended (W : Type 0) : Type 0 where
  finished : ℕ → W → Ended W
  exited : W → Ended W
  panicked : W → Ended W
  out_of_fuel : Ended W

abbrev pub exit_text : List ℕ
exit_text = b'e' ∷ b'x' ∷ b'i' ∷ b't' ∷ []

abbrev pub history_text : List ℕ
history_text = b'h' ∷ b'i' ∷ b's' ∷ b't' ∷ b'o' ∷ b'r' ∷ b'y' ∷ []

abbrev pub cd_text : List ℕ
cd_text = b'c' ∷ b'd' ∷ []

abbrev pub pwd_text : List ℕ
pwd_text = b'p' ∷ b'w' ∷ b'd' ∷ []

abbrev pub declare_text : List ℕ
declare_text = b'd' ∷ b'e' ∷ b'c' ∷ b'l' ∷ b'a' ∷ b'r' ∷ b'e' ∷ []

abbrev pub unset_text : List ℕ
unset_text = b'u' ∷ b'n' ∷ b's' ∷ b'e' ∷ b't' ∷ []

abbrev pub is_builtin : List ℕ → Bool
is_builtin word =
    text_eq word cd_text
    || (text_eq word pwd_text || (text_eq word declare_text || text_eq word unset_text))

module _ {W : Type 0} (c : Commands W) where
  -- A built-in command, by the value that `runcmd` returns.
  unfoldable pub run_builtin : W → List ℕ → Ended W
  run_builtin w cmd =
      let (ret_code, w') = c.runcmd w cmd in
      if negative ret_code
      then finished 1 w'
      else if not (ret_code == 0)
      then (let (status, w'') = c.wait w' ret_code in finished status w'')
      else finished 0 w'

  unfoldable pub run_child : W → List ℕ → Ended W
  run_child w cmd = elim (c.fork w cmd) [
    | none ↦ panicked w
    | some (status, w') ↦ finished status w'
  ]

  -- The body for a command that should run; its status is the new `last_status`.
  unfoldable pub run_command : W → List ℕ → Ended W
  run_command w sub_cmd =
      let (substitution_status, text, w') = c.handle_backticks w sub_cmd in
      let word = peek_first_word text 128 in
      if negative substitution_status
      then finished 1 w'
      else if text_eq word exit_text
      then exited w'
      else if text_eq word history_text
      then finished 0 (c.run_history_cmd w')
      else if is_builtin word
      then run_builtin w' text
      else run_child w' text

  unfoldable pub run_or_skip : Bool → W → ℕ → List ℕ → Ended W
  run_or_skip should_run w last_status sub_cmd =
      if should_run then run_command w sub_cmd else finished last_status w

  unfoldable pub run_line : ℕ → Bool → W → ℕ → List ℕ → Ended W
  run_line zero should_run w last_status line = out_of_fuel
  run_line (suc k) should_run w last_status line = elim (skip_space line) [
    | [] ↦ finished last_status w
    | a ∷ p ↦ elim (separator (a ∷ p)) [
      | none ↦ run_or_skip should_run w last_status (a ∷ p)
      | some i ↦ elim (run_or_skip should_run w last_status (take i (a ∷ p))) [
        | finished s w' ↦
            run_line k (should_run_next i (a ∷ p) s) w' s (drop (i + sep_len i (a ∷ p)) (a ∷ p))
        | exited w' ↦ exited w'
        | panicked w' ↦ panicked w'
        | out_of_fuel ↦ out_of_fuel
      ]
    ]
  ]
