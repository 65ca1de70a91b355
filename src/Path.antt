-- ===== src/Path.antt =====
-- user/lib/path.c (`resolve_path`), and the copy of it in user/sh.c that is given the working
-- directory and checks `max_len` in two more places. A string is the list of its bytes, as
-- `Strings` shows of the functions that are called here: `strlen` is `length`, `strchr` is
-- `index_of`, `strcmp` compares texts, `strcpy` and `memcpy` copy.
pub mod Split
pub mod Up
pub mod Walk
pub mod Resolve
mod Tests
use mos_enhanced_shell.Base.{
  ℕ, zero, suc, ◌+◌, ◌-◌, Bool, true, false, ◌&&◌, not, Option, none, some, List, [], ◌∷◌, ◌++◌,
  ltb, leb, ◌==◌, if◌then◌else◌, length, take, drop, get_or, text_eq,
}
use mos_enhanced_shell.Strings.Scan.{index_of}

abbrev pub slash : ℕ
slash = b'/'

abbrev pub max_name_len : ℕ
max_name_len = 128

abbrev pub root : List ℕ
root = slash ∷ []

abbrev pub dot : List ℕ
dot = b'.' ∷ []

abbrev pub dot_dot : List ℕ
dot_dot = b'.' ∷ b'.' ∷ []

-- What the call returns: 0 with the text in `resolved_path`, or -1.
pub data Outcome : Type 0 where
  ok : List ℕ → Outcome
  error : Outcome
  out_of_fuel : Outcome

unfoldable pub skip_slashes : List ℕ → List ℕ
skip_slashes [] = []
skip_slashes (c ∷ p) = if c == slash then skip_slashes p else c ∷ p

-- `end == NULL ? strlen(p) : end - p`
unfoldable pub comp_len : List ℕ → ℕ
comp_len p = elim (index_of slash p) [ none ↦ length p | some i ↦ i ]

-- `while (i > 0 && r[i] != '/') i--`
pub last_slash : List ℕ → ℕ → ℕ
last_slash r zero = 0
last_slash r (suc i) = if get_or r (suc i) 0 == slash then suc i else last_slash r i

-- The branch for "..".
pub go_up : List ℕ → List ℕ
go_up r =
    let len = length r in
    if ltb 1 len
    then (let i = if get_or r (len - 1) 0 == slash then len - 2 else len - 1 in
        let j = last_slash r i in take (if ltb 0 j then j else 1) r)
    else r

-- The branch for any other component.
pub append_comp : ℕ → List ℕ → List ℕ → Option (List ℕ)
append_comp max_len comp r =
    let len = length r in
    let room = ltb (len + 1) max_len in
    let r' = if ltb 1 len then r ++ root else r in
    if ltb 1 len && not room
    then none
    else if leb max_len (length r' + length comp)
    then none
    else some (r' ++ comp)

pub step : ℕ → List ℕ → List ℕ → Option (List ℕ)
step max_len comp r =
    if text_eq comp dot
    then some r
    else if text_eq comp dot_dot
    then some (go_up r)
    else append_comp max_len comp r

pub resolve_loop : ℕ → ℕ → List ℕ → List ℕ → Outcome
resolve_loop zero max_len p r = out_of_fuel
resolve_loop (suc k) max_len p r = elim (skip_slashes p) [
  | [] ↦ ok r
  | c ∷ q ↦
      let n = comp_len (c ∷ q) in
      let comp = take n (c ∷ q) in
      let next : Outcome = elim (step max_len comp r) [
        | none ↦ error
        | some r' ↦ resolve_loop k max_len (drop n (c ∷ q)) r'
      ] in
      if leb max_name_len n then error else next
]

-- `if (resolved_path[0] == '\0') strcpy(resolved_path, "/")`
pub or_root : Outcome → Outcome
or_root (ok []) = ok root
or_root (ok (c ∷ r)) = ok (c ∷ r)
or_root error = error
or_root out_of_fuel = out_of_fuel

-- user/lib/path.c. The first argument is what `syscall_getcwd` gives, `none` for an error.
pub resolve_path : ℕ → Option (List ℕ) → List ℕ → ℕ → Outcome
resolve_path k none path max_len = error
resolve_path k (some cwd) [] max_len = ok root
resolve_path k (some cwd) (c ∷ p) max_len =
    if c == slash
    then (if ltb max_len 2 then error else or_root (resolve_loop k max_len p root))
    else if leb max_len (length cwd)
    then error
    else or_root (resolve_loop k max_len (c ∷ p) cwd)

-- The last test of the copy in user/sh.c.
pub or_root_checked : ℕ → Outcome → Outcome
or_root_checked max_len (ok []) = if ltb max_len 2 then error else ok root
or_root_checked max_len (ok (c ∷ r)) = ok (c ∷ r)
or_root_checked max_len error = error
or_root_checked max_len out_of_fuel = out_of_fuel

-- user/sh.c. `none` for a path is the null pointer.
pub sh_resolve_path : ℕ → List ℕ → Option (List ℕ) → ℕ → Outcome
sh_resolve_path k cwd none max_len = if ltb max_len 2 then error else ok root
sh_resolve_path k cwd (some []) max_len = if ltb max_len 2 then error else ok root
sh_resolve_path k cwd (some (c ∷ p)) max_len =
    if c == slash
    then (if ltb max_len 2 then error else or_root_checked max_len (resolve_loop k max_len p root))
    else if leb max_len (length cwd)
    then error
    else or_root_checked max_len (resolve_loop k max_len (c ∷ p) cwd)
