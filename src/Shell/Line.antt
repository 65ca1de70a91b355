-- ===== src/Shell/Line.antt =====
-- How user/sh.c reads a line of a script, and what `main` does to a line before it is run: a comment is cut off, white space at
-- the end is dropped, and variables are expanded.
pub mod Expand
pub mod Input
use mos_enhanced_shell.Base.{
  ℕ, zero, suc, ◌+◌, ◌-◌, Bool, true, false, ◌&&◌, ◌||◌, not, Option, none, some, List, [], ◌∷◌,
  ◌++◌, ltb, leb, ◌==◌, if◌then◌else◌, length, get_or, take, drop,
}
use mos_enhanced_shell.Strings.Scan.{index_of}
use mos_enhanced_shell.Kernel.Result.{ok, err}
use mos_enhanced_shell.Kernel.Vars.{Table, fetch, max_var_name_len}
use mos_enhanced_shell.Shell.Chars.{is_space, isalnum}

-- The loop of `getline`, with the rounds that are left: the line so far and what is left of the
-- input, `none` for -1.
unfoldable pub getline_loop : ℕ → List ℕ → List ℕ → Option (List ℕ × List ℕ)
getline_loop zero input buf = some (buf, input)
getline_loop (suc n) [] buf = if length buf == 0 then none else some (buf, [])
getline_loop (suc n) (c ∷ input) buf =
    let rest = getline_loop n input (buf ++ (c ∷ [])) in
    if c == 10 || c == 13 then some (buf, input) else rest

unfoldable pub getline : List ℕ → ℕ → Option (List ℕ × List ℕ)
getline input n = getline_loop (n - 1) input []

-- `strchr(buf, '#')`
unfoldable pub strip_comment : List ℕ → List ℕ
strip_comment buf = elim (index_of b'#' buf) [ none ↦ buf | some i ↦ take i buf ]

-- `while (len > 0 && strchr(WHITESPACE, buf[len-1])) len--`
unfoldable pub trimmed_len : List ℕ → ℕ → ℕ
trimmed_len buf zero = 0
trimmed_len buf (suc len) =
    let shorter = trimmed_len buf len in if is_space (get_or buf len 0) then shorter else suc len

unfoldable pub trim : List ℕ → List ℕ
trim buf = take (trimmed_len buf (length buf)) buf

-- The value of a variable, empty if it is not set. The name is not longer than a name in the table.
unfoldable pub get_var_value : Table → List ℕ → List ℕ
get_var_value t name = elim (fetch t name) [ ok v ↦ v.value | err _ ↦ [] ]

abbrev pub is_name : ℕ → Bool
is_name c = isalnum c || c == b'_'

-- The loop that reads a name: how many bytes it passes over.
unfoldable pub name_len : List ℕ → ℕ
name_len [] = 0
name_len (c ∷ p) = let rest = name_len p in if is_name c then suc rest else 0

-- `none` without fuel. The room in `expanded_buf` is not tested by the code.
unfoldable pub expand : ℕ → Table → List ℕ → Option (List ℕ)
expand zero t p = none
expand (suc k) t [] = some []
expand (suc k) t (c ∷ p) =
    let n = name_len p in
    let var_name = take max_var_name_len (take n p) in
    let copied : Option (List ℕ) = elim (expand k t p) [ none ↦ none | some e ↦ some (c ∷ e) ] in
    let expanded : Option (List ℕ) = elim (expand k t (drop n p)) [
      | none ↦ none
      | some e ↦ some (get_var_value t var_name ++ e)
    ] in
    if c == b'$' then expanded else copied
