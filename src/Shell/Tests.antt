-- ===== src/Shell/Tests.antt =====
-- Lines run, expanded and read as tokens, and the theorems at them.
use mos_enhanced_shell.Base.{
  ℕ, ◌+◌, ◌*◌, ◌<◌, ◌≡◌, ◌≢◌, refl, true, false, some, List, [], ◌∷◌, ◌++◌, arith, ◌==◌,
  if◌then◌else◌, length,
}
use mos_enhanced_shell.Strings.Scan.{index_of}
use mos_enhanced_shell.Kernel.Vars.{Table, Var, fetch, find_var, matches}
use mos_enhanced_shell.Shell.Chars.{
  my_strstr, starts_with, skip_space, peek_first_word, word_prefix,
}
use mos_enhanced_shell.Shell.Chain.{
  Commands, finished, out_of_fuel, run_line, run_command, run_child, run_or_skip, separator,
  earlier, is_semi, sep_len, should_run_next, negative,
}
use mos_enhanced_shell.Shell.Chain.Cut.{semi, and_then, or_else, cut, sep_at, goes_on}
use mos_enhanced_shell.Shell.Chain.Meaning.{commands, meaning, run_line-meaning, run_line-ends}
use mos_enhanced_shell.Shell.Backticks.{
  done, handle_backticks, substitute, Fits, handle_backticks-Fits,
}
use mos_enhanced_shell.Shell.Line.{expand, get_var_value}
use mos_enhanced_shell.Shell.Line.Expand.{AllShort, repeated, expand-repeated}
use mos_enhanced_shell.Shell.Token.{Token, word, append_to, symbol, tokens}
use mos_enhanced_shell.Shell.Token.Spelling.{spelling, tokens-spelling}

-- The world is the list of the commands that ran. A command "f" fails.
abbrev logged : Commands (List (List ℕ))
logged = record {
  handle_backticks = λ w cmd. (0, cmd, w);
  run_history_cmd = λ w. w;
  runcmd = λ w cmd. (0, w);
  wait = λ w pid. (0, w);
  fork = λ w cmd. some (exit_status cmd, cmd ∷ w);
}
  where
    exit_status : List ℕ → ℕ
    exit_status [] = 0
    exit_status (c ∷ s) = if c == b'f' then 1 else 0

-- "f&&a||b;c"
abbrev line : List ℕ
line = b'f' ∷ b'&' ∷ b'&' ∷ b'a' ∷ b'|' ∷ b'|' ∷ b'b' ∷ b';' ∷ b'c' ∷ []

commands-line :
    commands 10 semi line
    ≡ (semi, b'f' ∷ []) ∷ (and_then, b'a' ∷ []) ∷ (or_else, b'b' ∷ []) ∷ (semi, b'c' ∷ []) ∷ []
unfolding commands cut sep_at skip_space starts_with
commands-line = refl

run_line-line :
    run_line logged 10 true [] 0 line ≡ finished 0 ((b'c' ∷ []) ∷ (b'b' ∷ []) ∷ (b'f' ∷ []) ∷ [])
unfolding run_line run_or_skip run_command run_child separator earlier is_semi sep_len
    should_run_next index_of my_strstr starts_with skip_space peek_first_word word_prefix negative
run_line-line = refl

cut-line : cut line ≡ some (1, and_then)
unfolding cut sep_at starts_with
cut-line = refl

run_line-meaning_example :
    run_line logged 10 (goes_on semi 0) [] 0 line
    ≡ meaning logged (finished 0 []) (commands 10 semi line)
run_line-meaning_example = run_line-meaning logged 10 [] 0 semi line (omega arith)

run_line-ends_example : run_line logged 10 true [] 0 line ≢ out_of_fuel
run_line-ends_example = run_line-ends logged 10 [] line (omega arith)

abbrev capture : ℕ → List ℕ → ℕ × List ℕ × ℕ
capture w cmd = (0, cmd ++ cmd, w + 1)

-- "a`b`"
abbrev quoted : List ℕ
quoted = b'a' ∷ b'`' ∷ b'b' ∷ b'`' ∷ []

handle_backticks-quoted : handle_backticks capture 8 9 0 quoted ≡ done (b'a' ∷ b'b' ∷ b'b' ∷ []) 0 1
unfolding handle_backticks substitute index_of negative
handle_backticks-quoted = refl

handle_backticks-Fits_example : Fits capture 8 (handle_backticks capture 8 9 0 quoted)
handle_backticks-Fits_example =
    handle_backticks-Fits capture 8 9 0 quoted (omega arith) (omega arith) (omega arith)

abbrev x_name : List ℕ
x_name = b'x' ∷ []

-- Sixteen bytes.
abbrev long_value : List ℕ
long_value = 65 ∷ 65 ∷ 65 ∷ 65 ∷ 65 ∷ 65 ∷ 65 ∷ 65 ∷ 65 ∷ 65 ∷ 65 ∷ 65 ∷ 65 ∷ 65 ∷ 65 ∷ 65 ∷ []

abbrev x_var : Var
x_var = record {
  name = x_name;
  value = long_value;
  flags = record { used = true; exported = false; readonly = false; rest = 0 };
}

abbrev table : Table
table = x_var ∷ []

table-AllShort : AllShort table
unfolding get_var_value fetch find_var
table-AllShort n = ground arith

value-x : get_var_value table x_name ≡ long_value
unfolding get_var_value fetch find_var matches
value-x = refl

length-repeated : length (repeated 128 x_name) < 1024
unfolding repeated
length-repeated = omega arith

-- A line of 256 bytes that leaves no room for the zero byte in the 2048 bytes of `expanded_buf`.
expand-repeated_example :
    (e : List ℕ) × (expand 1024 table (repeated 128 x_name) ≡ some e)
    × (length e ≡ 128 * length (get_var_value table x_name))
expand-repeated_example =
    expand-repeated 1024 128 table x_name (refl, tt) (omega arith) length-repeated

abbrev some_tokens : List Token
some_tokens = word x_name ∷ append_to ∷ word x_name ∷ symbol b'|' ∷ []

tokens-spelling_example : tokens 9 (spelling some_tokens) ≡ some some_tokens
tokens-spelling_example =
    tokens-spelling 9 some_tokens ((refl, tt), (tt, ((refl, tt), (refl, tt)))) (omega arith)
