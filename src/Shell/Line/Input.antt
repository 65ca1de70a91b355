-- ===== src/Shell/Line/Input.antt =====
-- Reading a line of a script.
use mos_enhanced_shell.Base.{
  ℕ, zero, suc, ◌+◌, ◌-◌, ◌<◌, ◌≡◌, ◌∙◌, false, ◌||◌, some, List, [], ◌∷◌, ◌++◌, arith, ◌==◌,
  length, append_assoc, append-nil, ap, sym,
}
use mos_enhanced_shell.Shell.Line.{getline, getline_loop}

-- No byte ends a line.
abbrev pub NoBreak : List ℕ → Type 0
NoBreak [] = Unit {0}
NoBreak (c ∷ s) = (c == 10 || c == 13 ≡ false) × NoBreak s

getline_loop-append :
    (n : ℕ) (s rest buf : List ℕ)
    → NoBreak s
    → length s < n
    → getline_loop n (s ++ (10 ∷ rest)) buf ≡ some (buf ++ s, rest)
unfolding getline_loop
getline_loop-append zero s rest buf h room = absurd (omega arith)
getline_loop-append (suc n) [] rest buf h room = ap (λ b. some (b, rest)) (sym (append-nil buf))
getline_loop-append (suc n) (c ∷ s) rest buf h room = rw h.0 (
    getline_loop-append n s rest (buf ++ (c ∷ [])) h.1 (omega arith)
    ∙ ap (λ b. some (b, rest)) (append_assoc buf (c ∷ []) s))

-- A line that fits the buffer with its zero byte is read up to its newline, which is passed over.
pub getline-append :
    (n : ℕ) (s rest : List ℕ)
    → NoBreak s
    → length s + 1 < n
    → getline (s ++ (10 ∷ rest)) n ≡ some (s, rest)
unfolding getline
getline-append n s rest h room = getline_loop-append (n - 1) s rest [] h (omega arith)
