-- ===== src/Shell/Chain/Meaning.antt =====
-- What a line of commands means: each command in turn, joined to the status before it, from left to
-- right. The loop of the shell, which keeps `should_run` and looks at the rest of the line, does that.
use mos_enhanced_shell.Base.{
  ℕ, zero, suc, ◌+◌, ◌≤◌, ◌<◌, ◌≡◌, ◌≢◌, refl, ◌∙◌, inl, inr, Bool, true, none, some, List, [], ◌∷◌,
  arith, if◌then◌else◌, take, drop, length, length-drop, sym, ◌⊎◌, Option-cases,
}
use mos_enhanced_shell.Shell.Chars.{skip_space}
use mos_enhanced_shell.Shell.Chain.{
  separator, sep_len, should_run_next, Commands, Ended, finished, exited, panicked, out_of_fuel,
  run_command, run_or_skip, run_line, run_builtin, run_child,
}
use mos_enhanced_shell.Shell.Chain.Cut.{
  Sep, semi, and_then, or_else, width, cut, goes_on, Found, cut-Found, separator-none,
}

-- The commands of a line, each with the separator before it; `first` stands before the whole line.
unfoldable pub commands : ℕ → Sep → List ℕ → List (Sep × List ℕ)
commands zero first line = []
commands (suc k) first line = elim (skip_space line) [
  | [] ↦ []
  | a ∷ p ↦ elim (cut (a ∷ p)) [
    | none ↦ (first, a ∷ p) ∷ []
    | some (i, s) ↦ (first, take i (a ∷ p)) ∷ commands k s (drop (i + width s) (a ∷ p))
  ]
]

List-cases : (l : List ℕ) → (l ≡ []) ⊎ ((a : ℕ) × (p : List ℕ) × (l ≡ a ∷ p))
List-cases [] = inl refl
List-cases (a ∷ p) = inr (a, p, refl)

module _ {W : Type 0} (c : Commands W) where
  -- `before ; cmd`, `before && cmd` or `before || cmd`, from the end of `before`.
  unfoldable pub join : Ended W → Sep → List ℕ → Ended W
  join (finished status w) s cmd =
      if goes_on s status then run_command c w cmd else finished status w
  join (exited w) s cmd = exited w
  join (panicked w) s cmd = panicked w
  join out_of_fuel s cmd = out_of_fuel

  unfoldable pub meaning : Ended W → List (Sep × List ℕ) → Ended W
  meaning before [] = before
  meaning before ((s, cmd) ∷ more) = meaning (join before s cmd) more

  stopped-exited : (w : W) (cs : List (Sep × List ℕ)) → meaning (exited w) cs ≡ exited w
  unfolding meaning join
  stopped-exited w [] = refl
  stopped-exited w ((s, cmd) ∷ cs) = stopped-exited w cs

  stopped-panicked : (w : W) (cs : List (Sep × List ℕ)) → meaning (panicked w) cs ≡ panicked w
  unfolding meaning join
  stopped-panicked w [] = refl
  stopped-panicked w ((s, cmd) ∷ cs) = stopped-panicked w cs

  stopped-out_of_fuel : (cs : List (Sep × List ℕ)) → meaning out_of_fuel cs ≡ out_of_fuel
  unfolding meaning join
  stopped-out_of_fuel [] = refl
  stopped-out_of_fuel ((s, cmd) ∷ cs) = stopped-out_of_fuel cs

  length-skip_space : (line : List ℕ) → length (skip_space line) ≤ length line
  unfolding skip_space
  length-skip_space [] = omega arith
  length-skip_space (x ∷ line) = ground (arith, length-skip_space line)

  -- The loop behind a command that ended as `r`.
  rest_of_line : ℕ → List ℕ → ℕ → Ended W → Ended W
  rest_of_line k line i (finished s w) =
      run_line c k (should_run_next i line s) w s (drop (i + sep_len i line) line)
  rest_of_line k line i (exited w) = exited w
  rest_of_line k line i (panicked w) = panicked w
  rest_of_line k line i out_of_fuel = out_of_fuel

  run_line-nil :
      (k : ℕ) (on : Bool) (w : W) (status : ℕ) (line : List ℕ)
      → skip_space line ≡ []
      → run_line c (suc k) on w status line ≡ finished status w
  unfolding run_line
  run_line-nil k on w status line e = rw (e, run_line) refl

  run_line-none :
      (k : ℕ) (on : Bool) (w : W) (status a : ℕ) (line p : List ℕ)
      → skip_space line ≡ a ∷ p
      → separator (a ∷ p) ≡ none
      → run_line c (suc k) on w status line ≡ run_or_skip c on w status (a ∷ p)
  unfolding run_line
  run_line-none k on w status a line p e n = rw (e, n, run_line) refl

  rest_of_line-elim :
      (k : ℕ) (line : List ℕ) (i : ℕ) (r : Ended W)
      → (elim r as (λ _. Ended W) [
        | finished s w' ↦
            run_line c k (should_run_next i line s) w' s (drop (i + sep_len i line) line)
        | exited w' ↦ exited w'
        | panicked w' ↦ panicked w'
        | out_of_fuel ↦ out_of_fuel
      ])
        ≡ rest_of_line k line i r
  unfolding rest_of_line
  rest_of_line-elim k line i (finished s w) = refl
  rest_of_line-elim k line i (exited w) = refl
  rest_of_line-elim k line i (panicked w) = refl
  rest_of_line-elim k line i out_of_fuel = refl

  run_line-some :
      (k : ℕ) (on : Bool) (w : W) (status a i : ℕ) (line p : List ℕ)
      → skip_space line ≡ a ∷ p
      → separator (a ∷ p) ≡ some i
      → run_line c (suc k) on w status line
        ≡ rest_of_line k (a ∷ p) i (run_or_skip c on w status (take i (a ∷ p)))
  unfolding run_line
  run_line-some k on w status a i line p e n =
      rw (e, n, run_line)
        (rest_of_line-elim k (a ∷ p) i (run_or_skip c on w status (take i (a ∷ p))))

  drop_shorter : (n a : ℕ) (line : List ℕ) → 0 < n → length (drop n (a ∷ line)) ≤ length line
  drop_shorter zero a line h = absurd (omega arith)
  drop_shorter (suc n) a line h = omega (arith, length-drop n line)

  rest_of_line-meaning :
      (k a : ℕ) (line : List ℕ) (i : ℕ) (t : Sep) (r : Ended W)
      → Found (a ∷ line) i t
      → length line < k
      → ((w : W) (status : ℕ) (s : Sep) (l : List ℕ)
          → length l < k
          → run_line c k (goes_on s status) w status l
            ≡ meaning (finished status w) (commands k s l))
      → rest_of_line k (a ∷ line) i r ≡ meaning r (commands k t (drop (i + width t) (a ∷ line)))
  unfolding rest_of_line
  rest_of_line-meaning k a line i t (finished s w) f fuel ih =
      let shorter = drop_shorter (i + width t) a line (positive t) in
      rw (f.next s, f.len) (ih w s t (drop (i + width t) (a ∷ line)) (omega arith))
    where
      positive : (u : Sep) → 0 < i + width u
      positive semi = omega arith
      positive and_then = omega arith
      positive or_else = omega arith
  rest_of_line-meaning k a line i t (exited w) f fuel ih = sym (stopped-exited w _)
  rest_of_line-meaning k a line i t (panicked w) f fuel ih = sym (stopped-panicked w _)
  rest_of_line-meaning k a line i t out_of_fuel f fuel ih = sym (stopped-out_of_fuel _)

  -- With fuel for every byte of the line, for every commands and world, the shell's loop over a
  -- line ends as the line means: its commands run from left to right, each behind "&&" only after
  -- status 0, behind "||" only after another status, and behind ";" always, until one exits or
  -- panics.
  pub run_line-meaning :
      (k : ℕ) (w : W) (status : ℕ) (s : Sep) (line : List ℕ)
      → length line < k
      → run_line c k (goes_on s status) w status line
        ≡ meaning (finished status w) (commands k s line)
  unfolding commands meaning join run_or_skip
  run_line-meaning zero w status s line fuel = absurd (omega arith)
  run_line-meaning (suc k) w status s line fuel = elim (List-cases (skip_space line)) [
    | inl e ↦ rw (e, commands) (run_line-nil k (goes_on s status) w status line e)
    | inr (a, p, e) ↦ elim (Option-cases (cut (a ∷ p))) [
      | inl n ↦
          rw (e, n, commands)
            (run_line-none k (goes_on s status) w status a line p e (separator-none (a ∷ p) n))
      | inr ((i, t), n) ↦
          let f = cut-Found (a ∷ p) i t n in
          let short : length p < k = ground (arith, length-skip_space line) in
          rw (e, n, commands)
            (run_line-some k (goes_on s status) w status a i line p e f.at
              ∙ rest_of_line-meaning k a p i t _ f short (run_line-meaning k))
    ]
  ]

  run_child-ends : (w : W) (cmd : List ℕ) → run_child c w cmd ≢ out_of_fuel
  unfolding run_child
  run_child-ends w cmd h = ground arith

  run_builtin-ends : (w : W) (cmd : List ℕ) → run_builtin c w cmd ≢ out_of_fuel
  unfolding run_builtin
  run_builtin-ends w cmd h = ground arith

  run_command-ends : (w : W) (cmd : List ℕ) → run_command c w cmd ≢ out_of_fuel
  unfolding run_command
  run_command-ends w cmd h =
      let (status, text, w') = c.handle_backticks w cmd in
      ground (arith, run_child-ends w' text, run_builtin-ends w' text)

  join-ends : (r : Ended W) (s : Sep) (cmd : List ℕ) → r ≢ out_of_fuel → join r s cmd ≢ out_of_fuel
  unfolding join
  join-ends (finished status w) s cmd h e = ground (arith, run_command-ends w cmd)
  join-ends (exited w) s cmd h e = cc
  join-ends (panicked w) s cmd h e = cc
  join-ends out_of_fuel s cmd h e = h refl

  meaning-ends :
      (r : Ended W) (cs : List (Sep × List ℕ)) → r ≢ out_of_fuel → meaning r cs ≢ out_of_fuel
  unfolding meaning
  meaning-ends r [] h = h
  meaning-ends r ((s, cmd) ∷ cs) h = meaning-ends (join r s cmd) cs (join-ends r s cmd h)

  -- With fuel for every byte of a line, the shell's loop over it does not run out of fuel.
  pub run_line-ends :
      (k : ℕ) (w : W) (line : List ℕ) → length line < k → run_line c k true w 0 line ≢ out_of_fuel
  run_line-ends k w line fuel e =
      meaning-ends (finished 0 w) (commands k semi line) (λ h. cc)
        (sym (run_line-meaning k w 0 semi line fuel) ∙ e)
