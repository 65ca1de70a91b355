-- ===== src/Wait.antt =====
-- user/lib/wait.c: a parent polls the slot of its child, which it sees as the kernel keeps it.
use mos_enhanced_shell.Base.{
  ℕ, ◌≡◌, true, ◌⊎◌, ◌&&◌, ◌||◌, inl, inr, List, [], ◌∷◌, arith, ◌==◌, if◌then◌else◌, Bool-cases,
}
use mos_enhanced_shell.Kernel.Env.{Env, is_runnable, is_not_runnable, is_zombie}

-- The exit status of a child that was a zombie and is reaped, -1 for one that is gone, or still
-- polling when the observations end.
pub data Waited : Type 0 where
  reaped : ℕ → Waited
  gone : Waited
  polling : Waited

-- What each poll sees in the slot of `envid`; between two polls the caller yields.
unfoldable pub wait : ℕ → List Env → Waited
wait envid [] = polling
wait envid (e ∷ more) =
    let rest = wait envid more in
    if e.id == envid && (is_runnable e.status || is_not_runnable e.status)
    then rest
    else if e.id == envid && is_zombie e.status
    then reaped e.exit_status
    else gone

-- The child was seen as a zombie with this exit status.
abbrev pub Seen : ℕ → ℕ → List Env → Type 0
Seen envid code [] = ⊥
Seen envid code (e ∷ more) =
    ((e.id ≡ envid) × (is_zombie e.status ≡ true) × (e.exit_status ≡ code)) ⊎ Seen envid code more

-- An exit status that `wait` returns is that of the child that it was asked for, seen as a zombie.
pub wait-Seen : (envid code : ℕ) (es : List Env) → wait envid es ≡ reaped code → Seen envid code es
unfolding wait
wait-Seen envid code [] h = cc
wait-Seen envid code (e ∷ more) h =
    elim (Bool-cases (e.id == envid && (is_runnable e.status || is_not_runnable e.status))) [
      | inl alive ↦ inr (wait-Seen envid code more (ground arith))
      | inr over ↦ inl (ground arith)
    ]
