-- ===== src/Kernel/Env/Invariant.antt =====
-- The invariant that kern/env.c states of `env_sched_list`: a process is in it, once, exactly if it
-- is runnable.
use mos_enhanced_shell.Base.{
  ℕ, ◌<◌, ◌≡◌, ◌≢◌, refl, ap, false, inl, inr, Bool, true, ◌||◌, not, Option, none, some, List, [],
  ◌∷◌, ◌++◌, arith, ◌==◌, if◌then◌else◌, Bool-cases, Option-cases, ◌∙◌,
}
use mos_enhanced_shell.Kernel.Queue.{
  remove, first, linked, linked-append, remove-Removed, insert_tail-linked,
}
use mos_enhanced_shell.Kernel.Env.{
  Env, Kernel, set_env, is_runnable, Run, returned, scheduled, panic, misuse, env_run, pick, rotate,
  schedule, decrement, increment,
}

abbrev pub queued : Env → ℕ
queued v = if is_runnable v.status then 1 else 0

abbrev pub IsQueued : Kernel → Type 0
IsQueued k = (i : ℕ) → linked i k.sched_list ≡ queued (k.envs i)

-- A run that ends well: no queue macro is misused, and the invariant holds of the state left. It
-- panics only if `P`.
abbrev pub IsSafe : Type 0 → Run → Type 0
IsSafe P (returned r k) = IsQueued k
IsSafe P (scheduled k) = IsQueued k
IsSafe P panic = P
IsSafe P misuse = ⊥

pub IsSafe-weaken : {P Q : Type 0} (r : Run) → (P → Q) → IsSafe P r → IsSafe Q r
IsSafe-weaken (returned x k) f h = h
IsSafe-weaken (scheduled k) f h = h
IsSafe-weaken panic f h = f h
IsSafe-weaken misuse f h = absurd h

-- No process but `e` is runnable.
abbrev pub IsAlone : Kernel → ℕ → Type 0
IsAlone k e = (i : ℕ) → i ≢ e → is_runnable (k.envs i).status ≡ false

pub empty-IsAlone :
    (k : Kernel) (e : ℕ) (v : Env) (q : List ℕ)
    → IsQueued (record (set_env k e v) { sched_list = q })
    → q ≡ []
    → IsAlone k e
unfolding set_env
empty-IsAlone k e v q h empty i other = ground (arith, h i, ap (linked i) empty)

pub first-linked : (q : List ℕ) (e : ℕ) → first q ≡ some e → 0 < linked e q
first-linked [] e h = cc
first-linked (x ∷ q) e h = ground arith

env_run-IsSafe :
    (P : Type 0) (k : Kernel) (e : ℕ)
    → IsQueued k
    → is_runnable (k.envs e).status ≡ true
    → IsSafe P (env_run k e)
unfolding env_run set_env
env_run-IsSafe P k e h live = rw live (λ i. ground (arith, h i, h e))

first-none : (q : List ℕ) → first q ≡ none → q ≡ []
first-none [] h = refl
first-none (x ∷ q) h = cc

pub pick-none : (k : Kernel) → first k.sched_list ≡ none → pick k ≡ panic
unfolding pick
pick-none k h = rw (h, pick)

pub pick-some :
    (k : Kernel) (e : ℕ)
    → first k.sched_list ≡ some e
    → pick k ≡ env_run (record k { count = decrement (k.envs e).pri }) e
unfolding pick
pick-some k e h = rw (h, pick)

pub pick-IsSafe : (k : Kernel) → IsQueued k → IsSafe (k.sched_list ≡ []) (pick k)
pick-IsSafe k h = elim (Option-cases (first k.sched_list)) [
  | inl empty ↦ rw (pick-none k empty) (first-none k.sched_list empty)
  | inr (e, head) ↦
      let live : is_runnable (k.envs e).status ≡ true =
        ground (arith, h e, first-linked k.sched_list e head) in
      rw (pick-some k e head)
        (env_run-IsSafe _ (record k { count = decrement (k.envs e).pri }) e h live)
]

append-some : (q : List ℕ) (e : ℕ) → q ++ (e ∷ []) ≢ []
append-some [] e h = cc
append-some (x ∷ q) e h = cc

-- Moving a runnable process to the end of the queue: where it stood is closed up.
pub record Rotated (k : Kernel) (e : ℕ) : Type 0 where
  pub shorter : List ℕ
  pub removed : remove e k.sched_list ≡ some shorter
  pub result : rotate k e ≡ some (shorter ++ (e ∷ []))
  pub same : (i : ℕ) → linked i (shorter ++ (e ∷ [])) ≡ linked i k.sched_list

pub rotate-Rotated :
    (k : Kernel) (e : ℕ) → IsQueued k → is_runnable (k.envs e).status ≡ true → Rotated k e
rotate-Rotated k e h live =
    let there : 0 < linked e k.sched_list = ground (arith, h e) in
    let (r, got, count) = remove-Removed e k.sched_list there in
    let out : linked e r ≡ 0 = ground (arith, count e, h e) in
    record {
      shorter = r;
      removed = got;
      result = unfold rotate in ground (arith, insert_tail-linked e r out);
      same = λ i. ground (arith, count i, linked-append i r (e ∷ []));
    }

-- `schedule` keeps the invariant, panics only if the queue is empty, and misuses no macro.
pub schedule-IsSafe :
    (k : Kernel) (yield : Bool) (e : Option ℕ)
    → IsQueued k
    → IsSafe (k.sched_list ≡ []) (schedule k yield e)
unfolding schedule
schedule-IsSafe k yield none h = pick-IsSafe k h
schedule-IsSafe k yield (some e) h =
    elim (Bool-cases (yield || (k.count == 0 || not (is_runnable (k.envs e).status)))) [
      | inr stay ↦
          let same : schedule k yield (some e)
              ≡ env_run (record k { count = decrement k.count }) e =
            ground arith in
          rw same (env_run-IsSafe _ (record k { count = decrement k.count }) e h (ground arith))
      | inl change ↦ elim (Bool-cases (is_runnable (k.envs e).status)) [
        | inr dead ↦
            let same : schedule k yield (some e) ≡ pick k = ground arith in
            rw same (pick-IsSafe k h)
        | inl live ↦
            let r = rotate-Rotated k e h live in
            let q : List ℕ = r.shorter ++ (e ∷ []) in
            let same : schedule k yield (some e) ≡ pick (record k { sched_list = q }) =
              ground (arith, r.result) in
            rw same (
              IsSafe-weaken (pick (record k { sched_list = q }))
                (λ empty. absurd (append-some r.shorter e empty))
                (pick-IsSafe (record k { sched_list = q }) (λ i. r.same i ∙ h i)))
      ]
    ]

-- A choice of process was made, and the processes are `envs` but for the counts of their runs.
abbrev pub Ran : (ℕ → Env) → Run → Type 0
Ran envs (returned r k) = ⊥
Ran envs (scheduled k) = (i : ℕ) → k.envs i ≡ record (envs i) { runs = (k.envs i).runs }
Ran envs panic = Unit {0}
Ran envs misuse = Unit {0}

env_run-Ran : (k : Kernel) (e : ℕ) → Ran k.envs (env_run k e)
unfolding env_run set_env
env_run-Ran k e = elim (Bool-cases (is_runnable (k.envs e).status)) [
  | inr dead ↦ rw dead tt
  | inl live ↦ rw live (λ i. elim (Bool-cases (i == e)) [
    | inl here ↦ let at : e ≡ i = ground arith in rw here (ran_again k e i at)
    | inr other ↦ rw other refl
  ])
]
  where
    ran_again :
        (k : Kernel) (e i : ℕ)
        → e ≡ i
        → ◌≡◌ {A = Env}
            (record (k.envs e) { runs = increment (k.envs e).runs })
            (record (k.envs i) { runs = increment (k.envs e).runs })
    ran_again k e i at = rw at refl

pick-Ran : (k : Kernel) → Ran k.envs (pick k)
pick-Ran k = elim (Option-cases (first k.sched_list)) [
  | inl empty ↦ rw (pick-none k empty) tt
  | inr (e, head) ↦
      rw (pick-some k e head) (env_run-Ran (record k { count = decrement (k.envs e).pri }) e)
]

rotated-Ran :
    (k : Kernel) (q : Option (List ℕ))
    → Ran k.envs (elim q [ none ↦ misuse | some r ↦ pick (record k { sched_list = r }) ])
rotated-Ran k none = tt
rotated-Ran k (some r) = pick-Ran (record k { sched_list = r })

pub schedule-Ran : (k : Kernel) (yield : Bool) (e : Option ℕ) → Ran k.envs (schedule k yield e)
unfolding schedule
schedule-Ran k yield none = pick-Ran k
schedule-Ran k yield (some e) =
    elim (Bool-cases (yield || (k.count == 0 || not (is_runnable (k.envs e).status)))) [
      | inr stay ↦ rw stay (env_run-Ran (record k { count = decrement k.count }) e)
      | inl change ↦ elim (Bool-cases (is_runnable (k.envs e).status)) [
        | inr dead ↦ rw (change, dead) (pick-Ran k)
        | inl live ↦ rw (change, live) (rotated-Ran k (rotate k e))
      ]
    ]
