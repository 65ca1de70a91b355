-- ===== src/Kernel/Env/Calls.antt =====
-- The system calls that change what runs keep the invariant of the run queue.
use mos_enhanced_shell.Base.{
  ℕ, ◌%◌, ◌≡◌, ◌≢◌, if◌then◌else◌, subst, refl, ◌⊎◌, inl, inr, Bool, true, false, ◌&&◌, ◌||◌, not,
  some, List, [], ◌∷◌, ◌++◌, arith, ◌==◌, Bool-cases, Option-cases,
}
use mos_enhanced_shell.Kernel.Result.{Error, inval, Result, ok, err}
use mos_enhanced_shell.Kernel.User.{is_illegal_va}
use mos_enhanced_shell.Kernel.Queue.{
  linked, linked-append, Removed, remove-Removed, insert_tail-linked,
}
use mos_enhanced_shell.Kernel.Env.{
  Status, free, runnable, not_runnable, zombie, Env, Kernel, nenv, set_env, is_runnable,
  is_not_runnable, is_zombie, is_free, Run, returned, scheduled, panic, misuse, envid2env, schedule,
  exit_self, status_of, requeue, change_status, sys_set_env_status, sys_ipc_recv,
}
use mos_enhanced_shell.Kernel.Env.Invariant.{
  IsQueued, IsSafe, IsSafe-weaken, IsAlone, empty-IsAlone, schedule-IsSafe, Ran, schedule-Ran,
}

-- What a successful `envid2env` hands out is the caller for 0, and otherwise the process in the
-- slot of that id, which is not free and has that very id; with `checkperm` it is the caller or a
-- child of the caller.
pub envid2env-allowed :
    (k : Kernel) (envid : ℕ) (checkperm : Bool) (e : ℕ)
    → envid2env k envid checkperm ≡ ok e
    → ((envid ≡ 0) × (e ≡ k.curenv))
      ⊎ (((k.envs e).id ≡ envid)
          × (e ≡ envid % nenv)
          × (is_free (k.envs e).status ≡ false)
          × ((checkperm ≡ false) ⊎ (e ≡ k.curenv) ⊎ ((k.envs e).parent_id ≡ (k.envs k.curenv).id)))
unfolding envid2env
envid2env-allowed k envid checkperm e h = elim (Bool-cases (envid == 0)) [
  | inl self ↦ inl (ground arith, ground arith)
  | inr other ↦ inr (ground arith)
]

-- The queue without the caller goes with a status that is not runnable.
leave-IsQueued :
    (k : Kernel) (e : ℕ) (v : Env) (q : List ℕ)
    → IsQueued k
    → is_runnable (k.envs e).status ≡ true
    → is_runnable v.status ≡ false
    → Removed e k.sched_list q
    → IsQueued (record (set_env k e v) { sched_list = q })
unfolding set_env
leave-IsQueued k e v q h live dead gone i = ground (arith, h i, gone i)

pub join-IsQueued :
    (k : Kernel) (e : ℕ) (v : Env)
    → IsQueued k
    → is_runnable (k.envs e).status ≡ false
    → is_runnable v.status ≡ true
    → IsQueued (record (set_env k e v) { sched_list = k.sched_list ++ (e ∷ []) })
unfolding set_env
join-IsQueued k e v h dead live i = ground (arith, h i, linked-append i k.sched_list (e ∷ []))

stay-IsQueued :
    (k : Kernel) (e : ℕ) (v : Env)
    → IsQueued k
    → is_runnable v.status ≡ is_runnable (k.envs e).status
    → IsQueued (set_env k e v)
unfolding set_env
stay-IsQueued k e v h same i = ground (arith, h i)

Status-runnable : (s : Status) → is_runnable s ≡ true → s ≡ runnable
Status-runnable runnable h = refl
Status-runnable free h = cc
Status-runnable not_runnable h = cc
Status-runnable zombie h = cc

-- The calling process is running.
abbrev pub IsRunning : Kernel → Type 0
IsRunning k = is_runnable (k.envs k.curenv).status ≡ true

-- `schedule` with a process that has changed and a new queue.
scheduled-IsSafe :
    (k : Kernel) (e : ℕ) (v : Env) (q : List ℕ)
    → IsQueued (record (set_env k e v) { sched_list = q })
    → IsSafe (IsAlone k e) (schedule (record (set_env k e v) { sched_list = q }) true (some e))
scheduled-IsSafe k e v q h =
    IsSafe-weaken _ (empty-IsAlone k e v q h)
      (schedule-IsSafe (record (set_env k e v) { sched_list = q }) true (some e) h)

-- The processes when the caller has exited.
abbrev pub exited : Kernel → ℕ → ℕ → Env
exited k code i =
    if i == k.curenv
    then record (k.envs k.curenv) { exit_status = code; status = zombie }
    else k.envs i

-- A process that exits is a zombie with its exit status.
pub exit_self-Ran :
    (k : Kernel) (code : ℕ) → IsQueued k → IsRunning k → Ran (exited k code) (exit_self k code)
unfolding set_env
exit_self-Ran k code h live =
    let e = k.curenv in
    let v : Env = record (k.envs e) { exit_status = code; status = zombie } in
    let (q, got, gone) = remove-Removed e k.sched_list (ground (arith, h e)) in
    let after : Kernel = record (set_env k e v) { sched_list = q } in
    let same : exit_self k code ≡ schedule after true (some e) = unfold exit_self in ground arith in
    rw same (schedule-Ran after true (some e))

-- A process that exits leaves the queue.
pub exit_self-IsSafe :
    (k : Kernel) (code : ℕ)
    → IsQueued k
    → IsRunning k
    → IsSafe (IsAlone k k.curenv) (exit_self k code)
exit_self-IsSafe k code h live =
    let e = k.curenv in
    let v : Env = record (k.envs e) { exit_status = code; status = zombie } in
    let (q, got, gone) = remove-Removed e k.sched_list (ground (arith, h e)) in
    let after : Kernel = record (set_env k e v) { sched_list = q } in
    let same : exit_self k code ≡ schedule after true (some e) = unfold exit_self in ground arith in
    rw same (scheduled-IsSafe k e v q (leave-IsQueued k e v q h live refl gone))

-- The processes when the caller waits for a message.
abbrev pub waiting : Kernel → ℕ → ℕ → Env
waiting k dstva i =
    if i == k.curenv
    then record (k.envs k.curenv) { ipc_recving = true; ipc_dstva = dstva; status = not_runnable }
    else k.envs i

-- How `sys_ipc_recv` ends: it refuses a bad address, or the caller waits and a process is chosen.
abbrev pub Waits : Kernel → ℕ → Run → Type 0
Waits k dstva (returned r k') =
    (dstva ≢ 0) × (is_illegal_va dstva ≡ true) × (r ≡ err inval) × (k' ≡ k)
Waits k dstva (scheduled k') =
    ((dstva ≡ 0) ⊎ (is_illegal_va dstva ≡ false)) × Ran (waiting k dstva) (scheduled k')
Waits k dstva panic = (dstva ≡ 0) ⊎ (is_illegal_va dstva ≡ false)
Waits k dstva misuse = ⊥

Ran-Waits :
    (P : Type 0) (k : Kernel) (dstva : ℕ) (r : Run)
    → (dstva ≡ 0) ⊎ (is_illegal_va dstva ≡ false)
    → IsSafe P r
    → Ran (waiting k dstva) r
    → Waits k dstva r
Ran-Waits P k dstva (returned x k') legal safe ran = absurd ran
Ran-Waits P k dstva (scheduled k') legal safe ran = (legal, ran)
Ran-Waits P k dstva panic legal safe ran = legal
Ran-Waits P k dstva misuse legal safe ran = absurd safe

-- When the queue holds exactly the runnable processes and the caller is one, the same holds after
-- every branch of `sys_ipc_recv`, no queue macro is misused, and it panics only if no process but
-- the caller is runnable; it refuses a bad address and changes nothing, or the caller waits for a
-- message and the other processes are as before but for the counts of their runs.
pub sys_ipc_recv-IsSafe :
    (k : Kernel) (dstva : ℕ)
    → IsQueued k
    → IsRunning k
    → IsSafe (IsAlone k k.curenv) (sys_ipc_recv k dstva) × Waits k dstva (sys_ipc_recv k dstva)
unfolding set_env
sys_ipc_recv-IsSafe k dstva h live = elim (Bool-cases (not (dstva == 0) && is_illegal_va dstva)) [
  | inl bad ↦
      let same : sys_ipc_recv k dstva ≡ returned (err inval) k =
        unfold sys_ipc_recv in ground arith in
      rw same (h, (ground arith, ground arith, refl, refl))
  | inr fine ↦
      let e = k.curenv in
      let v : Env = record (k.envs e) {
        ipc_recving = true;
        ipc_dstva = dstva;
        status = not_runnable;
      } in
      let (q, got, gone) = remove-Removed e k.sched_list (ground (arith, h e)) in
      let after : Kernel = record (set_env k e v) { sched_list = q } in
      let same : sys_ipc_recv k dstva ≡ schedule after true (some e) =
        unfold sys_ipc_recv in ground arith in
      let legal : (dstva ≡ 0) ⊎ (is_illegal_va dstva ≡ false) = ground arith in
      let safe = scheduled-IsSafe k e v q (leave-IsQueued k e v q h live refl gone) in
      rw same (safe, Ran-Waits _ k dstva _ legal safe (schedule-Ran after true (some e)))
]

-- A queue that goes with the new status of a process that is neither free nor a zombie.
requeue-IsQueued :
    (k : Kernel) (e : ℕ) (s : Status)
    → IsQueued k
    → is_runnable s || is_not_runnable s ≡ true
    → is_zombie (k.envs e).status ≡ false
    → is_free (k.envs e).status ≡ false
    → (q : List ℕ) × (requeue k e s ≡ some q)
      × IsQueued (record (set_env k e (record (k.envs e) { status = s })) { sched_list = q })
unfolding set_env
requeue-IsQueued k e free h valid alive live = absurd (ground arith)
requeue-IsQueued k e zombie h valid alive live = absurd (ground arith)
requeue-IsQueued k e runnable h valid alive live =
    elim (Bool-cases (is_runnable (k.envs e).status)) [
      | inl on ↦ (
        k.sched_list,
        unfold requeue in ground arith,
        stay-IsQueued k e (record (k.envs e) { status = runnable }) h (ground arith),
      )
      | inr off ↦
          let out : linked e k.sched_list ≡ 0 = ground (arith, h e) in
          (
            k.sched_list ++ (e ∷ []),
            unfold requeue in ground (arith, insert_tail-linked e k.sched_list out),
            join-IsQueued k e (record (k.envs e) { status = runnable }) h off refl,
          )
    ]
requeue-IsQueued k e not_runnable h valid alive live =
    elim (Bool-cases (is_runnable (k.envs e).status)) [
      | inl on ↦
          let (q, got, gone) = remove-Removed e k.sched_list (ground (arith, h e)) in
          (
            q,
            unfold requeue in ground arith,
            leave-IsQueued k e (record (k.envs e) { status = not_runnable }) q h on refl gone,
          )
      | inr off ↦ (
        k.sched_list,
        unfold requeue in ground arith,
        stay-IsQueued k e (record (k.envs e) { status = not_runnable }) h (ground arith),
      )
    ]

change_status-IsSafe :
    (k : Kernel) (e : ℕ) (s : Status)
    → IsQueued k
    → is_runnable s || is_not_runnable s ≡ true
    → is_zombie (k.envs e).status ≡ false
    → is_free (k.envs e).status ≡ false
    → IsSafe (IsAlone k k.curenv) (change_status k e s)
change_status-IsSafe k e s h valid alive live =
    let (q, got, keeps) = requeue-IsQueued k e s h valid alive live in
    let after : Kernel = record (set_env k e (record (k.envs e) { status = s })) {
      sched_list = q;
    } in
    elim (Bool-cases (e == k.curenv)) [
      | inl self ↦
          let same : change_status k e s ≡ schedule after true (some e) =
            unfold change_status in ground arith in
          let here : e ≡ k.curenv = ground arith in
          rw same (
            subst (λ x. IsSafe (IsAlone k x) (schedule after true (some e))) here
              (scheduled-IsSafe k e (record (k.envs e) { status = s }) q keeps))
      | inr other ↦
          let same : change_status k e s ≡ returned (ok 0) after =
            unfold change_status in ground arith in
          rw same keeps
    ]

status_of-valid :
    (w : ℕ) (s : Status) → status_of w ≡ some s → is_runnable s || is_not_runnable s ≡ true
unfolding status_of
status_of-valid w s h = ground arith

pub Result-cases : (r : Result ℕ) → ((x : Error) × (r ≡ err x)) ⊎ ((e : ℕ) × (r ≡ ok e))
Result-cases (err x) = inl (x, refl)
Result-cases (ok e) = inr (e, refl)

allowed-live :
    (k : Kernel) (envid : ℕ) (checkperm : Bool) (e : ℕ)
    → IsRunning k
    → envid2env k envid checkperm ≡ ok e
    → is_free (k.envs e).status ≡ false
allowed-live k envid checkperm e live h = ground (arith, envid2env-allowed k envid checkperm e h)

-- When the queue holds exactly the runnable processes, the caller is one and `envid` does not name
-- a zombie, the same holds after every branch of `sys_set_env_status`, no queue macro is misused,
-- and it panics only if no process but the caller is runnable.
pub sys_set_env_status-IsSafe :
    (k : Kernel) (envid w : ℕ)
    → IsQueued k
    → IsRunning k
    → ((e : ℕ) → envid2env k envid true ≡ ok e → is_zombie (k.envs e).status ≡ false)
    → IsSafe (IsAlone k k.curenv) (sys_set_env_status k envid w)
sys_set_env_status-IsSafe k envid w h live alive = elim (Option-cases (status_of w)) [
  | inl bad ↦
      let same : sys_set_env_status k envid w ≡ returned (err inval) k =
        unfold sys_set_env_status in ground arith in
      rw same h
  | inr (s, good) ↦ elim (Result-cases (envid2env k envid true)) [
    | inl (x, refused) ↦
        let same : sys_set_env_status k envid w ≡ returned (err x) k =
          unfold sys_set_env_status in ground arith in
        rw same h
    | inr (e, found) ↦
        let same : sys_set_env_status k envid w ≡ change_status k e s =
          unfold sys_set_env_status in ground arith in
        rw same (
          change_status-IsSafe k e s h (status_of-valid w s good) (alive e found)
            (allowed-live k envid true e live found))
  ]
]
