-- ===== src/Kernel/Env/Message.antt =====
-- Messages between processes, and what exiting and reaping do to the run queue.
use mos_enhanced_shell.Base.{
  ℕ, ◌≡◌, ap, ◌≢◌, refl, ◌⊎◌, inl, inr, true, false, ◌&&◌, not, some, [], ◌∷◌, ◌++◌, arith, ◌==◌,
  ◌∙◌, if◌then◌else◌, Bool-cases, sym, subst,
}
use Prim.Native.Nat.{bit_or}
use mos_enhanced_shell.Kernel.Result.{Error, bad_env, inval, ipc_not_recv, Result, ok, err}
use mos_enhanced_shell.Kernel.User.{is_illegal_va}
use mos_enhanced_shell.Kernel.Queue.{linked, insert_tail-linked, remove-none}
use mos_enhanced_shell.Kernel.Env.{
  runnable, zombie, Env, Kernel, set_env, is_runnable, is_zombie, Run, returned, scheduled, panic,
  misuse, envid2env, exit_self, env_free, env_destroy, sys_env_destroy, pte_v, deliver,
  sys_ipc_try_send,
}
use mos_enhanced_shell.Kernel.Env.Invariant.{IsQueued, IsSafe, IsAlone, Ran}
use mos_enhanced_shell.Kernel.Env.Calls.{
  exited, exit_self-Ran, join-IsQueued, Result-cases, exit_self-IsSafe, IsRunning,
}

-- The receiver after a message.
abbrev pub received : Kernel → ℕ → ℕ → ℕ → Env
received k e value perm = record (k.envs e) {
  ipc_value = value;
  ipc_from = (k.envs k.curenv).id;
  ipc_perm = bit_or pte_v perm;
  ipc_recving = false;
  status = runnable;
}

abbrev pub delivered : Kernel → ℕ → ℕ → ℕ → Kernel
delivered k e value perm = record (set_env k e (received k e value perm)) {
  sched_list = k.sched_list ++ (e ∷ []);
}

deliver-some :
    (k : Kernel) (e value perm : ℕ)
    → IsQueued k
    → is_runnable (k.envs e).status ≡ false
    → deliver k e value perm ≡ some (delivered k e value perm)
unfolding deliver
deliver-some k e value perm h waits =
    let out : linked e k.sched_list ≡ 0 = ground (arith, h e) in
    ground (arith, insert_tail-linked e k.sched_list out)

-- 0, or the error.
abbrev pub answer : Result (Unit {0}) → Result ℕ
answer (ok _) = ok 0
answer (err x) = err x

-- The page that is sent has a bad address, or the receiver does not exist or does not wait.
abbrev pub Refused : Kernel → ℕ → ℕ → Result ℕ → Type 0
Refused k envid srcva r =
    ((srcva ≢ 0) × (is_illegal_va srcva ≡ true) × (r ≡ err inval))
    ⊎ (((x : Error) × (envid2env k envid false ≡ err x) × (r ≡ err x))
        ⊎ ((e : ℕ) × (envid2env k envid false ≡ ok e)
            × ((k.envs e).ipc_recving ≡ false)
            × (r ≡ err ipc_not_recv)))

-- What `sys_ipc_try_send` may do: refuse for a reason and change nothing, or set the receiver's
-- fields, make it runnable and put it last in the queue. The answer is then 0 if no page is sent,
-- and what sharing the page gives otherwise.
abbrev pub Sent : (ℕ → ℕ → ℕ → ℕ → ℕ → Result (Unit {0})) → Kernel → ℕ → ℕ → ℕ → ℕ → Run → Type 0
Sent share k envid value srcva perm (returned r k') =
    ((k' ≡ k) × Refused k envid srcva r)
    ⊎ ((e : ℕ) × (envid2env k envid false ≡ ok e)
        × ((k.envs e).ipc_recving ≡ true)
        × (k' ≡ delivered k e value perm)
        × (((srcva ≡ 0) × (r ≡ ok 0))
            ⊎ ((srcva ≢ 0)
                × (is_illegal_va srcva ≡ false)
                × (r ≡ answer (share k.curenv srcva e (k.envs e).ipc_dstva perm)))))
Sent share k envid value srcva perm (scheduled k') = ⊥
Sent share k envid value srcva perm panic = ⊥
Sent share k envid value srcva perm misuse = ⊥

module _ (share : ℕ → ℕ → ℕ → ℕ → ℕ → Result (Unit {0})) (k : Kernel)
    (envid value srcva perm : ℕ) where
  abbrev reply : ℕ → Result ℕ
  reply e = if srcva == 0 then ok 0 else answer (share k.curenv srcva e (k.envs e).ipc_dstva perm)

  abbrev run : Run
  run = sys_ipc_try_send share k envid value srcva perm

  try_send-illegal : not (srcva == 0) && is_illegal_va srcva ≡ true → run ≡ returned (err inval) k
  unfolding sys_ipc_try_send
  try_send-illegal h = ground arith

  module _ (legal : not (srcva == 0) && is_illegal_va srcva ≡ false) where
    try_send-bad_env : (x : Error) → envid2env k envid false ≡ err x → run ≡ returned (err x) k
    unfolding sys_ipc_try_send
    try_send-bad_env x h = ground arith

    module _ (e : ℕ) (found : envid2env k envid false ≡ ok e) where
      try_send-busy : (k.envs e).ipc_recving ≡ false → run ≡ returned (err ipc_not_recv) k
      unfolding sys_ipc_try_send
      try_send-busy h = ground arith

      try_send-delivered :
          (k.envs e).ipc_recving ≡ true
          → deliver k e value perm ≡ some (delivered k e value perm)
          → run ≡ returned (reply e) (delivered k e value perm)
      unfolding sys_ipc_try_send
      try_send-delivered waits done = ground arith

  reply-answer :
      (e : ℕ)
      → not (srcva == 0) && is_illegal_va srcva ≡ false
      → ((srcva ≡ 0) × (reply e ≡ ok 0))
        ⊎ ((srcva ≢ 0)
            × (is_illegal_va srcva ≡ false)
            × (reply e ≡ answer (share k.curenv srcva e (k.envs e).ipc_dstva perm)))
  reply-answer e legal = elim (Bool-cases (srcva == 0)) [
    | inl plain ↦ inl (ground arith, rw plain refl)
    | inr page ↦ inr (ground arith, ground arith, rw page refl)
  ]

  -- When the queue holds exactly the runnable processes and no process that waits for a message is
  -- runnable, `sys_ipc_try_send` refuses for a bad address of a page, a process that is not there
  -- or one that does not wait, and changes nothing, or it sets the receiver's fields, makes it
  -- runnable and puts it last in the queue; the answer is then 0 if no page is sent, and otherwise
  -- 0 or the error of sharing the page, whose address is legal.
  pub sys_ipc_try_send-Sent :
      IsQueued k
      → ((i : ℕ) → (k.envs i).ipc_recving ≡ true → is_runnable (k.envs i).status ≡ false)
      → Sent share k envid value srcva perm run
  sys_ipc_try_send-Sent h waiting = elim (Bool-cases (not (srcva == 0) && is_illegal_va srcva)) [
    | inl bad ↦ rw (try_send-illegal bad) (inl (refl, inl (ground arith, ground arith, refl)))
    | inr legal ↦ elim (Result-cases (envid2env k envid false)) [
      | inl (x, refused) ↦
          rw (try_send-bad_env legal x refused) (inl (refl, inr (inl (x, refused, refl))))
      | inr (e, found) ↦ elim (Bool-cases (k.envs e).ipc_recving) [
        | inr busy ↦
            rw (try_send-busy legal e found busy) (inl (refl, inr (inr (e, found, busy, refl))))
        | inl waits ↦
            rw
              (try_send-delivered legal e found waits
                (deliver-some k e value perm h (waiting e waits)))
              (inr (e, found, waits, refl, reply-answer e legal))
      ]
    ]
  ]

delivered-IsQueued :
    (k : Kernel) (e value perm : ℕ)
    → IsQueued k
    → is_runnable (k.envs e).status ≡ false
    → IsQueued (delivered k e value perm)
delivered-IsQueued k e value perm h off = join-IsQueued k e (received k e value perm) h off refl

Sent-IsSafe :
    (share : ℕ → ℕ → ℕ → ℕ → ℕ → Result (Unit {0})) (k : Kernel) (envid value srcva perm : ℕ)
    (r : Run)
    → IsQueued k
    → ((i : ℕ) → (k.envs i).ipc_recving ≡ true → is_runnable (k.envs i).status ≡ false)
    → Sent share k envid value srcva perm r
    → IsSafe ⊥ r
Sent-IsSafe share k envid value srcva perm (returned r k') h waiting (inl (same, _)) =
    subst IsQueued (sym same) h
Sent-IsSafe share k envid value srcva perm (returned r k') h waiting
      (inr (e, found, waits, same, _)) =
    subst IsQueued (sym same) (delivered-IsQueued k e value perm h (waiting e waits))
Sent-IsSafe share k envid value srcva perm (scheduled k') h waiting sent = absurd sent
Sent-IsSafe share k envid value srcva perm panic h waiting sent = absurd sent
Sent-IsSafe share k envid value srcva perm misuse h waiting sent = absurd sent

-- When the queue holds exactly the runnable processes and no process that waits for a message is
-- runnable, the queue still holds exactly the runnable processes after every branch of
-- `sys_ipc_try_send`, no queue macro is misused, and nothing panics.
pub sys_ipc_try_send-IsSafe :
    (share : ℕ → ℕ → ℕ → ℕ → ℕ → Result (Unit {0})) (k : Kernel) (envid value srcva perm : ℕ)
    → IsQueued k
    → ((i : ℕ) → (k.envs i).ipc_recving ≡ true → is_runnable (k.envs i).status ≡ false)
    → IsSafe ⊥ (sys_ipc_try_send share k envid value srcva perm)
sys_ipc_try_send-IsSafe share k envid value srcva perm h waiting =
    Sent-IsSafe share k envid value srcva perm _ h waiting
      (sys_ipc_try_send-Sent share k envid value srcva perm h waiting)

-- When the queue holds exactly the runnable processes, a call of `sys_env_destroy` by the parent
-- of a zombie removes the zombie from the queue that it has left already.
pub sys_env_destroy-misuse :
    (k : Kernel) (envid code e : ℕ)
    → IsQueued k
    → envid2env k envid true ≡ ok e
    → e ≢ k.curenv
    → (k.envs e).parent_id ≡ (k.envs k.curenv).id
    → (k.envs e).status ≡ zombie
    → sys_env_destroy k envid code ≡ misuse
unfolding sys_env_destroy env_destroy env_free
sys_env_destroy-misuse k envid code e h found other child dead =
    let out : linked e k.sched_list ≡ 0 = h e ∙ rw dead in
    ground (arith, remove-none e k.sched_list out)

other_id : (c e : ℕ) → (e == c) ≡ false → ok e ≢ ok c
other_id c e other same = ground arith

-- How `sys_env_destroy` ends where it does not reap: the caller exits and a process is chosen, or
-- another process, or none, is named, and nothing changes.
abbrev pub Exited : Kernel → ℕ → ℕ → Run → Type 0
Exited k envid code (returned r k') =
    (r ≡ err bad_env) × (k' ≡ k) × (envid2env k envid true ≢ ok k.curenv)
Exited k envid code (scheduled k') =
    (envid2env k envid true ≡ ok k.curenv) × Ran (exited k code) (scheduled k')
Exited k envid code panic = envid2env k envid true ≡ ok k.curenv
Exited k envid code misuse = ⊥

Ran-Exited :
    (P : Type 0) (k : Kernel) (envid code : ℕ) (r : Run)
    → envid2env k envid true ≡ ok k.curenv
    → IsSafe P r
    → Ran (exited k code) r
    → Exited k envid code r
Ran-Exited P k envid code (returned x k') self safe ran = absurd ran
Ran-Exited P k envid code (scheduled k') self safe ran = (self, ran)
Ran-Exited P k envid code panic self safe ran = self
Ran-Exited P k envid code misuse self safe ran = absurd safe

-- When the queue holds exactly the runnable processes, the caller is one and `envid` does not name
-- a zombie other than the caller, the same holds after every branch of `sys_env_destroy`, no queue
-- macro is misused, and it panics only if no process but the caller is runnable; the caller
-- becomes a zombie with its exit status if it is named, the other processes as before but for the
-- counts of their runs, and otherwise the call is refused and changes nothing.
pub sys_env_destroy-IsSafe :
    (k : Kernel) (envid code : ℕ)
    → IsQueued k
    → IsRunning k
    → ((e : ℕ)
        → envid2env k envid true ≡ ok e
        → (e ≡ k.curenv) ⊎ (is_zombie (k.envs e).status ≡ false))
    → IsSafe (IsAlone k k.curenv) (sys_env_destroy k envid code)
      × Exited k envid code (sys_env_destroy k envid code)
sys_env_destroy-IsSafe k envid code h live alive = elim (Result-cases (envid2env k envid true)) [
  | inl (x, refused) ↦
      let same : sys_env_destroy k envid code ≡ returned (err bad_env) k =
        unfold sys_env_destroy in ground arith in
      rw same (h, (refl, refl, λ found. cc (refused, found)))
  | inr (e, found) ↦ elim (Bool-cases (e == k.curenv)) [
    | inl self ↦
        let same : sys_env_destroy k envid code ≡ exit_self k code =
          unfold sys_env_destroy in ground arith in
        let here : envid2env k envid true ≡ ok k.curenv = found ∙ ap (λ x. ok x) (ground arith) in
        let safe = exit_self-IsSafe k code h live in
        rw same (safe, Ran-Exited _ k envid code _ here safe (exit_self-Ran k code h live))
    | inr other ↦
        let same : sys_env_destroy k envid code ≡ returned (err bad_env) k =
          unfold sys_env_destroy in ground (arith, alive e found) in
        rw same (h, (refl, refl, λ mine. other_id k.curenv e other (sym found ∙ mine)))
  ]
]
