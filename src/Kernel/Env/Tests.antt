-- ===== src/Kernel/Env/Tests.antt =====
-- Runs of the scheduler and of the calls on processes, and the theorems at them.
use mos_enhanced_shell.Base.{
  ℕ, ◌%◌, ◌≡◌, refl, ◌⊎◌, Bool, true, false, [], ◌∷◌, arith, ◌==◌, if◌then◌else◌,
}
use mos_enhanced_shell.Kernel.Result.{inval, Result, ok, err}
use mos_enhanced_shell.Kernel.Queue.{insert_tail, remove}
use mos_enhanced_shell.Kernel.Env.{
  Status, free, runnable, not_runnable, zombie, Env, Kernel, nenv, set_env, is_runnable, is_zombie,
  is_free, scheduled, misuse, envid2env, schedule, env_run, pick, rotate, sys_yield,
  sys_env_destroy, sys_ipc_recv, sys_ipc_try_send,
}
use mos_enhanced_shell.Kernel.Env.Invariant.{IsQueued, IsSafe, IsAlone}
use mos_enhanced_shell.Kernel.Env.Calls.{Waits, envid2env-allowed, sys_ipc_recv-IsSafe}
use mos_enhanced_shell.Kernel.Env.Schedule.{switched, yield_times, yield_times-reaches}
use mos_enhanced_shell.Kernel.Env.Message.{
  Sent, Exited, sys_ipc_try_send-Sent, sys_env_destroy-misuse, sys_env_destroy-IsSafe,
}

abbrev process : ℕ → ℕ → Status → Bool → Env
process id parent status waits = record {
  id = id;
  parent_id = parent;
  status = status;
  pri = 1;
  ipc_value = 0;
  ipc_from = 0;
  ipc_recving = waits;
  ipc_dstva = 0;
  ipc_perm = 0;
  runs = 0;
  exit_status = 0;
}

-- The shell in slot 0 runs; its children in slots 1 and 2 are runnable, 3 waits for a message and
-- 4 is a zombie.
abbrev table : ℕ → Env
table i =
    if i == 0
    then process 2048 0 runnable false
    else if i == 1
    then process 2049 2048 runnable false
    else if i == 2
    then process 2050 2048 runnable false
    else if i == 3
    then process 2051 2048 not_runnable true
    else if i == 4
    then process 2052 2048 zombie false
    else process 0 0 free false

abbrev kernel : Kernel
kernel = record { envs = table; curenv = 0; sched_list = 0 ∷ 1 ∷ 2 ∷ []; free_list = []; count = 0 }

kernel-IsQueued : IsQueued kernel
kernel-IsQueued i = ground arith

waits-not_runnable :
    (i : ℕ) → (kernel.envs i).ipc_recving ≡ true → is_runnable (kernel.envs i).status ≡ false
waits-not_runnable i h = ground arith

abbrev share_all : ℕ → ℕ → ℕ → ℕ → ℕ → Result (Unit {0})
share_all from src to dst perm = ok tt

-- No page at the address that is sent.
abbrev share_none : ℕ → ℕ → ℕ → ℕ → ℕ → Result (Unit {0})
share_none from src to dst perm = err inval

found_child : envid2env kernel 2049 true ≡ ok 1
unfolding envid2env
found_child = refl

found_zombie : envid2env kernel 2052 true ≡ ok 4
unfolding envid2env
found_zombie = refl

abbrev child_id : ℕ
child_id = 2049

abbrev child_slot : ℕ
child_slot = 1

envid2env-allowed_example :
    ((child_id ≡ 0) × (child_slot ≡ kernel.curenv))
    ⊎ (((kernel.envs child_slot).id ≡ child_id)
        × (child_slot ≡ child_id % nenv)
        × (is_free (kernel.envs child_slot).status ≡ false)
        × ((true ≡ false)
            ⊎ (child_slot ≡ kernel.curenv)
            ⊎ ((kernel.envs child_slot).parent_id ≡ (kernel.envs kernel.curenv).id)))
envid2env-allowed_example = envid2env-allowed kernel child_id true child_slot found_child

sys_ipc_recv-IsSafe_example :
    IsSafe (IsAlone kernel 0) (sys_ipc_recv kernel 0) × Waits kernel 0 (sys_ipc_recv kernel 0)
sys_ipc_recv-IsSafe_example = sys_ipc_recv-IsSafe kernel 0 kernel-IsQueued refl

child_alive : (e : ℕ) → envid2env kernel 2049 true ≡ ok e → is_zombie (kernel.envs e).status ≡ false
unfolding envid2env
child_alive e h = ground arith

self_or_alive :
    (e : ℕ)
    → envid2env kernel 0 true ≡ ok e
    → (e ≡ kernel.curenv) ⊎ (is_zombie (kernel.envs e).status ≡ false)
unfolding envid2env
self_or_alive e h = ground arith

sys_env_destroy-IsSafe_example :
    IsSafe (IsAlone kernel 0) (sys_env_destroy kernel 0 7)
    × Exited kernel 0 7 (sys_env_destroy kernel 0 7)
sys_env_destroy-IsSafe_example =
    sys_env_destroy-IsSafe kernel 0 7 kernel-IsQueued refl self_or_alive

sys_env_destroy-misuse_example : sys_env_destroy kernel 2052 0 ≡ misuse
sys_env_destroy-misuse_example =
    sys_env_destroy-misuse kernel 2052 0 4 kernel-IsQueued found_zombie (λ e. ground arith) refl
      refl

sys_ipc_try_send-Sent_example :
    Sent share_none kernel 2051 42 0x400000 0
      (sys_ipc_try_send share_none kernel 2051 42 0x400000 0)
sys_ipc_try_send-Sent_example =
    sys_ipc_try_send-Sent share_none kernel 2051 42 0x400000 0 kernel-IsQueued waits-not_runnable

yield_times-reaches_example :
    (k' : Kernel) × (yield_times 2 kernel ≡ scheduled k') × (k'.curenv ≡ 2)
yield_times-reaches_example = yield_times-reaches (1 ∷ []) kernel 2 [] kernel-IsQueued refl refl

-- The shell runs alone, and a child waits for a message.
abbrev alone : Kernel
alone = record {
  envs = λ i. if i == 0 then process 2048 0 runnable false else process 2051 2048 not_runnable true;
  curenv = 0;
  sched_list = 0 ∷ [];
  free_list = [];
  count = 0;
}

alone-IsQueued : IsQueued alone
alone-IsQueued i = ground arith

sys_yield-alone : sys_yield alone ≡ scheduled (switched alone (0 ∷ []) 0)
unfolding sys_yield schedule rotate pick env_run set_env remove insert_tail
sys_yield-alone = refl
