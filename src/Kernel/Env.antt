-- ===== src/Kernel/Env.antt =====
-- Processes (`struct Env`) and the system calls that change what runs: kern/env.c (`envid2env`,
-- `env_run`), kern/sched.c, and of kern/syscall_all.c `sys_yield`, `sys_env_destroy`,
-- `sys_set_env_status`, `sys_ipc_recv`, `sys_ipc_try_send`. Saved registers and page tables are
-- not part of this state; where a message carries a page, the call goes to a parameter.
pub mod Invariant
pub mod Schedule
pub mod Calls
pub mod Message
mod Tests
use Prim.Native.Nat.{bit_or}
use mos_enhanced_shell.Base.{
  ℕ, zero, suc, ◌+◌, ◌-◌, ◌%◌, ◌^◌, Bool, true, false, ◌&&◌, ◌||◌, not, Option, none, some, List,
  [], ◌∷◌, ltb, leb, ◌==◌, if◌then◌else◌,
}
use mos_enhanced_shell.Kernel.Result.{Error, bad_env, inval, ipc_not_recv, Result, ok, err, ◌>>=◌}
use mos_enhanced_shell.Kernel.User.{is_illegal_va}
use mos_enhanced_shell.Kernel.Queue.{insert_tail, remove, first}

-- ENV_FREE, ENV_RUNNABLE, ENV_NOT_RUNNABLE, ENV_ZOMBIE
pub data Status : Type 0 where
  free runnable not_runnable zombie : Status

pub record Env : Type 0 where
  pub id : ℕ
  pub parent_id : ℕ
  pub status : Status
  pub pri : ℕ
  pub ipc_value : ℕ
  pub ipc_from : ℕ
  pub ipc_recving : Bool
  pub ipc_dstva : ℕ
  pub ipc_perm : ℕ
  pub runs : ℕ
  pub exit_status : ℕ

-- `envs`, `curenv`, `env_sched_list`, `env_free_list` and the static `count` of `schedule`. A
-- process is named by its index in `envs`. A system call runs for a process, so `curenv` is not
-- null there.
pub record Kernel : Type 0 where
  pub envs : ℕ → Env
  pub curenv : ℕ
  pub sched_list : List ℕ
  pub free_list : List ℕ
  pub count : ℕ

abbrev pub nenv : ℕ
nenv = 1024

unfoldable pub set_env : Kernel → ℕ → Env → Kernel
set_env k e v = record k { envs = λ i. if i == e then v else k.envs i }

abbrev pub is_runnable : Status → Bool
is_runnable runnable = true
is_runnable free = false
is_runnable not_runnable = false
is_runnable zombie = false

abbrev pub is_free : Status → Bool
is_free free = true
is_free runnable = false
is_free not_runnable = false
is_free zombie = false

abbrev pub is_zombie : Status → Bool
is_zombie zombie = true
is_zombie free = false
is_zombie runnable = false
is_zombie not_runnable = false

abbrev pub is_not_runnable : Status → Bool
is_not_runnable not_runnable = true
is_not_runnable free = false
is_not_runnable runnable = false
is_not_runnable zombie = false

-- How a system call ends: it returns to its caller, another choice of process was made and the
-- call does not return, the kernel panics, or a queue macro was used on an element that it does
-- not fit.
pub data Run : Type 0 where
  returned : Result ℕ → Kernel → Run
  scheduled : Kernel → Run
  panic : Run
  misuse : Run

-- The index of the process, for `*penv`.
unfoldable pub envid2env : Kernel → ℕ → Bool → Result ℕ
envid2env k envid checkperm =
    let e = envid % nenv in
    if envid == 0
    then ok k.curenv
    else if is_free (k.envs e).status || not ((k.envs e).id == envid)
    then err bad_env
    else if checkperm && (not (e == k.curenv) && not ((k.envs e).parent_id == (k.envs k.curenv).id))
    then err bad_env
    else ok e

-- The arithmetic of `u_int` counters; an `int` is kept as its bit pattern.
unfoldable pub increment : ℕ → ℕ
increment n = (n + 1) % 2 ^ 32

unfoldable pub decrement : ℕ → ℕ
decrement n = (n + 2 ^ 32 - 1) % 2 ^ 32

-- `env_run`, without the context switch.
unfoldable pub env_run : Kernel → ℕ → Run
env_run k e =
    if is_runnable (k.envs e).status
    then scheduled (record (set_env k e (record (k.envs e) { runs = increment (k.envs e).runs })) {
      curenv = e;
    })
    else panic

-- The part of `schedule` that picks the first process of the queue.
unfoldable pub pick : Kernel → Run
pick k = elim (first k.sched_list) [
  | none ↦ panic
  | some e ↦ env_run (record k { count = decrement (k.envs e).pri }) e
]

-- A running process goes to the end of the queue.
unfoldable pub rotate : Kernel → ℕ → Option (List ℕ)
rotate k e = elim (remove e k.sched_list) [ none ↦ none | some q ↦ insert_tail e q ]

-- `e` is `curenv`, `none` if that is null.
unfoldable pub schedule : Kernel → Bool → Option ℕ → Run
schedule k yield none = pick k
schedule k yield (some e) =
    let again : Run = env_run (record k { count = decrement k.count }) e in
    let rotated : Run = elim (rotate k e) [
      | none ↦ misuse
      | some q ↦ pick (record k { sched_list = q })
    ] in
    if yield || (k.count == 0 || not (is_runnable (k.envs e).status))
    then (if is_runnable (k.envs e).status then rotated else pick k)
    else again

unfoldable pub sys_yield : Kernel → Run
sys_yield k = schedule k true (some k.curenv)

-- The end of `env_free`, which changes the process table and the queues, without the release of the
-- address space before it; `none` is a misuse of the run queue.
unfoldable pub env_free : Kernel → ℕ → Option Kernel
env_free k e =
    let freed = record (set_env k e (record (k.envs e) { status = free })) {
      free_list = e ∷ k.free_list;
    } in
    elim (remove e k.sched_list) [ none ↦ none | some q ↦ some (record freed { sched_list = q }) ]

unfoldable pub env_destroy : Kernel → ℕ → Run
env_destroy k e = elim (env_free k e) [
  | none ↦ misuse
  | some k' ↦ if k'.curenv == e then schedule k' true none else returned (ok 0) k'
]

-- The branch of `sys_env_destroy` for the calling process: it leaves the queue as a zombie.
unfoldable pub exit_self : Kernel → ℕ → Run
exit_self k code =
    let e = k.curenv in
    let dead = set_env k e (record (k.envs e) { exit_status = code; status = zombie }) in
    elim (remove e k.sched_list) [
      | none ↦ misuse
      | some q ↦ schedule (record dead { sched_list = q }) true (some e)
    ]

unfoldable pub sys_env_destroy : Kernel → ℕ → ℕ → Run
sys_env_destroy k envid code = elim (envid2env k envid true) [
  | err _ ↦ returned (err bad_env) k
  | ok e ↦
      if e == k.curenv
      then exit_self k code
      else if not ((k.envs e).parent_id == (k.envs k.curenv).id)
          || not (is_zombie (k.envs e).status)
      then returned (err bad_env) k
      else env_destroy k e
]

-- The status word of the call; `none` for one that is refused.
unfoldable pub status_of : ℕ → Option Status
status_of w = if w == 1 then some runnable else if w == 2 then some not_runnable else none

-- The queue that goes with the new status.
unfoldable pub requeue : Kernel → ℕ → Status → Option (List ℕ)
requeue k e s =
    if is_runnable s && not (is_runnable (k.envs e).status)
    then insert_tail e k.sched_list
    else if is_not_runnable s && not (is_not_runnable (k.envs e).status)
    then remove e k.sched_list
    else some k.sched_list

unfoldable pub change_status : Kernel → ℕ → Status → Run
change_status k e s = elim (requeue k e s) [
  | none ↦ misuse
  | some q ↦
      let k' = record (set_env k e (record (k.envs e) { status = s })) { sched_list = q } in
      if e == k.curenv then schedule k' true (some e) else returned (ok 0) k'
]

unfoldable pub sys_set_env_status : Kernel → ℕ → ℕ → Run
sys_set_env_status k envid w = elim (status_of w) [
  | none ↦ returned (err inval) k
  | some s ↦ elim (envid2env k envid true) [
    | err x ↦ returned (err x) k
    | ok e ↦ change_status k e s
  ]
]

unfoldable pub sys_ipc_recv : Kernel → ℕ → Run
sys_ipc_recv k dstva =
    let e = k.curenv in
    let waiting =
      set_env k e
        (record (k.envs e) { ipc_recving = true; ipc_dstva = dstva; status = not_runnable }) in
    if not (dstva == 0) && is_illegal_va dstva
    then returned (err inval) k
    else elim (remove e k.sched_list) [
      | none ↦ misuse
      | some q ↦ schedule (record waiting { sched_list = q }) true (some e)
    ]

abbrev pub pte_v : ℕ
pte_v = 0x80

-- The receiver of a message: its fields are set and it is put in the queue.
unfoldable pub deliver : Kernel → ℕ → ℕ → ℕ → Option Kernel
deliver k e value perm =
    let woken = set_env k e (record (k.envs e) {
      ipc_value = value;
      ipc_from = (k.envs k.curenv).id;
      ipc_perm = bit_or pte_v perm;
      ipc_recving = false;
      status = runnable;
    }) in
    elim (insert_tail e k.sched_list) [
      | none ↦ none
      | some q ↦ some (record woken { sched_list = q })
    ]

-- `share from srcva to dstva perm` is the answer of `page_lookup` and `page_insert`: the page at
-- `srcva` of the process `from` mapped at `dstva` of the process `to`.
unfoldable pub sys_ipc_try_send :
    (share : ℕ → ℕ → ℕ → ℕ → ℕ → Result (Unit {0})) → Kernel → ℕ → ℕ → ℕ → ℕ → Run
sys_ipc_try_send share k envid value srcva perm =
    if not (srcva == 0) && is_illegal_va srcva
    then returned (err inval) k
    else elim (envid2env k envid false) [
      | err x ↦ returned (err x) k
      | ok e ↦
          if not (k.envs e).ipc_recving
          then returned (err ipc_not_recv) k
          else elim (deliver k e value perm) [
            | none ↦ misuse
            | some k' ↦
                if srcva == 0
                then returned (ok 0) k'
                else elim (share k.curenv srcva e (k.envs e).ipc_dstva perm) [
                  | err x ↦ returned (err x) k'
                  | ok _ ↦ returned (ok 0) k'
                ]
          ]
    ]
