-- ===== src/Kernel/Env/Schedule.antt =====
-- Round robin: a yield goes to the next process of the queue, never back to the caller while
-- another is runnable, and every runnable process is reached.
use mos_enhanced_shell.Base.{
  ℕ, zero, suc, ◌≡◌, refl, true, some, List, [], ◌∷◌, ◌++◌, arith, ◌∙◌, ap, length, append_assoc,
  subst,
}
use mos_enhanced_shell.Kernel.Queue.{remove, first, linked, linked-append, remove-head}
use mos_enhanced_shell.Kernel.Env.{
  Kernel, set_env, is_runnable, Run, returned, scheduled, panic, misuse, env_run, rotate, pick,
  schedule, sys_yield, increment, decrement,
}
use mos_enhanced_shell.Kernel.Env.Invariant.{
  IsQueued, IsSafe, schedule-IsSafe, pick-some, rotate-Rotated,
}
use mos_enhanced_shell.Kernel.Env.Calls.{IsRunning}

-- The state in which `e` runs, after `schedule` took it from the head of the queue `q`.
abbrev pub switched : Kernel → List ℕ → ℕ → Kernel
switched k q e = record (set_env k e (record (k.envs e) { runs = increment (k.envs e).runs })) {
  sched_list = q;
  count = decrement (k.envs e).pri;
  curenv = e;
}

module _ (k : Kernel) (h : IsQueued k) (live : IsRunning k) where
  sys_yield-pick :
      (q : List ℕ) → rotate k k.curenv ≡ some q → sys_yield k ≡ pick (record k { sched_list = q })
  unfolding sys_yield schedule
  sys_yield-pick q e = ground arith

  pick-switched :
      (e : ℕ) (q : List ℕ)
      → first q ≡ some e
      → is_runnable (k.envs e).status ≡ true
      → pick (record k { sched_list = q }) ≡ scheduled (switched k q e)
  unfolding env_run set_env
  pick-switched e q head on = pick-some (record k { sched_list = q }) e head ∙ ground arith

  -- One yield, when the caller is at the head of the queue as `schedule` leaves it.
  sys_yield-next :
      (e : ℕ) (rest : List ℕ)
      → k.sched_list ≡ k.curenv ∷ e ∷ rest
      → sys_yield k ≡ scheduled (switched k (e ∷ rest ++ (k.curenv ∷ [])) e)
  sys_yield-next e rest shape =
      let r = rotate-Rotated k k.curenv h live in
      let gone : remove k.curenv k.sched_list ≡ some (e ∷ rest) =
        rw shape (remove-head k.curenv (e ∷ rest)) in
      let shorter : r.shorter ≡ e ∷ rest = cc (r.removed, gone) in
      let on : is_runnable (k.envs e).status ≡ true =
        ground (arith, h e, ap (λ q. linked e q) shape) in
      let turned : rotate k k.curenv ≡ some ((e ∷ rest) ++ (k.curenv ∷ [])) =
        r.result ∙ ap (λ q. some (q ++ (k.curenv ∷ []))) shorter in
      sys_yield-pick ((e ∷ rest) ++ (k.curenv ∷ [])) turned
      ∙ pick-switched e ((e ∷ rest) ++ (k.curenv ∷ [])) refl on

  switched-IsQueued :
      (e : ℕ) (rest : List ℕ)
      → k.sched_list ≡ k.curenv ∷ e ∷ rest
      → IsQueued (switched k ((e ∷ rest) ++ (k.curenv ∷ [])) e)
  switched-IsQueued e rest shape =
      subst (IsSafe (k.sched_list ≡ [])) (sys_yield-next e rest shape)
        (unfold sys_yield in schedule-IsSafe k true (some k.curenv) h)

  next-IsRunning :
      (e : ℕ) (rest : List ℕ)
      → k.sched_list ≡ k.curenv ∷ e ∷ rest
      → IsRunning (switched k ((e ∷ rest) ++ (k.curenv ∷ [])) e)
  unfolding set_env
  next-IsRunning e rest shape = ground (arith, h e, ap (λ q. linked e q) shape)

  returns-alone :
      (s : List ℕ) (k' : Kernel)
      → rotate k k.curenv ≡ some (s ++ (k.curenv ∷ []))
      → ((i : ℕ) → linked i (s ++ (k.curenv ∷ [])) ≡ linked i k.sched_list)
      → sys_yield k ≡ scheduled k'
      → k'.curenv ≡ k.curenv
      → (i : ℕ) → is_runnable (k.envs i).status ≡ true
      → i ≡ k.curenv
  returns-alone [] k' turned same ran back i on = ground (arith, same i, h i)
  returns-alone (y ∷ s) k' turned same ran back i on =
      let live-y : is_runnable (k.envs y).status ≡ true = ground (arith, h y, same y) in
      let went =
        sys_yield-pick (y ∷ s ++ (k.curenv ∷ [])) turned
        ∙ pick-switched y (y ∷ s ++ (k.curenv ∷ [])) refl live-y in
      let here : y ≡ k.curenv = ground (arith, went, ran, back) in
      absurd (ground (arith, same k.curenv, h k.curenv, linked-append k.curenv s (k.curenv ∷ [])))

  -- When the queue holds exactly the runnable processes and the caller is one, `sys_yield` comes
  -- back to its caller only if no other process is runnable.
  pub sys_yield-other :
      (k' : Kernel)
      → sys_yield k ≡ scheduled k'
      → k'.curenv ≡ k.curenv
      → (i : ℕ) → is_runnable (k.envs i).status ≡ true
      → i ≡ k.curenv
  sys_yield-other k' ran back i on =
      let r = rotate-Rotated k k.curenv h live in
      returns-alone r.shorter k' r.result r.same ran back i on

-- `n` yields in a row, each by the process that then runs.
unfoldable pub yield_times : ℕ → Kernel → Run
yield_times zero k = scheduled k
yield_times (suc n) k = elim (sys_yield k) [
  | scheduled k' ↦ yield_times n k'
  | returned r k' ↦ returned r k'
  | panic ↦ panic
  | misuse ↦ misuse
]

-- When the queue holds exactly the runnable processes and the caller is its head, every process in
-- the queue is reached: with `pre` before it behind the caller, after that many yields and one
-- more it runs.
pub yield_times-reaches :
    (pre : List ℕ) (k : Kernel) (e : ℕ) (post : List ℕ)
    → IsQueued k
    → IsRunning k
    → k.sched_list ≡ k.curenv ∷ (pre ++ (e ∷ post))
    → (k' : Kernel) × (yield_times (suc (length pre)) k ≡ scheduled k') × (k'.curenv ≡ e)
unfolding yield_times
yield_times-reaches [] k e post h live shape = (
  switched k ((e ∷ post) ++ (k.curenv ∷ [])) e,
  rw (sys_yield-next k h live e post shape, yield_times),
  refl,
)
yield_times-reaches (x ∷ pre) k e post h live shape =
    let rest : List ℕ = pre ++ (e ∷ post) in
    let after : Kernel = switched k ((x ∷ rest) ++ (k.curenv ∷ [])) x in
    let (k', ran, there) =
      yield_times-reaches pre after e (post ++ (k.curenv ∷ []))
        (switched-IsQueued k h live x rest shape) (next-IsRunning k h live x rest shape)
        (ap (λ q. x ∷ q) (append_assoc pre (e ∷ post) (k.curenv ∷ []))) in
    (k', rw (sys_yield-next k h live x rest shape, yield_times) ran, there)
