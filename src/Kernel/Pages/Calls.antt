-- ===== src/Kernel/Pages/Calls.antt =====
-- The system calls on user memory (kern/syscall_all.c): `sys_mem_alloc`, `sys_mem_map` and
-- `sys_mem_unmap`. `env_pgdir` is the directory of each process; the processes do not change.
use mos_enhanced_shell.Base.{
  ℕ, ◌^◌, ◌<◌, ◌≡◌, refl, ap, ◌⊎◌, true, false, ◌||◌, none, some, [], arith, ◌==◌, if◌then◌else◌,
  Bool-cases, inl, inr,
}
use mos_enhanced_shell.Kernel.Queue.{linked}
use mos_enhanced_shell.Kernel.Result.{no_mem, inval, ok, err}
use mos_enhanced_shell.Kernel.Fallible.{Run, done, failed, and_then}
use mos_enhanced_shell.Kernel.User.{is_illegal_va, utop}
use mos_enhanced_shell.Kernel.Env.{Kernel, envid2env}
use mos_enhanced_shell.Kernel.Pages.{Pages, page_alloc, page_lookup, page_insert, page_remove}
use mos_enhanced_shell.Kernel.Pages.Space.{user_pages, maps, IsSpace, mapped_counted}
use mos_enhanced_shell.Kernel.Pages.Walk.{vpn, vpn-bound}
use mos_enhanced_shell.Kernel.Pages.Remove.{page_lookup-Entry, page_remove-Removed}
use mos_enhanced_shell.Kernel.Pages.Place.{IsInsertable, Inserted}
use mos_enhanced_shell.Kernel.Pages.Insert.{Insertion, page_insert-Insertion}
use mos_enhanced_shell.Kernel.Pages.Alloc.{Handed, page_alloc-Handed}

unfoldable pub sys_mem_alloc : Kernel → (ℕ → ℕ) → Pages → ℕ → ℕ → ℕ → Run Pages (Unit {0})
sys_mem_alloc k env_pgdir s envid va perm =
    if is_illegal_va va then failed inval s else elim (envid2env k envid true) [
      | err x ↦ failed x s
      | ok e ↦ and_then (page_alloc s) λ pp t. page_insert t (env_pgdir e) pp va perm
    ]

unfoldable pub sys_mem_map : Kernel → (ℕ → ℕ) → Pages → ℕ → ℕ → ℕ → ℕ → ℕ → Run Pages (Unit {0})
sys_mem_map k env_pgdir s srcid srcva dstid dstva perm =
    if is_illegal_va srcva || is_illegal_va dstva
    then failed inval s
    else elim (envid2env k srcid true) [
      | err x ↦ failed x s
      | ok src ↦ elim (envid2env k dstid true) [
        | err x ↦ failed x s
        | ok dst ↦ and_then (page_lookup s (env_pgdir src) srcva) λ found t. elim found [
          | none ↦ failed inval t
          | some (pp, _) ↦ page_insert t (env_pgdir dst) pp dstva perm
        ]
      ]
    ]

unfoldable pub sys_mem_unmap : Kernel → (ℕ → ℕ) → Pages → ℕ → ℕ → Run Pages (Unit {0})
sys_mem_unmap k env_pgdir s envid va =
    if is_illegal_va va then failed inval s else elim (envid2env k envid true) [
      | err x ↦ failed x s
      | ok e ↦ page_remove s (env_pgdir e) va
    ]

legal_below : (va : ℕ) → is_illegal_va va ≡ false → va < utop
unfolding is_illegal_va
legal_below va h = ground arith

-- A new page `r` is mapped at the virtual page `v`, with the only reference to it.
pub record Fresh (held : ℕ → ℕ) (s : Pages) (d v r : ℕ) (t : Pages) : Type 0 where
  pub space : IsSpace held d t
  pub was_free : linked r s.page_free_list ≡ 1
  pub mapped : (u p : ℕ) → u < user_pages → maps t d p u ≡ (if u == v then p == r else maps s d p u)
  pub only_reference : t.pp_ref r ≡ 1

-- The page `r` is neither free nor referred to: it is lost.
pub record Lost (held : ℕ → ℕ) (s : Pages) (d r : ℕ) (t : Pages) : Type 0 where
  pub space : IsSpace held d t
  pub was_free : linked r s.page_free_list ≡ 1
  pub not_free_now : linked r t.page_free_list ≡ 0
  pub no_reference : t.pp_ref r ≡ 0
  pub none_left : t.page_free_list ≡ []
  pub same_maps : (u p : ℕ) → u < user_pages → maps t d p u ≡ maps s d p u

module _ (held : ℕ → ℕ) (k : Kernel) (env_pgdir : ℕ → ℕ) (s : Pages) where
  Fresh-Inserted :
      (d v r : ℕ) (t u : Pages)
      → v < user_pages
      → Handed held s d r t
      → Inserted held t d v r u
      → Fresh held s d v r u
  Fresh-Inserted d v r t u inside h n = record {
    space = n.space;
    was_free = h.was_free;
    mapped = λ x p k. ground (arith, n.mapped x p k, h.same_maps x p k);
    only_reference = elim (Bool-cases (maps t d r v)) [
      | inl there ↦
          absurd (omega (arith, mapped_counted held d t h.space v r inside there, h.unused))
      | inr absent ↦ ground (arith, n.ref, h.unused)
    ];
  }

  Lost-Handed :
      (d r : ℕ) (t : Pages) → Handed held s d r t → t.page_free_list ≡ [] → Lost held s d r t
  Lost-Handed d r t h none_left = record {
    space = h.space;
    was_free = h.was_free;
    not_free_now = h.insertable.unlisted;
    no_reference = h.unused;
    none_left = none_left;
    same_maps = λ u p k. h.same_maps u p k;
  }

  -- In a space whose counts are right, for a legal address, a process that may be named and
  -- permissions of 12 bits, `sys_mem_alloc` maps a page that was free, with one reference, and
  -- changes no other mapping; or it fails because no page is free; or it fails for want of a table
  -- and the page that it took is lost, neither free nor referred to.
  pub sys_mem_alloc-Fresh :
      (envid va perm e : ℕ)
      → IsSpace held (env_pgdir e) s
      → is_illegal_va va ≡ false
      → envid2env k envid true ≡ ok e
      → perm < 2 ^ 12
      → ((r : ℕ) × (t : Pages) × (sys_mem_alloc k env_pgdir s envid va perm ≡ done tt t)
          × Fresh held s (env_pgdir e) (vpn va) r t)
        ⊎ (((sys_mem_alloc k env_pgdir s envid va perm ≡ failed no_mem s) × (s.page_free_list ≡ []))
            ⊎ ((r : ℕ) × (t : Pages) × (sys_mem_alloc k env_pgdir s envid va perm ≡ failed no_mem t)
                × Lost held s (env_pgdir e) r t))
  unfolding sys_mem_alloc
  sys_mem_alloc-Fresh envid va perm e w legal found bits =
      let low : va < utop = legal_below va legal in
      elim (page_alloc-Handed held s (env_pgdir e) w) [
        | inl (full, none_free) ↦ inr (inl (rw (legal, found, full) refl, none_free))
        | inr (r, t, got, h) ↦
            elim (page_insert-Insertion held t (env_pgdir e) r va perm h.space h.insertable low
              bits) [
                | inl (u, ran, n) ↦ inl (
                  r,
                  u,
                  rw (legal, found, got) ran,
                  Fresh-Inserted (env_pgdir e) (vpn va) r t u (vpn-bound va low) h n,
                )
                | inr (ran, none_left, no_tables) ↦ inr (
                    inr
                      (r, t, rw (legal, found, got) ran, Lost-Handed (env_pgdir e) r t h none_left))
              ]
      ]

  -- After a call for a legal address and a process that may be named, no page is mapped there.
  pub sys_mem_unmap-lem :
      (envid va e : ℕ)
      → IsSpace held (env_pgdir e) s
      → is_illegal_va va ≡ false
      → envid2env k envid true ≡ ok e
      → (t : Pages) × (sys_mem_unmap k env_pgdir s envid va ≡ done tt t)
        × IsSpace held (env_pgdir e) t
        × ((u p : ℕ)
            → u < user_pages
            → maps t (env_pgdir e) p u ≡ (if u == vpn va then false else maps s (env_pgdir e) p u))
  unfolding sys_mem_unmap
  sys_mem_unmap-lem envid va e w legal found =
      elim (page_remove-Removed held s (env_pgdir e) va w (legal_below va legal)) [
        | inl (ran, nothing) ↦ (
          s,
          rw (legal, found) ran,
          w,
          λ u p h. elim (Bool-cases (u == vpn va)) [
            | inl same ↦
                let at : u ≡ vpn va = ground arith in
                ground (arith, nothing p, ap (maps s (env_pgdir e) p) at)
            | inr other ↦ ground arith
          ],
        )
        | inr (pp, t, ran, here, gone) ↦ (t, rw (legal, found) ran, gone.space, gone.unmapped)
      ]

  -- For legal addresses, processes that may be named, permissions of 12 bits and spaces whose
  -- counts are right, when what is mapped at the source may be put into the target's space,
  -- `sys_mem_map` fails if nothing is mapped at the source, and otherwise puts that page into the
  -- target's space as `page_insert` does.
  pub sys_mem_map-Insertion :
      (held_src : ℕ → ℕ) (srcid srcva dstid dstva perm src dst : ℕ)
      → IsSpace held_src (env_pgdir src) s
      → IsSpace held (env_pgdir dst) s
      → is_illegal_va srcva ≡ false
      → is_illegal_va dstva ≡ false
      → envid2env k srcid true ≡ ok src
      → envid2env k dstid true ≡ ok dst
      → perm < 2 ^ 12
      → ((p : ℕ) → maps s (env_pgdir src) p (vpn srcva) ≡ true → IsInsertable s (env_pgdir dst) p)
      → ((sys_mem_map k env_pgdir s srcid srcva dstid dstva perm ≡ failed inval s)
          × ((p : ℕ) → maps s (env_pgdir src) p (vpn srcva) ≡ false))
        ⊎ ((p : ℕ) × (maps s (env_pgdir src) p (vpn srcva) ≡ true)
            × Insertion held s
                (env_pgdir dst)
                (vpn dstva)
                p
                (sys_mem_map k env_pgdir s srcid srcva dstid dstva perm))
  unfolding sys_mem_map
  sys_mem_map-Insertion held_src srcid srcva dstid dstva perm src dst ws wd legal_src legal_dst
        found_src found_dst bits ready =
      elim (page_lookup-Entry held_src s (env_pgdir src) srcva ws (legal_below srcva legal_src)) [
        | inl (looked, missing) ↦
            inl (rw (legal_src, legal_dst, found_src, found_dst, looked) refl, missing.nothing)
        | inr (p, q, looked, e) ↦ inr (
          p,
          e.here,
          rw (legal_src, legal_dst, found_src, found_dst, looked)
              (page_insert-Insertion held s (env_pgdir dst) p dstva perm wd (ready p e.here)
                (legal_below dstva legal_dst) bits),
        )
      ]
