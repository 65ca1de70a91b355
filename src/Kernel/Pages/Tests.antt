-- ===== src/Kernel/Pages/Tests.antt =====
-- Tests on a small memory: five pages, page 0 a directory, page 1 its table, page 2 mapped at
-- `utemp`, page 3 free, page 4 handed out.
use mos_enhanced_shell.Base.{
  ℕ, ◌≡◌, refl, ◌∙◌, ◌⊎◌, true, false, some, List, [], ◌∷◌, arith, ◌==◌, if◌then◌else◌, inl, inr,
}
use mos_enhanced_shell.Kernel.Result.{no_mem, inval, ok}
use mos_enhanced_shell.Kernel.Fallible.{Run, done, failed, panicked}
use mos_enhanced_shell.Kernel.User.{utemp, is_illegal_va}
use mos_enhanced_shell.Kernel.Env.{Kernel, Env, envid2env, runnable}
use mos_enhanced_shell.Kernel.Pages.{
  Pages, page_alloc, page_insert, page_lookup, page_remove, pgdir_walk, table_slot, install,
  set_word, set_ref, entry, table_entry,
}
use mos_enhanced_shell.Kernel.Pages.Count.{count-none}
use mos_enhanced_shell.Kernel.Pages.Space.{user_dirs, user_pages, tables, maps, IsSpace}
use mos_enhanced_shell.Kernel.Pages.Walk.{with_table, Tabled, with_table-Tabled}
use mos_enhanced_shell.Kernel.Pages.Place.{IsInsertable, Inserted, placed, placed-Inserted}
use mos_enhanced_shell.Kernel.Pages.Remove.{Removed, page_remove-Removed}
use mos_enhanced_shell.Kernel.Pages.Insert.{Insertion, page_insert-Insertion}
use mos_enhanced_shell.Kernel.Pages.Calls.{
  sys_mem_alloc, sys_mem_map, sys_mem_alloc-Fresh, sys_mem_map-Insertion, Fresh, Lost,
}

abbrev bare : Pages
bare = record {
  npage = 5;
  pp_ref = λ p. if p == 0 then 1 else 0;
  page_free_list = 1 ∷ 3 ∷ [];
  words = λ q j. 0;
}

-- The kernel holds the directory.
abbrev kernel_holds : ℕ → ℕ
kernel_holds p = if p == 0 then 1 else 0

bare-maps : (p v : ℕ) → maps bare 0 p v ≡ false
unfolding maps
bare-maps p v = refl

bare-tables : (q i : ℕ) → tables bare 0 q i ≡ false
unfolding tables
bare-tables q i = refl

bare-IsSpace : IsSpace kernel_holds 0 bare
bare-IsSpace = record {
  few = ground arith;
  counted = λ p. ground (
    arith,
    count-none user_pages (maps bare 0 p) (bare-maps p),
    count-none user_dirs (tables bare 0 p) (bare-tables p),
  );
  held_once = refl;
  directory = refl;
  tables_alone = λ i q h m. absurd (ground (arith, bare-tables q i));
  tables_inside = λ i q h m. absurd (ground (arith, bare-tables q i));
  inside = λ v p h m. absurd (ground (arith, bare-maps p v));
  free_once = λ p h. ground arith;
  free_unused = λ p h. ground arith;
  free_inside = λ p h. ground arith;
}

abbrev tabled : Pages
tabled = with_table bare 0 0 1 (3 ∷ [])

tabled-Tabled : Tabled kernel_holds bare 0 0 1 tabled
tabled-Tabled =
    with_table-Tabled kernel_holds bare 0 0 1 (3 ∷ []) bare-IsSpace (omega arith) refl refl

-- A page that is neither free nor used.
tabled-IsInsertable : (p : ℕ) → (p ≡ 2) ⊎ (p ≡ 4) → IsInsertable tabled 0 p
unfolding set_ref set_word
tabled-IsInsertable p here = record {
  small = ground arith;
  room = ground arith;
  unlisted = ground arith;
  apart = λ e. ground arith;
  no_table = λ i h. ground (arith, tabled-Tabled.other_tables i p, bare-tables p i);
}

abbrev mapped : Pages
mapped = placed tabled 1 1022 2 0

mapped-Inserted : Inserted kernel_holds tabled 0 1022 2 mapped
mapped-Inserted =
    placed-Inserted kernel_holds tabled 0 1022 1 2 0 tabled-Tabled.space
      (tabled-IsInsertable 2 (inl refl)) (ground arith) (ground arith) tabled-Tabled.new_table
      (λ p. tabled-Tabled.same_maps 1022 p (ground arith) ∙ bare-maps p 1022)

mapped-IsSpace : IsSpace kernel_holds 0 mapped
mapped-IsSpace = mapped-Inserted.space

mapped-tables : (q i : ℕ) → tables mapped 0 q i ≡ tables tabled 0 q i
unfolding set_ref set_word tables
mapped-tables q i = refl

mapped-IsInsertable : (p : ℕ) → (p ≡ 2) ⊎ (p ≡ 4) → IsInsertable mapped 0 p
unfolding set_ref set_word
mapped-IsInsertable p here = record {
  small = ground arith;
  room = ground arith;
  unlisted = ground arith;
  apart = λ e. ground arith;
  no_table = λ i h. mapped-tables p i ∙ (tabled-IsInsertable p here).no_table i h;
}

lookup_mapped : page_lookup mapped 0 utemp ≡ done (some (2, (1, 1022))) mapped
unfolding page_lookup pgdir_walk table_slot set_ref set_word entry table_entry
lookup_mapped = refl

-- A table that is made on the way takes a free page.
count_after : Run Pages (Unit {0}) → List ℕ
count_after (done _ t) = t.pp_ref 1 ∷ t.pp_ref 2 ∷ t.words 1 1022 ∷ []
count_after (failed e t) = []
count_after panicked = []

insert_bare : count_after (page_insert bare 0 2 utemp 0x400) ≡ 1 ∷ 1 ∷ 0x2680 ∷ []
unfolding count_after page_insert pgdir_walk page_alloc table_slot install set_ref set_word entry
    table_entry
insert_bare = refl

page_insert-Insertion_example :
    Insertion kernel_holds mapped 0 1022 4 (page_insert mapped 0 4 utemp 0x400)
page_insert-Insertion_example =
    page_insert-Insertion kernel_holds mapped 0 4 utemp 0x400 mapped-IsSpace
      (mapped-IsInsertable 4 (inr refl)) (omega arith) (omega arith)

page_remove-Removed_example :
    ((page_remove mapped 0 utemp ≡ done tt mapped) × ((p : ℕ) → maps mapped 0 p 1022 ≡ false))
    ⊎ ((pp : ℕ) × (t : Pages) × (page_remove mapped 0 utemp ≡ done tt t)
        × (maps mapped 0 pp 1022 ≡ true)
        × Removed kernel_holds mapped 0 1022 pp t)
page_remove-Removed_example =
    page_remove-Removed kernel_holds mapped 0 utemp mapped-IsSpace (omega arith)

-- Process 0 runs, and its directory is page 0.
abbrev process : Env
process = record {
  id = 2048;
  parent_id = 0;
  status = runnable;
  pri = 1;
  ipc_value = 0;
  ipc_from = 0;
  ipc_recving = false;
  ipc_dstva = 0;
  ipc_perm = 0;
  runs = 0;
  exit_status = 0;
}

abbrev kernel : Kernel
kernel = record { envs = λ i. process; curenv = 0; sched_list = 0 ∷ []; free_list = []; count = 1 }

abbrev pgdirs : ℕ → ℕ
pgdirs e = 0

self : envid2env kernel 0 true ≡ ok 0
unfolding envid2env
self = refl

legal : is_illegal_va utemp ≡ false
unfolding is_illegal_va
legal = refl

legal_next : is_illegal_va 0x3ff000 ≡ false
unfolding is_illegal_va
legal_next = refl

sys_mem_alloc-Fresh_example :
    ((r : ℕ) × (t : Pages) × (sys_mem_alloc kernel pgdirs mapped 0 0x3ff000 0x400 ≡ done tt t)
      × Fresh kernel_holds mapped 0 1023 r t)
    ⊎ (((sys_mem_alloc kernel pgdirs mapped 0 0x3ff000 0x400 ≡ failed no_mem mapped)
          × (mapped.page_free_list ≡ []))
        ⊎ ((r : ℕ) × (t : Pages) × (sys_mem_alloc kernel pgdirs mapped 0 0x3ff000 0x400
              ≡ failed no_mem t)
            × Lost kernel_holds mapped 0 r t))
sys_mem_alloc-Fresh_example =
    sys_mem_alloc-Fresh kernel_holds kernel pgdirs mapped 0 0x3ff000 0x400 0 mapped-IsSpace
      legal_next self (omega arith)

sys_mem_map-Insertion_example :
    ((sys_mem_map kernel pgdirs mapped 0 utemp 0 0x3ff000 0x400 ≡ failed inval mapped)
      × ((p : ℕ) → maps mapped 0 p 1022 ≡ false))
    ⊎ ((p : ℕ) × (maps mapped 0 p 1022 ≡ true)
        × Insertion kernel_holds mapped 0 1023 p
            (sys_mem_map kernel pgdirs mapped 0 utemp 0 0x3ff000 0x400))
sys_mem_map-Insertion_example =
    sys_mem_map-Insertion kernel_holds kernel pgdirs mapped kernel_holds 0 utemp 0 0x3ff000 0x400 0
      0 mapped-IsSpace mapped-IsSpace legal legal_next self self (omega arith)
      (λ p m.
        mapped-IsInsertable p (inl (ground (arith, mapped-Inserted.mapped 1022 p (omega arith)))))
