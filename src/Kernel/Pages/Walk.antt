-- ===== src/Kernel/Pages/Walk.antt =====
-- Walking the directory of an address space, with a new table where there is none.
use mos_enhanced_shell.Base.{
  ℕ, ◌+◌, ◌/◌, ◌%◌, ◌^◌, ◌<◌, ◌≡◌, ◌≢◌, refl, ◌∙◌, sym, ap, Bool, true, false, none, some, List, [],
  ◌∷◌, arith, ◌==◌, if◌then◌else◌, Bool-cases, inl, inr,
}
use mos_enhanced_shell.Kernel.Queue.{linked}
use mos_enhanced_shell.Kernel.Result.{no_mem}
use mos_enhanced_shell.Kernel.Fallible.{done, failed}
use mos_enhanced_shell.Kernel.User.{utop}
use mos_enhanced_shell.Kernel.Pages.{
  Pages, pdx, ptx, ppn, set_word, set_ref, table_entry, page_alloc, table_slot, pgdir_walk,
}
use mos_enhanced_shell.Kernel.Pages.Digits.{table_entry-ppn, table_entry-some}
use mos_enhanced_shell.Kernel.Pages.Count.{one_if, count-same, count-changed}
use mos_enhanced_shell.Kernel.Pages.Space.{
  user_dirs, user_pages, tables, maps, IsSpace, table_not_directory,
}

-- The virtual page of an address.
abbrev pub vpn : ℕ → ℕ
vpn va = va / 2 ^ 12

pub pdx-vpn : (va : ℕ) → va < utop → pdx va ≡ vpn va / 1024
pdx-vpn va h = omega arith

pub ptx-vpn : (va : ℕ) → ptx va ≡ vpn va % 1024
ptx-vpn va = refl

pub vpn-bound : (va : ℕ) → va < utop → vpn va < user_pages
vpn-bound va h = omega arith

-- The state after `page_alloc`.
abbrev pub taken : Pages → ℕ → List ℕ → Pages
taken s r rest = record s {
  page_free_list = rest;
  words = λ q j. if q == r then 0 else s.words q j;
}

-- The state after a table is made.
abbrev pub with_table : Pages → ℕ → ℕ → ℕ → List ℕ → Pages
with_table s d i r rest =
    set_ref (set_word (taken s r rest) d i (table_entry r)) r ((s.pp_ref r + 1) % 2 ^ 16)

pub pgdir_walk-present :
    (held : ℕ → ℕ) (s : Pages) (d va : ℕ) (create : Bool)
    → IsSpace held d s
    → va < utop
    → s.words d (pdx va) ≢ 0
    → pgdir_walk s d va create ≡ done (some (ppn (s.words d (pdx va)), ptx va)) s
unfolding pgdir_walk table_slot tables
pgdir_walk-present held s d va create w low there =
    ground (arith, w.tables_inside (pdx va) (ppn (s.words d (pdx va))) (omega arith))

pub pgdir_walk-absent :
    (s : Pages) (d va : ℕ) → s.words d (pdx va) ≡ 0 → pgdir_walk s d va false ≡ done none s
unfolding pgdir_walk
pgdir_walk-absent s d va empty = ground arith

pub pgdir_walk-full :
    (s : Pages) (d va : ℕ)
    → s.words d (pdx va) ≡ 0
    → s.page_free_list ≡ []
    → pgdir_walk s d va true ≡ failed no_mem s
unfolding pgdir_walk page_alloc
pgdir_walk-full s d va empty none_free = rw empty (rw none_free refl)

pub page_alloc-first :
    (s : Pages) (r : ℕ) (rest : List ℕ)
    → s.page_free_list ≡ r ∷ rest
    → page_alloc s ≡ done r (taken s r rest)
unfolding page_alloc
page_alloc-first s r rest free = rw free refl

pub pgdir_walk-create :
    (s : Pages) (d va r : ℕ) (rest : List ℕ)
    → s.words d (pdx va) ≡ 0
    → s.page_free_list ≡ r ∷ rest
    → r < s.npage
    → r < 2 ^ 20
    → pgdir_walk s d va true ≡ done (some (r, ptx va)) (with_table s d (pdx va) r rest)
unfolding pgdir_walk table_slot set_ref set_word
pgdir_walk-create s d va r rest empty free inside small =
    rw (empty, page_alloc-first s r rest free) (ground (arith, table_entry-ppn r small))

-- What making a table does.
pub record Tabled (held : ℕ → ℕ) (s : Pages) (d i r : ℕ) (t : Pages) : Type 0 where
  pub space : IsSpace held d t
  pub same_maps : (v p : ℕ) → v < user_pages → maps t d p v ≡ maps s d p v
  pub new_table : tables t d r i ≡ true
  pub other_tables : (j q : ℕ) → tables t d q j ≡ (if j == i then q == r else tables s d q j)
  pub refs : (p : ℕ) → t.pp_ref p ≡ s.pp_ref p + one_if (p == r)
  pub fewer : (p : ℕ) → linked p t.page_free_list + one_if (p == r) ≡ linked p s.page_free_list
  pub same_size : t.npage ≡ s.npage

tables-with_table :
    (s : Pages) (d i r : ℕ) (rest : List ℕ)
    → r ≢ d
    → r < 2 ^ 20
    → (j q : ℕ)
    → tables (with_table s d i r rest) d q j ≡ (if j == i then q == r else tables s d q j)
unfolding tables set_word set_ref
tables-with_table s d i r rest apart small j q =
    ground (arith, table_entry-ppn r small, table_entry-some r)

maps-with_table :
    (held : ℕ → ℕ) (s : Pages) (d i r : ℕ) (rest : List ℕ)
    → IsSpace held d s
    → r ≢ d
    → r < 2 ^ 20
    → s.pp_ref r ≡ 0
    → s.words d i ≡ 0
    → (v p : ℕ) → v < user_pages
    → maps (with_table s d i r rest) d p v ≡ maps s d p v
unfolding maps set_word set_ref tables
maps-with_table held s d i r rest w apart small unused empty v p h =
    elim (Bool-cases (v / 1024 == i)) [
      | inl here ↦
          let at : v / 1024 ≡ i = ground arith in
          ground (arith, ap (s.words d) at, table_entry-ppn r small)
      | inr other ↦
          let q : ℕ = ppn (s.words d (v / 1024)) in
          ground (
            arith,
            w.tables_alone (v / 1024) q (omega arith),
            table_not_directory held d s w (v / 1024) q (omega arith),
          )
    ]

pub tables-empty : (s : Pages) (d i q : ℕ) → s.words d i ≡ 0 → tables s d q i ≡ false
unfolding tables
tables-empty s d i q empty = ground arith

-- A table is made from a free page.
pub with_table-Tabled :
    (held : ℕ → ℕ) (s : Pages) (d i r : ℕ) (rest : List ℕ)
    → IsSpace held d s
    → i < user_dirs
    → s.words d i ≡ 0
    → s.page_free_list ≡ r ∷ rest
    → Tabled held s d i r (with_table s d i r rest)
unfolding set_ref set_word
with_table-Tabled held s d i r rest w inside empty free =
    let t : Pages = with_table s d i r rest in
    let listed : (p : ℕ) → linked p s.page_free_list ≡ one_if (r == p) + linked p rest =
      λ p. rw free refl in
    let first : 0 < linked r s.page_free_list = ground (arith, listed r) in
    let unused : s.pp_ref r ≡ 0 = w.free_unused r first in
    let small : r < 2 ^ 20 = omega (arith, w.free_inside r first, w.few) in
    let apart : r ≢ d = λ e. ground (arith, ap s.pp_ref e, w.directory) in
    let new_tables = tables-with_table s d i r rest apart small in
    let new_maps = maps-with_table held s d i r rest w apart small unused empty in
    let refs : (p : ℕ) → t.pp_ref p ≡ s.pp_ref p + one_if (p == r) = λ p.
      elim (Bool-cases (p == r)) [
        | inl same ↦ let at : p ≡ r = ground arith in ground (arith, ap s.pp_ref at)
        | inr other ↦ ground arith
      ] in
    let fewer : (p : ℕ) → linked p rest + one_if (p == r) ≡ linked p s.page_free_list =
      λ p. ground (arith, listed p) in
    record {
      space = record {
        few = w.few;
        counted = λ p. ground (
          arith,
          refs p,
          w.counted p,
          count-same user_pages (maps s d p) (maps t d p) (λ v h. new_maps v p h),
          count-changed user_dirs i (tables s d p) (tables t d p) inside
              (λ j h k. ground (arith, new_tables j p)),
          new_tables i p,
          tables-empty s d i p empty,
        );
        held_once = w.held_once;
        directory = ground (arith, refs d, w.directory);
        tables_alone = λ j q h m. elim (Bool-cases (j == i)) [
          | inl here ↦
              let at : q ≡ r = ground (arith, new_tables j q) in
              ground (arith, refs q, ap s.pp_ref at)
          | inr there ↦
              let before : tables s d q j ≡ true = ground (arith, new_tables j q) in
              let one : s.pp_ref q ≡ 1 = w.tables_alone j q h before in
              let other : q ≢ r = λ e. ground (arith, ap s.pp_ref e) in ground (arith, refs q)
        ];
        tables_inside = λ j q h m. elim (Bool-cases (j == i)) [
          | inl here ↦ ground (arith, new_tables j q, w.free_inside r first)
          | inr there ↦ w.tables_inside j q h (ground (arith, new_tables j q))
        ];
        inside = λ v p h m. w.inside v p h (sym (new_maps v p h) ∙ m);
        free_once = λ p h. ground (arith, fewer p, w.free_once p);
        free_unused = λ p h. ground (arith, fewer p, refs p, w.free_unused p, w.free_once p);
        free_inside = λ p h. w.free_inside p (omega (arith, fewer p));
      };
      same_maps = new_maps;
      new_table = ground (arith, new_tables i r);
      other_tables = new_tables;
      refs = refs;
      fewer = fewer;
      same_size = refl;
    }
