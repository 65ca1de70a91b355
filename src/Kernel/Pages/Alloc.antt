-- ===== src/Kernel/Pages/Alloc.antt =====
-- What `page_alloc` hands out, and the pages that `page_init` leaves.
use mos_enhanced_shell.Base.{
  List-cases, ℕ, zero, suc, ◌+◌, ◌-◌, ◌/◌, ◌≤◌, ◌<◌, ◌≡◌, ◌≢◌, refl, ◌∙◌, sym, ap, ◌⊎◌, ◌&&◌, List,
  [], ◌∷◌, arith, ltb, leb, ◌==◌, Bool-cases, inl, inr,
}
use mos_enhanced_shell.Kernel.Queue.{linked}
use mos_enhanced_shell.Kernel.Result.{no_mem}
use mos_enhanced_shell.Kernel.Fallible.{done, failed}
use mos_enhanced_shell.Kernel.Pages.{Pages, ppn, page_alloc, insert_pages, page_init}
use mos_enhanced_shell.Kernel.Pages.Count.{one_if, count-same}
use mos_enhanced_shell.Kernel.Pages.Space.{user_dirs, user_pages, tables, maps, IsSpace}
use mos_enhanced_shell.Kernel.Pages.Walk.{taken, page_alloc-first}
use mos_enhanced_shell.Kernel.Pages.Place.{IsInsertable}

-- The page `r` is handed out: it was free, it is all zeros, and it can be put into the space.
pub record Handed (held : ℕ → ℕ) (s : Pages) (d r : ℕ) (t : Pages) : Type 0 where
  pub space : IsSpace held d t
  pub was_free : linked r s.page_free_list ≡ 1
  pub zeros : (i : ℕ) → t.words r i ≡ 0
  pub unused : t.pp_ref r ≡ 0
  pub insertable : IsInsertable t d r
  pub same_maps : (v p : ℕ) → v < user_pages → maps t d p v ≡ maps s d p v
  pub same_tables : (i q : ℕ) → tables t d q i ≡ tables s d q i
  pub fewer : (p : ℕ) → linked p t.page_free_list + one_if (p == r) ≡ linked p s.page_free_list
  pub same_refs : (p : ℕ) → t.pp_ref p ≡ s.pp_ref p

tables-taken :
    (s : Pages) (d r : ℕ) (rest : List ℕ) (i q : ℕ)
    → r ≢ d
    → tables (taken s r rest) d q i ≡ tables s d q i
unfolding tables
tables-taken s d r rest i q apart = ground arith

maps-taken :
    (held : ℕ → ℕ) (s : Pages) (d r : ℕ) (rest : List ℕ)
    → IsSpace held d s
    → r ≢ d
    → s.pp_ref r ≡ 0
    → (v p : ℕ) → v < user_pages
    → maps (taken s r rest) d p v ≡ maps s d p v
unfolding maps tables
maps-taken held s d r rest w apart unused v p h =
    let q : ℕ = ppn (s.words d (v / 1024)) in
    ground (arith, w.tables_alone (v / 1024) q (omega arith))

taken-Handed :
    (held : ℕ → ℕ) (s : Pages) (d r : ℕ) (rest : List ℕ)
    → IsSpace held d s
    → s.page_free_list ≡ r ∷ rest
    → Handed held s d r (taken s r rest)
taken-Handed held s d r rest w free =
    let t : Pages = taken s r rest in
    let listed : (p : ℕ) → linked p s.page_free_list ≡ one_if (r == p) + linked p rest =
      λ p. rw free refl in
    let first : 0 < linked r s.page_free_list = ground (arith, listed r) in
    let unused : s.pp_ref r ≡ 0 = w.free_unused r first in
    let apart : r ≢ d = λ e. ground (arith, ap s.pp_ref e, w.directory) in
    let new_maps = maps-taken held s d r rest w apart unused in
    let new_tables : (i q : ℕ) → tables t d q i ≡ tables s d q i =
      λ i q. tables-taken s d r rest i q apart in
    let before : (p : ℕ) → 0 < linked p rest → 0 < linked p s.page_free_list =
      λ p h. omega (arith, listed p) in
    record {
      space = record {
        few = w.few;
        counted = λ p. ground (
          arith,
          w.counted p,
          count-same user_pages (maps s d p) (maps t d p) (λ u h. new_maps u p h),
          count-same user_dirs (tables s d p) (tables t d p) (λ i h. new_tables i p),
        );
        held_once = w.held_once;
        directory = w.directory;
        tables_alone = λ i q h m. w.tables_alone i q h (sym (new_tables i q) ∙ m);
        tables_inside = λ i q h m. w.tables_inside i q h (sym (new_tables i q) ∙ m);
        inside = λ v p h m. w.inside v p h (sym (new_maps v p h) ∙ m);
        free_once = λ p h. ground (arith, listed p, w.free_once p (before p h));
        free_unused = λ p h. w.free_unused p (before p h);
        free_inside = λ p h. w.free_inside p (before p h);
      };
      was_free = w.free_once r first;
      zeros = λ i. ground arith;
      unused = unused;
      insertable = record {
        small = w.free_inside r first;
        room = ground arith;
        unlisted = ground (arith, listed r, w.free_once r first);
        apart = apart;
        no_table = λ i h. elim (Bool-cases (tables t d r i)) [
          | inl table ↦ absurd (ground (arith, w.tables_alone i r h (sym (new_tables i r) ∙ table)))
          | inr none_here ↦ none_here
        ];
      };
      same_maps = new_maps;
      same_tables = new_tables;
      fewer = λ p. ground (arith, listed p);
      same_refs = λ p. refl;
    }

-- Allocating a page.
pub page_alloc-Handed :
    (held : ℕ → ℕ) (s : Pages) (d : ℕ)
    → IsSpace held d s
    → ((page_alloc s ≡ failed no_mem s) × (s.page_free_list ≡ []))
      ⊎ ((r : ℕ) × (t : Pages) × (page_alloc s ≡ done r t) × Handed held s d r t)
page_alloc-Handed held s d w = elim (List-cases s.page_free_list) [
  | inl none_free ↦ inl (unfold page_alloc in rw none_free refl, none_free)
  | inr (r, rest, free) ↦
      inr (r, taken s r rest, page_alloc-first s r rest free, taken-Handed held s d r rest w free)
]

linked-insert_pages :
    (n i p : ℕ) (free : List ℕ)
    → linked p (insert_pages n i free) ≡ one_if (leb i p && ltb p (i + n)) + linked p free
unfolding insert_pages
linked-insert_pages zero i p free = ground arith
linked-insert_pages (suc n) i p free = ground (arith, linked-insert_pages n (i + 1) p (i ∷ free))

-- When the kernel has started with `size` of its pages in use, every page has one reference or is
-- once in the list of free pages, and not both.
pub page_init-free :
    (npage size p : ℕ) (words : ℕ → ℕ → ℕ)
    → size ≤ npage
    → p < npage
    → (page_init npage size words).pp_ref p + linked p (page_init npage size words).page_free_list
      ≡ 1
unfolding page_init
page_init-free npage size p words h k = ground (arith, linked-insert_pages (npage - size) size p [])
