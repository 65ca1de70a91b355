-- ===== src/Kernel/Pages/Place.antt =====
-- Writing an entry of an address space for a page.
use mos_enhanced_shell.Base.{
  ℕ, ◌+◌, ◌/◌, ◌%◌, ◌^◌, ◌<◌, ◌≡◌, ◌≢◌, refl, ◌∙◌, sym, ap, true, false, arith, ◌==◌, if◌then◌else◌,
  Bool-cases, inl, inr,
}
use mos_enhanced_shell.Kernel.Queue.{linked}
use mos_enhanced_shell.Kernel.Pages.{Pages, ppn, entry, set_word, set_ref}
use mos_enhanced_shell.Kernel.Pages.Digits.{entry-ppn, entry-is_valid}
use mos_enhanced_shell.Kernel.Pages.Count.{one_if, count-same, count-changed}
use mos_enhanced_shell.Kernel.Pages.Space.{
  user_dirs, user_pages, tables, maps, IsSpace, maps-set_word, tables-set_word,
}

-- A page that can be put into the space: it exists, it is not free, not a table or a directory, and
-- its count has room for one more.
pub record IsInsertable (s : Pages) (d pp : ℕ) : Type 0 where
  pub small : pp < s.npage
  pub room : s.pp_ref pp < 65535
  pub unlisted : linked pp s.page_free_list ≡ 0
  pub apart : pp ≢ d
  pub no_table : (i : ℕ) → i < user_dirs → tables s d pp i ≡ false

-- What putting the page `pp` at the virtual page `v` does.
pub record Inserted (held : ℕ → ℕ) (s : Pages) (d v pp : ℕ) (t : Pages) : Type 0 where
  pub space : IsSpace held d t
  pub mapped :
      (u p : ℕ) → u < user_pages → maps t d p u ≡ (if u == v then p == pp else maps s d p u)
  pub ref : t.pp_ref pp + one_if (maps s d pp v) ≡ s.pp_ref pp + 1
  pub same_size : t.npage ≡ s.npage

-- Writing an entry for `pp`.
entry-maps :
    (held : ℕ → ℕ) (s : Pages) (d v q pp perm : ℕ)
    → IsSpace held d s
    → v < user_pages
    → tables s d q (v / 1024) ≡ true
    → pp < s.npage
    → perm < 2 ^ 12
    → (u p : ℕ) → u < user_pages
    → maps (set_word s q (v % 1024) (entry pp perm)) d p u
      ≡ (if u == v then p == pp else maps s d p u)
entry-maps held s d v q pp perm w inside table small bits u p h =
    let word = entry pp perm in
    let page : ppn word ≡ pp = entry-ppn pp perm (omega (arith, w.few)) bits in
    ground (arith, maps-set_word held d s w v q word inside table u p h, entry-is_valid pp perm)

abbrev pub placed : Pages → ℕ → ℕ → ℕ → ℕ → Pages
placed s q i pp perm = set_ref (set_word s q i (entry pp perm)) pp ((s.pp_ref pp + 1) % 2 ^ 16)

placed-refs :
    (s : Pages) (q i pp perm p : ℕ)
    → s.pp_ref pp < 65535
    → (placed s q i pp perm).pp_ref p ≡ s.pp_ref p + one_if (p == pp)
unfolding set_ref set_word
placed-refs s q i pp perm p room = elim (Bool-cases (p == pp)) [
  | inl same ↦ let at : p ≡ pp = ground arith in ground (arith, ap s.pp_ref at)
  | inr other ↦ ground arith
]

placed-maps :
    (s : Pages) (d q i pp perm p u : ℕ)
    → maps (placed s q i pp perm) d p u ≡ maps (set_word s q i (entry pp perm)) d p u
unfolding maps set_ref
placed-maps s d q i pp perm p u = refl

placed-tables :
    (s : Pages) (d q i pp perm r j : ℕ)
    → tables (placed s q i pp perm) d r j ≡ tables (set_word s q i (entry pp perm)) d r j
unfolding tables set_ref
placed-tables s d q i pp perm r j = refl

pub placed-Inserted :
    (held : ℕ → ℕ) (s : Pages) (d v q pp perm : ℕ)
    → IsSpace held d s
    → IsInsertable s d pp
    → v < user_pages
    → perm < 2 ^ 12
    → tables s d q (v / 1024) ≡ true
    → ((p : ℕ) → maps s d p v ≡ false)
    → Inserted held s d v pp (placed s q (v % 1024) pp perm)
unfolding set_ref set_word
placed-Inserted held s d v q pp perm w k inside bits table nothing =
    let t : Pages = placed s q (v % 1024) pp perm in
    let new_maps : (u p : ℕ)
        → u < user_pages
        → maps t d p u ≡ (if u == v then p == pp else maps s d p u) =
      λ u p h.
        placed-maps s d q (v % 1024) pp perm p u
        ∙ entry-maps held s d v q pp perm w inside table k.small bits u p h in
    let new_tables : (i r : ℕ) → tables t d r i ≡ tables s d r i = λ i r.
      placed-tables s d q (v % 1024) pp perm r i
      ∙ tables-set_word held d s w (v / 1024) q (v % 1024) (entry pp perm) (omega arith) table i
          r in
    let refs : (p : ℕ) → t.pp_ref p ≡ s.pp_ref p + one_if (p == pp) =
      λ p. placed-refs s q (v % 1024) pp perm p k.room in
    record {
      space = record {
        few = w.few;
        counted = λ p. ground (
          arith,
          refs p,
          w.counted p,
          nothing p,
          count-changed user_pages v (maps s d p) (maps t d p) inside
              (λ u h x. ground (arith, new_maps u p h)),
          new_maps v p inside,
          count-same user_dirs (tables s d p) (tables t d p) (λ i h. new_tables i p),
        );
        held_once = w.held_once;
        directory = ground (arith, refs d, w.directory, k.apart);
        tables_alone = λ i r h m.
            let before : tables s d r i ≡ true = sym (new_tables i r) ∙ m in
            let other : r ≢ pp = λ x. ground (arith, k.no_table i h, ap (λ y. tables s d y i) x) in
            ground (arith, refs r, w.tables_alone i r h before);
        tables_inside = λ i r h m. w.tables_inside i r h (sym (new_tables i r) ∙ m);
        inside = λ u p h m. ground (arith, new_maps u p h, w.inside u p h, k.small);
        free_once = w.free_once;
        free_unused = λ p h.
            let other : p ≢ pp =
              λ x. ground (arith, k.unlisted, ap (λ y. linked y s.page_free_list) x) in
            ground (arith, refs p, w.free_unused p h);
        free_inside = w.free_inside;
      };
      mapped = new_maps;
      ref = ground (arith, refs pp, nothing pp);
      same_size = refl;
    }

-- The entry of a page that is there already is written again.
pub again-Inserted :
    (held : ℕ → ℕ) (s : Pages) (d v q pp perm : ℕ)
    → IsSpace held d s
    → pp < s.npage
    → v < user_pages
    → perm < 2 ^ 12
    → tables s d q (v / 1024) ≡ true
    → ((p : ℕ) → maps s d p v ≡ (p == pp))
    → Inserted held s d v pp (set_word s q (v % 1024) (entry pp perm))
unfolding set_word
again-Inserted held s d v q pp perm w small inside bits table here =
    let t : Pages = set_word s q (v % 1024) (entry pp perm) in
    let new_maps : (u p : ℕ)
        → u < user_pages
        → maps t d p u ≡ (if u == v then p == pp else maps s d p u) =
      entry-maps held s d v q pp perm w inside table small bits in
    let new_tables : (i r : ℕ) → tables t d r i ≡ tables s d r i = λ i r.
      tables-set_word held d s w (v / 1024) q (v % 1024) (entry pp perm) (omega arith) table i r in
    let same_maps : (u p : ℕ) → u < user_pages → maps t d p u ≡ maps s d p u = λ u p h.
      elim (Bool-cases (u == v)) [
        | inl at ↦
            let same : u ≡ v = ground arith in
            ground (arith, new_maps u p h, here p, ap (maps s d p) same)
        | inr other ↦ ground (arith, new_maps u p h)
      ] in
    record {
      space = record {
        few = w.few;
        counted = λ p. ground (
          arith,
          w.counted p,
          count-same user_pages (maps s d p) (maps t d p) (λ u h. same_maps u p h),
          count-same user_dirs (tables s d p) (tables t d p) (λ i h. new_tables i p),
        );
        held_once = w.held_once;
        directory = w.directory;
        tables_alone = λ i r h m. w.tables_alone i r h (sym (new_tables i r) ∙ m);
        tables_inside = λ i r h m. w.tables_inside i r h (sym (new_tables i r) ∙ m);
        inside = λ u p h m. w.inside u p h (sym (same_maps u p h) ∙ m);
        free_once = w.free_once;
        free_unused = w.free_unused;
        free_inside = w.free_inside;
      };
      mapped = new_maps;
      ref = ground (arith, here pp);
      same_size = refl;
    }
