-- ===== src/Kernel/Pages/Remove.antt =====
-- What `page_lookup` and `page_remove` do to an address space.
use mos_enhanced_shell.Base.{
  ℕ, ◌+◌, ◌-◌, ◌/◌, ◌%◌, ◌<◌, ◌≡◌, ◌≢◌, refl, ◌∙◌, sym, ap, subst, ◌⊎◌, true, false, ◌&&◌, none,
  some, ◌∷◌, arith, ◌==◌, if◌then◌else◌, Bool-cases, inl, inr,
}
use mos_enhanced_shell.Kernel.Queue.{linked}
use mos_enhanced_shell.Kernel.Fallible.{done}
use mos_enhanced_shell.Kernel.User.{utop}
use mos_enhanced_shell.Kernel.Pages.{
  Pages, pdx, ppn, is_valid, set_word, set_ref, pgdir_walk, page_lookup, page_free, page_decref,
  page_remove,
}
use mos_enhanced_shell.Kernel.Pages.Count.{one_if, count-same, count-changed, count-some}
use mos_enhanced_shell.Kernel.Pages.Space.{
  user_dirs, user_pages, tables, maps, IsSpace, mapped_counted, table_not_mapped, not_free,
  maps-set_word, tables-set_word,
}
use mos_enhanced_shell.Kernel.Pages.Walk.{
  vpn, pdx-vpn, vpn-bound, pgdir_walk-present, pgdir_walk-absent,
}

-- The page at `va` and the place of its entry.
pub record Entry (s : Pages) (d va pp q : ℕ) : Type 0 where
  pub here : maps s d pp (vpn va) ≡ true
  pub only : (p : ℕ) → maps s d p (vpn va) ≡ (p == pp)
  pub table : tables s d q (vpn va / 1024) ≡ true
  pub walked : pgdir_walk s d va false ≡ done (some (q, vpn va % 1024)) s
  pub valid : is_valid (s.words q (vpn va % 1024)) ≡ true
  pub page : ppn (s.words q (vpn va % 1024)) ≡ pp

-- No page at `va`: there is no table, or its entry is not valid.
pub record Missing (s : Pages) (d va : ℕ) : Type 0 where
  pub nothing : (p : ℕ) → maps s d p (vpn va) ≡ false
  pub why :
      ((s.words d (pdx va) ≡ 0) × (pgdir_walk s d va false ≡ done none s))
      ⊎ ((q : ℕ) × (tables s d q (vpn va / 1024) ≡ true)
          × (s.words d (pdx va) ≢ 0)
          × (q ≡ ppn (s.words d (pdx va)))
          × (pgdir_walk s d va false ≡ done (some (q, vpn va % 1024)) s)
          × (is_valid (s.words q (vpn va % 1024)) ≡ false))

pub page_lookup-Entry :
    (held : ℕ → ℕ) (s : Pages) (d va : ℕ)
    → IsSpace held d s
    → va < utop
    → ((page_lookup s d va ≡ done none s) × Missing s d va)
      ⊎ ((pp : ℕ) × (q : ℕ) × (page_lookup s d va ≡ done (some (pp, (q, vpn va % 1024))) s)
          × Entry s d va pp q)
unfolding page_lookup maps tables
page_lookup-Entry held s d va w low =
    let row : s.words d (pdx va) ≡ s.words d (vpn va / 1024) = ap (s.words d) (pdx-vpn va low) in
    elim (Bool-cases (s.words d (pdx va) == 0)) [
      | inl empty ↦
          let walked = pgdir_walk-absent s d va (ground arith) in
          inl (
            rw walked refl,
            record { nothing = λ p. ground arith; why = inl (ground arith, walked) },
          )
      | inr there ↦
          let q : ℕ = ppn (s.words d (vpn va / 1024)) in
          let walked : pgdir_walk s d va false ≡ done (some (q, vpn va % 1024)) s =
            pgdir_walk-present held s d va false w low (ground arith)
            ∙ ap (λ x. done (some (ppn x, vpn va % 1024)) s) row in
          elim (Bool-cases (is_valid (s.words q (vpn va % 1024)))) [
            | inr invalid ↦ inl (
              rw walked (ground arith),
              record {
                nothing = λ p. ground arith;
                why = inr (q, ground arith, ground arith, ground arith, walked, invalid);
              },
            )
            | inl valid ↦
                let pp : ℕ = ppn (s.words q (vpn va % 1024)) in
                let held_here : maps s d pp (vpn va) ≡ true = ground arith in
                inr (
                  pp,
                  q,
                  rw walked (ground (arith, w.inside (vpn va) pp (vpn-bound va low) held_here)),
                  record {
                    here = held_here;
                    only = λ p. ground arith;
                    table = ground arith;
                    walked = walked;
                    valid = valid;
                    page = refl;
                  },
                )
          ]
    ]

-- The state after a reference to `pp` is dropped.
abbrev pub dropped : Pages → ℕ → Pages
dropped s pp = record s {
  pp_ref = λ p. if p == pp then s.pp_ref pp - 1 else s.pp_ref p;
  page_free_list = if s.pp_ref pp - 1 == 0 then pp ∷ s.page_free_list else s.page_free_list;
}

page_decref-dropped :
    (s : Pages) (pp : ℕ) → 0 < s.pp_ref pp → page_decref s pp ≡ done tt (dropped s pp)
unfolding page_decref page_free set_ref
page_decref-dropped s pp used = elim (Bool-cases (s.pp_ref pp - 1 == 0)) [
  | inl last ↦ ground arith
  | inr more ↦ ground arith
]

directory_not_mapped :
    (held : ℕ → ℕ) (d : ℕ) (s : Pages) (v p : ℕ)
    → IsSpace held d s
    → v < user_pages
    → maps s d p v ≡ true
    → p ≢ d
directory_not_mapped held d s v p w inside m e =
    let at : maps s d d v ≡ true = subst (λ x. maps s d x v ≡ true) e m in
    omega
      (arith, w.counted d, w.held_once, w.directory, count-some user_pages v (maps s d d) inside at)

-- What taking away the page `pp` at the virtual page `v` does.
pub record Removed (held : ℕ → ℕ) (s : Pages) (d v pp : ℕ) (t : Pages) : Type 0 where
  pub space : IsSpace held d t
  pub unmapped :
      (u p : ℕ) → u < user_pages → maps t d p u ≡ (if u == v then false else maps s d p u)
  pub same_tables : (i q : ℕ) → tables t d q i ≡ tables s d q i
  pub refs : (p : ℕ) → t.pp_ref p + one_if (p == pp) ≡ s.pp_ref p
  pub freed :
      (p : ℕ)
      → linked p t.page_free_list ≡ linked p s.page_free_list + one_if (p == pp && s.pp_ref pp == 1)
  pub same_size : t.npage ≡ s.npage

-- The state after the entry is cleared.
abbrev cleared : Pages → ℕ → ℕ → ℕ → Pages
cleared s pp q i = set_word (dropped s pp) q i 0

dropped-maps :
    (s : Pages) (d pp q i p v : ℕ) → maps (cleared s pp q i) d p v ≡ maps (set_word s q i 0) d p v
unfolding maps set_word
dropped-maps s d pp q i p v = refl

dropped-tables :
    (s : Pages) (d pp q i r j : ℕ)
    → tables (cleared s pp q i) d r j ≡ tables (set_word s q i 0) d r j
unfolding tables set_word
dropped-tables s d pp q i r j = refl

dropped-refs :
    (s : Pages) (pp p : ℕ)
    → 0 < s.pp_ref pp
    → (dropped s pp).pp_ref p + one_if (p == pp) ≡ s.pp_ref p
dropped-refs s pp p used = elim (Bool-cases (p == pp)) [
  | inl same ↦ let at : p ≡ pp = ground arith in ground (arith, ap s.pp_ref at)
  | inr other ↦ ground arith
]

dropped-freed :
    (s : Pages) (pp p : ℕ)
    → 0 < s.pp_ref pp
    → linked p (dropped s pp).page_free_list
      ≡ linked p s.page_free_list + one_if (p == pp && s.pp_ref pp == 1)
dropped-freed s pp p used = elim (Bool-cases (s.pp_ref pp - 1 == 0)) [
  | inl last ↦ ground arith
  | inr more ↦ ground arith
]

-- The free pages afterwards.
dropped-free :
    (held : ℕ → ℕ) (s : Pages) (d pp : ℕ)
    → IsSpace held d s
    → 0 < s.pp_ref pp
    → pp < s.npage
    → (p : ℕ) → 0 < linked p (dropped s pp).page_free_list
    → (linked p (dropped s pp).page_free_list ≡ 1) × ((dropped s pp).pp_ref p ≡ 0) × (p < s.npage)
dropped-free held s d pp w used small p h = elim (Bool-cases (p == pp)) [
  | inl same ↦
      let at : p ≡ pp = ground arith in
      let none_before : linked p s.page_free_list ≡ 0 =
        ap (λ x. linked x s.page_free_list) at ∙ not_free held d s w pp used in
      (
        ground (arith, dropped-freed s pp p used),
        ground (arith, dropped-freed s pp p used, dropped-refs s pp p used, ap s.pp_ref at),
        omega arith,
      )
  | inr other ↦
      let before : 0 < linked p s.page_free_list = ground (arith, dropped-freed s pp p used) in
      (
        ground (arith, dropped-freed s pp p used, w.free_once p before),
        ground (arith, w.free_unused p before),
        w.free_inside p before,
      )
]

cleared-Removed :
    (held : ℕ → ℕ) (s : Pages) (d va pp q : ℕ)
    → IsSpace held d s
    → va < utop
    → Entry s d va pp q
    → Removed held s d (vpn va) pp (cleared s pp q (vpn va % 1024))
unfolding set_word
cleared-Removed held s d va pp q w low e =
    let v : ℕ = vpn va in
    let t : Pages = cleared s pp q (v % 1024) in
    let inside : v < user_pages = vpn-bound va low in
    let used : 0 < s.pp_ref pp = mapped_counted held d s w v pp inside e.here in
    let new_maps : (u p : ℕ)
        → u < user_pages
        → maps t d p u ≡ (if u == v then false else maps s d p u) =
      λ u p h. ground (
        arith,
        dropped-maps s d pp q (v % 1024) p u,
        maps-set_word held d s w v q 0 inside e.table u p h,
      ) in
    let new_tables : (i r : ℕ) → tables t d r i ≡ tables s d r i = λ i r.
      dropped-tables s d pp q (v % 1024) r i
      ∙ tables-set_word held d s w (v / 1024) q (v % 1024) 0 (omega arith) e.table i r in
    let refs : (p : ℕ) → t.pp_ref p + one_if (p == pp) ≡ s.pp_ref p =
      λ p. dropped-refs s pp p used in
    let freed : (p : ℕ)
        → linked p t.page_free_list
          ≡ linked p s.page_free_list + one_if (p == pp && s.pp_ref pp == 1) =
      λ p. dropped-freed s pp p used in
    let not_listed : linked pp s.page_free_list ≡ 0 = not_free held d s w pp used in
    let free_page = dropped-free held s d pp w used (w.inside v pp inside e.here) in
    record {
      space = record {
        few = w.few;
        counted = λ p. ground (
          arith,
          refs p,
          w.counted p,
          e.only p,
          count-changed user_pages v (maps s d p) (maps t d p) inside
              (λ u h k. ground (arith, new_maps u p h)),
          new_maps v p inside,
          count-same user_dirs (tables s d p) (tables t d p) (λ i h. new_tables i p),
        );
        held_once = w.held_once;
        directory =
            ground (arith, refs d, w.directory, directory_not_mapped held d s v pp w inside e.here);
        tables_alone = λ i r h m.
            let before : tables s d r i ≡ true = sym (new_tables i r) ∙ m in
            let other : r ≢ pp = λ x. ground (
              arith,
              table_not_mapped held d s w i v r h inside before,
              ap (λ y. maps s d y v) x,
              e.here,
            ) in
            ground (arith, refs r, w.tables_alone i r h before);
        tables_inside = λ i r h m. w.tables_inside i r h (sym (new_tables i r) ∙ m);
        inside = λ u p h m. w.inside u p h (ground (arith, new_maps u p h));
        free_once = λ p h. (free_page p h).0;
        free_unused = λ p h. (free_page p h).1;
        free_inside = λ p h. (free_page p h).2;
      };
      unmapped = new_maps;
      same_tables = new_tables;
      refs = refs;
      freed = freed;
      same_size = refl;
    }

-- In a space whose counts are right and for a user address, `page_remove` does nothing when no
-- page is mapped there; otherwise it takes away that mapping of the user's part and no other,
-- drops one reference, frees the page exactly when that was the last one, and keeps the counts
-- right.
pub page_remove-Removed :
    (held : ℕ → ℕ) (s : Pages) (d va : ℕ)
    → IsSpace held d s
    → va < utop
    → ((page_remove s d va ≡ done tt s) × ((p : ℕ) → maps s d p (vpn va) ≡ false))
      ⊎ ((pp : ℕ) × (t : Pages) × (page_remove s d va ≡ done tt t)
          × (maps s d pp (vpn va) ≡ true)
          × Removed held s d (vpn va) pp t)
unfolding page_remove
page_remove-Removed held s d va w low = elim (page_lookup-Entry held s d va w low) [
  | inl (looked, missing) ↦ inl (rw looked refl, missing.nothing)
  | inr (pp, q, looked, e) ↦
      let used : 0 < s.pp_ref pp =
        mapped_counted held d s w (vpn va) pp (vpn-bound va low) e.here in
      inr (
        pp,
        cleared s pp q (vpn va % 1024),
        rw (looked, page_decref-dropped s pp used) refl,
        e.here,
        cleared-Removed held s d va pp q w low e,
      )
]
