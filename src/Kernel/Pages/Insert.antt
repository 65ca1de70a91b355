-- ===== src/Kernel/Pages/Insert.antt =====
-- What `page_insert` does to an address space.
use mos_enhanced_shell.Base.{
  List-cases, ℕ, ◌/◌, ◌%◌, ◌^◌, ◌<◌, ◌≡◌, ◌≢◌, refl, ◌∙◌, sym, ap, subst, ◌⊎◌, true, false, List,
  [], ◌∷◌, arith, ◌==◌, Bool-cases, inl, inr,
}
use mos_enhanced_shell.Kernel.Queue.{linked}
use mos_enhanced_shell.Kernel.Result.{no_mem}
use mos_enhanced_shell.Kernel.Fallible.{Run, done, failed, and_then}
use mos_enhanced_shell.Kernel.User.{utop}
use mos_enhanced_shell.Kernel.Pages.{
  Pages, pdx, ppn, entry, set_word, page_remove, install, page_insert,
}
use mos_enhanced_shell.Kernel.Pages.Space.{user_pages, tables, maps, IsSpace}
use mos_enhanced_shell.Kernel.Pages.Walk.{
  vpn, pdx-vpn, vpn-bound, pgdir_walk-present, pgdir_walk-full, pgdir_walk-create, with_table,
  Tabled, with_table-Tabled, tables-empty,
}
use mos_enhanced_shell.Kernel.Pages.Remove.{Entry, page_lookup-Entry, Removed, page_remove-Removed}
use mos_enhanced_shell.Kernel.Pages.Place.{
  IsInsertable, Inserted, placed, placed-Inserted, again-Inserted,
}

-- A page that can be put in still can be after a table is made.
Tabled-IsInsertable :
    (held : ℕ → ℕ) (s t : Pages) (d i r pp : ℕ)
    → 0 < linked r s.page_free_list
    → Tabled held s d i r t
    → IsInsertable s d pp
    → IsInsertable t d pp
Tabled-IsInsertable held s t d i r pp listed made k =
    let other : pp ≢ r = λ x. ground (arith, k.unlisted, ap (λ y. linked y s.page_free_list) x) in
    record {
      small = ground (arith, k.small, made.same_size);
      room = ground (arith, k.room, made.refs pp);
      unlisted = ground (arith, k.unlisted, made.fewer pp);
      apart = k.apart;
      no_table = λ j h. ground (arith, made.other_tables j pp, k.no_table j h);
    }

Tabled-Inserted :
    (held : ℕ → ℕ) (s t u : Pages) (d i r v pp : ℕ)
    → pp ≢ r
    → v < user_pages
    → Tabled held s d i r t
    → Inserted held t d v pp u
    → Inserted held s d v pp u
Tabled-Inserted held s t u d i r v pp other inside made n = record {
  space = n.space;
  mapped = λ x p h. ground (arith, n.mapped x p h, made.same_maps x p h);
  ref = ground (arith, n.ref, made.same_maps v pp inside, made.refs pp);
  same_size = n.same_size ∙ made.same_size;
}

-- What `install` and `page_insert` may do: put the page in, or fail because there is no free page
-- for a table, and change nothing.
abbrev pub Insertion : (ℕ → ℕ) → Pages → ℕ → ℕ → ℕ → Run Pages (Unit {0}) → Type 0
Insertion held s d v pp r =
    ((t : Pages) × (r ≡ done tt t) × Inserted held s d v pp t)
    ⊎ ((r ≡ failed no_mem s)
        × (s.page_free_list ≡ [])
        × ((q : ℕ) → tables s d q (v / 1024) ≡ false))

install-there :
    (held : ℕ → ℕ) (s : Pages) (d pp va perm : ℕ)
    → IsSpace held d s
    → IsInsertable s d pp
    → va < utop
    → perm < 2 ^ 12
    → s.words d (pdx va) ≢ 0
    → ((p : ℕ) → maps s d p (vpn va) ≡ false)
    → (t : Pages) × (install s d pp va perm ≡ done tt t) × Inserted held s d (vpn va) pp t
unfolding install set_word tables
install-there held s d pp va perm w k low bits there nothing =
    let q : ℕ = ppn (s.words d (pdx va)) in
    let row : s.words d (pdx va) ≡ s.words d (vpn va / 1024) = ap (s.words d) (pdx-vpn va low) in
    let table : tables s d q (vpn va / 1024) ≡ true = ground arith in
    (
      placed s q (vpn va % 1024) pp perm,
      rw (pgdir_walk-present held s d va true w low there) refl,
      placed-Inserted held s d (vpn va) q pp perm w k (vpn-bound va low) bits table nothing,
    )

install-new :
    (held : ℕ → ℕ) (s : Pages) (d pp va perm r : ℕ) (rest : List ℕ)
    → IsSpace held d s
    → IsInsertable s d pp
    → va < utop
    → perm < 2 ^ 12
    → s.words d (pdx va) ≡ 0
    → s.page_free_list ≡ r ∷ rest
    → ((p : ℕ) → maps s d p (vpn va) ≡ false)
    → (t : Pages) × (install s d pp va perm ≡ done tt t) × Inserted held s d (vpn va) pp t
unfolding install set_word
install-new held s d pp va perm r rest w k low bits empty free nothing =
    let v : ℕ = vpn va in
    let at : pdx va ≡ v / 1024 = pdx-vpn va low in
    let listed : 0 < linked r s.page_free_list = rw free (ground arith) in
    let small : r < s.npage = w.free_inside r listed in
    let t : Pages = with_table s d (pdx va) r rest in
    let made : Tabled held s d (pdx va) r t =
      with_table-Tabled held s d (pdx va) r rest w (omega arith) empty free in
    let table : tables t d r (v / 1024) ≡ true =
      subst (λ i. tables t d r i ≡ true) at made.new_table in
    let other : pp ≢ r = λ x. ground (arith, k.unlisted, ap (λ y. linked y s.page_free_list) x) in
    let n =
      placed-Inserted held t d v r pp perm made.space
        (Tabled-IsInsertable held s t d (pdx va) r pp listed made k) (vpn-bound va low) bits table
        (λ p. made.same_maps v p (vpn-bound va low) ∙ nothing p) in
    (
      placed t r (v % 1024) pp perm,
      rw (pgdir_walk-create s d va r rest empty free small (omega (arith, w.few))) refl,
      Tabled-Inserted held s t (placed t r (v % 1024) pp perm) d (pdx va) r v pp other
          (vpn-bound va low) made n,
    )

pub install-Insertion :
    (held : ℕ → ℕ) (s : Pages) (d pp va perm : ℕ)
    → IsSpace held d s
    → IsInsertable s d pp
    → va < utop
    → perm < 2 ^ 12
    → ((p : ℕ) → maps s d p (vpn va) ≡ false)
    → Insertion held s d (vpn va) pp (install s d pp va perm)
install-Insertion held s d pp va perm w k low bits nothing =
    elim (Bool-cases (s.words d (pdx va) == 0)) [
      | inr there ↦ inl (install-there held s d pp va perm w k low bits (ground arith) nothing)
      | inl empty ↦ elim (List-cases s.page_free_list) [
        | inr (r, rest, free) ↦
            inl (install-new held s d pp va perm r rest w k low bits (ground arith) free nothing)
        | inl none_free ↦
            let row : s.words d (vpn va / 1024) ≡ 0 =
              ap (s.words d) (sym (pdx-vpn va low)) ∙ ground arith in
            let walked = pgdir_walk-full s d va (ground arith) none_free in
            inr (
              unfold install in rw walked refl,
              none_free,
              λ q. tables-empty s d (vpn va / 1024) q row,
            )
      ]
    ]

-- A page that can be put in still can after another page is taken away.
Removed-IsInsertable :
    (held : ℕ → ℕ) (s t : Pages) (d v pp other : ℕ)
    → other ≢ pp
    → Removed held s d v other t
    → IsInsertable s d pp
    → IsInsertable t d pp
Removed-IsInsertable held s t d v pp other apart gone k = record {
  small = ground (arith, k.small, gone.same_size);
  room = ground (arith, k.room, gone.refs pp);
  unlisted = ground (arith, k.unlisted, gone.freed pp);
  apart = k.apart;
  no_table = λ j h. gone.same_tables j pp ∙ k.no_table j h;
}

Removed-Inserted :
    (held : ℕ → ℕ) (s t u : Pages) (d v pp other : ℕ)
    → other ≢ pp
    → v < user_pages
    → maps s d pp v ≡ false
    → Removed held s d v other t
    → Inserted held t d v pp u
    → Inserted held s d v pp u
Removed-Inserted held s t u d v pp other apart inside before gone n = record {
  space = n.space;
  mapped = λ x p h. ground (arith, n.mapped x p h, gone.unmapped x p h);
  ref = ground (arith, n.ref, gone.unmapped v pp inside, gone.refs pp);
  same_size = n.same_size ∙ gone.same_size;
}

-- The page at `va` is another one: it is taken away first, and there is a table.
replace-Insertion :
    (held : ℕ → ℕ) (s : Pages) (d pp va perm other q : ℕ)
    → IsSpace held d s
    → IsInsertable s d pp
    → va < utop
    → perm < 2 ^ 12
    → Entry s d va other q
    → other ≢ pp
    → Insertion held s d (vpn va) pp (and_then (page_remove s d va) λ _ u. install u d pp va perm)
replace-Insertion held s d pp va perm other q w k low bits e apart =
    elim (page_remove-Removed held s d va w low) [
      | inl (removed, nothing) ↦ absurd (ground (arith, nothing other, e.here))
      | inr (p, t, removed, here, gone) ↦
          let same : p ≡ other = ground (arith, e.only p) in
          let at : Removed held s d (vpn va) other t =
            subst (λ x. Removed held s d (vpn va) x t) same gone in
          let inside : vpn va < user_pages = vpn-bound va low in
          elim (install-Insertion held t d pp va perm at.space
            (Removed-IsInsertable held s t d (vpn va) pp other apart at k) low bits
            (λ x. ground (arith, at.unmapped (vpn va) x inside))) [
              | inl (u, ran, n) ↦ inl (
                u,
                rw removed ran,
                Removed-Inserted held s t u d (vpn va) pp other apart inside
                    (ground (arith, e.only pp)) at n,
              )
              | inr (ran, none_free, no_tables) ↦
                  absurd (ground (arith, no_tables q, at.same_tables (vpn va / 1024) q, e.table))
            ]
    ]

-- In a space whose counts are right (every page has as many references as there are entries for it
-- here and elsewhere, and a free page has none), for a page that exists, is not free, is not a
-- table or a directory and has room in its count, a user address and permissions of 12 bits,
-- `page_insert` maps the page there, changes no other mapping of the user's part, counts the new
-- reference and keeps the counts right, or, when there is neither a table nor a free page, fails
-- and changes nothing.
pub page_insert-Insertion :
    (held : ℕ → ℕ) (s : Pages) (d pp va perm : ℕ)
    → IsSpace held d s
    → IsInsertable s d pp
    → va < utop
    → perm < 2 ^ 12
    → Insertion held s d (vpn va) pp (page_insert s d pp va perm)
unfolding page_insert
page_insert-Insertion held s d pp va perm w k low bits =
    elim (page_lookup-Entry held s d va w low) [
      | inl (looked, missing) ↦
          let put = install-Insertion held s d pp va perm w k low bits missing.nothing in
          elim missing.why [
            | inl (empty, walked) ↦ rw walked put
            | inr (q, table, there, at, walked, invalid) ↦ rw (walked, invalid) put
          ]
      | inr (other, q, looked, e) ↦ elim (Bool-cases (other == pp)) [
        | inl same ↦ inl (
          set_word s q (vpn va % 1024) (entry pp perm),
          rw (e.walked, e.valid, e.page) (ground (arith, k.small)),
          again-Inserted held s d (vpn va) q pp perm w k.small (vpn-bound va low) bits e.table
              (λ p. ground (arith, e.only p)),
        )
        | inr apart ↦
            let inside : other < s.npage = w.inside (vpn va) other (vpn-bound va low) e.here in
            let step : page_insert s d pp va perm
                ≡ and_then (page_remove s d va) (λ _ u. install u d pp va perm) =
              rw (e.walked, e.valid, e.page) (ground arith) in
            subst (Insertion held s d (vpn va) pp) (sym step)
              (replace-Insertion held s d pp va perm other q w k low bits e (ground arith))
      ]
    ]
