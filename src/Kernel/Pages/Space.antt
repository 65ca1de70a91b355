-- ===== src/Kernel/Pages/Space.antt =====
-- An address space as a relation between virtual and physical pages, and the invariant that ties it
-- to the reference counts and the list of free pages.
use mos_enhanced_shell.Base.{
  ℕ, ◌+◌, ◌/◌, ◌%◌, ◌^◌, ◌≤◌, ◌<◌, ◌≡◌, ◌≢◌, ap, subst, Bool, true, false, ◌&&◌, not, arith, ltb,
  ◌==◌, if◌then◌else◌, Bool-cases, inl, inr,
}
use mos_enhanced_shell.Kernel.Queue.{linked}
use mos_enhanced_shell.Kernel.Pages.{Pages, ppn, is_valid, set_word}
use mos_enhanced_shell.Kernel.Pages.Count.{count, count-some, count-two}

-- Below `UTOP`: the entries of the directory, and the pages.
abbrev pub user_dirs : ℕ
user_dirs = 509

abbrev pub user_pages : ℕ
user_pages = 521216

-- Entry `i` of the directory `d` leads to the table `q`.
unfoldable pub tables : Pages → ℕ → ℕ → ℕ → Bool
tables s d q i = not (s.words d i == 0) && ppn (s.words d i) == q

-- The virtual page `v` is the page `p`.
unfoldable pub maps : Pages → ℕ → ℕ → ℕ → Bool
maps s d p v =
    not (s.words d (v / 1024) == 0)
    && (is_valid (s.words (ppn (s.words d (v / 1024))) (v % 1024))
        && ppn (s.words (ppn (s.words d (v / 1024))) (v % 1024)) == p)

-- The space of the directory `d`, where `held p` counts the references to `p` from elsewhere: from
-- other spaces, and from the kernel, which holds the directory.
pub record IsSpace (held : ℕ → ℕ) (d : ℕ) (s : Pages) : Type 0 where
  pub few : s.npage ≤ 2 ^ 20
  pub counted :
      (p : ℕ) → s.pp_ref p ≡ count user_pages (maps s d p) + count user_dirs (tables s d p) + held p
  pub held_once : held d ≡ 1
  pub directory : s.pp_ref d ≡ 1
  pub tables_alone : (i q : ℕ) → i < user_dirs → tables s d q i ≡ true → s.pp_ref q ≡ 1
  pub tables_inside : (i q : ℕ) → i < user_dirs → tables s d q i ≡ true → q < s.npage
  pub inside : (v p : ℕ) → v < user_pages → maps s d p v ≡ true → p < s.npage
  pub free_once : (p : ℕ) → 0 < linked p s.page_free_list → linked p s.page_free_list ≡ 1
  pub free_unused : (p : ℕ) → 0 < linked p s.page_free_list → s.pp_ref p ≡ 0
  pub free_inside : (p : ℕ) → 0 < linked p s.page_free_list → p < s.npage

module _ (held : ℕ → ℕ) (d : ℕ) (s : Pages) (w : IsSpace held d s) where
  pub mapped_counted : (v p : ℕ) → v < user_pages → maps s d p v ≡ true → 0 < s.pp_ref p
  mapped_counted v p h m = omega (arith, w.counted p, count-some user_pages v (maps s d p) h m)

  pub table_not_directory : (i q : ℕ) → i < user_dirs → tables s d q i ≡ true → q ≢ d
  table_not_directory i q h m e =
      let at : tables s d d i ≡ true = subst (λ x. tables s d x i ≡ true) e m in
      omega
        (arith, w.counted d, w.held_once, w.directory, count-some user_dirs i (tables s d d) h at)

  pub tables_distinct :
      (i j q : ℕ)
      → i < user_dirs
      → j < user_dirs
      → i ≢ j
      → tables s d q i ≡ true
      → tables s d q j ≡ false
  tables_distinct i j q hi hj other m = elim (Bool-cases (tables s d q j)) [
    | inr absent ↦ absent
    | inl present ↦ absurd (
        omega (
          arith,
          w.counted q,
          w.tables_alone i q hi m,
          count-two user_dirs i j (tables s d q) hi hj other m present,
        ))
  ]

  pub table_not_mapped :
      (i v q : ℕ) → i < user_dirs → v < user_pages → tables s d q i ≡ true → maps s d q v ≡ false
  table_not_mapped i v q hi hv m = elim (Bool-cases (maps s d q v)) [
    | inr absent ↦ absent
    | inl present ↦ absurd (
        omega (
          arith,
          w.counted q,
          w.tables_alone i q hi m,
          count-some user_dirs i (tables s d q) hi m,
          count-some user_pages v (maps s d q) hv present,
        ))
  ]

  pub not_free : (p : ℕ) → 0 < s.pp_ref p → linked p s.page_free_list ≡ 0
  not_free p h = elim (Bool-cases (ltb 0 (linked p s.page_free_list))) [
    | inl free ↦ absurd (ground (arith, w.free_unused p))
    | inr used ↦ ground arith
  ]

same_row :
    (s : Pages) (d q v0 v p x : ℕ)
    → q ≢ d
    → v / 1024 ≡ v0 / 1024
    → s.words d (v / 1024) ≡ s.words d (v0 / 1024)
    → tables s d q (v0 / 1024) ≡ true
    → maps (set_word s q (v0 % 1024) x) d p v
      ≡ (if v == v0 then is_valid x && ppn x == p else maps s d p v)
unfolding maps tables set_word
same_row s d q v0 v p x here at row table = elim (Bool-cases (v == v0)) [
  | inl same ↦ ground arith
  | inr other ↦ let apart : v % 1024 ≢ v0 % 1024 = λ e. ground arith in ground arith
]

-- Writing an entry of a table of the space.
pub maps-set_word :
    (held : ℕ → ℕ) (d : ℕ) (s : Pages)
    → IsSpace held d s
    → (v0 q x : ℕ) → v0 < user_pages
    → tables s d q (v0 / 1024) ≡ true
    → (v p : ℕ) → v < user_pages
    → maps (set_word s q (v0 % 1024) x) d p v
      ≡ (if v == v0 then is_valid x && ppn x == p else maps s d p v)
unfolding maps tables set_word
maps-set_word held d s w v0 q x inside table v p h =
    let here = table_not_directory held d s w (v0 / 1024) q (omega arith) table in
    elim (Bool-cases (v / 1024 == v0 / 1024)) [
      | inl same ↦
          let at : v / 1024 ≡ v0 / 1024 = ground arith in
          let row : s.words d (v / 1024) ≡ s.words d (v0 / 1024) = ap (s.words d) at in
          same_row s d q v0 v p x here at row table
      | inr other ↦ ground (
        arith,
        tables_distinct held d s w (v0 / 1024) (v / 1024) q (omega arith) (omega arith)
            (ground arith) table,
      )
    ]

pub tables-set_word :
    (held : ℕ → ℕ) (d : ℕ) (s : Pages)
    → IsSpace held d s
    → (i0 q k x : ℕ) → i0 < user_dirs
    → tables s d q i0 ≡ true
    → (i r : ℕ) → tables (set_word s q k x) d r i ≡ tables s d r i
unfolding tables set_word
tables-set_word held d s w i0 q k x inside table i r =
    let here = table_not_directory held d s w i0 q inside table in ground arith
