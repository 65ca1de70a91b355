-- ===== src/Fs/Dirs/Reached.antt =====
-- Where a walk over the names of a path but the last arrives.
use mos_enhanced_shell.Base.{
  ℕ, true, false, ◌≡◌, refl, ◌∙◌, inl, inr, ◌⊎◌, Option, some, List, [], ◌∷◌, arith, leb, ◌==◌,
  Bool-cases, length,
}
use mos_enhanced_shell.Kernel.Result.{Error, not_found}
use mos_enhanced_shell.Kernel.Fallible.{Run, done, failed, panicked, and_then-done}
use mos_enhanced_shell.Fs.Dirs.{
  Place, Server, Found, found, missing, maxnamelen, ftype_dir, get_file, dir_lookup, last_lookup,
}
use mos_enhanced_shell.Fs.Dirs.Walk.{walk_names}

-- The names but the last.
abbrev pub init : List (List ℕ) → List (List ℕ)
init [] = []
init (x ∷ names) = elim names as (λ y. List (List ℕ)) [ [] ↦ [] | _ ↦ x ∷ init names ]

pub last_lookup-cases :
    (dir : Place) (name : List ℕ) (r : Run Server Place) (w : Found) (t : Server)
    → last_lookup dir name r ≡ done w t
    → ((p : Place) × (r ≡ done p t) × (w ≡ found (some dir) p)) ⊎ (w ≡ missing dir name)
unfolding last_lookup
last_lookup-cases dir name (done p u) w t h = inl (p, ground arith, ground arith)
last_lookup-cases dir name (failed e u) w t h =
    elim e
        as (λ x.
          last_lookup dir name (failed x u) ≡ done w t
          → ((p : Place) × (failed e u ≡ done p t) × (w ≡ found (some dir) p))
            ⊎ (w ≡ missing dir name)) [
              | not_found ↦ λ k. inr (ground arith)
              | _ ↦ λ k. absurd (ground arith)
            ]
      h
last_lookup-cases dir name panicked w t h = cc

module _ (mem_alloc : ℕ → Option Error) where
  -- The walk over the names but the last arrives at `x`.
  abbrev pub Reached : Server → Option Place → Place → List (List ℕ) → Place → Type 0
  Reached s dir file names x =
      (v : Server) × (e : Option Place) × (walk_names mem_alloc s dir file (init names)
        ≡ done (found e x) v)

  -- A first name that is found.
  walk_names-step :
      (s u : Server) (dir : Option Place) (file next : Place) (name : List ℕ)
      (names : List (List ℕ))
      → leb maxnamelen (length name) ≡ false
      → (get_file s.disk file).f_type == ftype_dir ≡ true
      → dir_lookup mem_alloc s file name ≡ done next u
      → walk_names mem_alloc s dir file (name ∷ names)
        ≡ walk_names mem_alloc u (some file) next names
  walk_names-step s u dir file next name [] fits is_dir looked =
      rw (fits, is_dir, looked) (unfold last_lookup in refl)
  walk_names-step s u dir file next name (x ∷ names) fits is_dir looked =
      rw (fits, is_dir, looked) refl

  pub walk_names-Reached :
      (names : List (List ℕ)) (s t : Server) (dir d : Option Place) (file p : Place)
      → walk_names mem_alloc s dir file names ≡ done (found d p) t
      → (names ≡ []) ⊎ ((x : Place) × (d ≡ some x) × Reached s dir file names x)
  walk_names-Reached [] s t dir d file p h = inl refl
  walk_names-Reached (name ∷ []) s t dir d file p h =
      elim (Bool-cases (leb maxnamelen (length name))) [
        | inl long ↦ absurd (ground arith)
        | inr fits ↦ elim (Bool-cases ((get_file s.disk file).f_type == ftype_dir)) [
          | inr plain ↦ absurd (ground arith)
          | inl is_dir ↦
              elim (last_lookup-cases file name (dir_lookup mem_alloc s file name) (found d p) t
                (rw (fits, is_dir) at h)) [
                  | inr absent ↦ absurd (ground arith)
                  | inl (q, looked, here) ↦ inr (file, ground arith, (s, dir, refl))
                ]
        ]
      ]
  walk_names-Reached (name ∷ (x ∷ names)) s t dir d file p h =
      elim (Bool-cases (leb maxnamelen (length name))) [
        | inl long ↦ absurd (ground arith)
        | inr fits ↦ elim (Bool-cases ((get_file s.disk file).f_type == ftype_dir)) [
          | inr plain ↦ absurd (ground arith)
          | inl is_dir ↦
              let (next, u, looked, rest) =
                and_then-done (dir_lookup mem_alloc s file name)
                  (λ y v. walk_names mem_alloc v (some file) y (x ∷ names)) (found d p) t
                  (rw (fits, is_dir) at h) in
              elim (walk_names-Reached (x ∷ names) u t (some file) d next p rest) [
                | inl nothing ↦ cc
                | inr (y, same, (v, e, walked)) ↦ inr (
                  y,
                  same,
                  (
                    v,
                    e,
                    walk_names-step s u dir file next name (init (x ∷ names)) fits is_dir looked
                        ∙ walked,
                  ),
                )
              ]
        ]
      ]
