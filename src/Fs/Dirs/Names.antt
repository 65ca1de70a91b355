-- ===== src/Fs/Dirs/Names.antt =====
-- The names of the files that `file_open` and `file_create` hand out.
use mos_enhanced_shell.Base.{
  ℕ, zero, suc, ◌+◌, ◌*◌, ◌<◌, ◌≡◌, ◌≢◌, refl, ◌∙◌, sym, ap, subst, inl, inr, ◌⊎◌, Option, none,
  some, List, [], ◌∷◌, arith, leb, ◌==◌, Bool-cases, Option-cases, length, text_eq, text_eq→eq,
}
use mos_enhanced_shell.Kernel.Result.{Error, not_found, file_exists}
use mos_enhanced_shell.Kernel.Fallible.{
  Run, done, failed, and_then, and_then-done, done-state, done-value,
}
use mos_enhanced_shell.Path.Split.{split}
use mos_enhanced_shell.Fs.Disk.{Disk}
use mos_enhanced_shell.Fs.Blocks.{file_get_block}
use mos_enhanced_shell.Fs.Dirs.{
  Place, Server, Found, found, missing, maxnamelen, ftype_dir, file2blk, file_words, s_root,
  get_file, find_name, set_dir, lookup_from, dir_lookup, nblock, walk_path, file_open, file_create,
  put_name, dir_alloc_file, at_place, with_disk,
}
use mos_enhanced_shell.Fs.Dirs.Packed.{AllBytes, get_file-put_name}
use mos_enhanced_shell.Fs.Dirs.Reached.{Reached, last_lookup-cases, walk_names-Reached}
use mos_enhanced_shell.Fs.Dirs.Walk.{walk_names, walk_path-names}

-- The last name.
abbrev pub last : List (List ℕ) → List ℕ
last [] = []
last (x ∷ names) = elim names as (λ y. List ℕ) [ [] ↦ x | _ ↦ last names ]

-- The file at `p` has this name, and it was found in `dir`.
abbrev pub Named : Server → List ℕ → Option Place → Place → Type 0
Named s name dir p = ((get_file s.disk p).f_name ≡ name) × (s.f_dir p.0 p.1 ≡ dir)

find_name-some :
    (n k j : ℕ) (d : Disk) (b : ℕ) (name : List ℕ)
    → find_name n k d b name ≡ some j
    → (get_file d (b, file_words * j)).f_name ≡ name
unfolding find_name
find_name-some zero k j d b name h = cc
find_name-some (suc n) k j d b name h =
    elim (Bool-cases (text_eq name (get_file d (b, file_words * k)).f_name)) [
      | inl here ↦
          let at : k ≡ j = ground arith in
          ap (λ x. (get_file d (b, file_words * x)).f_name) (sym at)
          ∙ sym (text_eq→eq name (get_file d (b, file_words * k)).f_name here)
      | inr on ↦ find_name-some n (k + 1) j d b name (ground arith)
    ]

set_dir-Named :
    (s : Server) (p dir : Place) (name : List ℕ)
    → (get_file s.disk p).f_name ≡ name
    → Named (set_dir s p dir) name (some dir) p
unfolding set_dir
set_dir-Named s (b, o) dir name h = (h, ground arith)

module _ (mem_alloc : ℕ → Option Error) where
  lookup_from-Named :
      (n i : ℕ) (s t : Server) (dir p : Place) (name : List ℕ)
      → lookup_from mem_alloc n i s dir name ≡ done p t
      → Named t name (some dir) p
  unfolding lookup_from
  lookup_from-Named zero i s t dir p name h = cc
  lookup_from-Named (suc n) i s t dir p name h =
      let (blk, u, got, rest) =
        and_then-done (at_place s dir (λ f. file_get_block mem_alloc f i)) _ p t h in
      elim (Option-cases (find_name file2blk 0 u.disk blk name)) [
        | inl none_here ↦ lookup_from-Named n (i + 1) u t dir p name (rw none_here at rest)
        | inr (k, here) ↦
            let ended : done (blk, file_words * k) (set_dir u (blk, file_words * k) dir)
                ≡ done p t =
              rw here at rest in
            let at : (blk, file_words * k) ≡ p = done-value _ p _ t ended in
            let end : set_dir u (blk, file_words * k) dir ≡ t = done-state _ p _ t ended in
            let named =
              set_dir-Named u (blk, file_words * k) dir name
                (find_name-some file2blk 0 k u.disk blk name here) in
            subst (λ x. Named t name (some dir) x) at
              (subst (λ x. Named x name (some dir) (blk, file_words * k)) end named)
      ]

  dir_lookup-Named :
      (s t : Server) (dir p : Place) (name : List ℕ)
      → dir_lookup mem_alloc s dir name ≡ done p t
      → Named t name (some dir) p
  unfolding dir_lookup
  dir_lookup-Named s t dir p name h = lookup_from-Named (nblock s dir) 0 s t dir p name h

  -- What the walk says of what it finds.
  abbrev pub Told : List (List ℕ) → Place → Option Place → Found → Server → Type 0
  Told names file dir (found d p) t =
      ((names ≡ []) × (p ≡ file) × (d ≡ dir))
      ⊎ ((x : Place) × (d ≡ some x) × Named t (last names) (some x) p)
  Told names file dir (missing d name) t = (name ≡ last names) × (length (last names) < maxnamelen)

  later :
      (name x : List ℕ) (names : List (List ℕ)) (w : Found) (t : Server) (dir : Option Place)
      (file next : Place)
      → Told (x ∷ names) next (some file) w t
      → Told (name ∷ (x ∷ names)) file dir w t
  later name x names (found d p) t dir file next (inl (end, _, _)) = cc
  later name x names (found d p) t dir file next (inr named) = inr named
  later name x names (missing d y) t dir file next same = same

  walk_names-Told :
      (names : List (List ℕ)) (s t : Server) (dir : Option Place) (file : Place) (w : Found)
      → walk_names mem_alloc s dir file names ≡ done w t
      → Told names file dir w t
  walk_names-Told [] s t dir file w h =
      let here : found dir file ≡ w = done-value _ w _ t h in
      subst (λ x. Told [] file dir x t) here (inl (refl, refl, refl))
  walk_names-Told (name ∷ []) s t dir file w h = elim (Bool-cases (leb maxnamelen (length name))) [
    | inl long ↦ absurd (ground arith)
    | inr fits ↦ elim (Bool-cases ((get_file s.disk file).f_type == ftype_dir)) [
      | inr plain ↦ absurd (ground arith)
      | inl is_dir ↦
          elim (last_lookup-cases file name (dir_lookup mem_alloc s file name) w t
            (rw (fits, is_dir) at h)) [
              | inr absent ↦
                  subst (λ x. Told (name ∷ []) file dir x t) (sym absent) (refl, ground arith)
              | inl (p, looked, here) ↦
                  subst (λ x. Told (name ∷ []) file dir x t) (sym here)
                    (inr (file, refl, dir_lookup-Named s t file p name looked))
            ]
    ]
  ]
  walk_names-Told (name ∷ (x ∷ names)) s t dir file w h =
      elim (Bool-cases (leb maxnamelen (length name))) [
        | inl long ↦ absurd (ground arith)
        | inr fits ↦ elim (Bool-cases ((get_file s.disk file).f_type == ftype_dir)) [
          | inr plain ↦ absurd (ground arith)
          | inl is_dir ↦
              let (next, u, looked, rest) =
                and_then-done (dir_lookup mem_alloc s file name)
                  (λ y v. walk_names mem_alloc v (some file) y (x ∷ names)) w t
                  (rw (fits, is_dir) at h) in
              later name x names w t dir file next
                (walk_names-Told (x ∷ names) u t (some file) next w rest)
        ]
      ]

  no_dir :
      (s u : Server) (d : Option Place) (q dir : Place)
      → walk_names mem_alloc s none s_root [] ≡ done (found d q) u
      → d ≢ some dir
  no_dir s u d q dir h e = cc

  opened :
      (w : Found) (s u t : Server) (p : Place) (path : List ℕ)
      → walk_names mem_alloc s none s_root (split path) ≡ done w u
      → Told (split path) s_root none w u
      → elim w as (λ x. Run Server Place) [
        | found dir file ↦ done file u
        | missing dir name ↦ failed not_found u
      ]
        ≡ done p t
      → ((split path ≡ []) × (p ≡ s_root))
        ⊎ ((dir : Place) × Named t (last (split path)) (some dir) p
            × Reached mem_alloc s none s_root (split path) dir)
  opened (found d q) s u t p path walked (inl (end, same, _)) h =
      inl (end, sym (done-value q p u t h) ∙ same)
  opened (found d q) s u t p path walked (inr (dir, is_dir, named)) h =
      elim (walk_names-Reached mem_alloc (split path) s u none d s_root q walked) [
        | inl nothing ↦ absurd (no_dir s u d q dir (rw nothing at walked) is_dir)
        | inr (x, is_x, reached) ↦
            let same : x ≡ dir = cc (is_x, is_dir) in
            inr (
              dir,
              subst (λ y. Named t (last (split path)) (some dir) y) (done-value q p u t h)
                  (subst (λ y. Named y (last (split path)) (some dir) q) (done-state q p u t h)
                    named),
              subst (Reached mem_alloc s none s_root (split path)) same reached,
            )
      ]
  opened (missing d name) s u t p path walked told h = cc

  -- When `file_open` succeeds, the path has no name and the file is the root, or the file has the
  -- last name of the path, and the directory that is recorded for it is the one at which a walk
  -- over the other names arrives.
  pub file_open-Named :
      (s t : Server) (path : List ℕ) (p : Place)
      → file_open mem_alloc s path ≡ done p t
      → ((split path ≡ []) × (p ≡ s_root))
        ⊎ ((dir : Place) × Named t (last (split path)) (some dir) p
            × Reached mem_alloc s none s_root (split path) dir)
  unfolding file_open
  file_open-Named s t path p h =
      let (w, u, walked, rest) = and_then-done (walk_path mem_alloc s path) _ p t h in
      let named = sym (walk_path-names mem_alloc path s) ∙ walked in
      opened w s u t p path named (walk_names-Told (split path) s u none s_root w named) rest

  created :
      (w : Found) (u t : Server) (f : Place) (path : List ℕ)
      → Told (split path) s_root none w u
      → AllBytes (last (split path))
      → elim w as (λ x. Run Server Place) [
        | found dir file ↦ failed file_exists u
        | missing dir name ↦
            and_then
              (dir_alloc_file mem_alloc u dir)
              λ g v. done g (with_disk v (put_name v.disk g name))
      ]
        ≡ done f t
      → (get_file t.disk f).f_name ≡ last (split path)
  created (found d p) u t f path told bytes h = cc
  created (missing dir name) u t f path (same, short) bytes h =
      let (g, v, alloc, rest) =
        and_then-done (dir_alloc_file mem_alloc u dir)
          (λ g v. done g (with_disk v (put_name v.disk g name))) f t h in
      let end : with_disk v (put_name v.disk g name) ≡ t = done-state g f _ t rest in
      let here : g ≡ f = done-value g f _ t rest in
      let named = get_file-put_name v.disk g (last (split path)) bytes short in
      subst (λ x. (get_file t.disk x).f_name ≡ last (split path)) here
        (subst (λ x. (get_file x.disk g).f_name ≡ last (split path)) end
          (subst (λ x. (get_file (put_name v.disk g x) g).f_name ≡ last (split path)) (sym same)
            named))

  -- When `file_create` succeeds and the last name of the path has bytes from 1 to 255, the new
  -- entry, read from its packed words, has that name.
  pub file_create-last :
      (s t : Server) (path : List ℕ) (f : Place)
      → AllBytes (last (split path))
      → file_create mem_alloc s path ≡ done f t
      → (get_file t.disk f).f_name ≡ last (split path)
  unfolding file_create
  file_create-last s t path f bytes h =
      let (w, u, walked, rest) = and_then-done (walk_path mem_alloc s path) _ f t h in
      created w u t f path
        (walk_names-Told (split path) s u none s_root w
          (sym (walk_path-names mem_alloc path s) ∙ walked))
        bytes rest
