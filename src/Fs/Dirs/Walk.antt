-- ===== src/Fs/Dirs/Walk.antt =====
-- `walk_path` as a walk over the components of the path.
use mos_enhanced_shell.Base.{
  ℕ, zero, suc, ◌≤◌, ◌<◌, ◌≡◌, refl, ◌∙◌, sym, ap, subst, inl, inr, false, not, Option, none, some,
  List, [], ◌∷◌, arith, leb, ◌==◌, if◌then◌else◌, List-cases, length, take, drop,
}
use mos_enhanced_shell.Kernel.Result.{Error, not_found, bad_path}
use mos_enhanced_shell.Kernel.Fallible.{Run, done, failed, panicked, and_then}
use mos_enhanced_shell.Path.{skip_slashes, comp_len, slash}
use mos_enhanced_shell.Path.Split.{
  split, split-nil, split-skip_slashes, split-cons, length-drop-comp_len, length-take-comp_len,
  skip_slashes-head, length-skip_slashes,
}
use mos_enhanced_shell.Fs.Dirs.{
  Place, Server, Found, found, maxnamelen, ftype_dir, s_root, get_file, dir_lookup, last_lookup,
  walk_from, walk_path,
}

and_then-same :
    {S A B : Type 0} (r : Run S A) (f g : A → S → Run S B)
    → ((a : A) (s : S) → f a s ≡ g a s)
    → and_then r f ≡ and_then r g
and_then-same (done a s) f g same = same a s
and_then-same (failed e s) f g same = refl
and_then-same panicked f g same = refl

module _ (mem_alloc : ℕ → Option Error) where
  -- The walk from `file`, which lies in `dir`, over the names that are left: a name has to fit, the
  -- file must be a directory, and the name is looked up in it.
  abbrev pub walk_names : Server → Option Place → Place → List (List ℕ) → Run Server Found
  walk_names s dir file [] = done (found dir file) s
  walk_names s dir file (name ∷ names) =
      if leb maxnamelen (length name)
      then failed bad_path s
      else if not ((get_file s.disk file).f_type == ftype_dir)
      then failed not_found s
      else elim names [
        | [] ↦ last_lookup file name (dir_lookup mem_alloc s file name)
        | _ ↦
            and_then (dir_lookup mem_alloc s file name)
              λ next t. walk_names t (some file) next names
      ]

  -- What follows a name, by the text that is left and by the names that are left.
  abbrev text_tail : ℕ → Server → Place → List ℕ → List ℕ → Run Server Found
  text_tail n s file name [] = last_lookup file name (dir_lookup mem_alloc s file name)
  text_tail n s file name (x ∷ xs) =
      and_then (dir_lookup mem_alloc s file name)
        λ next t. walk_from mem_alloc n t (some file) next (x ∷ xs)

  abbrev list_tail : Server → Place → List ℕ → List (List ℕ) → Run Server Found
  list_tail s file name names = elim names as (λ x. Run Server Found) [
    | [] ↦ last_lookup file name (dir_lookup mem_alloc s file name)
    | _ ↦ and_then (dir_lookup mem_alloc s file name) λ next t. walk_names t (some file) next names
  ]

  names_tail :
      (n : ℕ) (r : List ℕ) (s : Server) (file : Place) (name : List ℕ)
      → ((next : Place) (t : Server)
          → walk_from mem_alloc n t (some file) next (skip_slashes r)
            ≡ walk_names t (some file) next (split r))
      → text_tail n s file name (skip_slashes r) ≡ list_tail s file name (split r)
  names_tail n r s file name same = elim (List-cases (skip_slashes r)) [
    | inl end ↦
        let none_left : split r ≡ [] = sym (split-skip_slashes r) ∙ (ap split end ∙ split-nil) in
        rw (end, none_left) refl
    | inr (c, q, more) ↦
        let on : (c == slash) ≡ false = skip_slashes-head r c q more in
        let names : split r
            ≡ take (comp_len (c ∷ q)) (c ∷ q) ∷ split (drop (comp_len (c ∷ q)) (c ∷ q)) =
          sym (split-skip_slashes r) ∙ (ap split more ∙ split-cons c q on) in
        rw (more, names)
          (and_then-same (dir_lookup mem_alloc s file name) _ _
            (λ next t. rw (more, names) at same next t))
  ]

  walk_from-names :
      (n : ℕ) (p : List ℕ) (s : Server) (dir : Option Place) (file : Place)
      → length p < n
      → walk_from mem_alloc n s dir file (skip_slashes p) ≡ walk_names s dir file (split p)
  unfolding walk_from
  walk_from-names zero p s dir file h = absurd (omega arith)
  walk_from-names (suc n) p s dir file h = elim (List-cases (skip_slashes p)) [
    | inl end ↦
        let none_left : split p ≡ [] = sym (split-skip_slashes p) ∙ (ap split end ∙ split-nil) in
        rw (end, none_left) refl
    | inr (c, q, next) ↦
        let on : (c == slash) ≡ false = skip_slashes-head p c q next in
        let names : split p
            ≡ take (comp_len (c ∷ q)) (c ∷ q) ∷ split (drop (comp_len (c ∷ q)) (c ∷ q)) =
          sym (split-skip_slashes p) ∙ (ap split next ∙ split-cons c q on) in
        let less : length (c ∷ q) ≤ length p =
          subst (λ x. length x ≤ length p) next (length-skip_slashes p) in
        let r : List ℕ = drop (comp_len (c ∷ q)) (c ∷ q) in
        let shorter : length r < n = omega (arith, length-drop-comp_len c q on) in
        rw (next, names, length-take-comp_len)
          (ap
            (λ z.
              if leb maxnamelen (comp_len (c ∷ q))
              then failed bad_path s
              else if not ((get_file s.disk file).f_type == ftype_dir)
              then failed not_found s
              else z)
            (names_tail n r s file (take (comp_len (c ∷ q)) (c ∷ q))
              (λ next t. walk_from-names n r t (some file) next shorter)))
  ]

  -- On every state of the server and for every path, `walk_path` does what a walk over the names
  -- of the path does: each must fit, the file so far must be a directory, and the name is looked
  -- up in it; where the last one is missing, its directory is known.
  pub walk_path-names :
      (path : List ℕ) (s : Server)
      → walk_path mem_alloc s path ≡ walk_names s none s_root (split path)
  unfolding walk_path
  walk_path-names path s = walk_from-names (suc (length path)) path s none s_root (omega arith)
