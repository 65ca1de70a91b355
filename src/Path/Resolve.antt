-- ===== src/Path/Resolve.antt =====
-- What `resolve_path` promises: the result is the walk, it is canonical and fits its buffer, and a
-- canonical path resolves to itself. The copy in user/sh.c agrees.
use mos_enhanced_shell.Base.{
  ℕ, ◌≤◌, ◌<◌, ◌≡◌, refl, ◌∙◌, inl, inr, Option, none, some, List, [], ◌∷◌, ◌++◌, arith, ◌==◌,
  if◌then◌else◌, length, text_eq→eq, Bool-cases, Option-cases, ltb_ge, leb_lt, subst, append-nil,
  append_assoc, sym,
}
use mos_enhanced_shell.Path.{
  slash, dot, dot_dot, max_name_len, Outcome, ok, error, out_of_fuel, or_root, resolve_path,
  or_root_checked, sh_resolve_path,
}
use mos_enhanced_shell.Path.Split.{
  split, split-nil, split-absolute, split-append, split-AllComps, AllComps,
}
use mos_enhanced_shell.Path.Up.{Components, spell, render, length-spell}
use mos_enhanced_shell.Path.Walk.{
  walk, enter, outcome, resolve_loop-walk, AllCanonical, AllCanonical-AllComps, AllCanonical-drop,
  enter-keeps,
}

or_root-cons : (r : List ℕ) → 0 < length r → or_root (ok r) ≡ ok r
unfolding or_root
or_root-cons [] h = absurd (omega arith)
or_root-cons (c ∷ r) h = refl

pub length-render : (ds : Components) → 0 < length (render ds)
length-render [] = omega arith
length-render (d ∷ ds) = omega (arith, length-spell d ds)

or_root-outcome : (o : Option Components) → or_root (outcome o) ≡ outcome o
or_root-outcome none = unfold or_root in refl
or_root-outcome (some ds) = or_root-cons (render ds) (length-render ds)

-- Where a path is resolved from: the root if it is absolute.
abbrev pub origin : List ℕ → Components → Components
origin [] ds = []
origin (c ∷ p) ds = if c == slash then [] else ds

-- With fuel for every byte of the path, a buffer for "/" and a working directory that is the text
-- of components and fits the buffer, `resolve_path` returns what walking the components of the
-- path returns, errors included.
pub resolve_path-walk :
    (k max_len : ℕ) (path : List ℕ) (ds : Components)
    → AllComps ds
    → length (render ds) < max_len
    → 2 ≤ max_len
    → length path < k
    → resolve_path k (some (render ds)) path max_len
      ≡ outcome (walk max_len (split path) (origin path ds))
unfolding resolve_path
resolve_path-walk k max_len [] ds hs fits room fuel = rw split-nil (unfold walk in refl)
resolve_path-walk k max_len (c ∷ p) ds hs fits room fuel = elim (Bool-cases (c == slash)) [
  | inl absolute ↦
      rw (absolute, split-absolute c p absolute, ltb_ge max_len 2 room)
        (rw (resolve_loop-walk k max_len p [] tt (omega arith)) (or_root-outcome _))
  | inr relative ↦
      rw (relative, leb_lt max_len (length (render ds)) fits)
        (rw (resolve_loop-walk k max_len (c ∷ p) ds hs fuel) (or_root-outcome _))
]

walk-AllCanonical :
    (max_len : ℕ) (cs : List (List ℕ)) (ds es : Components)
    → AllComps cs
    → AllCanonical max_len ds
    → walk max_len cs ds ≡ some es
    → AllCanonical max_len es
unfolding walk
walk-AllCanonical max_len [] ds es hc hs e = subst (AllCanonical max_len) (ground arith) hs
walk-AllCanonical max_len (c ∷ cs) ds es hc hs e = elim (Option-cases (enter max_len c ds)) [
  | inl full ↦ ground arith
  | inr (fs, into) ↦
      let rest : walk max_len cs fs ≡ some es = ground arith in
      walk-AllCanonical max_len cs fs es hc.1
        (enter-keeps (AllCanonical max_len) max_len c ds fs hs (AllCanonical-drop max_len ds hs)
          (λ a b fits. (hc.0, a, b, ground arith, fits, hs)) into)
        rest
]

outcome-ok :
    (o : Option Components) (r : List ℕ)
    → outcome o ≡ ok r
    → (es : Components) × (o ≡ some es) × (render es ≡ r)
outcome-ok none r e = cc
outcome-ok (some es) r e = (es, refl, ground arith)

origin-AllCanonical :
    (max_len : ℕ) (path : List ℕ) (ds : Components)
    → AllCanonical max_len ds
    → AllCanonical max_len (origin path ds)
origin-AllCanonical max_len [] ds h = tt
origin-AllCanonical max_len (c ∷ p) ds h = elim (Bool-cases (c == slash)) [
  | inl absolute ↦ rw absolute tt
  | inr relative ↦ rw relative h
]

length-AllCanonical :
    (max_len : ℕ) (ds : Components)
    → 2 ≤ max_len
    → AllCanonical max_len ds
    → length (render ds) < max_len
length-AllCanonical max_len [] room h = omega arith
length-AllCanonical max_len (d ∷ ds) room h = h.4

-- With fuel for every byte of the path, a buffer for "/" and a canonical working directory, a text
-- that `resolve_path` returns is the text of canonical components and fits the buffer with its
-- zero byte.
pub resolve_path-AllCanonical :
    (k max_len : ℕ) (path r : List ℕ) (ds : Components)
    → AllCanonical max_len ds
    → 2 ≤ max_len
    → length path < k
    → resolve_path k (some (render ds)) path max_len ≡ ok r
    → (es : Components) × AllCanonical max_len es × (render es ≡ r) × (length r < max_len)
resolve_path-AllCanonical k max_len path r ds hs room fuel e =
    let fits = length-AllCanonical max_len ds room hs in
    let same =
      resolve_path-walk k max_len path ds (AllCanonical-AllComps max_len ds hs) fits room fuel in
    let (es, walked, shown) =
      outcome-ok (walk max_len (split path) (origin path ds)) r (sym same ∙ e) in
    let canon =
      walk-AllCanonical max_len (split path) (origin path ds) es (split-AllComps path)
        (origin-AllCanonical max_len path ds hs) walked in
    (es, canon, shown, rw (← shown) (length-AllCanonical max_len es room canon))

-- The components in the order of the path.
in_order : Components → List (List ℕ)
in_order [] = []
in_order (d ∷ ds) = in_order ds ++ (d ∷ [])

split-spell : (ds : Components) → AllComps ds → split (spell ds) ≡ in_order ds
unfolding in_order
split-spell [] h = split-nil
split-spell (d ∷ ds) h = split-append (spell ds) d h.0 ∙ rw (split-spell ds h.1)

split-render : (ds : Components) → AllComps ds → split (render ds) ≡ in_order ds
split-render [] h = split-absolute slash [] refl ∙ split-nil ∙ unfold in_order in refl
split-render (d ∷ ds) h = split-spell (d ∷ ds) h

enter-canonical :
    (max_len : ℕ) (d : List ℕ) (ds : Components)
    → AllCanonical max_len (d ∷ ds)
    → enter max_len d ds ≡ some (d ∷ ds)
unfolding enter
enter-canonical max_len d ds h = ground (arith, text_eq→eq d dot, text_eq→eq d dot_dot)

walk-in_order :
    (max_len : ℕ) (ds : Components) (more : List (List ℕ))
    → AllCanonical max_len ds
    → walk max_len (in_order ds ++ more) [] ≡ walk max_len more ds
unfolding in_order walk
walk-in_order max_len [] more h = refl
walk-in_order max_len (d ∷ ds) more h = rw append_assoc (
    walk-in_order max_len ds (d ∷ more) h.5
    ∙ rw (leb_lt max_name_len (length d) h.3, enter-canonical max_len d ds h))

origin-spell : (ds es : Components) (q : List ℕ) → origin (spell ds ++ (slash ∷ q)) es ≡ []
origin-spell [] es q = refl
origin-spell (d ∷ ds) es q =
    rw (append_assoc (spell ds) (slash ∷ d) (slash ∷ q)) (origin-spell ds es (d ++ (slash ∷ q)))

origin-render : (ds es : Components) → origin (render ds) es ≡ []
origin-render [] es = refl
origin-render (d ∷ ds) es = origin-spell ds es d

-- With fuel for every byte of the path and a buffer for "/", the text of a canonical path that
-- fits resolves to itself, from every canonical working directory.
pub resolve_path-canonical :
    (k max_len : ℕ) (ds es : Components)
    → AllCanonical max_len ds
    → AllCanonical max_len es
    → 2 ≤ max_len
    → length (render ds) < k
    → resolve_path k (some (render es)) (render ds) max_len ≡ ok (render ds)
resolve_path-canonical k max_len ds es hd he room fuel =
    resolve_path-walk k max_len (render ds) es (AllCanonical-AllComps max_len es he)
      (length-AllCanonical max_len es room he) room fuel
    ∙ rw (origin-render ds es, split-render ds (AllCanonical-AllComps max_len ds hd))
        (rw (← append-nil (in_order ds))
          (rw (walk-in_order max_len ds [] hd) (unfold walk in refl)))

or_root_checked-or_root :
    (max_len : ℕ) (o : Outcome) → 2 ≤ max_len → or_root_checked max_len o ≡ or_root o
unfolding or_root or_root_checked
or_root_checked-or_root max_len (ok []) h = rw (ltb_ge max_len 2 h)
or_root_checked-or_root max_len (ok (c ∷ r)) h = refl
or_root_checked-or_root max_len error h = refl
or_root_checked-or_root max_len out_of_fuel h = refl

-- With a buffer for "/", the shell's copy of `resolve_path` and the library's return the same for
-- every fuel, path and working directory.
sh_resolve_path-resolve_path :
    (k max_len : ℕ) (cwd path : List ℕ)
    → 2 ≤ max_len
    → sh_resolve_path k cwd (some path) max_len ≡ resolve_path k (some cwd) path max_len
unfolding sh_resolve_path resolve_path
sh_resolve_path-resolve_path k max_len cwd [] room = rw (ltb_ge max_len 2 room)
sh_resolve_path-resolve_path k max_len cwd (c ∷ p) room =
    simp (or_root_checked-or_root max_len _ room)
