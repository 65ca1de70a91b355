-- ===== src/Path/Walk.antt =====
-- `resolve_path` against a walk over components: what a relative or absolute path means from a
-- working directory, with "." and "..", and the limits on a name and on the result.
use mos_enhanced_shell.Base.{
  ℕ, zero, suc, ◌+◌, ◌<◌, ◌≡◌, ◌≢◌, refl, inl, inr, Option, none, some, List, [], ◌∷◌, ◌++◌, arith,
  leb, if◌then◌else◌, length, take, drop, text_eq, Bool-cases, Option-cases, ap, subst,
  length-append, lt→ltb, append_assoc, ◌⊎◌, text_ne,
}
use mos_enhanced_shell.Path.{
  slash, root, dot, dot_dot, max_name_len, Outcome, ok, error, skip_slashes, comp_len, append_comp,
  step, resolve_loop,
}
use mos_enhanced_shell.Path.Split.{
  IsComp, AllComps, split, split-nil, split-skip_slashes, skip_slashes-head, length-skip_slashes,
  take-comp_len-IsComp, split-cons, length-drop-comp_len, length-take-comp_len,
}
use mos_enhanced_shell.Path.Up.{Components, spell, render, length-spell, length-comp, go_up-render}

-- One component of a path, from the directory `ds`; `none` if the result is too long.
unfoldable pub enter : ℕ → List ℕ → Components → Option Components
enter max_len c ds =
    if text_eq c dot
    then some ds
    else if text_eq c dot_dot
    then some (drop 1 ds)
    else if leb max_len (length (render (c ∷ ds)))
    then none
    else some (c ∷ ds)

-- All components, `none` if a name or the result is too long.
unfoldable pub walk : ℕ → List (List ℕ) → Components → Option Components
walk max_len [] ds = some ds
walk max_len (c ∷ cs) ds =
    if leb max_name_len (length c)
    then none
    else elim (enter max_len c ds) [ none ↦ none | some es ↦ walk max_len cs es ]

abbrev pub rendered : Option Components → Option (List ℕ)
rendered none = none
rendered (some ds) = some (render ds)

abbrev pub outcome : Option Components → Outcome
outcome none = error
outcome (some ds) = ok (render ds)

append_comp-long :
    (max_len : ℕ) (c r : List ℕ)
    → 1 < length r
    → 0 < length c
    → append_comp max_len c r
      ≡ (if leb max_len (length (r ++ (slash ∷ c))) then none else some (r ++ (slash ∷ c)))
unfolding append_comp
append_comp-long max_len c r hr hc =
    let e : length (r ++ root) ≡ length r + 1 = length-append r root in
    rw (lt→ltb 1 (length r) hr, append_assoc) (ground (arith, e, length-append r (slash ∷ c)))

append_comp-render :
    (max_len : ℕ) (c : List ℕ) (ds : Components)
    → IsComp c
    → AllComps ds
    → append_comp max_len c (render ds)
      ≡ (if leb max_len (length (render (c ∷ ds))) then none else some (render (c ∷ ds)))
append_comp-render max_len c [] hc hs = unfold append_comp in ground arith
append_comp-render max_len c (d ∷ ds) hc hs =
    append_comp-long max_len c (spell (d ∷ ds))
      (omega (arith, length-spell d ds, length-comp d hs.0.0)) (length-comp c hc.0)

step-enter :
    (max_len : ℕ) (c : List ℕ) (ds : Components)
    → IsComp c
    → AllComps ds
    → step max_len c (render ds) ≡ rendered (enter max_len c ds)
unfolding step enter
step-enter max_len c ds hc hs =
    ground (arith, go_up-render ds hs, append_comp-render max_len c ds hc hs)

-- Canonical: no "." or ".." and no name or text beyond the limits.
abbrev pub AllCanonical : ℕ → Components → Type 0
AllCanonical max_len [] = Unit {0}
AllCanonical max_len (d ∷ ds) =
    IsComp d
    × (d ≢ dot)
    × (d ≢ dot_dot)
    × (length d < max_name_len)
    × (length (render (d ∷ ds)) < max_len)
    × AllCanonical max_len ds

pub AllCanonical-AllComps : (max_len : ℕ) (ds : Components) → AllCanonical max_len ds → AllComps ds
AllCanonical-AllComps max_len [] h = tt
AllCanonical-AllComps max_len (d ∷ ds) h = (h.0, AllCanonical-AllComps max_len ds h.5)

pub AllCanonical-drop :
    (max_len : ℕ) (ds : Components) → AllCanonical max_len ds → AllCanonical max_len (drop 1 ds)
AllCanonical-drop max_len [] h = tt
AllCanonical-drop max_len (d ∷ ds) h = h.5

-- What `enter` keeps: a property of the tail and of every new component.
pub enter-keeps :
    (P : Components → Type 0) (max_len : ℕ) (c : List ℕ) (ds es : Components)
    → P ds
    → P (drop 1 ds)
    → (c ≢ dot → c ≢ dot_dot → length (render (c ∷ ds)) < max_len → P (c ∷ ds))
    → enter max_len c ds ≡ some es
    → P es
unfolding enter
enter-keeps P max_len c ds es hs hd new e = elim (Bool-cases (text_eq c dot)) [
  | inl here ↦ let same : ds ≡ es = ground arith in subst P same hs
  | inr down ↦ elim (Bool-cases (text_eq c dot_dot)) [
    | inl up ↦ let same : drop 1 ds ≡ es = ground arith in subst P same hd
    | inr name ↦
        let same : c ∷ ds ≡ es = ground arith in
        subst P same (new (text_ne c dot down) (text_ne c dot_dot name) (ground arith))
  ]
]

AllComps-drop : (ds : Components) → AllComps ds → AllComps (drop 1 ds)
AllComps-drop [] h = tt
AllComps-drop (d ∷ ds) h = h.1

module _ (k max_len : ℕ) (p : List ℕ) (ds : Components) (hs : AllComps ds) where
  -- One round of the loop, at a component.
  resolve_loop-cons :
      (c : ℕ) (q : List ℕ)
      → skip_slashes p ≡ c ∷ q
      → ((es : Components)
          → AllComps es
          → resolve_loop k max_len (drop (comp_len (c ∷ q)) (c ∷ q)) (render es)
            ≡ outcome (walk max_len (split (drop (comp_len (c ∷ q)) (c ∷ q))) es))
      → resolve_loop (suc k) max_len p (render ds) ≡ outcome (walk max_len (split (c ∷ q)) ds)
  unfolding resolve_loop walk
  resolve_loop-cons c q e rest =
      let on = skip_slashes-head p c q e in
      let is = take-comp_len-IsComp c q on in
      rw
        (
          e,
          resolve_loop,
          split-cons c q on,
          length-take-comp_len (c ∷ q),
          step-enter max_len (take (comp_len (c ∷ q)) (c ∷ q)) ds is hs,
        )
        (elim (Bool-cases (leb max_name_len (comp_len (c ∷ q)))) [
          | inl long ↦ rw long
          | inr short ↦
              rw short (elim (Option-cases (enter max_len (take (comp_len (c ∷ q)) (c ∷ q)) ds)) [
                | inl full ↦ rw full
                | inr (es, into) ↦ rw into (
                    rest es (
                      enter-keeps AllComps max_len _ ds es hs (AllComps-drop ds hs)
                        (λ _ _ _. (is, hs)) into))
              ])
        ])

  resolve_loop-nil :
      skip_slashes p ≡ []
      → resolve_loop (suc k) max_len p (render ds) ≡ outcome (walk max_len (split []) ds)
  unfolding resolve_loop walk
  resolve_loop-nil e = rw (e, resolve_loop, split-nil)

pub List-cases : (xs : List ℕ) → (xs ≡ []) ⊎ ((c : ℕ) × (q : List ℕ) × (xs ≡ c ∷ q))
List-cases [] = inl refl
List-cases (c ∷ q) = inr (c, q, refl)

pub resolve_loop-walk :
    (k max_len : ℕ) (p : List ℕ) (ds : Components)
    → AllComps ds
    → length p < k
    → resolve_loop k max_len p (render ds) ≡ outcome (walk max_len (split p) ds)
resolve_loop-walk zero max_len p ds hs fuel = absurd (omega arith)
resolve_loop-walk (suc k) max_len p ds hs fuel = elim (List-cases (skip_slashes p)) [
  | inl e ↦ rw (← split-skip_slashes p, e) (resolve_loop-nil k max_len p ds hs e)
  | inr (c, q, e) ↦
      rw (← split-skip_slashes p, e)
        (resolve_loop-cons k max_len p ds hs c q e (λ es hes.
          resolve_loop-walk k max_len (drop (comp_len (c ∷ q)) (c ∷ q)) es hes (
            omega (
              arith,
              length-drop-comp_len c q (skip_slashes-head p c q e),
              length-skip_slashes p,
              ap length e,
            ))))
]
