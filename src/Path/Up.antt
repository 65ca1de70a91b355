-- ===== src/Path/Up.antt =====
-- A list of components as the text of an absolute path, and "..": it cuts off the last one.
use mos_enhanced_shell.Base.{
  ℕ, zero, suc, ◌+◌, ◌-◌, ◌≤◌, ◌<◌, ◌≡◌, ◌≢◌, refl, List, [], ◌∷◌, ◌++◌, arith, ◌∙◌, ltb, lt→ltb,
  if◌then◌else◌, length, take, drop, get_or, length-append, get_or-append, take-length-append,
}
use mos_enhanced_shell.Path.{slash, root, last_slash, go_up}
use mos_enhanced_shell.Path.Split.{NoSlash, IsComp, AllComps}

-- The last component comes first: `b ∷ a ∷ []` is "/a/b".
abbrev pub Components : Type 0
Components = List (List ℕ)

-- The text of the components, without the "/" that stands for none.
abbrev pub spell : Components → List ℕ
spell [] = []
spell (d ∷ ds) = spell ds ++ (slash ∷ d)

abbrev pub render : Components → List ℕ
render [] = root
render (d ∷ ds) = spell (d ∷ ds)

pub length-spell :
    (d : List ℕ) (ds : Components) → length (spell (d ∷ ds)) ≡ length (spell ds) + length d + 1
length-spell d ds = omega (arith, length-append (spell ds) (slash ∷ d))

get_or-NoSlash : (d : List ℕ) (i : ℕ) → NoSlash d → i < length d → get_or d i 0 ≢ slash
get_or-NoSlash [] i h lt = absurd (omega arith)
get_or-NoSlash (c ∷ d) zero h lt = h.0
get_or-NoSlash (c ∷ d) (suc i) h lt = get_or-NoSlash d i h.1 (omega arith)

last_slash-at : (r : List ℕ) (n : ℕ) → get_or r n 0 ≡ slash → last_slash r n ≡ n
unfolding last_slash
last_slash-at r zero h = refl
last_slash-at r (suc n) h = ground arith

last_slash-past :
    (r : List ℕ) (n : ℕ) → get_or r (suc n) 0 ≢ slash → last_slash r (suc n) ≡ last_slash r n
unfolding last_slash
last_slash-past r n h = ground arith

-- Looking back through a component, the loop stops at the slash before it.
last_slash-append :
    (j : ℕ) (r d : List ℕ)
    → NoSlash d
    → j ≤ length d
    → last_slash (r ++ (slash ∷ d)) (length r + j) ≡ length r
last_slash-append zero r d h le =
    let e : length r + 0 ≡ length r = omega arith in
    rw e (last_slash-at (r ++ (slash ∷ d)) (length r) (rw (← e) (get_or-append r (slash ∷ d) 0 0)))
last_slash-append (suc j) r d h le =
    let e : length r + suc j ≡ suc (length r + j) = omega arith in
    rw e (
      last_slash-past (r ++ (slash ∷ d)) (length r + j)
        (rw (← e, get_or-append r (slash ∷ d) (suc j) 0) (get_or-NoSlash d j h (omega arith)))
      ∙ last_slash-append j r d h (omega arith))

pub length-comp : (d : List ℕ) → d ≢ [] → 0 < length d
length-comp [] h = absurd (h refl)
length-comp (c ∷ d) h = omega arith

last_not_slash :
    (r d : List ℕ) → IsComp d → get_or (r ++ (slash ∷ d)) (length r + length d) 0 ≢ slash
last_not_slash r [] is = absurd (is.0 refl)
last_not_slash r (c ∷ d) is =
    rw (get_or-append r (slash ∷ c ∷ d) (suc (length d)) 0)
      (get_or-NoSlash (c ∷ d) (length d) is.1 (omega arith))

-- `go_up` on a text that ends in a component cuts there.
go_up-take :
    (r d : List ℕ)
    → IsComp d
    → go_up (r ++ (slash ∷ d)) ≡ take (if ltb 0 (length r) then length r else 1) (r ++ (slash ∷ d))
unfolding go_up
go_up-take r d is =
    let len : length (r ++ (slash ∷ d)) ≡ length r + suc (length d) = length-append r (slash ∷ d) in
    let top : length r + suc (length d) - 1 ≡ length r + length d = omega arith in
    rw (len, top)
      (ground (arith, last_not_slash r d is, last_slash-append (length d) r d is.1 (omega arith)))

-- ".." drops the last component, and stays at the root.
pub go_up-render : (ds : Components) → AllComps ds → go_up (render ds) ≡ render (drop 1 ds)
go_up-render [] h = unfold go_up in refl
go_up-render (d ∷ []) h = go_up-take [] d h.0
go_up-render (d ∷ e ∷ ds) h =
    let wide : 0 < length (spell (e ∷ ds)) = omega (arith, length-spell e ds) in
    go_up-take (spell (e ∷ ds)) d h.0
    ∙ rw (lt→ltb 0 _ wide, take-length-append (spell (e ∷ ds)) (slash ∷ d))
