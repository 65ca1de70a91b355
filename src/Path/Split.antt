-- ===== src/Path/Split.antt =====
-- A path as its components, split in one pass, and the way the loop of `resolve_path` cuts one off.
use mos_enhanced_shell.Base.{
  ℕ, suc, ◌≤◌, ◌≡◌, ◌≢◌, refl, true, false, List, [], ◌∷◌, ◌++◌, arith, ◌∙◌, ap, ◌==◌,
  if◌then◌else◌, length, take, drop, append-nil, append_assoc, Bool-cases, ==_ne, inl, inr,
  length-drop,
}
use mos_enhanced_shell.Strings.Scan.{index_of}
use mos_enhanced_shell.Path.{slash, skip_slashes, comp_len}

-- A component: not empty, and without a slash.
abbrev pub NoSlash : List ℕ → Type 0
NoSlash [] = Unit {0}
NoSlash (c ∷ p) = (c ≢ slash) × NoSlash p

abbrev pub IsComp : List ℕ → Type 0
IsComp c = (c ≢ []) × NoSlash c

abbrev pub AllComps : List (List ℕ) → Type 0
AllComps [] = Unit {0}
AllComps (d ∷ ds) = IsComp d × AllComps ds

abbrev pub push_comp : List ℕ → List (List ℕ) → List (List ℕ)
push_comp [] cs = cs
push_comp (c ∷ p) cs = (c ∷ p) ∷ cs

-- `cur` is the part of a component that is already read.
unfoldable pub split_from : List ℕ → List ℕ → List (List ℕ)
split_from cur [] = push_comp cur []
split_from cur (c ∷ p) =
    let here = push_comp cur (split_from [] p) in
    let on = split_from (cur ++ (c ∷ [])) p in if c == slash then here else on

-- The components of a path, in order, empty ones left out.
unfoldable pub split : List ℕ → List (List ℕ)
split p = split_from [] p

pub split-nil : split [] ≡ []
unfolding split split_from
split-nil = refl

pub split-skip_slashes : (p : List ℕ) → split (skip_slashes p) ≡ split p
unfolding split split_from skip_slashes
split-skip_slashes [] = refl
split-skip_slashes (c ∷ p) = ground (arith, split-skip_slashes p)

comp_len-cons : (c : ℕ) (p : List ℕ) → (c == slash) ≡ false → comp_len (c ∷ p) ≡ suc (comp_len p)
unfolding comp_len index_of
comp_len-cons c p h = ground arith

comp_len-slash : (c : ℕ) (p : List ℕ) → (c == slash) ≡ true → comp_len (c ∷ p) ≡ 0
unfolding comp_len index_of
comp_len-slash c p h = ground arith

comp_len-nil : comp_len [] ≡ 0
unfolding comp_len index_of
comp_len-nil = refl

-- The next component is what stands before the next slash.
split_from-comp_len :
    (cur p : List ℕ)
    → split_from cur p ≡ push_comp (cur ++ take (comp_len p) p) (split (drop (comp_len p) p))
unfolding split_from split
split_from-comp_len cur [] = rw (comp_len-nil, append-nil) refl
split_from-comp_len cur (c ∷ p) = elim (Bool-cases (c == slash)) [
  | inl here ↦ rw (comp_len-slash c p here, here, append-nil)
  | inr on ↦ rw (comp_len-cons c p on, on, split_from-comp_len (cur ++ (c ∷ [])) p, append_assoc)
]

pub take-comp_len-NoSlash : (p : List ℕ) → NoSlash (take (comp_len p) p)
take-comp_len-NoSlash [] = rw comp_len-nil tt
take-comp_len-NoSlash (c ∷ p) = elim (Bool-cases (c == slash)) [
  | inl here ↦ rw (comp_len-slash c p here) tt
  | inr on ↦ rw (comp_len-cons c p on) (ground arith, take-comp_len-NoSlash p)
]

pub length-take-comp_len : (p : List ℕ) → length (take (comp_len p) p) ≡ comp_len p
length-take-comp_len [] = rw comp_len-nil refl
length-take-comp_len (c ∷ p) = elim (Bool-cases (c == slash)) [
  | inl here ↦ rw (comp_len-slash c p here) refl
  | inr on ↦ rw (comp_len-cons c p on) (ap suc (length-take-comp_len p))
]

-- After the slashes the path is at its end or at a component.
pub skip_slashes-head :
    (p : List ℕ) (c : ℕ) (q : List ℕ) → skip_slashes p ≡ c ∷ q → (c == slash) ≡ false
unfolding skip_slashes
skip_slashes-head [] c q h = cc
skip_slashes-head (d ∷ p) c q h = ground (arith, skip_slashes-head p c q)

pub length-skip_slashes : (p : List ℕ) → length (skip_slashes p) ≤ length p
unfolding skip_slashes
length-skip_slashes [] = omega arith
length-skip_slashes (c ∷ p) = ground (arith, length-skip_slashes p)

module _ (c : ℕ) (q : List ℕ) (h : (c == slash) ≡ false) where
  pub take-comp_len-IsComp : IsComp (take (comp_len (c ∷ q)) (c ∷ q))
  take-comp_len-IsComp = (rw (comp_len-cons c q h) (λ e. cc), take-comp_len-NoSlash (c ∷ q))

  pub split-cons :
      split (c ∷ q) ≡ take (comp_len (c ∷ q)) (c ∷ q) ∷ split (drop (comp_len (c ∷ q)) (c ∷ q))
  split-cons =
      rw (comp_len-cons c q h)
        (unfold split in (split_from-comp_len [] (c ∷ q) ∙ rw (comp_len-cons c q h)))

  pub length-drop-comp_len : length (drop (comp_len (c ∷ q)) (c ∷ q)) ≤ length q
  length-drop-comp_len = rw (comp_len-cons c q h) (omega (arith, length-drop (comp_len q) q))

-- A slash ends a component.
split_from-append :
    (cur xs d : List ℕ) → split_from cur (xs ++ (slash ∷ d)) ≡ split_from cur xs ++ split d
unfolding split split_from
split_from-append [] [] d = refl
split_from-append (c ∷ cur) [] d = refl
split_from-append cur (c ∷ xs) d = elim (Bool-cases (c == slash)) [
  | inl here ↦
      rw here
        (rw (split_from-append [] xs d) (push_comp-append cur (split_from [] xs) (split_from [] d)))
  | inr on ↦ rw on (split_from-append (cur ++ (c ∷ [])) xs d)
]
  where
    push_comp-append :
        (a : List ℕ) (cs es : List (List ℕ)) → push_comp a (cs ++ es) ≡ push_comp a cs ++ es
    push_comp-append [] cs es = refl
    push_comp-append (c ∷ a) cs es = refl

split_from-NoSlash : (cur d : List ℕ) → NoSlash d → split_from cur d ≡ push_comp (cur ++ d) []
unfolding split_from
split_from-NoSlash cur [] h = rw append-nil
split_from-NoSlash cur (c ∷ d) h =
    rw (==_ne c slash h.0) (split_from-NoSlash (cur ++ (c ∷ [])) d h.1 ∙ rw append_assoc)

split-IsComp : (d : List ℕ) → IsComp d → split d ≡ d ∷ []
unfolding split
split-IsComp [] h = absurd (h.0 refl)
split-IsComp (c ∷ d) h = split_from-NoSlash [] (c ∷ d) h.1

-- A component behind a slash is one more component.
pub split-append : (xs d : List ℕ) → IsComp d → split (xs ++ (slash ∷ d)) ≡ split xs ++ (d ∷ [])
split-append xs d h = unfold split in (split_from-append [] xs d ∙ rw (split-IsComp d h))

pub split-absolute : (c : ℕ) (p : List ℕ) → (c == slash) ≡ true → split (c ∷ p) ≡ split p
unfolding split split_from
split-absolute c p h = rw h

NoSlash-append : (p q : List ℕ) → NoSlash p → NoSlash q → NoSlash (p ++ q)
NoSlash-append [] q hp hq = hq
NoSlash-append (c ∷ p) q hp hq = (hp.0, NoSlash-append p q hp.1 hq)

push_comp-AllComps :
    (c : List ℕ) (cs : List (List ℕ)) → NoSlash c → AllComps cs → AllComps (push_comp c cs)
push_comp-AllComps [] cs hc hs = hs
push_comp-AllComps (x ∷ c) cs hc hs = (((λ e. cc), hc), hs)

split_from-AllComps : (cur p : List ℕ) → NoSlash cur → AllComps (split_from cur p)
unfolding split_from
split_from-AllComps cur [] h = push_comp-AllComps cur [] h tt
split_from-AllComps cur (c ∷ p) h = elim (Bool-cases (c == slash)) [
  | inl here ↦ rw here (push_comp-AllComps cur (split_from [] p) h (split_from-AllComps [] p tt))
  | inr on ↦
      rw on
        (split_from-AllComps (cur ++ (c ∷ [])) p (NoSlash-append cur (c ∷ []) h (ground arith, tt)))
]

pub split-AllComps : (p : List ℕ) → AllComps (split p)
unfolding split
split-AllComps p = split_from-AllComps [] p tt
