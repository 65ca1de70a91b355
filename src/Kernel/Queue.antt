-- ===== src/Kernel/Queue.antt =====
-- The run queue `env_sched_list`: the macros of include/queue.h for a tail queue, on the list of the
-- elements. The macros follow the links in the element itself, so to remove an element that is not
-- linked, or to insert one that is, writes through stale links: here that is `none`.
use mos_enhanced_shell.Base.{
  ℕ, ◌+◌, ◌<◌, ◌≡◌, refl, inl, inr, Bool, false, ◌||◌, Option, none, some, List, [], ◌∷◌, ◌++◌,
  arith, ◌==◌, if◌then◌else◌, Bool-cases,
}

abbrev pub has : ℕ → List ℕ → Bool
has e [] = false
has e (x ∷ q) = x == e || has e q

-- TAILQ_INSERT_TAIL
unfoldable pub insert_tail : ℕ → List ℕ → Option (List ℕ)
insert_tail e q = if has e q then none else some (q ++ (e ∷ []))

-- TAILQ_REMOVE
unfoldable pub remove : ℕ → List ℕ → Option (List ℕ)
remove e [] = none
remove e (x ∷ q) =
    let rest = remove e q in
    if x == e then some q else elim rest [ none ↦ none | some r ↦ some (x ∷ r) ]

-- TAILQ_FIRST
abbrev pub first : List ℕ → Option ℕ
first [] = none
first (x ∷ q) = some x

-- How often an element is linked.
abbrev pub linked : ℕ → List ℕ → ℕ
linked e [] = 0
linked e (x ∷ q) = (if x == e then 1 else 0) + linked e q

pub linked-append : (e : ℕ) (q r : List ℕ) → linked e (q ++ r) ≡ linked e q + linked e r
linked-append e [] r = omega arith
linked-append e (x ∷ q) r = omega (arith, linked-append e q r)

pub has-linked : (e : ℕ) (q : List ℕ) → linked e q ≡ 0 → has e q ≡ false
has-linked e [] h = refl
has-linked e (x ∷ q) h = ground (arith, has-linked e q)

pub not-has-linked : (e : ℕ) (q : List ℕ) → has e q ≡ false → linked e q ≡ 0
not-has-linked e [] h = refl
not-has-linked e (x ∷ q) h = ground (arith, not-has-linked e q)

-- What removing one element does to every count.
abbrev pub Removed : ℕ → List ℕ → List ℕ → Type 0
Removed e q r = (i : ℕ) → linked i q ≡ linked i r + (if i == e then 1 else 0)

pub remove-Removed :
    (e : ℕ) (q : List ℕ) → 0 < linked e q → (r : List ℕ) × (remove e q ≡ some r) × Removed e q r
unfolding remove
remove-Removed e [] h = absurd (omega arith)
remove-Removed e (x ∷ q) h = elim (Bool-cases (x == e)) [
  | inl here ↦ (q, rw here, λ i. ground arith)
  | inr on ↦
      let (r, got, count) = remove-Removed e q (ground arith) in
      (x ∷ r, rw (on, got), λ i. ground (arith, count i))
]

pub remove-head : (e : ℕ) (q : List ℕ) → remove e (e ∷ q) ≡ some q
unfolding remove
remove-head e q = ground arith

pub remove-none : (e : ℕ) (q : List ℕ) → linked e q ≡ 0 → remove e q ≡ none
unfolding remove
remove-none e [] h = refl
remove-none e (x ∷ q) h = ground (arith, remove-none e q)

pub insert_tail-linked :
    (e : ℕ) (q : List ℕ) → linked e q ≡ 0 → insert_tail e q ≡ some (q ++ (e ∷ []))
unfolding insert_tail
insert_tail-linked e q h = ground (arith, has-linked e q)
