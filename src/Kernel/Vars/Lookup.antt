-- ===== src/Kernel/Vars/Lookup.antt =====
-- The table as a map from names to variables: what writing a slot does to every lookup.
use mos_enhanced_shell.Base.{
  ℕ, zero, suc, ◌≡◌, refl, true, false, Option, none, some, List, [], ◌∷◌, arith, if◌then◌else◌,
  set, text_eq, text_eq→eq, text_eq_refl, ap, sym,
}
use mos_enhanced_shell.Kernel.Vars.{Var, Table, matches, find_var, free_slot}

-- The variable of a name.
unfoldable pub lookup : List ℕ → Table → Option Var
lookup n [] = none
lookup n (v ∷ t) = if matches n v then some v else lookup n t

-- No two slots in use have one name.
abbrev pub IsUnique : Table → Type 0
IsUnique [] = Unit {0}
IsUnique (v ∷ t) = (v.flags.used ≡ true → lookup v.name t ≡ none) × IsUnique t

matches_self : (n : List ℕ) (v : Var) → v.name ≡ n → v.flags.used ≡ true → matches n v ≡ true
unfolding matches
matches_self n v e u = rw (u, e) (text_eq_refl n)

pub matches→name :
    (n : List ℕ) (v : Var) → matches n v ≡ true → (v.name ≡ n) × (v.flags.used ≡ true)
unfolding matches
matches→name n v h = ground (arith, text_eq→eq v.name n)

pub find_var-none : (n : List ℕ) (t : Table) → find_var n t ≡ none → lookup n t ≡ none
unfolding find_var lookup
find_var-none n [] h = refl
find_var-none n (v ∷ t) h = ground (arith, find_var-none n t)

pub find_var-some :
    (n : List ℕ) (t : Table) (i : ℕ) (v : Var) → find_var n t ≡ some (i, v) → lookup n t ≡ some v
unfolding find_var lookup
find_var-some n [] i v h = cc
find_var-some n (w ∷ t) zero v h = ground arith
find_var-some n (w ∷ t) (suc i) v h = ground (arith, find_var-some n t i v)

pub found-matches :
    (n : List ℕ) (t : Table) (i : ℕ) (v : Var) → find_var n t ≡ some (i, v) → matches n v ≡ true
unfolding find_var
found-matches n [] i v h = cc
found-matches n (w ∷ t) zero v h = ground arith
found-matches n (w ∷ t) (suc i) v h = ground (arith, found-matches n t i v)

-- What a slot matches, once its name is known.
matches-named :
    (n j : List ℕ) (w : Var) → w.name ≡ n → w.flags.used ≡ true → matches j w ≡ text_eq n j
unfolding matches
matches-named n j w name used = rw (used, name)

matches-both : (n j : List ℕ) (u : Var) → matches n u ≡ true → matches j u ≡ text_eq n j
matches-both n j u h = let (name, used) = matches→name n u h in matches-named n j u name used

matches-eq : (n j : List ℕ) (u : Var) → text_eq n j ≡ true → matches j u ≡ matches n u
matches-eq n j u h = ap (λ k. matches k u) (sym (text_eq→eq n j h))

matches-unused : (j : List ℕ) (u : Var) → u.flags.used ≡ false → matches j u ≡ false
unfolding matches
matches-unused j u e = rw e

pub lookup-eq_none :
    (n j : List ℕ) (u : Var) (t : Table)
    → (u.flags.used ≡ true → lookup u.name t ≡ none)
    → matches n u ≡ true
    → text_eq n j ≡ true
    → lookup j t ≡ none
lookup-eq_none n j u t only m e =
    let (name, used) = matches→name n u m in rw (← text_eq→eq n j e, ← name) (only used)

-- A slot found by name gets new contents under the same name.
pub lookup-set_found :
    (n j : List ℕ) (t : Table) (i : ℕ) (v w : Var)
    → find_var n t ≡ some (i, v)
    → w.name ≡ n
    → w.flags.used ≡ true
    → lookup j (set t i w) ≡ (if text_eq n j then some w else lookup j t)
unfolding find_var lookup
lookup-set_found n j [] i v w h name used = cc
lookup-set_found n j (u ∷ t) zero v w h name used =
    ground (arith, matches-named n j w name used, matches-both n j u)
lookup-set_found n j (u ∷ t) (suc i) v w h name used =
    ground (arith, matches-eq n j u, lookup-set_found n j t i v w)

-- A free slot gets a variable of a name that is not in the table.
pub lookup-set_free :
    (n j : List ℕ) (t : Table) (i : ℕ) (w : Var)
    → lookup n t ≡ none
    → free_slot t ≡ some i
    → w.name ≡ n
    → w.flags.used ≡ true
    → lookup j (set t i w) ≡ (if text_eq n j then some w else lookup j t)
unfolding free_slot lookup
lookup-set_free n j [] i w absent h name used = cc
lookup-set_free n j (u ∷ t) zero w absent h name used =
    ground (arith, matches-named n j w name used, matches-unused j u, matches-unused n u)
lookup-set_free n j (u ∷ t) (suc i) w absent h name used =
    ground (arith, matches-eq n j u, lookup-set_free n j t i w)

-- A slot found by name that is no longer in use.
pub lookup-set_unused :
    (n j : List ℕ) (t : Table) (i : ℕ) (v w : Var)
    → IsUnique t
    → find_var n t ≡ some (i, v)
    → w.flags.used ≡ false
    → lookup j (set t i w) ≡ (if text_eq n j then none else lookup j t)
unfolding find_var lookup
lookup-set_unused n j [] i v w unique h free = cc
lookup-set_unused n j (u ∷ t) zero v w unique h free =
    ground (arith, matches-unused j w free, matches-both n j u, lookup-eq_none n j u t unique.0)
lookup-set_unused n j (u ∷ t) (suc i) v w unique h free =
    ground (arith, matches-eq n j u, lookup-set_unused n j t i v w unique.1)

-- A table with one more written slot stays unique, if no other slot in use has that name.
module _ (n : List ℕ) (w : Var) (name : w.name ≡ n) where
  other-name : (u : Var) → u.flags.used ≡ true → matches n u ≡ false → text_eq n u.name ≡ false
  other-name u used miss = ground (arith, matches-eq n u.name u, matches_self u.name u refl used)

  pub IsUnique-set_found :
      (t : Table) (i : ℕ) (v : Var)
      → w.flags.used ≡ true
      → IsUnique t
      → find_var n t ≡ some (i, v)
      → IsUnique (set t i w)
  unfolding find_var
  IsUnique-set_found [] i v used unique h = tt
  IsUnique-set_found (u ∷ t) zero v used unique h = (
    (λ _. lookup-eq_none n w.name u t unique.0 (ground arith) (rw name (text_eq_refl n))),
    unique.1,
  )
  IsUnique-set_found (u ∷ t) (suc i) v used unique h =
      let (miss, rest) = find_var-suc in
      (
        (λ live. ground (
          arith,
          lookup-set_found n u.name t i v w rest name used,
          other-name u live miss,
          unique.0 live,
        )),
        IsUnique-set_found t i v used unique.1 rest,
      )
    where
      find_var-suc : (matches n u ≡ false) × (find_var n t ≡ some (i, v))
      find_var-suc = ground arith

  pub IsUnique-set_free :
      (t : Table) (i : ℕ)
      → w.flags.used ≡ true
      → IsUnique t
      → lookup n t ≡ none
      → free_slot t ≡ some i
      → IsUnique (set t i w)
  unfolding free_slot lookup
  IsUnique-set_free [] i used unique absent h = tt
  IsUnique-set_free (u ∷ t) zero used unique absent h =
      ((λ _. rw name (ground (arith, matches-unused n u))), unique.1)
  IsUnique-set_free (u ∷ t) (suc i) used unique absent h =
      let (miss, absent', rest) = free_slot-suc in
      (
        (λ live. ground (
          arith,
          lookup-set_free n u.name t i w absent' rest name used,
          other-name u live miss,
          unique.0 live,
        )),
        IsUnique-set_free t i used unique.1 absent' rest,
      )
    where
      free_slot-suc : (matches n u ≡ false) × (lookup n t ≡ none) × (free_slot t ≡ some i)
      free_slot-suc = ground arith

  pub IsUnique-set_unused :
      (t : Table) (i : ℕ) (v : Var)
      → w.flags.used ≡ false
      → IsUnique t
      → find_var n t ≡ some (i, v)
      → IsUnique (set t i w)
  unfolding find_var
  IsUnique-set_unused [] i v used unique h = tt
  IsUnique-set_unused (u ∷ t) zero v used unique h = ((λ live. cc), unique.1)
  IsUnique-set_unused (u ∷ t) (suc i) v used unique h =
      let (miss, rest) = find_var-suc in
      (
        (λ live. ground (
          arith,
          lookup-set_unused n u.name t i v w unique.1 rest used,
          other-name u live miss,
          unique.0 live,
        )),
        IsUnique-set_unused t i v used unique.1 rest,
      )
    where
      find_var-suc : (matches n u ≡ false) × (find_var n t ≡ some (i, v))
      find_var-suc = ground arith
