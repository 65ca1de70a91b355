-- ===== src/Kernel/Vars/Laws.antt =====
-- The system calls on variables against the table as a map from names.
use mos_enhanced_shell.Base.{
  ℕ, ◌≡◌, refl, inl, inr, ◌∙◌, true, Option, none, some, List, [], ◌∷◌, arith, if◌then◌else◌,
  length, length-set, set, text_eq, Option-cases, subst,
}
use mos_enhanced_shell.Kernel.Result.{no_mem, ok, err}
use mos_enhanced_shell.Kernel.Vars.{
  Flags, Var, Table, matches, find_var, free_slot, add_flags, new_flags, overwrite, assign,
}
use mos_enhanced_shell.Kernel.Vars.Lookup.{
  lookup, IsUnique, find_var-none, find_var-some, lookup-set_found, lookup-set_free,
  IsUnique-set_found, IsUnique-set_free, matches→name,
}

-- The variable that a successful assignment leaves, from the one that was there.
abbrev pub updated : Option Var → List ℕ → List ℕ → Flags → Var
updated none n value g = record { name = n; value = value; flags = new_flags g }
updated (some v) n value g = record v { value = value; flags = add_flags v.flags g }

-- The table after a call, as far as lookups can tell.
pub record Assigned (t : Table) (n value : List ℕ) (g : Flags) (t' : Table) : Type 0 where
  pub looked_up :
      (j : List ℕ)
      → lookup j t' ≡ (if text_eq n j then some (updated (lookup n t) n value g) else lookup j t)
  pub unique : IsUnique t'
  pub size : length t' ≡ length t

lookup-matches : (n : List ℕ) (t : Table) (v : Var) → lookup n t ≡ some v → matches n v ≡ true
unfolding lookup
lookup-matches n [] v h = cc
lookup-matches n (u ∷ t) v h = ground (arith, lookup-matches n t v)

used-updated :
    (n value : List ℕ) (g : Flags) (o : Option Var)
    → ((v : Var) → o ≡ some v → matches n v ≡ true)
    → ((updated o n value g).name ≡ n) × ((updated o n value g).flags.used ≡ true)
unfolding add_flags new_flags
used-updated n value g none h = (refl, refl)
used-updated n value g (some v) h = matches→name n v (h v refl)

assign-found :
    (t t' : Table) (n value : List ℕ) (g : Flags) (i : ℕ) (v : Var)
    → IsUnique t
    → find_var n t ≡ some (i, v)
    → assign t n value g ≡ ok t'
    → Assigned t n value g t'
assign-found t t' n value g i v unique found e =
    let w = updated (some v) n value g in
    let there = find_var-some n t i v found in
    let (name, used) = used-updated n value g (some v) (λ u h. lookup-matches n t u (there ∙ h)) in
    let same : set t i w ≡ t' = unfold assign overwrite in ground arith in
    subst (Assigned t n value g) same (record {
      looked_up = λ j. rw there (lookup-set_found n j t i v w found name used);
      unique = IsUnique-set_found n w name t i v used unique found;
      size = length-set t i w;
    })

assign-free :
    (t t' : Table) (n value : List ℕ) (g : Flags) (i : ℕ)
    → IsUnique t
    → find_var n t ≡ none
    → free_slot t ≡ some i
    → assign t n value g ≡ ok t'
    → Assigned t n value g t'
assign-free t t' n value g i unique found free e =
    let w = updated none n value g in
    let absent = find_var-none n t found in
    let used : w.flags.used ≡ true = unfold new_flags in refl in
    let same : set t i w ≡ t' = unfold assign in ground arith in
    subst (Assigned t n value g) same (record {
      looked_up = λ j. rw absent (lookup-set_free n j t i w absent free refl used);
      unique = IsUnique-set_free n w refl t i used unique absent free;
      size = length-set t i w;
    })

assign-full :
    (t : Table) (n value : List ℕ) (g : Flags)
    → find_var n t ≡ none
    → free_slot t ≡ none
    → assign t n value g ≡ err no_mem
unfolding assign
assign-full t n value g found full = ground arith

pub assign-Assigned :
    (t t' : Table) (n value : List ℕ) (g : Flags)
    → IsUnique t
    → assign t n value g ≡ ok t'
    → Assigned t n value g t'
assign-Assigned t t' n value g unique e = elim (Option-cases (find_var n t)) [
  | inl found ↦ elim (Option-cases (free_slot t)) [
    | inl full ↦ let no = assign-full t n value g found full in cc
    | inr (i, free) ↦ assign-free t t' n value g i unique found free e
  ]
  | inr ((i, v), found) ↦ assign-found t t' n value g i v unique found e
]
