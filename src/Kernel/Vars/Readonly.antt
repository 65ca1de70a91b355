-- ===== src/Kernel/Vars/Readonly.antt =====
-- A read-only variable outlives every sequence of system calls on variables.
use mos_enhanced_shell.Base.{
  ℕ, ◌≡◌, refl, inl, inr, ◌∙◌, true, some, List, [], ◌∷◌, arith, text_eq, text_eq→eq, Bool-cases,
  Option-cases,
}
use mos_enhanced_shell.Memory.{Memory}
use mos_enhanced_shell.Kernel.Result.{perm, Result, ok, err}
use mos_enhanced_shell.Kernel.User.{copy_in}
use mos_enhanced_shell.Kernel.Vars.{
  Flags, Var, Table, find_var, overwrite, assign, forget, flags_of, sys_set_var, sys_unset_var,
  max_var_name_len, max_var_value_len,
}
use mos_enhanced_shell.Kernel.Vars.Lookup.{lookup, IsUnique, find_var-none, find_var-some}
use mos_enhanced_shell.Kernel.Vars.Laws.{assign-Assigned}
use mos_enhanced_shell.Kernel.Vars.Calls.{forget-Forgotten}

-- A call, with the user memory at that time.
pub data VarCall : Type 0 where
  set_var : (m : Memory) (user_name user_value flags : ℕ) → VarCall
  unset_var : (m : Memory) (user_name : ℕ) → VarCall

abbrev pub kept : Table → Result Table → Table
kept t (ok t') = t'
kept t (err e) = t

-- The table after a call; a call that fails leaves it.
unfoldable pub apply : Table → VarCall → Table
apply t (set_var m p q w) = kept t (sys_set_var t m p q w)
apply t (unset_var m p) = kept t (sys_unset_var t m p)

unfoldable pub apply_all : Table → List VarCall → Table
apply_all t [] = t
apply_all t (c ∷ cs) = apply_all (apply t c) cs

module _ (n : List ℕ) (v : Var) (fixed : v.flags.readonly ≡ true) where
  -- What every call keeps.
  record Held (t : Table) : Type 0 where
    holds : lookup n t ≡ some v
    unique : IsUnique t

  found-same : (t : Table) (i : ℕ) (u : Var) → Held t → find_var n t ≡ some (i, u) → u ≡ v
  found-same t i u h found = let there = find_var-some n t i u found in ground (arith, h.holds)

  assign-perm : (t : Table) (value : List ℕ) (g : Flags) → Held t → assign t n value g ≡ err perm
  assign-perm t value g h = elim (Option-cases (find_var n t)) [
    | inl miss ↦ let no = find_var-none n t miss in let yes' = h.holds in cc
    | inr ((i, u), found) ↦
        let ro : u.flags.readonly ≡ true = rw (found-same t i u h found) fixed in
        unfold assign overwrite in ground arith
  ]

  forget-perm : (t : Table) → Held t → forget t n ≡ err perm
  forget-perm t h = elim (Option-cases (find_var n t)) [
    | inl miss ↦ let no = find_var-none n t miss in let yes' = h.holds in cc
    | inr ((i, u), found) ↦
        let ro : u.flags.readonly ≡ true = rw (found-same t i u h found) fixed in
        unfold forget in ground arith
  ]

  assign-Held :
      (t t' : Table) (k value : List ℕ) (g : Flags) → Held t → assign t k value g ≡ ok t' → Held t'
  assign-Held t t' k value g h e = elim (Bool-cases (text_eq k n)) [
    | inl same ↦
        let no : assign t k value g ≡ err perm =
          rw (text_eq→eq k n same) (assign-perm t value g h) in
        cc
    | inr other ↦
        let a = assign-Assigned t t' k value g h.unique e in
        record { holds = a.looked_up n ∙ rw other h.holds; unique = a.unique }
  ]

  forget-Held : (t t' : Table) (k : List ℕ) → Held t → forget t k ≡ ok t' → Held t'
  forget-Held t t' k h e = elim (Bool-cases (text_eq k n)) [
    | inl same ↦ let no : forget t k ≡ err perm = rw (text_eq→eq k n same) (forget-perm t h) in cc
    | inr other ↦
        let a = forget-Forgotten t t' k h.unique e in
        record { holds = a.looked_up n ∙ rw other h.holds; unique = a.unique }
  ]

  kept-Held :
      (t : Table) (r : Result Table)
      → Held t
      → ((t' : Table) → r ≡ ok t' → Held t')
      → Held (kept t r)
  kept-Held t (ok t') h k = k t' refl
  kept-Held t (err e) h k = h

  set_var-Held :
      (t t' : Table) (m : Memory) (p q w : ℕ) → Held t → sys_set_var t m p q w ≡ ok t' → Held t'
  unfolding sys_set_var
  set_var-Held t t' m p q w h e = elim (Option-cases (copy_in max_var_name_len m p)) [
    | inl bad ↦ absurd (ground arith)
    | inr (k, name) ↦ elim (Option-cases (copy_in max_var_value_len m q)) [
      | inl bad ↦ absurd (ground arith)
      | inr (value, text) ↦
          let done : assign t k value (flags_of w) ≡ ok t' = ground arith in
          assign-Held t t' k value (flags_of w) h done
    ]
  ]

  unset_var-Held :
      (t t' : Table) (m : Memory) (p : ℕ) → Held t → sys_unset_var t m p ≡ ok t' → Held t'
  unfolding sys_unset_var
  unset_var-Held t t' m p h e = elim (Option-cases (copy_in max_var_name_len m p)) [
    | inl bad ↦ absurd (ground arith)
    | inr (k, name) ↦ let done : forget t k ≡ ok t' = ground arith in forget-Held t t' k h done
  ]

  apply-Held : (t : Table) (c : VarCall) → Held t → Held (apply t c)
  unfolding apply
  apply-Held t (set_var m p q w) h = kept-Held t _ h λ t' e. set_var-Held t t' m p q w h e
  apply-Held t (unset_var m p) h = kept-Held t _ h λ t' e. unset_var-Held t t' m p h e

  apply_all-Held : (t : Table) (cs : List VarCall) → Held t → Held (apply_all t cs)
  unfolding apply_all
  apply_all-Held t [] h = h
  apply_all-Held t (c ∷ cs) h = apply_all-Held (apply t c) cs (apply-Held t c h)

-- In a table with distinct names, a read-only variable keeps its value and flags through every
-- sequence of `sys_set_var` and `sys_unset_var` with any arguments.
pub lookup-apply_all :
    (n : List ℕ) (v : Var) (t : Table) (cs : List VarCall)
    → v.flags.readonly ≡ true
    → IsUnique t
    → lookup n t ≡ some v
    → lookup n (apply_all t cs) ≡ some v
lookup-apply_all n v t cs fixed unique there =
    (apply_all-Held n v fixed t cs (record { holds = there; unique = unique })).holds
