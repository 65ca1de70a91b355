-- ===== src/Kernel/Vars/Calls.antt =====
-- The system calls on variables, with their arguments in user memory.
use mos_enhanced_shell.Base.{
  ℕ, ◌+◌, ◌≤◌, ◌<◌, ◌≡◌, refl, inl, inr, ◌∙◌, sym, false, none, some, List, arith, if◌then◌else◌,
  length, length-set, set, take, text_eq, text_eq→eq, text_eq_refl, Bool-cases, Option-cases, subst,
}
use mos_enhanced_shell.Memory.{Memory}
use mos_enhanced_shell.Memory.Text.{IsText}
use mos_enhanced_shell.Kernel.Result.{var_not_found, ok, err}
use mos_enhanced_shell.Kernel.User.{utemp, utop, is_illegal_va_range, copy_in, copy_in-take}
use mos_enhanced_shell.Kernel.Vars.{
  Var, Table, find_var, clear_flags, flags_of, assign, fetch, forget, sys_set_var, sys_get_var,
  sys_unset_var, max_var_name_len, max_var_value_len, var_size,
}
use mos_enhanced_shell.Kernel.Vars.Lookup.{
  lookup, IsUnique, find_var-none, find_var-some, lookup-set_unused, IsUnique-set_unused,
  matches→name, found-matches,
}
use mos_enhanced_shell.Kernel.Vars.Laws.{updated, Assigned, assign-Assigned}

-- The string `xs` and its zero byte lie at `p` in the user's part of the address space.
pub record UserText (m : Memory) (p : ℕ) (xs : List ℕ) : Type 0 where
  pub text : IsText m p xs
  pub low : utemp ≤ p
  pub high : p + length xs < utop

-- The name that a call works with: what is copied in.
abbrev pub key : List ℕ → List ℕ
key xs = take max_var_name_len xs

abbrev pub content : List ℕ → List ℕ
content ys = take max_var_value_len ys

copied :
    (n : ℕ) (m : Memory) (p : ℕ) (xs : List ℕ) → UserText m p xs → copy_in n m p ≡ some (take n xs)
copied n m p xs u = copy_in-take n m p xs u.text u.low u.high

sys_set_var-assign :
    (t : Table) (m : Memory) (p q w : ℕ) (xs ys : List ℕ)
    → UserText m p xs
    → UserText m q ys
    → sys_set_var t m p q w ≡ assign t (key xs) (content ys) (flags_of w)
unfolding sys_set_var
sys_set_var-assign t m p q w xs ys u v =
    ground (arith, copied max_var_name_len m p xs u, copied max_var_value_len m q ys v)

-- In a table with distinct names and for strings in the user's memory, a successful `sys_set_var`
-- changes the lookup of its name, cut at 16 bytes, to the value, cut at 16 bytes, and no other
-- lookup; names in use stay distinct and the table keeps its size.
pub sys_set_var-Assigned :
    (t t' : Table) (m : Memory) (p q w : ℕ) (xs ys : List ℕ)
    → IsUnique t
    → UserText m p xs
    → UserText m q ys
    → sys_set_var t m p q w ≡ ok t'
    → Assigned t (key xs) (content ys) (flags_of w) t'
sys_set_var-Assigned t t' m p q w xs ys unique u v e =
    assign-Assigned t t' (key xs) (content ys) (flags_of w) unique
      (sym (sys_set_var-assign t m p q w xs ys u v) ∙ e)

fetch-lookup : (t : Table) (n : List ℕ) (v : Var) → lookup n t ≡ some v → fetch t n ≡ ok v
unfolding fetch
fetch-lookup t n v h = elim (Option-cases (find_var n t)) [
  | inl miss ↦ let no = find_var-none n t miss in cc
  | inr ((i, u), found) ↦ let there = find_var-some n t i u found in ground arith
]

fetch-none : (t : Table) (n : List ℕ) → lookup n t ≡ none → fetch t n ≡ err var_not_found
unfolding fetch
fetch-none t n h = elim (Option-cases (find_var n t)) [
  | inl miss ↦ ground arith
  | inr ((i, u), found) ↦ let there = find_var-some n t i u found in cc
]

-- In a table with distinct names, for strings in the user's memory and a legal buffer, after a
-- successful `sys_set_var` a `sys_get_var` with the same name returns the variable as it was set.
pub sys_get_var-sys_set_var :
    (t t' : Table) (m : Memory) (p q w buf : ℕ) (xs ys : List ℕ)
    → IsUnique t
    → UserText m p xs
    → UserText m q ys
    → is_illegal_va_range buf var_size ≡ false
    → sys_set_var t m p q w ≡ ok t'
    → sys_get_var t' m p buf ≡ ok (updated (lookup (key xs) t) (key xs) (content ys) (flags_of w))
unfolding sys_get_var
sys_get_var-sys_set_var t t' m p q w buf xs ys unique u v legal e =
    let set = sys_set_var-Assigned t t' m p q w xs ys unique u v e in
    let w' = updated (lookup (key xs) t) (key xs) (content ys) (flags_of w) in
    let found : lookup (key xs) t' ≡ some w' =
      set.looked_up (key xs) ∙ rw (text_eq_refl (key xs)) in
    ground (arith, copied max_var_name_len m p xs u, fetch-lookup t' (key xs) w' found)

sys_unset_var-forget :
    (t : Table) (m : Memory) (p : ℕ) (xs : List ℕ)
    → UserText m p xs
    → sys_unset_var t m p ≡ forget t (key xs)
unfolding sys_unset_var
sys_unset_var-forget t m p xs u = ground (arith, copied max_var_name_len m p xs u)

-- The table after a name is unset, as far as lookups can tell.
pub record Forgotten (t : Table) (n : List ℕ) (t' : Table) : Type 0 where
  pub looked_up : (j : List ℕ) → lookup j t' ≡ (if text_eq n j then none else lookup j t)
  pub unique : IsUnique t'
  pub size : length t' ≡ length t

absent-same :
    (t : Table) (n j : List ℕ)
    → lookup n t ≡ none
    → lookup j t ≡ (if text_eq n j then none else lookup j t)
absent-same t n j h = elim (Bool-cases (text_eq n j)) [
  | inl same ↦ rw (same, ← text_eq→eq n j same) h
  | inr other ↦ rw other
]

pub forget-Forgotten :
    (t t' : Table) (n : List ℕ) → IsUnique t → forget t n ≡ ok t' → Forgotten t n t'
unfolding forget
forget-Forgotten t t' n unique e = elim (Option-cases (find_var n t)) [
  | inl miss ↦
      let same : t ≡ t' = ground arith in
      subst (Forgotten t n) same (record {
        looked_up = λ j. absent-same t n j (find_var-none n t miss);
        unique = unique;
        size = refl;
      })
  | inr ((i, v), found) ↦
      let w : Var = record v { flags = clear_flags } in
      let free : w.flags.used ≡ false = unfold clear_flags in refl in
      let same : set t i w ≡ t' = ground arith in
      subst (Forgotten t n) same (record {
        looked_up = λ j. lookup-set_unused n j t i v w unique found free;
        unique =
            IsUnique-set_unused n w (matches→name n v (found-matches n t i v found)).0 t i v free
              unique found;
        size = length-set t i w;
      })
]

-- In a table with distinct names and for a string in the user's memory, a successful
-- `sys_unset_var` removes its name, cut at 16 bytes, and changes no other lookup; names in use
-- stay distinct and the table keeps its size.
pub sys_unset_var-Forgotten :
    (t t' : Table) (m : Memory) (p : ℕ) (xs : List ℕ)
    → IsUnique t
    → UserText m p xs
    → sys_unset_var t m p ≡ ok t'
    → Forgotten t (key xs) t'
sys_unset_var-Forgotten t t' m p xs unique u e =
    forget-Forgotten t t' (key xs) unique (sym (sys_unset_var-forget t m p xs u) ∙ e)
