-- ===== src/Kernel/Vars/Inherit.antt =====
-- The variables that a child process starts with.
use mos_enhanced_shell.Base.{
  ℕ, ◌≡◌, refl, inl, inr, ◌∙◌, true, false, ◌&&◌, Option, none, some, List, [], ◌∷◌, arith,
  if◌then◌else◌, length, Bool-cases, text_eq_refl, ap, suc,
}
use mos_enhanced_shell.Kernel.Vars.{Var, Table, matches, clear_flags, inherit, zero_var}
use mos_enhanced_shell.Kernel.Vars.Lookup.{lookup, IsUnique, lookup-eq_none, matches→name}

-- A variable that a child sees.
abbrev pub if_exported : Option Var → Option Var
if_exported none = none
if_exported (some v) = if v.flags.exported then some v else none

matches-zero_var : (n : List ℕ) → matches n zero_var ≡ false
unfolding matches zero_var clear_flags
matches-zero_var n = refl

-- When the parent's table has distinct names, a name in the child's table has the parent's
-- variable if that is exported, and none otherwise.
pub lookup-inherit :
    (n : List ℕ) (t : Table) → IsUnique t → lookup n (inherit t) ≡ if_exported (lookup n t)
unfolding lookup inherit
lookup-inherit n [] h = refl
lookup-inherit n (v ∷ t) h = ground (
  arith,
  matches-zero_var n,
  lookup-inherit n t h.1,
  matches→name n v,
  text_eq_refl n,
  lookup-eq_none n n v t h.0,
)

pub length-inherit : (t : Table) → length (inherit t) ≡ length t
unfolding inherit
length-inherit [] = refl
length-inherit (v ∷ t) = ap suc (length-inherit t)

-- The child's table has distinct names in use when the parent's has.
pub inherit-IsUnique : (t : Table) → IsUnique t → IsUnique (inherit t)
unfolding inherit
inherit-IsUnique [] h = tt
inherit-IsUnique (v ∷ t) h = elim (Bool-cases (v.flags.used && v.flags.exported)) [
  | inl passed ↦
      rw passed ((λ live. lookup-inherit v.name t h.1 ∙ rw (h.0 live)), inherit-IsUnique t h.1)
  | inr dropped ↦ rw dropped ((λ live. unused live), inherit-IsUnique t h.1)
]
  where
    unused : zero_var.flags.used ≡ true → lookup zero_var.name (inherit t) ≡ none
    unused live = absurd (unfold zero_var clear_flags in ground arith)
