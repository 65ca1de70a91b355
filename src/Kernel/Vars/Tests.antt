-- ===== src/Kernel/Vars/Tests.antt =====
-- Runs of the calls on variables, and the theorems at them.
use mos_enhanced_shell.Base.{
  ℕ, ◌+◌, ◌-◌, ◌≡◌, refl, true, false, none, some, List, [], ◌∷◌, arith, get_or, ltb, if◌then◌else◌,
}
use mos_enhanced_shell.Memory.{Memory}
use mos_enhanced_shell.Kernel.Result.{ok, err, perm}
use mos_enhanced_shell.Kernel.User.{is_illegal_va, is_illegal_va_range, copy_in}
use mos_enhanced_shell.Kernel.Vars.{
  Var, Table, matches, find_var, add_flags, overwrite, assign, flags_of, forget, clear_flags,
  sys_set_var, sys_get_var, sys_unset_var, var_size,
}
use mos_enhanced_shell.Kernel.Vars.Lookup.{lookup, IsUnique}
use mos_enhanced_shell.Kernel.Vars.Laws.{updated, Assigned}
use mos_enhanced_shell.Kernel.Vars.Calls.{
  UserText, key, content, sys_set_var-Assigned, sys_get_var-sys_set_var, Forgotten,
  sys_unset_var-Forgotten,
}
use mos_enhanced_shell.Kernel.Vars.Readonly.{
  VarCall, set_var, unset_var, apply_all, lookup-apply_all,
}
use mos_enhanced_shell.Kernel.Vars.{inherit}
use mos_enhanced_shell.Kernel.Vars.Inherit.{if_exported, lookup-inherit}

abbrev base : ℕ
base = 0x400000

-- "PATH", "/" and "X" in user memory.
abbrev cells : List ℕ
cells = b'P' ∷ b'A' ∷ b'T' ∷ b'H' ∷ 0 ∷ b'/' ∷ 0 ∷ b'X' ∷ 0 ∷ []

abbrev memory : Memory
memory a = if ltb a base then 0 else get_or cells (a - base) 0

abbrev path : List ℕ
path = b'P' ∷ b'A' ∷ b'T' ∷ b'H' ∷ []

abbrev slash_text : List ℕ
slash_text = b'/' ∷ []

abbrev x_name : List ℕ
x_name = b'X' ∷ []

path_there : UserText memory base path
path_there = record {
  text =
      (refl, ground arith, (refl, ground arith, (refl, ground arith, (refl, ground arith, refl))));
  low = omega arith;
  high = omega arith;
}

slash_there : UserText memory (base + 5) slash_text
slash_there = record { text = (refl, ground arith, refl); low = omega arith; high = omega arith }

x_there : UserText memory (base + 7) x_name
x_there = record { text = (refl, ground arith, refl); low = omega arith; high = omega arith }

abbrev fixed_x : Var
fixed_x = record {
  name = x_name;
  value = slash_text;
  flags = record { used = true; exported = true; readonly = true; rest = 0 };
}

abbrev old_path : Var
old_path = record {
  name = path;
  value = [];
  flags = record { used = true; exported = false; readonly = false; rest = 0 };
}

abbrev unused : Var
unused = record {
  name = [];
  value = [];
  flags = record { used = false; exported = false; readonly = false; rest = 0 };
}

abbrev table : Table
table = fixed_x ∷ old_path ∷ unused ∷ []

table-IsUnique : IsUnique table
unfolding lookup matches
table-IsUnique = ((λ _. refl), ((λ _. refl), ((λ _. refl), tt)))

-- PATH=/ exported.
abbrev after : Table
after =
    fixed_x
    ∷ (record old_path {
      value = slash_text;
      flags = record { used = true; exported = true; readonly = false; rest = 0 };
    })
    ∷ unused
    ∷ []

set_path : sys_set_var table memory base (base + 5) 3 ≡ ok after
unfolding sys_set_var copy_in is_illegal_va assign find_var matches overwrite add_flags flags_of
set_path = refl

set_readonly : sys_set_var table memory (base + 7) (base + 5) 1 ≡ err perm
unfolding sys_set_var copy_in is_illegal_va assign find_var matches overwrite
set_readonly = refl

sys_set_var-Assigned_example : Assigned table (key path) (content slash_text) (flags_of 3) after
sys_set_var-Assigned_example =
    sys_set_var-Assigned table after memory base (base + 5) 3 path slash_text table-IsUnique
      path_there slash_there set_path

legal_buffer : is_illegal_va_range base var_size ≡ false
unfolding is_illegal_va_range
legal_buffer = refl

sys_get_var-sys_set_var_example :
    sys_get_var after memory base base
    ≡ ok (updated (lookup (key path) table) (key path) (content slash_text) (flags_of 3))
sys_get_var-sys_set_var_example =
    sys_get_var-sys_set_var table after memory base (base + 5) 3 base path slash_text table-IsUnique
      path_there slash_there legal_buffer set_path

unset_path :
    sys_unset_var table memory base
    ≡ ok (fixed_x ∷ (record old_path { flags = clear_flags }) ∷ unused ∷ [])
unfolding sys_unset_var copy_in is_illegal_va forget find_var matches
unset_path = refl

sys_unset_var-Forgotten_example :
    Forgotten table (key path) (fixed_x ∷ (record old_path { flags = clear_flags }) ∷ unused ∷ [])
sys_unset_var-Forgotten_example =
    sys_unset_var-Forgotten table
      (fixed_x ∷ (record old_path { flags = clear_flags }) ∷ unused ∷ []) memory base path
      table-IsUnique path_there unset_path

abbrev calls : List VarCall
calls =
    set_var memory (base + 7) (base + 5) 1
    ∷ set_var memory base (base + 5) 3
    ∷ unset_var memory (base + 7)
    ∷ []

lookup-x : lookup x_name table ≡ some fixed_x
unfolding lookup matches
lookup-x = refl

lookup-apply_all_example : lookup x_name (apply_all table calls) ≡ some fixed_x
lookup-apply_all_example = lookup-apply_all x_name fixed_x table calls refl table-IsUnique lookup-x

lookup-inherit_example : lookup path (inherit table) ≡ if_exported (lookup path table)
lookup-inherit_example = lookup-inherit path table table-IsUnique

lookup-inherited :
    (if_exported (lookup path table) ≡ none) × (if_exported (lookup x_name table) ≡ some fixed_x)
unfolding lookup matches
lookup-inherited = (refl, refl)
