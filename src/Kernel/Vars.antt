-- ===== src/Kernel/Vars.antt =====
-- The shell variables of a process (include/env.h, kern/syscall_all.c): a table of slots, searched
-- from the front. A `char` array is the string that it holds. The flags are kept as their three
-- named bits and the number that is left above them.
pub mod Lookup
pub mod Laws
pub mod Calls
pub mod Readonly
pub mod Inherit
mod Tests
use mos_enhanced_shell.Base.{
  ℕ, zero, suc, ◌+◌, ◌*◌, ◌/◌, ◌%◌, Bool, true, false, ◌&&◌, ◌||◌, not, Option, none, some, List,
  [], ◌∷◌, ltb, leb, ◌==◌, if◌then◌else◌, length, get_elem?, set, text_eq, map,
}
use mos_enhanced_shell.Memory.{Memory}
use mos_enhanced_shell.Kernel.Result.{Error, inval, no_mem, var_not_found, perm, Result, ok, err}
use mos_enhanced_shell.Kernel.User.{is_illegal_va_range, copy_in}

abbrev pub max_vars : ℕ
max_vars = 64

abbrev pub max_var_name_len : ℕ
max_var_name_len = 16

abbrev pub max_var_value_len : ℕ
max_var_value_len = 16

-- sizeof(struct Var): two arrays of 17 bytes, padded to a word, and the flags.
abbrev pub var_size : ℕ
var_size = 40

pub record Flags : Type 0 where
  pub used : Bool
  pub exported : Bool
  pub readonly : Bool
  pub rest : ℕ

unfoldable pub flags_of : ℕ → Flags
flags_of w = record {
  used = w % 2 == 1;
  exported = w / 2 % 2 == 1;
  readonly = w / 4 % 2 == 1;
  rest = w / 8;
}

pub record Var : Type 0 where
  pub name : List ℕ
  pub value : List ℕ
  pub flags : Flags

abbrev pub Table : Type 0
Table = List Var

unfoldable pub matches : List ℕ → Var → Bool
matches n v = v.flags.used && text_eq v.name n

-- The slot that is found, by its index and contents; `none` for the null pointer.
unfoldable pub find_var : List ℕ → Table → Option (ℕ × Var)
find_var n [] = none
find_var n (v ∷ t) =
    let rest = find_var n t in
    if matches n v then some (0, v) else elim rest [ none ↦ none | some (i, w) ↦ some (suc i, w) ]

-- The loop that looks for a free slot; `none` for -1.
unfoldable pub free_slot : Table → Option ℕ
free_slot [] = none
free_slot (v ∷ t) =
    let rest = free_slot t in
    if not v.flags.used then some 0 else elim rest [ none ↦ none | some i ↦ some (suc i) ]

-- `var->flags |= (flags & (VAR_EXPORT | VAR_READONLY))`
unfoldable pub add_flags : Flags → Flags → Flags
add_flags f g = record f {
  exported = f.exported || g.exported;
  readonly = f.readonly || g.readonly;
}

-- `VAR_USED | flags`
unfoldable pub new_flags : Flags → Flags
new_flags g = record g { used = true }

-- The existing variable in slot `i`.
unfoldable pub overwrite : Table → ℕ → Var → List ℕ → Flags → Result Table
overwrite t i v value g =
    if v.flags.readonly
    then err perm
    else ok (set t i (record v { value = value; flags = add_flags v.flags g }))

-- The part of `sys_set_var` behind the copying loops.
unfoldable pub assign : Table → List ℕ → List ℕ → Flags → Result Table
assign t name value g = elim (find_var name t) [
  | some (i, v) ↦ overwrite t i v value g
  | none ↦ elim (free_slot t) [
    | none ↦ err no_mem
    | some i ↦ ok (set t i (record { name = name; value = value; flags = new_flags g }))
  ]
]

unfoldable pub sys_set_var : Table → Memory → ℕ → ℕ → ℕ → Result Table
sys_set_var t m user_name user_value flags = elim (copy_in max_var_name_len m user_name) [
  | none ↦ err inval
  | some name ↦ elim (copy_in max_var_value_len m user_value) [
    | none ↦ err inval
    | some value ↦ assign t name value (flags_of flags)
  ]
]

-- The variable that is found; the call copies it to the user's buffer.
unfoldable pub fetch : Table → List ℕ → Result Var
fetch t name = elim (find_var name t) [ none ↦ err var_not_found | some (i, v) ↦ ok v ]

unfoldable pub sys_get_var : Table → Memory → ℕ → ℕ → Result Var
sys_get_var t m user_name user_buf = elim (copy_in max_var_name_len m user_name) [
  | none ↦ err inval
  | some name ↦ if is_illegal_va_range user_buf var_size then err inval else fetch t name
]

-- `var->flags = 0` of the slot that is found.
unfoldable pub clear_flags : Flags
clear_flags = record { used = false; exported = false; readonly = false; rest = 0 }

unfoldable pub forget : Table → List ℕ → Result Table
forget t name = elim (find_var name t) [
  | none ↦ ok t
  | some (i, v) ↦
      if v.flags.readonly then err perm else ok (set t i (record v { flags = clear_flags }))
]

unfoldable pub sys_unset_var : Table → Memory → ℕ → Result Table
sys_unset_var t m user_name = elim (copy_in max_var_name_len m user_name) [
  | none ↦ err inval
  | some name ↦ forget t name
]

unfoldable pub sys_get_var_by_index : Table → ℕ → ℕ → Result Var
sys_get_var_by_index t index user_buf =
    if leb max_vars index
    then err inval
    else if is_illegal_va_range user_buf var_size
    then err inval
    else elim (get_elem? t index) [
      | none ↦ err inval
      | some v ↦ if not v.flags.used then err var_not_found else ok v
    ]

-- The loop of `env_alloc` that fills a child's zeroed table.
unfoldable pub zero_var : Var
zero_var = record { name = []; value = []; flags = clear_flags }

unfoldable pub inherit : Table → Table
inherit [] = []
inherit (v ∷ t) = (if v.flags.used && v.flags.exported then v else zero_var) ∷ inherit t
