-- ===== src/Kernel/Cwd.antt =====
-- The working directory of a process: `sys_chdir` and `sys_getcwd` of kern/syscall_all.c.
pub mod Roundtrip
mod Tests
use mos_enhanced_shell.Base.{
  ℕ, zero, suc, ◌+◌, ◌||◌, Bool, Option, none, some, List, [], ◌∷◌, ltb, ◌==◌, if◌then◌else◌,
  length,
}
use mos_enhanced_shell.Memory.{Memory, write}
use mos_enhanced_shell.Kernel.Result.{inval, no_mem, Result, ok, err}
use mos_enhanced_shell.Kernel.User.{is_illegal_va, is_illegal_va_range}

abbrev pub max_path_len : ℕ
max_path_len = 1024

-- The copying loop, with the rounds that are left, and the test behind it, which reads one byte
-- more without a check of its address; `none` for an error.
unfoldable pub copy_path : ℕ → Memory → ℕ → Option (List ℕ)
copy_path zero m p = if m p == 0 then some [] else none
copy_path (suc n) m p =
    let rest = copy_path n m (p + 1) in
    if is_illegal_va p
    then none
    else if m p == 0
    then some []
    else elim rest [ none ↦ none | some xs ↦ some (m p ∷ xs) ]

-- The new working directory.
unfoldable pub sys_chdir : Memory → ℕ → Result (List ℕ)
sys_chdir m user_path = elim (copy_path 1023 m user_path) [ none ↦ err inval | some path ↦ ok path ]

-- `strcpy(buf, curenv->env_cwd)`
unfoldable pub put_text : Memory → ℕ → List ℕ → Memory
put_text m a [] = write m a 0
put_text m a (x ∷ xs) = put_text (write m a x) (a + 1) xs

unfoldable pub sys_getcwd : List ℕ → Memory → ℕ → ℕ → Result Memory
sys_getcwd cwd m buf len =
    if is_illegal_va_range buf len
    then err inval
    else if ltb len (length cwd + 1)
    then err no_mem
    else ok (put_text m buf cwd)
