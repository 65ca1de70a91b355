-- ===== src/Kernel/Result.antt =====
-- include/error.h, and the result of a system call: a value, or the negated error code.
pub data Error : Type 0 where
  unspecified bad_env inval no_mem no_sys no_free_env ipc_not_recv no_disk max_open : Error
  not_found bad_path file_exists not_exec not_a_dir var_not_found perm : Error

pub data Result {ℓ} (A : Type ℓ) : Type ℓ where
  ok : A → Result A
  err : Error → Result A

-- The `try` macro of include/error.h, and the guards `if (...) return -E;`.
infixl 5 ◌>>=◌
abbrev pub ◌>>=◌ {ℓ κ} : {A : Type ℓ} {B : Type κ} → Result A → (A → Result B) → Result B
ok a >>= f = f a
err e >>= f = err e
