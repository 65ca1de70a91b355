-- ===== src/Kernel/Cwd/Roundtrip.antt =====
-- A working directory that is set is the one that is got.
use mos_enhanced_shell.Base.{
  ℕ, zero, suc, ◌+◌, ◌≤◌, ◌<◌, ◌≡◌, ◌⊎◌, inl, false, none, some, List, [], ◌∷◌, arith, ltb,
  if◌then◌else◌, length,
}
use mos_enhanced_shell.Memory.{Memory, write}
use mos_enhanced_shell.Memory.Text.{IsText}
use mos_enhanced_shell.Kernel.Result.{inval, ok, err}
use mos_enhanced_shell.Kernel.User.{utemp, utop, is_illegal_va, is_illegal_va_range, NoZero}
use mos_enhanced_shell.Kernel.Vars.Calls.{UserText}
use mos_enhanced_shell.Kernel.Cwd.{copy_path, sys_chdir, put_text, sys_getcwd}

copy_path-IsText :
    (n : ℕ) (m : Memory) (p : ℕ) (xs : List ℕ)
    → IsText m p xs
    → utemp ≤ p
    → p + length xs < utop
    → copy_path n m p ≡ (if ltb n (length xs) then none else some xs)
unfolding copy_path is_illegal_va
copy_path-IsText zero m p [] t lo hi = ground arith
copy_path-IsText zero m p (x ∷ xs) t lo hi = ground arith
copy_path-IsText (suc n) m p [] t lo hi = ground arith
copy_path-IsText (suc n) m p (x ∷ xs) t lo hi = ground (arith, copy_path-IsText n m (p + 1) xs t.2)

-- `sys_chdir` takes a string in the user's memory if it has at most 1023 bytes, and refuses it if
-- it is longer.
pub sys_chdir-IsText :
    (m : Memory) (p : ℕ) (xs : List ℕ)
    → UserText m p xs
    → sys_chdir m p ≡ (if ltb 1023 (length xs) then err inval else ok xs)
unfolding sys_chdir
sys_chdir-IsText m p xs u = ground (arith, copy_path-IsText 1023 m p xs u.text u.low u.high)

IsText-NoZero : (m : Memory) (p : ℕ) (xs : List ℕ) → IsText m p xs → NoZero xs
IsText-NoZero m p [] t = tt
IsText-NoZero m p (x ∷ xs) t = (t.1, IsText-NoZero m (p + 1) xs t.2)

put_text-outside :
    (m : Memory) (a b : ℕ) (xs : List ℕ) → (b < a) ⊎ (a + length xs < b) → put_text m a xs b ≡ m b
unfolding put_text write
put_text-outside m a b [] out = ground arith
put_text-outside m a b (x ∷ xs) out = ground (arith, put_text-outside (write m a x) (a + 1) b xs)

put_text-IsText : (m : Memory) (a : ℕ) (xs : List ℕ) → NoZero xs → IsText (put_text m a xs) a xs
unfolding put_text write
put_text-IsText m a [] h = ground arith
put_text-IsText m a (x ∷ xs) h = (
  ground (arith, put_text-outside (write m a x) (a + 1) a xs (inl (omega arith))),
  h.0,
  put_text-IsText (write m a x) (a + 1) xs h.1,
)

-- What `sys_getcwd` leaves of a working directory in a buffer of `len` bytes.
pub record Got (m : Memory) (buf len : ℕ) (cwd : List ℕ) (g : Memory) : Type 0 where
  pub text : IsText g buf cwd
  pub outside : (b : ℕ) → (b < buf) ⊎ (buf + len ≤ b) → g b ≡ m b

-- A string of at most 1023 bytes in the user's memory is taken by `sys_chdir`, and `sys_getcwd`
-- then writes it to a legal buffer with room for it, and nothing outside the buffer.
pub sys_getcwd-sys_chdir :
    (m : Memory) (p buf len : ℕ) (xs : List ℕ)
    → UserText m p xs
    → length xs ≤ 1023
    → is_illegal_va_range buf len ≡ false
    → length xs < len
    → (g : Memory) × (sys_chdir m p ≡ ok xs) × (sys_getcwd xs m buf len ≡ ok g) × Got m buf len xs g
unfolding sys_getcwd
sys_getcwd-sys_chdir m p buf len xs u short legal room = (
  put_text m buf xs,
  ground (arith, sys_chdir-IsText m p xs u),
  ground arith,
  record {
    text = put_text-IsText m buf xs (IsText-NoZero m p xs u.text);
    outside = λ b out. put_text-outside m buf b xs (ground arith);
  },
)
