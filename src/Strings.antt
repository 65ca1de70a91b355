-- ===== src/Strings.antt =====
-- lib/string.c. The functions that only read return an option: `none` when the fuel runs out.
-- Those that write return the new memory. A loop that counts down its own argument recurs on it;
-- a loop that runs until a pointer passes `max` or a zero byte is met runs on fuel.
pub mod Copy
pub mod Scan
pub mod Words
mod Tests
use mos_enhanced_shell.Base.{
  ℕ, zero, suc, ◌+◌, ◌-◌, ◌*◌, ◌/◌, ◌%◌, Bool, true, false, ◌&&◌, not, Option, none, some, ltb, leb,
  ◌==◌, if◌then◌else◌,
}
use mos_enhanced_shell.Memory.{Memory, write}

pub strlen_loop : ℕ → Memory → ℕ → ℕ → Option ℕ
strlen_loop zero m s n = none
strlen_loop (suc k) m s n =
    let rest = strlen_loop k m (s + 1) (n + 1) in if m s == 0 then some n else rest

pub strlen : ℕ → Memory → ℕ → Option ℕ
strlen k m s = strlen_loop k m s 0

-- `while ((*dst++ = *src++) != 0)`; the result pointer is `dst`, so only the memory is returned.
pub strcpy : ℕ → Memory → ℕ → ℕ → Option Memory
strcpy zero m dst src = none
strcpy (suc k) m dst src =
    let rest = strcpy k (write m dst (m src)) (dst + 1) (src + 1) in
    if m src == 0 then some (write m dst (m src)) else rest

-- The result is the address found, or `null` (0).
pub strchr : ℕ → Memory → ℕ → ℕ → Option ℕ
strchr zero m s c = none
strchr (suc k) m s c =
    let rest = strchr k m (s + 1) c in
    if m s == 0 then some 0 else if m s == c then some s else rest

pub data Order : Type 0 where
  less same more : Order

-- -1, 0 and 1 are the three cases of `Order`.
pub strcmp : ℕ → Memory → ℕ → ℕ → Option Order
strcmp zero m p q = none
strcmp (suc k) m p q =
    let rest = strcmp k m (p + 1) (q + 1) in
    if not (m p == 0) && m p == m q
    then rest
    else some (if ltb (m p) (m q) then less else if ltb (m q) (m p) then more else same)

-- Copying forwards, `n` bytes: `while (n-- > 0) *d++ = *s++`.
pub copy_up : ℕ → Memory → ℕ → ℕ → Memory
copy_up zero m d s = m
copy_up (suc n) m d s = copy_up n (write m d (m s)) (d + 1) (s + 1)

-- Copying backwards, `n` bytes that end before `d` and `s`: `while (n-- > 0) *--d = *--s`.
pub copy_down : ℕ → Memory → ℕ → ℕ → Memory
copy_down zero m d s = m
copy_down (suc n) m d s = copy_down n (write m (d - 1) (m (s - 1))) (d - 1) (s - 1)

pub memmove : Memory → ℕ → ℕ → ℕ → Memory
memmove m dst src n =
    if ltb src dst && ltb dst (src + n)
    then copy_down n m (dst + n) (src + n)
    else copy_up n m dst src

-- The padding loop `for (; i < n; i++) dst[i] = '\0'`, with `n` rounds left.
pub pad : ℕ → Memory → ℕ → Memory
pad zero m d = m
pad (suc n) m d = pad n (write m d 0) (d + 1)

-- The copying loop, with `n` rounds left; it hands over to the padding loop at a zero byte.
pub strncpy : ℕ → Memory → ℕ → ℕ → Memory
strncpy zero m dst src = m
strncpy (suc n) m dst src =
    let rest = strncpy n (write m dst (m src)) (dst + 1) (src + 1) in
    if m src == 0 then pad (suc n) m dst else rest

-- The local variables of `memcpy`.
pub record Cursor : Type 0 where
  pub mem : Memory
  pub dst : ℕ
  pub src : ℕ

pub step_byte : Cursor → Cursor
step_byte c = record { mem = write c.mem c.dst (c.mem c.src); dst = c.dst + 1; src = c.src + 1 }

pub load_word : Memory → ℕ → ℕ
load_word m a = m a + 256 * m (a + 1) + 256 * 256 * m (a + 2) + 256 * 256 * 256 * m (a + 3)

pub store_word : Memory → ℕ → ℕ → Memory
store_word m a w =
    write
      (write (write (write m a (w % 256)) (a + 1) (w / 256 % 256)) (a + 2) (w / (256 * 256) % 256))
      (a + 3) (w / (256 * 256 * 256) % 256)

pub step_word : Cursor → Cursor
step_word c = record {
  mem = store_word c.mem c.dst (load_word c.mem c.src);
  dst = c.dst + 4;
  src = c.src + 4;
}

-- A loop of `memcpy`: it goes on while its test holds of `dst` and `max`.
pub run : ℕ → (ℕ → Bool) → (Cursor → Cursor) → Cursor → Cursor
run zero test step c = c
run (suc k) test step c = elim (test c.dst) [ true ↦ run k test step (step c) | false ↦ c ]

pub memcpy : Memory → ℕ → ℕ → ℕ → Memory
memcpy m dst src n =
    let max = dst + n in
    let start : Cursor = record { mem = m; dst = dst; src = src } in
    let bytes : Cursor → Cursor = run n (λ d. ltb d max) step_byte in
    if not (src % 4 == dst % 4)
    then (bytes start).mem
    else (let head : Cursor = run n (λ d. not (d % 4 == 0) && ltb d max) step_byte start in
        let body : Cursor = run n (λ d. leb (d + 4) max) step_word head in (bytes body).mem)

-- The three loops of `memset`, in the same way.
pub set_loop : ℕ → (ℕ → Bool) → ℕ → (Memory → ℕ → Memory) → Memory × ℕ → Memory × ℕ
set_loop zero test width store (m, d) = (m, d)
set_loop (suc k) test width store (m, d) = elim (test d) [
  | true ↦ set_loop k test width store (store m d, d + width)
  | false ↦ (m, d)
]

pub memset : Memory → ℕ → ℕ → ℕ → Memory
memset m dst c n =
    let max = dst + n in
    let byte = c % 256 in
    let word = byte + byte * 256 + byte * (256 * 256) + byte * (256 * 256 * 256) in
    let head = set_loop n (λ d. not (d % 4 == 0) && ltb d max) 1 (λ g d. write g d byte) (m, dst) in
    let body = set_loop n (λ d. leb (d + 4) max) 4 (λ g d. store_word g d word) head in
    (set_loop n (λ d. ltb d max) 1 (λ g d. write g d byte) body).0
