-- ===== src/Memory.antt =====
-- Byte-addressed memory, as the C code reads and writes it through `char *`.
-- An address is a number and pointer arithmetic does not wrap: the objects of the program never
-- reach over the end of the address space.
pub mod Text
use mos_enhanced_shell.Base.{ℕ, ◌+◌, ◌-◌, ◌<◌, ◌≡◌, ◌&&◌, ltb, leb, ◌==◌, if◌then◌else◌}

abbrev pub Memory : Type 0
Memory = ℕ → ℕ

-- Every cell holds a byte.
abbrev pub IsBytes : Memory → Type 0
IsBytes m = (a : ℕ) → m a < 256

-- `*a = v`
unfoldable pub write : Memory → ℕ → ℕ → Memory
write m a v b = if b == a then v else m b

-- `g` is `m` with the `n` bytes from `src` on copied to `dst`.
abbrev pub Copied : Memory → ℕ → ℕ → ℕ → Memory → Type 0
Copied m dst src n g =
    (b : ℕ) → g b ≡ (if leb dst b && ltb b (dst + n) then m (src + (b - dst)) else m b)

-- `g` is `m` with `v` in the `n` bytes from `dst` on.
abbrev pub Filled : Memory → ℕ → ℕ → ℕ → Memory → Type 0
Filled m dst v n g = (b : ℕ) → g b ≡ (if leb dst b && ltb b (dst + n) then v else m b)
