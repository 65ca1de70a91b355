-- ===== src/Strings/Tests.antt =====
-- Runs of the functions of lib/string.c on a small memory, and the theorems at them.
use mos_enhanced_shell.Base.{ℕ, ◌-◌, ◌≡◌, refl, List, [], ◌∷◌, arith, get_or, ltb, if◌then◌else◌}
use mos_enhanced_shell.Memory.{Memory, IsBytes, write, Copied}
use mos_enhanced_shell.Memory.Text.{IsText}
use mos_enhanced_shell.Strings.{less, memmove, memcpy, copy_down}
use mos_enhanced_shell.Strings.Copy.{memmove-Copied}
use mos_enhanced_shell.Strings.Words.{memcpy-Copied}
use mos_enhanced_shell.Strings.Scan.{index_of, address, compare_text}

-- "ls" at 100, "lsx" at 103, zeros elsewhere.
abbrev cells : List ℕ
cells = b'l' ∷ b's' ∷ 0 ∷ b'l' ∷ b's' ∷ b'x' ∷ []

abbrev memory : Memory
memory a = if ltb a 100 then 0 else get_or cells (a - 100) 0

abbrev ls : List ℕ
ls = b'l' ∷ b's' ∷ []

abbrev lsx : List ℕ
lsx = b'l' ∷ b's' ∷ b'x' ∷ []

ls_there : IsText memory 100 ls
ls_there = (refl, ground arith, (refl, ground arith, refl))

lsx_there : IsText memory 103 lsx
lsx_there = (refl, ground arith, (refl, ground arith, (refl, ground arith, refl)))

memory-IsBytes : IsBytes memory
memory-IsBytes a = ground arith

memcpy-Copied_example : Copied memory 96 100 7 (memcpy memory 96 100 7)
memcpy-Copied_example = memcpy-Copied memory memory-IsBytes 96 100 7 (ground arith)

-- Into the middle of the source.
memmove-Copied_example : Copied memory 101 100 5 (memmove memory 101 100 5)
memmove-Copied_example = memmove-Copied memory 101 100 5

compare_text-prefix : compare_text ls lsx ≡ less
unfolding compare_text
compare_text-prefix = refl

strchr-found : address 103 (index_of b's' lsx) ≡ 104
unfolding index_of
strchr-found = refl

-- The two loops of `memmove` differ when the regions overlap.
memmove-overlap : memmove memory 101 100 3 103 ≡ 0
unfolding memmove copy_down write
memmove-overlap = refl
