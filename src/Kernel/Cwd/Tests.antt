-- ===== src/Kernel/Cwd/Tests.antt =====
-- "/usr" as a working directory, and the theorem at it.
use mos_enhanced_shell.Base.{
  ℕ, ◌+◌, ◌-◌, ◌≡◌, refl, false, List, [], ◌∷◌, arith, ltb, if◌then◌else◌, get_or,
}
use mos_enhanced_shell.Memory.{Memory}
use mos_enhanced_shell.Kernel.Result.{ok}
use mos_enhanced_shell.Kernel.User.{is_illegal_va_range}
use mos_enhanced_shell.Kernel.Vars.Calls.{UserText}
use mos_enhanced_shell.Kernel.Cwd.{sys_chdir, sys_getcwd}
use mos_enhanced_shell.Kernel.Cwd.Roundtrip.{Got, sys_getcwd-sys_chdir}

abbrev base : ℕ
base = 0x400000

abbrev usr : List ℕ
usr = b'/' ∷ b'u' ∷ b's' ∷ b'r' ∷ []

abbrev memory : Memory
memory a = if ltb a base then 0 else get_or usr (a - base) 0

usr_there : UserText memory base usr
usr_there = record {
  text =
      (refl, ground arith, (refl, ground arith, (refl, ground arith, (refl, ground arith, refl))));
  low = omega arith;
  high = omega arith;
}

legal_buffer : is_illegal_va_range (base + 64) 16 ≡ false
unfolding is_illegal_va_range
legal_buffer = refl

sys_getcwd-sys_chdir_example :
    (g : Memory) × (sys_chdir memory base ≡ ok usr)
    × (sys_getcwd usr memory (base + 64) 16 ≡ ok g)
    × Got memory (base + 64) 16 usr g
sys_getcwd-sys_chdir_example =
    sys_getcwd-sys_chdir memory base (base + 64) 16 usr usr_there (omega arith) legal_buffer
      (omega arith)
