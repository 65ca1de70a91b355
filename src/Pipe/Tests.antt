-- ===== src/Pipe/Tests.antt =====
-- A pipe whose write position has wrapped past 2 ^ 32, and the theorems at it.
use mos_enhanced_shell.Base.{
  ℕ, ◌+◌, ◌≤◌, ◌<◌, ◌≡◌, refl, Bool, true, false, some, [], ◌∷◌, ◌++◌, arith, ◌==◌, if◌then◌else◌,
  length,
}
use mos_enhanced_shell.Pipe.{
  Pipe, pipe_size, read_byte, write_byte, returned, pipe_read, pipe_write,
}
use mos_enhanced_shell.Pipe.Fifo.{IsPipe, contents, bytes_from}
use mos_enhanced_shell.Pipe.Transfer.{Took, pipe_read-take, pipe_write-append}

-- 7 and 8 on the two sides of the wrap.
abbrev wrapped : Pipe
wrapped = record {
  p_rpos = 4294967295;
  p_wpos = 1;
  p_buf = λ i. if i == 31 then 7 else if i == 0 then 8 else 0;
}

abbrev drained : Pipe
drained = record wrapped { p_rpos = 1 }

abbrev open_ended : ℕ → Bool
open_ended t = false

abbrev shut : ℕ → Bool
shut t = true

abbrev idle : ℕ → Pipe → Pipe
idle t p = p

wrapped-IsPipe : IsPipe wrapped
wrapped-IsPipe = record { rpos_fits = omega arith; wpos_fits = omega arith; apart = omega arith }

contents-wrapped : contents wrapped ≡ 7 ∷ 8 ∷ []
unfolding contents bytes_from
contents-wrapped = refl

contents-there : 0 < length (contents wrapped)
unfolding contents bytes_from
contents-there = omega arith

contents-room : length (contents wrapped) + 2 ≤ pipe_size
unfolding contents bytes_from
contents-room = omega arith

abbrev longer : Pipe
longer = record wrapped {
  p_wpos = 2;
  p_buf = λ i. if i == 1 then 9 else if i == 31 then 7 else if i == 0 then 8 else 0;
}

write_nine : write_byte wrapped 9 ≡ some longer
unfolding write_byte
write_nine = refl

read_seven : read_byte wrapped ≡ some (7, record wrapped { p_rpos = 0 })
unfolding read_byte
read_seven = refl

pipe_read-take_example : Took open_ended idle 9 0 5 [] wrapped
pipe_read-take_example =
    pipe_read-take open_ended idle 9 0 5 wrapped wrapped-IsPipe (omega arith) contents-there

pipe_write-append_example :
    (p' : Pipe) × (pipe_write open_ended idle 2 0 (5 ∷ 6 ∷ []) 0 wrapped
      ≡ returned (0 + length {A = ℕ} (5 ∷ 6 ∷ [])) p')
    × IsPipe p'
    × (contents p' ≡ contents wrapped ++ (5 ∷ 6 ∷ []))
pipe_write-append_example =
    pipe_write-append open_ended idle 2 0 0 (5 ∷ 6 ∷ []) wrapped wrapped-IsPipe (omega arith)
      contents-room

read_at_end : pipe_read shut idle 3 0 1 [] drained ≡ returned [] drained
unfolding pipe_read read_byte
read_at_end = refl
