-- ===== src/Pipe.antt =====
-- user/lib/pipe.c: a ring of 32 bytes, with 32-bit positions that count on past its end. While one
-- side waits in `syscall_yield` the others run: what they do to the pipe at the `t`-th yield, and
-- what `_pipe_is_closed` answers then, are parameters. A call is not interrupted between yields.
pub mod Fifo
pub mod Transfer
mod Tests
use mos_enhanced_shell.Base.{
  ℕ, zero, suc, ◌+◌, ◌-◌, ◌%◌, ◌^◌, Bool, true, false, ◌||◌, Option, none, some, List, [], ◌∷◌,
  ◌++◌, ltb, ◌==◌, if◌then◌else◌, length,
}

abbrev pub pipe_size : ℕ
pipe_size = 32

pub record Pipe : Type 0 where
  pub p_rpos : ℕ
  pub p_wpos : ℕ
  pub p_buf : ℕ → ℕ

-- `p->p_wpos - p->p_rpos`, an unsigned difference
abbrev pub used : Pipe → ℕ
used p = (p.p_wpos + 2 ^ 32 - p.p_rpos) % 2 ^ 32

-- One round of the loop of `pipe_read`; `none` when the pipe is empty.
unfoldable pub read_byte : Pipe → Option (ℕ × Pipe)
read_byte p =
    if p.p_rpos == p.p_wpos
    then none
    else some (p.p_buf (p.p_rpos % pipe_size), record p { p_rpos = (p.p_rpos + 1) % 2 ^ 32 })

-- One round of the loop of `pipe_write`; `none` when the pipe is full.
unfoldable pub write_byte : Pipe → ℕ → Option Pipe
write_byte p c =
    if used p == pipe_size
    then none
    else some (record p {
      p_buf = λ i. if i == p.p_wpos % pipe_size then c else p.p_buf i;
      p_wpos = (p.p_wpos + 1) % 2 ^ 32;
    })

-- A round of `_pipe_is_closed`: `env_runs` before and after the two counts are read.
pub record Sample : Type 0 where
  pub runs : ℕ
  pub fd_ref : ℕ
  pub pipe_ref : ℕ
  pub runs_after : ℕ

-- `_pipe_is_closed`, `none` when the rounds end.
unfoldable pub closed_by_counts : List Sample → Option Bool
closed_by_counts [] = none
closed_by_counts (s ∷ more) =
    let again = closed_by_counts more in
    if s.runs == s.runs_after then some (s.fd_ref == s.pipe_ref) else again

-- The bytes that were read, or the number that was written, and the pipe.
pub data Transferred (A : Type 0) : Type 0 where
  returned : A → Pipe → Transferred A
  out_of_fuel : Transferred A

module _ (closed : ℕ → Bool) (others : ℕ → Pipe → Pipe) where
  -- With `n` bytes to go after `rbuf`, behind `t` yields.
  unfoldable pub pipe_read : ℕ → ℕ → ℕ → List ℕ → Pipe → Transferred (List ℕ)
  pipe_read k t zero rbuf p = returned rbuf p
  pipe_read zero t (suc n) rbuf p = out_of_fuel
  pipe_read (suc k) t (suc n) rbuf p =
      let wait = pipe_read k (suc t) (suc n) rbuf (others t p) in
      elim (read_byte p) [
        | none ↦ if closed t || ltb 0 (length rbuf) then returned rbuf p else wait
        | some (c, p') ↦ pipe_read k t n (rbuf ++ (c ∷ [])) p'
      ]

  -- With `wbuf` to go after `i` bytes, behind `t` yields.
  unfoldable pub pipe_write : ℕ → ℕ → List ℕ → ℕ → Pipe → Transferred ℕ
  pipe_write k t [] i p = returned i p
  pipe_write zero t (c ∷ wbuf) i p = out_of_fuel
  pipe_write (suc k) t (c ∷ wbuf) i p =
      let wait = pipe_write k (suc t) (c ∷ wbuf) i (others t p) in
      elim (write_byte p c) [
        | none ↦ if closed t then returned i p else wait
        | some p' ↦ pipe_write k t wbuf (suc i) p'
      ]
