-- ===== src/Pipe/Transfer.antt =====
-- What `pipe_read` and `pipe_write` do to the queue of bytes, and when a read may come back empty.
use mos_enhanced_shell.Base.{
  ℕ, zero, suc, ◌+◌, ◌≤◌, ◌<◌, ◌≡◌, refl, ◌∙◌, sym, inl, inr, ◌⊎◌, Bool, true, false, ◌||◌, none,
  some, List, [], ◌∷◌, ◌++◌, arith, ltb, length, take, drop, ap, Option-cases, length-append,
  append_assoc, append-nil,
}
use mos_enhanced_shell.Pipe.{
  Pipe, pipe_size, read_byte, write_byte, returned, pipe_read, pipe_write,
}
use mos_enhanced_shell.Pipe.Fifo.{
  IsPipe, contents, write_byte-contents, read_byte-contents, write_byte-some, read_byte-some,
}

take-nil : (n : ℕ) → take {A = ℕ} n [] ≡ []
take-nil zero = refl
take-nil (suc n) = refl

drop-nil : (n : ℕ) → drop {A = ℕ} n [] ≡ []
drop-nil zero = refl
drop-nil (suc n) = refl

read_byte-empty : (p : Pipe) → IsPipe p → read_byte p ≡ none → contents p ≡ []
read_byte-empty p h e = nothing (contents p) refl
  where
    nothing : (q : List ℕ) → contents p ≡ q → contents p ≡ []
    nothing [] same = same
    nothing (c ∷ q) same =
        let (d, p', got) = read_byte-some p (rw same (omega arith)) h in absurd (ground arith)

module _ (closed : ℕ → Bool) (others : ℕ → Pipe → Pipe) where
  read_stops :
      (k t n : ℕ) (rbuf : List ℕ) (p : Pipe)
      → read_byte p ≡ none
      → closed t || ltb 0 (length rbuf) ≡ true
      → pipe_read closed others (suc k) t (suc n) rbuf p ≡ returned rbuf p
  unfolding pipe_read
  read_stops k t n rbuf p e stop = rw (e, stop, pipe_read) refl

  read_waits :
      (k t n : ℕ) (rbuf : List ℕ) (p : Pipe)
      → read_byte p ≡ none
      → closed t || ltb 0 (length rbuf) ≡ false
      → pipe_read closed others (suc k) t (suc n) rbuf p
        ≡ pipe_read closed others k (suc t) (suc n) rbuf (others t p)
  unfolding pipe_read
  read_waits k t n rbuf p e on = rw (e, on, pipe_read) refl

  read_goes_on :
      (k t n c : ℕ) (rbuf : List ℕ) (p p' : Pipe)
      → read_byte p ≡ some (c, p')
      → pipe_read closed others (suc k) t (suc n) rbuf p
        ≡ pipe_read closed others k t n (rbuf ++ (c ∷ [])) p'
  unfolding pipe_read
  read_goes_on k t n c rbuf p p' e = rw (e, pipe_read) refl

  write_goes_on :
      (k t i c : ℕ) (wbuf : List ℕ) (p p' : Pipe)
      → write_byte p c ≡ some p'
      → pipe_write closed others (suc k) t (c ∷ wbuf) i p
        ≡ pipe_write closed others k t wbuf (suc i) p'
  unfolding pipe_write
  write_goes_on k t i c wbuf p p' e = rw (e, pipe_write) refl

  -- What a call leaves.
  abbrev pub Took : ℕ → ℕ → ℕ → List ℕ → Pipe → Type 0
  Took k t n rbuf p =
      (p' : Pipe) × (pipe_read closed others k t n rbuf p
        ≡ returned (rbuf ++ take n (contents p)) p')
      × IsPipe p'
      × (contents p' ≡ drop n (contents p))

  take_loop :
      (k t n : ℕ) (rbuf : List ℕ) (p : Pipe)
      → IsPipe p
      → n ≤ k
      → (0 < length (contents p)) ⊎ (0 < length rbuf)
      → Took k t n rbuf p
  unfolding pipe_read
  take_loop k t zero rbuf p h fuel some_there = (p, rw (append-nil rbuf) refl, h, refl)
  take_loop zero t (suc n) rbuf p h fuel some_there = absurd (omega arith)
  take_loop (suc k) t (suc n) rbuf p h fuel some_there = elim (Option-cases (read_byte p)) [
    | inl e ↦
        let empty = read_byte-empty p h e in
        let stop : closed t || ltb 0 (length rbuf) ≡ true = ground (arith, ap length empty) in
        (p, read_stops k t n rbuf p e stop ∙ rw (empty, append-nil rbuf) refl, h, rw empty refl)
    | inr ((c, p'), e) ↦
        let (h', front) = read_byte-contents p p' c h e in
        let grown = length-append rbuf (c ∷ []) in
        let (p'', ran, h'', left) =
          take_loop k t n (rbuf ++ (c ∷ [])) p' h' (omega arith) (inr (omega arith)) in
        (
          p'',
          read_goes_on k t n c rbuf p p' e
              ∙ ran
              ∙ rw (front, append_assoc rbuf (c ∷ []) (take n (contents p'))) refl,
          h'',
          rw front left,
        )
  ]

  -- On a pipe with positions in order that is not empty, with fuel for every byte, a read of `n`
  -- bytes returns them from the front of the queue, all that there are if these are fewer, leaves
  -- the rest, and does not wait.
  pub pipe_read-take :
      (k t n : ℕ) (p : Pipe) → IsPipe p → n ≤ k → 0 < length (contents p) → Took k t n [] p
  pipe_read-take k t n p h fuel there = take_loop k t n [] p h fuel (inl there)

  -- On a pipe with positions in order, with fuel for every byte and room for all, a write puts the
  -- bytes at the end of the queue, counts them, and does not wait.
  pub pipe_write-append :
      (k t i : ℕ) (wbuf : List ℕ) (p : Pipe)
      → IsPipe p
      → length wbuf ≤ k
      → length (contents p) + length wbuf ≤ pipe_size
      → (p' : Pipe) × (pipe_write closed others k t wbuf i p ≡ returned (i + length wbuf) p')
        × IsPipe p'
        × (contents p' ≡ contents p ++ wbuf)
  unfolding pipe_write
  pipe_write-append k t i [] p h fuel room =
      (p, ap (λ n. returned n p) (omega arith), h, sym (append-nil (contents p)))
  pipe_write-append zero t i (c ∷ wbuf) p h fuel room = absurd (omega arith)
  pipe_write-append (suc k) t i (c ∷ wbuf) p h fuel room =
      let (p', e) = write_byte-some p c (omega arith) in
      let (h', back) = write_byte-contents p p' c h e in
      let grown = ap length back ∙ length-append (contents p) (c ∷ []) in
      let (p'', ran, h'', all) =
        pipe_write-append k t (suc i) wbuf p' h' (omega arith) (omega arith) in
      (
        p'',
        write_goes_on k t i c wbuf p p' e ∙ ran ∙ ap (λ n. returned n p'') (omega arith),
        h'',
        all ∙ rw (back, append_assoc (contents p) (c ∷ []) wbuf) refl,
      )
