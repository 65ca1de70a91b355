-- ===== src/Pipe/Fifo.antt =====
-- The ring as a queue of at most 32 bytes.
use mos_enhanced_shell.Base.{
  ℕ, zero, suc, ◌+◌, ◌%◌, ◌^◌, ◌≤◌, ◌<◌, ◌≡◌, refl, ◌∙◌, inl, inr, false, some, List, [], ◌∷◌, ◌++◌,
  arith, ◌==◌, if◌then◌else◌, length, ap, subst, Bool-cases,
}
use mos_enhanced_shell.Pipe.{Pipe, pipe_size, used, read_byte, write_byte}

-- The positions are 32-bit numbers, at most 32 apart.
pub record IsPipe (p : Pipe) : Type 0 where
  pub rpos_fits : p.p_rpos < 2 ^ 32
  pub wpos_fits : p.p_wpos < 2 ^ 32
  pub apart : used p ≤ pipe_size

-- The `n` bytes from position `pos` on.
unfoldable pub bytes_from : (ℕ → ℕ) → ℕ → ℕ → List ℕ
bytes_from buf zero pos = []
bytes_from buf (suc n) pos = buf (pos % pipe_size) ∷ bytes_from buf n ((pos + 1) % 2 ^ 32)

unfoldable pub contents : Pipe → List ℕ
contents p = bytes_from p.p_buf (used p) p.p_rpos

length-bytes_from : (buf : ℕ → ℕ) (n pos : ℕ) → length (bytes_from buf n pos) ≡ n
unfolding bytes_from
length-bytes_from buf zero pos = refl
length-bytes_from buf (suc n) pos = ap suc (length-bytes_from buf n ((pos + 1) % 2 ^ 32))

pub length-contents : (p : Pipe) → length (contents p) ≡ used p
unfolding contents
length-contents p = length-bytes_from p.p_buf (used p) p.p_rpos

abbrev put : (ℕ → ℕ) → ℕ → ℕ → ℕ → ℕ
put buf w c i = if i == w % pipe_size then c else buf i

bytes_from-put :
    (buf : ℕ → ℕ) (w c n pos : ℕ)
    → n < pipe_size
    → w ≡ (pos + n) % 2 ^ 32
    → pos < 2 ^ 32
    → bytes_from (put buf w c) (suc n) pos ≡ bytes_from buf n pos ++ (c ∷ [])
unfolding bytes_from
bytes_from-put buf w c zero pos small at fits = ground arith
bytes_from-put buf w c (suc n) pos small at fits =
    let rest =
      bytes_from-put buf w c n ((pos + 1) % 2 ^ 32) (omega arith) (omega arith) (omega arith) in
    let other : (pos % pipe_size) == (w % pipe_size) ≡ false = ground arith in
    rw other (ap (λ q. buf (pos % pipe_size) ∷ q) rest)

-- When the positions of the pipe are 32-bit numbers at most 32 apart, so are those after a byte is
-- written, and the byte is the last of the queue.
pub write_byte-contents :
    (p p' : Pipe) (c : ℕ)
    → IsPipe p
    → write_byte p c ≡ some p'
    → IsPipe p' × (contents p' ≡ contents p ++ (c ∷ []))
unfolding write_byte contents
write_byte-contents p p' c h e = elim (Bool-cases (used p == pipe_size)) [
  | inl full ↦ absurd (ground arith)
  | inr free ↦
      let q : Pipe = record p {
        p_buf = put p.p_buf p.p_wpos c;
        p_wpos = (p.p_wpos + 1) % 2 ^ 32;
      } in
      let same : q ≡ p' = ground arith in
      let more : used q ≡ suc (used p) = ground (arith, h.apart, h.rpos_fits, h.wpos_fits) in
      let ring =
        bytes_from-put p.p_buf p.p_wpos c (used p) p.p_rpos (ground (arith, h.apart))
          (omega (arith, h.rpos_fits, h.wpos_fits)) h.rpos_fits in
      subst (λ r. IsPipe r × (contents r ≡ contents p ++ (c ∷ []))) same
        (
          record {
            rpos_fits = h.rpos_fits;
            wpos_fits = omega arith;
            apart = ground (arith, more, h.apart);
          },
          ap (λ n. bytes_from q.p_buf n p.p_rpos) more ∙ ring,
        )
]

-- When the positions of the pipe are 32-bit numbers at most 32 apart, so are those after a byte is
-- read, and the byte was the first of the queue.
pub read_byte-contents :
    (p p' : Pipe) (c : ℕ)
    → IsPipe p
    → read_byte p ≡ some (c, p')
    → IsPipe p' × (contents p ≡ c ∷ contents p')
unfolding read_byte contents bytes_from
read_byte-contents p p' c h e = elim (Bool-cases (p.p_rpos == p.p_wpos)) [
  | inl empty ↦ absurd (ground arith)
  | inr more ↦
      let q : Pipe = record p { p_rpos = (p.p_rpos + 1) % 2 ^ 32 } in
      let same : q ≡ p' = ground arith in
      let head : p.p_buf (p.p_rpos % pipe_size) ≡ c = ground arith in
      let less : used p ≡ suc (used q) = ground (arith, h.rpos_fits, h.wpos_fits) in
      subst (λ r. IsPipe r × (contents p ≡ c ∷ contents r)) same
        (
          record {
            rpos_fits = omega arith;
            wpos_fits = h.wpos_fits;
            apart = ground (arith, less, h.apart);
          },
          ap (λ n. bytes_from p.p_buf n p.p_rpos) less ∙ ap (λ x. x ∷ contents q) head,
        )
]

pub write_byte-some :
    (p : Pipe) (c : ℕ) → length (contents p) < pipe_size → (p' : Pipe) × (write_byte p c ≡ some p')
unfolding write_byte
write_byte-some p c room =
    let free : used p == pipe_size ≡ false = ground (arith, length-contents p) in
    (record p { p_buf = put p.p_buf p.p_wpos c; p_wpos = (p.p_wpos + 1) % 2 ^ 32 }, rw free refl)

pub read_byte-some :
    (p : Pipe)
    → 0 < length (contents p)
    → IsPipe p
    → (c : ℕ) × (p' : Pipe) × (read_byte p ≡ some (c, p'))
unfolding read_byte
read_byte-some p there h =
    let more : p.p_rpos == p.p_wpos ≡ false = ground (arith, length-contents p, h.rpos_fits) in
    (p.p_buf (p.p_rpos % pipe_size), record p { p_rpos = (p.p_rpos + 1) % 2 ^ 32 }, rw more refl)
