-- ===== src/Strings/Words.antt =====
-- `memcpy` and `memset`: the loops over bytes and words.
use mos_enhanced_shell.Base.{
  ℕ, zero, suc, ◌+◌, ◌*◌, ◌/◌, ◌%◌, ◌≤◌, ◌<◌, ◌≡◌, ◌⊎◌, inl, inr, Bool, true, ◌&&◌, not, arith, ltb,
  leb, ◌==◌, if◌then◌else◌, Bool-cases, subst,
}
use mos_enhanced_shell.Memory.{Memory, IsBytes, write, Copied, Filled}
use mos_enhanced_shell.Strings.{
  Cursor, step_byte, load_word, store_word, step_word, run, memcpy, set_loop, memset,
}

-- A word written is its four bytes written, lowest first.
store-load_word :
    (m h : Memory) (a c : ℕ)
    → h c < 256
    → h (c + 1) < 256
    → h (c + 2) < 256
    → h (c + 3) < 256
    → store_word m a (load_word h c)
      ≡ write
          (write (write (write m a (h c)) (a + 1) (h (c + 1))) (a + 2) (h (c + 2)))
          (a + 3)
          (h (c + 3))
unfolding store_word load_word
store-load_word m h a c p q r s = ground arith

module _ (m : Memory) (bytes : IsBytes m) (d s n : ℕ) (apart : (d ≤ s) ⊎ (s + n ≤ d)) where
  -- `k` bytes are copied so far.
  record Progress (k : ℕ) (c : Cursor) : Type 0 where
    at_dst : c.dst ≡ d + k
    at_src : c.src ≡ s + k
    within : k ≤ n
    copied : Copied m d s k c.mem

  step_byte-Progress :
      (k : ℕ) (c : Cursor) → Progress k c → k + 1 ≤ n → Progress (k + 1) (step_byte c)
  unfolding step_byte write
  step_byte-Progress k c p room = record {
    at_dst = ground arith;
    at_src = ground arith;
    within = room;
    copied = λ b. ground (arith, p.copied b, p.copied (s + k));
  }

  -- What is still to be copied has not been overwritten.
  ahead :
      (k : ℕ) (c : Cursor) (j : ℕ) → Progress k c → k + j < n → c.mem (c.src + j) ≡ m (s + k + j)
  ahead k c j p room = rw (p.at_src) (ground (arith, p.copied (s + k + j)))

  ahead-lt : (k : ℕ) (c : Cursor) (j : ℕ) → Progress k c → k + j < n → c.mem (c.src + j) < 256
  ahead-lt k c j p room = rw (ahead k c j p room) (bytes (s + k + j))

  step_word-Copied :
      (k : ℕ) (c : Cursor) → Progress k c → k + 4 ≤ n → Copied m d s (k + 4) (step_word c).mem
  unfolding step_word
  step_word-Copied k c p room b =
      rw
        (store-load_word c.mem c.mem c.dst c.src (ground (arith, ahead-lt k c 0 p (omega arith)))
          (ahead-lt k c 1 p (omega arith)) (ahead-lt k c 2 p (omega arith))
          (ahead-lt k c 3 p (omega arith)))
        (unfold write in
          ground (arith, p.copied b, ahead k c 0 p, ahead k c 1 p, ahead k c 2 p, ahead k c 3 p))

  step_word-Progress :
      (k : ℕ) (c : Cursor) → Progress k c → k + 4 ≤ n → Progress (k + 4) (step_word c)
  step_word-Progress k c p room = record {
    at_dst = unfold step_word in ground arith;
    at_src = unfold step_word in ground arith;
    within = room;
    copied = step_word-Copied k c p room;
  }

  module _ (width : ℕ) (test : ℕ → Bool) (step : Cursor → Cursor)
      (fits : (k : ℕ) → test (d + k) ≡ true → k + width ≤ n)
      (keep : (k : ℕ) (c : Cursor)
        → Progress k c
        → k + width ≤ n
        → Progress (k + width) (step c)) where
    -- A loop gets somewhere between where it starts and the end.
    run-Progress :
        (f k : ℕ) (c : Cursor) → Progress k c → (j : ℕ) × (k ≤ j) × Progress j (run f test step c)
    unfolding run
    run-Progress zero k c p = (k, omega arith, p)
    run-Progress (suc f) k c p = elim (Bool-cases (test c.dst)) [
      | inl more ↦
          let room = fits k (rw (← p.at_dst) more) in
          let (j, up, q) = run-Progress f (k + width) (step c) (keep k c p room) in
          rw (more, run) (j, omega arith, q)
      | inr done ↦ rw (done, run) (k, omega arith, p)
    ]

  -- The last loop gets to the end.
  run-step_byte-end :
      (f k : ℕ) (c : Cursor)
      → Progress k c
      → n ≤ k + f
      → Progress n (run f (λ a. ltb a (d + n)) step_byte c)
  unfolding run
  run-step_byte-end zero k c p fuel =
      let e : k ≡ n = omega (arith, p.within) in subst (λ j. Progress j c) e p
  run-step_byte-end (suc f) k c p fuel = elim (Bool-cases (ltb c.dst (d + n))) [
    | inl more ↦
        rw (more, run)
          (run-step_byte-end f (k + 1) (step_byte c)
            (step_byte-Progress k c p (ground (arith, p.at_dst))) (omega arith))
    | inr done ↦
        let e : k ≡ n = ground (arith, p.at_dst, p.within) in
        rw (done, run) (subst (λ j. Progress j c) e p)
  ]

  start : Cursor
  start = record { mem = m; dst = d; src = s }

  start-Progress : Progress 0 start
  unfolding start
  start-Progress = record {
    at_dst = omega arith;
    at_src = omega arith;
    within = omega arith;
    copied = λ b. ground arith;
  }

  -- When the memory holds bytes and the target does not start inside the source, `memcpy` copies
  -- the `n` bytes and writes nothing else, by words or by bytes.
  pub memcpy-Copied : Copied m d s n (memcpy m d s n)
  unfolding memcpy start
  memcpy-Copied = elim (Bool-cases (s % 4 == d % 4)) [
    | inl aligned ↦
        let (j, _, p) =
          run-Progress 1 (λ a. not (a % 4 == 0) && ltb a (d + n)) step_byte (λ k h. ground arith)
            step_byte-Progress n 0 start start-Progress in
        let (i, _, q) =
          run-Progress 4 (λ a. leb (a + 4) (d + n)) step_word (λ k h. ground arith)
            step_word-Progress n j _ p in
        rw aligned (run-step_byte-end n i _ q (omega arith)).copied
    | inr skew ↦ rw skew (run-step_byte-end n 0 start start-Progress (omega arith)).copied
  ]

-- `memset`: `k` bytes are filled so far.
module _ (m : Memory) (d v n : ℕ) where
  record Filling (k : ℕ) (c : Memory × ℕ) : Type 0 where
    at : c.1 ≡ d + k
    within : k ≤ n
    filled : Filled m d v k c.0

  module _ (width : ℕ) (test : ℕ → Bool) (store : Memory → ℕ → Memory)
      (fits : (k : ℕ) → test (d + k) ≡ true → k + width ≤ n)
      (fills : (g : Memory) (a b : ℕ)
        → store g a b ≡ (if leb a b && ltb b (a + width) then v else g b)) where
    step-Filling :
        (k : ℕ) (g : Memory) (a : ℕ)
        → Filling k (g, a)
        → k + width ≤ n
        → Filling (k + width) (store g a, a + width)
    step-Filling k g a p room = record {
      at = ground (arith, p.at);
      within = room;
      filled = λ b. ground (arith, p.at, p.filled b, fills g a b);
    }

    set_loop-Filling :
        (f k : ℕ) (g : Memory) (a : ℕ)
        → Filling k (g, a)
        → (j : ℕ) × (k ≤ j) × Filling j (set_loop f test width store (g, a))
    unfolding set_loop
    set_loop-Filling zero k g a p = (k, omega arith, p)
    set_loop-Filling (suc f) k g a p = elim (Bool-cases (test a)) [
      | inl more ↦
          let room = fits k (rw (← p.at) more) in
          let (j, up, q) =
            set_loop-Filling f (k + width) (store g a) (a + width) (step-Filling k g a p room) in
          rw (more, set_loop) (j, omega arith, q)
      | inr done ↦ rw (done, set_loop) (k, omega arith, p)
    ]

  -- The last loop gets to the end.
  set_loop-end :
      (store : Memory → ℕ → Memory)
      (fills : (g : Memory) (a b : ℕ) → store g a b ≡ (if leb a b && ltb b (a + 1) then v else g b))
      (f k : ℕ) (g : Memory) (a : ℕ)
      → Filling k (g, a)
      → n ≤ k + f
      → Filling n (set_loop f (λ e. ltb e (d + n)) 1 store (g, a))
  unfolding set_loop
  set_loop-end store fills zero k g a p fuel =
      let e : k ≡ n = omega (arith, p.within) in subst (λ j. Filling j (g, a)) e p
  set_loop-end store fills (suc f) k g a p fuel = elim (Bool-cases (ltb a (d + n))) [
    | inl more ↦
        rw (more, set_loop)
          (set_loop-end store fills f (k + 1) (store g a) (a + 1)
            (step-Filling 1 (λ e. ltb e (d + n)) store (λ j h. ground arith) fills k g a p
              (ground (arith, p.at)))
            (omega arith))
    | inr done ↦
        let e : k ≡ n = ground (arith, p.at, p.within) in
        rw (done, set_loop) (subst (λ j. Filling j (g, a)) e p)
  ]

abbrev word_of : ℕ → ℕ
word_of v = v + v * 256 + v * (256 * 256) + v * (256 * 256 * 256)

store_word-word_of :
    (v : ℕ) (g : Memory) (a b : ℕ)
    → v < 256
    → store_word g a (word_of v) b ≡ (if leb a b && ltb b (a + 4) then v else g b)
unfolding store_word write
store_word-word_of v g a b h =
    let low : word_of v % 256 ≡ v = omega arith in
    let second : word_of v / 256 % 256 ≡ v = omega arith in
    let third : word_of v / (256 * 256) % 256 ≡ v = omega arith in
    let top : word_of v / (256 * 256 * 256) % 256 ≡ v = omega arith in
    rw (low, second, third, top) (ground arith)

write-fills :
    (v : ℕ) (g : Memory) (a b : ℕ) → write g a v b ≡ (if leb a b && ltb b (a + 1) then v else g b)
unfolding write
write-fills v g a b = ground arith

-- `memset` writes the low byte of `c` to each of the `n` bytes, whatever the alignment, and
-- nothing else.
pub memset-Filled : (m : Memory) (d c n : ℕ) → Filled m d (c % 256) n (memset m d c n)
unfolding memset
memset-Filled m d c n =
    let v = c % 256 in
    let start : Filling m d v n 0 (m, d) = record {
      at = omega arith;
      within = omega arith;
      filled = λ b. ground arith;
    } in
    let (j, _, p) =
      set_loop-Filling m d v n 1 (λ a. not (a % 4 == 0) && ltb a (d + n)) (λ g a. write g a v)
        (λ k h. ground arith) (write-fills v) n 0 m d start in
    let (i, _, q) =
      set_loop-Filling m d v n 4 (λ a. leb (a + 4) (d + n)) (λ g a. store_word g a (word_of v))
        (λ k h. ground arith) (λ g a b. store_word-word_of v g a b (omega arith)) n j _ _ p in
    (set_loop-end m d v n (λ g a. write g a v) (write-fills v) n i _ _ q (omega arith)).filled
