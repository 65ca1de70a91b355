-- ===== src/Fds/Stream.antt =====
-- What `readn` reads from a device that holds bytes.
use mos_enhanced_shell.Base.{
  ℕ, zero, suc, ◌+◌, ◌-◌, ◌^◌, ◌≤◌, ◌<◌, ◌≡◌, ◌≢◌, refl, sym, ◌∙◌, ap, subst, ◌⊎◌, inl, inr, true,
  false, List, [], ◌∷◌, ◌++◌, arith, ltb, ◌==◌, Bool-cases, ==_refl, List-cases, length,
  length-append, take, drop,
}
use mos_enhanced_shell.Kernel.Result.{Result, ok}
use mos_enhanced_shell.Fds.{
  Fd, Dev, Fds, accmode, o_wronly, set_offset, dev_lookup, fd_lookup, move_read, read, readn,
  prepend,
}

drop-drop : (a b : ℕ) (xs : List ℕ) → drop b (drop a xs) ≡ drop (a + b) xs
drop-drop zero b xs = let same : 0 + b ≡ b = omega arith in rw same refl
drop-drop (suc a) zero [] = let same : suc a + 0 ≡ suc a = omega arith in rw same refl
drop-drop (suc a) (suc b) [] =
    let same : suc a + suc b ≡ suc (a + suc b) = omega arith in rw same refl
drop-drop (suc a) b (x ∷ xs) =
    let same : suc a + b ≡ suc (a + b) = omega arith in rw same (drop-drop a b xs)

take_nil : (k : ℕ) → take {A = ℕ} k [] ≡ []
take_nil zero = refl
take_nil (suc k) = refl

take-split : (m n : ℕ) (xs : List ℕ) → m ≤ n → take m xs ++ take (n - m) (drop m xs) ≡ take n xs
take-split zero n xs h = let same : n - 0 ≡ n = omega arith in rw same refl
take-split (suc m) zero xs h = absurd (omega arith)
take-split (suc m) (suc n) [] h = take_nil (suc n - suc m)
take-split (suc m) (suc n) (x ∷ xs) h =
    let same : suc n - suc m ≡ n - m = omega arith in
    rw same (ap (λ ys. x ∷ ys) (take-split m n xs (omega arith)))

-- A device that holds the bytes `content` for each descriptor: a read gives some of those from the offset on, at least
-- one if there are any, and at most as many as asked for, and takes nothing away.
pub record Holds {W : Type 0} (content : W → ℕ → List ℕ) (dev : Dev W) : Type 0 where
  pub reads :
      (w : W) (i : ℕ) (f : Fd) (n offset : ℕ)
      → offset + n < 2 ^ 32
      → (xs : List ℕ) × (w' : W) × (dev.dev_read w i f n offset ≡ (ok xs, w'))
        × (content w' i ≡ content w i)
        × (xs ≡ take (length xs) (drop offset (content w i)))
        × (length xs ≤ n)
        × ((xs ≢ []) ⊎ (n ≡ 0) ⊎ (drop offset (content w i) ≡ []))

module _ {W : Type 0} (devtab : List (Dev W)) (content : W → ℕ → List ℕ) (dev : Dev W)
    (holds : Holds content dev) where
  -- Descriptor `i` is open on the device for reading.
  pub record IsOpen (s : Fds W) (i : ℕ) : Type 0 where
    pub there : fd_lookup s i ≡ ok i
    pub device : dev_lookup devtab (s.fd i).fd_dev_id ≡ ok dev
    pub readable : (accmode (s.fd i) == o_wronly) ≡ false

  -- A call of `read` that gives `xs`.
  record Step (s : Fds W) (i n : ℕ) (xs : List ℕ) (t : Fds W) : Type 0 where
    ran : read devtab s i n ≡ (ok xs, t)
    open_still : IsOpen t i
    same_content : content t.world i ≡ content s.world i
    moved : (t.fd i).fd_offset ≡ (s.fd i).fd_offset + length xs
    bytes : xs ≡ take (length xs) (drop (s.fd i).fd_offset (content s.world i))
    at_most : length xs ≤ n
    some_byte : (xs ≢ []) ⊎ (n ≡ 0) ⊎ (drop (s.fd i).fd_offset (content s.world i) ≡ [])

  read-move_read :
      (s : Fds W) (i n : ℕ) (r : Result (List ℕ) × W)
      → IsOpen s i
      → dev.dev_read s.world i (s.fd i) n (s.fd i).fd_offset ≡ r
      → read devtab s i n ≡ move_read devtab s i r
  unfolding read
  read-move_read s i n r o ran = ground (arith, o.there, o.device, o.readable, ran)

  fd_lookup-world :
      (s : Fds W) (w : W) (i : ℕ) → fd_lookup (record s { world = w }) i ≡ fd_lookup s i
  unfolding fd_lookup
  fd_lookup-world s w i = refl

  fd_lookup-set_offset : (s : Fds W) (i n j : ℕ) → fd_lookup (set_offset s i n) j ≡ fd_lookup s j
  unfolding fd_lookup set_offset
  fd_lookup-set_offset s i n j = refl

  read-Step :
      (s : Fds W) (i n : ℕ)
      → IsOpen s i
      → (s.fd i).fd_offset + n < 2 ^ 32
      → (xs : List ℕ) × (t : Fds W) × Step s i n xs t
  unfolding move_read set_offset
  read-Step s i n o small =
      let (xs, w, ran, kept, bytes, at_most, some_byte) =
        holds.reads s.world i (s.fd i) n (s.fd i).fd_offset small in
      let here : (i == i) ≡ true = ==_refl i in
      elim (Bool-cases (ltb 0 (length xs))) [
        | inl more ↦ (
          xs,
          set_offset (record s { world = w }) i ((s.fd i).fd_offset + length xs),
          record {
            ran = read-move_read s i n (ok xs, w) o ran ∙ rw more refl;
            open_still = record {
              there =
                  fd_lookup-set_offset (record s { world = w }) i ((s.fd i).fd_offset + length xs) i
                  ∙ (fd_lookup-world s w i ∙ o.there);
              device = rw here o.device;
              readable = rw here o.readable;
            };
            same_content = kept;
            moved = rw here (omega arith);
            bytes = bytes;
            at_most = at_most;
            some_byte = some_byte;
          },
        )
        | inr nothing ↦ (
          xs,
          record s { world = w },
          record {
            ran = read-move_read s i n (ok xs, w) o ran ∙ rw nothing refl;
            open_still = record {
              there = fd_lookup-world s w i ∙ o.there;
              device = o.device;
              readable = o.readable;
            };
            same_content = kept;
            moved = ground arith;
            bytes = bytes;
            at_most = at_most;
            some_byte = some_byte;
          },
        )
      ]

  -- No byte is left.
  ended :
      (k n i : ℕ) (s t : Fds W)
      → Step s i (suc n) [] t
      → (readn devtab (suc k) s i (suc n)
          ≡ (ok (take (suc n) (drop (s.fd i).fd_offset (content s.world i))), t))
        × ((t.fd i).fd_offset
            ≡ (s.fd i).fd_offset
              + length (take (suc n) (drop (s.fd i).fd_offset (content s.world i))))
  unfolding readn
  ended k n i s t step =
      let left : drop (s.fd i).fd_offset (content s.world i) ≡ [] = elim step.some_byte [
        | inl some ↦ absurd (some refl)
        | inr (inl none) ↦ absurd (ground arith)
        | inr (inr end) ↦ end
      ] in
      rw left (ground (arith, step.ran), step.moved)

  -- The bytes of a call and those of the calls behind it.
  joined :
      (k n i : ℕ) (s t u : Fds W) (x : ℕ) (ys : List ℕ)
      → Step s i (suc n) (x ∷ ys) t
      → readn devtab k t i (n - length ys)
        ≡ (ok (take (n - length ys) (drop (t.fd i).fd_offset (content t.world i))), u)
      → (u.fd i).fd_offset
        ≡ (t.fd i).fd_offset
          + length (take (n - length ys) (drop (t.fd i).fd_offset (content t.world i)))
      → (readn devtab (suc k) s i (suc n)
          ≡ (ok (take (suc n) (drop (s.fd i).fd_offset (content s.world i))), u))
        × ((u.fd i).fd_offset
            ≡ (s.fd i).fd_offset
              + length (take (suc n) (drop (s.fd i).fd_offset (content s.world i))))
  unfolding readn
  joined k n i s t u x ys step ran far =
      let held : List ℕ = drop (s.fd i).fd_offset (content s.world i) in
      let m : ℕ = length (x ∷ ys) in
      let next : drop (t.fd i).fd_offset (content t.world i) ≡ drop m held =
        ap (drop (t.fd i).fd_offset) step.same_content
        ∙ (ap (λ o. drop o (content s.world i)) step.moved
            ∙ sym (drop-drop (s.fd i).fd_offset m (content s.world i))) in
      let fewer : suc n - m ≡ n - length ys = omega (arith, step.at_most) in
      let whole : (x ∷ ys) ++ take (n - length ys) (drop m held) ≡ take (suc n) held =
        ap (λ z. z ++ take (n - length ys) (drop m held)) step.bytes
        ∙ (ap (λ z. take m held ++ take z (drop m held)) (sym fewer)
            ∙ take-split m (suc n) held step.at_most) in
      let rest : readn devtab k t i (n - length ys) ≡ (ok (take (n - length ys) (drop m held)), u) =
        rw next at ran in
      let count : (u.fd i).fd_offset
          ≡ (t.fd i).fd_offset + length (take (n - length ys) (drop m held)) =
        rw next at far in
      let state : (read devtab s i (suc n)).1 ≡ t = ap (λ z. z.1) step.ran in
      (
        let not_zero : (suc n == 0) ≡ false = ground arith in
            rw (not_zero, step.ran, fewer)
              (ap (λ z. prepend (x ∷ ys) (readn devtab k z i (n - length ys))) state
                ∙ (ap (prepend (x ∷ ys)) rest ∙ ap (λ z. (ok z, u)) whole)),
        omega (
          arith,
          count,
          step.moved,
          ap length whole,
          length-append (x ∷ ys) (take (n - length ys) (drop m held)),
        ),
      )

  -- On a descriptor that is open for reading on a device that holds bytes and may give them in
  -- parts, if the offset stays below 2 ^ 32, `readn` with more fuel than bytes asked for ends; it
  -- returns the bytes from the offset on, as many as asked for if there are so many, and moves the
  -- offset behind them.
  pub readn-take :
      (k n i : ℕ) (s : Fds W)
      → IsOpen s i
      → (s.fd i).fd_offset + n < 2 ^ 32
      → n < k
      → (t : Fds W) × (readn devtab k s i n
          ≡ (ok (take n (drop (s.fd i).fd_offset (content s.world i))), t))
        × ((t.fd i).fd_offset
            ≡ (s.fd i).fd_offset + length (take n (drop (s.fd i).fd_offset (content s.world i))))
  unfolding readn
  readn-take zero n i s o small fuel = absurd (omega arith)
  readn-take (suc k) zero i s o small fuel = (s, refl, omega arith)
  readn-take (suc k) (suc n) i s o small fuel =
      let (xs, t, step) = read-Step s i (suc n) o small in
      elim (List-cases xs) [
        | inl nothing ↦
            let (got, count) = ended k n i s t (subst (λ ys. Step s i (suc n) ys t) nothing step) in
            (t, got, count)
        | inr (x, ys, more) ↦
            let at : Step s i (suc n) (x ∷ ys) t = subst (λ zs. Step s i (suc n) zs t) more step in
            let before = at.at_most in
            let (u, ran, far) =
              readn-take k (n - length ys) i t at.open_still (omega (arith, at.moved))
                (omega arith) in
            let (got, count) = joined k n i s t u x ys at ran far in (u, got, count)
      ]
