-- ===== src/Fds/File.antt =====
-- Reading a file through its descriptor: `file_read` of user/lib/file.c. A file is shorter than
-- 2 ^ 31 bytes, so that a number of bytes is not taken for an error.
use mos_enhanced_shell.Base.{
  ℕ, zero, suc, ◌+◌, ◌-◌, ◌%◌, ◌^◌, ◌≤◌, ◌<◌, ◌≡◌, ◌≢◌, refl, sym, ◌∙◌, ap, inl, inr, ◌⊎◌, true,
  false, List, [], ◌∷◌, arith, ltb, if◌then◌else◌, Bool-cases, length, take, drop,
}
use mos_enhanced_shell.Kernel.Result.{Result, ok}
use mos_enhanced_shell.Fds.{Fd, Dev, Fds, readn}
use mos_enhanced_shell.Fds.Stream.{Holds, IsOpen, readn-take}

-- By the number of the descriptor: `f_file.f_size` of the `struct Filefd`, and the bytes from
-- `fd2data` on, where the blocks of the file are mapped.
pub record Filefd : Type 0 where
  pub f_size : ℕ → ℕ
  pub fd2data : ℕ → ℕ → ℕ

-- `n` bytes from `at` on.
unfoldable pub bytes_from : ℕ → ℕ → (ℕ → ℕ) → List ℕ
bytes_from zero at bytes = []
bytes_from (suc n) at bytes = bytes at ∷ bytes_from n (at + 1) bytes

unfoldable pub file_read : Filefd → ℕ → Fd → ℕ → ℕ → Result (List ℕ) × Filefd
file_read w i f n offset =
    let size = w.f_size i in
    let count = if ltb size ((offset + n) % 2 ^ 32) then size - offset else n in
    if ltb size offset then (ok [], w) else (ok (bytes_from count offset (w.fd2data i)), w)

-- The bytes of the file.
abbrev pub file_bytes : Filefd → ℕ → List ℕ
file_bytes w i = bytes_from (w.f_size i) 0 (w.fd2data i)

length-bytes_from : (n at : ℕ) (bytes : ℕ → ℕ) → length (bytes_from n at bytes) ≡ n
unfolding bytes_from
length-bytes_from zero at bytes = refl
length-bytes_from (suc n) at bytes = omega (arith, length-bytes_from n (at + 1) bytes)

drop-bytes_from :
    (k n at : ℕ) (bytes : ℕ → ℕ)
    → drop k (bytes_from n at bytes) ≡ bytes_from (n - k) (at + k) bytes
unfolding bytes_from
drop-bytes_from zero n at bytes =
    let all : n - 0 ≡ n = omega arith in let here : at + 0 ≡ at = omega arith in rw (all, here) refl
drop-bytes_from (suc k) zero at bytes =
    let none_left : zero - suc k ≡ 0 = omega arith in rw none_left refl
drop-bytes_from (suc k) (suc n) at bytes =
    let less : suc n - suc k ≡ n - k = omega arith in
    let further : at + suc k ≡ at + 1 + k = omega arith in
    rw (less, further) (drop-bytes_from k n (at + 1) bytes)

take-bytes_from :
    (k n at : ℕ) (bytes : ℕ → ℕ)
    → take k (bytes_from n at bytes) ≡ bytes_from (if ltb n k then n else k) at bytes
unfolding bytes_from
take-bytes_from zero n at bytes = let none_yet : ltb n 0 ≡ false = ground arith in rw none_yet refl
take-bytes_from (suc k) zero at bytes =
    let short : ltb 0 (suc k) ≡ true = ground arith in rw short refl
take-bytes_from (suc k) (suc n) at bytes = elim (Bool-cases (ltb n k)) [
  | inl over ↦
      let same : ltb (suc n) (suc k) ≡ true = ground arith in
      rw same (ap (λ xs. bytes at ∷ xs) (take-bytes_from k n (at + 1) bytes ∙ rw over refl))
  | inr fits ↦
      let same : ltb (suc n) (suc k) ≡ false = ground arith in
      rw same (ap (λ xs. bytes at ∷ xs) (take-bytes_from k n (at + 1) bytes ∙ rw fits refl))
]

-- What is read are bytes of the file.
bytes_from-part :
    (w : Filefd) (i count offset : ℕ)
    → offset + count ≤ w.f_size i
    → bytes_from count offset (w.fd2data i)
      ≡ take (length (bytes_from count offset (w.fd2data i))) (drop offset (file_bytes w i))
bytes_from-part w i count offset inside =
    let far : (ltb (w.f_size i - offset) count) ≡ false = ground arith in
    rw
      (
        length-bytes_from count offset (w.fd2data i),
        drop-bytes_from offset (w.f_size i) 0 (w.fd2data i),
        take-bytes_from count (w.f_size i - offset) (0 + offset) (w.fd2data i),
        far,
      )
      (let at : 0 + offset ≡ offset = omega arith in rw at refl)

-- Nothing behind the end of the file.
past_end : (w : Filefd) (i offset : ℕ) → w.f_size i ≤ offset → drop offset (file_bytes w i) ≡ []
past_end w i offset past =
    let nothing : w.f_size i - offset ≡ 0 = omega arith in
    drop-bytes_from offset (w.f_size i) 0 (w.fd2data i) ∙ rw nothing (unfold bytes_from in refl)

bytes_from-some : (n at : ℕ) (bytes : ℕ → ℕ) → (n ≡ 0) ⊎ (bytes_from n at bytes ≢ [])
unfolding bytes_from
bytes_from-some zero at bytes = inl refl
bytes_from-some (suc n) at bytes = inr (λ e. cc)

-- Reading inside the file.
inside-some :
    (w : Filefd) (i n count offset : ℕ)
    → (count ≡ n) ⊎ (offset + count ≡ w.f_size i)
    → (bytes_from count offset (w.fd2data i) ≢ []) ⊎ (n ≡ 0) ⊎ (drop offset (file_bytes w i) ≡ [])
inside-some w i n count offset reach = elim (bytes_from-some count offset (w.fd2data i)) [
  | inr there ↦ inl there
  | inl nothing ↦ elim reach [
    | inl all ↦ inr (inl (sym all ∙ nothing))
    | inr to_end ↦ inr (inr (past_end w i offset (omega arith)))
  ]
]

pub file_read-Holds : (dev : Dev Filefd) → dev.dev_read ≡ file_read → Holds file_bytes dev
unfolding file_read
file_read-Holds dev same = record {
  reads = λ w i f n offset small.
      let size : ℕ = w.f_size i in
      let exact : (offset + n) % 2 ^ 32 ≡ offset + n = omega arith in
      let runs : dev.dev_read w i f n offset ≡ file_read w i f n offset =
        ap (λ g. g w i f n offset) same in
      elim (Bool-cases (ltb (w.f_size i) offset)) [
        | inl past ↦ (
          [],
          w,
          runs ∙ rw past refl,
          refl,
          refl,
          omega arith,
          inr (inr (past_end w i offset (ground arith))),
        )
        | inr there ↦
            let count : ℕ = if ltb (w.f_size i) (offset + n) then w.f_size i - offset else n in
            let inside : offset + count ≤ w.f_size i = ground arith in
            (
              bytes_from count offset (w.fd2data i),
              w,
              runs ∙ rw (there, exact) refl,
              refl,
              bytes_from-part w i count offset inside,
              ground (arith, length-bytes_from count offset (w.fd2data i)),
              inside-some w i n count offset (ground arith),
            )
      ];
}

-- On a descriptor that is open for reading on a device that reads by `file_read`, if the offset
-- stays below 2 ^ 32, `readn` with more fuel than bytes asked for ends; it returns the bytes of
-- the file from the offset on, as many as asked for if there are so many, and moves the offset
-- behind them.
pub readn-file_read :
    (devtab : List (Dev Filefd)) (dev : Dev Filefd) (same : dev.dev_read ≡ file_read) (k n i : ℕ)
    (s : Fds Filefd)
    → IsOpen devtab file_bytes dev (file_read-Holds dev same) s i
    → (s.fd i).fd_offset + n < 2 ^ 32
    → n < k
    → (t : Fds Filefd) × (readn devtab k s i n
        ≡ (ok (take n (drop (s.fd i).fd_offset (file_bytes s.world i))), t))
      × ((t.fd i).fd_offset
          ≡ (s.fd i).fd_offset + length (take n (drop (s.fd i).fd_offset (file_bytes s.world i))))
readn-file_read devtab dev same k n i s =
    readn-take devtab file_bytes dev (file_read-Holds dev same) k n i s
