-- ===== src/Shell/Backticks.antt =====
-- `handle_backticks` of user/sh.c: commands between back quotes are replaced by their output.
-- Running a command and capturing its output is a parameter: it gives a status, an `int` as its
-- bit pattern, the text in `output_buf`, and the state of the world behind it.
use mos_enhanced_shell.Base.{
  ℕ, ◌≡◌, false, zero, suc, ◌+◌, ◌-◌, ◌≤◌, ◌<◌, inl, inr, none, some, List, [], ◌∷◌, ◌++◌, arith,
  leb, ◌==◌, if◌then◌else◌, take, drop, length, length-append, Bool-cases, Option-cases,
}
use mos_enhanced_shell.Strings.Scan.{index_of}
use mos_enhanced_shell.Shell.Chain.{negative}

abbrev pub tick : ℕ
tick = b'`'

-- What the call gives: the text in `cmd_out` and a status, or -1. Without a closing tick the
-- command is in `cmd_out`, and a command between ticks may not fit `sub_cmd`.
pub data Substituted (W : Type 0) : Type 0 where
  done : List ℕ → ℕ → W → Substituted W
  failed : W → Substituted W
  unclosed : List ℕ → W → Substituted W
  overrun : Substituted W
  out_of_fuel : Substituted W

abbrev pub sub_cmd_size : ℕ
sub_cmd_size = 1024

module _ {W : Type 0} (run_and_capture_output : W → List ℕ → ℕ × List ℕ × W) (out_size : ℕ) where
  -- `p_in` is what is left of the command, `out` what is in `cmd_out`.
  unfoldable pub substitute : List ℕ → ℕ → W → List ℕ → List ℕ → ℕ → Substituted W
  substitute cmd_in zero w p_in out captured_cmd_status = out_of_fuel
  substitute cmd_in (suc k) w [] out captured_cmd_status = done out captured_cmd_status w
  substitute cmd_in (suc k) w (c ∷ p) out captured_cmd_status =
      let copied = substitute cmd_in k w p (out ++ (c ∷ [])) captured_cmd_status in
      let quoted : Substituted W = elim (index_of tick p) [
        | none ↦ unclosed cmd_in w
        | some i ↦
            let (cmd_status, output, w') = run_and_capture_output w (take i p) in
            let status = if cmd_status == 0 then captured_cmd_status else cmd_status in
            let rest = substitute cmd_in k w' (drop (suc i) p) (out ++ output) status in
            if leb sub_cmd_size i
            then overrun
            else if negative cmd_status
            then failed w'
            else if leb (out_size - 1) (length out + length output)
            then failed w'
            else rest
      ] in
      if c == tick then quoted else if leb (out_size - 1) (length out) then failed w else copied

  unfoldable pub handle_backticks : ℕ → W → List ℕ → Substituted W
  handle_backticks k w cmd_in = substitute cmd_in k w cmd_in [] 0

  -- The text that is left fits its buffer with its zero byte, no buffer is overrun, and the loop did
  -- not run out of fuel.
  abbrev pub Fits : Substituted W → Type 0
  Fits (done text status w) = length text < out_size
  Fits (failed w) = Unit {0}
  Fits (unclosed text w) = length text < out_size
  Fits overrun = ⊥
  Fits out_of_fuel = ⊥

  index_of-inside : (p : List ℕ) (i : ℕ) → index_of tick p ≡ some i → i < length p
  unfolding index_of
  index_of-inside [] i h = cc
  index_of-inside (c ∷ p) i h = elim (Bool-cases (c == tick)) [
    | inl here ↦ ground arith
    | inr on ↦ elim (Option-cases (index_of tick p)) [
      | inl none_left ↦ absurd (ground arith)
      | inr (j, found) ↦ let less = index_of-inside p j found in ground arith
    ]
  ]

  drop_shorter : (i : ℕ) (p : List ℕ) → length (drop (suc i) p) ≤ length p
  drop_shorter i [] = omega arith
  drop_shorter zero (x ∷ p) = omega arith
  drop_shorter (suc i) (x ∷ p) = omega (arith, drop_shorter i p)

  substitute-Fits :
      (cmd_in : List ℕ) (k : ℕ) (w : W) (p_in out : List ℕ) (status : ℕ)
      → length cmd_in < out_size
      → length p_in ≤ sub_cmd_size
      → length p_in < k
      → length out < out_size
      → Fits (substitute cmd_in k w p_in out status)
  unfolding substitute
  substitute-Fits cmd_in zero w p_in out status whole small fuel room = absurd (omega arith)
  substitute-Fits cmd_in (suc k) w [] out status whole small fuel room = room
  substitute-Fits cmd_in (suc k) w (c ∷ p) out status whole small fuel room =
      elim (Bool-cases (c == tick)) [
        | inr other ↦ elim (Bool-cases (leb (out_size - 1) (length out))) [
          | inl full ↦ rw (other, full) tt
          | inr free ↦
              let more = length-append out (c ∷ []) in
              rw (other, free)
                (substitute-Fits cmd_in k w p (out ++ (c ∷ [])) status whole (omega arith)
                  (omega arith) (ground arith))
        ]
        | inl quote ↦ elim (Option-cases (index_of tick p)) [
          | inl none_left ↦ rw (quote, none_left) whole
          | inr (i, close) ↦
              let (cmd_status, output, w') = run_and_capture_output w (take i p) in
              let inside : leb sub_cmd_size i ≡ false = ground (arith, index_of-inside p i close) in
              elim (Bool-cases (negative cmd_status)) [
                | inl bad ↦ rw (quote, close, inside, bad) tt
                | inr fine ↦ elim (Bool-cases (leb (out_size - 1) (length out + length output))) [
                  | inl full ↦ rw (quote, close, inside, fine, full) tt
                  | inr free ↦
                      let more = length-append out output in
                      let less = drop_shorter i p in
                      rw (quote, close, inside, fine, free)
                        (substitute-Fits cmd_in k w' (drop (suc i) p) (out ++ output) _ whole
                          (omega arith) (omega arith) (ground arith))
                ]
              ]
        ]
      ]

  -- For every command to capture and every command line of at most 1024 bytes that fits the buffer
  -- with its zero byte, with fuel for every byte, `handle_backticks` ends, does not overrun
  -- `sub_cmd`, and a text that it leaves, also without a closing tick, fits the buffer with its
  -- zero byte.
  pub handle_backticks-Fits :
      (k : ℕ) (w : W) (cmd_in : List ℕ)
      → length cmd_in < k
      → length cmd_in < out_size
      → length cmd_in ≤ sub_cmd_size
      → Fits (handle_backticks k w cmd_in)
  unfolding handle_backticks
  handle_backticks-Fits k w cmd_in fuel room small =
      substitute-Fits cmd_in k w cmd_in [] 0 room small fuel (omega arith)
