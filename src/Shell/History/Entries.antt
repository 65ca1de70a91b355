-- ===== src/Shell/History/Entries.antt =====
-- The history as the list of its commands, the oldest first.
use mos_enhanced_shell.Base.{
  ℕ, zero, suc, ◌+◌, ◌-◌, ◌%◌, ◌≤◌, ◌<◌, ◌≡◌, ◌⊎◌, refl, ◌∙◌, sym, inl, inr, Bool, true, false,
  ◌||◌, List, [], ◌∷◌, ◌++◌, arith, ltb, ◌==◌, if◌then◌else◌, text_eq, drop, ap, Bool-cases,
}
use mos_enhanced_shell.Shell.History.{
  History, max_history, is_repeated, store, history_add, saved_from, history_save,
}

pub record IsHistory (h : History) : Type 0 where
  pub head_fits : h.history_head < max_history
  pub count_fits : h.history_count ≤ max_history
  pub tail_is : h.history_tail ≡ (h.history_head + h.history_count) % max_history

abbrev put : (ℕ → List ℕ) → ℕ → List ℕ → ℕ → List ℕ
put buf at cmd i = if i == at then cmd else buf i

saved_from-put :
    (n : ℕ) (buf : ℕ → List ℕ) (at pos : ℕ) (cmd : List ℕ)
    → n < max_history
    → pos < max_history
    → at ≡ (pos + n) % max_history
    → saved_from (suc n) (put buf at cmd) pos ≡ saved_from n buf pos ++ (cmd ∷ [])
unfolding saved_from
saved_from-put zero buf at pos cmd small fits same = ground arith
saved_from-put (suc n) buf at pos cmd small fits same =
    let rest =
      saved_from-put n buf at ((pos + 1) % max_history) cmd (omega arith) (omega arith)
        (omega arith) in
    let other : pos == at ≡ false = ground arith in rw other (ap (λ q. buf pos ∷ q) rest)

-- What the history is after a command is added.
abbrev pub remembered : Bool → List (List ℕ) → List ℕ → List (List ℕ)
remembered full cs cmd = (if full then drop 1 cs else cs) ++ (cmd ∷ [])

store-history_save :
    (h : History) (cmd : List ℕ)
    → IsHistory h
    → IsHistory (store h cmd)
      × (history_save (store h cmd)
          ≡ remembered (h.history_count == max_history) (history_save h) cmd)
unfolding store history_save saved_from
store-history_save h cmd i = elim (Bool-cases (ltb h.history_count max_history)) [
  | inl room ↦
      let more : h.history_count + 1 ≡ suc h.history_count = omega arith in
      let free : h.history_count == max_history ≡ false = ground arith in
      rw (room, free)
        (
          record {
            head_fits = i.head_fits;
            count_fits = ground arith;
            tail_is = omega (arith, i.tail_is);
          },
          ap (λ n. saved_from n (put h.history_buf h.history_tail cmd) h.history_head) more
              ∙ saved_from-put h.history_count h.history_buf h.history_tail h.history_head cmd
                  (ground arith) i.head_fits i.tail_is,
        )
  | inr full ↦
      let all : h.history_count ≡ max_history = ground (arith, i.count_fits) in
      let isfull : h.history_count == max_history ≡ true = ground arith in
      let next = (h.history_head + 1) % max_history in
      let ring : ℕ → List ℕ = put h.history_buf h.history_tail cmd in
      let moved =
        saved_from-put 19 h.history_buf h.history_tail next cmd (omega arith) (omega arith)
          (omega (arith, i.tail_is, i.head_fits)) in
      rw (full, isfull)
        (
          record {
            head_fits = omega arith;
            count_fits = i.count_fits;
            tail_is = omega (arith, i.tail_is, i.head_fits);
          },
          ap (λ n. saved_from n ring next) all
              ∙ moved
              ∙ sym
                  (ap (λ n. drop 1 (saved_from n h.history_buf h.history_head) ++ (cmd ∷ [])) all),
        )
]

-- Whether the last of the commands is this one.
abbrev pub repeats : List (List ℕ) → List ℕ → Bool
repeats [] cmd = false
repeats (x ∷ cs) cmd = elim cs as (λ y. Bool) [ [] ↦ text_eq cmd x | _ ↦ repeats cs cmd ]

count-cases : (n : ℕ) → (n ≡ 0) ⊎ ((m : ℕ) × (n ≡ suc m))
count-cases zero = inl refl
count-cases (suc m) = inr (m, refl)

repeats-saved_from :
    (n : ℕ) (buf : ℕ → List ℕ) (pos : ℕ) (cmd : List ℕ)
    → pos < max_history
    → repeats (saved_from (suc n) buf pos) cmd ≡ text_eq cmd (buf ((pos + n) % max_history))
unfolding saved_from
repeats-saved_from zero buf pos cmd fits =
    let at : (pos + 0) % max_history ≡ pos = omega arith in rw at refl
repeats-saved_from (suc n) buf pos cmd fits =
    let at : ((pos + 1) % max_history + n) % max_history ≡ (pos + suc n) % max_history =
      omega arith in
    repeats-saved_from n buf ((pos + 1) % max_history) cmd (omega arith)
    ∙ ap (λ i. text_eq cmd (buf i)) at

is_repeated-repeats :
    (h : History) (cmd : List ℕ) → IsHistory h → is_repeated h cmd ≡ repeats (history_save h) cmd
unfolding is_repeated history_save
is_repeated-repeats h cmd i = elim (count-cases h.history_count) [
  | inl none_yet ↦
      let empty : ltb 0 h.history_count ≡ false = ground arith in
      rw empty (rw none_yet (unfold saved_from in refl))
  | inr (n, more) ↦
      let some_there : ltb 0 h.history_count ≡ true = ground arith in
      let at : (h.history_tail + max_history - 1) % max_history
          ≡ (h.history_head + n) % max_history =
        omega (arith, i.tail_is, i.head_fits, i.count_fits, more) in
      rw some_there (
        ap (λ j. text_eq cmd (h.history_buf j)) at
        ∙ (sym (repeats-saved_from n h.history_buf h.history_head cmd i.head_fits)
            ∙ ap (λ m. repeats (saved_from m h.history_buf h.history_head) cmd) (sym more)))
]

-- When the ring's positions are in order they stay so after `history_add`; an empty command or one
-- that is the last of the commands that `history_save` writes is not added, and any other becomes
-- the last of these, without the oldest if there were 20.
pub history_add-history_save :
    (h : History) (cmd : List ℕ)
    → IsHistory h
    → IsHistory (history_add h cmd)
      × (history_save (history_add h cmd) ≡ (
          if text_eq cmd [] || repeats (history_save h) cmd
          then history_save h
          else remembered (h.history_count == max_history) (history_save h) cmd))
unfolding history_add
history_add-history_save h [] i = (i, refl)
history_add-history_save h (c ∷ cmd) i =
    let same : repeats (history_save h) (c ∷ cmd) ≡ is_repeated h (c ∷ cmd) =
      sym (is_repeated-repeats h (c ∷ cmd) i) in
    elim (Bool-cases (is_repeated h (c ∷ cmd))) [
      | inl again ↦ rw (same, again) (i, refl)
      | inr fresh ↦ rw (same, fresh) (store-history_save h (c ∷ cmd) i)
    ]
