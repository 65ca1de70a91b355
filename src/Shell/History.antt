-- ===== src/Shell/History.antt =====
-- The history of user/lib/shellio.c: a ring of the last 20 commands. Reading and writing its file
-- is left out, but for the lines that are written.
pub mod Entries
use mos_enhanced_shell.Base.{
  ℕ, zero, suc, ◌+◌, ◌-◌, ◌%◌, Bool, true, false, ◌&&◌, ◌||◌, List, [], ◌∷◌, ◌++◌, ltb, ◌==◌,
  if◌then◌else◌, text_eq,
}

abbrev pub max_history : ℕ
max_history = 20

pub record History : Type 0 where
  pub history_buf : ℕ → List ℕ
  pub history_count : ℕ
  pub history_head : ℕ
  pub history_tail : ℕ

-- `history_count > 0 && strcmp(cmd, <the command before history_tail>) == 0`
unfoldable pub is_repeated : History → List ℕ → Bool
is_repeated h cmd =
    ltb 0 h.history_count
    && text_eq cmd (h.history_buf ((h.history_tail + max_history - 1) % max_history))

-- A command is put in at the end, over the oldest if the ring is full.
unfoldable pub store : History → List ℕ → History
store h cmd =
    let put = record h {
      history_buf = λ i. if i == h.history_tail then cmd else h.history_buf i;
      history_tail = (h.history_tail + 1) % max_history;
    } in
    if ltb h.history_count max_history
    then record put { history_count = h.history_count + 1 }
    else record put { history_head = (h.history_head + 1) % max_history }

unfoldable pub history_add : History → List ℕ → History
history_add h [] = h
history_add h (c ∷ cmd) = if is_repeated h (c ∷ cmd) then h else store h (c ∷ cmd)

-- The loop of `history_save`: the commands in the order in which they are written.
unfoldable pub saved_from : ℕ → (ℕ → List ℕ) → ℕ → List (List ℕ)
saved_from zero buf current = []
saved_from (suc n) buf current = buf current ∷ saved_from n buf ((current + 1) % max_history)

unfoldable pub history_save : History → List (List ℕ)
history_save h = saved_from h.history_count h.history_buf h.history_head
