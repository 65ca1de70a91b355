-- ===== src/Shell/Editor/Tests.antt =====
-- Keys pressed, with a history of two commands, and the theorems at them.
use mos_enhanced_shell.Base.{
  ℕ, ◌≡◌, refl, false, List, [], ◌∷◌, arith, ◌==◌, if◌then◌else◌, text_eq, ◌||◌,
}
use mos_enhanced_shell.Shell.History.{History, max_history, history_add, history_save, is_repeated}
use mos_enhanced_shell.Shell.History.Entries.{
  IsHistory, remembered, repeats, history_add-history_save,
}
use mos_enhanced_shell.Shell.Editor.{
  entered, edit, cut_out, insert, word_start, skip_word, skip_blanks, press, escape, arrow, up,
  left, entry, readline, readline_advanced,
}
use mos_enhanced_shell.Shell.Editor.Zipper.{joined, edited, edit-joined}
use mos_enhanced_shell.Shell.Editor.Word.{IsLastWord}
use mos_enhanced_shell.Shell.Editor.Bounds.{AllFit, Fits, readline_advanced-Fits}

abbrev ls : List ℕ
ls = b'l' ∷ b's' ∷ []

abbrev pwd : List ℕ
pwd = b'p' ∷ b'w' ∷ b'd' ∷ []

-- A full ring whose oldest command is in slot 4.
abbrev full : History
full = record {
  history_buf = λ i. if i == 3 then ls else pwd;
  history_count = 20;
  history_head = 4;
  history_tail = 4;
}

full-IsHistory : IsHistory full
full-IsHistory = record { head_fits = omega arith; count_fits = omega arith; tail_is = refl }

full-AllFit : AllFit full
full-AllFit i = ground arith

not_repeated : is_repeated full pwd ≡ false
unfolding is_repeated
not_repeated = refl

history_add-history_save_example :
    IsHistory (history_add full pwd)
    × (history_save (history_add full pwd) ≡ (
        if text_eq pwd [] || repeats (history_save full) pwd
        then history_save full
        else remembered (full.history_count == max_history) (history_save full) pwd))
history_add-history_save_example = history_add-history_save full pwd full-IsHistory

-- "a", up, left, backspace, return: the newest command, "ls", without its first letter.
abbrev keys : List ℕ
keys = b'a' ∷ 27 ∷ b'[' ∷ b'A' ∷ 27 ∷ b'[' ∷ b'D' ∷ 127 ∷ 13 ∷ []

readline_advanced-keys : readline_advanced 10 1024 full keys false ≡ entered (b's' ∷ []) 1
unfolding readline_advanced readline press escape arrow up left entry edit cut_out insert
readline_advanced-keys = refl

readline_advanced-Fits_example : Fits 1024 (readline_advanced 10 1024 full keys false)
readline_advanced-Fits_example =
    readline_advanced-Fits full full-AllFit 10 1024 keys false (omega arith) (omega arith)

-- Ctrl-W behind "ls ".
edit-word :
    edit 23 (joined (b'p' ∷ b' ' ∷ b'l' ∷ b's' ∷ b' ' ∷ [], pwd)) ≡ joined (b'p' ∷ b' ' ∷ [], pwd)
unfolding edit word_start skip_word skip_blanks cut_out
edit-word = refl

edit-joined_example :
    (n : ℕ) × IsLastWord ls n × (edit 23 (joined (ls, pwd)) ≡ joined (edited n 23 (ls, pwd)))
edit-joined_example = edit-joined 23 (ls, pwd)
