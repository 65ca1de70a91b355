-- ===== src/Shell/Chars.antt =====
-- The character classes of user/sh.c, the first word of a command, and `my_strstr`.
use mos_enhanced_shell.Base.{
  ℕ, zero, suc, ◌-◌, Bool, true, false, ◌&&◌, ◌||◌, not, Option, none, some, List, [], ◌∷◌, leb,
  ◌==◌, if◌then◌else◌,
}

-- `strchr(WHITESPACE, c)`
abbrev pub is_space : ℕ → Bool
is_space c = c == b' ' || (c == 9 || (c == 13 || c == 10))

-- `strchr(SYMBOLS, c)`
abbrev pub is_symbol : ℕ → Bool
is_symbol c =
    c == b'<'
    || (c == b'|' || (c == b'>' || (c == b'&' || (c == b';' || (c == b'(' || c == b')')))))

abbrev pub isalnum : ℕ → Bool
isalnum c = (leb b'a' c && leb c b'z') || ((leb b'A' c && leb c b'Z') || (leb b'0' c && leb c b'9'))

unfoldable pub skip_space : List ℕ → List ℕ
skip_space [] = []
skip_space (c ∷ s) = let rest = skip_space s in if is_space c then rest else c ∷ s

-- The loop that copies, with room for `n` bytes.
unfoldable pub word_prefix : ℕ → List ℕ → List ℕ
word_prefix zero s = []
word_prefix (suc n) [] = []
word_prefix (suc n) (c ∷ s) =
    let rest = word_prefix n s in if not (is_space c) && not (is_symbol c) then c ∷ rest else []

unfoldable pub peek_first_word : List ℕ → ℕ → List ℕ
peek_first_word buf word_buf_len = word_prefix (word_buf_len - 1) (skip_space buf)

-- The inner loop of `my_strstr` and its test.
unfoldable pub starts_with : List ℕ → List ℕ → Bool
starts_with [] h = true
starts_with (n ∷ ns) [] = false
starts_with (n ∷ ns) (h ∷ hs) = let rest = starts_with ns hs in h == n && rest

-- The offset of the first occurrence of `needle`, `none` for the null pointer.
unfoldable pub my_strstr : List ℕ → List ℕ → Option ℕ
my_strstr needle [] = if starts_with needle [] then some 0 else none
my_strstr needle (h ∷ hs) =
    let rest = my_strstr needle hs in
    if starts_with needle (h ∷ hs)
    then some 0
    else elim rest [ none ↦ none | some i ↦ some (suc i) ]
