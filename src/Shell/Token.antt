-- ===== src/Shell/Token.antt =====
-- The tokenizer of user/sh.c: `_gettoken`, and the sequence that `gettoken` hands to `parsecmd`.
-- The text of a word is what lies between `*p1` and `*p2`; the zero byte behind it is written when
-- the next token is read.
pub mod Spelling
use mos_enhanced_shell.Base.{
  ℕ, zero, suc, Bool, true, false, ◌&&◌, ◌||◌, not, Option, none, some, List, [], ◌∷◌, ◌==◌,
  if◌then◌else◌, get_or, drop,
}
use mos_enhanced_shell.Shell.Chars.{is_space, is_symbol, skip_space}

-- 'w', 'a' for ">>", and the symbols by themselves.
pub data Token : Type 0 where
  word : List ℕ → Token
  append_to : Token
  symbol : ℕ → Token

abbrev pub is_word : ℕ → Bool
is_word c = not (is_space c || is_symbol c)

-- `while (*s && !strchr(WHITESPACE SYMBOLS, *s)) s++`: the word and what is behind it.
unfoldable pub word_text : List ℕ → List ℕ
word_text [] = []
word_text (c ∷ s) = let rest = word_text s in if is_word c then c ∷ rest else []

unfoldable pub word_rest : List ℕ → List ℕ
word_rest [] = []
word_rest (c ∷ s) = let rest = word_rest s in if is_word c then rest else c ∷ s

-- `none` for 0: no token is left.
unfoldable pub token_at : List ℕ → Option (Token × List ℕ)
token_at [] = none
token_at (c ∷ s) =
    if c == b'>' && get_or s 0 0 == b'>'
    then some (append_to, drop 1 s)
    else if is_symbol c
    then some (symbol c, s)
    else some (word (word_text (c ∷ s)), word_rest (c ∷ s))

unfoldable pub gettoken : List ℕ → Option (Token × List ℕ)
gettoken s = token_at (skip_space s)

-- The tokens until there is none; `none` without fuel.
unfoldable pub tokens : ℕ → List ℕ → Option (List Token)
tokens zero s = none
tokens (suc k) s = elim (gettoken s) [
  | none ↦ some []
  | some (t, rest) ↦ elim (tokens k rest) [ none ↦ none | some ts ↦ some (t ∷ ts) ]
]
