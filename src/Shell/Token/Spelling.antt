-- ===== src/Shell/Token/Spelling.antt =====
-- Tokens written out with spaces between them are read back.
use mos_enhanced_shell.Base.{
  ℕ, zero, suc, ◌<◌, ◌≡◌, refl, ◌∙◌, true, some, List, [], ◌∷◌, ◌++◌, arith, length,
}
use mos_enhanced_shell.Shell.Chars.{is_symbol, skip_space}
use mos_enhanced_shell.Shell.Token.{
  Token, word, append_to, symbol, is_word, word_text, word_rest, token_at, gettoken, tokens,
}

abbrev pub AllWord : List ℕ → Type 0
AllWord [] = Unit {0}
AllWord (c ∷ s) = (is_word c ≡ true) × AllWord s

-- A token that a line can hold.
abbrev pub IsToken : Token → Type 0
IsToken (word []) = ⊥
IsToken (word (c ∷ s)) = AllWord (c ∷ s)
IsToken append_to = Unit {0}
IsToken (symbol c) = is_symbol c ≡ true

abbrev pub AllTokens : List Token → Type 0
AllTokens [] = Unit {0}
AllTokens (t ∷ ts) = IsToken t × AllTokens ts

abbrev pub text : Token → List ℕ
text (word s) = s
text append_to = b'>' ∷ b'>' ∷ []
text (symbol c) = c ∷ []

abbrev blank : ℕ
blank = b' '

-- Each token with a space behind it.
unfoldable pub spelling : List Token → List ℕ
spelling [] = []
spelling (t ∷ ts) = text t ++ (blank ∷ spelling ts)

word_text-blank : (s q : List ℕ) → AllWord s → word_text (s ++ (blank ∷ q)) ≡ s
unfolding word_text
word_text-blank [] q h = refl
word_text-blank (c ∷ s) q h = rw (h.0, word_text-blank s q h.1) refl

word_rest-blank : (s q : List ℕ) → AllWord s → word_rest (s ++ (blank ∷ q)) ≡ blank ∷ q
unfolding word_rest
word_rest-blank [] q h = refl
word_rest-blank (c ∷ s) q h = rw (h.0, word_rest-blank s q h.1) refl

gettoken-text :
    (t : Token) (q : List ℕ) → IsToken t → gettoken (text t ++ (blank ∷ q)) ≡ some (t, blank ∷ q)
unfolding gettoken token_at skip_space
gettoken-text (word []) q h = absurd h
gettoken-text (word (c ∷ s)) q h =
    ground (arith, word_text-blank (c ∷ s) q h, word_rest-blank (c ∷ s) q h)
gettoken-text append_to q h = refl
gettoken-text (symbol c) q h = ground arith

gettoken-blank : (q : List ℕ) → gettoken (blank ∷ q) ≡ gettoken q
unfolding gettoken skip_space
gettoken-blank q = refl

tokens-blank : (k : ℕ) (q : List ℕ) → tokens k (blank ∷ q) ≡ tokens k q
unfolding tokens
tokens-blank zero q = refl
tokens-blank (suc k) q = rw (gettoken-blank q, tokens) refl

tokens-cons :
    (k : ℕ) (t : Token) (ts : List Token)
    → gettoken (spelling (t ∷ ts)) ≡ some (t, blank ∷ spelling ts)
    → tokens k (blank ∷ spelling ts) ≡ some ts
    → tokens (suc k) (spelling (t ∷ ts)) ≡ some (t ∷ ts)
unfolding tokens
tokens-cons k t ts e rest = rw (e, tokens) (rw rest refl)

-- With fuel for every token and one more, words, symbols and ">>" that a line can hold, each
-- written with a space behind it, are read back by the tokenizer.
pub tokens-spelling :
    (k : ℕ) (ts : List Token) → AllTokens ts → length ts < k → tokens k (spelling ts) ≡ some ts
unfolding tokens spelling
tokens-spelling zero ts h fuel = absurd (omega arith)
tokens-spelling (suc k) [] h fuel = unfold gettoken token_at skip_space in refl
tokens-spelling (suc k) (t ∷ ts) h fuel =
    let rest = tokens-blank k (spelling ts) ∙ tokens-spelling k ts h.1 (omega arith) in
    tokens-cons k t ts (gettoken-text t (spelling ts) h.0) rest
