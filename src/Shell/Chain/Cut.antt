-- ===== src/Shell/Chain/Cut.antt =====
-- The search for a separator against one scan of the line.
use mos_enhanced_shell.Base.{
  ℕ, suc, ◌<◌, ◌≡◌, refl, ◌∙◌, inl, inr, Bool, true, false, not, Option, none, some, List, [], ◌∷◌,
  arith, ◌==◌, if◌then◌else◌, length, ap, subst, Option-cases,
}
use mos_enhanced_shell.Strings.Scan.{index_of}
use mos_enhanced_shell.Shell.Chars.{my_strstr, starts_with}
use mos_enhanced_shell.Shell.Chain.{
  and_text, or_text, earlier, separator, is_semi, sep_len, should_run_next,
}

pub data Sep : Type 0 where
  semi and_then or_else : Sep

-- What a separator that starts here is.
unfoldable pub sep_at : List ℕ → Option Sep
sep_at line =
    if starts_with (b';' ∷ []) line
    then some semi
    else if starts_with and_text line
    then some and_then
    else if starts_with or_text line
    then some or_else
    else none

abbrev pub width : Sep → ℕ
width semi = 1
width and_then = 2
width or_else = 2

-- The first separator: where it is and what it is.
unfoldable pub cut : List ℕ → Option (ℕ × Sep)
cut [] = none
cut (c ∷ line) =
    let rest = cut line in
    elim (sep_at (c ∷ line)) [
      | some s ↦ some (0, s)
      | none ↦ elim rest [ none ↦ none | some (i, s) ↦ some (suc i, s) ]
    ]

-- Whether a command behind the separator runs.
abbrev pub goes_on : Sep → ℕ → Bool
goes_on semi s = true
goes_on and_then s = s == 0
goes_on or_else s = not (s == 0)

-- A separator found, as the loop of the shell sees it.
pub record Found (line : List ℕ) (i : ℕ) (s : Sep) : Type 0 where
  pub at : separator line ≡ some i
  pub len : sep_len i line ≡ width s
  pub next : (status : ℕ) → should_run_next i line status ≡ goes_on s status
  pub inside : i < length line

abbrev shift : Option ℕ → Option ℕ
shift none = none
shift (some i) = some (suc i)

index_of-skip :
    (x c : ℕ) (line : List ℕ) → c == x ≡ false → index_of x (c ∷ line) ≡ shift (index_of x line)
unfolding index_of
index_of-skip x c line h = elim (Option-cases (index_of x line)) [
  | inl e ↦ ground arith
  | inr (i, e) ↦ ground arith
]

my_strstr-skip :
    (needle : List ℕ) (c : ℕ) (line : List ℕ)
    → starts_with needle (c ∷ line) ≡ false
    → my_strstr needle (c ∷ line) ≡ shift (my_strstr needle line)
unfolding my_strstr
my_strstr-skip needle c line h = elim (Option-cases (my_strstr needle line)) [
  | inl e ↦ ground arith
  | inr (i, e) ↦ ground arith
]

my_strstr-here :
    (needle : List ℕ) (c : ℕ) (line : List ℕ)
    → starts_with needle (c ∷ line) ≡ true
    → my_strstr needle (c ∷ line) ≡ some 0
unfolding my_strstr
my_strstr-here needle c line h = ground arith

earlier-shift : (a b : Option ℕ) → earlier (shift a) (shift b) ≡ shift (earlier a b)
unfolding earlier
earlier-shift none b = refl
earlier-shift (some i) none = refl
earlier-shift (some i) (some j) = ground arith

earlier-zero : (a : Option ℕ) → earlier a (some 0) ≡ some 0
unfolding earlier
earlier-zero none = refl
earlier-zero (some i) = ground arith

zero-earlier : (a : Option ℕ) → earlier (some 0) a ≡ some 0
unfolding earlier
zero-earlier none = refl
zero-earlier (some i) = ground arith

module _ (c : ℕ) (line : List ℕ) where
  -- No separator starts here.
  record Plain : Type 0 where
    semi_off : c == b';' ≡ false
    and_off : starts_with and_text (c ∷ line) ≡ false
    or_off : starts_with or_text (c ∷ line) ≡ false

  sep_at-Plain : sep_at (c ∷ line) ≡ none → Plain
  unfolding sep_at starts_with
  sep_at-Plain h = record { semi_off = ground arith; and_off = ground arith; or_off = ground arith }

  separator-shift : Plain → separator (c ∷ line) ≡ shift (separator line)
  unfolding separator
  separator-shift p =
      rw
        (
          index_of-skip b';' c line p.semi_off,
          my_strstr-skip and_text c line p.and_off,
          my_strstr-skip or_text c line p.or_off,
        )
        (let a = my_strstr and_text line in
          let o = my_strstr or_text line in
          ap (λ x. earlier (shift (index_of b';' line)) (earlier (shift o) x))
            (earlier-shift a none)
          ∙ ap (earlier (shift (index_of b';' line))) (earlier-shift o (earlier a none))
          ∙ earlier-shift (index_of b';' line) (earlier o (earlier a none)))

  is_semi-shift : (i : ℕ) → Plain → is_semi (suc i) (c ∷ line) ≡ is_semi i line
  unfolding is_semi
  is_semi-shift i p = elim (Option-cases (index_of b';' line)) [
    | inl e ↦ ground (arith, index_of-skip b';' c line p.semi_off)
    | inr (j, e) ↦ ground (arith, index_of-skip b';' c line p.semi_off)
  ]

  Found-shift : (i : ℕ) (s : Sep) → Plain → Found line i s → Found (c ∷ line) (suc i) s
  unfolding sep_len should_run_next
  Found-shift i s p f = record {
    at = separator-shift p ∙ rw f.at refl;
    len = rw (is_semi-shift i p) f.len;
    next = λ status. rw (is_semi-shift i p) (f.next status);
    inside = omega (arith, f.inside);
  }

  separator-here : (s : Sep) → sep_at (c ∷ line) ≡ some s → separator (c ∷ line) ≡ some 0
  unfolding separator sep_at starts_with
  separator-here semi h =
      let m : index_of b';' (c ∷ line) ≡ some 0 = unfold index_of in ground arith in
      rw m (zero-earlier _)
  separator-here and_then h =
      let a : my_strstr and_text (c ∷ line) ≡ some 0 =
        my_strstr-here and_text c line (ground arith) in
      rw (a, zero-earlier none, earlier-zero (my_strstr or_text (c ∷ line))) (earlier-zero _)
  separator-here or_else h =
      let o : my_strstr or_text (c ∷ line) ≡ some 0 =
        my_strstr-here or_text c line (ground arith) in
      rw o (rw (zero-earlier (earlier (my_strstr and_text (c ∷ line)) none)) (earlier-zero _))

  is_semi-here : (s : Sep) → sep_at (c ∷ line) ≡ some s → is_semi 0 (c ∷ line) ≡ (c == b';')
  unfolding is_semi index_of sep_at starts_with
  is_semi-here s h = elim (Option-cases (index_of b';' line)) [
    | inl e ↦ ground arith
    | inr (j, e) ↦ ground arith
  ]

  Found-here : (s : Sep) → sep_at (c ∷ line) ≡ some s → Found (c ∷ line) 0 s
  unfolding sep_len should_run_next sep_at starts_with
  Found-here semi h = record {
    at = separator-here semi h;
    len = ground (arith, is_semi-here semi h);
    next = λ status. ground (arith, is_semi-here semi h);
    inside = omega arith;
  }
  Found-here and_then h = record {
    at = separator-here and_then h;
    len = ground (arith, is_semi-here and_then h);
    next = λ status. ground (arith, is_semi-here and_then h);
    inside = omega arith;
  }
  Found-here or_else h = record {
    at = separator-here or_else h;
    len = ground (arith, is_semi-here or_else h);
    next = λ status. ground (arith, is_semi-here or_else h);
    inside = omega arith;
  }

pub separator-none : (line : List ℕ) → cut line ≡ none → separator line ≡ none
unfolding cut
separator-none [] h = unfold separator earlier my_strstr starts_with index_of in refl
separator-none (c ∷ line) h = elim (Option-cases (sep_at (c ∷ line))) [
  | inl off ↦
      separator-shift c line (sep_at-Plain c line off)
      ∙ rw (separator-none line (ground arith)) refl
  | inr (s, on) ↦ absurd (ground arith)
]

-- When one scan of the line for ";", "&&" and "||" first finds a separator, the shell's three
-- searches find the same place, its length, and the same rule for the next command.
pub cut-Found : (line : List ℕ) (i : ℕ) (s : Sep) → cut line ≡ some (i, s) → Found line i s
unfolding cut
cut-Found [] i s h = cc
cut-Found (c ∷ line) i s h = elim (Option-cases (sep_at (c ∷ line))) [
  | inl off ↦ elim (Option-cases (cut line)) [
    | inl e ↦ absurd (ground arith)
    | inr ((j, t), e) ↦
        let same : suc j ≡ i = ground arith in
        let also : t ≡ s = ground arith in
        subst (λ n. Found (c ∷ line) n s) same
          (Found-shift c line j s (sep_at-Plain c line off)
            (cut-Found line j s (e ∙ ap (λ x. some (j, x)) also)))
  ]
  | inr (t, on) ↦
      let here : 0 ≡ i = ground arith in
      let also : t ≡ s = ground arith in
      subst (λ n. Found (c ∷ line) n s) here (Found-here c line s (on ∙ ap some also))
]
