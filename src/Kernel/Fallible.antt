-- ===== src/Kernel/Fallible.antt =====
-- Operations on a state that can fail with an error code, or end in a panic.
use mos_enhanced_shell.Base.{◌≡◌, refl, ◌⊎◌, inl, inr}
use mos_enhanced_shell.Kernel.Result.{Error}

-- How an operation ends: with a value, with an error code, or in a panic.
pub data Run (S A : Type 0) : Type 0 where
  done : A → S → Run S A
  failed : Error → S → Run S A
  panicked : Run S A

abbrev pub and_then : {S A B : Type 0} → Run S A → (A → S → Run S B) → Run S B
and_then (done a d) f = f a d
and_then (failed e d) f = failed e d
and_then panicked f = panicked

pub Run-cases :
    {S A : Type 0} (r : Run S A)
    → ((a : A) × (s : S) × (r ≡ done a s))
      ⊎ ((e : Error) × (s : S) × (r ≡ failed e s))
      ⊎ (r ≡ panicked)
Run-cases (done a s) = inl (a, s, refl)
Run-cases (failed e s) = inr (inl (e, s, refl))
Run-cases panicked = inr (inr refl)

pub and_then-done :
    {S A B : Type 0} (r : Run S A) (k : A → S → Run S B) (b : B) (t : S)
    → and_then r k ≡ done b t
    → (a : A) × (s : S) × (r ≡ done a s) × (k a s ≡ done b t)
and_then-done (done a s) k b t h = (a, s, refl, h)
and_then-done (failed e s) k b t h = cc
and_then-done panicked k b t h = cc

pub done-value : {S A : Type 0} (a b : A) (u t : S) → done a u ≡ done b t → a ≡ b
done-value a b u t h = cc

pub done-state : {S A : Type 0} (a b : A) (u t : S) → done a u ≡ done b t → u ≡ t
done-state a b u t h = cc
