-- ===== src/Base/Result.antt =====
-- The outcome of a Python call that may raise: a value or the exception.
use mathlib.Core.Path.{◌≡◌, refl}
use mathlib.Core.Logic.{◌⊎◌, inl, inr}

pub data Result (E A : Type 0) : Type 0 where
  ok : A → Result E A
  raise : E → Result E A

pub Result-cases :
    {E A : Type 0} (r : Result E A) → ((a : A) × (r ≡ ok a)) ⊎ ((e : E) × (r ≡ raise e))
Result-cases (ok a) = inl (a, refl)
Result-cases (raise e) = inr (e, refl)

-- Go on with the value, if there is one.
infixl 5 ◌>>=◌
abbrev pub ◌>>=◌ : {E A B : Type 0} → Result E A → (A → Result E B) → Result E B
ok a >>= f = f a
raise e >>= f = raise e

pub bind-ok :
    {E B C : Type 0} (x : Result E B) (f : B → Result E C) (c : C)
    → (x >>= f) ≡ ok c
    → (b : B) × (x ≡ ok b) × (f b ≡ ok c)
bind-ok (ok b) f c h = (b, refl, h)
bind-ok (raise e) f c h = cc
