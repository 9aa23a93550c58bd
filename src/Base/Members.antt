-- ===== src/Base/Members.antt =====
-- The test whether a text is in a list of texts, against membership.
use mev_bot.Base.{◌≡◌, refl, inl, inr, true, List, [], ◌∷◌, In, All, All-In, arith, Bool-cases}
use mev_bot.Base.Text.{Text, member, text_eq, text_eq_refl, text_eq→eq}

pub In-member : (s : Text) (ts : List Text) → In s ts → member s ts ≡ true
unfolding member
In-member s [] h = absurd h
In-member s (t ∷ ts) (inl e) = rw (e, text_eq_refl t) refl
In-member s (t ∷ ts) (inr h) = ground (arith, In-member s ts h)

pub member-In : (s : Text) (ts : List Text) → member s ts ≡ true → In s ts
unfolding member
member-In s [] h = cc
member-In s (t ∷ ts) h = elim (Bool-cases (text_eq s t)) [
  | inl e ↦ inl (text_eq→eq s t e)
  | inr e ↦ inr (member-In s ts (rw e at h))
]

pub All-member :
    (P : Text → Type 0) (s : Text) (ts : List Text) → member s ts ≡ true → All P ts → P s
All-member P s ts h a = All-In P ts s a (member-In s ts h)
