-- ===== src/Graph/Distinct.antt =====
-- Lists of cycles without repetitions, for the search of bot/core/graph.py.
use mev_bot.Base.{◌≡◌, false, List, [], ◌∷◌, ◌++◌, All, All-append, In, inl, inr, any, arith}
use mev_bot.Base.Text.{text_eq_iff}
use mev_bot.Graph.{Cycle, cycle_eq}

-- No cycle comes twice.
abbrev pub IsDistinct : List Cycle → Type 0
IsDistinct [] = Unit
IsDistinct (x ∷ xs) = All (λ y. cycle_eq x y ≡ false) xs × IsDistinct xs

pub append-IsDistinct :
    (xs : List Cycle) (t : Cycle)
    → IsDistinct xs
    → All (λ x. cycle_eq x t ≡ false) xs
    → IsDistinct (xs ++ t ∷ [])
append-IsDistinct [] t d h = (tt, tt)
append-IsDistinct (x ∷ xs) t d h = (
  All-append (λ y. cycle_eq x y ≡ false) xs (t ∷ []) d.0 (h.0, tt),
  append-IsDistinct xs t d.1 h.1,
)

cycle_eq_sym : (x y : Cycle) → cycle_eq x y ≡ false → cycle_eq y x ≡ false
unfolding cycle_eq
cycle_eq_sym x y h = ground (
  arith,
  h,
  text_eq_iff x.a y.a,
  text_eq_iff y.a x.a,
  text_eq_iff x.b y.b,
  text_eq_iff y.b x.b,
  text_eq_iff x.c y.c,
  text_eq_iff y.c x.c,
)

not_any :
    (t x : Cycle) (seen : List Cycle)
    → In x seen
    → any (cycle_eq t) seen ≡ false
    → cycle_eq t x ≡ false
not_any t x [] m n = absurd m
not_any t x (y ∷ ys) (inl e) n = rw e ground (arith, n)
not_any t x (y ∷ ys) (inr m) n = not_any t x ys m (ground (arith, n))

pub more_seen :
    (t : Cycle) (xs seen : List Cycle) → All (λ x. In x seen) xs → All (λ x. In x (t ∷ seen)) xs
more_seen t [] seen h = tt
more_seen t (x ∷ xs) seen h = (inr h.0, more_seen t xs seen h.1)

-- A cycle that has not been seen is none of those that are known.
pub unseen :
    (t : Cycle) (xs seen : List Cycle)
    → All (λ x. In x seen) xs
    → any (cycle_eq t) seen ≡ false
    → All (λ x. cycle_eq x t ≡ false) xs
unseen t [] seen h n = tt
unseen t (x ∷ xs) seen h n = (cycle_eq_sym t x (not_any t x seen h.0 n), unseen t xs seen h.1 n)
