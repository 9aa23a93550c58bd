-- ===== src/Base/Float.antt =====
-- Python's `float`, as an interface: the program computes with IEEE doubles, which are not under
-- this repository. A model of the record is the doubles without NaN; the laws are those of the
-- order, that conversion from integers and subtraction round monotonically, that
-- a change of the sign reverses it, and that -inf is least.
pub mod Ints
use mev_bot.Base.{ℕ, ◌≡◌, inl, inr, Bool, true, false, not, arith, if◌then◌else◌, Bool-cases}
use mev_bot.Base.Int.{ℤ, ◌≤ℤ◌}

pub record FloatModel : Type 1 where
  pub Float : Type 0
  -- `a <= b`
  pub at_most : Float → Float → Bool
  pub add : Float → Float → Float
  pub sub : Float → Float → Float
  pub mul : Float → Float → Float
  pub div : Float → Float → Float
  -- `float(n)`
  pub of_ℤ : ℤ → Float
  -- the decimal literal m / 10^k
  pub lit : ℕ → ℕ → Float
  -- `int(x)` and `int(round(x))`
  pub trunc : Float → ℤ
  pub round : Float → ℤ
  -- `-x`
  pub neg : Float → Float
  pub exp : Float → Float
  pub log : Float → Float
  -- `float("-inf")`
  pub neg_inf : Float
  pub at_most_total : (a b : Float) → at_most a b ≡ false → at_most b a ≡ true
  pub at_most_trans : (a b c : Float) → at_most a b ≡ true → at_most b c ≡ true → at_most a c ≡ true
  pub of_ℤ_mono : (m n : ℤ) → m ≤ℤ n → at_most (of_ℤ m) (of_ℤ n) ≡ true
  pub sub_anti : (a b c : Float) → at_most b c ≡ true → at_most (sub a c) (sub a b) ≡ true
  pub sub_mono : (a b c : Float) → at_most a b ≡ true → at_most (sub a c) (sub b c) ≡ true
  pub neg_anti : (a b : Float) → at_most (neg a) (neg b) ≡ true → at_most b a ≡ true
  pub neg_mono : (a b : Float) → at_most a b ≡ true → at_most (neg b) (neg a) ≡ true
  pub neg_inf_least : (a : Float) → at_most neg_inf a ≡ true

module _ (F : FloatModel) where
  open F use {Float, at_most, at_most_total, at_most_trans}

  -- `a < b`
  abbrev pub below : Float → Float → Bool
  below a b = not (at_most b a)

  -- `max(a, b)` and `min(a, b)`: the first argument, unless the second is strictly better.
  unfoldable pub fmax : Float → Float → Float
  fmax a b = if below a b then b else a

  unfoldable pub fmin : Float → Float → Float
  fmin a b = if below b a then b else a

  pub at_most_refl : (a : Float) → at_most a a ≡ true
  at_most_refl a = elim (Bool-cases (at_most a a)) [ inl e ↦ e | inr e ↦ at_most_total a a e ]

  pub at_most_fmax_left : (a b : Float) → at_most a (fmax a b) ≡ true
  unfolding fmax
  at_most_fmax_left a b = ground (arith, at_most_refl a, at_most_total b a)

  pub at_most_fmax_right : (a b : Float) → at_most b (fmax a b) ≡ true
  unfolding fmax
  at_most_fmax_right a b = ground (arith, at_most_refl b)

  pub fmin-at_most_left : (a b : Float) → at_most (fmin a b) a ≡ true
  unfolding fmin
  fmin-at_most_left a b = ground (arith, at_most_refl a, at_most_total a b)

  pub fmin-at_most_right : (a b : Float) → at_most (fmin a b) b ≡ true
  unfolding fmin
  fmin-at_most_right a b = ground (arith, at_most_refl b)
