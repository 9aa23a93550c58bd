-- ===== src/Amm/Sizer.antt =====
-- `OptimalTradeSizer.size_exact_out` (bot/quote/sizer.py). The argument `price_token_out_usd` is not
-- used by the code.
pub mod Caps
use mev_bot.Base.{ℕ, ◌+◌, Bool, ◌||◌, Option, none, some, if◌then◌else◌}
use mev_bot.Base.Int.{ℤ, pos, pos_part, leb_ℤ, ltb_ℤ, max_ℤ, min_ℤ}
use mev_bot.Base.Result.{Result, ok, raise}
use mev_bot.Base.Float.{FloatModel}
use mev_bot.Amm.{get_amount_in}
use mev_bot.Amm.Bisect.{Stop, zero_division, out_of_fuel, bisect}

pub record SizingCaps (F : FloatModel) : Type 0 where
  pub max_in_abs : ℤ
  pub max_out_abs : ℤ
  pub max_pool_pct : F.Float
  pub safety_overpay : F.Float
  pub impact_fraction_to_capture : F.Float

-- The pool and the impact of the victim.
pub record Pool : Type 0 where
  pub reserve_in : ℤ
  pub reserve_out : ℤ
  pub fee_bps : ℤ
  pub impact_bps : ℤ

infixl 5 ◌>>=◌
abbrev pub ◌>>=◌ : {A B : Type 0} → Result Stop A → (A → Result Stop B) → Result Stop B
ok a >>= f = f a
raise e >>= f = raise e

module _ (F : FloatModel) (caps : SizingCaps F) where
  open F use {Float, add, mul, div, of_ℤ, lit, trunc}

  -- `int(n * (1.0 + self.caps.safety_overpay))`
  unfoldable pub padded : ℤ → ℤ
  padded n = trunc (mul (of_ℤ n) (add (lit 1 0) caps.safety_overpay))

  abbrev pub baseline_out : Pool → ℤ
  baseline_out p = trunc (
      mul (mul (of_ℤ p.reserve_out) (div (of_ℤ p.impact_bps) (lit 10000 0)))
        caps.impact_fraction_to_capture)

  abbrev pub rel_cap : Pool → ℤ
  rel_cap p = trunc (mul (of_ℤ p.reserve_out) caps.max_pool_pct)

  -- The output that is aimed at.
  unfoldable pub target_out : Pool → ℤ
  target_out p = max_ℤ (pos 1) (min_ℤ (min_ℤ (baseline_out p) (rel_cap p)) caps.max_out_abs)

  -- A call of `get_amount_in`, which may raise.
  abbrev pub cost_of : Pool → ℤ → Result Stop ℤ
  cost_of p out = elim (get_amount_in out p.reserve_in p.reserve_out p.fee_bps) [
    | none ↦ raise zero_division
    | some n ↦ ok n
  ]

  -- The test of a candidate in the binary search.
  unfoldable pub fits : Pool → ℕ → Option Bool
  fits p mid = elim (get_amount_in (pos mid) p.reserve_in p.reserve_out p.fee_bps) [
    | none ↦ none
    | some need ↦ some (leb_ℤ (padded need) caps.max_in_abs)
  ]

  -- The branch that shrinks the output to fit the cap on the input.
  unfoldable pub shrink : Pool → ℤ → Result Stop (ℤ × ℤ)
  unfolding bisect
  shrink p want_out = do
    best ← bisect (fits p) (pos_part want_out + 1) 1 (pos_part want_out) 0
    need ← cost_of p (pos best)
    ok (pos best, padded need)

  -- What is done with the input for the aimed output.
  unfoldable pub cap_input : Pool → ℤ → ℤ → Result Stop (ℤ × ℤ)
  cap_input p want_out max_in =
      if leb_ℤ max_in (pos 0)
      then ok (pos 0, pos 0)
      else if ltb_ℤ caps.max_in_abs (padded max_in)
      then shrink p want_out
      else ok (want_out, padded max_in)

  unfoldable pub size_exact_out : Pool → Result Stop (ℤ × ℤ)
  unfolding cap_input
  size_exact_out p =
      if leb_ℤ p.reserve_in (pos 0) || leb_ℤ p.reserve_out (pos 0)
      then ok (pos 0, pos 0)
      else (cost_of p (target_out p) >>= cap_input p (target_out p))
