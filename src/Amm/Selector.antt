-- ===== src/Amm/Selector.antt =====
-- `RouteSelector.choose_for_exact_out` (bot/route/selector.py). What the quoter answers for a fee tier
-- is an argument, and so is the penalty for gas.
pub mod Cheapest
use mev_bot.Base.{◌≡◌, Bool, true, false, Option, none, some, List, [], ◌∷◌, if◌then◌else◌}
use mev_bot.Base.Int.{ℤ, pos, ◌+ℤ◌, ltb_ℤ}
use mev_bot.Amm.{get_amount_in}

pub data RouterKind : Type 0 where
  v2 v3 : RouterKind

pub record RouteChoice : Type 0 where
  pub router_kind : RouterKind
  pub fee_or_fee_bps : ℤ
  pub amount_in : ℤ
  pub gas_penalty_est : ℤ

-- The answer of `quote_exact_output_single`.
pub record V3Quote : Type 0 where
  pub ok : Bool
  pub amount_in : Option ℤ
  pub gas_estimate : Option ℤ

-- `gas_penalty(kind, token_in, want_out, gas)`, for the pair and the amount of one call.
abbrev pub Penalty : Type 0
Penalty = Option (RouterKind → ℤ → ℤ)

-- `q.gas_estimate or 0`
abbrev pub gas_or_zero : Option ℤ → ℤ
gas_or_zero none = pos 0
gas_or_zero (some g) = g

abbrev pub penalty_of : Penalty → RouterKind → ℤ → ℤ
penalty_of none kind gas = pos 0
penalty_of (some p) kind gas = p kind gas

unfoldable pub total : RouteChoice → ℤ
total c = c.amount_in +ℤ c.gas_penalty_est

-- The candidate of a tier, if its quote has an amount.
abbrev pub candidate_from : Penalty → ℤ → V3Quote → Option ℤ → Option RouteChoice
candidate_from p fee q none = none
candidate_from p fee q (some amount) =
    if q.ok
    then some (record {
      router_kind = v3;
      fee_or_fee_bps = fee;
      amount_in = amount;
      gas_penalty_est = penalty_of p v3 (gas_or_zero q.gas_estimate);
    })
    else none

unfoldable pub candidate : Penalty → ℤ → V3Quote → Option RouteChoice
candidate p fee q = candidate_from p fee q q.amount_in

-- A candidate replaces the best so far if its total is smaller.
unfoldable pub cheaper : Option RouteChoice → RouteChoice → RouteChoice
unfolding total
cheaper none best = best
cheaper (some c) best = if ltb_ℤ (total c) (total best) then c else best

-- The loop over the fee tiers.
unfoldable pub over_tiers : Penalty → (ℤ → V3Quote) → List ℤ → RouteChoice → RouteChoice
unfolding candidate cheaper
over_tiers p quote [] best = best
over_tiers p quote (fee ∷ fees) best =
    over_tiers p quote fees (cheaper (candidate p fee (quote fee)) best)

abbrev pub v2_choice : Penalty → ℤ → ℤ → RouteChoice
v2_choice p fee_bps amount = record {
  router_kind = v2;
  fee_or_fee_bps = fee_bps;
  amount_in = amount;
  gas_penalty_est = penalty_of p v2 (pos 0);
}

-- `none` is the ZeroDivisionError of `get_amount_in`.
unfoldable pub choose_for_exact_out :
    Penalty → (ℤ → V3Quote) → List ℤ → ℤ → ℤ → ℤ → ℤ → Option RouteChoice
unfolding over_tiers
choose_for_exact_out p quote fee_tiers want_out reserve_in reserve_out fee_bps =
    elim (get_amount_in want_out reserve_in reserve_out fee_bps) [
      | none ↦ none
      | some amount ↦ some (over_tiers p quote fee_tiers (v2_choice p fee_bps amount))
    ]
