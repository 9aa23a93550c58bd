-- ===== src/Engine/Fees.antt =====
-- `choose_fee_gwei` and what it rests on (bot/exec/engine.py).
pub mod Choice
use mev_bot.Base.{ℕ, zero, suc, ◌+◌, Bool, true, false, Option, none, some, if◌then◌else◌}
use mev_bot.Base.Int.{ℤ, pos, pos_part}
use mev_bot.Base.Text.{Text, lower}
use mev_bot.Base.Dict.{Dict, get}
use mev_bot.Base.Float.{FloatModel, below, fmax, fmin}

pub record FeePolicy (F : FloatModel) : Type 0 where
  pub max_fee_gwei : F.Float
  pub escalation_factor : F.Float
  pub max_escalations : ℤ
  pub profit_safety_margin_usd : F.Float

-- The reason strings of a decision.
pub data Reason : Type 0 where
  ok fee_cap_exceeded not_profitable_after_escalation : Reason

pub record FeeDecision (F : FloatModel) : Type 0 where
  pub allowed : Bool
  pub fee_gwei : F.Float
  pub reason : Reason
  pub escalation_step : ℤ

-- The keyword arguments of `choose_fee_gwei`, without the policy.
pub record FeeQuery (F : FloatModel) : Type 0 where
  pub initial_fee_gwei : F.Float
  pub gas_limit : ℤ
  pub expected_profit_usd : F.Float
  pub native_usd : F.Float

module _ (F : FloatModel) where
  open F use {Float, at_most, add, mul, of_ℤ, lit}

  unfoldable pub estimate_fee_usd : ℤ → Float → Float → Float
  unfolding fmax
  estimate_fee_usd gas_limit gas_price_gwei native_usd =
      mul
        (mul (mul (fmax F (lit 0 0) (of_ℤ gas_limit)) (fmax F (lit 0 0) gas_price_gwei)) (lit 1 9))
        (fmax F (lit 0 0) native_usd)

  -- `expected_profit_usd >= total_cost + margin` at a fee.
  unfoldable pub profitable : FeePolicy F → FeeQuery F → Float → Bool
  unfolding estimate_fee_usd
  profitable p q fee =
      at_most (add (estimate_fee_usd q.gas_limit fee q.native_usd) p.profit_safety_margin_usd)
        q.expected_profit_usd

  -- The `for` loop, with the rounds that are left, the step and the fee.
  unfoldable pub choose_loop : FeePolicy F → FeeQuery F → ℕ → ℕ → Float → FeeDecision F
  unfolding profitable fmin fmax
  choose_loop p q zero step fee = record {
    allowed = false;
    fee_gwei = fmin F fee p.max_fee_gwei;
    reason = not_profitable_after_escalation;
    escalation_step = p.max_escalations;
  }
  choose_loop p q (suc rounds) step fee =
      let rest =
        choose_loop p q rounds (suc step) (mul fee (fmax F (lit 1 0) p.escalation_factor)) in
      if below F p.max_fee_gwei fee
      then record {
        allowed = false;
        fee_gwei = p.max_fee_gwei;
        reason = fee_cap_exceeded;
        escalation_step = pos step;
      }
      else if profitable p q fee
      then record { allowed = true; fee_gwei = fee; reason = ok; escalation_step = pos step }
      else rest

  unfoldable pub choose_fee_gwei : FeePolicy F → FeeQuery F → FeeDecision F
  unfolding choose_loop fmax
  choose_fee_gwei p q =
      choose_loop p q (suc (pos_part p.max_escalations)) 0 (fmax F (lit 0 0) q.initial_fee_gwei)

  -- `ExecutionEngine.fee_policy_for`: the table of the chain, or the cap of `EXEC_MAX_FEE_GWEI`
  -- (an argument) with the defaults of the class.
  unfoldable pub fee_policy_for : Dict (FeePolicy F) → Float → Text → FeePolicy F
  unfolding get lower
  fee_policy_for policies default_cap chain = elim (get (lower chain) policies) [
    | some p ↦ p
    | none ↦ record {
      max_fee_gwei = default_cap;
      escalation_factor = lit 1125 3;
      max_escalations = pos 4;
      profit_safety_margin_usd = lit 0 0;
    }
  ]

  -- `ExecutionEngine.decide_fee`
  unfoldable pub decide_fee : Dict (FeePolicy F) → Float → Text → FeeQuery F → FeeDecision F
  unfolding choose_fee_gwei fee_policy_for
  decide_fee policies default_cap chain q =
      choose_fee_gwei (fee_policy_for policies default_cap chain) q
