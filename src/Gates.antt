-- ===== src/Gates.antt =====
-- core/risk_gates.py, and the opportunities of bot/core/opportunity_engine/types.py that it reads. A
-- dict of which only some keys are read is a record of these, each present or not.
pub mod Passing
mod Tests
use mev_bot.Base.{
  is_empty, ℕ, Bool, true, false, ◌||◌, not, Option, none, some, List, [], ◌∷◌, if◌then◌else◌,
}
use mev_bot.Base.Int.{ℤ, pos, leb_ℤ}
use mev_bot.Base.Text.{Text, codes, text_eq, upper}
use mev_bot.Base.Dict.{Dict}
use mev_bot.Base.Float.{FloatModel, below}

pub record GateResult : Type 0 where
  pub ok : Bool
  pub reason : Text

pub record RiskGateConfig (F : FloatModel) : Type 0 where
  pub min_edge_bps : F.Float
  pub min_confidence : F.Float
  pub min_profit_est_usd : F.Float
  pub max_fee_usd : F.Float

-- The keys of the operator state that are read.
pub record OperatorState : Type 0 where
  pub kill_switch : Option Bool
  pub state : Option Text
  pub mode : Option Text

-- The keys of `Opportunity.constraints` that are read.
pub record Constraints : Type 0 where
  pub token_in : Option Text
  pub token_out : Option Text
  pub best_dex : Option Text
  pub slippage_bps : Option ℤ
  pub ttl_s : Option ℤ
  -- a number, or the text of one
  pub profit_est_usd : Option Text
  pub sell_dex : Option Text
  pub second_best_dex : Option Text
  pub token_mid_1 : Option Text
  pub token_mid_2 : Option Text
  pub path_tokens : List Text
  pub path_dexes : List Text

pub record Opportunity (F : FloatModel) : Type 0 where
  pub id : Text
  pub ts : F.Float
  pub family : Text
  pub chain : Text
  pub network : Text
  pub kind : Text
  pub size_candidates : List ℤ
  pub expected_edge_bps : F.Float
  pub confidence : F.Float
  pub required_capabilities : List Text
  pub constraints : Constraints
  pub refs : Dict Text

-- `str(d.get(key) or "")`
abbrev pub text_or_empty : Option Text → Text
text_or_empty none = []
text_or_empty (some t) = t

abbrev pub bool_or_false : Option Bool → Bool
bool_or_false none = false
bool_or_false (some b) = b

abbrev pub state_or_unknown : Option Text → Text
state_or_unknown none = codes "UNKNOWN"
state_or_unknown (some t) = t

abbrev pub passed : GateResult
passed = record { ok = true; reason = codes "ok" }

abbrev pub failed_for : Text → GateResult
failed_for reason = record { ok = false; reason = reason }

unfoldable pub operator_gate : OperatorState → GateResult
unfolding text_eq upper
operator_gate st =
    if bool_or_false st.kill_switch
    then failed_for (codes "operator_kill_switch")
    else if not (text_eq (upper (state_or_unknown st.state)) (codes "TRADING"))
    then failed_for (codes "operator_not_trading")
    else passed

-- `any(int(s) <= 0 for s in sizes)`
abbrev pub any_nonpositive : List ℤ → Bool
any_nonpositive [] = false
any_nonpositive (s ∷ ss) = leb_ℤ s (pos 0) || any_nonpositive ss

module _ (F : FloatModel) where
  unfoldable pub cheap_opportunity_gate : Opportunity F → RiskGateConfig F → GateResult
  cheap_opportunity_gate opp cfg =
      if below F opp.expected_edge_bps cfg.min_edge_bps
      then failed_for (codes "edge_below_threshold")
      else if below F opp.confidence cfg.min_confidence
      then failed_for (codes "confidence_below_threshold")
      else if is_empty opp.size_candidates
      then failed_for (codes "missing_size_candidates")
      else if any_nonpositive opp.size_candidates
      then failed_for (codes "invalid_size_candidates")
      else if is_empty (text_or_empty opp.constraints.token_in)
          || is_empty (text_or_empty opp.constraints.token_out)
      then failed_for (codes "missing_tokens")
      else passed
