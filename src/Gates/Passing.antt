-- ===== src/Gates/Passing.antt =====
-- What an opportunity and an operator state that pass the gates satisfy.
use mev_bot.Base.{◌≡◌, ◌↔◌, ◌≢◌, true, false, List, [], ◌∷◌, arith, All, ◌<◌}
use mev_bot.Base.Int.{ℤ, pos_part}
use mev_bot.Base.Text.{codes, upper, text_eq_iff}
use mev_bot.Base.Float.{FloatModel}
use mev_bot.Gates.{
  Opportunity, RiskGateConfig, OperatorState, operator_gate, cheap_opportunity_gate,
  any_nonpositive, text_or_empty, state_or_unknown, bool_or_false,
}

-- The operator's gate passes exactly when the kill switch is off, or unset, and the state is TRADING
-- in upper case; an unset state does not pass.
pub operator_gate_iff :
    (st : OperatorState)
    → ((operator_gate st).ok ≡ true) ↔ (
        (bool_or_false st.kill_switch ≡ false)
        × (upper (state_or_unknown st.state) ≡ codes "TRADING"))
unfolding operator_gate
operator_gate_iff st =
    ground (arith, text_eq_iff (upper (state_or_unknown st.state)) (codes "TRADING"))

sizes_positive : (ss : List ℤ) → any_nonpositive ss ≡ false → All (λ s. 0 < pos_part s) ss
sizes_positive [] h = tt
sizes_positive (s ∷ ss) h = (ground arith, sizes_positive ss (ground arith))

module _ (F : FloatModel) where
  -- What an opportunity has that passes the cheap gate.
  pub record IsWorthwhile (opp : Opportunity F) (cfg : RiskGateConfig F) : Type 0 where
    pub edge : F.at_most cfg.min_edge_bps opp.expected_edge_bps ≡ true
    pub sure : F.at_most cfg.min_confidence opp.confidence ≡ true
    pub sized : opp.size_candidates ≢ []
    pub positive : All (λ s. 0 < pos_part s) opp.size_candidates
    pub sells : text_or_empty opp.constraints.token_in ≢ []
    pub buys : text_or_empty opp.constraints.token_out ≢ []

  -- An opportunity that passes the cheap gate has at least the edge and the confidence of the
  -- configuration, some sizes, of which all are positive, and both tokens.
  pub cheap_opportunity_gate-IsWorthwhile :
      (opp : Opportunity F) (cfg : RiskGateConfig F)
      → (cheap_opportunity_gate F opp cfg).ok ≡ true
      → IsWorthwhile opp cfg
  unfolding cheap_opportunity_gate
  cheap_opportunity_gate-IsWorthwhile opp cfg h = record {
    edge = ground arith;
    sure = ground arith;
    sized = λ e. ground arith;
    positive = sizes_positive opp.size_candidates (ground arith);
    sells = λ e. ground arith;
    buys = λ e. ground arith;
  }
