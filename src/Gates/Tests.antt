-- ===== src/Gates/Tests.antt =====
-- The gates at a concrete operator state and opportunity.
use mev_bot.Base.{◌≡◌, refl, true, false, none, some, [], ◌∷◌}
use mev_bot.Base.Int.{pos}
use mev_bot.Base.Text.{codes}
use mev_bot.Base.Float.Ints.{fin, int_floats}
use mev_bot.Gates.{OperatorState, Opportunity, RiskGateConfig, cheap_opportunity_gate}

abbrev operator : OperatorState
operator = record { kill_switch = some false; state = some (codes "trading"); mode = none }

abbrev cfg : RiskGateConfig int_floats
cfg = record {
  min_edge_bps = fin (pos 2);
  min_confidence = fin (pos 0);
  min_profit_est_usd = fin (pos 0);
  max_fee_usd = fin (pos 100);
}

abbrev opp : Opportunity int_floats
opp = record {
  id = codes "o1";
  ts = fin (pos 1);
  family = codes "evm";
  chain = codes "base";
  network = codes "mainnet";
  kind = codes "xarb";
  size_candidates = pos 10 ∷ [];
  expected_edge_bps = fin (pos 30);
  confidence = fin (pos 1);
  required_capabilities = [];
  constraints = record {
    token_in = some (codes "WETH");
    token_out = some (codes "USDC");
    best_dex = none;
    slippage_bps = none;
    ttl_s = none;
    profit_est_usd = none;
    sell_dex = none;
    second_best_dex = none;
    token_mid_1 = none;
    token_mid_2 = none;
    path_tokens = [];
    path_dexes = [];
  };
  refs = [];
}

opp_passes : (cheap_opportunity_gate int_floats opp cfg).ok ≡ true
unfolding cheap_opportunity_gate
opp_passes = refl
