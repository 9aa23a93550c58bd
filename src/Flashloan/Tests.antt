-- ===== src/Flashloan/Tests.antt =====
-- The plan of a flashloan for a triangle, a bucket, and a provider.
use mev_bot.Base.{◌≡◌, refl, none, some, [], ◌∷◌}
use mev_bot.Base.Int.{◌+ℤ◌, ◌-ℤ◌, ◌*ℤ◌}
use mev_bot.Base.Text.{codes, text_eq, norm, strip, lower, drop_space, member}
use mev_bot.Base.Result.{ok}
use mev_bot.Base.Float.{fmax}
use mev_bot.Base.Float.Ints.{int_floats}
use mev_bot.Gates.{Opportunity}
use mev_bot.Graph.{Cycle}
use mev_bot.Firewall.{
  RiskDecision, allow, should_exclude, evaluate, overridden, override_list, norm_set, as_bool,
  as_int, run_check, new_firewall,
}
use mev_bot.Detectors.{firewall_of}
use mev_bot.Detectors.Triarb.{
  opportunity_of, quote_leg, edge_of, net_edge_bps, pick_cycle_base, cycle_liquidity, on_cycle,
  screen, least_liquidity,
}
use mev_bot.Detectors.Triarb.Tests.{usd, detector, router, event, rows, legs}
use mev_bot.Detectors.Triarb.Cycles.{IsArbitrage}
use mev_bot.Orchestrator.{Provider}
use mev_bot.Flashloan.{
  FlashloanArbPlan, AaveV3FlashloanProvider, ChainConfig, build_plan, new_provider, checked,
  configured, aave_v3,
}
use mev_bot.Flashloan.Legs.{IsRound, triangle_legs, triangle-IsRound}

abbrev config : ChainConfig int_floats
config = record {
  network = none;
  pool = some (codes " 0xAB ");
  fee_bps = none;
  assets = [];
  executor_mode = none;
  executor_address = some (codes "0xCD");
  executor_bytecode = none;
}

abbrev aave : AaveV3FlashloanProvider int_floats
aave = record {
  chain = codes "base";
  network = codes "mainnet";
  pool_address = codes "0xab";
  provider_fee_bps = usd 9;
  assets = [];
  executor_mode = codes "predeployed";
  executor_address = codes "0xcd";
  executor_bytecode = [];
}

built : new_provider int_floats (codes "Base") (codes "mainnet") config none ≡ ok aave
unfolding new_provider checked configured norm strip drop_space lower member text_eq
built = refl

abbrev provider : Provider int_floats
provider = aave_v3 int_floats (λ p. []) (λ p. []) aave

abbrev triangle : Cycle
triangle = record { a = codes "DAI"; b = codes "USDC"; c = codes "WETH" }

abbrev decision : RiskDecision
decision = record {
  classification = allow;
  reasons = codes "firewall_disabled" ∷ [];
  token = codes "dai";
  pool = [];
}

abbrev found : Opportunity int_floats
found =
    opportunity_of int_floats detector router event triangle 10 decision (usd 9) (codes "9000") legs

unfoldable arbitrage : IsArbitrage int_floats detector router event rows triangle found
unfolding opportunity_of edge_of net_edge_bps pick_cycle_base cycle_liquidity on_cycle text_eq fmax
    least_liquidity screen quote_leg should_exclude evaluate overridden override_list norm_set
    member norm strip drop_space lower firewall_of new_firewall as_bool as_int run_check ◌-ℤ◌ ◌+ℤ◌
    ◌*ℤ◌
arbitrage = record {
  liquid = refl;
  cleared = refl;
  legs = legs;
  chained = (refl, (refl, refl));
  edge = refl;
  enough = refl;
  kind = refl;
  first = refl;
  tokens = refl;
  dexes = refl;
}

triangle-IsRound_example :
    (plan : FlashloanArbPlan int_floats) × (build_plan int_floats provider found 10 (usd 8)
      ≡ some plan)
    × IsRound int_floats provider found 10 (triangle_legs int_floats provider triangle legs) plan
unfolding arbitrage
triangle-IsRound_example =
    triangle-IsRound int_floats provider detector router event rows triangle found arbitrage 10
      (usd 8) ((refl, (refl, (refl, (refl, tt)))), (refl, (refl, (refl, tt))))
