-- ===== src/Orchestrator/Tests.antt =====
-- A live run of `process`, of an opportunity that is planned and executed.
use mev_bot.Base.{ℕ, ◌≡◌, ◌∙◌, ap, refl, Bool, true, false, none, some, [], ◌∷◌, Option}
use mev_bot.Base.Int.{pos, ◌+ℤ◌, ◌-ℤ◌, ◌*ℤ◌}
use mev_bot.Base.Text.{drop_space, codes, upper, text_eq, norm, strip, lower, member}
use mev_bot.Base.Result.{ok}
use mev_bot.Base.Float.{fmax}
use mev_bot.Base.Float.Ints.{Ext, fin, int_floats}
use mev_bot.Dex.{TxPlan, SimResult, Quote}
use mev_bot.Router.{RouterSelection}
use mev_bot.Sizing.{
  net_profit_usd, search_best_size, search_bases, search_from, score_all, log_spaced_sizes,
  refine_sizes_around, dedupe_positive, sorted_set, insert_size, best_of, better, update_scores,
  put_score,
}
use mev_bot.Gates.{OperatorState, Opportunity, operator_gate, cheap_opportunity_gate}
use mev_bot.Orchestrator.{
  Setup, Pack, intent_for, net_of, score_route, score_size, pick_size, threshold, check_profit,
  build_tx,
}
use mev_bot.Orchestrator.Loans.{take_loan, loan_block, should_use_flashloan, simulate_tx, simulates}
use mev_bot.Orchestrator.Process.{
  TradePlan, Handed, Decision, Log, Clock, Ready, prepare, mode_of, process, outcome_of, conclude,
  plan_of, executed,
}
use mev_bot.Orchestrator.Plans.{IsPrepared}
use mev_bot.Orchestrator.Outcomes.{process-IsPrepared, process_live, process-Rejects, Rejects}

abbrev usd : ℕ → Ext
usd n = fin (pos n)

abbrev operator : OperatorState
operator = record {
  kill_switch = some false;
  state = some (codes "TRADING");
  mode = some (codes "Live");
}

abbrev opp : Opportunity int_floats
opp = record {
  id = codes "o1";
  ts = usd 1;
  family = codes "evm";
  chain = codes "base";
  network = codes "mainnet";
  kind = codes "spread";
  size_candidates = pos 10 ∷ [];
  expected_edge_bps = usd 10000;
  confidence = usd 1;
  required_capabilities = [];
  constraints = record {
    token_in = some (codes "WETH");
    token_out = some (codes "USDC");
    best_dex = none;
    slippage_bps = none;
    ttl_s = none;
    profit_est_usd = none;
    sell_dex = none;
    second_best_dex = none;
    token_mid_1 = none;
    token_mid_2 = none;
    path_tokens = [];
    path_dexes = [];
  };
  refs = [];
}

abbrev offer : Quote int_floats
offer = record {
  dex = codes "univ3";
  expected_out = pos 20;
  min_out = pos 19;
  price_impact_bps = usd 0;
  fee_estimate = usd 1;
  route_summary = [];
  quote_latency_ms = usd 5;
}

abbrev selection : RouterSelection int_floats
selection = record { dex = codes "univ3"; quote = offer; quote_table = [] }

abbrev tx : TxPlan
tx = record {
  family = codes "evm";
  chain = codes "base";
  dex = codes "univ3";
  value = pos 0;
  metadata = [];
  raw_tx = none;
  instruction_bundle = none;
}

abbrev simulated : SimResult
simulated = record {
  ok = true;
  error_code = [];
  error_message = [];
  gas_estimate = none;
  compute_units = none;
  logs = none;
}

abbrev pack : Pack int_floats
pack = record { build = λ i q. some tx; simulate = λ t. some simulated }

abbrev setup : Setup int_floats (Unit {0})
setup = record {
  route = λ n i. some selection;
  registry = λ d. some pack;
  strategy = codes "opportunity_engine";
  provider = none;
  arb = none;
  risk_cfg = record {
    min_edge_bps = usd 2;
    min_confidence = usd 0;
    min_profit_est_usd = usd 0;
    max_fee_usd = usd 100;
  };
  min_profit_after_cost = usd 5;
  default_slippage_bps = pos 50;
  default_ttl_s = pos 30;
  inventory_usd = usd 0;
  flashloan_gas_overhead_usd = usd 0;
  flashloan_min_size = usd 0;
  cost_model = record { gas_cost_usd = usd 1; fee_bps = usd 0; flashloan_fee_bps = usd 0 };
}

abbrev clock : Clock int_floats
clock = record { simulated_at = usd 7; planned_at = usd 8; ended_at = usd 9 }

abbrev empty_log : Log int_floats
empty_log = record { events = []; rejects = [] }

abbrev callback : Option (TradePlan int_floats → TxPlan → Option Bool)
callback = some (λ p t. some true)

abbrev outcome : Option (Decision int_floats) × Option (Handed int_floats) × Log int_floats
outcome = process int_floats setup operator opp callback clock empty_log

-- The size 11, of the refinement around 10, earns 9.
abbrev ready : Ready int_floats
ready = record {
  sized = record {
    chosen = record {
      sel = selection;
      pack = pack;
      intent = intent_for int_floats setup opp 11;
      profit = usd 9;
    };
    size = 11;
    evaluated = 10 ∷ 11 ∷ [];
  };
  loan = record { used = false; fee_usd = usd 0; tx = tx; profit = usd 9 };
  sim = some simulated;
}

prepared : prepare int_floats setup operator opp ≡ ok ready
unfolding prepare operator_gate cheap_opportunity_gate search_best_size dedupe_positive score_all
    refine_sizes_around ◌*ℤ◌ log_spaced_sizes best_of ◌-ℤ◌ ◌+ℤ◌ score_route net_of net_profit_usd
    update_scores better mode_of drop_space lower member norm strip text_eq upper loan_block
    should_use_flashloan simulate_tx simulates take_loan build_tx check_profit pick_size score_size
    threshold insert_size put_score search_bases search_from sorted_set fmax
prepared = refl

decision_made :
    outcome ≡ outcome_of int_floats setup operator opp callback clock empty_log (ok ready)
unfolding process
decision_made = ap (outcome_of int_floats setup operator opp callback clock empty_log) prepared

abbrev the_plan : TradePlan int_floats
the_plan = plan_of int_floats setup operator opp (usd 8) ready

abbrev decision : Decision int_floats
decision = record {
  status = executed;
  reason = codes "ok";
  opportunity_id = codes "o1";
  plan = some the_plan;
}

abbrev the_call : Handed int_floats
the_call = record { handed_plan = the_plan; handed_tx = ready.loan.tx }

called_then :
    (outcome_of int_floats setup operator opp callback clock empty_log (ok ready)).1 ≡ some the_call
unfolding outcome_of conclude mode_of norm strip drop_space lower text_eq
called_then = refl

called : outcome.1 ≡ some the_call
called = ap (λ x. x.1) decision_made ∙ called_then

decided_then :
    (outcome_of int_floats setup operator opp callback clock empty_log (ok ready)).0 ≡ some decision
unfolding outcome_of conclude mode_of norm strip drop_space lower text_eq
decided_then = refl

decided : outcome.0 ≡ some decision
decided = ap (λ x. x.0) decision_made ∙ decided_then

process_live_example :
    (mode_of operator ≡ codes "live")
    × ((r : Ready int_floats) × IsPrepared int_floats setup opp operator r
        × (the_plan ≡ plan_of int_floats setup operator opp (usd 8) r)
        × ((s : SimResult) × (r.sized.chosen.pack.simulate ready.loan.tx ≡ some s) × (s.ok ≡ true)))
process_live_example =
    process_live int_floats setup operator opp callback clock empty_log the_call called

process-Rejects_example :
    Rejects int_floats setup operator opp callback clock empty_log outcome.0 outcome.2
process-Rejects_example = process-Rejects int_floats setup operator opp callback clock empty_log

process-IsPrepared_example :
    (r : Ready int_floats) × IsPrepared int_floats setup opp operator r
    × (the_plan ≡ plan_of int_floats setup operator opp (usd 8) r)
process-IsPrepared_example =
    process-IsPrepared int_floats setup operator opp callback clock empty_log decision the_plan
      decided refl
