-- ===== src/Detectors/Xarb/Tests.antt =====
-- A scan of one pair of tokens with two packs, which ends with an opportunity.
use mev_bot.Base.{
  All, ℕ, ◌≡◌, refl, ap, ◌∙◌, Bool, true, false, none, some, [], ◌∷◌, List, inl, inr,
}
use mev_bot.Base.Int.{pos, ◌+ℤ◌, ◌-ℤ◌, ◌*ℤ◌}
use mev_bot.Base.Text.{Text, codes, text_eq, norm, strip, lower, drop_space, member}
use mev_bot.Base.Sort.{sort}
use mev_bot.Base.Float.{fmax}
use mev_bot.Base.Float.Ints.{Ext, fin, int_floats}
use mev_bot.Dex.{Quote}
use mev_bot.Router.{RouterSelection, RouterQuoteResult}
use mev_bot.Sizing.{dedupe_positive, sorted_set, insert_size}
use mev_bot.Gates.{RiskGateConfig, Opportunity}
use mev_bot.Firewall.{
  absent, listed, RiskDecision, allow, should_exclude, evaluate, overridden, override_list,
  norm_set, as_bool, as_int, run_check, new_firewall,
}
use mev_bot.Detectors.{
  UniverseFile, present, MarketEvent, load_universe, read_rows, row_from, TradeRouter, Row,
  firewall_of,
}
use mev_bot.Detectors.Xarb.{
  row_of, on_event, XarbDetector, Best, scan_pair, scan_result, screen, scan_best, opportunity_of,
  over_sizes, over_buys, over_sells, try_pair, note_edge, profit_edge_bps, positive_sizes, sim_buy,
  sim_sell,
}
use mev_bot.Detectors.Xarb.Admitted.{Admitted, IsNamed, on_event-Admitted}
use mev_bot.Detectors.Xarb.Scan.{Trade}
use mev_bot.Detectors.Xarb.Profits.{
  IsProfitable, IsMade, scan_pair-IsProfitable, scan_pair_complete,
}

abbrev usd : ℕ → Ext
usd n = fin (pos n)

abbrev detector : XarbDetector int_floats
detector = record {
  scan_interval_s = usd 5;
  min_edge_bps = usd 2;
  min_liquidity_usd = usd 1000;
  fee_bps = usd 0;
  flashloan_fee_bps = usd 0;
  default_slippage_bps = pos 50;
  default_ttl_s = pos 30;
  firewalls = record {
    enabled = absent;
    tax_bps_deny = absent;
    tiny_amount = absent;
    overrides = record {
      allow_tokens = listed [];
      deny_tokens = listed [];
      watch_tokens = listed [];
      allow_pools = listed [];
      deny_pools = listed [];
      watch_pools = listed [];
    };
  };
  last_scan_ts = usd 0;
  cache = record { rows = []; mtime = none };
}

abbrev offer : Text → ℕ → Quote int_floats
offer dex out = record {
  dex = dex;
  expected_out = pos out;
  min_out = pos out;
  price_impact_bps = usd 0;
  fee_estimate = usd 0;
  route_summary = [];
  quote_latency_ms = usd 5;
}

abbrev result : Text → RouterQuoteResult int_floats
result dex = record { dex = dex; quote = some (offer dex 5); ok = true; reason = [] }

abbrev sale : RouterSelection int_floats
sale = record { dex = codes "sushi"; quote = offer (codes "sushi") 30; quote_table = [] }

abbrev router : TradeRouter int_floats
router = record {
  arb_scan = λ i. result (codes "univ3") ∷ result (codes "sushi") ∷ [];
  route = λ i. some sale;
}

abbrev row : Row int_floats
row = record {
  family = codes "evm";
  chain = codes "base";
  network = codes "mainnet";
  token_in = codes "WETH";
  token_out = codes "USDC";
  sizes = 10 ∷ [];
  liquidity_usd = usd 5000;
  min_liquidity_usd = usd 1000;
}

abbrev trade : Trade int_floats
trade = record {
  size = 10;
  buy = (codes "univ3", offer (codes "univ3") 5);
  sell = (codes "sushi", offer (codes "sushi") 5);
  sel = sale;
}

abbrev best : Best int_floats
best = record {
  candidate_sizes = 10 ∷ 10 ∷ [];
  best_edge = usd 20000;
  best_pair = (codes "univ3", codes "sushi");
}

abbrev decision : RiskDecision
decision = record {
  classification = allow;
  reasons = codes "firewall_disabled" ∷ [];
  token = codes "weth";
  pool = codes "weth->usdc";
}

screened :
    screen int_floats detector router (codes "evm") (codes "base") (codes "mainnet") row
    ≡ (false, decision)
unfolding screen should_exclude evaluate overridden override_list norm_set sort member norm strip
    drop_space lower firewall_of new_firewall as_bool as_int sim_buy sim_sell run_check
screened = refl

scanned :
    scan_best int_floats detector router (codes "evm") (codes "base") (codes "mainnet") row ≡ best
unfolding scan_best over_sizes over_buys over_sells try_pair note_edge profit_edge_bps text_eq fmax
    positive_sizes ◌-ℤ◌ ◌+ℤ◌ ◌*ℤ◌
scanned = refl

abbrev opportunity : Opportunity int_floats
opportunity =
    opportunity_of int_floats detector router (codes "evm") (codes "base") (codes "mainnet") row
      decision (usd 9) (codes "9000") best

abbrev result_of : Bool × RiskDecision → Best int_floats → List (Opportunity int_floats)
result_of =
    scan_result int_floats detector router (codes "evm") (codes "base") (codes "mainnet") row
      (usd 9) (codes "9000")

abbrev whole : Best int_floats
whole = scan_best int_floats detector router (codes "evm") (codes "base") (codes "mainnet") row

found_result : result_of (false, decision) best ≡ opportunity ∷ []
unfolding ◌-ℤ◌ ◌+ℤ◌
found_result = refl

found :
    scan_pair int_floats detector router
      (codes "evm")
      (codes "base")
      (codes "mainnet")
      row
      (usd 9)
      (codes "9000")
    ≡ opportunity ∷ []
unfolding scan_pair
found =
    ap (λ (x : Bool × RiskDecision). result_of x whole) screened
    ∙ ap (λ (b : Best int_floats). result_of (false, decision) b) scanned
    ∙ found_result

scan_pair-IsProfitable_example :
    IsProfitable int_floats detector router
      (codes "evm")
      (codes "base")
      (codes "mainnet")
      row
      opportunity
scan_pair-IsProfitable_example =
    scan_pair-IsProfitable int_floats detector router (codes "evm") (codes "base") (codes "mainnet")
      row (usd 9) (codes "9000") opportunity found

made : IsMade int_floats detector router (codes "evm") (codes "base") (codes "mainnet") row trade
unfolding profit_edge_bps text_eq fmax positive_sizes ◌-ℤ◌ ◌+ℤ◌ ◌*ℤ◌
made = (
  record {
    size_in = inl refl;
    buy_in = inl refl;
    sell_in = inr (inl refl);
    apart = refl;
    routed = refl;
  },
  refl,
)

denied_not :
    (screen int_floats detector router (codes "evm") (codes "base") (codes "mainnet") row).0 ≡ false
denied_not = rw screened refl

finite :
    int_floats.at_most
      (profit_edge_bps int_floats detector (pos 10) (pos 30) (usd 0) (usd 0))
      int_floats.neg_inf
    ≡ false
unfolding profit_edge_bps fmax ◌-ℤ◌ ◌+ℤ◌ ◌*ℤ◌
finite = refl

scan_pair_complete_example :
    (opp : Opportunity int_floats) × (scan_pair int_floats detector router
        (codes "evm")
        (codes "base")
        (codes "mainnet")
        row
        (usd 9)
        (codes "9000")
      ≡ opp ∷ [])
    × (int_floats.at_most
          (profit_edge_bps int_floats detector (pos 10) (pos 30) (usd 0) (usd 0))
          opp.expected_edge_bps
        ≡ true)
scan_pair_complete_example =
    scan_pair_complete int_floats detector router (codes "evm") (codes "base") (codes "mainnet") row
      (usd 9) (codes "9000") trade refl denied_not made finite

abbrev gates : RiskGateConfig int_floats
gates = record {
  min_edge_bps = usd 2;
  min_confidence = usd 0;
  min_profit_est_usd = usd 0;
  max_fee_usd = usd 100;
}

abbrev universe : UniverseFile int_floats
universe = present 4 (
    some (record {
      family = none;
      chain = some (codes "Base");
      network = some (codes "mainnet");
      token_in = some (codes " WETH ");
      token_out = some (codes "USDC");
      sizes = some (pos 10 ∷ pos 0 ∷ []);
      liquidity_usd = some (usd 5000);
      min_liquidity_usd = none;
    })
    ∷ none
    ∷ [])

abbrev event : MarketEvent
event = record { family = codes "evm"; chain = codes "base"; network = codes "mainnet" }

loaded_row :
    (load_universe int_floats (row_of int_floats detector) universe detector.cache).0 ≡ row ∷ []
unfolding load_universe read_rows row_of row_from dedupe_positive sorted_set insert_size norm strip
    drop_space lower
loaded_row = refl

on_event-Admitted_example :
    Admitted int_floats gates
      (on_event int_floats detector router universe event (usd 9) (codes "9000")).0
    × All
        (IsNamed int_floats gates)
        (on_event int_floats detector router universe event (usd 9) (codes "9000")).1.cache.rows
on_event-Admitted_example =
    on_event-Admitted int_floats gates detector router universe event (usd 9) (codes "9000")
      (record { edge = refl; confidence = refl }) tt
