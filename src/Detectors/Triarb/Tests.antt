-- ===== src/Detectors/Triarb/Tests.antt =====
-- A scan of three pairs that make a triangle.
use mev_bot.Base.{ℕ, ◌≡◌, refl, none, some, [], ◌∷◌, List, All}
use mev_bot.Base.Int.{pos, ◌+ℤ◌, ◌-ℤ◌, ◌*ℤ◌}
use mev_bot.Base.Text.{Text, codes, text_eq}
use mev_bot.Base.Float.{fmax}
use mev_bot.Base.Float.Ints.{Ext, fin, int_floats}
use mev_bot.Router.{RouterSelection}
use mev_bot.Firewall.{absent, listed}
use mev_bot.Detectors.{TradeRouter, MarketEvent, Row}
use mev_bot.Detectors.Triarb.{
  TriArbDetector, Legs, scan_rows, edge_of, net_edge_bps, pick_cycle_base, on_cycle,
}
use mev_bot.Detectors.Triarb.Cycles.{IsTriangular, scan_rows-IsTriangular}

abbrev pub usd : ℕ → Ext
usd n = fin (pos n)

abbrev pub detector : TriArbDetector int_floats
detector = record {
  scan_interval_s = usd 10;
  max_cycles = pos 64;
  max_start_tokens = pos 64;
  min_edge_bps = usd 2;
  min_liquidity_usd = usd 1000;
  fee_bps = usd 0;
  flashloan_fee_bps = usd 0;
  default_slippage_bps = pos 50;
  default_ttl_s = pos 30;
  firewalls = record {
    enabled = absent;
    tax_bps_deny = absent;
    tiny_amount = absent;
    overrides = record {
      allow_tokens = listed [];
      deny_tokens = listed [];
      watch_tokens = listed [];
      allow_pools = listed [];
      deny_pools = listed [];
      watch_pools = listed [];
    };
  };
  last_scan_ts = usd 0;
  cache = record { rows = []; mtime = none };
}

abbrev pub sale : RouterSelection int_floats
sale = record {
  dex = codes "univ3";
  quote = record {
    dex = codes "univ3";
    expected_out = pos 30;
    min_out = pos 29;
    price_impact_bps = usd 0;
    fee_estimate = usd 0;
    route_summary = [];
    quote_latency_ms = usd 5;
  };
  quote_table = [];
}

abbrev pub router : TradeRouter int_floats
router = record { arb_scan = λ i. []; route = λ i. some sale }

abbrev pub event : MarketEvent
event = record { family = codes "evm"; chain = codes "base"; network = codes "mainnet" }

abbrev pair : Text → Text → Row int_floats
pair x y = record {
  family = codes "evm";
  chain = codes "base";
  network = codes "mainnet";
  token_in = x;
  token_out = y;
  sizes = 10 ∷ [];
  liquidity_usd = usd 5000;
  min_liquidity_usd = usd 1000;
}

abbrev pub rows : List (Row int_floats)
rows =
    pair (codes "DAI") (codes "USDC")
    ∷ pair (codes "USDC") (codes "WETH")
    ∷ pair (codes "WETH") (codes "DAI")
    ∷ []

scan_rows-IsTriangular_example :
    All
      (IsTriangular int_floats detector router event (codes "univ3" ∷ []) rows)
      (scan_rows int_floats detector router (codes "univ3" ∷ []) event (usd 9) (codes "9000") rows)
scan_rows-IsTriangular_example =
    scan_rows-IsTriangular int_floats detector router event (codes "univ3" ∷ []) rows (usd 9)
      (codes "9000")

base_picked :
    pick_cycle_base int_floats (record { a = codes "DAI"; b = codes "USDC"; c = codes "WETH" }) rows
    ≡ 10
unfolding pick_cycle_base on_cycle text_eq
base_picked = refl

-- The chain gives 30 for 10, which is 20000 basis points.
abbrev pub legs : Legs int_floats
legs = record { q1 = sale; q2 = sale; q3 = sale }

edge_found : edge_of int_floats detector router event 10 legs ≡ usd 20000
unfolding edge_of net_edge_bps fmax ◌-ℤ◌ ◌+ℤ◌ ◌*ℤ◌
edge_found = refl
