-- ===== src/Detectors/Triarb.antt =====
-- `TriArbDetector` (bot/detectors/triarb_detector.py). `scan_cycle` is the body of the loop of
-- `on_event`.
pub mod Cycles
pub mod Tests
use mev_bot.Base.{
  ℕ, zero, suc, Bool, true, false, ◌&&◌, ◌||◌, not, Option, none, some, List, [], ◌∷◌, ◌++◌,
  if◌then◌else◌, is_empty, ltb, map, keep,
}
use mev_bot.Base.Int.{ℤ, pos, ◌-ℤ◌, max_ℤ}
use mev_bot.Base.Text.{Text, codes, text_eq}
use mev_bot.Base.Float.{FloatModel, below, fmax}
use mev_bot.Dex.{TradeIntent}
use mev_bot.Router.{RouterSelection, or_zero}
use mev_bot.Sizing.{dedupe_positive}
use mev_bot.Gates.{Opportunity}
use mev_bot.Graph
use mev_bot.Graph.{Cycle, build_token_graph, find_tri_cycles}
use mev_bot.Firewall.{RiskDecision, Check, should_exclude}
use mev_bot.Detectors.{
  MarketEvent, TradeRouter, FirewallEnv, firewall_of, no_metadata, check_of, class_name,
  join_commas, Item, Row, Cache, UniverseFile, load_universe, row_from, has_tokens, of_event,
}

pub record TriArbDetector (F : FloatModel) : Type 0 where
  pub scan_interval_s : F.Float
  pub max_cycles : ℤ
  pub max_start_tokens : ℤ
  pub min_edge_bps : F.Float
  pub min_liquidity_usd : F.Float
  pub fee_bps : F.Float
  pub flashloan_fee_bps : F.Float
  pub default_slippage_bps : ℤ
  pub default_ttl_s : ℤ
  pub firewalls : FirewallEnv
  pub last_scan_ts : F.Float
  pub cache : Cache F

-- The routes of the three legs.
pub record Legs (F : FloatModel) : Type 0 where
  pub q1 : RouterSelection F
  pub q2 : RouterSelection F
  pub q3 : RouterSelection F

abbrev pub default_sizes : List ℕ → List ℕ
default_sizes [] = 100 ∷ 250 ∷ 500 ∷ []
default_sizes (s ∷ ss) = s ∷ ss

abbrev pub sizes_or_empty : Option (List ℤ) → List ℤ
sizes_or_empty none = []
sizes_or_empty (some ss) = ss

-- `(tin, tout) in {(a, b), (b, c), (c, a), (b, a), (c, b), (a, c)}`
unfoldable pub on_cycle : Cycle → Text → Text → Bool
unfolding text_eq
on_cycle t x y =
    (text_eq x t.a && text_eq y t.b)
    || (text_eq x t.b && text_eq y t.c)
    || (text_eq x t.c && text_eq y t.a)
    || (text_eq x t.b && text_eq y t.a)
    || (text_eq x t.c && text_eq y t.b)
    || (text_eq x t.a && text_eq y t.c)

-- `min(sizes) if sizes else 100`
abbrev pub least_nat : ℕ → List ℕ → ℕ
least_nat m [] = m
least_nat m (s ∷ ss) = let rest = least_nat s ss in if ltb rest m then rest else m

abbrev pub least_or_100 : List ℕ → ℕ
least_or_100 [] = 100
least_or_100 (s ∷ ss) = least_nat s ss

module _ (F : FloatModel) where
  open F use {Float, at_most, add, sub, mul, div, of_ℤ, lit, round}

  unfoldable pub row_of : TriArbDetector F → Item F → Option (Row F)
  unfolding row_from dedupe_positive
  row_of d item =
      if has_tokens F item
      then some (
          row_from F d.min_liquidity_usd item
            (default_sizes (dedupe_positive (sizes_or_empty item.sizes))))
      else none

  unfoldable pub size_candidates : ℕ → List ℤ
  unfolding dedupe_positive
  size_candidates base =
      let b = max_ℤ (pos 1) (pos base) in
      map pos (
        dedupe_positive (
          max_ℤ (pos 1) (round (mul (of_ℤ b) (lit 5 1)))
          ∷ b
          ∷ max_ℤ (pos 1) (round (mul (of_ℤ b) (lit 20 1)))
          ∷ []))

  unfoldable pub net_edge_bps : TriArbDetector F → ℤ → ℤ → Float → Float
  unfolding fmax ◌-ℤ◌
  net_edge_bps d start_amount end_amount fee_sum =
      let base = of_ℤ (max_ℤ (pos 1) start_amount) in
      let gross = of_ℤ (max_ℤ (pos 0) (end_amount -ℤ start_amount)) in
      let fees = fmax F (lit 0 1) (add d.fee_bps d.flashloan_fee_bps) in
      let variable = div (mul base fees) (lit 10000 0) in
      let net = sub (sub gross variable) (fmax F (lit 0 1) fee_sum) in
      mul (div net base) (lit 10000 0)

  -- The rows of a triangle's pairs.
  abbrev pub rows_of : Cycle → List (Row F) → List (Row F)
  rows_of t rows = keep (λ r. on_cycle t r.token_in r.token_out) rows

  abbrev pub all_sizes : List (Row F) → List ℕ
  all_sizes [] = []
  all_sizes (r ∷ rs) = keep (λ n. ltb 0 n) r.sizes ++ all_sizes rs

  unfoldable pub pick_cycle_base : Cycle → List (Row F) → ℕ
  unfolding on_cycle
  pick_cycle_base t rows = least_or_100 (all_sizes (rows_of t rows))

  -- `min` of floats: the first of the least.
  unfoldable pub least_liquidity : Float → List (Row F) → Float
  least_liquidity m [] = m
  least_liquidity m (r ∷ rs) =
      least_liquidity (if below F r.liquidity_usd m then r.liquidity_usd else m) rs

  abbrev pub liquidity_or_zero : List (Row F) → Float
  liquidity_or_zero [] = lit 0 1
  liquidity_or_zero (r ∷ rs) = least_liquidity r.liquidity_usd rs

  unfoldable pub cycle_liquidity : Cycle → List (Row F) → Float
  unfolding on_cycle least_liquidity
  cycle_liquidity t rows = liquidity_or_zero (rows_of t rows)

  module _ (d : TriArbDetector F) (router : TradeRouter F) (event : MarketEvent) where
    unfoldable pub quote_leg : Text → Text → ℤ → Option (RouterSelection F)
    quote_leg token_in token_out amount_in = router.route (record {
      family = event.family;
      chain = event.chain;
      network = event.network;
      token_in = token_in;
      token_out = token_out;
      amount_in = amount_in;
      slippage_bps = d.default_slippage_bps;
      ttl_s = d.default_ttl_s;
      strategy = codes "opportunity_engine";
      dex_preference = none;
    })

    abbrev pub was_quoted : Option (RouterSelection F) → Bool
    was_quoted none = false
    was_quoted (some q) = true

    -- The firewall's verdict on the first token, with a purchase of the second and a sale of the third.
    unfoldable pub screen : Cycle → ℕ → Bool × RiskDecision
    unfolding should_exclude firewall_of quote_leg
    screen t base =
        let amount = max_ℤ (pos 1) (pos base) in
        should_exclude (firewall_of d.firewalls event.chain) t.a
          (t.a ++ codes ">" ++ t.b ++ codes ">" ++ t.c ++ codes ">" ++ t.a) no_metadata
          (check_of (was_quoted (quote_leg t.a t.b amount)) (codes "buy_leg_failed"))
          (check_of (was_quoted (quote_leg t.c t.a amount)) (codes "sell_leg_failed"))

    -- The three legs, each with what the one before it is expected to give.
    abbrev pub third_leg :
        Cycle → RouterSelection F → RouterSelection F → Option (RouterSelection F) → Option (Legs F)
    third_leg t q1 q2 none = none
    third_leg t q1 q2 (some q3) = some (record { q1 = q1; q2 = q2; q3 = q3 })

    abbrev pub second_leg : Cycle → RouterSelection F → Option (RouterSelection F) → Option (Legs F)
    second_leg t q1 none = none
    second_leg t q1 (some q2) = third_leg t q1 q2 (quote_leg t.c t.a q2.quote.expected_out)

    abbrev pub first_leg : Cycle → Option (RouterSelection F) → Option (Legs F)
    first_leg t none = none
    first_leg t (some q1) = second_leg t q1 (quote_leg t.b t.c q1.quote.expected_out)

    unfoldable pub legs_of : Cycle → ℕ → Option (Legs F)
    unfolding quote_leg
    legs_of t base = first_leg t (quote_leg t.a t.b (pos base))

    unfoldable pub edge_of : ℕ → Legs F → Float
    unfolding net_edge_bps
    edge_of base l = net_edge_bps d (pos base) l.q3.quote.expected_out (
        add (add (or_zero F l.q1.quote.fee_estimate) (or_zero F l.q2.quote.fee_estimate))
          (or_zero F l.q3.quote.fee_estimate))

    unfoldable pub opportunity_of : Cycle → ℕ → RiskDecision → Float → Text → Legs F → Opportunity F
    unfolding size_candidates edge_of join_commas
    opportunity_of t base decision now stamp l = record {
      id =
          codes "triarb:"
          ++ event.chain
          ++ codes ":"
          ++ t.a
          ++ codes ":"
          ++ t.b
          ++ codes ":"
          ++ t.c
          ++ codes ":"
          ++ stamp;
      ts = now;
      family = event.family;
      chain = event.chain;
      network = event.network;
      kind = codes "triarb";
      size_candidates = size_candidates base;
      expected_edge_bps = edge_of base l;
      confidence = lit 65 2;
      required_capabilities = codes "quote" ∷ codes "build" ∷ codes "simulate" ∷ [];
      constraints = record {
        token_in = some t.a;
        token_out = some t.a;
        best_dex = none;
        slippage_bps = some d.default_slippage_bps;
        ttl_s = some d.default_ttl_s;
        profit_est_usd = none;
        sell_dex = none;
        second_best_dex = none;
        token_mid_1 = some t.b;
        token_mid_2 = some t.c;
        path_tokens = t.a ∷ t.b ∷ t.c ∷ t.a ∷ [];
        path_dexes = l.q1.dex ∷ l.q2.dex ∷ l.q3.dex ∷ [];
      };
      refs =
          (codes "detector", codes "TriArbDetector")
          ∷ (codes "route_tokens", t.a ++ codes ">" ++ t.b ++ codes ">" ++ t.c ++ codes ">" ++ t.a)
          ∷ (codes "route_dexes", l.q1.dex ++ codes ">" ++ l.q2.dex ++ codes ">" ++ l.q3.dex)
          ∷ (codes "risk_classification", class_name decision.classification)
          ∷ (codes "risk_reasons", join_commas decision.reasons)
          ∷ [];
    }

    abbrev pub judge_legs :
        Cycle → ℕ → RiskDecision → Float → Text → Option (Legs F) → Option (Opportunity F)
    judge_legs t base decision now stamp none = none
    judge_legs t base decision now stamp (some l) =
        if below F (edge_of base l) d.min_edge_bps
        then none
        else some (opportunity_of t base decision now stamp l)

    unfoldable pub scan_cycle : List (Row F) → Float → Text → Cycle → Option (Opportunity F)
    unfolding pick_cycle_base cycle_liquidity screen legs_of opportunity_of
    scan_cycle rows now stamp t =
        let base = pick_cycle_base t rows in
        if below F (cycle_liquidity t rows) d.min_liquidity_usd
        then none
        else if (screen t base).0
        then none
        else judge_legs t base (screen t base).1 now stamp (legs_of t base)

    abbrev pub add_found : Option (Opportunity F) → List (Opportunity F) → List (Opportunity F)
    add_found none out = out
    add_found (some opp) out = opp ∷ out

    unfoldable pub scan_cycles : List (Row F) → Float → Text → List Cycle → List (Opportunity F)
    unfolding scan_cycle
    scan_cycles rows now stamp [] = []
    scan_cycles rows now stamp (t ∷ ts) =
        add_found (scan_cycle rows now stamp t) (scan_cycles rows now stamp ts)

  -- The whole row is the metadata of its edges, which the search does not read.
  abbrev pub graph_row : Row F → mev_bot.Graph.Row F
  graph_row r = record {
    token_in = some r.token_in;
    token_out = some r.token_out;
    sizes = map pos r.sizes;
    liquidity_usd = r.liquidity_usd;
    metadata = [];
  }

  -- `enabled or ["unknown"]`
  abbrev pub or_unknown : List Text → List Text
  or_unknown [] = codes "unknown" ∷ []
  or_unknown (n ∷ ns) = n ∷ ns

  unfoldable pub cycles_of : TriArbDetector F → List Text → List (Row F) → List Cycle
  unfolding build_token_graph find_tri_cycles
  cycles_of d enabled rows =
      find_tri_cycles F (build_token_graph F (map graph_row rows) (or_unknown enabled) true)
        d.max_cycles d.max_start_tokens

  unfoldable pub scan_rows :
      TriArbDetector F
      → TradeRouter F
      → List Text
      → MarketEvent
      → Float
      → Text
      → List (Row F)
      → List (Opportunity F)
  unfolding cycles_of scan_cycles
  scan_rows d router enabled event now stamp [] = []
  scan_rows d router enabled event now stamp (r ∷ rs) =
      scan_cycles d router event (r ∷ rs) now stamp (cycles_of d enabled (r ∷ rs))

  -- `enabled` are the names of the router's registry, none if it raises.
  unfoldable pub on_event :
      TriArbDetector F
      → TradeRouter F
      → List Text
      → UniverseFile F
      → MarketEvent
      → Float
      → Text
      → List (Opportunity F) × TriArbDetector F
  unfolding scan_rows load_universe row_of
  on_event d router enabled file event now stamp =
      let (rows, cache) = load_universe F (row_of d) file d.cache in
      let d' = record d { last_scan_ts = now; cache = cache } in
      if below F (sub now d.last_scan_ts) d.scan_interval_s
      then ([], d)
      else (scan_rows d' router enabled event now stamp (keep (of_event F event) rows), d')
