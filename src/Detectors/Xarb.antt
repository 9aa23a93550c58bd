-- ===== src/Detectors/Xarb.antt =====
-- `CrossDexArbScanDetector` (bot/detectors/xarb_detector.py): `over_sells`, `over_buys` and
-- `over_sizes` are the loops of `_scan_pair`.
pub mod Scan
pub mod Profits
pub mod Admitted
mod Tests
use mev_bot.Base.{
  ℕ, zero, suc, Bool, true, false, ◌&&◌, ◌||◌, not, Option, none, some, List, [], ◌∷◌, ◌++◌,
  if◌then◌else◌, is_empty, ltb, map, length,
}
use mev_bot.Base.Int.{ℤ, pos, ◌-ℤ◌, max_ℤ}
use mev_bot.Base.Text.{Text, codes, text_eq, strip}
use mev_bot.Base.Float.{FloatModel, below, fmax}
use mev_bot.Dex.{TradeIntent, Quote}
use mev_bot.Router.{RouterSelection, RouterQuoteResult, or_zero}
use mev_bot.Sizing.{dedupe_positive, sorted_set}
use mev_bot.Gates.{Opportunity, Constraints, text_or_empty}
use mev_bot.Firewall.{Firewall, RiskDecision, Check, should_exclude}
use mev_bot.Detectors.{
  MarketEvent, TradeRouter, FirewallEnv, firewall_of, no_metadata, check_of, class_name,
  join_commas, Item, Row, Cache, UniverseFile, sizes_or_default, quoted_by, load_universe, row_from,
  has_tokens, is_zero, of_event,
}

pub record XarbDetector (F : FloatModel) : Type 0 where
  pub scan_interval_s : F.Float
  pub min_edge_bps : F.Float
  pub min_liquidity_usd : F.Float
  pub fee_bps : F.Float
  pub flashloan_fee_bps : F.Float
  pub default_slippage_bps : ℤ
  pub default_ttl_s : ℤ
  pub firewalls : FirewallEnv
  pub last_scan_ts : F.Float
  pub cache : Cache F

-- What the loops keep.
pub record Best (F : FloatModel) : Type 0 where
  pub candidate_sizes : List ℕ
  pub best_edge : F.Float
  pub best_pair : Text × Text

-- `[int(s) for s in sizes if int(s) > 0]`
unfoldable pub positive_sizes : List ℕ → List ℕ
positive_sizes [] = []
positive_sizes (zero ∷ ss) = positive_sizes ss
positive_sizes (suc n ∷ ss) = suc n ∷ positive_sizes ss

-- `min(sizes or [100])`
unfoldable pub least_of : ℕ → List ℕ → ℕ
least_of m [] = m
least_of m (s ∷ ss) = let rest = least_of s ss in if ltb rest m then rest else m

abbrev pub tiny_of : List ℕ → ℕ
tiny_of [] = 100
tiny_of (s ∷ ss) = least_of s ss

module _ (F : FloatModel) where
  open F use {Float, at_most, add, sub, mul, div, of_ℤ, lit, neg_inf}

  unfoldable pub row_of : XarbDetector F → Item F → Option (Row F)
  unfolding row_from dedupe_positive
  row_of d item =
      let sizes = dedupe_positive (sizes_or_default F item.sizes) in
      if has_tokens F item && not (is_empty sizes)
      then some (row_from F d.min_liquidity_usd item sizes)
      else none

  unfoldable pub profit_edge_bps : XarbDetector F → ℤ → ℤ → Float → Float → Float
  unfolding fmax ◌-ℤ◌
  profit_edge_bps d buy_in sell_out buy_fee sell_fee =
      let base = of_ℤ (max_ℤ (pos 1) buy_in) in
      let gross = of_ℤ (max_ℤ (pos 0) (sell_out -ℤ buy_in)) in
      let fees = fmax F (lit 0 1) (add d.fee_bps d.flashloan_fee_bps) in
      let variable = div (mul base fees) (lit 10000 0) in
      let net =
        sub (sub (sub gross (fmax F (lit 0 1) buy_fee)) (fmax F (lit 0 1) sell_fee)) variable in
      mul (div net base) (lit 10000 0)

  module _ (d : XarbDetector F) (router : TradeRouter F) (family chain network : Text)
      (row : Row F) where
    abbrev pub intent_from : Text → Text → ℤ → Text → Option Text → TradeIntent
    intent_from token_in token_out amount_in strategy dex_preference = record {
      family = family;
      chain = chain;
      network = network;
      token_in = token_in;
      token_out = token_out;
      amount_in = amount_in;
      slippage_bps = d.default_slippage_bps;
      ttl_s = d.default_ttl_s;
      strategy = strategy;
      dex_preference = dex_preference;
    }

    -- The amount of the two simulations, which is at least 1.
    abbrev pub tiny : ℤ
    tiny = max_ℤ (pos 1) (pos (tiny_of (positive_sizes row.sizes)))

    unfoldable pub sim_buy : Check
    unfolding positive_sizes least_of
    sim_buy =
        check_of
          (not (
            is_empty (
              quoted_by F (
                router.arb_scan
                  (intent_from row.token_in row.token_out tiny (codes "risk_firewall") none)))))
          (codes "no_buy_quote")

    unfoldable pub sim_sell : Check
    unfolding positive_sizes least_of
    sim_sell =
        check_of
          (elim (router.route
            (intent_from row.token_out row.token_in tiny (codes "risk_firewall") none)) [
              | none ↦ false
              | some sel ↦ true
            ])
          (codes "no_sell_quote")

    unfoldable pub screen : Bool × RiskDecision
    unfolding should_exclude sim_buy sim_sell firewall_of
    screen =
        should_exclude (firewall_of d.firewalls chain) row.token_in
          (row.token_in ++ codes "->" ++ row.token_out) no_metadata sim_buy sim_sell

    abbrev pub good_of : ℕ → List (Text × Quote F)
    good_of size = quoted_by F (
        router.arb_scan
          (intent_from row.token_in row.token_out (pos size) (codes "opportunity_engine") none))

    abbrev pub sell_route : Text × Quote F → Text × Quote F → Option (RouterSelection F)
    sell_route buy sell = router.route (
        intent_from row.token_out row.token_in buy.1.expected_out (codes "opportunity_engine")
          (some sell.0))

    abbrev pub edge_of : ℕ → Text × Quote F → RouterSelection F → Float
    edge_of size buy sel =
        profit_edge_bps d (pos size) sel.quote.expected_out (or_zero F buy.1.fee_estimate)
          (or_zero F sel.quote.fee_estimate)

    -- A trade whose edge is high enough is a candidate, and the best if its edge is the highest.
    unfoldable pub note_edge : ℕ → Text → Text → Float → Best F → Best F
    note_edge size buy sell edge b =
        if at_most d.min_edge_bps edge
        then record {
          candidate_sizes = b.candidate_sizes ++ size ∷ [];
          best_edge = if below F b.best_edge edge then edge else b.best_edge;
          best_pair = if below F b.best_edge edge then (buy, sell) else b.best_pair;
        }
        else b

    abbrev pub note_route :
        ℕ → Text × Quote F → Text × Quote F → Option (RouterSelection F) → Best F → Best F
    note_route size buy sell none b = b
    note_route size buy sell (some sel) b = note_edge size buy.0 sell.0 (edge_of size buy sel) b

    unfoldable pub try_pair : ℕ → Text × Quote F → Text × Quote F → Best F → Best F
    unfolding note_edge profit_edge_bps text_eq
    try_pair size buy sell b =
        if text_eq sell.0 buy.0 then b else note_route size buy sell (sell_route buy sell) b

    unfoldable pub over_sells : ℕ → Text × Quote F → List (Text × Quote F) → Best F → Best F
    unfolding try_pair
    over_sells size buy [] b = b
    over_sells size buy (sell ∷ sells) b = over_sells size buy sells (try_pair size buy sell b)

    unfoldable pub over_buys : ℕ → List (Text × Quote F) → List (Text × Quote F) → Best F → Best F
    unfolding over_sells
    over_buys size good [] b = b
    over_buys size good (buy ∷ buys) b = over_buys size good buys (over_sells size buy good b)

    -- A size with fewer than two quotes is passed over.
    unfoldable pub over_sizes : List ℕ → Best F → Best F
    unfolding over_buys
    over_sizes [] b = b
    over_sizes (size ∷ sizes) b =
        let good = good_of size in
        over_sizes sizes (if ltb (length good) 2 then b else over_buys size good good b)

    abbrev pub no_best : Best F
    no_best = record { candidate_sizes = []; best_edge = neg_inf; best_pair = ([], []) }

    -- The opportunity of the best trade. `stamp` is the text of the time in its id. The entries of the
    -- constraints that nothing reads are left out.
    unfoldable pub opportunity_of : RiskDecision → Float → Text → Best F → Opportunity F
    unfolding sorted_set join_commas
    opportunity_of decision now stamp b = record {
      id =
          codes "xarb:"
          ++ chain
          ++ codes ":"
          ++ row.token_in
          ++ codes ":"
          ++ row.token_out
          ++ codes ":"
          ++ stamp;
      ts = now;
      family = family;
      chain = chain;
      network = network;
      kind = codes "xarb";
      size_candidates = map pos (sorted_set b.candidate_sizes);
      expected_edge_bps = b.best_edge;
      confidence = lit 70 2;
      required_capabilities = codes "quote" ∷ codes "build" ∷ codes "simulate" ∷ [];
      constraints = record {
        token_in = some row.token_in;
        token_out = some row.token_out;
        best_dex = some b.best_pair.0;
        slippage_bps = some d.default_slippage_bps;
        ttl_s = some d.default_ttl_s;
        profit_est_usd = none;
        sell_dex = some b.best_pair.1;
        second_best_dex = none;
        token_mid_1 = none;
        token_mid_2 = none;
        path_tokens = [];
        path_dexes = [];
      };
      refs =
          (codes "detector", codes "CrossDexArbScanDetector")
          ∷ (codes "route_pair", b.best_pair.0 ++ codes "->" ++ b.best_pair.1)
          ∷ (codes "token_pair", row.token_in ++ codes "/" ++ row.token_out)
          ∷ (codes "risk_classification", class_name decision.classification)
          ∷ (codes "risk_reasons", join_commas decision.reasons)
          ∷ [];
    }

    unfoldable pub scan_best : Best F
    unfolding over_sizes positive_sizes
    scan_best = over_sizes (positive_sizes row.sizes) no_best

    -- `float(row.get("min_liquidity_usd") or self.min_liquidity_usd)`
    abbrev pub min_liq : Float
    min_liq = if is_zero F row.min_liquidity_usd then d.min_liquidity_usd else row.min_liquidity_usd

    -- The end of the scan, from what the firewall and the loops found.
    abbrev pub scan_result : Float → Text → Bool × RiskDecision → Best F → List (Opportunity F)
    scan_result now stamp screened b =
        if below F row.liquidity_usd min_liq
        then []
        else if screened.0
        then []
        else if is_empty b.candidate_sizes || at_most b.best_edge neg_inf
        then []
        else opportunity_of screened.1 now stamp b ∷ []

    unfoldable pub scan_pair : Float → Text → List (Opportunity F)
    unfolding screen scan_best opportunity_of
    scan_pair now stamp = scan_result now stamp screen scan_best

  unfoldable pub scan_rows :
      XarbDetector F
      → TradeRouter F
      → MarketEvent
      → Float
      → Text
      → List (Row F)
      → List (Opportunity F)
  unfolding scan_pair
  scan_rows d router e now stamp [] = []
  scan_rows d router e now stamp (r ∷ rs) =
      let rest = scan_rows d router e now stamp rs in
      if of_event F e r
      then scan_pair d router e.family e.chain e.network r now stamp ++ rest
      else rest

  unfoldable pub on_event :
      XarbDetector F
      → TradeRouter F
      → UniverseFile F
      → MarketEvent
      → Float
      → Text
      → List (Opportunity F) × XarbDetector F
  unfolding scan_rows load_universe row_of
  on_event d router file e now stamp =
      let (rows, cache) = load_universe F (row_of d) file d.cache in
      let d' = record d { last_scan_ts = now; cache = cache } in
      if below F (sub now d.last_scan_ts) d.scan_interval_s
      then ([], d)
      else (scan_rows d' router e now stamp rows, d')
