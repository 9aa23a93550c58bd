-- ===== src/Router/Tests.antt =====
-- Routes among three packs, of which one does not answer in time.
use mev_bot.Base.{◌≡◌, refl, none, some, List, [], ◌∷◌, All, In, length, if◌then◌else◌}
use mev_bot.Base.Int.{pos, ◌-ℤ◌}
use mev_bot.Base.Text.{Text, codes, text_eq, text_leb, norm}
use mev_bot.Base.Sort.{sort}
use mev_bot.Base.Float.Ints.{fin, int_floats}
use mev_bot.Dex.{TradeIntent, Quote}
use mev_bot.Router.{
  Answer, quoted, quote_timeout, RouterSelection, eligible_pack_names, arb_scan, route, score_quote,
  quote_result, sort_score, ranks,
}
use mev_bot.Router.Selection.{route_best, length-arb_scan, AtMostScore}

abbrev intent : TradeIntent
intent = record {
  family = codes "evm";
  chain = codes "base";
  network = codes "mainnet";
  token_in = codes "WETH";
  token_out = codes "USDC";
  amount_in = pos 10;
  slippage_bps = pos 50;
  ttl_s = pos 30;
  strategy = codes "default";
  dex_preference = none;
}

abbrev enabled : List Text
enabled = codes "univ3" ∷ codes "curve" ∷ codes "univ2" ∷ []

abbrev offer : Text → Quote int_floats
offer name = record {
  dex = name;
  expected_out = pos (length name);
  min_out = pos 1;
  price_impact_bps = fin (pos 0);
  fee_estimate = fin (pos 0);
  route_summary = [];
  quote_latency_ms = fin (pos 5);
}

abbrev answers : Text → Answer int_floats
answers name = if text_eq name (codes "curve") then quote_timeout else quoted (offer name)

abbrev univ3_selected : RouterSelection int_floats
univ3_selected = record {
  dex = codes "univ3";
  quote = offer (codes "univ3");
  quote_table = arb_scan int_floats enabled answers intent;
}

routed : route int_floats enabled answers intent ≡ some univ3_selected
unfolding route eligible_pack_names arb_scan sort ranks quote_result sort_score score_quote text_leb
    text_eq norm ◌-ℤ◌
routed = refl

route_best_example :
    In (codes "univ3") (eligible_pack_names enabled intent)
    × (answers (codes "univ3") ≡ quoted (offer (codes "univ3")))
    × All
        (λ n. AtMostScore int_floats answers (offer (codes "univ3")) (answers n))
        (eligible_pack_names enabled intent)
    × (univ3_selected.quote_table ≡ arb_scan int_floats enabled answers intent)
route_best_example = route_best int_floats answers enabled intent univ3_selected routed

length-arb_scan_example :
    length (arb_scan int_floats enabled answers intent)
    ≡ length (eligible_pack_names enabled intent)
length-arb_scan_example = length-arb_scan int_floats answers enabled intent
