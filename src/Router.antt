-- ===== src/Router.antt =====
-- bot/core/router.py. How each pack answers within the timeout is an argument: the thread pool gives
-- no other influence of one quote on another. The metrics are not modelled.
pub mod Order
pub mod Selection
mod Tests
use mev_bot.Base.{
  Bool, true, false, ◌&&◌, ◌||◌, not, Option, none, some, List, [], ◌∷◌, map, if◌then◌else◌,
}
use mev_bot.Base.Text.{Text, codes, text_eq, text_leb, norm, member}
use mev_bot.Base.Float.{FloatModel, below}
use mev_bot.Base.Sort.{sort}
use mev_bot.Dex.{TradeIntent, Quote}

-- What becomes of the task of one pack before the timeout.
pub data Answer (F : FloatModel) : Type 0 where
  pack_not_found quote_timeout : Answer F
  quoted : Quote F → Answer F
  raised : Text → Answer F

pub record RouterQuoteResult (F : FloatModel) : Type 0 where
  pub dex : Text
  pub quote : Option (Quote F)
  pub ok : Bool
  pub reason : Text

pub record RouterSelection (F : FloatModel) : Type 0 where
  pub dex : Text
  pub quote : Quote F
  pub quote_table : List (RouterQuoteResult F)

-- `sorted(names)` of a set of names.
abbrev pub sorted_names : List Text → List Text
sorted_names names = sort text_leb names

abbrev pub preference : Option Text → Text
preference none = []
preference (some p) = norm p

-- `[pref] if pref in names else []`, or all the names without a preference.
abbrev pub preferred : Text → List Text → List Text
preferred [] names = names
preferred (c ∷ cs) names = if member (c ∷ cs) names then (c ∷ cs) ∷ [] else []

unfoldable pub eligible_pack_names : List Text → TradeIntent → List Text
eligible_pack_names enabled intent =
    preferred (preference intent.dex_preference) (sorted_names enabled)

module _ (F : FloatModel) where
  open F use {Float, at_most, sub, of_ℤ, lit, neg_inf}

  -- `x or 0.0`
  abbrev pub or_zero : Float → Float
  or_zero x = if at_most x (lit 0 0) && at_most (lit 0 0) x then lit 0 0 else x

  unfoldable pub score_quote : Quote F → Float
  score_quote q = sub (of_ℤ q.expected_out) (or_zero q.fee_estimate)

  unfoldable pub quote_result : Text → Answer F → RouterQuoteResult F
  quote_result name pack_not_found = record {
    dex = name;
    quote = none;
    ok = false;
    reason = codes "pack_not_found";
  }
  quote_result name quote_timeout = record {
    dex = name;
    quote = none;
    ok = false;
    reason = codes "quote_timeout";
  }
  quote_result name (quoted q) = record { dex = name; quote = some q; ok = true; reason = [] }
  quote_result name (raised e) = record { dex = name; quote = none; ok = false; reason = e }

  -- The quote of a result that is usable.
  abbrev pub usable : RouterQuoteResult F → Option (Quote F)
  usable r = if r.ok then r.quote else none

  -- The first part of the key that the table is sorted by.
  unfoldable pub sort_score : RouterQuoteResult F → Float
  unfolding score_quote
  sort_score r = elim (usable r) [ some q ↦ score_quote q | none ↦ neg_inf ]

  -- `key(a) >= key(b)`, the order of `sorted(…, reverse=True)`.
  unfoldable pub ranks : RouterQuoteResult F → RouterQuoteResult F → Bool
  ranks a b =
      below F (sort_score b) (sort_score a)
      || (at_most (sort_score a) (sort_score b)
          && at_most (sort_score b) (sort_score a)
          && text_leb b.dex a.dex)

  abbrev pub results : (Text → Answer F) → List Text → List (RouterQuoteResult F)
  results answer [] = []
  results answer (n ∷ ns) = quote_result n (answer n) ∷ results answer ns

  unfoldable pub arb_scan : List Text → (Text → Answer F) → TradeIntent → List (RouterQuoteResult F)
  arb_scan enabled answer intent = sort ranks (results answer (eligible_pack_names enabled intent))

  abbrev pub select :
      List (RouterQuoteResult F) → List (RouterQuoteResult F) → Option (RouterSelection F)
  select table [] = none
  select table (r ∷ rs) = elim (usable r) [
    | some q ↦ some (record { dex = r.dex; quote = q; quote_table = table })
    | none ↦ select table rs
  ]

  unfoldable pub route : List Text → (Text → Answer F) → TradeIntent → Option (RouterSelection F)
  route enabled answer intent = let quotes = arb_scan enabled answer intent in select quotes quotes
