-- ===== src/Detectors.antt =====
-- What the detectors of bot/detectors share: the router that they ask, the firewall of a chain, and
-- the universe of tokens that they read. During one scan the router's answers are a function of the
-- intent; the metrics are not modelled.
pub mod Xarb
pub mod Triarb
use mev_bot.Base.{
  ℕ, zero, suc, Bool, true, false, ◌&&◌, not, ◌==◌, Option, none, some, List, [], ◌∷◌, ◌++◌,
  if◌then◌else◌, is_empty,
}
use mev_bot.Base.Int.{ℤ, pos}
use mev_bot.Base.Text.{Text, codes, text_eq, norm, strip, or_else}
use mev_bot.Base.Float.{FloatModel}
use mev_bot.Dex.{TradeIntent, Quote}
use mev_bot.Router.{RouterQuoteResult, RouterSelection, usable, or_zero}
use mev_bot.Sizing.{dedupe_positive}
use mev_bot.Gates.{text_or_empty}
use mev_bot.Firewall.{
  Firewall, Metadata, RawOverrides, Value, absent, flag, Check, answered, Classification, allow,
  watch, deny, new_firewall,
}

pub record MarketEvent : Type 0 where
  pub family : Text
  pub chain : Text
  pub network : Text

-- The methods of `TradeRouter` that are called.
pub record TradeRouter (F : FloatModel) : Type 0 where
  pub arb_scan : TradeIntent → List (RouterQuoteResult F)
  pub route : TradeIntent → Option (RouterSelection F)

-- The environment of the firewalls and the overrides of the operator state.
pub record FirewallEnv : Type 0 where
  pub enabled : Value
  pub tax_bps_deny : Value
  pub tiny_amount : Value
  pub overrides : RawOverrides

-- `_firewall`; that the objects are kept does not change what they are.
unfoldable pub firewall_of : FirewallEnv → Text → Firewall
unfolding new_firewall norm
firewall_of env chain =
    new_firewall (norm (or_else chain (codes "unknown"))) env.enabled env.tax_bps_deny
      env.tiny_amount env.overrides

-- What the detectors pass on to the firewall for a row that has none of the keys.
abbrev pub no_metadata : Metadata
no_metadata = record {
  is_proxy = absent;
  blacklist_enabled = absent;
  owner_can_block = absent;
  owner_can_mint = absent;
  owner_renounced = some (flag true);
  buy_tax_bps = absent;
  sell_tax_bps = absent;
}

-- `ok, "ok" if ok else reason`
abbrev pub check_of : Bool → Text → Check
check_of good reason = answered good (if good then codes "ok" else reason)

abbrev pub class_name : Classification → Text
class_name allow = codes "ALLOW"
class_name watch = codes "WATCH"
class_name deny = codes "DENY"

-- `",".join(reasons)`
unfoldable pub join_commas : List Text → Text
join_commas [] = []
join_commas (r ∷ []) = r
join_commas (r ∷ s ∷ rs) = let rest = join_commas (s ∷ rs) in r ++ codes "," ++ rest

module _ (F : FloatModel) where
  open F use {Float, at_most, lit}

  -- `not x`
  abbrev pub is_zero : Float → Bool
  is_zero x = at_most x (lit 0 1) && at_most (lit 0 1) x

  -- The keys of an object of the universe file.
  pub record Item : Type 0 where
    pub family : Option Text
    pub chain : Option Text
    pub network : Option Text
    pub token_in : Option Text
    pub token_out : Option Text
    pub sizes : Option (List ℤ)
    pub liquidity_usd : Option Float
    pub min_liquidity_usd : Option Float

  pub record Row : Type 0 where
    pub family : Text
    pub chain : Text
    pub network : Text
    pub token_in : Text
    pub token_out : Text
    pub sizes : List ℕ
    pub liquidity_usd : Float
    pub min_liquidity_usd : Float

  -- `item.get("sizes") or [100, 250, 500]`
  abbrev pub sizes_or_default : Option (List ℤ) → List ℤ
  sizes_or_default none = pos 100 ∷ pos 250 ∷ pos 500 ∷ []
  sizes_or_default (some []) = pos 100 ∷ pos 250 ∷ pos 500 ∷ []
  sizes_or_default (some (s ∷ ss)) = s ∷ ss

  -- A pack and its quote, of the usable results.
  abbrev pub quoted_by : List (RouterQuoteResult F) → List (Text × Quote F)
  quoted_by [] = []
  quoted_by (r ∷ rs) = elim (usable F r) [
    | some q ↦ (r.dex, q) ∷ quoted_by rs
    | none ↦ quoted_by rs
  ]

  -- `_load_universe`'s cache, and the file: missing, or its time of change with its items, where
  -- `none` stands for an item that is not an object. A file that is not a list has no items.
  pub record Cache : Type 0 where
    pub rows : List Row
    pub mtime : Option ℕ

  pub data UniverseFile : Type 0 where
    missing : UniverseFile
    present : ℕ → List (Option Item) → UniverseFile

  abbrev pub add_row : Option Row → List Row → List Row
  add_row none rows = rows
  add_row (some r) rows = r ∷ rows

  unfoldable pub read_rows : (Item → Option Row) → List (Option Item) → List Row
  read_rows row_of [] = []
  read_rows row_of (none ∷ items) = read_rows row_of items
  read_rows row_of (some item ∷ items) = add_row (row_of item) (read_rows row_of items)

  abbrev pub fresh : Cache → ℕ → Bool
  fresh c t = (elim (c.mtime) [ none ↦ false | some m ↦ m == t ]) && not (is_empty c.rows)

  unfoldable pub load_universe : (Item → Option Row) → UniverseFile → Cache → List Row × Cache
  unfolding read_rows
  load_universe row_of missing c = ([], record { rows = []; mtime = none })
  load_universe row_of (present t items) c =
      let rows = read_rows row_of items in
      if fresh c t then (c.rows, c) else (rows, record { rows = rows; mtime = some t })

  -- The fields of a row but its sizes, once there are tokens and sizes.
  unfoldable pub row_from : Float → Item → List ℕ → Row
  unfolding norm strip
  row_from min_liquidity_usd item sizes = record {
    family = norm (or_else (text_or_empty item.family) (codes "evm"));
    chain = norm (or_else (text_or_empty item.chain) (codes "sepolia"));
    network = norm (or_else (text_or_empty item.network) (codes "testnet"));
    token_in = strip (text_or_empty item.token_in);
    token_out = strip (text_or_empty item.token_out);
    sizes = sizes;
    liquidity_usd = (elim (item.liquidity_usd) [ none ↦ lit 0 1 | some x ↦ or_zero F x ]);
    min_liquidity_usd = (elim (item.min_liquidity_usd) [
      | none ↦ min_liquidity_usd
      | some x ↦ if is_zero x then min_liquidity_usd else x
    ]);
  }

  abbrev pub has_tokens : Item → Bool
  has_tokens item =
      not (is_empty (strip (text_or_empty item.token_in)))
      && not (is_empty (strip (text_or_empty item.token_out)))

  -- The rows of the event's family, chain and network.
  abbrev pub of_event : MarketEvent → Row → Bool
  of_event e r = text_eq r.family e.family && text_eq r.chain e.chain && text_eq r.network e.network
