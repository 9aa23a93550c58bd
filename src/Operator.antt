-- ===== src/Operator.antt =====
-- The operator's state, as it is validated, saved, loaded and patched (ops/operator_state.py). A JSON
-- value is one of the shapes that the code tells apart, with `str(x)` of the items of a list already
-- taken; the file holds the parsed JSON. `float(s)` of a text and the clock are arguments.
pub mod Store
pub mod Sets
pub mod Wellformed
pub mod Checks
pub mod Saved
pub mod Reload
pub mod Tests
use mev_bot.Base.{
  Bool, true, false, ◌&&◌, not, Option, none, some, List, [], ◌∷◌, ◌++◌, map, is_empty,
  if◌then◌else◌,
}
use mev_bot.Base.Int.{ℤ, pos, leb_ℤ}
use mev_bot.Base.Text.{Text, codes, text_eq, text_leb, strip, lower, upper, norm, or_else, member}
use mev_bot.Base.Parse.{parse_int, split_commas}
use mev_bot.Base.Float.{FloatModel}
use mev_bot.Base.Result.{Result, ok, raise}
use mev_bot.Gates.{text_or_empty, bool_or_false}
use mev_bot.Canonical.{canonicalize_chain_target}

abbrev pub allowed_states : List Text
allowed_states =
    codes "PAUSED"
    ∷ codes "READY"
    ∷ codes "TRADING"
    ∷ codes "DEGRADED"
    ∷ codes "PANIC"
    ∷ codes "UNKNOWN"
    ∷ []

abbrev pub allowed_modes : List Text
allowed_modes = codes "dryrun" ∷ codes "paper" ∷ codes "live" ∷ codes "UNKNOWN" ∷ []

-- The ValueErrors.
pub data StateError : Type 0 where
  not_an_object invalid_status_message_id : StateError
  invalid_state invalid_mode invalid_number : Text → StateError

-- A value that is read as a list of slugs.
pub data Slugs : Type 0 where
  no_slugs other_value : Slugs
  csv : Text → Slugs
  items : List Text → Slugs

-- A value that is read as an optional float.
pub data Number (F : FloatModel) : Type 0 where
  no_number : Number F
  number : F.Float → Number F
  numeral : Text → Number F

pub data MessageId : Type 0 where
  no_id other_id : MessageId
  id_number : ℤ → MessageId
  id_text : Text → MessageId

pub record Overrides (A : Type 0) : Type 0 where
  pub allowlist : A
  pub denylist : A

pub record Limits (A : Type 0) : Type 0 where
  pub max_fee_gwei : A
  pub slippage_bps : A
  pub max_daily_loss_usd : A
  pub min_edge_bps : A

pub record RiskOverrides (A : Type 0) : Type 0 where
  pub allow_tokens : A
  pub deny_tokens : A
  pub watch_tokens : A
  pub allow_pools : A
  pub deny_pools : A
  pub watch_pools : A

-- The keys of the JSON object that are read; a nested object is `none` where the key is missing or no
-- object.
pub record RawState (F : FloatModel) : Type 0 where
  pub state : Option Text
  pub mode : Option Text
  pub kill_switch : Option Bool
  pub flashloan_enabled : Option Bool
  pub chain_target : Option Text
  pub strategy_overrides : Option (Overrides Slugs)
  pub limits : Option (Limits (Number F))
  pub risk_overrides : Option (RiskOverrides Slugs)
  pub enabled_dex_overrides : Option (Overrides Slugs)
  pub dex_packs_enabled : Slugs
  pub dex_packs_disabled : Slugs
  pub status_message_id : MessageId
  pub last_updated : Option Text
  pub last_actor : Option Text

-- What `validate_state` returns. Its keys `strategy_enabled`, `strategy_disabled`, `dex_packs_enabled`
-- and `dex_packs_disabled` hold the lists of the two overrides again.
pub record OperatorFile (F : FloatModel) : Type 0 where
  pub state : Text
  pub mode : Text
  pub kill_switch : Bool
  pub flashloan_enabled : Bool
  pub chain_target : Text
  pub strategy_overrides : Overrides (List Text)
  pub limits : Limits (Option F.Float)
  pub risk_overrides : RiskOverrides (List Text)
  pub enabled_dex_overrides : Overrides (List Text)
  pub status_message_id : Option ℤ
  pub last_updated : Text
  pub last_actor : Text

unfoldable pub normalize_actor : Option Text → Text
unfolding strip
normalize_actor actor = or_else (strip (text_or_empty actor)) (codes "system")

-- `[s for s in (x.strip().lower() for x in xs) if s]`
unfoldable pub slugs_of : List Text → List Text
unfolding norm
slugs_of [] = []
slugs_of (x ∷ xs) = let rest = slugs_of xs in if is_empty (norm x) then rest else norm x ∷ rest

unfoldable pub normalize_slug_list : Slugs → List Text
unfolding slugs_of split_commas
normalize_slug_list no_slugs = []
normalize_slug_list (csv t) = slugs_of (split_commas t)
normalize_slug_list (items xs) = slugs_of xs
normalize_slug_list other_value = []

-- `sorted(set(…))`
unfoldable pub insert_once : Text → List Text → List Text
unfolding text_eq text_leb
insert_once x [] = x ∷ []
insert_once x (y ∷ ys) =
    if text_eq x y then y ∷ ys else if text_leb x y then x ∷ y ∷ ys else y ∷ insert_once x ys

unfoldable pub sorted_set : List Text → List Text
unfolding insert_once
sorted_set [] = []
sorted_set (x ∷ xs) = insert_once x (sorted_set xs)

abbrev pub normalize_overrides : Option (Overrides Slugs) → Overrides (List Text)
normalize_overrides none = record { allowlist = []; denylist = [] }
normalize_overrides (some o) = record {
  allowlist = normalize_slug_list o.allowlist;
  denylist = normalize_slug_list o.denylist;
}

abbrev pub normalize_risk : Option (RiskOverrides Slugs) → RiskOverrides (List Text)
normalize_risk none = record {
  allow_tokens = [];
  deny_tokens = [];
  watch_tokens = [];
  allow_pools = [];
  deny_pools = [];
  watch_pools = [];
}
normalize_risk (some r) = record {
  allow_tokens = normalize_slug_list r.allow_tokens;
  deny_tokens = normalize_slug_list r.deny_tokens;
  watch_tokens = normalize_slug_list r.watch_tokens;
  allow_pools = normalize_slug_list r.allow_pools;
  deny_pools = normalize_slug_list r.deny_pools;
  watch_pools = normalize_slug_list r.watch_pools;
}

-- `if not allowlist and legacy_enable: allowlist = legacy_enable`, and the merge of the denylists.
unfoldable pub fold_legacy : Overrides (List Text) → List Text → List Text → Overrides (List Text)
unfolding sorted_set
fold_legacy o legacy_enable legacy_disable = record {
  allowlist =
      if is_empty o.allowlist && not (is_empty legacy_enable) then legacy_enable else o.allowlist;
  denylist = sorted_set (o.denylist ++ legacy_disable);
}

-- `d.get(key, "UNKNOWN")`
abbrev pub text_or_unknown : Option Text → Text
text_or_unknown none = codes "UNKNOWN"
text_or_unknown (some t) = t

unfoldable pub normalize_mode : Text → Text
unfolding strip text_eq upper lower
normalize_mode mode =
    let raw_mode = strip mode in
    if text_eq (upper raw_mode) (codes "UNKNOWN") then codes "UNKNOWN" else lower raw_mode

abbrev pub positive_id : Option ℤ → Result StateError (Option ℤ)
positive_id none = raise invalid_status_message_id
positive_id (some n) = if leb_ℤ n (pos 0) then raise invalid_status_message_id else ok (some n)

unfoldable pub read_message_id : MessageId → Result StateError (Option ℤ)
unfolding strip parse_int
read_message_id no_id = ok none
read_message_id other_id = raise invalid_status_message_id
read_message_id (id_number n) = positive_id (some n)
read_message_id (id_text t) = if is_empty (strip t) then ok none else positive_id (parse_int t)

module _ (F : FloatModel) (parse_float : Text → Option F.Float) where
  open F use {Float}

  abbrev pub parsed_number : Text → Option Float → Result StateError (Option Float)
  parsed_number t none = raise (invalid_number t)
  parsed_number t (some x) = ok (some x)

  unfoldable pub as_optional_float : Number F → Result StateError (Option Float)
  unfolding strip
  as_optional_float no_number = ok none
  as_optional_float (number x) = ok (some x)
  as_optional_float (numeral t) =
      if is_empty (strip t) then ok none else parsed_number t (parse_float (strip t))
