-- ===== src/Operator/Tests.antt =====
-- The operator's file with concrete contents.
use mev_bot.Base.{◌≡◌, refl, false, Option, none, some, [], ◌∷◌, In, inl}
use mev_bot.Base.Text.{Text, codes, strip, text_eq, upper, lower, member, norm, text_leb}
use mev_bot.Base.Float.Ints.{Ext, int_floats}
use mev_bot.Base.Result.{ok}
use mev_bot.Base.Parse.{split_commas}
use mev_bot.Canonical.{canonicalize_chain_target}
use mev_bot.Operator.{
  normalize_risk, read_message_id, normalize_mode, normalize_actor, normalize_slug_list, slugs_of,
  fold_legacy, sorted_set, insert_once, as_optional_float, RawState, OperatorFile, items, no_slugs,
  no_id, csv,
}
use mev_bot.Operator.Store.{
  read_limits, assemble, holds, validate_state, load_state, save_state, update_state, to_json,
}
use mev_bot.Operator.Wellformed.{IsStripped, IsValidFile}
use mev_bot.Operator.Checks.{validate_state-IsValidFile}
use mev_bot.Operator.Reload.{load_state-save_state, update_state_denylist}

abbrev pub no_floats : Text → Option Ext
no_floats t = none

abbrev pub now : Text
now = codes "2024-01-01"

pub now-IsStripped : IsStripped now
now-IsStripped = record { fixed = unfold strip in refl; some_text = refl }

abbrev pub raw : RawState int_floats
raw = record {
  state = some (codes " trading");
  mode = some (codes "Paper");
  kill_switch = none;
  flashloan_enabled = none;
  chain_target = none;
  strategy_overrides = none;
  limits = none;
  risk_overrides = none;
  enabled_dex_overrides = some (record { allowlist = no_slugs; denylist = csv (codes "univ3") });
  dex_packs_enabled = no_slugs;
  dex_packs_disabled = no_slugs;
  status_message_id = no_id;
  last_updated = none;
  last_actor = none;
}

abbrev pub validated : OperatorFile int_floats
validated = record {
  state = codes "TRADING";
  mode = codes "paper";
  kill_switch = false;
  flashloan_enabled = false;
  chain_target = codes "UNKNOWN";
  strategy_overrides = record { allowlist = []; denylist = [] };
  limits = record {
    max_fee_gwei = none;
    slippage_bps = none;
    max_daily_loss_usd = none;
    min_edge_bps = none;
  };
  risk_overrides = normalize_risk none;
  enabled_dex_overrides = record { allowlist = []; denylist = codes "univ3" ∷ [] };
  status_message_id = none;
  last_updated = now;
  last_actor = codes "system";
}

pub is_validated : validate_state int_floats no_floats now raw ≡ ok validated
unfolding validate_state read_message_id read_limits assemble normalize_mode normalize_actor
    normalize_slug_list slugs_of fold_legacy sorted_set insert_once canonicalize_chain_target
    split_commas strip upper lower norm member text_eq text_leb
is_validated = refl

validate_state-IsValidFile_example : IsValidFile validated
validate_state-IsValidFile_example =
    validate_state-IsValidFile int_floats no_floats now raw validated now-IsStripped is_validated

abbrev saved : OperatorFile int_floats
saved = record validated { last_actor = codes "ops" }

is_saved :
    save_state int_floats no_floats now raw (some (codes "ops "))
    ≡ ok (saved, holds (to_json int_floats saved))
unfolding save_state update_state validate_state read_message_id read_limits as_optional_float
    assemble normalize_mode normalize_actor normalize_slug_list slugs_of fold_legacy sorted_set
    insert_once canonicalize_chain_target split_commas strip upper lower norm member text_eq
    text_leb
is_saved = refl

load_state-save_state_example :
    load_state int_floats no_floats (codes "later") (holds (to_json int_floats saved)) ≡ saved
load_state-save_state_example =
    load_state-save_state int_floats no_floats now (codes "later") raw (some (codes "ops ")) saved
      (holds (to_json int_floats saved)) now-IsStripped is_saved

-- A patch that clears both lists of the DEX packs.
abbrev clear_dexes : RawState int_floats → RawState int_floats
clear_dexes r = record r {
  enabled_dex_overrides = some (record { allowlist = items []; denylist = items [] });
}

is_loaded : load_state int_floats no_floats now (holds (to_json int_floats saved)) ≡ saved
is_loaded =
    load_state-save_state int_floats no_floats now now raw (some (codes "ops ")) saved
      (holds (to_json int_floats saved)) now-IsStripped is_saved

is_updated :
    update_state int_floats no_floats now clear_dexes
      (codes "ops")
      (holds (to_json int_floats saved))
    ≡ ok (saved, holds (to_json int_floats saved))
unfolding save_state update_state validate_state read_message_id read_limits as_optional_float
    assemble normalize_mode normalize_actor normalize_slug_list slugs_of fold_legacy sorted_set
    insert_once canonicalize_chain_target split_commas strip upper lower norm member text_eq
    text_leb
is_updated = rw (is_loaded, update_state) refl

listed :
    In
      (codes "univ3")
      (load_state int_floats no_floats now
        (holds (to_json int_floats saved))).enabled_dex_overrides.denylist
listed = rw is_loaded (inl refl)

update_state_denylist_example : In (codes "univ3") saved.enabled_dex_overrides.denylist
update_state_denylist_example =
    update_state_denylist int_floats no_floats now clear_dexes (codes "ops") (codes "univ3") saved
      (holds (to_json int_floats saved)) (holds (to_json int_floats saved)) now-IsStripped
      (λ r. refl) is_updated listed
