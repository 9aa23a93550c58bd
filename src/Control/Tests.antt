-- ===== src/Control/Tests.antt =====
-- Reads of the operator's file: one with a list that cannot be read, one through the cache, one of a
-- saved state, and one of no file.
use mev_bot.Base.{◌≡◌, refl, true, false, not, ◌||◌, none, some, [], ◌∷◌}
use mev_bot.Base.Text.{codes, text_eq, upper}
use mev_bot.Base.Float.Ints.{Ext, fin, int_floats}
use mev_bot.Base.Int.{pos}
use mev_bot.Operator.Tests.{validated, is_validated, no_floats, now, raw, now-IsStripped}
use mev_bot.Operator.Wellformed.{IsValidFile}
use mev_bot.Operator.Checks.{validate_state-IsValidFile}
use mev_bot.Control.{
  missing, not_iterable, listed, RawControl, read_control, operator_block_reason, run_stages,
  stages, set_scalars, read_list,
}
use mev_bot.Control.Reading.{scalars, scalars-read_control}
use mev_bot.Control.Freshness.{IsFresh, get_operator_state-IsFresh}
use mev_bot.Control.Saved.{control_json, control_json_blocked}

-- The kill switch is set, a list is null, and there is a denied token.
abbrev broken : RawControl Ext
broken = record {
  state = some (codes "trading");
  mode = none;
  kill_switch = some true;
  flashloan_enabled = none;
  last_actor = none;
  strategy_overrides = none;
  strategy_enabled = not_iterable;
  strategy_disabled = missing;
  limits = none;
  enabled_dex_overrides = none;
  dex_packs_enabled = missing;
  dex_packs_disabled = missing;
  risk_overrides = some (record {
    allow_tokens = missing;
    deny_tokens = listed (codes "0xbad" ∷ []);
    watch_tokens = missing;
    allow_pools = missing;
    deny_pools = missing;
    watch_pools = missing;
  });
}

-- The list that cannot be read hides the denied token.
denied_hidden : (read_control (some broken)).risk_overrides.deny_tokens ≡ []
unfolding read_control run_stages stages set_scalars read_list
denied_hidden = refl

no_file : operator_block_reason (read_control {V = Ext} none) ≡ (false, codes "allowed")
unfolding operator_block_reason read_control upper text_eq
no_file = refl

scalars-read_control_example :
    scalars Ext (read_control (some broken))
    ≡ (upper (codes "trading"), codes "paper", true, false, codes "system")
scalars-read_control_example = scalars-read_control Ext broken

get_operator_state-IsFresh_example :
    IsFresh int_floats Ext
      (λ p t. some broken)
      (codes "state.json")
      (fin (pos 9))
      (some 4)
      (some (record {
        path = codes "state.json";
        ts = fin (pos 5);
        mtime = some 3;
        value = read_control (some broken);
      }))
get_operator_state-IsFresh_example =
    get_operator_state-IsFresh int_floats Ext (λ p t. some broken) (codes "state.json")
      (fin (pos 9)) (some 4)
      (some (record {
        path = codes "state.json";
        ts = fin (pos 5);
        mtime = some 3;
        value = read_control (some broken);
      }))
      refl

saved_valid : IsValidFile validated
saved_valid =
    validate_state-IsValidFile int_floats no_floats now raw validated now-IsStripped is_validated

control_json_blocked_example :
    (operator_block_reason (read_control (some (control_json int_floats validated)))).0
    ≡ (false || not (text_eq (codes "TRADING") (codes "TRADING")))
control_json_blocked_example = control_json_blocked int_floats validated saved_valid
