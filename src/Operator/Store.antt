-- ===== src/Operator/Store.antt =====
-- `validate_state`, and the file that holds the state.
use mev_bot.Base.{true, false, Option, none, some, List, [], if◌then◌else◌}
use mev_bot.Base.Int.{ℤ}
use mev_bot.Base.Text.{Text, codes, strip, upper, or_else, member}
use mev_bot.Base.Float.{FloatModel}
use mev_bot.Base.Result.{Result, ok, raise, ◌>>=◌}
use mev_bot.Gates.{text_or_empty, bool_or_false}
use mev_bot.Canonical.{canonicalize_chain_target}
use mev_bot.Operator.{
  allowed_states, allowed_modes, StateError, invalid_state, invalid_mode, Slugs, items, Number,
  no_number, number, MessageId, no_id, id_number, Overrides, Limits, RiskOverrides, RawState,
  OperatorFile, normalize_actor, normalize_slug_list, normalize_overrides, normalize_risk,
  fold_legacy, text_or_unknown, normalize_mode, read_message_id, as_optional_float,
}

abbrev pub one_of : List Text → StateError → Text → Result StateError Text
one_of allowed e t = if member t allowed then ok t else raise e

abbrev pub overrides_json : Overrides (List Text) → Overrides Slugs
overrides_json o = record { allowlist = items o.allowlist; denylist = items o.denylist }

abbrev pub risk_json : RiskOverrides (List Text) → RiskOverrides Slugs
risk_json r = record {
  allow_tokens = items r.allow_tokens;
  deny_tokens = items r.deny_tokens;
  watch_tokens = items r.watch_tokens;
  allow_pools = items r.allow_pools;
  deny_pools = items r.deny_pools;
  watch_pools = items r.watch_pools;
}

-- The JSON of a validated state: what `json.loads` gives for the file that `save_state` writes.
module _ (F : FloatModel) where
  abbrev pub number_json : Option F.Float → Number F
  number_json none = no_number
  number_json (some x) = number x

  abbrev pub id_json : Option ℤ → MessageId
  id_json none = no_id
  id_json (some n) = id_number n

  abbrev pub limits_json : Limits (Option F.Float) → Limits (Number F)
  limits_json l = record {
    max_fee_gwei = number_json l.max_fee_gwei;
    slippage_bps = number_json l.slippage_bps;
    max_daily_loss_usd = number_json l.max_daily_loss_usd;
    min_edge_bps = number_json l.min_edge_bps;
  }

  abbrev pub to_json : OperatorFile F → RawState F
  to_json s = record {
    state = some s.state;
    mode = some s.mode;
    kill_switch = some s.kill_switch;
    flashloan_enabled = some s.flashloan_enabled;
    chain_target = some s.chain_target;
    strategy_overrides = some (overrides_json s.strategy_overrides);
    limits = some (limits_json s.limits);
    risk_overrides = some (risk_json s.risk_overrides);
    enabled_dex_overrides = some (overrides_json s.enabled_dex_overrides);
    dex_packs_enabled = items s.enabled_dex_overrides.allowlist;
    dex_packs_disabled = items s.enabled_dex_overrides.denylist;
    status_message_id = id_json s.status_message_id;
    last_updated = some s.last_updated;
    last_actor = some s.last_actor;
  }

  -- `default_state()` at a time.
  abbrev pub default_state : Text → OperatorFile F
  default_state now = record {
    state = codes "UNKNOWN";
    mode = codes "UNKNOWN";
    kill_switch = false;
    flashloan_enabled = false;
    chain_target = codes "UNKNOWN";
    strategy_overrides = record { allowlist = []; denylist = [] };
    limits = record {
      max_fee_gwei = none;
      slippage_bps = none;
      max_daily_loss_usd = none;
      min_edge_bps = none;
    };
    risk_overrides = normalize_risk none;
    enabled_dex_overrides = record { allowlist = []; denylist = [] };
    status_message_id = none;
    last_updated = now;
    last_actor = codes "system";
  }

abbrev pub actor_of : Option Text → Text → Text
actor_of none last = normalize_actor (some last)
actor_of (some actor) last = normalize_actor (some actor)

-- A file: absent, not JSON or no object, or an object.
pub data StateFile (F : FloatModel) : Type 0 where
  absent unreadable : StateFile F
  holds : RawState F → StateFile F

module _ (F : FloatModel) (parse_float : Text → Option F.Float) where
  unfoldable pub read_limits :
      Option (Limits (Number F)) → Result StateError (Limits (Option F.Float))
  unfolding as_optional_float
  read_limits none = ok (record {
    max_fee_gwei = none;
    slippage_bps = none;
    max_daily_loss_usd = none;
    min_edge_bps = none;
  })
  read_limits (some l) = as_optional_float F parse_float l.max_fee_gwei >>= λ fee.
      as_optional_float F parse_float l.slippage_bps >>= λ slippage.
      as_optional_float F parse_float l.max_daily_loss_usd >>= λ loss.
      as_optional_float F parse_float l.min_edge_bps >>= λ edge. ok (record {
        max_fee_gwei = fee;
        slippage_bps = slippage;
        max_daily_loss_usd = loss;
        min_edge_bps = edge;
      })

  -- The dict that `validate_state` returns, from the values that it has checked.
  unfoldable pub assemble :
      Text → RawState F → Option ℤ → Text → Text → Limits (Option F.Float) → OperatorFile F
  unfolding strip canonicalize_chain_target normalize_actor normalize_slug_list fold_legacy
  assemble now raw message_id state mode limits = record {
    state = state;
    mode = mode;
    kill_switch = bool_or_false raw.kill_switch;
    flashloan_enabled = bool_or_false raw.flashloan_enabled;
    chain_target =
        canonicalize_chain_target true
          (some (or_else (strip (text_or_unknown raw.chain_target)) (codes "UNKNOWN")));
    strategy_overrides = normalize_overrides raw.strategy_overrides;
    limits = limits;
    risk_overrides = normalize_risk raw.risk_overrides;
    enabled_dex_overrides =
        fold_legacy (normalize_overrides raw.enabled_dex_overrides)
          (normalize_slug_list raw.dex_packs_enabled) (normalize_slug_list raw.dex_packs_disabled);
    status_message_id = message_id;
    last_updated = or_else (strip (text_or_empty raw.last_updated)) now;
    last_actor = normalize_actor raw.last_actor;
  }

  unfoldable pub validate_state : Text → RawState F → Result StateError (OperatorFile F)
  unfolding read_message_id read_limits upper strip normalize_mode member assemble
  validate_state now raw =
      let state = upper (strip (text_or_unknown raw.state)) in
      let mode = normalize_mode (text_or_unknown raw.mode) in
      read_message_id raw.status_message_id >>= λ message_id.
      one_of allowed_states (invalid_state state) state >>= λ st.
      one_of allowed_modes (invalid_mode mode) mode >>= λ md.
      read_limits raw.limits >>= λ limits. ok (assemble now raw message_id st md limits)

  abbrev pub or_default_state : Text → Result StateError (OperatorFile F) → OperatorFile F
  or_default_state now (ok s) = s
  or_default_state now (raise e) = default_state F now

  unfoldable pub load_state : Text → StateFile F → OperatorFile F
  unfolding validate_state
  load_state now absent = default_state F now
  load_state now unreadable = default_state F now
  load_state now (holds raw) = or_default_state now (validate_state now raw)

  -- What `save_state` returns and the new file; the file stays when the state is not valid.
  unfoldable pub save_state :
      Text → RawState F → Option Text → Result StateError (OperatorFile F × StateFile F)
  unfolding validate_state normalize_actor
  save_state now state actor = validate_state now state >>= λ s.
      let s' : OperatorFile F = record s {
        last_updated = now;
        last_actor = actor_of actor s.last_actor;
      } in
      ok (s', holds (to_json F s'))

  -- `update_state` with a patch, given as the change that `merged.update(patch)` makes.
  unfoldable pub update_state :
      Text
      → (RawState F → RawState F)
      → Text
      → StateFile F
      → Result StateError (OperatorFile F × StateFile F)
  unfolding load_state save_state
  update_state now patch actor file =
      save_state now (patch (to_json F (load_state now file))) (some actor)
