-- ===== src/Operator/Checks.antt =====
-- `validate_state` (ops/operator_state.py) and the well-formed states.
use mathlib.Core.Path.{subst}
use mev_bot.Base.{◌≡◌, true, Option, some}
use mev_bot.Base.Int.{ℤ}
use mev_bot.Base.Text.{Text, codes, strip, upper, or_else, member}
use mev_bot.Base.Strip.{strip-strip}
use mev_bot.Base.Float.{FloatModel}
use mev_bot.Base.Result.{ok, bind-ok}
use mev_bot.Gates.{text_or_empty}
use mev_bot.Canonical.Targets.{canonicalize_chain_target_read_back}
use mev_bot.Operator.{
  allowed_states, allowed_modes, invalid_state, invalid_mode, Limits, RawState, OperatorFile,
  normalize_slug_list, normalize_overrides, normalize_mode, text_or_unknown, read_message_id,
}
use mev_bot.Operator.Store.{one_of, read_limits, assemble, validate_state}
use mev_bot.Operator.Sets.{normalize_slug_list-All}
use mev_bot.Operator.Wellformed.{
  IsStripped, IsValidFile, one_of-ok, read_message_id_fixed, normalize_overrides-AllNormal,
  normalize_risk-RiskNormal, fold_legacy-AllNormal, fold_legacy-IsStrict, or_else-IsStripped,
  normalize_actor-IsStripped,
}

module _ (F : FloatModel) (parse_float : Text → Option F.Float) where
  assemble-IsValidFile :
      (now : Text) (raw : RawState F) (id : Option ℤ) (state mode : Text)
      (limits : Limits (Option F.Float))
      → IsStripped now
      → read_message_id raw.status_message_id ≡ ok id
      → member state allowed_states ≡ true
      → member mode allowed_modes ≡ true
      → IsValidFile (assemble F parse_float now raw id state mode limits)
  unfolding assemble
  assemble-IsValidFile now raw id state mode limits n i s m = record {
    state_allowed = s;
    mode_allowed = m;
    id_positive = read_message_id_fixed F raw.status_message_id id i;
    target_fixed =
        canonicalize_chain_target_read_back
          (some (or_else (strip (text_or_unknown raw.chain_target)) (codes "UNKNOWN")));
    strategies = normalize_overrides-AllNormal raw.strategy_overrides;
    dexes =
        fold_legacy-AllNormal (normalize_overrides raw.enabled_dex_overrides)
          (normalize_slug_list raw.dex_packs_enabled) (normalize_slug_list raw.dex_packs_disabled)
          (normalize_overrides-AllNormal raw.enabled_dex_overrides)
          (normalize_slug_list-All raw.dex_packs_enabled)
          (normalize_slug_list-All raw.dex_packs_disabled);
    dexes_sorted =
        fold_legacy-IsStrict (normalize_overrides raw.enabled_dex_overrides)
          (normalize_slug_list raw.dex_packs_enabled) (normalize_slug_list raw.dex_packs_disabled);
    risks = normalize_risk-RiskNormal raw.risk_overrides;
    updated =
        or_else-IsStripped (strip (text_or_empty raw.last_updated)) now
          (strip-strip (text_or_empty raw.last_updated)) n;
    actor = normalize_actor-IsStripped raw.last_actor;
  }

  -- Whatever the operator's file holds, a state that passes validation is well formed: its state and
  -- mode are allowed ones, its message id is positive or absent, its chain target is canonical, every
  -- list of slugs is normalised, and the denylist of the DEX packs is sorted without repetitions.
  pub validate_state-IsValidFile :
      (now : Text) (raw : RawState F) (s : OperatorFile F)
      → IsStripped now
      → validate_state F parse_float now raw ≡ ok s
      → IsValidFile s
  unfolding validate_state
  validate_state-IsValidFile now raw s n h =
      let state = upper (strip (text_or_unknown raw.state)) in
      let mode = normalize_mode (text_or_unknown raw.mode) in
      let (id, e₁, h₁) = bind-ok (read_message_id raw.status_message_id) _ s h in
      let (st, e₂, h₂) = bind-ok (one_of allowed_states (invalid_state state) state) _ s h₁ in
      let (md, e₃, h₃) = bind-ok (one_of allowed_modes (invalid_mode mode) mode) _ s h₂ in
      let (limits, e₄, h₄) = bind-ok (read_limits F parse_float raw.limits) _ s h₃ in
      let same : assemble F parse_float now raw id st md limits ≡ s = cc h₄ in
      subst IsValidFile same (
        assemble-IsValidFile now raw id st md limits n e₁
          (one_of-ok allowed_states (invalid_state state) state st e₂)
          (one_of-ok allowed_modes (invalid_mode mode) mode md e₃))
