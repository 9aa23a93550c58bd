-- ===== src/Operator/Saved.antt =====
-- `validate_state` (ops/operator_state.py) on the JSON of a well-formed state.
use mev_bot.Base.{
  ◌≡◌, refl, ap, ◌∙◌, true, not, ◌&&◌, Option, none, some, List, [], ◌∷◌, All, In-All, is_empty,
  if◌then◌else◌,
}
use mev_bot.Base.Text.{Text, codes, strip, upper, member}
use mev_bot.Base.Float.{FloatModel}
use mev_bot.Base.Result.{Result, ok, ◌>>=◌}
use mev_bot.Canonical.Idempotent.{IsNormal}
use mev_bot.Operator.{
  allowed_states, allowed_modes, StateError, invalid_state, invalid_mode, items, Overrides, Limits,
  RiskOverrides, OperatorFile, normalize_actor, normalize_slug_list, normalize_overrides,
  normalize_risk, fold_legacy, normalize_mode, as_optional_float,
}
use mev_bot.Operator.Store.{
  overrides_json, risk_json, limits_json, one_of, to_json, number_json, read_limits, assemble,
  validate_state,
}
use mev_bot.Operator.Sets.{IsStrict, sorted_set_absorbs, slugs_of_fixed}
use mev_bot.Operator.Wellformed.{
  AllNormal, RiskNormal, IsValidFile, or_else_stripped, allowed_state_fixed, allowed_mode_fixed,
}

pub normalize_items : (xs : List Text) → All IsNormal xs → normalize_slug_list (items xs) ≡ xs
unfolding normalize_slug_list
normalize_items xs h = slugs_of_fixed xs h

normalize_overrides_fixed :
    (o : Overrides (List Text)) → AllNormal o → normalize_overrides (some (overrides_json o)) ≡ o
normalize_overrides_fixed o h =
    rw (normalize_items o.allowlist h.0, normalize_items o.denylist h.1) refl

same_allowlist : (a : List Text) → (if is_empty a && not (is_empty a) then a else a) ≡ a
same_allowlist [] = refl
same_allowlist (x ∷ xs) = refl

fold_legacy_fixed :
    (o : Overrides (List Text)) → IsStrict o.denylist → fold_legacy o o.allowlist o.denylist ≡ o
unfolding fold_legacy
fold_legacy_fixed o h =
    rw
      (
        same_allowlist o.allowlist,
        sorted_set_absorbs o.denylist o.denylist h (In-All _ o.denylist (λ x m. m)),
      )
      refl

fold_legacy_same :
    (o o' : Overrides (List Text)) (enable disable : List Text)
    → o' ≡ o
    → enable ≡ o.allowlist
    → disable ≡ o.denylist
    → IsStrict o.denylist
    → fold_legacy o' enable disable ≡ o
fold_legacy_same o o' enable disable e f g h = rw (e, f, g) (fold_legacy_fixed o h)

normalize_risk_fixed :
    (r : RiskOverrides (List Text)) → RiskNormal r → normalize_risk (some (risk_json r)) ≡ r
normalize_risk_fixed r h =
    rw
      (
        normalize_items r.allow_tokens h.allow_tokens,
        normalize_items r.deny_tokens h.deny_tokens,
        normalize_items r.watch_tokens h.watch_tokens,
        normalize_items r.allow_pools h.allow_pools,
        normalize_items r.deny_pools h.deny_pools,
        normalize_items r.watch_pools h.watch_pools,
      )
      refl

ok-bind :
    {E A B : Type 0} {x : Result E A} {a : A} (f : A → Result E B) → x ≡ ok a → (x >>= f) ≡ f a
ok-bind f e = ap (λ y. y >>= f) e

one_of_fixed :
    (allowed : List Text) (e : StateError) (t u : Text)
    → t ≡ u
    → member u allowed ≡ true
    → one_of allowed e t ≡ ok u
one_of_fixed allowed e t u h m = rw (h, m) refl

module _ (F : FloatModel) (parse_float : Text → Option F.Float) where
  as_optional_float_fixed :
      (x : Option F.Float) → as_optional_float F parse_float (number_json F x) ≡ ok x
  unfolding as_optional_float
  as_optional_float_fixed none = refl
  as_optional_float_fixed (some x) = refl

  read_limits_fixed :
      (l : Limits (Option F.Float)) → read_limits F parse_float (some (limits_json F l)) ≡ ok l
  unfolding read_limits
  read_limits_fixed l =
      rw
        (
          as_optional_float_fixed l.max_fee_gwei,
          as_optional_float_fixed l.slippage_bps,
          as_optional_float_fixed l.max_daily_loss_usd,
          as_optional_float_fixed l.min_edge_bps,
        )
        refl

  same_parts :
      (s : OperatorFile F) (target : Text) (strategies : Overrides (List Text))
      (risks : RiskOverrides (List Text)) (dexes : Overrides (List Text)) (updated actor : Text)
      → target ≡ s.chain_target
      → strategies ≡ s.strategy_overrides
      → risks ≡ s.risk_overrides
      → dexes ≡ s.enabled_dex_overrides
      → updated ≡ s.last_updated
      → actor ≡ s.last_actor
      → record s {
        chain_target = target;
        strategy_overrides = strategies;
        risk_overrides = risks;
        enabled_dex_overrides = dexes;
        last_updated = updated;
        last_actor = actor;
      }
        ≡ s
  same_parts s target strategies risks dexes updated actor a b c d e f = rw (a, b, c, d, e, f) refl

  pub assemble_fixed :
      (now : Text) (s : OperatorFile F)
      → IsValidFile s
      → assemble F parse_float now (to_json F s) s.status_message_id s.state s.mode s.limits ≡ s
  unfolding assemble normalize_actor
  assemble_fixed now s i =
      let dexes =
        fold_legacy_same s.enabled_dex_overrides _ _ _
          (normalize_overrides_fixed s.enabled_dex_overrides i.dexes)
          (normalize_items s.enabled_dex_overrides.allowlist i.dexes.0)
          (normalize_items s.enabled_dex_overrides.denylist i.dexes.1) i.dexes_sorted in
      same_parts s _ _ _ _ _ _ i.target_fixed
        (normalize_overrides_fixed s.strategy_overrides i.strategies)
        (normalize_risk_fixed s.risk_overrides i.risks) dexes
        (or_else_stripped s.last_updated now i.updated)
        (or_else_stripped s.last_actor (codes "system") i.actor)

  -- A well-formed state is validated to itself: writing it as JSON and validating what was written
  -- changes nothing, at whatever time.
  pub validate_state-to_json :
      (now : Text) (s : OperatorFile F)
      → IsValidFile s
      → validate_state F parse_float now (to_json F s) ≡ ok s
  unfolding validate_state
  validate_state-to_json now s i =
      ok-bind _ i.id_positive
      ∙ ok-bind _ (
          one_of_fixed allowed_states (invalid_state (upper (strip s.state))) _ s.state
            (allowed_state_fixed s.state i.state_allowed) i.state_allowed)
      ∙ ok-bind _ (
          one_of_fixed allowed_modes (invalid_mode (normalize_mode s.mode)) _ s.mode
            (allowed_mode_fixed s.mode i.mode_allowed) i.mode_allowed)
      ∙ ok-bind _ (read_limits_fixed s.limits)
      ∙ ap ok (assemble_fixed now s i)
