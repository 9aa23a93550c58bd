-- ===== src/Operator/Reload.antt =====
-- `load_state` after `save_state` and `update_state` (ops/operator_state.py).
use mathlib.Core.Path.{subst}
use mev_bot.Base.{
  ◌≡◌, refl, ap, ◌∙◌, Option, none, some, List, ◌++◌, All, In, In-append_right, inl, inr,
}
use mev_bot.Base.Int.{ℤ}
use mev_bot.Base.Text.{Text, text_eq, strip, upper, member}
use mev_bot.Base.Float.{FloatModel}
use mev_bot.Base.Result.{ok, Result-cases, bind-ok}
use mev_bot.Canonical.{canonicalize_chain_target}
use mev_bot.Canonical.Idempotent.{IsNormal}
use mev_bot.Operator.{
  allowed_states, allowed_modes, invalid_state, invalid_mode, items, Limits, RawState, OperatorFile,
  normalize_slug_list, normalize_overrides, fold_legacy, normalize_mode, text_or_unknown,
  read_message_id,
}
use mev_bot.Operator.Store.{
  StateFile, holds, absent, unreadable, load_state, save_state, update_state, or_default_state,
  default_state, actor_of, one_of, to_json, read_limits, assemble, validate_state,
}
use mev_bot.Operator.Sets.{In-sorted_set}
use mev_bot.Operator.Checks.{validate_state-IsValidFile}
use mev_bot.Operator.Wellformed.{IsStripped, IsValidFile, normalize_actor-IsStripped}
use mev_bot.Operator.Saved.{normalize_items, validate_state-to_json}

actor_of-IsStripped : (a : Option Text) (last : Text) → IsStripped (actor_of a last)
actor_of-IsStripped none last = normalize_actor-IsStripped (some last)
actor_of-IsStripped (some a) last = normalize_actor-IsStripped (some a)

-- A well-formed state, stamped anew.
stamped-IsValidFile :
    {F : FloatModel} (s : OperatorFile F) (now actor : Text)
    → IsValidFile s
    → IsStripped now
    → IsStripped actor
    → IsValidFile (record s { last_updated = now; last_actor = actor })
stamped-IsValidFile s now actor i n a = record {
  state_allowed = i.state_allowed;
  mode_allowed = i.mode_allowed;
  id_positive = i.id_positive;
  target_fixed = i.target_fixed;
  strategies = i.strategies;
  dexes = i.dexes;
  dexes_sorted = i.dexes_sorted;
  risks = i.risks;
  updated = n;
  actor = a;
}

default_state-IsValidFile :
    (F : FloatModel) (now : Text) → IsStripped now → IsValidFile (default_state F now)
default_state-IsValidFile F now n = record {
  state_allowed = unfold member text_eq in refl;
  mode_allowed = unfold member text_eq in refl;
  id_positive = unfold read_message_id in refl;
  target_fixed = unfold canonicalize_chain_target strip in refl;
  strategies = (tt, tt);
  dexes = (tt, tt);
  dexes_sorted = tt;
  risks = record {
    allow_tokens = tt;
    deny_tokens = tt;
    watch_tokens = tt;
    allow_pools = tt;
    deny_pools = tt;
    watch_pools = tt;
  };
  updated = n;
  actor = record { fixed = unfold strip in refl; some_text = refl };
}

module _ (F : FloatModel) (parse_float : Text → Option F.Float) where
  -- What is loaded is well formed, whatever the file holds.
  pub load_state-IsValidFile :
      (now : Text) (file : StateFile F)
      → IsStripped now
      → IsValidFile (load_state F parse_float now file)
  unfolding load_state
  load_state-IsValidFile now absent n = default_state-IsValidFile F now n
  load_state-IsValidFile now unreadable n = default_state-IsValidFile F now n
  load_state-IsValidFile now (holds raw) n =
      elim (Result-cases (validate_state F parse_float now raw)) [
        | inl (s, e) ↦ rw e (validate_state-IsValidFile F parse_float now raw s n e)
        | inr (x, e) ↦ rw e (default_state-IsValidFile F now n)
      ]

  -- What is saved is loaded again: when `save_state` returns, every later `load_state` of the file that
  -- it left returns the state that it returned, whatever was in the state that was given to it.
  pub load_state-save_state :
      (now now' : Text) (raw : RawState F) (actor : Option Text) (s : OperatorFile F)
      (file : StateFile F)
      → IsStripped now
      → save_state F parse_float now raw actor ≡ ok (s, file)
      → load_state F parse_float now' file ≡ s
  unfolding save_state load_state
  load_state-save_state now now' raw actor s file n h =
      let (v, e, h₁) = bind-ok (validate_state F parse_float now raw) _ (s, file) h in
      let v' : OperatorFile F = record v {
        last_updated = now;
        last_actor = actor_of actor v.last_actor;
      } in
      let valid =
        stamped-IsValidFile v now (actor_of actor v.last_actor)
          (validate_state-IsValidFile F parse_float now raw v n e) n
          (actor_of-IsStripped actor v.last_actor) in
      let same_state : v' ≡ s = cc h₁ in
      let same_file : holds (to_json F v') ≡ file = cc h₁ in
      subst (λ f. load_state F parse_float now' f ≡ s) same_file
        (ap (or_default_state F parse_float now')
            (validate_state-to_json F parse_float now' v' valid)
          ∙ same_state)

  -- Updates are loaded again too.
  pub load_state-update_state :
      (now now' : Text) (patch : RawState F → RawState F) (actor : Text) (s : OperatorFile F)
      (file file' : StateFile F)
      → IsStripped now
      → update_state F parse_float now patch actor file ≡ ok (s, file')
      → load_state F parse_float now' file' ≡ s
  unfolding update_state
  load_state-update_state now now' patch actor s file file' n h =
      load_state-save_state now now' (patch (to_json F (load_state F parse_float now file)))
        (some actor) s file' n h

  -- The denylist of the DEX packs after validation holds all that the legacy key asks for.
  assemble-denylist :
      (now : Text) (raw : RawState F) (id : Option ℤ) (st md x : Text)
      (limits : Limits (Option F.Float)) (d : List Text)
      → raw.dex_packs_disabled ≡ items d
      → All IsNormal d
      → In x d
      → In x (assemble F parse_float now raw id st md limits).enabled_dex_overrides.denylist
  unfolding assemble fold_legacy
  assemble-denylist now raw id st md x limits d e n m =
      let kept : In x (normalize_slug_list raw.dex_packs_disabled) =
        rw (e, normalize_items d n) m in
      let own = (normalize_overrides raw.enabled_dex_overrides).denylist in
      let legacy = normalize_slug_list raw.dex_packs_disabled in
      In-sorted_set x (own ++ legacy) (In-append_right x own legacy kept)

  -- A patch that does not give `dex_packs_disabled` cannot take a DEX pack off the denylist, whatever
  -- `enabled_dex_overrides` it gives: `validate_state` has written the denylist under the legacy key
  -- as well, and merges it in again.
  pub update_state_denylist :
      (now : Text) (patch : RawState F → RawState F) (actor x : Text) (s : OperatorFile F)
      (file file' : StateFile F)
      → IsStripped now
      → ((raw : RawState F) → (patch raw).dex_packs_disabled ≡ raw.dex_packs_disabled)
      → update_state F parse_float now patch actor file ≡ ok (s, file')
      → In x (load_state F parse_float now file).enabled_dex_overrides.denylist
      → In x s.enabled_dex_overrides.denylist
  unfolding update_state save_state validate_state
  update_state_denylist now patch actor x s file file' n p h m =
      let current = load_state F parse_float now file in
      let raw = patch (to_json F current) in
      let state = upper (strip (text_or_unknown raw.state)) in
      let mode = normalize_mode (text_or_unknown raw.mode) in
      let (v, e, h₁) = bind-ok (validate_state F parse_float now raw) _ (s, file') h in
      let (id, e₂, h₂) = bind-ok (read_message_id raw.status_message_id) _ v e in
      let (st, e₃, h₃) = bind-ok (one_of allowed_states (invalid_state state) state) _ v h₂ in
      let (md, e₄, h₄) = bind-ok (one_of allowed_modes (invalid_mode mode) mode) _ v h₃ in
      let (limits, e₅, h₅) = bind-ok (read_limits F parse_float raw.limits) _ v h₄ in
      let same_v : assemble F parse_float now raw id st md limits ≡ v = cc h₅ in
      let same_s : record v { last_updated = now; last_actor = actor_of (some actor) v.last_actor }
          ≡ s =
        cc h₁ in
      let valid = load_state-IsValidFile now file n in
      let first =
        assemble-denylist now raw id st md x limits current.enabled_dex_overrides.denylist
          (p (to_json F current)) valid.dexes.1 m in
      subst (λ u. In x u.enabled_dex_overrides.denylist) same_s
        (subst (λ u. In x u.enabled_dex_overrides.denylist) same_v first)
