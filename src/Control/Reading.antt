-- ===== src/Control/Reading.antt =====
-- What `get_operator_state` (bot/core/operator_control.py) takes from a file, and what it blocks.
use mev_bot.Base.{
  ◌≡◌, refl, ◌∙◌, inl, inr, Bool, not, Option, none, some, List, [], ◌∷◌, All, arith, Option-cases,
}
use mev_bot.Base.Text.{Text, codes, upper}
use mev_bot.Gates.{OperatorState, operator_gate, bool_or_false}
use mev_bot.Control.{
  Listed, RawControl, ControlState, read_list, read_overrides, read_risk, or_default, default_state,
  set_scalars, Stage, set_strategy_overrides, set_dex_overrides, set_risk_overrides, stages,
  run_stages, read_control, operator_block_reason,
}

module _ (V : Type 0) where
  -- The fields that no stage changes.
  abbrev pub scalars : ControlState V → Text × Text × Bool × Bool × Text
  scalars d = (d.state, d.mode, d.kill_switch, d.flashloan_enabled, d.last_actor)

  -- A stage that changes no such field, where it does not raise.
  abbrev IsLocal : Stage V → Type 0
  IsLocal s =
      (raw : RawControl V) (d d' : ControlState V) → s raw d ≡ some d' → scalars d' ≡ scalars d

  same_scalars :
      (d d' x : ControlState V) → scalars x ≡ scalars d → some x ≡ some d' → scalars d' ≡ scalars d
  same_scalars d d' x e h = cc

  -- Two shapes of stages: the reading of a list, and that of an object which may be missing.
  list-Local :
      (l : Listed) (d d' : ControlState V) (f : List Text → ControlState V)
      → ((xs : List Text) → scalars (f xs) ≡ scalars d)
      → (elim (read_list l) [ none ↦ none | some xs ↦ some (f xs) ]) ≡ some d'
      → scalars d' ≡ scalars d
  list-Local l d d' f e h = elim (Option-cases (read_list l)) [
    | inl k ↦ cc (rw k at h)
    | inr (xs, k) ↦ same_scalars d d' (f xs) (e xs) (rw k at h)
  ]

  object-Local :
      {A : Type 0} (o : Option A) (d d' : ControlState V) (f : A → ControlState V)
      → ((a : A) → scalars (f a) ≡ scalars d)
      → (elim o [ none ↦ none | some a ↦ some (f a) ]) ≡ some d'
      → scalars d' ≡ scalars d
  object-Local none d d' f e h = cc
  object-Local (some a) d d' f e h = same_scalars d d' (f a) (e a) h

  strategies-Local : IsLocal set_strategy_overrides
  strategies-Local raw d d' h = elim (Option-cases raw.strategy_overrides) [
    | inl e ↦ same_scalars d d' d refl (rw e at h)
    | inr (o, e) ↦
        object-Local (read_overrides o) d d' (λ r. record d { strategy_overrides = r }) (λ a. refl)
          (rw e at h)
  ]

  dexes-Local : IsLocal set_dex_overrides
  dexes-Local raw d d' h = elim (Option-cases raw.enabled_dex_overrides) [
    | inl e ↦ same_scalars d d' d refl (rw e at h)
    | inr (o, e) ↦
        object-Local (read_overrides o) d d' (λ r. record d { enabled_dex_overrides = r })
          (λ a. refl) (rw e at h)
  ]

  risk-Local : IsLocal set_risk_overrides
  risk-Local raw d d' h = elim (Option-cases raw.risk_overrides) [
    | inl e ↦ same_scalars d d' d refl (rw e at h)
    | inr (o, e) ↦
        object-Local (read_risk o) d d' (λ r. record d { risk_overrides = r }) (λ a. refl)
          (rw e at h)
  ]

  stages-Local : All IsLocal stages
  unfolding stages
  stages-Local = (
    strategies-Local,
    (
      λ raw d d' h.
          list-Local raw.strategy_enabled d d' (λ xs. record d { strategy_enabled = xs })
            (λ a. refl) h,
      (
        λ raw d d' h.
            list-Local raw.strategy_disabled d d' (λ xs. record d { strategy_disabled = xs })
              (λ a. refl) h,
        (
          λ raw d d' h. same_scalars d d' _ refl h,
          (
            dexes-Local,
            (
              λ raw d d' h.
                  list-Local raw.dex_packs_enabled d d' (λ xs. record d { dex_packs_enabled = xs })
                    (λ a. refl) h,
              (
                λ raw d d' h.
                    list-Local raw.dex_packs_disabled d d'
                      (λ xs. record d { dex_packs_disabled = xs }) (λ a. refl) h,
                (λ raw d d' h. same_scalars d d' _ refl h, (risk-Local, tt)),
              ),
            ),
          ),
        ),
      ),
    ),
  )

  run_stages-scalars :
      (ss : List (Stage V)) (raw : RawControl V) (d : ControlState V)
      → All IsLocal ss
      → scalars (run_stages ss raw d) ≡ scalars d
  unfolding run_stages
  run_stages-scalars [] raw d h = refl
  run_stages-scalars (s ∷ ss) raw d h = elim (Option-cases (s raw d)) [
    | inl e ↦ rw (run_stages, e) refl
    | inr (d', e) ↦ rw (run_stages, e) (run_stages-scalars ss raw d' h.1 ∙ h.0 raw d d' e)
  ]

  -- Whatever else is malformed in an object, its state, mode, kill switch and the rest of what cannot
  -- fail are read.
  pub scalars-read_control :
      (raw : RawControl V)
      → scalars (read_control (some raw)) ≡ (
        upper (or_default (codes "TRADING") raw.state),
        or_default (codes "paper") raw.mode,
        bool_or_false raw.kill_switch,
        bool_or_false raw.flashloan_enabled,
        or_default (codes "system") raw.last_actor,
      )
  unfolding read_control set_scalars
  scalars-read_control raw =
      run_stages-scalars stages raw (set_scalars raw default_state) stages-Local

  -- What the gate of the orchestrator reads of a state.
  abbrev pub gate_state : ControlState V → OperatorState
  gate_state d = record {
    kill_switch = some d.kill_switch;
    state = some d.state;
    mode = some d.mode;
  }

  -- The two checks of the operator agree: a state is blocked just when the gate does not pass it.
  pub operator_block_reason-operator_gate :
      (d : ControlState V) → (operator_block_reason d).0 ≡ not (operator_gate (gate_state d)).ok
  unfolding operator_block_reason operator_gate
  operator_block_reason-operator_gate d = ground arith
