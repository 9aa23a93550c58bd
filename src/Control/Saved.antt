-- ===== src/Control/Saved.antt =====
-- The state that ops/operator_state.py saves, as bot/core/operator_control.py reads it.
use mev_bot.Base.{◌≡◌, refl, ap, ◌∙◌, Bool, not, ◌||◌, some, List, All, arith}
use mev_bot.Base.Text.{Text, codes, text_eq, upper}
use mev_bot.Base.Members.{All-member}
use mev_bot.Base.Float.{FloatModel}
use mev_bot.Operator.{OperatorFile, Overrides, allowed_states}
use mev_bot.Operator.Wellformed.{IsValidFile}
use mev_bot.Control.{Listed, listed, RawControl, ControlState, read_control, operator_block_reason}
use mev_bot.Control.Reading.{scalars, scalars-read_control}

abbrev pub listed_overrides : Overrides (List Text) → Overrides Listed
listed_overrides o = record { allowlist = listed o.allowlist; denylist = listed o.denylist }

states-IsUpper : All (λ t. upper (upper t) ≡ t) allowed_states
unfolding upper
states-IsUpper = (refl, (refl, (refl, (refl, (refl, (refl, tt))))))

module _ (F : FloatModel) where
  -- The JSON of a saved state, with the keys that are read.
  abbrev pub control_json : OperatorFile F → RawControl F.Float
  control_json s = record {
    state = some s.state;
    mode = some s.mode;
    kill_switch = some s.kill_switch;
    flashloan_enabled = some s.flashloan_enabled;
    last_actor = some s.last_actor;
    strategy_overrides = some (listed_overrides s.strategy_overrides);
    strategy_enabled = listed s.strategy_overrides.allowlist;
    strategy_disabled = listed s.strategy_overrides.denylist;
    limits = some s.limits;
    enabled_dex_overrides = some (listed_overrides s.enabled_dex_overrides);
    dex_packs_enabled = listed s.enabled_dex_overrides.allowlist;
    dex_packs_disabled = listed s.enabled_dex_overrides.denylist;
    risk_overrides = some (record {
      allow_tokens = listed s.risk_overrides.allow_tokens;
      deny_tokens = listed s.risk_overrides.deny_tokens;
      watch_tokens = listed s.risk_overrides.watch_tokens;
      allow_pools = listed s.risk_overrides.allow_pools;
      deny_pools = listed s.risk_overrides.deny_pools;
      watch_pools = listed s.risk_overrides.watch_pools;
    });
  }

  block_scalars :
      (d : ControlState F.Float) (state mode actor : Text) (kill loan : Bool)
      → scalars F.Float d ≡ (state, mode, kill, loan, actor)
      → (operator_block_reason d).0 ≡ (kill || not (text_eq (upper state) (codes "TRADING")))
  unfolding operator_block_reason
  block_scalars d state mode actor kill loan h =
      let s : d.state ≡ state = ap (λ x. x.0) h in
      let k : d.kill_switch ≡ kill = ap (λ x. x.2) h in rw (s, k) (ground arith)

  -- A validated state that is saved is blocked by the loops that read it just when its kill switch is
  -- set or its state is not `TRADING`.
  pub control_json_blocked :
      (s : OperatorFile F)
      → IsValidFile s
      → (operator_block_reason (read_control (some (control_json s)))).0
        ≡ (s.kill_switch || not (text_eq s.state (codes "TRADING")))
  control_json_blocked s i =
      let same : upper (upper s.state) ≡ s.state =
        All-member (λ t. upper (upper t) ≡ t) s.state allowed_states i.state_allowed
          states-IsUpper in
      block_scalars (read_control (some (control_json s))) (upper s.state) s.mode s.last_actor
        s.kill_switch s.flashloan_enabled (scalars-read_control F.Float (control_json s))
      ∙ ap (λ t. s.kill_switch || not (text_eq t (codes "TRADING"))) same
