-- ===== src/Control.antt =====
-- bot/core/operator_control.py: how the loops read the operator's state, with the cache. A limit is
-- passed on as it is, of a type `V` of JSON values. A file is read and its time of change is taken at
-- once.
pub mod Reading
pub mod Freshness
pub mod Saved
mod Tests
use mev_bot.Base.{
  ℕ, Bool, true, false, ◌&&◌, not, Option, none, some, List, [], ◌∷◌, ◌++◌, ◌==◌, if◌then◌else◌,
  is_empty, map,
}
use mev_bot.Base.Text.{Text, codes, text_eq, strip, norm, upper}
use mev_bot.Base.Float.{FloatModel, below}
use mev_bot.Gates.{bool_or_false}
use mev_bot.Operator.{Overrides, Limits, RiskOverrides, sorted_set}

-- A value that is iterated over: the key is missing, a list of which each item has a text, a text, of
-- which each character is an item, or something that cannot be iterated.
pub data Listed : Type 0 where
  missing not_iterable : Listed
  listed : List Text → Listed
  letters : Text → Listed

-- The keys of the JSON object that are read; a nested object is `none` where it is missing or no object.
pub record RawControl (V : Type 0) : Type 0 where
  pub state : Option Text
  pub mode : Option Text
  pub kill_switch : Option Bool
  pub flashloan_enabled : Option Bool
  pub last_actor : Option Text
  pub strategy_overrides : Option (Overrides Listed)
  pub strategy_enabled : Listed
  pub strategy_disabled : Listed
  pub limits : Option (Limits (Option V))
  pub enabled_dex_overrides : Option (Overrides Listed)
  pub dex_packs_enabled : Listed
  pub dex_packs_disabled : Listed
  pub risk_overrides : Option (RiskOverrides Listed)

pub record ControlState (V : Type 0) : Type 0 where
  pub state : Text
  pub mode : Text
  pub kill_switch : Bool
  pub flashloan_enabled : Bool
  pub strategy_overrides : Overrides (List Text)
  pub strategy_enabled : List Text
  pub strategy_disabled : List Text
  pub limits : Limits (Option V)
  pub risk_overrides : RiskOverrides (List Text)
  pub enabled_dex_overrides : Overrides (List Text)
  pub dex_packs_enabled : List Text
  pub dex_packs_disabled : List Text
  pub last_actor : Text

-- `[str(x).strip().lower() for x in xs if str(x).strip()]`
unfoldable pub slugs_in : List Text → List Text
unfolding strip norm
slugs_in [] = []
slugs_in (x ∷ xs) = let rest = slugs_in xs in if is_empty (strip x) then rest else norm x ∷ rest

-- `none` is the exception.
unfoldable pub read_list : Listed → Option (List Text)
unfolding slugs_in
read_list missing = some []
read_list not_iterable = none
read_list (listed xs) = some (slugs_in xs)
read_list (letters t) = some (slugs_in (map (λ c. c ∷ []) t))

abbrev pub bind_list : {A : Type 0} → Listed → (List Text → Option A) → Option A
bind_list l f = elim (read_list l) [ none ↦ none | some xs ↦ f xs ]

-- Of the denylist of an override and the disabled names, if there are any.
abbrev pub merge_denied : List Text → List Text → List Text
merge_denied deny [] = deny
merge_denied deny (x ∷ xs) = sorted_set (deny ++ x ∷ xs)

abbrev pub allow_or : List Text → List Text → List Text
allow_or [] enabled = enabled
allow_or (a ∷ allow) enabled = a ∷ allow

-- The two lists of names of an override, with the older keys for them merged in.
abbrev pub merged : Overrides (List Text) → List Text → List Text → Overrides (List Text)
merged o enabled disabled = record {
  allowlist = allow_or o.allowlist enabled;
  denylist = merge_denied o.denylist disabled;
}

unfoldable pub read_overrides : Overrides Listed → Option (Overrides (List Text))
unfolding read_list
read_overrides o =
    bind_list o.allowlist
      (λ allow. bind_list o.denylist (λ deny. some (record { allowlist = allow; denylist = deny })))

unfoldable pub read_risk : RiskOverrides Listed → Option (RiskOverrides (List Text))
unfolding read_list
read_risk r = bind_list r.allow_tokens (λ allow_tokens. bind_list r.deny_tokens (λ deny_tokens.
    bind_list r.watch_tokens (λ watch_tokens. bind_list r.allow_pools (λ allow_pools.
      bind_list r.deny_pools (λ deny_pools. bind_list r.watch_pools (λ watch_pools. some (record {
        allow_tokens = allow_tokens;
        deny_tokens = deny_tokens;
        watch_tokens = watch_tokens;
        allow_pools = allow_pools;
        deny_pools = deny_pools;
        watch_pools = watch_pools;
      })))))))

abbrev pub no_overrides : Overrides (List Text)
no_overrides = record { allowlist = []; denylist = [] }

abbrev pub or_default : {A : Type 0} → A → Option A → A
or_default d none = d
or_default d (some a) = a

-- A stage is `none` where it raises; what the stages before it assigned stays.
abbrev pub Stage : Type 0 → Type 0
Stage V = RawControl V → ControlState V → Option (ControlState V)

module _ {V : Type 0} where
  abbrev pub default_state : ControlState V
  default_state = record {
    state = codes "TRADING";
    mode = codes "paper";
    kill_switch = false;
    flashloan_enabled = false;
    strategy_overrides = no_overrides;
    strategy_enabled = [];
    strategy_disabled = [];
    limits = record {
      max_fee_gwei = none;
      slippage_bps = none;
      max_daily_loss_usd = none;
      min_edge_bps = none;
    };
    risk_overrides = record {
      allow_tokens = [];
      deny_tokens = [];
      watch_tokens = [];
      allow_pools = [];
      deny_pools = [];
      watch_pools = [];
    };
    enabled_dex_overrides = no_overrides;
    dex_packs_enabled = [];
    dex_packs_disabled = [];
    last_actor = codes "system";
  }

  -- The assignments that cannot fail.
  unfoldable pub set_scalars : RawControl V → ControlState V → ControlState V
  unfolding upper
  set_scalars raw d = record d {
    state = upper (or_default d.state raw.state);
    mode = or_default d.mode raw.mode;
    kill_switch = bool_or_false raw.kill_switch;
    flashloan_enabled = bool_or_false raw.flashloan_enabled;
    last_actor = or_default d.last_actor raw.last_actor;
  }

  abbrev pub set_strategy_overrides : Stage V
  set_strategy_overrides raw d = elim (raw.strategy_overrides) [
    | none ↦ some d
    | some o ↦ elim (read_overrides o) [
      | none ↦ none
      | some r ↦ some (record d { strategy_overrides = r })
    ]
  ]

  abbrev pub set_strategy_enabled : Stage V
  set_strategy_enabled raw d =
      bind_list raw.strategy_enabled (λ xs. some (record d { strategy_enabled = xs }))

  abbrev pub set_strategy_disabled : Stage V
  set_strategy_disabled raw d =
      bind_list raw.strategy_disabled (λ xs. some (record d { strategy_disabled = xs }))

  -- The merging of the strategies, and the limits.
  abbrev pub merge_strategies : Stage V
  merge_strategies raw d = some (record d {
    strategy_overrides = merged d.strategy_overrides d.strategy_enabled d.strategy_disabled;
    limits = or_default d.limits raw.limits;
  })

  abbrev pub set_dex_overrides : Stage V
  set_dex_overrides raw d = elim (raw.enabled_dex_overrides) [
    | none ↦ some d
    | some o ↦ elim (read_overrides o) [
      | none ↦ none
      | some r ↦ some (record d { enabled_dex_overrides = r })
    ]
  ]

  abbrev pub set_packs_enabled : Stage V
  set_packs_enabled raw d =
      bind_list raw.dex_packs_enabled (λ xs. some (record d { dex_packs_enabled = xs }))

  abbrev pub set_packs_disabled : Stage V
  set_packs_disabled raw d =
      bind_list raw.dex_packs_disabled (λ xs. some (record d { dex_packs_disabled = xs }))

  abbrev pub merge_packs : Stage V
  merge_packs raw d = some (record d {
    enabled_dex_overrides = merged d.enabled_dex_overrides d.dex_packs_enabled d.dex_packs_disabled;
  })

  abbrev pub set_risk_overrides : Stage V
  set_risk_overrides raw d = elim (raw.risk_overrides) [
    | none ↦ some d
    | some o ↦ elim (read_risk o) [ none ↦ none | some r ↦ some (record d { risk_overrides = r }) ]
  ]

  unfoldable pub stages : List (Stage V)
  unfolding read_overrides read_risk read_list sorted_set
  stages =
      set_strategy_overrides ∷ set_strategy_enabled ∷ set_strategy_disabled ∷ merge_strategies
      ∷ set_dex_overrides ∷ set_packs_enabled ∷ set_packs_disabled ∷ merge_packs
      ∷ set_risk_overrides ∷ []

  -- The stages up to the first that raises.
  unfoldable pub run_stages : List (Stage V) → RawControl V → ControlState V → ControlState V
  run_stages [] raw d = d
  run_stages (s ∷ ss) raw d = elim (s raw d) [ none ↦ d | some d' ↦ run_stages ss raw d' ]

  -- A file that is not JSON or no object changes nothing.
  unfoldable pub read_control : Option (RawControl V) → ControlState V
  unfolding set_scalars run_stages stages
  read_control none = default_state
  read_control (some raw) = run_stages stages raw (set_scalars raw default_state)

  unfoldable pub operator_block_reason : ControlState V → Bool × Text
  unfolding text_eq upper
  operator_block_reason st =
      if st.kill_switch
      then (true, codes "kill_switch")
      else if not (text_eq (upper st.state) (codes "TRADING"))
      then (true, codes "state_not_trading")
      else (false, codes "allowed")

-- The file at the path: its time of change and what it parses to, if there is one.
abbrev pub ControlFile : Type 0 → Type 0
ControlFile V = Option (ℕ × Option (RawControl V))

-- The `_CACHE_…` globals, once there is data.
pub record Cached (F : FloatModel) (V : Type 0) : Type 0 where
  pub path : Text
  pub ts : F.Float
  pub mtime : Option ℕ
  pub value : ControlState V

abbrev pub mtime_of : {V : Type 0} → ControlFile V → Option ℕ
mtime_of none = none
mtime_of (some (t, content)) = some t

abbrev pub contents : {V : Type 0} → ControlFile V → Option (RawControl V)
contents none = none
contents (some (t, content)) = content

abbrev pub same_mtime : Option ℕ → Option ℕ → Bool
same_mtime none none = true
same_mtime (some m) (some n) = m == n
same_mtime a b = false

module _ (F : FloatModel) {V : Type 0} where
  open F use {Float, sub, lit}

  unfoldable pub load : Text → Float → ControlFile V → ControlState V × Cached F V
  unfolding read_control
  load path now file =
      let value = read_control (contents file) in
      (value, record { path = path; ts = now; mtime = mtime_of file; value = value })

  -- `get_operator_state` of a path at a time.
  unfoldable pub get_operator_state :
      Text → Float → ControlFile V → Option (Cached F V) → ControlState V × Cached F V
  unfolding load text_eq
  get_operator_state path now file none = load path now file
  get_operator_state path now file (some c) =
      if text_eq c.path path && below F (sub now c.ts) (lit 10 1)
      then (c.value, c)
      else if text_eq c.path path && same_mtime c.mtime (mtime_of file)
      then (c.value, record c { ts = now })
      else load path now file
