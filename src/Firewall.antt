-- ===== src/Firewall.antt =====
-- `RiskFirewall` (risk/risk_firewall.py). The overrides of the operator state, the metadata and what
-- the two simulations come to are arguments; the counters of ops/metrics.py are the list `counted`.
pub mod Verdicts
mod Tests
use mev_bot.Base.{
  ℕ, zero, suc, ◌+◌, ◌-◌, ◌*◌, Bool, true, false, ◌&&◌, ◌||◌, not, Option, none, some, List, [],
  ◌∷◌, ◌++◌, if◌then◌else◌, leb, ◌==◌, map,
}
use mev_bot.Base.Int.{ℤ, pos, ◌-ℤ◌, eqb_ℤ, leb_ℤ, max_ℤ}
use mev_bot.Base.Text.{Text, codes, text_eq, text_leb, norm, strip, member, or_else}
use mev_bot.Base.Parse.{parse_int, split_commas}
use mev_bot.Base.Sort.{sort}

pub data Classification : Type 0 where
  allow watch deny : Classification

pub record RiskDecision : Type 0 where
  pub classification : Classification
  pub reasons : List Text
  pub token : Text
  pub pool : Text

-- A value of the metadata.
pub data Value : Type 0 where
  absent : Value
  flag : Bool → Value
  number : ℤ → Value
  text : Text → Value

abbrev pub truths : List Text
truths = codes "1" ∷ codes "true" ∷ codes "yes" ∷ codes "on" ∷ []

-- The only number whose text is a truth is 1.
unfoldable pub as_bool : Value → Bool
unfolding member norm
as_bool absent = false
as_bool (flag b) = b
as_bool (number n) = eqb_ℤ n (pos 1)
as_bool (text t) = member (norm t) truths

-- `_as_int`
unfoldable pub as_int : Value → ℤ → ℤ
unfolding parse_int
as_int absent d = d
as_int (flag true) d = pos 1
as_int (flag false) d = pos 0
as_int (number n) d = n
as_int (text t) d = elim (parse_int t) [ some n ↦ n | none ↦ d ]

-- The keys of the metadata that are read; `owner_renounced` counts as true when it is absent.
pub record Metadata : Type 0 where
  pub is_proxy : Value
  pub blacklist_enabled : Value
  pub owner_can_block : Value
  pub owner_can_mint : Value
  pub owner_renounced : Option Value
  pub buy_tax_bps : Value
  pub sell_tax_bps : Value

-- What a list of overrides may be in the operator state.
pub data Raw : Type 0 where
  listed : List Text → Raw
  comma_text : Text → Raw
  other : Raw

pub record RawOverrides : Type 0 where
  pub allow_tokens : Raw
  pub deny_tokens : Raw
  pub watch_tokens : Raw
  pub allow_pools : Raw
  pub deny_pools : Raw
  pub watch_pools : Raw

pub record Firewall : Type 0 where
  pub chain : Text
  pub enabled : Bool
  pub tax_bps_deny : ℤ
  pub tiny_amount : ℤ
  pub overrides : RawOverrides

-- `__init__`, with the values of the three variables of the environment.
unfoldable pub new_firewall : Text → Value → Value → Value → RawOverrides → Firewall
unfolding as_bool as_int norm
new_firewall chain enabled tax tiny overrides = record {
  chain = or_else (norm chain) (codes "unknown");
  enabled = as_bool enabled;
  tax_bps_deny = as_int tax (pos 1000);
  tiny_amount = max_ℤ (pos 1) (as_int tiny (pos 100));
  overrides = overrides;
}

-- A text that is not empty is put into a set, a list without repetitions.
unfoldable pub put_norm : Text → List Text → List Text
unfolding member
put_norm [] rest = rest
put_norm (c ∷ cs) rest = if member (c ∷ cs) rest then rest else (c ∷ cs) ∷ rest

-- `{_norm(x) for x in vals if _norm(x)}`
unfoldable pub norm_set : List Text → List Text
unfolding norm put_norm
norm_set [] = []
norm_set (x ∷ xs) = put_norm (norm x) (norm_set xs)

-- `_lst`
unfoldable pub override_list : Raw → List Text
unfolding norm_set sort text_leb split_commas strip
override_list (listed xs) = sort text_leb (norm_set xs)
override_list (comma_text t) = sort text_leb (norm_set (map strip (split_commas t)))
override_list other = []

-- A reason, if it applies.
abbrev pub reason_if : Bool → Text → List Text
reason_if b t = if b then t ∷ [] else []

abbrev pub renounced : Option Value → Bool
renounced none = true
renounced (some v) = as_bool v

unfoldable pub static_checks : Firewall → Metadata → List Text
unfolding as_bool as_int
static_checks fw md =
    reason_if (as_bool md.is_proxy) (codes "proxy_contract")
    ++ reason_if (as_bool md.blacklist_enabled) (codes "blacklist_enabled")
    ++ reason_if (as_bool md.owner_can_block) (codes "owner_can_block")
    ++ reason_if (as_bool md.owner_can_mint) (codes "owner_can_mint")
    ++ reason_if (not (renounced md.owner_renounced)) (codes "owner_not_renounced")
    ++ reason_if
        (leb_ℤ fw.tax_bps_deny
          (max_ℤ (as_int md.buy_tax_bps (pos 0)) (as_int md.sell_tax_bps (pos 0))))
        (codes "high_tax_tokenomics")

-- A simulation: not given, or its answer, or the text of its exception.
pub data Check : Type 0 where
  no_check : Check
  answered : Bool → Text → Check
  threw : Text → Check

unfoldable pub run_check : Check → Bool × Text
run_check no_check = (false, codes "dynamic_check_unavailable")
run_check (answered b reason) = (b, or_else reason (if b then codes "ok" else codes "failed"))
run_check (threw e) = (false, codes "exception:" ++ e)

-- The counters of one evaluation.
pub data Counter : Type 0 where
  risk_allow risk_watch risk_deny : Counter
  sell_sim_fail : Text → Counter

abbrev pub Evaluated : Type 0
Evaluated = RiskDecision × List Counter

module _ (fw : Firewall) (token pool : Text) where
  abbrev pub verdict : Classification → List Text → RiskDecision
  verdict c reasons = record {
    classification = c;
    reasons = reasons;
    token = norm token;
    pool = norm pool;
  }

  -- `token_n in ov[tokens] or pool_n in ov[pools]`
  unfoldable pub overridden : Raw → Raw → Bool
  unfolding member override_list norm
  overridden tokens pools =
      member (norm token) (override_list tokens) || member (norm pool) (override_list pools)

  -- `reasons or ["manual_override_watch"]`
  abbrev pub or_watch : List Text → List Text
  or_watch [] = codes "manual_override_watch" ∷ []
  or_watch (r ∷ rs) = r ∷ rs

  abbrev pub some_reason : List Text → Bool
  some_reason [] = false
  some_reason (r ∷ rs) = true

  -- `evaluate` below the overrides, on the reasons and the two runs.
  unfoldable pub judge : List Text → Bool × Text → Bool × Text → Evaluated
  unfolding overridden
  judge reasons (buy_ok, buy_reason) (sell_ok, sell_reason) =
      let sell_text : Text = codes "sell_sim_failed:" ++ sell_reason in
      if not sell_ok
      then (verdict deny (reasons ++ sell_text ∷ []), sell_sim_fail sell_text ∷ risk_deny ∷ [])
      else if not buy_ok
      then (
        verdict watch (reasons ++ (codes "buy_sim_failed:" ++ buy_reason) ∷ []),
        risk_watch ∷ [],
      )
      else if overridden fw.overrides.watch_tokens fw.overrides.watch_pools || some_reason reasons
      then (verdict watch (or_watch reasons), risk_watch ∷ [])
      else (verdict allow (codes "dynamic_checks_ok" ∷ []), risk_allow ∷ [])

  unfoldable pub evaluate : Metadata → Check → Check → Evaluated
  unfolding judge static_checks run_check
  evaluate md simulate_buy simulate_sell =
      if overridden fw.overrides.deny_tokens fw.overrides.deny_pools
      then (verdict deny (codes "manual_override_deny" ∷ []), risk_deny ∷ [])
      else if overridden fw.overrides.allow_tokens fw.overrides.allow_pools
      then (verdict allow (codes "manual_override_allow" ∷ []), risk_allow ∷ [])
      else if not fw.enabled
      then (verdict allow (codes "firewall_disabled" ∷ []), risk_allow ∷ [])
      else judge (static_checks fw md) (run_check simulate_buy) (run_check simulate_sell)

  unfoldable pub should_exclude : Metadata → Check → Check → Bool × RiskDecision
  unfolding evaluate
  should_exclude md simulate_buy simulate_sell =
      let (d, counted) = evaluate md simulate_buy simulate_sell in
      (elim (d.classification) [ deny ↦ true | watch ↦ false | allow ↦ false ], d)
