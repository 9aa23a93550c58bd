-- ===== src/Operator/Wellformed.antt =====
-- Well-formed operator states, and the parts of `validate_state` (ops/operator_state.py).
use mathlib.Core.Path.{subst}
use mev_bot.Base.{
  ◌≡◌, refl, sym, Bool, true, false, not, ◌&&◌, Option, none, some, List, [], ◌∷◌, ◌++◌, All,
  All-append, is_empty, arith, inl, inr, Bool-cases, if_both,
}
use mev_bot.Base.Int.{ℤ, pos, leb_ℤ}
use mev_bot.Base.Text.{Text, codes, text_eq, text_eq→eq, strip, upper, or_else, member}
use mev_bot.Base.Parse.{parse_int}
use mev_bot.Base.Strip.{strip-strip}
use mev_bot.Base.Float.{FloatModel}
use mev_bot.Base.Result.{Result, ok}
use mev_bot.Gates.{text_or_empty}
use mev_bot.Canonical.{canonicalize_chain_target}
use mev_bot.Canonical.Idempotent.{IsNormal}
use mev_bot.Operator.{
  allowed_states, allowed_modes, StateError, Slugs, MessageId, no_id, other_id, id_number, id_text,
  Overrides, RiskOverrides, OperatorFile, normalize_actor, normalize_overrides, normalize_risk,
  fold_legacy, normalize_mode, read_message_id, positive_id,
}
use mev_bot.Operator.Store.{one_of, id_json}
use mev_bot.Operator.Sets.{IsStrict, sorted_set-IsStrict, normalize_slug_list-All, All-sorted_set}

abbrev pub AllNormal : Overrides (List Text) → Type 0
AllNormal o = All IsNormal o.allowlist × All IsNormal o.denylist

pub record RiskNormal (r : RiskOverrides (List Text)) : Type 0 where
  pub allow_tokens : All IsNormal r.allow_tokens
  pub deny_tokens : All IsNormal r.deny_tokens
  pub watch_tokens : All IsNormal r.watch_tokens
  pub allow_pools : All IsNormal r.allow_pools
  pub deny_pools : All IsNormal r.deny_pools
  pub watch_pools : All IsNormal r.watch_pools

-- A text that `strip` leaves alone, and that is not empty.
pub record IsStripped (t : Text) : Type 0 where
  pub fixed : strip t ≡ t
  pub some_text : is_empty t ≡ false

-- A validated state.
pub record IsValidFile {F : FloatModel} (s : OperatorFile F) : Type 0 where
  pub state_allowed : member s.state allowed_states ≡ true
  pub mode_allowed : member s.mode allowed_modes ≡ true
  pub id_positive : read_message_id (id_json F s.status_message_id) ≡ ok s.status_message_id
  pub target_fixed :
      canonicalize_chain_target true (some (or_else (strip s.chain_target) (codes "UNKNOWN")))
      ≡ s.chain_target
  pub strategies : AllNormal s.strategy_overrides
  pub dexes : AllNormal s.enabled_dex_overrides
  pub dexes_sorted : IsStrict s.enabled_dex_overrides.denylist
  pub risks : RiskNormal s.risk_overrides
  pub updated : IsStripped s.last_updated
  pub actor : IsStripped s.last_actor

pub or_else-IsStripped : (t d : Text) → strip t ≡ t → IsStripped d → IsStripped (or_else t d)
or_else-IsStripped [] d e i = i
or_else-IsStripped (c ∷ cs) d e i = record { fixed = e; some_text = refl }

pub or_else_stripped : (t d : Text) → IsStripped t → or_else (strip t) d ≡ t
or_else_stripped [] d i = cc i.some_text
or_else_stripped (c ∷ cs) d i = rw i.fixed refl

pub normalize_actor-IsStripped : (a : Option Text) → IsStripped (normalize_actor a)
unfolding normalize_actor
normalize_actor-IsStripped a =
    or_else-IsStripped (strip (text_or_empty a)) (codes "system") (strip-strip (text_or_empty a))
      (record { fixed = unfold strip in refl; some_text = refl })

all_texts : (Text → Bool) → List Text → Bool
all_texts p [] = true
all_texts p (t ∷ ts) = p t && all_texts p ts

member-all_texts :
    (p : Text → Bool) (t : Text) (ts : List Text)
    → member t ts ≡ true
    → all_texts p ts ≡ true
    → p t ≡ true
unfolding member all_texts
member-all_texts p t [] h k = cc
member-all_texts p t (u ∷ ts) h k = ground (arith, h, k, text_eq→eq t u, member-all_texts p t ts)

states_fixed : all_texts (λ t. text_eq (upper (strip t)) t) allowed_states ≡ true
unfolding all_texts text_eq upper strip
states_fixed = refl

modes_fixed : all_texts (λ t. text_eq (normalize_mode t) t) allowed_modes ≡ true
unfolding all_texts text_eq normalize_mode
modes_fixed = refl

pub allowed_state_fixed : (t : Text) → member t allowed_states ≡ true → upper (strip t) ≡ t
allowed_state_fixed t h =
    text_eq→eq _ t
      (member-all_texts (λ u. text_eq (upper (strip u)) u) t allowed_states h states_fixed)

pub allowed_mode_fixed : (t : Text) → member t allowed_modes ≡ true → normalize_mode t ≡ t
allowed_mode_fixed t h =
    text_eq→eq _ t
      (member-all_texts (λ u. text_eq (normalize_mode u) u) t allowed_modes h modes_fixed)

no_id_fixed :
    (F : FloatModel) (r : Option ℤ)
    → ◌≡◌ {A = Result StateError (Option ℤ)} (ok none) (ok r)
    → read_message_id (id_json F r) ≡ ok r
unfolding read_message_id
no_id_fixed F none h = refl
no_id_fixed F (some n) h = cc

pub positive_id-fixed :
    (F : FloatModel) (o r : Option ℤ) → positive_id o ≡ ok r → read_message_id (id_json F r) ≡ ok r
unfolding read_message_id
positive_id-fixed F none r h = cc
positive_id-fixed F (some n) r h = elim (Bool-cases (leb_ℤ n (pos 0))) [
  | inl e ↦ cc (rw e at h)
  | inr e ↦
      let same : some n ≡ r = cc (rw e at h) in
      subst (λ o. read_message_id (id_json F o) ≡ ok o) same (rw e refl)
]

pub read_message_id_fixed :
    (F : FloatModel) (m : MessageId) (r : Option ℤ)
    → read_message_id m ≡ ok r
    → read_message_id (id_json F r) ≡ ok r
unfolding read_message_id
read_message_id_fixed F no_id r h = no_id_fixed F r h
read_message_id_fixed F other_id r h = cc
read_message_id_fixed F (id_number n) r h = positive_id-fixed F (some n) r h
read_message_id_fixed F (id_text t) r h = elim (Bool-cases (is_empty (strip t))) [
  | inl e ↦ no_id_fixed F r (rw e at h)
  | inr e ↦ positive_id-fixed F (parse_int t) r (rw e at h)
]

pub one_of-ok :
    (allowed : List Text) (e : StateError) (t u : Text)
    → one_of allowed e t ≡ ok u
    → member u allowed ≡ true
one_of-ok allowed e t u h = elim (Bool-cases (member t allowed)) [
  | inl m ↦ let same : t ≡ u = cc (rw m at h) in rw (sym same) m
  | inr m ↦ cc (rw m at h)
]

pub normalize_overrides-AllNormal :
    (o : Option (Overrides Slugs)) → AllNormal (normalize_overrides o)
normalize_overrides-AllNormal none = (tt, tt)
normalize_overrides-AllNormal (some o) =
    (normalize_slug_list-All o.allowlist, normalize_slug_list-All o.denylist)

pub normalize_risk-RiskNormal : (r : Option (RiskOverrides Slugs)) → RiskNormal (normalize_risk r)
normalize_risk-RiskNormal none = record {
  allow_tokens = tt;
  deny_tokens = tt;
  watch_tokens = tt;
  allow_pools = tt;
  deny_pools = tt;
  watch_pools = tt;
}
normalize_risk-RiskNormal (some r) = record {
  allow_tokens = normalize_slug_list-All r.allow_tokens;
  deny_tokens = normalize_slug_list-All r.deny_tokens;
  watch_tokens = normalize_slug_list-All r.watch_tokens;
  allow_pools = normalize_slug_list-All r.allow_pools;
  deny_pools = normalize_slug_list-All r.deny_pools;
  watch_pools = normalize_slug_list-All r.watch_pools;
}

pub fold_legacy-AllNormal :
    (o : Overrides (List Text)) (enable disable : List Text)
    → AllNormal o
    → All IsNormal enable
    → All IsNormal disable
    → AllNormal (fold_legacy o enable disable)
unfolding fold_legacy
fold_legacy-AllNormal o enable disable h e d = (
  if_both (All IsNormal) (is_empty o.allowlist && not (is_empty enable)) e h.0,
  All-sorted_set IsNormal (o.denylist ++ disable) (All-append IsNormal _ disable h.1 d),
)

pub fold_legacy-IsStrict :
    (o : Overrides (List Text)) (enable disable : List Text)
    → IsStrict (fold_legacy o enable disable).denylist
unfolding fold_legacy
fold_legacy-IsStrict o enable disable = sorted_set-IsStrict (o.denylist ++ disable)
