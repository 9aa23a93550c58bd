-- ===== src/Engine/Reconcile/Outcomes.antt =====
-- What a reconciled trade reports.
use mev_bot.Base.{
  ◌≡◌, refl, ◌↔◌, true, Option, none, some, arith, inl, inr, Bool-cases, if_both, ◌||◌,
}
use mev_bot.Base.Text.{Text, codes, member, or_else, norm, text_eq, contains}
use mev_bot.Base.Float.{FloatModel, at_most_fmax_left}
use mev_bot.Engine.Reconcile.{
  revert_buckets, bucket_by_word, map_revert_reason, ReconcileInput, ReconcileResult,
  reconcile_trade, reason_of, slippage, confirm_latency,
}

abbrev IsBucket : Text → Type 0
IsBucket t = member t revert_buckets ≡ true

bucket_by_word-member : (r : Text) → IsBucket (bucket_by_word r)
unfolding bucket_by_word member text_eq
bucket_by_word-member r = if_both IsBucket (contains (codes "nonce") r) refl (
    if_both IsBucket (contains (codes "underprice") r || contains (codes "fee") r) refl (
      if_both IsBucket (contains (codes "revert") r) refl (
        if_both IsBucket (contains (codes "sim") r) refl (
          if_both IsBucket (contains (codes "429") r || contains (codes "rate") r) refl
            (if_both IsBucket (contains (codes "timeout") r) refl refl)))))

-- Whatever text a node gives as the reason of a revert, its bucket is one of the known buckets.
pub map_revert_reason-member : (r : Text) → member (map_revert_reason r) revert_buckets ≡ true
unfolding map_revert_reason
map_revert_reason-member r =
    elim (Bool-cases (member (or_else (norm r) (codes "other")) revert_buckets)) [
      | inl e ↦ rw (e, map_revert_reason) e
      | inr e ↦ rw (e, map_revert_reason) (bucket_by_word-member (or_else (norm r) (codes "other")))
    ]

module _ (F : FloatModel) (inp : ReconcileInput F) where
  open F use {Float, at_most, lit, sub, mul, div}

  -- An absent number, or one that is zero or more.
  abbrev pub NonNegative : Option Float → Type 0
  NonNegative none = Unit
  NonNegative (some x) = at_most (lit 0 0) x ≡ true

  -- Absent, or a text of the list.
  abbrev pub Known : Option Text → Type 0
  Known none = Unit
  Known (some b) = member b revert_buckets ≡ true

  -- The report of every trade: a slippage and a latency, where there are any, are not negative; there
  -- is a revert bucket exactly when the trade failed, and it is a known one.
  pub record IsReport (r : ReconcileResult F) : Type 0 where
    pub slippage_nonneg : NonNegative r.slippage_bps
    pub latency_nonneg : NonNegative r.confirm_latency_s
    pub bucket_iff : (r.revert_bucket ≡ none) ↔ (inp.success ≡ true)
    pub bucket_known : Known r.revert_bucket

  slippage_nonneg_lem : (e a : Option Float) → NonNegative (slippage F e a)
  unfolding slippage
  slippage_nonneg_lem none a = tt
  slippage_nonneg_lem (some e) none = tt
  slippage_nonneg_lem (some e) (some a) =
      ground (arith, at_most_fmax_left F (lit 0 0) (mul (div (sub e a) e) (lit 10000 0)))

  latency_nonneg_lem : (c : Option Float) (s : Float) → NonNegative (confirm_latency F c s)
  unfolding confirm_latency
  latency_nonneg_lem none s = tt
  latency_nonneg_lem (some c) s = ground (arith, at_most_fmax_left F (lit 0 0) (sub c s))

  -- The report of every trade has no negative slippage or latency, and a revert bucket exactly when
  -- the trade failed, which is then a known one.
  pub reconcile_trade-IsReport : IsReport (reconcile_trade F inp)
  unfolding reconcile_trade
  reconcile_trade-IsReport = record {
    slippage_nonneg = slippage_nonneg_lem inp.expected_out inp.actual_out;
    latency_nonneg = latency_nonneg_lem inp.confirmed_ts inp.sent_ts;
    bucket_iff = ground arith;
    bucket_known = ground (arith, map_revert_reason-member (reason_of F inp.revert_reason));
  }
