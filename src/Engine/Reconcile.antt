-- ===== src/Engine/Reconcile.antt =====
-- `reconcile_trade` (bot/exec/engine.py) and `map_revert_reason` (ops/metrics.py).
pub mod Outcomes
use mev_bot.Base.{
  ◌≡◌, refl, ◌↔◌, Bool, true, false, ◌&&◌, ◌||◌, not, Option, none, some, List, [], ◌∷◌, arith,
  if◌then◌else◌, inl, inr, Bool-cases, ◌⊎◌,
}
use mev_bot.Base.Text.{Text, codes, or_else, norm, member, contains, starts_with, text_eq}
use mev_bot.Base.Float.{FloatModel, below, fmax, at_most_fmax_left}

abbrev pub revert_buckets : List Text
revert_buckets =
    codes "nonce_too_low"
    ∷ codes "fee_underpriced"
    ∷ codes "reverted"
    ∷ codes "simulation_fail"
    ∷ codes "rate_limit"
    ∷ codes "timeout"
    ∷ codes "transport"
    ∷ codes "rpc_error"
    ∷ codes "exception"
    ∷ codes "blocked_by_operator"
    ∷ codes "kill_switch"
    ∷ codes "state_not_trading"
    ∷ codes "operator_kill_switch"
    ∷ codes "operator_not_trading"
    ∷ codes "guard"
    ∷ codes "other"
    ∷ []

-- The tests below the lookup, on the normalised reason.
unfoldable pub bucket_by_word : Text → Text
unfolding contains starts_with
bucket_by_word r =
    if contains (codes "nonce") r
    then codes "nonce_too_low"
    else if contains (codes "underprice") r || contains (codes "fee") r
    then codes "fee_underpriced"
    else if contains (codes "revert") r
    then codes "reverted"
    else if contains (codes "sim") r
    then codes "simulation_fail"
    else if contains (codes "429") r || contains (codes "rate") r
    then codes "rate_limit"
    else if contains (codes "timeout") r
    then codes "timeout"
    else codes "other"

unfoldable pub map_revert_reason : Text → Text
unfolding norm member bucket_by_word
map_revert_reason reason =
    let r : Text = or_else (norm reason) (codes "other") in
    if member r revert_buckets then r else bucket_by_word r

pub record ReconcileInput (F : FloatModel) : Type 0 where
  pub tx_hash : Text
  pub sent_ts : F.Float
  pub confirmed_ts : Option F.Float
  pub gross_pnl_usd : F.Float
  pub fees_usd : F.Float
  pub expected_out : Option F.Float
  pub actual_out : Option F.Float
  pub revert_reason : Option Text
  pub success : Bool

pub record ReconcileResult (F : FloatModel) : Type 0 where
  pub tx_hash : Text
  pub success : Bool
  pub realized_pnl_usd : F.Float
  pub fees_usd : F.Float
  pub slippage_bps : Option F.Float
  pub revert_bucket : Option Text
  pub confirm_latency_s : Option F.Float

module _ (F : FloatModel) where
  open F use {Float, at_most, sub, mul, div, lit}

  -- The truth of a float.
  abbrev pub nonzero : Float → Bool
  nonzero x = not (at_most x (lit 0 0) && at_most (lit 0 0) x)

  unfoldable pub confirm_latency : Option Float → Float → Option Float
  unfolding fmax
  confirm_latency none sent = none
  confirm_latency (some at) sent =
      if below F (lit 0 0) sent then some (fmax F (lit 0 0) (sub at sent)) else none

  unfoldable pub slippage : Option Float → Option Float → Option Float
  unfolding fmax
  slippage none actual = none
  slippage (some expected) none = none
  slippage (some expected) (some actual) =
      if nonzero expected && nonzero actual && below F (lit 0 0) expected
      then some (fmax F (lit 0 0) (mul (div (sub expected actual) expected) (lit 10000 0)))
      else none

  abbrev pub reason_of : Option Text → Text
  reason_of none = codes "other"
  reason_of (some r) = or_else r (codes "other")

  unfoldable pub reconcile_trade : ReconcileInput F → ReconcileResult F
  unfolding confirm_latency slippage map_revert_reason
  reconcile_trade inp = record {
    tx_hash = inp.tx_hash;
    success = inp.success;
    realized_pnl_usd = sub inp.gross_pnl_usd inp.fees_usd;
    fees_usd = inp.fees_usd;
    slippage_bps = slippage inp.expected_out inp.actual_out;
    revert_bucket =
        if inp.success then none else some (map_revert_reason (reason_of inp.revert_reason));
    confirm_latency_s = confirm_latency inp.confirmed_ts inp.sent_ts;
  }
