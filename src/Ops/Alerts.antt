-- ===== src/Ops/Alerts.antt =====
-- The deduplication of alerts and the webhook that forwards them (ops/alert_router.py). The sending
-- of an alert to Discord is an argument, `deliver`, as are the clock's readings.
pub mod Dedupe
pub mod Forwarding
use mev_bot.Base.{
  ℕ, suc, ◌≡◌, Bool, true, false, ◌&&◌, not, List, [], ◌∷◌, ◌++◌, Option, none, some, length, take,
  is_empty, if◌then◌else◌,
}
use mev_bot.Base.Text.{Text}
use mev_bot.Base.Dict.{Dict, get, put, keep_values}
use mev_bot.Base.Float.{FloatModel, below}

module _ (F : FloatModel) where
  open F use {Float, at_most, add, lit}

  abbrev pub dedup_ttl_s : Float
  dedup_ttl_s = lit 300 0

  -- `bool(x)` of a float
  abbrev pub truthy : Float → Bool
  truthy x = not (at_most x (lit 0 0) && at_most (lit 0 0) x)

  -- `exp and exp > t`
  abbrev pub still_seen : Float → Option Float → Bool
  still_seen t none = false
  still_seen t (some exp) = truthy exp && below F t exp

  -- `_dedupe_fingerprint`, from `_SEEN` to its result and the new `_SEEN`.
  unfoldable pub dedupe_fingerprint : Text → Float → Dict Float → Bool × Dict Float
  unfolding get put keep_values
  dedupe_fingerprint fp t seen =
      let live = keep_values (below F t) seen in
      if is_empty fp
      then (false, live)
      else if still_seen t (get fp live)
      then (true, live)
      else (false, put fp (add t dedup_ttl_s) live)

  -- The variables of the webhook's loop.
  pub record Tally : Type 0 where
    pub sent : ℕ
    pub deduped : ℕ
    pub errors : List Text
    pub seen : Dict Float

  -- The branches of the loop's body: is the alert a duplicate, and if not, was it delivered?
  abbrev pub count_alert : Bool → Option Text → Tally → Tally
  count_alert true outcome k = record k { deduped = suc k.deduped }
  count_alert false none k = record k { sent = suc k.sent }
  count_alert false (some msg) k = record k { errors = k.errors ++ msg ∷ [] }

  -- The loop's body, for an alert's fingerprint and the time at which it is looked at. `deliver`
  -- gives the outcome of `_send_discord_embed`: `none` for success, else the message.
  unfoldable pub forward_one : (Text → Option Text) → Text → Float → Tally → Tally
  unfolding dedupe_fingerprint
  forward_one deliver fp t k =
      let (duplicate, seen') = dedupe_fingerprint fp t k.seen in
      count_alert duplicate (deliver fp) (record k { seen = seen' })

  unfoldable pub forward : (Text → Option Text) → List (Text × Float) → Tally → Tally
  unfolding forward_one
  forward deliver [] k = k
  forward deliver ((fp, t) ∷ alerts) k = forward deliver alerts (forward_one deliver fp t k)

  -- The JSON response of the webhook.
  pub record Response : Type 0 where
    pub ok : Bool
    pub alerts : ℕ
    pub sent : ℕ
    pub deduped : ℕ
    pub errors : List Text
    pub status_code : ℕ

  unfoldable pub alertmanager_webhook :
      (Text → Option Text) → List (Text × Float) → Dict Float → Response × Dict Float
  unfolding forward
  alertmanager_webhook deliver alerts seen =
      let start : Tally = record { sent = 0; deduped = 0; errors = []; seen = seen } in
      let k = forward deliver alerts start in
      (
        record {
          ok = is_empty k.errors;
          alerts = length alerts;
          sent = k.sent;
          deduped = k.deduped;
          errors = take 5 k.errors;
          status_code = if is_empty k.errors then 200 else 502;
        },
        k.seen,
      )
