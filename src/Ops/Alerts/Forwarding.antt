-- ===== src/Ops/Alerts/Forwarding.antt =====
-- The alerts of a payload, and of a payload that is posted again, in `alertmanager_webhook`
-- (ops/alert_router.py).
use mev_bot.Base.{
  ℕ, suc, ◌+◌, ◌≡◌, ◌∙◌, Bool, true, false, List, [], ◌∷◌, Option, none, some, length,
  length-append, is_empty, arith, if◌then◌else◌, ◌↔◌,
}
use mev_bot.Base.Text.{Text}
use mev_bot.Base.Dict.{Dict}
use mev_bot.Base.Float.{FloatModel, below}
use mev_bot.Ops.Alerts.{
  Tally, dedup_ttl_s, truthy, dedupe_fingerprint, forward_one, forward, alertmanager_webhook,
  count_alert,
}
use mev_bot.Ops.Alerts.Dedupe.{dedupe_fingerprint-put, dedupe_fingerprint-seen}

module _ (F : FloatModel) where
  open F use {Float, at_most, add, lit}

  abbrev total : Tally F → ℕ
  total k = k.sent + k.deduped + length k.errors

  count_alert-total :
      (duplicate : Bool) (outcome : Option Text) (k : Tally F)
      → total (count_alert F duplicate outcome k) ≡ suc (total k)
  count_alert-total true outcome k = ground arith
  count_alert-total false none k = ground arith
  count_alert-total false (some msg) k = ground (arith, length-append k.errors (msg ∷ []))

  status_of :
      (sent deduped n : ℕ) (errors : List Text)
      → sent + deduped + length errors ≡ n
      → (◌≡◌ {A = ℕ} (if is_empty errors then 200 else 502) 200) ↔ (sent + deduped ≡ n)
  status_of sent deduped n [] h = ground (arith, h)
  status_of sent deduped n (e ∷ errors) h = ground (arith, h)

  forward-total :
      (deliver : Text → Option Text) (alerts : List (Text × Float)) (k : Tally F)
      → total (forward F deliver alerts k) ≡ length alerts + total k
  unfolding forward forward_one
  forward-total deliver [] k = ground arith
  forward-total deliver ((fp, t) ∷ alerts) k =
      let found = dedupe_fingerprint F fp t k.seen in
      let one = count_alert-total found.0 (deliver fp) (record k { seen = found.1 }) in
      let rest = forward-total deliver alerts (forward_one F deliver fp t k) in
      ground (arith, one, rest)

  -- The webhook answers with status 200 exactly when every alert of the payload was sent or was a
  -- duplicate.
  pub alertmanager_webhook_status :
      (deliver : Text → Option Text) (alerts : List (Text × Float)) (seen : Dict Float)
      → ((alertmanager_webhook F deliver alerts seen).0.status_code ≡ 200)
        ↔ (let r = (alertmanager_webhook F deliver alerts seen).0 in r.sent + r.deduped ≡ r.alerts)
  unfolding alertmanager_webhook
  alertmanager_webhook_status deliver alerts seen =
      let counted =
        forward-total deliver alerts (record { sent = 0; deduped = 0; errors = []; seen = seen }) in
      status_of _ _ _ _ (counted ∙ ground arith)

  -- When the delivery of an alert fails, the webhook has already taken down its fingerprint, so
  -- that the same payload is answered with status 200, and nothing is sent, when it is posted again
  -- before the entry runs out, even if a delivery would succeed by then.
  pub alertmanager_webhook_retry :
      (deliver deliver' : Text → Option Text) (fp msg : Text) (t t' : Float) (seen : Dict Float)
      → is_empty fp ≡ false
      → truthy F (add t (dedup_ttl_s F)) ≡ true
      → below F t' (add t (dedup_ttl_s F)) ≡ true
      → (dedupe_fingerprint F fp t seen).0 ≡ false
      → deliver fp ≡ some msg
      → let first = alertmanager_webhook F deliver ((fp, t) ∷ []) seen in
        let again = alertmanager_webhook F deliver' ((fp, t') ∷ []) first.1 in
        (first.0.status_code ≡ 502) × (again.0.status_code ≡ 200) × (again.0.sent ≡ 0)
  unfolding alertmanager_webhook forward forward_one
  alertmanager_webhook_retry deliver deliver' fp msg t t' seen n z b h d =
      let mine = dedupe_fingerprint-put F fp t seen n h in
      let dup = dedupe_fingerprint-seen F fp t' _ _ n mine b z in ground (arith, d, h, dup)
