-- ===== src/Ops/Tests.antt =====
-- The operator's services at concrete calls.
use mev_bot.Base.{◌≤◌, ◌≡◌, refl, true, false, Option, none, some, List, [], ◌∷◌}
use mev_bot.Base.Int.{ℤ, pos, eqb_ℤ, ◌+ℤ◌, ◌-ℤ◌}
use mev_bot.Base.Text.{Text, codes, text_eq}
use mev_bot.Base.Float.{below}
use mev_bot.Base.Float.Ints.{Ext, fin, int_floats}
use mev_bot.Ops.Confirmations.{
  Confirmation, ConfirmationStore, confirmed, refused, invalid_or_expired, create, consume,
}
use mev_bot.Ops.Confirmations.Once.{consume_once}
use mev_bot.Ops.Limiter.Counts.{count_after}
use mev_bot.Ops.Limiter.Window.{serve, fresh, IsOrdered, serve_within_limit}
use mev_bot.Ops.Alerts.{dedup_ttl_s, truthy, dedupe_fingerprint}
use mev_bot.Ops.Alerts.Dedupe.{IsBefore}

abbrev store : ConfirmationStore int_floats
store = record { ttl_s = fin (pos 60); items = [] }

abbrev created : Confirmation int_floats × ConfirmationStore int_floats
created = create int_floats (codes "tok") (codes "pause") [] (pos 7) (fin (pos 0)) store

consumed :
    (consume int_floats (codes "tok") (pos 7) (fin (pos 10)) created.1).0 ≡ confirmed created.0
unfolding consume create ◌+ℤ◌ text_eq
consumed = refl

consume_once_example :
    (eqb_ℤ (pos 7) created.0.actor_id ≡ true)
    × (int_floats.at_most (fin (pos 10)) created.0.expires_at ≡ true)
    × ((consume int_floats
          (codes "tok")
          (pos 8)
          (fin (pos 11))
          (consume int_floats (codes "tok") (pos 7) (fin (pos 10)) created.1).1).0
        ≡ refused invalid_or_expired)
consume_once_example =
    consume_once int_floats (codes "tok") (pos 7) (pos 8) (fin (pos 10)) (fin (pos 11)) created.1
      created.0 consumed

in_future : int_floats.at_most (fin (pos 0)) (int_floats.add (fin (pos 0)) store.ttl_s) ≡ true
unfolding ◌+ℤ◌
in_future = refl

in_time : int_floats.at_most (fin (pos 10)) (int_floats.add (fin (pos 0)) store.ttl_s) ≡ true
unfolding ◌+ℤ◌
in_time = refl

abbrev calls : List (ℤ × Ext)
calls =
    (pos 1, fin (pos 0)) ∷ (pos 1, fin (pos 5)) ∷ (pos 1, fin (pos 6)) ∷ (pos 1, fin (pos 12)) ∷ []

calls-IsOrdered : IsOrdered int_floats (fin (pos 0)) calls
calls-IsOrdered = (refl, (refl, (refl, (refl, tt))))

serve_within_limit_example :
    count_after int_floats
      (int_floats.sub (fin (pos 12)) (fin (pos 10)))
      ((serve int_floats calls (fresh int_floats 2 (fin (pos 10)))).grants (pos 1))
    ≤ 2
serve_within_limit_example =
    serve_within_limit int_floats 2 (fin (pos 10)) (fin (pos 0)) calls (pos 1) calls-IsOrdered

-- Of the four calls, the third is refused.
served :
    (serve int_floats calls (fresh int_floats 2 (fin (pos 10)))).grants (pos 1)
    ≡ fin (pos 0) ∷ fin (pos 5) ∷ fin (pos 12) ∷ []
unfolding serve ◌-ℤ◌
served = refl

let_through : (dedupe_fingerprint int_floats (codes "fp1") (fin (pos 0)) []).0 ≡ false
unfolding dedupe_fingerprint
let_through = refl

lasts : truthy int_floats (int_floats.add (fin (pos 0)) (dedup_ttl_s int_floats)) ≡ true
unfolding ◌+ℤ◌
lasts = refl

five-IsBefore :
    IsBefore int_floats
      (int_floats.add (fin (pos 0)) (dedup_ttl_s int_floats))
      ((codes "fp2", fin (pos 5)) ∷ [])
unfolding ◌+ℤ◌
five-IsBefore = (refl, tt)

hundred_before :
    below int_floats (fin (pos 100)) (int_floats.add (fin (pos 0)) (dedup_ttl_s int_floats)) ≡ true
unfolding ◌+ℤ◌
hundred_before = refl

abbrev delivers : Text → Option Text
delivers fp = none

abbrev fails : Text → Option Text
fails fp = some (codes "http_500:")
