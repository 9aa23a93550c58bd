-- ===== src/Ops/Alerts/Dedupe.antt =====
-- Fingerprints over sequences of calls of `_dedupe_fingerprint` (ops/alert_router.py).
use mev_bot.Base.{◌≡◌, true, false, List, [], ◌∷◌, some, is_empty, arith, Bool-cases, inl, inr}
use mev_bot.Base.Text.{Text, text_eq, text_eq_refl, text_eq→eq}
use mev_bot.Base.Dict.{Dict, get, keep_values, get-put, get-keep_values-some}
use mev_bot.Base.Float.{FloatModel, below}
use mev_bot.Ops.Alerts.{dedup_ttl_s, truthy, still_seen, dedupe_fingerprint}

module _ (F : FloatModel) where
  open F use {Float, at_most, add, lit}

  -- What `dedupe_fingerprint` does to the entry of another call's fingerprint.
  dedupe_fingerprint-get :
      (fp fp' : Text) (t e : Float) (seen : Dict Float)
      → get fp seen ≡ some e
      → below F t e ≡ true
      → truthy F e ≡ true
      → get fp (dedupe_fingerprint F fp' t seen).1 ≡ some e
  unfolding dedupe_fingerprint
  dedupe_fingerprint-get fp fp' t e seen g b z =
      let live = keep_values (below F t) seen in
      let held : get fp live ≡ some e = get-keep_values-some fp (below F t) seen e g b in
      let written = get-put fp' fp (add t (dedup_ttl_s F)) live in
      elim (Bool-cases (text_eq fp' fp)) [
        | inl same ↦
            let here : still_seen F t (get fp' live) ≡ true =
              rw (text_eq→eq fp' fp same, held) ground (arith, b, z) in
            ground (arith, held, here)
        | inr other ↦ ground (arith, held, written, other)
      ]

  -- The calls in order, each a fingerprint and a time.
  unfoldable pub dedupe_all : List (Text × Float) → Dict Float → Dict Float
  dedupe_all [] seen = seen
  dedupe_all ((fp, t) ∷ calls) seen = dedupe_all calls (dedupe_fingerprint F fp t seen).1

  -- The calls come before a time.
  abbrev pub IsBefore : Float → List (Text × Float) → Type 0
  IsBefore e [] = Unit
  IsBefore e ((fp, t) ∷ calls) = (below F t e ≡ true) × IsBefore e calls

  dedupe_all-get :
      (fp : Text) (calls : List (Text × Float)) (e : Float) (seen : Dict Float)
      → get fp seen ≡ some e
      → IsBefore e calls
      → truthy F e ≡ true
      → get fp (dedupe_all calls seen) ≡ some e
  unfolding dedupe_all
  dedupe_all-get fp [] e seen g b z = g
  dedupe_all-get fp ((fp', t) ∷ calls) e seen g b z =
      dedupe_all-get fp calls e (dedupe_fingerprint F fp' t seen).1
        (dedupe_fingerprint-get fp fp' t e seen g b.0 z) b.1 z

  pub dedupe_fingerprint-put :
      (fp : Text) (t : Float) (seen : Dict Float)
      → is_empty fp ≡ false
      → (dedupe_fingerprint F fp t seen).0 ≡ false
      → get fp (dedupe_fingerprint F fp t seen).1 ≡ some (add t (dedup_ttl_s F))
  unfolding dedupe_fingerprint
  dedupe_fingerprint-put fp t seen n h =
      let live = keep_values (below F t) seen in
      let written = get-put fp fp (add t (dedup_ttl_s F)) live in
      ground (arith, text_eq_refl fp, written)

  pub dedupe_fingerprint-seen :
      (fp : Text) (t e : Float) (seen : Dict Float)
      → is_empty fp ≡ false
      → get fp seen ≡ some e
      → below F t e ≡ true
      → truthy F e ≡ true
      → (dedupe_fingerprint F fp t seen).0 ≡ true
  unfolding dedupe_fingerprint
  dedupe_fingerprint-seen fp t e seen n g b z =
      let held = get-keep_values-some fp (below F t) seen e g b in
      let here : still_seen F t (get fp (keep_values (below F t) seen)) ≡ true =
        rw held ground (arith, b, z) in
      ground (arith, here)

  -- A fingerprint that is not empty and was let through is a duplicate at every later look before
  -- its entry runs out, whatever other fingerprints are looked at in between.
  pub dedupe_fingerprint_within_ttl :
      (fp : Text) (t t' : Float) (calls : List (Text × Float)) (seen : Dict Float)
      → is_empty fp ≡ false
      → truthy F (add t (dedup_ttl_s F)) ≡ true
      → IsBefore (add t (dedup_ttl_s F)) calls
      → below F t' (add t (dedup_ttl_s F)) ≡ true
      → (dedupe_fingerprint F fp t seen).0 ≡ false
      → (dedupe_fingerprint F fp t' (dedupe_all calls (dedupe_fingerprint F fp t seen).1)).0 ≡ true
  dedupe_fingerprint_within_ttl fp t t' calls seen n z b b' h =
      let e = add t (dedup_ttl_s F) in
      let mine = dedupe_fingerprint-put fp t seen n h in
      let kept = dedupe_all-get fp calls e _ mine b z in
      dedupe_fingerprint-seen fp t' e _ n kept b' z
