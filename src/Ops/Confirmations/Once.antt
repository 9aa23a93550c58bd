-- ===== src/Ops/Confirmations/Once.antt =====
-- The life of a confirmation, from `create` to `consume` (ops/confirmations.py).
use mev_bot.Base.{◌≡◌, true, not, Option, none, some, arith}
use mev_bot.Base.Int.{ℤ, eqb_ℤ}
use mev_bot.Base.Text.{Text, text_eq_refl}
use mev_bot.Base.Dict.{Dict, get, put, get-put, get-pop, get-keep_values-none, get-keep_values-some}
use mev_bot.Base.Float.{FloatModel, below}
use mev_bot.Ops.Confirmations.{
  Confirmation, ConfirmationStore, confirmed, refused, invalid_or_expired, gc, create,
  consume_found, consume,
}

module _ (F : FloatModel) where
  open F use {Float, at_most, add}

  -- What a success of `consume` shows, and leaves.
  pub record IsSpent (token : Text) (actor : ℤ) (now : Float) (item : Confirmation F)
      (s' : ConfirmationStore F) : Type 0 where
    pub owner : eqb_ℤ actor item.actor_id ≡ true
    pub in_time : at_most now item.expires_at ≡ true
    pub gone : get token s'.items ≡ none

  consume_found-IsSpent :
      (token : Text) (actor : ℤ) (now : Float) (found : Option (Confirmation F))
      (s : ConfirmationStore F) (item : Confirmation F)
      → (consume_found F token actor now found s).0 ≡ confirmed item
      → IsSpent token actor now item (consume_found F token actor now found s).1
  unfolding consume_found
  consume_found-IsSpent token actor now none s item h = cc
  consume_found-IsSpent token actor now (some c) s item h =
      let read = get-pop token token s.items in
      let same = text_eq_refl token in ground (arith, read, same)

  -- A token that is not held stays so until it is created again, whoever asks and whenever.
  consume_absent :
      (token : Text) (actor : ℤ) (now : Float) (s : ConfirmationStore F)
      → get token s.items ≡ none
      → (consume F token actor now s).0 ≡ refused invalid_or_expired
  unfolding consume gc
  consume_absent token actor now s h =
      let lost = get-keep_values-none token (λ c. not (below F c.expires_at now)) s.items h in
      ground (arith, lost)

  -- A token is consumed only by the actor that it was created for and not after it expires, and then
  -- it is spent: a second `consume` of the token, by whatever actor and at whatever time, is refused
  -- as invalid or expired.
  pub consume_once :
      (token : Text) (actor actor' : ℤ) (now now' : Float) (s : ConfirmationStore F)
      (item : Confirmation F)
      → (consume F token actor now s).0 ≡ confirmed item
      → (eqb_ℤ actor item.actor_id ≡ true)
        × (at_most now item.expires_at ≡ true)
        × ((consume F token actor' now' (consume F token actor now s).1).0
            ≡ refused invalid_or_expired)
  consume_once token actor actor' now now' s item h =
      let spent : IsSpent token actor now item (consume F token actor now s).1 =
        unfold consume in
        consume_found-IsSpent token actor now (get token (gc F now s).items) (gc F now s) item h in
      (spent.owner, spent.in_time, consume_absent token actor' now' _ spent.gone)

  consume_found-owner :
      (token : Text) (actor : ℤ) (now : Float) (found : Option (Confirmation F))
      (s : ConfirmationStore F) (item : Confirmation F)
      → found ≡ some item
      → eqb_ℤ actor item.actor_id ≡ true
      → at_most now item.expires_at ≡ true
      → (consume_found F token actor now found s).0 ≡ confirmed item
  unfolding consume_found
  consume_found-owner token actor now none s item f o t = cc
  consume_found-owner token actor now (some c) s item f o t = ground (arith, f, o, t)

  -- A confirmation that was just created is handed out to its actor at any time until it expires,
  -- provided that the time to live does not lie in the past.
  pub consume-create :
      (token action : Text) (args : Dict Text) (actor : ℤ) (now now' : Float)
      (s : ConfirmationStore F)
      → at_most now (add now s.ttl_s) ≡ true
      → at_most now' (add now s.ttl_s) ≡ true
      → (consume F token actor now' (create F token action args actor now s).1).0
        ≡ confirmed (create F token action args actor now s).0
  unfolding create consume gc
  consume-create token action args actor now now' s h k =
      let item = (create F token action args actor now s).0 in
      let stored : get token (put token item s.items) ≡ some item =
        ground (arith, get-put token token item s.items, text_eq_refl token) in
      let held =
        get-keep_values-some token (λ c. not (below F c.expires_at now)) (put token item s.items)
          item stored (ground (arith, h)) in
      let held' =
        get-keep_values-some token (λ c. not (below F c.expires_at now')) _ item held
          (ground (arith, k)) in
      consume_found-owner token actor now' _ _ item held' (ground arith) k
