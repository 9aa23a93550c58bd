-- ===== src/Engine/Nonces/Sequence.antt =====
-- The nonces that `EvmNonceManager` hands out.
use mev_bot.Base.{
  ℕ, ◌+◌, ◌≡◌, refl, ap, true, false, none, some, List, [], ◌∷◌, Option-cases, Bool-cases, ◌⊎◌, inl,
  inr,
}
use mev_bot.Base.Text.{Text, lower, text_eq_refl}
use mev_bot.Base.Dict.{get, get-put}
use mev_bot.Base.Result.{Result, ok, raise}
use mev_bot.Base.Float.{FloatModel}
use mev_bot.Engine.Nonces.{
  NonceManager, cached, fetching, store, begin, finish, next_nonce, resume, ts_or_zero,
  observe_nonce_error,
}

module _ (F : FloatModel) where
  open F use {Float, at_most, sub, lit}

  -- The manager holds the next nonce of an address (in lower case), last used at a time.
  pub record Holds (a : Text) (n : ℕ) (t : Float) (m : NonceManager F) : Type 0 where
    pub nonce : get a m.nonce ≡ some n
    pub used : get a m.ts ≡ some t

  store-Holds :
      (a : Text) (n : ℕ) (now : Float) (m : NonceManager F)
      → Holds a (n + 1) now (store F a n now m)
  unfolding store
  store-Holds a n now m = record {
    nonce = rw (get-put, text_eq_refl);
    used = rw (get-put, text_eq_refl);
  }

  ttl_s-store :
      (a : Text) (n : ℕ) (now : Float) (m : NonceManager F) → (store F a n now m).ttl_s ≡ m.ttl_s
  unfolding store
  ttl_s-store a n now m = refl

  begin_hit :
      (a : Text) (n : ℕ) (t now : Float) (m : NonceManager F)
      → Holds a n t m
      → at_most (sub now t) m.ttl_s ≡ true
      → begin F a now m ≡ (cached n, store F a n now m)
  unfolding begin
  begin_hit a n t now m h fresh = rw (h.nonce, begin, h.used, fresh)

  begin-cases :
      (a : Text) (now : Float) (m : NonceManager F)
      → ((n : ℕ) × (begin F a now m ≡ (cached n, store F a n now m)))
        ⊎ (begin F a now m ≡ (fetching, m))
  unfolding begin
  begin-cases a now m = elim (Option-cases (get a m.nonce)) [
    | inl e ↦ inr (rw (e, begin))
    | inr (n, e) ↦ elim (Bool-cases (at_most (sub now (ts_or_zero F (get a m.ts))) m.ttl_s)) [
      | inl fresh ↦ inl (n, rw (e, begin, fresh))
      | inr stale ↦ inr (rw (e, begin, stale))
    ]
  ]

  begin_stale :
      (a : Text) (n : ℕ) (t now : Float) (m : NonceManager F)
      → get a m.nonce ≡ some n
      → get a m.ts ≡ some t
      → at_most (sub now t) m.ttl_s ≡ false
      → begin F a now m ≡ (fetching, m)
  unfolding begin
  begin_stale a n t now m h k stale = rw (h, begin, k, stale)

  begin_miss :
      (a : Text) (now : Float) (m : NonceManager F)
      → get a m.nonce ≡ none
      → begin F a now m ≡ (fetching, m)
  unfolding begin
  begin_miss a now m h = rw (h, begin)

  -- Each time is within the time to live of the one before it.
  abbrev pub Close : Float → Float → List Float → Type 0
  Close ttl t [] = Unit
  Close ttl t (now ∷ times) = (at_most (sub now t) ttl ≡ true) × Close ttl now times

  module _ {E : Type 0} where
    -- Whatever path a call takes, if it returns a nonce then the manager holds the next one for the
    -- address in lower case, with the time of the call; if it raises, the manager is as it was.
    abbrev pub Advances : Text → Float → NonceManager F → Result E ℕ × NonceManager F → Type 0
    Advances a now m (ok n, m') = Holds a (n + 1) now m'
    Advances a now m (raise e, m') = m' ≡ m

    pub finish-Advances :
        (a : Text) (now : Float) (fetched : Result E ℕ) (m : NonceManager F)
        → Advances a now m (finish F a now fetched m)
    unfolding finish
    finish-Advances a now (ok n) m = store-Holds a n now m
    finish-Advances a now (raise e) m = refl

    pub next_nonce-Advances :
        (address : Text) (now : Float) (fetched : Result E ℕ) (m : NonceManager F)
        → Advances (lower address) now m (next_nonce F address now fetched m)
    unfolding next_nonce
    next_nonce-Advances address now fetched m = elim (begin-cases (lower address) now m) [
      | inl (n, e) ↦ rw (e, next_nonce) (store-Holds (lower address) n now m)
      | inr e ↦ rw (e, next_nonce) (finish-Advances (lower address) now fetched m)
    ]

    -- Calls for one address, one after the other, at the given times; each would be given `fetched`
    -- if it asked the network.
    abbrev pub next_nonces : Text → Result E ℕ → List Float → NonceManager F → List (Result E ℕ)
    next_nonces address fetched [] m = []
    next_nonces address fetched (now ∷ times) m =
        let (r, m') = next_nonce F address now fetched m in r ∷ next_nonces address fetched times m'

    -- n, n + 1, n + 2, …, one for each time.
    abbrev pub counted : ℕ → List Float → List (Result E ℕ)
    counted n [] = []
    counted n (now ∷ times) = ok n ∷ counted (n + 1) times

    -- While no two calls for an address are further apart than the time to live, the nonces are
    -- consecutive from the one that is held, with no gap and no repetition, and the network is not
    -- asked: its answer does not matter.
    pub next_nonces_consecutive :
        (address : Text) (fetched : Result E ℕ) (times : List Float) (n : ℕ) (t : Float)
        (m : NonceManager F)
        → Holds (lower address) n t m
        → Close m.ttl_s t times
        → next_nonces address fetched times m ≡ counted n times
    unfolding next_nonce
    next_nonces_consecutive address fetched [] n t m h c = refl
    next_nonces_consecutive address fetched (now ∷ times) n t m h c =
        let a : Text = lower address in
        rw (begin_hit a n t now m h c.0, next_nonce)
          (ap (◌∷◌ (ok n)) (
            next_nonces_consecutive address fetched times (n + 1) now (store F a n now m)
              (store-Holds a n now m) (rw ttl_s-store c.1)))

    -- After `observe_nonce_error` the next call for that address asks the network, provided that the
    -- clock stands further from its own zero than the time to live.
    pub next_nonce-observe_nonce_error :
        (address : Text) (now : Float) (fetched : Result E ℕ) (m : NonceManager F)
        → at_most (sub now (lit 0 0)) m.ttl_s ≡ false
        → next_nonce F address now fetched (observe_nonce_error F address m)
          ≡ finish F (lower address) now fetched (observe_nonce_error F address m)
    unfolding next_nonce
    next_nonce-observe_nonce_error address now fetched m stale =
        let a : Text = lower address in
        elim (Option-cases (get a m.nonce)) [
          | inl e ↦ rw (
            begin_miss a now (observe_nonce_error F address m) (unfold observe_nonce_error in e),
            next_nonce,
          )
          | inr (n, e) ↦ rw (
            begin_stale a n (lit 0 0) now (observe_nonce_error F address m)
                (unfold observe_nonce_error in e)
                (unfold observe_nonce_error in rw (get-put, text_eq_refl))
                (unfold observe_nonce_error in stale),
            next_nonce,
          )
        ]

    -- Two tasks that ask for a nonce of one address, of which none is held, before either has its
    -- answer, and whose fetches return the same count, are handed the same nonce.
    pub next_nonce_race :
        (address : Text) (now now' : Float) (n : ℕ) (m : NonceManager F) (answer : Result E ℕ)
        → get (lower address) m.nonce ≡ none
        → answer ≡ ok n
        → let a = lower address in
          let (first, m₁) = begin F a now m in
          let (second, m₂) = begin F a now' m₁ in
          let (r, m₃) = resume F a now answer (first, m₂) in
          let (r', m₄) = resume F a now' answer (second, m₃) in (r ≡ ok n) × (r' ≡ ok n)
    unfolding finish
    next_nonce_race address now now' n m answer e is_n =
        let a : Text = lower address in
        rw (begin_miss a now m e, begin_miss a now' m e, is_n) (refl, refl)
