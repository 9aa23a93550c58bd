-- ===== src/Engine/Nonces.antt =====
-- `EvmNonceManager` (bot/exec/engine.py). A nonce is a count of transactions. `next_nonce` is split
-- at its `await`: other tasks may run between the two halves.
pub mod Sequence
use mev_bot.Base.{ℕ, ◌+◌, Option, none, some, [], if◌then◌else◌}
use mev_bot.Base.Text.{Text, lower}
use mev_bot.Base.Dict.{Dict, get, put}
use mev_bot.Base.Result.{Result, ok, raise}
use mev_bot.Base.Float.{FloatModel, fmax}

pub record NonceManager (F : FloatModel) : Type 0 where
  pub ttl_s : F.Float
  pub nonce : Dict ℕ
  pub ts : Dict F.Float

-- Where a call of `next_nonce` stands at its `await`: done with a cached nonce, or fetching.
pub data Begun : Type 0 where
  cached : ℕ → Begun
  fetching : Begun

module _ (F : FloatModel) where
  open F use {Float, at_most, sub, lit}

  -- `__init__`
  unfoldable pub new_manager : Float → NonceManager F
  unfolding fmax
  new_manager ttl_s = record { ttl_s = fmax F (lit 0 0) ttl_s; nonce = []; ts = [] }

  -- `self._ts.get(a, 0.0)`
  abbrev pub ts_or_zero : Option Float → Float
  ts_or_zero none = lit 0 0
  ts_or_zero (some t) = t

  -- The two assignments at the end of both paths.
  unfoldable pub store : Text → ℕ → Float → NonceManager F → NonceManager F
  unfolding put
  store a n now m = record m { nonce = put a (n + 1) m.nonce; ts = put a now m.ts }

  -- `next_nonce` up to the `await`, for an address in lower case.
  unfoldable pub begin : Text → Float → NonceManager F → Begun × NonceManager F
  unfolding get store
  begin a now m = elim (get a m.nonce) [
    | none ↦ (fetching, m)
    | some n ↦
        if at_most (sub now (ts_or_zero (get a m.ts))) m.ttl_s
        then (cached n, store a n now m)
        else (fetching, m)
  ]

  module _ {E : Type 0} where
    -- The rest of `next_nonce`: what the fetch returned is stored and handed out.
    unfoldable pub finish : Text → Float → Result E ℕ → NonceManager F → Result E ℕ × NonceManager F
    unfolding store
    finish a now (ok n) m = (ok n, store a n now m)
    finish a now (raise e) m = (raise e, m)

    abbrev pub resume :
        Text → Float → Result E ℕ → Begun × NonceManager F → Result E ℕ × NonceManager F
    resume a now fetched (cached n, m) = (ok n, m)
    resume a now fetched (fetching, m) = finish a now fetched m

    -- `next_nonce`, when no other task runs at the `await`. `fetched` is what `fetch_nonce` answers
    -- if it is asked.
    unfoldable pub next_nonce :
        Text → Float → Result E ℕ → NonceManager F → Result E ℕ × NonceManager F
    next_nonce address now fetched m =
        resume (lower address) now fetched (begin (lower address) now m)

  unfoldable pub observe_nonce_error : Text → NonceManager F → NonceManager F
  unfolding put
  observe_nonce_error address m = record m { ts = put (lower address) (lit 0 0) m.ts }
