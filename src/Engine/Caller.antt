-- ===== src/Engine/Caller.antt =====
-- `RpcCaller` (bot/exec/engine.py). What the network, the clock and the random generator give to
-- one attempt is a record, and a call runs on a sequence of them. The name of the chain and of the
-- provider serve the metrics only.
pub mod Attempts
use mev_bot.Base.{ℕ, zero, suc, ◌+◌, ◌^◌, Bool, true, false, List, [], ◌∷◌, if◌then◌else◌}
use mev_bot.Base.Int.{ℤ, pos, pos_part}
use mev_bot.Base.Text.{Text}
use mev_bot.Base.Result.{Result, ok, raise}
use mev_bot.Base.Float.{FloatModel, fmax, fmin}
use mev_bot.Engine.Breaker.{Breaker, is_open, record_outcome}

pub record RpcCaller (F : FloatModel) : Type 0 where
  pub timeout_s : F.Float
  pub retries : ℕ
  pub backoff_base_s : F.Float
  pub backoff_max_s : F.Float
  pub backoff_jitter : F.Float

-- How the awaited call of one attempt fails.
pub data Failure : Type 0 where
  timed_out : Failure
  failed : Text → Failure

-- The two RuntimeErrors of `call`.
pub data CallError : Type 0 where
  circuit_open : CallError
  call_failed : Failure → CallError

pub record Attempt (F : FloatModel) (V : Type 0) : Type 0 where
  -- what `asyncio.wait_for(fn(…), timeout)` does
  pub outcome : Result Failure V
  -- the clock when the breaker records it, and when the breaker is asked before a retry
  pub recorded_at : F.Float
  pub checked_at : F.Float
  -- `random.uniform`
  pub uniform : F.Float → F.Float → F.Float

-- The result of a call, the breaker after it, how often `fn` was called, and the sleeps between.
pub record Done (F : FloatModel) (V : Type 0) : Type 0 where
  pub result : Result CallError V
  pub breaker : Breaker F
  pub calls : ℕ
  pub sleeps : List F.Float

module _ (F : FloatModel) where
  open F use {Float, add, mul, of_ℤ, lit, neg}

  -- `__init__`
  unfoldable pub new_caller : Float → ℤ → Float → Float → Float → RpcCaller F
  unfolding fmax
  new_caller timeout_s retries backoff_base_s backoff_max_s backoff_jitter =
      let base : Float = fmax F (lit 1 2) backoff_base_s in
      record {
        timeout_s = fmax F (lit 1 1) timeout_s;
        retries = pos_part retries;
        backoff_base_s = base;
        backoff_max_s = fmax F base backoff_max_s;
        backoff_jitter = fmax F (lit 0 0) backoff_jitter;
      }

  unfoldable pub sleep_for_attempt : RpcCaller F → (Float → Float → Float) → ℕ → Float
  unfolding fmax fmin
  sleep_for_attempt c uniform attempt =
      let base : Float = fmin F c.backoff_max_s (mul c.backoff_base_s (of_ℤ (pos (2 ^ attempt)))) in
      let j : Float = mul base c.backoff_jitter in fmax F (lit 1 2) (add base (uniform (neg j) j))

  module _ {V : Type 0} where
    abbrev pub retried : Float → Done F V → Done F V
    retried pause d = record d { calls = suc d.calls; sleeps = pause ∷ d.sleeps }

    abbrev pub finished : Result CallError V → Breaker F → Done F V
    finished r b = record { result = r; breaker = b; calls = 1; sleeps = [] }

    -- The `for` loop from an attempt on, with the number of retries that are left after it.
    unfoldable pub call_from : RpcCaller F → (ℕ → Attempt F V) → ℕ → ℕ → Breaker F → Done F V
    unfolding record_outcome is_open sleep_for_attempt
    call_from c env zero k b = elim ((env k).outcome) [
      | ok v ↦ finished (ok v) (record_outcome F true (env k).recorded_at b)
      | raise e ↦ finished (raise (call_failed e)) (record_outcome F false (env k).recorded_at b)
    ]
    call_from c env (suc left) k b =
        let failing = record_outcome F false (env k).recorded_at b in
        let rest = call_from c env left (suc k) failing in
        elim ((env k).outcome) [
          | ok v ↦ finished (ok v) (record_outcome F true (env k).recorded_at b)
          | raise e ↦
              if is_open F (env k).checked_at failing
              then finished (raise (call_failed e)) failing
              else retried (sleep_for_attempt c (env k).uniform k) rest
        ]

    unfoldable pub call : RpcCaller F → (ℕ → Attempt F V) → Float → Breaker F → Done F V
    unfolding call_from is_open
    call c env now b =
        if is_open F now b
        then record { result = raise circuit_open; breaker = b; calls = 0; sleeps = [] }
        else call_from c env c.retries 0 b
