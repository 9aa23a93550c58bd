-- ===== src/Engine/Caller/Attempts.antt =====
-- How often `RpcCaller.call` calls the network, and what decides its result.
use mev_bot.Base.{
  ℕ, zero, suc, ◌+◌, ◌≤◌, ◌<◌, ◌≡◌, ◌∙◌, ap, true, false, [], arith, length, length-push_bounded_le,
  inl, inr, Bool-cases, ◌⊎◌,
}
use mev_bot.Base.Result.{Result, ok, raise, Result-cases}
use mev_bot.Base.Float.{FloatModel, at_most_fmax_left}
use mev_bot.Engine.Breaker.{Breaker, is_open, record_outcome, min_nat}
use mev_bot.Engine.Breaker.Opening.{
  few_do_not_trip, events-record_outcome, window_size-record_outcome,
}
use mev_bot.Engine.Caller.{
  RpcCaller, Failure, Attempt, Done, circuit_open, call_from, call, sleep_for_attempt,
}

module _ (F : FloatModel) where
  open F use {Float, at_most, lit}

  -- No sleep is shorter than a hundredth of a second, whatever the jitter draws.
  pub sleep_for_attempt_least :
      (c : RpcCaller F) (uniform : Float → Float → Float) (k : ℕ)
      → at_most (lit 1 2) (sleep_for_attempt F c uniform k) ≡ true
  unfolding sleep_for_attempt
  sleep_for_attempt_least c uniform k = at_most_fmax_left F (lit 1 2) _

  module _ {V : Type 0} (c : RpcCaller F) (env : ℕ → Attempt F V) where
    -- A run of the loop makes between one call and one more than the retries left, with a sleep
    -- between each two.
    pub record Bounded (left : ℕ) (d : Done F V) : Type 0 where
      pub at_least_one : 1 ≤ d.calls
      pub at_most_left : d.calls ≤ suc left
      pub slept : suc (length d.sleeps) ≡ d.calls

    call_from-Bounded : (left k : ℕ) (b : Breaker F) → Bounded left (call_from F c env left k b)
    unfolding call_from
    call_from-Bounded zero k b = ground arith
    call_from-Bounded (suc left) k b =
        ground
          (arith, call_from-Bounded left (suc k) (record_outcome F false (env k).recorded_at b))

    -- Whatever the network answers, and whether or not the breaker lets the call through, `fn` is
    -- called at most once more than there are retries, and not at all if the breaker was open; in
    -- that case the breaker is left as it was.
    pub call-Bounded :
        (now : Float) (b : Breaker F)
        → ((is_open F now b ≡ false) × Bounded c.retries (call F c env now b))
          ⊎ ((is_open F now b ≡ true)
              × (call F c env now b
                  ≡ record { result = raise circuit_open; breaker = b; calls = 0; sleeps = [] }))
    unfolding call
    call-Bounded now b = elim (Bool-cases (is_open F now b)) [
      | inl e ↦ inr (e, rw (e, call))
      | inr e ↦ inl (e, rw (e, call) (call_from-Bounded c.retries 0 b))
    ]

    abbrev pub Failed : Result Failure V → Type 0
    Failed (ok v) = ⊥
    Failed (raise e) = Unit

    -- From the k-th attempt on, `j` attempts fail and the next returns the value.
    abbrev pub Answers : ℕ → ℕ → V → Type 0
    Answers k zero v = (env k).outcome ≡ ok v
    Answers k (suc j) v = Failed (env k).outcome × Answers (suc k) j v

    abbrev failing : ℕ → Breaker F → Breaker F
    failing k b = record_outcome F false (env k).recorded_at b

    -- The call made `j` failing attempts and one that returned the value.
    abbrev pub Returned : ℕ → ℕ → V → Done F V → ℕ → Type 0
    Returned left k v d j = (j ≤ left) × (d.calls ≡ suc j) × Answers k j v

    call_from-Returned :
        (left k : ℕ) (b : Breaker F) (v : V)
        → (call_from F c env left k b).result ≡ ok v
        → (j : ℕ) × Returned left k v (call_from F c env left k b) j
    unfolding call_from
    call_from-Returned zero k b v h = elim (Result-cases ((env k).outcome)) [
      | inl (w, e) ↦ (0, (omega arith, rw (e, call_from), cc (e, rw (e, call_from) at h)))
      | inr (x, e) ↦ cc (rw (e, call_from) at h)
    ]
    call_from-Returned (suc left) k b v h = elim (Result-cases ((env k).outcome)) [
      | inl (w, e) ↦ (0, (omega arith, rw (e, call_from), cc (e, rw (e, call_from) at h)))
      | inr (x, e) ↦ elim (Bool-cases (is_open F (env k).checked_at (failing k b))) [
        | inl o ↦ cc (rw (e, call_from, o) at h)
        | inr o ↦
            let (j, (le, n, ans)) =
              call_from-Returned left (suc k) (failing k b) v (rw (e, call_from, o) at h) in
            (suc j, (omega arith, rw (e, call_from, o) (ap suc n), (rw e tt, ans)))
      ]
    ]

    -- A call that returns a value has made `j` attempts that failed, for a `j` of at most `retries`,
    -- and then the one attempt that returned this value.
    pub call-Returned :
        (now : Float) (b : Breaker F) (v : V)
        → (call F c env now b).result ≡ ok v
        → (j : ℕ) × Returned c.retries 0 v (call F c env now b) j
    unfolding call
    call-Returned now b v h = elim (Bool-cases (is_open F now b)) [
      | inl o ↦ cc (rw (o, call) at h)
      | inr o ↦
          let (j, ret) = call_from-Returned c.retries 0 b v (rw (o, call) at h) in
          (j, rw (o, call) ret)
    ]

    -- The breaker is closed whenever it is asked before a retry.
    abbrev pub StaysClosed : Breaker F → Type 0
    StaysClosed b = (k : ℕ) → is_open F (env k).checked_at b ≡ false

    is_open-failing :
        (t : Float) (k : ℕ) (b : Breaker F)
        → length b.events + 1 < min_nat 10 b.window_size
        → is_open F t (failing k b) ≡ is_open F t b
    unfolding is_open
    is_open-failing t k b h = rw (few_do_not_trip F false (env k).recorded_at b h)

    quiet_after :
        (k : ℕ) (b : Breaker F) (left : ℕ)
        → length b.events + suc left + 1 < min_nat 10 b.window_size
        → length (failing k b).events + left + 1 < min_nat 10 (failing k b).window_size
    quiet_after k b left h =
        rw (events-record_outcome, window_size-record_outcome)
          (omega (arith, h, length-push_bounded_le b.window_size 1 b.events))

    call_from-retries :
        (left k j : ℕ) (b : Breaker F) (v : V)
        → length b.events + left + 1 < min_nat 10 b.window_size
        → StaysClosed b
        → j ≤ left
        → Answers k j v
        → (call_from F c env left k b).result ≡ ok v
    unfolding call_from
    call_from-retries zero k zero b v quiet closed le ans = rw (ans, call_from)
    call_from-retries zero k (suc j) b v quiet closed le ans = absurd (omega arith)
    call_from-retries (suc left) k zero b v quiet closed le ans = rw (ans, call_from)
    call_from-retries (suc left) k (suc j) b v quiet closed le (failed, ans) =
        elim (Result-cases ((env k).outcome)) [
          | inl (w, e) ↦ absurd (rw e at failed)
          | inr (x, e) ↦
              rw
                (
                  e,
                  call_from,
                  is_open-failing (env k).checked_at k b (omega (arith, quiet)),
                  closed k,
                )
                (call_from-retries left (suc k) j (failing k b) v (quiet_after k b left quiet)
                  (λ i. is_open-failing (env i).checked_at k b (omega (arith, quiet)) ∙ closed i)
                  (omega arith) ans)
        ]

    -- With a breaker that is closed at the start and at every check, and whose window, with all the
    -- attempts of this call, stays below ten outcomes and below its width: if some attempt among the
    -- first `retries` + 1 returns a value and those before it fail, the call returns that value.
    pub call-retries :
        (now : Float) (j : ℕ) (b : Breaker F) (v : V)
        → is_open F now b ≡ false
        → StaysClosed b
        → length b.events + c.retries + 1 < min_nat 10 b.window_size
        → j ≤ c.retries
        → Answers 0 j v
        → (call F c env now b).result ≡ ok v
    unfolding call
    call-retries now j b v o closed quiet le ans =
        rw (o, call) (call_from-retries c.retries 0 j b v quiet closed le ans)
