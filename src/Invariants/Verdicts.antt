-- ===== src/Invariants/Verdicts.antt =====
-- The percentile of the latencies and the verdicts of `evaluate` (bot/core/invariants.py).
use mev_bot.Base.{
  ℕ, zero, suc, ◌≤◌, ◌<◌, ◌≡◌, refl, ap, ◌↔◌, Bool, true, false, not, List, [], ◌∷◌, length, arith,
  Option, none, some, get_elem?, Bool-cases, inl, inr, if◌then◌else◌,
}
use mev_bot.Base.Int.{ℤ, pos, negsuc, max_ℤ, min_ℤ, pos_part, ◌-ℤ◌}
use mev_bot.Base.Text.{Text, codes, text_eq, upper}
use mev_bot.Base.Float.{FloatModel, below}
use mev_bot.Base.Sort.{sort, length-sort}
use mev_bot.Base.Result.{Result, ok, raise}
use mev_bot.Gates.{OperatorState, bool_or_false, operator_gate, passed}
use mev_bot.State.{BotState, ready}
use mev_bot.Invariants.{
  RuntimeInvariants, IndexError, values_since, trim, p99_of, p99_index, rpc_p99_ms, subscript,
  tx_failure_rate, evaluate, evaluate_trimmed, evaluate_rates, exceeds, window_start,
  state_or_trading, drawdown_or_env,
}

get_elem?_below :
    {A : Type 0} (xs : List A) (i : ℕ) → i < length xs → (x : A) × (get_elem? xs i ≡ some x)
get_elem?_below [] i h = absurd (omega arith)
get_elem?_below (x ∷ xs) zero h = (x, refl)
get_elem?_below (x ∷ xs) (suc i) h = get_elem?_below xs i (omega (arith, h))

-- `max(0, min(last, i))` is an index up to `last`.
clamped : (n : ℕ) (last i : ℤ) → last ≡ pos n → pos_part (max_ℤ (pos 0) (min_ℤ last i)) ≤ n
clamped n last (pos i) e = rw e ground arith
clamped n last (negsuc i) e = rw e ground arith

last_index : (n : ℕ) → pos (suc n) -ℤ pos 1 ≡ pos n
unfolding ◌-ℤ◌
last_index n = ground arith

module _ (F : FloatModel) where
  open F use {Float, at_most, sub, mul, of_ℤ, lit, round}

  p99_index-Bounded : (n : ℕ) → pos_part (p99_index F (suc n)) < suc n
  p99_index-Bounded n =
      let i = clamped n _ (round (mul (lit 99 2) (of_ℤ (pos (suc n) -ℤ pos 1)))) (last_index n) in
      omega (arith, i)

  -- The percentile of a window with samples is a sample's value; the subscript is in range.
  p99_of_total : (v : Float) (vs : List Float) → (x : Float) × (p99_of F (v ∷ vs) ≡ ok (some x))
  unfolding p99_of
  p99_of_total v vs =
      let vals = sort at_most (v ∷ vs) in
      let size = length-sort at_most (v ∷ vs) in
      let inside : pos_part (p99_index F (length vals)) < length vals =
        rw size (p99_index-Bounded (length vs)) in
      let (x, e) = get_elem?_below vals _ inside in (x, ap (subscript F) e)

  abbrev IsOk : {A : Type 0} → Result IndexError A → Type 0
  IsOk {A} r = (v : A) × (r ≡ ok v)

  if_IsOk :
      {A : Type 0} (b : Bool) (x y : Result IndexError A)
      → IsOk x
      → IsOk y
      → IsOk (if b then x else y)
  if_IsOk true x y i j = i
  if_IsOk false x y i j = j

  p99_of-IsOk : (vals : List Float) → IsOk (p99_of F vals)
  unfolding p99_of
  p99_of-IsOk [] = (none, refl)
  p99_of-IsOk (v ∷ vs) = (some (p99_of_total v vs).0, (p99_of_total v vs).1)

  evaluate_rates-IsOk :
      (r : Result IndexError (Option Float)) (t : Float) (s : RuntimeInvariants F)
      → IsOk r
      → IsOk (evaluate_rates F r t s)
  unfolding evaluate_rates
  evaluate_rates-IsOk (raise e) t s i = cc
  evaluate_rates-IsOk (ok p) t s i =
      if_IsOk (exceeds F s.rpc_p99_ms_threshold p) _ _ (_, refl)
        (if_IsOk (exceeds F s.tx_fail_rate_threshold (tx_failure_rate F t s)) _ _ (_, refl)
          (_, refl))

  -- The health check always gives a verdict: the subscript into the sorted latencies is in range,
  -- whatever the samples and whatever the rounding of the index.
  pub evaluate_total :
      (op : OperatorState) (drawdown env : Option Float) (t : Float) (s : RuntimeInvariants F)
      → (v : BotState × Text) × ((evaluate F op drawdown env t s).0 ≡ ok v)
  unfolding evaluate evaluate_trimmed rpc_p99_ms
  evaluate_total op drawdown env t s =
      let s' = trim F t s in
      let p99 = p99_of-IsOk (values_since F (window_start F s.rpc_window_min t) s'.rpc_samples) in
      if_IsOk (bool_or_false op.kill_switch) _ _ (_, refl)
        (if_IsOk (not (text_eq (upper (state_or_trading op.state)) (codes "TRADING"))) _ _ (_, refl)
          (if_IsOk (below F s.drawdown_threshold (drawdown_or_env F drawdown env)) _ _ (_, refl)
            (evaluate_rates-IsOk _ t s' p99)))

  -- What the verdict of health says.
  pub record IsHealthy (op : OperatorState) (dd t : Float) (s : RuntimeInvariants F) : Type 0 where
    pub not_killed : bool_or_false op.kill_switch ≡ false
    pub trades : text_eq (upper (state_or_trading op.state)) (codes "TRADING") ≡ true
    pub drawdown : at_most dd s.drawdown_threshold ≡ true
    pub p99 : Option Float
    pub p99_value : rpc_p99_ms F t s ≡ ok p99
    pub latency : exceeds F s.rpc_p99_ms_threshold p99 ≡ false
    pub failures : exceeds F s.tx_fail_rate_threshold (tx_failure_rate F t s) ≡ false

  evaluate_rates-ready :
      (r : Result IndexError (Option Float)) (t : Float) (s : RuntimeInvariants F)
      → evaluate_rates F r t s ≡ ok (ready, codes "healthy")
      → (p : Option Float) × (r ≡ ok p)
        × (exceeds F s.rpc_p99_ms_threshold p ≡ false)
        × (exceeds F s.tx_fail_rate_threshold (tx_failure_rate F t s) ≡ false)
  unfolding evaluate_rates
  evaluate_rates-ready (raise e) t s h = cc
  evaluate_rates-ready (ok p) t s h = elim (Bool-cases (exceeds F s.rpc_p99_ms_threshold p)) [
    | inl e ↦ cc (rw e at h)
    | inr e ↦ elim (Bool-cases (exceeds F s.tx_fail_rate_threshold (tx_failure_rate F t s))) [
      | inl f ↦ cc (rw (e, f) at h)
      | inr f ↦ (p, refl, e, f)
    ]
  ]

  evaluate_trimmed-IsHealthy :
      (op : OperatorState) (dd t : Float) (s : RuntimeInvariants F)
      → evaluate_trimmed F op dd t s ≡ ok (ready, codes "healthy")
      → IsHealthy op dd t s
  unfolding evaluate_trimmed
  evaluate_trimmed-IsHealthy op dd t s h = elim (Bool-cases (bool_or_false op.kill_switch)) [
    | inl e ↦ cc (rw e at h)
    | inr e ↦ elim (Bool-cases (text_eq (upper (state_or_trading op.state)) (codes "TRADING"))) [
      | inr f ↦ cc (rw (e, f) at h)
      | inl f ↦ elim (Bool-cases (at_most dd s.drawdown_threshold)) [
        | inr g ↦ cc (rw (e, f, g) at h)
        | inl g ↦
            let (p, v, l, r) = evaluate_rates-ready (rpc_p99_ms F t s) t s (rw (e, f, g) at h) in
            record {
              not_killed = e;
              trades = f;
              drawdown = g;
              p99 = p;
              p99_value = v;
              latency = l;
              failures = r;
            }
      ]
    ]
  ]

  IsHealthy-evaluate_trimmed :
      (op : OperatorState) (dd t : Float) (s : RuntimeInvariants F)
      → IsHealthy op dd t s
      → evaluate_trimmed F op dd t s ≡ ok (ready, codes "healthy")
  unfolding evaluate_trimmed evaluate_rates
  IsHealthy-evaluate_trimmed op dd t s i =
      rw (i.not_killed, i.trades, i.drawdown, i.p99_value, i.latency, i.failures) refl

  -- The verdict is "healthy" exactly when the operator has not set the kill switch and is trading, the
  -- drawdown is within its threshold, and neither the latency percentile nor the failure rate of the
  -- windows exceeds its own.
  pub evaluate-IsHealthy_iff :
      (op : OperatorState) (drawdown env : Option Float) (t : Float) (s : RuntimeInvariants F)
      → ((evaluate F op drawdown env t s).0 ≡ ok (ready, codes "healthy"))
        ↔ IsHealthy op (drawdown_or_env F drawdown env) t (trim F t s)
  unfolding evaluate
  evaluate-IsHealthy_iff op drawdown env t s = (
    evaluate_trimmed-IsHealthy op _ t (trim F t s),
    IsHealthy-evaluate_trimmed op _ t (trim F t s),
  )

  -- A verdict of health means that the operator's gate in front of the strategies passes as well,
  -- provided that the operator state has a `state`.
  pub evaluate-operator_gate :
      (op : OperatorState) (st : Text) (drawdown env : Option Float) (t : Float)
      (s : RuntimeInvariants F)
      → op.state ≡ some st
      → (evaluate F op drawdown env t s).0 ≡ ok (ready, codes "healthy")
      → operator_gate op ≡ passed
  unfolding evaluate operator_gate
  evaluate-operator_gate op st drawdown env t s e h =
      let i = evaluate_trimmed-IsHealthy op _ t (trim F t s) h in
      let trading : text_eq (upper st) (codes "TRADING") ≡ true = rw e at i.trades in
      rw (i.not_killed, e, trading) refl
