-- ===== src/Engine/Tests.antt =====
-- Runs of the fee policy, the circuit breaker and the caller at concrete inputs, with the
-- fixed-point floats.
mod Caches
use mev_bot.Base.{
  ℕ, zero, suc, ◌≡◌, refl, inl, inr, ◌⊎◌, Bool, true, false, none, some, List, [], ◌∷◌, ◌++◌, ◌<◌,
  arith, All, length,
}
use mev_bot.Base.Int.{pos}
use mev_bot.Base.Text.{Text, codes, lower, text_eq, member}
use mev_bot.Base.Dict.{get, put}
use mev_bot.Base.Result.{Result, ok, raise}
use mev_bot.Base.Float.Ints.{Ext, fin, fixed_floats}
use mev_bot.Base.{last_items, push_bounded, ◌≤◌, ◌+◌}
use mev_bot.Base.Int.{◌-ℤ◌, ◌+ℤ◌, ◌*ℤ◌}
use mev_bot.Base.Float.{fmax, fmin, below}
use mev_bot.Engine.Breaker.{Breaker, new_breaker, is_open, record_outcome, error_ratio, min_nat}
use mev_bot.Engine.Breaker.Opening.{
  IsValid, new_breaker-IsValid, record_outcome-IsValid, record_all, record_all-window, bits_of,
  record_all_quiet, failure_opens,
}
use mev_bot.Engine.Caller.{RpcCaller, new_caller, Attempt, timed_out, circuit_open, call}
use mev_bot.Engine.Caller.Attempts.{
  Bounded, call-Bounded, StaysClosed, call-retries, Returned, call-Returned,
}
use mev_bot.Engine.Nonces.{
  NonceManager, new_manager, next_nonce, observe_nonce_error, finish, begin, resume, store,
}
use mev_bot.Engine.Nonces.Sequence.{
  next_nonce-Advances, Advances, next_nonces, next_nonces_consecutive, counted, Close, Holds,
  next_nonce-observe_nonce_error, next_nonce_race,
}
use mev_bot.Engine.Blockhash.{
  truthy, BlockhashManager, new_blockhashes, get_recent_blockhash, get_recent_blockhash_cached,
  invalidate, get_recent_blockhash-invalidate,
}
use mev_bot.Engine.Reconcile.{ReconcileInput, reconcile_trade, map_revert_reason, revert_buckets}
use mev_bot.Engine.Reconcile.Outcomes.{map_revert_reason-member, IsReport, reconcile_trade-IsReport}
use mev_bot.Engine.Fees.{
  FeePolicy, FeeQuery, choose_fee_gwei, decide_fee, fee_policy_for, profitable,
}
use mev_bot.Engine.Fees.Choice.{
  paying, escalate, FirstPaying, first_fee, choose_fee_gwei-le_cap, choose_fee_gwei_sound,
  choose_fee_gwei_complete, decide_fee-le_cap,
}

abbrev pub dollars : ℕ → Ext
dollars n = fixed_floats.of_ℤ (pos n)

-- The fee doubles at most three times, up to 100 gwei.
abbrev policy : FeePolicy fixed_floats
policy = record {
  max_fee_gwei = dollars 100;
  escalation_factor = dollars 2;
  max_escalations = pos 3;
  profit_safety_margin_usd = dollars 1;
}

-- A swap of 200000 gas, with a native coin of 2000 dollars.
abbrev query : FeeQuery fixed_floats
query = record {
  initial_fee_gwei = dollars 10;
  gas_limit = pos 200000;
  expected_profit_usd = dollars 7;
  native_usd = dollars 2000;
}

query_allowed : (choose_fee_gwei fixed_floats policy query).allowed ≡ true
unfolding choose_fee_gwei ◌+ℤ◌ ◌*ℤ◌
query_allowed = refl

choose_fee_gwei_sound_example :
    (k : ℕ) × (k ≤ 3)
    × (choose_fee_gwei fixed_floats policy query
        ≡ paying fixed_floats policy query (escalate fixed_floats policy query (dollars 10) k) k)
    × FirstPaying fixed_floats policy query (dollars 10) k
unfolding fmax
choose_fee_gwei_sound_example = choose_fee_gwei_sound fixed_floats policy query query_allowed

first_pays : FirstPaying fixed_floats policy query (first_fee fixed_floats policy query) 0
unfolding profitable fmax ◌+ℤ◌ ◌*ℤ◌
first_pays = (tt, refl, refl)

-- A window of twenty, half of which must fail, and an opening of thirty seconds.
abbrev breaker : Breaker fixed_floats
breaker = new_breaker fixed_floats (pos 20) (fixed_floats.lit 5 1) (dollars 30)

breaker-IsValid : IsValid fixed_floats breaker
breaker-IsValid = new_breaker-IsValid fixed_floats (pos 20) (fixed_floats.lit 5 1) (dollars 30)

abbrev outcomes : List (Bool × Ext)
outcomes = (false, dollars 1) ∷ (true, dollars 2) ∷ (false, dollars 3) ∷ []

record_all-window_example :
    (record_all fixed_floats outcomes breaker).events
    ≡ last_items breaker.window_size (breaker.events ++ bits_of fixed_floats outcomes)
record_all-window_example = record_all-window fixed_floats outcomes breaker breaker-IsValid

few_outcomes : length breaker.events + length outcomes < min_nat 10 breaker.window_size
unfolding new_breaker
few_outcomes = omega arith

-- Nine failures stand in the window.
abbrev failing_breaker : Breaker fixed_floats
failing_breaker = record breaker { events = 1 ∷ 1 ∷ 1 ∷ 1 ∷ 1 ∷ 1 ∷ 1 ∷ 1 ∷ 1 ∷ [] }

reached :
    fixed_floats.at_most failing_breaker.error_ratio_threshold
      (error_ratio fixed_floats (push_bounded failing_breaker.window_size 1 failing_breaker.events))
    ≡ true
unfolding ◌+ℤ◌ ◌*ℤ◌ error_ratio new_breaker fmax fmin
reached = refl

filled :
    min_nat 10 failing_breaker.window_size
    ≤ length (push_bounded failing_breaker.window_size 1 failing_breaker.events)
unfolding new_breaker
filled = omega arith

abbrev caller : RpcCaller fixed_floats
caller = new_caller fixed_floats (dollars 3) (pos 2) (dollars 1) (dollars 8) (dollars 0)

-- The first attempt times out; every further one returns 7.
abbrev network : ℕ → Attempt fixed_floats ℕ
network zero = record {
  outcome = raise timed_out;
  recorded_at = dollars 1;
  checked_at = dollars 2;
  uniform = λ a b. a;
}
network (suc k) = record {
  outcome = ok 7;
  recorded_at = dollars 3;
  checked_at = dollars 4;
  uniform = λ a b. a;
}

closed_at_start : is_open fixed_floats (dollars 1) breaker ≡ false
unfolding is_open new_breaker
closed_at_start = refl

stays_closed : StaysClosed fixed_floats caller network breaker
unfolding is_open new_breaker
stays_closed zero = refl
stays_closed (suc k) = refl

quiet : length breaker.events + caller.retries + 1 < min_nat 10 breaker.window_size
unfolding new_breaker new_caller
quiet = omega arith

one_retry : 1 ≤ caller.retries
unfolding new_caller
one_retry = omega arith

call-retries_example : (call fixed_floats caller network (dollars 1) breaker).result ≡ ok 7
call-retries_example =
    call-retries fixed_floats caller network (dollars 1) 1 breaker 7 closed_at_start stays_closed
      quiet one_retry (tt, refl)
