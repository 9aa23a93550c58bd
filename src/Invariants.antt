-- ===== src/Invariants.antt =====
-- The runtime's health checks (bot/core/invariants.py). The thresholds are given, as is the drawdown
-- that the environment holds: `none` where it is not a number.
pub mod Windows
pub mod Logs
pub mod Verdicts
mod Tests
use mev_bot.Base.{
  ℕ, suc, Bool, true, false, not, Option, none, some, List, [], ◌∷◌, map, length, get_elem?,
  push_bounded, if◌then◌else◌,
}
use mev_bot.Base.Int.{ℤ, pos, ◌-ℤ◌, ◌*ℤ◌, max_ℤ, min_ℤ, pos_part}
use mev_bot.Base.Text.{Text, codes, text_eq, upper}
use mev_bot.Base.Float.{FloatModel, fmax, below}
use mev_bot.Base.Sort.{sort}
use mev_bot.Base.Result.{Result, ok, raise}
use mev_bot.Gates.{OperatorState, bool_or_false}
use mev_bot.State.{BotState, ready, paused, degraded, panic}

-- The IndexError of a subscript out of range.
pub data IndexError : Type 0 where
  index_error : IndexError

abbrev pub state_or_trading : Option Text → Text
state_or_trading none = codes "TRADING"
state_or_trading (some t) = t

abbrev pub deque_maxlen : ℕ
deque_maxlen = 20000

pub record RuntimeInvariants (F : FloatModel) : Type 0 where
  pub rpc_p99_ms_threshold : F.Float
  pub rpc_window_min : ℤ
  pub drawdown_threshold : F.Float
  pub tx_fail_rate_threshold : F.Float
  pub tx_fail_window_min : ℤ
  pub rpc_samples : List (F.Float × F.Float)
  pub tx_samples : List (F.Float × Bool)

module _ (F : FloatModel) where
  open F use {Float, at_most, sub, mul, div, of_ℤ, lit, round}

  -- The left end of a window of a number of minutes.
  abbrev pub window_start : ℤ → Float → Float
  window_start minutes t = sub t (of_ℤ (minutes *ℤ pos 60))

  module _ {A : Type 0} where
    -- `[v for ts, v in samples if ts >= cutoff]`
    unfoldable pub values_since : Float → List (Float × A) → List A
    values_since cutoff [] = []
    values_since cutoff ((ts, v) ∷ samples) =
        let vals = values_since cutoff samples in if at_most cutoff ts then v ∷ vals else vals

    -- `while samples and samples[0][0] < cutoff: samples.popleft()`
    unfoldable pub drop_before : Float → List (Float × A) → List (Float × A)
    drop_before cutoff [] = []
    drop_before cutoff ((ts, v) ∷ samples) =
        if below F ts cutoff then drop_before cutoff samples else (ts, v) ∷ samples

  abbrev pub max_window : RuntimeInvariants F → ℤ
  max_window s = max_ℤ (max_ℤ s.rpc_window_min s.tx_fail_window_min) (pos 10)

  unfoldable pub trim : Float → RuntimeInvariants F → RuntimeInvariants F
  unfolding drop_before
  trim now s =
      let cutoff = window_start (max_window s) now in
      record s {
        rpc_samples = drop_before cutoff s.rpc_samples;
        tx_samples = drop_before cutoff s.tx_samples;
      }

  unfoldable pub observe_rpc_latency_ms : Float → Float → RuntimeInvariants F → RuntimeInvariants F
  unfolding fmax trim
  observe_rpc_latency_ms latency_ms t s = trim t (record s {
    rpc_samples = push_bounded deque_maxlen (t, fmax F (lit 0 1) latency_ms) s.rpc_samples;
  })

  unfoldable pub observe_tx_result : Bool → Float → RuntimeInvariants F → RuntimeInvariants F
  unfolding trim
  observe_tx_result success t s =
      trim t (record s { tx_samples = push_bounded deque_maxlen (t, success) s.tx_samples })

  -- The index of the 99th percentile among n sorted values.
  abbrev pub p99_index : ℕ → ℤ
  p99_index n =
      let last = pos n -ℤ pos 1 in max_ℤ (pos 0) (min_ℤ last (round (mul (lit 99 2) (of_ℤ last))))

  abbrev pub subscript : Option Float → Result IndexError (Option Float)
  subscript none = raise index_error
  subscript (some v) = ok (some v)

  unfoldable pub p99_of : List Float → Result IndexError (Option Float)
  unfolding sort
  p99_of [] = ok none
  p99_of (v ∷ vs) =
      let vals = sort at_most (v ∷ vs) in
      subscript (get_elem? vals (pos_part (p99_index (length vals))))

  unfoldable pub rpc_p99_ms : Float → RuntimeInvariants F → Result IndexError (Option Float)
  unfolding values_since p99_of
  rpc_p99_ms t s = p99_of (values_since (window_start s.rpc_window_min t) s.rpc_samples)

  -- `sum(1 for ok in vals if not ok)`
  unfoldable pub count_fails : List Bool → ℕ
  count_fails [] = 0
  count_fails (success ∷ vals) = let n = count_fails vals in if not success then suc n else n

  unfoldable pub failure_rate_of : List Bool → Option Float
  unfolding count_fails
  failure_rate_of [] = none
  failure_rate_of (v ∷ vs) =
      some (div (of_ℤ (pos (count_fails (v ∷ vs)))) (of_ℤ (pos (length (v ∷ vs)))))

  unfoldable pub tx_failure_rate : Float → RuntimeInvariants F → Option Float
  unfolding values_since failure_rate_of
  tx_failure_rate t s =
      failure_rate_of (values_since (window_start s.tx_fail_window_min t) s.tx_samples)

  unfoldable pub errors_last_10m : Float → RuntimeInvariants F → ℕ
  unfolding values_since count_fails
  errors_last_10m t s = count_fails (values_since (sub t (lit 600 0)) s.tx_samples)

  -- `x is not None and x > threshold`
  abbrev pub exceeds : Float → Option Float → Bool
  exceeds threshold none = false
  exceeds threshold (some x) = below F threshold x

  abbrev pub drawdown_or_env : Option Float → Option Float → Float
  drawdown_or_env (some dd) env = dd
  drawdown_or_env none (some dd) = dd
  drawdown_or_env none none = lit 0 1

  -- `evaluate` below the operator's and the drawdown checks, on what `rpc_p99_ms` returned.
  unfoldable pub evaluate_rates :
      Result IndexError (Option Float)
      → Float
      → RuntimeInvariants F
      → Result IndexError (BotState × Text)
  unfolding tx_failure_rate
  evaluate_rates (raise e) t s = raise e
  evaluate_rates (ok rpc_p99) t s =
      if exceeds s.rpc_p99_ms_threshold rpc_p99
      then ok (degraded, codes "rpc_p99_high")
      else if exceeds s.tx_fail_rate_threshold (tx_failure_rate t s)
      then ok (degraded, codes "tx_failure_rate_high")
      else ok (ready, codes "healthy")

  -- `evaluate` below the trimming of the deques.
  unfoldable pub evaluate_trimmed :
      OperatorState → Float → Float → RuntimeInvariants F → Result IndexError (BotState × Text)
  unfolding rpc_p99_ms evaluate_rates text_eq upper
  evaluate_trimmed op dd t s =
      if bool_or_false op.kill_switch
      then ok (panic, codes "operator_kill_switch")
      else if not (text_eq (upper (state_or_trading op.state)) (codes "TRADING"))
      then ok (paused, codes "operator_not_trading")
      else if below F s.drawdown_threshold dd
      then ok (panic, codes "drawdown_limit")
      else evaluate_rates (rpc_p99_ms t s) t s

  unfoldable pub evaluate :
      OperatorState
      → Option Float
      → Option Float
      → Float
      → RuntimeInvariants F
      → Result IndexError (BotState × Text) × RuntimeInvariants F
  unfolding trim evaluate_trimmed
  evaluate op drawdown env t s =
      let s' = trim t s in (evaluate_trimmed op (drawdown_or_env drawdown env) t s', s')
