-- ===== src/Invariants/Tests.antt =====
-- The health checks at concrete samples.
use mev_bot.Base.{arith, ◌≡◌, refl, false, none, some, List, [], ◌∷◌}
use mev_bot.Base.Int.{pos}
use mev_bot.Base.Text.{codes, text_eq, upper}
use mev_bot.Base.Float.Ints.{fin, int_floats}
use mev_bot.Base.Result.{ok}
use mev_bot.Gates.{OperatorState}
use mev_bot.State.{ready}
use mev_bot.Invariants.{
  RuntimeInvariants, evaluate, evaluate_trimmed, evaluate_rates, trim, rpc_p99_ms, tx_failure_rate,
  p99_of, failure_rate_of, values_since, window_start,
}
use mev_bot.Invariants.Logs.{
  Observation, rpc_latency, tx_result, observe_all, note_all, no_logs, observe_all_complete,
}

abbrev fresh : RuntimeInvariants int_floats
fresh = record {
  rpc_p99_ms_threshold = fin (pos 1500);
  rpc_window_min = pos 5;
  drawdown_threshold = fin (pos 20);
  tx_fail_rate_threshold = fin (pos 50);
  tx_fail_window_min = pos 5;
  rpc_samples = [];
  tx_samples = [];
}

abbrev observations : List (Observation int_floats)
observations =
    rpc_latency (fin (pos 80)) (fin (pos 0))
    ∷ tx_result false (fin (pos 10))
    ∷ rpc_latency (fin (pos 90)) (fin (pos 2000))
    ∷ []

observe_all_complete_example :
    (rpc_p99_ms int_floats (fin (pos 2000)) (observe_all int_floats observations fresh)
      ≡ p99_of int_floats (
          values_since int_floats
            (window_start int_floats (pos 5) (fin (pos 2000)))
            (note_all int_floats observations (no_logs int_floats)).rpc))
    × (tx_failure_rate int_floats (fin (pos 2000)) (observe_all int_floats observations fresh)
        ≡ failure_rate_of int_floats (
            values_since int_floats
              (window_start int_floats (pos 5) (fin (pos 2000)))
              (note_all int_floats observations (no_logs int_floats)).tx))
observe_all_complete_example =
    observe_all_complete int_floats (fin (pos 0)) observations fresh (refl, refl)
      (refl, (refl, (refl, tt))) (omega arith)

abbrev operator : OperatorState
operator = record { kill_switch = some false; state = some (codes "trading"); mode = none }

abbrev busy : RuntimeInvariants int_floats
busy = record fresh { rpc_samples = (fin (pos 990), fin (pos 80)) ∷ [] }

healthy :
    (evaluate int_floats operator none none (fin (pos 1000)) fresh).0 ≡ ok (ready, codes "healthy")
unfolding evaluate evaluate_trimmed evaluate_rates rpc_p99_ms tx_failure_rate trim text_eq upper
    values_since p99_of failure_rate_of
healthy = refl
