-- ===== src/Orderflow/Tests.antt =====
-- A live call whose first relay times out twice before the second one sends.
use mev_bot.Base.{◌≡◌, refl, ℕ, zero, suc, ◌≤◌, true, false, none, some, [], ◌∷◌, arith}
use mev_bot.Base.Text.{codes, text_eq, member, norm, upper, lower, strip, contains}
use mev_bot.Base.Parse.{split_commas}
use mev_bot.Base.Int.{pos, ◌+ℤ◌}
use mev_bot.Base.Dict.{get, put}
use mev_bot.Base.Result.{ok, raise}
use mev_bot.Base.Float.Ints.{Ext, fin, int_floats}
use mev_bot.State.{parse_bot_state, by_value, get_runtime_state, set_runtime_state}
use mev_bot.Invariants.{
  evaluate, evaluate_trimmed, evaluate_rates, rpc_p99_ms, tx_failure_rate, trim, drawdown_or_env,
  observe_rpc_latency_ms, observe_tx_result, drop_before, values_since, p99_of, failure_rate_of,
}
use mev_bot.Invariants.Verdicts.{IsHealthy}
use mev_bot.Control.{ControlState, default_state}
use mev_bot.Control.Reading.{gate_state}
use mev_bot.ExecGuard.{truthy, runtime_state, guard_states, should_block_execution}
use mev_bot.Relays.{
  Circuit, failed, compute_route_sequence, execution_mode, virtual_result, is_retryable,
  classify_reason,
}
use mev_bot.Orderflow.{
  Attempt, Router, Call, operator_gate, past_gate, past_state, gate_verdict, change_state,
  route_guarded, state_gate, send_or_virtual, submit_all, try_relay, conclude, observe,
  record_relay, record_circuit, route_and_submit,
}
use mev_bot.Orderflow.Gated.{IsCleared, route_and_submit_live}
use mev_bot.Orderflow.Attempts.{route_and_submit-attempts}

abbrev live : ControlState Ext
live = record (default_state {V = Ext}) { mode = codes "live" }

abbrev closed : Circuit int_floats
closed = record {
  fail_threshold = pos 5;
  cooldown_s = fin (pos 30);
  fail_count = pos 0;
  opens_at = fin (pos 0);
}

abbrev idle : Router int_floats
idle = record {
  order = codes "mev_blocker" ∷ codes "flashbots_protect" ∷ [];
  max_retries = 1;
  circuits = (codes "mev_blocker", closed) ∷ (codes "flashbots_protect", closed) ∷ [];
  environ =
      (codes "FEATURE_EXEC_GUARD", codes "1")
      ∷ (codes "FEATURE_EXEC_ENABLE", codes "yes")
      ∷ (codes "FEATURE_EXEC_ALLOWED_STATES", codes "ready, trading")
      ∷ (codes "BOT_RUNTIME_STATE", codes "paused")
      ∷ [];
  invariants = record {
    rpc_p99_ms_threshold = fin (pos 1500);
    rpc_window_min = pos 5;
    drawdown_threshold = fin (pos 20);
    tx_fail_rate_threshold = fin (pos 50);
    tx_fail_window_min = pos 5;
    rpc_samples = [];
    tx_samples = [];
  };
  attempts = 0;
}

abbrev answers : ℕ → Attempt int_floats
answers zero = record {
  answer = raise (codes "timeout");
  elapsed = fin (pos 40);
  ended_at = fin (pos 1001);
}
answers (suc zero) = record {
  answer = ok (failed (codes "mev_blocker") (codes "timeout"));
  elapsed = fin (pos 40);
  ended_at = fin (pos 1002);
}
answers (suc (suc n)) = record {
  answer = ok (record {
    ok = true;
    tx_hash = some (codes "0x1");
    relay = codes "flashbots_protect";
    error = none;
  });
  elapsed = fin (pos 40);
  ended_at = fin (pos 1003);
}

abbrev call : Call int_floats Ext
call = record {
  operator = live;
  drawdown = none;
  gated_at = fin (pos 1000);
  ts = codes "1000";
  rules = record {
    prefer_flashbots = false;
    prefer_cow = false;
    avoid = [];
    offchain_solver = false;
  };
  answer = answers;
  clock = λ i. fin (pos 1000);
}

three_attempts : (route_and_submit int_floats call idle).1.attempts ≡ 3
unfolding route_and_submit operator_gate evaluate evaluate_trimmed evaluate_rates rpc_p99_ms
    tx_failure_rate trim drop_before values_since p99_of failure_rate_of text_eq upper past_gate
    gate_verdict change_state get_runtime_state set_runtime_state parse_bot_state by_value
    past_state route_guarded state_gate should_block_execution truthy runtime_state guard_states
    member norm strip lower split_commas execution_mode virtual_result send_or_virtual submit_all
    compute_route_sequence get put try_relay conclude observe observe_rpc_latency_ms
    observe_tx_result record_relay record_circuit is_retryable classify_reason contains ◌+ℤ◌
three_attempts = refl

-- With the guard's own default, TRADING, the state READY that the operator's gate has just set is
-- blocked, even where the state was TRADING.
abbrev by_default : Router int_floats
by_default = record idle {
  environ =
      (codes "FEATURE_EXEC_GUARD", codes "1")
      ∷ (codes "FEATURE_EXEC_ENABLE", codes "yes")
      ∷ (codes "BOT_RUNTIME_STATE", codes "TRADING")
      ∷ [];
}

never_sent :
    (route_and_submit int_floats call by_default).0
    ≡ ok (failed (codes "guard") (codes "blocked:state_ready"))
unfolding route_and_submit operator_gate evaluate evaluate_trimmed evaluate_rates rpc_p99_ms
    tx_failure_rate trim drop_before values_since p99_of failure_rate_of text_eq upper past_gate
    gate_verdict change_state get_runtime_state set_runtime_state parse_bot_state by_value
    past_state route_guarded state_gate should_block_execution truthy runtime_state guard_states
    member norm strip lower split_commas execution_mode virtual_result send_or_virtual submit_all
    compute_route_sequence get put try_relay conclude observe observe_rpc_latency_ms
    observe_tx_result record_relay record_circuit is_retryable classify_reason contains ◌+ℤ◌
never_sent = refl

route_and_submit_live_example :
    IsHealthy int_floats
      (gate_state Ext live)
      (drawdown_or_env int_floats none none)
      (fin (pos 1000))
      (trim int_floats (fin (pos 1000)) idle.invariants)
    × IsCleared int_floats call (operator_gate int_floats live none (fin (pos 1000)) idle).1.environ
route_and_submit_live_example =
    route_and_submit_live int_floats call idle (omega (arith, three_attempts))

route_and_submit-attempts_example : (route_and_submit int_floats call idle).1.attempts ≤ 4
route_and_submit-attempts_example = route_and_submit-attempts int_floats call idle
