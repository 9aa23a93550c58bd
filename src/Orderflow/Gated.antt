-- ===== src/Orderflow/Gated.antt =====
-- When the router of bot/exec/orderflow.py calls a relay at all.
use mev_bot.Base.{
  ◌≡◌, refl, inl, inr, suc, ◌≤◌, Bool, true, false, not, Option, none, arith, Bool-cases,
  if◌then◌else◌,
}
use mev_bot.Base.Text.{Text, codes, text_eq, upper}
use mev_bot.Base.Result.{Result, ok, raise}
use mev_bot.Base.Float.{FloatModel, below}
use mev_bot.Gates.{OperatorState, bool_or_false}
use mev_bot.Base.Dict.{Dict}
use mev_bot.State.{
  BotState, ready, paused, StateError, of_state, get_runtime_state, set_runtime_state,
}
use mev_bot.Invariants.{
  IndexError, evaluate, evaluate_trimmed, evaluate_rates, rpc_p99_ms, exceeds, tx_failure_rate,
  drawdown_or_env, trim, RuntimeInvariants, state_or_trading,
}
use mev_bot.Invariants.Verdicts.{IsHealthy, evaluate-IsHealthy_iff}
use mev_bot.Control.Reading.{gate_state}
use mev_bot.ExecGuard.{should_block_execution}
use mev_bot.Relays.{execution_mode, may_send, virtual_result}
use mev_bot.Orderflow.{
  Router, Call, RouteError, set_target, change_state, gate_verdict, operator_gate, state_gate,
  send_or_virtual, route_guarded, past_state, past_gate, route_and_submit,
}

abbrev sends : Result IndexError (BotState × Text) → Bool
sends (raise e) = false
sends (ok (target, reason)) = may_send target

-- A verdict that lets the router send is the verdict of health.
abbrev Sends : Result IndexError (BotState × Text) → Type 0
Sends v = sends v ≡ true → v ≡ ok (ready, codes "healthy")

Sends-if :
    (b : Bool) (v w : Result IndexError (BotState × Text))
    → Sends v
    → Sends w
    → Sends (if b then v else w)
Sends-if true v w h k = h
Sends-if false v w h k = k

module _ (F : FloatModel) where
  open F use {Float}

  rates-Sends :
      (p : Result IndexError (Option Float)) (t : Float) (s : RuntimeInvariants F)
      → Sends (evaluate_rates F p t s)
  unfolding evaluate_rates
  rates-Sends (raise e) t s = λ h. cc
  rates-Sends (ok p) t s =
      Sends-if (exceeds F s.rpc_p99_ms_threshold p) _ _ (λ h. cc)
        (Sends-if (exceeds F s.tx_fail_rate_threshold (tx_failure_rate F t s)) _ _ (λ h. cc)
          (λ h. refl))

  evaluate_trimmed-Sends :
      (op : OperatorState) (dd t : Float) (s : RuntimeInvariants F)
      → Sends (evaluate_trimmed F op dd t s)
  unfolding evaluate_trimmed
  evaluate_trimmed-Sends op dd t s =
      Sends-if (bool_or_false op.kill_switch) _ _ (λ h. cc)
        (Sends-if (not (text_eq (upper (state_or_trading op.state)) (codes "TRADING"))) _ _
          (λ h. cc)
          (Sends-if (below F s.drawdown_threshold dd) _ _ (λ h. cc)
            (rates-Sends (rpc_p99_ms F t s) t s)))

  -- Whether the operator's gate lets a call through.
  abbrev passes : Result (RouteError F) (Bool × Text) → Bool
  passes (raise e) = false
  passes (ok (blocked, reason)) = not blocked

  -- The gate changes nothing that the attempts depend on, and passes only what may be sent.
  pub record IsGate (v : Result IndexError (BotState × Text)) (r : Router F)
      (g : Result (RouteError F) (Bool × Text) × Router F) : Type 0 where
    pub attempts : g.1.attempts ≡ r.attempts
    pub order : g.1.order ≡ r.order
    pub max_retries : g.1.max_retries ≡ r.max_retries
    pub sent : passes g.0 ≡ true → sends v ≡ true

  set_target-IsGate :
      (current target : BotState) (reason : Text) (x : Result StateError (Dict Text)) (r : Router F)
      → IsGate (ok (target, reason)) r (set_target F current target x r)
  set_target-IsGate current target reason (raise e) r = record {
    attempts = refl;
    order = refl;
    max_retries = refl;
    sent = λ h. cc;
  }
  set_target-IsGate current target reason (ok environ) r = record {
    attempts = refl;
    order = refl;
    max_retries = refl;
    sent = λ h. elim (Bool-cases (may_send target)) [ inl m ↦ m | inr m ↦ cc (rw m at h) ];
  }

  change_state-IsGate :
      (target : BotState) (reason : Text) (x : Result StateError BotState) (r : Router F)
      → IsGate (ok (target, reason)) r (change_state F target x r)
  unfolding change_state
  change_state-IsGate target reason (raise e) r = record {
    attempts = refl;
    order = refl;
    max_retries = refl;
    sent = λ h. cc;
  }
  change_state-IsGate target reason (ok current) r =
      set_target-IsGate current target reason (set_runtime_state (of_state target) r.environ) r

  pub gate_verdict-IsGate :
      (v : Result IndexError (BotState × Text)) (r : Router F) → IsGate v r (gate_verdict F v r)
  unfolding gate_verdict
  gate_verdict-IsGate (raise e) r = record {
    attempts = refl;
    order = refl;
    max_retries = refl;
    sent = λ h. cc;
  }
  gate_verdict-IsGate (ok (target, reason)) r =
      change_state-IsGate target reason (get_runtime_state (of_state paused) r.environ) r

  module _ {V : Type 0} where
    -- What is clear below the operator's gate, in the environment that it leaves, when a relay was
    -- called.
    abbrev pub IsCleared : Call F V → Dict Text → Type 0
    IsCleared c environ =
        (text_eq (execution_mode c.operator) (codes "live") ≡ true)
        × ((should_block_execution environ).0 ≡ false)

    virtual-live :
        (c : Call F V) (r : Router F)
        → suc r.attempts
          ≤ (send_or_virtual F (virtual_result (execution_mode c.operator) c.ts) c r).1.attempts
        → text_eq (execution_mode c.operator) (codes "live") ≡ true
    unfolding virtual_result send_or_virtual
    virtual-live c r h = elim (Bool-cases (text_eq (execution_mode c.operator) (codes "live"))) [
      | inl l ↦ l
      | inr l ↦ elim (Bool-cases (text_eq (execution_mode c.operator) (codes "dryrun"))) [
        | inl d ↦ absurd (omega (arith, rw (l, d) at h))
        | inr d ↦ absurd (omega (arith, rw (l, d) at h))
      ]
    ]

    route_guarded-IsCleared :
        (c : Call F V) (r : Router F)
        → suc r.attempts ≤ (route_guarded F c r).1.attempts
        → IsCleared c r.environ
    unfolding route_guarded
    route_guarded-IsCleared c r h = elim (Bool-cases (should_block_execution r.environ).0) [
      | inl g ↦ absurd (omega (arith, rw g at h))
      | inr g ↦ (virtual-live c r (rw g at h), g)
    ]

    past_state-IsCleared :
        (c : Call F V) (v : Result StateError (Bool × Text)) (r : Router F)
        → suc r.attempts ≤ (past_state F c v r).1.attempts
        → IsCleared c r.environ
    unfolding past_state
    past_state-IsCleared c (raise e) r h = absurd (omega (arith, h))
    past_state-IsCleared c (ok (true, reason)) r h = absurd (omega (arith, h))
    past_state-IsCleared c (ok (false, reason)) r h = route_guarded-IsCleared c r h

    past_gate-IsCleared :
        (c : Call F V) (g : Result (RouteError F) (Bool × Text)) (r : Router F)
        → suc r.attempts ≤ (past_gate F c (g, r)).1.attempts
        → (passes g ≡ true) × IsCleared c r.environ
    unfolding past_gate
    past_gate-IsCleared c (raise e) r h = absurd (omega (arith, h))
    past_gate-IsCleared c (ok (true, reason)) r h = absurd (omega (arith, h))
    past_gate-IsCleared c (ok (false, reason)) r h =
        (refl, past_state-IsCleared c (state_gate F r) r h)

    -- A call of `route_and_submit` that makes an attempt at a relay has passed every check: the
    -- operator has not set the kill switch and is trading, the drawdown, the latency and the failure
    -- rate are within their thresholds, the guard does not block in the environment that the
    -- operator's gate leaves, and the operator's mode is live.
    pub route_and_submit_live :
        (c : Call F V) (r : Router F)
        → suc r.attempts ≤ (route_and_submit F c r).1.attempts
        → IsHealthy F
            (gate_state V c.operator)
            (drawdown_or_env F none c.drawdown)
            c.gated_at
            (trim F c.gated_at r.invariants)
          × IsCleared c (operator_gate F c.operator c.drawdown c.gated_at r).1.environ
    unfolding route_and_submit operator_gate evaluate
    route_and_submit_live c r h =
        let v = evaluate F (gate_state V c.operator) none c.drawdown c.gated_at r.invariants in
        let gate = gate_verdict-IsGate v.0 (record r { invariants = v.1 }) in
        let g = operator_gate F c.operator c.drawdown c.gated_at r in
        let (passed, cleared) = past_gate-IsCleared c g.0 g.1 (omega (arith, h, gate.attempts)) in
        (
          (evaluate-IsHealthy_iff F _ none c.drawdown c.gated_at r.invariants).0 (
              evaluate_trimmed-Sends (gate_state V c.operator) (drawdown_or_env F none c.drawdown)
                c.gated_at (trim F c.gated_at r.invariants) (gate.sent passed)),
          cleared,
        )
