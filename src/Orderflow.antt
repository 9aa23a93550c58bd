-- ===== src/Orderflow.antt =====
-- `PrivateOrderflowRouter` (bot/exec/orderflow.py) with its gates. What the clients of the relays
-- answer and the clock are arguments, and so are the rules of the configuration, as whether each
-- applies. The environment is part of the state, since it holds the state of the process. The
-- operator's state is read once for the two places that read it. A relay of the order has a circuit,
-- so the missing key of `circuits` is left out, and `max_retries` is not negative. The counters, the
-- log and the waiting between attempts are not modelled.
pub mod Gated
pub mod Attempts
mod Tests
use mev_bot.Base.{
  ℕ, zero, suc, Bool, true, false, ◌&&◌, not, Option, none, some, List, [], ◌∷◌, ◌++◌,
  if◌then◌else◌,
}
use mev_bot.Base.Int.{ℤ, pos, leb_ℤ, ◌+ℤ◌}
use mev_bot.Base.Text.{Text, codes}
use mev_bot.Base.Dict.{Dict, get, put}
use mev_bot.Base.Result.{Result, ok, raise}
use mev_bot.Base.Float.{FloatModel, below}
use mev_bot.Gates.{text_or_empty}
use mev_bot.State.{
  BotState, paused, StateError, of_state, same, get_runtime_state, set_runtime_state,
}
use mev_bot.Relays.{
  SubmitResult, Circuit, failed, error_or, is_retryable, classify_reason, execution_mode, may_send,
  virtual_result, Rules, compute_route_sequence,
}
use mev_bot.Invariants.{
  RuntimeInvariants, IndexError, evaluate, observe_rpc_latency_ms, observe_tx_result,
}
use mev_bot.Control.{ControlState}
use mev_bot.Control.Reading.{gate_state}
use mev_bot.ExecGuard.{should_block_execution}

module _ (F : FloatModel) where
  open F use {Float, add, lit}

  -- What an attempt comes to: the client's result or the text of its exception, how long it took, and
  -- when it was over.
  pub record Attempt : Type 0 where
    pub answer : Result Text SubmitResult
    pub elapsed : Float
    pub ended_at : Float

  unfoldable pub record_circuit : Bool → Float → Circuit F → Circuit F
  unfolding ◌+ℤ◌
  record_circuit true now c = record c { fail_count = pos 0; opens_at = lit 0 1 }
  record_circuit false now c =
      let n = c.fail_count +ℤ pos 1 in
      record c {
        fail_count = n;
        opens_at = if leb_ℤ c.fail_threshold n then add now c.cooldown_s else c.opens_at;
      }

  abbrev pub circuit_open : Float → Option (Circuit F) → Bool
  circuit_open now none = false
  circuit_open now (some c) = below F now c.opens_at

  -- The router, the environment of the process, its health, and how many attempts were made.
  pub record Router : Type 0 where
    pub order : List Text
    pub max_retries : ℕ
    pub circuits : Dict (Circuit F)
    pub environ : Dict Text
    pub invariants : RuntimeInvariants F
    pub attempts : ℕ

  abbrev pub change_circuit :
      Bool → Float → Text → Option (Circuit F) → Dict (Circuit F) → Dict (Circuit F)
  change_circuit good now relay none circuits = circuits
  change_circuit good now relay (some c) circuits = put relay (record_circuit good now c) circuits

  unfoldable pub record_relay : Bool → Float → Text → Router → Router
  unfolding record_circuit get put
  record_relay good now relay r = record r {
    circuits = change_circuit good now relay (get relay r.circuits) r.circuits;
  }

  -- The bookkeeping of one attempt.
  unfoldable pub observe : Attempt → Bool → Router → Router
  unfolding observe_rpc_latency_ms observe_tx_result
  observe a good r = record r {
    invariants =
        observe_tx_result F good a.ended_at
          (observe_rpc_latency_ms F a.elapsed a.ended_at r.invariants);
    attempts = suc r.attempts;
  }

  abbrev pub result_of : Text → Result Text SubmitResult → SubmitResult
  result_of relay (ok res) = res
  result_of relay (raise e) = failed relay e

  -- Whether the call is over with a result, or the text of the last failure.
  pub data Outcome : Type 0 where
    sent : SubmitResult → Outcome
    last_err : Text → Outcome

  -- The end of the attempts at a relay, with the result of the last one.
  unfoldable pub conclude : Text → Float → SubmitResult → Router → Outcome × Router
  unfolding record_relay classify_reason
  conclude relay now res r = if res.ok then (sent res, record_relay true now relay r) else (
    last_err (relay ++ codes ":" ++ classify_reason (error_or res.error (codes "unknown"))),
    record_relay false now relay r,
  )

  abbrev pub retried : SubmitResult → Bool
  unfolding is_retryable
  retried res = not res.ok && is_retryable (text_or_empty res.error)

  -- The attempts at one relay; `left` is how many retries are left. `answer` is what the attempts of
  -- the call come to.
  unfoldable pub try_relay : (ℕ → Attempt) → Text → ℕ → Router → Outcome × Router
  unfolding observe conclude
  try_relay answer relay zero r =
      let a = answer r.attempts in
      let res = result_of relay a.answer in conclude relay a.ended_at res (observe a res.ok r)
  try_relay answer relay (suc left) r =
      let a = answer r.attempts in
      let res = result_of relay a.answer in
      let seen = observe a res.ok r in
      let again = try_relay answer relay left seen in
      if retried res then again else conclude relay a.ended_at res seen

  -- What follows the attempts at a relay: the return of a result, or the next relays.
  abbrev pub and_then :
      Outcome × Router → (Text → Router → SubmitResult × Router) → SubmitResult × Router
  and_then (sent res, r) next = (res, r)
  and_then (last_err e, r) next = next e r

  -- The relays of the sequence in turn. `clock` says when the circuit of the relay at a position of the
  -- sequence is looked at, and `i` is the position of the first of the relays.
  unfoldable pub submit_all :
      (ℕ → Attempt) → (ℕ → Float) → ℕ → List Text → Option Text → Router → SubmitResult × Router
  unfolding get try_relay
  submit_all answer clock i [] last r =
      (failed (codes "none") (error_or last (codes "all_relays_failed")), r)
  submit_all answer clock i (relay ∷ relays) last r =
      elim (circuit_open (clock i) (get relay r.circuits)) [
        | true ↦ submit_all answer clock (suc i) relays last r
        | false ↦
            and_then (try_relay answer relay r.max_retries r)
              (λ e r'. submit_all answer clock (suc i) relays (some e) r')
      ]

  pub data RouteError : Type 0 where
    by_index : IndexError → RouteError
    by_state : StateError → RouteError

  abbrev pub set_target :
      BotState
      → BotState
      → Result StateError (Dict Text)
      → Router
      → Result RouteError (Bool × Text) × Router
  set_target current target (raise e) r = (raise (by_state e), r)
  set_target current target (ok environ) r = (
    ok (if may_send target then (false, codes "allowed") else (true, codes "blocked_by_operator")),
    record r { environ = if same current target then r.environ else environ },
  )

  unfoldable pub change_state :
      BotState → Result StateError BotState → Router → Result RouteError (Bool × Text) × Router
  unfolding set_runtime_state
  change_state target (raise e) r = (raise (by_state e), r)
  change_state target (ok current) r =
      set_target current target (set_runtime_state (of_state target) r.environ) r

  unfoldable pub gate_verdict :
      Result IndexError (BotState × Text) → Router → Result RouteError (Bool × Text) × Router
  unfolding get_runtime_state set_runtime_state change_state
  gate_verdict (raise e) r = (raise (by_index e), r)
  gate_verdict (ok (target, reason)) r =
      change_state target (get_runtime_state (of_state paused) r.environ) r

  -- `_operator_gate`, which makes the state that the invariants ask for the state of the process.
  unfoldable pub operator_gate :
      {V : Type 0}
      → ControlState V
      → Option Float
      → Float
      → Router
      → Result RouteError (Bool × Text) × Router
  unfolding evaluate gate_verdict
  operator_gate {V} op env t r =
      let verdict = evaluate F (gate_state V op) none env t r.invariants in
      gate_verdict verdict.0 (record r { invariants = verdict.1 })

  unfoldable pub state_gate : Router → Result StateError (Bool × Text)
  unfolding get_runtime_state
  state_gate r = elim (get_runtime_state (of_state paused) r.environ) [
    | raise e ↦ raise e
    | ok s ↦ ok (if may_send s then (false, codes "allowed") else (true, codes "state_not_trading"))
  ]

  -- What a call reads: the operator's state, the drawdown, the rules, the time of the gate and its
  -- text, the answers of the relays, and the clock of the circuits.
  pub record Call (V : Type 0) : Type 0 where
    pub operator : ControlState V
    pub drawdown : Option Float
    pub gated_at : Float
    pub ts : Text
    pub rules : Rules
    pub answer : ℕ → Attempt
    pub clock : ℕ → Float

  unfoldable pub send_or_virtual :
      Option SubmitResult → {V : Type 0} → Call V → Router → SubmitResult × Router
  unfolding submit_all compute_route_sequence
  send_or_virtual (some res) c r = (res, r)
  send_or_virtual none c r =
      submit_all c.answer c.clock 0 (compute_route_sequence c.rules r.order) none r

  -- `route_and_submit` below both gates.
  unfoldable pub route_guarded : {V : Type 0} → Call V → Router → SubmitResult × Router
  unfolding should_block_execution execution_mode virtual_result send_or_virtual
  route_guarded c r =
      if (should_block_execution r.environ).0
      then (failed (codes "guard") (codes "blocked:" ++ (should_block_execution r.environ).1), r)
      else send_or_virtual (virtual_result (execution_mode c.operator) c.ts) c r

  unfoldable pub past_state :
      {V : Type 0}
      → Call V
      → Result StateError (Bool × Text)
      → Router
      → Result RouteError SubmitResult × Router
  unfolding route_guarded
  past_state c (raise e) r = (raise (by_state e), r)
  past_state c (ok (true, reason)) r = (ok (failed (codes "blocked_by_state") reason), r)
  past_state c (ok (false, reason)) r = (ok (route_guarded c r).0, (route_guarded c r).1)

  -- `route_and_submit` below the operator's gate.
  unfoldable pub past_gate :
      {V : Type 0}
      → Call V
      → Result RouteError (Bool × Text) × Router
      → Result RouteError SubmitResult × Router
  unfolding past_state state_gate route_guarded
  past_gate c (raise e, r) = (raise e, r)
  past_gate c (ok (true, reason), r) = (ok (failed (codes "blocked_by_operator") reason), r)
  past_gate c (ok (false, reason), r) = past_state c (state_gate r) r

  unfoldable pub route_and_submit :
      {V : Type 0} → Call V → Router → Result RouteError SubmitResult × Router
  unfolding operator_gate past_gate
  route_and_submit c r = past_gate c (operator_gate c.operator c.drawdown c.gated_at r)
