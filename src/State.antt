-- ===== src/State.antt =====
-- The lifecycle of the bot: bot/core/state.py. The clock is an argument, the process environment
-- (`os.environ`) is a dict of texts.
pub mod Parsing
pub mod Transitions
pub mod Reach
mod Tests
use mev_bot.Base.{
  ℕ, Bool, true, false, ◌||◌, ◌&&◌, not, Option, none, some, List, [], ◌∷◌, ◌++◌, if◌then◌else◌,
}
use mev_bot.Base.Text.{Text, codes, text_eq, upper, lower, strip, member}
use mev_bot.Base.Dict.{Dict, get, put}
use mev_bot.Base.Result.{Result, ok, raise}

pub data BotState : Type 0 where
  booting syncing ready trading paused degraded panic : BotState

-- `BotState.value`
abbrev pub value : BotState → Text
value booting = codes "BOOTING"
value syncing = codes "SYNCING"
value ready = codes "READY"
value trading = codes "TRADING"
value paused = codes "PAUSED"
value degraded = codes "DEGRADED"
value panic = codes "PANIC"

-- `_ALLOWED_TRANSITIONS`
abbrev pub allowed : BotState → BotState → Bool
allowed booting syncing = true
allowed booting paused = true
allowed booting panic = true
allowed syncing ready = true
allowed syncing paused = true
allowed syncing degraded = true
allowed syncing panic = true
allowed ready trading = true
allowed ready paused = true
allowed ready degraded = true
allowed ready panic = true
allowed trading ready = true
allowed trading paused = true
allowed trading degraded = true
allowed trading panic = true
allowed paused ready = true
allowed paused trading = true
allowed paused syncing = true
allowed paused panic = true
allowed degraded ready = true
allowed degraded paused = true
allowed degraded panic = true
allowed panic paused = true
allowed panic ready = true
allowed _ _ = false

-- `==` on the enumeration.
abbrev pub same : BotState → BotState → Bool
same booting booting = true
same syncing syncing = true
same ready ready = true
same trading trading = true
same paused paused = true
same degraded degraded = true
same panic panic = true
same _ _ = false

-- The ValueErrors of this file.
pub data StateError : Type 0 where
  invalid_state : Text → StateError
  blocked_by_lockdown : StateError
  invalid_transition : BotState → BotState → StateError

-- An argument of type `str | BotState`.
pub data Target : Type 0 where
  of_state : BotState → Target
  of_text : Text → Target

-- `BotState(value)`: the lookup of an enumeration by its value.
unfoldable pub by_value : Text → Option BotState
by_value t =
    if text_eq t (value booting)
    then some booting
    else if text_eq t (value syncing)
    then some syncing
    else if text_eq t (value ready)
    then some ready
    else if text_eq t (value trading)
    then some trading
    else if text_eq t (value paused)
    then some paused
    else if text_eq t (value degraded)
    then some degraded
    else if text_eq t (value panic)
    then some panic
    else none

unfoldable pub parse_bot_state : Target → Result StateError BotState
unfolding by_value upper strip
parse_bot_state (of_state s) = ok s
parse_bot_state (of_text raw) = elim (by_value (upper (strip raw))) [
  | some s ↦ ok s
  | none ↦ raise (invalid_state raw)
]

pub record StateTransition : Type 0 where
  pub ts_ms : ℕ
  pub actor : Text
  pub reason : Text
  pub from_state : Text
  pub to_state : Text

pub record Machine : Type 0 where
  pub state : BotState
  pub lockdown : Bool
  pub history : List StateTransition

-- The keyword arguments of `transition`, and the time at which it reads the clock.
pub record Request : Type 0 where
  pub target : Target
  pub actor : Text
  pub reason : Text
  pub force : Bool
  pub now_ms : ℕ

abbrev pub entry : Request → BotState → BotState → StateTransition
entry r from to = record {
  ts_ms = r.now_ms;
  actor = r.actor;
  reason = r.reason;
  from_state = value from;
  to_state = value to;
}

-- `transition`, once its target is parsed.
unfoldable pub transition_to :
    Request → BotState → Machine → Result StateError StateTransition × Machine
transition_to r to m =
    let rec = entry r m.state to in
    if same m.state to
    then (ok rec, record m { history = m.history ++ rec ∷ [] })
    else if m.lockdown && not r.force
    then (raise blocked_by_lockdown, m)
    else if not (allowed m.state to) && not r.force
    then (raise (invalid_transition m.state to), m)
    else (ok rec, record m { state = to; history = m.history ++ rec ∷ [] })

unfoldable pub transition : Request → Machine → Result StateError StateTransition × Machine
unfolding transition_to
transition r m = elim (parse_bot_state r.target) [
  | ok to ↦ transition_to r to m
  | raise e ↦ (raise e, m)
]

unfoldable pub pause : Text → Text → ℕ → Machine → Result StateError StateTransition × Machine
unfolding transition parse_bot_state
pause actor reason now = transition (record {
  target = of_state paused;
  actor = actor;
  reason = reason;
  force = false;
  now_ms = now;
})

unfoldable pub resume : Text → Text → ℕ → Machine → Result StateError StateTransition × Machine
unfolding transition parse_bot_state
resume actor reason now = transition (record {
  target = of_state trading;
  actor = actor;
  reason = reason;
  force = false;
  now_ms = now;
})

unfoldable pub trading_allowed : Machine → Bool
trading_allowed m = same m.state trading

-- `_is_truthy(os.getenv(name, default))`
unfoldable pub is_truthy : Text → Bool
unfolding member lower strip
is_truthy v = member (lower (strip v)) (codes "1" ∷ codes "true" ∷ codes "yes" ∷ codes "on" ∷ [])

-- `os.getenv(name, default)`
abbrev pub getenv : Text → Text → Dict Text → Text
getenv name default env = elim (get name env) [ some v ↦ v | none ↦ default ]

unfoldable pub build_state_machine : Option Text → Dict Text → Result StateError Machine
unfolding parse_bot_state is_truthy get
build_state_machine initial env =
    let raw : Text = elim initial [
      | some v ↦ v
      | none ↦ getenv (codes "BOT_INITIAL_STATE") (value paused) env
    ] in
    let lockdown = is_truthy (getenv (codes "BOT_STATE_LOCKDOWN") (codes "false") env) in
    elim (parse_bot_state (of_text raw)) [
      | ok s ↦ ok (record { state = s; lockdown = lockdown; history = [] })
      | raise e ↦ raise e
    ]

unfoldable pub set_runtime_state : Target → Dict Text → Result StateError (Dict Text)
unfolding parse_bot_state put
set_runtime_state t env = elim (parse_bot_state t) [
  | ok s ↦ ok (put (codes "BOT_RUNTIME_STATE") (value s) env)
  | raise e ↦ raise e
]

-- An empty value of the variable counts as unset.
abbrev pub runtime_target : Option Text → Target → Target
runtime_target none default = default
runtime_target (some []) default = default
runtime_target (some (c ∷ cs)) default = of_text (c ∷ cs)

unfoldable pub get_runtime_state : Target → Dict Text → Result StateError BotState
unfolding parse_bot_state get
get_runtime_state default env =
    parse_bot_state (runtime_target (get (codes "BOT_RUNTIME_STATE") env) default)
