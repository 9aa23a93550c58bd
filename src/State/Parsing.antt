-- ===== src/State/Parsing.antt =====
-- The names of the states, as they are parsed and as they are kept in the environment:
-- `parse_bot_state`, `set_runtime_state` and `get_runtime_state` of bot/core/state.py.
use mev_bot.Base.{◌≡◌, refl, ◌↔◌, inl, inr, some, arith}
use mev_bot.Base.Text.{Text, codes, upper, strip, text_eq, text_eq→eq, text_eq_refl}
use mev_bot.Base.Dict.{Dict, put, get-put}
use mev_bot.Base.Result.{Result, ok, raise, Result-cases}
use mev_bot.State.{
  BotState, booting, syncing, ready, trading, paused, degraded, panic, value, Target, of_text,
  by_value, parse_bot_state, set_runtime_state, get_runtime_state, runtime_target, StateError,
}

pub by_value-value : (s : BotState) → by_value (value s) ≡ some s
unfolding by_value text_eq
by_value-value booting = refl
by_value-value _ = refl

pub by_value_sound : (t : Text) (s : BotState) → by_value t ≡ some s → t ≡ value s
unfolding by_value
by_value_sound t s h = ground (
  arith,
  text_eq→eq t (value booting),
  text_eq→eq t (value syncing),
  text_eq→eq t (value ready),
  text_eq→eq t (value trading),
  text_eq→eq t (value paused),
  text_eq→eq t (value degraded),
  text_eq→eq t (value panic),
)

-- A text is parsed as a state exactly when, stripped and in upper case, it is the state's name.
pub parse_bot_state_iff :
    (t : Text) (s : BotState) → (parse_bot_state (of_text t) ≡ ok s) ↔ (upper (strip t) ≡ value s)
unfolding parse_bot_state
parse_bot_state_iff t s = (
  λ h. by_value_sound (upper (strip t)) s (ground arith),
  λ e. rw (e, parse_bot_state) (rw (by_value-value s)),
)

-- The value that is written for a state is read back as that state.
pub parse_bot_state-value : (s : BotState) → parse_bot_state (of_text (value s)) ≡ ok s
unfolding parse_bot_state by_value text_eq
parse_bot_state-value booting = refl
parse_bot_state-value _ = refl

abbrev pub read_back : Target → Result StateError (Dict Text) → Result StateError BotState
read_back default (ok env) = get_runtime_state default env
read_back default (raise e) = raise e

runtime_target_value :
    (default : Target) (s : BotState)
    → parse_bot_state (runtime_target (some (value s)) default) ≡ ok s
runtime_target_value default booting = parse_bot_state-value booting
runtime_target_value default syncing = parse_bot_state-value syncing
runtime_target_value default ready = parse_bot_state-value ready
runtime_target_value default trading = parse_bot_state-value trading
runtime_target_value default paused = parse_bot_state-value paused
runtime_target_value default degraded = parse_bot_state-value degraded
runtime_target_value default panic = parse_bot_state-value panic

get_runtime_state-put :
    (default : Target) (s : BotState) (env : Dict Text)
    → get_runtime_state default (put (codes "BOT_RUNTIME_STATE") (value s) env) ≡ ok s
unfolding get_runtime_state
get_runtime_state-put default s env = rw (get-put, text_eq_refl) (runtime_target_value default s)

-- What `set_runtime_state` stores, `get_runtime_state` returns, whatever default it is given; a
-- target that does not parse raises the same error, and nothing is stored.
pub get_runtime_state-set_runtime_state :
    (default t : Target) (env : Dict Text)
    → read_back default (set_runtime_state t env) ≡ parse_bot_state t
unfolding set_runtime_state
get_runtime_state-set_runtime_state default t env = elim (Result-cases (parse_bot_state t)) [
  | inl (s, e) ↦ rw (e, set_runtime_state) (get_runtime_state-put default s env)
  | inr (x, e) ↦ rw (e, set_runtime_state) refl
]
