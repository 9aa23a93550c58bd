-- ===== src/State/Transitions.antt =====
-- What one call of `transition` does, on every branch.
use mev_bot.Base.{
  ℕ, ◌≡◌, refl, ◌↔◌, ◌⊎◌, inl, inr, true, false, [], ◌∷◌, ◌++◌, arith, if◌then◌else◌,
}
use mev_bot.Base.Text.{Text}
use mev_bot.Base.Result.{ok, raise, Result-cases}
use mev_bot.State.{
  BotState, ready, trading, paused, allowed, same, parse_bot_state, Machine, Request, entry,
  transition_to, transition, pause, resume, trading_allowed, StateError, blocked_by_lockdown,
  invalid_transition,
}

pub same→eq : (a b : BotState) → same a b ≡ true → a ≡ b
same→eq a b h = ground arith

pub same_refl : (a : BotState) → same a a ≡ true
same_refl a = ground arith

-- The machine may take the step: the target is the state it is in, or the call is forced, or the
-- machine is not locked down and the table has the pair.
abbrev pub Permitted : Request → BotState → Machine → Type 0
Permitted r to m =
    (m.state ≡ to) ⊎ (r.force ≡ true) ⊎ ((m.lockdown ≡ false) × (allowed m.state to ≡ true))

-- The machine after a step that was taken.
abbrev pub moved : Request → BotState → Machine → Machine
moved r to m = record m { state = to; history = m.history ++ entry r m.state to ∷ [] }

pub transition_to_taken :
    (r : Request) (to : BotState) (m : Machine)
    → Permitted r to m
    → transition_to r to m ≡ (ok (entry r m.state to), moved r to m)
unfolding transition_to
transition_to_taken r to m p = ground (arith, same→eq m.state to, same_refl to)

-- The error of a step that is not permitted: the lockdown is tested before the table.
abbrev pub refusal : BotState → Machine → StateError
refusal to m = if m.lockdown then blocked_by_lockdown else invalid_transition m.state to

pub transition_to_refused :
    (r : Request) (to : BotState) (m : Machine)
    → ¬ Permitted r to m
    → transition_to r to m ≡ (raise (refusal to m), m)
unfolding transition_to
transition_to_refused r to m p = ground (arith, same→eq m.state to)

module _ (r : Request) (m : Machine) {to : BotState}
    (parsed : parse_bot_state r.target ≡ ok to) where
  -- A request whose target parses and whose step is permitted moves the machine to the target,
  -- appends one entry with the old and the new state to the history, keeps the lockdown flag, and
  -- returns that entry.
  pub transition_taken : Permitted r to m → transition r m ≡ (ok (entry r m.state to), moved r to m)
  unfolding transition
  transition_taken p = rw (parsed, transition) (transition_to_taken r to m p)

  -- A request whose target parses and whose step is not permitted raises, the lockdown first, and
  -- leaves the machine as it was.
  pub transition_refused : ¬ Permitted r to m → transition r m ≡ (raise (refusal to m), m)
  unfolding transition
  transition_refused p = rw (parsed, transition) (transition_to_refused r to m p)

transition_to_unchanged :
    (r : Request) (to : BotState) (m : Machine) {e : StateError}
    → (transition_to r to m).0 ≡ raise e
    → (transition_to r to m).1 ≡ m
unfolding transition_to
transition_to_unchanged r to m h = ground arith

-- A call of `transition` that raises, for whatever reason, leaves the machine as it was.
pub transition_unchanged :
    (r : Request) (m : Machine) {e : StateError}
    → (transition r m).0 ≡ raise e
    → (transition r m).1 ≡ m
unfolding transition
transition_unchanged r m h = elim (Result-cases (parse_bot_state r.target)) [
  | inl (to, p) ↦ rw (p, transition) (transition_to_unchanged r to m (rw (p, transition) at h))
  | inr (x, p) ↦ rw (p, transition) refl
]

-- Outside a lockdown `pause` never raises and always ends in PAUSED: the table leads there from
-- every other state.
pub pause_lem :
    (actor reason : Text) (now : ℕ) (m : Machine)
    → m.lockdown ≡ false
    → (pause actor reason now m).1.state ≡ paused
unfolding pause transition transition_to
pause_lem actor reason now m h = ground arith

-- After `resume` trading is allowed exactly when it was allowed before, or the machine is not
-- locked down and was READY or PAUSED. So a panicked or degraded bot is never resumed directly.
pub resume_iff :
    (actor reason : Text) (now : ℕ) (m : Machine)
    → (trading_allowed (resume actor reason now m).1 ≡ true)
      ↔ ((m.state ≡ trading) ⊎ ((m.lockdown ≡ false) × ((m.state ≡ ready) ⊎ (m.state ≡ paused))))
unfolding resume transition transition_to trading_allowed
resume_iff actor reason now m = ground arith
