-- ===== src/State/Tests.antt =====
-- Runs of the state machine at concrete requests.
use mev_bot.Base.{◌≡◌, refl, ◌⊎◌, true, false, none, [], arith}
use mev_bot.Base.Text.{codes, text_eq}
use mev_bot.Base.Result.{ok}
use mev_bot.State.{
  ready, trading, paused, panic, booting, value, of_state, of_text, Machine, Request,
  parse_bot_state, transition, build_state_machine, invalid_transition,
}
use mev_bot.State.Transitions.{transition_unchanged}
use mev_bot.State.Reach.{
  Steps, here, next, Unforced, start, call, Leads, Steps-Leads, Visits, panic_recovery,
}

abbrev panicked : Machine
panicked = record { state = panic; lockdown = false; history = [] }

abbrev locked : Machine
locked = record { state = paused; lockdown = true; history = [] }

abbrev ask_paused : Request
ask_paused = record {
  target = of_text (codes " paused ");
  actor = codes "operator";
  reason = codes "test";
  force = false;
  now_ms = 7;
}

abbrev ask_trading : Request
ask_trading = record {
  target = of_state trading;
  actor = codes "operator";
  reason = codes "test";
  force = false;
  now_ms = 8;
}

parse_example : parse_bot_state (of_text (codes " paused ")) ≡ ok paused
unfolding parse_bot_state text_eq
parse_example = refl

build_default :
    build_state_machine none [] ≡ ok (record { state = paused; lockdown = false; history = [] })
unfolding build_state_machine text_eq
build_default = refl

not_permitted : (paused ≡ trading) ⊎ (false ≡ true) ⊎ ((true ≡ false) × (true ≡ true)) → ⊥
not_permitted p = ground arith

transition_unchanged_example : (transition ask_trading panicked).1 ≡ panicked
unfolding transition parse_bot_state
transition_unchanged_example =
    transition_unchanged ask_trading panicked {e = invalid_transition panic trading} refl

abbrev recovered : Machine
recovered = (transition ask_trading (transition ask_paused panicked).1).1

abbrev two_steps : Steps panicked recovered
two_steps = next (next here ask_paused) ask_trading

abbrev two_calls : Unforced panicked recovered
two_calls = call (call start ask_paused refl) ask_trading refl

Steps-Leads_example : Leads (value panic) recovered.history (value recovered.state)
Steps-Leads_example = Steps-Leads refl two_steps

recovered_trading : recovered.state ≡ trading
unfolding transition parse_bot_state text_eq
recovered_trading = refl

panic_recovery_example : Visits paused recovered.history ⊎ Visits ready recovered.history
panic_recovery_example = panic_recovery {m = panicked} refl refl two_calls recovered_trading

-- A machine that boots, and is asked to boot again.
abbrev starting : Machine
starting = record { state = booting; lockdown = false; history = [] }

abbrev ask_booting : Request
ask_booting = record {
  target = of_state booting;
  actor = codes "system";
  reason = codes "boot";
  force = false;
  now_ms = 1;
}

booted_again : (transition ask_booting starting).1.state ≡ booting
unfolding transition parse_bot_state
booted_again = refl
