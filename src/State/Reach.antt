-- ===== src/State/Reach.antt =====
-- Runs of the state machine: any sequence of calls of `transition`, those that raise included.
use mev_bot.Base.{◌≡◌, refl, sym, ◌⊎◌, inl, inr, true, false, List, [], ◌∷◌, ◌++◌, arith, ap, ◌∙◌}
use mev_bot.Base.Text.{Text}
use mev_bot.Base.Result.{Result-cases}
use mev_bot.State.{
  BotState, booting, ready, trading, paused, panic, value, allowed, parse_bot_state,
  StateTransition, Machine, Request, entry, transition_to, transition,
}
use mev_bot.State.Transitions.{moved, same→eq}

pub data Steps (m : Machine) : Machine → Type 0 where
  here : Steps m m
  next : {n : Machine} → Steps m n → (r : Request) → Steps m (transition r n).1

-- Runs in which no call is forced.
pub data Unforced (m : Machine) : Machine → Type 0 where
  start : Unforced m m
  call :
      {n : Machine} → Unforced m n → (r : Request) → r.force ≡ false → Unforced m (transition r n).1

-- A call leaves the machine alone or moves it.
transition_to-moves :
    (r : Request) (to : BotState) (m : Machine)
    → ((transition_to r to m).1 ≡ m) ⊎ ((transition_to r to m).1 ≡ moved r to m)
unfolding transition_to
transition_to-moves r to m = ground (arith, same→eq m.state to)

transition-moves :
    (r : Request) (m : Machine)
    → ((transition r m).1 ≡ m) ⊎ ((to : BotState) × ((transition r m).1 ≡ moved r to m))
unfolding transition
transition-moves r m = elim (Result-cases (parse_bot_state r.target)) [
  | inr (x, p) ↦ inl (rw (p, transition) refl)
  | inl (to, p) ↦ elim (transition_to-moves r to m) [
    | inl e ↦ inl (rw (p, transition) e)
    | inr e ↦ inr (to, rw (p, transition) e)
  ]
]

-- A history that leads from one state's name to another's, entry by entry.
abbrev pub Leads : Text → List StateTransition → Text → Type 0
Leads a [] b = a ≡ b
Leads a (t ∷ ts) b = (t.from_state ≡ a) × Leads t.to_state ts b

Leads-append :
    (a b : Text) (ts : List StateTransition) (t : StateTransition)
    → Leads a ts b
    → t.from_state ≡ b
    → Leads a (ts ++ t ∷ []) t.to_state
Leads-append a b [] t h e = (e ∙ sym h, refl)
Leads-append a b (x ∷ ts) t h e = (h.0, Leads-append x.to_state b ts t h.1 e)

-- After any calls, forced ones included, the history leads from the state that the machine was
-- built in to the state that it is in.
pub Steps-Leads :
    {m n : Machine} → m.history ≡ [] → Steps m n → Leads (value m.state) n.history (value n.state)
Steps-Leads {m} e here = rw e refl
Steps-Leads {m} e (next {n} s r) = elim (transition-moves r n) [
  | inl p ↦ rw p (Steps-Leads e s)
  | inr (to, p) ↦ rw p (
      Leads-append (value m.state) (value n.state) n.history (entry r n.state to) (Steps-Leads e s)
        refl)
]

-- What an unforced call can do to the state.
transition_to-unforced :
    (r : Request) (to : BotState) (m : Machine)
    → r.force ≡ false
    → ((transition_to r to m).1.state ≡ m.state)
      ⊎ ((m.lockdown ≡ false)
          × (allowed m.state to ≡ true)
          × ((transition_to r to m).1 ≡ moved r to m))
unfolding transition_to
transition_to-unforced r to m h = ground (arith, same→eq m.state to)

pub transition-unforced :
    (r : Request) (m : Machine)
    → r.force ≡ false
    → ((transition r m).1.state ≡ m.state)
      ⊎ ((to : BotState) × (m.lockdown ≡ false)
          × (allowed m.state to ≡ true)
          × ((transition r m).1 ≡ moved r to m))
unfolding transition
transition-unforced r m h = elim (Result-cases (parse_bot_state r.target)) [
  | inr (x, p) ↦ inl (rw (p, transition) refl)
  | inl (to, p) ↦ elim (transition_to-unforced r to m h) [
    | inl e ↦ inl (rw (p, transition) e)
    | inr (l, a, e) ↦ inr (to, l, a, rw (p, transition) e)
  ]
]

transition-lockdown : (r : Request) (m : Machine) → (transition r m).1.lockdown ≡ m.lockdown
transition-lockdown r m = elim (transition-moves r m) [
  | inl e ↦ rw e refl
  | inr (to, e) ↦ rw e refl
]

Unforced-lockdown : {m n : Machine} → Unforced m n → n.lockdown ≡ m.lockdown
Unforced-lockdown start = refl
Unforced-lockdown (call {n} u r f) = transition-lockdown r n ∙ Unforced-lockdown u

-- In a lockdown no sequence of unforced calls changes the state.
pub lockdown_holds : {m n : Machine} → m.lockdown ≡ true → Unforced m n → n.state ≡ m.state
lockdown_holds l start = refl
lockdown_holds l (call {n} u r f) = elim (transition-unforced r n f) [
  | inl e ↦ e ∙ lockdown_holds l u
  | inr (to, free, a, e) ↦ cc (l, free, Unforced-lockdown u)
]

not_into_booting : (s to : BotState) → allowed s to ≡ true → to ≡ booting → ⊥
not_into_booting s to h e = ground arith

-- Without force the machine is BOOTING only if it has been so from the start.
pub booting_is_initial : {m n : Machine} → Unforced m n → n.state ≡ booting → m.state ≡ booting
booting_is_initial start h = h
booting_is_initial (call {n} u r f) h = elim (transition-unforced r n f) [
  | inl e ↦ booting_is_initial u (sym e ∙ h)
  | inr (to, free, a, e) ↦
      absurd (not_into_booting n.state to a (sym (ap (λ (x : Machine). x.state) e) ∙ h))
]

-- The history has an entry into the state.
abbrev pub Visits : BotState → List StateTransition → Type 0
Visits s [] = ⊥
Visits s (t ∷ ts) = (t.to_state ≡ value s) ⊎ Visits s ts

Visits-append_left :
    (s : BotState) (ts us : List StateTransition) → Visits s ts → Visits s (ts ++ us)
Visits-append_left s [] us v = absurd v
Visits-append_left s (t ∷ ts) us (inl e) = inl e
Visits-append_left s (t ∷ ts) us (inr v) = inr (Visits-append_left s ts us v)

Visits-append_last :
    (s : BotState) (ts : List StateTransition) (t : StateTransition)
    → t.to_state ≡ value s
    → Visits s (ts ++ t ∷ [])
Visits-append_last s [] t e = inl e
Visits-append_last s (u ∷ ts) t e = inr (Visits-append_last s ts t e)

Visits-transition :
    (s : BotState) (r : Request) (m : Machine)
    → Visits s m.history
    → Visits s (transition r m).1.history
Visits-transition s r m v = elim (transition-moves r m) [
  | inl e ↦ rw e v
  | inr (to, e) ↦ rw e (Visits-append_left s m.history (entry r m.state to ∷ []) v)
]

-- Still panicked, or there was an entry into one of the two states that lead out.
abbrev Recovering : Machine → Type 0
Recovering n = (n.state ≡ panic) ⊎ Visits paused n.history ⊎ Visits ready n.history

out_of_panic : (to : BotState) → allowed panic to ≡ true → (to ≡ paused) ⊎ (to ≡ ready)
out_of_panic to h = ground arith

Recovering-moved :
    (r : Request) (to : BotState) (n : Machine)
    → n.state ≡ panic
    → allowed n.state to ≡ true
    → Recovering (moved r to n)
Recovering-moved r to n p a = elim (out_of_panic to (rw p at a)) [
  | inl e ↦ inr (inl (Visits-append_last paused n.history (entry r n.state to) (ap value e)))
  | inr e ↦ inr (inr (Visits-append_last ready n.history (entry r n.state to) (ap value e)))
]

Recovering-transition :
    (r : Request) (n : Machine) → r.force ≡ false → Recovering n → Recovering (transition r n).1
Recovering-transition r n f (inr (inl v)) = inr (inl (Visits-transition paused r n v))
Recovering-transition r n f (inr (inr v)) = inr (inr (Visits-transition ready r n v))
Recovering-transition r n f (inl p) = elim (transition-unforced r n f) [
  | inl e ↦ inl (e ∙ p)
  | inr (to, free, a, e) ↦ rw e (Recovering-moved r to n p a)
]

Unforced-Recovering : {m n : Machine} → m.state ≡ panic → Unforced m n → Recovering n
Unforced-Recovering p start = inl p
Unforced-Recovering p (call {n} u r f) = Recovering-transition r n f (Unforced-Recovering p u)

-- A machine that starts in PANIC with an empty history and has come to TRADING without force has
-- an entry into PAUSED or into READY in its history.
pub panic_recovery :
    {m n : Machine}
    → m.state ≡ panic
    → m.history ≡ []
    → Unforced m n
    → n.state ≡ trading
    → Visits paused n.history ⊎ Visits ready n.history
panic_recovery p empty u h = elim (Unforced-Recovering p u) [ inl e ↦ cc | inr v ↦ v ]
