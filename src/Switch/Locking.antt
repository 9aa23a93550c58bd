-- ===== src/Switch/Locking.antt =====
-- Interleavings of calls of `SwitchController.reconcile` (bot/core/switch_controller.py).
use mev_bot.Base.{
  ◌≡◌, refl, Bool, true, false, ◌||◌, Option, none, some, is_empty, Bool-cases, inl, inr, if_both,
}
use mev_bot.Base.Text.{Text, codes, text_eq, strip}
use mev_bot.Base.Float.{FloatModel}
use mev_bot.Gates.{text_or_empty}
use mev_bot.Switch.{SwitchController, Pending, request, enter, leave}

abbrev pub is_held : Option Text → Bool
is_held none = false
is_held (some d) = true

module _ {F : FloatModel} where
  open F use {Float}

  -- One step of one of the calls that run.
  pub data Step : SwitchController F → SwitchController F → Type 0 where
    requests : (d e : Option Text) (s : SwitchController F) → Step s (request F d e s).1
    enters :
        (d : Text) (t : Float) (s : SwitchController F) → s.holder ≡ none → Step s (enter F d t s).1
    leaves :
        (d : Text) (outcome : Option Text) (t : Float) (s : SwitchController F)
        → s.holder ≡ some d
        → Step s (leave F d outcome t s)

  pub data Steps (s : SwitchController F) : SwitchController F → Type 0 where
    done : Steps s s
    next : {n n' : SwitchController F} → Steps s n → Step n n' → Steps s n'

  -- The flag says whether the lock is held.
  abbrev pub IsFlagged : SwitchController F → Type 0
  IsFlagged s = s.switching_in_progress ≡ is_held s.holder

  request-IsFlagged :
      (d e : Option Text) (s : SwitchController F) → IsFlagged s → IsFlagged (request F d e s).1
  unfolding request
  request-IsFlagged d e s i =
      let desired = strip (text_or_empty d) in
      if_both (λ (r : Pending × SwitchController F). IsFlagged r.1)
        (is_empty desired
          || text_eq desired (codes "UNKNOWN")
          || text_eq desired (strip (text_or_empty e)))
        i i

  enter-IsFlagged :
      (d : Text) (t : Float) (s : SwitchController F) → IsFlagged s → IsFlagged (enter F d t s).1
  unfolding enter
  enter-IsFlagged d t s i = elim (Bool-cases (text_eq d s.effective_chain)) [
    | inl e ↦ rw e i
    | inr e ↦ rw e refl
  ]

  leave-IsFlagged :
      (d : Text) (outcome : Option Text) (t : Float) (s : SwitchController F)
      → IsFlagged (leave F d outcome t s)
  unfolding leave
  leave-IsFlagged d none t s = refl
  leave-IsFlagged d (some e) t s = refl

  Step-IsFlagged : {s s' : SwitchController F} → IsFlagged s → Step s s' → IsFlagged s'
  Step-IsFlagged i (requests d e s) = request-IsFlagged d e s i
  Step-IsFlagged i (enters d t s free) = enter-IsFlagged d t s i
  Step-IsFlagged i (leaves d outcome t s held) = leave-IsFlagged d outcome t s

  -- However calls are interleaved, the flag for a switch in progress is set exactly while a call holds
  -- the lock; in particular it is cleared when a switch fails.
  pub Steps-IsFlagged : {s s' : SwitchController F} → IsFlagged s → Steps s s' → IsFlagged s'
  Steps-IsFlagged i done = i
  Steps-IsFlagged i (next steps step) = Step-IsFlagged (Steps-IsFlagged i steps) step
