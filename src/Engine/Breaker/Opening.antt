-- ===== src/Engine/Breaker/Opening.antt =====
-- When the circuit breaker opens, and what its window holds.
use mev_bot.Base.{
  ℕ, ◌+◌, ◌-◌, ◌≤◌, ◌<◌, ◌≡◌, refl, ◌∙◌, Bool, true, false, List, [], ◌∷◌, ◌++◌, arith, All,
  All-append, All-drop, length, length-push_bounded, push_bounded, last_items,
  last_items-push_bounded, last_items_all, length-push_bounded_le, ap, if◌then◌else◌,
}
use mathlib.Core.List.{append-nil, append_assoc}
use mev_bot.Base.Int.{ℤ}
use mev_bot.Base.Float.{FloatModel, below}
use mev_bot.Engine.Breaker.{Breaker, new_breaker, is_open, error_ratio, record_outcome, min_nat}

-- The event that is recorded for an outcome.
abbrev pub bit : Bool → ℕ
bit ok = if ok then 0 else 1

module _ (F : FloatModel) where
  open F use {Float, at_most, add, lit}

  -- The window holds at most `window_size` outcomes, each 0 or 1, and is at least 5 wide.
  pub record IsValid (b : Breaker F) : Type 0 where
    pub bounded : length b.events ≤ b.window_size
    pub wide : 5 ≤ b.window_size
    pub bits : All (λ e. e ≤ 1) b.events

  bit-le : (ok : Bool) → bit ok ≤ 1
  bit-le ok = ground arith

  pub events-record_outcome :
      (ok : Bool) (now : Float) (b : Breaker F)
      → (record_outcome F ok now b).events ≡ push_bounded b.window_size (bit ok) b.events
  unfolding record_outcome
  events-record_outcome ok now b = ground arith

  pub window_size-record_outcome :
      (ok : Bool) (now : Float) (b : Breaker F)
      → (record_outcome F ok now b).window_size ≡ b.window_size
  unfolding record_outcome
  window_size-record_outcome ok now b = ground arith

  -- Every constructed breaker is valid.
  pub new_breaker-IsValid :
      (window : ℤ) (threshold seconds : Float) → IsValid (new_breaker F window threshold seconds)
  unfolding new_breaker
  new_breaker-IsValid window threshold seconds = ground arith

  -- Recording an outcome keeps a breaker valid.
  pub record_outcome-IsValid :
      (ok : Bool) (now : Float) (b : Breaker F) → IsValid b → IsValid (record_outcome F ok now b)
  record_outcome-IsValid ok now b h = record {
    bounded =
        rw (events-record_outcome, window_size-record_outcome)
          (length-push_bounded b.window_size (bit ok) b.events h.bounded);
    wide = rw window_size-record_outcome h.wide;
    bits = rw events-record_outcome (
        All-drop (λ e. e ≤ 1) (length b.events + 1 - b.window_size) (b.events ++ bit ok ∷ [])
          (All-append (λ e. e ≤ 1) b.events (bit ok ∷ []) h.bits (bit-le ok, tt)));
  }

  -- Outcomes one after the other, each with the time at which it is recorded.
  abbrev pub record_all : List (Bool × Float) → Breaker F → Breaker F
  record_all [] b = b
  record_all ((ok, now) ∷ rest) b = record_all rest (record_outcome F ok now b)

  abbrev pub bits_of : List (Bool × Float) → List ℕ
  bits_of [] = []
  bits_of ((ok, now) ∷ rest) = bit ok ∷ bits_of rest

  -- The abstract view: from a valid breaker, and after any outcomes, the window holds exactly the
  -- last `window_size` of all the outcomes, those that it held before included.
  pub record_all-window :
      (outcomes : List (Bool × Float)) (b : Breaker F)
      → IsValid b
      → (record_all outcomes b).events ≡ last_items b.window_size (b.events ++ bits_of outcomes)
  record_all-window [] b h = rw append-nil (rw (last_items_all b.window_size b.events h.bounded))
  record_all-window ((ok, now) ∷ rest) b h =
      record_all-window rest (record_outcome F ok now b) (record_outcome-IsValid ok now b h)
      ∙ rw (events-record_outcome, window_size-record_outcome)
          (last_items-push_bounded b.window_size (bit ok) b.events (bits_of rest) h.bounded
            ∙ ap (last_items b.window_size) (append_assoc b.events (bit ok ∷ []) (bits_of rest)))

  -- Recording a success never opens the breaker, nor does it move the end of an opening.
  pub open_until-success :
      (now : Float) (b : Breaker F) → (record_outcome F true now b).open_until ≡ b.open_until
  unfolding record_outcome
  open_until-success now b = refl

  pub few_do_not_trip :
      (ok : Bool) (now : Float) (b : Breaker F)
      → length b.events + 1 < min_nat 10 b.window_size
      → (record_outcome F ok now b).open_until ≡ b.open_until
  unfolding record_outcome
  few_do_not_trip ok now b h =
      ground (arith, length-push_bounded_le b.window_size (bit ok) b.events)

  -- While the window and the further outcomes together are fewer than ten, and fewer than the window
  -- is wide, the breaker does not open, whatever the outcomes and the threshold are.
  pub record_all_quiet :
      (outcomes : List (Bool × Float)) (b : Breaker F)
      → length b.events + length outcomes < min_nat 10 b.window_size
      → (record_all outcomes b).open_until ≡ b.open_until
  record_all_quiet [] b h = refl
  record_all_quiet ((ok, now) ∷ rest) b h =
      record_all_quiet rest (record_outcome F ok now b) (
        rw (events-record_outcome, window_size-record_outcome)
          (omega (arith, length-push_bounded_le b.window_size (bit ok) b.events, h)))
      ∙ few_do_not_trip ok now b (omega (arith, h))

  -- A failure after which the window holds at least ten outcomes, or is full, and its ratio of
  -- failures is at least the threshold opens the breaker for `open_seconds`.
  pub failure_opens :
      (now t : Float) (b : Breaker F)
      → at_most b.error_ratio_threshold (error_ratio F (push_bounded b.window_size 1 b.events))
        ≡ true
      → min_nat 10 b.window_size ≤ length (push_bounded b.window_size 1 b.events)
      → is_open F t (record_outcome F false now b) ≡ below F t (add now b.open_seconds)
  unfolding record_outcome is_open
  failure_opens now t b reached filled = ground arith
