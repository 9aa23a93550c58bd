-- ===== src/Switch.antt =====
-- `SwitchController` (bot/core/switch_controller.py). A call of `reconcile` runs in steps, between
-- which other calls run: it writes the request and leaves or waits for the lock (`request`), takes
-- the lock and checks again (`enter`), and ends when the two callbacks have returned or raised
-- (`leave`). The clock is an argument; an error is its text.
pub mod Locking
mod Tests
use mev_bot.Base.{Bool, true, false, ◌||◌, Option, none, some, [], is_empty, if◌then◌else◌}
use mev_bot.Base.Text.{Text, codes, text_eq, strip, or_else}
use mev_bot.Base.Float.{FloatModel}
use mev_bot.Gates.{text_or_empty}

pub record SwitchController (F : FloatModel) : Type 0 where
  pub desired_chain : Text
  pub effective_chain : Text
  pub switching_in_progress : Bool
  pub last_transition_error : Option Text
  pub last_started_ts : F.Float
  pub last_finished_ts : F.Float
  -- The desired chain of the call that holds `_lock`.
  pub holder : Option Text

-- Where a call goes on: it has returned False, or it waits for the lock.
pub data Pending : Type 0 where
  returned_false : Pending
  waits_for : Text → Pending

module _ (F : FloatModel) where
  open F use {Float}

  -- `reconcile` up to `async with self._lock`.
  unfoldable pub request :
      Option Text → Option Text → SwitchController F → Pending × SwitchController F
  unfolding strip text_eq
  request desired_chain effective_chain s =
      let desired = strip (text_or_empty desired_chain) in
      let effective = strip (text_or_empty effective_chain) in
      let s' : SwitchController F = record s {
        desired_chain = or_else desired (codes "UNKNOWN");
        effective_chain = or_else effective (codes "UNKNOWN");
      } in
      if is_empty desired || text_eq desired (codes "UNKNOWN") || text_eq desired effective
      then (returned_false, s')
      else (waits_for desired, s')

  -- The lock is taken, when it is free, and the chain is checked again; the lock is free again at once
  -- when the chain is already the desired one.
  unfoldable pub enter : Text → Float → SwitchController F → Bool × SwitchController F
  unfolding text_eq
  enter desired t s = if text_eq desired s.effective_chain then (false, s) else (
    true,
    record s {
      switching_in_progress = true;
      last_transition_error = none;
      last_started_ts = t;
      holder = some desired;
    },
  )

  -- `await apply_fn(desired)` and `await validate_fn(desired)` have returned (`none`) or raised.
  unfoldable pub leave : Text → Option Text → Float → SwitchController F → SwitchController F
  leave desired none t s = record s {
    effective_chain = desired;
    switching_in_progress = false;
    last_finished_ts = t;
    holder = none;
  }
  leave desired (some e) t s = record s {
    last_transition_error = some e;
    switching_in_progress = false;
    last_finished_ts = t;
    holder = none;
  }
