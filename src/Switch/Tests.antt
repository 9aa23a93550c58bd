-- ===== src/Switch/Tests.antt =====
-- A switch of the chain that fails.
use mev_bot.Base.{◌≡◌, refl, false, none, some}
use mev_bot.Base.Int.{pos}
use mev_bot.Base.Text.{codes, text_eq}
use mev_bot.Base.Float.Ints.{fin, int_floats}
use mev_bot.Switch.{SwitchController, enter, leave}
use mev_bot.Switch.Locking.{IsFlagged, Steps-IsFlagged, done, next, enters, leaves}

abbrev start : SwitchController int_floats
start = record {
  desired_chain = codes "UNKNOWN";
  effective_chain = codes "UNKNOWN";
  switching_in_progress = false;
  last_transition_error = none;
  last_started_ts = fin (pos 0);
  last_finished_ts = fin (pos 0);
  holder = none;
}

abbrev entered : SwitchController int_floats
entered = (enter int_floats (codes "base") (fin (pos 1)) start).1

held : entered.holder ≡ some (codes "base")
unfolding enter text_eq
held = refl

abbrev failed : SwitchController int_floats
failed = leave int_floats (codes "base") (some (codes "timeout")) (fin (pos 2)) entered

Steps-IsFlagged_example : IsFlagged failed
Steps-IsFlagged_example = Steps-IsFlagged refl (
    next (next done (enters (codes "base") (fin (pos 1)) start refl))
      (leaves (codes "base") (some (codes "timeout")) (fin (pos 2)) entered held))
