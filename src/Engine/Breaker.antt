-- ===== src/Engine/Breaker.antt =====
-- `RpcCircuitBreaker` (bot/exec/engine.py). The gauge and the counter of trips are not modelled.
pub mod Opening
use mev_bot.Base.{
  ℕ, zero, suc, ◌+◌, Bool, true, false, ◌&&◌, not, List, [], ◌∷◌, if◌then◌else◌, leb, length,
  push_bounded,
}
use mev_bot.Base.Int.{ℤ, pos, pos_part}
use mev_bot.Base.Float.{FloatModel, below, fmax, fmin}

pub record Breaker (F : FloatModel) : Type 0 where
  pub window_size : ℕ
  pub error_ratio_threshold : F.Float
  pub open_seconds : F.Float
  -- 1 for a failure, 0 for a success; the oldest first
  pub events : List ℕ
  pub open_until : F.Float

abbrev pub sum : List ℕ → ℕ
sum [] = 0
sum (x ∷ xs) = x + sum xs

abbrev pub max_nat : ℕ → ℕ → ℕ
max_nat a b = if leb b a then a else b

abbrev pub min_nat : ℕ → ℕ → ℕ
min_nat a b = if leb a b then a else b

module _ (F : FloatModel) where
  open F use {Float, at_most, add, div, of_ℤ, lit}

  -- `__init__`
  unfoldable pub new_breaker : ℤ → Float → Float → Breaker F
  unfolding fmax fmin
  new_breaker window_size error_ratio_threshold open_seconds = record {
    window_size = max_nat 5 (pos_part window_size);
    error_ratio_threshold = fmax F (lit 0 0) (fmin F (lit 1 0) error_ratio_threshold);
    open_seconds = fmax F (lit 1 0) open_seconds;
    events = [];
    open_until = lit 0 0;
  }

  -- `is_open`, at the time that it reads from the clock.
  unfoldable pub is_open : Float → Breaker F → Bool
  is_open now b = below F now b.open_until

  unfoldable pub error_ratio : List ℕ → Float
  error_ratio [] = lit 0 0
  error_ratio (e ∷ es) = div (of_ℤ (pos (sum (e ∷ es)))) (of_ℤ (pos (length (e ∷ es))))

  -- The test for opening, on the window with the new outcome.
  unfoldable pub trips : Bool → List ℕ → Breaker F → Bool
  unfolding error_ratio
  trips ok events b =
      not ok
      && at_most b.error_ratio_threshold (error_ratio events)
      && leb (min_nat 10 b.window_size) (length events)

  -- `record`, with the time at which the opening would begin.
  unfoldable pub record_outcome : Bool → Float → Breaker F → Breaker F
  unfolding trips
  record_outcome ok now b =
      let events = push_bounded b.window_size (if ok then 0 else 1) b.events in
      if trips ok events b
      then record b { events = events; open_until = add now b.open_seconds }
      else record b { events = events }
