-- ===== src/ExecGuard.antt =====
-- bot/exec/guard.py: whether the environment, whose variables are a dict, blocks every execution. The scope, which the source does
-- not use, is left out.
use mev_bot.Base.{
  Bool, true, false, not, Option, none, some, List, [], ◌∷◌, ◌++◌, if◌then◌else◌, is_empty,
}
use mev_bot.Base.Text.{Text, codes, strip, norm, lower, upper, or_else, member}
use mev_bot.Base.Dict.{Dict, get}
use mev_bot.Base.Parse.{split_commas}
use mev_bot.Gates.{text_or_empty}

unfoldable pub truthy : Option Text → Bool
unfolding member norm
truthy v =
    member (norm (text_or_empty v)) (codes "1" ∷ codes "true" ∷ codes "yes" ∷ codes "on" ∷ [])

unfoldable pub runtime_state : Dict Text → Text
unfolding upper strip get
runtime_state env = upper (
    strip (
      or_else
        (or_else (text_or_empty (get (codes "BOT_RUNTIME_STATE") env))
          (text_or_empty (get (codes "BOT_STATE") env)))
        (codes "READY")))

-- `{s.strip().upper() for s in raw.split(",") if s.strip()}`
abbrev pub upper_names : List Text → List Text
upper_names [] = []
upper_names (s ∷ ss) =
    if is_empty (strip s) then upper_names ss else upper (strip s) ∷ upper_names ss

abbrev pub states_text : Option Text → Text
states_text none = codes "TRADING"
states_text (some t) = t

-- `allowed_states`
unfoldable pub guard_states : Dict Text → List Text
unfolding upper strip split_commas get
guard_states env =
    upper_names (split_commas (strip (states_text (get (codes "FEATURE_EXEC_ALLOWED_STATES") env))))

unfoldable pub should_block_execution : Dict Text → Bool × Text
unfolding truthy runtime_state guard_states member lower get
should_block_execution env =
    if not (truthy (get (codes "FEATURE_EXEC_GUARD") env))
    then (false, codes "guard_disabled")
    else if not (truthy (get (codes "FEATURE_EXEC_ENABLE") env))
    then (true, codes "feature_exec_enable_false")
    else if not (member (runtime_state env) (guard_states env))
    then (true, codes "state_" ++ lower (runtime_state env))
    else (false, codes "allowed")
