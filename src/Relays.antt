-- ===== src/Relays.antt =====
-- The parts of bot/exec/orderflow.py that its router is made of: results, circuits, execution modes, the
-- clients' reading of an error, and the order of the relays. A rule of the configuration is given as
-- whether it applies.
use mev_bot.Base.{
  Bool, true, false, ◌||◌, not, Option, none, some, List, [], ◌∷◌, ◌++◌, if◌then◌else◌, keep, any,
}
use mev_bot.Base.Int.{ℤ}
use mev_bot.Base.Text.{Text, codes, text_eq, norm, lower, member, contains}
use mev_bot.Base.Float.{FloatModel}
use mev_bot.State.{BotState, ready, trading}
use mev_bot.Control.{ControlState}

pub record SubmitResult : Type 0 where
  pub ok : Bool
  pub tx_hash : Option Text
  pub relay : Text
  pub error : Option Text

pub record Circuit (F : FloatModel) : Type 0 where
  pub fail_threshold : ℤ
  pub cooldown_s : F.Float
  pub fail_count : ℤ
  pub opens_at : F.Float

-- `mode in {"dryrun", "paper", "live"}`, or paper.
unfoldable pub execution_mode : {V : Type 0} → ControlState V → Text
unfolding norm member
execution_mode op =
    if member (norm op.mode) (codes "dryrun" ∷ codes "paper" ∷ codes "live" ∷ [])
    then norm op.mode
    else codes "paper"

-- `target_state in {BotState.READY, BotState.TRADING}`
abbrev pub may_send : BotState → Bool
may_send ready = true
may_send trading = true
may_send s = false

abbrev pub failed : Text → Text → SubmitResult
failed relay error = record { ok = false; tx_hash = none; relay = relay; error = some error }

-- `_mode_virtual_submit_result`, with the text of the time.
unfoldable pub virtual_result : Text → Text → Option SubmitResult
unfolding text_eq
virtual_result mode ts =
    if text_eq mode (codes "live")
    then none
    else if text_eq mode (codes "dryrun")
    then some (record { ok = true; tx_hash = none; relay = codes "dryrun"; error = none })
    else some (record {
      ok = true;
      tx_hash = some (codes "paper:" ++ ts);
      relay = codes "paper";
      error = none;
    })

unfoldable pub is_retryable : Text → Bool
unfolding lower contains
is_retryable err =
    any (λ x. contains x (lower err))
      (codes "timeout" ∷ codes "temporarily" ∷ codes "unavailable" ∷ codes "rate" ∷ [])

unfoldable pub classify_reason : Text → Text
unfolding lower contains
classify_reason err =
    if contains (codes "nonce too low") (lower err)
    then codes "nonce_too_low"
    else if contains (codes "underpriced") (lower err) || contains (codes "fee too low") (lower err)
    then codes "fee_underpriced"
    else if contains (codes "reverted") (lower err)
    then codes "reverted"
    else if contains (codes "simulation") (lower err) || contains (codes "sim") (lower err)
    then codes "simulation_fail"
    else if contains (codes "rate") (lower err)
    then codes "rate_limit"
    else codes "other"

abbrev pub promote : Text → List Text → List Text
promote name seq = if member name seq then name ∷ keep (λ x. not (text_eq x name)) seq else seq

-- Which rules of the configuration apply; `avoid` are the relays whose rules do, in their order.
pub record Rules : Type 0 where
  pub prefer_flashbots : Bool
  pub prefer_cow : Bool
  pub avoid : List Text
  pub offchain_solver : Bool

-- `seq.remove(name)`, of the first occurrence.
abbrev pub remove_first : Text → List Text → List Text
remove_first name [] = []
remove_first name (x ∷ xs) = if text_eq x name then xs else x ∷ remove_first name xs

abbrev pub demote_all : List Text → List Text → List Text
demote_all [] seq = seq
demote_all (name ∷ names) seq =
    demote_all names (if member name seq then remove_first name seq ++ name ∷ [] else seq)

unfoldable pub compute_route_sequence : Rules → List Text → List Text
unfolding member text_eq
compute_route_sequence r order =
    let s1 : List Text =
      if r.prefer_flashbots then promote (codes "flashbots_protect") order else order in
    let s2 : List Text = if r.prefer_cow then promote (codes "cow_protocol") s1 else s1 in
    let s3 : List Text = demote_all r.avoid s2 in
    if r.offchain_solver then promote (codes "cow_protocol") s3 else s3

abbrev pub error_or : Option Text → Text → Text
error_or none d = d
error_or (some []) d = d
error_or (some (c ∷ cs)) d = c ∷ cs
