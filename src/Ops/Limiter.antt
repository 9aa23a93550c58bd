-- ===== src/Ops/Limiter.antt =====
-- `CommandGuard` and `UserRateLimiter` (ops/security.py). The deques of the limiter's dict are a
-- function of the user, with the empty deque where the dict has no key.
pub mod Counts
pub mod Window
use mev_bot.Base.{
  ◌≡◌, refl, Bool, true, false, not, List, [], ◌∷◌, ◌++◌, Option, none, some, length, is_empty,
  if◌then◌else◌, any,
}
use mev_bot.Base.Int.{ℤ, pos, ltb_ℤ, eqb_ℤ}
use mev_bot.Base.Text.{Text, codes, strip}
use mev_bot.Base.Parse.{parse_int, split_commas}
use mev_bot.Base.Float.{FloatModel, fmax}

-- `out.add(int(p))`
unfoldable pub add_id : Option ℤ → Option (List ℤ) → Option (List ℤ)
add_id none ids = none
add_id (some n) none = none
add_id (some n) (some ids) = some (n ∷ ids)

-- The loop of `parse_id_csv`; `none` is the ValueError of `int`.
unfoldable pub ids_of : List Text → Option (List ℤ)
unfolding strip parse_int add_id
ids_of [] = some []
ids_of (part ∷ parts) =
    let rest = ids_of parts in
    let p = strip part in if is_empty p then rest else add_id (parse_int p) rest

unfoldable pub parse_id_csv : Text → Option (List ℤ)
unfolding split_commas ids_of
parse_id_csv raw = ids_of (split_commas raw)

-- `CommandGuard`, whose sets are lists.
pub record CommandGuard : Type 0 where
  pub allowed_user_ids : List ℤ
  pub allowed_role_ids : List ℤ
  pub open_mode_warned : Bool

abbrev pub has_id : List ℤ → ℤ → Bool
has_id ids r = any (eqb_ℤ r) ids

unfoldable pub authorize : ℤ → List ℤ → CommandGuard → (Bool × Text) × CommandGuard
authorize user_id role_ids g =
    if not (is_empty g.allowed_user_ids)
    then (if has_id g.allowed_user_ids user_id
        then ((true, codes "ok_user"), g)
        else ((false, codes "unauthorized_user"), g))
    else if not (is_empty g.allowed_role_ids)
    then (if any (has_id g.allowed_role_ids) role_ids
        then ((true, codes "ok_role"), g)
        else ((false, codes "unauthorized_role"), g))
    else ((true, codes "open_mode"), record g { open_mode_warned = true })

pub record UserRateLimiter (F : FloatModel) : Type 0 where
  pub limit : ℤ
  pub window_s : F.Float
  pub events : ℤ → List F.Float

-- What `allow` returns: `(True, 0.0)`, `(False, retry_after)`, or the IndexError of `q[0]` on an
-- empty deque, which a limit that is not positive comes to.
pub data Allowed (F : FloatModel) : Type 0 where
  granted : Allowed F
  wait : F.Float → Allowed F
  index_error : Allowed F

module _ (F : FloatModel) where
  open F use {Float, at_most, sub, lit}

  -- `while q and q[0] <= cutoff: q.popleft()`
  unfoldable pub drop_old : Float → List Float → List Float
  drop_old cutoff [] = []
  drop_old cutoff (x ∷ q) = if at_most x cutoff then drop_old cutoff q else x ∷ q

  unfoldable pub retry_after : Float → Float → List Float → Allowed F
  unfolding fmax
  retry_after t window_s [] = index_error
  retry_after t window_s (x ∷ q) = wait (fmax F (lit 0 1) (sub window_s (sub t x)))

  abbrev pub set_events : ℤ → List Float → UserRateLimiter F → UserRateLimiter F
  set_events u q s = record s { events = λ v. if eqb_ℤ u v then q else s.events v }

  -- `allow`, from the deque of the user that the loop leaves.
  unfoldable pub allow_from :
      ℤ → Float → List Float → UserRateLimiter F → Allowed F × UserRateLimiter F
  unfolding retry_after
  allow_from user_id t q s =
      if ltb_ℤ (pos (length q)) s.limit
      then (granted, set_events user_id (q ++ t ∷ []) s)
      else (retry_after t s.window_s q, set_events user_id q s)

  unfoldable pub allow : ℤ → Float → UserRateLimiter F → Allowed F × UserRateLimiter F
  unfolding drop_old allow_from
  allow user_id t s = allow_from user_id t (drop_old (sub t s.window_s) (s.events user_id)) s
