-- ===== src/Ops/Confirmations.antt =====
-- `ConfirmationStore` (ops/confirmations.py). The random token of `create` is an argument; the values
-- of `args` are texts.
pub mod Once
use mev_bot.Base.{Bool, true, false, not, Option, none, some, List, [], ◌∷◌, if◌then◌else◌}
use mev_bot.Base.Int.{ℤ, eqb_ℤ}
use mev_bot.Base.Text.{Text, codes, text_eq}
use mev_bot.Base.Dict.{Dict, get, put, pop, keep_values}
use mev_bot.Base.Float.{FloatModel, below}

pub record Confirmation (F : FloatModel) : Type 0 where
  pub token : Text
  pub action : Text
  pub args : Dict Text
  pub actor_id : ℤ
  pub expires_at : F.Float

pub record ConfirmationStore (F : FloatModel) : Type 0 where
  pub ttl_s : F.Float
  pub items : Dict (Confirmation F)

-- The results of `consume` that are not a success.
pub data Refusal : Type 0 where
  invalid_or_expired actor_mismatch expired : Refusal

pub data Consumed (F : FloatModel) : Type 0 where
  confirmed : Confirmation F → Consumed F
  refused : Refusal → Consumed F

module _ (F : FloatModel) where
  open F use {Float, at_most, add}

  -- `_gc`: what has expired is removed.
  unfoldable pub gc : Float → ConfirmationStore F → ConfirmationStore F
  unfolding keep_values
  gc now s = record s { items = keep_values (λ c. not (below F c.expires_at now)) s.items }

  unfoldable pub create :
      Text
      → Text
      → Dict Text
      → ℤ
      → Float
      → ConfirmationStore F
      → Confirmation F × ConfirmationStore F
  unfolding put gc
  create token action args actor_id now s =
      let item : Confirmation F = record {
        token = token;
        action = action;
        args = args;
        actor_id = actor_id;
        expires_at = add now s.ttl_s;
      } in
      (item, gc now (record s { items = put token item s.items }))

  -- `consume` below the garbage collection, on what the token is found to stand for.
  unfoldable pub consume_found :
      Text
      → ℤ
      → Float
      → Option (Confirmation F)
      → ConfirmationStore F
      → Consumed F × ConfirmationStore F
  unfolding pop
  consume_found token actor_id now none s = (refused invalid_or_expired, s)
  consume_found token actor_id now (some item) s =
      if not (eqb_ℤ actor_id item.actor_id)
      then (refused actor_mismatch, s)
      else if below F item.expires_at now
      then (refused expired, record s { items = pop token s.items })
      else (confirmed item, record s { items = pop token s.items })

  unfoldable pub consume : Text → ℤ → Float → ConfirmationStore F → Consumed F × ConfirmationStore F
  unfolding gc get consume_found
  consume token actor_id now s =
      let kept = gc now s in consume_found token actor_id now (get token kept.items) kept
