-- ===== src/Engine.antt =====
-- bot/exec/engine.py: the fee policy, the RPC caller with its circuit breaker, the nonce and
-- blockhash caches, and the reconciliation of a trade. The clock, the randomness and the network
-- are arguments; the metrics that the code writes are not modelled.
pub mod Fees
pub mod Breaker
pub mod Caller
pub mod Nonces
pub mod Blockhash
pub mod Reconcile
mod Tests
use mev_bot.Base.{ℕ}
use mev_bot.Base.Text.{Text}
use mev_bot.Base.Dict.{Dict}
use mev_bot.Base.Result.{Result}
use mev_bot.Base.Float.{FloatModel}
use mev_bot.Engine.Fees.{FeePolicy}
use mev_bot.Engine.Nonces.{NonceManager, new_manager, next_nonce}
use mev_bot.Engine.Blockhash.{BlockhashManager, new_blockhashes, get_recent_blockhash}

pub record ExecutionEngine (F : FloatModel) : Type 0 where
  pub chain_fee_policies : Dict (FeePolicy F)
  pub nonces : NonceManager F
  pub blockhash : BlockhashManager F

module _ (F : FloatModel) where
  open F use {Float}

  -- `__init__`, with the two times to live that it reads from the environment.
  unfoldable pub new_engine : Dict (FeePolicy F) → Float → Float → ExecutionEngine F
  unfolding new_manager new_blockhashes
  new_engine policies nonce_ttl blockhash_ttl = record {
    chain_fee_policies = policies;
    nonces = new_manager F nonce_ttl;
    blockhash = new_blockhashes F blockhash_ttl;
  }

  module _ {E : Type 0} where
    unfoldable pub reserve_nonce :
        Text → Float → Result E ℕ → ExecutionEngine F → Result E ℕ × ExecutionEngine F
    unfolding next_nonce
    reserve_nonce address now fetched e =
        let (r, nonces) = next_nonce F address now fetched e.nonces in
        (r, record e { nonces = nonces })

    unfoldable pub current_blockhash :
        Float → Result E Text → ExecutionEngine F → Result E Text × ExecutionEngine F
    unfolding get_recent_blockhash
    current_blockhash now fetched e =
        let (r, blockhash) = get_recent_blockhash F now fetched e.blockhash in
        (r, record e { blockhash = blockhash })
