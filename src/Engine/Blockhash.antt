-- ===== src/Engine/Blockhash.antt =====
-- `SolBlockhashManager` (bot/exec/engine.py).
use mev_bot.Base.{◌≡◌, Bool, true, false, ◌&&◌, Option, none, some, [], ◌∷◌, arith, if◌then◌else◌}
use mev_bot.Base.Text.{Text}
use mev_bot.Base.Result.{Result, ok, raise}
use mev_bot.Base.Float.{FloatModel, fmax}

pub record BlockhashManager (F : FloatModel) : Type 0 where
  pub ttl_s : F.Float
  pub value : Option Text
  pub ts : F.Float

-- The truth of an optional text.
abbrev pub truthy : Option Text → Bool
truthy none = false
truthy (some []) = false
truthy (some (c ∷ cs)) = true

abbrev pub text_of : Option Text → Text
text_of none = []
text_of (some v) = v

module _ (F : FloatModel) where
  open F use {Float, at_most, sub, lit}

  -- `__init__`
  unfoldable pub new_blockhashes : Float → BlockhashManager F
  unfolding fmax
  new_blockhashes ttl_s = record { ttl_s = fmax F (lit 1 0) ttl_s; value = none; ts = lit 0 0 }

  module _ {E : Type 0} where
    -- `get_recent_blockhash`; `fetched` is what `fetch_blockhash` answers if it is asked.
    unfoldable pub get_recent_blockhash :
        Float → Result E Text → BlockhashManager F → Result E Text × BlockhashManager F
    get_recent_blockhash now fetched m =
        if truthy m.value && at_most (sub now m.ts) m.ttl_s
        then (ok (text_of m.value), m)
        else elim fetched [
          | ok v ↦ (ok v, record m { value = some v; ts = now })
          | raise e ↦ (raise e, m)
        ]

  unfoldable pub invalidate : BlockhashManager F → BlockhashManager F
  invalidate m = record m { ts = lit 0 0 }

  module _ {E : Type 0} where
    -- A blockhash that was fetched and is not empty is returned, without another fetch and without a
    -- change of the cache, by a second call within the time to live of the first.
    pub get_recent_blockhash_cached :
        (now now' : Float) (c : Text) (fetched fetched' : Result E Text) (m : BlockhashManager F)
        → truthy m.value ≡ false
        → fetched ≡ ok c
        → truthy (some c) ≡ true
        → at_most (sub now' now) m.ttl_s ≡ true
        → let m₁ = (get_recent_blockhash now fetched m).1 in
          get_recent_blockhash now' fetched' m₁ ≡ (ok c, m₁)
    unfolding get_recent_blockhash
    get_recent_blockhash_cached now now' c fetched fetched' m empty e full fresh =
        rw (empty, e, full, fresh)

    -- After `invalidate`, and while the clock stands further from its zero than the time to live, a
    -- call hands out what the network answers, errors included.
    pub get_recent_blockhash-invalidate :
        (now : Float) (fetched : Result E Text) (m : BlockhashManager F)
        → at_most (sub now (lit 0 0)) m.ttl_s ≡ false
        → (get_recent_blockhash now fetched (invalidate m)).0 ≡ fetched
    unfolding get_recent_blockhash invalidate
    get_recent_blockhash-invalidate now fetched m stale = ground arith
