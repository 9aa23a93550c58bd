-- ===== src/Flashloan/Pools.antt =====
-- The checks of `AaveV3FlashloanProvider.__init__` (adapters/flashloans/aave_v3.py).
use mathlib.Core.Path.{subst}
use mev_bot.Base.{
  ◌≡◌, ◌⊎◌, refl, inl, inr, Bool, true, false, ◌&&◌, not, Option, [], ◌∷◌, is_empty, arith,
  if◌then◌else◌, Bool-cases,
}
use mev_bot.Base.Text.{Text, codes, text_eq, text_eq→eq, member}
use mev_bot.Base.Result.{Result, ok, raise}
use mev_bot.Base.Float.{FloatModel}
use mev_bot.Flashloan.{
  AaveV3FlashloanProvider, ChainConfig, ConfigError, checked, configured, new_provider,
  missing_aave_v3_pool, invalid_executor_mode, missing_executor_address, missing_executor_bytecode,
}

four_tests :
    {F : FloatModel} (a b c d : Bool) (x y : AaveV3FlashloanProvider F)
    → ◌≡◌ {A = Result (ConfigError F) (AaveV3FlashloanProvider F)}
        (if a
          then raise missing_aave_v3_pool
          else if not b
          then raise invalid_executor_mode
          else if c
          then raise missing_executor_address
          else if d
          then raise missing_executor_bytecode
          else ok x)
        (ok y)
    → (a ≡ false) × ((b ≡ true) × ((c ≡ false) × ((d ≡ false) × (x ≡ y))))
four_tests true b c d x y h = cc
four_tests false false c d x y h = cc
four_tests false true true d x y h = cc
four_tests false true false true x y h = cc
four_tests false true false false x y h = (refl, (refl, (refl, (refl, cc))))

module _ (F : FloatModel) where
  -- A pool, and what the executor's mode needs.
  pub record IsReady (p : AaveV3FlashloanProvider F) : Type 0 where
    pub pool : is_empty p.pool_address ≡ false
    pub executor :
        ((p.executor_mode ≡ codes "predeployed") × (is_empty p.executor_address ≡ false))
        ⊎ ((p.executor_mode ≡ codes "bytecode") × (is_empty p.executor_bytecode ≡ false))

  checked-IsReady : (p q : AaveV3FlashloanProvider F) → checked F p ≡ ok q → IsReady q
  unfolding checked member
  checked-IsReady p q h =
      let predeployed : Bool = text_eq p.executor_mode (codes "predeployed") in
      let bytecode : Bool = text_eq p.executor_mode (codes "bytecode") in
      let (pool, (mode, (address, (code, same)))) =
        four_tests (is_empty p.pool_address)
          (member p.executor_mode (codes "predeployed" ∷ codes "bytecode" ∷ []))
          (predeployed && is_empty p.executor_address) (bytecode && is_empty p.executor_bytecode) p
          q h in
      subst IsReady same (record {
        pool = pool;
        executor = elim (Bool-cases predeployed) [
          | inl e ↦ inl (text_eq→eq p.executor_mode (codes "predeployed") e, cc (rw e at address))
          | inr e ↦
              let b : bytecode ≡ true = ground (arith, e, mode) in
              inr (text_eq→eq p.executor_mode (codes "bytecode") b, cc (rw b at code))
        ];
      })

  -- A provider that is constructed has a pool, and for its mode, which is one of the two, an executor:
  -- the address of a deployed one, or the bytecode of one.
  pub new_provider-IsReady :
      (chain network : Text) (c : ChainConfig F) (default_fee : Option F.Float)
      (p : AaveV3FlashloanProvider F)
      → new_provider F chain network c default_fee ≡ ok p
      → IsReady p
  unfolding new_provider
  new_provider-IsReady chain network c default_fee p h =
      checked-IsReady (configured F chain network c default_fee) p h
