-- ===== src/Flashloan.antt =====
-- strategies/flashloan_arb.py and adapters/flashloans/aave_v3.py, which fill the interfaces of the
-- orchestrator. The values of a transaction's metadata are texts: how a nested dict is written as one
-- is an argument.
pub mod Legs
pub mod Buckets
pub mod Pools
mod Tests
use mev_bot.Base.{
  ℕ, zero, suc, Bool, true, false, ◌&&◌, ◌||◌, not, Option, none, some, List, [], ◌∷◌, ◌++◌,
  if◌then◌else◌, is_empty, keep, map,
}
use mev_bot.Base.Int.{ℤ, pos}
use mev_bot.Base.Text.{Text, codes, text_eq, norm, strip, lower, or_else, contains, member}
use mev_bot.Base.Dict.{Dict, get, put}
use mev_bot.Base.Result.{Result, ok, raise}
use mev_bot.Base.Float.{FloatModel, fmax}
use mev_bot.Dex.{TxPlan}
use mev_bot.Gates.{Opportunity, Constraints, text_or_empty}
use mev_bot.Orchestrator.{Provider, ArbStrategy}

pub record FlashloanArbPlan (F : FloatModel) : Type 0 where
  pub provider : Text
  pub token_in : Text
  pub borrow_amount : ℤ
  pub repay_amount : ℤ
  pub fee_bps : F.Float
  pub path_tokens : List Text
  pub path_dexes : List Text
  pub expected_profit_after_costs : F.Float
  pub kind : Text

pub record SwapLeg : Type 0 where
  pub token_in : Text
  pub token_out : Text
  pub dex : Text

-- The `flashloan_arb_bundle`.
pub record Bundle : Type 0 where
  pub borrow : Text × ℤ
  pub swap_legs : List SwapLeg
  pub repay : Text × ℤ

-- `[str(x) for x in xs if str(x)]`
abbrev pub nonempty : List Text → List Text
nonempty xs = keep (λ t. not (is_empty t)) xs

abbrev pub tokens_or_mids : Constraints → List Text → List Text
tokens_or_mids c [] =
    text_or_empty c.token_in
    ∷ text_or_empty c.token_mid_1
    ∷ text_or_empty c.token_mid_2
    ∷ text_or_empty c.token_in
    ∷ []
tokens_or_mids c (t ∷ ts) = t ∷ ts

-- The path of a plan: its tokens and its packs.
unfoldable pub path_of : Text → Constraints → List Text × List Text
unfolding text_eq
path_of kind c =
    if text_eq kind (codes "triarb")
    then (tokens_or_mids c (nonempty c.path_tokens), nonempty c.path_dexes)
    else (
      text_or_empty c.token_in ∷ text_or_empty c.token_out ∷ text_or_empty c.token_in ∷ [],
      text_or_empty c.best_dex
          ∷ or_else (text_or_empty c.sell_dex) (text_or_empty c.second_best_dex)
          ∷ [],
    )

-- The pack of a leg, and those of the legs behind it.
abbrev pub dex_or_unknown : List Text → Text
dex_or_unknown [] = codes "unknown"
dex_or_unknown (x ∷ dexes) = x

abbrev pub behind : List Text → List Text
behind [] = []
behind (x ∷ dexes) = dexes

-- A leg for each token of the path but the last.
unfoldable pub swap_legs : List Text → List Text → List SwapLeg
swap_legs [] dexes = []
swap_legs (s ∷ []) dexes = []
swap_legs (s ∷ t ∷ ts) dexes =
    let rest = swap_legs (t ∷ ts) (behind dexes) in
    record { token_in = s; token_out = t; dex = dex_or_unknown dexes } ∷ rest

abbrev pub dict_or_empty : Option (Dict Text) → Dict Text
dict_or_empty none = []
dict_or_empty (some b) = b

-- `" ".join([code, msg] + […])`
unfoldable pub join_spaces : Text → List Text → Text
join_spaces t [] = t
join_spaces t (u ∷ us) = let rest = join_spaces u us in t ++ 32 ∷ rest

-- The bucket of a failure, by a test for words.
abbrev pub bucket_by : (Text → Bool) → Text
bucket_by has =
    if has (codes "insufficient") || has (codes "liquidity")
    then codes "sim_insufficient_liquidity"
    else if has (codes "slippage") || has (codes "min_out")
    then codes "sim_slippage"
    else if has (codes "repay") || has (codes "flashloan")
    then codes "sim_repay_failed"
    else if has (codes "revert")
    then codes "sim_revert"
    else if has (codes "timeout")
    then codes "sim_timeout"
    else if has (codes "rpc")
    then codes "sim_rpc_error"
    else codes "sim_failed_other"

unfoldable pub bucket_sim_failure : Text → Text → List Text → Text
unfolding norm lower contains join_spaces
bucket_sim_failure error_code error_message logs =
    bucket_by (λ w.
      contains w (join_spaces (norm error_code) (norm error_message ∷ map (λ x. lower x) logs)))

module _ (F : FloatModel) where
  open F use {Float, add, mul, div, of_ℤ, lit, round}

  unfoldable pub repay_of : Float → ℕ → ℤ
  unfolding fmax
  repay_of fee_bps size =
      round (mul (of_ℤ (pos size)) (add (lit 10 1) (div (fmax F (lit 0 1) fee_bps) (lit 10000 0))))

  -- A plan along a path; `none` is the exception of a missing token.
  unfoldable pub plan_along :
      Provider F → Text → Text → List Text × List Text → ℕ → Float → Option (FlashloanArbPlan F)
  unfolding repay_of
  plan_along p kind token_in path size profit =
      if is_empty token_in
      then none
      else some (record {
        provider = p.name;
        token_in = token_in;
        borrow_amount = pos size;
        repay_amount = repay_of p.fee_bps size;
        fee_bps = p.fee_bps;
        path_tokens = path.0;
        path_dexes = path.1;
        expected_profit_after_costs = profit;
        kind = or_else kind (codes "xarb");
      })

  unfoldable pub build_plan : Provider F → Opportunity F → ℕ → Float → Option (FlashloanArbPlan F)
  unfolding plan_along path_of norm
  build_plan p opp size profit =
      plan_along p (norm opp.kind) (text_or_empty opp.constraints.token_in)
        (path_of (norm opp.kind) opp.constraints) size profit

  unfoldable pub bundle_of : FlashloanArbPlan F → Bundle
  unfolding swap_legs
  bundle_of plan = record {
    borrow = (plan.token_in, plan.borrow_amount);
    swap_legs = swap_legs plan.path_tokens plan.path_dexes;
    repay = (plan.token_in, plan.repay_amount);
  }

  -- `attach_to_txplan`, which raises nothing.
  unfoldable pub attach_to_txplan :
      (FlashloanArbPlan F → Text) → (Bundle → Text) → TxPlan → FlashloanArbPlan F → TxPlan
  unfolding put bundle_of
  attach_to_txplan show_plan show_bundle tx plan = record tx {
    metadata = put (codes "flashloan_arb") (show_plan plan) tx.metadata;
    instruction_bundle = some (
        put (codes "flashloan_arb_bundle") (show_bundle (bundle_of plan))
          (dict_or_empty tx.instruction_bundle));
  }

  -- `FlashloanArbStrategy(provider)`, as the orchestrator calls it.
  abbrev pub flashloan_arb_strategy :
      (FlashloanArbPlan F → Text)
      → (Bundle → Text)
      → Provider F
      → ArbStrategy F (FlashloanArbPlan F)
  flashloan_arb_strategy show_plan show_bundle p = record {
    build_plan = build_plan p;
    attach = λ tx plan. some (attach_to_txplan show_plan show_bundle tx plan);
    bucket = bucket_sim_failure;
  }

  -- The keys of a chain in the configuration; `fee_bps` is that of the chain or the default.
  pub record ChainConfig : Type 0 where
    pub network : Option Text
    pub pool : Option Text
    pub fee_bps : Option Float
    pub assets : List Text
    pub executor_mode : Option Text
    pub executor_address : Option Text
    pub executor_bytecode : Option Text

  pub record AaveV3FlashloanProvider : Type 0 where
    pub chain : Text
    pub network : Text
    pub pool_address : Text
    pub provider_fee_bps : Float
    pub assets : List Text
    pub executor_mode : Text
    pub executor_address : Text
    pub executor_bytecode : Text

  pub data ConfigError : Type 0 where
    missing_aave_v3_pool invalid_executor_mode : ConfigError
    missing_executor_address missing_executor_bytecode : ConfigError

  -- `per_chain.get("fee_bps", cfg.get("default_fee_bps", 9.0))`
  abbrev pub fee_or : Option Float → Option Float → Float
  fee_or (some x) d = x
  fee_or none (some x) = x
  fee_or none none = lit 90 1

  -- The checks at the end of `__init__`.
  unfoldable pub checked : AaveV3FlashloanProvider → Result ConfigError AaveV3FlashloanProvider
  unfolding text_eq member
  checked p =
      if is_empty p.pool_address
      then raise missing_aave_v3_pool
      else if not (member p.executor_mode (codes "predeployed" ∷ codes "bytecode" ∷ []))
      then raise invalid_executor_mode
      else if text_eq p.executor_mode (codes "predeployed") && is_empty p.executor_address
      then raise missing_executor_address
      else if text_eq p.executor_mode (codes "bytecode") && is_empty p.executor_bytecode
      then raise missing_executor_bytecode
      else ok p

  -- The attributes that `__init__` sets, from the configuration of the chain and the default fee.
  unfoldable pub configured : Text → Text → ChainConfig → Option Float → AaveV3FlashloanProvider
  unfolding norm strip
  configured chain network c default_fee = record {
    chain = norm chain;
    network =
        if is_empty (text_or_empty c.network) then norm network else norm (text_or_empty c.network);
    pool_address = norm (text_or_empty c.pool);
    provider_fee_bps = fee_or c.fee_bps default_fee;
    assets = nonempty (map (λ x. norm x) c.assets);
    executor_mode = norm (or_else (text_or_empty c.executor_mode) (codes "predeployed"));
    executor_address = norm (text_or_empty c.executor_address);
    executor_bytecode = strip (text_or_empty c.executor_bytecode);
  }

  unfoldable pub new_provider :
      Text → Text → ChainConfig → Option Float → Result ConfigError AaveV3FlashloanProvider
  unfolding checked configured
  new_provider chain network c default_fee = checked (configured chain network c default_fee)

  unfoldable pub build_flashloan_wrapper :
      (AaveV3FlashloanProvider → Text)
      → (AaveV3FlashloanProvider → Text)
      → AaveV3FlashloanProvider
      → TxPlan
      → TxPlan
  unfolding put
  build_flashloan_wrapper show_loan show_wrapper p tx = record tx {
    metadata = put (codes "flashloan") (show_loan p) tx.metadata;
    instruction_bundle =
        some
          (put (codes "flashloan_wrapper") (show_wrapper p) (dict_or_empty tx.instruction_bundle));
  }

  -- The provider as the orchestrator calls it.
  abbrev pub aave_v3 :
      (AaveV3FlashloanProvider → Text)
      → (AaveV3FlashloanProvider → Text)
      → AaveV3FlashloanProvider
      → Provider F
  aave_v3 show_loan show_wrapper p = record {
    name = codes "aave_v3";
    fee_bps = p.provider_fee_bps;
    wrap = λ tx. some (build_flashloan_wrapper show_loan show_wrapper p tx);
  }
