-- ===== src/Backrun.antt =====
-- bot/hunter/backrun_calc.py. The settings, the reserves and the price of the adapter are arguments.
pub mod Thresholds
mod Tests
use mev_bot.Base.{Bool, true, false, ◌&&◌, Option, none, some, if◌then◌else◌}
use mev_bot.Base.Int.{ℤ, pos, ◌+ℤ◌}
use mev_bot.Base.Text.{Text, codes, text_eq}
use mev_bot.Base.Float.{FloatModel, below, fmax, fmin}

pub record TargetSwap (F : FloatModel) : Type 0 where
  pub chain : Text
  pub dex : Text
  pub pool_fee_bps : ℤ
  pub token_in : Text
  pub token_out : Text
  pub amount_in : F.Float
  pub amount_in_usd : F.Float
  pub pool_liquidity_usd : F.Float
  pub base_fee_gwei : F.Float
  pub priority_fee_gwei : F.Float

-- The entry of a chain in `gas_estimates`.
pub record GasEstimates : Type 0 where
  pub swap_v2 : Option ℤ
  pub swap_v3 : Option ℤ
  pub bundle_overhead : Option ℤ

-- `settings.hunter_strategy`, with the gas estimates of the target's chain, which may be missing.
pub record HunterStrategy (F : FloatModel) : Type 0 where
  pub min_pool_liquidity_usd : F.Float
  pub max_trade_share_of_pool : F.Float
  pub min_profit_usd : F.Float
  pub max_gas_ratio : F.Float
  pub gas_cfg : GasEstimates

-- The `Opportunity`, with the entries of its context as fields.
pub record BackrunOpportunity (F : FloatModel) : Type 0 where
  pub chain : Text
  pub detector : Text
  pub score : F.Float
  pub liquidity_usd : F.Float
  pub expected_profit_usd : F.Float
  pub dex : Text
  pub pool_fee_bps : ℤ
  pub our_trade_usd : F.Float
  pub units : ℤ
  pub gas_price_gwei : F.Float
  pub gross_gain_usd : F.Float
  pub gas_cost_usd : F.Float

pub data Rejection : Type 0 where
  low_pool_liquidity tiny_trade below_min_profit_usd gas_cost_high gas_ratio_high : Rejection

-- The opportunity, or the reason of the rejection that is counted.
pub data Estimate (F : FloatModel) : Type 0 where
  rejected : Rejection → Estimate F
  found : BackrunOpportunity F → Estimate F

abbrev pub units_or : Option ℤ → ℤ → ℤ
units_or none d = d
units_or (some n) d = n

module _ (F : FloatModel) where
  open F use {Float, at_most, add, sub, mul, div, of_ℤ, lit}

  unfoldable pub apply_fee : Float → ℤ → Float
  apply_fee amount_in fee_bps = mul amount_in (sub (lit 1 0) (div (of_ℤ fee_bps) (lit 10000 0)))

  unfoldable pub approx_v2_out : Float → Float → Float → ℤ → Float
  unfolding apply_fee
  approx_v2_out amount_in r_in r_out fee_bps =
      let ai = apply_fee amount_in fee_bps in div (mul ai r_out) (add r_in ai)

  module _ (cfg : HunterStrategy F) (t : TargetSwap F)
      (reserves_in reserves_out eth_usd : Float) where
    unfoldable pub our_trade_usd : Float
    unfolding fmin
    our_trade_usd =
        fmin F (mul t.amount_in_usd (lit 6 1))
          (mul t.pool_liquidity_usd cfg.max_trade_share_of_pool)

    unfoldable pub our_amount_in : Float
    unfolding our_trade_usd fmax
    our_amount_in = mul t.amount_in (div our_trade_usd (fmax F (lit 1 9) t.amount_in_usd))

    -- What the purchase, the target and the sale give back: the two branches of the code are the same.
    unfoldable pub back_to_in : Float
    unfolding approx_v2_out apply_fee our_amount_in
    back_to_in =
        let out_pre = approx_v2_out our_amount_in reserves_in reserves_out t.pool_fee_bps in
        let r_in_a = add reserves_in (apply_fee our_amount_in t.pool_fee_bps) in
        let r_out_a = sub reserves_out out_pre in
        let out_target = approx_v2_out t.amount_in r_in_a r_out_a t.pool_fee_bps in
        let r_in_b = add r_in_a (apply_fee t.amount_in t.pool_fee_bps) in
        let r_out_b = sub r_out_a out_target in approx_v2_out out_pre r_out_b r_in_b t.pool_fee_bps

    unfoldable pub units : ℤ
    unfolding text_eq ◌+ℤ◌
    units =
        (if text_eq t.dex (codes "v3")
          then units_or cfg.gas_cfg.swap_v3 (pos 160000)
          else units_or cfg.gas_cfg.swap_v2 (pos 160000))
        +ℤ units_or cfg.gas_cfg.bundle_overhead (pos 40000)

    unfoldable pub gas_cost_usd : Float
    unfolding units
    gas_cost_usd =
        mul (mul (mul (of_ℤ units) (add t.base_fee_gwei t.priority_fee_gwei)) (lit 1 9)) eth_usd

    -- The gain, or 2.5% of the target where there is none.
    unfoldable pub gross_gain_usd : Float
    unfolding back_to_in our_amount_in fmax
    gross_gain_usd =
        let usd_per_token_in = div t.amount_in_usd (fmax F (lit 1 9) t.amount_in) in
        let gain = mul (fmax F (lit 0 1) (sub back_to_in our_amount_in)) usd_per_token_in in
        if at_most gain (lit 0 0) then mul t.amount_in_usd (lit 25 3) else gain

    unfoldable pub gas_ratio : Float
    unfolding gross_gain_usd gas_cost_usd
    gas_ratio =
        if at_most gross_gain_usd (lit 0 0)
        then lit 1000000000 0
        else div gas_cost_usd gross_gain_usd

    unfoldable pub net_profit_usd : Float
    unfolding gross_gain_usd gas_cost_usd
    net_profit_usd = sub gross_gain_usd gas_cost_usd

    unfoldable pub opportunity : BackrunOpportunity F
    unfolding net_profit_usd gross_gain_usd gas_cost_usd units our_trade_usd fmin
    opportunity = record {
      chain = t.chain;
      detector = codes "sniper_backrun";
      score = fmin F (lit 10 1) (div net_profit_usd (mul cfg.min_profit_usd (lit 50 1)));
      liquidity_usd = t.pool_liquidity_usd;
      expected_profit_usd = net_profit_usd;
      dex = t.dex;
      pool_fee_bps = t.pool_fee_bps;
      our_trade_usd = our_trade_usd;
      units = units;
      gas_price_gwei = add t.base_fee_gwei t.priority_fee_gwei;
      gross_gain_usd = gross_gain_usd;
      gas_cost_usd = gas_cost_usd;
    }

    unfoldable pub estimate_backrun : Estimate F
    unfolding opportunity our_trade_usd net_profit_usd gas_cost_usd gas_ratio
    estimate_backrun =
        if below F t.pool_liquidity_usd cfg.min_pool_liquidity_usd
        then rejected low_pool_liquidity
        else if at_most our_trade_usd (lit 0 0)
        then rejected tiny_trade
        else if below F net_profit_usd cfg.min_profit_usd
        then rejected below_min_profit_usd
        else if below F (mul cfg.min_profit_usd (lit 10 0)) gas_cost_usd
        then rejected gas_cost_high
        else if at_most cfg.max_gas_ratio gas_ratio
        then rejected gas_ratio_high
        else found opportunity
