-- ===== src/Backrun/Tests.antt =====
-- A backrun whose trade itself gains nothing, and which is offered.
use mev_bot.Base.{ℕ, ◌≡◌, refl, true, none}
use mev_bot.Base.Int.{pos, ◌+ℤ◌, ◌-ℤ◌, ◌*ℤ◌}
use mev_bot.Base.Text.{codes, text_eq}
use mev_bot.Base.Float.{fmax, fmin}
use mev_bot.Base.Float.Ints.{Ext, fixed_floats}
use mev_bot.Backrun.{
  TargetSwap, HunterStrategy, found, estimate_backrun, opportunity, our_trade_usd, our_amount_in,
  back_to_in, units, gas_cost_usd, gross_gain_usd, gas_ratio, net_profit_usd, approx_v2_out,
  apply_fee,
}
use mev_bot.Backrun.Thresholds.{IsWithin, estimate_backrun-IsWithin}

abbrev usd : ℕ → Ext
usd n = fixed_floats.lit n 0

abbrev strategy : HunterStrategy fixed_floats
strategy = record {
  min_pool_liquidity_usd = usd 1000;
  max_trade_share_of_pool = fixed_floats.lit 1 1;
  min_profit_usd = usd 5;
  max_gas_ratio = fixed_floats.lit 5 1;
  gas_cfg = record { swap_v2 = none; swap_v3 = none; bundle_overhead = none };
}

abbrev target : TargetSwap fixed_floats
target = record {
  chain = codes "base";
  dex = codes "v2";
  pool_fee_bps = pos 30;
  token_in = codes "WETH";
  token_out = codes "USDC";
  amount_in = usd 1000;
  amount_in_usd = usd 1000;
  pool_liquidity_usd = usd 100000;
  base_fee_gwei = usd 0;
  priority_fee_gwei = usd 0;
}

-- The fees are more than what the target moves the price.
offered :
    estimate_backrun fixed_floats strategy target (usd 1000000) (usd 1000000) (usd 2000)
    ≡ found (opportunity fixed_floats strategy target (usd 1000000) (usd 1000000) (usd 2000))
unfolding estimate_backrun our_trade_usd our_amount_in back_to_in units gas_cost_usd gross_gain_usd
    gas_ratio net_profit_usd approx_v2_out apply_fee fmax fmin text_eq ◌+ℤ◌ ◌-ℤ◌ ◌*ℤ◌
offered = refl

estimate_backrun-IsWithin_example :
    IsWithin fixed_floats strategy target
      (usd 1000000)
      (usd 1000000)
      (usd 2000)
      (opportunity fixed_floats strategy target (usd 1000000) (usd 1000000) (usd 2000))
estimate_backrun-IsWithin_example =
    estimate_backrun-IsWithin fixed_floats strategy target (usd 1000000) (usd 1000000) (usd 2000)
      (opportunity fixed_floats strategy target (usd 1000000) (usd 1000000) (usd 2000)) offered

nothing_gained :
    fixed_floats.at_most
      (back_to_in fixed_floats strategy target (usd 1000000) (usd 1000000) (usd 2000))
      (our_amount_in fixed_floats strategy target (usd 1000000) (usd 1000000) (usd 2000))
    ≡ true
unfolding back_to_in our_amount_in our_trade_usd approx_v2_out apply_fee fmax fmin ◌+ℤ◌ ◌-ℤ◌ ◌*ℤ◌
nothing_gained = refl
