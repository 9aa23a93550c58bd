-- ===== src/Backrun/Thresholds.antt =====
-- What a backrun that is offered satisfies (bot/hunter/backrun_calc.py).
use mathlib.Core.Path.{subst}
use mev_bot.Base.{◌≡◌, refl, Bool, true, false, if◌then◌else◌, arith}
use mev_bot.Base.Float.{FloatModel, below, fmin-at_most_left, fmin-at_most_right}
use mev_bot.Backrun.{
  TargetSwap, HunterStrategy, BackrunOpportunity, Estimate, rejected, found, low_pool_liquidity,
  tiny_trade, below_min_profit_usd, gas_cost_high, gas_ratio_high, our_trade_usd, net_profit_usd,
  gas_cost_usd, gas_ratio, opportunity, estimate_backrun,
}

five_tests :
    {F : FloatModel} (a b c d e : Bool) (x y : BackrunOpportunity F)
    → ◌≡◌ {A = Estimate F}
        (if a
          then rejected low_pool_liquidity
          else if b
          then rejected tiny_trade
          else if c
          then rejected below_min_profit_usd
          else if d
          then rejected gas_cost_high
          else if e
          then rejected gas_ratio_high
          else found x)
        (found y)
    → (a ≡ false) × ((b ≡ false) × ((c ≡ false) × ((d ≡ false) × ((e ≡ false) × (x ≡ y)))))
five_tests true b c d e x y h = cc
five_tests false true c d e x y h = cc
five_tests false false true d e x y h = cc
five_tests false false false true e x y h = cc
five_tests false false false false true x y h = cc
five_tests false false false false false x y h = (refl, (refl, (refl, (refl, (refl, cc)))))

module _ (F : FloatModel) (cfg : HunterStrategy F) (t : TargetSwap F)
    (reserves_in reserves_out eth_usd : F.Float) where
  open F use {Float, at_most, mul, lit}

  -- What holds of an offered backrun.
  pub record IsWithin (opp : BackrunOpportunity F) : Type 0 where
    pub liquid : at_most cfg.min_pool_liquidity_usd t.pool_liquidity_usd ≡ true
    pub some_trade : at_most opp.our_trade_usd (lit 0 0) ≡ false
    pub of_target : at_most opp.our_trade_usd (mul t.amount_in_usd (lit 6 1)) ≡ true
    pub of_pool :
        at_most opp.our_trade_usd (mul t.pool_liquidity_usd cfg.max_trade_share_of_pool) ≡ true
    pub profit : at_most cfg.min_profit_usd opp.expected_profit_usd ≡ true
    pub gas_cost : at_most opp.gas_cost_usd (mul cfg.min_profit_usd (lit 10 0)) ≡ true
    pub score : at_most opp.score (lit 10 1) ≡ true

  opportunity-IsWithin :
      below F t.pool_liquidity_usd cfg.min_pool_liquidity_usd ≡ false
      → at_most (our_trade_usd F cfg t reserves_in reserves_out eth_usd) (lit 0 0) ≡ false
      → below F (net_profit_usd F cfg t reserves_in reserves_out eth_usd) cfg.min_profit_usd ≡ false
      → below F
          (mul cfg.min_profit_usd (lit 10 0))
          (gas_cost_usd F cfg t reserves_in reserves_out eth_usd)
        ≡ false
      → IsWithin (opportunity F cfg t reserves_in reserves_out eth_usd)
  unfolding opportunity our_trade_usd
  opportunity-IsWithin l s p g = record {
    liquid = ground (arith, l);
    some_trade = s;
    of_target = fmin-at_most_left F _ _;
    of_pool = fmin-at_most_right F _ _;
    profit = ground (arith, p);
    gas_cost = ground (arith, g);
    score = fmin-at_most_left F _ _;
  }

  -- A backrun is offered only in a pool that is liquid enough, for a positive trade of at most 0.6 of
  -- the target and the allowed share of the pool, with at least the minimal profit after gas, gas of
  -- at most ten times that, and a score of at most 1.
  pub estimate_backrun-IsWithin :
      (opp : BackrunOpportunity F)
      → estimate_backrun F cfg t reserves_in reserves_out eth_usd ≡ found opp
      → IsWithin opp
  unfolding estimate_backrun
  estimate_backrun-IsWithin opp h =
      let (l, (s, (p, (g, (r, same))))) =
        five_tests (below F t.pool_liquidity_usd cfg.min_pool_liquidity_usd)
          (at_most (our_trade_usd F cfg t reserves_in reserves_out eth_usd) (lit 0 0))
          (below F (net_profit_usd F cfg t reserves_in reserves_out eth_usd) cfg.min_profit_usd)
          (below F (mul cfg.min_profit_usd (lit 10 0))
            (gas_cost_usd F cfg t reserves_in reserves_out eth_usd))
          (at_most cfg.max_gas_ratio (gas_ratio F cfg t reserves_in reserves_out eth_usd))
          (opportunity F cfg t reserves_in reserves_out eth_usd) opp h in
      subst IsWithin same (opportunity-IsWithin l s p g)
