-- ===== src/Amm/Tests/Routes.antt =====
-- The choice of a route at a concrete pool and concrete quotes.
use mev_bot.Base.{◌≡◌, refl, true, some, none, [], ◌∷◌, All, arith}
use mev_bot.Base.Int.{ℤ, pos, ◌≤ℤ◌, ◌+ℤ◌, ◌-ℤ◌, ◌*ℤ◌}
use mev_bot.Amm.{get_amount_in}
use mev_bot.Amm.Selector.{
  RouteChoice, V3Quote, v3, v2_choice, candidate, choose_for_exact_out, total, over_tiers, cheaper,
}
use mev_bot.Amm.Selector.Cheapest.{Offered, NotCheaper, choose_for_exact_out_cheapest}

abbrev quote : ℤ → V3Quote
quote fee = record { ok = true; amount_in = some (pos 98); gas_estimate = none }

abbrev chosen : RouteChoice
chosen = record {
  router_kind = v3;
  fee_or_fee_bps = pos 500;
  amount_in = pos 98;
  gas_penalty_est = pos 0;
}

chosen_is :
    choose_for_exact_out none quote (pos 500 ∷ []) (pos 181) (pos 1000) (pos 2000) (pos 30)
    ≡ some chosen
unfolding choose_for_exact_out over_tiers cheaper total candidate get_amount_in ◌+ℤ◌ ◌-ℤ◌ ◌*ℤ◌
chosen_is = refl

choose_for_exact_out_cheapest_example :
    (amount : ℤ) × (get_amount_in (pos 181) (pos 1000) (pos 2000) (pos 30) ≡ some amount)
    × Offered none quote (pos 500 ∷ []) (v2_choice none (pos 30) amount) chosen
    × (total chosen ≤ℤ total (v2_choice none (pos 30) amount))
    × All (λ fee. NotCheaper chosen (candidate none fee (quote fee))) (pos 500 ∷ [])
choose_for_exact_out_cheapest_example =
    choose_for_exact_out_cheapest none quote (pos 500 ∷ []) (pos 181) (pos 1000) (pos 2000) (pos 30)
      chosen chosen_is

quotes_not_negative : (fee a : ℤ) → (quote fee).amount_in ≡ some a → pos 0 ≤ℤ a
quotes_not_negative fee a h = ground (arith, h)
