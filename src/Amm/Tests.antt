-- ===== src/Amm/Tests.antt =====
-- Swaps on a pool of concrete reserves, and the sizing of a trade against it.
mod Routes
use mev_bot.Base.{ℕ, ◌+◌, ◌-◌, ◌*◌, ◌≤◌, ◌<◌, ◌≡◌, refl, Bool, some, arith, ltb}
use mev_bot.Base.Int.{ℤ, pos, ◌+ℤ◌, ◌-ℤ◌, ◌*ℤ◌}
use mev_bot.Base.Result.{ok}
use mev_bot.Base.Float.Ints.{fin, int_floats}
use mev_bot.Amm.{get_amount_out, get_amount_in}
use mev_bot.Amm.Swaps.{get_amount_out-get_amount_in, get_amount_in_tight}
use mev_bot.Amm.Bisect.{bisect, bisect-IsLast, IsCut, IsLast}
use mev_bot.Amm.Sizer.{SizingCaps, target_out, padded, size_exact_out}
use mev_bot.Amm.Sizer.Caps.{IsRounding, IsSized, IsCapped, pool, size_exact_out-IsSized}

get_amount_out-get_amount_in_example :
    (n out : ℕ) × (get_amount_in (pos 181) (pos 1000) (pos 2000) (pos 30) ≡ some (pos n))
    × (0 < n)
    × (get_amount_out (pos n) (pos 1000) (pos 2000) (pos 30) ≡ some (pos out))
    × (181 ≤ out)
get_amount_out-get_amount_in_example =
    get_amount_out-get_amount_in 181 1000 2000 30 (omega arith) (omega arith) (omega arith)
      (omega arith)

input_for_181 : get_amount_in (pos 181) (pos 1000) (pos 2000) (pos 30) ≡ some (pos 100)
unfolding get_amount_in ◌+ℤ◌ ◌-ℤ◌ ◌*ℤ◌
input_for_181 = refl

output_for_100 : get_amount_out (pos 100) (pos 1000) (pos 2000) (pos 30) ≡ some (pos 181)
unfolding get_amount_out ◌+ℤ◌ ◌-ℤ◌ ◌*ℤ◌
output_for_100 = refl

abbrev below_seven : ℕ → Bool
below_seven n = ltb n 7

below_seven-IsCut : IsCut (λ n. some (below_seven n)) below_seven 20
below_seven-IsCut = record { total = λ n le. refl; down = λ m n le lt h. ground arith }

bisect-IsLast_example :
    (r : ℕ) × (bisect (λ n. some (below_seven n)) 21 1 20 0 ≡ ok r) × IsLast below_seven 20 r
bisect-IsLast_example = bisect-IsLast (λ n. some (below_seven n)) below_seven 20 below_seven-IsCut

-- Capped at an input of 60, with no overpay.
abbrev caps : SizingCaps int_floats
caps = record {
  max_in_abs = pos 60;
  max_out_abs = pos 150;
  max_pool_pct = fin (pos 1);
  safety_overpay = fin (pos 0);
  impact_fraction_to_capture = fin (pos 1);
}

times_one : (n : ℤ) → n *ℤ pos 1 ≡ n
unfolding ◌*ℤ◌
times_one n = ground arith

no_overpay : IsRounding int_floats caps
unfolding padded ◌+ℤ◌
no_overpay = record {
  mono = λ m n h. ground (arith, times_one m, times_one n);
  zero_lem = times_one (pos 0);
}

target_150 :
    target_out int_floats caps (pool int_floats caps no_overpay 1000 2000 30 10000) ≡ pos 150
unfolding target_out ◌+ℤ◌ ◌*ℤ◌
target_150 = refl

size_exact_out-IsSized_example :
    (want : ℕ) × (max_in : ℤ) × (size_exact_out int_floats caps
        (pool int_floats caps no_overpay 1000 2000 30 10000)
      ≡ ok (pos want, max_in))
    × IsSized int_floats caps no_overpay 1000 2000 30 10000 150 want max_in
    × IsCapped int_floats caps (pool int_floats caps no_overpay 1000 2000 30 10000) want
size_exact_out-IsSized_example =
    size_exact_out-IsSized int_floats caps no_overpay 1000 2000 30 10000 (omega arith) (omega arith)
      150 (omega arith) target_150 (omega arith)
