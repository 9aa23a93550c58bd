-- ===== src/Amm.antt =====
-- bot/quote/v2_math.py and bot/quote/sizer.py: the constant-product formulas in integers, and the
-- size of a trade with an exact output.
pub mod Formulas
pub mod Swaps
pub mod Bisect
pub mod Sizer
pub mod Selector
mod Tests
use mev_bot.Base.{Bool, ◌||◌, Option, none, some, if◌then◌else◌}
use mev_bot.Base.Int.{ℤ, pos, ◌+ℤ◌, ◌-ℤ◌, ◌*ℤ◌, leb_ℤ, floor_div}

-- `none` is the ZeroDivisionError of `//`.
unfoldable pub get_amount_out : ℤ → ℤ → ℤ → ℤ → Option ℤ
get_amount_out amount_in reserve_in reserve_out fee_bps =
    if leb_ℤ amount_in (pos 0) || leb_ℤ reserve_in (pos 0) || leb_ℤ reserve_out (pos 0)
    then some (pos 0)
    else (let amount_in_with_fee = amount_in *ℤ (pos 10000 -ℤ fee_bps) in
        let num = amount_in_with_fee *ℤ reserve_out in
        let den = reserve_in *ℤ pos 10000 +ℤ amount_in_with_fee in floor_div num den)

abbrev pub plus_one : Option ℤ → Option ℤ
plus_one none = none
plus_one (some q) = some (q +ℤ pos 1)

unfoldable pub get_amount_in : ℤ → ℤ → ℤ → ℤ → Option ℤ
get_amount_in amount_out reserve_in reserve_out fee_bps =
    if leb_ℤ amount_out (pos 0)
      || leb_ℤ reserve_in (pos 0)
      || leb_ℤ reserve_out (pos 0)
      || leb_ℤ reserve_out amount_out
    then some (pos 0)
    else (let num = reserve_in *ℤ amount_out *ℤ pos 10000 in
        let den = (reserve_out -ℤ amount_out) *ℤ (pos 10000 -ℤ fee_bps) in
        plus_one (floor_div num den))
