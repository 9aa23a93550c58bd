-- ===== src/Amm/Formulas.antt =====
-- The two formulas on a pool with liquidity and a fee of at most 100 %.
use mev_bot.Base.{ℕ, ◌+◌, ◌-◌, ◌*◌, ◌/◌, ◌≤◌, ◌<◌, ◌≡◌, sym, ap, false, some, arith}
use mathlib.Core.Path.{subst}
use native.Mathlib.Nat.{
  div-le_of_le-mul, mul-le-mul_right, div-lt_iff_lt-mul, le-div_iff_mul-le, div-mul-le_self,
  mul-le-mul_left,
}
use mev_bot.Base.Int.{pos, ◌+ℤ◌, ◌-ℤ◌, ◌*ℤ◌, leb_ℤ, floor_div}
use mev_bot.Amm.{get_amount_out, get_amount_in}

-- The formulas over the natural numbers.
abbrev pub out_formula : ℕ → ℕ → ℕ → ℕ → ℕ
out_formula a rin rout fee = a * (10000 - fee) * rout / (rin * 10000 + a * (10000 - fee))

abbrev pub in_formula : ℕ → ℕ → ℕ → ℕ → ℕ
in_formula x rin rout fee = rin * x * 10000 / ((rout - x) * (10000 - fee)) + 1

pos-* : (a b : ℕ) → pos a *ℤ pos b ≡ pos (a * b)
unfolding ◌*ℤ◌
pos-* a b = ground arith

pos-+ : (a b : ℕ) → pos a +ℤ pos b ≡ pos (a + b)
unfolding ◌+ℤ◌
pos-+ a b = ground arith

pos-sub : (a b : ℕ) → b ≤ a → pos a -ℤ pos b ≡ pos (a - b)
unfolding ◌-ℤ◌
pos-sub a b h = ground arith

floor_div-pos : (a d : ℕ) → 0 < d → floor_div (pos a) (pos d) ≡ some (pos (a / d))
floor_div-pos a d h = ground arith

not_le_zero : (a : ℕ) → 0 < a → leb_ℤ (pos a) (pos 0) ≡ false
not_le_zero a h = ground arith

not_le : (a b : ℕ) → b < a → leb_ℤ (pos a) (pos b) ≡ false
not_le a b h = ground arith

pos_product : (a b : ℕ) → 0 < a → 0 < b → 0 < a * b
pos_product a b h k = grind arith

-- On positive amounts and reserves, and with a fee of at most 10 000 basis points, the code computes
-- the formula, and does not divide by zero.
pub get_amount_out-formula :
    (a rin rout fee : ℕ)
    → 0 < a
    → 0 < rin
    → 0 < rout
    → fee ≤ 10000
    → get_amount_out (pos a) (pos rin) (pos rout) (pos fee)
      ≡ some (pos (out_formula a rin rout fee))
unfolding get_amount_out
get_amount_out-formula a rin rout fee ha hr ho hf =
    rw (not_le_zero a ha, not_le_zero rin hr, not_le_zero rout ho)
      (rw
        (
          pos-sub 10000 fee hf,
          pos-* a (10000 - fee),
          pos-* (a * (10000 - fee)) rout,
          pos-* rin 10000,
        )
        (rw pos-+ (
          floor_div-pos (a * (10000 - fee) * rout) (rin * 10000 + a * (10000 - fee))
            (omega arith))))

-- The same for the input formula, for an output below the reserve and a fee below 100 %.
pub get_amount_in-formula :
    (x rin rout fee : ℕ)
    → 0 < x
    → 0 < rin
    → x < rout
    → fee < 10000
    → get_amount_in (pos x) (pos rin) (pos rout) (pos fee) ≡ some (pos (in_formula x rin rout fee))
unfolding get_amount_in
get_amount_in-formula x rin rout fee hx hr ho hf =
    rw (not_le_zero x hx, not_le_zero rin hr, not_le_zero rout (omega arith), not_le rout x ho)
      (rw (pos-sub 10000 fee (omega arith), pos-sub rout x (omega arith), pos-* rin x)
        (rw (pos-* (rin * x) 10000, pos-* (rout - x) (10000 - fee))
          (rw
            (floor_div-pos (rin * x * 10000) ((rout - x) * (10000 - fee))
              (pos_product (rout - x) (10000 - fee) (omega arith) (omega arith)))
            (ap some (pos-+ (rin * x * 10000 / ((rout - x) * (10000 - fee))) 1)))))

-- A swap never empties the pool: what goes out is less than the reserve.
pub out_formula-lt : (a rin rout fee : ℕ) → 0 < rin → 0 < rout → out_formula a rin rout fee < rout
out_formula-lt a rin rout fee hr ho =
    let w : ℕ = a * (10000 - fee) in
    (div-lt_iff_lt-mul {x = w * rout} (omega arith)).1 (omega (arith, pos_product rin rout hr ho))

product_step :
    (q r rin a g : ℕ)
    → g ≤ 10000
    → q * (rin * 10000 + a * g) ≤ a * g * (q + r)
    → rin * (q + r) ≤ (rin + a) * r
product_step q r rin a g hg h =
    let fee : a * r * g ≤ a * r * 10000 = mul-le-mul_left (a * r) hg in omega arith

product_rest :
    (q rout rin a g : ℕ)
    → q < rout
    → g ≤ 10000
    → q * (rin * 10000 + a * g) ≤ a * g * rout
    → rin * rout ≤ (rin + a) * (rout - q)
product_rest q rout rin a g lt hg h =
    let r : ℕ = rout - q in
    let whole : rout ≡ q + r = omega arith in
    let step : rin * (q + r) ≤ (rin + a) * r = product_step q r rin a g hg (rw whole at h) in
    subst (λ (t : ℕ). rin * t ≤ (rin + a) * r) (sym whole) step

in_out_rest :
    (x r rin g n : ℕ) → rin * x * 10000 < n * (r * g) → x * (rin * 10000 + n * g) ≤ n * g * (x + r)
in_out_rest x r rin g n h = omega arith

out_in_rest :
    (x r rin g n : ℕ) → x * (rin * 10000 + n * g) ≤ n * g * (x + r) → rin * x * 10000 ≤ n * (r * g)
out_in_rest x r rin g n h = omega arith

-- A swap never lowers the product of the reserves.
pub out_formula_product :
    (a rin rout fee : ℕ)
    → 0 < rin
    → 0 < rout
    → rin * rout ≤ (rin + a) * (rout - out_formula a rin rout fee)
out_formula_product a rin rout fee hr ho =
    product_rest (out_formula a rin rout fee) rout rin a (10000 - fee)
      (out_formula-lt a rin rout fee hr ho) (omega arith)
      (div-mul-le_self (a * (10000 - fee) * rout) (rin * 10000 + a * (10000 - fee)))

in_out_step :
    (x rout rin g n : ℕ)
    → x < rout
    → rin * x * 10000 < n * ((rout - x) * g)
    → x * (rin * 10000 + n * g) ≤ n * g * rout
in_out_step x rout rin g n lt h =
    let r : ℕ = rout - x in
    let whole : rout ≡ x + r = omega arith in rw whole (in_out_rest x r rin g n h)

-- The input that the code computes for an output buys at least that output.
pub out_formula-in_formula :
    (x rin rout fee : ℕ)
    → 0 < rin
    → x < rout
    → fee < 10000
    → x ≤ out_formula (in_formula x rin rout fee) rin rout fee
out_formula-in_formula x rin rout fee hr lt hf =
    let n : ℕ = in_formula x rin rout fee in
    (le-div_iff_mul-le (omega arith)).1 (
      in_out_step x rout rin (10000 - fee) n lt (
        (div-lt_iff_lt-mul (pos_product (rout - x) (10000 - fee) (omega arith) (omega arith))).0
          (omega arith)))

out_in_step :
    (x rout rin g n : ℕ)
    → x < rout
    → x * (rin * 10000 + n * g) ≤ n * g * rout
    → rin * x * 10000 ≤ n * ((rout - x) * g)
out_in_step x rout rin g n lt h =
    let r : ℕ = rout - x in
    let whole : rout ≡ x + r = omega arith in out_in_rest x r rin g n (rw whole at h)

-- It is at most one unit more than any input that buys the output.
pub in_formula_tight :
    (x rin rout fee n : ℕ)
    → 0 < rin
    → x < rout
    → fee < 10000
    → x ≤ out_formula n rin rout fee
    → in_formula x rin rout fee ≤ n + 1
in_formula_tight x rin rout fee n hr lt hf h =
    let d : ℕ = (rout - x) * (10000 - fee) in
    let le : rin * x * 10000 / d ≤ n = div-le_of_le-mul d (
      omega (
        arith,
        out_in_step x rout rin (10000 - fee) n lt ((le-div_iff_mul-le (omega arith)).0 h),
      )) in
    omega arith

-- A larger output costs at least as much.
pub in_formula_mono :
    (x y rin rout fee : ℕ)
    → x ≤ y
    → y < rout
    → fee < 10000
    → in_formula x rin rout fee ≤ in_formula y rin rout fee
in_formula_mono x y rin rout fee le lt hf =
    let g : ℕ = 10000 - fee in
    let q : ℕ = rin * x * 10000 / ((rout - x) * g) in
    let fit : q * ((rout - x) * g) ≤ rin * x * 10000 =
      div-mul-le_self (rin * x * 10000) ((rout - x) * g) in
    let shrink : q * ((rout - y) * g) ≤ q * ((rout - x) * g) =
      mul-le-mul_left q (mul-le-mul_right g (omega arith)) in
    let grow : rin * x ≤ rin * y = mul-le-mul_left rin le in
    let both : q ≤ rin * y * 10000 / ((rout - y) * g) =
      (le-div_iff_mul-le (pos_product (rout - y) g (omega arith) (omega arith))).1 (omega arith) in
    omega arith
