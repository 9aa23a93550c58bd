-- ===== src/Base/Float/Ints.antt =====
-- Two values of the float interface for tests and witnesses: the integers between two infinities, and
-- fixed-point numbers.
use mev_bot.Base.{◌+◌, ◌-◌, ◌*◌, ◌/◌, ◌^◌, ◌≡◌, Bool, true, false, arith, none, some}
use mev_bot.Base.Int.{ℤ, pos, negsuc, ◌+ℤ◌, ◌-ℤ◌, ◌*ℤ◌, ◌≤ℤ◌, leb_ℤ, floor_div, -ℤ_parts}
use mev_bot.Base.Float.{FloatModel}

pub data Ext : Type 0 where
  low high : Ext
  fin : ℤ → Ext

abbrev pub ext_at_most : Ext → Ext → Bool
ext_at_most low y = true
ext_at_most high high = true
ext_at_most high y = false
ext_at_most (fin a) low = false
ext_at_most (fin a) high = true
ext_at_most (fin a) (fin b) = leb_ℤ a b

abbrev pub ext_sub : Ext → Ext → Ext
ext_sub low y = low
ext_sub high y = high
ext_sub (fin a) low = high
ext_sub (fin a) high = low
ext_sub (fin a) (fin b) = fin (a -ℤ b)

abbrev pub ext_map₂ : (ℤ → ℤ → ℤ) → Ext → Ext → Ext
ext_map₂ f (fin a) (fin b) = fin (f a b)
ext_map₂ f (fin a) y = y
ext_map₂ f x y = x

-- Division by zero leaves the dividend: the tests never divide by zero.
abbrev pub div_ints : ℤ → ℤ → ℤ
div_ints a b = elim (floor_div a b) [ none ↦ a | some q ↦ q ]

abbrev pub ext_trunc : Ext → ℤ
ext_trunc (fin a) = a
ext_trunc x = pos 0

pub ext_total : (a b : Ext) → ext_at_most a b ≡ false → ext_at_most b a ≡ true
ext_total a b h = ground arith

pub ext_trans :
    (a b c : Ext) → ext_at_most a b ≡ true → ext_at_most b c ≡ true → ext_at_most a c ≡ true
ext_trans a b c h k = ground arith

pub ext_of_ℤ_mono : (m n : ℤ) → m ≤ℤ n → ext_at_most (fin m) (fin n) ≡ true
ext_of_ℤ_mono m n h = ground arith

pub ext_sub_anti :
    (a b c : Ext) → ext_at_most b c ≡ true → ext_at_most (ext_sub a c) (ext_sub a b) ≡ true
ext_sub_anti low b c h = ground arith
ext_sub_anti high b c h = ground arith
ext_sub_anti (fin a) low low h = ground arith
ext_sub_anti (fin a) low high h = ground arith
ext_sub_anti (fin a) low (fin c) h = ground arith
ext_sub_anti (fin a) high high h = ground arith
ext_sub_anti (fin a) high low h = ground arith
ext_sub_anti (fin a) high (fin c) h = ground arith
ext_sub_anti (fin a) (fin b) high h = ground arith
ext_sub_anti (fin a) (fin b) low h = ground arith
ext_sub_anti (fin a) (fin b) (fin c) h = ground (arith, -ℤ_parts a b, -ℤ_parts a c)

pub ext_sub_mono :
    (a b c : Ext) → ext_at_most a b ≡ true → ext_at_most (ext_sub a c) (ext_sub b c) ≡ true
ext_sub_mono low b c h = ground arith
ext_sub_mono a high c h = ground arith
ext_sub_mono high b c h = ground arith
ext_sub_mono (fin a) low c h = ground arith
ext_sub_mono (fin a) (fin b) low h = ground arith
ext_sub_mono (fin a) (fin b) high h = ground arith
ext_sub_mono (fin a) (fin b) (fin c) h = ground (arith, -ℤ_parts a c, -ℤ_parts b c)

pub ext_neg_anti :
    (a b : Ext)
    → ext_at_most (ext_sub (fin (pos 0)) a) (ext_sub (fin (pos 0)) b) ≡ true
    → ext_at_most b a ≡ true
ext_neg_anti low low h = ground arith
ext_neg_anti low high h = ground arith
ext_neg_anti low (fin b) h = ground arith
ext_neg_anti high low h = ground arith
ext_neg_anti high high h = ground arith
ext_neg_anti high (fin b) h = ground arith
ext_neg_anti (fin a) low h = ground arith
ext_neg_anti (fin a) high h = ground arith
ext_neg_anti (fin a) (fin b) h = ground (arith, -ℤ_parts (pos 0) a, -ℤ_parts (pos 0) b)

pub ext_low_least : (a : Ext) → ext_at_most low a ≡ true
ext_low_least a = ground arith

abbrev pub int_floats : FloatModel
int_floats = record {
  Float = Ext;
  at_most = ext_at_most;
  add = ext_map₂ ◌+ℤ◌;
  sub = ext_sub;
  mul = ext_map₂ ◌*ℤ◌;
  div = ext_map₂ div_ints;
  of_ℤ = fin;
  lit = λ m k. fin (pos (m / 10 ^ k));
  trunc = ext_trunc;
  round = ext_trunc;
  neg = ext_sub (fin (pos 0));
  exp = λ x. x;
  log = λ x. x;
  neg_inf = low;
  at_most_total = ext_total;
  at_most_trans = ext_trans;
  of_ℤ_mono = ext_of_ℤ_mono;
  sub_anti = ext_sub_anti;
  sub_mono = ext_sub_mono;
  neg_anti = ext_neg_anti;
  neg_mono = ext_sub_anti (fin (pos 0));
  neg_inf_least = ext_low_least;
}

-- Fixed-point numbers with nine digits after the point, as counts of 10⁻⁹, rounded down.
abbrev pub nano : ℤ → ℤ
nano (pos n) = pos (n * 1000000000)
nano (negsuc n) = negsuc (n * 1000000000 + 999999999)

pub nano_mono : (m n : ℤ) → m ≤ℤ n → ext_at_most (fin (nano m)) (fin (nano n)) ≡ true
nano_mono m n h = ground arith

abbrev pub fixed_floats : FloatModel
fixed_floats = record {
  Float = Ext;
  at_most = ext_at_most;
  add = ext_map₂ ◌+ℤ◌;
  sub = ext_sub;
  mul = ext_map₂ (λ a b. div_ints (a *ℤ b) (pos 1000000000));
  div = ext_map₂ (λ a b. div_ints (nano a) b);
  of_ℤ = λ n. fin (nano n);
  lit = λ m k. fin (pos (m * 10 ^ (9 - k)));
  trunc = λ x. div_ints (ext_trunc x) (pos 1000000000);
  round = λ x. div_ints (ext_trunc x) (pos 1000000000);
  neg = ext_sub (fin (pos 0));
  exp = λ x. x;
  log = λ x. x;
  neg_inf = low;
  at_most_total = ext_total;
  at_most_trans = ext_trans;
  of_ℤ_mono = nano_mono;
  sub_anti = ext_sub_anti;
  sub_mono = ext_sub_mono;
  neg_anti = ext_neg_anti;
  neg_mono = ext_sub_anti (fin (pos 0));
  neg_inf_least = ext_low_least;
}
