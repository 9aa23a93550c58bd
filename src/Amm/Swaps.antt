-- ===== src/Amm/Swaps.antt =====
-- What `get_amount_out` and `get_amount_in` (bot/quote/v2_math.py) promise of a pool.
use mev_bot.Base.{ℕ, ◌+◌, ◌-◌, ◌*◌, ◌≤◌, ◌<◌, ◌≡◌, ◌∙◌, sym, some, arith}
use mev_bot.Base.Int.{pos}
use mev_bot.Amm.{get_amount_out, get_amount_in}
use mev_bot.Amm.Formulas.{
  out_formula, in_formula, get_amount_out-formula, get_amount_in-formula, out_formula-lt,
  out_formula_product, out_formula-in_formula, in_formula_tight,
}

-- For a positive input, positive reserves and a fee of at most 100 %, `get_amount_out` returns an
-- amount below the reserve, and the product of the reserves after the swap is at least what it was.
pub get_amount_out_safe :
    (a rin rout fee : ℕ)
    → 0 < a
    → 0 < rin
    → 0 < rout
    → fee ≤ 10000
    → (out : ℕ) × (get_amount_out (pos a) (pos rin) (pos rout) (pos fee) ≡ some (pos out))
      × (out < rout)
      × (rin * rout ≤ (rin + a) * (rout - out))
get_amount_out_safe a rin rout fee ha hr ho hf = (
  out_formula a rin rout fee,
  get_amount_out-formula a rin rout fee ha hr ho hf,
  out_formula-lt a rin rout fee hr ho,
  out_formula_product a rin rout fee hr ho,
)

-- For a positive output below the reserve of the output, a positive reserve of the input, and a fee
-- below 100 %, `get_amount_in` returns a positive input, and `get_amount_out` gives at least the wanted
-- output for it.
pub get_amount_out-get_amount_in :
    (x rin rout fee : ℕ)
    → 0 < x
    → 0 < rin
    → x < rout
    → fee < 10000
    → (n out : ℕ) × (get_amount_in (pos x) (pos rin) (pos rout) (pos fee) ≡ some (pos n))
      × (0 < n)
      × (get_amount_out (pos n) (pos rin) (pos rout) (pos fee) ≡ some (pos out))
      × (x ≤ out)
get_amount_out-get_amount_in x rin rout fee hx hr lt hf =
    let n : ℕ = in_formula x rin rout fee in
    (
      n,
      out_formula n rin rout fee,
      get_amount_in-formula x rin rout fee hx hr lt hf,
      omega arith,
      get_amount_out-formula n rin rout fee (omega arith) hr (omega arith) (omega arith),
      out_formula-in_formula x rin rout fee hr lt hf,
    )

pos_injective : (m n : ℕ) → ◌≡◌ (some (pos m)) (some (pos n)) → m ≡ n
pos_injective m n e = cc

-- No input that is smaller by more than one unit buys the output: where `get_amount_out` gives at
-- least `x` for `m`, the input that `get_amount_in` returns for `x` is at most `m + 1`.
pub get_amount_in_tight :
    (x rin rout fee m n out : ℕ)
    → 0 < x
    → 0 < rin
    → x < rout
    → fee < 10000
    → 0 < m
    → get_amount_in (pos x) (pos rin) (pos rout) (pos fee) ≡ some (pos n)
    → get_amount_out (pos m) (pos rin) (pos rout) (pos fee) ≡ some (pos out)
    → x ≤ out
    → n ≤ m + 1
get_amount_in_tight x rin rout fee m n out hx hr lt hf hm en eo le =
    let same =
      pos_injective n (in_formula x rin rout fee)
        (sym en ∙ get_amount_in-formula x rin rout fee hx hr lt hf) in
    let same' =
      pos_injective out (out_formula m rin rout fee)
        (sym eo ∙ get_amount_out-formula m rin rout fee hm hr (omega arith) (omega arith)) in
    rw same (in_formula_tight x rin rout fee m hr lt hf (rw same' at le))
