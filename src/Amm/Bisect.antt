-- ===== src/Amm/Bisect.antt =====
-- The binary search in `size_exact_out` (bot/quote/sizer.py), over any test of a candidate, which
-- may raise (`none`).
use mev_bot.Base.{
  ℕ, zero, suc, ◌+◌, ◌-◌, ◌/◌, ◌≤◌, ◌<◌, ◌≡◌, refl, ◌⊎◌, inl, inr, Bool, true, false, Option, none,
  some, arith, if◌then◌else◌, ltb, Bool-cases, tests,
}
use mev_bot.Base.Result.{Result, ok, raise}

-- Why a search ends with no result: an exception of the test, or no fuel, which the source has no
-- notion of.
pub data Stop : Type 0 where
  zero_division out_of_fuel : Stop

-- `while lo <= hi`, with the candidates `lo`, `hi` and the best so far.
unfoldable pub bisect : (ℕ → Option Bool) → ℕ → ℕ → ℕ → ℕ → Result Stop ℕ
bisect fits zero lo hi best = raise out_of_fuel
bisect fits (suc fuel) lo hi best =
    let mid : ℕ = (lo + hi) / 2 in
    let upper = bisect fits fuel (mid + 1) hi mid in
    let lower = bisect fits fuel lo (mid - 1) best in
    if ltb hi lo
    then ok best
    else elim (fits mid) [ none ↦ raise zero_division | some b ↦ if b then upper else lower ]

-- Up to a bound, the test of a candidate never raises, and it holds below each candidate where it
-- holds.
pub record IsCut (fits : ℕ → Option Bool) (test : ℕ → Bool) (bound : ℕ) : Type 0 where
  pub total : (n : ℕ) → n ≤ bound → fits n ≡ some (test n)
  pub down : (m n : ℕ) → m ≤ n → n ≤ bound → test n ≡ true → test m ≡ true

-- The result is the last candidate up to the bound that fits, or 0 if none does.
pub record IsLast (test : ℕ → Bool) (bound r : ℕ) : Type 0 where
  pub within : r ≤ bound
  pub good : (r ≡ 0) ⊎ (test r ≡ true)
  pub above : (n : ℕ) → r < n → n ≤ bound → test n ≡ false

module _ {fits : ℕ → Option Bool} {test : ℕ → Bool} {bound : ℕ} (cut : IsCut fits test bound) where
  -- What holds at the head of the loop.
  pub record Searching (lo hi best : ℕ) : Type 0 where
    pub adjacent : lo ≡ best + 1
    pub ordered : lo ≤ hi + 1
    pub bounded : hi ≤ bound
    pub good : (best ≡ 0) ⊎ (test best ≡ true)
    pub above : (n : ℕ) → hi < n → n ≤ bound → test n ≡ false

  fails_above : (mid n : ℕ) → test mid ≡ false → mid ≤ n → n ≤ bound → test n ≡ false
  fails_above mid n h le k = elim (Bool-cases (test n)) [
    | inl t ↦ cc (h, cut.down mid n le k t)
    | inr f ↦ f
  ]

  ended : (lo hi best : ℕ) → Searching lo hi best → ltb hi lo ≡ true → IsLast test bound best
  ended lo hi best s over = record {
    within = omega (tests, s.bounded);
    good = s.good;
    above = λ n h k. s.above n (omega (tests, s.ordered)) k;
  }

  raised :
      (lo hi best : ℕ)
      → Searching lo hi best
      → ltb hi lo ≡ false
      → test ((lo + hi) / 2) ≡ true
      → Searching ((lo + hi) / 2 + 1) hi ((lo + hi) / 2)
  raised lo hi best s on t = record {
    adjacent = refl;
    ordered = ground arith;
    bounded = s.bounded;
    good = inr t;
    above = s.above;
  }

  middle : (lo hi best : ℕ) → Searching lo hi best → ltb hi lo ≡ false → (lo + hi) / 2 ≤ bound
  middle lo hi best s on = ground arith

  lowered :
      (lo hi best : ℕ)
      → Searching lo hi best
      → ltb hi lo ≡ false
      → test ((lo + hi) / 2) ≡ false
      → Searching lo ((lo + hi) / 2 - 1) best
  lowered lo hi best s on f = record {
    adjacent = s.adjacent;
    ordered = ground arith;
    bounded = ground arith;
    good = s.good;
    above = λ n h k. fails_above ((lo + hi) / 2) n f (omega arith) k;
  }

  bisect-Searching-IsLast :
      (fuel lo hi best : ℕ)
      → hi + 1 < fuel + lo
      → Searching lo hi best
      → (r : ℕ) × (bisect fits fuel lo hi best ≡ ok r) × IsLast test bound r
  unfolding bisect
  bisect-Searching-IsLast zero lo hi best enough s = absurd (omega arith)
  bisect-Searching-IsLast (suc fuel) lo hi best enough s =
      let mid : ℕ = (lo + hi) / 2 in
      elim (Bool-cases (ltb hi lo)) [
        | inl over ↦ (best, rw (over, bisect), ended lo hi best s over)
        | inr on ↦ elim (Bool-cases (test mid)) [
          | inl t ↦
              rw (on, bisect, cut.total mid (middle lo hi best s on), t)
                (bisect-Searching-IsLast fuel (mid + 1) hi mid (ground arith)
                  (raised lo hi best s on t))
          | inr f ↦
              rw (on, bisect, cut.total mid (middle lo hi best s on), f)
                (bisect-Searching-IsLast fuel lo (mid - 1) best (ground arith)
                  (lowered lo hi best s on f))
        ]
      ]

-- With enough fuel the search ends with no exception, in the last candidate that fits.
pub bisect-IsLast :
    (fits : ℕ → Option Bool) (test : ℕ → Bool) (bound : ℕ)
    → IsCut fits test bound
    → (r : ℕ) × (bisect fits (bound + 1) 1 bound 0 ≡ ok r) × IsLast test bound r
bisect-IsLast fits test bound cut =
    bisect-Searching-IsLast cut (bound + 1) 1 bound 0 (omega arith) (record {
      adjacent = refl;
      ordered = omega arith;
      bounded = omega arith;
      good = inl refl;
      above = λ n h k. absurd (omega arith);
    })
