-- ===== src/Amm/Sizer/Caps.antt =====
-- The size of a trade respects its caps and is the largest that does.
use mev_bot.Base.{
  ℕ, zero, suc, ◌≤◌, ◌<◌, ◌≡◌, refl, ap, ◌⊎◌, inl, inr, Bool, true, false, some, arith, Bool-cases,
  tests, leb→le,
}
use mev_bot.Base.Int.{ℤ, pos, pos_part, ◌≤ℤ◌, leb_ℤ, ltb_ℤ}
use mev_bot.Base.Result.{ok}
use mev_bot.Base.Float.{FloatModel}
use mev_bot.Amm.{get_amount_in}
use mev_bot.Amm.Formulas.{in_formula, get_amount_in-formula, in_formula_mono}
use mev_bot.Amm.Bisect.{IsCut, bisect-IsLast}
use mev_bot.Amm.Sizer.{
  SizingCaps, Pool, padded, baseline_out, rel_cap, target_out, fits, shrink, cap_input,
  size_exact_out, ◌>>=◌,
}

-- The input for an output below the reserve; nothing is needed for nothing.
abbrev pub cost : ℕ → ℕ → ℕ → ℕ → ℕ
cost rin rout fee zero = 0
cost rin rout fee (suc n) = in_formula (suc n) rin rout fee

module _ (rin rout fee : ℕ) (hr : 0 < rin) (hf : fee < 10000) where
  get_amount_in-cost :
      (n : ℕ)
      → n < rout
      → get_amount_in (pos n) (pos rin) (pos rout) (pos fee) ≡ some (pos (cost rin rout fee n))
  get_amount_in-cost zero lt = unfold get_amount_in in refl
  get_amount_in-cost (suc n) lt = get_amount_in-formula (suc n) rin rout fee (omega arith) hr lt hf

  cost_mono : (m n : ℕ) → m ≤ n → n < rout → cost rin rout fee m ≤ cost rin rout fee n
  cost_mono zero n le lt = omega arith
  cost_mono (suc m) zero le lt = absurd (omega arith)
  cost_mono (suc m) (suc n) le lt = in_formula_mono (suc m) (suc n) rin rout fee le lt hf

cost_positive : (rin rout fee t : ℕ) → 0 < t → 0 < cost rin rout fee t
cost_positive rin rout fee zero h = absurd (omega arith)
cost_positive rin rout fee (suc t) h = omega arith

positive : (n : ℕ) → 0 < n → leb_ℤ (pos n) (pos 0) ≡ false
positive n h = ground arith

-- An output is no more than 1, which the code always allows, or keeps to the three bounds on it: the
-- absolute cap, the share of the pool, and the share of the victim's impact.
pub record IsCapped (F : FloatModel) (caps : SizingCaps F) (p : Pool) (want : ℕ) : Type 0 where
  pub absolute : (want ≤ 1) ⊎ (pos want ≤ℤ caps.max_out_abs)
  pub share_of_pool : (want ≤ 1) ⊎ (pos want ≤ℤ rel_cap F caps p)
  pub share_of_impact : (want ≤ 1) ⊎ (pos want ≤ℤ baseline_out F caps p)

target_out-IsCapped :
    (F : FloatModel) (caps : SizingCaps F) (p : Pool) (t want : ℕ)
    → target_out F caps p ≡ pos t
    → want ≤ t
    → IsCapped F caps p want
unfolding target_out
target_out-IsCapped F caps p t want e le = record {
  absolute = ground (arith, ap pos_part e);
  share_of_pool = ground (arith, ap pos_part e);
  share_of_impact = ground (arith, ap pos_part e);
}

target_out-least :
    (F : FloatModel) (caps : SizingCaps F) (p : Pool) → 1 ≤ pos_part (target_out F caps p)
unfolding target_out
target_out-least F caps p = ground arith

-- What the arithmetic of the overpay is relied on for: it rounds monotonically and keeps zero.
pub record IsRounding (F : FloatModel) (caps : SizingCaps F) : Type 0 where
  pub mono : (m n : ℤ) → m ≤ℤ n → padded F caps m ≤ℤ padded F caps n
  pub zero_lem : padded F caps (pos 0) ≡ pos 0

module _ (F : FloatModel) (caps : SizingCaps F) (rounding : IsRounding F caps)
    (rin rout fee impact : ℕ) where
  abbrev pub pool : Pool
  pool = record {
    reserve_in = pos rin;
    reserve_out = pos rout;
    fee_bps = pos fee;
    impact_bps = pos impact;
  }

  -- The padded input for an output.
  abbrev pub pay : ℕ → ℤ
  pay n = padded F caps (pos (cost rin rout fee n))

  abbrev pub affordable : ℕ → Bool
  affordable n = leb_ℤ (pay n) caps.max_in_abs

  -- The size is at most the target, its padded input is at most the absolute cap and is the price of
  -- the output that is asked for, and no larger output up to the target can be paid within the cap.
  pub record IsSized (target want : ℕ) (max_in : ℤ) : Type 0 where
    pub within_out : want ≤ target
    pub within_in : max_in ≤ℤ caps.max_in_abs
    pub priced : max_in ≡ pay want
    pub largest : (n : ℕ) → want < n → n ≤ target → affordable n ≡ false

  module _ (hr : 0 < rin) (hf : fee < 10000) (t : ℕ) (lt : t < rout) where
    affordable_down : (m n : ℕ) → m ≤ n → n ≤ t → affordable n ≡ true → affordable m ≡ true
    affordable_down m n le k h =
        let cheaper =
          rounding.mono (pos (cost rin rout fee m)) (pos (cost rin rout fee n))
            (omega (arith, cost_mono rin rout fee hr hf m n le (omega arith))) in
        omega (tests, leb→le _ _ h)

    cut : IsCut (fits F caps pool) affordable t
    unfolding fits
    cut = record {
      total = λ n le. rw (get_amount_in-cost rin rout fee hr hf n (omega arith), fits);
      down = affordable_down;
    }

    within_cap :
        (best : ℕ)
        → (best ≡ 0) ⊎ (affordable best ≡ true)
        → pos 0 ≤ℤ caps.max_in_abs
        → pay best ≤ℤ caps.max_in_abs
    within_cap best (inl e) allowed = rw (e, rounding.zero_lem) allowed
    within_cap best (inr h) allowed = leb→le _ _ h

    shrink-IsSized :
        pos 0 ≤ℤ caps.max_in_abs
        → (want : ℕ) × (max_in : ℤ) × (shrink F caps pool (pos t) ≡ ok (pos want, max_in))
          × IsSized t want max_in
    unfolding shrink
    shrink-IsSized allowed =
        let (best, e, last) = bisect-IsLast (fits F caps pool) affordable t cut in
        (
          best,
          pay best,
          rw (
            e,
            shrink,
            ◌>>=◌,
            get_amount_in-cost rin rout fee hr hf best (omega (arith, last.within)),
          ),
          record {
            within_out = last.within;
            within_in = within_cap best last.good allowed;
            priced = refl;
            largest = last.above;
          },
        )

    cost_pos : 0 < t → leb_ℤ (pos (cost rin rout fee t)) (pos 0) ≡ false
    cost_pos h = positive (cost rin rout fee t) (cost_positive rin rout fee t h)

    target_positive : target_out F caps pool ≡ pos t → 0 < t
    target_positive e =
        let least = target_out-least F caps pool in omega (arith, ap pos_part e, least)

    cap_input-IsSized :
        0 < t
        → pos 0 ≤ℤ caps.max_in_abs
        → (want : ℕ) × (max_in : ℤ) × (cap_input F caps pool (pos t) (pos (cost rin rout fee t))
            ≡ ok (pos want, max_in))
          × IsSized t want max_in
    unfolding cap_input
    cap_input-IsSized some_out allowed = elim (Bool-cases (ltb_ℤ caps.max_in_abs (pay t))) [
      | inl over ↦
          let (want, max_in, e, sized) = shrink-IsSized allowed in
          (want, max_in, rw (cost_pos some_out, over) e, sized)
      | inr fine ↦ (
        t,
        pay t,
        rw (cost_pos some_out, fine),
        record {
          within_out = omega arith;
          within_in = ground arith;
          priced = refl;
          largest = λ n h k. absurd (omega arith);
        },
      )
    ]

    -- For a pool with liquidity, a fee below 100 %, a target `t` below the reserve and a cap on the
    -- input that is not negative, the sizer ends with no exception. The input keeps to its cap and is
    -- the padded price of the output; the output is at most 1 or keeps to the absolute cap, the share
    -- of the pool and the share of the victim's impact; and it is the largest up to the target whose
    -- padded price keeps to the cap on the input. The arithmetic of the overpay is relied on to be
    -- monotone and to keep zero.
    pub size_exact_out-IsSized :
        target_out F caps pool ≡ pos t
        → pos 0 ≤ℤ caps.max_in_abs
        → (want : ℕ) × (max_in : ℤ) × (size_exact_out F caps pool ≡ ok (pos want, max_in))
          × IsSized t want max_in
          × IsCapped F caps pool want
    unfolding size_exact_out
    size_exact_out-IsSized e allowed =
        let (want, max_in, done, sized) = cap_input-IsSized (target_positive e) allowed in
        (
          want,
          max_in,
          rw (positive rin hr, positive rout (omega arith), e)
              (rw (◌>>=◌, get_amount_in-cost rin rout fee hr hf t lt) done),
          sized,
          target_out-IsCapped F caps pool t want e sized.within_out,
        )
