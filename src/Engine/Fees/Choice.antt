-- ===== src/Engine/Fees/Choice.antt =====
-- What `choose_fee_gwei` decides, against the sequence of the fees that it tries.
use mev_bot.Base.{
  ℕ, zero, suc, ◌+◌, ◌≤◌, ◌<◌, ◌≡◌, refl, ap, ◌∙◌, true, false, arith, inl, inr, Bool-cases,
}
use Prim.Native.Nat.add
use native.Mathlib.Nat.{add-zero}
use mev_bot.Base.Int.{pos, pos_part}
use mev_bot.Base.Text.{Text}
use mev_bot.Base.Dict.{Dict}
use mev_bot.Base.Float.{FloatModel, fmax, fmin-at_most_right, at_most_refl}
use mev_bot.Engine.Fees.{
  FeePolicy, FeeQuery, FeeDecision, ok, profitable, choose_loop, choose_fee_gwei, fee_policy_for,
  decide_fee,
}

-- The predicate holds at all the numbers below a bound.
abbrev pub AllBelow : ℕ → (ℕ → Type 0) → Type 0
AllBelow zero P = Unit
AllBelow (suc n) P = AllBelow n P × P n

shifted : (m n : ℕ) → suc m + n ≡ m + suc n
shifted m n = omega arith

AllBelow-shift : (P : ℕ → Type 0) (n : ℕ) → P 0 → AllBelow n (λ k. P (suc k)) → AllBelow (suc n) P
AllBelow-shift P zero z h = (tt, z)
AllBelow-shift P (suc n) z h = (AllBelow-shift P n z h.0, h.1)

AllBelow-head : (P : ℕ → Type 0) (n : ℕ) → AllBelow (suc n) P → P 0
AllBelow-head P zero h = h.1
AllBelow-head P (suc n) h = AllBelow-head P n h.0

AllBelow-tail : (P : ℕ → Type 0) (n : ℕ) → AllBelow (suc n) P → AllBelow n (λ k. P (suc k))
AllBelow-tail P zero h = tt
AllBelow-tail P (suc n) h = (AllBelow-tail P n h.0, h.1)

module _ (F : FloatModel) (p : FeePolicy F) (q : FeeQuery F) where
  open F use {Float, at_most, mul, lit}

  -- The fee after a number of escalations from a fee.
  abbrev pub escalate : Float → ℕ → Float
  escalate fee zero = fee
  escalate fee (suc k) = escalate (mul fee (fmax F (lit 1 0) p.escalation_factor)) k

  -- A fee within the cap; one at which the expected profit covers the cost and the margin; one at
  -- which it does not.
  abbrev pub Affordable : Float → Type 0
  Affordable fee = at_most fee p.max_fee_gwei ≡ true

  abbrev pub Pays : Float → Type 0
  Pays fee = profitable F p q fee ≡ true

  abbrev pub FailsToPay : Float → Type 0
  FailsToPay fee = profitable F p q fee ≡ false

  -- On every branch the fee of the decision is at most the cap of the policy.
  choose_loop-le_cap :
      (rounds step : ℕ) (fee : Float)
      → at_most (choose_loop F p q rounds step fee).fee_gwei p.max_fee_gwei ≡ true
  unfolding choose_loop
  choose_loop-le_cap zero step fee = fmin-at_most_right F fee p.max_fee_gwei
  choose_loop-le_cap (suc rounds) step fee = ground (
    arith,
    at_most_refl F p.max_fee_gwei,
    choose_loop-le_cap rounds (suc step) (mul fee (fmax F (lit 1 0) p.escalation_factor)),
  )

  -- The decision to pay the fee of the k-th try.
  abbrev pub paying : Float → ℕ → FeeDecision F
  paying fee k = record { allowed = true; fee_gwei = fee; reason = ok; escalation_step = pos k }

  -- The tries from a fee on, up to the one that pays.
  abbrev pub Tried : Float → ℕ → Type 0
  Tried fee j = Affordable (escalate fee j) × FailsToPay (escalate fee j)

  abbrev pub FirstPaying : Float → ℕ → Type 0
  FirstPaying fee k = AllBelow k (Tried fee) × Affordable (escalate fee k) × Pays (escalate fee k)

  choose_loop_allowed :
      (rounds step : ℕ) (fee : Float)
      → (choose_loop F p q rounds step fee).allowed ≡ true
      → (k : ℕ) × (k < rounds)
        × (choose_loop F p q rounds step fee ≡ paying (escalate fee k) (step + k))
        × FirstPaying fee k
  unfolding choose_loop
  choose_loop_allowed zero step fee h = cc
  choose_loop_allowed (suc rounds) step fee h = elim (Bool-cases (at_most fee p.max_fee_gwei)) [
    | inr over ↦ cc (rw over at h)
    | inl under ↦ elim (Bool-cases (profitable F p q fee)) [
      | inl pays ↦ (0, omega arith, rw (under, pays, add-zero) refl, (tt, under, pays))
      | inr fails ↦
          let next : Float = mul fee (fmax F (lit 1 0) p.escalation_factor) in
          let (k, lt, e, (before, fits, pays)) =
            choose_loop_allowed rounds (suc step) next (rw (under, fails) at h) in
          (
            suc k,
            omega arith,
            rw (under, fails) (e ∙ ap (paying (escalate next k)) (shifted step k)),
            (AllBelow-shift (Tried fee) k (under, fails) before, fits, pays),
          )
    ]
  ]

  choose_loop_pays :
      (rounds step : ℕ) (fee : Float) (k : ℕ)
      → k < rounds
      → FirstPaying fee k
      → (choose_loop F p q rounds step fee).allowed ≡ true
  unfolding choose_loop
  choose_loop_pays zero step fee k lt h = absurd (omega arith)
  choose_loop_pays (suc rounds) step fee zero lt (before, fits, pays) = rw (fits, pays) refl
  choose_loop_pays (suc rounds) step fee (suc k) lt (before, fits, pays) =
      let next : Float = mul fee (fmax F (lit 1 0) p.escalation_factor) in
      let (under, fails) = AllBelow-head (Tried fee) k before in
      rw (under, fails)
        (choose_loop_pays rounds (suc step) next k (omega arith)
          (AllBelow-tail (Tried fee) k before, fits, pays))

  -- The first fee that is tried.
  abbrev pub first_fee : Float
  first_fee = fmax F (lit 0 0) q.initial_fee_gwei

  -- Whatever is decided, and on which branch, the fee of the decision is at most the policy's cap.
  pub choose_fee_gwei-le_cap : at_most (choose_fee_gwei F p q).fee_gwei p.max_fee_gwei ≡ true
  unfolding choose_fee_gwei
  choose_fee_gwei-le_cap = choose_loop-le_cap (suc (pos_part p.max_escalations)) 0 first_fee

  -- An allowed decision is to pay the fee of the k-th escalation, for a k of at most
  -- `max_escalations`. That fee is within the cap and covered by the expected profit with the
  -- margin, and every fee tried before it is within the cap and is not covered.
  pub choose_fee_gwei_sound :
      (choose_fee_gwei F p q).allowed ≡ true
      → (k : ℕ) × (k ≤ pos_part p.max_escalations)
        × (choose_fee_gwei F p q ≡ paying (escalate first_fee k) k)
        × FirstPaying first_fee k
  unfolding choose_fee_gwei
  choose_fee_gwei_sound h =
      let rounds : ℕ = suc (pos_part p.max_escalations) in
      let (k, lt, e, first) = choose_loop_allowed rounds 0 first_fee h in
      (k, omega arith, e ∙ ap (paying (escalate first_fee k)) (add.zero k), first)

  -- If some fee of at most `max_escalations` escalations is within the cap and covered, and those
  -- before it are within the cap and not covered, then the decision allows the trade.
  pub choose_fee_gwei_complete :
      (k : ℕ)
      → k ≤ pos_part p.max_escalations
      → FirstPaying first_fee k
      → (choose_fee_gwei F p q).allowed ≡ true
  unfolding choose_fee_gwei
  choose_fee_gwei_complete k le first =
      choose_loop_pays (suc (pos_part p.max_escalations)) 0 first_fee k (omega arith) first

-- `decide_fee` never goes above the cap of the chain's own policy, nor, where the chain has none,
-- above the default cap.
pub decide_fee-le_cap :
    (F : FloatModel) (policies : Dict (FeePolicy F)) (default_cap : F.Float) (chain : Text)
    (q : FeeQuery F)
    → F.at_most
        (decide_fee F policies default_cap chain q).fee_gwei
        (fee_policy_for F policies default_cap chain).max_fee_gwei
      ≡ true
unfolding decide_fee
decide_fee-le_cap F policies default_cap chain q =
    choose_fee_gwei-le_cap F (fee_policy_for F policies default_cap chain) q
