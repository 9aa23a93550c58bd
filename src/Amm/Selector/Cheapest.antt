-- ===== src/Amm/Selector/Cheapest.antt =====
-- The choice of a route among the candidates (bot/route/selector.py), also for a pool that cannot pay
-- the output.
use mev_bot.Base.{
  ◌≡◌, refl, sym, ap, ◌∙◌, ◌⊎◌, inl, inr, Bool, true, ◌||◌, Option, none, some, List, [], ◌∷◌,
  arith, All, Bool-cases, Option-cases, In,
}
use mev_bot.Base.Int.{ℤ, pos, ◌≤ℤ◌, leb_ℤ, ltb_ℤ, ◌+ℤ◌, +ℤ_parts}
use mev_bot.Amm.{get_amount_in}
use mev_bot.Amm.Selector.{
  RouteChoice, V3Quote, Penalty, total, candidate, cheaper, over_tiers, v2_choice,
  choose_for_exact_out,
}

-- No candidate, or one whose total is at least that of the choice.
abbrev pub NotCheaper : RouteChoice → Option RouteChoice → Type 0
NotCheaper best none = Unit
NotCheaper best (some c) = total best ≤ℤ total c

module _ (p : Penalty) (quote : ℤ → V3Quote) where
  cheaper-le : (c : Option RouteChoice) (best : RouteChoice) → total (cheaper c best) ≤ℤ total best
  unfolding cheaper
  cheaper-le none best = omega arith
  cheaper-le (some c) best = elim (Bool-cases (ltb_ℤ (total c) (total best))) [
    | inl e ↦ rw e (ground arith)
    | inr e ↦ rw e (omega arith)
  ]

  cheaper-NotCheaper : (c : Option RouteChoice) (best : RouteChoice) → NotCheaper (cheaper c best) c
  unfolding cheaper
  cheaper-NotCheaper none best = tt
  cheaper-NotCheaper (some c) best = elim (Bool-cases (ltb_ℤ (total c) (total best))) [
    | inl e ↦ rw e (omega arith)
    | inr e ↦ rw e (ground arith)
  ]

  NotCheaper-trans :
      (a b : RouteChoice) (c : Option RouteChoice)
      → total a ≤ℤ total b
      → NotCheaper b c
      → NotCheaper a c
  NotCheaper-trans a b none h k = tt
  NotCheaper-trans a b (some c) h k = omega arith

  over_tiers-le :
      (fees : List ℤ) (best : RouteChoice) → total (over_tiers p quote fees best) ≤ℤ total best
  unfolding over_tiers
  over_tiers-le [] best = omega arith
  over_tiers-le (fee ∷ fees) best =
      let next = cheaper (candidate p fee (quote fee)) best in
      omega (arith, over_tiers-le fees next, cheaper-le (candidate p fee (quote fee)) best)

  over_tiers-NotCheaper :
      (fees : List ℤ) (best : RouteChoice)
      → All (λ fee. NotCheaper (over_tiers p quote fees best) (candidate p fee (quote fee))) fees
  unfolding over_tiers
  over_tiers-NotCheaper [] best = tt
  over_tiers-NotCheaper (fee ∷ fees) best =
      let next = cheaper (candidate p fee (quote fee)) best in
      (
        NotCheaper-trans (over_tiers p quote fees next) next (candidate p fee (quote fee))
            (over_tiers-le fees next) (cheaper-NotCheaper (candidate p fee (quote fee)) best),
        over_tiers-NotCheaper fees next,
      )

  -- The choice is the first, or the candidate of one of the tiers.
  abbrev pub Offered : List ℤ → RouteChoice → RouteChoice → Type 0
  Offered fees first c =
      (c ≡ first) ⊎ ((fee : ℤ) × In fee fees × (candidate p fee (quote fee) ≡ some c))

  Offered-cons :
      (fee : ℤ) (fees : List ℤ) (first best c : RouteChoice)
      → (best ≡ first) ⊎ (candidate p fee (quote fee) ≡ some best)
      → Offered fees best c
      → Offered (fee ∷ fees) first c
  Offered-cons fee fees first best c (inl same) (inl e) = inl (e ∙ same)
  Offered-cons fee fees first best c (inr cand) (inl e) =
      inr (fee, inl refl, cand ∙ ap some (sym e))
  Offered-cons fee fees first best c h (inr (f, m, cand)) = inr (f, inr m, cand)

  cheaper-cases :
      (o : Option RouteChoice) (best : RouteChoice)
      → (cheaper o best ≡ best) ⊎ (o ≡ some (cheaper o best))
  unfolding cheaper
  cheaper-cases none best = inl refl
  cheaper-cases (some c) best = ground arith

  over_tiers-Offered :
      (fees : List ℤ) (best : RouteChoice) → Offered fees best (over_tiers p quote fees best)
  unfolding over_tiers
  over_tiers-Offered [] best = inl refl
  over_tiers-Offered (fee ∷ fees) best =
      Offered-cons fee fees best (cheaper (candidate p fee (quote fee)) best) _
        (cheaper-cases (candidate p fee (quote fee)) best)
        (over_tiers-Offered fees (cheaper (candidate p fee (quote fee)) best))

  module _ (fee_tiers : List ℤ) (want rin rout fee_bps : ℤ) where
    -- A route that is chosen is the pool of version 2 with the input of `get_amount_in`, or the
    -- candidate of a tier that was quoted; and its total is at most that of each of these.
    pub choose_for_exact_out_cheapest :
        (c : RouteChoice)
        → choose_for_exact_out p quote fee_tiers want rin rout fee_bps ≡ some c
        → (amount : ℤ) × (get_amount_in want rin rout fee_bps ≡ some amount)
          × Offered fee_tiers (v2_choice p fee_bps amount) c
          × (total c ≤ℤ total (v2_choice p fee_bps amount))
          × All (λ fee. NotCheaper c (candidate p fee (quote fee))) fee_tiers
    unfolding choose_for_exact_out
    choose_for_exact_out_cheapest c h = elim (Option-cases (get_amount_in want rin rout fee_bps)) [
      | inl e ↦ cc (rw (e, choose_for_exact_out) at h)
      | inr (amount, e) ↦
          let first = v2_choice p fee_bps amount in
          let same : over_tiers p quote fee_tiers first ≡ c =
            cc (rw (e, choose_for_exact_out) at h) in
          (
            amount,
            e,
            rw (← same) (over_tiers-Offered fee_tiers first),
            rw (← same) (over_tiers-le fee_tiers first),
            rw (← same) (over_tiers-NotCheaper fee_tiers first),
          )
    ]

or_true : (a b c d : Bool) → d ≡ true → (a || b || c || d) ≡ true
or_true a b c d h = ground arith

get_amount_in_exhausted :
    (want rin rout fee_bps : ℤ) → rout ≤ℤ want → get_amount_in want rin rout fee_bps ≡ some (pos 0)
unfolding get_amount_in
get_amount_in_exhausted want rin rout fee_bps h =
    let last : leb_ℤ rout want ≡ true = ground arith in
    rw
      (or_true (leb_ℤ want (pos 0)) (leb_ℤ rin (pos 0)) (leb_ℤ rout (pos 0)) (leb_ℤ rout want) last)
      refl

module _ (quote : ℤ → V3Quote)
    (nonneg : (fee a : ℤ) → (quote fee).amount_in ≡ some a → pos 0 ≤ℤ a) where
  candidate-dear :
      (fee : ℤ) (best : RouteChoice)
      → total best ≤ℤ pos 0
      → cheaper (candidate none fee (quote fee)) best ≡ best
  unfolding cheaper candidate
  candidate-dear fee best h = elim (Option-cases ((quote fee).amount_in)) [
    | inl e ↦ rw e refl
    | inr (a, e) ↦ rw e (ground (arith, nonneg fee a e, +ℤ_parts a (pos 0)))
  ]

  over_tiers-dear :
      (fees : List ℤ) (best : RouteChoice)
      → total best ≤ℤ pos 0
      → over_tiers none quote fees best ≡ best
  unfolding over_tiers
  over_tiers-dear [] best h = refl
  over_tiers-dear (fee ∷ fees) best h = rw (candidate-dear fee best h) (over_tiers-dear fees best h)

  -- A pool that cannot pay the output, since its reserve is at most the output, is chosen at no
  -- cost, whatever the quotes of the tiers are: with no penalty for gas, and quotes that are not
  -- negative, the choice is version 2 with an input of 0.
  pub choose_for_exact_out_exhausted :
      (fee_tiers : List ℤ) (want rin rout fee_bps : ℤ)
      → rout ≤ℤ want
      → choose_for_exact_out none quote fee_tiers want rin rout fee_bps
        ≡ some (v2_choice none fee_bps (pos 0))
  unfolding choose_for_exact_out total ◌+ℤ◌
  choose_for_exact_out_exhausted fee_tiers want rin rout fee_bps h =
      rw (get_amount_in_exhausted want rin rout fee_bps h, choose_for_exact_out)
        (ap some (over_tiers-dear fee_tiers (v2_choice none fee_bps (pos 0)) (omega arith)))
