-- ===== src/Flashloan/Legs.antt =====
-- The path and the legs of a flashloan (strategies/flashloan_arb.py), of an opportunity that a detector
-- found.
use mathlib.Core.Path.{subst}
use mev_bot.Base.{
  ◌≡◌, refl, sym, ap, ◌∙◌, ℕ, false, some, List, [], ◌∷◌, is_empty, length, All, arith,
}
use mev_bot.Base.Text.{Text, codes, text_eq, norm, strip, drop_space, lower, or_else}
use mev_bot.Base.Int.{pos}
use mev_bot.Base.Float.{FloatModel}
use mev_bot.Gates.{Opportunity, Constraints, text_or_empty}
use mev_bot.Graph.{Cycle}
use mev_bot.Detectors.{TradeRouter, MarketEvent, Row}
use mev_bot.Detectors.Triarb.{TriArbDetector, Legs}
use mev_bot.Detectors.Triarb.Cycles.{IsArbitrage}
use mev_bot.Orchestrator.{Provider}
use mev_bot.Flashloan.{
  SwapLeg, FlashloanArbPlan, path_of, nonempty, tokens_or_mids, swap_legs, behind, build_plan,
  plan_along, bundle_of, repay_of,
}

-- The legs start at a token, each goes on where the one before it ends, and the last ends at a token.
abbrev pub Leads : Text → List SwapLeg → Text → Type 0
Leads s [] t = s ≡ t
Leads s (l ∷ ls) t = (l.token_in ≡ s) × Leads l.token_out ls t

abbrev pub last_of : Text → List Text → Text
last_of t [] = t
last_of t (u ∷ us) = last_of u us

-- The legs lead along the path.
swap_legs-Leads :
    (t : Text) (ts dexes : List Text) → Leads t (swap_legs (t ∷ ts) dexes) (last_of t ts)
unfolding swap_legs
swap_legs-Leads t [] dexes = refl
swap_legs-Leads t (u ∷ us) dexes = (refl, swap_legs-Leads u us (behind dexes))

length-swap_legs : (t : Text) (ts dexes : List Text) → length (swap_legs (t ∷ ts) dexes) ≡ length ts
unfolding swap_legs
length-swap_legs t [] dexes = refl
length-swap_legs t (u ∷ us) dexes = ground (arith, length-swap_legs u us (behind dexes))

nonempty_all : (xs : List Text) → All (λ t. is_empty t ≡ false) xs → nonempty xs ≡ xs
nonempty_all [] h = refl
nonempty_all (x ∷ xs) h = rw h.0 (ap (λ z. x ∷ z) (nonempty_all xs h.1))

triarb_path :
    (c : Constraints) (s : Text) (ts dexes : List Text)
    → c.path_tokens ≡ s ∷ ts
    → c.path_dexes ≡ dexes
    → All (λ x. is_empty x ≡ false) (s ∷ ts)
    → All (λ x. is_empty x ≡ false) dexes
    → path_of (norm (codes "triarb")) c ≡ (s ∷ ts, dexes)
unfolding path_of norm strip drop_space lower text_eq
triarb_path c s ts dexes e k h l =
    let tokens : nonempty c.path_tokens ≡ s ∷ ts = ap nonempty e ∙ nonempty_all (s ∷ ts) h in
    let packs : nonempty c.path_dexes ≡ dexes = ap nonempty k ∙ nonempty_all dexes l in
    ap (λ x. (tokens_or_mids c x, nonempty c.path_dexes)) tokens ∙ ap (λ y. (s ∷ ts, y)) packs

module _ (F : FloatModel) (p : Provider F) where
  open F use {Float}

  -- What the strategy makes of an opportunity: the borrowed amount of its first token goes round and
  -- comes back to it.
  pub record IsRound (opp : Opportunity F) (size : ℕ) (legs : List SwapLeg)
      (plan : FlashloanArbPlan F) : Type 0 where
    pub token : some plan.token_in ≡ opp.constraints.token_in
    pub borrowed : (bundle_of F plan).borrow ≡ (plan.token_in, pos size)
    pub repaid : (bundle_of F plan).repay ≡ (plan.token_in, plan.repay_amount)
    pub legs_are : (bundle_of F plan).swap_legs ≡ legs
    pub round : Leads plan.token_in (bundle_of F plan).swap_legs plan.token_in

  plan_along-some :
      (kind s : Text) (path : List Text × List Text) (size : ℕ) (profit : Float)
      → is_empty s ≡ false
      → (plan : FlashloanArbPlan F) × (plan_along F p kind s path size profit ≡ some plan)
        × ((plan.token_in ≡ s)
            × ((plan.borrow_amount ≡ pos size)
                × ((plan.path_tokens ≡ path.0) × (plan.path_dexes ≡ path.1))))
  unfolding plan_along
  plan_along-some kind s path size profit full = (
    record {
      provider = p.name;
      token_in = s;
      borrow_amount = pos size;
      repay_amount = repay_of F p.fee_bps size;
      fee_bps = p.fee_bps;
      path_tokens = path.0;
      path_dexes = path.1;
      expected_profit_after_costs = profit;
      kind = or_else kind (codes "xarb");
    },
    rw full refl,
    (refl, (refl, (refl, refl))),
  )

  -- A plan along a path from a token back to it.
  build_plan-IsRound :
      (opp : Opportunity F) (size : ℕ) (profit : Float) (s : Text) (ts dexes : List Text)
      → opp.constraints.token_in ≡ some s
      → is_empty s ≡ false
      → path_of (norm opp.kind) opp.constraints ≡ (s ∷ ts, dexes)
      → last_of s ts ≡ s
      → (plan : FlashloanArbPlan F) × (build_plan F p opp size profit ≡ some plan)
        × IsRound opp size (swap_legs (s ∷ ts) dexes) plan
  unfolding build_plan bundle_of
  build_plan-IsRound opp size profit s ts dexes token full path closed =
      let first : text_or_empty opp.constraints.token_in ≡ s = ap text_or_empty token in
      let (plan, made, (tok, (amount, (tokens, packs)))) =
        plan_along-some (norm opp.kind) (text_or_empty opp.constraints.token_in)
          (path_of (norm opp.kind) opp.constraints) size profit (ap is_empty first ∙ full) in
      let tokens' : plan.path_tokens ≡ s ∷ ts = tokens ∙ ap (λ x. x.0) path in
      let packs' : plan.path_dexes ≡ dexes = packs ∙ ap (λ x. x.1) path in
      let legs : swap_legs plan.path_tokens plan.path_dexes ≡ swap_legs (s ∷ ts) dexes = cc in
      let start : plan.token_in ≡ s = tok ∙ first in
      (
        plan,
        made,
        record {
          token = ap some start ∙ sym token;
          borrowed = ap (λ n. (plan.token_in, n)) amount;
          repaid = refl;
          legs_are = legs;
          round =
              subst (λ ls. Leads plan.token_in ls plan.token_in) (sym legs)
                (subst (λ t. Leads t (swap_legs (s ∷ ts) dexes) t) (sym start)
                  (subst (λ t. Leads s (swap_legs (s ∷ ts) dexes) t) closed
                    (swap_legs-Leads s ts dexes)));
        },
      )

  -- The legs of a triangle, with the packs of its routes.
  abbrev pub triangle_legs : Cycle → Legs F → List SwapLeg
  triangle_legs t l =
      record { token_in = t.a; token_out = t.b; dex = l.q1.dex }
      ∷ record { token_in = t.b; token_out = t.c; dex = l.q2.dex }
      ∷ record { token_in = t.c; token_out = t.a; dex = l.q3.dex }
      ∷ []

  abbrev pub HasNames : Cycle → Legs F → Type 0
  HasNames t l =
      All (λ x. is_empty x ≡ false) (t.a ∷ t.b ∷ t.c ∷ t.a ∷ [])
      × All (λ x. is_empty x ≡ false) (l.q1.dex ∷ l.q2.dex ∷ l.q3.dex ∷ [])

  -- For an opportunity that the detector of triangles found in a cycle of named tokens, over named
  -- packs, the strategy has a plan: it borrows the size of the first token, swaps it along the cycle
  -- at the packs of the detector's three routes, and repays the first token.
  pub triangle-IsRound :
      (d : TriArbDetector F) (router : TradeRouter F) (event : MarketEvent) (rows : List (Row F))
      (t : Cycle) (opp : Opportunity F) (i : IsArbitrage F d router event rows t opp) (size : ℕ)
      (profit : Float)
      → HasNames t i.legs
      → (plan : FlashloanArbPlan F) × (build_plan F p opp size profit ≡ some plan)
        × IsRound opp size (triangle_legs t i.legs) plan
  unfolding path_of norm strip drop_space lower text_eq swap_legs
  triangle-IsRound d router event rows t opp i size profit (tokens, packs) =
      build_plan-IsRound opp size profit t.a (t.b ∷ t.c ∷ t.a ∷ [])
        (i.legs.q1.dex ∷ i.legs.q2.dex ∷ i.legs.q3.dex ∷ []) i.first tokens.0
        (ap (λ k. path_of (norm k) opp.constraints) i.kind
          ∙ triarb_path opp.constraints t.a (t.b ∷ t.c ∷ t.a ∷ [])
              (i.legs.q1.dex ∷ i.legs.q2.dex ∷ i.legs.q3.dex ∷ []) i.tokens i.dexes tokens packs)
        refl
