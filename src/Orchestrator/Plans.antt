-- ===== src/Orchestrator/Plans.antt =====
-- What is true of every plan that `process` (core/orchestrator.py) makes.
use mathlib.Core.Path.{subst}
use mev_bot.Base.{
  zero, ap, List, if_both, ◌⊎◌, ℕ, suc, ◌≡◌, refl, ◌<◌, Bool, true, false, Option, none, some,
  arith, inl, inr, Bool-cases, Option-cases,
}
use mev_bot.Base.Text.{Text}
use mev_bot.Base.Result.{Result, ok, raise, bind-ok}
use mev_bot.Base.Float.{FloatModel, below}
use mev_bot.Dex.{TxPlan, SimResult}
use mev_bot.Router.{RouterSelection}
use mev_bot.Sizing.{search_best_size, SizingResult}
use mev_bot.Sizing.Keeps.{search_best_size-keeps}
use mev_bot.Gates.{Opportunity, OperatorState, GateResult, operator_gate, cheap_opportunity_gate}
use mev_bot.Orchestrator.{
  Setup, Provider, sized_of, Chosen, Scoring, Sized, Halt, intent_for, net_of, score_route,
  score_size, keep_better, last_profit, unscored, viable, pick_size, threshold, check_profit,
  build_tx,
}
use mev_bot.Orchestrator.Loans.{
  Loan, grant, loan_block, take_loan, simulate_tx, simulates, wrap_loan, wrap_plain, wrap_with_plan,
}
use mev_bot.Orchestrator.Process.{Ready, prepare, gated, mode_of}

gated-ok : (g : GateResult) (u : Unit) → gated g ≡ ok u → g.ok ≡ true
gated-ok g u h = elim (Bool-cases g.ok) [ inl e ↦ e | inr e ↦ cc (rw (e, gated) at h) ]

module _ (F : FloatModel) {A : Type 0} (o : Setup F A) (opp : Opportunity F) where
  open F use {Float, at_most, sub, lit}

  -- The choice comes from the answer to some quotation of some size, with a registered pack, and its
  -- profit is the net profit of that size on that route.
  pub record IsRouted (c : Chosen F) : Type 0 where
    pub size : ℕ
    pub quotation : ℕ
    pub quoted : o.route quotation (intent_for F o opp size) ≡ some c.sel
    pub registered : o.registry c.sel.dex ≡ some c.pack
    pub asked : c.intent ≡ intent_for F o opp size
    pub earned : c.profit ≡ net_of F o opp size c.sel

  abbrev Routed : Option (Chosen F) → Type 0
  Routed none = Unit
  Routed (some c) = IsRouted c

  keep_better-Routed :
      (c : Chosen F) (last : Option (Chosen F))
      → IsRouted c
      → Routed last
      → Routed (keep_better F o opp c last)
  keep_better-Routed c last h k = if_both Routed (below F (last_profit F o opp last) c.profit) h k

  score_route-Routed :
      (size q : ℕ) (st : Scoring F) (answer : Option (RouterSelection F))
      → o.route q (intent_for F o opp size) ≡ answer
      → Routed st.last
      → Routed (score_route F o opp size st answer).1.last
  unfolding score_route
  score_route-Routed size q st none e h = h
  score_route-Routed size q st (some sel) e h = elim (Option-cases (o.registry sel.dex)) [
    | inl n ↦ rw (n, score_route) h
    | inr (pack, n) ↦
        rw (n, score_route)
          (keep_better-Routed _ st.last
            (record {
              size = size;
              quotation = q;
              quoted = e;
              registered = n;
              asked = refl;
              earned = refl;
            })
            h)
  ]

  score_size-Routed :
      (size : ℕ) (st : Scoring F) → Routed st.last → Routed (score_size F o opp size st).1.last
  unfolding score_size
  score_size-Routed size st h = score_route-Routed size st.quotations _ _ refl h

  sized_of-chosen :
      (c : Chosen F) (evaluated : List ℕ) (n : ℕ) (s : Sized F)
      → sized_of F o opp c evaluated n ≡ ok s
      → (c ≡ s.chosen) × (0 < s.size)
  sized_of-chosen c evaluated zero s h = cc
  sized_of-chosen c evaluated (suc n) s h =
      let same : record { chosen = c; size = suc n; evaluated = evaluated } ≡ s = cc h in
      (ap (λ x. x.chosen) same, subst (λ x. 0 < x.size) same (omega arith))

  viable-Routed :
      (r : SizingResult F) (last : Option (Chosen F)) (s : Sized F)
      → Routed last
      → viable F o opp r last ≡ ok s
      → IsRouted s.chosen × (0 < s.size)
  viable-Routed r none s k h = cc
  viable-Routed r (some c) s k h =
      let (same, positive) = sized_of-chosen c r.evaluated r.best_size s h in
      (subst IsRouted same k, positive)

  pick_size-Routed : (s : Sized F) → pick_size F o opp ≡ ok s → IsRouted s.chosen × (0 < s.size)
  unfolding pick_size
  pick_size-Routed s h =
      let found =
        search_best_size F (score_size F o opp) opp.size_candidates 7 (lit 30 2) 5
          (unscored F o opp) in
      viable-Routed found.0 found.1.last s
        (search_best_size-keeps F (score_size F o opp) (λ st. Routed st.last) score_size-Routed
          opp.size_candidates 7 (lit 30 2) 5 (unscored F o opp) tt)
        h

  check_profit-enough :
      (s t : Sized F)
      → check_profit F o opp s ≡ ok t
      → (s ≡ t) × (at_most (threshold F o opp) t.chosen.profit ≡ true)
  unfolding check_profit
  check_profit-enough s t h = elim (Bool-cases (below F s.chosen.profit (threshold F o opp))) [
    | inl e ↦ cc (rw (e, check_profit) at h)
    | inr e ↦
        let same : s ≡ t = cc (rw (e, check_profit) at h) in
        (same, subst (λ x. at_most (threshold F o opp) x.chosen.profit ≡ true) same (ground arith))
  ]

  -- The profit after the flashloan is the one before it, without the fee if it is used.
  abbrev Settled : Float → Sized F → Loan F → Type 0
  Settled fee s loan = (loan.profit ≡ s.chosen.profit) ⊎ (loan.profit ≡ sub s.chosen.profit fee)

  wrap_loan-Settled :
      (p : Provider F) (fee : Float) (tx : TxPlan) (s : Sized F)
      → Settled fee s (wrap_loan F o opp p fee tx s)
  unfolding wrap_loan wrap_plain wrap_with_plan
  wrap_loan-Settled p fee tx s = ground arith

  abbrev Enough : Result Halt (Loan F) → Type 0
  Enough (ok loan) = at_most (threshold F o opp) loan.profit ≡ true
  Enough (raise e) = Unit

  grant-Enough :
      (p : Provider F) (fee : Float) (tx : TxPlan) (s : Sized F)
      → at_most (threshold F o opp) s.chosen.profit ≡ true
      → Enough (grant F o opp p fee tx s)
  unfolding grant
  grant-Enough p fee tx s h =
      elim (Bool-cases (below F (sub s.chosen.profit fee) (threshold F o opp))) [
        | inl e ↦ rw (e, grant) tt
        | inr e ↦
            rw (e, grant)
              (elim (wrap_loan-Settled p fee tx s) [
                | inl same ↦ rw same h
                | inr less ↦ rw less (ground arith)
              ])
      ]

  loan_block-Enough :
      (provider : Option (Provider F)) (wanted : Bool) (fee : Float) (tx : TxPlan) (s : Sized F)
      → at_most (threshold F o opp) s.chosen.profit ≡ true
      → Enough (loan_block F o opp provider wanted fee tx s)
  unfolding loan_block
  loan_block-Enough none wanted fee tx s h = h
  loan_block-Enough (some p) true fee tx s h = grant-Enough p fee tx s h
  loan_block-Enough (some p) false fee tx s h = h

  take_loan-enough :
      (s : Sized F) (tx : TxPlan) (loan : Loan F)
      → at_most (threshold F o opp) s.chosen.profit ≡ true
      → take_loan F o opp s tx ≡ ok loan
      → at_most (threshold F o opp) loan.profit ≡ true
  unfolding take_loan
  take_loan-enough s tx loan h e = subst Enough e (loan_block-Enough o.provider _ _ tx s h)

  -- In the modes with a simulation, the pack of the choice has simulated the transaction, and the
  -- simulation succeeded.
  abbrev pub Simulated : Text → Sized F → Loan F → Option SimResult → Type 0
  Simulated mode s loan sim =
      simulates mode ≡ true
      → (r : SimResult) × (sim ≡ some r) × (s.chosen.pack.simulate loan.tx ≡ some r) × (r.ok ≡ true)

  simulate_tx-Simulated :
      (mode : Text) (s : Sized F) (loan : Loan F) (sim : Option SimResult)
      → simulate_tx F o opp mode s loan ≡ ok sim
      → Simulated mode s loan sim
  unfolding simulate_tx
  simulate_tx-Simulated mode s loan sim h live =
      elim (Option-cases (s.chosen.pack.simulate loan.tx)) [
        | inl e ↦ cc (rw (live, e, simulate_tx) at h)
        | inr (r, e) ↦ elim (Bool-cases r.ok) [
          | inl good ↦ (r, cc (rw (live, e, good, simulate_tx) at h), e, good)
          | inr bad ↦ cc (rw (live, e, bad, simulate_tx) at h)
        ]
      ]

  module _ (st : OperatorState) where
    -- What holds of everything that `process` makes a plan of.
    pub record IsPrepared (r : Ready F) : Type 0 where
      pub by_operator : (operator_gate st).ok ≡ true
      pub by_value : (cheap_opportunity_gate F opp o.risk_cfg).ok ≡ true
      pub routed : IsRouted r.sized.chosen
      pub positive : 0 < r.sized.size
      pub enough : at_most (threshold F o opp) r.loan.profit ≡ true
      pub simulated : Simulated (mode_of st) r.sized r.loan r.sim

    pub prepare-IsPrepared : (r : Ready F) → prepare F o st opp ≡ ok r → IsPrepared r
    unfolding prepare
    prepare-IsPrepared r h =
        let (u, e₁, h₁) = bind-ok (gated (operator_gate st)) _ r h in
        let (v, e₂, h₂) = bind-ok (gated (cheap_opportunity_gate F opp o.risk_cfg)) _ r h₁ in
        let (found, e₃, h₃) = bind-ok (pick_size F o opp) _ r h₂ in
        let (sized, e₄, h₄) = bind-ok (check_profit F o opp found) _ r h₃ in
        let (tx, e₅, h₅) = bind-ok (build_tx F o opp sized) _ r h₄ in
        let (loan, e₆, h₆) = bind-ok (take_loan F o opp sized tx) _ r h₅ in
        let (sim, e₇, h₇) = bind-ok (simulate_tx F o opp (mode_of st) sized loan) _ r h₆ in
        let done : record { sized = sized; loan = loan; sim = sim } ≡ r = cc h₇ in
        let (routed, positive) = pick_size-Routed found e₃ in
        let (same, enough) = check_profit-enough found sized e₄ in
        subst IsPrepared done (record {
          by_operator = gated-ok (operator_gate st) u e₁;
          by_value = gated-ok (cheap_opportunity_gate F opp o.risk_cfg) v e₂;
          routed = subst (λ x. IsRouted x.chosen) same routed;
          positive = subst (λ x. 0 < x.size) same positive;
          enough = take_loan-enough sized tx loan enough e₆;
          simulated = simulate_tx-Simulated (mode_of st) sized loan sim e₇;
        })
