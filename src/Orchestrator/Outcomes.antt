-- ===== src/Orchestrator/Outcomes.antt =====
-- What `process` (core/orchestrator.py) decides, when it calls the callback, and what it records.
use mev_bot.Base.{
  ◌≢◌, ◌≡◌, refl, ap, Bool, true, false, Option, none, some, arith, inl, inr, push_bounded, ◌⊎◌,
  Bool-cases,
}
use mev_bot.Base.Text.{codes, text_eq, text_eq→eq, or_else}
use mev_bot.Base.Result.{Result, ok, raise}
use mev_bot.Base.Float.{FloatModel}
use mev_bot.Dex.{TxPlan, SimResult}
use mev_bot.Gates.{Opportunity, OperatorState, operator_gate}
use mev_bot.Orchestrator.{Setup, Halt, reject, escaped}
use mev_bot.Orchestrator.Process.{
  outcome_of, handed, Handed, TradePlan, Decision, Log, Clock, Ready, rejected, prepare, conclude,
  process, plan_of, mode_of, rejected_for, record_reject, log_simulation,
}
use mev_bot.Orchestrator.Loans.{simulates}
use mev_bot.Orchestrator.Plans.{IsPrepared, prepare-IsPrepared}

module _ (F : FloatModel) {A : Type 0} (o : Setup F A) (st : OperatorState) (opp : Opportunity F)
    (cb : Option (TradePlan F → TxPlan → Option Bool)) (clock : Clock F) (log : Log F) where
  outcome_of-plan :
      (p : Result Halt (Ready F)) (d : Decision F) (plan : TradePlan F)
      → (outcome_of F o st opp cb clock log p).0 ≡ some d
      → d.plan ≡ some plan
      → (r : Ready F) × (p ≡ ok r) × (plan ≡ plan_of F o st opp clock.planned_at r)
  unfolding outcome_of conclude
  outcome_of-plan (raise escaped) d plan h k = cc
  outcome_of-plan (raise (reject b reason)) d plan h k = cc
  outcome_of-plan (ok r) d plan h k = (r, refl, cc)

  -- Every plan that `process` decides on is made of something that was prepared: both gates passed,
  -- the route answers a quotation of a registered pack, the profit after the flashloan is at least
  -- the threshold, and in the modes with a simulation the pack simulated the transaction with success.
  pub process-IsPrepared :
      (d : Decision F) (plan : TradePlan F)
      → (process F o st opp cb clock log).0 ≡ some d
      → d.plan ≡ some plan
      → (r : Ready F) × IsPrepared F o opp st r × (plan ≡ plan_of F o st opp clock.planned_at r)
  unfolding process
  process-IsPrepared d plan h k =
      let (r, e, same) = outcome_of-plan (prepare F o st opp) d plan h k in
      (r, prepare-IsPrepared F o opp st r e, same)

  handed_back :
      (cb : Option (TradePlan F → TxPlan → Option Bool)) (plan : TradePlan F) (tx : TxPlan)
      (call : Handed F)
      → handed F o st opp cb plan tx ≡ some call
      → call ≡ record { handed_plan = plan; handed_tx = tx }
  handed_back none plan tx call h = cc
  handed_back (some f) plan tx call h = cc

  -- What the callback is called with, by the stages.
  outcome_of-Handed :
      (p : Result Halt (Ready F)) (call : Handed F)
      → (outcome_of F o st opp cb clock log p).1 ≡ some call
      → (r : Ready F) × (p ≡ ok r)
        × (mode_of st ≡ codes "live")
        × (call
            ≡ record { handed_plan = plan_of F o st opp clock.planned_at r; handed_tx = r.loan.tx })
  unfolding outcome_of conclude
  outcome_of-Handed (raise escaped) call h = cc
  outcome_of-Handed (raise (reject b reason)) call h = cc
  outcome_of-Handed (ok r) call h = elim (Bool-cases (text_eq (mode_of st) (codes "live"))) [
    | inr e ↦ cc (rw e at h)
    | inl e ↦ (
      r,
      refl,
      text_eq→eq (mode_of st) (codes "live") e,
      handed_back cb (plan_of F o st opp clock.planned_at r) r.loan.tx call (rw e at h),
    )
  ]

  live_simulates : mode_of st ≡ codes "live" → simulates (mode_of st) ≡ true
  unfolding simulates text_eq
  live_simulates e = rw e refl

  -- The callback is called only in the live mode, with the plan of something that was prepared and
  -- with a transaction that the pack of the plan's route simulated with success.
  pub process_live :
      (call : Handed F)
      → (process F o st opp cb clock log).1 ≡ some call
      → (mode_of st ≡ codes "live")
        × ((r : Ready F) × IsPrepared F o opp st r
            × (call.handed_plan ≡ plan_of F o st opp clock.planned_at r)
            × ((s : SimResult) × (r.sized.chosen.pack.simulate call.handed_tx ≡ some s)
                × (s.ok ≡ true)))
  unfolding process
  process_live call h =
      let (r, e, live, same) = outcome_of-Handed (prepare F o st opp) call h in
      let ready = prepare-IsPrepared F o opp st r e in
      let (s, kept, simulated, good) = ready.simulated (live_simulates live) in
      (
        live,
        (
          r,
          ready,
          ap (λ x. x.handed_plan) same,
          (s, rw (ap (λ x. x.handed_tx) same) simulated, good),
        ),
      )

  -- What the log of the rejects is after a decision.
  abbrev pub Rejects : Option (Decision F) → Log F → Type 0
  Rejects none after = after ≡ log
  Rejects (some d) after =
      ((d.status ≡ rejected)
        × (d.plan ≡ none)
        × (after.rejects
            ≡ push_bounded 20000 (clock.ended_at, or_else d.reason (codes "unknown")) log.rejects))
      ⊎ ((d.status ≢ rejected) × (after.rejects ≡ log.rejects))

  rejects-log_simulation :
      (b : Bool) → (log_simulation F o st opp b clock.simulated_at log).rejects ≡ log.rejects
  rejects-log_simulation true = refl
  rejects-log_simulation false = refl

  outcome_of-Rejects :
      (p : Result Halt (Ready F)) → let r = outcome_of F o st opp cb clock log p in Rejects r.0 r.2
  unfolding outcome_of conclude record_reject
  outcome_of-Rejects (raise escaped) = refl
  outcome_of-Rejects (raise (reject b reason)) =
      inl (refl, refl, ap (push_bounded 20000 _) (rejects-log_simulation b))
  outcome_of-Rejects (ok r) = inr (ground arith, rejects-log_simulation (simulates (mode_of st)))

  -- A decision is a reject exactly when one reject is recorded, which then has its reason and is the
  -- newest of at most 20000; any other decision leaves the rejects as they were, and an exception of
  -- the simulation leaves the whole log as it was.
  pub process-Rejects : let r = process F o st opp cb clock log in Rejects r.0 r.2
  unfolding process
  process-Rejects = outcome_of-Rejects (prepare F o st opp)

  -- If the operator's gate does not pass, `process` rejects with the reason of the gate, whatever the
  -- opportunity is, and calls nothing.
  pub process_stopped :
      (operator_gate st).ok ≡ false
      → process F o st opp cb clock log ≡ (
        some (rejected_for F o st opp (operator_gate st).reason),
        none,
        record_reject F o st opp clock.ended_at (operator_gate st).reason log,
      )
  unfolding process prepare
  process_stopped h = rw h refl
