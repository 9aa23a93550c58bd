-- ===== src/Orchestrator/Loans.antt =====
-- The flashloan and the simulation of `process` (core/orchestrator.py).
use mev_bot.Base.{Bool, true, false, Option, none, some, List, [], ◌∷◌, if◌then◌else◌}
use mev_bot.Base.Int.{pos}
use mev_bot.Base.Text.{Text, codes, or_else, member}
use mev_bot.Base.Result.{Result, ok, raise}
use mev_bot.Base.Float.{FloatModel, below, fmax}
use mev_bot.Dex.{TxPlan, SimResult}
use mev_bot.Gates.{Opportunity}
use mev_bot.Orchestrator.{
  Halt, reject, escaped, Provider, ArbStrategy, Setup, Sized, is_arb, threshold,
}

-- What is known after the flashloan: whether one is used, its estimated fee, the transaction and the
-- expected profit.
pub record Loan (F : FloatModel) : Type 0 where
  pub used : Bool
  pub fee_usd : F.Float
  pub tx : TxPlan
  pub profit : F.Float

-- `mode in {"paper", "live"}`
unfoldable pub simulates : Text → Bool
unfolding member
simulates mode = member mode (codes "paper" ∷ codes "live" ∷ [])

-- `list(logs or [])`
abbrev pub logs_of : Option (List Text) → List Text
logs_of none = []
logs_of (some logs) = logs

module _ (F : FloatModel) {A : Type 0} (o : Setup F A) (opp : Opportunity F) where
  open F use {Float, at_most, add, sub, mul, div, of_ℤ, lit}

  -- `fee_est` for a size.
  unfoldable pub loan_fee : Provider F → Float → Float
  loan_fee p size_usd =
      add (div (mul size_usd (fmax F (lit 0 0) p.fee_bps)) (lit 10000 0))
        (fmax F (lit 0 0) o.flashloan_gas_overhead_usd)

  unfoldable pub should_use_flashloan : Float → Float → Bool × Float
  unfolding loan_fee
  should_use_flashloan size_usd profit = elim (o.provider) [
    | none ↦ (false, lit 0 0)
    | some p ↦
        if at_most size_usd (fmax F (lit 0 0) o.inventory_usd)
        then (false, lit 0 0)
        else if below F size_usd (fmax F (lit 0 0) o.flashloan_min_size)
        then (false, lit 0 0)
        else if at_most profit (loan_fee p size_usd)
        then (false, loan_fee p size_usd)
        else (true, loan_fee p size_usd)
  ]

  -- An exception in the `try`: the loan is given up, with the transaction as it is by then.
  abbrev pub unused : Float → TxPlan → Sized F → Loan F
  unused fee tx s = record { used = false; fee_usd = fee; tx = tx; profit = s.chosen.profit }

  -- The transaction, wrapped, and with the plan of the strategy if there is one.
  abbrev pub attached : Float → TxPlan → Sized F → Option TxPlan → Loan F
  attached fee wrapped s none = unused fee wrapped s
  attached fee wrapped s (some tx) = record {
    used = true;
    fee_usd = fee;
    tx = tx;
    profit = sub s.chosen.profit fee;
  }

  unfoldable pub wrap_plain : Provider F → Float → TxPlan → Sized F → Loan F
  wrap_plain p fee tx s = elim (p.wrap tx) [
    | none ↦ unused fee tx s
    | some wrapped ↦ attached fee wrapped s (some wrapped)
  ]

  unfoldable pub wrap_with_plan : ArbStrategy F A → Provider F → Float → TxPlan → Sized F → Loan F
  wrap_with_plan arb p fee tx s = elim (arb.build_plan opp s.size (sub s.chosen.profit fee)) [
    | none ↦ unused fee tx s
    | some plan ↦ elim (p.wrap tx) [
      | none ↦ unused fee tx s
      | some wrapped ↦ attached fee wrapped s (arb.attach wrapped plan)
    ]
  ]

  unfoldable pub wrap_loan : Provider F → Float → TxPlan → Sized F → Loan F
  unfolding wrap_plain wrap_with_plan is_arb
  wrap_loan p fee tx s = elim (o.arb) [
    | none ↦ wrap_plain p fee tx s
    | some arb ↦ if is_arb F o opp then wrap_with_plan arb p fee tx s else wrap_plain p fee tx s
  ]

  -- The `try` of a wanted flashloan.
  unfoldable pub grant : Provider F → Float → TxPlan → Sized F → Result Halt (Loan F)
  unfolding wrap_loan threshold
  grant p fee tx s =
      if below F (sub s.chosen.profit fee) (threshold F o opp)
      then raise (reject false (codes "flashloan_profit_below_threshold"))
      else ok (wrap_loan p fee tx s)

  -- The `if use_fl and self.flashloan_provider is not None` block.
  unfoldable pub loan_block :
      Option (Provider F) → Bool → Float → TxPlan → Sized F → Result Halt (Loan F)
  unfolding grant
  loan_block none wanted fee tx s = ok (unused fee tx s)
  loan_block (some p) wanted fee tx s = if wanted then grant p fee tx s else ok (unused fee tx s)

  unfoldable pub take_loan : Sized F → TxPlan → Result Halt (Loan F)
  unfolding should_use_flashloan loan_block
  take_loan s tx =
      let (wanted, fee) = should_use_flashloan (of_ℤ (pos s.size)) s.chosen.profit in
      loan_block o.provider wanted fee tx s

  -- The reason of a reject by the simulation.
  unfoldable pub sim_reason : Loan F → SimResult → Text
  sim_reason loan r =
      let raw_code : Text = or_else r.error_code (codes "sim_failed") in
      elim (o.arb) [
        | none ↦ raw_code
        | some arb ↦
            if loan.used then arb.bucket raw_code r.error_message (logs_of r.logs) else raw_code
      ]

  -- The simulation, in the modes that have one.
  unfoldable pub simulate_tx : Text → Sized F → Loan F → Result Halt (Option SimResult)
  unfolding simulates sim_reason
  simulate_tx mode s loan =
      if simulates mode
      then elim (s.chosen.pack.simulate loan.tx) [
        | none ↦ raise escaped
        | some r ↦ if r.ok then ok (some r) else raise (reject true (sim_reason loan r))
      ]
      else ok none
