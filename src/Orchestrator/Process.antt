-- ===== src/Orchestrator/Process.antt =====
-- `process` as a whole (core/orchestrator.py), the plans that it makes and the events that it keeps.
use mev_bot.Base.{
  ℕ, Bool, false, ◌&&◌, Option, none, some, List, [], ◌∷◌, if◌then◌else◌, push_bounded,
}
use mev_bot.Base.Int.{ℤ, pos}
use mev_bot.Base.Text.{Text, codes, norm, or_else, text_eq}
use mev_bot.Base.Dict.{Dict}
use mev_bot.Base.Result.{Result, ok, raise, ◌>>=◌}
use mev_bot.Base.Float.{FloatModel}
use mev_bot.Dex.{TxPlan, SimResult}
use mev_bot.Router.{RouterQuoteResult}
use mev_bot.Gates.{
  Opportunity, OperatorState, GateResult, operator_gate, cheap_opportunity_gate, text_or_empty,
}
use mev_bot.Orchestrator.{
  Halt, reject, escaped, Provider, Setup, Sized, pick_size, check_profit, build_tx, slippage_bps,
  ttl_s, strategy_label,
}
use mev_bot.Orchestrator.Loans.{Loan, take_loan, simulate_tx, simulates}

pub record TradeLeg : Type 0 where
  pub dex : Text
  pub token_in : Text
  pub token_out : Text
  pub amount_in : ℤ
  pub expected_out : ℤ
  pub min_out : ℤ

-- `TradePlan`, with the entries of its metadata as fields; its `id` is made of `opportunity_id`.
pub record TradePlan (F : FloatModel) : Type 0 where
  pub ts : F.Float
  pub family : Text
  pub chain : Text
  pub network : Text
  pub opportunity_id : Text
  pub mode : Text
  pub dex_pack : Text
  pub ttl_s : ℤ
  pub max_fee : F.Float
  pub slippage_bps : ℤ
  pub expected_profit_after_costs : F.Float
  pub legs : List TradeLeg
  pub quote_table : List (RouterQuoteResult F)
  pub sizing_evaluated : List ℕ
  pub sim_result : Option SimResult
  pub flashloan_used : Bool
  pub flashloan_provider : Option Text
  pub flashloan_fee_usd : F.Float
  pub strategy : Text
  pub opportunity_refs : Dict Text

pub data Status : Type 0 where
  empty rejected planned executed : Status

pub record Decision (F : FloatModel) : Type 0 where
  pub status : Status
  pub reason : Text
  pub opportunity_id : Text
  pub plan : Option (TradePlan F)

-- The kinds of events.
pub data Event : Type 0 where
  seen was_rejected was_simulated was_executed : Event

-- The deques of the last events and rejects, with their times.
pub record Log (F : FloatModel) : Type 0 where
  pub events : List (F.Float × Event)
  pub rejects : List (F.Float × Text)

-- What the callback is called with.
pub record Handed (F : FloatModel) : Type 0 where
  pub handed_plan : TradePlan F
  pub handed_tx : TxPlan

-- The readings of the clock.
pub record Clock (F : FloatModel) : Type 0 where
  pub simulated_at : F.Float
  pub planned_at : F.Float
  pub ended_at : F.Float

abbrev pub name_of : {F : FloatModel} → Option (Provider F) → Option Text
name_of none = none
name_of (some p) = some p.name

-- `str(op_state.get("mode", "dryrun")).strip().lower() or "dryrun"`
unfoldable pub mode_of : OperatorState → Text
unfolding norm
mode_of st = elim (st.mode) [ none ↦ codes "dryrun" | some m ↦ or_else (norm m) (codes "dryrun") ]

-- A gate as a step of `process`.
abbrev pub gated : GateResult → Result Halt Unit
gated g = if g.ok then ok tt else raise (reject false g.reason)

-- What the stages of `process` come to, when none rejects.
pub record Ready (F : FloatModel) : Type 0 where
  pub sized : Sized F
  pub loan : Loan F
  pub sim : Option SimResult

module _ (F : FloatModel) {A : Type 0} (o : Setup F A) (st : OperatorState)
    (opp : Opportunity F) where
  open F use {Float, of_ℤ}

  -- The stages, in the order of the code.
  unfoldable pub prepare : Result Halt (Ready F)
  unfolding pick_size check_profit build_tx take_loan simulate_tx
  prepare = do
    by_operator ← gated (operator_gate st)
    by_value ← gated (cheap_opportunity_gate F opp o.risk_cfg)
    found ← pick_size F o opp
    sized ← check_profit F o opp found
    tx ← build_tx F o opp sized
    loan ← take_loan F o opp sized tx
    sim ← simulate_tx F o opp (mode_of st) sized loan
    ok (record { sized = sized; loan = loan; sim = sim })

  unfoldable pub leg_of : Sized F → TradeLeg
  leg_of s = record {
    dex = s.chosen.sel.dex;
    token_in = text_or_empty opp.constraints.token_in;
    token_out = text_or_empty opp.constraints.token_out;
    amount_in = pos s.size;
    expected_out = s.chosen.sel.quote.expected_out;
    min_out = s.chosen.sel.quote.min_out;
  }

  unfoldable pub plan_of : Float → Ready F → TradePlan F
  unfolding leg_of
  plan_of ts r = record {
    ts = ts;
    family = opp.family;
    chain = opp.chain;
    network = opp.network;
    opportunity_id = opp.id;
    mode = mode_of st;
    dex_pack = r.sized.chosen.sel.dex;
    ttl_s = ttl_s F o opp;
    max_fee = o.risk_cfg.max_fee_usd;
    slippage_bps = slippage_bps F o opp;
    expected_profit_after_costs = r.loan.profit;
    legs = leg_of r.sized ∷ [];
    quote_table = r.sized.chosen.sel.quote_table;
    sizing_evaluated = r.sized.evaluated;
    sim_result = r.sim;
    flashloan_used = r.loan.used;
    flashloan_provider = if r.loan.used then name_of o.provider else none;
    flashloan_fee_usd = r.loan.fee_usd;
    strategy = strategy_label F o opp;
    opportunity_refs = opp.refs;
  }

  abbrev pub record_event : Float → Event → Log F → Log F
  record_event ts kind log = record log { events = push_bounded 20000 (ts, kind) log.events }

  unfoldable pub record_reject : Float → Text → Log F → Log F
  record_reject ts reason log = record {
    events = push_bounded 20000 (ts, was_rejected) log.events;
    rejects = push_bounded 20000 (ts, or_else reason (codes "unknown")) log.rejects;
  }

  abbrev pub rejected_for : Text → Decision F
  rejected_for reason = record {
    status = rejected;
    reason = reason;
    opportunity_id = opp.id;
    plan = none;
  }

  abbrev pub log_simulation : Bool → Float → Log F → Log F
  log_simulation simulated ts log = if simulated then record_event ts was_simulated log else log

  -- `execute_cb` of a plan and a transaction: whether it says yes; an exception is a no.
  abbrev pub executes : Option (TradePlan F → TxPlan → Option Bool) → TradePlan F → TxPlan → Bool
  executes none plan tx = false
  executes (some cb) plan tx = elim (cb plan tx) [ none ↦ false | some b ↦ b ]

  abbrev pub handed :
      Option (TradePlan F → TxPlan → Option Bool) → TradePlan F → TxPlan → Option (Handed F)
  handed none plan tx = none
  handed (some cb) plan tx = some (record { handed_plan = plan; handed_tx = tx })

  -- The end of `process` with a plan: in the live mode the plan is given to the callback, which is
  -- the only call of it. The second component is what it was called with.
  unfoldable pub conclude :
      Option (TradePlan F → TxPlan → Option Bool)
      → Clock F
      → Ready F
      → Decision F × Option (Handed F)
  unfolding plan_of text_eq
  conclude cb clock r =
      let plan = plan_of clock.planned_at r in
      let live = text_eq (mode_of st) (codes "live") in
      (
        record {
          status = if live && executes cb plan r.loan.tx then executed else planned;
          reason = codes "ok";
          opportunity_id = opp.id;
          plan = some plan;
        },
        if live then handed cb plan r.loan.tx else none,
      )

  -- The decision, or the exception that escapes; what the callback was called with; and the log.
  unfoldable pub outcome_of :
      Option (TradePlan F → TxPlan → Option Bool)
      → Clock F
      → Log F
      → Result Halt (Ready F)
      → Option (Decision F) × Option (Handed F) × Log F
  unfolding conclude record_reject simulates
  outcome_of cb clock log (raise escaped) = (none, none, log)
  outcome_of cb clock log (raise (reject simulated reason)) = (
    some (rejected_for reason),
    none,
    record_reject clock.ended_at reason (log_simulation simulated clock.simulated_at log),
  )
  outcome_of cb clock log (ok r) =
      let (decision, called) = conclude cb clock r in
      (
        some decision,
        called,
        record_event clock.ended_at was_executed
            (log_simulation (simulates (mode_of st)) clock.simulated_at log),
      )

  unfoldable pub process :
      Option (TradePlan F → TxPlan → Option Bool)
      → Clock F
      → Log F
      → Option (Decision F) × Option (Handed F) × Log F
  unfolding prepare outcome_of
  process cb clock log = outcome_of cb clock log prepare
