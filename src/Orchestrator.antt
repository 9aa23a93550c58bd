-- ===== src/Orchestrator.antt =====
-- `OpportunityOrchestrator.process` (core/orchestrator.py), in its stages. The router, the registry,
-- the flashloan provider and strategy and the callback are injected into its constructor, and are
-- arguments here; so are the readings of the clock. The metrics are not modelled.
pub mod Loans
pub mod Process
pub mod Plans
pub mod Outcomes
pub mod Queue
mod Tests
use mev_bot.Base.{
  ℕ, zero, suc, ◌+◌, Bool, true, false, ◌&&◌, ◌||◌, not, Option, none, some, List, [], ◌∷◌,
  if◌then◌else◌,
}
use mev_bot.Base.Int.{ℤ, pos}
use mev_bot.Base.Text.{Text, codes, norm, or_else, member}
use mev_bot.Base.Dict.{Dict}
use mev_bot.Base.Result.{Result, ok, raise}
use mev_bot.Base.Float.{FloatModel, below, fmax}
use mev_bot.Dex.{TradeIntent, Quote, TxPlan, SimResult}
use mev_bot.Router.{RouterSelection, RouterQuoteResult, or_zero}
use mev_bot.Sizing.{CostModel, SizingResult, net_profit_usd, search_best_size}
use mev_bot.Gates.{Opportunity, OperatorState, RiskGateConfig, text_or_empty}

-- Why `process` ends without a plan: a reject, with whether a simulation was recorded before it, or
-- an exception of the simulation, which is not caught.
pub data Halt : Type 0 where
  reject : Bool → Text → Halt
  escaped : Halt

-- Of what a pack is asked; `none` is an exception.
pub record Pack (F : FloatModel) : Type 0 where
  pub build : TradeIntent → Quote F → Option TxPlan
  pub simulate : TxPlan → Option SimResult

pub record Provider (F : FloatModel) : Type 0 where
  pub name : Text
  pub fee_bps : F.Float
  pub wrap : TxPlan → Option TxPlan

-- `FlashloanArbStrategy`, with its plans `A`.
pub record ArbStrategy (F : FloatModel) (A : Type 0) : Type 0 where
  pub build_plan : Opportunity F → ℕ → F.Float → Option A
  pub attach : TxPlan → A → Option TxPlan
  pub bucket : Text → Text → List Text → Text

-- The attributes of the orchestrator. The n-th quotation of a run is `route n`.
pub record Setup (F : FloatModel) (A : Type 0) : Type 0 where
  pub route : ℕ → TradeIntent → Option (RouterSelection F)
  pub registry : Text → Option (Pack F)
  pub strategy : Text
  pub provider : Option (Provider F)
  pub arb : Option (ArbStrategy F A)
  pub risk_cfg : RiskGateConfig F
  pub min_profit_after_cost : F.Float
  pub default_slippage_bps : ℤ
  pub default_ttl_s : ℤ
  pub inventory_usd : F.Float
  pub flashloan_gas_overhead_usd : F.Float
  pub flashloan_min_size : F.Float
  pub cost_model : CostModel F

-- `last_sel`, `last_pack`, `last_intent` and `last_profit`, which are set together.
pub record Chosen (F : FloatModel) : Type 0 where
  pub sel : RouterSelection F
  pub pack : Pack F
  pub intent : TradeIntent
  pub profit : F.Float

-- What the scorer of the sizes keeps: the number of quotations and the best so far.
pub record Scoring (F : FloatModel) : Type 0 where
  pub quotations : ℕ
  pub last : Option (Chosen F)

pub record Sized (F : FloatModel) : Type 0 where
  pub chosen : Chosen F
  pub size : ℕ
  pub evaluated : List ℕ

-- `int(v or default)`
abbrev pub int_or : Option ℤ → ℤ → ℤ
int_or none d = d
int_or (some (pos zero)) d = d
int_or (some v) d = v

-- `str(v or "").strip().lower() or None`
abbrev pub text_or_none : Text → Option Text
text_or_none [] = none
text_or_none (c ∷ cs) = some (c ∷ cs)

module _ (F : FloatModel) {A : Type 0} (o : Setup F A) (opp : Opportunity F) where
  open F use {Float, at_most, add, sub, mul, div, of_ℤ, lit, neg_inf}

  -- `str(opp.type).strip().lower() in {"xarb", "triarb"}`
  unfoldable pub is_arb : Bool
  unfolding member norm
  is_arb = member (norm opp.kind) (codes "xarb" ∷ codes "triarb" ∷ [])

  unfoldable pub strategy_label : Text
  strategy_label = elim (o.arb) [
    | none ↦ o.strategy
    | some s ↦ if is_arb then codes "flashloan_arb" else o.strategy
  ]

  abbrev pub slippage_bps : ℤ
  slippage_bps = int_or opp.constraints.slippage_bps o.default_slippage_bps

  abbrev pub ttl_s : ℤ
  ttl_s = int_or opp.constraints.ttl_s o.default_ttl_s

  unfoldable pub intent_for : ℕ → TradeIntent
  unfolding norm
  intent_for size = record {
    family = opp.family;
    chain = opp.chain;
    network = opp.network;
    token_in = text_or_empty opp.constraints.token_in;
    token_out = text_or_empty opp.constraints.token_out;
    amount_in = pos size;
    slippage_bps = slippage_bps;
    ttl_s = ttl_s;
    strategy = strategy_label;
    dex_preference = text_or_none (norm (text_or_empty opp.constraints.best_dex));
  }

  abbrev pub last_profit : Option (Chosen F) → Float
  last_profit none = neg_inf
  last_profit (some c) = c.profit

  -- `if net > last_profit: …`
  abbrev pub keep_better : Chosen F → Option (Chosen F) → Option (Chosen F)
  keep_better c last = if below F (last_profit last) c.profit then some c else last

  -- The net profit of a size on a route.
  unfoldable pub net_of : ℕ → RouterSelection F → Float
  net_of size sel =
      net_profit_usd F o.cost_model (pos size) opp.expected_edge_bps
        (or_zero F sel.quote.fee_estimate)

  -- `_score_size`, once the router has answered.
  unfoldable pub score_route : ℕ → Scoring F → Option (RouterSelection F) → Float × Scoring F
  score_route size st none = (neg_inf, st)
  score_route size st (some sel) = elim (o.registry sel.dex) [
    | none ↦ (neg_inf, st)
    | some pack ↦
        let net : Float = net_of size sel in
        let c : Chosen F = record {
          sel = sel;
          pack = pack;
          intent = intent_for size;
          profit = net;
        } in
        (net, record st { last = keep_better c st.last })
  ]

  unfoldable pub score_size : ℕ → Scoring F → Float × Scoring F
  score_size size st =
      score_route size (record st { quotations = st.quotations + 1 })
        (o.route st.quotations (intent_for size))

  abbrev pub unscored : Scoring F
  unscored = record { quotations = 0; last = none }

  abbrev pub sized_of : Chosen F → List ℕ → ℕ → Result Halt (Sized F)
  sized_of c evaluated zero = raise (reject false (codes "no_viable_route"))
  sized_of c evaluated (suc n) = ok (record { chosen = c; size = suc n; evaluated = evaluated })

  -- The test of the search: `sized.best_size <= 0 or last_sel is None or …`.
  abbrev pub viable : SizingResult F → Option (Chosen F) → Result Halt (Sized F)
  viable r none = raise (reject false (codes "no_viable_route"))
  viable r (some c) = sized_of c r.evaluated r.best_size

  unfoldable pub pick_size : Result Halt (Sized F)
  unfolding score_size
  pick_size =
      let (r, st) = search_best_size F score_size opp.size_candidates 7 (lit 30 2) 5 unscored in
      viable r st.last

  -- `max(self.min_profit_after_cost, self.risk_cfg.min_profit_est_usd)`
  unfoldable pub threshold : Float
  threshold = fmax F o.min_profit_after_cost o.risk_cfg.min_profit_est_usd

  unfoldable pub check_profit : Sized F → Result Halt (Sized F)
  unfolding threshold
  check_profit s =
      if below F s.chosen.profit threshold
      then raise (reject false (codes "profit_below_threshold"))
      else ok s

  unfoldable pub build_tx : Sized F → Result Halt TxPlan
  build_tx s = elim (s.chosen.pack.build s.chosen.intent s.chosen.sel.quote) [
    | none ↦ raise (reject false (codes "build_failed"))
    | some tx ↦ ok tx
  ]
