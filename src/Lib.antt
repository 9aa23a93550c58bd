-- ===== src/Lib.antt =====
-- mev_bot: the decisions of the MEV bot, and what makes them correct.
--
-- The parts and how they work together. The bot's lifecycle is a state machine (State). The
-- orchestrator takes an opportunity through the gates, picks a size, builds, wraps and simulates a
-- transaction and makes a plan of it (Orchestrator, over Gates, Sizing and Router); the opportunities
-- wait in its priority queue. They come from the detectors of spreads between packs and of triangles
-- (Detectors, over Router, Firewall and Graph); a flashloan for one is planned and wrapped by its
-- strategy and provider (Flashloan). The backrun calculator prices another kind (Backrun). The firewall
-- says whether a token may be traded (Firewall). A trade is priced by the router, which asks the
-- DEX packs and takes the best quote (Router, over the records of Dex), and sized either by a
-- search over candidate sizes (Sizing) or, for a backrun on a constant-product pool, by the
-- exact-output sizer over the pool's formulas, next to which the route selector compares the pool
-- with the quotes of other fee tiers (Amm). Triangles of tokens to trade along are found in a graph
-- of the pairs (Graph). The execution engine decides the fee, calls
-- the network through a circuit breaker, hands out nonces and blockhashes, and reconciles trades
-- (Engine). The operator steers the bot by a state file (Operator), whose chain target is a
-- canonical name (Canonical), which the loops read through a cache (Control), from which the
-- registry enables the DEX packs (Registry), and whose state the gates and the health checks read
-- (Invariants), as does the router of transactions to the private relays (Orderflow);
-- the chain is switched under a lock (Switch);
-- the operator's commands are guarded, limited and confirmed, and alerts are forwarded (Ops).
--
-- Files and the code that they model:
--   State            bot/core/state.py: `transition_to` is `BotStateMachine.transition` after the
--                    target is parsed
--   Engine           bot/exec/engine.py: `ExecutionEngine`
--   Engine.Fees      bot/exec/engine.py: `choose_fee_gwei`; `choose_loop` is its loop
--   Engine.Breaker   bot/exec/engine.py: `RpcCircuitBreaker`; `record_outcome` is `record`
--   Engine.Caller    bot/exec/engine.py: `RpcCaller`; `call_from` is the loop of `call`
--   Engine.Nonces    bot/exec/engine.py: `EvmNonceManager`; `begin` and `finish` are the halves of
--                    `next_nonce` before and after its await
--   Engine.Blockhash bot/exec/engine.py: `SolBlockhashManager`
--   Engine.Reconcile bot/exec/engine.py: `reconcile_trade`; ops/metrics.py: `map_revert_reason`
--   Amm              bot/quote/v2_math.py: `get_amount_out`, `get_amount_in`
--   Amm.Sizer        bot/quote/sizer.py: `OptimalTradeSizer.size_exact_out`; Amm.Bisect is its loop
--   Amm.Selector     bot/route/selector.py: `RouteSelector.choose_for_exact_out`; `over_tiers` is its loop
--   Sizing           core/sizing.py: the cost model and `search_best_size`
--   Dex              bot/core/types_dex.py
--   Gates            core/risk_gates.py; bot/core/opportunity_engine/types.py: `Opportunity`
--   Firewall         risk/risk_firewall.py: `RiskFirewall`
--   Canonical        bot/core/canonical.py; bot/core/canonical_chain.py: `canonicalize_chain_target`
--   Switch           bot/core/switch_controller.py: `request`, `enter` and `leave` are the parts of
--                    `reconcile` between which other calls run
--   Graph            bot/core/graph.py; `over_first`, `over_second` and `over_third` are the loops of
--                    `find_tri_cycles`
--   Invariants       bot/core/invariants.py: `RuntimeInvariants`; the parts of `evaluate` are
--                    `evaluate_trimmed` and `evaluate_rates`
--   Operator         ops/operator_state.py: the parts of `validate_state`; Operator.Store puts them
--                    together and has `load_state`, `save_state` and `update_state`
--   Ops              ops/confirmations.py, ops/security.py and ops/alert_router.py
--   Orchestrator     core/orchestrator.py: `OpportunityOrchestrator.process` is `prepare` (its stages up
--                    to the simulation), `conclude` and `outcome_of` of Orchestrator.Process; the
--                    flashloan and the simulation are in Orchestrator.Loans
--   Orchestrator.Queue  core/orchestrator.py: `enqueue`, `_pop`, `process_next` and `snapshot`;
--                    bot/core/opportunity_engine/scoring.py
--   Detectors        bot/detectors: Detectors.Xarb is xarb_detector.py, Detectors.Triarb is
--                    triarb_detector.py; the loops are named `over_…` and `scan_…`
--   Flashloan        strategies/flashloan_arb.py; adapters/flashloans/aave_v3.py
--   Control          bot/core/operator_control.py; `stages` are the parts of the `try` block
--   Registry         bot/core/dex_registry.py: `DEXPackRegistry`
--   Backrun          bot/hunter/backrun_calc.py
--   Orderflow        bot/exec/orderflow.py: `PrivateOrderflowRouter`, over the parts in Relays and the
--                    guard of bot/exec/guard.py in ExecGuard
--   Router           bot/core/router.py: `TradeRouter`
-- The child modules named Tests hold runs at concrete inputs. Base has what the parts share: lists,
-- texts, dicts, integers, their parsing, results, sorting and the float interface.
--
-- Conventions. Python's integers are ℤ, or ℕ where the code keeps them from being negative; `//`
-- rounds down and raises on zero. Floats are an interface (Base.Float): an order without NaN,
-- whose arithmetic has no laws but those named there; Base.Float.Ints has two values of it for the
-- runs. Texts are lists of code points, with the case and the white space of ASCII. The clock, the
-- random generator, the environment and the answers of the network are arguments; where the code also
-- writes the environment (State, Orderflow) it is part of the state. A method that
-- changes its object takes it and returns it; an exception is a value of Result.
--
-- Bounds and fuel. The binary search has one unit of fuel more than the largest candidate,
-- which is enough since each round drops at least one candidate; `range` with a step has as many
-- rounds as numbers in its range. Every other loop is structural.
--
-- Not modelled: telemetry and metrics, the thread pool of the router (what each pack answers
-- within the timeout is an argument), the layout of the heap of the queue (what it decides between
-- entries of equal priority and time is an argument), exceptions of float arithmetic (a division by zero), and the
-- parts around these: the other detectors, mempool consumers, the endpoints of the order flow,
-- service, storage and scripts.
pub mod Base
pub mod State
pub mod Engine
pub mod Amm
pub mod Switch
pub mod Sizing
pub mod Detectors
pub mod Dex
pub mod Gates
pub mod Router
pub mod Orchestrator
pub mod Flashloan
pub mod Control
pub mod Backrun
pub mod Registry
pub mod ExecGuard
pub mod Relays
pub mod Orderflow
pub mod Canonical
pub mod Graph
pub mod Firewall
pub mod Invariants
pub mod Operator
pub mod Ops
