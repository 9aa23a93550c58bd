-- ===== src/Orchestrator/Queue/Tests.antt =====
-- A queue of three opportunities, served in the order of their priorities.
use mev_bot.Base.{ℕ, ◌≡◌, ◌↔◌, refl, true, false, none, some, [], ◌∷◌, Option, List}
use mev_bot.Base.Int.{ℤ, pos, ◌+ℤ◌, ◌-ℤ◌, leb_ℤ}
use mev_bot.Base.Text.{Text, codes}
use mev_bot.Base.Dict.{get}
use mev_bot.Base.Result.{ok, raise}
use mev_bot.Base.Sort.{sort, insert}
use mev_bot.Base.Float.Ints.{Ext, fin, int_floats}
use mev_bot.Gates.{Opportunity}
use mev_bot.Orchestrator.Process.{Log, seen, was_rejected, Handed, Decision, planned}
use mev_bot.Orchestrator.Queue.{
  QueueItem, State, Layout, no_size, type_error, enqueue, pop, take_least, entry_le, same_key,
  has_key, item_of, profit_est_usd, snapshot, shown, estimate_in,
}
use mev_bot.Orchestrator.Queue.Windows.{enqueue_raises}

abbrev usd : ℕ → Ext
usd n = fin (pos n)

abbrev offered : Text → List ℤ → Opportunity int_floats
offered id sizes = record {
  id = id;
  ts = usd 1;
  family = codes "evm";
  chain = codes "base";
  network = codes "mainnet";
  kind = codes "xarb";
  size_candidates = sizes;
  expected_edge_bps = usd 20000;
  confidence = usd 1;
  required_capabilities = [];
  constraints = record {
    token_in = some (codes "WETH");
    token_out = some (codes "USDC");
    best_dex = none;
    slippage_bps = none;
    ttl_s = none;
    profit_est_usd = none;
    sell_dex = none;
    second_best_dex = none;
    token_mid_1 = none;
    token_mid_2 = none;
    path_tokens = [];
    path_dexes = [];
  };
  refs = [];
}

abbrev queued : Text → ℕ → ℕ → QueueItem int_floats
queued id priority ts = record {
  priority = usd priority;
  enqueued_ts = usd ts;
  opportunity = offered id (pos 5 ∷ []);
  profit_est_usd = usd priority;
}

abbrev first_item : QueueItem int_floats
first_item = queued (codes "a") 9 3

abbrev second_item : QueueItem int_floats
second_item = queued (codes "b") 4 1

abbrev third_item : QueueItem int_floats
third_item = queued (codes "c") 4 2

abbrev log : Log int_floats
log = record {
  events = (usd 1, seen) ∷ (usd 5, was_rejected) ∷ (usd 7, seen) ∷ [];
  rejects = (usd 5, codes "missing_tokens") ∷ [];
}

abbrev three : State int_floats
three = record { pq = third_item ∷ first_item ∷ second_item ∷ []; log = log }

abbrev planner :
    Opportunity int_floats
    → Log int_floats
    → Option (Decision int_floats) × Option (Handed int_floats) × Log int_floats
planner opp l = (
  some (record { status = planned; reason = codes "ok"; opportunity_id = opp.id; plan = none }),
  none,
  l,
)

no_estimate : Text → Option Ext
no_estimate t = none

abbrev any_layout : ℕ → Layout int_floats
any_layout n = record { compares_tie = true; on_top = λ a b. false }

popped :
    pop int_floats (any_layout 0) three.pq ≡ ok (some (first_item, third_item ∷ second_item ∷ []))
unfolding pop take_least entry_le same_key ◌-ℤ◌ ◌+ℤ◌
popped = refl

-- Of three entries of one key, two are left to be compared.
tied :
    pop int_floats
      (any_layout 0)
      (queued (codes "x") 4 1 ∷ queued (codes "y") 4 1 ∷ second_item ∷ [])
    ≡ raise type_error
unfolding pop take_least entry_le same_key ◌-ℤ◌ ◌+ℤ◌
tied = refl

top_two :
    (snapshot int_floats (usd 3) (pos 2) (usd 9) three).0.top_opportunities
    ≡ shown int_floats (usd 9) first_item ∷ shown int_floats (usd 9) second_item ∷ []
unfolding snapshot sort insert entry_le ◌-ℤ◌ ◌+ℤ◌
top_two = refl

abbrev unsized : Opportunity int_floats
unsized = offered (codes "d") (pos 0 ∷ [])

enqueue_raises_example :
    ((enqueue int_floats no_estimate (usd 2) true unsized three).0 ≡ some no_size ↔ (
      (estimate_in no_estimate none ≡ none)
      × ((estimate_in no_estimate (get {V = Text} (codes "profit_est_usd") []) ≡ none)
          × ((leb_ℤ (pos 0) (pos 0) ≡ true) × Unit {0}))))
    × ((enqueue int_floats no_estimate (usd 2) true unsized three).0 ≡ some type_error ↔ (
        (p : Ext) × (profit_est_usd int_floats no_estimate unsized ≡ some p)
        × (true ≡ true)
        × (has_key int_floats (item_of int_floats p unsized (usd 2)) three.pq ≡ true)))
enqueue_raises_example = enqueue_raises int_floats no_estimate (usd 2) true unsized three
