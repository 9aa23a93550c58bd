-- ===== src/Orchestrator/Queue.antt =====
-- The priority queue and the snapshot of core/orchestrator.py, with the weights of
-- bot/core/opportunity_engine/scoring.py. `_pq` is the collection of the entries of the heap. What a
-- call of `heapq` does with two entries of equal priority and time, whose comparison is a TypeError
-- unless their items are equal,
-- depends on the layout of the heap, and is an argument (`Layout`); of such entries the snapshot shows
-- the one first that is first in the collection.
pub mod Order
pub mod Windows
mod Tests
use mev_bot.Base.{
  ℕ, zero, suc, ◌+◌, Bool, true, false, ◌&&◌, ◌||◌, not, Option, none, some, List, [], ◌∷◌, ◌++◌,
  if◌then◌else◌, push_bounded, take, length, map,
}
use mev_bot.Base.Int.{ℤ, pos, leb_ℤ}
use mev_bot.Base.Text.{Text, codes}
use mev_bot.Base.Dict.{Dict, get, put}
use mev_bot.Base.Result.{Result, ok, raise}
use mev_bot.Base.Sort.{sort}
use mev_bot.Base.Float.{FloatModel, below, fmax, fmin}
use mev_bot.Gates.{Opportunity}
use mev_bot.Invariants.{drop_before}
use mev_bot.Orchestrator.Process.{
  Log, Handed, Event, seen, was_rejected, was_simulated, was_executed, Decision, empty,
}

-- An entry of `_pq`, which carries its `_QueueItem`; its key is the negated priority and the time.
pub record QueueItem (F : FloatModel) : Type 0 where
  pub priority : F.Float
  pub enqueued_ts : F.Float
  pub opportunity : Opportunity F
  pub profit_est_usd : F.Float

-- The exceptions of the queue: an empty minimum, and the comparison of two `_QueueItem`.
pub data QueueError : Type 0 where
  no_size type_error : QueueError

-- What the layout of the heap decides in a call of `heapq`: whether it comes to compare two different
-- entries of the same key, and whether the first of two such entries is nearer to the top.
pub record Layout (F : FloatModel) : Type 0 where
  pub compares_tie : Bool
  pub on_top : QueueItem F → QueueItem F → Bool

pub record State (F : FloatModel) : Type 0 where
  pub pq : List (QueueItem F)
  pub log : Log F

-- What the snapshot shows of an entry.
pub record TopOpportunity (F : FloatModel) : Type 0 where
  pub id : Text
  pub kind : Text
  pub family : Text
  pub chain : Text
  pub network : Text
  pub priority : F.Float
  pub profit_est_usd : F.Float
  pub confidence : F.Float
  pub age_s : F.Float

pub record Funnel : Type 0 where
  pub seen_count : ℕ
  pub rejected_count : ℕ
  pub simulated_count : ℕ
  pub executed_count : ℕ

pub record Snapshot (F : FloatModel) : Type 0 where
  pub ts : ℤ
  pub queue_depth : ℕ
  pub top_opportunities : List (TopOpportunity F)
  pub funnel_10m : Funnel
  pub reject_reasons_pareto_10m : List (Text × ℕ)

-- `min(int(x) for x in sizes if int(x) > 0)`; `none` is the exception of an empty minimum.
unfoldable pub least_positive : List ℤ → Option ℤ
least_positive [] = none
least_positive (s ∷ ss) =
    let rest = least_positive ss in
    if leb_ℤ s (pos 0)
    then rest
    else (elim rest [ none ↦ some s | some m ↦ if leb_ℤ s m then some s else some m ])

-- `Counter(reasons)`, whose keys are in the order of their first occurrences.
abbrev pub times_of : Option ℕ → ℕ
times_of none = 0
times_of (some n) = n

unfoldable pub count_reasons : List Text → Dict ℕ → Dict ℕ
count_reasons [] counts = counts
count_reasons (r ∷ rs) counts = count_reasons rs (put r (suc (times_of (get r counts))) counts)

-- `most_common(5)`
unfoldable pub most_common : Dict ℕ → List (Text × ℕ)
unfolding sort
most_common counts = take 5 (sort (λ a b. leb_ℤ (pos b.1) (pos a.1)) counts)

unfoldable pub same_event : Event → Event → Bool
same_event seen seen = true
same_event was_rejected was_rejected = true
same_event was_simulated was_simulated = true
same_event was_executed was_executed = true
same_event a b = false

unfoldable pub count_events : {A : Type 0} → Event → List (A × Event) → ℕ
unfolding same_event
count_events kind [] = 0
count_events kind ((ts, k) ∷ events) =
    let n = count_events kind events in if same_event k kind then suc n else n

unfoldable pub funnel_of : {A : Type 0} → List (A × Event) → Funnel
unfolding count_events
funnel_of events = record {
  seen_count = count_events seen events;
  rejected_count = count_events was_rejected events;
  simulated_count = count_events was_simulated events;
  executed_count = count_events was_executed events;
}

-- `d.get("profit_est_usd")` and `float(v)`, which may fail.
abbrev pub estimate_in : {A : Type 0} → (Text → Option A) → Option Text → Option A
estimate_in float_of none = none
estimate_in float_of (some v) = float_of v

module _ (F : FloatModel) where
  open F use {Float, at_most, add, sub, mul, div, of_ℤ, lit, neg, trunc}

  -- `freshness_weight` at `half_life_s`, 5 in the orchestrator.
  unfoldable pub freshness_weight : Float → Float → Float → Float
  unfolding fmax
  freshness_weight ts now half_life_s =
      let age = fmax F (lit 0 1) (sub now ts) in
      div (lit 10 1) (add (lit 10 1) (div age (fmax F (lit 1 1) half_life_s)))

  abbrev pub clamped : Float → Float
  clamped x = fmax F (lit 0 1) (fmin F (lit 10 1) x)

  unfoldable pub opportunity_score : Opportunity F → Option Float → Float → Float
  unfolding freshness_weight fmax fmin
  opportunity_score opp estimated now =
      let profit : Float = elim estimated [
        | none ↦ fmax F (lit 0 1) opp.expected_edge_bps
        | some e ↦ e
      ] in
      mul (mul profit (clamped opp.confidence)) (freshness_weight opp.ts now (lit 50 1))

  -- `base * max(0.0, edge) / 10_000.0`, where `base` is `int(max(1, …))`
  abbrev pub by_edge : Opportunity F → ℤ → Float
  by_edge opp m =
      let base = if leb_ℤ m (pos 1) then pos 1 else m in
      div (mul (of_ℤ base) (fmax F (lit 0 1) opp.expected_edge_bps)) (lit 10000 0)

  -- The first of the estimates of the constraints and of the references, or that of the least size.
  unfoldable pub estimate_from :
      Opportunity F → Option Float → Option Float → Option ℤ → Option Float
  unfolding fmax
  estimate_from opp (some e) refs base = some (fmax F (lit 0 1) e)
  estimate_from opp none (some e) base = some (fmax F (lit 0 1) e)
  estimate_from opp none none (some m) = some (by_edge opp m)
  estimate_from opp none none none = none

  unfoldable pub profit_est_usd : (Text → Option Float) → Opportunity F → Option Float
  unfolding estimate_from least_positive
  profit_est_usd float_of opp =
      estimate_from opp (estimate_in float_of opp.constraints.profit_est_usd)
        (estimate_in float_of (get (codes "profit_est_usd") opp.refs))
        (least_positive opp.size_candidates)

  -- The priority of an opportunity whose profit is estimated.
  unfoldable pub priority_of : Float → Opportunity F → Float → Float
  unfolding freshness_weight fmax fmin
  priority_of p opp now =
      mul (mul p (clamped opp.confidence)) (freshness_weight opp.ts now (lit 50 1))

  abbrev pub item_of : Float → Opportunity F → Float → QueueItem F
  item_of p opp now = record {
    priority = priority_of p opp now;
    enqueued_ts = now;
    opportunity = opp;
    profit_est_usd = p;
  }

  -- The order of the tuples `(-priority, enqueued_ts, …)`.
  unfoldable pub entry_le : QueueItem F → QueueItem F → Bool
  entry_le a b =
      if not (at_most (neg b.priority) (neg a.priority))
      then true
      else if not (at_most (neg a.priority) (neg b.priority))
      then false
      else at_most a.enqueued_ts b.enqueued_ts

  unfoldable pub same_key : QueueItem F → QueueItem F → Bool
  unfolding entry_le
  same_key a b = entry_le a b && entry_le b a

  abbrev pub has_key : QueueItem F → List (QueueItem F) → Bool
  has_key q [] = false
  has_key q (x ∷ xs) = same_key q x || has_key q xs

  -- Whether two entries have the same key.
  abbrev pub has_ties : List (QueueItem F) → Bool
  has_ties [] = false
  has_ties (x ∷ xs) = has_key x xs || has_ties xs

  -- `heapq.heappush` and what follows it: when it raises, the entry is in the heap but no event is
  -- recorded.
  abbrev pub pushed : Bool → Float → QueueItem F → State F → Option QueueError × State F
  pushed true now q s = (some type_error, record s { pq = s.pq ++ q ∷ [] })
  pushed false now q s = (
    none,
    record {
      pq = s.pq ++ q ∷ [];
      log = record {
        events = push_bounded 20000 (now, seen) s.log.events;
        rejects = s.log.rejects;
      };
    },
  )

  -- The exception, if there is one, and the state; `compares_tie` is that of the layout.
  unfoldable pub enqueue :
      (Text → Option Float) → Float → Bool → Opportunity F → State F → Option QueueError × State F
  unfolding profit_est_usd same_key priority_of
  enqueue float_of now compares_tie opp s = elim (profit_est_usd float_of opp) [
    | none ↦ (some no_size, s)
    | some p ↦ pushed (compares_tie && has_key (item_of p opp now) s.pq) now (item_of p opp now) s
  ]

  -- The entry at the top of the heap and the others: no other is less, and of several such the layout
  -- decides.
  unfoldable pub take_least :
      (QueueItem F → QueueItem F → Bool)
      → QueueItem F
      → List (QueueItem F)
      → QueueItem F × List (QueueItem F)
  unfolding entry_le
  take_least on_top x [] = (x, [])
  take_least on_top x (y ∷ ys) =
      let (m, rest) = take_least on_top y ys in
      if entry_le x m && (not (entry_le m x) || on_top x m) then (x, y ∷ ys) else (m, x ∷ rest)

  abbrev pub popped_unless :
      Bool
      → QueueItem F × List (QueueItem F)
      → Result QueueError (Option (QueueItem F × List (QueueItem F)))
  popped_unless true p = raise type_error
  popped_unless false p = ok (some p)

  -- `heapq.heappop` orders what is left, where it may come to compare two entries of the same key.
  unfoldable pub pop :
      Layout F → List (QueueItem F) → Result QueueError (Option (QueueItem F × List (QueueItem F)))
  unfolding take_least same_key
  pop l [] = ok none
  pop l (x ∷ xs) =
      let p = take_least l.on_top x xs in popped_unless (l.compares_tie && has_ties p.1) p

  abbrev pub queue_empty : Decision F
  queue_empty = record {
    status = empty;
    reason = codes "queue_empty";
    opportunity_id = [];
    plan = none;
  }

  -- `process_next`, over `process` of an opportunity and the log. The heap that an exception of
  -- `heappop` leaves, without the top and in no certain order, is not modelled.
  unfoldable pub process_next :
      (Opportunity F → Log F → Option (Decision F) × Option (Handed F) × Log F)
      → Layout F
      → State F
      → Result QueueError (Option (Decision F) × Option (Handed F) × State F)
  unfolding pop
  process_next process l s = elim (pop l s.pq) [
    | raise e ↦ raise e
    | ok found ↦ elim found [
      | none ↦ ok (some queue_empty, none, s)
      | some popped ↦
          let (decision, call, log) = process popped.0.opportunity s.log in
          ok (decision, call, record { pq = popped.1; log = log })
    ]
  ]

  abbrev pub shown : Float → QueueItem F → TopOpportunity F
  shown t q = record {
    id = q.opportunity.id;
    kind = q.opportunity.kind;
    family = q.opportunity.family;
    chain = q.opportunity.chain;
    network = q.opportunity.network;
    priority = neg (neg q.priority);
    profit_est_usd = q.profit_est_usd;
    confidence = q.opportunity.confidence;
    age_s = fmax F (lit 0 1) (sub t q.opportunity.ts);
  }

  abbrev pub at_least_one : ℤ → ℕ
  at_least_one (pos (suc n)) = suc n
  at_least_one n = 1

  -- What is left of the log, and what the snapshot shows.
  unfoldable pub snapshot : Float → ℤ → Float → State F → Snapshot F × State F
  unfolding drop_before entry_le sort funnel_of count_reasons most_common fmax
  snapshot window_s top_n t s =
      let cutoff = sub t window_s in
      let events = drop_before F cutoff s.log.events in
      let rejects = drop_before F cutoff s.log.rejects in
      (
        record {
          ts = trunc t;
          queue_depth = length s.pq;
          top_opportunities = map (shown t) (take (at_least_one top_n) (sort entry_le s.pq));
          funnel_10m = funnel_of events;
          reject_reasons_pareto_10m = most_common (count_reasons (map (λ r. r.1) rejects) []);
        },
        record { pq = s.pq; log = record { events = events; rejects = rejects } },
      )
