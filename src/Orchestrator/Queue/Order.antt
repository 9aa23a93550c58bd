-- ===== src/Orchestrator/Queue/Order.antt =====
-- The order in which the queue of core/orchestrator.py gives up its entries, and the snapshot of it.
use mev_bot.Base.{
  ℕ, zero, suc, ◌≡◌, refl, sym, inl, inr, Bool, true, false, ◌&&◌, ◌||◌, not, Option, some, List,
  [], ◌∷◌, arith, take, length, map, drop, ◌≤◌, All, All-In, In-All, Bool-cases,
}
use mathlib.Core.Path.{subst}
use mev_bot.Base.Int.{pos}
use mev_bot.Base.Result.{Result, ok, raise}
use mev_bot.Base.Sort.{sort, insert, IsSorted, sort-IsSorted, In-sort}
use mev_bot.Base.Float.{FloatModel}
use mev_bot.Gates.{Opportunity}
use mev_bot.Orchestrator.Process.{Log, Handed, Decision}
use mev_bot.Orchestrator.Queue.{
  QueueItem, State, QueueError, Layout, entry_le, same_key, has_key, has_ties, take_least, pop,
  process_next, snapshot, shown,
}

module _ (F : FloatModel) where
  open F use {Float, at_most, neg, neg_anti, neg_mono, at_most_total, at_most_trans}

  no_or : (a b : Bool) → (a || b) ≡ false → (a ≡ false) × (b ≡ false)
  no_or true b h = absurd cc
  no_or false b h = (refl, h)

  -- An entry whose key no other has shares it neither with the popped entry nor with what is left.
  take_least-has_key :
      (on_top : QueueItem F → QueueItem F → Bool) (q x : QueueItem F) (xs : List (QueueItem F))
      → has_key F q (x ∷ xs) ≡ false
      → (same_key F q (take_least F on_top x xs).0 ≡ false)
        × (has_key F q (take_least F on_top x xs).1 ≡ false)
  unfolding take_least
  take_least-has_key on_top q x [] h = no_or _ _ h
  take_least-has_key on_top q x (y ∷ ys) h =
      let (hx, hy) = no_or _ _ h in
      let (hm, hr) = take_least-has_key on_top q y ys hy in
      let m = (take_least F on_top y ys).0 in
      elim (Bool-cases (entry_le F x m && (not (entry_le F m x) || on_top x m))) [
        | inl e ↦ rw e (hx, hy)
        | inr e ↦ rw e (hm, rw hx hr)
      ]

  take_least-has_ties :
      (on_top : QueueItem F → QueueItem F → Bool) (x : QueueItem F) (xs : List (QueueItem F))
      → has_ties F (x ∷ xs) ≡ false
      → has_ties F (take_least F on_top x xs).1 ≡ false
  unfolding take_least
  take_least-has_ties on_top x [] h = refl
  take_least-has_ties on_top x (y ∷ ys) h =
      let (hx, hy) = no_or _ _ h in
      let m = (take_least F on_top y ys).0 in
      elim (Bool-cases (entry_le F x m && (not (entry_le F m x) || on_top x m))) [
        | inl e ↦ rw e hy
        | inr e ↦
            rw (e, (take_least-has_key on_top x y ys hx).1) (take_least-has_ties on_top y ys hy)
      ]

  -- Where the keys differ, the layout does not matter to the choice of the top.
  top_by_key :
      (on_top : QueueItem F → QueueItem F → Bool) (x m : QueueItem F)
      → same_key F x m ≡ false
      → (entry_le F x m && (not (entry_le F m x) || on_top x m)) ≡ entry_le F x m
  unfolding same_key
  top_by_key on_top x m h = ground (arith, h)

  -- A popped entry and what is left, sorted, are the sorted queue.
  take_least-sort :
      (on_top : QueueItem F → QueueItem F → Bool) (x : QueueItem F) (xs : List (QueueItem F))
      → has_ties F (x ∷ xs) ≡ false
      → sort (entry_le F) (x ∷ xs)
        ≡ (take_least F on_top x xs).0 ∷ sort (entry_le F) (take_least F on_top x xs).1
  unfolding take_least sort insert
  take_least-sort on_top x [] h = refl
  take_least-sort on_top x (y ∷ ys) h =
      let (hx, hy) = no_or _ _ h in
      let ih = take_least-sort on_top y ys hy in
      let m = (take_least F on_top y ys).0 in
      let by_key = top_by_key on_top x m (take_least-has_key on_top x y ys hx).0 in
      elim (Bool-cases (entry_le F x m)) [
        | inl e ↦ rw ih (rw (by_key, e) (sym (rw ih refl)))
        | inr e ↦ rw ih (rw (by_key, e) refl)
      ]

  length-take_least :
      (on_top : QueueItem F → QueueItem F → Bool) (x : QueueItem F) (xs : List (QueueItem F))
      → length (take_least F on_top x xs).1 ≡ length xs
  unfolding take_least
  length-take_least on_top x [] = refl
  length-take_least on_top x (y ∷ ys) = ground (arith, length-take_least on_top y ys)

  and_no : (a b : Bool) → b ≡ false → (a && b) ≡ false
  and_no a b h = ground (arith, h)

  -- A pop of a queue in which no two keys are the same.
  pop-take_least :
      (l : Layout F) (x : QueueItem F) (xs : List (QueueItem F))
      → has_ties F (x ∷ xs) ≡ false
      → pop F l (x ∷ xs) ≡ ok (some (take_least F l.on_top x xs))
  unfolding pop
  pop-take_least l x xs h = rw (and_no l.compares_tie _ (take_least-has_ties l.on_top x xs h)) refl

  entry_le_total : (a b : QueueItem F) → entry_le F a b ≡ false → entry_le F b a ≡ true
  unfolding entry_le
  entry_le_total a b h = ground (
    arith,
    at_most_total (neg b.priority) (neg a.priority),
    at_most_total (neg a.priority) (neg b.priority),
    at_most_total a.enqueued_ts b.enqueued_ts,
  )

  entry_le_trans :
      (a b c : QueueItem F) → entry_le F a b ≡ true → entry_le F b c ≡ true → entry_le F a c ≡ true
  unfolding entry_le
  entry_le_trans a b c h k = ground (
    arith,
    at_most_total (neg b.priority) (neg a.priority),
    at_most_total (neg c.priority) (neg b.priority),
    at_most_total (neg c.priority) (neg a.priority),
    at_most_trans (neg a.priority) (neg b.priority) (neg c.priority),
    at_most_trans (neg b.priority) (neg c.priority) (neg a.priority),
    at_most_trans (neg c.priority) (neg a.priority) (neg b.priority),
    at_most_trans a.enqueued_ts b.enqueued_ts c.enqueued_ts,
  )

  -- An entry is served before another: its priority is not less, and where the priorities are equal
  -- it was enqueued no later.
  abbrev pub IsBefore : QueueItem F → QueueItem F → Type 0
  IsBefore a b =
      (at_most b.priority a.priority ≡ true)
      × (at_most a.priority b.priority ≡ true → at_most a.enqueued_ts b.enqueued_ts ≡ true)

  entry_le-IsBefore : (a b : QueueItem F) → entry_le F a b ≡ true → IsBefore a b
  unfolding entry_le
  entry_le-IsBefore a b h = (
    neg_anti a.priority b.priority
        (ground (arith, at_most_total (neg b.priority) (neg a.priority))),
    λ same. ground (arith, neg_mono a.priority b.priority same),
  )

  -- The entry at the top of a queue in which no two keys are the same is before all others.
  pub take_least-IsBefore :
      (on_top : QueueItem F → QueueItem F → Bool) (x : QueueItem F) (xs : List (QueueItem F))
      → has_ties F (x ∷ xs) ≡ false
      → All (IsBefore (take_least F on_top x xs).0) (take_least F on_top x xs).1
  take_least-IsBefore on_top x xs h =
      let (m, rest) = take_least F on_top x xs in
      let sorted : IsSorted (entry_le F) (m ∷ sort (entry_le F) rest) =
        subst (IsSorted (entry_le F)) (take_least-sort on_top x xs h)
          (sort-IsSorted (entry_le F) entry_le_total entry_le_trans (x ∷ xs)) in
      In-All (IsBefore m) rest (λ q i. entry_le-IsBefore m q (
        All-In (λ z. entry_le F m z ≡ true) (sort (entry_le F) rest) q sorted.0
          (In-sort (entry_le F) q rest i)))

  module _ (process : Opportunity F → Log F → Option (Decision F) × Option (Handed F) × Log F)
      (layouts : ℕ → Layout F) where
    -- `process` of some entries, one after the other.
    abbrev pub serve :
        List (QueueItem F) → Log F → List (Option (Decision F) × Option (Handed F)) × Log F
    serve [] log = ([], log)
    serve (q ∷ qs) log =
        let (decision, call, after) = process q.opportunity log in
        let (rest, end) = serve qs after in ((decision, call) ∷ rest, end)

    -- So many calls of `process_next`; `layouts` is by how many calls are left.
    abbrev pub run :
        ℕ → State F → Result QueueError (List (Option (Decision F) × Option (Handed F)) × State F)
    run zero s = ok ([], s)
    run (suc n) s = elim (process_next F process (layouts n) s) [
      | raise e ↦ raise e
      | ok next ↦ elim (run n next.2) [
        | raise e ↦ raise e
        | ok rest ↦ ok ((next.0, next.1) ∷ rest.0, rest.1)
      ]
    ]

    -- What the calls of `process_next` amount to: none raises, they decide what `process` decides of
    -- the first entries of the sorted queue, and the others stay queued.
    pub record IsServed (n : ℕ) (s : State F) : Type 0 where
      pub end : State F
      pub completes : run n s ≡ ok ((serve (take n (sort (entry_le F) s.pq)) s.log).0, end)
      pub log : end.log ≡ (serve (take n (sort (entry_le F) s.pq)) s.log).1
      pub left : sort (entry_le F) end.pq ≡ drop n (sort (entry_le F) s.pq)

    process_next-take_least :
        (l : Layout F) (x : QueueItem F) (xs : List (QueueItem F)) (log : Log F)
        → has_ties F (x ∷ xs) ≡ false
        → (let p = take_least F l.on_top x xs in
            let r = process p.0.opportunity log in
            process_next F process l (record { pq = x ∷ xs; log = log })
            ≡ ok (r.0, r.1, record { pq = p.1; log = r.2 }))
    unfolding process_next
    process_next-take_least l x xs log h = rw (process_next, pop-take_least l x xs h) refl

    run_next-IsServed :
        (n : ℕ) (x : QueueItem F) (xs : List (QueueItem F)) (log : Log F)
        → has_ties F (x ∷ xs) ≡ false
        → (let p = take_least F (layouts n).on_top x xs in
            IsServed n (record { pq = p.1; log = (process p.0.opportunity log).2 }))
        → IsServed (suc n) (record { pq = x ∷ xs; log = log })
    run_next-IsServed n x xs log h ih =
        let sorted = take_least-sort (layouts n).on_top x xs h in
        record {
          end = ih.end;
          completes =
              rw (run, process_next-take_least (layouts n) x xs log h, ih.completes, sorted) refl;
          log = rw sorted ih.log;
          left = rw sorted ih.left;
        }

    run_from-IsServed :
        (n : ℕ) (xs : List (QueueItem F)) (log : Log F)
        → n ≤ length xs
        → has_ties F xs ≡ false
        → IsServed n (record { pq = xs; log = log })
    run_from-IsServed zero xs log h k = record {
      end = record { pq = xs; log = log };
      completes = refl;
      log = refl;
      left = refl;
    }
    run_from-IsServed (suc n) [] log h k = absurd (omega arith)
    run_from-IsServed (suc n) (x ∷ xs) log h k =
        let on_top = (layouts n).on_top in
        run_next-IsServed n x xs log k (
          run_from-IsServed n (take_least F on_top x xs).1
            (process (take_least F on_top x xs).0.opportunity log).2
            (ground (arith, length-take_least on_top x xs)) (take_least-has_ties on_top x xs k))

    pub run-IsServed :
        (n : ℕ) (s : State F) → n ≤ length s.pq → has_ties F s.pq ≡ false → IsServed n s
    run-IsServed n s h k = run_from-IsServed n s.pq s.log h k

    -- If no two entries have the same priority and the same time, the snapshot shows the entries that
    -- the next calls of `process_next` process: as many calls as it shows entries decide what
    -- `process` decides of these, in the order in which it shows them.
    pub snapshot_top :
        (window_s t : Float) (n : ℕ) (s : State F)
        → suc n ≤ length s.pq
        → has_ties F s.pq ≡ false
        → (qs : List (QueueItem F)) × (end : State F) × ((snapshot F window_s
              (pos (suc n))
              t
              s).0.top_opportunities
            ≡ map (shown F t) qs)
          × (run (suc n) s ≡ ok ((serve qs s.log).0, end))
    unfolding snapshot
    snapshot_top window_s t n s h k =
        let served = run-IsServed (suc n) s h k in
        (take (suc n) (sort (entry_le F) s.pq), served.end, refl, served.completes)
