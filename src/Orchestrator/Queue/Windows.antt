-- ===== src/Orchestrator/Queue/Windows.antt =====
-- What the snapshot of core/orchestrator.py counts, and when `enqueue` raises.
use mev_bot.Base.{
  ◌≡◌, refl, sym, ap, inl, inr, Bool, true, false, ◌&&◌, Option, none, some, List, [], ◌∷◌, ◌↔◌,
  arith, if◌then◌else◌, keep, All, Bool-cases, Option-cases,
}
use mev_bot.Base.Int.{ℤ, pos, leb_ℤ}
use mev_bot.Base.Text.{Text, codes}
use mev_bot.Base.Dict.{get}
use mev_bot.Base.Sort.{IsSorted}
use mev_bot.Base.Float.{FloatModel}
use mev_bot.Gates.{Opportunity}
use mev_bot.Invariants.{drop_before}
use mev_bot.Orchestrator.Queue.{
  State, no_size, type_error, has_key, item_of, snapshot, funnel_of, least_positive, profit_est_usd,
  enqueue, estimate_in, estimate_from,
}

module _ (F : FloatModel) where
  open F use {Float, at_most, at_most_trans, sub, sub_mono}

  drop_before-drop_before :
      {A : Type 0} (c c' : Float) (xs : List (Float × A))
      → at_most c c' ≡ true
      → drop_before F c' (drop_before F c xs) ≡ drop_before F c' xs
  unfolding drop_before
  drop_before-drop_before c c' [] h = refl
  drop_before-drop_before c c' ((ts, v) ∷ xs) h =
      ground (arith, at_most_trans c c' ts, drop_before-drop_before c c' xs h)

  -- Taking a snapshot does not change what a later one shows.
  pub snapshot_again :
      (window_s t t' : Float) (n m : ℤ) (s : State F)
      → at_most t t' ≡ true
      → (snapshot F window_s m t' (snapshot F window_s n t s).1).0 ≡ (snapshot F window_s m t' s).0
  unfolding snapshot
  snapshot_again window_s t t' n m s h =
      let le = sub_mono t t' window_s h in
      rw
        (
          drop_before-drop_before (sub t window_s) (sub t' window_s) s.log.events le,
          drop_before-drop_before (sub t window_s) (sub t' window_s) s.log.rejects le,
        )
        refl

  -- The entries of a deque are in the order of their times.
  abbrev pub InOrder : {A : Type 0} → List (Float × A) → Type 0
  InOrder xs = IsSorted (λ a b. at_most a.0 b.0) xs

  keep_all :
      {A : Type 0} (c ts : Float) (xs : List (Float × A))
      → at_most c ts ≡ true
      → All (λ y. at_most ts y.0 ≡ true) xs
      → keep (λ y. at_most c y.0) xs ≡ xs
  keep_all c ts [] h k = refl
  keep_all c ts (x ∷ xs) h k =
      rw (at_most_trans c ts x.0 h k.0) (ap (λ z. x ∷ z) (keep_all c ts xs h k.1))

  drop_before-keep :
      {A : Type 0} (c : Float) (xs : List (Float × A))
      → InOrder xs
      → drop_before F c xs ≡ keep (λ y. at_most c y.0) xs
  unfolding drop_before
  drop_before-keep c [] h = refl
  drop_before-keep c ((ts, v) ∷ xs) h = elim (Bool-cases (at_most c ts)) [
    | inl e ↦ rw e (ap (λ z. (ts, v) ∷ z) (sym (keep_all c ts xs e h.0)))
    | inr e ↦ rw e (drop_before-keep c xs h.1)
  ]

  -- The funnel of a snapshot counts the events within the window, if the clock did not run backwards.
  pub funnel_window :
      (window_s t : Float) (n : ℤ) (s : State F)
      → InOrder s.log.events
      → (snapshot F window_s n t s).0.funnel_10m
        ≡ funnel_of (keep (λ e. at_most (sub t window_s) e.0) s.log.events)
  unfolding snapshot
  funnel_window window_s t n s h =
      ap (λ x. funnel_of x) (drop_before-keep (sub t window_s) s.log.events h)

  least_positive_some :
      (s : ℤ) (rest : Option ℤ)
      → ¬ ((elim rest [ none ↦ some s | some m ↦ if leb_ℤ s m then some s else some m ]) ≡ none)
  least_positive_some s none h = cc
  least_positive_some s (some m) h = elim (Bool-cases (leb_ℤ s m)) [
    | inl e ↦ cc (rw e at h)
    | inr e ↦ cc (rw e at h)
  ]

  least_positive-none :
      (ss : List ℤ) → least_positive ss ≡ none ↔ All (λ s. leb_ℤ s (pos 0) ≡ true) ss
  unfolding least_positive
  least_positive-none [] = (λ h. tt, λ h. refl)
  least_positive-none (s ∷ ss) =
      let ih = least_positive-none ss in
      elim (Bool-cases (leb_ℤ s (pos 0))) [
        | inl e ↦ rw e (λ h. (refl, ih.0 h), λ h. ih.1 h.1)
        | inr e ↦ rw e (λ h. absurd (least_positive_some s (least_positive ss) h), λ h. absurd cc)
      ]

  estimate_from-none :
      (opp : Opportunity F) (a b : Option Float) (m : Option ℤ)
      → estimate_from F opp a b m ≡ none ↔ ((a ≡ none) × ((b ≡ none) × (m ≡ none)))
  unfolding estimate_from
  estimate_from-none opp (some e) b m = (λ h. absurd cc, λ h. absurd cc)
  estimate_from-none opp none (some e) m = (λ h. absurd cc, λ h. absurd cc)
  estimate_from-none opp none none (some m) = (λ h. absurd cc, λ h. absurd cc)
  estimate_from-none opp none none none = (λ h. (refl, (refl, refl)), λ h. refl)

  -- An estimate is one number.
  untied :
      (tie : Bool) (p p' : Float) (opp : Opportunity F) (now : Float) (s : State F)
      → (tie && has_key F (item_of F p opp now) s.pq) ≡ false
      → ◌≡◌ {A = Option Float} (some p) (some p')
      → tie ≡ true
      → ¬ (has_key F (item_of F p' opp now) s.pq ≡ true)
  untied tie p p' opp now s k e t h =
      let same : p ≡ p' = cc in
      let k' : (true && has_key F (item_of F p opp now) s.pq) ≡ false = rw t at k in
      let h' : has_key F (item_of F p opp now) s.pq ≡ true = rw same h in cc

  -- The exceptions of `enqueue`, by the estimate of the profit.
  enqueue-error :
      (float_of : Text → Option Float) (now : Float) (tie : Bool) (opp : Opportunity F)
      (s : State F)
      → ((enqueue F float_of now tie opp s).0 ≡ some no_size ↔ profit_est_usd F float_of opp ≡ none)
        × ((enqueue F float_of now tie opp s).0 ≡ some type_error ↔ (
            (p : Float) × (profit_est_usd F float_of opp ≡ some p)
            × (tie ≡ true)
            × (has_key F (item_of F p opp now) s.pq ≡ true)))
  unfolding enqueue
  enqueue-error float_of now tie opp s = elim (Option-cases (profit_est_usd F float_of opp)) [
    | inl e ↦ rw (enqueue, e) ((λ h. refl, λ h. refl), (λ h. absurd cc, λ h. absurd cc))
    | inr (p, e) ↦ elim (Bool-cases (tie && has_key F (item_of F p opp now) s.pq)) [
      | inl k ↦
          rw (enqueue, e, k)
            (
              (λ h. absurd cc, λ h. absurd cc),
              (λ h. (p, refl, ground (arith, k), ground (arith, k)), λ h. refl),
            )
      | inr k ↦
          rw (enqueue, e, k)
            (
              (λ h. absurd cc, λ h. absurd cc),
              (λ h. absurd cc, λ h. absurd (untied tie p h.0 opp now s k h.1 h.2 h.3)),
            )
    ]
  ]

  -- `enqueue` raises in two cases and no other. It raises a ValueError just for the opportunities with
  -- no usable estimate of the profit, neither among the constraints nor among the references, and with
  -- no positive size; and a TypeError just when the profit is estimated and the heap comes to compare
  -- the entry with a different one of the same priority and time.
  pub enqueue_raises :
      (float_of : Text → Option Float) (now : Float) (tie : Bool) (opp : Opportunity F)
      (s : State F)
      → ((enqueue F float_of now tie opp s).0 ≡ some no_size ↔ (
          (estimate_in float_of opp.constraints.profit_est_usd ≡ none)
          × ((estimate_in float_of (get (codes "profit_est_usd") opp.refs) ≡ none)
              × All (λ z. leb_ℤ z (pos 0) ≡ true) opp.size_candidates)))
        × ((enqueue F float_of now tie opp s).0 ≡ some type_error ↔ (
            (p : Float) × (profit_est_usd F float_of opp ≡ some p)
            × (tie ≡ true)
            × (has_key F (item_of F p opp now) s.pq ≡ true)))
  unfolding profit_est_usd
  enqueue_raises float_of now tie opp s =
      let raises =
        estimate_from-none opp (estimate_in float_of opp.constraints.profit_est_usd)
          (estimate_in float_of (get (codes "profit_est_usd") opp.refs))
          (least_positive opp.size_candidates) in
      let sizes = least_positive-none opp.size_candidates in
      let (unestimated, tied) = enqueue-error float_of now tie opp s in
      (
        (
          λ h. (let r = raises.0 (unestimated.0 h) in (r.0, (r.1.0, sizes.0 r.1.1))),
          λ h. unestimated.1 (raises.1 (h.0, (h.1.0, sizes.1 h.1.1))),
        ),
        tied,
      )
