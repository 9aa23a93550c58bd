-- ===== src/Invariants/Logs.antt =====
-- Sequences of observations by `RuntimeInvariants` (bot/core/invariants.py), against the complete logs
-- of these.
use mev_bot.Base.{
  suc, ◌+◌, ◌≤◌, ◌<◌, ◌≡◌, refl, ap, Bool, true, List, [], ◌∷◌, ◌++◌, length, length-append, arith,
}
use mev_bot.Base.Int.{ℤ, pos, ◌*ℤ◌, ◌≤ℤ◌, max_ℤ}
use mev_bot.Base.Float.{FloatModel, fmax}
use mev_bot.Invariants.{
  RuntimeInvariants, values_since, trim, observe_rpc_latency_ms, observe_tx_result, p99_of,
  rpc_p99_ms, failure_rate_of, tx_failure_rate, window_start, deque_maxlen,
}
use mev_bot.Invariants.Windows.{IsKept, drop_before-IsKept, push_bounded-IsKept}

times_60 : (a b : ℤ) → a ≤ℤ b → a *ℤ pos 60 ≤ℤ b *ℤ pos 60
unfolding ◌*ℤ◌
times_60 a b h = ground arith

module _ (F : FloatModel) where
  open F use {Float, at_most, at_most_trans, sub, sub_mono, sub_anti, of_ℤ, of_ℤ_mono, lit}

  pub data Observation : Type 0 where
    rpc_latency : Float → Float → Observation
    tx_result : Bool → Float → Observation

  abbrev pub time_of : Observation → Float
  time_of (rpc_latency latency t) = t
  time_of (tx_result success t) = t

  abbrev pub observe : Observation → RuntimeInvariants F → RuntimeInvariants F
  observe (rpc_latency latency t) s = observe_rpc_latency_ms F latency t s
  observe (tx_result success t) s = observe_tx_result F success t s

  unfoldable pub observe_all : List Observation → RuntimeInvariants F → RuntimeInvariants F
  observe_all [] s = s
  observe_all (o ∷ os) s = observe_all os (observe o s)

  -- All that was observed so far, oldest first.
  pub record Logs : Type 0 where
    pub rpc : List (Float × Float)
    pub tx : List (Float × Bool)

  abbrev pub note : Observation → Logs → Logs
  note (rpc_latency latency t) l = record l { rpc = l.rpc ++ (t, fmax F (lit 0 1) latency) ∷ [] }
  note (tx_result success t) l = record l { tx = l.tx ++ (t, success) ∷ [] }

  unfoldable pub note_all : List Observation → Logs → Logs
  note_all [] l = l
  note_all (o ∷ os) l = note_all os (note o l)

  -- The times do not go back, from a first one on.
  abbrev pub IsOrdered : Float → List Observation → Type 0
  IsOrdered t [] = Unit
  IsOrdered t (o ∷ os) = (at_most t (time_of o) ≡ true) × IsOrdered (time_of o) os

  abbrev pub last_time : Float → List Observation → Float
  last_time t [] = t
  last_time t (o ∷ os) = last_time (time_of o) os

  -- The deques have kept what the logs hold, back to the left end of the longest window.
  record IsComplete (rpc_min tx_min : ℤ) (t : Float) (s : RuntimeInvariants F) (l : Logs)
      : Type 0 where
    rpc_window : s.rpc_window_min ≡ rpc_min
    tx_window : s.tx_fail_window_min ≡ tx_min
    rpc_kept :
        IsKept F (window_start F (max_ℤ (max_ℤ rpc_min tx_min) (pos 10)) t) s.rpc_samples l.rpc
    tx_kept : IsKept F (window_start F (max_ℤ (max_ℤ rpc_min tx_min) (pos 10)) t) s.tx_samples l.tx

  trim-IsComplete :
      (rpc_min tx_min : ℤ) (t t' : Float) (s : RuntimeInvariants F) (l : Logs)
      → at_most t t' ≡ true
      → IsComplete rpc_min tx_min t s l
      → IsComplete rpc_min tx_min t' (trim F t' s) l
  unfolding trim
  trim-IsComplete rpc_min tx_min t t' s l h i =
      let moved = sub_mono t t' (of_ℤ (max_ℤ (max_ℤ rpc_min tx_min) (pos 10) *ℤ pos 60)) h in
      record {
        rpc_window = i.rpc_window;
        tx_window = i.tx_window;
        rpc_kept =
            rw (i.rpc_window, i.tx_window)
              (drop_before-IsKept F _ _ s.rpc_samples l.rpc moved i.rpc_kept);
        tx_kept =
            rw (i.rpc_window, i.tx_window)
              (drop_before-IsKept F _ _ s.tx_samples l.tx moved i.tx_kept);
      }

  observe-IsComplete :
      (rpc_min tx_min : ℤ) (t : Float) (o : Observation) (s : RuntimeInvariants F) (l : Logs)
      → at_most t (time_of o) ≡ true
      → length l.rpc + length l.tx < deque_maxlen
      → IsComplete rpc_min tx_min t s l
      → IsComplete rpc_min tx_min (time_of o) (observe o s) (note o l)
  unfolding observe_rpc_latency_ms observe_tx_result
  observe-IsComplete rpc_min tx_min t (rpc_latency latency t') s l h b i =
      trim-IsComplete rpc_min tx_min t t' _ _ h (record {
        rpc_window = i.rpc_window;
        tx_window = i.tx_window;
        rpc_kept = push_bounded-IsKept F _ _ s.rpc_samples l.rpc (omega (arith, b)) i.rpc_kept;
        tx_kept = i.tx_kept;
      })
  observe-IsComplete rpc_min tx_min t (tx_result success t') s l h b i =
      trim-IsComplete rpc_min tx_min t t' _ _ h (record {
        rpc_window = i.rpc_window;
        tx_window = i.tx_window;
        rpc_kept = i.rpc_kept;
        tx_kept = push_bounded-IsKept F _ _ s.tx_samples l.tx (omega (arith, b)) i.tx_kept;
      })

  length-note :
      (o : Observation) (l : Logs)
      → length (note o l).rpc + length (note o l).tx ≡ suc (length l.rpc + length l.tx)
  length-note (rpc_latency latency t) l =
      omega (arith, length-append l.rpc ((t, fmax F (lit 0 1) latency) ∷ []))
  length-note (tx_result success t) l = omega (arith, length-append l.tx ((t, success) ∷ []))

  observe_all-IsComplete :
      (rpc_min tx_min : ℤ) (t : Float) (os : List Observation) (s : RuntimeInvariants F) (l : Logs)
      → IsOrdered t os
      → length l.rpc + length l.tx + length os ≤ deque_maxlen
      → IsComplete rpc_min tx_min t s l
      → IsComplete rpc_min tx_min (last_time t os) (observe_all os s) (note_all os l)
  unfolding observe_all note_all
  observe_all-IsComplete rpc_min tx_min t [] s l h b i = i
  observe_all-IsComplete rpc_min tx_min t (o ∷ os) s l h b i =
      observe_all-IsComplete rpc_min tx_min (time_of o) os (observe o s) (note o l) h.1
        (omega (arith, b, length-note o l))
        (observe-IsComplete rpc_min tx_min t o s l h.0 (omega (arith, b)) i)

  window_start_anti :
      (t : Float) (a b : ℤ) → a ≤ℤ b → at_most (window_start F b t) (window_start F a t) ≡ true
  window_start_anti t a b h = sub_anti t _ _ (of_ℤ_mono _ _ (times_60 a b h))

  -- The deques start out empty.
  abbrev pub IsFresh : RuntimeInvariants F → Type 0
  IsFresh s = (s.rpc_samples ≡ []) × (s.tx_samples ≡ [])

  abbrev pub no_logs : Logs
  no_logs = record { rpc = []; tx = [] }

  -- After up to 20000 observations whose times do not go back, the latency percentile and the failure
  -- rate at the time of the last one are those of everything that was observed in their windows:
  -- trimming the deques at every observation loses nothing that a query reads.
  pub observe_all_complete :
      (t : Float) (os : List Observation) (s : RuntimeInvariants F)
      → IsFresh s
      → IsOrdered t os
      → length os ≤ deque_maxlen
      → (rpc_p99_ms F (last_time t os) (observe_all os s)
          ≡ p99_of F (
              values_since F
                (window_start F s.rpc_window_min (last_time t os))
                (note_all os no_logs).rpc))
        × (tx_failure_rate F (last_time t os) (observe_all os s)
            ≡ failure_rate_of F (
                values_since F
                  (window_start F s.tx_fail_window_min (last_time t os))
                  (note_all os no_logs).tx))
  unfolding rpc_p99_ms tx_failure_rate
  observe_all_complete t os s e h b =
      let now = last_time t os in
      let start : IsComplete s.rpc_window_min s.tx_fail_window_min t s no_logs = record {
        rpc_window = refl;
        tx_window = refl;
        rpc_kept = rw e.0 (record { same = λ c k. refl; shorter = omega arith });
        tx_kept = rw e.1 (record { same = λ c k. refl; shorter = omega arith });
      } in
      let i =
        observe_all-IsComplete s.rpc_window_min s.tx_fail_window_min t os s no_logs h
          (omega (arith, b)) start in
      let longest = max_ℤ (max_ℤ s.rpc_window_min s.tx_fail_window_min) (pos 10) in
      let rpc_in = window_start_anti now s.rpc_window_min longest (ground arith) in
      let tx_in = window_start_anti now s.tx_fail_window_min longest (ground arith) in
      (
        rw i.rpc_window (ap (p99_of F) (i.rpc_kept.same _ rpc_in)),
        rw i.tx_window (ap (failure_rate_of F) (i.tx_kept.same _ tx_in)),
      )
