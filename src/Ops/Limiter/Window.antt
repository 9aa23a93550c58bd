-- ===== src/Ops/Limiter/Window.antt =====
-- What the rate limiter has granted within its window, over sequences of calls of `UserRateLimiter.allow`
-- (ops/security.py).
use mev_bot.Base.{
  ℕ, ◌<◌, ◌≤◌, ◌≡◌, ap, sym, ◌∙◌, length-append, refl, true, List, [], ◌∷◌, ◌++◌, length, arith,
  if◌then◌else◌, Bool-cases, inl, inr,
}
use mev_bot.Base.Int.{ℤ, pos, eqb_ℤ, ltb_ℤ}
use mev_bot.Base.Float.{FloatModel, at_most_refl}
use mev_bot.Ops.Limiter.Counts.{
  count_after, count_after-length, count_after-append, cleared-counted, cleared-bounded,
}
use mev_bot.Ops.Limiter.{
  UserRateLimiter, Allowed, granted, wait, drop_old, retry_after, allow_from, allow, index_error,
  set_events,
}

module _ (F : FloatModel) where
  open F use {Float, at_most, at_most_trans, sub, sub_mono}

  -- A limiter, and the times of all calls that each user was granted so far.
  pub record Watched : Type 0 where
    pub limiter : UserRateLimiter F
    pub grants : ℤ → List Float

  abbrev pub note_grant : ℤ → Float → Allowed F → (ℤ → List Float) → ℤ → List Float
  note_grant u t granted g v = if eqb_ℤ u v then g v ++ t ∷ [] else g v
  note_grant u t (wait r) g v = g v
  note_grant u t index_error g v = g v

  unfoldable pub serve_one : ℤ → Float → Watched → Watched
  unfolding allow
  serve_one u t w = record {
    limiter = (allow F u t w.limiter).1;
    grants = note_grant u t (allow F u t w.limiter).0 w.grants;
  }

  -- The calls in order, each a user and a time.
  unfoldable pub serve : List (ℤ × Float) → Watched → Watched
  unfolding serve_one
  serve [] w = w
  serve ((u, t) ∷ calls) w = serve calls (serve_one u t w)

  -- The times of the calls do not go back, from a first time on.
  abbrev pub IsOrdered : Float → List (ℤ × Float) → Type 0
  IsOrdered t [] = Unit
  IsOrdered t ((u, t') ∷ calls) = (at_most t t' ≡ true) × IsOrdered t' calls

  abbrev pub last_time : Float → List (ℤ × Float) → Float
  last_time t [] = t
  last_time t ((u, t') ∷ calls) = last_time t' calls

  -- At a time, the deques hold as many of the granted times after the cutoff as there are, and no
  -- more than the limit.
  record IsWatched (n : ℕ) (t : Float) (w : Watched) : Type 0 where
    same_limit : w.limiter.limit ≡ pos n
    counted :
        (u : ℤ) (c : Float)
        → at_most (sub t w.limiter.window_s) c ≡ true
        → count_after F c (w.grants u) ≡ count_after F c (w.limiter.events u)
    bounded : (u : ℤ) → length (w.limiter.events u) ≤ n

  note_grant-retry_after :
      (u v : ℤ) (t s : Float) (q : List Float) (g : ℤ → List Float)
      → note_grant u t (retry_after F t s q) g v ≡ g v
  unfolding retry_after
  note_grant-retry_after u v t s [] g = refl
  note_grant-retry_after u v t s (x ∷ q) g = refl

  -- The two outcomes of the test, from a deque that the loop has cleared.
  granted-IsWatched :
      (n : ℕ) (u : ℤ) (t : Float) (q : List Float) (w : Watched)
      → w.limiter.limit ≡ pos n
      → length q < n
      → ((v : ℤ) (c : Float)
          → at_most (sub t w.limiter.window_s) c ≡ true
          → count_after F c (w.grants v)
            ≡ count_after F c (if eqb_ℤ u v then q else w.limiter.events v))
      → ((v : ℤ) → length (if eqb_ℤ u v then q else w.limiter.events v) ≤ n)
      → IsWatched n t record {
        limiter = set_events F u (q ++ t ∷ []) w.limiter;
        grants = note_grant u t granted w.grants;
      }
  granted-IsWatched n u t q w l r h b = record {
    same_limit = l;
    counted = λ v c k.
        let before = h v c k in
        ground (arith, before, count_after-append F c t q, count_after-append F c t (w.grants v));
    bounded = λ v. let before = b v in ground (arith, before, length-append q (t ∷ []));
  }

  waits-IsWatched :
      (n : ℕ) (u : ℤ) (t : Float) (q : List Float) (w : Watched)
      → w.limiter.limit ≡ pos n
      → ((v : ℤ) (c : Float)
          → at_most (sub t w.limiter.window_s) c ≡ true
          → count_after F c (w.grants v)
            ≡ count_after F c (if eqb_ℤ u v then q else w.limiter.events v))
      → ((v : ℤ) → length (if eqb_ℤ u v then q else w.limiter.events v) ≤ n)
      → IsWatched n t record {
        limiter = set_events F u q w.limiter;
        grants = note_grant u t (retry_after F t w.limiter.window_s q) w.grants;
      }
  waits-IsWatched n u t q w l h b = record {
    same_limit = l;
    counted = λ v c k.
        ap (count_after F c) (note_grant-retry_after u v t w.limiter.window_s q w.grants) ∙ h v c k;
    bounded = b;
  }

  allow_from-IsWatched :
      (n : ℕ) (u : ℤ) (t : Float) (q : List Float) (w : Watched)
      → w.limiter.limit ≡ pos n
      → ((v : ℤ) (c : Float)
          → at_most (sub t w.limiter.window_s) c ≡ true
          → count_after F c (w.grants v)
            ≡ count_after F c (if eqb_ℤ u v then q else w.limiter.events v))
      → ((v : ℤ) → length (if eqb_ℤ u v then q else w.limiter.events v) ≤ n)
      → IsWatched n t record {
        limiter = (allow_from F u t q w.limiter).1;
        grants = note_grant u t (allow_from F u t q w.limiter).0 w.grants;
      }
  unfolding allow_from
  allow_from-IsWatched n u t q w l h b =
      elim (Bool-cases (ltb_ℤ (pos (length q)) w.limiter.limit)) [
        | inl e ↦ rw e (granted-IsWatched n u t q w l (ground (arith, e, l)) h b)
        | inr e ↦ rw e (waits-IsWatched n u t q w l h b)
      ]

  serve_one-IsWatched :
      (n : ℕ) (u : ℤ) (t t' : Float) (w : Watched)
      → IsWatched n t w
      → at_most t t' ≡ true
      → IsWatched n t' (serve_one u t' w)
  unfolding serve_one allow
  serve_one-IsWatched n u t t' w i k =
      let cutoff = sub t' w.limiter.window_s in
      let moved = sub_mono t t' w.limiter.window_s k in
      allow_from-IsWatched n u t' (drop_old F cutoff (w.limiter.events u)) w i.same_limit
        (λ v c h.
          i.counted v c (at_most_trans _ _ _ moved h)
          ∙ sym (cleared-counted F u v c cutoff w.limiter.events h))
        (λ v. cleared-bounded F n u v cutoff w.limiter.events i.bounded)

  serve-IsWatched :
      (n : ℕ) (t : Float) (calls : List (ℤ × Float)) (w : Watched)
      → IsWatched n t w
      → IsOrdered t calls
      → IsWatched n (last_time t calls) (serve calls w)
  unfolding serve
  serve-IsWatched n t [] w i o = i
  serve-IsWatched n t ((u, t') ∷ calls) w i o =
      serve-IsWatched n t' calls (serve_one u t' w) (serve_one-IsWatched n u t t' w i o.0) o.1

  allow-window :
      (u : ℤ) (t : Float) (s : UserRateLimiter F) → (allow F u t s).1.window_s ≡ s.window_s
  unfolding allow allow_from
  allow-window u t s =
      let q = drop_old F (sub t s.window_s) (s.events u) in
      elim (Bool-cases (ltb_ℤ (pos (length q)) s.limit)) [ inl e ↦ rw e refl | inr e ↦ rw e refl ]

  serve-window :
      (calls : List (ℤ × Float)) (w : Watched)
      → (serve calls w).limiter.window_s ≡ w.limiter.window_s
  unfolding serve serve_one
  serve-window [] w = refl
  serve-window ((u, t) ∷ calls) w =
      serve-window calls (serve_one u t w) ∙ allow-window u t w.limiter

  -- The limiter, its deques empty, and nothing granted.
  abbrev pub fresh : ℕ → Float → Watched
  fresh n window = record {
    limiter = record { limit = pos n; window_s = window; events = λ u. [] };
    grants = λ u. [];
  }

  -- Over any sequence of calls whose times do not go back, by whatever users, a limiter with limit
  -- n has granted each user at most n calls within the window that ends at the last call.
  pub serve_within_limit :
      (n : ℕ) (window t : Float) (calls : List (ℤ × Float)) (u : ℤ)
      → IsOrdered t calls
      → count_after F (sub (last_time t calls) window) ((serve calls (fresh n window)).grants u) ≤ n
  serve_within_limit n window t calls u o =
      let w = serve calls (fresh n window) in
      let start : IsWatched n t (fresh n window) = record {
        same_limit = refl;
        counted = λ v c k. refl;
        bounded = λ v. ground arith;
      } in
      let i = serve-IsWatched n t calls (fresh n window) start o in
      let cutoff = sub (last_time t calls) window in
      let kept : at_most (sub (last_time t calls) w.limiter.window_s) cutoff ≡ true =
        rw (serve-window calls (fresh n window)) (at_most_refl F cutoff) in
      let same = i.counted u cutoff kept in
      let few = i.bounded u in
      let short = count_after-length F cutoff (w.limiter.events u) in
      ground (arith, same, few, short)
