-- ===== src/Ops/Limiter/Counts.antt =====
-- Counting the times of a deque after a cutoff, and clearing the deque up to the cutoff: the loop of
-- `UserRateLimiter.allow` (ops/security.py).
use mev_bot.Base.{
  ℕ, suc, ◌+◌, ◌≤◌, ◌≡◌, refl, true, List, [], ◌∷◌, ◌++◌, length, arith, if◌then◌else◌, Bool-cases,
  inl, inr,
}
use mev_bot.Base.Int.{ℤ, eqb_ℤ, eq_of_parts}
use mev_bot.Base.Float.{FloatModel}
use mev_bot.Ops.Limiter.{drop_old}

module _ (F : FloatModel) where
  open F use {Float, at_most, at_most_trans, sub, sub_mono}

  -- How many of the times lie after a cutoff.
  unfoldable pub count_after : Float → List Float → ℕ
  count_after c [] = 0
  count_after c (x ∷ xs) = let n = count_after c xs in if at_most x c then n else suc n

  pub count_after-length : (c : Float) (q : List Float) → count_after c q ≤ length q
  unfolding count_after
  count_after-length c [] = ground arith
  count_after-length c (x ∷ q) = ground (arith, count_after-length c q)

  pub count_after-append :
      (c t : Float) (q : List Float)
      → count_after c (q ++ t ∷ []) ≡ count_after c q + count_after c (t ∷ [])
  unfolding count_after
  count_after-append c t [] = ground arith
  count_after-append c t (x ∷ q) = ground (arith, count_after-append c t q)

  pub count_after-drop_old :
      (c cutoff : Float) (q : List Float)
      → at_most cutoff c ≡ true
      → count_after c (drop_old F cutoff q) ≡ count_after c q
  unfolding count_after drop_old
  count_after-drop_old c cutoff [] h = refl
  count_after-drop_old c cutoff (x ∷ q) h =
      ground (arith, at_most_trans x cutoff c, count_after-drop_old c cutoff q h)

  pub length-drop_old : (cutoff : Float) (q : List Float) → length (drop_old F cutoff q) ≤ length q
  unfolding drop_old
  length-drop_old cutoff [] = ground arith
  length-drop_old cutoff (x ∷ q) = ground (arith, length-drop_old cutoff q)

  -- A deque that the loop has cleared counts as before, for its user and for all others.
  pub cleared-counted :
      (u v : ℤ) (c cutoff : Float) (events : ℤ → List Float)
      → at_most cutoff c ≡ true
      → count_after c (if eqb_ℤ u v then drop_old F cutoff (events u) else events v)
        ≡ count_after c (events v)
  cleared-counted u v c cutoff events h = elim (Bool-cases (eqb_ℤ u v)) [
    | inl e ↦
        let same : u ≡ v = eq_of_parts u v (ground (arith, e)) in
        rw (e, same) (count_after-drop_old c cutoff (events v) h)
    | inr e ↦ rw e refl
  ]

  pub cleared-bounded :
      (n : ℕ) (u v : ℤ) (cutoff : Float) (events : ℤ → List Float)
      → ((w : ℤ) → length (events w) ≤ n)
      → length (if eqb_ℤ u v then drop_old F cutoff (events u) else events v) ≤ n
  cleared-bounded n u v cutoff events b =
      let mine = b u in
      let theirs = b v in
      let shorter = length-drop_old cutoff (events u) in
      elim (Bool-cases (eqb_ℤ u v)) [ inl e ↦ rw e ground arith | inr e ↦ rw e theirs ]
