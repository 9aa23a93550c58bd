-- ===== src/Invariants/Windows.antt =====
-- One deque of bot/core/invariants.py, its trimming and its windows, against a complete log.
use mev_bot.Base.{
  ℕ, ◌+◌, ◌-◌, ◌≤◌, ◌<◌, ◌≡◌, refl, sym, ap, ◌∙◌, true, List, [], ◌∷◌, ◌++◌, length, length-append,
  drop, push_bounded, arith,
}
use mev_bot.Base.Float.{FloatModel}
use mev_bot.Invariants.{values_since, drop_before, deque_maxlen}

module _ (F : FloatModel) where
  open F use {Float, at_most, at_most_trans, sub, sub_mono, sub_anti, of_ℤ, of_ℤ_mono, lit}

  module _ {A : Type 0} where
    values_since-drop_before :
        (c cutoff : Float) (xs : List (Float × A))
        → at_most c cutoff ≡ true
        → values_since F cutoff (drop_before F c xs) ≡ values_since F cutoff xs
    unfolding values_since drop_before
    values_since-drop_before c cutoff [] h = refl
    values_since-drop_before c cutoff ((ts, v) ∷ xs) h =
        ground (arith, at_most_trans c cutoff ts, values_since-drop_before c cutoff xs h)

    values_since-append :
        (cutoff : Float) (xs ys : List (Float × A))
        → values_since F cutoff (xs ++ ys) ≡ values_since F cutoff xs ++ values_since F cutoff ys
    unfolding values_since
    values_since-append cutoff [] ys = refl
    values_since-append cutoff ((ts, v) ∷ xs) ys = ground (arith, values_since-append cutoff xs ys)

    length-drop_before :
        (c : Float) (xs : List (Float × A)) → length (drop_before F c xs) ≤ length xs
    unfolding drop_before
    length-drop_before c [] = ground arith
    length-drop_before c ((ts, v) ∷ xs) = ground (arith, length-drop_before c xs)

    push_bounded_small :
        (x : Float × A) (xs : List (Float × A))
        → length xs < deque_maxlen
        → push_bounded deque_maxlen x xs ≡ xs ++ x ∷ []
    push_bounded_small x xs h =
        let none_out : ◌≡◌ {A = ℕ} (length xs + 1 - deque_maxlen) 0 = omega arith in
        ap (λ n. drop n (xs ++ x ∷ [])) none_out

    -- For every window from `c` on, the deque has what the log has.
    pub record IsKept (c : Float) (xs log : List (Float × A)) : Type 0 where
      pub same :
          (cutoff : Float)
          → at_most c cutoff ≡ true
          → values_since F cutoff xs ≡ values_since F cutoff log
      pub shorter : length xs ≤ length log

    pub drop_before-IsKept :
        (c c' : Float) (xs log : List (Float × A))
        → at_most c c' ≡ true
        → IsKept c xs log
        → IsKept c' (drop_before F c' xs) log
    drop_before-IsKept c c' xs log h i = record {
      same = λ cutoff k.
          values_since-drop_before c' cutoff xs k ∙ i.same cutoff (at_most_trans c c' cutoff h k);
      shorter = ground (arith, i.shorter, length-drop_before c' xs);
    }

    pub push_bounded-IsKept :
        (c : Float) (x : Float × A) (xs log : List (Float × A))
        → length log < deque_maxlen
        → IsKept c xs log
        → IsKept c (push_bounded deque_maxlen x xs) (log ++ x ∷ [])
    push_bounded-IsKept c x xs log h i =
        let room : length xs < deque_maxlen = omega (arith, i.shorter, h) in
        rw (push_bounded_small x xs room) (record {
          same = λ cutoff k.
              values_since-append cutoff xs (x ∷ [])
              ∙ ap (λ vs. vs ++ values_since F cutoff (x ∷ [])) (i.same cutoff k)
              ∙ sym (values_since-append cutoff log (x ∷ []));
          shorter = omega (arith, i.shorter, length-append xs (x ∷ []), length-append log (x ∷ []));
        })
