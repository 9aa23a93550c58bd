-- ===== src/Sizing/Optimum.antt =====
-- `search_best_size` (core/sizing.py) never does worse than any of the sizes that it is given.
use mev_bot.Base.{ℕ, suc, List, [], ◌∷◌, ◌++◌, map, In, In-append_right}
use mev_bot.Base.Int.{ℤ, pos}
use mev_bot.Base.Float.{FloatModel}
use mev_bot.Sizing.{dedupe_positive, log_spaced_sizes, search_bases, search_best_size, last_or}
use mev_bot.Sizing.Best.{
  plain, IsBest, In-dedupe_positive, In-map-pos, search_from-IsBest, score_of_base,
}

module _ (F : FloatModel) (f : ℕ → F.Float) where
  open F use {Float, at_most}

  search_bases-IsBest :
      (bases : List ℕ) (coarse_points : ℕ) (span : Float) (points n : ℕ)
      → In (suc n) bases
      → let r = (search_bases F (plain F f) bases coarse_points span points tt).0 in
        IsBest F f r × In (suc n) r.evaluated
  unfolding search_bases
  search_bases-IsBest [] coarse_points span points n m = absurd m
  search_bases-IsBest (b ∷ bs) coarse_points span points n m =
      let log_sizes : List ℤ =
        map pos (log_spaced_sizes F b (last_or F (plain F f) b bs) coarse_points) in
      let coarse : List ℕ = dedupe_positive (log_sizes ++ map pos (b ∷ bs)) in
      let found : In (suc n) coarse = In-dedupe_positive n (log_sizes ++ map pos (b ∷ bs)) (
        In-append_right (pos (suc n)) log_sizes (map pos (b ∷ bs))
          (In-map-pos (suc n) (b ∷ bs) m)) in
      (
        search_from-IsBest F f coarse span points tt (suc n) found,
        score_of_base F f coarse span points tt (suc n) found,
      )

  -- For a scorer that only computes, and for any settings of the search: if a base size is positive,
  -- then the score that is returned is the score of the size that is returned, that size was
  -- evaluated, no size that was evaluated has a higher score, and the base size was evaluated.
  pub search_best_size-IsBest :
      (base_sizes : List ℤ) (coarse_points : ℕ) (span : Float) (points n : ℕ)
      → In (pos (suc n)) base_sizes
      → let r = (search_best_size F (plain F f) base_sizes coarse_points span points tt).0 in
        IsBest F f r × In (suc n) r.evaluated
  unfolding search_best_size
  search_best_size-IsBest base_sizes coarse_points span points n m =
      search_bases-IsBest (dedupe_positive base_sizes) coarse_points span points n
        (In-dedupe_positive n base_sizes m)
