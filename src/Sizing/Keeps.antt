-- ===== src/Sizing/Keeps.antt =====
-- What every call of the scorer keeps, `search_best_size` (core/sizing.py) keeps.
use mev_bot.Base.{ℕ, List, [], ◌∷◌}
use mev_bot.Base.Int.{ℤ}
use mev_bot.Base.Float.{FloatModel}
use mev_bot.Sizing.{score_all, search_from, search_bases, search_best_size}

module _ (F : FloatModel) {S : Type 0} (scorer : ℕ → S → F.Float × S) (P : S → Type 0)
    (keeps : (x : ℕ) (st : S) → P st → P (scorer x st).1) where
  score_all-keeps : (xs : List ℕ) (st : S) → P st → P (score_all F scorer xs st).1
  unfolding score_all
  score_all-keeps [] st p = p
  score_all-keeps (x ∷ xs) st p = score_all-keeps xs (scorer x st).1 (keeps x st p)

  search_from-keeps :
      (coarse : List ℕ) (span : F.Float) (points : ℕ) (st : S)
      → P st
      → P (search_from F scorer coarse span points st).1
  unfolding search_from
  search_from-keeps coarse span points st p = score_all-keeps _ _ (score_all-keeps coarse st p)

  search_bases-keeps :
      (bases : List ℕ) (coarse_points : ℕ) (span : F.Float) (points : ℕ) (st : S)
      → P st
      → P (search_bases F scorer bases coarse_points span points st).1
  unfolding search_bases
  search_bases-keeps [] coarse_points span points st p = p
  search_bases-keeps (b ∷ bs) coarse_points span points st p = search_from-keeps _ span points st p

  pub search_best_size-keeps :
      (sizes : List ℤ) (coarse_points : ℕ) (span : F.Float) (points : ℕ) (st : S)
      → P st
      → P (search_best_size F scorer sizes coarse_points span points st).1
  unfolding search_best_size
  search_best_size-keeps sizes coarse_points span points st p =
      search_bases-keeps _ coarse_points span points st p
