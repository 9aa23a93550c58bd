-- ===== src/Sizing/Tests.antt =====
-- A search for the best size with a concrete scorer.
use mev_bot.Base.{ℕ, refl, inl, inr, List, [], ◌∷◌, In}
use mev_bot.Base.Int.{ℤ, pos, negsuc, ◌-ℤ◌}
use mev_bot.Base.Float.Ints.{Ext, fin, int_floats}
use mev_bot.Sizing.{search_best_size}
use mev_bot.Sizing.Best.{plain, IsBest}
use mev_bot.Sizing.Optimum.{search_best_size-IsBest}

-- A profit that falls with the size.
abbrev profit : ℕ → Ext
profit n = fin (pos 100 -ℤ pos n)

abbrev candidates : List ℤ
candidates = pos 40 ∷ negsuc 2 ∷ pos 10 ∷ []

search_best_size-IsBest_example :
    let r =
      (search_best_size int_floats (plain int_floats profit) candidates 5 (fin (pos 0)) 3 tt).0 in
    IsBest int_floats profit r × In 10 r.evaluated
search_best_size-IsBest_example =
    search_best_size-IsBest int_floats profit candidates 5 (fin (pos 0)) 3 9 (inr (inr (inl refl)))
