-- ===== src/Sizing.antt =====
-- core/sizing.py: the cost model and the search for the best size of a trade. Sizes are positive
-- once `dedupe_positive` has filtered them, and are natural numbers from there on.
pub mod Best
pub mod Keeps
pub mod Optimum
mod Tests
use mev_bot.Base.{
  ℕ, zero, suc, ◌+◌, ◌-◌, Bool, true, false, ◌&&◌, ◌||◌, List, [], ◌∷◌, ◌++◌, map, if◌then◌else◌,
  ltb, leb, ◌==◌,
}
use mev_bot.Base.Int.{ℤ, pos, negsuc, pos_part, max_ℤ}
use mev_bot.Base.Float.{FloatModel, below, fmax}

pub record CostModel (F : FloatModel) : Type 0 where
  pub gas_cost_usd : F.Float
  pub fee_bps : F.Float
  pub flashloan_fee_bps : F.Float

pub record SizingResult (F : FloatModel) : Type 0 where
  pub best_size : ℕ
  pub best_score : F.Float
  pub evaluated : List ℕ

-- A size with its score, an item of the dict `scores`.
pub record Scored (F : FloatModel) : Type 0 where
  pub size : ℕ
  pub score : F.Float

abbrev pub max_nat : ℕ → ℕ → ℕ
max_nat a b = if ltb a b then b else a

-- An item of a sorted list without repetitions.
unfoldable pub insert_size : ℕ → List ℕ → List ℕ
insert_size x [] = x ∷ []
insert_size x (y ∷ ys) =
    if x == y then y ∷ ys else if ltb x y then x ∷ y ∷ ys else y ∷ insert_size x ys

-- `sorted(set(xs))`
unfoldable pub sorted_set : List ℕ → List ℕ
unfolding insert_size
sorted_set [] = []
sorted_set (x ∷ xs) = insert_size x (sorted_set xs)

abbrev pub positives : List ℤ → List ℕ
positives [] = []
positives (pos zero ∷ vs) = positives vs
positives (pos (suc n) ∷ vs) = suc n ∷ positives vs
positives (negsuc n ∷ vs) = positives vs

unfoldable pub dedupe_positive : List ℤ → List ℕ
unfolding sorted_set
dedupe_positive vs = sorted_set (positives vs)

-- `range(lo, stop, step)` for a positive step; `rounds` bounds the number of items.
abbrev pub range_step : ℕ → ℕ → ℕ → ℕ → List ℕ
range_step zero lo stop step = []
range_step (suc rounds) lo stop step =
    if ltb lo stop then lo ∷ range_step rounds (lo + step) stop step else []

-- `range(n)`
abbrev pub range : ℕ → List ℕ
range n = range_step n 0 n 1

module _ (F : FloatModel) where
  open F use {Float, at_most, add, sub, mul, div, of_ℤ, lit, round, exp, log, neg_inf}

  unfoldable pub net_profit_usd : CostModel F → ℤ → Float → Float → Float
  unfolding fmax
  net_profit_usd m amount_in edge_bps quote_fee_usd =
      let gross =
        div (mul (of_ℤ (max_ℤ (pos 0) amount_in)) (fmax F (lit 0 0) edge_bps)) (lit 10000 0) in
      let variable =
        div (mul (of_ℤ amount_in) (fmax F (lit 0 0) (add m.fee_bps m.flashloan_fee_bps)))
          (lit 10000 0) in
      let fixed = add (fmax F (lit 0 0) m.gas_cost_usd) (fmax F (lit 0 0) quote_fee_usd) in
      sub (sub gross variable) fixed

  -- `max(1, int(round(x)))`
  abbrev pub rounded : Float → ℕ
  rounded x = pos_part (max_ℤ (pos 1) (round x))

  abbrev pub of_ℕ : ℕ → Float
  of_ℕ n = of_ℤ (pos n)

  unfoldable pub log_spaced_sizes : ℕ → ℕ → ℕ → List ℕ
  unfolding dedupe_positive
  log_spaced_sizes min_size max_size points =
      let lo : ℕ = max_nat 1 min_size in
      let hi : ℕ = max_nat lo max_size in
      let n : ℕ = max_nat 2 points in
      let l_lo = log (of_ℕ lo) in
      let l_hi = log (of_ℕ hi) in
      let point = λ (i : ℕ). pos (
        rounded (exp (add l_lo (mul (sub l_hi l_lo) (div (of_ℕ i) (of_ℕ (max_nat 1 (n - 1)))))))) in
      if lo == hi then lo ∷ [] else dedupe_positive (map point (range n))

  unfoldable pub refine_sizes_around : ℕ → Float → ℕ → List ℕ
  unfolding dedupe_positive fmax
  refine_sizes_around best span points =
      let b : ℕ = max_nat 1 best in
      let p : ℕ = max_nat 3 points in
      let frac = fmax F (lit 5 2) span in
      let lo : ℕ = rounded (mul (of_ℕ b) (sub (lit 1 0) frac)) in
      let hi : ℕ = pos_part (max_ℤ (pos (lo + 1)) (round (mul (of_ℕ b) (add (lit 1 0) frac)))) in
      let step : ℕ = rounded (div (of_ℕ (hi - lo)) (of_ℕ (max_nat 1 (p - 1)))) in
      dedupe_positive (map pos (range_step (hi + 1 - lo) lo (hi + 1) step))

  -- The order of the keys `(scores[s], s)`: whether the second is greater.
  unfoldable pub better : Scored F → Scored F → Bool
  better a b =
      below F a.score b.score
      || (at_most a.score b.score && at_most b.score a.score && ltb a.size b.size)

  -- `max(scores.keys(), key=…)` of a dict that begins with the given item.
  unfoldable pub best_of : Scored F → List (Scored F) → Scored F
  best_of a [] = a
  best_of a (b ∷ bs) = best_of (if better a b then b else a) bs

  -- `scores[s] = v`
  unfoldable pub put_score : Scored F → List (Scored F) → List (Scored F)
  put_score a [] = a ∷ []
  put_score a (b ∷ bs) =
      if b.size == a.size then record b { score = a.score } ∷ bs else b ∷ put_score a bs

  -- `scores.update(refined_scores)`
  unfoldable pub update_scores : List (Scored F) → List (Scored F) → List (Scored F)
  unfolding put_score
  update_scores [] scores = scores
  update_scores (a ∷ as') scores = update_scores as' (put_score a scores)

  abbrev pub sizes_of : List (Scored F) → List ℕ
  sizes_of [] = []
  sizes_of (a ∷ rest) = a.size ∷ sizes_of rest

  -- A scorer reads and writes variables of its caller, `S`.
  module _ {S : Type 0} (scorer : ℕ → S → Float × S) where
    -- `{s: float(scorer(s)) for s in sizes}`, for sizes without repetitions.
    unfoldable pub score_all : List ℕ → S → List (Scored F) × S
    score_all [] st = ([], st)
    score_all (x ∷ xs) st =
        let (v, st₁) = scorer x st in
        let (rest, st₂) = score_all xs st₁ in (record { size = x; score = v } ∷ rest, st₂)

    -- The best of a dict of scores; the dict is never empty here.
    abbrev pub best_scored : List (Scored F) → Scored F
    best_scored [] = record { size = 0; score = neg_inf }
    best_scored (a ∷ rest) = best_of a rest

    -- The two rounds of the search, from the sizes of the first.
    unfoldable pub search_from : List ℕ → Float → ℕ → S → SizingResult F × S
    search_from coarse refine_span refine_points st =
        let (scores, st₁) = score_all coarse st in
        let refined = refine_sizes_around (best_scored scores).size refine_span refine_points in
        let (refined_scores, st₂) = score_all refined st₁ in
        let all = update_scores refined_scores scores in
        let final_best = best_scored all in
        (
          record {
            best_size = final_best.size;
            best_score = final_best.score;
            evaluated = sorted_set (sizes_of all);
          },
          st₂,
        )

    -- The last item of a list, or the given one.
    abbrev pub last_or : ℕ → List ℕ → ℕ
    last_or d [] = d
    last_or d (x ∷ xs) = last_or x xs

    -- The search from the positive bases, whose minimum and maximum are the first and the last.
    unfoldable pub search_bases : List ℕ → ℕ → Float → ℕ → S → SizingResult F × S
    unfolding search_from
    search_bases [] coarse_points refine_span refine_points st =
        (record { best_size = 0; best_score = neg_inf; evaluated = [] }, st)
    search_bases (b ∷ bs) coarse_points refine_span refine_points st =
        let coarse = log_spaced_sizes b (last_or b bs) coarse_points in
        search_from (dedupe_positive (map pos coarse ++ map pos (b ∷ bs))) refine_span refine_points
          st

    unfoldable pub search_best_size : List ℤ → ℕ → Float → ℕ → S → SizingResult F × S
    unfolding search_bases
    search_best_size base_sizes coarse_points refine_span refine_points st =
        search_bases (dedupe_positive base_sizes) coarse_points refine_span refine_points st
