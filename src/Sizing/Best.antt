-- ===== src/Sizing/Best.antt =====
-- The result of `search_best_size` (core/sizing.py) for a scorer with no memory.
use mev_bot.Base.{
  ℕ, zero, suc, ◌≡◌, refl, sym, ap, ◌∙◌, inl, inr, true, false, List, [], ◌∷◌, map, arith, ltb,
  ◌==◌, ==_iff, All, In, In-All, Bool-cases,
}
use mev_bot.Base.Int.{ℤ, pos, negsuc}
use mev_bot.Base.Float.{FloatModel, at_most_refl}
use mev_bot.Sizing.{
  SizingResult, Scored, insert_size, sorted_set, positives, dedupe_positive, refine_sizes_around,
  better, best_of, put_score, update_scores, sizes_of, score_all, best_scored, search_from,
}

In-insert_size_self : (x : ℕ) (xs : List ℕ) → In x (insert_size x xs)
unfolding insert_size
In-insert_size_self x [] = inl refl
In-insert_size_self x (y ∷ ys) = elim (Bool-cases (x == y)) [
  | inl e ↦ rw e (inl ((==_iff x y).0 e))
  | inr n ↦ elim (Bool-cases (ltb x y)) [
    | inl l ↦ rw (n, l) (inl refl)
    | inr g ↦ rw (n, g) (inr (In-insert_size_self x ys))
  ]
]

In-insert_size : (a x : ℕ) (xs : List ℕ) → In a xs → In a (insert_size x xs)
unfolding insert_size
In-insert_size a x [] m = absurd m
In-insert_size a x (y ∷ ys) m = elim (Bool-cases (x == y)) [
  | inl e ↦ rw e m
  | inr n ↦ elim (Bool-cases (ltb x y)) [
    | inl l ↦ rw (n, l) (inr m)
    | inr g ↦ rw (n, g) (elim m [ inl e ↦ inl e | inr k ↦ inr (In-insert_size a x ys k) ])
  ]
]

All-insert_size {κ} :
    (P : ℕ → Type κ) (x : ℕ) (xs : List ℕ) → P x → All P xs → All P (insert_size x xs)
unfolding insert_size
All-insert_size P x [] p h = (p, tt)
All-insert_size P x (y ∷ ys) p h = elim (Bool-cases (x == y)) [
  | inl e ↦ rw e h
  | inr n ↦ elim (Bool-cases (ltb x y)) [
    | inl l ↦ rw (n, l) (p, h)
    | inr g ↦ rw (n, g) (h.0, All-insert_size P x ys p h.1)
  ]
]

-- `sorted(set(xs))` has every item of `xs`, and only items of `xs`.
pub In-sorted_set : (a : ℕ) (xs : List ℕ) → In a xs → In a (sorted_set xs)
unfolding sorted_set
In-sorted_set a [] m = absurd m
In-sorted_set a (x ∷ xs) (inl e) = rw e (In-insert_size_self x (sorted_set xs))
In-sorted_set a (x ∷ xs) (inr m) = In-insert_size a x (sorted_set xs) (In-sorted_set a xs m)

pub All-sorted_set {κ} : (P : ℕ → Type κ) (xs : List ℕ) → All P xs → All P (sorted_set xs)
unfolding sorted_set
All-sorted_set P [] h = tt
All-sorted_set P (x ∷ xs) h = All-insert_size P x (sorted_set xs) h.0 (All-sorted_set P xs h.1)

pub In-positives : (n : ℕ) (vs : List ℤ) → In (pos (suc n)) vs → In (suc n) (positives vs)
In-positives n [] m = absurd m
In-positives n (pos zero ∷ vs) (inl e) = cc
In-positives n (pos zero ∷ vs) (inr m) = In-positives n vs m
In-positives n (pos (suc k) ∷ vs) (inl e) = inl (cc)
In-positives n (pos (suc k) ∷ vs) (inr m) = inr (In-positives n vs m)
In-positives n (negsuc k ∷ vs) (inl e) = cc
In-positives n (negsuc k ∷ vs) (inr m) = In-positives n vs m

pub In-dedupe_positive :
    (n : ℕ) (vs : List ℤ) → In (pos (suc n)) vs → In (suc n) (dedupe_positive vs)
unfolding dedupe_positive
In-dedupe_positive n vs m = In-sorted_set (suc n) (positives vs) (In-positives n vs m)

pub In-map-pos : (n : ℕ) (xs : List ℕ) → In n xs → In (pos n) (map pos xs)
In-map-pos n [] m = absurd m
In-map-pos n (x ∷ xs) (inl e) = inl (ap pos e)
In-map-pos n (x ∷ xs) (inr m) = inr (In-map-pos n xs m)

module _ (F : FloatModel) where
  open F use {Float, at_most, at_most_total, at_most_trans}

  better-true : (a b : Scored F) → better F a b ≡ true → at_most a.score b.score ≡ true
  unfolding better
  better-true a b h = ground (arith, at_most_total b.score a.score)

  better-false : (a b : Scored F) → better F a b ≡ false → at_most b.score a.score ≡ true
  unfolding better
  better-false a b h = ground arith

  -- No score of the list is above the bound.
  abbrev pub Below : Float → List (Scored F) → Type 0
  Below v scores = All (λ e. at_most e.score v ≡ true) scores

  best_of-Below_from :
      (v : Float) (a : Scored F) (rest : List (Scored F))
      → at_most (best_of F a rest).score v ≡ true
      → Below v (a ∷ rest)
  unfolding best_of
  best_of-Below_from v a [] h = (h, tt)
  best_of-Below_from v a (b ∷ bs) h = elim (Bool-cases (better F a b)) [
    | inl e ↦
        let below_b = best_of-Below_from v b bs (rw (e, best_of) at h) in
        (at_most_trans _ _ _ (better-true a b e) below_b.0, below_b)
    | inr e ↦
        let below_a = best_of-Below_from v a bs (rw (e, best_of) at h) in
        (below_a.0, (at_most_trans _ _ _ (better-false a b e) below_a.0, below_a.1))
  ]

  best_of-Below :
      (a : Scored F) (rest : List (Scored F)) → Below (best_of F a rest).score (a ∷ rest)
  best_of-Below a rest =
      best_of-Below_from (best_of F a rest).score a rest (at_most_refl F (best_of F a rest).score)

  best_of-All {κ} :
      (P : Scored F → Type κ) (a : Scored F) (rest : List (Scored F))
      → All P (a ∷ rest)
      → P (best_of F a rest)
  unfolding best_of
  best_of-All P a [] h = h.0
  best_of-All P a (b ∷ bs) (pa, (pb, ps)) = elim (Bool-cases (better F a b)) [
    | inl e ↦ rw (e, best_of) (best_of-All P b bs (pb, ps))
    | inr e ↦ rw (e, best_of) (best_of-All P a bs (pa, ps))
  ]

  -- Every item holds the score that the function gives to its size.
  module _ (f : ℕ → Float) where
    abbrev pub Honest : List (Scored F) → Type 0
    Honest scores = All (λ e. e.score ≡ f e.size) scores

    put_score-Honest :
        (a : Scored F) (scores : List (Scored F))
        → a.score ≡ f a.size
        → Honest scores
        → Honest (put_score F a scores)
    unfolding put_score
    put_score-Honest a [] p h = (p, tt)
    put_score-Honest a (b ∷ bs) p h = elim (Bool-cases (b.size == a.size)) [
      | inl e ↦ rw e (p ∙ ap f (sym ((==_iff b.size a.size).0 e)), h.1)
      | inr e ↦ rw e (h.0, put_score-Honest a bs p h.1)
    ]

    update_scores-Honest :
        (new scores : List (Scored F))
        → Honest new
        → Honest scores
        → Honest (update_scores F new scores)
    unfolding update_scores
    update_scores-Honest [] scores h k = k
    update_scores-Honest (a ∷ rest) scores h k =
        update_scores-Honest rest (put_score F a scores) h.1 (put_score-Honest a scores h.0 k)

    Below-In :
        (v : Float) (scores : List (Scored F)) (n : ℕ)
        → Below v scores
        → Honest scores
        → In n (sizes_of F scores)
        → at_most (f n) v ≡ true
    Below-In v [] n b h m = absurd m
    Below-In v (e ∷ rest) n b h (inl p) = rw (p, ← h.0) b.0
    Below-In v (e ∷ rest) n b h (inr m) = Below-In v rest n b.1 h.1 m

  In-put_score :
      (n : ℕ) (a : Scored F) (scores : List (Scored F))
      → In n (sizes_of F scores)
      → In n (sizes_of F (put_score F a scores))
  unfolding put_score
  In-put_score n a [] m = absurd m
  In-put_score n a (b ∷ bs) m = elim (Bool-cases (b.size == a.size)) [
    | inl e ↦ rw e m
    | inr e ↦ rw e (elim m [ inl p ↦ inl p | inr k ↦ inr (In-put_score n a bs k) ])
  ]

  In-update_scores :
      (n : ℕ) (new scores : List (Scored F))
      → In n (sizes_of F scores)
      → In n (sizes_of F (update_scores F new scores))
  unfolding update_scores
  In-update_scores n [] scores m = m
  In-update_scores n (a ∷ rest) scores m =
      In-update_scores n rest (put_score F a scores) (In-put_score n a scores m)

  sizes_keep :
      (a : Scored F) (scores more : List (Scored F))
      → All (λ e. In e.size (sizes_of F more)) scores
      → All (λ e. In e.size (sizes_of F (a ∷ more))) scores
  sizes_keep a [] more h = tt
  sizes_keep a (b ∷ bs) more h = (inr h.0, sizes_keep a bs more h.1)

  own_sizes : (scores : List (Scored F)) → All (λ e. In e.size (sizes_of F scores)) scores
  own_sizes [] = tt
  own_sizes (a ∷ rest) = (inl refl, sizes_keep a rest rest (own_sizes rest))

  -- A scorer that only computes: it neither reads nor writes its caller's variables.
  module _ (f : ℕ → Float) where
    abbrev pub plain : ℕ → Unit {0} → Float × Unit {0}
    plain x st = (f x, st)

    score_all-Honest : (xs : List ℕ) (st : Unit {0}) → Honest f (score_all F plain xs st).0
    unfolding score_all
    score_all-Honest [] st = tt
    score_all-Honest (x ∷ xs) st = (refl, score_all-Honest xs st)

    sizes_of-score_all : (xs : List ℕ) (st : Unit {0}) → sizes_of F (score_all F plain xs st).0 ≡ xs
    unfolding score_all
    sizes_of-score_all [] st = refl
    sizes_of-score_all (x ∷ xs) st = ap (◌∷◌ x) (sizes_of-score_all xs st)

    -- The result of a search: its score is that of its size, no size that was evaluated has a higher
    -- score, and the size itself was evaluated.
    pub record IsBest (r : SizingResult F) : Type 0 where
      pub honest : r.best_score ≡ f r.best_size
      pub top : All (λ n. at_most (f n) r.best_score ≡ true) r.evaluated
      pub member : In r.best_size r.evaluated

    best_scored-Below : (scores : List (Scored F)) → Below (best_scored F plain scores).score scores
    best_scored-Below [] = tt
    best_scored-Below (a ∷ rest) = best_of-Below a rest

    IsBest-of :
        (scores : List (Scored F)) (n : ℕ)
        → Honest f scores
        → In n (sizes_of F scores)
        → IsBest (record {
          best_size = (best_scored F plain scores).size;
          best_score = (best_scored F plain scores).score;
          evaluated = sorted_set (sizes_of F scores);
        })
    IsBest-of [] n h m = absurd m
    IsBest-of (a ∷ rest) n h m =
        let best : Scored F = best_of F a rest in
        record {
          honest = best_of-All (λ e. e.score ≡ f e.size) a rest h;
          top =
              All-sorted_set (λ k. at_most (f k) best.score ≡ true) (sizes_of F (a ∷ rest))
                (In-All _ (sizes_of F (a ∷ rest))
                  (λ k m'. Below-In f best.score (a ∷ rest) k (best_of-Below a rest) h m'));
          member =
              In-sorted_set best.size (sizes_of F (a ∷ rest)) (
                best_of-All (λ e. In e.size (sizes_of F (a ∷ rest))) a rest (own_sizes (a ∷ rest)));
        }

    pub search_from-IsBest :
        (coarse : List ℕ) (span : Float) (points : ℕ) (st : Unit {0}) (n : ℕ)
        → In n coarse
        → IsBest (search_from F plain coarse span points st).0
    unfolding search_from
    search_from-IsBest coarse span points st n m =
        let scores : List (Scored F) = (score_all F plain coarse st).0 in
        let refined : List ℕ =
          refine_sizes_around F (best_scored F plain scores).size span points in
        let new : List (Scored F) = (score_all F plain refined tt).0 in
        IsBest-of (update_scores F new scores) n
          (update_scores-Honest f new scores (score_all-Honest refined tt)
            (score_all-Honest coarse st))
          (In-update_scores n new scores (rw sizes_of-score_all m))

    pub score_of_base :
        (coarse : List ℕ) (span : Float) (points : ℕ) (st : Unit {0}) (n : ℕ)
        → In n coarse
        → In n (search_from F plain coarse span points st).0.evaluated
    unfolding search_from
    score_of_base coarse span points st n m =
        let scores : List (Scored F) = (score_all F plain coarse st).0 in
        let refined : List ℕ =
          refine_sizes_around F (best_scored F plain scores).size span points in
        let new : List (Scored F) = (score_all F plain refined tt).0 in
        In-sorted_set n (sizes_of F (update_scores F new scores))
          (In-update_scores n new scores (rw sizes_of-score_all m))
