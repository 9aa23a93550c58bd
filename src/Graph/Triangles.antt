-- ===== src/Graph/Triangles.antt =====
-- The loops of `find_tri_cycles` (bot/core/graph.py).
use mev_bot.Base.{
  ◌≤◌, ◌≡◌, Bool, false, List, [], ◌∷◌, All, In-All, inl, inr, length, take, arith, Bool-cases,
}
use mev_bot.Base.Int.{ℤ, pos, max_ℤ, pos_part}
use mev_bot.Base.Text.{Text, text_eq, text_leb}
use mev_bot.Base.Float.{FloatModel}
use mev_bot.Base.Sort.{All-sort}
use mev_bot.Graph.{
  TokenGraph, neighbors, keys, tokens, Row, build_token_graph, Search, visit, over_third,
  sorted_keys, over_second, over_first, find_tri_cycles,
}
use mev_bot.Graph.Distinct.{IsDistinct}
use mev_bot.Graph.Clean.{IsClean, build_token_graph-IsClean}
use mev_bot.Graph.Steps.{HasEdge, IsTriangle, neighbors-HasEdge, IsSound, visit-IsSound}

module _ (F : FloatModel) (g : TokenGraph F) (max_cycles : ℤ) where
  over_third-IsSound :
      (a b : Text) (cs : List Text) (s : Search)
      → HasEdge F g a b
      → All (HasEdge F g b) cs
      → text_eq b a ≡ false
      → IsSound F g max_cycles s
      → IsSound F g max_cycles (over_third F g max_cycles a b cs s)
  unfolding over_third
  over_third-IsSound a b [] s ab h ne i = i
  over_third-IsSound a b (c ∷ cs) s ab h ne i =
      over_third-IsSound a b cs (visit F g max_cycles a b c s) ab h.1 ne
        (visit-IsSound F g max_cycles a b c s ab h.0 ne i)

  -- All the keys that the loops run over are ends of edges.
  sorted_keys-HasEdge :
      (a : Text) → IsClean g → All (HasEdge F g a) (sorted_keys F g max_cycles (neighbors F a g))
  sorted_keys-HasEdge a c =
      All-sort text_leb (HasEdge F g a) (keys F (neighbors F a g))
        (In-All (HasEdge F g a) (keys F (neighbors F a g)) (λ b m. neighbors-HasEdge F g a b c m))

  over_second-IsSound :
      (a : Text) (bs : List Text) (s : Search)
      → IsClean g
      → All (HasEdge F g a) bs
      → IsSound F g max_cycles s
      → IsSound F g max_cycles (over_second F g max_cycles a bs s)
  unfolding over_second
  over_second-IsSound a [] s c h i = i
  over_second-IsSound a (b ∷ bs) s c h i =
      over_second-IsSound a bs _ c h.1 (elim (Bool-cases (text_eq b a)) [
        | inl e ↦ rw e i
        | inr e ↦ rw e (
            over_third-IsSound a b (sorted_keys F g max_cycles (neighbors F b g)) s h.0
              (sorted_keys-HasEdge b c) e i)
      ])

  over_first-IsSound :
      (starts : List Text) (s : Search)
      → IsClean g
      → IsSound F g max_cycles s
      → IsSound F g max_cycles (over_first F g max_cycles starts s)
  unfolding over_first
  over_first-IsSound [] s c i = i
  over_first-IsSound (a ∷ starts) s c i = over_first-IsSound starts _ c (
      over_second-IsSound a (sorted_keys F g max_cycles (neighbors F a g)) s c
        (sorted_keys-HasEdge a c) i)

-- Every cycle that is found in a graph that was built from a universe of pairs is a triangle of it:
-- three different tokens with an edge from each to the next. No cycle is found twice, and no more of
-- them are found than allowed, or one if none is allowed.
pub find_tri_cycles_sound :
    (F : FloatModel) (universe : List (Row F)) (enabled : List Text) (bidirectional : Bool)
    (max_cycles max_start_tokens : ℤ)
    → All (IsTriangle F (build_token_graph F universe enabled bidirectional)) (
        find_tri_cycles F
          (build_token_graph F universe enabled bidirectional)
          max_cycles
          max_start_tokens)
      × IsDistinct (
          find_tri_cycles F
            (build_token_graph F universe enabled bidirectional)
            max_cycles
            max_start_tokens)
      × (length (
            find_tri_cycles F
              (build_token_graph F universe enabled bidirectional)
              max_cycles
              max_start_tokens)
          ≤ pos_part (max_ℤ (pos 1) max_cycles))
unfolding find_tri_cycles
find_tri_cycles_sound F universe enabled bidirectional max_cycles max_start_tokens =
    let g = build_token_graph F universe enabled bidirectional in
    let start : IsSound F g max_cycles (record { out = []; seen = []; stopped = false }) = record {
      triangles = tt;
      within = omega arith;
      room = λ n. ground arith;
      known = tt;
      distinct = tt;
    } in
    let i =
      over_first-IsSound F g max_cycles
        (take (pos_part (max_ℤ (pos 1) max_start_tokens)) (tokens F g)) _
        (build_token_graph-IsClean universe enabled bidirectional) start in
    (i.triangles, i.distinct, i.within)
