-- ===== src/Graph/Clean.antt =====
-- The tokens of the graphs that `add_edge` and `build_token_graph` (bot/core/graph.py) build.
use mev_bot.Base.{
  ◌≡◌, refl, Bool, ◌||◌, some, List, [], ◌∷◌, All, In, inl, inr, is_empty, Bool-cases, Option-cases,
  if_both,
}
use mev_bot.Base.Int.{ℤ}
use mev_bot.Base.Text.{Text, text_eq, text_eq→eq, text_eq_refl, strip}
use mev_bot.Base.Strip.{strip-strip}
use mev_bot.Base.Dict.{Dict, get, put}
use mev_bot.Base.Float.{FloatModel}
use mev_bot.Gates.{text_or_empty}
use mev_bot.Graph.{
  GraphEdge, TokenGraph, node_or_empty, edge_or_new, merge_edge, add_edge, neighbors, keys, Row,
  add_row, add_rows, build_token_graph, add_dexes,
}

module _ {V : Type 0} (P : Text → V → Type 0) where
  put-All :
      (k : Text) (v : V) (d : Dict V)
      → P k v
      → All (λ kv. P kv.0 kv.1) d
      → All (λ kv. P kv.0 kv.1) (put k v d)
  unfolding put
  put-All k v [] p h = (p, tt)
  put-All k v ((j, w) ∷ d) p h = elim (Bool-cases (text_eq j k)) [
    | inl e ↦ rw e ((rw (text_eq→eq j k e) p, h.1))
    | inr e ↦ rw e (h.0, put-All k v d p h.1)
  ]

  get-All : (k : Text) (v : V) (d : Dict V) → All (λ kv. P kv.0 kv.1) d → get k d ≡ some v → P k v
  unfolding get
  get-All k v [] h e = cc
  get-All k v ((j, w) ∷ d) h e = elim (Bool-cases (text_eq j k)) [
    | inl t ↦ let same : w ≡ v = cc (rw t at e) in rw (← same) (rw (← text_eq→eq j k t) h.0)
    | inr t ↦ get-All k v d h.1 (rw t at e)
  ]

module _ {F : FloatModel} where
  abbrev pub CleanNode : Dict (GraphEdge F) → Type 0
  CleanNode node = All (λ kv. strip kv.0 ≡ kv.0) node

  -- Every token of the graph is stripped.
  abbrev pub IsClean : TokenGraph F → Type 0
  IsClean g = All (λ kv. (strip kv.0 ≡ kv.0) × CleanNode kv.1) g.adjacency

  node_or_empty-CleanNode :
      (k : Text) (g : TokenGraph F) → IsClean g → CleanNode (node_or_empty F (get k g.adjacency))
  node_or_empty-CleanNode k g h = elim (Option-cases (get k g.adjacency)) [
    | inl e ↦ rw e tt
    | inr (node, e) ↦ rw e (get-All (λ j n. (strip j ≡ j) × CleanNode n) k node g.adjacency h e).1
  ]

  pub neighbors-CleanNode : (t : Text) (g : TokenGraph F) → IsClean g → CleanNode (neighbors F t g)
  unfolding neighbors
  neighbors-CleanNode t g h = node_or_empty-CleanNode (strip t) g h

  pub add_edge-IsClean :
      (src dst : Text) (dexes : List Text) (sizes : List ℤ) (liquidity : F.Float)
      (metadata : Dict Text) (g : TokenGraph F)
      → IsClean g
      → IsClean (add_edge F src dst dexes sizes liquidity metadata g)
  unfolding add_edge
  add_edge-IsClean src dst dexes sizes liquidity metadata g h =
      let s = strip src in
      let d = strip dst in
      let node = node_or_empty F (get s g.adjacency) in
      let e = merge_edge F dexes sizes liquidity metadata (edge_or_new F s d (get d node)) in
      if_both IsClean (is_empty s || is_empty d) h (
        put-All (λ j n. (strip j ≡ j) × CleanNode n) s (put d e node) g.adjacency
          (
            strip-strip src,
            put-All (λ j v. strip j ≡ j) d e node (strip-strip dst) (node_or_empty-CleanNode s g h),
          )
          h)

  add_row-IsClean :
      (enabled : List Text) (both : Bool) (row : Row F) (g : TokenGraph F)
      → IsClean g
      → IsClean (add_row F enabled both row g)
  unfolding add_row
  add_row-IsClean enabled both row g h =
      let a = strip (text_or_empty row.token_in) in
      let b = strip (text_or_empty row.token_out) in
      let one = add_edge-IsClean a b enabled row.sizes row.liquidity_usd row.metadata g h in
      if_both IsClean (is_empty a || is_empty b) h (
        if_both IsClean both
          (add_edge-IsClean b a enabled row.sizes row.liquidity_usd row.metadata _ one) one)

  add_rows-IsClean :
      (enabled : List Text) (both : Bool) (rows : List (Row F)) (g : TokenGraph F)
      → IsClean g
      → IsClean (add_rows F enabled both rows g)
  unfolding add_rows
  add_rows-IsClean enabled both [] g h = h
  add_rows-IsClean enabled both (row ∷ rows) g h =
      add_rows-IsClean enabled both rows (add_row F enabled both row g)
        (add_row-IsClean enabled both row g h)

  pub build_token_graph-IsClean :
      (rows : List (Row F)) (enabled : List Text) (both : Bool)
      → IsClean (build_token_graph F rows enabled both)
  unfolding build_token_graph
  build_token_graph-IsClean rows enabled both =
      add_rows-IsClean (add_dexes [] enabled) both rows (record { adjacency = [] }) tt

  pub keys-get :
      (k : Text) (d : Dict (GraphEdge F)) → In k (keys F d) → (v : GraphEdge F) × (get k d ≡ some v)
  unfolding get
  keys-get k [] h = absurd h
  keys-get k ((j, w) ∷ d) h = elim (Bool-cases (text_eq j k)) [
    | inl e ↦ (w, rw e refl)
    | inr e ↦
        let later : In k (keys F d) = elim h [
          | inl same ↦ cc (rw (← same, text_eq_refl k) at e)
          | inr m ↦ m
        ] in
        ((keys-get k d later).0, rw e (keys-get k d later).1)
  ]

  pub keys-strip : (k : Text) (d : Dict (GraphEdge F)) → CleanNode d → In k (keys F d) → strip k ≡ k
  keys-strip k [] c h = absurd h
  keys-strip k ((j, w) ∷ d) c (inl e) = rw e c.0
  keys-strip k ((j, w) ∷ d) c (inr m) = keys-strip k d c.1 m
