-- ===== src/Graph.antt =====
-- The graph of the tokens and its triangles (bot/core/graph.py). Texts stand for the values that
-- `str` is applied to; a set is a list without repetitions.
pub mod Clean
pub mod Distinct
pub mod Steps
pub mod Triangles
mod Tests
use mev_bot.Base.{
  ℕ, Bool, true, false, not, ◌&&◌, ◌||◌, Option, none, some, List, [], ◌∷◌, ◌++◌, map, length, take,
  any, is_empty, if◌then◌else◌,
}
use mev_bot.Base.Int.{ℤ, pos, leb_ℤ, ltb_ℤ, max_ℤ, pos_part, eqb_ℤ}
use mev_bot.Base.Text.{Text, text_eq, text_leb, strip, norm, member}
use mev_bot.Base.Dict.{Dict, get, put}
use mev_bot.Base.Float.{FloatModel, fmax}
use mev_bot.Base.Sort.{sort}
use mev_bot.Gates.{text_or_empty}
use mev_bot.Operator.{sorted_set}

pub record GraphEdge (F : FloatModel) : Type 0 where
  pub src : Text
  pub dst : Text
  pub dexes : List Text
  pub sizes : List ℤ
  pub liquidity_usd : F.Float
  pub metadata : Dict Text

pub record TokenGraph (F : FloatModel) : Type 0 where
  pub adjacency : Dict (Dict (GraphEdge F))

-- `d.update(e)`
unfoldable pub update : Dict Text → Dict Text → Dict Text
unfolding put
update d [] = d
update d ((k, v) ∷ e) = update (put k v d) e

-- `s |= {x.strip().lower() for x in dexes if x.strip()}`
unfoldable pub add_dexes : List Text → List Text → List Text
unfolding member norm strip
add_dexes s [] = s
add_dexes s (x ∷ xs) =
    if is_empty (strip x) || member (norm x) s
    then add_dexes s xs
    else add_dexes (s ++ norm x ∷ []) xs

-- `sorted({…})` of integers
unfoldable pub insert_size : ℤ → List ℤ → List ℤ
insert_size x [] = x ∷ []
insert_size x (y ∷ ys) =
    if eqb_ℤ x y then y ∷ ys else if ltb_ℤ x y then x ∷ y ∷ ys else y ∷ insert_size x ys

-- `[int(y) for y in sizes if int(y) > 0]`, merged into the sizes of an edge.
unfoldable pub add_sizes : List ℤ → List ℤ → List ℤ
unfolding insert_size
add_sizes s [] = s
add_sizes s (y ∷ ys) = if ltb_ℤ (pos 0) y then add_sizes (insert_size y s) ys else add_sizes s ys

module _ (F : FloatModel) where
  open F use {Float, lit}

  abbrev pub node_or_empty : Option (Dict (GraphEdge F)) → Dict (GraphEdge F)
  node_or_empty none = []
  node_or_empty (some node) = node

  abbrev pub edge_or_new : Text → Text → Option (GraphEdge F) → GraphEdge F
  edge_or_new s d none = record {
    src = s;
    dst = d;
    dexes = [];
    sizes = [];
    liquidity_usd = lit 0 1;
    metadata = [];
  }
  edge_or_new s d (some e) = e

  -- What `add_edge` makes of an edge.
  unfoldable pub merge_edge : List Text → List ℤ → Float → Dict Text → GraphEdge F → GraphEdge F
  unfolding add_dexes add_sizes fmax update
  merge_edge dexes sizes liquidity metadata e = record e {
    dexes = add_dexes e.dexes dexes;
    sizes = add_sizes e.sizes sizes;
    liquidity_usd = fmax F e.liquidity_usd liquidity;
    metadata = update e.metadata metadata;
  }

  unfoldable pub add_edge :
      Text → Text → List Text → List ℤ → Float → Dict Text → TokenGraph F → TokenGraph F
  unfolding strip get put merge_edge
  add_edge src dst dexes sizes liquidity metadata g =
      let s = strip src in
      let d = strip dst in
      if is_empty s || is_empty d
      then g
      else let node = node_or_empty (get s g.adjacency) in
        let e = merge_edge dexes sizes liquidity metadata (edge_or_new s d (get d node)) in
        record g { adjacency = put s (put d e node) g.adjacency }

  unfoldable pub neighbors : Text → TokenGraph F → Dict (GraphEdge F)
  unfolding get strip
  neighbors token g = node_or_empty (get (strip token) g.adjacency)

  unfoldable pub edge : Text → Text → TokenGraph F → Option (GraphEdge F)
  unfolding get strip
  edge src dst g = get (strip dst) (node_or_empty (get (strip src) g.adjacency))

  abbrev pub keys {ℓ} : {V : Type ℓ} → Dict V → List Text
  keys [] = []
  keys ((k, v) ∷ d) = k ∷ keys d

  abbrev pub all_tokens : Dict (Dict (GraphEdge F)) → List Text
  all_tokens [] = []
  all_tokens ((k, node) ∷ adjacency) = k ∷ keys node ++ all_tokens adjacency

  unfoldable pub tokens : TokenGraph F → List Text
  unfolding sorted_set
  tokens g = sorted_set (all_tokens g.adjacency)

-- The keys of a row of the universe.
pub record Row (F : FloatModel) : Type 0 where
  pub token_in : Option Text
  pub token_out : Option Text
  pub sizes : List ℤ
  pub liquidity_usd : F.Float
  pub metadata : Dict Text

module _ (F : FloatModel) where
  open F use {Float}

  unfoldable pub add_row : List Text → Bool → Row F → TokenGraph F → TokenGraph F
  unfolding add_edge strip
  add_row enabled bidirectional row g =
      let a = strip (text_or_empty row.token_in) in
      let b = strip (text_or_empty row.token_out) in
      if is_empty a || is_empty b
      then g
      else let g' = add_edge F a b enabled row.sizes row.liquidity_usd row.metadata g in
        if bidirectional
        then add_edge F b a enabled row.sizes row.liquidity_usd row.metadata g'
        else g'

  unfoldable pub add_rows : List Text → Bool → List (Row F) → TokenGraph F → TokenGraph F
  unfolding add_row
  add_rows enabled bidirectional [] g = g
  add_rows enabled bidirectional (row ∷ rows) g =
      add_rows enabled bidirectional rows (add_row enabled bidirectional row g)

  unfoldable pub build_token_graph : List (Row F) → List Text → Bool → TokenGraph F
  unfolding add_rows add_dexes
  build_token_graph universe enabled_dexes bidirectional =
      add_rows (add_dexes [] enabled_dexes) bidirectional universe (record { adjacency = [] })

-- A triangle, from its least token on.
pub record Cycle : Type 0 where
  pub a : Text
  pub b : Text
  pub c : Text

-- The order of tuples.
unfoldable pub cycle_leb : Cycle → Cycle → Bool
unfolding text_eq text_leb
cycle_leb x y =
    if not (text_eq x.a y.a)
    then text_leb x.a y.a
    else if not (text_eq x.b y.b)
    then text_leb x.b y.b
    else text_leb x.c y.c

abbrev pub cycle_min : Cycle → Cycle → Cycle
cycle_min x y = if cycle_leb x y then x else y

unfoldable pub normalize_cycle : Text → Text → Text → Cycle
unfolding cycle_leb
normalize_cycle a b c =
    cycle_min (cycle_min (record { a = a; b = b; c = c }) (record { a = b; b = c; c = a }))
      (record { a = c; b = a; c = b })

unfoldable pub cycle_eq : Cycle → Cycle → Bool
unfolding text_eq
cycle_eq x y = text_eq x.a y.a && text_eq x.b y.b && text_eq x.c y.c

-- The variables of the search; `stopped` once it has returned.
pub record Search : Type 0 where
  pub out : List Cycle
  pub seen : List Cycle
  pub stopped : Bool

unfoldable pub note_cycle : ℤ → Cycle → Search → Search
unfolding cycle_eq
note_cycle max_cycles cyc s = if any (cycle_eq cyc) s.seen then s else record {
  out = s.out ++ cyc ∷ [];
  seen = cyc ∷ s.seen;
  stopped = leb_ℤ max_cycles (pos (length (s.out ++ cyc ∷ [])));
}

module _ (F : FloatModel) (g : TokenGraph F) (max_cycles : ℤ) where
  -- The body of the innermost loop, on what `graph.edge(c, a)` is.
  abbrev pub close_cycle : Text → Text → Text → Option (GraphEdge F) → Search → Search
  close_cycle a b c none s = s
  close_cycle a b c (some e) s = note_cycle max_cycles (normalize_cycle a b c) s

  unfoldable pub visit : Text → Text → Text → Search → Search
  unfolding edge note_cycle normalize_cycle text_eq
  visit a b c s =
      if s.stopped || text_eq c a || text_eq c b then s else close_cycle a b c (edge F c a g) s

  unfoldable pub over_third : Text → Text → List Text → Search → Search
  unfolding visit
  over_third a b [] s = s
  over_third a b (c ∷ cs) s = over_third a b cs (visit a b c s)

  -- `sorted(d.keys())`
  abbrev pub sorted_keys : Dict (GraphEdge F) → List Text
  sorted_keys d = sort text_leb (keys F d)

  unfoldable pub over_second : Text → List Text → Search → Search
  unfolding over_third neighbors sort text_leb text_eq
  over_second a [] s = s
  over_second a (b ∷ bs) s =
      over_second a bs (if text_eq b a then s else over_third a b (sorted_keys (neighbors F b g)) s)

  unfoldable pub over_first : List Text → Search → Search
  unfolding over_second neighbors sort text_leb
  over_first [] s = s
  over_first (a ∷ starts) s = over_first starts (over_second a (sorted_keys (neighbors F a g)) s)

  unfoldable pub find_tri_cycles : ℤ → List Cycle
  unfolding over_first tokens
  find_tri_cycles max_start_tokens =
      (over_first (take (pos_part (max_ℤ (pos 1) max_start_tokens)) (tokens F g))
        (record { out = []; seen = []; stopped = false })).out
