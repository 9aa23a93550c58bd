-- ===== src/Graph/Tests.antt =====
-- The triangles of a concrete universe.
use mev_bot.Base.{◌≡◌, ◌≤◌, refl, true, some, List, [], ◌∷◌, All, length}
use mev_bot.Base.Int.{pos}
use mev_bot.Base.Text.{Text, codes, text_eq, text_leb, strip, norm, member}
use mev_bot.Base.Dict.{get, put}
use mev_bot.Base.Float.Ints.{fin, int_floats}
use mev_bot.Base.Sort.{sort}
use mev_bot.Operator.{sorted_set, insert_once}
use mev_bot.Graph.{
  Row, build_token_graph, add_rows, add_row, add_edge, merge_edge, add_dexes, neighbors, edge,
  tokens, find_tri_cycles, over_first, over_second, over_third, visit, note_cycle, normalize_cycle,
  cycle_leb, cycle_eq,
}
use mev_bot.Graph.Distinct.{IsDistinct}
use mev_bot.Graph.Steps.{IsTriangle}
use mev_bot.Graph.Triangles.{find_tri_cycles_sound}

abbrev row : Text → Text → Row int_floats
row a b = record {
  token_in = some a;
  token_out = some b;
  sizes = [];
  liquidity_usd = fin (pos 0);
  metadata = [];
}

abbrev universe : List (Row int_floats)
universe =
    row (codes " A") (codes "B") ∷ row (codes "B") (codes "C") ∷ row (codes "C") (codes "A") ∷ []

find_tri_cycles_sound_example :
    All
      (IsTriangle int_floats (build_token_graph int_floats universe [] true))
      (find_tri_cycles int_floats (build_token_graph int_floats universe [] true) (pos 8) (pos 8))
    × IsDistinct
        (find_tri_cycles int_floats (build_token_graph int_floats universe [] true) (pos 8) (pos 8))
    × (length (
          find_tri_cycles int_floats
            (build_token_graph int_floats universe [] true)
            (pos 8)
            (pos 8))
        ≤ 8)
find_tri_cycles_sound_example = find_tri_cycles_sound int_floats universe [] true (pos 8) (pos 8)

-- Each direction of the triangle is found once.
both_directions :
    find_tri_cycles int_floats (build_token_graph int_floats universe [] true) (pos 8) (pos 8)
    ≡ record { a = codes "A"; b = codes "B"; c = codes "C" }
      ∷ record { a = codes "A"; b = codes "C"; c = codes "B" }
      ∷ []
unfolding find_tri_cycles over_first over_second over_third visit note_cycle normalize_cycle
    cycle_leb cycle_eq build_token_graph add_rows add_row add_edge merge_edge add_dexes neighbors
    edge tokens get put sort sorted_set insert_once text_eq text_leb strip norm member
both_directions = refl
