-- ===== src/Detectors/Triarb/Cycles.antt =====
-- What an opportunity of `TriArbDetector.on_event` (bot/detectors/triarb_detector.py) stands for.
use mathlib.Core.Path.{subst}
use mev_bot.Base.{
  ℕ, ◌≡◌, refl, sym, ap, inl, inr, Bool, true, false, Option, none, some, List, [], ◌∷◌, All, arith,
  if◌then◌else◌, Bool-cases, Option-cases, map,
}
use mev_bot.Base.Text.{Text, codes}
use mev_bot.Base.Int.{pos}
use mev_bot.Base.Float.{FloatModel, below}
use mev_bot.Router.{RouterSelection}
use mev_bot.Gates.{Opportunity}
use mev_bot.Graph.{Cycle, TokenGraph, build_token_graph}
use mev_bot.Graph.Steps.{IsTriangle}
use mev_bot.Graph.Triangles.{find_tri_cycles_sound}
use mev_bot.Firewall.{RiskDecision}
use mev_bot.Detectors.{MarketEvent, TradeRouter, Row}
use mev_bot.Detectors.Triarb.{
  TriArbDetector, Legs, quote_leg, first_leg, second_leg, third_leg, legs_of, edge_of, judge_legs,
  screen, pick_cycle_base, cycle_liquidity, opportunity_of, scan_cycle, scan_cycles, graph_row,
  or_unknown, cycles_of, scan_rows,
}

two_tests :
    {A : Type 0} (a b : Bool) (o : Option A) (x : A)
    → (if a then none else if b then none else o) ≡ some x
    → (a ≡ false) × ((b ≡ false) × (o ≡ some x))
two_tests true b o x h = cc
two_tests false true o x h = cc
two_tests false false o x h = (refl, (refl, h))

module _ (F : FloatModel) (d : TriArbDetector F) (router : TradeRouter F)
    (event : MarketEvent) where
  open F use {Float, at_most}

  -- Three routes along a triangle, each of what the one before it is expected to give.
  abbrev pub IsChained : Cycle → ℕ → Legs F → Type 0
  IsChained t base l =
      (quote_leg F d router event t.a t.b (pos base) ≡ some l.q1)
      × ((quote_leg F d router event t.b t.c l.q1.quote.expected_out ≡ some l.q2)
          × (quote_leg F d router event t.c t.a l.q2.quote.expected_out ≡ some l.q3))

  third_leg-IsLast :
      (t : Cycle) (q1 q2 : RouterSelection F) (o : Option (RouterSelection F)) (l : Legs F)
      → third_leg F d router event t q1 q2 o ≡ some l
      → (l.q1 ≡ q1) × ((l.q2 ≡ q2) × (o ≡ some l.q3))
  third_leg-IsLast t q1 q2 none l h = cc
  third_leg-IsLast t q1 q2 (some q3) l h =
      let e : l ≡ record { q1 = q1; q2 = q2; q3 = q3 } = cc in
      (ap (λ (x : Legs F). x.q1) e, (ap (λ (x : Legs F). x.q2) e, cc))

  second_leg-IsChained :
      (t : Cycle) (q1 : RouterSelection F) (o : Option (RouterSelection F)) (l : Legs F)
      → second_leg F d router event t q1 o ≡ some l
      → (l.q1 ≡ q1)
        × ((o ≡ some l.q2)
            × (quote_leg F d router event t.c t.a l.q2.quote.expected_out ≡ some l.q3))
  second_leg-IsChained t q1 none l h = cc
  second_leg-IsChained t q1 (some q2) l h =
      let (e, (k, m)) =
        third_leg-IsLast t q1 q2 (quote_leg F d router event t.c t.a q2.quote.expected_out) l h in
      (e, (ap some (sym k), rw k m))

  first_leg-IsChained :
      (t : Cycle) (o : Option (RouterSelection F)) (l : Legs F)
      → first_leg F d router event t o ≡ some l
      → (o ≡ some l.q1)
        × ((quote_leg F d router event t.b t.c l.q1.quote.expected_out ≡ some l.q2)
            × (quote_leg F d router event t.c t.a l.q2.quote.expected_out ≡ some l.q3))
  first_leg-IsChained t none l h = cc
  first_leg-IsChained t (some q1) l h =
      let (e, (k, m)) =
        second_leg-IsChained t q1 (quote_leg F d router event t.b t.c q1.quote.expected_out) l h in
      (ap some (sym e), (rw e k, m))

  legs_of-IsChained :
      (t : Cycle) (base : ℕ) (l : Legs F)
      → legs_of F d router event t base ≡ some l
      → IsChained t base l
  unfolding legs_of
  legs_of-IsChained t base l h =
      first_leg-IsChained t (quote_leg F d router event t.a t.b (pos base)) l h

  -- What an opportunity of a cycle stands for.
  pub record IsArbitrage (rows : List (Row F)) (t : Cycle) (opp : Opportunity F) : Type 0 where
    pub liquid : at_most d.min_liquidity_usd (cycle_liquidity F t rows) ≡ true
    pub cleared : (screen F d router event t (pick_cycle_base F t rows)).0 ≡ false
    pub legs : Legs F
    pub chained : IsChained t (pick_cycle_base F t rows) legs
    pub edge : opp.expected_edge_bps ≡ edge_of F d router event (pick_cycle_base F t rows) legs
    pub enough : at_most d.min_edge_bps opp.expected_edge_bps ≡ true
    pub kind : opp.kind ≡ codes "triarb"
    pub first : opp.constraints.token_in ≡ some t.a
    pub tokens : opp.constraints.path_tokens ≡ t.a ∷ t.b ∷ t.c ∷ t.a ∷ []
    pub dexes : opp.constraints.path_dexes ≡ legs.q1.dex ∷ legs.q2.dex ∷ legs.q3.dex ∷ []

  -- The tests that the body of the loop makes.
  scan_parts :
      (rows : List (Row F)) (now : Float) (stamp : Text) (t : Cycle) (opp : Opportunity F)
      → scan_cycle F d router event rows now stamp t ≡ some opp
      → (below F (cycle_liquidity F t rows) d.min_liquidity_usd ≡ false)
        × (((screen F d router event t (pick_cycle_base F t rows)).0 ≡ false)
            × (judge_legs F d router event t
                  (pick_cycle_base F t rows)
                  (screen F d router event t (pick_cycle_base F t rows)).1
                  now
                  stamp
                  (legs_of F d router event t (pick_cycle_base F t rows))
                ≡ some opp))
  unfolding scan_cycle
  scan_parts rows now stamp t opp h =
      two_tests (below F (cycle_liquidity F t rows) d.min_liquidity_usd)
        (screen F d router event t (pick_cycle_base F t rows)).0
        (judge_legs F d router event t (pick_cycle_base F t rows)
          (screen F d router event t (pick_cycle_base F t rows)).1 now stamp
          (legs_of F d router event t (pick_cycle_base F t rows)))
        opp h

  judge_legs-Some :
      (t : Cycle) (base : ℕ) (decision : RiskDecision) (now : Float) (stamp : Text)
      (o : Option (Legs F)) (opp : Opportunity F)
      → judge_legs F d router event t base decision now stamp o ≡ some opp
      → (l : Legs F) × (o ≡ some l)
        × ((at_most d.min_edge_bps (edge_of F d router event base l) ≡ true)
            × (opportunity_of F d router event t base decision now stamp l ≡ opp))
  judge_legs-Some t base decision now stamp none opp h = cc
  judge_legs-Some t base decision now stamp (some l) opp h =
      elim (Bool-cases (at_most d.min_edge_bps (edge_of F d router event base l))) [
        | inl e ↦ (l, refl, (e, cc (rw e at h)))
        | inr e ↦ cc (rw e at h)
      ]

  -- An opportunity of a cycle is liquid enough and cleared by the firewall; its packs are those of
  -- three chained routes along it, and its edge is theirs and reaches the minimum.
  pub scan_cycle-IsArbitrage :
      (rows : List (Row F)) (now : Float) (stamp : Text) (t : Cycle) (opp : Opportunity F)
      → scan_cycle F d router event rows now stamp t ≡ some opp
      → IsArbitrage rows t opp
  unfolding opportunity_of
  scan_cycle-IsArbitrage rows now stamp t opp h =
      let (l, (c, j)) = scan_parts rows now stamp t opp h in
      let (legs, e, (enough, same)) =
        judge_legs-Some t (pick_cycle_base F t rows)
          (screen F d router event t (pick_cycle_base F t rows)).1 now stamp
          (legs_of F d router event t (pick_cycle_base F t rows)) opp j in
      subst (IsArbitrage rows t) same (record {
        liquid = ground (arith, l);
        cleared = c;
        legs = legs;
        chained = legs_of-IsChained t (pick_cycle_base F t rows) legs e;
        edge = refl;
        enough = enough;
        kind = refl;
        first = refl;
        tokens = refl;
        dexes = refl;
      })

  abbrev Graph_of : List Text → List (Row F) → TokenGraph F
  Graph_of enabled rows = build_token_graph F (map (graph_row F) rows) (or_unknown F enabled) true

  -- An opportunity that stands for an arbitrage along a triangle of the rows' graph.
  abbrev pub IsTriangular : List Text → List (Row F) → Opportunity F → Type 0
  IsTriangular enabled rows opp =
      (t : Cycle) × IsTriangle F (Graph_of enabled rows) t × IsArbitrage rows t opp

  scan_cycles-IsTriangular :
      (enabled : List Text) (rows : List (Row F)) (now : Float) (stamp : Text) (ts : List Cycle)
      → All (IsTriangle F (Graph_of enabled rows)) ts
      → All (IsTriangular enabled rows) (scan_cycles F d router event rows now stamp ts)
  unfolding scan_cycles
  scan_cycles-IsTriangular enabled rows now stamp [] h = tt
  scan_cycles-IsTriangular enabled rows now stamp (t ∷ ts) h =
      let rest = scan_cycles-IsTriangular enabled rows now stamp ts h.1 in
      elim (Option-cases (scan_cycle F d router event rows now stamp t)) [
        | inl e ↦ rw e rest
        | inr (opp, e) ↦ rw e ((t, h.0, scan_cycle-IsArbitrage rows now stamp t opp e), rest)
      ]

  -- Every opportunity of a scan is an arbitrage along a triangle of the graph of the rows: its packs
  -- are those of three chained routes, each of what the one before it is expected to give, its edge is
  -- theirs and reaches the minimum, and the triangle is liquid enough and cleared by the firewall.
  pub scan_rows-IsTriangular :
      (enabled : List Text) (rows : List (Row F)) (now : Float) (stamp : Text)
      → All (IsTriangular enabled rows) (scan_rows F d router enabled event now stamp rows)
  unfolding scan_rows cycles_of
  scan_rows-IsTriangular enabled [] now stamp = tt
  scan_rows-IsTriangular enabled (r ∷ rs) now stamp =
      scan_cycles-IsTriangular enabled (r ∷ rs) now stamp (cycles_of F d enabled (r ∷ rs))
        (find_tri_cycles_sound F (map (graph_row F) (r ∷ rs)) (or_unknown F enabled) true
          d.max_cycles d.max_start_tokens).0
