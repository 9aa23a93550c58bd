-- ===== src/Detectors/Xarb/Admitted.antt =====
-- The opportunities of bot/detectors/xarb_detector.py at the gate of core/risk_gates.py.
use mathlib.Core.Path.{subst}
use mev_bot.Base.{
  ℕ, zero, suc, ◌≡◌, refl, inl, inr, Bool, true, false, ◌&&◌, ◌||◌, not, Option, none, some, List,
  [], ◌∷◌, In, All, All-map, All-append, arith, is_empty, if◌then◌else◌, Option-cases, if_both,
}
use mev_bot.Base.Text.{Text}
use mev_bot.Base.Int.{ℤ, pos, leb_ℤ}
use mev_bot.Base.Float.{FloatModel, below}
use mev_bot.Gates.{
  Opportunity, RiskGateConfig, cheap_opportunity_gate, passed, any_nonpositive, text_or_empty,
}
use mev_bot.Sizing.{dedupe_positive}
use mev_bot.Detectors.{
  TradeRouter, MarketEvent, Item, Row, Cache, UniverseFile, missing, present, read_rows,
  load_universe, row_from, sizes_or_default, has_tokens, of_event, fresh,
}
use mev_bot.Detectors.Xarb.{
  XarbDetector, positive_sizes, row_of, scan_pair, scan_rows, on_event, screen, scan_best, min_liq,
}
use mev_bot.Detectors.Xarb.Scan.{Trade}
use mev_bot.Detectors.Xarb.Profits.{IsMade, IsProfitable, scan_pair-IsProfitable}

positive_sizes-IsPositive :
    (n : ℕ) (ss : List ℕ) → In n (positive_sizes ss) → leb_ℤ (pos n) (pos 0) ≡ false
unfolding positive_sizes
positive_sizes-IsPositive n [] m = absurd m
positive_sizes-IsPositive n (zero ∷ ss) m = positive_sizes-IsPositive n ss m
positive_sizes-IsPositive n (suc k ∷ ss) (inl e) = ground (arith, e)
positive_sizes-IsPositive n (suc k ∷ ss) (inr m) = positive_sizes-IsPositive n ss m

none_nonpositive :
    (ss : List ℤ) → All (λ s. leb_ℤ s (pos 0) ≡ false) ss → any_nonpositive ss ≡ false
none_nonpositive [] h = refl
none_nonpositive (s ∷ ss) h = rw h.0 (none_nonpositive ss h.1)

guarded :
    {A : Type 0} (b c : Bool) (x y : A)
    → (if b && c then some x else none) ≡ some y
    → (b ≡ true) × (x ≡ y)
guarded false c x y h = cc
guarded true false x y h = cc
guarded true true x y h = (refl, cc)

abbrev AtMostOne : {A : Type 0} → List A → Type 0
AtMostOne [] = Unit
AtMostOne (x ∷ []) = Unit
AtMostOne (x ∷ y ∷ xs) = ⊥

at_most_one :
    {A : Type 0} (xs : List A) (P : List A → Type 0)
    → P []
    → ((x : A) → xs ≡ x ∷ [] → P (x ∷ []))
    → AtMostOne xs
    → P xs
at_most_one [] P n o h = n
at_most_one (x ∷ []) P n o h = o x refl
at_most_one (x ∷ y ∷ xs) P n o h = absurd h

module _ (F : FloatModel) (cfg : RiskGateConfig F) where
  open F use {Float, at_most, at_most_trans, lit}

  -- The gate's thresholds are no stricter than those of a detector.
  pub record IsWithin (d : XarbDetector F) : Type 0 where
    pub edge : at_most cfg.min_edge_bps d.min_edge_bps ≡ true
    pub confidence : at_most cfg.min_confidence (lit 70 2) ≡ true

  -- A row with both of its tokens.
  abbrev pub IsNamed : Row F → Type 0
  IsNamed r = (is_empty r.token_in ≡ false) × (is_empty r.token_out ≡ false)

  gate_passed :
      (opp : Opportunity F)
      → at_most cfg.min_edge_bps opp.expected_edge_bps ≡ true
      → at_most cfg.min_confidence opp.confidence ≡ true
      → is_empty opp.size_candidates ≡ false
      → any_nonpositive opp.size_candidates ≡ false
      → is_empty (text_or_empty opp.constraints.token_in) ≡ false
      → is_empty (text_or_empty opp.constraints.token_out) ≡ false
      → cheap_opportunity_gate F opp cfg ≡ passed
  unfolding cheap_opportunity_gate
  gate_passed opp e c s p i o = rw (cheap_opportunity_gate, e, c, s, p, i, o) refl

  made_positive :
      (d : XarbDetector F) (router : TradeRouter F) (family chain network : Text) (row : Row F)
      (s : ℤ)
      → (t : Trade F) × IsMade F d router family chain network row t × (pos t.size ≡ s)
      → leb_ℤ s (pos 0) ≡ false
  made_positive d router family chain network row s (t, m, e) =
      subst (λ z. leb_ℤ z (pos 0) ≡ false) e
        (positive_sizes-IsPositive t.size row.sizes m.0.size_in)

  -- An opportunity of a row with tokens passes the gate.
  profitable_passed :
      (d : XarbDetector F) (router : TradeRouter F) (family chain network : Text) (row : Row F)
      (opp : Opportunity F)
      → IsWithin d
      → IsNamed row
      → IsProfitable F d router family chain network row opp
      → cheap_opportunity_gate F opp cfg ≡ passed
  profitable_passed d router family chain network row opp w n i =
      let (t, m, (e, dexes)) = i.best in
      gate_passed opp
        (at_most_trans cfg.min_edge_bps d.min_edge_bps opp.expected_edge_bps w.edge
          (subst (λ x. at_most d.min_edge_bps x ≡ true) e m.1))
        (rw i.confidence w.confidence) i.some_size
        (none_nonpositive opp.size_candidates (
          All-map _ _ opp.size_candidates (made_positive d router family chain network row)
            i.sizes))
        (rw i.tokens.0 n.0) (rw i.tokens.1 n.1)

  abbrev pub Admitted : List (Opportunity F) → Type 0
  Admitted opps = All (λ opp. cheap_opportunity_gate F opp cfg ≡ passed) opps

  scan_pair-AtMostOne :
      (d : XarbDetector F) (router : TradeRouter F) (family chain network : Text) (row : Row F)
      (now : Float) (stamp : Text)
      → AtMostOne (scan_pair F d router family chain network row now stamp)
  unfolding scan_pair
  scan_pair-AtMostOne d router family chain network row now stamp =
      if_both AtMostOne (below F row.liquidity_usd (min_liq F d router family chain network row)) tt
        (if_both AtMostOne (screen F d router family chain network row).0 tt (
          if_both AtMostOne
            (is_empty (scan_best F d router family chain network row).candidate_sizes
              || at_most (scan_best F d router family chain network row).best_edge F.neg_inf)
            tt tt))

  -- The opportunities of the scan of one row: none or one.
  scan_pair-cases :
      (d : XarbDetector F) (router : TradeRouter F) (family chain network : Text) (row : Row F)
      (now : Float) (stamp : Text) (P : List (Opportunity F) → Type 0)
      → P []
      → ((opp : Opportunity F)
          → scan_pair F d router family chain network row now stamp ≡ opp ∷ []
          → P (opp ∷ []))
      → P (scan_pair F d router family chain network row now stamp)
  scan_pair-cases d router family chain network row now stamp P n o =
      at_most_one (scan_pair F d router family chain network row now stamp) P n o
        (scan_pair-AtMostOne d router family chain network row now stamp)

  scan_pair-Admitted :
      (d : XarbDetector F) (router : TradeRouter F) (family chain network : Text) (row : Row F)
      (now : Float) (stamp : Text)
      → IsWithin d
      → IsNamed row
      → Admitted (scan_pair F d router family chain network row now stamp)
  scan_pair-Admitted d router family chain network row now stamp w n =
      scan_pair-cases d router family chain network row now stamp Admitted tt (λ opp e. (
        profitable_passed d router family chain network row opp w n
            (scan_pair-IsProfitable F d router family chain network row now stamp opp e),
        tt,
      ))

  scan_rows-Admitted :
      (d : XarbDetector F) (router : TradeRouter F) (event : MarketEvent) (now : Float)
      (stamp : Text) (rows : List (Row F))
      → IsWithin d
      → All IsNamed rows
      → Admitted (scan_rows F d router event now stamp rows)
  unfolding scan_rows
  scan_rows-Admitted d router event now stamp [] w n = tt
  scan_rows-Admitted d router event now stamp (r ∷ rs) w n =
      let rest = scan_rows-Admitted d router event now stamp rs w n.1 in
      if_both Admitted (of_event F event r)
        (All-append _ (scan_pair F d router event.family event.chain event.network r now stamp)
          (scan_rows F d router event now stamp rs)
          (scan_pair-Admitted d router event.family event.chain event.network r now stamp w n.0)
          rest)
        rest

  IsNamed-row :
      (d : XarbDetector F) (item : Item F) (r : Row F) → row_of F d item ≡ some r → IsNamed r
  unfolding row_of row_from
  IsNamed-row d item r h =
      let sizes : List ℕ = dedupe_positive (sizes_or_default F item.sizes) in
      let (tokens, same) =
        guarded (has_tokens F item) (not (is_empty sizes))
          (row_from F d.min_liquidity_usd item sizes) r h in
      subst IsNamed same (ground (arith, tokens), ground (arith, tokens))

  read_rows-IsNamed :
      (d : XarbDetector F) (items : List (Option (Item F)))
      → All IsNamed (read_rows F (row_of F d) items)
  unfolding read_rows
  read_rows-IsNamed d [] = tt
  read_rows-IsNamed d (none ∷ items) = read_rows-IsNamed d items
  read_rows-IsNamed d (some item ∷ items) =
      let rest = read_rows-IsNamed d items in
      elim (Option-cases (row_of F d item)) [
        | inl e ↦ rw e rest
        | inr (r, e) ↦ rw e (IsNamed-row d item r e, rest)
      ]

  -- The rows that are loaded, and those that are kept.
  load_universe-IsNamed :
      (d : XarbDetector F) (file : UniverseFile F) (c : Cache F)
      → All IsNamed c.rows
      → All IsNamed (load_universe F (row_of F d) file c).0
        × All IsNamed (load_universe F (row_of F d) file c).1.rows
  unfolding load_universe
  load_universe-IsNamed d missing c h = (tt, tt)
  load_universe-IsNamed d (present t items) c h =
      let named = read_rows-IsNamed d items in
      if_both {A = List (Row F) × Cache F} (λ x. All IsNamed x.0 × All IsNamed x.1.rows)
        (fresh F c t) (h, h) (named, named)

  -- Whatever the universe file holds, every opportunity that an event makes the detector find passes
  -- the cheap gate, if the gate's thresholds are no stricter than the detector's and the rows of its
  -- cache have both tokens; and the rows that it keeps have them again.
  pub on_event-Admitted :
      (d : XarbDetector F) (router : TradeRouter F) (file : UniverseFile F) (event : MarketEvent)
      (now : Float) (stamp : Text)
      → IsWithin d
      → All IsNamed d.cache.rows
      → Admitted (on_event F d router file event now stamp).0
        × All IsNamed (on_event F d router file event now stamp).1.cache.rows
  unfolding on_event
  on_event-Admitted d router file event now stamp w n =
      let loaded = load_universe-IsNamed d file d.cache n in
      let d' : XarbDetector F = record d {
        last_scan_ts = now;
        cache = (load_universe F (row_of F d) file d.cache).1;
      } in
      if_both {A = List (Opportunity F) × XarbDetector F}
        (λ x. Admitted x.0 × All IsNamed x.1.cache.rows)
        (below F (F.sub now d.last_scan_ts) d.scan_interval_s) (tt, n)
        (
          scan_rows-Admitted d' router event now stamp (load_universe F (row_of F d) file d.cache).0
              (record { edge = w.edge; confidence = w.confidence }) loaded.0,
          loaded.1,
        )
