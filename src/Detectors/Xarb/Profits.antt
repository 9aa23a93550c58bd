-- ===== src/Detectors/Xarb/Profits.antt =====
-- Which trade the opportunity of a scan stands for (bot/detectors/xarb_detector.py).
use mathlib.Core.Path.{subst}
use mev_bot.Base.{
  ℕ, ◌≡◌, ◌≢◌, ◌⊎◌, refl, sym, ap, inl, inr, Bool, true, false, some, List, [], ◌∷◌, ◌++◌, ◌||◌, In,
  All, All-append, All-map, arith, ◌<◌, length, length-append, is_empty, ltb, if◌then◌else◌,
  Bool-cases, Option-cases, map,
}
use mev_bot.Base.Text.{Text, codes, text_eq, text_eq_refl}
use mev_bot.Base.Int.{ℤ, pos}
use mev_bot.Base.Float.{FloatModel, below, at_most_refl}
use mev_bot.Dex.{Quote}
use mev_bot.Sizing.{sorted_set}
use mev_bot.Sizing.Best.{All-sorted_set, In-sorted_set}
use mev_bot.Gates.{Opportunity}
use mev_bot.Firewall.{Firewall, Metadata, Check, should_exclude, deny}
use mev_bot.Detectors.{TradeRouter, Row, firewall_of, no_metadata}
use mev_bot.Detectors.Xarb.{
  XarbDetector, Best, positive_sizes, good_of, sell_route, edge_of, note_edge, try_pair, no_best,
  scan_best, scan_pair, opportunity_of, screen, min_liq, sim_buy, sim_sell,
}
use mev_bot.Detectors.Xarb.Scan.{Trade, IsTrade, edge, over_sizes-keeps, over_sizes-reaches}

two_items :
    {A : Type 0} (f : A → Text) (x y : A) (xs : List A)
    → In x xs
    → In y xs
    → text_eq (f y) (f x) ≡ false
    → ltb (length xs) 2 ≡ false
two_items f x y [] m k h = absurd m
two_items f x y (z ∷ []) (inl e) (inl e') h = absurd (
    let same : x ≡ y = cc in
    let again : text_eq (f y) (f x) ≡ true = rw same (text_eq_refl (f y)) in cc)
two_items f x y (z ∷ []) (inr m) k h = absurd m
two_items f x y (z ∷ []) (inl e) (inr k) h = absurd k
two_items f x y (z ∷ w ∷ xs) m k h = ground arith

past_tests :
    {A : Type 0} (a b c c' : Bool) (x y : A)
    → (if a then [] else if b then [] else if c || c' then [] else x ∷ []) ≡ y ∷ []
    → (a ≡ false) × ((b ≡ false) × ((c ≡ false) × ((c' ≡ false) × (x ≡ y))))
past_tests true b c c' x y h = cc
past_tests false true c c' x y h = cc
past_tests false false true c' x y h = cc
past_tests false false false true x y h = cc
past_tests false false false false x y h = (refl, (refl, (refl, (refl, cc))))

pass_tests :
    {A : Type 0} (a b c c' : Bool) (x : A)
    → a ≡ false
    → b ≡ false
    → c ≡ false
    → c' ≡ false
    → (if a then [] else if b then [] else if c || c' then [] else x ∷ []) ≡ x ∷ []
pass_tests a b c c' x ea eb ec ec' = rw (ea, eb, ec, ec') refl

not_empty : {A : Type 0} (xs : List A) → 0 < length xs → is_empty xs ≡ false
not_empty [] h = absurd (omega arith)
not_empty (x ∷ xs) h = refl

In_some : {A : Type 0} (a : A) (xs : List A) → In a xs → is_empty xs ≡ false
In_some a [] m = absurd m
In_some a (x ∷ xs) m = refl

map_some :
    {A B : Type 0} (f : A → B) (xs : List A) → is_empty xs ≡ false → is_empty (map f xs) ≡ false
map_some f [] h = cc
map_some f (x ∷ xs) h = refl

sorted_some : (xs : List ℕ) → is_empty xs ≡ false → is_empty (map pos (sorted_set xs)) ≡ false
sorted_some [] h = cc
sorted_some (x ∷ xs) h =
    map_some pos (sorted_set (x ∷ xs))
      (In_some x (sorted_set (x ∷ xs)) (In-sorted_set x (x ∷ xs) (inl refl)))

not_denied :
    (fw : Firewall) (token pool : Text) (md : Metadata) (buy sell : Check)
    → (should_exclude fw token pool md buy sell).0 ≡ false
    → (should_exclude fw token pool md buy sell).1.classification ≢ deny
unfolding should_exclude
not_denied fw token pool md buy sell h e = cc (rw (should_exclude, e) at h)

module _ (F : FloatModel) (d : XarbDetector F) (router : TradeRouter F)
    (family chain network : Text) (row : Row F) where
  open F use {Float, at_most, at_most_total, at_most_trans, neg_inf}

  abbrev Edge : Trade F → Float
  Edge t = edge F d router family chain network row t

  abbrev pub IsMade : Trade F → Type 0
  IsMade t =
      IsTrade F d router family chain network row t × (at_most d.min_edge_bps (Edge t) ≡ true)

  -- The candidates are sizes of profitable trades, and the best is one of these.
  record IsNoted (b : Best F) : Type 0 where
    sizes : All (λ s. (t : Trade F) × IsMade t × (t.size ≡ s)) b.candidate_sizes
    best :
        (b.best_edge ≡ neg_inf)
        ⊎ ((t : Trade F) × IsMade t
            × ((Edge t ≡ b.best_edge) × ((t.buy.0, t.sell.0) ≡ b.best_pair)))

  -- The best edge is at least a bound, and there is a candidate.
  record IsAbove (v : Float) (b : Best F) : Type 0 where
    best : at_most v b.best_edge ≡ true
    some_size : 0 < length b.candidate_sizes

  note_edge-IsNoted :
      (t : Trade F) (b : Best F)
      → IsTrade F d router family chain network row t
      → IsNoted b
      → IsNoted (note_edge F d router family chain network row t.size t.buy.0 t.sell.0 (Edge t) b)
  unfolding note_edge
  note_edge-IsNoted t b m i = elim (Bool-cases (at_most d.min_edge_bps (Edge t))) [
    | inr e ↦ rw e i
    | inl e ↦ rw e (elim (Bool-cases (at_most (Edge t) b.best_edge)) [
      | inl k ↦ rw k (record {
        sizes = All-append _ b.candidate_sizes (t.size ∷ []) i.sizes ((t, (m, e), refl), tt);
        best = i.best;
      })
      | inr k ↦ rw k (record {
        sizes = All-append _ b.candidate_sizes (t.size ∷ []) i.sizes ((t, (m, e), refl), tt);
        best = inr (t, (m, e), (refl, refl));
      })
    ])
  ]

  note_edge-IsAbove :
      (v : Float) (size : ℕ) (buy sell : Text) (x : Float) (b : Best F)
      → IsAbove v b
      → IsAbove v (note_edge F d router family chain network row size buy sell x b)
  unfolding note_edge
  note_edge-IsAbove v size buy sell x b i = record {
    best = ground (arith, i.best, at_most_total x b.best_edge, at_most_trans v b.best_edge x);
    some_size = ground (arith, i.some_size, length-append b.candidate_sizes (size ∷ []));
  }

  note_edge-IsAbove' :
      (size : ℕ) (buy sell : Text) (x : Float) (b : Best F)
      → at_most d.min_edge_bps x ≡ true
      → IsAbove x (note_edge F d router family chain network row size buy sell x b)
  unfolding note_edge
  note_edge-IsAbove' size buy sell x b h = record {
    best = ground (arith, h, at_most_refl F x);
    some_size = ground (arith, h, length-append b.candidate_sizes (size ∷ []));
  }

  try_pair_trade :
      (t : Trade F) (b : Best F)
      → IsTrade F d router family chain network row t
      → try_pair F d router family chain network row t.size t.buy t.sell b
        ≡ note_edge F d router family chain network row t.size t.buy.0 t.sell.0 (Edge t) b
  unfolding try_pair
  try_pair_trade t b m = rw (m.apart, m.routed) refl

  try_pair-IsNoted :
      (size : ℕ) (buy sell : Text × Quote F) (b : Best F)
      → In size (positive_sizes row.sizes)
      → In buy (good_of F d router family chain network row size)
      → In sell (good_of F d router family chain network row size)
      → IsNoted b
      → IsNoted (try_pair F d router family chain network row size buy sell b)
  unfolding try_pair
  try_pair-IsNoted size buy sell b m k l i = elim (Bool-cases (text_eq sell.0 buy.0)) [
    | inl e ↦ rw e i
    | inr e ↦ rw e (elim (Option-cases (sell_route F d router family chain network row buy sell)) [
      | inl n ↦ rw n i
      | inr (sel, r) ↦ rw r (
          note_edge-IsNoted (record { size = size; buy = buy; sell = sell; sel = sel }) b
            (record { size_in = m; buy_in = k; sell_in = l; apart = e; routed = r }) i)
    ])
  ]

  try_pair-IsAbove :
      (v : Float) (size : ℕ) (buy sell : Text × Quote F) (b : Best F)
      → IsAbove v b
      → IsAbove v (try_pair F d router family chain network row size buy sell b)
  unfolding try_pair
  try_pair-IsAbove v size buy sell b i = elim (Bool-cases (text_eq sell.0 buy.0)) [
    | inl e ↦ rw e i
    | inr e ↦ rw e (elim (Option-cases (sell_route F d router family chain network row buy sell)) [
      | inl n ↦ rw n i
      | inr (sel, r) ↦ rw r (
          note_edge-IsAbove v size buy.0 sell.0
            (edge_of F d router family chain network row size buy sel) b i)
    ])
  ]

  abbrev Scanned : Best F
  Scanned = scan_best F d router family chain network row

  scan_best-IsNoted : IsNoted Scanned
  unfolding scan_best
  scan_best-IsNoted =
      over_sizes-keeps F d router family chain network row IsNoted (positive_sizes row.sizes)
        (no_best F d router family chain network row) try_pair-IsNoted
        (record { sizes = tt; best = inl refl })

  scan_best-IsAbove : (t : Trade F) → IsMade t → IsAbove (Edge t) Scanned
  unfolding scan_best
  scan_best-IsAbove t (m, e) =
      over_sizes-reaches F d router family chain network row (IsAbove (Edge t))
        (try_pair-IsAbove (Edge t)) t.size t.buy t.sell (positive_sizes row.sizes)
        (no_best F d router family chain network row)
        (λ b.
          subst (IsAbove (Edge t)) (sym (try_pair_trade t b m))
            (note_edge-IsAbove' t.size t.buy.0 t.sell.0 (Edge t) b e))
        m.size_in
        (two_items (λ x. x.0) t.buy t.sell (good_of F d router family chain network row t.size)
          m.buy_in m.sell_in m.apart)
        m.buy_in m.sell_in

  -- What an opportunity of the scan of a row stands for.
  pub record IsProfitable (opp : Opportunity F) : Type 0 where
    pub liquid : at_most (min_liq F d router family chain network row) row.liquidity_usd ≡ true
    pub some_size : is_empty opp.size_candidates ≡ false
    pub tokens :
        (opp.constraints.token_in ≡ some row.token_in)
        × (opp.constraints.token_out ≡ some row.token_out)
    pub confidence : opp.confidence ≡ F.lit 70 2
    pub cleared : (screen F d router family chain network row).1.classification ≢ deny
    pub best :
        (t : Trade F) × IsMade t
        × ((Edge t ≡ opp.expected_edge_bps)
            × ((some t.buy.0 ≡ opp.constraints.best_dex)
                × (some t.sell.0 ≡ opp.constraints.sell_dex)))
    pub highest : (t : Trade F) → IsMade t → at_most (Edge t) opp.expected_edge_bps ≡ true
    pub sizes : All (λ s. (t : Trade F) × IsMade t × (pos t.size ≡ s)) opp.size_candidates

  scan_parts :
      (now : Float) (stamp : Text) (opp : Opportunity F)
      → scan_pair F d router family chain network row now stamp ≡ opp ∷ []
      → (below F row.liquidity_usd (min_liq F d router family chain network row) ≡ false)
        × (((screen F d router family chain network row).0 ≡ false)
            × ((is_empty Scanned.candidate_sizes ≡ false)
                × ((at_most Scanned.best_edge neg_inf ≡ false)
                    × (opportunity_of F d router family chain network row
                          (screen F d router family chain network row).1
                          now
                          stamp
                          Scanned
                        ≡ opp))))
  unfolding scan_pair
  scan_parts now stamp opp h =
      past_tests (below F row.liquidity_usd (min_liq F d router family chain network row))
        (screen F d router family chain network row).0 (is_empty Scanned.candidate_sizes)
        (at_most Scanned.best_edge neg_inf)
        (opportunity_of F d router family chain network row
          (screen F d router family chain network row).1 now stamp Scanned)
        opp h

  screen-Cleared :
      (screen F d router family chain network row).0 ≡ false
      → (screen F d router family chain network row).1.classification ≢ deny
  unfolding screen
  screen-Cleared h =
      not_denied (firewall_of d.firewalls chain) row.token_in
        (row.token_in ++ codes "->" ++ row.token_out) no_metadata
        (sim_buy F d router family chain network row) (sim_sell F d router family chain network row)
        h

  All-map_pos : (P : ℤ → Type 0) (xs : List ℕ) → All (λ s. P (pos s)) xs → All P (map pos xs)
  All-map_pos P [] h = tt
  All-map_pos P (x ∷ xs) h = (h.0, All-map_pos P xs h.1)

  best_made :
      (b : Best F)
      → at_most b.best_edge neg_inf ≡ false
      → IsNoted b
      → (t : Trade F) × IsMade t × ((Edge t ≡ b.best_edge) × ((t.buy.0, t.sell.0) ≡ b.best_pair))
  best_made b h i = elim i.best [
    | inl e ↦ absurd (let l = at_most_refl F neg_inf in cc (rw e at h))
    | inr found ↦ found
  ]

  made_sizes :
      (b : Best F)
      → IsNoted b
      → All
          (λ s. (t : Trade F) × IsMade t × (pos t.size ≡ s))
          (map pos (sorted_set b.candidate_sizes))
  made_sizes b i =
      All-map_pos (λ s. (t : Trade F) × IsMade t × (pos t.size ≡ s)) (sorted_set b.candidate_sizes)
        (All-sorted_set (λ s. (t : Trade F) × IsMade t × (pos t.size ≡ pos s)) b.candidate_sizes
          (All-map _ _ b.candidate_sizes (λ s (t, m, e). (t, m, ap pos e)) i.sizes))

  scanned-IsProfitable :
      (now : Float) (stamp : Text)
      → below F row.liquidity_usd (min_liq F d router family chain network row) ≡ false
      → (screen F d router family chain network row).0 ≡ false
      → is_empty Scanned.candidate_sizes ≡ false
      → at_most Scanned.best_edge neg_inf ≡ false
      → IsProfitable (
          opportunity_of F d router family chain network row
            (screen F d router family chain network row).1
            now
            stamp
            Scanned)
  unfolding opportunity_of
  scanned-IsProfitable now stamp l c some_size h =
      let (t, m, (e, pair)) = best_made Scanned h scan_best-IsNoted in
      record {
        liquid = ground arith;
        some_size = sorted_some Scanned.candidate_sizes some_size;
        tokens = (refl, refl);
        confidence = refl;
        cleared = screen-Cleared c;
        best = (t, m, (e, (ap (λ p. some p.0) pair, ap (λ p. some p.1) pair)));
        highest = λ t' m'. (scan_best-IsAbove t' m').best;
        sizes = made_sizes Scanned scan_best-IsNoted;
      }

  -- An opportunity of a scan is liquid enough and not denied by the firewall; its edge and its packs
  -- are those of a trade of the scan, whose edge reaches the minimum and is the highest of all the
  -- trades that do; and its sizes are those of such trades.
  pub scan_pair-IsProfitable :
      (now : Float) (stamp : Text) (opp : Opportunity F)
      → scan_pair F d router family chain network row now stamp ≡ opp ∷ []
      → IsProfitable opp
  scan_pair-IsProfitable now stamp opp h =
      let (l, (c, (some_size, (finite, same)))) = scan_parts now stamp opp h in
      subst IsProfitable same (scanned-IsProfitable now stamp l c some_size finite)

  -- A scan of a row that is liquid enough and not denied misses no trade whose edge reaches the minimum
  -- and is more than -inf.
  pub scan_pair_complete :
      (now : Float) (stamp : Text) (t : Trade F)
      → at_most (min_liq F d router family chain network row) row.liquidity_usd ≡ true
      → (screen F d router family chain network row).0 ≡ false
      → IsMade t
      → at_most (Edge t) neg_inf ≡ false
      → (opp : Opportunity F) × (scan_pair F d router family chain network row now stamp ≡ opp ∷ [])
        × (at_most (Edge t) opp.expected_edge_bps ≡ true)
  unfolding scan_pair opportunity_of
  scan_pair_complete now stamp t l c m f =
      let above = scan_best-IsAbove t m in
      let finite : at_most Scanned.best_edge neg_inf ≡ false =
        elim (Bool-cases (at_most Scanned.best_edge neg_inf)) [
          | inr e ↦ e
          | inl e ↦
              absurd (let g = at_most_trans (Edge t) Scanned.best_edge neg_inf above.best e in cc)
        ] in
      (
        opportunity_of F d router family chain network row
            (screen F d router family chain network row).1 now stamp Scanned,
        pass_tests (below F row.liquidity_usd (min_liq F d router family chain network row))
            (screen F d router family chain network row).0 (is_empty Scanned.candidate_sizes)
            (at_most Scanned.best_edge neg_inf)
            (opportunity_of F d router family chain network row
              (screen F d router family chain network row).1 now stamp Scanned)
            (rw l refl) c (not_empty Scanned.candidate_sizes above.some_size) finite,
        above.best,
      )
