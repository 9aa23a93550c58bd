-- ===== src/Router/Selection.antt =====
-- What `TradeRouter.route` (bot/core/router.py) selects.
use mathlib.Core.Path.{subst}
use mev_bot.Base.{
  ◌↔◌, suc, ◌≡◌, refl, sym, ap, ◌∙◌, inl, inr, true, Option, none, some, List, [], ◌∷◌, All,
  All-map, All-In, In-All, In, length, Option-cases,
}
use mev_bot.Base.Text.{Text}
use mev_bot.Base.Float.{FloatModel, at_most_refl}
use mev_bot.Base.Sort.{IsSorted, sort-IsSorted, All-sort, In-sort, length-sort}
use mev_bot.Dex.{TradeIntent, Quote}
use mev_bot.Router.{
  Answer, quoted, pack_not_found, quote_timeout, raised, RouterQuoteResult, RouterSelection,
  quote_result, usable, score_quote, sort_score, ranks, results, arb_scan, select, route,
  eligible_pack_names,
}
use mev_bot.Router.Order.{ranks_total, ranks_trans, ranks_at_most}

module _ (F : FloatModel) where
  open F use {Float, at_most}

  -- A result that cannot be used, or whose quote scores no more than the bound.
  abbrev Beaten : Float → Option (Quote F) → Type 0
  Beaten v none = Unit
  Beaten v (some q) = at_most (score_quote F q) v ≡ true

  Beaten-of :
      (x : RouterQuoteResult F) (v : Float)
      → at_most (sort_score F x) v ≡ true
      → Beaten v (usable F x)
  unfolding sort_score
  Beaten-of x v h = elim (Option-cases (usable F x)) [
    | inl e ↦ rw e tt
    | inr (q, e) ↦ rw e (rw (sort_score, e) at h)
  ]

  sort_score-usable :
      (r : RouterQuoteResult F) (q : Quote F)
      → usable F r ≡ some q
      → sort_score F r ≡ score_quote F q
  unfolding sort_score
  sort_score-usable r q e = rw (e, sort_score)

  select_top :
      (table rs : List (RouterQuoteResult F)) (sel : RouterSelection F)
      → IsSorted (ranks F) rs
      → select F table rs ≡ some sel
      → All (λ r. Beaten (score_quote F sel.quote) (usable F r)) rs
  select_top table [] sel s h = tt
  select_top table (r ∷ rs) sel s h = elim (Option-cases (usable F r)) [
    | inl e ↦ (rw e tt, select_top table rs sel s.1 (rw (e, select) at h))
    | inr (q, e) ↦
        let first : q ≡ sel.quote = cc (rw (e, select) at h) in
        let score : sort_score F r ≡ score_quote F sel.quote =
          sort_score-usable r q e ∙ ap (score_quote F) first in
        (
          rw e (rw first (at_most_refl F (score_quote F sel.quote))),
          All-map _ _ rs
              (λ x k. Beaten-of x (score_quote F sel.quote) (rw score at (ranks_at_most F r x k)))
              s.0,
        )
  ]

  -- A usable result with the selected name and quote stands in the list.
  select_found :
      (P : RouterQuoteResult F → Type 0) (table rs : List (RouterQuoteResult F))
      (sel : RouterSelection F)
      → All P rs
      → select F table rs ≡ some sel
      → (r : RouterQuoteResult F) × P r
        × (r.dex ≡ sel.dex)
        × (usable F r ≡ some sel.quote)
        × (sel.quote_table ≡ table)
  select_found P table [] sel p h = cc
  select_found P table (r ∷ rs) sel p h = elim (Option-cases (usable F r)) [
    | inl e ↦ select_found P table rs sel p.1 (rw (e, select) at h)
    | inr (q, e) ↦
        let same : some (record { dex = r.dex; quote = q; quote_table = table }) ≡ some sel =
          rw (e, select) at h in
        (r, p.0, cc same, e ∙ ap some (cc same), cc same)
  ]

  select-none :
      (table rs : List (RouterQuoteResult F))
      → select F table rs ≡ none
      → All (λ r. usable F r ≡ none) rs
  select-none table [] h = tt
  select-none table (r ∷ rs) h = elim (Option-cases (usable F r)) [
    | inl e ↦ (e, select-none table rs (rw (e, select) at h))
    | inr (q, e) ↦ cc (rw (e, select) at h)
  ]

  module _ (answer : Text → Answer F) where
    -- The result of a pack that was asked.
    abbrev FromPack : List Text → RouterQuoteResult F → Type 0
    FromPack names r = (n : Text) × In n names × (r ≡ quote_result F n (answer n))

    results-FromPack :
        (names all : List Text)
        → ((n : Text) → In n names → In n all)
        → All (FromPack all) (results F answer names)
    results-FromPack [] all f = tt
    results-FromPack (n ∷ ns) all f =
        ((n, f n (inl refl), refl), results-FromPack ns all (λ m k. f m (inr k)))

    In-results :
        (n : Text) (names : List Text)
        → In n names
        → In (quote_result F n (answer n)) (results F answer names)
    In-results n [] m = absurd m
    In-results n (x ∷ xs) (inl e) = inl (rw e refl)
    In-results n (x ∷ xs) (inr m) = inr (In-results n xs m)

    length-results : (names : List Text) → length (results F answer names) ≡ length names
    length-results [] = refl
    length-results (n ∷ ns) = ap suc (length-results ns)

    quote_result-dex : (n : Text) (a : Answer F) → (quote_result F n a).dex ≡ n
    unfolding quote_result
    quote_result-dex n (quoted q) = refl
    quote_result-dex n pack_not_found = refl
    quote_result-dex n quote_timeout = refl
    quote_result-dex n (raised e) = refl

    quote_result-quoted :
        (n : Text) (a : Answer F) (q : Quote F)
        → usable F (quote_result F n a) ≡ some q
        → a ≡ quoted q
    unfolding quote_result
    quote_result-quoted n (quoted p) q h = cc
    quote_result-quoted n pack_not_found q h = cc
    quote_result-quoted n quote_timeout q h = cc
    quote_result-quoted n (raised e) q h = cc

    -- A usable result comes from a pack that quoted.
    FromPack-quoted :
        (names : List Text) (r : RouterQuoteResult F) (d : Text) (q : Quote F)
        → FromPack names r
        → r.dex ≡ d
        → usable F r ≡ some q
        → In d names × (answer d ≡ quoted q)
    FromPack-quoted names r d q (n, m, e) own use_of =
        let same : n ≡ d = sym (quote_result-dex n (answer n)) ∙ ap (λ x. x.dex) (sym e) ∙ own in
        let got : answer n ≡ quoted q =
          quote_result-quoted n (answer n) q (ap (usable F) (sym e) ∙ use_of) in
        (subst (λ x. In x names) same m, subst (λ x. answer x ≡ quoted q) same got)

    -- A quote of the selection's or a lower score.
    abbrev pub AtMostScore : Quote F → Answer F → Type 0
    AtMostScore best (quoted q) = at_most (score_quote F q) (score_quote F best) ≡ true
    AtMostScore best pack_not_found = Unit
    AtMostScore best quote_timeout = Unit
    AtMostScore best (raised e) = Unit

    Beaten-AtMostScore :
        (n : Text) (a : Answer F) (best : Quote F)
        → Beaten (score_quote F best) (usable F (quote_result F n a))
        → AtMostScore best a
    unfolding quote_result
    Beaten-AtMostScore n (quoted q) best h = h
    Beaten-AtMostScore n pack_not_found best h = tt
    Beaten-AtMostScore n quote_timeout best h = tt
    Beaten-AtMostScore n (raised e) best h = tt

    table-FromPack :
        (enabled : List Text) (intent : TradeIntent)
        → All (FromPack (eligible_pack_names enabled intent)) (arb_scan F enabled answer intent)
    unfolding arb_scan
    table-FromPack enabled intent =
        let names = eligible_pack_names enabled intent in
        All-sort (ranks F) _ _ (results-FromPack names names (λ n m. m))

    In-table :
        (enabled : List Text) (intent : TradeIntent) (n : Text)
        → In n (eligible_pack_names enabled intent)
        → In (quote_result F n (answer n)) (arb_scan F enabled answer intent)
    unfolding arb_scan
    In-table enabled intent n m = In-sort (ranks F) _ _ (In-results n _ m)

    table-IsSorted :
        (enabled : List Text) (intent : TradeIntent)
        → IsSorted (ranks F) (arb_scan F enabled answer intent)
    unfolding arb_scan
    table-IsSorted enabled intent = sort-IsSorted (ranks F) (ranks_total F) (ranks_trans F) _

    -- A route's selection is one that an eligible pack really quoted, and no eligible pack quoted
    -- one of a higher score. Its table is the whole scan.
    pub route_best :
        (enabled : List Text) (intent : TradeIntent) (sel : RouterSelection F)
        → route F enabled answer intent ≡ some sel
        → In sel.dex (eligible_pack_names enabled intent)
          × (answer sel.dex ≡ quoted sel.quote)
          × All (λ n. AtMostScore sel.quote (answer n)) (eligible_pack_names enabled intent)
          × (sel.quote_table ≡ arb_scan F enabled answer intent)
    unfolding route
    route_best enabled intent sel h =
        let names = eligible_pack_names enabled intent in
        let table = arb_scan F enabled answer intent in
        let (r, p, own, use_of, all) =
          select_found (FromPack names) table table sel (table-FromPack enabled intent) h in
        let (m, got) = FromPack-quoted names r sel.dex sel.quote p own use_of in
        let top = select_top table table sel (table-IsSorted enabled intent) h in
        (
          m,
          got,
          In-All _ names (λ n k.
              Beaten-AtMostScore n (answer n) sel.quote
                (All-In _ table _ top (In-table enabled intent n k))),
          all,
        )

    route-none-unquoted :
        (enabled : List Text) (intent : TradeIntent)
        → route F enabled answer intent ≡ none
        → (n : Text) (q : Quote F) → In n (eligible_pack_names enabled intent)
        → ¬ (answer n ≡ quoted q)
    unfolding route quote_result
    route-none-unquoted enabled intent h n q m e =
        let table = arb_scan F enabled answer intent in
        let unusable : usable F (quote_result F n (answer n)) ≡ none =
          All-In (λ r. usable F r ≡ none) table _ (select-none table table h)
            (In-table enabled intent n m) in
        cc (rw (e, quote_result) at unusable)

    -- The router gives no route exactly when no eligible pack quoted in time.
    pub route-none_iff :
        (enabled : List Text) (intent : TradeIntent)
        → (route F enabled answer intent ≡ none) ↔ (
            (n : Text) (q : Quote F)
            → In n (eligible_pack_names enabled intent)
            → ¬ (answer n ≡ quoted q))
    route-none_iff enabled intent = (
      route-none-unquoted enabled intent,
      λ f. elim (Option-cases (route F enabled answer intent)) [
        | inl e ↦ e
        | inr (sel, e) ↦
            let (m, got, all, table) = route_best enabled intent sel e in
            absurd (f sel.dex sel.quote m got)
      ],
    )

    -- The table of a scan has one result for each eligible pack.
    pub length-arb_scan :
        (enabled : List Text) (intent : TradeIntent)
        → length (arb_scan F enabled answer intent) ≡ length (eligible_pack_names enabled intent)
    unfolding arb_scan
    length-arb_scan enabled intent =
        let names = eligible_pack_names enabled intent in
        length-sort (ranks F) (results F answer names) ∙ length-results names
