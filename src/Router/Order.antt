-- ===== src/Router/Order.antt =====
-- The order of the quote table is total.
use mev_bot.Base.{◌≡◌, true, false, arith}
use mev_bot.Base.Text.{text_leb_total, text_leb_trans}
use mev_bot.Base.Float.{FloatModel}
use mev_bot.Router.{RouterQuoteResult, sort_score, ranks}

module _ (F : FloatModel) where
  open F use {at_most, at_most_total, at_most_trans}

  pub ranks_total : (a b : RouterQuoteResult F) → ranks F a b ≡ false → ranks F b a ≡ true
  unfolding ranks
  ranks_total a b h =
      ground (arith, at_most_total (sort_score F a) (sort_score F b), text_leb_total b.dex a.dex)

  pub ranks_trans :
      (a b c : RouterQuoteResult F) → ranks F a b ≡ true → ranks F b c ≡ true → ranks F a c ≡ true
  unfolding ranks
  ranks_trans a b c h k =
      let x = sort_score F a in
      let y = sort_score F b in
      let z = sort_score F c in
      ground (
        arith,
        at_most_trans x y z,
        at_most_trans z y x,
        at_most_trans y x z,
        at_most_trans x z y,
        at_most_trans z x y,
        at_most_trans y z x,
        at_most_total x y,
        at_most_total y z,
        at_most_total x z,
        text_leb_trans c.dex b.dex a.dex,
      )

  pub ranks_at_most :
      (a b : RouterQuoteResult F)
      → ranks F a b ≡ true
      → at_most (sort_score F b) (sort_score F a) ≡ true
  unfolding ranks
  ranks_at_most a b h = ground (arith, at_most_total (sort_score F a) (sort_score F b))
