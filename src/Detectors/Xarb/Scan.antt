-- ===== src/Detectors/Xarb/Scan.antt =====
-- The loops of `_scan_pair` (bot/detectors/xarb_detector.py): what each of their steps keeps holds at
-- their end, and every trade is tried.
use mev_bot.Base.{
  ℕ, ◌≡◌, refl, sym, inl, inr, false, some, List, [], ◌∷◌, In, length, ltb, if◌then◌else◌, if_both,
}
use mev_bot.Base.Text.{Text, text_eq}
use mev_bot.Base.Float.{FloatModel}
use mev_bot.Dex.{Quote}
use mev_bot.Router.{RouterSelection}
use mev_bot.Detectors.{TradeRouter, Row}
use mev_bot.Detectors.Xarb.{
  XarbDetector, Best, positive_sizes, good_of, sell_route, edge_of, try_pair, over_sells, over_buys,
  over_sizes,
}

-- A purchase at one pack and a sale of the proceeds at another.
pub record Trade (F : FloatModel) : Type 0 where
  pub size : ℕ
  pub buy : Text × Quote F
  pub sell : Text × Quote F
  pub sel : RouterSelection F

module _ (F : FloatModel) (d : XarbDetector F) (router : TradeRouter F)
    (family chain network : Text) (row : Row F) where
  open F use {Float, at_most, at_most_total, at_most_trans, neg_inf}

  abbrev good : ℕ → List (Text × Quote F)
  good size = good_of F d router family chain network row size

  abbrev tried : ℕ → Text × Quote F → Text × Quote F → Best F → Best F
  tried size buy sell b = try_pair F d router family chain network row size buy sell b

  abbrev pub edge : Trade F → Float
  edge t = edge_of F d router family chain network row t.size t.buy t.sel

  -- The trades that a scan of the row can make.
  pub record IsTrade (t : Trade F) : Type 0 where
    pub size_in : In t.size (positive_sizes row.sizes)
    pub buy_in : In t.buy (good t.size)
    pub sell_in : In t.sell (good t.size)
    pub apart : text_eq t.sell.0 t.buy.0 ≡ false
    pub routed : sell_route F d router family chain network row t.buy t.sell ≡ some t.sel

  module _ (P : Best F → Type 0) where
    over_sells-keeps :
        (size : ℕ) (buy : Text × Quote F) (sells : List (Text × Quote F)) (b : Best F)
        → ((sell : Text × Quote F) (b' : Best F)
            → In sell sells
            → P b'
            → P (tried size buy sell b'))
        → P b
        → P (over_sells F d router family chain network row size buy sells b)
    unfolding over_sells
    over_sells-keeps size buy [] b step h = h
    over_sells-keeps size buy (sell ∷ sells) b step h =
        over_sells-keeps size buy sells (tried size buy sell b) (λ s b' m p. step s b' (inr m) p)
          (step sell b (inl refl) h)

    over_buys-keeps :
        (size : ℕ) (sells buys : List (Text × Quote F)) (b : Best F)
        → ((buy sell : Text × Quote F) (b' : Best F)
            → In buy buys
            → In sell sells
            → P b'
            → P (tried size buy sell b'))
        → P b
        → P (over_buys F d router family chain network row size sells buys b)
    unfolding over_buys
    over_buys-keeps size sells [] b step h = h
    over_buys-keeps size sells (buy ∷ buys) b step h =
        over_buys-keeps size sells buys
          (over_sells F d router family chain network row size buy sells b)
          (λ y s b' m k p. step y s b' (inr m) k p)
          (over_sells-keeps size buy sells b (λ s b' m p. step buy s b' (inl refl) m p) h)

    pub over_sizes-keeps :
        (sizes : List ℕ) (b : Best F)
        → ((size : ℕ) (buy sell : Text × Quote F) (b' : Best F)
            → In size sizes
            → In buy (good size)
            → In sell (good size)
            → P b'
            → P (tried size buy sell b'))
        → P b
        → P (over_sizes F d router family chain network row sizes b)
    unfolding over_sizes
    over_sizes-keeps [] b step h = h
    over_sizes-keeps (size ∷ sizes) b step h =
        over_sizes-keeps sizes
          (if ltb (length (good size)) 2
            then b
            else over_buys F d router family chain network row size (good size) (good size) b)
          (λ z y s b' i m k p. step z y s b' (inr i) m k p)
          (if_both P (ltb (length (good size)) 2) h (
            over_buys-keeps size (good size) (good size) b
              (λ y s b' m k p. step size y s b' (inl refl) m k p) h))

    -- A step that establishes what all the others keep is enough.
    module _
        (keeps : (size : ℕ) (buy sell : Text × Quote F) (b : Best F)
          → P b
          → P (tried size buy sell b)) where
      over_sells-reaches :
          (size : ℕ) (buy sell : Text × Quote F) (sells : List (Text × Quote F)) (b : Best F)
          → ((b' : Best F) → P (tried size buy sell b'))
          → In sell sells
          → P (over_sells F d router family chain network row size buy sells b)
      unfolding over_sells
      over_sells-reaches size buy sell [] b h m = absurd m
      over_sells-reaches size buy sell (s ∷ sells) b h (inl e) =
          over_sells-keeps size buy sells (tried size buy s b) (λ z b' i p. keeps size buy z b' p)
            (rw (sym e) (h b))
      over_sells-reaches size buy sell (s ∷ sells) b h (inr m) =
          over_sells-reaches size buy sell sells (tried size buy s b) h m

      over_buys-reaches :
          (size : ℕ) (buy sell : Text × Quote F) (sells buys : List (Text × Quote F)) (b : Best F)
          → ((b' : Best F) → P (tried size buy sell b'))
          → In buy buys
          → In sell sells
          → P (over_buys F d router family chain network row size sells buys b)
      unfolding over_buys
      over_buys-reaches size buy sell sells [] b h m k = absurd m
      over_buys-reaches size buy sell sells (y ∷ buys) b h (inl e) k =
          over_buys-keeps size sells buys
            (over_sells F d router family chain network row size y sells b)
            (λ z s b' i j p. keeps size z s b' p)
            (rw (sym e) (over_sells-reaches size buy sell sells b h k))
      over_buys-reaches size buy sell sells (y ∷ buys) b h (inr m) k =
          over_buys-reaches size buy sell sells buys
            (over_sells F d router family chain network row size y sells b) h m k

      pub over_sizes-reaches :
          (size : ℕ) (buy sell : Text × Quote F) (sizes : List ℕ) (b : Best F)
          → ((b' : Best F) → P (tried size buy sell b'))
          → In size sizes
          → ltb (length (good size)) 2 ≡ false
          → In buy (good size)
          → In sell (good size)
          → P (over_sizes F d router family chain network row sizes b)
      unfolding over_sizes
      over_sizes-reaches size buy sell [] b h m two k l = absurd m
      over_sizes-reaches size buy sell (z ∷ sizes) b h (inl e) two k l =
          over_sizes-keeps sizes
            (if ltb (length (good z)) 2
              then b
              else over_buys F d router family chain network row z (good z) (good z) b)
            (λ z y s b' i j l p. keeps z y s b' p)
            (rw (sym e) (rw two (over_buys-reaches size buy sell (good size) (good size) b h k l)))
      over_sizes-reaches size buy sell (z ∷ sizes) b h (inr m) two k l =
          over_sizes-reaches size buy sell sizes
            (if ltb (length (good z)) 2
              then b
              else over_buys F d router family chain network row z (good z) (good z) b)
            h m two k l
