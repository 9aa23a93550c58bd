-- ===== src/Dex.antt =====
-- bot/core/types_dex.py: what the DEX packs and the router exchange. Metadata values are texts here.
use mev_bot.Base.{ℕ, Bool, Option, List}
use mev_bot.Base.Int.{ℤ}
use mev_bot.Base.Text.{Text}
use mev_bot.Base.Dict.{Dict}
use mev_bot.Base.Float.{FloatModel}

pub record TradeIntent : Type 0 where
  pub family : Text
  pub chain : Text
  pub network : Text
  pub token_in : Text
  pub token_out : Text
  pub amount_in : ℤ
  pub slippage_bps : ℤ
  pub ttl_s : ℤ
  pub strategy : Text
  pub dex_preference : Option Text

pub record Quote (F : FloatModel) : Type 0 where
  pub dex : Text
  pub expected_out : ℤ
  pub min_out : ℤ
  pub price_impact_bps : F.Float
  pub fee_estimate : F.Float
  pub route_summary : Text
  pub quote_latency_ms : F.Float

pub record TxPlan : Type 0 where
  pub family : Text
  pub chain : Text
  pub dex : Text
  pub value : ℤ
  pub metadata : Dict Text
  pub raw_tx : Option Text
  pub instruction_bundle : Option (Dict Text)

pub record SimResult : Type 0 where
  pub ok : Bool
  pub error_code : Text
  pub error_message : Text
  pub gas_estimate : Option ℕ
  pub compute_units : Option ℕ
  pub logs : Option (List Text)
