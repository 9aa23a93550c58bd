-- ===== src/Canonical.antt =====
-- Canonical names of chains, families and networks (bot/core/canonical.py and
-- bot/core/canonical_chain.py). The environment is a dict.
pub mod Idempotent
pub mod Targets
mod Tests
use mathlib.Core.List.{reverse}
use mev_bot.Base.{
  Bool, true, false, ◌&&◌, ◌||◌, not, Option, none, some, List, [], ◌∷◌, ◌++◌, is_empty, ◌==◌,
  if◌then◌else◌,
}
use mev_bot.Base.Text.{
  Text, codes, text_eq, upper, strip, norm, or_else, member, starts_with, contains,
}
use mev_bot.Base.Dict.{Dict, get}
use mev_bot.Gates.{text_or_empty}

-- `_CHAIN_ALIASES`
abbrev pub chain_aliases : Dict Text
chain_aliases =
    (codes "eth", codes "ethereum")
    ∷ (codes "eth-mainnet", codes "ethereum")
    ∷ (codes "mainnet", codes "ethereum")
    ∷ (codes "mainnet-beta", codes "solana")
    ∷ (codes "sol", codes "solana")
    ∷ (codes "sol-mainnet", codes "solana")
    ∷ (codes "sol-mainnet-beta", codes "solana")
    ∷ (codes "solana-devnet", codes "solana-devnet")
    ∷ (codes "sol-devnet", codes "solana-devnet")
    ∷ (codes "base-mainnet", codes "base")
    ∷ (codes "arbitrum-mainnet", codes "arbitrum")
    ∷ (codes "optimism-mainnet", codes "optimism")
    ∷ (codes "polygon-mainnet", codes "polygon")
    ∷ (codes "matic", codes "polygon")
    ∷ (codes "amoy", codes "polygon")
    ∷ (codes "polygon-amoy", codes "polygon")
    ∷ (codes "sepolia-testnet", codes "sepolia")
    ∷ (codes "base-sepolia", codes "base")
    ∷ (codes "arbitrum-sepolia", codes "arbitrum")
    ∷ (codes "optimism-sepolia", codes "optimism")
    ∷ (codes "polygon-amoy-testnet", codes "polygon")
    ∷ (codes "bsc", codes "bnb")
    ∷ (codes "binance", codes "bnb")
    ∷ (codes "avax", codes "avalanche")
    ∷ (codes "bera", codes "berachain")
    ∷ []

-- `_KNOWN_EVM_CHAINS`
abbrev pub known_evm_chains : List Text
known_evm_chains =
    codes "ethereum"
    ∷ codes "base"
    ∷ codes "arbitrum"
    ∷ codes "optimism"
    ∷ codes "polygon"
    ∷ codes "bnb"
    ∷ codes "avalanche"
    ∷ codes "sepolia"
    ∷ codes "amoy"
    ∷ codes "berachain"
    ∷ []

-- `_norm(value, default)`
unfoldable pub norm_or : Text → Option Text → Text
unfolding norm
norm_or default value = or_else (norm (text_or_empty value)) default

abbrev pub unknown : Text
unknown = codes "unknown"

-- `d.get(k, default)`
abbrev pub or_default : Text → Option Text → Text
or_default default none = default
or_default default (some v) = v

-- `_CHAIN_ALIASES.get(raw, raw)`
unfoldable pub resolve_alias : Text → Text
unfolding get
resolve_alias raw = or_default raw (get raw chain_aliases)

unfoldable pub canonicalize_chain : Option Text → Text
unfolding norm_or resolve_alias
canonicalize_chain chain = resolve_alias (norm_or unknown chain)

-- The tests of `canonicalize_family`, on the canonical chain and the normalised family.
unfoldable pub family_of : Text → Text → Text
unfolding text_eq starts_with member
family_of c f =
    if text_eq c (codes "solana") || starts_with (codes "solana-") c
    then codes "sol"
    else if member c known_evm_chains
    then codes "evm"
    else if member f (codes "sol" ∷ codes "solana" ∷ [])
    then codes "sol"
    else if member f (codes "evm" ∷ codes "ethereum" ∷ [])
    then codes "evm"
    else if not (member f (codes "evm" ∷ codes "sol" ∷ []))
    then codes "evm"
    else f

unfoldable pub canonicalize_family : Option Text → Option Text → Text
unfolding norm_or canonicalize_chain family_of
canonicalize_family family chain = family_of (canonicalize_chain chain) (norm_or unknown family)

-- `s.endswith(p)`
abbrev pub ends_with : Text → Text → Bool
ends_with p s = starts_with (reverse p) (reverse s)

-- `os.getenv(k, "mainnet")`
abbrev pub env_or_mainnet : Text → Dict Text → Option Text
env_or_mainnet k env = some (or_default (codes "mainnet") (get k env))

-- `infer_network` below the explicit networks.
unfoldable pub network_of_chain : Dict Text → Option Text → Text
unfolding norm_or canonicalize_chain text_eq starts_with contains member get
network_of_chain env chain =
    let c = canonicalize_chain chain in
    if ends_with (codes "-devnet") c
    then codes "devnet"
    else if text_eq c (codes "sepolia")
    then codes "testnet"
    else if text_eq c (codes "polygon") && contains (codes "amoy") (norm_or [] chain)
    then codes "testnet"
    else if text_eq c (codes "solana")
    then norm_or (codes "mainnet") (env_or_mainnet (codes "SOLANA_NETWORK") env)
    else if text_eq c (codes "berachain")
    then norm_or (codes "mainnet") (env_or_mainnet (codes "BERACHAIN_NETWORK") env)
    else if member c (
        codes "ethereum"
        ∷ codes "base"
        ∷ codes "arbitrum"
        ∷ codes "optimism"
        ∷ codes "polygon"
        ∷ codes "bnb"
        ∷ codes "avalanche"
        ∷ [])
    then codes "mainnet"
    else unknown

unfoldable pub infer_network : Dict Text → Option Text → Option Text → Text
unfolding norm_or network_of_chain get
infer_network env chain network =
    or_else (norm_or [] network)
      (or_else (norm_or [] (get (codes "CHAIN_NETWORK") env)) (network_of_chain env chain))

-- `chain or ch`
abbrev pub chain_or : Option Text → Text → Option Text
chain_or none ch = some ch
chain_or (some []) ch = some ch
chain_or (some (c ∷ cs)) ch = some (c ∷ cs)

pub record CtxLabels : Type 0 where
  pub family : Text
  pub chain : Text
  pub network : Text
  pub dex : Option Text
  pub strategy : Option Text
  pub provider : Option Text

abbrev pub map_label : Text → Option Text → Option Text
map_label default none = none
map_label default (some t) = some (norm_or default (some t))

unfoldable pub ctx_labels :
    Dict Text
    → Option Text
    → Option Text
    → Option Text
    → Option Text
    → Option Text
    → Option Text
    → CtxLabels
unfolding norm_or canonicalize_chain canonicalize_family infer_network
ctx_labels env family chain network dex strategy provider =
    let ch = canonicalize_chain chain in
    record {
      family = canonicalize_family family (some ch);
      chain = ch;
      network = infer_network env (chain_or chain ch) network;
      dex = map_label unknown dex;
      strategy = map_label (codes "default") strategy;
      provider = map_label unknown provider;
    }

-- `d.setdefault(k, v)`
abbrev pub set_default : Text → Option Text → Option Text
set_default v none = some v
set_default v (some w) = some w

unfoldable pub canonicalize_context :
    Dict Text
    → Option Text
    → Option Text
    → Option Text
    → Option Text
    → Option Text
    → Option Text
    → CtxLabels
unfolding norm_or ctx_labels
canonicalize_context env family chain network dex strategy provider =
    let c = ctx_labels env family chain network dex strategy provider in
    record c {
      dex = set_default (norm_or unknown dex) c.dex;
      strategy = set_default (norm_or (codes "default") strategy) c.strategy;
      provider = set_default (norm_or unknown provider) c.provider;
    }

-- `raw.split(":", 1)` where the text has a colon: what stands before and behind the first one.
unfoldable pub split_colon : Text → Option (Text × Text)
split_colon [] = none
split_colon (c ∷ cs) =
    let rest = split_colon cs in
    if c == b':' then some ([], cs) else elim rest [ none ↦ none | some r ↦ some (c ∷ r.0, r.1) ]

abbrev pub family_part : Text → Option (Text × Text) → Text
family_part raw none = []
family_part raw (some (fam, chain)) = fam

abbrev pub chain_part : Text → Option (Text × Text) → Text
chain_part raw none = raw
chain_part raw (some (fam, chain)) = chain

-- What `canonicalize_chain_target` returns for a target that it does not know.
abbrev pub no_target : Bool → Text
no_target allow_unknown = if allow_unknown then codes "UNKNOWN" else []

-- The target for a family and a canonical chain.
unfoldable pub format_target : Bool → Text → Text → Text
unfolding text_eq
format_target allow_unknown family chain_slug =
    if text_eq chain_slug unknown || text_eq family unknown
    then no_target allow_unknown
    else if text_eq family (codes "sol")
    then codes "SOL:" ++ chain_slug
    else codes "EVM:" ++ chain_slug

-- `canonicalize_chain_target` on the two parts of the target.
unfoldable pub target_of : Bool → Text → Text → Text
unfolding format_target canonicalize_chain canonicalize_family
target_of allow_unknown fam chain =
    let chain_slug = canonicalize_chain (some chain) in
    format_target allow_unknown (canonicalize_family (some fam) (some chain_slug)) chain_slug

unfoldable pub canonicalize_chain_target : Bool → Option Text → Text
unfolding strip upper text_eq split_colon target_of
canonicalize_chain_target allow_unknown raw_target =
    let raw = strip (text_or_empty raw_target) in
    if is_empty raw
    then no_target allow_unknown
    else if text_eq (upper raw) (codes "UNKNOWN")
    then codes "UNKNOWN"
    else let parts = split_colon raw in
      target_of allow_unknown (family_part raw parts) (chain_part raw parts)
