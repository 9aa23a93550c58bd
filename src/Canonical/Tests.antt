-- ===== src/Canonical/Tests.antt =====
-- Canonical names at concrete chains and targets.
use mev_bot.Base.{◌≡◌, refl, true, none, some, [], ◌⊎◌}
use mev_bot.Base.Text.{codes, strip, lower, norm, upper, text_eq, contains, starts_with, member}
use mev_bot.Base.Dict.{get}
use mev_bot.Canonical.{
  canonicalize_chain, canonicalize_family, canonicalize_chain_target, infer_network, norm_or,
  resolve_alias, network_of_chain, target_of, format_target, family_of, split_colon,
}
use mev_bot.Canonical.Targets.{canonicalize_family_total}

target_is : canonicalize_chain_target true (some (codes " sol:mainnet-beta")) ≡ codes "SOL:solana"
unfolding canonicalize_chain_target target_of format_target canonicalize_chain canonicalize_family
    family_of norm_or resolve_alias get split_colon strip norm lower upper text_eq starts_with
target_is = refl

canonicalize_family_total_example :
    ((canonicalize_family (some (codes "solana")) (some (codes "matic")) ≡ codes "sol")
      ⊎ (canonicalize_family (some (codes "solana")) (some (codes "matic")) ≡ codes "evm"))
    × (canonicalize_family
          (some (codes "solana"))
          (some (canonicalize_chain (some (codes "matic"))))
        ≡ canonicalize_family (some (codes "solana")) (some (codes "matic")))
canonicalize_family_total_example =
    canonicalize_family_total (some (codes "solana")) (some (codes "matic"))

-- A test network whose alias is the main chain is taken for the main network.
base_sepolia : infer_network [] (some (codes "base-sepolia")) none ≡ codes "mainnet"
unfolding infer_network network_of_chain canonicalize_chain norm_or resolve_alias get norm text_eq
    starts_with contains member
base_sepolia = refl
