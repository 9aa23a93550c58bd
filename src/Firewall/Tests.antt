-- ===== src/Firewall/Tests.antt =====
-- Evaluations of a concrete token: one that is denied by an override, and one with no simulations.
use mev_bot.Base.{◌≡◌, ◌≢◌, ◌↔◌, refl, true, ◌&&◌, ◌||◌, not, [], ◌∷◌, none}
use mev_bot.Base.Int.{pos}
use mev_bot.Base.Text.{Text, codes, norm, strip, lower, drop_space}
use mev_bot.Base.Parse.{parse_int, read_signed, read_digits}
use mev_bot.Firewall.{
  Firewall, Metadata, absent, text, listed, comma_text, no_check, deny, evaluate, overridden,
  run_check, as_int,
}
use mev_bot.Firewall.Verdicts.{evaluate-deny_iff}

abbrev firewall : Firewall
firewall = record {
  chain = codes "base";
  enabled = true;
  tax_bps_deny = pos 1000;
  tiny_amount = pos 100;
  overrides = record {
    allow_tokens = listed [];
    deny_tokens = listed (codes " 0xBAD " ∷ []);
    watch_tokens = comma_text (codes "0x1, 0x2");
    allow_pools = listed [];
    deny_pools = listed [];
    watch_pools = listed [];
  };
}

abbrev metadata : Metadata
metadata = record {
  is_proxy = absent;
  blacklist_enabled = text (codes "Yes");
  owner_can_block = absent;
  owner_can_mint = absent;
  owner_renounced = none;
  buy_tax_bps = text (codes " 1_200 ");
  sell_tax_bps = absent;
}

abbrev bad : Text
bad = codes "0xbad"

abbrev pool : Text
pool = codes "0xpool"

tax_read : as_int metadata.buy_tax_bps (pos 0) ≡ pos 1200
unfolding as_int parse_int read_signed read_digits strip drop_space
tax_read = refl

evaluate-deny_iff_example :
    ((evaluate firewall bad pool metadata no_check no_check).0.classification ≡ deny) ↔ (
      overridden firewall bad pool firewall.overrides.deny_tokens firewall.overrides.deny_pools
        || (not (
              overridden firewall bad pool firewall.overrides.allow_tokens
                firewall.overrides.allow_pools)
            && true
            && not (run_check no_check).0)
      ≡ true)
evaluate-deny_iff_example = evaluate-deny_iff firewall bad pool metadata no_check no_check

same_token : norm (codes " 0xBAD ") ≡ norm bad
unfolding norm strip lower drop_space
same_token = refl

not_blank : norm (codes " 0xBAD ") ≢ []
unfolding norm strip lower drop_space
not_blank e = cc
