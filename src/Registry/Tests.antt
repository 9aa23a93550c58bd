-- ===== src/Registry/Tests.antt =====
-- A reload with three names, one of them denied, and a toggle of a name without a pack.
use mev_bot.Base.{ℕ, ◌≡◌, refl, none, some, [], ◌∷◌, Option, if◌then◌else◌}
use mev_bot.Base.Text.{Text, codes, text_eq, text_leb, member, strip, norm, lower, drop_space}
use mev_bot.Base.Parse.{split_commas}
use mev_bot.Operator.{no_slugs, items, csv, sorted_set, insert_once}
use mev_bot.Control.{slugs_in}
use mev_bot.Registry.{
  Toggles, Registry, as_list, op_enable, op_disable, default_names, enabled_set, build, reload,
  apply_runtime_toggle,
}
use mev_bot.Registry.Enabled.{IsReloaded, reload-IsReloaded}

abbrev make : Text → Option ℕ
make n = if text_eq n (codes "univ3") then some 3 else none

abbrev toggles : Toggles
toggles = record {
  enabled_dex_overrides =
      some (record { allowlist = no_slugs; denylist = csv (codes " Jupiter ,") });
  dex_packs_enabled = no_slugs;
  dex_packs_disabled = no_slugs;
}

abbrev loaded : Registry ℕ
loaded = record { packs = (codes "univ3", 3) ∷ []; enabled = codes "univ3" ∷ [] }

is_loaded :
    reload make (items (codes "Univ3" ∷ codes "univ2" ∷ [])) (codes "jupiter") [] toggles ≡ loaded
unfolding reload build enabled_set op_enable op_disable default_names as_list slugs_in split_commas
    member strip norm lower drop_space text_eq text_leb sorted_set insert_once
is_loaded = refl

abbrev toggled : Registry ℕ
toggled = record { packs = (codes "univ3", 3) ∷ []; enabled = codes "univ3" ∷ codes "sushi" ∷ [] }

is_toggled : apply_runtime_toggle (codes "Sushi" ∷ []) [] loaded ≡ toggled
unfolding apply_runtime_toggle slugs_in member strip norm lower drop_space text_eq
is_toggled = refl

reload-IsReloaded_example :
    IsReloaded make
      (items (codes "Univ3" ∷ codes "univ2" ∷ []))
      (codes "jupiter")
      []
      toggles
      (reload make (items (codes "Univ3" ∷ codes "univ2" ∷ [])) (codes "jupiter") [] toggles)
reload-IsReloaded_example =
    reload-IsReloaded make (items (codes "Univ3" ∷ codes "univ2" ∷ [])) (codes "jupiter") [] toggles
