-- ===== src/Registry.antt =====
-- `DEXPackRegistry` (bot/core/dex_registry.py). A pack is of a type `P`; the profile's names, the
-- environment and the operator's file are arguments, and so is `make`, which constructs the pack of a
-- name from its configuration: `none` where there is no configuration, no constructor, or no support
-- for the chain. The sets are lists whose order and repetitions nothing relies on.
pub mod Enabled
mod Tests
use mev_bot.Base.{
  Bool, true, false, ◌&&◌, not, Option, none, some, List, [], ◌∷◌, ◌++◌, if◌then◌else◌, is_empty,
  keep,
}
use mev_bot.Base.Text.{Text, norm, member}
use mev_bot.Base.Parse.{split_commas}
use mev_bot.Base.Dict.{Dict, get}
use mev_bot.Operator.{Overrides, Slugs, no_slugs, other_value, csv, items, sorted_set}
use mev_bot.Control.{slugs_in}

-- `_as_list`, and `_csv` of a text.
unfoldable pub as_list : Slugs → List Text
unfolding slugs_in split_commas
as_list no_slugs = []
as_list (csv t) = slugs_in (split_commas t)
as_list (items xs) = slugs_in xs
as_list other_value = []

-- The keys of the operator's file that are read; the overrides are missing or no object, or an object.
pub record Toggles : Type 0 where
  pub enabled_dex_overrides : Option (Overrides Slugs)
  pub dex_packs_enabled : Slugs
  pub dex_packs_disabled : Slugs

abbrev pub allowlist_of : Option (Overrides Slugs) → Slugs
allowlist_of none = no_slugs
allowlist_of (some o) = o.allowlist

abbrev pub denylist_of : Option (Overrides Slugs) → Slugs
denylist_of none = no_slugs
denylist_of (some o) = o.denylist

-- `a - b`
abbrev pub without : List Text → List Text → List Text
without a b = keep (λ x. not (member x b)) a

-- `a or b`
abbrev pub first_nonempty : List Text → List Text → List Text
first_nonempty [] b = b
first_nonempty (x ∷ xs) b = x ∷ xs

unfoldable pub op_enable : Toggles → List Text
unfolding as_list
op_enable op =
    first_nonempty (as_list (allowlist_of op.enabled_dex_overrides)) (as_list op.dex_packs_enabled)

unfoldable pub op_disable : Toggles → List Text
unfolding as_list
op_disable op = as_list (denylist_of op.enabled_dex_overrides) ++ as_list op.dex_packs_disabled

-- The names of the profile and of the environment.
unfoldable pub default_names : Slugs → Text → Text → List Text
unfolding as_list member
default_names dexes_enabled env_enable env_disable =
    without (as_list dexes_enabled ++ as_list (csv env_enable)) (as_list (csv env_disable))

unfoldable pub enabled_set : Slugs → Text → Text → Toggles → List Text
unfolding op_enable op_disable default_names member
enabled_set dexes_enabled env_enable env_disable op =
    without (first_nonempty (op_enable op) (default_names dexes_enabled env_enable env_disable))
      (op_disable op)

pub record Registry (P : Type 0) : Type 0 where
  pub packs : Dict P
  pub enabled : List Text

module _ {P : Type 0} where
  abbrev pub names_in : Dict P → List Text
  names_in [] = []
  names_in ((n, p) ∷ packs) = n ∷ names_in packs

  abbrev pub add_pack : Text → Option P → Dict P → Dict P
  add_pack n none packs = packs
  add_pack n (some p) packs = (n, p) ∷ packs

  -- The packs of the names, each of which occurs once.
  unfoldable pub build : (Text → Option P) → List Text → Dict P
  build make [] = []
  build make (n ∷ ns) = let rest = build make ns in add_pack n (make n) rest

  unfoldable pub reload : (Text → Option P) → Slugs → Text → Text → Toggles → Registry P
  unfolding build enabled_set sorted_set
  reload make dexes_enabled env_enable env_disable op =
      let packs = build make (sorted_set (enabled_set dexes_enabled env_enable env_disable op)) in
      record { packs = packs; enabled = names_in packs }

  abbrev pub enabled_names : Registry P → List Text
  enabled_names r = sorted_set r.enabled

  unfoldable pub get_pack : Text → Registry P → Option P
  unfolding get norm
  get_pack name r = get (norm name) r.packs

  -- The pack of the least name.
  abbrev pub first_of : Dict P → List Text → Option P
  first_of packs [] = none
  first_of packs (n ∷ ns) = get n packs

  abbrev pub or_first : Registry P → Option P → Option P
  or_first r none = first_of r.packs (sorted_set (names_in r.packs))
  or_first r (some p) = some p

  -- `choose`, where no preference is the empty text.
  unfoldable pub choose : Text → Registry P → Option P
  unfolding get_pack sorted_set get
  choose [] r = or_first r none
  choose (c ∷ cs) r = or_first r (get_pack (c ∷ cs) r)

  abbrev pub keep_named : List Text → Dict P → Dict P
  keep_named names packs = keep (λ x. member x.0 names) packs

  unfoldable pub apply_runtime_toggle : List Text → List Text → Registry P → Registry P
  unfolding slugs_in member
  apply_runtime_toggle enabled disabled r =
      let names = without (r.enabled ++ slugs_in enabled) (slugs_in disabled) in
      record { packs = keep_named names r.packs; enabled = names }
