-- ===== src/Canonical/Idempotent.antt =====
-- Canonical names of chains, canonicalised again (bot/core/canonical.py).
use mev_bot.Base.{
  ◌≡◌, refl, ap, ◌∙◌, Bool, true, false, not, ◌&&◌, Option, some, [], ◌∷◌, is_empty, arith, inl,
  inr, Option-cases,
}
use mev_bot.Base.Text.{Text, text_eq, text_eq→eq, norm, or_else}
use mev_bot.Base.Strip.{norm-norm}
use mev_bot.Base.Dict.{Dict, get}
use mev_bot.Gates.{text_or_empty}
use mev_bot.Canonical.{chain_aliases, norm_or, unknown, resolve_alias, canonicalize_chain}

-- A text that `_norm` leaves alone.
pub record IsNormal (t : Text) : Type 0 where
  pub fixed : norm t ≡ t
  pub some_text : is_empty t ≡ false

or_else-IsNormal : (t d : Text) → norm t ≡ t → IsNormal d → IsNormal (or_else t d)
or_else-IsNormal [] d e i = i
or_else-IsNormal (c ∷ cs) d e i = record { fixed = e; some_text = refl }

norm_or-IsNormal : (d : Text) (t : Option Text) → IsNormal d → IsNormal (norm_or d t)
unfolding norm_or
norm_or-IsNormal d t i = or_else-IsNormal _ d (norm-norm (text_or_empty t)) i

norm_or_fixed : (d t : Text) → IsNormal t → norm_or d (some t) ≡ t
unfolding norm_or
norm_or_fixed d [] i = cc (i.some_text)
norm_or_fixed d (c ∷ cs) i = rw i.fixed refl

unknown-IsNormal : IsNormal unknown
unknown-IsNormal = record { fixed = unfold norm in refl; some_text = refl }

-- A canonical name of a chain: normal, and no alias.
pub record IsCanonical (t : Text) : Type 0 where
  pub normal : IsNormal t
  pub no_alias : resolve_alias t ≡ t

abbrev is_canonical : Text → Bool
is_canonical t = text_eq (norm t) t && not (is_empty t) && text_eq (resolve_alias t) t

is_canonical-IsCanonical : (t : Text) → is_canonical t ≡ true → IsCanonical t
is_canonical-IsCanonical t h =
    let fixed : text_eq (norm t) t ≡ true = ground (arith, h) in
    let lookup : text_eq (resolve_alias t) t ≡ true = ground (arith, h) in
    record {
      normal = record { fixed = text_eq→eq _ t fixed; some_text = ground (arith, h) };
      no_alias = text_eq→eq _ t lookup;
    }

all_values : (Text → Bool) → Dict Text → Bool
all_values p [] = true
all_values p ((k, v) ∷ d) = p v && all_values p d

all_values-get :
    (p : Text → Bool) (k : Text) (d : Dict Text) (v : Text)
    → all_values p d ≡ true
    → get k d ≡ some v
    → p v ≡ true
unfolding all_values get
all_values-get p k [] v h e = cc
all_values-get p k ((j, w) ∷ d) v h e = ground (arith, all_values-get p k d v)

aliases_canonical : all_values is_canonical chain_aliases ≡ true
unfolding all_values norm resolve_alias text_eq
aliases_canonical = refl

resolve_alias-IsCanonical : (t : Text) → IsNormal t → IsCanonical (resolve_alias t)
unfolding resolve_alias
resolve_alias-IsCanonical t i = elim (Option-cases (get t chain_aliases)) [
  | inl e ↦ rw e (record { normal = i; no_alias = rw e refl })
  | inr (v, e) ↦
      let listed = all_values-get is_canonical t chain_aliases v aliases_canonical e in
      rw e (is_canonical-IsCanonical v listed)
]

pub canonicalize_chain-IsCanonical : (c : Option Text) → IsCanonical (canonicalize_chain c)
unfolding canonicalize_chain
canonicalize_chain-IsCanonical c =
    resolve_alias-IsCanonical (norm_or unknown c) (norm_or-IsNormal unknown c unknown-IsNormal)

pub canonicalize_chain_fixed : (t : Text) → IsCanonical t → canonicalize_chain (some t) ≡ t
unfolding canonicalize_chain
canonicalize_chain_fixed t i = ap resolve_alias (norm_or_fixed unknown t i.normal) ∙ i.no_alias

-- A canonical chain is its own canonical chain.
pub canonicalize_chain_idempotent :
    (c : Option Text) → canonicalize_chain (some (canonicalize_chain c)) ≡ canonicalize_chain c
canonicalize_chain_idempotent c =
    canonicalize_chain_fixed (canonicalize_chain c) (canonicalize_chain-IsCanonical c)
