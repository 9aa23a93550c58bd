-- ===== src/Canonical/Targets.antt =====
-- The targets `EVM:<chain>` and `SOL:<chain>` (bot/core/canonical_chain.py), and the families.
use mev_bot.Base.{
  ◌≡◌, refl, sym, ap, ◌∙◌, Bool, true, false, ◌||◌, Option, some, [], ◌∷◌, ◌++◌, is_empty, arith,
  ◌⊎◌, inl, inr, Bool-cases, if_both,
}
use mev_bot.Base.Text.{
  Text, codes, text_eq, strip, lower, norm, upper, or_else, starts_with, member,
}
use mev_bot.Base.Strip.{strip-strip, strip-lower, strip_prefix}
use mev_bot.Gates.{text_or_empty}
use mev_bot.Canonical.{
  norm_or, unknown, canonicalize_chain, family_of, canonicalize_family, split_colon, family_part,
  chain_part, target_of, format_target, canonicalize_chain_target, known_evm_chains, no_target,
}
use mev_bot.Canonical.Idempotent.{
  IsCanonical, canonicalize_chain_idempotent, canonicalize_chain-IsCanonical,
  canonicalize_chain_fixed,
}

neither_family :
    (f : Text)
    → member f (codes "sol" ∷ codes "solana" ∷ []) ≡ false
    → member f (codes "evm" ∷ codes "ethereum" ∷ []) ≡ false
    → member f (codes "evm" ∷ codes "sol" ∷ []) ≡ false
unfolding member
neither_family f h k = ground (arith, h, k)

-- A family that is found from a chain and a given family is `sol` or `evm`, and it is found again
-- from the chain and itself.
pub family_of_fixed :
    (c f : Text)
    → ((family_of c f ≡ codes "sol") × (family_of c (codes "sol") ≡ codes "sol"))
      ⊎ ((family_of c f ≡ codes "evm") × (family_of c (codes "evm") ≡ codes "evm"))
unfolding family_of
family_of_fixed c f =
    elim (Bool-cases (text_eq c (codes "solana") || starts_with (codes "solana-") c)) [
      | inl e ↦ inl (rw e refl, rw e refl)
      | inr e ↦ elim (Bool-cases (member c known_evm_chains)) [
        | inl k ↦ inr (rw (e, k) refl, rw (e, k) refl)
        | inr k ↦ elim (Bool-cases (member f (codes "sol" ∷ codes "solana" ∷ []))) [
          | inl s ↦ inl (rw (e, k, s) refl, rw (e, k) refl)
          | inr s ↦ inr (
            elim (Bool-cases (member f (codes "evm" ∷ codes "ethereum" ∷ []))) [
              | inl m ↦ rw (e, k, s, m) refl
              | inr m ↦ rw (e, k, s, m, neither_family f s m) refl
            ],
            rw (e, k) refl,
          )
        ]
      ]
    ]

-- The shapes of a target.
data IsTarget (allow : Bool) : Text → Type 0 where
  none_given : IsTarget allow (no_target allow)
  not_known : IsTarget allow (codes "UNKNOWN")
  on_sol :
      (c : Text)
      → IsCanonical c
      → text_eq c unknown ≡ false
      → family_of c (codes "sol") ≡ codes "sol"
      → IsTarget allow (codes "SOL:" ++ c)
  on_evm :
      (c : Text)
      → IsCanonical c
      → text_eq c unknown ≡ false
      → family_of c (codes "evm") ≡ codes "evm"
      → IsTarget allow (codes "EVM:" ++ c)

format_target-IsTarget :
    (allow : Bool) (c family : Text)
    → IsCanonical c
    → ((family ≡ codes "sol") × (family_of c (codes "sol") ≡ codes "sol"))
      ⊎ ((family ≡ codes "evm") × (family_of c (codes "evm") ≡ codes "evm"))
    → IsTarget allow (format_target allow family c)
unfolding format_target
format_target-IsTarget allow c family i (inl (e, s)) = rw e (elim (Bool-cases (text_eq c unknown)) [
  | inl u ↦ rw u none_given
  | inr u ↦ rw u (on_sol c i u s)
])
format_target-IsTarget allow c family i (inr (e, s)) = rw e (elim (Bool-cases (text_eq c unknown)) [
  | inl u ↦ rw u none_given
  | inr u ↦ rw u (on_evm c i u s)
])

target_of-IsTarget : (allow : Bool) (fam chain : Text) → IsTarget allow (target_of allow fam chain)
unfolding target_of canonicalize_family
target_of-IsTarget allow fam chain =
    let slug = canonicalize_chain (some chain) in
    let i = canonicalize_chain-IsCanonical (some chain) in
    format_target-IsTarget allow slug (canonicalize_family (some fam) (some slug)) i
      (rw (canonicalize_chain_fixed slug i) (family_of_fixed slug (norm_or unknown (some fam))))

strip_canonical : (t : Text) → IsCanonical t → strip t ≡ t
unfolding norm
strip_canonical t i =
    let fixed = i.normal.fixed in
    ap strip (sym fixed) ∙ strip-lower (strip t) ∙ ap lower (strip-strip t) ∙ fixed

canonicalize_chain_target-IsTarget :
    (allow : Bool) (t : Option Text) → IsTarget allow (canonicalize_chain_target allow t)
unfolding canonicalize_chain_target
canonicalize_chain_target-IsTarget allow t =
    let raw = strip (text_or_empty t) in
    if_both (IsTarget allow) (is_empty raw) none_given (
      if_both (IsTarget allow) (text_eq (upper raw) (codes "UNKNOWN")) not_known (
        target_of-IsTarget allow (family_part raw (split_colon raw))
          (chain_part raw (split_colon raw))))

-- A target with a prefix of three letters is split behind it.
prefixed :
    (allow : Bool) (fam c : Text)
    → IsCanonical c
    → strip (fam ++ b':' ∷ c) ≡ fam ++ b':' ∷ c
    → (fam ≡ codes "SOL") ⊎ (fam ≡ codes "EVM")
    → canonicalize_chain_target allow (some (fam ++ b':' ∷ c)) ≡ target_of allow fam c
unfolding canonicalize_chain_target upper text_eq split_colon
prefixed allow fam c i s (inl e) = rw (s, e) refl
prefixed allow fam c i s (inr e) = rw (s, e) refl

target_of_canonical :
    (allow : Bool) (fam family c : Text)
    → IsCanonical c
    → norm_or unknown (some fam) ≡ family
    → target_of allow fam c ≡ format_target allow (family_of c family) c
unfolding target_of canonicalize_family
target_of_canonical allow fam family c i e =
    rw (canonicalize_chain_fixed c i, canonicalize_chain_fixed c i, e) refl

target_fixed :
    (allow : Bool) (t : Text) → IsTarget allow t → canonicalize_chain_target allow (some t) ≡ t
unfolding canonicalize_chain_target format_target
target_fixed true _ none_given = refl
target_fixed false _ none_given = refl
target_fixed allow _ not_known = refl
target_fixed allow _ (on_sol c i u f) =
    let stripped =
      strip_prefix b'S' (codes "OL:") c refl i.normal.some_text (strip_canonical c i) in
    prefixed allow (codes "SOL") c i stripped (inl refl)
    ∙ target_of_canonical allow (codes "SOL") (codes "sol") c i (unfold norm_or norm in refl)
    ∙ rw (f, u) refl
target_fixed allow _ (on_evm c i u f) =
    let stripped =
      strip_prefix b'E' (codes "VM:") c refl i.normal.some_text (strip_canonical c i) in
    prefixed allow (codes "EVM") c i stripped (inr refl)
    ∙ target_of_canonical allow (codes "EVM") (codes "evm") c i (unfold norm_or norm in refl)
    ∙ rw (f, u) refl

target_stripped : (t : Text) → IsTarget true t → or_else (strip t) (codes "UNKNOWN") ≡ t
target_stripped _ none_given = unfold strip in refl
target_stripped _ not_known = unfold strip in refl
target_stripped _ (on_sol c i u f) =
    rw (strip_prefix b'S' (codes "OL:") c refl i.normal.some_text (strip_canonical c i)) refl
target_stripped _ (on_evm c i u f) =
    rw (strip_prefix b'E' (codes "VM:") c refl i.normal.some_text (strip_canonical c i)) refl

-- Reading a canonical target as `validate_state` of the operator state reads it.
pub canonicalize_chain_target_read_back :
    (t : Option Text)
    → canonicalize_chain_target true
        (some (or_else (strip (canonicalize_chain_target true t)) (codes "UNKNOWN")))
      ≡ canonicalize_chain_target true t
canonicalize_chain_target_read_back t =
    let i = canonicalize_chain_target-IsTarget true t in
    rw (target_stripped _ i) (target_fixed true _ i)

-- A canonical target is left alone when it is canonicalised again, with or without unknown targets
-- allowed: what the operator state stores is read back as the same target.
pub canonicalize_chain_target_idempotent :
    (allow : Bool) (t : Option Text)
    → canonicalize_chain_target allow (some (canonicalize_chain_target allow t))
      ≡ canonicalize_chain_target allow t
canonicalize_chain_target_idempotent allow t =
    target_fixed allow _ (canonicalize_chain_target-IsTarget allow t)

-- A family is always `sol` or `evm`, whatever is given, and with the same given family it is the same
-- for a chain as for the canonical form of the chain.
pub canonicalize_family_total :
    (family chain : Option Text)
    → ((canonicalize_family family chain ≡ codes "sol")
        ⊎ (canonicalize_family family chain ≡ codes "evm"))
      × (canonicalize_family family (some (canonicalize_chain chain))
          ≡ canonicalize_family family chain)
unfolding canonicalize_family
canonicalize_family_total family chain = (
  elim (family_of_fixed (canonicalize_chain chain) (norm_or unknown family)) [
    | inl e ↦ inl e.0
    | inr e ↦ inr e.0
  ],
  rw (canonicalize_chain_idempotent chain) refl,
)
