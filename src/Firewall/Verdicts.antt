-- ===== src/Firewall/Verdicts.antt =====
-- Which verdict `RiskFirewall.evaluate` (risk/risk_firewall.py) gives.
use mathlib.Core.Path.{subst}
use mev_bot.Base.{
  sym, ◌≢◌, if_both, ◌≡◌, refl, ◌↔◌, inl, inr, Bool, true, ◌&&◌, ◌||◌, not, List, [], ◌∷◌, arith,
  Bool-cases, In,
}
use mev_bot.Base.Text.{Text, norm, member, text_leb}
use mev_bot.Base.Members.{In-member, member-In}
use mev_bot.Base.Sort.{sort, In-sort}
use mev_bot.Firewall.{
  put_norm, Firewall, Metadata, Check, listed, allow, deny, evaluate, judge, overridden,
  some_reason, static_checks, run_check, norm_set, override_list,
}

In-put_norm : (s t : Text) (rest : List Text) → In s rest → In s (put_norm t rest)
unfolding put_norm
In-put_norm s [] rest h = h
In-put_norm s (c ∷ cs) rest h = if_both (λ r. In s r) (member (c ∷ cs) rest) h (inr h)

In-put_norm_self : (t : Text) (rest : List Text) → t ≢ [] → In t (put_norm t rest)
unfolding put_norm
In-put_norm_self [] rest h = absurd (h refl)
In-put_norm_self (c ∷ cs) rest h = elim (Bool-cases (member (c ∷ cs) rest)) [
  | inl e ↦ rw e (member-In (c ∷ cs) rest e)
  | inr e ↦ rw e (inl refl)
]

In-norm_set : (x : Text) (xs : List Text) → In x xs → norm x ≢ [] → In (norm x) (norm_set xs)
unfolding norm_set
In-norm_set x [] h k = absurd h
In-norm_set x (y ∷ ys) (inl e) k = rw e (In-put_norm_self (norm y) (norm_set ys) (rw e at k))
In-norm_set x (y ∷ ys) (inr h) k =
    In-put_norm (norm x) (norm y) (norm_set ys) (In-norm_set x ys h k)

module _ (fw : Firewall) (token pool : Text) (md : Metadata) (buy sell : Check) where
  abbrev denied : Bool
  denied = overridden fw token pool fw.overrides.deny_tokens fw.overrides.deny_pools

  abbrev allowed : Bool
  allowed = overridden fw token pool fw.overrides.allow_tokens fw.overrides.allow_pools

  abbrev watched : Bool
  watched = overridden fw token pool fw.overrides.watch_tokens fw.overrides.watch_pools

  -- A token or pool is denied exactly if an override denies it, or none allows it, the firewall is
  -- enabled and its sale could not be simulated with success.
  pub evaluate-deny_iff :
      ((evaluate fw token pool md buy sell).0.classification ≡ deny)
      ↔ (denied || (not allowed && fw.enabled && not (run_check sell).0) ≡ true)
  unfolding evaluate judge
  evaluate-deny_iff = ground arith

  -- It is allowed exactly if no override denies it and, unless an override allows it or the firewall
  -- is off, both simulations succeed, no override watches it and no static check gives a reason.
  pub evaluate-allow_iff : ((evaluate fw token pool md buy sell).0.classification ≡ allow) ↔ (
      not denied
        && (allowed
            || not fw.enabled
            || ((run_check sell).0
                && (run_check buy).0
                && not watched
                && not (some_reason fw token pool (static_checks fw md))))
      ≡ true)
  unfolding evaluate judge
  evaluate-allow_iff = ground arith

  -- If the list of denied tokens has an entry that is the token, up to case and surrounding white
  -- space, and is not blank, the token is denied, whatever else holds.
  pub evaluate_denied :
      (x : Text) (xs : List Text)
      → fw.overrides.deny_tokens ≡ listed xs
      → In x xs
      → norm x ≡ norm token
      → norm x ≢ []
      → (evaluate fw token pool md buy sell).0.classification ≡ deny
  unfolding overridden override_list
  evaluate_denied x xs e h same full =
      let found : member (norm token) (sort text_leb (norm_set xs)) ≡ true = In-member _ _ (
        In-sort text_leb (norm token) (norm_set xs)
          (subst (λ t. In t (norm_set xs)) same (In-norm_set x xs h full))) in
      let wins : denied ≡ true =
        subst
          (λ l.
            (member (norm token) (override_list l)
              || member (norm pool) (override_list fw.overrides.deny_pools))
            ≡ true)
          (sym e) (rw found refl) in
      evaluate-deny_iff.1 (rw wins refl)
