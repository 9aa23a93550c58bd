-- ===== src/Registry/Enabled.antt =====
-- Which packs the registry has (bot/core/dex_registry.py), after a reload and after a toggle.
use mev_bot.Base.{
  ◌≡◌, ◌⊎◌, refl, sym, inl, inr, Bool, true, false, not, Option, some, List, [], ◌∷◌, ◌++◌, In, All,
  All-map, All-In, In-All, Bool-cases, Option-cases, keep, arith,
}
use mev_bot.Base.Text.{Text, member, text_eq, text_eq_refl, text_eq→eq}
use mev_bot.Base.Members.{member-In}
use mev_bot.Base.Dict.{Dict, get}
use mev_bot.Operator.{Slugs, sorted_set}
use mev_bot.Operator.Sets.{All-sorted_set}
use mev_bot.Control.{slugs_in}
use mev_bot.Registry.{
  Toggles, op_enable, op_disable, default_names, enabled_set, without, first_nonempty, Registry,
  names_in, add_pack, build, reload, keep_named, apply_runtime_toggle,
}

In-keep :
    {A : Type 0} (f : A → Bool) (a : A) (xs : List A) → In a (keep f xs) → In a xs × (f a ≡ true)
In-keep f a [] m = absurd m
In-keep f a (x ∷ xs) m = elim (Bool-cases (f x)) [
  | inr e ↦ let (i, t) = In-keep f a xs (rw e at m) in (inr i, t)
  | inl e ↦ elim (rw e at m) [
    | inl s ↦ (inl s, rw s e)
    | inr k ↦ let (i, t) = In-keep f a xs k in (inr i, t)
  ]
]

-- A name that may be enabled: the operator does not deny it, and it is one of those that the operator
-- allows, or, if there are none, of the profile's and the environment's.
pub record IsAllowed (dexes : Slugs) (env_enable env_disable : Text) (op : Toggles) (n : Text)
    : Type 0 where
  pub not_denied : member n (op_disable op) ≡ false
  pub chosen :
      In n (op_enable op)
      ⊎ ((op_enable op ≡ []) × In n (default_names dexes env_enable env_disable))

In-first_nonempty :
    (n : Text) (a b : List Text) → In n (first_nonempty a b) → In n a ⊎ ((a ≡ []) × In n b)
In-first_nonempty n [] b m = inr (refl, m)
In-first_nonempty n (x ∷ xs) b m = inl m

enabled_set-IsAllowed :
    (dexes : Slugs) (env_enable env_disable : Text) (op : Toggles) (n : Text)
    → In n (enabled_set dexes env_enable env_disable op)
    → IsAllowed dexes env_enable env_disable op n
unfolding enabled_set
enabled_set-IsAllowed dexes env_enable env_disable op n m =
    let (i, t) =
      In-keep (λ x. not (member x (op_disable op))) n
        (first_nonempty (op_enable op) (default_names dexes env_enable env_disable)) m in
    record {
      not_denied = ground (arith, t);
      chosen = In-first_nonempty n (op_enable op) (default_names dexes env_enable env_disable) i;
    }

module _ {P : Type 0} where
  -- A name has a pack, which is the one that is constructed for it.
  abbrev pub IsBuilt : (Text → Option P) → Dict P → Text → Type 0
  IsBuilt make packs n = (p : P) × (make n ≡ some p) × (get n packs ≡ some p)

  get-add_pack :
      (make : Text → Option P) (n m : Text) (packs : Dict P)
      → IsBuilt make packs m
      → IsBuilt make (add_pack n (make n) packs) m
  unfolding get
  get-add_pack make n m packs (p, e, g) = elim (Option-cases (make n)) [
    | inl k ↦ rw k (p, e, g)
    | inr (q, k) ↦ rw k (elim (Bool-cases (text_eq n m)) [
      | inl t ↦ (p, e, rw t (sym (rw (sym k) (rw (text_eq→eq n m t) (sym e)))))
      | inr t ↦ (p, e, rw t g)
    ])
  ]

  head_built : (n : Text) (p : P) (packs : Dict P) → get n ((n, p) ∷ packs) ≡ some p
  unfolding get
  head_built n p packs = rw (text_eq_refl n) refl

  -- Every name of the built packs is one of the given, and has its pack.
  build-IsBuilt :
      (make : Text → Option P) (ns : List Text)
      → All (λ m. In m ns × IsBuilt make (build make ns) m) (names_in (build make ns))
  unfolding build
  build-IsBuilt make [] = tt
  build-IsBuilt make (n ∷ ns) =
      let later =
        All-map _ (λ m. In m (n ∷ ns) × IsBuilt make (add_pack n (make n) (build make ns)) m)
          (names_in (build make ns)) (λ m h. (inr h.0, get-add_pack make n m (build make ns) h.1))
          (build-IsBuilt make ns) in
      elim (Option-cases (make n)) [
        | inl e ↦ rw e (rw e at later)
        | inr (p, e) ↦ rw e ((inl refl, (p, e, head_built n p (build make ns))), rw e at later)
      ]

  -- What a reload leaves.
  pub record IsReloaded (make : Text → Option P) (dexes : Slugs) (env_enable env_disable : Text)
      (op : Toggles) (r : Registry P) : Type 0 where
    pub same_names : r.enabled ≡ names_in r.packs
    pub allowed :
        All (λ n. IsAllowed dexes env_enable env_disable op n × IsBuilt make r.packs n) r.enabled

  -- After a reload the enabled names are those of the packs. Each has the pack that is constructed for
  -- it, is not denied by the operator, and is one of those that the operator allows, or, if there are
  -- none, of the profile's and the environment's that the environment does not disable.
  pub reload-IsReloaded :
      (make : Text → Option P) (dexes : Slugs) (env_enable env_disable : Text) (op : Toggles)
      → IsReloaded make dexes env_enable env_disable op
          (reload make dexes env_enable env_disable op)
  unfolding reload
  reload-IsReloaded make dexes env_enable env_disable op =
      let names : List Text = sorted_set (enabled_set dexes env_enable env_disable op) in
      let sorted =
        All-sorted_set (IsAllowed dexes env_enable env_disable op)
          (enabled_set dexes env_enable env_disable op)
          (In-All _ (enabled_set dexes env_enable env_disable op)
            (enabled_set-IsAllowed dexes env_enable env_disable op)) in
      record {
        same_names = refl;
        allowed =
            All-map _ _ (names_in (build make names)) (λ m h. (All-In _ names m sorted h.0, h.1))
              (build-IsBuilt make names);
      }

  -- The packs of a registry are among its enabled names.
  abbrev pub IsConsistent : Registry P → Type 0
  IsConsistent r = All (λ n. In n r.enabled) (names_in r.packs)

  keep_named-In :
      (names : List Text) (packs : Dict P)
      → All (λ n. In n names × In n (names_in packs)) (names_in (keep_named names packs))
  keep_named-In names [] = tt
  keep_named-In names ((n, p) ∷ packs) =
      let later =
        All-map _ (λ m. In m names × In m (n ∷ names_in packs)) (names_in (keep_named names packs))
          (λ m h. (h.0, inr h.1)) (keep_named-In names packs) in
      elim (Bool-cases (member n names)) [
        | inl e ↦ rw e ((member-In n names e, inl refl), later)
        | inr e ↦ rw e later
      ]

  -- What a toggle leaves.
  pub record IsToggled (enabled disabled : List Text) (r r' : Registry P) : Type 0 where
    pub consistent : IsConsistent r'
    pub no_new : All (λ n. In n (names_in r.packs)) (names_in r'.packs)
    pub not_disabled : All (λ n. member n (slugs_in disabled) ≡ false) r'.enabled
    pub known : All (λ n. In n (r.enabled ++ slugs_in enabled)) r'.enabled

  -- A toggle adds no pack, even for a name that it enables; what it disables is neither an enabled
  -- name nor a pack; and the packs are among the enabled names.
  pub apply_runtime_toggle-IsToggled :
      (enabled disabled : List Text) (r : Registry P)
      → IsToggled enabled disabled r (apply_runtime_toggle enabled disabled r)
  unfolding apply_runtime_toggle
  apply_runtime_toggle-IsToggled enabled disabled r =
      let names : List Text = without (r.enabled ++ slugs_in enabled) (slugs_in disabled) in
      let parts : All
          (λ n. In n (r.enabled ++ slugs_in enabled) × (not (member n (slugs_in disabled)) ≡ true))
          names =
        (In-All _ names (λ n m.
          In-keep (λ x. not (member x (slugs_in disabled))) n (r.enabled ++ slugs_in enabled) m)) in
      record {
        consistent =
            All-map _ _ (names_in (keep_named names r.packs)) (λ n h. h.0)
              (keep_named-In names r.packs);
        no_new =
            All-map _ _ (names_in (keep_named names r.packs)) (λ n h. h.1)
              (keep_named-In names r.packs);
        not_disabled = All-map _ _ names (λ n h. ground (arith, h.1)) parts;
        known = All-map _ _ names (λ n h. h.0) parts;
      }
