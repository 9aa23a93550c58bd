-- ===== src/Operator/Sets.antt =====
-- The normalised lists of slugs and the sorted sets of ops/operator_state.py, taken again.
use mev_bot.Base.{
  ◌≡◌, refl, ap, ◌∙◌, Bool, true, false, not, ◌&&◌, List, [], ◌∷◌, ◌++◌, All, In, is_empty, arith,
  inl, inr, Bool-cases, All-In,
}
use mev_bot.Base.Text.{
  Text, text_eq, text_eq→eq, text_eq_refl, text_eq_iff, text_leb, text_leb_trans, text_leb_total,
  norm,
}
use mev_bot.Base.Parse.{split_commas}
use mev_bot.Base.Strip.{norm-norm}
use mev_bot.Canonical.Idempotent.{IsNormal}
use mev_bot.Operator.{
  Slugs, no_slugs, other_value, csv, items, slugs_of, normalize_slug_list, insert_once, sorted_set,
}

text_leb_antisym : (s t : Text) → text_leb s t ≡ true → text_leb t s ≡ true → s ≡ t
unfolding text_leb
text_leb_antisym [] [] h k = refl
text_leb_antisym [] (d ∷ ds) h k = cc
text_leb_antisym (c ∷ cs) [] h k = cc
text_leb_antisym (c ∷ cs) (d ∷ ds) h k = ground (arith, text_leb_antisym cs ds)

-- In order and without repetitions.
abbrev pub before : Text → Text → Bool
before x y = text_leb x y && not (text_eq x y)

abbrev pub IsStrict : List Text → Type 0
IsStrict [] = Unit
IsStrict (x ∷ xs) = All (λ y. before x y ≡ true) xs × IsStrict xs

pub In-insert_once : (a x : Text) (xs : List Text) → In a xs → In a (insert_once x xs)
unfolding insert_once
In-insert_once a x [] h = absurd h
In-insert_once a x (y ∷ ys) h = elim (Bool-cases (text_eq x y)) [
  | inl e ↦ rw e h
  | inr e ↦ elim (Bool-cases (text_leb x y)) [
    | inl f ↦ rw (e, f) (inr h)
    | inr f ↦
        rw (e, f) (elim h [ inl same ↦ inl same | inr later ↦ inr (In-insert_once a x ys later) ])
  ]
]

pub In-insert_once_self : (x : Text) (xs : List Text) → In x (insert_once x xs)
unfolding insert_once
In-insert_once_self x [] = inl refl
In-insert_once_self x (y ∷ ys) = elim (Bool-cases (text_eq x y)) [
  | inl e ↦ rw e (inl (text_eq→eq x y e))
  | inr e ↦ elim (Bool-cases (text_leb x y)) [
    | inl f ↦ rw (e, f) (inl refl)
    | inr f ↦ rw (e, f) (inr (In-insert_once_self x ys))
  ]
]

pub In-sorted_set : (a : Text) (xs : List Text) → In a xs → In a (sorted_set xs)
unfolding sorted_set
In-sorted_set a [] h = absurd h
In-sorted_set a (x ∷ xs) (inl e) = rw e (In-insert_once_self x (sorted_set xs))
In-sorted_set a (x ∷ xs) (inr h) = In-insert_once a x (sorted_set xs) (In-sorted_set a xs h)

All-insert_once {κ} :
    (P : Text → Type κ) (x : Text) (xs : List Text) → P x → All P xs → All P (insert_once x xs)
unfolding insert_once
All-insert_once P x [] p h = (p, tt)
All-insert_once P x (y ∷ ys) p h = elim (Bool-cases (text_eq x y)) [
  | inl e ↦ rw e h
  | inr e ↦ elim (Bool-cases (text_leb x y)) [
    | inl f ↦ rw (e, f) (p, h)
    | inr f ↦ rw (e, f) (h.0, All-insert_once P x ys p h.1)
  ]
]

pub All-sorted_set {κ} : (P : Text → Type κ) (xs : List Text) → All P xs → All P (sorted_set xs)
unfolding sorted_set
All-sorted_set P [] h = tt
All-sorted_set P (x ∷ xs) h = All-insert_once P x (sorted_set xs) h.0 (All-sorted_set P xs h.1)

before_trans : (x y z : Text) → before x y ≡ true → before y z ≡ true → before x z ≡ true
before_trans x y z h k =
    ground (arith, text_leb_trans x y z, text_leb_antisym x y, text_eq_iff x z, text_eq_iff x y)

after-All :
    (x y : Text) (ys : List Text)
    → before x y ≡ true
    → All (λ z. before y z ≡ true) ys
    → All (λ z. before x z ≡ true) ys
after-All x y [] h k = tt
after-All x y (z ∷ zs) h k = (before_trans x y z h k.0, after-All x y zs h k.1)

insert_once-IsStrict : (x : Text) (xs : List Text) → IsStrict xs → IsStrict (insert_once x xs)
unfolding insert_once
insert_once-IsStrict x [] h = (tt, tt)
insert_once-IsStrict x (y ∷ ys) h = elim (Bool-cases (text_eq x y)) [
  | inl e ↦ rw e h
  | inr e ↦ elim (Bool-cases (text_leb x y)) [
    | inl f ↦
        let less : before x y ≡ true = rw (e, f) refl in
        rw (e, f) ((less, after-All x y ys less h.0), h)
    | inr f ↦
        let more : before y x ≡ true =
          ground (arith, e, text_leb_total x y f, text_eq_iff x y, text_eq_iff y x) in
        rw (e, f)
          ((All-insert_once (λ z. before y z ≡ true) x ys more h.0, insert_once-IsStrict x ys h.1))
  ]
]

pub sorted_set-IsStrict : (xs : List Text) → IsStrict (sorted_set xs)
unfolding sorted_set
sorted_set-IsStrict [] = tt
sorted_set-IsStrict (x ∷ xs) = insert_once-IsStrict x (sorted_set xs) (sorted_set-IsStrict xs)

insert_once_member : (x : Text) (xs : List Text) → IsStrict xs → In x xs → insert_once x xs ≡ xs
unfolding insert_once
insert_once_member x [] h m = absurd m
insert_once_member x (y ∷ ys) h m = elim (Bool-cases (text_eq x y)) [
  | inl e ↦ rw e refl
  | inr e ↦
      let later : In x ys = elim m [
        | inl same ↦ cc (rw (same, text_eq_refl y) at e)
        | inr later ↦ later
      ] in
      let less = All-In (λ z. before y z ≡ true) ys x h.0 later in
      let above : text_leb x y ≡ false =
        ground (arith, e, less, text_leb_antisym x y, text_eq_iff x y) in
      rw (e, above) (ap (λ zs. y ∷ zs) (insert_once_member x ys h.1 later))
]

insert_once_first :
    (x : Text) (xs : List Text) → All (λ y. before x y ≡ true) xs → insert_once x xs ≡ x ∷ xs
unfolding insert_once
insert_once_first x [] h = refl
insert_once_first x (y ∷ ys) h = ground (arith, h.0)

sorted_set_fixed : (xs : List Text) → IsStrict xs → sorted_set xs ≡ xs
unfolding sorted_set
sorted_set_fixed [] h = refl
sorted_set_fixed (x ∷ xs) h =
    ap (insert_once x) (sorted_set_fixed xs h.1) ∙ insert_once_first x xs h.0

-- The items of a sorted set add nothing to it.
pub sorted_set_absorbs :
    (xs d : List Text) → IsStrict d → All (λ x. In x d) xs → sorted_set (xs ++ d) ≡ d
unfolding sorted_set
sorted_set_absorbs [] d h m = sorted_set_fixed d h
sorted_set_absorbs (x ∷ xs) d h m =
    ap (insert_once x) (sorted_set_absorbs xs d h m.1) ∙ insert_once_member x d h m.0

pub slugs_of-All : (xs : List Text) → All IsNormal (slugs_of xs)
unfolding slugs_of
slugs_of-All [] = tt
slugs_of-All (x ∷ xs) = elim (Bool-cases (is_empty (norm x))) [
  | inl e ↦ rw e (slugs_of-All xs)
  | inr e ↦ rw e (record { fixed = norm-norm x; some_text = e }, slugs_of-All xs)
]

pub normalize_slug_list-All : (v : Slugs) → All IsNormal (normalize_slug_list v)
unfolding normalize_slug_list
normalize_slug_list-All no_slugs = tt
normalize_slug_list-All (csv t) = slugs_of-All (split_commas t)
normalize_slug_list-All (items xs) = slugs_of-All xs
normalize_slug_list-All other_value = tt

pub slugs_of_fixed : (xs : List Text) → All IsNormal xs → slugs_of xs ≡ xs
unfolding slugs_of
slugs_of_fixed [] h = refl
slugs_of_fixed (x ∷ xs) h =
    rw (h.0.fixed, h.0.some_text) (ap (λ ys. x ∷ ys) (slugs_of_fixed xs h.1))
