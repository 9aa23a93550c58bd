-- ===== src/Base/Lists.antt =====
-- Lists measured by native numbers, under the library's names; predicates on lists by recursion,
-- and the bounded append of Python's `deque(maxlen=…)`.
use Prim.Native.Nat.{ℕ, zero, suc, ◌+◌, ◌-◌, ◌≤◌}
use mathlib.Core.Path.{◌≡◌, refl, ap}
use mathlib.Core.Logic.{◌⊎◌, inl, inr}
use mathlib.Core.Bool.{Bool, true, false, ◌||◌}
use mathlib.Core.List.{List, [], ◌∷◌, ◌++◌}
use mathlib.Core.Option.{Option, none, some}
use native.Mathlib.Omega.{arith}
use native.Mathlib.Nat.{zero-add, suc-add}
use mev_bot.Base.Tests.{if◌then◌else◌}

sub_small : (m n : ℕ) → m ≤ n → ◌≡◌ {A = ℕ} (m - n) 0
sub_small m n h = omega arith

module _ {ℓ} {A : Type ℓ} where
  abbrev pub length : List A → ℕ
  length [] = 0
  length (x ∷ xs) = suc (length xs)

  abbrev pub is_empty : List A → Bool
  is_empty [] = true
  is_empty (x ∷ xs) = false

  abbrev pub get_elem? : List A → ℕ → Option A
  get_elem? [] i = none
  get_elem? (x ∷ xs) zero = some x
  get_elem? (x ∷ xs) (suc i) = get_elem? xs i

  abbrev pub take : ℕ → List A → List A
  take zero xs = []
  take (suc n) [] = []
  take (suc n) (x ∷ xs) = x ∷ take n xs

  abbrev pub drop : ℕ → List A → List A
  drop zero xs = xs
  drop (suc n) [] = []
  drop (suc n) (x ∷ xs) = drop n xs

  -- `[x for x in xs if p(x)]`
  abbrev pub keep : (A → Bool) → List A → List A
  keep p [] = []
  keep p (x ∷ xs) = if p x then x ∷ keep p xs else keep p xs

  -- `any(p(x) for x in xs)`
  abbrev pub any : (A → Bool) → List A → Bool
  any p [] = false
  any p (x ∷ xs) = p x || any p xs

  pub length-append : (xs ys : List A) → length (xs ++ ys) ≡ length xs + length ys
  length-append [] ys = omega arith
  length-append (x ∷ xs) ys = omega (arith, length-append xs ys)

  pub length-drop : (n : ℕ) (xs : List A) → length (drop n xs) ≡ length xs - n
  length-drop zero xs = omega arith
  length-drop (suc n) [] = omega arith
  length-drop (suc n) (x ∷ xs) = omega (arith, length-drop n xs)

  pub drop-drop : (m n : ℕ) (xs : List A) → drop m (drop n xs) ≡ drop (n + m) xs
  drop-drop m zero xs = rw zero-add
  drop-drop zero (suc n) [] = rw suc-add
  drop-drop (suc m) (suc n) [] = rw suc-add
  drop-drop m (suc n) (x ∷ xs) = rw suc-add (drop-drop m n xs)

  pub drop-append : (n : ℕ) (xs ys : List A) → n ≤ length xs → drop n xs ++ ys ≡ drop n (xs ++ ys)
  drop-append zero xs ys h = refl
  drop-append (suc n) [] ys h = absurd (omega arith)
  drop-append (suc n) (x ∷ xs) ys h = drop-append n xs ys (omega arith)

module _ {ℓ} {A : Type ℓ} where
  -- `dq.append(x)` on a deque with a maximal length: the oldest item falls out on the left.
  abbrev pub push_bounded : ℕ → A → List A → List A
  push_bounded cap x xs = drop (length xs + 1 - cap) (xs ++ x ∷ [])

  pub length-push_bounded :
      (cap : ℕ) (x : A) (xs : List A) → length xs ≤ cap → length (push_bounded cap x xs) ≤ cap
  length-push_bounded cap x xs h =
      omega (arith, length-drop (length xs + 1 - cap) (xs ++ x ∷ []), length-append xs (x ∷ []))

  -- The last `cap` items.
  abbrev pub last_items : ℕ → List A → List A
  last_items cap xs = drop (length xs - cap) xs

  -- Pushing onto a full or partly filled deque keeps the last items of the sequence that was pushed.
  pub last_items-push_bounded :
      (cap : ℕ) (x : A) (xs ys : List A)
      → length xs ≤ cap
      → last_items cap (push_bounded cap x xs ++ ys) ≡ last_items cap ((xs ++ x ∷ []) ++ ys)
  last_items-push_bounded cap x xs ys h =
      let whole : List A = xs ++ x ∷ [] in
      let k : ℕ = length xs + 1 - cap in
      let n : ℕ = length whole in
      let size = length-append xs (x ∷ []) in
      rw (drop-append k whole ys (omega (arith, size))) (
        rw drop-drop (
          ap (λ m. drop m (whole ++ ys))
            (omega (arith, size, length-append whole ys, length-drop k (whole ++ ys)))))

  pub last_items_all : (cap : ℕ) (xs : List A) → length xs ≤ cap → last_items cap xs ≡ xs
  last_items_all cap xs h = ap (λ m. drop m xs) (sub_small (length xs) cap h)

  pub length-push_bounded_le :
      (cap : ℕ) (x : A) (xs : List A) → length (push_bounded cap x xs) ≤ length xs + 1
  length-push_bounded_le cap x xs =
      omega (arith, length-drop (length xs + 1 - cap) (xs ++ x ∷ []), length-append xs (x ∷ []))

  -- Every item satisfies the predicate.
  abbrev pub All {κ} : (A → Type κ) → List A → Type κ
  All P [] = Unit
  All P (x ∷ xs) = P x × All P xs

  pub All-append {κ} : (P : A → Type κ) (xs ys : List A) → All P xs → All P ys → All P (xs ++ ys)
  All-append P [] ys h k = k
  All-append P (x ∷ xs) ys h k = (h.0, All-append P xs ys h.1 k)

  pub All-drop {κ} : (P : A → Type κ) (n : ℕ) (xs : List A) → All P xs → All P (drop n xs)
  All-drop P zero xs h = h
  All-drop P (suc n) [] h = tt
  All-drop P (suc n) (x ∷ xs) h = All-drop P n xs h.1

  pub All-map {κ μ} :
      (P : A → Type κ) (Q : A → Type μ) (xs : List A) → ((a : A) → P a → Q a) → All P xs → All Q xs
  All-map P Q [] f h = tt
  All-map P Q (x ∷ xs) f h = (f x h.0, All-map P Q xs f h.1)

module _ {A : Type 0} where
  -- The item stands in the list.
  abbrev pub In : A → List A → Type 0
  In a [] = ⊥
  In a (x ∷ xs) = (a ≡ x) ⊎ In a xs

  pub In-append_left : (a : A) (xs ys : List A) → In a xs → In a (xs ++ ys)
  In-append_left a [] ys h = absurd h
  In-append_left a (x ∷ xs) ys (inl e) = inl e
  In-append_left a (x ∷ xs) ys (inr h) = inr (In-append_left a xs ys h)

  pub In-append_right : (a : A) (xs ys : List A) → In a ys → In a (xs ++ ys)
  In-append_right a [] ys h = h
  In-append_right a (x ∷ xs) ys h = inr (In-append_right a xs ys h)

  pub All-In {κ} : (P : A → Type κ) (xs : List A) (a : A) → All P xs → In a xs → P a
  All-In P [] a h m = absurd m
  All-In P (x ∷ xs) a h (inl e) = rw e h.0
  All-In P (x ∷ xs) a h (inr m) = All-In P xs a h.1 m

  pub In-All {κ} : (P : A → Type κ) (xs : List A) → ((a : A) → In a xs → P a) → All P xs
  In-All P [] f = tt
  In-All P (x ∷ xs) f = (f x (inl refl), In-All P xs (λ a m. f a (inr m)))
