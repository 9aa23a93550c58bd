-- ===== src/Base/Strip.antt =====
-- Python's `str.strip`, `str.lower` and `str.upper`, applied again or one after the other.
use mathlib.Core.List.{reverse, reverse_aux, reverse-reverse, reverse-append}
use mev_bot.Base.{
  ℕ, ◌≤◌, ◌≡◌, refl, sym, ap, ◌∙◌, false, [], ◌∷◌, ◌++◌, map, arith, length, is_empty, Bool-cases,
  inl, inr,
}
use mev_bot.Base.Text.{
  Text, lower_code, upper_code, lower, upper, is_space, drop_space, strip, norm,
}

length-drop_space : (s : Text) → length (drop_space s) ≤ length s
unfolding drop_space
length-drop_space [] = ground arith
length-drop_space (c ∷ cs) = ground (arith, length-drop_space cs)

drop_space-drop_space : (s : Text) → drop_space (drop_space s) ≡ drop_space s
unfolding drop_space
drop_space-drop_space [] = refl
drop_space-drop_space (c ∷ cs) = ground (arith, drop_space-drop_space cs)

-- What `lstrip` takes off.
drop_space_prefix : (s : Text) → (p : Text) × (s ≡ p ++ drop_space s)
unfolding drop_space
drop_space_prefix [] = ([], refl)
drop_space_prefix (c ∷ cs) = elim (Bool-cases (is_space c)) [
  | inl e ↦ (c ∷ (drop_space_prefix cs).0, rw e (ap (λ t. c ∷ t) (drop_space_prefix cs).1))
  | inr e ↦ ([], rw e refl)
]

-- The front of a text that `lstrip` leaves alone is left alone.
drop_space_front : (xs ys : Text) → drop_space (xs ++ ys) ≡ xs ++ ys → drop_space xs ≡ xs
unfolding drop_space
drop_space_front [] ys h = refl
drop_space_front (c ∷ cs) ys h = elim (Bool-cases (is_space c)) [
  | inl e ↦
      let short = length-drop_space (cs ++ ys) in
      let long : length (drop_space (cs ++ ys)) ≡ length (c ∷ (cs ++ ys)) = ap length (rw e at h) in
      absurd (omega (arith, short, long))
  | inr e ↦ rw e refl
]

drop_space-strip : (s : Text) → drop_space (strip s) ≡ strip s
unfolding strip
drop_space-strip s =
    let a = drop_space s in
    let b = drop_space (reverse a) in
    let (p, e) = drop_space_prefix (reverse a) in
    let whole : a ≡ reverse b ++ reverse p =
      sym (reverse-reverse a) ∙ ap reverse e ∙ reverse-append p b in
    drop_space_front (reverse b) (reverse p)
      (ap drop_space (sym whole) ∙ drop_space-drop_space s ∙ whole)

pub strip-strip : (s : Text) → strip (strip s) ≡ strip s
unfolding strip
strip-strip s =
    let b = drop_space (reverse (drop_space s)) in
    rw (drop_space-strip s) (
      ap (λ t. reverse (drop_space t)) (reverse-reverse b)
      ∙ ap reverse (drop_space-drop_space (reverse (drop_space s))))

drop_space_append :
    (xs ys : Text) → is_empty xs ≡ false → drop_space xs ≡ xs → drop_space (xs ++ ys) ≡ xs ++ ys
unfolding drop_space
drop_space_append [] ys n h = cc
drop_space_append (c ∷ cs) ys n h = elim (Bool-cases (is_space c)) [
  | inl e ↦
      let short = length-drop_space cs in
      let long : length (drop_space cs) ≡ length (c ∷ cs) = ap length (rw e at h) in
      absurd (omega (arith, short, long))
  | inr e ↦ rw e refl
]

drop_space-reverse : (s : Text) → strip s ≡ s → drop_space (reverse s) ≡ reverse s
unfolding strip
drop_space-reverse s e =
    let b = drop_space (reverse (drop_space s)) in
    let back : reverse s ≡ b = ap reverse (sym e) ∙ reverse-reverse b in
    ap drop_space back ∙ drop_space-drop_space (reverse (drop_space s)) ∙ sym back

reverse_not_empty : (s : Text) → is_empty (reverse s) ≡ false → is_empty s ≡ false
reverse_not_empty [] h = cc
reverse_not_empty (c ∷ cs) h = refl

-- A text that `strip` leaves alone stays so behind a character that is no white space.
pub strip_prefix :
    (c : ℕ) (cs s : Text)
    → is_space c ≡ false
    → is_empty s ≡ false
    → strip s ≡ s
    → strip ((c ∷ cs) ++ s) ≡ (c ∷ cs) ++ s
unfolding strip
strip_prefix c cs s h n e =
    let whole : Text = (c ∷ cs) ++ s in
    let left : drop_space whole ≡ whole = unfold drop_space in rw h refl in
    let some_back = reverse_not_empty (reverse s) (rw (reverse-reverse s) n) in
    let right : drop_space (reverse whole) ≡ reverse whole =
      rw (reverse-append (c ∷ cs) s)
        (drop_space_append (reverse s) (reverse (c ∷ cs)) some_back (drop_space-reverse s e)) in
    ap (λ t. reverse (drop_space (reverse t))) left ∙ ap reverse right ∙ reverse-reverse whole

-- A change of each character that neither makes nor removes white space.
module _ (f : ℕ → ℕ) (same : (c : ℕ) → is_space (f c) ≡ is_space c) where
  drop_space-map : (s : Text) → drop_space (map f s) ≡ map f (drop_space s)
  unfolding drop_space
  drop_space-map [] = refl
  drop_space-map (c ∷ cs) = ground (arith, same c, drop_space-map cs)

  reverse_aux-map : (s t : Text) → reverse_aux (map f s) (map f t) ≡ map f (reverse_aux s t)
  reverse_aux-map [] t = refl
  reverse_aux-map (c ∷ cs) t = reverse_aux-map cs (c ∷ t)

  reverse-map : (s : Text) → reverse (map f s) ≡ map f (reverse s)
  reverse-map s = reverse_aux-map s []

  strip-map : (s : Text) → strip (map f s) ≡ map f (strip s)
  unfolding strip
  strip-map s = rw (drop_space-map s, reverse-map, drop_space-map, reverse-map) refl

is_space-lower_code : (c : ℕ) → is_space (lower_code c) ≡ is_space c
is_space-lower_code c = ground arith

is_space-upper_code : (c : ℕ) → is_space (upper_code c) ≡ is_space c
is_space-upper_code c = ground arith

lower_code-lower_code : (c : ℕ) → lower_code (lower_code c) ≡ lower_code c
lower_code-lower_code c = ground arith

upper_code-upper_code : (c : ℕ) → upper_code (upper_code c) ≡ upper_code c
upper_code-upper_code c = ground arith

pub lower-lower : (s : Text) → lower (lower s) ≡ lower s
unfolding lower
lower-lower [] = refl
lower-lower (c ∷ cs) = ground (arith, lower_code-lower_code c, lower-lower cs)

pub upper-upper : (s : Text) → upper (upper s) ≡ upper s
unfolding upper
upper-upper [] = refl
upper-upper (c ∷ cs) = ground (arith, upper_code-upper_code c, upper-upper cs)

pub strip-lower : (s : Text) → strip (lower s) ≡ lower (strip s)
unfolding lower
strip-lower s = strip-map lower_code is_space-lower_code s

pub strip-upper : (s : Text) → strip (upper s) ≡ upper (strip s)
unfolding upper
strip-upper s = strip-map upper_code is_space-upper_code s

pub norm-norm : (s : Text) → norm (norm s) ≡ norm s
unfolding norm
norm-norm s = rw (strip-lower, strip-strip, lower-lower) refl
