-- ===== src/Base/Dict.antt =====
-- A Python dict keyed by texts, in insertion order.
use mev_bot.Base.{Bool, true, ◌≡◌, refl, Option, none, some, List, [], ◌∷◌, arith, if◌then◌else◌}
use mev_bot.Base.Text.{Text, text_eq, text_eq_iff}

abbrev pub Dict {ℓ} : Type ℓ → Type ℓ
Dict V = List (Text × V)

module _ {ℓ} {V : Type ℓ} where
  -- `d.get(k)`
  unfoldable pub get : Text → Dict V → Option V
  get k [] = none
  get k ((j, v) ∷ d) = if text_eq j k then some v else get k d

  -- `d[k] = v`
  unfoldable pub put : Text → V → Dict V → Dict V
  put k v [] = (k, v) ∷ []
  put k v ((j, w) ∷ d) = if text_eq j k then (j, v) ∷ d else (j, w) ∷ put k v d

  -- A read after a write.
  pub get-put :
      (k j : Text) (v : V) (d : Dict V)
      → get j (put k v d) ≡ (if text_eq k j then some v else get j d)
  unfolding get put
  get-put k j v [] = refl
  get-put k j v ((i, w) ∷ d) =
      ground (arith, text_eq_iff k j, text_eq_iff i k, text_eq_iff i j, get-put k j v d)

  -- `d.pop(k, None)`
  unfoldable pub pop : Text → Dict V → Dict V
  pop k [] = []
  pop k ((j, v) ∷ d) = if text_eq j k then pop k d else (j, v) ∷ pop k d

  -- The items whose value passes a test.
  unfoldable pub keep_values : (V → Bool) → Dict V → Dict V
  keep_values p [] = []
  keep_values p ((j, v) ∷ d) = if p v then (j, v) ∷ keep_values p d else keep_values p d

  -- A read after a removal.
  pub get-pop :
      (k j : Text) (d : Dict V) → get j (pop k d) ≡ (if text_eq k j then none else get j d)
  unfolding get pop
  get-pop k j [] = ground arith
  get-pop k j ((i, w) ∷ d) =
      ground (arith, text_eq_iff k j, text_eq_iff i k, text_eq_iff i j, get-pop k j d)

  pub get-keep_values-none :
      (k : Text) (p : V → Bool) (d : Dict V) → get k d ≡ none → get k (keep_values p d) ≡ none
  unfolding get keep_values
  get-keep_values-none k p [] h = refl
  get-keep_values-none k p ((j, v) ∷ d) h = ground (arith, get-keep_values-none k p d)

  pub get-keep_values-some :
      (k : Text) (p : V → Bool) (d : Dict V) (v : V)
      → get k d ≡ some v
      → p v ≡ true
      → get k (keep_values p d) ≡ some v
  unfolding get keep_values
  get-keep_values-some k p [] v h t = cc
  get-keep_values-some k p ((j, w) ∷ d) v h t = ground (arith, get-keep_values-some k p d v)
