-- ===== src/Control/Freshness.antt =====
-- How old the state is that `get_operator_state` (bot/core/operator_control.py) returns.
use mev_bot.Base.{
  ℕ, ◌≡◌, refl, sym, ap, ◌∙◌, inl, inr, Bool, true, false, ◌&&◌, Option, none, some, arith,
  Bool-cases, ==_iff,
}
use mev_bot.Base.Text.{Text, text_eq, text_eq→eq}
use mev_bot.Base.Float.{FloatModel, below}
use mev_bot.Control.{
  RawControl, ControlFile, Cached, mtime_of, contents, same_mtime, read_control, load,
  get_operator_state,
}

same_mtime→eq : (a b : Option ℕ) → same_mtime a b ≡ true → a ≡ b
same_mtime→eq none none h = refl
same_mtime→eq none (some n) h = cc
same_mtime→eq (some m) none h = cc
same_mtime→eq (some m) (some n) h = ap some ((==_iff m n).0 h)

module _ (F : FloatModel) (V : Type 0) where
  open F use {Float, at_most, sub, lit}

  -- A change of the file at a path changes its time: what it holds is a function of that time.
  abbrev pub History : Type 0
  History = Text → ℕ → Option (RawControl V)

  abbrev pub file_at : History → Text → Option ℕ → ControlFile V
  file_at history path none = none
  file_at history path (some t) = some (t, history path t)

  -- The cache holds what the file at its path was at its time.
  abbrev pub IsCoherent : History → Option (Cached F V) → Type 0
  IsCoherent history none = Unit
  IsCoherent history (some c) = c.value ≡ read_control (contents (file_at history c.path c.mtime))

  -- The cache was checked at its path less than a second ago.
  abbrev pub checked_lately : Text → Float → Option (Cached F V) → Bool
  checked_lately path now none = false
  checked_lately path now (some c) = text_eq c.path path && below F (sub now c.ts) (lit 10 1)

  mtime_of-file_at :
      (history : History) (path : Text) (t : Option ℕ) → mtime_of (file_at history path t) ≡ t
  mtime_of-file_at history path none = refl
  mtime_of-file_at history path (some t) = refl

  -- What a call returns, and that it leaves the cache coherent.
  pub record IsFresh (history : History) (path : Text) (now : Float) (t : Option ℕ)
      (c : Option (Cached F V)) : Type 0 where
    pub coherent :
        IsCoherent history (some (get_operator_state F path now (file_at history path t) c).1)
    pub current :
        checked_lately path now c ≡ false
        → (get_operator_state F path now (file_at history path t) c).0
          ≡ read_control (contents (file_at history path t))

  loaded :
      (history : History) (path : Text) (now : Float) (t : Option ℕ)
      → IsCoherent history (some (load F path now (file_at history path t)).1)
  unfolding load
  loaded history path now t =
      ap (λ m. read_control (contents (file_at history path m)))
        (sym (mtime_of-file_at history path t))

  -- With a coherent cache, a state that was not checked within the last second is that of the file as
  -- it is now, and the cache stays coherent.
  pub get_operator_state-IsFresh :
      (history : History) (path : Text) (now : Float) (t : Option ℕ) (c : Option (Cached F V))
      → IsCoherent history c
      → IsFresh history path now t c
  unfolding get_operator_state load
  get_operator_state-IsFresh history path now t none h = record {
    coherent = loaded history path now t;
    current = λ l. refl;
  }
  get_operator_state-IsFresh history path now t (some c) h =
      elim (Bool-cases (text_eq c.path path && below F (sub now c.ts) (lit 10 1))) [
        | inl e ↦ record { coherent = rw (get_operator_state, e) h; current = λ l. absurd cc }
        | inr e ↦
            elim (Bool-cases
              (text_eq c.path path && same_mtime c.mtime (mtime_of (file_at history path t)))) [
                | inr k ↦ record {
                  coherent = rw (get_operator_state, e, k) (loaded history path now t);
                  current = λ l. rw (get_operator_state, e, k) refl;
                }
                | inl k ↦
                    let path_same : c.path ≡ path = text_eq→eq c.path path (ground (arith, k)) in
                    let time_same : c.mtime ≡ t =
                      same_mtime→eq c.mtime (mtime_of (file_at history path t)) (ground (arith, k))
                      ∙ mtime_of-file_at history path t in
                    record {
                      coherent = rw (get_operator_state, e, k) h;
                      current = λ l.
                          rw (get_operator_state, e, k)
                            (h
                              ∙ (ap (λ p. read_control (contents (file_at history p c.mtime)))
                                    path_same
                                  ∙ ap (λ m. read_control (contents (file_at history path m)))
                                      time_same));
                    }
              ]
      ]
