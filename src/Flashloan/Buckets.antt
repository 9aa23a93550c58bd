-- ===== src/Flashloan/Buckets.antt =====
-- The words that decide the bucket of a failed simulation (strategies/flashloan_arb.py).
use mev_bot.Base.{
  ◌≡◌, refl, ap, ◌∙◌, Bool, true, false, not, ◌&&◌, ◌||◌, ◌==◌, List, [], ◌∷◌, ◌++◌, arith, any,
  map,
}
use mev_bot.Base.Text.{Text, codes, starts_with, contains, norm, lower}
use mev_bot.Flashloan.{join_spaces, bucket_by, bucket_sim_failure}

-- A text without spaces.
abbrev no_space : Text → Bool
no_space [] = true
no_space (c ∷ cs) = not (c == 32) && no_space cs

abbrev is_word : Text → Bool
is_word [] = false
is_word (c ∷ cs) = no_space (c ∷ cs)

starts_with_space :
    (p s rest : Text) → no_space p ≡ true → starts_with p (s ++ 32 ∷ rest) ≡ starts_with p s
unfolding starts_with
starts_with_space [] s rest h = refl
starts_with_space (c ∷ cs) [] rest h = ground arith
starts_with_space (c ∷ cs) (d ∷ ds) rest h = ground (arith, starts_with_space cs ds rest)

starts_with_empty : (p : Text) → is_word p ≡ true → starts_with p [] ≡ false
unfolding starts_with
starts_with_empty [] h = cc
starts_with_empty (c ∷ cs) h = refl

word_no_space : (p : Text) → is_word p ≡ true → no_space p ≡ true
word_no_space [] h = refl
word_no_space (c ∷ cs) h = h

contains_space :
    (p s t : Text) → is_word p ≡ true → contains p (s ++ 32 ∷ t) ≡ (contains p s || contains p t)
unfolding contains
contains_space p [] t h =
    ground (arith, starts_with_space p [] t (word_no_space p h), starts_with_empty p h)
contains_space p (d ∷ ds) t h =
    ground (arith, contains_space p ds t h, starts_with_space p (d ∷ ds) t (word_no_space p h))

-- A word stands in texts that are joined by spaces just when it stands in one of them.
contains-join_spaces :
    (p t : Text) (us : List Text)
    → is_word p ≡ true
    → contains p (join_spaces t us) ≡ any (contains p) (t ∷ us)
unfolding join_spaces
contains-join_spaces p t [] h = ground arith
contains-join_spaces p t (u ∷ us) h =
    contains_space p t (join_spaces u us) h
    ∙ ap (λ b. contains p t || b) (contains-join_spaces p u us h)

-- The bucket depends only on which of the words stand in the code, in the message or in a single log:
-- no word is made by joining them.
pub bucket_sim_failure_lem :
    (error_code error_message : Text) (logs : List Text)
    → bucket_sim_failure error_code error_message logs
      ≡ bucket_by
          (λ w. any (contains w) (norm error_code ∷ norm error_message ∷ map (λ x. lower x) logs))
unfolding bucket_sim_failure
bucket_sim_failure_lem error_code error_message logs =
    let parts : List Text = norm error_message ∷ map (λ x. lower x) logs in
    let e : (w : Text)
        → is_word w ≡ true
        → contains w (join_spaces (norm error_code) parts)
          ≡ any (contains w) (norm error_code ∷ parts) =
      (λ w h. contains-join_spaces w (norm error_code) parts h) in
    rw
      (
        e (codes "insufficient") refl,
        e (codes "liquidity") refl,
        e (codes "slippage") refl,
        e (codes "min_out") refl,
        e (codes "repay") refl,
        e (codes "flashloan") refl,
        e (codes "revert") refl,
        e (codes "timeout") refl,
        e (codes "rpc") refl,
      )
      refl
