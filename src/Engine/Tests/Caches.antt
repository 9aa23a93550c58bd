-- ===== src/Engine/Tests/Caches.antt =====
-- Runs of the nonce manager, the blockhash manager and `reconcile_trade` at concrete inputs.
use mev_bot.Engine.Tests.{dollars}
use mev_bot.Base.{ℕ, ◌≡◌, refl, true, false, none, some, List, [], ◌∷◌}
use mev_bot.Base.Text.{Text, codes, lower, text_eq}
use mev_bot.Base.Dict.{get, put}
use mev_bot.Base.Result.{Result, ok, raise}
use mev_bot.Base.Float.Ints.{Ext, fixed_floats}
use mev_bot.Base.Int.{◌-ℤ◌}
use mev_bot.Base.Float.{fmax}
use mev_bot.Engine.Nonces.{NonceManager, new_manager, next_nonce, finish, begin, resume, store}
use mev_bot.Engine.Nonces.Sequence.{
  next_nonces, next_nonces_consecutive, counted, Close, Holds, next_nonce_race,
}
use mev_bot.Engine.Blockhash.{truthy, BlockhashManager, new_blockhashes}
use mev_bot.Engine.Reconcile.{ReconcileInput}

abbrev wallet : Text
wallet = codes "0xAb"

-- Nothing is held, and a nonce lives ten seconds.
abbrev fresh_nonces : NonceManager fixed_floats
fresh_nonces = new_manager fixed_floats (dollars 10)

abbrev count_is_5 : Result Text ℕ
count_is_5 = ok 5

-- The nonce 6 is held since the second 100.
abbrev held_nonces : NonceManager fixed_floats
held_nonces = (next_nonce fixed_floats wallet (dollars 100) count_is_5 fresh_nonces).1

held : Holds fixed_floats (lower wallet) 6 (dollars 100) held_nonces
unfolding next_nonce begin finish store new_manager lower get put text_eq
held = record { nonce = refl; used = refl }

abbrev times : List Ext
times = dollars 104 ∷ dollars 109 ∷ dollars 112 ∷ []

close : Close fixed_floats held_nonces.ttl_s (dollars 100) times
unfolding next_nonce begin finish store new_manager lower get put text_eq ◌-ℤ◌ fmax
close = (refl, (refl, (refl, tt)))

next_nonces_consecutive_example :
    next_nonces fixed_floats wallet count_is_5 times held_nonces ≡ counted fixed_floats 6 times
next_nonces_consecutive_example =
    next_nonces_consecutive fixed_floats wallet count_is_5 times 6 (dollars 100) held_nonces held
      close

stale : fixed_floats.at_most (fixed_floats.sub (dollars 112) (dollars 0)) held_nonces.ttl_s ≡ false
unfolding next_nonce begin finish store new_manager lower get put text_eq ◌-ℤ◌ fmax
stale = refl

none_held : get (lower wallet) fresh_nonces.nonce ≡ none
unfolding new_manager get
none_held = refl

next_nonce_race_example :
    let a = lower wallet in
    let (first, m₁) = begin fixed_floats a (dollars 1) fresh_nonces in
    let (second, m₂) = begin fixed_floats a (dollars 2) m₁ in
    let (r, m₃) = resume fixed_floats a (dollars 1) count_is_5 (first, m₂) in
    let (r', m₄) = resume fixed_floats a (dollars 2) count_is_5 (second, m₃) in
    (r ≡ ok 5) × (r' ≡ ok 5)
next_nonce_race_example =
    next_nonce_race fixed_floats wallet (dollars 1) (dollars 2) 5 fresh_nonces count_is_5 none_held
      refl

abbrev blockhashes : BlockhashManager fixed_floats
blockhashes = new_blockhashes fixed_floats (dollars 20)

abbrev hash_answer : Result Text Text
hash_answer = ok (codes "9xQe")

abbrev network_down : Result Text Text
network_down = raise (codes "down")

nothing_cached : truthy blockhashes.value ≡ false
unfolding new_blockhashes
nothing_cached = refl

within_ttl :
    fixed_floats.at_most (fixed_floats.sub (dollars 15) (dollars 1)) blockhashes.ttl_s ≡ true
unfolding new_blockhashes ◌-ℤ◌ fmax
within_ttl = refl

-- A trade that reverted after three seconds.
abbrev reverted_trade : ReconcileInput fixed_floats
reverted_trade = record {
  tx_hash = codes "0x1";
  sent_ts = dollars 10;
  confirmed_ts = some (dollars 13);
  gross_pnl_usd = dollars 0;
  fees_usd = dollars 2;
  expected_out = some (dollars 100);
  actual_out = some (dollars 98);
  revert_reason = some (codes "execution reverted");
  success = false;
}
