-- ===== src/Orderflow/Attempts.antt =====
-- How often the router of bot/exec/orderflow.py calls its relays.
use mev_bot.Base.{
  ◌≡◌, refl, sym, ap, inl, inr, ℕ, zero, suc, ◌+◌, ◌*◌, ◌≤◌, Bool, true, false, not, Option, none,
  some, List, [], ◌∷◌, ◌++◌, length, keep, length-append, arith, Bool-cases, if◌then◌else◌,
}
use mev_bot.Base.Text.{Text, codes, text_eq, text_eq_iff, text_eq→eq, member}
use mev_bot.Base.Result.{Result, ok, raise}
use mev_bot.Base.Float.{FloatModel}
use mev_bot.Base.Dict.{get}
use mev_bot.State.{StateError}
use mev_bot.Invariants.{evaluate}
use mev_bot.Control.Reading.{gate_state}
use mev_bot.ExecGuard.{should_block_execution}
use mev_bot.Relays.{
  SubmitResult, Rules, promote, remove_first, demote_all, compute_route_sequence, execution_mode,
  virtual_result,
}
use mev_bot.Orderflow.{
  Attempt, Router, Outcome, sent, last_err, conclude, try_relay, submit_all, circuit_open, and_then,
  observe, record_relay, retried, result_of, Call, RouteError, send_or_virtual, route_guarded,
  past_state, past_gate, state_gate, operator_gate, route_and_submit,
}
use mev_bot.Orderflow.Gated.{gate_verdict-IsGate}

same_bound :
    (x : ℕ) {a a' m m' : ℕ} (order order' : List Text)
    → x ≤ a' + length order' * suc m'
    → a' ≡ a
    → order' ≡ order
    → m' ≡ m
    → x ≤ a + length order * suc m
same_bound x order order' h e f k = rw (← e, ← f, ← k) h

-- What a relay leaves to the others.
room :
    (a n m : ℕ) {a' x m' : ℕ}
    → m' ≡ m
    → a' ≤ a + suc m
    → x ≤ a' + n * suc m'
    → x ≤ a + suc n * suc m
room a n m e h k = omega (arith, h, rw e at k)

within : (a l m : ℕ) {l' x : ℕ} → l' ≤ l → x ≤ a + l' * m → x ≤ a + l * m
within a l m h k = grind (arith, h, k)

length-keep : {A : Type 0} (p : A → Bool) (xs : List A) → length (keep p xs) ≤ length xs
length-keep p [] = omega arith
length-keep p (x ∷ xs) = ground (arith, length-keep p xs)

-- Without the occurrences of a member a list is shorter.
length-keep-member :
    (n : Text) (xs : List Text)
    → member n xs ≡ true
    → suc (length (keep (λ x. not (text_eq x n)) xs)) ≤ length xs
unfolding member
length-keep-member n [] h = cc
length-keep-member n (x ∷ xs) h = elim (Bool-cases (text_eq n x)) [
  | inl e ↦
      let e' : text_eq x n ≡ true = (text_eq_iff x n).1 (sym (text_eq→eq n x e)) in
      rw e' (omega (arith, length-keep (λ x. not (text_eq x n)) xs))
  | inr e ↦ ground (arith, length-keep-member n xs (rw e at h))
]

length-promote : (n : Text) (xs : List Text) → length (promote n xs) ≤ length xs
length-promote n xs = elim (Bool-cases (member n xs)) [
  | inl m ↦ rw m (length-keep-member n xs m)
  | inr m ↦ rw m (omega arith)
]

length-remove_first :
    (n : Text) (xs : List Text) → member n xs ≡ true → suc (length (remove_first n xs)) ≡ length xs
unfolding member
length-remove_first n [] h = cc
length-remove_first n (x ∷ xs) h = elim (Bool-cases (text_eq x n)) [
  | inl e ↦ rw e refl
  | inr e ↦ elim (Bool-cases (text_eq n x)) [
    | inl e' ↦ cc ((text_eq_iff x n).1 (sym (text_eq→eq n x e')), e)
    | inr e' ↦ rw e (ap suc (length-remove_first n xs (rw e' at h)))
  ]
]

length-demote_all : (names xs : List Text) → length (demote_all names xs) ≤ length xs
length-demote_all [] xs = omega arith
length-demote_all (n ∷ names) xs = elim (Bool-cases (member n xs)) [
  | inl m ↦ rw m (
      omega (
        arith,
        length-demote_all names (remove_first n xs ++ n ∷ []),
        length-append (remove_first n xs) (n ∷ []),
        length-remove_first n xs m,
      ))
  | inr m ↦ rw m (length-demote_all names xs)
]

length-promote_if :
    (b : Bool) (n : Text) (xs : List Text) → length (if b then promote n xs else xs) ≤ length xs
length-promote_if true n xs = length-promote n xs
length-promote_if false n xs = omega arith

length-compute_route_sequence :
    (rules : Rules) (order : List Text) → length (compute_route_sequence rules order) ≤ length order
unfolding compute_route_sequence
length-compute_route_sequence rules order =
    let s1 : List Text =
      if rules.prefer_flashbots then promote (codes "flashbots_protect") order else order in
    let s2 : List Text = if rules.prefer_cow then promote (codes "cow_protocol") s1 else s1 in
    omega (
      arith,
      length-promote_if rules.prefer_flashbots (codes "flashbots_protect") order,
      length-promote_if rules.prefer_cow (codes "cow_protocol") s1,
      length-demote_all rules.avoid s2,
      length-promote_if rules.offchain_solver (codes "cow_protocol") (demote_all rules.avoid s2),
    )

module _ (F : FloatModel) where
  open F use {Float}

  -- The end of the attempts at a relay is no attempt and changes no configuration.
  conclude-counts :
      (relay : Text) (now : Float) (res : SubmitResult) (r : Router F)
      → (conclude F relay now res r).1.attempts ≡ r.attempts
        × (conclude F relay now res r).1.max_retries ≡ r.max_retries
  unfolding conclude record_relay
  conclude-counts relay now res r = elim (Bool-cases res.ok) [
    | inl h ↦ rw h (refl, refl)
    | inr h ↦ rw h (refl, refl)
  ]

  -- The result of the next attempt, and the router that has observed it.
  abbrev next_result : (ℕ → Attempt F) → Text → Router F → SubmitResult
  next_result answer relay r = result_of F relay (answer r.attempts).answer

  abbrev seen : (ℕ → Attempt F) → Text → Router F → Router F
  unfolding observe
  seen answer relay r = observe F (answer r.attempts) (next_result answer relay r).ok r

  try_relay-counts :
      (answer : ℕ → Attempt F) (relay : Text) (left : ℕ) (r : Router F)
      → (try_relay F answer relay left r).1.attempts ≤ r.attempts + suc left
        × (try_relay F answer relay left r).1.max_retries ≡ r.max_retries
  unfolding try_relay observe
  try_relay-counts answer relay zero r =
      let (c, m) =
        conclude-counts relay (answer r.attempts).ended_at (next_result answer relay r)
          (seen answer relay r) in
      (omega (arith, c), m)
  try_relay-counts answer relay (suc left) r =
      let (c, m) =
        conclude-counts relay (answer r.attempts).ended_at (next_result answer relay r)
          (seen answer relay r) in
      let (c', m') = try_relay-counts answer relay left (seen answer relay r) in
      elim (Bool-cases (retried F (next_result answer relay r))) [
        | inl h ↦ rw h (omega (arith, c'), m')
        | inr h ↦ rw h (omega (arith, c), m)
      ]

  and_then-attempts :
      (p : Outcome F × Router F) (next : Text → Router F → SubmitResult × Router F) (n : ℕ)
      → p.1.attempts ≤ n
      → ((e : Text) → (next e p.1).1.attempts ≤ n)
      → (and_then F p next).1.attempts ≤ n
  and_then-attempts (sent res, r) next n h k = h
  and_then-attempts (last_err e, r) next n h k = k e

  pub submit_all-attempts :
      (answer : ℕ → Attempt F) (clock : ℕ → Float) (i : ℕ) (relays : List Text) (last : Option Text)
      (r : Router F)
      → (submit_all F answer clock i relays last r).1.attempts
        ≤ r.attempts + length relays * suc r.max_retries
  unfolding submit_all
  submit_all-attempts answer clock i [] last r = omega arith
  submit_all-attempts answer clock i (relay ∷ relays) last r =
      elim (Bool-cases (circuit_open F (clock i) (get relay r.circuits))) [
        | inl h ↦
            rw (submit_all, h)
              (omega (arith, submit_all-attempts answer clock (suc i) relays last r))
        | inr h ↦
            let (c, m) = try_relay-counts answer relay r.max_retries r in
            rw (submit_all, h)
              (and_then-attempts (try_relay F answer relay r.max_retries r) _ _ (omega (arith, c))
                (λ e.
                  room r.attempts (length relays) r.max_retries m c
                    (submit_all-attempts answer clock (suc i) relays (some e) _)))
      ]

  send_or_virtual-attempts :
      {V : Type 0} (c : Call F V) (r : Router F) (virtual : Option SubmitResult)
      → (send_or_virtual F virtual c r).1.attempts ≤ r.attempts + length r.order * suc r.max_retries
  unfolding send_or_virtual
  send_or_virtual-attempts c r (some res) = omega arith
  send_or_virtual-attempts c r none =
      within r.attempts (length r.order) (suc r.max_retries)
        (length-compute_route_sequence c.rules r.order)
        (submit_all-attempts c.answer c.clock 0 (compute_route_sequence c.rules r.order) none r)

  route_guarded-attempts :
      {V : Type 0} (c : Call F V) (r : Router F)
      → (route_guarded F c r).1.attempts ≤ r.attempts + length r.order * suc r.max_retries
  unfolding route_guarded
  route_guarded-attempts c r = elim (Bool-cases (should_block_execution r.environ).0) [
    | inl g ↦ rw g (omega arith)
    | inr g ↦ rw g (send_or_virtual-attempts c r (virtual_result (execution_mode c.operator) c.ts))
  ]

  past_state-attempts :
      {V : Type 0} (c : Call F V) (v : Result StateError (Bool × Text)) (r : Router F)
      → (past_state F c v r).1.attempts ≤ r.attempts + length r.order * suc r.max_retries
  unfolding past_state
  past_state-attempts c (raise e) r = omega arith
  past_state-attempts c (ok (true, reason)) r = omega arith
  past_state-attempts c (ok (false, reason)) r = route_guarded-attempts c r

  past_gate-attempts :
      {V : Type 0} (c : Call F V) (g : Result (RouteError F) (Bool × Text)) (r : Router F)
      → (past_gate F c (g, r)).1.attempts ≤ r.attempts + length r.order * suc r.max_retries
  unfolding past_gate
  past_gate-attempts c (raise e) r = omega arith
  past_gate-attempts c (ok (true, reason)) r = omega arith
  past_gate-attempts c (ok (false, reason)) r = past_state-attempts c (state_gate F r) r

  -- However the relays answer, a call of `route_and_submit` makes at most `max_retries` + 1 attempts for
  -- each relay of the configured order.
  pub route_and_submit-attempts :
      {V : Type 0} (c : Call F V) (r : Router F)
      → (route_and_submit F c r).1.attempts ≤ r.attempts + length r.order * suc r.max_retries
  unfolding route_and_submit operator_gate
  route_and_submit-attempts c r =
      let v = evaluate F (gate_state _ c.operator) none c.drawdown c.gated_at r.invariants in
      let g = operator_gate F c.operator c.drawdown c.gated_at r in
      let gate = gate_verdict-IsGate F v.0 (record r { invariants = v.1 }) in
      let bound = past_gate-attempts c g.0 g.1 in
      same_bound _ r.order g.1.order bound gate.attempts gate.order gate.max_retries
