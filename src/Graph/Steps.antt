-- ===== src/Graph/Steps.antt =====
-- The triangles of a graph, and one step of `find_tri_cycles` (bot/core/graph.py).
use mev_bot.Base.{
  ℕ, ◌≤◌, ◌<◌, ◌≡◌, refl, false, ◌||◌, some, [], ◌∷◌, ◌++◌, All, All-append, In, inl, inr, length,
  length-append, any, arith, Bool-cases, Option-cases, if_both,
}
use mev_bot.Base.Int.{ℤ, pos, leb_ℤ, max_ℤ, pos_part}
use mev_bot.Base.Text.{Text, text_eq, text_eq_iff}
use mev_bot.Base.Float.{FloatModel}
use mev_bot.Graph.{
  GraphEdge, TokenGraph, neighbors, edge, keys, Cycle, cycle_leb, cycle_min, normalize_cycle,
  cycle_eq, Search, note_cycle, close_cycle, visit,
}
use mev_bot.Graph.Distinct.{IsDistinct, append-IsDistinct, more_seen, unseen}
use mev_bot.Graph.Clean.{IsClean, neighbors-CleanNode, keys-get, keys-strip}

capped : (m : ℤ) (n : ℕ) → leb_ℤ m (pos n) ≡ false → n < pos_part (max_ℤ (pos 1) m)
capped m n h = ground (arith, h)

module _ (F : FloatModel) (g : TokenGraph F) where
  -- There is an edge.
  abbrev pub HasEdge : Text → Text → Type 0
  HasEdge a b = (e : GraphEdge F) × (edge F a b g ≡ some e)

  -- Three different tokens, with an edge from each to the next.
  pub record IsTriangle (t : Cycle) : Type 0 where
    pub ab : HasEdge t.a t.b
    pub bc : HasEdge t.b t.c
    pub ca : HasEdge t.c t.a
    pub a_not_b : text_eq t.a t.b ≡ false
    pub b_not_c : text_eq t.b t.c ≡ false
    pub c_not_a : text_eq t.c t.a ≡ false

  normalize_cycle-IsTriangle :
      (a b c : Text)
      → IsTriangle (record { a = a; b = b; c = c })
      → IsTriangle (normalize_cycle a b c)
  unfolding normalize_cycle
  normalize_cycle-IsTriangle a b c i =
      let x : Cycle = record { a = a; b = b; c = c } in
      let y : Cycle = record { a = b; b = c; c = a } in
      let z : Cycle = record { a = c; b = a; c = b } in
      let y_is : IsTriangle y = record {
        ab = i.bc;
        bc = i.ca;
        ca = i.ab;
        a_not_b = i.b_not_c;
        b_not_c = i.c_not_a;
        c_not_a = i.a_not_b;
      } in
      let z_is : IsTriangle z = record {
        ab = i.ca;
        bc = i.ab;
        ca = i.bc;
        a_not_b = i.c_not_a;
        b_not_c = i.a_not_b;
        c_not_a = i.b_not_c;
      } in
      if_both IsTriangle (cycle_leb (cycle_min x y) z) (if_both IsTriangle (cycle_leb x y) i y_is)
        z_is

  -- A key of the neighbours is the end of an edge.
  pub neighbors-HasEdge : (a b : Text) → IsClean g → In b (keys F (neighbors F a g)) → HasEdge a b
  unfolding edge neighbors
  neighbors-HasEdge a b c m =
      let (e, found) = keys-get b (neighbors F a g) m in
      let same = keys-strip b (neighbors F a g) (neighbors-CleanNode a g c) m in (e, rw same found)

  module _ (max_cycles : ℤ) where
    abbrev pub most : ℕ
    most = pos_part (max_ℤ (pos 1) max_cycles)

    -- The state of the search: triangles only, at most as many as allowed, and fewer while it goes on.
    pub record IsSound (s : Search) : Type 0 where
      pub triangles : All IsTriangle s.out
      pub within : length s.out ≤ most
      pub room : s.stopped ≡ false → length s.out < most
      pub known : All (λ x. In x s.seen) s.out
      pub distinct : IsDistinct s.out

    note_cycle-IsSound :
        (t : Cycle) (s : Search)
        → IsTriangle t
        → s.stopped ≡ false
        → IsSound s
        → IsSound (note_cycle max_cycles t s)
    unfolding note_cycle
    note_cycle-IsSound t s h go i = elim (Bool-cases (any (cycle_eq t) s.seen)) [
      | inl e ↦ rw e i
      | inr e ↦
          let before = i.room go in
          rw e (record {
            triangles = All-append IsTriangle s.out (t ∷ []) i.triangles (h, tt);
            within = omega (arith, before, length-append s.out (t ∷ []));
            room = λ n. capped max_cycles (length (s.out ++ t ∷ [])) n;
            known =
                All-append (λ x. In x (t ∷ s.seen)) s.out (t ∷ [])
                  (more_seen t s.out s.seen i.known) (inl refl, tt);
            distinct = append-IsDistinct s.out t i.distinct (unseen t s.out s.seen i.known e);
          })
    ]

    close_cycle-IsSound :
        (a b c : Text) (s : Search)
        → ((e : GraphEdge F) → edge F c a g ≡ some e → IsTriangle (record { a = a; b = b; c = c }))
        → s.stopped ≡ false
        → IsSound s
        → IsSound (close_cycle F g max_cycles a b c (edge F c a g) s)
    close_cycle-IsSound a b c s h go i = elim (Option-cases (edge F c a g)) [
      | inl e ↦ rw e i
      | inr (v, e) ↦
          let t = normalize_cycle-IsTriangle a b c (h v e) in
          rw e (note_cycle-IsSound (normalize_cycle a b c) s t go i)
    ]

    pub visit-IsSound :
        (a b c : Text) (s : Search)
        → HasEdge a b
        → HasEdge b c
        → text_eq b a ≡ false
        → IsSound s
        → IsSound (visit F g max_cycles a b c s)
    unfolding visit
    visit-IsSound a b c s ab bc ne i = elim (Bool-cases (s.stopped || text_eq c a || text_eq c b)) [
      | inl e ↦ rw e i
      | inr e ↦
          let go : s.stopped ≡ false = ground (arith, e) in
          let ca : text_eq c a ≡ false = ground (arith, e) in
          let cb : text_eq c b ≡ false = ground (arith, e) in
          let ab' : text_eq a b ≡ false = ground (arith, ne, text_eq_iff a b, text_eq_iff b a) in
          let bc' : text_eq b c ≡ false = ground (arith, cb, text_eq_iff c b, text_eq_iff b c) in
          rw e (
            close_cycle-IsSound a b c s
              (λ v f. record {
                ab = ab;
                bc = bc;
                ca = (v, f);
                a_not_b = ab';
                b_not_c = bc';
                c_not_a = ca;
              })
              go i)
    ]
