-- ===== src/Memcached/Thrash/Progress.antt =====
-- How many turns the threads of the thrash test can take, whatever the schedule.
use clearwater_fv_test.Base.{
  ℕ, zero, suc, ◌+◌, ◌*◌, ◌^◌, ◌≤◌, ◌<◌, ◌≡◌, refl, inl, inr, true, false, List, [], ◌∷◌, Option,
  ◌==◌, ltb, if◌then◌else◌, Bool-cases, arith, All, length, ltb→lt, ==_iff,
}
use clearwater_fv_test.Text.{Text}
use clearwater_fv_test.Text.Decimal.{decimal}
use clearwater_fv_test.Text.Integer.{ℤ}
use clearwater_fv_test.Memcached.Store.{Store, IsCas}
use clearwater_fv_test.Memcached.Thrash.{
  Thread, World, update, next_round, turn_at, turn, pick, spawned, new_thread,
  num_incr_per_key_per_thread,
}
use clearwater_fv_test.Memcached.Thrash.Turns.{IsKey}
use clearwater_fv_test.Memcached.Thrash.Total.{goal, Inv, total}
use clearwater_fv_test.Memcached.Thrash.Final.{pick-Inv, StartsAtZero, spawned-Inv}
use clearwater_fv_test.Memcached.Thrash.Cost.{
  is_over, is_done, total-move, total-same, cost, cost_of, Pays, AllFound, phase-bound, phase-same,
  turn_at-Pays,
}

module _ {S : Store} {table : Text} (C : IsCas S table) (keys : List Text) (junk n : ℕ) where
  -- All that the threads may still cost.
  abbrev potential : World S → ℕ
  potential s = total n (λ j. cost_of C keys junk n s.store (s.threads j))

  -- The potential after one thread and the store have changed.
  abbrev moved : World S → ℕ → Thread → S.State → ℕ
  moved s i th u = total n (λ j. cost_of C keys junk n u (update s.threads i th j))

  moved-slack :
      (s : World S) (i : ℕ) (th : Thread) (u : S.State) (d : ℕ)
      → i < n
      → ((j : ℕ)
          → cost_of C keys junk n u (s.threads j) ≤ cost_of C keys junk n s.store (s.threads j) + d)
      → moved s i th u + cost_of C keys junk n s.store (s.threads i)
        ≤ potential s + cost_of C keys junk n u th + n * d
  moved-slack s i th u d below h =
      let self : (i == i) ≡ true = (==_iff i i).1 refl in
      let step =
        total-move (λ j. cost_of C keys junk n s.store (s.threads j))
          (λ j. cost_of C keys junk n u (update s.threads i th j)) d n i below
          (λ j ne. let other : (i == j) ≡ false = ground arith in rw other (h j)) in
      omega (arith, simp self at step, total-same n d)

  moved-Pays :
      (s : World S) (i : ℕ) (r : Thread × S.State × ℕ)
      → i < n
      → ((j : ℕ) → All (IsKey C keys junk) (s.threads j).rest)
      → Pays C keys junk n s.store (cost_of C keys junk n s.store (s.threads i)) r
      → moved s i r.0 r.1 < potential s
  moved-Pays s i (th, u, failures) below are_keys (inl (same, cheaper)) =
      let step = moved-slack s i th u 0 below (λ j.
        let e =
          phase-same C keys junk n s.store u (s.threads j).rest (s.threads j).held same
            (are_keys j) in
        omega (arith, e)) in
      omega (arith, step, cheaper)
  moved-Pays s i (th, u, failures) below are_keys (inr cheaper) =
      let step =
        moved-slack s i th u 2 below
          (λ j. omega (arith, phase-bound C keys junk n u (s.threads j).rest (s.threads j).held)) in
      omega (arith, step, cheaper)

  -- One if it is the turn of a thread that is not done.
  abbrev pub is_busy : ℕ → World S → ℕ
  is_busy i s = if ltb i n then (if is_done (s.threads i) then 0 else 1) else 0

  -- The turns in a schedule that are given to threads that are not done.
  abbrev pub busy_turns : List ℕ → World S → ℕ
  busy_turns [] s = 0
  busy_turns (i ∷ schedule) s = is_busy i s + busy_turns schedule (pick S table keys junk n i s)

  turn_at-over :
      (round : ℕ) (rest : List Text) (held : Option (ℤ × ℕ)) (s : S.State)
      → is_over round rest ≡ true
      → ((turn_at S table keys junk round rest held s).1 ≡ s)
        × (cost_of C keys junk n s (turn_at S table keys junk round rest held s).0
            ≡ cost C keys junk n s round rest held)
  unfolding turn_at next_round
  turn_at-over zero [] held s over = (refl, omega arith)
  turn_at-over zero (key ∷ ks) held s over = cc
  turn_at-over (suc round) rest held s over = cc

  found-Inv : (s : World S) → Inv C keys junk n s → AllFound C keys junk n s.store
  found-Inv s inv k h = let (v, c, found, sum, held) = inv.owed k h in (decimal v, c, found)

  pick-potential :
      (i : ℕ) (s : World S)
      → Inv C keys junk n s
      → potential (pick S table keys junk n i s) + is_busy i s ≤ potential s
  unfolding pick turn
  pick-potential i s inv = elim (Bool-cases (ltb i n)) [
    | inl below ↦
        let th : Thread = s.threads i in
        let r : Thread × S.State × ℕ = turn_at S table keys junk th.round th.rest th.held s.store in
        elim (Bool-cases (is_over th.round th.rest)) [
          | inl over ↦
              let (same, cost_same) = turn_at-over th.round th.rest th.held s.store over in
              let step = moved-slack s i r.0 s.store 0 (ltb→lt i n below) (λ j. omega arith) in
              rw (below, over, same) (omega (arith, step, cost_same))
          | inr busy ↦
              let step = moved-Pays s i r (ltb→lt i n below) inv.on_keys (
                turn_at-Pays C keys junk n th.round th.rest th.held s.store busy (found-Inv s inv)
                  (inv.on_keys i)) in
              rw (below, busy) (omega (arith, step))
        ]
    | inr above ↦ rw above (omega arith)
  ]

  module _ (bound : (k : Text) → goal C keys junk n k < 2 ^ 31) where
    busy_turns-potential :
        (schedule : List ℕ) (s : World S)
        → Inv C keys junk n s
        → busy_turns schedule s ≤ potential s
    busy_turns-potential [] s inv = omega arith
    busy_turns-potential (i ∷ schedule) s inv = omega (
      arith,
      pick-potential i s inv,
      busy_turns-potential schedule (pick S table keys junk n i s)
          (pick-Inv C keys junk n bound i s inv),
    )

  -- With a store that does compare and set, `n` threads on keys that hold "0", and final values
  -- that fit an `int`: however the threads are scheduled and however often they meet contention,
  -- at most n * (10 * k * (2 * n + 2) + 20) turns go to threads that are not done, where `k` is the
  -- length of the list of keys.
  pub thrash_terminates :
      (store : S.State) (schedule : List ℕ)
      → ((k : Text) → goal C keys junk n k < 2 ^ 31)
      → StartsAtZero C keys junk n store
      → busy_turns schedule (spawned S store)
        ≤ n
          * (num_incr_per_key_per_thread * length keys * (2 * n + 2)
              + 2 * num_incr_per_key_per_thread)
  thrash_terminates store schedule bound start =
      let inv = spawned-Inv C keys junk n store start in
      let same = total-same n (cost_of C keys junk n store new_thread) in
      omega (arith, busy_turns-potential bound schedule (spawned S store) inv, same)
