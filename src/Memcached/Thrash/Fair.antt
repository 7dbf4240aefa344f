-- ===== src/Memcached/Thrash/Fair.antt =====
-- The thrash test ends, if every thread gets enough turns.
use clearwater_fv_test.Base.{
  ℕ, zero, suc, ◌+◌, ◌*◌, ◌^◌, ◌≤◌, ◌<◌, ◌≡◌, refl, inl, inr, true, false, List, [], ◌∷◌, ◌==◌, ltb,
  if◌then◌else◌, Bool-cases, arith, length, ltb→lt, lt→ltb, ==_iff,
}
use clearwater_fv_test.Text.{Text}
use clearwater_fv_test.Memcached.Store.{Store, IsCas}
use clearwater_fv_test.Memcached.Thrash.{
  Thread, World, next_round, turn_at, turn, pick, run, spawned, AllDone,
  num_incr_per_key_per_thread,
}
use clearwater_fv_test.Memcached.Thrash.Total.{goal}
use clearwater_fv_test.Memcached.Thrash.Final.{StartsAtZero}
use clearwater_fv_test.Memcached.Thrash.Cost.{is_over, is_done}
use clearwater_fv_test.Memcached.Thrash.Progress.{is_busy, busy_turns, thrash_terminates}

-- How many turns of a schedule are those of a thread.
abbrev pub turns_of : ℕ → List ℕ → ℕ
turns_of i [] = 0
turns_of i (j ∷ schedule) = (if j == i then 1 else 0) + turns_of i schedule

over_empty : (round : ℕ) (rest : List Text) → is_over round rest ≡ true → (round ≡ 0) × (rest ≡ [])
over_empty zero [] e = (refl, refl)
over_empty zero (key ∷ ks) e = cc
over_empty (suc round) rest e = cc

module _ {S : Store} {table : Text} (C : IsCas S table) (keys : List Text) (junk n : ℕ) where
  turn_at-done :
      (th : Thread) (s : S.State)
      → is_done th ≡ true
      → is_done (turn_at S table keys junk th.round th.rest th.held s).0 ≡ true
  unfolding turn_at next_round
  turn_at-done th s e =
      let (no_round, no_rest) = over_empty th.round th.rest e in rw (no_round, no_rest)

  -- A thread that is done stays so.
  pick-done :
      (j i : ℕ) (s : World S)
      → is_done (s.threads i) ≡ true
      → is_done ((pick S table keys junk n j s).threads i) ≡ true
  unfolding pick turn
  pick-done j i s e = elim (Bool-cases (ltb j n)) [
    | inl below ↦ elim (Bool-cases (j == i)) [
      | inl own ↦
          let same : j ≡ i = (==_iff j i).0 own in
          rw (below, own) (turn_at-done (s.threads j) s.store (rw same e))
      | inr other ↦ rw (below, other) e
    ]
    | inr above ↦ rw above e
  ]

  run-done :
      (schedule : List ℕ) (i : ℕ) (s : World S)
      → is_done (s.threads i) ≡ true
      → is_done ((run S table keys junk n schedule s).threads i) ≡ true
  unfolding run
  run-done [] i s e = e
  run-done (j ∷ schedule) i s e =
      run-done schedule i (pick S table keys junk n j s) (pick-done j i s e)

  -- The turns of a thread that is not done at the end are all busy.
  turns_of-busy :
      (schedule : List ℕ) (i : ℕ) (s : World S)
      → i < n
      → is_done ((run S table keys junk n schedule s).threads i) ≡ false
      → turns_of i schedule ≤ busy_turns C keys junk n schedule s
  unfolding run
  turns_of-busy [] i s below e = omega arith
  turns_of-busy (j ∷ schedule) i s below e =
      let later = turns_of-busy schedule i (pick S table keys junk n j s) below e in
      elim (Bool-cases (j == i)) [
        | inl own ↦
            let same : j ≡ i = (==_iff j i).0 own in
            elim (Bool-cases (is_done (s.threads i))) [
              | inl done ↦
                  let still =
                    run-done schedule i (pick S table keys junk n j s) (pick-done j i s done) in
                  cc
              | inr busy ↦
                  let on_turn : ltb j n ≡ true = rw same (lt→ltb i n below) in
                  let busy_j : is_done (s.threads j) ≡ false = rw same busy in
                  let one : is_busy C keys junk n j s ≡ 1 = rw (on_turn, busy_j) in
                  rw own (omega (arith, later, one))
            ]
        | inr other ↦ rw other (omega (arith, later))
      ]

  -- The bound on the busy turns, plus one.
  abbrev pub enough_turns : ℕ
  enough_turns = suc (
      n
      * (num_incr_per_key_per_thread * length keys * (2 * n + 2) + 2 * num_incr_per_key_per_thread))

  -- With a store that does compare and set, `n` threads on keys that hold "0", and final values
  -- that fit an `int`: once a schedule has given each thread `enough_turns` turns, in whatever
  -- order and with whatever contention, all threads are done.
  pub thrash_ends :
      (store : S.State) (schedule : List ℕ)
      → ((k : Text) → goal C keys junk n k < 2 ^ 31)
      → StartsAtZero C keys junk n store
      → ((i : ℕ) → i < n → enough_turns ≤ turns_of i schedule)
      → AllDone n (run S table keys junk n schedule (spawned S store))
  thrash_ends store schedule bound start fair i below =
      let s : World S = run S table keys junk n schedule (spawned S store) in
      elim (Bool-cases (is_done (s.threads i))) [
        | inl done ↦ over_empty (s.threads i).round (s.threads i).rest done
        | inr not_done ↦
            let lt = ltb→lt i n below in
            absurd (
              omega (
                arith,
                fair i lt,
                turns_of-busy schedule i (spawned S store) lt not_done,
                thrash_terminates C keys junk n store schedule bound start,
              ))
      ]
