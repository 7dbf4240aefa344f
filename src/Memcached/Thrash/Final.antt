-- ===== src/Memcached/Thrash/Final.antt =====
-- The thrash test as a whole: from threads at their start and keys at 0 to the final values.
use clearwater_fv_test.Base.{
  ℕ, ◌*◌, ◌^◌, ◌<◌, ◌≡◌, refl, ap, ◌∙◌, inl, inr, List, [], ◌∷◌, some, ltb, Bool-cases, arith,
  ltb→lt, lt→ltb,
}
use clearwater_fv_test.Text.{Text}
use clearwater_fv_test.Text.Decimal.{decimal}
use clearwater_fv_test.Memcached.Store.{Store, IsCas}
use clearwater_fv_test.Memcached.Thrash.{
  World, pick, run, spawned, new_thread, AllDone, num_incr_per_key_per_thread,
}
use clearwater_fv_test.Memcached.Thrash.Invariant.{count, remaining}
use clearwater_fv_test.Memcached.Thrash.Turns.{IsKey}
use clearwater_fv_test.Memcached.Thrash.Total.{goal, Inv, next-Inv, total, total-const, total-zero}

module _ {S : Store} {table : Text} (C : IsCas S table) (keys : List Text) (junk n : ℕ) where
  module _ (bound : (k : Text) → goal C keys junk n k < 2 ^ 31) where
    pub pick-Inv :
        (i : ℕ) (s : World S)
        → Inv C keys junk n s
        → Inv C keys junk n (pick S table keys junk n i s)
    unfolding pick
    pick-Inv i s inv = elim (Bool-cases (ltb i n)) [
      | inl below ↦ simp below (next-Inv C keys junk n bound s inv i (ltb→lt i n below))
      | inr above ↦ simp above inv
    ]

    -- No turn in any schedule breaks the invariant.
    pub run-Inv :
        (schedule : List ℕ) (s : World S)
        → Inv C keys junk n s
        → Inv C keys junk n (run S table keys junk n schedule s)
    unfolding run
    run-Inv [] s inv = inv
    run-Inv (i ∷ schedule) s inv = run-Inv schedule _ (pick-Inv i s inv)

  -- Each key holds "0".
  abbrev pub StartsAtZero : S.State → Type 0
  StartsAtZero store =
      (k : Text) → IsKey C keys junk k → (c : ℕ) × (C.view store k ≡ some (decimal 0, c))

  pub spawned-Inv : (store : S.State) → StartsAtZero store → Inv C keys junk n (spawned S store)
  spawned-Inv store start = record {
    clean = refl;
    on_keys = λ i. tt;
    owed = λ k h.
        let (c, found) = start k h in
        (
          0,
          c,
          found,
          omega (
            arith,
            total-const (remaining keys k) n (num_incr_per_key_per_thread * count k keys) new_thread
                (omega arith),
          ),
          λ i. tt,
        );
  }

  -- With a store that does compare and set, `n` threads on keys that hold "0", and final values
  -- that fit an `int`: in whatever order the threads take their turns, and however far they have
  -- come, no expectation of a thread has failed.
  pub thrash_clean :
      (store : S.State) (schedule : List ℕ)
      → ((k : Text) → goal C keys junk n k < 2 ^ 31)
      → StartsAtZero store
      → (run S table keys junk n schedule (spawned S store)).failed ≡ 0
  thrash_clean store schedule bound start =
      (run-Inv bound schedule (spawned S store) (spawned-Inv store start)).clean

  -- With a store that does compare and set, `n` threads on keys that hold "0", and final values
  -- that fit an `int`: in whatever order the threads took their turns, once all of them are done
  -- each key holds ten times `n`, once for each time that the key is listed, in decimal. No
  -- increment is lost or made twice.
  pub thrash_exact :
      (store : S.State) (schedule : List ℕ)
      → ((k : Text) → goal C keys junk n k < 2 ^ 31)
      → StartsAtZero store
      → AllDone n (run S table keys junk n schedule (spawned S store))
      → (k : Text) → IsKey C keys junk k
      → (c : ℕ) × (C.view (run S table keys junk n schedule (spawned S store)).store k
          ≡ some (decimal (goal C keys junk n k), c))
  thrash_exact store schedule bound start done k h =
      let s : World S = run S table keys junk n schedule (spawned S store) in
      let inv = run-Inv bound schedule (spawned S store) (spawned-Inv store start) in
      let (v, c, found, sum, held) = inv.owed k h in
      let none_owed : total n (λ i. remaining keys k (s.threads i)) ≡ 0 =
        total-zero (remaining keys k) n s.threads (λ i lt.
          let (no_round, no_key) = done i (lt→ltb i n lt) in
          simp (no_round, no_key) (omega arith)) in
      let reached : v ≡ goal C keys junk n k = omega (arith, sum, none_owed) in
      (c, found ∙ ap (λ (x : ℕ). some (decimal x, c)) reached)
