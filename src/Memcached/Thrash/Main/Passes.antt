-- ===== src/Memcached/Thrash/Main/Passes.antt =====
-- The thrash test passes: what it counts on is what its threads and its store leave.
use clearwater_fv_test.Base.{
  ℕ, suc, ◌+◌, ◌*◌, ◌^◌, ◌≤◌, ◌<◌, ◌≡◌, refl, ap, ◌∙◌, inl, inr, List, [], ◌∷◌, none, some, arith,
  All, All-mono, Distinct, length,
}
use clearwater_fv_test.Text.{Text}
use clearwater_fv_test.Text.Decimal.{decimal, decimal_injective}
use clearwater_fv_test.Text.Integer.{atoi-decimal}
use clearwater_fv_test.Memcached.Store.{Store}
use clearwater_fv_test.Memcached.Timed.{seconds, IsTimed}
use clearwater_fv_test.Memcached.Fixture.{Fixture, Test, ◌>>◌, sleep, get_new_key, new_keys, table}
use clearwater_fv_test.Memcached.Fixture.Keys.{new_keys-Distinct, length-new_keys}
use clearwater_fv_test.Memcached.Thrash.{World, run, spawned}
use clearwater_fv_test.Memcached.Thrash.Invariant.{count}
use clearwater_fv_test.Memcached.Thrash.Turns.{IsKey}
use clearwater_fv_test.Memcached.Thrash.Total.{goal, keys-counted}
use clearwater_fv_test.Memcached.Thrash.Fair.{turns_of, thrash_ends}
use clearwater_fv_test.Memcached.Thrash.Final.{
  StartsAtZero, spawned-Inv, thrash_clean, thrash_exact,
}
use clearwater_fv_test.Memcached.Thrash.Main.{
  num_threads, num_keys, set_keys, run_threads, check_keys, thrash_test,
}
use clearwater_fv_test.Memcached.Thrash.Main.Fresh.{run-Fresh}
use clearwater_fv_test.Memcached.Thrash.Main.Keys.{All-counted, count-Distinct, set_keys-Zeroed}

module _ {S : Store} (T : IsTimed S table) where
  Holds100 : S.State → Text → Type 0
  Holds100 s k = (c : ℕ) × (T.view s k ≡ some (decimal 100, c))

  check_keys-clean :
      (junk : ℕ) (keys : List Text) (f : Fixture S)
      → All (Holds100 f.store) keys
      → (check_keys junk keys f).1.failed ≡ f.failed
  unfolding check_keys Holds100
  check_keys-clean junk [] f h = refl
  check_keys-clean junk (k ∷ ks) f h =
      let (c, found) = h.0 in
      let s' : S.State = (S.get_data f.store table k [] junk).1 in
      let got = T.get_found f.store k (decimal 100) [] c junk found in
      let read = atoi-decimal 100 (omega arith) in
      let rest : All (Holds100 s') ks =
        All-mono (Holds100 f.store) (Holds100 s') ks
          (λ j (c', found'). (c', T.get_view f.store k [] junk j ∙ found')) h.1 in
      rw (got, read)
        (check_keys-clean junk ks (record f { store = s'; failed = f.failed + 0 + 0 }) rest
          ∙ omega arith)

  -- The threads on different keys at 0, and the main thread's sleep after them.
  module _ (keys : List Text) (differ : Distinct keys) (store : S.State) (junk : ℕ) where
    bound : (k : Text) → goal T.cas_laws keys junk num_threads k < 2 ^ 31
    bound k = omega (arith, count-Distinct k keys differ)

    goal-100 :
        (k : Text) → IsKey T.cas_laws keys junk k → goal T.cas_laws keys junk num_threads k ≡ 100
    goal-100 k h = omega (arith, count-Distinct k keys differ)

    module _ (schedule : List ℕ) (start : StartsAtZero T.cas_laws keys junk num_threads store)
        (fair : (i : ℕ)
          → i < num_threads
          → suc (num_threads * (10 * length keys * (2 * num_threads + 2) + 2 * 10))
            ≤ turns_of i schedule) where
      after : World S
      unfolding run
      after = run S table keys junk num_threads schedule (spawned S store)

      key-Holds100 : (k : Text) → IsKey T.cas_laws keys junk k → Holds100 after.store k
      unfolding after Holds100
      key-Holds100 k h =
          let done = thrash_ends T.cas_laws keys junk num_threads store schedule bound start fair in
          let (c, found) =
            thrash_exact T.cas_laws keys junk num_threads store schedule bound start done k h in
          (c, found ∙ ap (λ (v : ℕ). some (decimal v, c)) (goal-100 k h))

      key-left : (k : Text) → IsKey T.cas_laws keys junk k → T.left after.store k ≡ seconds 300
      unfolding after Holds100
      key-left k h =
          let (c, found) = key-Holds100 k h in
          elim (run-Fresh T keys junk num_threads bound schedule (spawned S store) k h
            (spawned-Inv T.cas_laws keys junk num_threads store start) (inl (start k h))) [
              | inl (c', still) ↦
                  let e : decimal 100 ≡ decimal 0 = cc in
                  absurd (omega (arith, decimal_injective 100 0 e))
              | inr lives ↦ lives
            ]

      slept-Holds100 :
          (k : Text) → IsKey T.cas_laws keys junk k → Holds100 (S.wait after.store (seconds 61)) k
      unfolding Holds100
      slept-Holds100 k h =
          let (c, found) = key-Holds100 k h in
          (
            c,
            T.wait_kept after.store k (decimal 100) c (seconds 61) found
                (omega (arith, key-left k h)),
          )

  -- The test after its first loop.
  threads_and_checks : ℕ → ℕ → List ℕ → List Text → Test S (Unit {0})
  unfolding run_threads check_keys
  threads_and_checks junk junk' schedule keys = do
    run_threads keys junk schedule
    sleep (seconds 61)
    check_keys junk' keys

  threads_and_checks-clean :
      (junk junk' : ℕ) (schedule : List ℕ) (keys : List Text) (f : Fixture S)
      → Distinct keys
      → length keys ≡ num_keys
      → All (λ k. (c : ℕ) × (T.view f.store k ≡ some (decimal 0, c))) keys
      → ((i : ℕ) → i < num_threads → 22_201 ≤ turns_of i schedule)
      → (threads_and_checks junk junk' schedule keys f).1.failed ≡ f.failed
  unfolding threads_and_checks run_threads after
  threads_and_checks-clean junk junk' schedule keys f differ ten zeros fair =
      let start : StartsAtZero T.cas_laws keys junk num_threads f.store = λ k h.
        All-counted (λ j. (c : ℕ) × (T.view f.store j ≡ some (decimal 0, c))) k keys zeros h in
      let fair' : (i : ℕ)
          → i < num_threads
          → suc (num_threads * (10 * length keys * (2 * num_threads + 2) + 2 * 10))
            ≤ turns_of i schedule =
        λ i lt. omega (arith, fair i lt, ten) in
      let w : World S = run S table keys junk num_threads schedule (spawned S f.store) in
      let clean =
        thrash_clean T.cas_laws keys junk num_threads f.store schedule
          (bound keys differ f.store junk) start in
      let holds : All (Holds100 (S.wait w.store (seconds 61))) keys =
        All-mono (λ j. 0 < count j keys) (Holds100 (S.wait w.store (seconds 61))) keys
          (slept-Holds100 keys differ f.store junk schedule start fair') (keys-counted keys) in
      let slept : Fixture S = record f {
        store = S.wait w.store (seconds 61);
        failed = f.failed + w.failed;
      } in
      check_keys-clean junk' keys slept holds ∙ omega (arith, clean)

  kept : (f : Fixture S) → (get_new_key f).1.failed ≡ f.failed
  unfolding get_new_key
  kept f = refl

  -- Against every store that keeps the promises of `IsTimed`, from the state that `SetUp` leaves,
  -- where none of the ten keys that the test takes has a record and the counter of keys does not
  -- wrap around, no expectation fails in ThrashTest, neither in its threads nor in its main thread,
  -- whatever the uninitialised CAS values hold and in whatever order the ten threads take turns,
  -- if each of them gets at least 22201 turns before the main thread goes on.
  pub thrash_test-passes :
      (f : Fixture S) (junk junk' : ℕ) (schedule : List ℕ)
      → f.next_key + num_keys ≤ 2 ^ 32
      → All (λ k. T.view f.store k ≡ none) (new_keys num_keys f)
      → ((i : ℕ) → i < num_threads → 22_201 ≤ turns_of i schedule)
      → (thrash_test junk junk' schedule (get_new_key f).1).1.failed ≡ f.failed
  unfolding thrash_test threads_and_checks
  thrash_test-passes f junk junk' schedule below absent fair =
      let differ = new_keys-Distinct num_keys f below in
      let (keys_are, zeroed) = set_keys-Zeroed T.store_laws num_keys f differ absent in
      let f₁ : Fixture S = (set_keys num_keys (get_new_key f).1).1 in
      ap (λ keys. (threads_and_checks junk junk' schedule keys f₁).1.failed) keys_are
      ∙ threads_and_checks-clean junk junk' schedule (new_keys num_keys f) f₁ differ
          (length-new_keys num_keys f) zeroed.zeros fair
      ∙ zeroed.passed
      ∙ kept f
