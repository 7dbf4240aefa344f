-- ===== src/Tests/Failures.antt =====
-- The theorems on the memcached tests with failures, with the store in memory.
use clearwater_fv_test.Base.{
  ℕ, suc, ◌+◌, ◌^◌, ◌≤◌, ◌≡◌, refl, ap, inl, inr, [], ◌∷◌, ◌++◌, Option, none, some, arith,
  Bool-cases, text_eq, length, All, ltb,
}
use clearwater_fv_test.Text.{Text, codes}
use clearwater_fv_test.System.{Yields}
use clearwater_fv_test.Memcached.Memory.{Log, alive, entry, lives_until, memory_store}
use clearwater_fv_test.Memcached.Memory.Promises.{
  memory_store-IsTimed, memory_store-IsStore, memory_store-IsCas,
}
use clearwater_fv_test.Memcached.Memory.Laws.{remains}
use clearwater_fv_test.Memcached.Fixture.{Fixture, table, get_new_key, new_keys}
use clearwater_fv_test.Memcached.Scenario.{memcached_fails, rogers_restarts}
use clearwater_fv_test.Memcached.Case.{Faults, IsTolerant}
use clearwater_fv_test.Memcached.Failures.{one_failure_tests, add_kill_set_set_data_contention_set}
use clearwater_fv_test.Memcached.Failures.Steps.{Setting}
use clearwater_fv_test.Memcached.Failures.Run.{
  RunPassed, run_test, run_test-passes, contention_run-passes,
}
use clearwater_fv_test.Tests.Processes.{calm-IsHealthy}
use clearwater_fv_test.Tests.{calm_os}

-- A failure after which every record has another CAS value: one more write came before all others.
abbrev renumbered : Log → Log
renumbered log = log ++ (codes "failure", none) ∷ []

alive-renumbered :
    (now c : ℕ) (o : Option (Text × ℕ)) {d : Text} {c₀ : ℕ}
    → alive now c o ≡ some (d, c₀)
    → alive now (suc c) o ≡ some (d, suc c₀)
alive-renumbered now c none e = cc
alive-renumbered now c (some (d, until)) e = elim (Bool-cases (ltb now until)) [
  | inl living ↦ rw living (cc)
  | inr over ↦ cc (rw over at e)
]

length-renumbered : (log : Log) → length (renumbered log) ≡ suc (length log)
length-renumbered [] = refl
length-renumbered (x ∷ log) = ap suc (length-renumbered log)

entry-renumbered :
    (now : ℕ) (log : Log) (k : Text) {d : Text} {c : ℕ}
    → entry now log k ≡ some (d, c)
    → entry now (renumbered log) k ≡ some (d, suc c)
unfolding entry
entry-renumbered now [] k e = cc
entry-renumbered now ((j, o) ∷ log) k e = elim (Bool-cases (text_eq j k)) [
  | inl this ↦
      rw (this, length-renumbered log) (alive-renumbered now (suc (length log)) o (rw this at e))
  | inr other ↦ rw other (entry-renumbered now log k (rw other at e))
]

alive-none : (now c c' : ℕ) (o : Option (Text × ℕ)) → alive now c o ≡ none → alive now c' o ≡ none
alive-none now c c' none e = refl
alive-none now c c' (some (d, until)) e = elim (Bool-cases (ltb now until)) [
  | inl living ↦ cc (rw living at e)
  | inr over ↦ rw over
]

absent-renumbered :
    (now : ℕ) (log : Log) (k : Text) → entry now log k ≡ none → entry now (renumbered log) k ≡ none
unfolding entry
absent-renumbered now [] k e = elim (Bool-cases (text_eq (codes "failure") k)) [
  | inl this ↦ rw this
  | inr other ↦ rw other
]
absent-renumbered now ((j, o) ∷ log) k e = elim (Bool-cases (text_eq j k)) [
  | inl this ↦ rw this (alive-none now (suc (length log)) _ o (rw this at e))
  | inr other ↦ rw other (absent-renumbered now log k (rw other at e))
]

lives_until-renumbered : (log : Log) (k : Text) → lives_until (renumbered log) k ≡ lives_until log k
unfolding lives_until
lives_until-renumbered [] k = elim (Bool-cases (text_eq (codes "failure") k)) [
  | inl this ↦ rw this
  | inr other ↦ rw other
]
lives_until-renumbered ((j, o) ∷ log) k = elim (Bool-cases (text_eq j k)) [
  | inl this ↦ rw this
  | inr other ↦ rw other (lives_until-renumbered log k)
]

abbrev renumber : memory_store.State → memory_store.State
unfolding memory_store
renumber s = record s { log = renumbered s.log }

renumber-IsTolerant : IsTolerant (memory_store-IsTimed table) renumber
unfolding memory_store memory_store-IsTimed memory_store-IsStore memory_store-IsCas remains
renumber-IsTolerant = record {
  keeps = λ s k d c found lives. (suc c, entry-renumbered s.now s.log k found);
  stays_missing = λ s k gone. absent-renumbered s.now s.log k gone;
  no_longer = λ s k. rw (lives_until-renumbered s.log k) (omega arith);
}

unchanged-IsTolerant : IsTolerant (memory_store-IsTimed table) (λ s. s)
unchanged-IsTolerant = record {
  keeps = λ s k d c found lives. (c, found);
  stays_missing = λ s k gone. gone;
  no_longer = λ s k. omega arith;
}

abbrev faults : Faults memory_store
faults = record { fail = renumber; fix = λ s. s; renew = λ s. s }

setting : Setting (memory_store-IsTimed table) calm_os faults
setting = record {
  healthy = calm-IsHealthy;
  fails = renumber-IsTolerant;
  fixes = unchanged-IsTolerant;
  renews = unchanged-IsTolerant;
}

-- Before `SetUp`.
abbrev no_test : Fixture memory_store
unfolding memory_store
no_test = record { store = record { now = 0; log = [] }; key = []; next_key = 1; failed = 0 }

no_record :
    (memory_store-IsTimed table).view (get_new_key no_test).1.store (get_new_key no_test).1.key
    ≡ none
unfolding memory_store memory_store-IsTimed memory_store-IsStore memory_store-IsCas entry
    get_new_key
no_record = refl

run_test-passes_example :
    All
      (λ test. Yields (RunPassed no_test) (run_test calm_os memcached_fails test no_test []))
      (one_failure_tests calm_os faults memcached_fails)
run_test-passes_example =
    run_test-passes (memory_store-IsTimed table) calm_os faults setting (λ t dir. refl)
      memcached_fails no_test [] no_record

no_records :
    All
      (λ k. (memory_store-IsTimed table).view (get_new_key no_test).1.store k ≡ none)
      (new_keys 10 (get_new_key no_test).1)
unfolding memory_store memory_store-IsTimed memory_store-IsStore memory_store-IsCas entry
    get_new_key new_keys
no_records = (refl, (refl, (refl, (refl, (refl, (refl, (refl, (refl, (refl, (refl, tt))))))))))

few_keys : (get_new_key no_test).1.next_key + 10 ≤ 2 ^ 32
unfolding get_new_key no_test
few_keys = omega arith

contention_run-passes_example : Yields (RunPassed no_test) (
    run_test calm_os rogers_restarts
      (add_kill_set_set_data_contention_set calm_os faults rogers_restarts)
      no_test
      [])
contention_run-passes_example =
    contention_run-passes (memory_store-IsTimed table) calm_os faults setting (λ t dir. refl)
      rogers_restarts no_test [] few_keys no_records
