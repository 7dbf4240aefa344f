-- ===== src/Tests/Thrash.antt =====
-- The theorems on the thrash test, with the store in memory.
use clearwater_fv_test.Base.{
  ℕ, zero, suc, ◌^◌, ◌<◌, ◌≡◌, refl, List, [], ◌∷◌, some, none, arith, Bool-cases, inl, inr,
  text_eq, ltb→lt, ◌≤◌, All,
}
use clearwater_fv_test.Text.{Text, codes}
use clearwater_fv_test.Text.Decimal.{decimal}
use clearwater_fv_test.Memcached.Timed.{seconds}
use clearwater_fv_test.Memcached.Memory.{memory_store, entry}
use clearwater_fv_test.Memcached.Memory.Promises.{
  memory_store-IsTimed, memory_store-IsCas, memory_store-IsStore,
}
use clearwater_fv_test.Memcached.Fixture.{get_new_key, Fixture, table, new_keys}
use clearwater_fv_test.Memcached.Thrash.{run, spawned, AllDone}
use clearwater_fv_test.Memcached.Thrash.Total.{goal}
use clearwater_fv_test.Memcached.Thrash.Fair.{turns_of, enough_turns, thrash_ends}
use clearwater_fv_test.Memcached.Thrash.Final.{StartsAtZero, thrash_clean, thrash_exact}
use clearwater_fv_test.Memcached.Thrash.Main.{thrash_test}
use clearwater_fv_test.Memcached.Thrash.Main.Passes.{thrash_test-passes}

abbrev key : Text
key = codes "7"

abbrev keys : List Text
keys = key ∷ []

-- The key at 0.
abbrev zeroed : memory_store.State
unfolding memory_store
zeroed = record { now = 0; log = (key, some (decimal 0, seconds 60)) ∷ [] }

abbrev alternating : ℕ → List ℕ
alternating zero = []
alternating (suc n) = 0 ∷ 1 ∷ alternating n

abbrev schedule : List ℕ
schedule = alternating 64

small : (k : Text) → goal (memory_store-IsCas table) keys 0 2 k < 2 ^ 31
small k = elim (Bool-cases (text_eq key k)) [
  | inl same ↦ rw same (omega arith)
  | inr other ↦ rw other (omega arith)
]

starts : StartsAtZero (memory_store-IsCas table) keys 0 2 zeroed
unfolding memory_store memory_store-IsCas entry
starts k h = elim (Bool-cases (text_eq key k)) [
  | inl same ↦ (1, rw same refl)
  | inr other ↦ absurd (omega (arith, rw other at h))
]

done : AllDone 2 (run memory_store table keys 0 2 schedule (spawned memory_store zeroed))
unfolding memory_store run
done zero lt = (refl, refl)
done (suc zero) lt = (refl, refl)
done (suc (suc i)) lt = absurd (omega (arith, ltb→lt (suc (suc i)) 2 lt))

thrash_clean_example :
    (run memory_store table keys 0 2 schedule (spawned memory_store zeroed)).failed ≡ 0
thrash_clean_example = thrash_clean (memory_store-IsCas table) keys 0 2 zeroed schedule small starts

thrash_exact_example :
    (c : ℕ) × ((memory_store-IsCas table).view
        (run memory_store table keys 0 2 schedule (spawned memory_store zeroed)).store
        key
      ≡ some (decimal (goal (memory_store-IsCas table) keys 0 2 key), c))
thrash_exact_example =
    thrash_exact (memory_store-IsCas table) keys 0 2 zeroed schedule small starts done key
      (omega arith)

goal_example : goal (memory_store-IsCas table) keys 0 2 key ≡ 20
goal_example = refl

abbrev fair_schedule : List ℕ
fair_schedule = alternating 161

fair : (i : ℕ) → i < 2 → enough_turns (memory_store-IsCas table) keys 0 2 ≤ turns_of i fair_schedule
fair zero lt = omega arith
fair (suc zero) lt = omega arith
fair (suc (suc i)) lt = absurd (omega arith)

thrash_ends_example :
    AllDone 2 (run memory_store table keys 0 2 fair_schedule (spawned memory_store zeroed))
thrash_ends_example =
    thrash_ends (memory_store-IsCas table) keys 0 2 zeroed fair_schedule small starts fair

abbrev ten_turns : List ℕ → List ℕ
ten_turns schedule = 0 ∷ 1 ∷ 2 ∷ 3 ∷ 4 ∷ 5 ∷ 6 ∷ 7 ∷ 8 ∷ 9 ∷ schedule

-- The ten threads in turn.
abbrev rounds : ℕ → List ℕ
rounds zero = []
rounds (suc n) = ten_turns (rounds n)

turns_of-rounds : (i n : ℕ) → i < 10 → n ≤ turns_of i (rounds n)
turns_of-rounds i zero lt = omega arith
turns_of-rounds i (suc n) lt = ground (arith, turns_of-rounds i n lt)

-- Before `SetUp`.
abbrev no_test : Fixture memory_store
unfolding memory_store
no_test = record { store = record { now = 0; log = [] }; key = []; next_key = 1; failed = 0 }

no_records :
    All (λ k. (memory_store-IsTimed table).view no_test.store k ≡ none) (new_keys 10 no_test)
unfolding memory_store memory_store-IsTimed memory_store-IsStore memory_store-IsCas entry new_keys
no_records = (refl, (refl, (refl, (refl, (refl, (refl, (refl, (refl, (refl, (refl, tt))))))))))

thrash_test-passes_example : (thrash_test 3 5 (rounds 22_201) (get_new_key no_test).1).1.failed ≡ 0
unfolding no_test
thrash_test-passes_example =
    thrash_test-passes (memory_store-IsTimed table) no_test 3 5 (rounds 22_201) (omega arith)
      no_records (λ i lt. turns_of-rounds i 22_201 lt)
