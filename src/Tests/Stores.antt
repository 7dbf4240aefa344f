-- ===== src/Tests/Stores.antt =====
-- The theorems on the simple memcached tests, with the store in memory.
use clearwater_fv_test.Base.{
  Bool, true, false, text_eq, ◌≢◌, ◌≡◌, refl, [], none, arith, Distinct, All,
}
use clearwater_fv_test.Text.{Text, codes}
use clearwater_fv_test.Text.Decimal.{decimal, decimal_injective}
use clearwater_fv_test.Memcached.Memory.{memory_store, entry}
use clearwater_fv_test.Memcached.Memory.Promises.{
  memory_store-IsTimed, memory_store-IsCas, memory_store-IsStore,
}
use clearwater_fv_test.Memcached.Fixture.{Fixture, table, new_keys}
use clearwater_fv_test.Memcached.Fixture.Keys.{new_keys-Distinct}
use clearwater_fv_test.Memcached.Simple.Passes.{
  one_key_tests, one_key_tests-pass, add_get_two_keys-pass,
}
use clearwater_fv_test.Memcached.Simple.{
  add_get_two_keys, add_get_expire, connect_using_ip_address, domain_and_port, bad_domain_name,
}
use clearwater_fv_test.Memcached.Simple.Connects.{add_get_expire-passes, connect_tests-pass}
use clearwater_fv_test.Memcached.Store.{Store, error}

abbrev empty : memory_store.State
unfolding memory_store
empty = record { now = 0; log = [] }

abbrev first_test : Fixture memory_store
first_test = record { store = empty; key = decimal 1; next_key = 2; failed = 0 }

no_record : (memory_store-IsStore table).view empty (decimal 1) ≡ none
unfolding memory_store-IsStore memory_store-IsCas entry
no_record = refl

one_key_tests-pass_example :
    All (λ test. (test first_test).1.failed ≡ 0) (one_key_tests (memory_store-IsStore table))
one_key_tests-pass_example = one_key_tests-pass (memory_store-IsStore table) first_test no_record

new_keys-Distinct_example : Distinct (new_keys 100 first_test)
new_keys-Distinct_example = new_keys-Distinct 100 first_test (omega arith)

keys_differ : first_test.key ≢ decimal first_test.next_key
keys_differ e = absurd (omega (arith, decimal_injective 1 2 e))

no_second_record : (memory_store-IsStore table).view empty (decimal 2) ≡ none
unfolding memory_store-IsStore memory_store-IsCas entry
no_second_record = refl

add_get_two_keys-pass_example : (add_get_two_keys first_test).1.failed ≡ 0
add_get_two_keys-pass_example =
    add_get_two_keys-pass (memory_store-IsStore table) first_test no_record no_second_record
      keys_differ

no_record_now : (memory_store-IsTimed table).view empty (decimal 1) ≡ none
unfolding memory_store-IsTimed memory_store-IsStore memory_store-IsCas entry
no_record_now = refl

add_get_expire-passes_example : (add_get_expire first_test).1.failed ≡ 0
add_get_expire-passes_example =
    add_get_expire-passes (memory_store-IsTimed table) first_test no_record_now

-- The store of a domain without an address: every call is answered by an error.
abbrev unreachable_store : Store
unreachable_store = record {
  State = memory_store.State;
  get_data = λ s table k d₀ c₀. ((error, d₀, c₀), s);
  set_data = λ s table k d c e. (error, s);
  delete_data = λ s table k. (error, s);
  wait = λ s us. s;
}

abbrev store_at : Bool → Store
store_at true = unreachable_store
store_at false = memory_store

abbrev stores : Text → Store
stores domain = store_at (text_eq domain (codes "bad.domain.name"))

abbrev reconnect : (domain : Text) → memory_store.State → (stores domain).State
reconnect domain s = elim (text_eq domain (codes "bad.domain.name")) as (λ b. (store_at b).State) [
  | true ↦ s
  | false ↦ s
]

bad_domain_fails : (bad_domain_name stores reconnect first_test).1.failed ≡ 0
unfolding bad_domain_name
bad_domain_fails = refl

connect_tests-pass_example :
    ((connect_using_ip_address stores reconnect (codes "127.0.1.1") first_test).1.failed ≡ 0)
    × ((domain_and_port stores reconnect first_test).1.failed ≡ 0)
connect_tests-pass_example =
    connect_tests-pass stores reconnect (codes "127.0.1.1") (memory_store-IsStore table)
      (memory_store-IsStore table) first_test no_record no_record
