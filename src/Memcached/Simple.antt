-- ===== src/Memcached/Simple.antt =====
-- The tests of `SimpleMemcachedSolutionTest`, src/test_memcachedsolution.cpp.
pub mod Steps
pub mod Passes
pub mod Connects
use clearwater_fv_test.Base.{ℕ, List, [], ◌∷◌, Bool, text_eq}
use clearwater_fv_test.Text.{Text, codes}
use clearwater_fv_test.Text.Integer.{ℤ, pos}
use clearwater_fv_test.Memcached.Store.{Status, stored, not_found, data_contention, error, Store}
use clearwater_fv_test.Memcached.Fixture.{
  Fixture, Test, ◌>>=◌, ◌>>◌, expect_status, expect_text, set_data, set_data_at, get_data,
  get_data_at, delete_data, get_new_key, own_key, sleep, default_expiry,
}

module _ {S : Store} where
  -- `rc = set_data(…); EXPECT_EQ(wanted, rc);`
  abbrev pub expect_set : Status → Text → ℕ → ℤ → Test S (Unit {0})
  expect_set wanted data_in cas expiry = do
    rc ← set_data data_in cas expiry
    expect_status wanted rc

  -- `rc = get_data(data_out, cas); EXPECT_EQ(OK, rc); EXPECT_EQ(data_out, data_in);`
  abbrev pub expect_get : Text → Text → ℕ → Test S (Text × ℕ)
  expect_get data_in old_data old_cas = do
    (rc, data_out, cas) ← get_data old_data old_cas
    expect_status stored rc
    expect_text data_out data_in
    λ f. ((data_out, cas), f)

  -- `rc = get_data(data_out, cas); EXPECT_EQ(NOT_FOUND, rc);`
  abbrev pub expect_no_get : Text → ℕ → Test S ℕ
  expect_no_get old_data old_cas = do
    (rc, data_out, cas) ← get_data old_data old_cas
    expect_status not_found rc
    λ f. (cas, f)

  abbrev pub expect_delete : Test S (Unit {0})
  expect_delete = do rc ← delete_data; expect_status stored rc

  unfoldable pub add_get : Test S (Unit {0})
  add_get = do
    let data_in = codes "SimpleMemcachedSolutionTest.AddGet"
    expect_set stored data_in 0 default_expiry
    expect_get data_in [] 0
    λ f. (tt, f)

  unfoldable pub add_get_two_keys : Test S (Unit {0})
  unfolding get_new_key
  add_get_two_keys = do
    key1 ← own_key
    get_new_key
    key2 ← own_key
    let data_in1 = codes "SimpleMemcachedSolutionTest.AddGetTwoKeys1"
    let data_in2 = codes "SimpleMemcachedSolutionTest.AddGetTwoKeys2"
    rc1 ← set_data_at key1 data_in1 0 default_expiry
    expect_status stored rc1
    rc2 ← set_data_at key2 data_in2 0 default_expiry
    expect_status stored rc2
    (rc3, data_out1, cas1) ← get_data_at key1 [] 0
    expect_status stored rc3
    expect_text data_out1 data_in1
    (rc4, data_out2, cas2) ← get_data_at key2 [] 0
    expect_status stored rc4
    expect_text data_out2 data_in2

  unfoldable pub add_get_expire : Test S (Unit {0})
  add_get_expire = do
    let data_in = codes "SimpleMemcachedSolutionTest.AddGetExpire"
    expect_set stored data_in 0 (pos 1)
    (data_out, cas) ← expect_get data_in [] 0
    sleep 2_000_000
    expect_no_get data_out cas
    λ f. (tt, f)

  unfoldable pub add_set_set_data_contention_set : Test S (Unit {0})
  add_set_set_data_contention_set = do
    let data_in = codes "SimpleMemcachedSolutionTest.AddSetSetDataContentionSet"
    expect_set stored data_in 0 default_expiry
    (data_out, cas) ← expect_get data_in [] 0
    let data_in1 = codes "SimpleMemcachedSolutionTest.AddSetSetDataContentionSet_New1"
    expect_set stored data_in1 cas default_expiry
    expect_set data_contention data_in1 cas default_expiry
    (data_out1, cas1) ← expect_get data_in1 data_out cas
    let data_in2 = codes "SimpleMemcachedSolutionTest.AddSetSetDataContentionSet_New2"
    expect_set stored data_in2 cas1 default_expiry
    expect_get data_in2 data_out1 cas1
    λ f. (tt, f)

  unfoldable pub add_set_cas_delete_data_contention_cas_delete : Test S (Unit {0})
  add_set_cas_delete_data_contention_cas_delete = do
    let data_in = codes "SimpleMemcachedSolutionTest.AddSetCASDeleteDataContentionCASDelete"
    expect_set stored data_in 0 default_expiry
    (data_out, cas) ← expect_get data_in [] 0
    let data_in1 = codes "SimpleMemcachedSolutionTest.AddSetCASDeleteDataContentionCASDelete_New"
    expect_set stored data_in1 cas default_expiry
    expect_set data_contention data_in1 cas (pos 0)
    (data_out1, cas1) ← expect_get data_in1 data_out cas
    expect_set stored (codes "DELETE") cas1 (pos 0)
    sleep 10_000
    expect_no_get data_out1 cas1
    λ f. (tt, f)

  unfoldable pub add_add_data_contention : Test S (Unit {0})
  add_add_data_contention = do
    let data_in = codes "SimpleMemcachedSolutionTest.AddAddDataContention"
    expect_set stored data_in 0 default_expiry
    expect_set data_contention (codes "SimpleMemcachedSolutionTest.AddAddDataContention_New") 0
        default_expiry
    expect_get data_in [] 0
    λ f. (tt, f)

  unfoldable pub add_delete : Test S (Unit {0})
  add_delete = do
    let data_in = codes "SimpleMemcachedSolutionTest.AddDelete"
    expect_set stored data_in 0 default_expiry
    (data_out, cas) ← expect_get data_in [] 0
    expect_delete
    expect_no_get data_out cas
    λ f. (tt, f)

  unfoldable pub delete : Test S (Unit {0})
  delete = expect_delete

  unfoldable pub add_delete_add : Test S (Unit {0})
  add_delete_add = do
    let data_in = codes "SimpleMemcachedSolutionTest.AddDeleteAdd"
    expect_set stored data_in 0 default_expiry
    (data_out, cas) ← expect_get data_in [] 0
    expect_delete
    cas1 ← expect_no_get data_out cas
    expect_set stored data_in cas1 default_expiry
    expect_get data_in data_out cas1
    λ f. (tt, f)

  unfoldable pub add_delete_set_data_contention : Test S (Unit {0})
  add_delete_set_data_contention = do
    let data_in = codes "SimpleMemcachedSolutionTest.AddDeleteSetDataContention"
    expect_set stored data_in 0 default_expiry
    (data_out, cas) ← expect_get data_in [] 0
    expect_delete
    expect_set data_contention (codes "SimpleMemcachedSolutionTest.AddDeleteSetDataContention_New")
        cas default_expiry

  -- What ConnectUsingIpAddress and DomainAndPort do with their store object.
  connected_calls : Test S (Unit {0})
  connected_calls = do
    let data_in = codes "SimpleMemcachedSolutionTest.AddGet"
    expect_set stored data_in 0 default_expiry
    (data_out, cas) ← expect_get data_in [] 0
    let data_in1 = codes "SimpleMemcachedSolutionTest.AddGet_1"
    expect_set stored data_in1 cas default_expiry
    (data_out1, cas1) ← expect_get data_in1 data_out cas
    expect_delete
    expect_no_get data_out1 cas1
    λ f. (tt, f)

  bad_calls : Test S (Unit {0})
  bad_calls = do
    expect_set error (codes "SimpleMemcachedSolutionTest.AddGet") 0 default_expiry
    (rc, data_out, cas) ← get_data [] 0
    expect_status error rc
    rc1 ← delete_data
    expect_status error rc1

-- `stores` are the store objects for each address, and `connect` says what state one of them is
-- made in, from that of the store before it.
module _ {S : Store} (stores : Text → Store)
    (connect : (domain : Text) → S.State → (stores domain).State) where
  -- `delete _store; _store = new TopologyNeutralMemcachedStore(domain, _resolver, true)`.
  abbrev pub new_store : (domain : Text) → Fixture S → Fixture (stores domain)
  new_store domain f = record {
    store = connect domain f.store;
    key = f.key;
    next_key = f.next_key;
    failed = f.failed;
  }

  -- `ip` is `_dbs->get_rogers_ips()[0]`.
  unfoldable pub connect_using_ip_address : (ip : Text) → Fixture S → Unit {0} × Fixture (stores ip)
  unfolding connected_calls
  connect_using_ip_address ip f = connected_calls (new_store ip f)

  unfoldable pub bad_domain_name : Fixture S → Unit {0} × Fixture (stores (codes "bad.domain.name"))
  unfolding bad_calls
  bad_domain_name f = bad_calls (new_store (codes "bad.domain.name") f)

  unfoldable pub domain_and_port :
      Fixture S → Unit {0} × Fixture (stores (codes "rogers.local:11311"))
  unfolding connected_calls
  domain_and_port f = connected_calls (new_store (codes "rogers.local:11311") f)
