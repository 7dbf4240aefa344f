-- ===== src/Memcached/Simple/Connects.antt =====
-- The simple tests that make a store object of their own, and the one that waits for an expiry.
use clearwater_fv_test.Base.{◌≡◌, refl, ◌∙◌, [], none, arith}
use clearwater_fv_test.Text.{Text, codes}
use clearwater_fv_test.Text.Integer.{pos}
use clearwater_fv_test.Memcached.Store.{stored, Store, IsStore}
use clearwater_fv_test.Memcached.Timed.{seconds, IsTimed}
use clearwater_fv_test.Memcached.Fixture.{Fixture, table, sleep}
use clearwater_fv_test.Memcached.Simple.{
  expect_set, expect_get, add_get_expire, connected_calls, connect_using_ip_address,
  domain_and_port, new_store,
}
use clearwater_fv_test.Memcached.Simple.Steps.{Now, add, replace, fetch, fetch_none, remove, begin}

module _ {S : Store} (T : IsTimed S table) where
  -- Against every store that keeps the promises of `IsTimed`, no expectation fails in AddGetExpire
  -- if the key has no record at its start: the record is there at once, and gone two seconds later.
  pub add_get_expire-passes :
      (f : Fixture S) → T.view f.store f.key ≡ none → (add_get_expire f).1.failed ≡ f.failed
  unfolding add_get_expire
  add_get_expire-passes f fresh =
      let L = T.store_laws in
      let d : Text = codes "SimpleMemcachedSolutionTest.AddGetExpire" in
      let (c, now) = add L f d 0 f.failed refl (begin L f fresh) in
      let f₁ : Fixture S = (expect_set stored d 0 (pos 1) f).1 in
      let (cas, now₁) = fetch L f₁ d c f.failed {d₀ = []} {c₀ = 0} now in
      let f₂ : Fixture S = (expect_get d [] 0 f₁).1 in
      let lives = T.get_left f₁.store f.key [] 0 f.key ∙ T.add_left f.store f.key d 0 fresh in
      let gone : Now L (sleep (seconds 2) f₂).1 none f.failed = record {
        here = T.wait_expired f₂.store f.key (seconds 2) (omega (arith, lives));
        passed = now₁.passed;
      } in
      (fetch_none L _ _ gone).1.passed

module _ {S : Store} (L : IsStore S table) where
  connected_calls-passes :
      (f : Fixture S) → L.view f.store f.key ≡ none → (connected_calls f).1.failed ≡ f.failed
  unfolding connected_calls
  connected_calls-passes f fresh =
      let (c, now) = add L f _ _ _ refl (begin L f fresh) in
      let (cas, now₁) = fetch L _ _ _ _ now in
      let (c', is_new, now₂) = replace L _ _ _ _ _ _ cas now₁ in
      let (cas', now₃) = fetch L _ _ _ _ now₂ in (fetch_none L _ _ (remove L _ _ now₃)).1.passed

-- If the store objects for the address of the first Rogers and for rogers.local:11311 keep the
-- promises of `IsStore`, and neither finds a record of the test's key when it is made, no expectation
-- fails in ConnectUsingIpAddress and none in DomainAndPort, whatever the store objects for other
-- addresses do.
pub connect_tests-pass :
    {S : Store} (stores : Text → Store)
    (connect : (domain : Text) → S.State → (stores domain).State) (ip : Text)
    (by_ip : IsStore (stores ip) table)
    (by_name : IsStore (stores (codes "rogers.local:11311")) table) (f : Fixture S)
    → by_ip.view (connect ip f.store) f.key ≡ none
    → by_name.view (connect (codes "rogers.local:11311") f.store) f.key ≡ none
    → ((connect_using_ip_address stores connect ip f).1.failed ≡ f.failed)
      × ((domain_and_port stores connect f).1.failed ≡ f.failed)
unfolding connect_using_ip_address domain_and_port
connect_tests-pass stores connect ip by_ip by_name f fresh_ip fresh_name = (
  connected_calls-passes by_ip (new_store stores connect ip f) fresh_ip,
  connected_calls-passes by_name (new_store stores connect (codes "rogers.local:11311") f)
      fresh_name,
)
