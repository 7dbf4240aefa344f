-- ===== src/Memcached/Simple/Passes.antt =====
-- The tests of `SimpleMemcachedSolutionTest` pass against every store that keeps its promises.
use clearwater_fv_test.Base.{◌≡◌, ◌≢◌, refl, sym, ◌∙◌, List, [], ◌∷◌, none, arith, All}
use clearwater_fv_test.Text.{Text, codes}
use clearwater_fv_test.Text.Decimal.{decimal}
use clearwater_fv_test.Text.Integer.{pos}
use clearwater_fv_test.Memcached.Store.{Store, IsStore}
use clearwater_fv_test.Memcached.Fixture.{get_new_key, Fixture, Test, table}
use clearwater_fv_test.Memcached.Simple.{
  add_get, add_set_set_data_contention_set, add_set_cas_delete_data_contention_cas_delete,
  add_add_data_contention, add_delete, delete, add_delete_add, add_delete_set_data_contention,
  add_get_two_keys,
}
use clearwater_fv_test.Memcached.Simple.Steps.{
  add, replace, conflict, conflict_gone, expire, fetch, fetch_none, remove, await, begin,
}

module _ {S : Store} (L : IsStore S table) where
  -- What each test leaves of a count of failures, if the key is absent at its start.
  abbrev Passes : Test S (Unit {0}) → Type 0
  Passes test = (f : Fixture S) → L.view f.store f.key ≡ none → (test f).1.failed ≡ f.failed

  add_get-Passes : Passes add_get
  unfolding add_get
  add_get-Passes f fresh =
      let (c, now) = add L f _ _ _ refl (begin L f fresh) in (fetch L _ _ _ _ now).1.passed

  add_set_set-Passes : Passes add_set_set_data_contention_set
  unfolding add_set_set_data_contention_set
  add_set_set-Passes f fresh =
      let (c, now) = add L f _ _ _ refl (begin L f fresh) in
      let (cas, now₁) = fetch L _ _ _ _ now in
      let (c', is_new, now₂) = replace L _ _ _ _ _ _ cas now₁ in
      let now₃ = conflict L _ _ _ _ _ _ (λ e. is_new (sym cas ∙ e)) now₂ in
      let (cas', now₄) = fetch L _ _ _ _ now₃ in
      let (c'', is_new', now₅) = replace L _ _ _ _ _ _ cas' now₄ in (fetch L _ _ _ _ now₅).1.passed

  add_set_cas_delete-Passes : Passes add_set_cas_delete_data_contention_cas_delete
  unfolding add_set_cas_delete_data_contention_cas_delete
  add_set_cas_delete-Passes f fresh =
      let (c, now) = add L f _ _ _ refl (begin L f fresh) in
      let (cas, now₁) = fetch L _ _ _ _ now in
      let (c', is_new, now₂) = replace L _ _ _ _ _ _ cas now₁ in
      let now₃ = conflict L _ _ _ _ _ _ (λ e. is_new (sym cas ∙ e)) now₂ in
      let (cas', now₄) = fetch L _ _ _ _ now₃ in
      (fetch_none L _ _ (await L _ _ 10_000 (expire L _ _ _ _ _ cas' now₄))).1.passed

  add_add-Passes : Passes add_add_data_contention
  unfolding add_add_data_contention
  add_add-Passes f fresh =
      let (c, now) = add L f _ _ _ refl (begin L f fresh) in
      let now₁ = conflict L _ _ _ _ _ _ (λ e. L.cas_nonzero _ _ _ c now.here (sym e)) now in
      (fetch L _ _ _ _ now₁).1.passed

  add_delete-Passes : Passes add_delete
  unfolding add_delete
  add_delete-Passes f fresh =
      let (c, now) = add L f _ _ _ refl (begin L f fresh) in
      let (cas, now₁) = fetch L _ _ _ _ now in (fetch_none L _ _ (remove L _ _ now₁)).1.passed

  delete-Passes : Passes delete
  unfolding delete
  delete-Passes f fresh = (remove L f _ (begin L f fresh)).passed

  add_delete_add-Passes : Passes add_delete_add
  unfolding add_delete_add
  add_delete_add-Passes f fresh =
      let (c, now) = add L f _ _ _ refl (begin L f fresh) in
      let (cas, now₁) = fetch L _ _ _ _ now in
      let (no_cas, now₂) = fetch_none L _ _ (remove L _ _ now₁) in
      let (c', now₃) = add L _ _ _ _ no_cas now₂ in (fetch L _ _ _ _ now₃).1.passed

  add_delete_set-Passes : Passes add_delete_set_data_contention
  unfolding add_delete_set_data_contention
  add_delete_set-Passes f fresh =
      let (c, now) = add L f _ _ _ refl (begin L f fresh) in
      let (cas, now₁) = fetch L _ _ _ _ now in
      let kept = L.cas_nonzero _ _ _ c now.here in
      (conflict_gone L _ _ _ _ (λ e. kept (sym cas ∙ e)) (remove L _ _ now₁)).passed

  -- The tests of this class that use one key and do not wait for a record to expire.
  abbrev pub one_key_tests : List (Test S (Unit {0}))
  one_key_tests =
      add_get ∷ add_set_set_data_contention_set ∷ add_set_cas_delete_data_contention_cas_delete
      ∷ add_add_data_contention ∷ add_delete ∷ delete ∷ add_delete_add
      ∷ add_delete_set_data_contention ∷ []

  -- Against every store that keeps the promises of `IsStore`, and from any state of it in which
  -- the test's key has no record, no expectation fails in any of the eight simple tests that use
  -- one key and do not wait for a record to expire.
  pub one_key_tests-pass :
      (f : Fixture S)
      → L.view f.store f.key ≡ none
      → All (λ test. (test f).1.failed ≡ f.failed) one_key_tests
  one_key_tests-pass f fresh = (
    add_get-Passes f fresh,
    (
      add_set_set-Passes f fresh,
      (
        add_set_cas_delete-Passes f fresh,
        (
          add_add-Passes f fresh,
          (
            add_delete-Passes f fresh,
            (
              delete-Passes f fresh,
              (add_delete_add-Passes f fresh, (add_delete_set-Passes f fresh, tt)),
            ),
          ),
        ),
      ),
    ),
  )

  -- Against every store that keeps the promises of `IsStore`, no expectation fails in AddGetTwoKeys
  -- if neither the test's key nor the next new key has a record, and the two are different.
  pub add_get_two_keys-pass :
      (f : Fixture S)
      → L.view f.store f.key ≡ none
      → L.view f.store (decimal f.next_key) ≡ none
      → f.key ≢ decimal f.next_key
      → (add_get_two_keys f).1.failed ≡ f.failed
  unfolding add_get_two_keys get_new_key
  add_get_two_keys-pass f absent1 absent2 ne =
      let k1 : Text = f.key in
      let k2 : Text = decimal f.next_key in
      let d1 : Text = codes "SimpleMemcachedSolutionTest.AddGetTwoKeys1" in
      let d2 : Text = codes "SimpleMemcachedSolutionTest.AddGetTwoKeys2" in
      let (status1, (c1, here1)) = L.set_add f.store k1 d1 59 absent1 in
      let s1 : S.State = (S.set_data f.store table k1 d1 0 (pos 60)).1 in
      let (status2, (c2, here2)) =
        L.set_add s1 k2 d2 59 (L.set_other f.store k1 d1 0 (pos 60) k2 ne ∙ absent2) in
      let s2 : S.State = (S.set_data s1 table k2 d2 0 (pos 60)).1 in
      let got1 =
        L.get_found s2 k1 d1 [] c1 0
          (L.set_other s1 k2 d2 0 (pos 60) k1 (λ e. ne (sym e)) ∙ here1) in
      let s3 : S.State = (S.get_data s2 table k1 [] 0).1 in
      let got2 = L.get_found s3 k2 d2 [] c2 0 (L.get_view s2 k1 [] 0 k2 ∙ here2) in
      rw (status1, status2, got1, got2) (omega arith)
