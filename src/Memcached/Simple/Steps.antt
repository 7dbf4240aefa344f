-- ===== src/Memcached/Simple/Steps.antt =====
-- What each call of a test, with its expectation, makes of the record of the test's key.
use clearwater_fv_test.Base.{ℕ, suc, ◌≡◌, ◌≢◌, refl, ◌∙◌, Option, none, some, text_eq_iff, arith}
use clearwater_fv_test.Text.{Text}
use clearwater_fv_test.Text.Integer.{ℤ, pos}
use clearwater_fv_test.Memcached.Store.{stored, data_contention, Store, IsStore}
use clearwater_fv_test.Memcached.Fixture.{Fixture, table, sleep}
use clearwater_fv_test.Memcached.Simple.{expect_set, expect_get, expect_no_get, expect_delete}

-- The record of the test's key, and the number of expectations that failed so far.
pub record Now {S : Store} (L : IsStore S table) (f : Fixture S) (o : Option (Text × ℕ)) (n : ℕ)
    : Type 0 where
  pub here : L.view f.store f.key ≡ o
  pub passed : f.failed ≡ n

module _ {S : Store} (L : IsStore S table) where
  pub add :
      (f : Fixture S) (d : Text) (e n : ℕ) {cas : ℕ}
      → cas ≡ 0
      → Now L f none n
      → (c : ℕ) × Now L (expect_set stored d cas (pos (suc e)) f).1 (some (d, c)) n
  add f d e n zero_cas now =
      let (status, (c, found)) = L.set_add f.store f.key d e now.here in
      rw zero_cas (c, record { here = found; passed = rw status (omega (arith, now.passed)) })

  pub replace :
      (f : Fixture S) (d d' : Text) (c e n : ℕ) {cas : ℕ}
      → cas ≡ c
      → Now L f (some (d, c)) n
      → (c' : ℕ) × (c ≢ c') × Now L (expect_set stored d' cas (pos (suc e)) f).1 (some (d', c')) n
  replace f d d' c e n this_cas now =
      let (status, (c', found, is_new)) = L.set_match f.store f.key d d' c e now.here in
      rw this_cas (
        c',
        λ same. is_new (rw (← same) (L.view_issued f.store f.key d c now.here)),
        record { here = found; passed = rw status (omega (arith, now.passed)) },
      )

  pub conflict :
      (f : Fixture S) (d d' : Text) (c : ℕ) (e : ℤ) (n : ℕ) {cas : ℕ}
      → cas ≢ c
      → Now L f (some (d, c)) n
      → Now L (expect_set data_contention d' cas e f).1 (some (d, c)) n
  conflict f d d' c e n {cas} other_cas now =
      let (status, still) = L.set_conflict f.store f.key d d' c cas e now.here other_cas in
      record { here = still; passed = rw status (omega (arith, now.passed)) }

  pub conflict_gone :
      (f : Fixture S) (d' : Text) (e : ℤ) (n : ℕ) {cas : ℕ}
      → cas ≢ 0
      → Now L f none n
      → Now L (expect_set data_contention d' cas e f).1 none n
  conflict_gone f d' e n {cas} nonzero now =
      let (status, still) = L.set_gone f.store f.key d' cas e now.here nonzero in
      record { here = still; passed = rw status (omega (arith, now.passed)) }

  pub expire :
      (f : Fixture S) (d d' : Text) (c n : ℕ) {cas : ℕ}
      → cas ≡ c
      → Now L f (some (d, c)) n
      → Now L (expect_set stored d' cas (pos 0) f).1 none n
  expire f d d' c n this_cas now =
      let (status, gone) = L.set_expired f.store f.key d d' c now.here in
      rw this_cas (record { here = gone; passed = rw status (omega (arith, now.passed)) })

  pub fetch :
      (f : Fixture S) (d : Text) (c n : ℕ) {d₀ : Text} {c₀ : ℕ}
      → Now L f (some (d, c)) n
      → ((expect_get d d₀ c₀ f).0.1 ≡ c) × Now L (expect_get d d₀ c₀ f).1 (some (d, c)) n
  fetch f d c n {d₀} {c₀} now =
      let result = L.get_found f.store f.key d d₀ c c₀ now.here in
      (
        rw result refl,
        record {
          here = L.get_view f.store f.key d₀ c₀ f.key ∙ now.here;
          passed = rw (result, (text_eq_iff d d).1 refl) (omega (arith, now.passed));
        },
      )

  pub fetch_none :
      (f : Fixture S) (n : ℕ) {d₀ : Text} {c₀ : ℕ}
      → Now L f none n
      → ((expect_no_get d₀ c₀ f).0 ≡ 0) × Now L (expect_no_get d₀ c₀ f).1 none n
  fetch_none f n {d₀} {c₀} now =
      let (status, cas) = L.get_missing f.store f.key d₀ c₀ now.here in
      (
        cas,
        record {
          here = L.get_view f.store f.key d₀ c₀ f.key ∙ now.here;
          passed = rw status (omega (arith, now.passed));
        },
      )

  pub remove :
      (f : Fixture S) (n : ℕ) {o : Option (Text × ℕ)}
      → Now L f o n
      → Now L (expect_delete f).1 none n
  remove f n now =
      let (status, gone) = L.delete_lem f.store f.key in
      record { here = gone; passed = rw status (omega (arith, now.passed)) }

  pub await : (f : Fixture S) (n us : ℕ) → Now L f none n → Now L (sleep us f).1 none n
  await f n us now = record { here = L.wait_missing f.store f.key us now.here; passed = now.passed }

  pub begin : (f : Fixture S) → L.view f.store f.key ≡ none → Now L f none f.failed
  begin f fresh = record { here = fresh; passed = refl }
