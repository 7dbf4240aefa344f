-- ===== src/Memcached/Failures/Aside.antt =====
-- What the calls of a test leave of the fixture beside the record of the test's key.
use clearwater_fv_test.Base.{
  ℕ, ◌≡◌, ◌≢◌, refl, sym, ◌∙◌, inl, inr, ◌||◌, some, arith, ◌==◌, ==_iff, Bool-cases, text_ne,
}
use clearwater_fv_test.Text.{Text}
use clearwater_fv_test.Text.Integer.{ℤ, pos}
use clearwater_fv_test.System.{Trace, Yields}
use clearwater_fv_test.Memcached.Store.{Status, stored, data_contention, Store, IsStore}
use clearwater_fv_test.Memcached.Fixture.{
  Fixture, table, default_expiry, set_data, expect, status_eq,
}
use clearwater_fv_test.Memcached.Simple.{expect_set, expect_get}
use clearwater_fv_test.Memcached.Simple.Steps.{Now}
use clearwater_fv_test.Memcached.Case.{Case}
use clearwater_fv_test.Memcached.Failures.{retry}

module _ {S : Store} (L : IsStore S table) where
  -- The test has the same key and the same next one, and the other records are as they were.
  pub record Aside (f f' : Fixture S) : Type 0 where
    pub same_key : f'.key ≡ f.key
    pub same_next : f'.next_key ≡ f.next_key
    pub others : (j : Text) → f.key ≢ j → L.view f'.store j ≡ L.view f.store j

  pub Aside-trans : (f g h : Fixture S) → Aside f g → Aside g h → Aside f h
  Aside-trans f g h a b = record {
    same_key = b.same_key ∙ a.same_key;
    same_next = b.same_next ∙ a.same_next;
    others = λ j ne. b.others j (λ e. ne (sym a.same_key ∙ e)) ∙ a.others j ne;
  }

  pub set-Aside :
      (f : Fixture S) (wanted : Status) (d : Text) (cas : ℕ) (e : ℤ)
      → Aside f (expect_set wanted d cas e f).1
  set-Aside f wanted d cas e = record {
    same_key = refl;
    same_next = refl;
    others = λ j ne. L.set_other f.store f.key d cas e j ne;
  }

  pub get-Aside : (f : Fixture S) (d d₀ : Text) (c₀ : ℕ) → Aside f (expect_get d d₀ c₀ f).1
  get-Aside f d d₀ c₀ = record {
    same_key = refl;
    same_next = refl;
    others = λ j ne. L.get_view f.store f.key d₀ c₀ j;
  }

  -- What `retry` leaves: the new text under a CAS value that the test does not hold.
  pub record Retried (d' : Text) (n : ℕ) (c : Case S) (r : (Text × ℕ) × Case S) : Type 0 where
    pub cas : ℕ
    pub now : Now L r.1.fixture (some (d', cas)) n
    pub stale : r.0.1 ≢ cas
    pub aside : Aside c.fixture r.1.fixture
    pub same_dbs : r.1.dbs ≡ c.dbs
    pub same_failed : r.1.failed ≡ c.failed

  -- The first update after a failure, with its expectation.
  abbrev pub updated : Case S → Text → ℕ → Case S
  updated c d' cas =
      let (rc, f) = set_data d' cas default_expiry c.fixture in
      record c { fixture = (expect (status_eq rc data_contention || status_eq rc stored) f).1 }

  abbrev pub update_status : Case S → Text → ℕ → Status
  update_status c d' cas = (set_data d' cas default_expiry c.fixture).0

  -- The update was accepted, and nothing is retried.
  retry-stored :
      (c : Case S) (d d' old : Text) (cas n : ℕ) (t : Trace)
      → Now L c.fixture (some (d, cas)) n
      → Yields
          (λ r u. Retried d' n c r)
          (retry d' old cas (update_status c d' cas) (updated c d' cas) t)
  unfolding retry
  retry-stored c d d' old cas n t now =
      let (status, (cas', found, fresh)) =
        L.set_match c.fixture.store c.fixture.key d d' cas 59 now.here in
      rw status (
        _,
        _,
        refl,
        record {
          cas = cas';
          now = record { here = found; passed = omega (arith, now.passed) };
          stale = λ same.
              fresh (rw (← same) (L.view_issued c.fixture.store c.fixture.key d cas now.here));
          aside = record {
            same_key = refl;
            same_next = refl;
            others = λ j ne. L.set_other c.fixture.store c.fixture.key d' cas (pos 60) j ne;
          };
          same_dbs = refl;
          same_failed = refl;
        },
      )

  -- The update met contention, and is made again with the CAS value that is read.
  retry-data_contention :
      (c : Case S) (d d' old : Text) (c₀ cas n : ℕ) (t : Trace)
      → Now L c.fixture (some (d, c₀)) n
      → cas ≢ c₀
      → d ≢ d'
      → Yields
          (λ r u. Retried d' n c r)
          (retry d' old cas (update_status c d' cas) (updated c d' cas) t)
  unfolding retry
  retry-data_contention c d d' old c₀ cas n t now ne differ =
      let f : Fixture S = c.fixture in
      let (status, still) = L.set_conflict f.store f.key d d' c₀ cas (pos 60) now.here ne in
      let s₁ : S.State = (S.set_data f.store table f.key d' cas (pos 60)).1 in
      let got = L.get_found s₁ f.key d old c₀ cas still in
      let s₂ : S.State = (S.get_data s₁ table f.key old cas).1 in
      let here : L.view s₂ f.key ≡ some (d, c₀) = L.get_view s₁ f.key old cas f.key ∙ still in
      let (status', (c', found, fresh)) = L.set_match s₂ f.key d d' c₀ 59 here in
      rw (status, got, text_ne d d' differ, status')
        (
          _,
          _,
          refl,
          record {
            cas = c';
            now = record { here = found; passed = omega (arith, now.passed) };
            stale = λ same. fresh (rw (← same) (L.view_issued s₂ f.key d c₀ here));
            aside = record {
              same_key = refl;
              same_next = refl;
              others = λ j ne.
                  L.set_other s₂ f.key d' c₀ (pos 60) j ne
                  ∙ L.get_view s₁ f.key old cas j
                  ∙ L.set_other f.store f.key d' cas (pos 60) j ne;
            };
            same_dbs = refl;
            same_failed = refl;
          },
        )

  pub retry-Retried :
      (c : Case S) (d d' old : Text) (c₀ cas n : ℕ) (t : Trace)
      → Now L c.fixture (some (d, c₀)) n
      → d ≢ d'
      → Yields
          (λ r u. Retried d' n c r)
          (retry d' old cas (update_status c d' cas) (updated c d' cas) t)
  retry-Retried c d d' old c₀ cas n t now differ = elim (Bool-cases (cas == c₀)) [
    | inl same ↦
        let e : cas ≡ c₀ = (==_iff cas c₀).0 same in rw e (retry-stored c d d' old c₀ n t now)
    | inr other ↦
        retry-data_contention c d d' old c₀ cas n t now (λ e. cc ((==_iff cas c₀).1 e)) differ
  ]
