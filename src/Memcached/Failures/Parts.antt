-- ===== src/Memcached/Failures/Parts.antt =====
-- The parts of a round of AddKillSetSetDataContentionSet: before the failure, after it, and what
-- keys are left without a record.
use clearwater_fv_test.Base.{ℕ, ◌≡◌, ◌≢◌, refl, sym, subst, ◌∙◌, [], none, some}
use clearwater_fv_test.Text.{Text, codes}
use clearwater_fv_test.Text.Integer.{pos}
use clearwater_fv_test.Memcached.Store.{Store, stored, data_contention}
use clearwater_fv_test.Memcached.Timed.{seconds, IsTimed}
use clearwater_fv_test.Memcached.Fixture.{Fixture, table, default_expiry}
use clearwater_fv_test.Memcached.Simple.{expect_set, expect_get}
use clearwater_fv_test.Memcached.Simple.Steps.{Now, add, replace, conflict, fetch, begin}
use clearwater_fv_test.Memcached.Case.{Case, IsTolerant, change_store}
use clearwater_fv_test.Memcached.Failures.Aside.{Aside, Aside-trans, set-Aside, get-Aside}

module _ {S : Store} (T : IsTimed S table) where
  -- What the part of a round before the failure leaves, for a new key that has no record.
  pub record Started (c c' : Case S) (d : Text) : Type 0 where
    pub cas : ℕ
    pub now : Now T.store_laws c'.fixture (some (d, cas)) c.fixture.failed
    pub lives : T.left c'.fixture.store c'.fixture.key ≡ seconds 60
    pub aside : Aside T.store_laws c.fixture c'.fixture

  abbrev pub started : Case S → Text → Case S
  started c d =
      let f : Fixture S = (expect_set stored d 0 default_expiry c.fixture).1 in
      record c { fixture = (expect_get d [] 0 f).1 }

  pub started-Started :
      (c : Case S) (d : Text)
      → T.view c.fixture.store c.fixture.key ≡ none
      → Started c (started c d) d
  started-Started c d fresh =
      let f : Fixture S = (expect_set stored d 0 default_expiry c.fixture).1 in
      let (cas, now) =
        add T.store_laws c.fixture d 59 _ refl (begin T.store_laws c.fixture fresh) in
      record {
        cas = cas;
        now = (fetch T.store_laws f d cas _ now).1;
        lives =
            T.get_left f.store f.key [] 0 f.key
            ∙ T.add_left c.fixture.store c.fixture.key d 59 fresh;
        aside =
            Aside-trans T.store_laws c.fixture f (started c d).fixture
              (set-Aside T.store_laws c.fixture stored d 0 default_expiry)
              (get-Aside T.store_laws f d [] 0);
      }

  -- The part of a round after the first update and its retry.
  abbrev pub ended : Case S → Text → Text → Text → ℕ → Case S
  ended c d d' old cas =
      let f₁ : Fixture S =
        (expect_set data_contention (codes "FAIL") cas default_expiry c.fixture).1 in
      let ((out, cas'), f₂) = expect_get d old cas f₁ in
      let f₃ : Fixture S = (expect_set stored d' cas' default_expiry f₂).1 in
      record c { fixture = (expect_get d' out cas' f₃).1 }

  pub ended-passes :
      (c : Case S) (d d' old : Text) (cas c₀ n : ℕ)
      → Now T.store_laws c.fixture (some (d, c₀)) n
      → cas ≢ c₀
      → ((ended c d d' old cas).fixture.failed ≡ n)
        × Aside T.store_laws c.fixture (ended c d d' old cas).fixture
  ended-passes c d d' old cas c₀ n now stale =
      let L = T.store_laws in
      let f₁ : Fixture S =
        (expect_set data_contention (codes "FAIL") cas default_expiry c.fixture).1 in
      let f₂ : Fixture S = (expect_get d old cas f₁).1 in
      let cas' : ℕ = (expect_get d old cas f₁).0.1 in
      let out : Text = (expect_get d old cas f₁).0.0 in
      let f₃ : Fixture S = (expect_set stored d' cas' default_expiry f₂).1 in
      let now₁ = conflict L c.fixture d (codes "FAIL") c₀ (pos 60) n stale now in
      let (read, now₂) = fetch L f₁ d c₀ n {d₀ = old} {c₀ = cas} now₁ in
      let (c'', is_new, now₃) = replace L f₂ d d' c₀ 59 n read now₂ in
      (
        (fetch L f₃ d' c'' n {d₀ = out} {c₀ = cas'} now₃).1.passed,
        Aside-trans L c.fixture f₁ _
            (set-Aside L c.fixture data_contention (codes "FAIL") cas default_expiry)
            (Aside-trans L f₁ f₂ _ (get-Aside L f₁ d old cas) (
              Aside-trans L f₂ f₃ _ (set-Aside L f₂ stored d' cas' default_expiry)
                (get-Aside L f₃ d' out cas'))),
      )

  -- The key and the next one are the same, and keys but this one that had no record have none.
  pub record Onward (f f' : Fixture S) : Type 0 where
    pub key : f'.key ≡ f.key
    pub next : f'.next_key ≡ f.next_key
    pub absent : (j : Text) → f.key ≢ j → T.view f.store j ≡ none → T.view f'.store j ≡ none

  pub Onward-trans : {f g h : Fixture S} → Onward f g → Onward g h → Onward f h
  Onward-trans a b = record {
    key = b.key ∙ a.key;
    next = b.next ∙ a.next;
    absent = λ j ne gone. b.absent j (λ e. ne (sym a.key ∙ e)) (a.absent j ne gone);
  }

  pub Aside-Onward : {f f' : Fixture S} → Aside T.store_laws f f' → Onward f f'
  Aside-Onward a = record {
    key = a.same_key;
    next = a.same_next;
    absent = λ j ne gone. a.others j ne ∙ gone;
  }

  pub change-Onward :
      {change : S.State → S.State}
      → IsTolerant T change
      → (c : Case S) {f : Fixture S} → f ≡ change_store change c
      → Onward c.fixture f
  change-Onward {change} tolerant c same = subst (Onward c.fixture) (sym same) (record {
    key = refl;
    next = refl;
    absent = λ j ne gone. tolerant.stays_missing c.fixture.store j gone;
  })
