-- ===== src/Memcached/Case.antt =====
-- A test of a parameterized fixture of src/test_memcachedsolution.cpp: its store, and the databases
-- whose processes its scenario stops and starts.
use clearwater_fv_test.Base.{ℕ, ◌+◌, ◌≡◌, ◌≤◌, none, some}
use clearwater_fv_test.Text.{Text}
use clearwater_fv_test.System.{Os, M, continue, pure}
use clearwater_fv_test.Site.{Site}
use clearwater_fv_test.Memcached.Store.{Store}
use clearwater_fv_test.Memcached.Timed.{seconds, IsTimed}
use clearwater_fv_test.Memcached.Fixture.{Fixture, Test}
use clearwater_fv_test.Memcached.Scenario.{Scenario, trigger_failure, fix_failure}

-- What becomes of the store, its proxies and its databases while a scenario triggers its failure,
-- while it fixes it, and when a test makes a new store object.
pub record Faults (S : Store) : Type 0 where
  pub fail : S.State → S.State
  pub fix : S.State → S.State
  pub renew : S.State → S.State

-- `failed` counts the expectations of the scenario that failed, `fixture.failed` those of the test.
pub record Case (S : Store) : Type 0 where
  pub fixture : Fixture S
  pub dbs : Site
  pub failed : ℕ

-- Records with a minute to live survive, though maybe under another CAS value, and no record
-- appears or lives for longer.
pub record IsTolerant {S : Store} {table : Text} (T : IsTimed S table) (change : S.State → S.State)
    : Type 0 where
  pub keeps :
      (s : S.State) (k d : Text) (c : ℕ)
      → T.view s k ≡ some (d, c)
      → seconds 60 ≤ T.left s k
      → (c' : ℕ) × (T.view (change s) k ≡ some (d, c'))
  pub stays_missing : (s : S.State) (k : Text) → T.view s k ≡ none → T.view (change s) k ≡ none
  pub no_longer : (s : S.State) (k : Text) → T.left (change s) k ≤ T.left s k

module _ (S : Store) where
  abbrev pub CaseTest : Type 0 → Type 0
  CaseTest A = Case S → M (A × Case S)

infixl 5 ◌>>=◌ ◌>>◌
abbrev pub ◌>>=◌ : {S : Store} {A B : Type 0} → CaseTest S A → (A → CaseTest S B) → CaseTest S B
◌>>=◌ m k c t = continue (m c t) (λ (a, c'). k a c')

abbrev pub ◌>>◌ : {S : Store} {A B : Type 0} → CaseTest S A → CaseTest S B → CaseTest S B
◌>>◌ m k c t = continue (m c t) (λ (a, c'). k c')

module _ {S : Store} where
  -- A call of the store, an expectation on it, or a sleep.
  abbrev pub lift : {A : Type 0} → Test S A → CaseTest S A
  lift m c = let r = m c.fixture in pure (r.0, record c { fixture = r.1 })

  abbrev pub change_store : (S.State → S.State) → Case S → Fixture S
  change_store change c = record c.fixture { store = change c.fixture.store }

  module _ (os : Os) (faults : Faults S) (scenario : Scenario) where
    -- `TypeParam::trigger_failure(this)`.
    unfoldable pub trigger : CaseTest S (Unit {0})
    unfolding trigger_failure
    trigger c t = continue (trigger_failure os scenario c.dbs t) (λ (n, s).
        pure
          (tt, record c { fixture = change_store faults.fail c; dbs = s; failed = c.failed + n }))

    unfoldable pub fix : CaseTest S (Unit {0})
    unfolding fix_failure
    fix c t = continue (fix_failure os scenario c.dbs t) (λ (n, s).
        pure (tt, record c { fixture = change_store faults.fix c; dbs = s; failed = c.failed + n }))

  -- `delete _store; _store = new TopologyNeutralMemcachedStore("rogers.local", …)`.
  abbrev pub bounce_store : Faults S → CaseTest S (Unit {0})
  bounce_store faults c = pure (tt, record c { fixture = change_store faults.renew c })
