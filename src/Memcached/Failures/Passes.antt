-- ===== src/Memcached/Failures/Passes.antt =====
-- The tests with a failure pass, in every scenario, where the store survives failures.
use clearwater_fv_test.Base.{ℕ, ◌≤◌, ◌≡◌, refl, ap, ◌∙◌, [], none, some, arith, All}
use clearwater_fv_test.Text.{Text, codes}
use clearwater_fv_test.Text.Integer.{ℤ, pos}
use clearwater_fv_test.System.{Os, Trace, M, continue, Yields, >>=-Yields}
use clearwater_fv_test.Memcached.Store.{Store, stored}
use clearwater_fv_test.Memcached.Timed.{seconds, IsTimed}
use clearwater_fv_test.Memcached.Fixture.{Fixture, table, default_expiry, sleep}
use clearwater_fv_test.Memcached.Scenario.{Scenario}
use clearwater_fv_test.Memcached.Servers.Total.{IsWhole}
use clearwater_fv_test.Memcached.Simple.{expect_set, expect_get, expect_delete}
use clearwater_fv_test.Memcached.Simple.Steps.{
  Now, add, replace, expire, fetch, fetch_none, remove, await, begin,
}
use clearwater_fv_test.Memcached.Case.{Case, CaseTest, Faults, change_store, trigger}
use clearwater_fv_test.Memcached.Failures.{
  kill_add_get, add_kill_get, add_kill_get_expire, add_delete_kill, add_kill_cas_delete,
  large_add_get, add_kill_get_set, one_failure_tests,
}
use clearwater_fv_test.Memcached.Failures.Steps.{
  Setting, Passed, Failed, trigger-Failed, fix-Passed, trigger_found, trigger_gone, GoesOn,
}

module _ {S : Store} (T : IsTimed S table) (os : Os) (faults : Faults S)
    (setting : Setting T os faults) (scenario : Scenario) where
  -- The test runs to its end, and no expectation fails, if the key is absent at its start.
  abbrev Passes : CaseTest S (Unit {0}) → Type 0
  Passes test =
      (c : Case S) (t : Trace)
      → T.view c.fixture.store c.fixture.key ≡ none
      → IsWhole c.dbs
      → Yields (Passed c) (test c t)

  -- What a test that adds its key first leaves, with the record and how long it lives.
  abbrev added : Case S → Text → ℤ → Case S
  added c d expiry = record c { fixture = (expect_set stored d 0 expiry c.fixture).1 }

  kill_add_get-Passes : Passes (kill_add_get os faults scenario)
  unfolding kill_add_get
  kill_add_get-Passes c t fresh whole =
      trigger_gone T os faults setting scenario c _ c t refl whole
        (begin T.store_laws c.fixture fresh)
        (λ c₁ now u kept hurt.
          let (cas, now₁) = add T.store_laws c₁.fixture _ _ _ refl now in
          fix-Passed T os faults setting scenario c _ u (fetch T.store_laws _ _ _ _ now₁).1.passed
            kept hurt)

  -- A test that adds its key, and goes on after a failure.
  module _ (c : Case S) (d : Text) (rest : Unit {0} × Case S → M (Unit {0} × Case S)) (t : Trace)
      (fresh : T.view c.fixture.store c.fixture.key ≡ none) (whole : IsWhole c.dbs) where
    add_trigger :
        ((c' : Case S) (cas : ℕ)
          → Now T.store_laws c'.fixture (some (d, cas)) c.fixture.failed
          → GoesOn T os faults setting scenario c rest (added c d default_expiry) t refl whole c')
        → Yields
            (Passed c)
            (continue (trigger os faults scenario (added c d default_expiry) t) rest)
    add_trigger goes_on =
        let (cas, now) =
          add T.store_laws c.fixture d 59 _ refl (begin T.store_laws c.fixture fresh) in
        let lives = T.add_left c.fixture.store c.fixture.key d 59 fresh in
        trigger_found T os faults setting scenario c rest (added c d default_expiry) t refl whole d
          cas now lives goes_on

  add_kill_get-Passes : (data_in : Text) → Passes (add_kill_get os faults scenario data_in)
  unfolding add_kill_get
  add_kill_get-Passes data_in c t fresh whole =
      add_trigger c data_in _ t fresh whole (λ c₂ cas now u kept hurt.
        fix-Passed T os faults setting scenario c _ u (fetch T.store_laws _ _ _ _ now).1.passed kept
          hurt)

  -- The record had one second to live at most, and two have passed.
  expired :
      (c : Case S) (f : Fixture S) (n : ℕ)
      → f ≡ change_store faults.fail c
      → f.failed ≡ n
      → T.left c.fixture.store c.fixture.key ≡ seconds 1
      → Now T.store_laws (sleep (seconds 2) f).1 none n
  expired c f n same passed lives =
      let shorter = setting.fails.no_longer c.fixture.store c.fixture.key in
      let left_now : T.left f.store f.key ≤ seconds 1 = rw same (omega (arith, shorter, lives)) in
      record {
        here = T.wait_expired f.store f.key (seconds 2) (omega (arith, left_now));
        passed = passed;
      }

  add_kill_get_expire-Passes : Passes (add_kill_get_expire os faults scenario)
  unfolding add_kill_get_expire
  add_kill_get_expire-Passes c t fresh whole =
      let data_in : Text = codes "MemcachedSolutionFailureTest.AddKillGetExpire" in
      let (cas, now) =
        add T.store_laws c.fixture data_in 0 _ refl (begin T.store_laws c.fixture fresh) in
      let lives = T.add_left c.fixture.store c.fixture.key data_in 0 fresh in
      let c₁ : Case S = added c data_in (pos 1) in
      >>=-Yields (Failed T os faults setting scenario c₁) (Passed c)
        (trigger os faults scenario c₁ t) _ (trigger-Failed T os faults setting scenario c₁ t whole)
        (λ (x, c₂) u (same, kept, hurt).
          let passed = ap (λ (f : Fixture S). f.failed) same ∙ now.passed in
          let gone = expired c₁ c₂.fixture c.fixture.failed same passed lives in
          fix-Passed T os faults setting scenario c _ u (fetch_none T.store_laws _ _ gone).1.passed
            kept hurt)

  add_delete_kill-Passes : Passes (add_delete_kill os faults scenario)
  unfolding add_delete_kill
  add_delete_kill-Passes c t fresh whole =
      let data_in : Text = codes "MemcachedSolutionFailureTest.AddDeleteKill" in
      let (cas, now) =
        add T.store_laws c.fixture data_in 59 _ refl (begin T.store_laws c.fixture fresh) in
      let (read, now₁) = fetch T.store_laws _ _ _ _ now in
      let f : Fixture S = (expect_get data_in [] 0 (added c data_in default_expiry).fixture).1 in
      trigger_gone T os faults setting scenario c _ (record c { fixture = (expect_delete f).1 }) t
        refl whole (remove T.store_laws _ _ now₁)
        (λ c₂ gone u kept hurt.
          fix-Passed T os faults setting scenario c _ u (fetch_none T.store_laws _ _ gone).1.passed
            kept hurt)

  add_kill_cas_delete-Passes : Passes (add_kill_cas_delete os faults scenario)
  unfolding add_kill_cas_delete
  add_kill_cas_delete-Passes c t fresh whole =
      add_trigger c _ _ t fresh whole (λ c₂ cas now u kept hurt.
        let (read, now₁) = fetch T.store_laws _ _ _ _ now in
        let gone = expire T.store_laws _ _ (codes "DELETE") _ _ read now₁ in
        fix-Passed T os faults setting scenario c _ u
          (fetch_none T.store_laws _ _ (await T.store_laws _ _ 5_000 gone)).1.passed kept hurt)

  large_add_get-Passes : Passes large_add_get
  unfolding large_add_get
  large_add_get-Passes c t fresh whole =
      let (cas, now) =
        add T.store_laws c.fixture _ 59 _ refl (begin T.store_laws c.fixture fresh) in
      (_, _, refl, ((fetch T.store_laws _ _ _ _ now).1.passed, refl, whole))

  add_kill_get_set-Passes : Passes (add_kill_get_set os faults scenario)
  unfolding add_kill_get_set
  add_kill_get_set-Passes c t fresh whole =
      add_trigger c _ _ t fresh whole (λ c₂ cas now u kept hurt.
        let (read, now₁) = fetch T.store_laws _ _ _ _ now in
        let (cas', is_new, now₂) = replace T.store_laws _ _ _ _ 59 _ read now₁ in
        fix-Passed T os faults setting scenario c _ u (fetch T.store_laws _ _ _ _ now₂).1.passed
          kept hurt)

  -- Where no call of the operating system fails and the store survives failures, the five tests
  -- of failures without a loop and the three of larger clusters run to their end in each scenario,
  -- if all instances are serving and the key has no record at their start: no expectation fails,
  -- neither on the store nor on a failure or its repair, and all instances are serving at the end.
  pub one_failure_tests-pass :
      (c : Case S) (t : Trace)
      → T.view c.fixture.store c.fixture.key ≡ none
      → IsWhole c.dbs
      → All (λ test. Yields (Passed c) (test c t)) (one_failure_tests os faults scenario)
  one_failure_tests-pass c t fresh whole = (
    kill_add_get-Passes c t fresh whole,
    (
      add_kill_get-Passes _ c t fresh whole,
      (
        add_kill_get_expire-Passes c t fresh whole,
        (
          add_delete_kill-Passes c t fresh whole,
          (
            add_kill_cas_delete-Passes c t fresh whole,
            (
              large_add_get-Passes c t fresh whole,
              (
                add_kill_get-Passes _ c t fresh whole,
                (add_kill_get_set-Passes c t fresh whole, tt),
              ),
            ),
          ),
        ),
      ),
    ),
  )
