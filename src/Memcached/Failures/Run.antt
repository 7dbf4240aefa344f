-- ===== src/Memcached/Failures/Run.antt =====
-- A whole run of one test of a scenario, src/test_memcachedsolution.cpp: `SetUpTestCase`, `SetUp`,
-- and the test.
use clearwater_fv_test.Base.{
  ℕ, ◌+◌, ◌^◌, ◌≤◌, ◌≡◌, refl, ap, ◌∙◌, if◌then◌else◌, true, none, some, arith, All, All-mono,
}
use clearwater_fv_test.Text.{Text}
use clearwater_fv_test.System.{Os, Trace, M, ◌>>=◌, pure, Yields, >>=-Yields}
use clearwater_fv_test.Process.Healthy.{IsHealthy}
use clearwater_fv_test.Shared.{deref}
use clearwater_fv_test.Site.{Site}
use clearwater_fv_test.Memcached.Store.{Store}
use clearwater_fv_test.Memcached.Timed.{IsTimed}
use clearwater_fv_test.Memcached.Fixture.{Fixture, table, get_new_key, new_keys}
use clearwater_fv_test.Memcached.Scenario.{Scenario}
use clearwater_fv_test.Memcached.Servers.Total.{IsWhole}
use clearwater_fv_test.Memcached.Servers.Whole.{set_up_scenario-HasWhole, wait_for_servers-true}
use clearwater_fv_test.Memcached.Servers.{Servers, no_servers, set_up_scenario, wait_for_servers}
use clearwater_fv_test.Memcached.Case.{Case, CaseTest, Faults}
use clearwater_fv_test.Memcached.Failures.{one_failure_tests, add_kill_set_set_data_contention_set}
use clearwater_fv_test.Memcached.Failures.Steps.{Setting, Passed}
use clearwater_fv_test.Memcached.Failures.Passes.{one_failure_tests-pass}
use clearwater_fv_test.Memcached.Failures.Rounds.{add_kill_set_set_data_contention_set-passes}

-- The shared databases with what the test has made of its site.
abbrev pub with_site : Servers → Site → Servers
with_site v s = record v { dbs = some s }

module _ {S : Store} (os : Os) where
  -- `SetUp`: a new key, and an expectation that all instances can be waited for.
  unfoldable pub set_up : Servers → CaseTest S (Unit {0})
  unfolding get_new_key wait_for_servers
  set_up v c = do
    let f = (get_new_key c.fixture).1
    up ← wait_for_servers os (with_site v c.dbs)
    pure (tt, record c { fixture = record f { failed = f.failed + (if up then 0 else 1) } })

  -- One test of a scenario whose databases have not been set up, from a state of the store and of
  -- the counter of keys.
  unfoldable pub run_test : Scenario → CaseTest S (Unit {0}) → Fixture S → M (Unit {0} × Case S)
  unfolding set_up_scenario set_up
  run_test scenario test f = do
    v ← set_up_scenario os scenario no_servers
    s ← deref v.dbs
    (x, c) ← set_up v (record { fixture = f; dbs = s; failed = 0 })
    test c

-- No expectation failed in a run, and all instances are serving at its end.
abbrev pub RunPassed : {S : Store} → Fixture S → Unit {0} × Case S → Trace → Type 0
RunPassed f (x, c) u = (c.fixture.failed ≡ f.failed) × (c.failed ≡ 0) × IsWhole c.dbs

module _ {S : Store} (os : Os) (healthy : IsHealthy os) where
  -- After `SetUp`, the test has the next key, and nothing has failed.
  abbrev IsSetUp : Case S → Unit {0} × Case S → Trace → Type 0
  IsSetUp c (x, c') u = c' ≡ record c { fixture = (get_new_key c.fixture).1 }

  set_up-IsSetUp : (v : Servers) (c : Case S) (t : Trace) → Yields (IsSetUp c) (set_up os v c t)
  unfolding set_up get_new_key
  set_up-IsSetUp v c t =
      >>=-Yields (λ b u. b ≡ true) (IsSetUp c) (wait_for_servers os (with_site v c.dbs) t) _
        (wait_for_servers-true os healthy (with_site v c.dbs) c.dbs t refl)
        (λ b u up. (_, _, refl, rw up (no_more c)))
    where
      no_more :
          (c : Case S)
          → ◌≡◌ {A = Case S}
              (record c {
                fixture = record (get_new_key c.fixture).1 { failed = c.fixture.failed + 0 };
              })
              (record c { fixture = (get_new_key c.fixture).1 })
      no_more c =
          let e : c.fixture.failed + 0 ≡ c.fixture.failed = omega arith in
          ap (λ (n : ℕ). record c { fixture = record (get_new_key c.fixture).1 { failed = n } }) e

  module _ (makes : (t : Trace) (dir : Text) → os.create_directory t dir ≡ true) where
    -- Every run comes to its test, with a new key, whole databases, and nothing failed.
    record Begun (scenario : Scenario) (f : Fixture S) (t : Trace) : Type 0 where
      case : Case S
      now : Trace
      runs : (test : CaseTest S (Unit {0})) → run_test os scenario test f t ≡ test case now
      new_key : case.fixture ≡ (get_new_key f).1
      clean : case.failed ≡ 0
      whole : IsWhole case.dbs

    begun : (scenario : Scenario) (f : Fixture S) (t : Trace) → Begun scenario f t
    unfolding run_test
    begun scenario f t =
        let (v, t₁, e₁, (s, there, whole)) = set_up_scenario-HasWhole os healthy makes scenario t in
        let c : Case S = record { fixture = f; dbs = s; failed = 0 } in
        let ((x, c'), t₂, e₂, same) = set_up-IsSetUp v c t₁ in
        record {
          case = c';
          now = t₂;
          runs = λ test. simp (e₁, there, e₂);
          new_key = ap (λ (d : Case S). d.fixture) same;
          clean = ap (λ (d : Case S). d.failed) same;
          whole = rw same whole;
        }

module _ {S : Store} (T : IsTimed S table) (os : Os) (faults : Faults S)
    (setting : Setting T os faults)
    (makes : (t : Trace) (dir : Text) → os.create_directory t dir ≡ true) (scenario : Scenario)
    (f : Fixture S) (t : Trace) where
  start_of_run : Begun os setting.healthy makes scenario f t
  start_of_run = begun os setting.healthy makes scenario f t

  kept : (get_new_key f).1.failed ≡ f.failed
  unfolding get_new_key
  kept = refl

  -- A test that passes from where the run comes to it.
  run-RunPassed :
      (test : CaseTest S (Unit {0}))
      → Yields (Passed start_of_run.case) (test start_of_run.case start_of_run.now)
      → Yields (RunPassed f) (run_test os scenario test f t)
  run-RunPassed test (r, u, e, (passed, unfailed, whole)) = (
    r,
    u,
    start_of_run.runs test ∙ e,
    (
      passed ∙ ap (λ (g : Fixture S). g.failed) start_of_run.new_key ∙ kept,
      unfailed ∙ start_of_run.clean,
      whole,
    ),
  )

  -- Where no call of the operating system fails, directories can be made and the store survives
  -- failures, a run of a scenario, from no processes at all through `SetUpTestCase` and `SetUp`
  -- to any of the eight tests with at most one failure, comes to the end of that test, if the
  -- next new key has no record: no expectation fails, neither on the store nor on the instances,
  -- and all instances are serving at the end.
  pub run_test-passes :
      T.view (get_new_key f).1.store (get_new_key f).1.key ≡ none
      → All
          (λ test. Yields (RunPassed f) (run_test os scenario test f t))
          (one_failure_tests os faults scenario)
  run_test-passes fresh =
      All-mono (λ test. Yields (Passed start_of_run.case) (test start_of_run.case start_of_run.now))
        (λ test. Yields (RunPassed f) (run_test os scenario test f t))
        (one_failure_tests os faults scenario) run-RunPassed
        (one_failure_tests-pass T os faults setting scenario start_of_run.case start_of_run.now
          (rw start_of_run.new_key fresh) start_of_run.whole)

  -- Where no call of the operating system fails, directories can be made and the store survives
  -- failures, a run of a scenario, from no processes at all through `SetUpTestCase` and `SetUp`
  -- to AddKillSetSetDataContentionSet, comes to the end of that test, if the counter of keys does
  -- not wrap around and none of the ten keys after the next one has a record: no expectation
  -- fails, and all instances are serving at the end.
  pub contention_run-passes :
      (get_new_key f).1.next_key + 10 ≤ 2 ^ 32
      → All (λ k. T.view (get_new_key f).1.store k ≡ none) (new_keys 10 (get_new_key f).1)
      → Yields
          (RunPassed f)
          (run_test os scenario (add_kill_set_set_data_contention_set os faults scenario) f t)
  contention_run-passes below absent =
      run-RunPassed (add_kill_set_set_data_contention_set os faults scenario) (
        add_kill_set_set_data_contention_set-passes T os faults setting scenario start_of_run.case
          start_of_run.now (rw start_of_run.new_key below) (rw start_of_run.new_key absent)
          start_of_run.whole)
