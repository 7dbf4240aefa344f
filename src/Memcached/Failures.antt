-- ===== src/Memcached/Failures.antt =====
-- The tests of `MemcachedSolutionFailureTest` and `LargerClustersMemcachedSolutionTest`,
-- src/test_memcachedsolution.cpp.
pub mod Steps
pub mod Passes
pub mod Aside
pub mod Parts
pub mod Rounds
pub mod Run
use clearwater_fv_test.Base.{ℕ, zero, suc, List, [], ◌∷◌, Bool, not, ◌||◌, text_eq}
use clearwater_fv_test.Text.{Text, codes}
use clearwater_fv_test.Text.Integer.{ℤ, pos}
use clearwater_fv_test.System.{Os, pure}
use clearwater_fv_test.Memcached.Store.{Status, stored, not_found, data_contention, error, Store}
use clearwater_fv_test.Memcached.Timed.{seconds}
use clearwater_fv_test.Memcached.Fixture.{
  expect, expect_status, status_eq, set_data, get_data, get_new_key, sleep, default_expiry,
}
use clearwater_fv_test.Memcached.Simple.{expect_set, expect_get, expect_no_get, expect_delete}
use clearwater_fv_test.Memcached.Scenario.{Scenario}
use clearwater_fv_test.Memcached.Case.{
  Case, CaseTest, Faults, ◌>>=◌, ◌>>◌, lift, trigger, fix, bounce_store,
}

module _ {S : Store} where
  -- `if (rc == DATA_CONTENTION)`: what the store holds is read again, is not yet what was to be
  -- written, and is then written over.
  unfoldable pub retry : Text → Text → ℕ → Status → CaseTest S (Text × ℕ)
  retry data_in old_data old_cas data_contention = do
    (rc, data_out, cas) ← lift (get_data old_data old_cas)
    lift (expect_status stored rc)
    lift (expect (not (text_eq data_out data_in)))
    lift (expect_set stored data_in cas default_expiry)
    λ c. pure ((data_out, cas), c)
  retry data_in data_out cas _ = λ c. pure ((data_out, cas), c)

  -- AddGet of the larger clusters.
  unfoldable pub large_add_get : CaseTest S (Unit {0})
  large_add_get = do
    let data_in = codes "LargerClustersMemcachedSolutionTest.AddGet"
    lift (expect_set stored data_in 0 default_expiry)
    lift (expect_get data_in [] 0)
    λ c. pure (tt, c)

  module _ (os : Os) (faults : Faults S) (scenario : Scenario) where
    unfoldable pub kill_add_get : CaseTest S (Unit {0})
    unfolding trigger fix
    kill_add_get = do
      trigger os faults scenario
      let data_in = codes "MemcachedSolutionFailureTest.KillAddGet"
      lift (expect_set stored data_in 0 default_expiry)
      lift (expect_get data_in [] 0)
      fix os faults scenario

    -- AddKillGet, of both classes of tests, which differ in the text that they write.
    unfoldable pub add_kill_get : Text → CaseTest S (Unit {0})
    unfolding trigger fix
    add_kill_get data_in = do
      lift (expect_set stored data_in 0 default_expiry)
      trigger os faults scenario
      lift (expect_get data_in [] 0)
      fix os faults scenario

    unfoldable pub add_kill_get_expire : CaseTest S (Unit {0})
    unfolding trigger fix
    add_kill_get_expire = do
      let data_in = codes "MemcachedSolutionFailureTest.AddKillGetExpire"
      lift (expect_set stored data_in 0 (pos 1))
      trigger os faults scenario
      lift (sleep (seconds 2))
      lift (expect_no_get [] 0)
      fix os faults scenario

    -- One round of the loop of AddKillSetSetDataContentionSet.
    unfoldable pub contention_round : CaseTest S (Unit {0})
    unfolding trigger fix retry get_new_key
    contention_round = do
      lift get_new_key
      let data_in = codes "MemcachedSolutionFailureTest.AddKillSetSetDataContentionSet"
      lift (expect_set stored data_in 0 default_expiry)
      (data_out, cas) ← lift (expect_get data_in [] 0)
      trigger os faults scenario
      let data_in1 = codes "MemcachedSolutionFailureTest.AddKillSetSetDataContentionSet_New1"
      rc ← lift (set_data data_in1 cas default_expiry)
      lift (expect (status_eq rc data_contention || status_eq rc stored))
      (data_out1, cas1) ← retry data_in1 data_out cas rc
      lift (expect_set data_contention (codes "FAIL") cas1 default_expiry)
      (data_out2, cas2) ← lift (expect_get data_in1 data_out1 cas1)
      let data_in2 = codes "MemcachedSolutionFailureTest.AddKillSetSetDataContentionSet_New2"
      lift (expect_set stored data_in2 cas2 default_expiry)
      lift (expect_get data_in2 data_out2 cas2)
      fix os faults scenario
      bounce_store faults

    unfoldable pub contention_rounds : ℕ → CaseTest S (Unit {0})
    unfolding contention_round
    contention_rounds zero = λ c. pure (tt, c)
    contention_rounds (suc n) = do contention_round; contention_rounds n

    unfoldable pub add_kill_set_set_data_contention_set : CaseTest S (Unit {0})
    unfolding contention_rounds
    add_kill_set_set_data_contention_set = contention_rounds 10

    unfoldable pub add_delete_kill : CaseTest S (Unit {0})
    unfolding trigger fix
    add_delete_kill = do
      let data_in = codes "MemcachedSolutionFailureTest.AddDeleteKill"
      lift (expect_set stored data_in 0 default_expiry)
      (data_out, cas) ← lift (expect_get data_in [] 0)
      lift expect_delete
      trigger os faults scenario
      lift (expect_no_get data_out cas)
      fix os faults scenario

    unfoldable pub add_kill_cas_delete : CaseTest S (Unit {0})
    unfolding trigger fix
    add_kill_cas_delete = do
      let data_in = codes "MemcachedSolutionFailureTest.AddKillCASDelete"
      lift (expect_set stored data_in 0 default_expiry)
      trigger os faults scenario
      (data_out, cas) ← lift (expect_get data_in [] 0)
      lift (expect_set stored (codes "DELETE") cas (pos 0))
      lift (sleep 5_000)
      lift (expect_no_get data_out cas)
      fix os faults scenario

    unfoldable pub add_kill_get_set : CaseTest S (Unit {0})
    unfolding trigger fix
    add_kill_get_set = do
      let data_in = codes "LargerClustersMemcachedSolutionTest.AddKillGetSet"
      lift (expect_set stored data_in 0 default_expiry)
      trigger os faults scenario
      (data_out, cas) ← lift (expect_get data_in [] 0)
      let data_in1 = codes "LargerClustersMemcachedSolutionTest.AddKillGetSet_New"
      lift (expect_set stored data_in1 cas default_expiry)
      lift (expect_get data_in1 data_out cas)
      fix os faults scenario

    -- The tests that trigger at most one failure.
    abbrev pub one_failure_tests : List (CaseTest S (Unit {0}))
    one_failure_tests =
        kill_add_get
        ∷ add_kill_get (codes "MemcachedSolutionFailureTest.AddKillGet")
        ∷ add_kill_get_expire
        ∷ add_delete_kill
        ∷ add_kill_cas_delete
        ∷ large_add_get
        ∷ add_kill_get (codes "LargerClustersMemcachedSolutionTest.AddKillGet")
        ∷ add_kill_get_set
        ∷ []
