-- ===== src/Memcached/Servers/Failure.antt =====
-- The failures and repairs of every scenario, in terms of the children that are left.
use clearwater_fv_test.Base.{ℕ, [], ◌∷◌, Bool}
use clearwater_fv_test.Text.Integer.{ℤ}
use clearwater_fv_test.System.{Os, Trace, M, ForkReturns}
use clearwater_fv_test.Process.Balance.{
  Balanced, SignalsLive, After, >>=-After, Kept, kill-Kept, start-Kept, restart-Kept, wait-Kept,
}
use clearwater_fv_test.Process.{
  ProcessInstance, start_instance, kill_instance, restart_instance, wait_for_instance,
}
use clearwater_fv_test.Site.Reached.{IsDown, SiteOwns}
use clearwater_fv_test.Site.{Site}
use clearwater_fv_test.Memcached.Scenario.{
  Scenario, no_failures, memcached_fails, memcached_restarts, rogers_fails, rogers_restarts,
  lone_rogers_restarts, large_cluster_memcached_fails, large_cluster_memcached_restarts,
  expect_memcached, expect_rogers, both, waits, trigger_failure, fix_failure,
}
use clearwater_fv_test.Memcached.Servers.Last.{
  Last, KeepsOne, any-Last, Left, expect_memcached-Left, expect_rogers-Left, both-Left,
}

module _ (os : Os) where
  kill-KeepsOne : KeepsOne os (λ i. Unit {0}) (kill_instance os)
  kill-KeepsOne others i t allowed ready sound balance = kill-Kept os others i t sound balance

  restart-KeepsOne : ForkReturns os → KeepsOne os (λ i. Unit {0}) (restart_instance os)
  restart-KeepsOne law others i t allowed ready sound balance =
      restart-Kept os others law i t sound balance

  start-KeepsOne : ForkReturns os → KeepsOne os IsDown (start_instance os)
  start-KeepsOne law others i t down ready sound balance =
      start-Kept os others i law t down sound balance

  waits-KeepsOne : KeepsOne os (λ i. Unit {0}) (waits os)
  unfolding waits
  waits-KeepsOne others i t allowed ready sound balance =
      >>=-After os (λ b u. Balanced os others (i ∷ []) u) (Kept os others)
        (wait_for_instance os i t) _ (wait-Kept os others (i ∷ []) i t sound balance)
        (λ b u sound' balance'. (sound', (balance', ready)))

  -- What a repair relies on: the instance that it starts is not running.
  abbrev pub IsRepairable : Scenario → Site → Type 0
  IsRepairable memcached_fails s = Last os IsDown s.memcached_instances
  IsRepairable large_cluster_memcached_fails s = Last os IsDown s.memcached_instances
  IsRepairable rogers_fails s = Last os IsDown s.rogers_instances
  IsRepairable _ s = Unit

  module _ (law : ForkReturns os) (others : ℤ → ℕ) where
    method_then_wait_memcached :
        {Allowed : ProcessInstance → Type 0} (method : ProcessInstance → M (Bool × ProcessInstance))
        → KeepsOne os Allowed method
        → (s : Site) (t : Trace) → Last os Allowed s.memcached_instances
        → SignalsLive os t
        → SiteOwns os others s t
        → After os
            (Left os others)
            (both (expect_memcached method) (expect_memcached (waits os)) s t)
    method_then_wait_memcached method keeps s t allowed sound owns =
        both-Left os others _ _ s t
          (expect_memcached-Left os method keeps others s t allowed sound owns)
          (λ s' u sound' owns'.
            expect_memcached-Left os (waits os) waits-KeepsOne others s' u
              (any-Last os s'.memcached_instances) sound' owns')

    method_then_wait_rogers :
        {Allowed : ProcessInstance → Type 0} (method : ProcessInstance → M (Bool × ProcessInstance))
        → KeepsOne os Allowed method
        → (s : Site) (t : Trace) → Last os Allowed s.rogers_instances
        → SignalsLive os t
        → SiteOwns os others s t
        → After os (Left os others) (both (expect_rogers method) (expect_rogers (waits os)) s t)
    method_then_wait_rogers method keeps s t allowed sound owns =
        both-Left os others _ _ s t
          (expect_rogers-Left os method keeps others s t allowed sound owns)
          (λ s' u sound' owns'.
            expect_rogers-Left os (waits os) waits-KeepsOne others s' u
              (any-Last os s'.rogers_instances) sound' owns')

    pub trigger-Left :
        (c : Scenario) (s : Site) (t : Trace)
        → SignalsLive os t
        → SiteOwns os others s t
        → After os (Left os others) (trigger_failure os c s t)
    unfolding trigger_failure
    trigger-Left no_failures s t sound owns = (sound, owns)
    trigger-Left memcached_fails s t sound owns =
        expect_memcached-Left os (kill_instance os) kill-KeepsOne others s t
          (any-Last os s.memcached_instances) sound owns
    trigger-Left large_cluster_memcached_fails s t sound owns =
        expect_memcached-Left os (kill_instance os) kill-KeepsOne others s t
          (any-Last os s.memcached_instances) sound owns
    trigger-Left memcached_restarts s t sound owns =
        method_then_wait_memcached (restart_instance os) (restart-KeepsOne law) s t
          (any-Last os s.memcached_instances) sound owns
    trigger-Left large_cluster_memcached_restarts s t sound owns =
        method_then_wait_memcached (restart_instance os) (restart-KeepsOne law) s t
          (any-Last os s.memcached_instances) sound owns
    trigger-Left rogers_fails s t sound owns =
        expect_rogers-Left os (kill_instance os) kill-KeepsOne others s t
          (any-Last os s.rogers_instances) sound owns
    trigger-Left rogers_restarts s t sound owns =
        method_then_wait_rogers (restart_instance os) (restart-KeepsOne law) s t
          (any-Last os s.rogers_instances) sound owns
    trigger-Left lone_rogers_restarts s t sound owns =
        method_then_wait_rogers (restart_instance os) (restart-KeepsOne law) s t
          (any-Last os s.rogers_instances) sound owns

    pub fix-Left :
        (c : Scenario) (s : Site) (t : Trace)
        → IsRepairable c s
        → SignalsLive os t
        → SiteOwns os others s t
        → After os (Left os others) (fix_failure os c s t)
    unfolding fix_failure
    fix-Left memcached_fails s t down sound owns =
        method_then_wait_memcached (start_instance os) (start-KeepsOne law) s t down sound owns
    fix-Left large_cluster_memcached_fails s t down sound owns =
        method_then_wait_memcached (start_instance os) (start-KeepsOne law) s t down sound owns
    fix-Left rogers_fails s t down sound owns =
        method_then_wait_rogers (start_instance os) (start-KeepsOne law) s t down sound owns
    fix-Left no_failures s t down sound owns = (sound, owns)
    fix-Left memcached_restarts s t down sound owns = (sound, owns)
    fix-Left large_cluster_memcached_restarts s t down sound owns = (sound, owns)
    fix-Left rogers_restarts s t down sound owns = (sound, owns)
    fix-Left lone_rogers_restarts s t down sound owns = (sound, owns)
