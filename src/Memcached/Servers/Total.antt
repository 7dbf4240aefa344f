-- ===== src/Memcached/Servers/Total.antt =====
-- Failures and repairs where no call of the operating system fails: they return, their
-- expectations hold, and the instances are back.
use clearwater_fv_test.Base.{ℕ, ◌≡◌, refl, List, [], ◌∷◌, Bool, true}
use clearwater_fv_test.System.{Os, Trace, M, Yields, >>=-Yields}
use clearwater_fv_test.Process.{
  ProcessInstance, start_instance, kill_instance, restart_instance, wait_for_instance,
}
use clearwater_fv_test.Process.Healthy.{
  IsHealthy, IsServing, Succeeds, AnyInstance, start-Yields, kill-Yields, restart-Yields,
  wait-Yields,
}
use clearwater_fv_test.Site.{Site}
use clearwater_fv_test.Memcached.Scenario.{
  Scenario, no_failures, memcached_fails, memcached_restarts, rogers_fails, rogers_restarts,
  lone_rogers_restarts, large_cluster_memcached_fails, large_cluster_memcached_restarts, on_last,
  expect_memcached, expect_rogers, both, waits, trigger_failure, fix_failure,
}

-- There is an instance, the last one has a property, and all before it are serving.
abbrev pub ServeBut : (ProcessInstance → Type 0) → List ProcessInstance → Type 0
ServeBut P [] = ⊥
ServeBut P (i ∷ []) = P i
ServeBut P (i ∷ k ∷ ks) = IsServing i × ServeBut P (k ∷ ks)

-- The site has an instance of Memcached and one of Rogers, and all of them are serving.
abbrev pub IsWhole : Site → Type 0
IsWhole s = ServeBut IsServing s.memcached_instances × ServeBut IsServing s.rogers_instances

-- What a failure leaves.
abbrev pub IsHurt : Scenario → Site → Type 0
IsHurt memcached_fails s =
    ServeBut AnyInstance s.memcached_instances × ServeBut IsServing s.rogers_instances
IsHurt large_cluster_memcached_fails s =
    ServeBut AnyInstance s.memcached_instances × ServeBut IsServing s.rogers_instances
IsHurt rogers_fails s =
    ServeBut IsServing s.memcached_instances × ServeBut AnyInstance s.rogers_instances
IsHurt _ s = IsWhole s

-- No expectation failed, and the site has a property.
abbrev pub Clean : (Site → Type 0) → ℕ × Site → Trace → Type 0
Clean P (n, s) u = (n ≡ 0) × P s

abbrev pub Works :
    (ProcessInstance → Type 0)
    → (ProcessInstance → Type 0)
    → (ProcessInstance → M (Bool × ProcessInstance))
    → Type 0
Works P Q method = (i : ProcessInstance) (t : Trace) → P i → Yields (Succeeds Q) (method i t)

abbrev AllSucceed : (ProcessInstance → Type 0) → Bool × List ProcessInstance → Trace → Type 0
AllSucceed Q (b, js) u = (b ≡ true) × ServeBut Q js

ServeBut-cons :
    (Q : ProcessInstance → Type 0) (i : ProcessInstance) (js : List ProcessInstance)
    → IsServing i
    → ServeBut Q js
    → ServeBut Q (i ∷ js)
ServeBut-cons Q i [] serving h = absurd h
ServeBut-cons Q i (k ∷ ks) serving h = (serving, h)

module _ (P Q : ProcessInstance → Type 0) (method : ProcessInstance → M (Bool × ProcessInstance))
    (works : Works P Q method) where
  on_last-Yields :
      (is : List ProcessInstance) (t : Trace)
      → ServeBut P is
      → Yields (AllSucceed Q) (on_last method is t)
  unfolding on_last
  on_last-Yields [] t h = absurd h
  on_last-Yields (i ∷ []) t h =
      >>=-Yields (Succeeds Q) (AllSucceed Q) (method i t) _ (works i t h)
        (λ (b, j) u good. (_, _, refl, good))
  on_last-Yields (i ∷ k ∷ ks) t h =
      >>=-Yields (AllSucceed Q) (AllSucceed Q) (on_last method (k ∷ ks) t) _
        (on_last-Yields (k ∷ ks) t h.1)
        (λ (b, js) u (good, serve). (_, _, refl, (good, ServeBut-cons Q i js h.0 serve)))

  memcached-Yields :
      (s : Site) (t : Trace)
      → ServeBut P s.memcached_instances × ServeBut IsServing s.rogers_instances
      → Yields
          (Clean (λ s'. ServeBut Q s'.memcached_instances × ServeBut IsServing s'.rogers_instances))
          (expect_memcached method s t)
  unfolding expect_memcached
  memcached-Yields s t (ms, rs) =
      >>=-Yields (AllSucceed Q)
        (Clean (λ s'. ServeBut Q s'.memcached_instances × ServeBut IsServing s'.rogers_instances))
        (on_last method s.memcached_instances t) _ (on_last-Yields s.memcached_instances t ms)
        (λ (b, js) u (good, serve). (_, _, refl, (rw good refl, (serve, rs))))

  rogers-Yields :
      (s : Site) (t : Trace)
      → ServeBut IsServing s.memcached_instances × ServeBut P s.rogers_instances
      → Yields
          (Clean (λ s'. ServeBut IsServing s'.memcached_instances × ServeBut Q s'.rogers_instances))
          (expect_rogers method s t)
  unfolding expect_rogers
  rogers-Yields s t (ms, rs) =
      >>=-Yields (AllSucceed Q)
        (Clean (λ s'. ServeBut IsServing s'.memcached_instances × ServeBut Q s'.rogers_instances))
        (on_last method s.rogers_instances t) _ (on_last-Yields s.rogers_instances t rs)
        (λ (b, js) u (good, serve). (_, _, refl, (rw good refl, (ms, serve))))

both-Yields :
    (P Q : Site → Type 0) (first second : Site → M (ℕ × Site)) (s : Site) (t : Trace)
    → Yields (Clean P) (first s t)
    → ((s' : Site) (u : Trace) → P s' → Yields (Clean Q) (second s' u))
    → Yields (Clean Q) (both first second s t)
unfolding both
both-Yields P Q first second s t h next =
    >>=-Yields (Clean P) (Clean Q) (first s t) _ h (λ (m, s₁) u (none_failed, p).
      >>=-Yields (Clean Q) (Clean Q) (second s₁ u) _ (next s₁ u p)
        (λ (n, s₂) v (none_failed', q). (_, _, refl, (rw (none_failed, none_failed') refl, q))))

module _ (os : Os) (healthy : IsHealthy os) where
  waits-Yields : Works IsServing IsServing (waits os)
  unfolding waits
  waits-Yields i t serving =
      >>=-Yields (λ b u. b ≡ true) (Succeeds IsServing) (wait_for_instance os i t) _
        (wait-Yields os healthy i t) (λ b u up. (_, _, refl, (up, serving)))

  restart_memcached :
      (s : Site) (t : Trace)
      → IsWhole s
      → Yields
          (Clean IsWhole)
          (both (expect_memcached (restart_instance os)) (expect_memcached (waits os)) s t)
  restart_memcached s t whole =
      both-Yields IsWhole IsWhole _ _ s t
        (memcached-Yields IsServing IsServing (restart_instance os) (restart-Yields os healthy) s t
          whole)
        (memcached-Yields IsServing IsServing (waits os) waits-Yields)

  restart_rogers :
      (s : Site) (t : Trace)
      → IsWhole s
      → Yields
          (Clean IsWhole)
          (both (expect_rogers (restart_instance os)) (expect_rogers (waits os)) s t)
  restart_rogers s t whole =
      both-Yields IsWhole IsWhole _ _ s t
        (rogers-Yields IsServing IsServing (restart_instance os) (restart-Yields os healthy) s t
          whole)
        (rogers-Yields IsServing IsServing (waits os) waits-Yields)

  start_memcached :
      (s : Site) (t : Trace)
      → IsHurt memcached_fails s
      → Yields
          (Clean IsWhole)
          (both (expect_memcached (start_instance os)) (expect_memcached (waits os)) s t)
  start_memcached s t hurt =
      both-Yields IsWhole IsWhole _ _ s t
        (memcached-Yields AnyInstance IsServing (start_instance os)
          (λ i u h. start-Yields os healthy i u) s t hurt)
        (memcached-Yields IsServing IsServing (waits os) waits-Yields)

  start_rogers :
      (s : Site) (t : Trace)
      → IsHurt rogers_fails s
      → Yields
          (Clean IsWhole)
          (both (expect_rogers (start_instance os)) (expect_rogers (waits os)) s t)
  start_rogers s t hurt =
      both-Yields IsWhole IsWhole _ _ s t
        (rogers-Yields AnyInstance IsServing (start_instance os)
          (λ i u h. start-Yields os healthy i u) s t hurt)
        (rogers-Yields IsServing IsServing (waits os) waits-Yields)

  pub trigger-Yields :
      (c : Scenario) (s : Site) (t : Trace)
      → IsWhole s
      → Yields (Clean (IsHurt c)) (trigger_failure os c s t)
  unfolding trigger_failure
  trigger-Yields no_failures s t whole = (_, _, refl, (refl, whole))
  trigger-Yields memcached_fails s t whole =
      memcached-Yields IsServing AnyInstance (kill_instance os) (kill-Yields os healthy) s t whole
  trigger-Yields large_cluster_memcached_fails s t whole =
      memcached-Yields IsServing AnyInstance (kill_instance os) (kill-Yields os healthy) s t whole
  trigger-Yields rogers_fails s t whole =
      rogers-Yields IsServing AnyInstance (kill_instance os) (kill-Yields os healthy) s t whole
  trigger-Yields memcached_restarts s t whole = restart_memcached s t whole
  trigger-Yields large_cluster_memcached_restarts s t whole = restart_memcached s t whole
  trigger-Yields rogers_restarts s t whole = restart_rogers s t whole
  trigger-Yields lone_rogers_restarts s t whole = restart_rogers s t whole

  pub fix-Yields :
      (c : Scenario) (s : Site) (t : Trace)
      → IsHurt c s
      → Yields (Clean IsWhole) (fix_failure os c s t)
  unfolding fix_failure
  fix-Yields memcached_fails s t hurt = start_memcached s t hurt
  fix-Yields large_cluster_memcached_fails s t hurt = start_memcached s t hurt
  fix-Yields rogers_fails s t hurt = start_rogers s t hurt
  fix-Yields no_failures s t hurt = (_, _, refl, (refl, hurt))
  fix-Yields memcached_restarts s t hurt = (_, _, refl, (refl, hurt))
  fix-Yields large_cluster_memcached_restarts s t hurt = (_, _, refl, (refl, hurt))
  fix-Yields rogers_restarts s t hurt = (_, _, refl, (refl, hurt))
  fix-Yields lone_rogers_restarts s t hurt = (_, _, refl, (refl, hurt))
