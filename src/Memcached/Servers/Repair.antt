-- ===== src/Memcached/Servers/Repair.antt =====
-- A failure whose expectations held leaves an instance that a repair may start.
use clearwater_fv_test.Base.{
  ℕ, ◌≡◌, refl, ap, ◌∙◌, not, List, [], ◌∷◌, arith, true, false, Bool, if◌then◌else◌,
}
use clearwater_fv_test.System.{always, Ensures-mono, Ensures, >>=-Ensures, Os, Trace}
use clearwater_fv_test.Process.{ProcessInstance, kill_instance}
use clearwater_fv_test.Site.Reached.{IsDown}
use clearwater_fv_test.Site.{Site}
use clearwater_fv_test.Memcached.Scenario.{
  kill-Ensures, Scenario, no_failures, memcached_fails, memcached_restarts, rogers_fails,
  rogers_restarts, lone_rogers_restarts, large_cluster_memcached_fails,
  large_cluster_memcached_restarts, on_last, expect_memcached, expect_rogers, trigger_failure,
}
use clearwater_fv_test.Memcached.Servers.Last.{Last}
use clearwater_fv_test.Memcached.Servers.Failure.{IsRepairable}

module _ (os : Os) where
  -- The last instance is not running, if the kill succeeded.
  DownLast : Bool → List ProcessInstance → Type 0
  DownLast b [] = ⊥
  DownLast b (i ∷ []) = b ≡ true → IsDown i
  DownLast b (i ∷ k ∷ ks) = DownLast b (k ∷ ks)

  DownLast-Last : (js : List ProcessInstance) → DownLast true js → Last os IsDown js
  unfolding DownLast
  DownLast-Last [] h = tt
  DownLast-Last (i ∷ []) h = h refl
  DownLast-Last (i ∷ k ∷ ks) h = DownLast-Last (k ∷ ks) h

  DownLast-cons :
      (b : Bool) (i : ProcessInstance) (js : List ProcessInstance)
      → DownLast b js
      → DownLast b (i ∷ js)
  unfolding DownLast
  DownLast-cons b i [] h = absurd h
  DownLast-cons b i (k ∷ ks) h = h

  on_last-DownLast :
      (is : List ProcessInstance) (t : Trace)
      → Ensures (λ (b, js) u. DownLast b js) (on_last (kill_instance os) is t)
  unfolding on_last DownLast
  on_last-DownLast [] t = tt
  on_last-DownLast (i ∷ []) t =
      >>=-Ensures (λ (b, j) u. b ≡ true → IsDown j) (λ (b, js) u. DownLast b js)
        (kill_instance os i t) _
        (Ensures-mono (λ (b, j) u. j ≡ record i { running = not b })
          (λ (b, j) u. b ≡ true → IsDown j) (kill_instance os i t) (kill-Ensures os i t)
          (λ (b, j) u e succeeded. ap (λ (k : ProcessInstance). k.running) e ∙ ap not succeeded))
        (λ (b, j) u down. down)
  on_last-DownLast (i ∷ k ∷ ks) t =
      >>=-Ensures (λ (b, js) u. DownLast b js) (λ (b, js) u. DownLast b js)
        (on_last (kill_instance os) (k ∷ ks) t) _ (on_last-DownLast (k ∷ ks) t)
        (λ (b, js) u h. DownLast-cons b i js h)

  met :
      (b : Bool) (js : List ProcessInstance)
      → DownLast b js
      → ◌≡◌ {A = ℕ} (if b then 0 else 1) 0
      → Last os IsDown js
  met true js h e = DownLast-Last js h
  met false js h e = absurd (omega (arith, e))

  memcached-IsDown :
      (s : Site) (t : Trace)
      → Ensures
          (λ (n, s') u. n ≡ 0 → Last os IsDown s'.memcached_instances)
          (expect_memcached (kill_instance os) s t)
  unfolding expect_memcached DownLast
  memcached-IsDown s t =
      >>=-Ensures (λ (b, js) u. DownLast b js)
        (λ (n, s') u. n ≡ 0 → Last os IsDown s'.memcached_instances)
        (on_last (kill_instance os) s.memcached_instances t) _
        (on_last-DownLast s.memcached_instances t) (λ (b, js) u h. met b js h)

  rogers-IsDown :
      (s : Site) (t : Trace)
      → Ensures
          (λ (n, s') u. n ≡ 0 → Last os IsDown s'.rogers_instances)
          (expect_rogers (kill_instance os) s t)
  unfolding expect_rogers
  rogers-IsDown s t =
      >>=-Ensures (λ (b, js) u. DownLast b js)
        (λ (n, s') u. n ≡ 0 → Last os IsDown s'.rogers_instances)
        (on_last (kill_instance os) s.rogers_instances t) _ (on_last-DownLast s.rogers_instances t)
        (λ (b, js) u h. met b js h)

  -- A failure whose expectations hold can be repaired.
  pub trigger-IsRepairable :
      (c : Scenario) (s : Site) (t : Trace)
      → Ensures (λ (n, s') u. n ≡ 0 → IsRepairable os c s') (trigger_failure os c s t)
  unfolding trigger_failure
  trigger-IsRepairable no_failures s t =
      always (λ (n, s') u. n ≡ 0 → Unit) (trigger_failure os no_failures s t) (λ a u e. tt)
  trigger-IsRepairable memcached_fails s t = memcached-IsDown s t
  trigger-IsRepairable large_cluster_memcached_fails s t = memcached-IsDown s t
  trigger-IsRepairable rogers_fails s t = rogers-IsDown s t
  trigger-IsRepairable memcached_restarts s t =
      always (λ (n, s') u. n ≡ 0 → Unit) (trigger_failure os memcached_restarts s t) (λ a u e. tt)
  trigger-IsRepairable large_cluster_memcached_restarts s t =
      always (λ (n, s') u. n ≡ 0 → Unit) (trigger_failure os large_cluster_memcached_restarts s t)
        (λ a u e. tt)
  trigger-IsRepairable rogers_restarts s t =
      always (λ (n, s') u. n ≡ 0 → Unit) (trigger_failure os rogers_restarts s t) (λ a u e. tt)
  trigger-IsRepairable lone_rogers_restarts s t =
      always (λ (n, s') u. n ≡ 0 → Unit) (trigger_failure os lone_rogers_restarts s t) (λ a u e. tt)
