-- ===== src/Memcached/Servers/Restored.antt =====
-- After a failure and its repair, all instances are running again.
use clearwater_fv_test.Base.{◌≡◌, refl, subst}
use clearwater_fv_test.System.{Os, Trace, ok, Ensures, >>=-Ensures}
use clearwater_fv_test.Process.Success.{start-UpIf, restart-UpIf}
use clearwater_fv_test.Process.{start_instance, kill_instance, restart_instance}
use clearwater_fv_test.Site.{Site}
use clearwater_fv_test.Memcached.Scenario.{
  Scenario, no_failures, memcached_fails, memcached_restarts, rogers_fails, rogers_restarts,
  lone_rogers_restarts, large_cluster_memcached_fails, large_cluster_memcached_restarts, on_last,
  expect_memcached, expect_rogers, trigger_failure, fix_failure,
}
use clearwater_fv_test.Memcached.Servers.Up.{
  RestUp, All-RestUp, SiteUp, Broken, Met, last-RestUp, memcached_works, rogers_works,
  memcached_waits, rogers_waits, both-Met,
}

module _ (os : Os) where
  -- A killed instance is the last one.
  memcached_killed :
      (s : Site) (t : Trace)
      → SiteUp s
      → Ensures (Met (Broken memcached_fails)) (expect_memcached (kill_instance os) s t)
  unfolding expect_memcached
  memcached_killed s t (ms, rs, cs) =
      >>=-Ensures (λ (b, js) u. RestUp js) (Met (Broken memcached_fails))
        (on_last (kill_instance os) s.memcached_instances t) _
        (last-RestUp os (kill_instance os) s.memcached_instances t
          (All-RestUp s.memcached_instances ms))
        (λ (b, js) u rest e. (rest, rs, cs))

  rogers_killed :
      (s : Site) (t : Trace)
      → SiteUp s
      → Ensures (Met (Broken rogers_fails)) (expect_rogers (kill_instance os) s t)
  unfolding expect_rogers
  rogers_killed s t (ms, rs, cs) =
      >>=-Ensures (λ (b, js) u. RestUp js) (Met (Broken rogers_fails))
        (on_last (kill_instance os) s.rogers_instances t) _
        (last-RestUp os (kill_instance os) s.rogers_instances t (All-RestUp s.rogers_instances rs))
        (λ (b, js) u rest e. (ms, rest, cs))

  trigger-Broken :
      (c : Scenario) (s : Site) (t : Trace)
      → SiteUp s
      → Ensures (Met (Broken c)) (trigger_failure os c s t)
  unfolding trigger_failure
  trigger-Broken no_failures s t up = λ e. up
  trigger-Broken memcached_fails s t up = memcached_killed s t up
  trigger-Broken large_cluster_memcached_fails s t up = memcached_killed s t up
  trigger-Broken rogers_fails s t up = rogers_killed s t up
  trigger-Broken memcached_restarts s t (ms, rs, cs) =
      both-Met os SiteUp (expect_memcached (restart_instance os)) _ s t
        (memcached_works os (restart_instance os) (restart-UpIf os) s t
          (All-RestUp s.memcached_instances ms, rs, cs))
        (memcached_waits os)
  trigger-Broken large_cluster_memcached_restarts s t (ms, rs, cs) =
      both-Met os SiteUp (expect_memcached (restart_instance os)) _ s t
        (memcached_works os (restart_instance os) (restart-UpIf os) s t
          (All-RestUp s.memcached_instances ms, rs, cs))
        (memcached_waits os)
  trigger-Broken rogers_restarts s t (ms, rs, cs) =
      both-Met os SiteUp (expect_rogers (restart_instance os)) _ s t
        (rogers_works os (restart_instance os) (restart-UpIf os) s t
          (ms, All-RestUp s.rogers_instances rs, cs))
        (rogers_waits os)
  trigger-Broken lone_rogers_restarts s t (ms, rs, cs) =
      both-Met os SiteUp (expect_rogers (restart_instance os)) _ s t
        (rogers_works os (restart_instance os) (restart-UpIf os) s t
          (ms, All-RestUp s.rogers_instances rs, cs))
        (rogers_waits os)

  fix-SiteUp :
      (c : Scenario) (s : Site) (t : Trace)
      → Broken c s
      → Ensures (Met SiteUp) (fix_failure os c s t)
  unfolding fix_failure
  fix-SiteUp memcached_fails s t h =
      both-Met os SiteUp (expect_memcached (start_instance os)) _ s t
        (memcached_works os (start_instance os) (start-UpIf os) s t h) (memcached_waits os)
  fix-SiteUp large_cluster_memcached_fails s t h =
      both-Met os SiteUp (expect_memcached (start_instance os)) _ s t
        (memcached_works os (start_instance os) (start-UpIf os) s t h) (memcached_waits os)
  fix-SiteUp rogers_fails s t h =
      both-Met os SiteUp (expect_rogers (start_instance os)) _ s t
        (rogers_works os (start_instance os) (start-UpIf os) s t h) (rogers_waits os)
  fix-SiteUp no_failures s t h = λ e. h
  fix-SiteUp memcached_restarts s t h = λ e. h
  fix-SiteUp large_cluster_memcached_restarts s t h = λ e. h
  fix-SiteUp rogers_restarts s t h = λ e. h
  fix-SiteUp lone_rogers_restarts s t h = λ e. h

  -- In every scenario: where all instances of the site run, and no expectation fails, neither on
  -- the failure nor on its repair, all instances run again after the repair.
  pub repaired-SiteUp :
      (c : Scenario) (s : Site) (t : Trace)
      → SiteUp s
      → {s₁ : Site} {t₁ : Trace} → trigger_failure os c s t ≡ (ok (0, s₁), t₁)
      → {s₂ : Site} {t₂ : Trace} → fix_failure os c s₁ t₁ ≡ (ok (0, s₂), t₂)
      → SiteUp s₂
  repaired-SiteUp c s t up {s₁} {t₁} triggered {s₂} {t₂} fixed =
      let broken : Broken c s₁ =
        subst (Ensures (Met (Broken c))) triggered (trigger-Broken c s t up) refl in
      subst (Ensures (Met SiteUp)) fixed (fix-SiteUp c s₁ t₁ broken) refl
