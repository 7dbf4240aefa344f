-- ===== src/Memcached/Servers/Whole.antt =====
-- `SetUpTestCase` where no call fails: the databases that it leaves are whole, and whoever waits for
-- them finds them.
use clearwater_fv_test.Base.{
  ℕ, zero, suc, ◌+◌, ◌≡◌, refl, ap, ◌∙◌, true, List, [], ◌∷◌, some, All, length, numbered, arith,
}
use clearwater_fv_test.Text.{Text, codes}
use clearwater_fv_test.Text.Integer.{pos}
use clearwater_fv_test.System.{Os, Trace, Yields, created_directory}
use clearwater_fv_test.Process.Config.{cfgfile_name}
use clearwater_fv_test.Process.Dnsmasq.{new_dnsmasq-contents}
use clearwater_fv_test.Process.{ProcessInstance, new_instance, dnsmasq, start_instance}
use clearwater_fv_test.Process.Healthy.{IsHealthy, IsServing, start-Yields}
use clearwater_fv_test.Site.Returns.{new_site-returns}
use clearwater_fv_test.Site.Build.{built, memcached_at, rogers_at}
use clearwater_fv_test.Site.Lifecycle.{for_each, for_each_instance, dropping, start, get_rogers_ips}
use clearwater_fv_test.Site.{Site, find, new_topology}
use clearwater_fv_test.Shared.Waits.{wait_for_instances-true, wait_for_dnsmasq-true}
use clearwater_fv_test.Shared.{release_site, release_dnsmasq}
use clearwater_fv_test.Memcached.Scenario.{Scenario, num_memcached_instances, num_rogers_instances}
use clearwater_fv_test.Memcached.Servers.{
  Servers, no_servers, database_topology, create_and_start_databases, create_and_start_dns,
  set_up_databases, set_up_scenario, wait_for_servers,
}
use clearwater_fv_test.Memcached.Servers.Serves.{database_site}
use clearwater_fv_test.Memcached.Servers.Total.{ServeBut, IsWhole}

-- All are serving, and there are as many as before.
abbrev Serve : List ProcessInstance → Unit {0} × List ProcessInstance → Trace → Type 0
Serve is (c, js) u = All IsServing js × (length js ≡ length is)

All-ServeBut :
    (js : List ProcessInstance) (n : ℕ)
    → length js ≡ suc n
    → All IsServing js
    → ServeBut IsServing js
All-ServeBut [] n e h = absurd (omega (arith, e))
All-ServeBut (i ∷ []) n e h = h.0
All-ServeBut (i ∷ k ∷ ks) n e h = (h.0, All-ServeBut (k ∷ ks) (length ks) refl h.1)

module _ {A : Type 0} where
  length-numbered : (f : ℕ → A) (i n : ℕ) → length (numbered f i n) ≡ n
  length-numbered f i zero = refl
  length-numbered f i (suc n) = ap suc (length-numbered f (i + 1) n)

module _ (os : Os) (healthy : IsHealthy os) where
  for_each-Serve :
      (is : List ProcessInstance) (t : Trace)
      → Yields (Serve is) (for_each (dropping (start_instance os)) tt is t)
  unfolding for_each
  for_each-Serve [] t = (_, _, refl, (tt, refl))
  for_each-Serve (i ∷ is) t =
      let ((b, j), u, e, (good, serving)) = start-Yields os healthy i t in
      let ((c, js), v, f, (rest, long)) = for_each-Serve is u in
      ((c, j ∷ js), v, simp (e, f), ((serving, rest), ap suc long))

  -- A site that was made with instances of both kinds is whole once it is started.
  pub start-IsWhole :
      (s : Site) (m r : ℕ) (t : Trace)
      → length s.memcached_instances ≡ suc m
      → length s.rogers_instances ≡ suc r
      → Yields (λ s' u. IsWhole s') (start os s t)
  unfolding start for_each_instance
  start-IsWhole s m r t some_m some_r =
      let ((c₁, ms), t₁, e₁, (ms_up, long₁)) = for_each-Serve s.memcached_instances t in
      let ((c₂, rs), t₂, e₂, (rs_up, long₂)) = for_each-Serve s.rogers_instances t₁ in
      let ((c₃, cs), t₃, e₃, h₃) = for_each-Serve s.chronos_instances t₂ in
      (
        record s { memcached_instances = ms; rogers_instances = rs; chronos_instances = cs },
        t₃,
        simp (e₁, e₂, e₃),
        (All-ServeBut ms m (long₁ ∙ some_m) ms_up, All-ServeBut rs r (long₂ ∙ some_r) rs_up),
      )

  -- The databases are there and whole.
  abbrev pub HasWhole : Servers → Trace → Type 0
  HasWhole v u = (s : Site) × (v.dbs ≡ some s) × IsWhole s

  pub wait_for_servers-true :
      (v : Servers) (s : Site) (t : Trace)
      → v.dbs ≡ some s
      → Yields (λ b u. b ≡ true) (wait_for_servers os v t)
  unfolding wait_for_servers
  wait_for_servers-true v s t there =
      let (b, u, e, up) = wait_for_instances-true os healthy s t in
      let (b', u', e', up') = wait_for_dnsmasq-true os healthy v.dnsmasq_instance u in
      (b', u', simp (there, e, up, e'), up')

  module _ (makes : (t : Trace) (dir : Text) → os.create_directory t dir ≡ true) where
    set_up_databases-HasWhole :
        (m r : ℕ) (t : Trace)
        → Yields HasWhole (set_up_databases os (pos (suc m)) (pos (suc r)) no_servers t)
    unfolding set_up_databases create_and_start_databases create_and_start_dns release_site
        release_dnsmasq database_topology new_topology find
    set_up_databases-HasWhole m r t =
        let dir : Trace = created_directory (codes "tmp") ∷ t in
        let (u₁, e₁) =
          new_site-returns os makes (pos 1) (codes "site1") (codes "tmp/site1") database_topology
            (pos (suc m)) (pos (suc r)) (pos 0) (new_topology (codes "127.0.1.")) dir refl in
        let made : Site = built database_site (pos (suc m)) (pos (suc r)) (pos 0) in
        let (s, u₂, e₂, whole) =
          start-IsWhole made m r u₁ (length-numbered (memcached_at database_site) 0 (suc m))
            (length-numbered (rogers_at database_site) 0 (suc r)) in
        let (u₃, e₃, text) =
          new_dnsmasq-contents (codes "127.0.0.1") (pos 5353)
            ((codes "rogers.local", get_rogers_ips s) ∷ []) u₂ in
        let i : ProcessInstance =
          new_instance (codes "127.0.0.1") (pos 5353)
            (dnsmasq (cfgfile_name (codes "127.0.0.1") (pos 5353))) in
        let ((b, j), u₄, e₄, good) = start-Yields os healthy i u₃ in
        (
          record no_servers { dnsmasq_instance = some j; dbs = some s },
          u₄,
          simp (makes, e₁, e₂, e₃, e₄),
          (s, refl, whole),
        )

    -- Each scenario has instances of both kinds.
    pub set_up_scenario-HasWhole :
        (c : Scenario) (t : Trace) → Yields HasWhole (set_up_scenario os c no_servers t)
    unfolding set_up_scenario num_memcached_instances num_rogers_instances
    set_up_scenario-HasWhole Scenario.no_failures t = set_up_databases-HasWhole 1 1 t
    set_up_scenario-HasWhole Scenario.memcached_fails t = set_up_databases-HasWhole 1 1 t
    set_up_scenario-HasWhole Scenario.memcached_restarts t = set_up_databases-HasWhole 1 1 t
    set_up_scenario-HasWhole Scenario.rogers_fails t = set_up_databases-HasWhole 1 1 t
    set_up_scenario-HasWhole Scenario.rogers_restarts t = set_up_databases-HasWhole 1 1 t
    set_up_scenario-HasWhole Scenario.lone_rogers_restarts t = set_up_databases-HasWhole 1 0 t
    set_up_scenario-HasWhole Scenario.large_cluster_memcached_fails t =
        set_up_databases-HasWhole 2 2 t
    set_up_scenario-HasWhole Scenario.large_cluster_memcached_restarts t =
        set_up_databases-HasWhole 2 2 t
