-- ===== src/Memcached/Servers.antt =====
-- The static members of `BaseMemcachedSolutionTest`, src/test_memcachedsolution.cpp: the databases
-- and the dnsmasq that the tests of a test case share.
pub mod Last
pub mod Failure
pub mod Repair
pub mod Up
pub mod Restored
pub mod Life
pub mod Serves
pub mod Total
pub mod Whole
use clearwater_fv_test.Base.{List, [], ◌∷◌, Bool, true, false, Option, none, some, if◌then◌else◌}
use clearwater_fv_test.Text.{codes}
use clearwater_fv_test.Text.Integer.{ℤ, pos}
use clearwater_fv_test.System.{Os, M, ◌>>=◌, ◌>>◌, pure, create_directory, remove_all}
use clearwater_fv_test.Process.Config.{new_dnsmasq}
use clearwater_fv_test.Process.{ProcessInstance, start_instance}
use clearwater_fv_test.Site.Lifecycle.{new_site, start, wait_for_instances, get_rogers_ips}
use clearwater_fv_test.Site.{Deployment, Site, new_topology}
use clearwater_fv_test.Shared.{deref, release_site, release_dnsmasq, wait_for_dnsmasq}
use clearwater_fv_test.Memcached.Scenario.{Scenario, num_memcached_instances, num_rogers_instances}

pub record Servers : Type 0 where
  pub dnsmasq_instance : Option ProcessInstance
  pub dbs : Option Site

-- The static members before any test case.
abbrev pub no_servers : Servers
no_servers = record { dnsmasq_instance = none; dbs = none }

unfoldable pub database_topology : Deployment
unfolding new_topology
database_topology = (codes "site1", new_topology (codes "127.0.1.")) ∷ []

module _ (os : Os) where
  unfoldable pub create_and_start_databases : ℤ → ℤ → Servers → M Servers
  create_and_start_databases num_memcacheds num_rogers v = do
    made ←
        new_site os (pos 1) (codes "site1") (codes "tmp/site1") database_topology num_memcacheds
          num_rogers (pos 0)
    release_site os v.dbs
    s ← start os made
    pure (record v { dbs = some s })

  unfoldable pub create_and_start_dns : Servers → M Servers
  create_and_start_dns v = do
    s ← deref v.dbs
    made ←
        new_dnsmasq (codes "127.0.0.1") (pos 5353) ((codes "rogers.local", get_rogers_ips s) ∷ [])
    release_dnsmasq os v.dnsmasq_instance
    (started, i) ← start_instance os made
    pure (record v { dnsmasq_instance = some i })

  -- `SetUpTestCase` of the simple tests, with 2 and 2, and of the scenarios.
  unfoldable pub set_up_databases : ℤ → ℤ → Servers → M Servers
  unfolding create_and_start_databases create_and_start_dns
  set_up_databases num_memcacheds num_rogers v = do
    create_directory os (codes "tmp")
    v₁ ← create_and_start_databases num_memcacheds num_rogers v
    create_and_start_dns v₁

  unfoldable pub set_up_scenario : Scenario → Servers → M Servers
  unfolding set_up_databases
  set_up_scenario c v = set_up_databases (num_memcached_instances c) (num_rogers_instances c) v

  unfoldable pub wait_for_servers : Servers → M Bool
  wait_for_servers v = do
    s ← deref v.dbs
    up ← wait_for_instances os s
    if up then wait_for_dnsmasq os v.dnsmasq_instance else pure false

  unfoldable pub tear_down_databases : Servers → M Servers
  tear_down_databases v = do
    release_dnsmasq os v.dnsmasq_instance
    release_site os v.dbs
    remove_all os (codes "tmp")
    pure (record v { dnsmasq_instance = none; dbs = none })
