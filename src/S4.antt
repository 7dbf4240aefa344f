-- ===== src/S4.antt =====
-- The fixtures of src/test_s4solution.cpp: two sites and a dnsmasq that the tests share.
pub mod Serves
pub mod Made
pub mod Life
pub mod Connects
pub mod Objects
use clearwater_fv_test.Base.{
  List, [], ◌∷◌, ◌++◌, Bool, true, false, Option, none, some, if◌then◌else◌,
}
use clearwater_fv_test.Shared.{deref, release_site, release_dnsmasq, wait_for_dnsmasq}
use clearwater_fv_test.Map.{emplace, assign}
use clearwater_fv_test.Text.{Text, codes}
use clearwater_fv_test.Text.Integer.{ℤ, pos}
use clearwater_fv_test.System.{Os, M, ◌>>=◌, ◌>>◌, pure, fault, create_directory, remove_all}
use clearwater_fv_test.Process.Config.{new_dnsmasq}
use clearwater_fv_test.Process.{ProcessInstance, start_instance, wait_for_instance, destroy}
use clearwater_fv_test.Site.Lifecycle.{
  new_site, start, kill, wait_for_instances, destroy_site, get_rogers_ips, get_chronos_ips,
}
use clearwater_fv_test.Site.{
  Topology, Deployment, Site, at, new_topology, with_chronos, with_rogers,
}

-- The static members. A null `shared_ptr` is `none`.
pub record Solution : Type 0 where
  pub dnsmasq_instance : Option ProcessInstance
  pub deployment_topology : Deployment
  pub site1 : Option Site
  pub site2 : Option Site

-- The static members before any test case.
abbrev pub initial : Solution
initial = record { dnsmasq_instance = none; deployment_topology = []; site1 = none; site2 = none }

unfoldable pub add_topologies : Deployment → Deployment
unfolding emplace new_topology with_chronos with_rogers
add_topologies d =
    emplace (codes "site2")
      (with_rogers (with_chronos (new_topology (codes "127.0.2.")) (codes "chronos.site2"))
        (codes "rogers.site2"))
      (emplace (codes "site1")
        (with_rogers (with_chronos (new_topology (codes "127.0.1.")) (codes "chronos.site1"))
          (codes "rogers.site1"))
        d)

module _ (os : Os) where
  -- `BaseS4SolutionTest::SetUpTestCase`.
  unfoldable pub set_up_base : Solution → M Solution
  unfolding add_topologies
  set_up_base f = do
    create_directory os (codes "tmp")
    pure (record f { deployment_topology = add_topologies f.deployment_topology })

  unfoldable pub create_and_start_sites : Solution → M Solution
  unfolding release_site
  create_and_start_sites f = do
    made₁ ←
        new_site os (pos 1) (codes "site1") (codes "tmp/site1") f.deployment_topology (pos 2)
          (pos 2) (pos 2)
    release_site os f.site1
    s₁ ← start os made₁
    made₂ ←
        new_site os (pos 2) (codes "site2") (codes "tmp/site2") f.deployment_topology (pos 2)
          (pos 2) (pos 2)
    release_site os f.site2
    s₂ ← start os made₂
    pure (record f { site1 = some s₁; site2 = some s₂ })

  unfoldable pub create_and_start_dns : Solution → List (Text × List Text) → M Solution
  unfolding release_dnsmasq
  create_and_start_dns f a_records = do
    made ← new_dnsmasq (codes "127.0.0.1") (pos 5353) a_records
    release_dnsmasq os f.dnsmasq_instance
    (started, i) ← start_instance os made
    pure (record f { dnsmasq_instance = some i })

  -- The addresses that `SimpleS4SolutionTest::SetUpTestCase` gives to dnsmasq.
  unfoldable pub a_records : Solution → M (List (Text × List Text))
  unfolding assign
  a_records f = do
    s₁ ← deref f.site1
    s₂ ← deref f.site2
    t₁ ← at f.deployment_topology (codes "site1")
    t₂ ← at f.deployment_topology (codes "site2")
    pure (
        assign t₂.chronos_domain (get_chronos_ips s₂) (
          assign t₂.rogers_domain (get_rogers_ips s₂) (
            assign t₁.chronos_domain (get_chronos_ips s₁)
              (assign t₁.rogers_domain (get_rogers_ips s₁) []))))

  -- `SimpleS4SolutionTest::SetUpTestCase`.
  unfoldable pub set_up_test_case : Solution → M Solution
  unfolding set_up_base create_and_start_sites a_records create_and_start_dns
  set_up_test_case f = do
    f₁ ← set_up_base f
    f₂ ← create_and_start_sites f₁
    records ← a_records f₂
    create_and_start_dns f₂ records

  unfoldable pub wait_for_second : Solution → M Bool
  unfolding wait_for_dnsmasq
  wait_for_second f = do
    s₂ ← deref f.site2
    up₂ ← wait_for_instances os s₂
    if up₂ then wait_for_dnsmasq os f.dnsmasq_instance else pure false

  -- `BaseS4SolutionTest::wait_for_instances`.
  unfoldable pub wait_for_solution : Solution → M Bool
  unfolding wait_for_second
  wait_for_solution f = do
    s₁ ← deref f.site1
    up₁ ← wait_for_instances os s₁
    if up₁ then wait_for_second f else pure false

  -- What the test TracerBullet does to the processes.
  unfoldable pub kill_site1 : Solution → M Solution
  kill_site1 f = do s₁ ← deref f.site1; killed ← kill os s₁; pure (record f { site1 = some killed })

  unfoldable pub tear_down_test_case : Solution → M Solution
  unfolding release_site release_dnsmasq
  tear_down_test_case f = do
    release_dnsmasq os f.dnsmasq_instance
    release_site os f.site1
    release_site os f.site2
    remove_all os (codes "tmp")
    pure (record f { dnsmasq_instance = none; site1 = none; site2 = none })
