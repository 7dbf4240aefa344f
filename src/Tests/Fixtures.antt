-- ===== src/Tests/Fixtures.antt =====
-- The fixtures of the memcached and of the S4 tests in an environment where every call succeeds.
use clearwater_fv_test.Base.{ℕ, ◌≡◌, refl, [], none, some, map, Option}
use clearwater_fv_test.Text.{codes}
use clearwater_fv_test.Text.Integer.{ℤ, pos}
use clearwater_fv_test.System.{Trace, Outcome, ok, contents}
use clearwater_fv_test.Process.Balance.{living, SignalsLive}
use clearwater_fv_test.Process.Config.{cfgfile_name}
use clearwater_fv_test.Process.Resolver.{read_hosts}
use clearwater_fv_test.Process.Dnsmasq.{answers}
use clearwater_fv_test.Process.Spec.{StaysParent}
use clearwater_fv_test.Process.{start_instance, kill_instance, wait_for_instance, connect_loop}
use clearwater_fv_test.Process.Config.{new_dnsmasq}
use clearwater_fv_test.Site.Lifecycle.{
  new_site, start, for_each, for_each_instance, kill, get_rogers_ips, get_chronos_ips,
}
use clearwater_fv_test.Shared.{release_site, release_dnsmasq}
use clearwater_fv_test.Map.{emplace, assign, less}
use clearwater_fv_test.Site.{Site, at, find, new_topology, with_chronos, with_rogers}
use clearwater_fv_test.Site.Ips.{first_ips}
use clearwater_fv_test.S4.{
  add_topologies, a_records, Solution, initial, set_up_test_case, tear_down_test_case, kill_site1,
}
use clearwater_fv_test.S4.Serves.{served, set_up-serves}
use clearwater_fv_test.S4.Life.{SolutionReached, site1_killed, solution_leaves_nothing}
use clearwater_fv_test.Memcached.Scenario.{
  on_last, num_memcached_instances, num_rogers_instances, memcached_fails, trigger_failure,
  fix_failure,
}
use clearwater_fv_test.Memcached.Servers.{
  Servers, no_servers, database_topology, set_up_databases, set_up_scenario, tear_down_databases,
}
use clearwater_fv_test.Memcached.Servers.Serves.{database_site, set_up_databases-serves}
use clearwater_fv_test.Memcached.Servers.Up.{SiteUp}
use clearwater_fv_test.Memcached.Servers.Restored.{repaired-SiteUp}
use clearwater_fv_test.Memcached.Servers.Life.{
  here, with_databases, failed_and_fixed, databases_leave_nothing,
}
use clearwater_fv_test.Tests.Processes.{calm_law, calm_obeys}
use clearwater_fv_test.Tests.{calm_os}

calm_parent : StaysParent calm_os
calm_parent t e = cc

set_up-serves_example :
    (f : Solution) × (u : Trace) × (set_up_test_case calm_os initial [] ≡ (ok f, u))
    × (read_hosts (contents (cfgfile_name (codes "127.0.0.1") (pos 5353)) u) ≡ answers served)
set_up-serves_example = set_up-serves calm_os calm_parent (λ t dir. refl) []

set_up_databases-serves_example :
    (v : Servers) × (u : Trace) × (set_up_databases calm_os (pos 2) (pos 3) no_servers []
      ≡ (ok v, u))
    × (read_hosts (contents (cfgfile_name (codes "127.0.0.1") (pos 5353)) u)
        ≡ map (λ ip. (codes "rogers.local", ip)) (first_ips database_site (pos 3)))
set_up_databases-serves_example =
    set_up_databases-serves calm_os calm_parent (λ t dir. refl) (pos 2) (pos 3) []

-- The value of a computation that returns.
value {ℓ} : {A : Type ℓ} → A → Outcome A → A
value a (ok b) = b
value a _ = a

abbrev scenario_made : Outcome Servers × Trace
scenario_made = set_up_scenario calm_os memcached_fails no_servers []

abbrev servers : Servers
unfolding value
servers = value no_servers scenario_made.0

servers_made : scenario_made ≡ (ok servers, scenario_made.1)
unfolding set_up_scenario value new_site database_topology num_memcached_instances release_site
    start for_each for_each_instance start_instance num_rogers_instances new_dnsmasq get_rogers_ips
    release_dnsmasq
servers_made = refl

abbrev databases : Site
databases = the_site servers.dbs
  where
    the_site : Option Site → Site
    the_site none = database_site
    the_site (some s) = s

databases_there : servers.dbs ≡ some databases
unfolding set_up_scenario value new_site database_topology num_memcached_instances release_site
    start for_each for_each_instance start_instance num_rogers_instances new_dnsmasq get_rogers_ips
    release_dnsmasq
databases_there = refl

abbrev broken : Outcome (ℕ × Site) × Trace
broken = trigger_failure calm_os memcached_fails databases scenario_made.1

broken_databases : Site
unfolding value
broken_databases = (value (0, databases) broken.0).1

breaks : broken ≡ (ok (0, broken_databases), broken.1)
unfolding broken_databases set_up_scenario value trigger_failure kill_instance on_last new_site
    database_topology num_memcached_instances release_site start for_each for_each_instance
    start_instance num_rogers_instances new_dnsmasq get_rogers_ips release_dnsmasq
breaks = refl

abbrev fixed : Outcome (ℕ × Site) × Trace
fixed = fix_failure calm_os memcached_fails broken_databases broken.1

fixed_databases : Site
unfolding value
fixed_databases = (value (0, databases) fixed.0).1

fixes : fixed ≡ (ok (0, fixed_databases), fixed.1)
unfolding fixed_databases broken_databases set_up_scenario value trigger_failure fix_failure
    kill_instance wait_for_instance connect_loop on_last new_site database_topology
    num_memcached_instances release_site start for_each for_each_instance start_instance
    num_rogers_instances new_dnsmasq get_rogers_ips release_dnsmasq
fixes = refl

databases_up : SiteUp databases
unfolding set_up_scenario value new_site database_topology num_memcached_instances release_site
    start for_each for_each_instance start_instance num_rogers_instances new_dnsmasq get_rogers_ips
    release_dnsmasq
databases_up = ((refl, (refl, tt)), (refl, (refl, tt)), tt)

repaired-SiteUp_example : SiteUp fixed_databases
repaired-SiteUp_example =
    repaired-SiteUp calm_os memcached_fails databases scenario_made.1 databases_up breaks fixes

databases_leave_nothing_example :
    (u : Trace) × (tear_down_databases calm_os (with_databases servers fixed_databases) fixed.1
      ≡ (ok no_servers, u))
    × SignalsLive calm_os u
    × ((q : ℤ) → living calm_os q u ≡ living calm_os q [])
databases_leave_nothing_example =
    databases_leave_nothing calm_os calm_law calm_obeys memcached_fails [] tt servers_made
      (failed_and_fixed here databases_there breaks fixes)

abbrev solution_made : Outcome Solution × Trace
solution_made = set_up_test_case calm_os initial []

abbrev solution : Solution
unfolding value
solution = value initial solution_made.0

solution_is_made : solution_made ≡ (ok solution, solution_made.1)
unfolding set_up_test_case value add_topologies a_records emplace assign less at find
    get_chronos_ips new_topology with_chronos with_rogers new_site database_topology
    num_memcached_instances release_site start for_each for_each_instance start_instance
    num_rogers_instances new_dnsmasq get_rogers_ips release_dnsmasq
solution_is_made = refl

abbrev killed : Outcome Solution × Trace
killed = kill_site1 calm_os solution solution_made.1

killed_solution : Solution
unfolding value
killed_solution = value initial killed.0

kills_it : killed ≡ (ok killed_solution, killed.1)
unfolding killed_solution kill_site1 kill kill_instance set_up_test_case value add_topologies
    a_records emplace assign less at find get_chronos_ips new_topology with_chronos with_rogers
    new_site database_topology num_memcached_instances release_site start for_each for_each_instance
    start_instance num_rogers_instances new_dnsmasq get_rogers_ips release_dnsmasq
kills_it = refl

solution_leaves_nothing_example :
    (u : Trace) × (tear_down_test_case calm_os killed_solution killed.1
      ≡ (ok (record killed_solution { dnsmasq_instance = none; site1 = none; site2 = none }), u))
    × SignalsLive calm_os u
    × ((q : ℤ) → living calm_os q u ≡ living calm_os q [])
solution_leaves_nothing_example =
    solution_leaves_nothing calm_os calm_law calm_obeys [] tt solution_is_made
      (site1_killed SolutionReached.here kills_it)
