-- ===== src/Tests/Dns.antt =====
-- The theorem on the test of a DNS server, at one environment.
use clearwater_fv_test.Base.{refl, []}
use clearwater_fv_test.System.{Yields}
use clearwater_fv_test.Process.Resolver.{read_hosts, addresses}
use clearwater_fv_test.Dns.{basic_query}
use clearwater_fv_test.Dns.Passes.{LeavesNothing, basic_query-passes}
use clearwater_fv_test.Tests.Processes.{calm-IsHealthy, calm_obeys}
use clearwater_fv_test.Tests.{calm_os}

basic_query-passes_example :
    Yields
      (LeavesNothing calm_os [])
      (basic_query calm_os (λ i config name. addresses name (read_hosts config)) [])
basic_query-passes_example =
    basic_query-passes calm_os calm-IsHealthy calm_obeys
      (λ i config name. addresses name (read_hosts config)) (λ i config name up. refl) [] tt
