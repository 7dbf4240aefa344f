-- ===== src/Tests/Sites.antt =====
-- The theorems on `Site` at the sites of a concrete deployment.
use clearwater_fv_test.Base.{◌↔◌, ℕ, ◌≡◌, refl, true, [], ◌∷◌, some, none, map, Distinct}
use clearwater_fv_test.Text.{Text, codes}
use clearwater_fv_test.Text.Integer.{pos}
use clearwater_fv_test.System.{Ensures, raised, out_of_range}
use clearwater_fv_test.Process.{ProcessInstance, memcached}
use clearwater_fv_test.Site.{Topology, new_topology, Deployment, find, Site}
use clearwater_fv_test.Site.Lifecycle.{empty_site, new_site}
use clearwater_fv_test.Site.Addresses.{
  endpoint, instances, new_site-Distinct, AreLast, get_first-last,
}
use clearwater_fv_test.Site.Throws.{new_site-throws_iff}
use clearwater_fv_test.Tests.{calm_os}

abbrev pub local : Topology
local = record {
  ip_addr_prefix = codes "127.0.1.";
  chronos_domain = [];
  rogers_domain = [];
  dns_ip = codes "127.0.0.1";
  dns_port = pos 5353;
}

abbrev remote : Topology
remote = record local { ip_addr_prefix = codes "127.0.2." }

abbrev pub deployment : Deployment
deployment = (codes "site1", local) ∷ (codes "site2", remote) ∷ []

local_is_default : local ≡ new_topology (codes "127.0.1.")
unfolding new_topology
local_is_default = refl

abbrev pub name : Text
name = codes "site1"

abbrev pub dir : Text
dir = codes "./tmp/site1"

abbrev pub site : Site
site = empty_site (pos 1) name dir deployment local

abbrev other_site : Site
other_site = empty_site (pos 2) (codes "site2") (codes "./tmp/site2") deployment remote

pub known : find name deployment ≡ some local
unfolding find
known = refl

unknown : find (codes "site3") deployment ≡ none
unfolding find
unknown = refl

new_site-Distinct_example :
    Ensures
      (λ s _. Distinct (map endpoint (instances s)))
      (new_site calm_os (pos 1) name dir deployment (pos 2) (pos 2) (pos 1) [])
new_site-Distinct_example =
    new_site-Distinct calm_os (pos 1) name dir deployment (pos 2) (pos 2) (pos 1) []

new_site-throws_iff_example :
    (((new_site calm_os (pos 1) (codes "site3") dir deployment (pos 2) (pos 2) (pos 1) []).0
        ≡ raised out_of_range)
      ↔ (find (codes "site3") deployment ≡ none))
    × ((new_site calm_os (pos 1) (codes "site3") dir deployment (pos 2) (pos 2) (pos 1) []
          ≡ (raised out_of_range, []))
        ↔ (find (codes "site3") deployment ≡ none))
new_site-throws_iff_example =
    new_site-throws_iff calm_os (pos 1) (codes "site3") dir deployment (pos 2) (pos 2) (pos 1) []

get_first-last_example :
    Ensures
      (λ s _. AreLast s 1 1 0)
      (new_site calm_os (pos 1) name dir deployment (pos 2) (pos 2) (pos 1) [])
get_first-last_example = get_first-last calm_os (pos 1) name dir deployment local 1 1 0 [] known

-- A site with two memcached processes.
abbrev one_up : ℕ → ProcessInstance
one_up n = record {
  ip = codes "127.0.1.1";
  port = pos 33333;
  pid = some (pos n);
  running = true;
  kind = memcached;
}

abbrev pair : Site
pair = record site { memcached_instances = one_up 101 ∷ one_up 102 ∷ [] }
