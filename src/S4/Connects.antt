-- ===== src/S4/Connects.antt =====
-- `S4Site`, src/test_s4solution.cpp: which stores, S4 objects and servers its constructor connects.
-- What those objects do is the business of a library.
pub mod Remotes
pub mod Resolved
use clearwater_fv_test.Base.{ℕ, Bool, true, false, List, [], ◌∷◌, ◌++◌, if◌then◌else◌, text_eq}
use clearwater_fv_test.Text.{Text, codes}
use clearwater_fv_test.Text.Integer.{ℤ, pos}
use clearwater_fv_test.System.{Os, M, ◌>>=◌, pure}
use clearwater_fv_test.Site.{Topology, Deployment, at}
use clearwater_fv_test.S4.{Solution, wait_for_solution}

-- The arguments of `TopologyNeutralMemcachedStore` that differ: the domain and the third one.
pub record StoreClient : Type 0 where
  pub domain : Text
  pub third : Bool
  pub ip_addr : Text

-- `_remote_s4s`, each with the store of its AoR store.
pub record RemoteS4 : Type 0 where
  pub name : Text
  pub store : StoreClient

-- The connections of the local S4 object, and the address that the HTTP stack is bound to.
pub record S4Site : Type 0 where
  pub name : Text
  pub store : StoreClient
  pub remote_s4s : List RemoteS4
  pub chronos_server : Text
  pub chronos_callback : Text
  pub callback_uri : Text
  pub http_stack : Text × ℤ

-- One round of the loop over the deployment.
abbrev pub remote_s4 : Text → Text → Text × Topology → RemoteS4
remote_s4 site_name ip_addr (name, tplg) = record {
  name = site_name ++ codes "-remote-s4-to-" ++ name;
  store = record { domain = tplg.rogers_domain; third = true; ip_addr = ip_addr };
}

-- `if (item.first != site_name)`.
unfoldable pub remote_s4s : Text → Text → Deployment → List RemoteS4
remote_s4s site_name ip_addr [] = []
remote_s4s site_name ip_addr ((name, tplg) ∷ rest) =
    let others = remote_s4s site_name ip_addr rest in
    if text_eq name site_name then others else remote_s4 site_name ip_addr (name, tplg) ∷ others

unfoldable pub new_s4_site : Text → Deployment → M S4Site
unfolding at remote_s4s
new_s4_site site_name deployment_topology = do
  this_site ← at deployment_topology site_name
  let ip_addr = this_site.ip_addr_prefix ++ codes "1"
  pure (record {
    name = site_name ++ codes "-local-s4";
    store = record { domain = this_site.rogers_domain; third = false; ip_addr = ip_addr };
    remote_s4s = remote_s4s site_name ip_addr deployment_topology;
    chronos_server = this_site.chronos_domain ++ codes ":7253";
    chronos_callback = ip_addr ++ codes ":8088";
    callback_uri = codes "/timers";
    http_stack = (ip_addr, pos 8088);
  })

-- `SetUp`: the S4 sites of a test, and the number of its expectations that failed.
unfoldable pub set_up : Os → Solution → M (S4Site × S4Site × ℕ)
unfolding new_s4_site wait_for_solution
set_up os f = do
  s4_site1 ← new_s4_site (codes "site1") f.deployment_topology
  s4_site2 ← new_s4_site (codes "site2") f.deployment_topology
  up ← wait_for_solution os f
  pure (s4_site1, s4_site2, (if up then 0 else 1))
