-- ===== src/Site/Lifecycle.antt =====
-- The constructor and the methods of `Site`: its processes are made, started, restarted, killed,
-- waited for and destroyed.
use clearwater_fv_test.Base.{
  ℕ, zero, suc, ◌+◌, Bool, true, false, List, [], ◌∷◌, ◌++◌, map, Option, if◌then◌else◌, get_last?,
}
use clearwater_fv_test.Text.{Text, codes}
use clearwater_fv_test.Text.Integer.{ℤ, pos, to_string}
use clearwater_fv_test.System.{
  Os, M, ◌>>=◌, ◌>>◌, pure, emit, opened_file, wrote, create_directory, remove_all_in_destructor,
}
use clearwater_fv_test.Process.{
  ProcessInstance, start_instance, restart_instance, kill_instance, wait_for_instance, destroy,
}
use clearwater_fv_test.Process.Config.{new_chronos}
use clearwater_fv_test.Site.{
  Topology, Deployment, at, Site, site_ip, rounds, create_memcached_instances,
  create_rogers_instances, chronos_dir, chronos_port, shared_conf_file, cluster_conf_file,
  site_line,
}

unfoldable pub write_sites : Site → Deployment → M (Unit {0})
unfolding site_line
write_sites s [] = pure tt
write_sites s (item ∷ rest) = do
  emit (wrote (shared_conf_file s) (site_line s.site_name item))
  write_sites s rest

-- `[sites]` and a line for each site, if any site is known.
unfoldable pub write_shared_conf : Site → Deployment → M (Unit {0})
unfolding write_sites
write_shared_conf s [] = pure tt
write_shared_conf s (item ∷ rest) = do
  emit (wrote (shared_conf_file s) (codes "[sites]\n"))
  write_sites s (item ∷ rest)

-- The members that the constructor initialises, before its body.
abbrev pub empty_site : ℤ → Text → Text → Deployment → Topology → Site
empty_site index name dir deployment this_site = record {
  site_index = index;
  site_name = name;
  site_dir = dir;
  ip_addr_prefix = this_site.ip_addr_prefix;
  deployment_topology = deployment;
  memcached_instances = [];
  rogers_instances = [];
  chronos_instances = [];
}

module _ (os : Os) where
  unfoldable pub chronos_loop : Site → Topology → ℕ → ℕ → M (List ProcessInstance)
  unfolding site_ip new_chronos
  chronos_loop s tplg zero ii = pure []
  chronos_loop s tplg (suc n) ii = do
    let ip = site_ip s (ii + 1)
    emit (
        wrote (cluster_conf_file s)
          (codes "node = " ++ ip ++ codes ":" ++ to_string chronos_port ++ codes "\n"))
    let dir = chronos_dir s ++ codes "/instance" ++ to_string (pos (ii + 1))
    inst ←
        new_chronos os ip chronos_port dir (cluster_conf_file s) (shared_conf_file s) tplg.dns_ip
          tplg.dns_port
    rest ← chronos_loop s tplg n (ii + 1)
    pure (inst ∷ rest)

  unfoldable pub create_chronos_instances : Site → ℤ → M Site
  unfolding write_shared_conf at chronos_loop
  create_chronos_instances s count = do
    create_directory os (chronos_dir s)
    emit (opened_file (shared_conf_file s))
    write_shared_conf s s.deployment_topology
    emit (opened_file (cluster_conf_file s))
    emit (wrote (cluster_conf_file s) (codes "[cluster]\n"))
    this_site ← at s.deployment_topology s.site_name
    made ← chronos_loop s this_site (rounds count) 0
    pure (record s { chronos_instances = s.chronos_instances ++ made })

  unfoldable pub new_site : ℤ → Text → Text → Deployment → ℤ → ℤ → ℤ → M Site
  unfolding at create_memcached_instances create_rogers_instances create_chronos_instances
  new_site index name dir deployment num_memcached num_rogers num_chronos = do
    this_site ← at deployment name
    create_directory os dir
    s₁ ← create_memcached_instances (empty_site index name dir deployment this_site) num_memcached
    s₂ ← create_rogers_instances s₁ num_rogers
    create_chronos_instances s₂ num_chronos

-- `fn` on each instance of a vector; `S` is what the closure captures by reference.
unfoldable pub for_each {ℓ} :
    {S : Type ℓ}
    → (S → ProcessInstance → M (S × ProcessInstance))
    → S
    → List ProcessInstance
    → M (S × List ProcessInstance)
for_each fn c [] = pure (c, [])
for_each fn c (i ∷ is) = do (c', j) ← fn c i; (c'', js) ← for_each fn c' is; pure (c'', j ∷ js)

unfoldable pub for_each_instance {ℓ} :
    {S : Type ℓ} → (S → ProcessInstance → M (S × ProcessInstance)) → S → Site → M (S × Site)
for_each_instance fn c s = do
  (c₁, ms) ← for_each fn c s.memcached_instances
  (c₂, rs) ← for_each fn c₁ s.rogers_instances
  (c₃, cs) ← for_each fn c₂ s.chronos_instances
  pure (c₃, record s { memcached_instances = ms; rogers_instances = rs; chronos_instances = cs })

-- A closure that drops the result of a method.
abbrev pub dropping :
    (ProcessInstance → M (Bool × ProcessInstance))
    → Unit {0}
    → ProcessInstance
    → M (Unit {0} × ProcessInstance)
dropping method c i = do (b, j) ← method i; pure (c, j)

module _ (os : Os) where
  unfoldable pub start : Site → M Site
  unfolding for_each_instance
  start s = do (c, s') ← for_each_instance (dropping (start_instance os)) tt s; pure s'

  unfoldable pub restart : Site → M Site
  unfolding for_each_instance
  restart s = do (c, s') ← for_each_instance (dropping (restart_instance os)) tt s; pure s'

  unfoldable pub kill : Site → M Site
  unfolding for_each_instance
  kill s = do (c, s') ← for_each_instance (dropping (kill_instance os)) tt s; pure s'

  -- The closure of `wait_for_instances`, with its `ok`.
  unfoldable pub wait_one : Bool → ProcessInstance → M (Bool × ProcessInstance)
  wait_one all_up i = do up ← wait_for_instance os i; pure ((if up then all_up else false), i)

  unfoldable pub wait_for_instances : Site → M Bool
  unfolding for_each_instance
  wait_for_instances s = do (all_up, s') ← for_each_instance (wait_one) true s; pure all_up

  -- `vector::clear()`, where the vector holds the last references.
  unfoldable pub destroy_all : List ProcessInstance → M (Unit {0})
  destroy_all [] = pure tt
  destroy_all (i ∷ is) = do destroy os i; destroy_all is

  unfoldable pub destroy_site : Site → M (Unit {0})
  unfolding destroy_all
  destroy_site s = do
    destroy_all s.memcached_instances
    destroy_all s.rogers_instances
    destroy_all s.chronos_instances
    remove_all_in_destructor os s.site_dir

unfoldable pub get_chronos_ips : Site → List Text
get_chronos_ips s = map (λ i. i.ip) s.chronos_instances

unfoldable pub get_rogers_ips : Site → List Text
get_rogers_ips s = map (λ i. i.ip) s.rogers_instances

unfoldable pub get_first_chronos : Site → Option ProcessInstance
get_first_chronos s = get_last? s.chronos_instances

unfoldable pub get_first_rogers : Site → Option ProcessInstance
get_first_rogers s = get_last? s.rogers_instances

unfoldable pub get_first_memcached : Site → Option ProcessInstance
get_first_memcached s = get_last? s.memcached_instances
