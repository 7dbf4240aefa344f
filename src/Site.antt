-- ===== src/Site.antt =====
-- `Site` and `Site::Topology`, src/site.h and src/site.cpp.
pub mod Lifecycle
pub mod Build
pub mod Addresses
pub mod Settings
pub mod Waiting
pub mod Returns
pub mod Ips
pub mod Live
pub mod Loop
pub mod Throws
pub mod Forked
pub mod Quiet
pub mod Started
pub mod Reached
pub mod Destroyed
pub mod Files
use clearwater_fv_test.Base.{
  ℕ, zero, suc, ◌+◌, Bool, true, false, not, List, [], ◌∷◌, ◌++◌, map, Option, none, some, ◌==◌,
  if◌then◌else◌, text_eq, get_last?,
}
use clearwater_fv_test.Text.{Text, codes}
use clearwater_fv_test.Text.Integer.{ℤ, pos, negsuc, to_string}
use clearwater_fv_test.System.{
  Os, M, ◌>>=◌, ◌>>◌, pure, raise, fault, emit, out_of_range, opened_file, wrote, create_directory,
  remove_all_in_destructor,
}
use clearwater_fv_test.Process.{
  ProcessInstance, memcached, rogers, new_instance, start_instance, restart_instance, kill_instance,
  wait_for_instance, destroy,
}
use clearwater_fv_test.Process.Config.{new_chronos}

abbrev pub memcached_port : ℤ
memcached_port = pos 33333

abbrev pub rogers_port : ℤ
rogers_port = pos 11311

abbrev pub chronos_port : ℤ
chronos_port = pos 7253

pub record Topology : Type 0 where
  pub ip_addr_prefix : Text
  pub chronos_domain : Text
  pub rogers_domain : Text
  pub dns_ip : Text
  pub dns_port : ℤ

unfoldable pub new_topology : Text → Topology
new_topology prefix = record {
  ip_addr_prefix = prefix;
  chronos_domain = [];
  rogers_domain = [];
  dns_ip = codes "127.0.0.1";
  dns_port = pos 5353;
}

unfoldable pub with_chronos : Topology → Text → Topology
with_chronos t domain = record t { chronos_domain = domain }

unfoldable pub with_rogers : Topology → Text → Topology
with_rogers t domain = record t { rogers_domain = domain }

-- A std::map from site names: the list of its entries in key order.
abbrev pub Deployment : Type 0
Deployment = List (Text × Topology)

unfoldable pub find : Text → Deployment → Option Topology
find name [] = none
find name ((n, t) ∷ rest) = if text_eq n name then some t else find name rest

-- `map::at`.
abbrev at_or_raise : Option Topology → M Topology
at_or_raise none = raise out_of_range
at_or_raise (some t) = pure t

unfoldable pub at : Deployment → Text → M Topology
unfolding find
at d name = at_or_raise (find name d)

pub record Site : Type 0 where
  pub site_index : ℤ
  pub site_name : Text
  pub site_dir : Text
  pub ip_addr_prefix : Text
  pub deployment_topology : Deployment
  pub memcached_instances : List ProcessInstance
  pub rogers_instances : List ProcessInstance
  pub chronos_instances : List ProcessInstance

unfoldable pub site_ip : Site → ℕ → Text
site_ip s index = s.ip_addr_prefix ++ to_string (pos index)

-- The rounds of `for (int ii = 0; ii < count; ++ii)`.
abbrev pub rounds : ℤ → ℕ
rounds (pos n) = n
rounds (negsuc n) = 0

abbrev pub cluster_settings_file : Site → Text
cluster_settings_file s = s.site_dir ++ codes "/cluster_settings"

unfoldable pub memcached_loop : Site → ℕ → ℕ → M (List ProcessInstance)
unfolding site_ip new_instance
memcached_loop s zero ii = pure []
memcached_loop s (suc n) ii = do
  let file = cluster_settings_file s
  emit (wrote file (if ii == 0 then codes "servers=" else codes ","))
  let ip = site_ip s (ii + 1)
  emit (wrote file (ip ++ codes ":" ++ to_string memcached_port))
  rest ← memcached_loop s n (ii + 1)
  pure (new_instance ip memcached_port memcached ∷ rest)

unfoldable pub create_memcached_instances : Site → ℤ → M Site
unfolding memcached_loop
create_memcached_instances s count = do
  emit (opened_file (cluster_settings_file s))
  made ← memcached_loop s (rounds count) 0
  pure (record s { memcached_instances = s.memcached_instances ++ made })

unfoldable pub rogers_loop : Site → ℕ → ℕ → List ProcessInstance
unfolding site_ip new_instance
rogers_loop s zero ii = []
rogers_loop s (suc n) ii =
    new_instance (site_ip s (ii + 1)) rogers_port (rogers (cluster_settings_file s))
    ∷ rogers_loop s n (ii + 1)

unfoldable pub create_rogers_instances : Site → ℤ → M Site
unfolding rogers_loop
create_rogers_instances s count =
    pure (record s { rogers_instances = s.rogers_instances ++ rogers_loop s (rounds count) 0 })

abbrev pub chronos_dir : Site → Text
chronos_dir s = s.site_dir ++ codes "/chronos"

abbrev pub shared_conf_file : Site → Text
shared_conf_file s = chronos_dir s ++ codes "/chronos_shared.conf"

abbrev pub cluster_conf_file : Site → Text
cluster_conf_file s = chronos_dir s ++ codes "/chronos_cluster.conf"

unfoldable pub site_line : Text → Text × Topology → Text
site_line local (name, tplg) =
    if text_eq name local
    then codes "local_site = " ++ name ++ codes "\n"
    else codes "remote_site = " ++ name ++ codes "=" ++ tplg.chronos_domain ++ codes "\n"
