-- ===== src/Process/Config.antt =====
-- The constructors of `DnsmasqInstance` and `ChronosInstance`, which write configuration files.
use clearwater_fv_test.Base.{List, [], ◌∷◌, ◌++◌}
use clearwater_fv_test.Text.{Text, codes}
use clearwater_fv_test.Text.Integer.{ℤ, to_string}
use clearwater_fv_test.System.{Os, M, ◌>>=◌, ◌>>◌, pure, emit, opened_file, wrote, create_directory}
use clearwater_fv_test.Process.{
  dnsmasq, chronos, ChronosFiles, ProcessInstance, new_instance, get_log_level,
}

abbrev line_end : Text
line_end = codes "\n"

abbrev pub host_record : Text → Text → Text
host_record name ip = codes "host-record=" ++ name ++ codes "," ++ ip ++ line_end

-- The addresses of one name.
unfoldable pub write_hosts : Text → Text → List Text → M (Unit {0})
write_hosts cfgfile name [] = pure tt
write_hosts cfgfile name (ip ∷ ips) = do
  emit (wrote cfgfile (host_record name ip))
  write_hosts cfgfile name ips

-- A std::map is the list of its entries in key order.
unfoldable pub write_records : Text → List (Text × List Text) → M (Unit {0})
unfolding write_hosts
write_records cfgfile [] = pure tt
write_records cfgfile ((name, ips) ∷ rest) = do
  write_hosts cfgfile name ips
  write_records cfgfile rest

unfoldable pub cfgfile_name : Text → ℤ → Text
cfgfile_name ip port = ip ++ codes "_" ++ to_string port ++ codes "_" ++ codes "_dnsmasq.cfg"

unfoldable pub write_config : Text → ℤ → List (Text × List Text) → M Text
unfolding write_records
write_config ip port a_records = do
  let cfgfile = cfgfile_name ip port
  emit (opened_file cfgfile)
  emit (wrote cfgfile (codes "listen-address=" ++ ip ++ line_end))
  emit (wrote cfgfile (codes "port=" ++ to_string port ++ line_end))
  write_records cfgfile a_records
  pure cfgfile

unfoldable pub new_dnsmasq : Text → ℤ → List (Text × List Text) → M ProcessInstance
unfolding write_config new_instance
new_dnsmasq ip port a_records = do
  cfgfile ← write_config ip port a_records
  pure (new_instance ip port (dnsmasq cfgfile))

-- The members of a `ChronosInstance`.
unfoldable pub chronos_files : Text → Text → Text → ChronosFiles
chronos_files instance_dir cluster_conf_file shared_conf_file = record {
  instance_dir = instance_dir;
  log_dir = instance_dir ++ codes "/log";
  conf_dir = instance_dir ++ codes "/conf";
  local_conf_file = (instance_dir ++ codes "/conf") ++ codes "/chronos.conf";
  cluster_conf_file = cluster_conf_file;
  shared_conf_file = shared_conf_file;
}

-- The local configuration of a Chronos process.
unfoldable pub chronos_conf : Os → Text → ℤ → Text → Text → ℤ → Text
chronos_conf os ip port log_dir dns_ip dns_port =
    codes "[logging]\n"
    ++ codes "level = "
    ++ get_log_level os
    ++ line_end
    ++ codes "folder = "
    ++ log_dir
    ++ line_end
    ++ line_end
    ++ codes "[dns]\n"
    ++ codes "servers = "
    ++ dns_ip
    ++ line_end
    ++ codes "port = "
    ++ to_string dns_port
    ++ line_end
    ++ line_end
    ++ codes "[http]\n"
    ++ codes "bind-address = "
    ++ ip
    ++ line_end
    ++ codes "bind-port = "
    ++ to_string port
    ++ line_end
    ++ line_end
    ++ codes "[throttling]\n"
    ++ codes "max_tokens = 1000\n"
    ++ line_end
    ++ codes "[cluster]\n"
    ++ codes "localhost = "
    ++ ip
    ++ codes ":"
    ++ to_string port
    ++ line_end

unfoldable pub new_chronos : Os → Text → ℤ → Text → Text → Text → Text → ℤ → M ProcessInstance
unfolding chronos_files chronos_conf new_instance
new_chronos os ip port instance_dir cluster_conf_file shared_conf_file dns_ip dns_port = do
  let files = chronos_files instance_dir cluster_conf_file shared_conf_file
  create_directory os files.instance_dir
  create_directory os files.log_dir
  create_directory os files.conf_dir
  emit (opened_file files.local_conf_file)
  emit (wrote files.local_conf_file (chronos_conf os ip port files.log_dir dns_ip dns_port))
  pure (new_instance ip port (chronos files))
