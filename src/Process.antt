-- ===== src/Process.antt =====
-- `ProcessInstance` and its four subclasses, src/processinstance.h and src/processinstance.cpp.
pub mod Config
pub mod Quiet
pub mod Signals
pub mod Live
pub mod Wait
pub mod Child
pub mod Dnsmasq
pub mod Balance
pub mod Destroyed
pub mod Resolver
pub mod Spec
pub mod Started
pub mod Success
pub mod Healthy
pub mod Again
pub mod Refines
use clearwater_fv_test.Base.{
  ℕ, zero, suc, Bool, true, false, not, ◌||◌, List, [], ◌∷◌, ◌++◌, Option, none, some, ◌==◌,
  if◌then◌else◌,
}
use clearwater_fv_test.Text.{Text, codes}
use clearwater_fv_test.Text.Integer.{ℤ, pos, to_string, strtol, to_int32, is_zero, is_minus_one}
use clearwater_fv_test.System.{
  Os, M, ◌>>=◌, ◌>>◌, pure, fault, emit, fork, kill, waitpid, execlp, getaddrinfo, socket, connect,
  remove_all_in_destructor, perror, reopened, slept, closed, freed_addrinfo, removed,
}

-- The members of `ChronosInstance`.
pub record ChronosFiles : Type 0 where
  pub instance_dir : Text
  pub log_dir : Text
  pub conf_dir : Text
  pub local_conf_file : Text
  pub cluster_conf_file : Text
  pub shared_conf_file : Text

-- The subclass of an instance, with the members that it adds.
pub data Kind : Type 0 where
  memcached : Kind
  rogers : (cluster_settings_file : Text) → Kind
  dnsmasq : (cfgfile : Text) → Kind
  chronos : ChronosFiles → Kind

-- `_pid` is not initialised by the constructor: `none` is an indeterminate value.
pub record ProcessInstance : Type 0 where
  pub ip : Text
  pub port : ℤ
  pub pid : Option ℤ
  pub running : Bool
  pub kind : Kind

unfoldable pub new_instance : Text → ℤ → Kind → ProcessInstance
new_instance ip port kind = record {
  ip = ip;
  port = port;
  pid = none;
  running = false;
  kind = kind;
}

-- `strchr(s, c)`: the rest of the text from the first `c` on.
unfoldable pub strchr : ℕ → Text → Option Text
strchr c [] = none
strchr c (x ∷ xs) = if x == c then some (x ∷ xs) else strchr c xs

-- `strchr("TtYy", val[0]) != NULL`, which an empty `val` passes: its terminator is found.
abbrev pub is_noisy : Text → Bool
is_noisy [] = true
is_noisy (c ∷ cs) = (c == b'T') || (c == b't') || (c == b'Y') || (c == b'y')

abbrev after_colon : Option Text → ℤ
after_colon (some (c ∷ cs)) = to_int32 (strtol cs)
after_colon _ = pos 0

abbrev log_level : Option Text → ℤ
log_level none = pos 0
log_level (some val) = if is_noisy val then after_colon (strchr b':' val) else pos 0

module _ (os : Os) where
  unfoldable pub get_log_level : Text
  get_log_level = to_string (log_level (os.getenv (codes "NOISY")))

  -- The tail of every `execute_process`: `execlp` returns on an error only.
  pub exec_failed : Text → List Text → M Bool
  exec_failed file argv = do execlp os file argv; emit (perror (codes "execlp")); pure false

  abbrev execute_memcached : ProcessInstance → M Bool
  execute_memcached i = exec_failed (codes "/usr/bin/memcached") (
      codes "memcached"
      ∷ codes "-l"
      ∷ i.ip
      ∷ codes "-p"
      ∷ to_string i.port
      ∷ codes "-e"
      ∷ codes "ignore_vbucket=true"
      ∷ [])

  abbrev execute_rogers : Text → ProcessInstance → M Bool
  execute_rogers cluster_settings_file i =
      exec_failed (codes "../modules/astaire/build/bin/rogers") (
        codes "rogers"
        ∷ codes "--bind-addr"
        ∷ i.ip
        ∷ codes "--cluster-settings-file"
        ∷ cluster_settings_file
        ∷ codes "--log-level"
        ∷ get_log_level
        ∷ [])

  abbrev execute_dnsmasq : Text → M Bool
  execute_dnsmasq cfgfile =
      exec_failed (codes "/usr/sbin/dnsmasq")
        (codes "dnsmasq" ∷ codes "-z" ∷ codes "-k" ∷ codes "-C" ∷ cfgfile ∷ [])

  abbrev execute_chronos : ChronosFiles → M Bool
  execute_chronos c = do
    emit (reopened (c.log_dir ++ codes "/chronos_stdout.txt") (codes "stdout"))
    emit (reopened (c.log_dir ++ codes "/chronos_stderr.txt") (codes "stderr"))
    exec_failed (codes "../modules/chronos/build/bin/chronos") (
        codes "chronos"
        ∷ codes "--local-config-file"
        ∷ c.local_conf_file
        ∷ codes "--cluster-config-file"
        ∷ c.cluster_conf_file
        ∷ codes "--shared-config-file"
        ∷ c.shared_conf_file
        ∷ [])

  execute_kind : Kind → ProcessInstance → M Bool
  execute_kind memcached i = execute_memcached i
  execute_kind (rogers cluster_settings_file) i = execute_rogers cluster_settings_file i
  execute_kind (dnsmasq cfgfile) i = execute_dnsmasq cfgfile
  execute_kind (chronos c) i = execute_chronos c

  unfoldable pub execute_process : ProcessInstance → M Bool
  unfolding execute_kind
  execute_process i = execute_kind i.kind i

  -- What `start_instance` does with the value of fork().
  start_forked : ProcessInstance → ℤ → M (Bool × ProcessInstance)
  start_forked i p =
      if is_minus_one p
      then (do emit (perror (codes "fork")); pure (false, i))
      else if is_zero p
      then (do success ← execute_process i; pure (success, i))
      else pure (true, record i { pid = some p; running = true })

  unfoldable pub start_instance : ProcessInstance → M (Bool × ProcessInstance)
  unfolding start_forked execute_process
  start_instance i = do p ← fork os; start_forked i p

  reap : ProcessInstance → ℤ → M (Bool × ProcessInstance)
  reap i p = do
    status ← waitpid os p
    let exited = os.wifsignaled status || os.wifexited status
    pure (exited, record i { running = not exited })

  -- The signal is sent to `p`; a process that took it is waited for.
  terminate : ProcessInstance → ℤ → M (Bool × ProcessInstance)
  unfolding reap
  terminate i p = do
    r ← kill os p
    if is_zero r then reap i p else (do emit (perror (codes "kill")); pure (false, i))

  kill_pid : ProcessInstance → Option ℤ → M (Bool × ProcessInstance)
  unfolding terminate
  kill_pid i none = fault
  kill_pid i (some p) = terminate i p

  unfoldable pub kill_instance : ProcessInstance → M (Bool × ProcessInstance)
  unfolding kill_pid
  kill_instance i = if i.running then kill_pid i i.pid else pure (true, i)

  unfoldable pub restart_instance : ProcessInstance → M (Bool × ProcessInstance)
  unfolding kill_instance start_instance
  restart_instance i = do
    (killed, j) ← kill_instance i
    if killed then start_instance j else pure (false, j)

  -- The loop of `wait_for_instance`, by the attempts that are left.
  unfoldable pub connect_loop : ℕ → M Bool
  connect_loop zero = pure false
  connect_loop (suc n) =
      let again = connect_loop n in
      do r ← connect os; if is_zero r then pure true else (do emit (slept 1_000_000); again)

  connect_socket : ℤ → M Bool
  connect_socket sockfd =
      if is_minus_one sockfd then (do emit (perror (codes "socket")); pure false) else (do
        emit (slept 10_000)
        up ← connect_loop 5
        emit (closed sockfd)
        emit freed_addrinfo
        pure up)

  -- If getaddrinfo fails, `res` is used although it was never set.
  unfoldable pub wait_for_instance : ProcessInstance → M Bool
  unfolding connect_socket
  wait_for_instance i = do
    found ← getaddrinfo os i.ip (to_string i.port)
    if found then (do sockfd ← socket os; connect_socket sockfd) else fault

  -- What the destructor of the subclass does before that of `ProcessInstance`.
  destroy_kind : Kind → M (Unit {0})
  destroy_kind memcached = pure tt
  destroy_kind (rogers _) = pure tt
  destroy_kind (dnsmasq cfgfile) = emit (removed cfgfile)
  destroy_kind (chronos c) = remove_all_in_destructor os c.instance_dir

  unfoldable pub destroy : ProcessInstance → M (Unit {0})
  unfolding destroy_kind
  destroy i = do destroy_kind i.kind; kill_instance i; pure tt
