-- ===== src/Tests.antt =====
-- Concrete environments, and the results at concrete inputs.
mod Processes
mod Sites
mod Lives
mod Fixtures
mod Stores
mod Thrash
mod Failures
mod Connects
mod Dns
mod Driver
use clearwater_fv_test.Base.{suc, ◌+◌, ◌++◌, true, false, ◌∷◌, none, some, length}
use clearwater_fv_test.Text.{codes}
use clearwater_fv_test.Text.Decimal.{decimal}
use clearwater_fv_test.Text.Integer.{pos, negsuc}
use clearwater_fv_test.System.{Os}

-- Every call succeeds, and no two children have the same identifier.
abbrev pub calm_os : Os
calm_os = record {
  fork = λ t. pos (suc (100 + length t));
  kill = λ t p. pos 0;
  waitpid = λ t p. 15;
  wifsignaled = λ status. true;
  wifexited = λ status. false;
  execlp = λ t file. true;
  getaddrinfo = λ t host. true;
  socket = λ t. pos 3;
  connect = λ t. pos 0;
  create_directory = λ t dir. true;
  remove_all = λ t dir. true;
  getenv = λ name. some (codes "True:" ++ decimal 5);
}

-- No socket can be made.
abbrev pub no_socket_os : Os
no_socket_os = record calm_os { socket = λ t. negsuc 0 }

-- The side of the child, where no program starts.
abbrev pub child_os : Os
child_os = record calm_os { fork = λ t. pos 0; execlp = λ t file. false }
