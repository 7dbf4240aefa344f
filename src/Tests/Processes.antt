-- ===== src/Tests/Processes.antt =====
-- The theorems on `ProcessInstance` at concrete instances and environments.
use clearwater_fv_test.Base.{
  length, List, ℕ, ◌+◌, ◌≤◌, ◌<◌, ◌≡◌, refl, ◌↔◌, Bool, true, false, [], ◌∷◌, some, none, arith,
}
use clearwater_fv_test.Text.{Text, codes}
use clearwater_fv_test.Text.Integer.{ℤ, pos}
use clearwater_fv_test.System.{Yields, contents, Trace, ok, ForkReturns, signalled, waited, forked}
use clearwater_fv_test.Process.{
  ProcessInstance, memcached, new_instance, start_instance, kill_instance, wait_for_instance,
}
use clearwater_fv_test.Process.Live.{live, owned, made, started, Reached-live}
use clearwater_fv_test.Process.Signals.{
  SignalsChildren, starts, kills, restarts, waits, call_all, call_all-SignalsChildren,
}
use clearwater_fv_test.Process.Healthy.{IsHealthy}
use clearwater_fv_test.Process.Wait.{
  connects, slept_us, addrinfo_open, Accepts, first_attempt, wait-bounds, wait_true_iff,
  wait_frees_iff, HasSocket,
}
use clearwater_fv_test.Process.Config.{new_dnsmasq, cfgfile_name}
use clearwater_fv_test.Process.Dnsmasq.{answers}
use clearwater_fv_test.Process.Resolver.{read_hosts, new_dnsmasq-read_hosts}
use clearwater_fv_test.Process.Destroyed.{Obeys}
use clearwater_fv_test.Process.Spec.{phase}
use clearwater_fv_test.Process.Refines.{Runs, call_each, call_each-Run}
use clearwater_fv_test.Process.Balance.{living, times}
use clearwater_fv_test.Process.Again.{start_again-leaks}
use clearwater_fv_test.Process.{destroy}
use clearwater_fv_test.Tests.{calm_os, no_socket_os}

pub calm_law : ForkReturns calm_os
calm_law t n e = cc

pub calm_obeys : Obeys calm_os
calm_obeys = record { takes = λ t p. refl; ends = λ t p. refl; removes = λ t d. refl }

abbrev ip : Text
ip = codes "127.0.1.1"

abbrev idle : ProcessInstance
idle = record { ip = ip; port = pos 33333; pid = none; running = false; kind = memcached }

abbrev up : ProcessInstance
up = record idle { pid = some (pos 101); running = true }

abbrev down : ProcessInstance
down = record up { running = false }

abbrev after_start : Trace
after_start = forked (pos 101) ∷ []

abbrev after_kill : Trace
after_kill = waited (pos 101) 15 ∷ signalled (pos 101) (pos 0) ∷ after_start

kill_up : kill_instance calm_os up after_start ≡ (ok (true, down), after_kill)
unfolding kill_instance
kill_up = refl

start_idle :
    start_instance calm_os (new_instance ip (pos 33333) memcached) [] ≡ (ok (true, up), after_start)
unfolding start_instance new_instance
start_idle = refl

new_is_down : (new_instance ip (pos 33333) memcached).running ≡ false
unfolding new_instance
new_is_down = refl

Reached-live_example : live calm_os after_start ≡ owned calm_os up
Reached-live_example =
    Reached-live calm_os calm_law (started (made ip (pos 33333) memcached) new_is_down start_idle)

call_all-SignalsChildren_example :
    SignalsChildren calm_os
      (call_all calm_os
        (starts ∷ waits ∷ restarts ∷ kills ∷ [])
        (new_instance ip (pos 33333) memcached)
        []).1
call_all-SignalsChildren_example =
    call_all-SignalsChildren calm_os calm_law ip (pos 33333) memcached
      (starts ∷ waits ∷ restarts ∷ kills ∷ [])

wait-bounds_example :
    (b : Bool) × (t' : Trace) × (wait_for_instance calm_os up after_start ≡ (ok b, t'))
    × (connects t' ≤ connects after_start + 5)
    × (slept_us t' ≤ slept_us after_start + 5_010_000)
wait-bounds_example = wait-bounds calm_os up after_start refl

wait_true_iff_example :
    ((wait_for_instance calm_os up after_start).0 ≡ ok true)
    ↔ ((k : ℕ) × (k < 5) × Accepts calm_os k (first_attempt calm_os up after_start))
wait_true_iff_example = wait_true_iff calm_os up after_start refl refl

wait_frees_iff_example :
    ((addrinfo_open (wait_for_instance no_socket_os up after_start).1 ≡ addrinfo_open after_start)
      ↔ HasSocket no_socket_os up after_start)
    × ((addrinfo_open (wait_for_instance no_socket_os up after_start).1
          ≡ addrinfo_open after_start + 1)
        ↔ (¬ HasSocket no_socket_os up after_start))
wait_frees_iff_example = wait_frees_iff no_socket_os up after_start refl

abbrev records : List (Text × List Text)
records = (codes "rogers.local", codes "127.0.1.1" ∷ codes "127.0.1.2" ∷ []) ∷ []

new_dnsmasq-read_hosts_example :
    (i : ProcessInstance) × (t' : Trace) × (new_dnsmasq (codes "127.0.0.1") (pos 5353) records []
      ≡ (ok i, t'))
    × (read_hosts (contents (cfgfile_name (codes "127.0.0.1") (pos 5353)) t') ≡ answers records)
new_dnsmasq-read_hosts_example =
    new_dnsmasq-read_hosts (codes "127.0.0.1") (pos 5353) records [] (omega arith) (
      (
        ((omega arith, omega arith), (omega arith, omega arith)),
        (((omega arith, omega arith), (omega arith, omega arith)), tt),
      ))

call_each-Run_example :
    Yields
      (Runs calm_os (restarts ∷ waits ∷ kills ∷ []) after_start (phase up))
      (call_each calm_os (restarts ∷ waits ∷ kills ∷ []) up after_start)
call_each-Run_example =
    call_each-Run calm_os (λ t e. cc) (λ t host. refl) (restarts ∷ waits ∷ kills ∷ []) up
      after_start (λ e. tt)

start_again-leaks_example :
    (j : ProcessInstance) × (t' u : Trace) × (start_instance calm_os up after_start
      ≡ (ok (true, j), t'))
    × (destroy calm_os j t' ≡ (ok tt, u))
    × ((q : ℤ) → living calm_os q u ≡ times q (pos 101 ∷ []))
start_again-leaks_example =
    start_again-leaks calm_os calm_obeys up after_start (pos 101) 101 refl refl refl tt refl

pub calm-IsHealthy : IsHealthy calm_os
calm-IsHealthy = record {
  forks = λ t. (100 + length t, refl);
  kills = λ t p. refl;
  ends = λ t p. refl;
  resolves = λ t host. refl;
  sockets = λ t. refl;
  accepts = λ t. (0, omega arith, refl);
}
