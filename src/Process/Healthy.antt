-- ===== src/Process/Healthy.antt =====
-- The methods of an instance where no call of the operating system fails.
use clearwater_fv_test.Base.{ℕ, suc, ◌<◌, ◌≡◌, refl, Bool, true, false, some}
use clearwater_fv_test.Text.Integer.{ℤ, pos, is_minus_one}
use clearwater_fv_test.System.{ForkReturns, Os, Trace, Yields, >>=-Yields, ok}
use clearwater_fv_test.Process.Live.{has_exited}
use clearwater_fv_test.Process.Spec.{StaysParent, Resolves}
use clearwater_fv_test.Process.Wait.{Accepts, first_attempt, wait-bounds, wait_true_iff}
use clearwater_fv_test.Process.{
  ProcessInstance, start_forked, start_instance, reap, terminate, kill_pid, kill_instance,
  restart_instance, wait_for_instance,
}

-- fork() makes a child, kill() reaches it, waitpid() sees it end, and whoever waits for a server
-- finds its address, gets a socket, and is let in within five attempts.
pub record IsHealthy (os : Os) : Type 0 where
  pub forks : (t : Trace) → (n : ℕ) × (os.fork t ≡ pos (suc n))
  pub kills : (t : Trace) (p : ℤ) → os.kill t p ≡ pos 0
  pub ends : (t : Trace) (p : ℤ) → has_exited os (os.waitpid t p) ≡ true
  pub resolves : Resolves os
  pub sockets : (t : Trace) → is_minus_one (os.socket t) ≡ false
  pub accepts : (t : Trace) → (k : ℕ) × (k < 5) × Accepts os k t

-- The instance is running, and its identifier is set.
abbrev pub IsServing : ProcessInstance → Type 0
IsServing i = (i.running ≡ true) × ((p : ℤ) × (i.pid ≡ some p))

-- A method returns true, and leaves an instance with a property.
abbrev pub Succeeds : (ProcessInstance → Type 0) → Bool × ProcessInstance → Trace → Type 0
Succeeds P (b, j) u = (b ≡ true) × P j

abbrev pub AnyInstance : ProcessInstance → Type 0
AnyInstance i = Unit

module _ (os : Os) (healthy : IsHealthy os) where
  pub start-Yields :
      (i : ProcessInstance) (t : Trace) → Yields (Succeeds IsServing) (start_instance os i t)
  unfolding start_instance start_forked
  start-Yields i t =
      let (n, e) = healthy.forks t in rw e (_, _, refl, (refl, (refl, (pos (suc n), refl))))

  pub kill-Yields :
      (i : ProcessInstance) (t : Trace)
      → IsServing i
      → Yields (Succeeds AnyInstance) (kill_instance os i t)
  unfolding kill_instance kill_pid terminate reap
  kill-Yields i t (up, (p, e)) = rw (up, e, healthy.kills, healthy.ends) (_, _, refl, (refl, tt))

  pub restart-Yields :
      (i : ProcessInstance) (t : Trace)
      → IsServing i
      → Yields (Succeeds IsServing) (restart_instance os i t)
  unfolding restart_instance
  restart-Yields i t serving =
      >>=-Yields (Succeeds AnyInstance) (Succeeds IsServing) (kill_instance os i t) _
        (kill-Yields i t serving) (λ (b, j) u (good, h). rw good (start-Yields j u))

  pub wait-Yields :
      (i : ProcessInstance) (t : Trace) → Yields (λ b u. b ≡ true) (wait_for_instance os i t)
  wait-Yields i t =
      let (b, u, e, few, short) = wait-bounds os i t (healthy.resolves t i.ip) in
      let up : (wait_for_instance os i t).0 ≡ ok true =
        (wait_true_iff os i t (healthy.resolves t i.ip) (healthy.sockets _)).1
          (healthy.accepts (first_attempt os i t)) in
      let same : ok b ≡ ok true = rw e at up in (b, u, e, cc)

  pub healthy-StaysParent : StaysParent os
  healthy-StaysParent t e = let (n, f) = healthy.forks t in cc

  pub healthy-ForkReturns : ForkReturns os
  healthy-ForkReturns t n e = let (m, f) = healthy.forks t in cc
