-- ===== src/Process/Refines.antt =====
-- The methods of `ProcessInstance` implement the machine of Process/Spec.antt.
use clearwater_fv_test.Base.{
  zero, suc, ◌≡◌, refl, inl, inr, Bool, true, false, List, [], ◌∷◌, Option, none, some, Bool-cases,
  if◌then◌else◌,
}
use clearwater_fv_test.Text.Integer.{ℤ, pos, negsuc, is_zero, is_minus_one}
use clearwater_fv_test.System.{Os, Trace, M, ◌>>=◌, pure, Yields, >>=-Yields}
use clearwater_fv_test.Process.Quiet.{wait-quiet}
use clearwater_fv_test.Process.Live.{has_exited}
use clearwater_fv_test.Process.Wait.{wait-bounds}
use clearwater_fv_test.Process.Signals.{Call, starts, kills, restarts, waits, call}
use clearwater_fv_test.Process.{
  ProcessInstance, start_forked, start_instance, reap, terminate, kill_pid, kill_instance,
  restart_instance, wait_for_instance,
}
use clearwater_fv_test.Process.Spec.{
  Phase, up, status_of, Step, start_works, start_fails, kill_idle, kill_works, kill_survived,
  kill_refused, restart_goes_on, restart_stops, wait, Run, finished, next, phase_of, phase,
  HasValue, IsUsable, StaysParent, Resolves,
}

-- Calls, one after another, with the result of each.
unfoldable pub call_each : Os → List Call → ProcessInstance → M (List Bool × ProcessInstance)
unfolding call
call_each os [] i = pure ([], i)
call_each os (c ∷ cs) i = do (b, j) ← call os c i; (bs, k) ← call_each os cs j; pure (b ∷ bs, k)

zero_only : (p : ℤ) → is_zero p ≡ true → p ≡ pos 0
zero_only (pos zero) e = refl
zero_only (pos (suc n)) e = cc
zero_only (negsuc n) e = cc

module _ (os : Os) where
  -- What a call does, in a given state and after a trace.
  abbrev Steps : Call → Trace → Phase → Bool × ProcessInstance → Trace → Type 0
  Steps c t x (b, j) u = Step os t c x b (phase j) u × IsUsable j

  abbrev pub Runs : List Call → Trace → Phase → List Bool × ProcessInstance → Trace → Type 0
  Runs cs t x (bs, j) u = Run os t cs x bs (phase j) u × IsUsable j

  terminate-Steps :
      (i : ProcessInstance) (p : ℤ) (t : Trace)
      → i.running ≡ true
      → i.pid ≡ some p
      → Yields (Steps kills t (up p)) (terminate os i p t)
  unfolding terminate reap
  terminate-Steps i p t on here = elim (Bool-cases (is_zero (os.kill t p))) [
    | inl sent ↦ elim (Bool-cases (has_exited os (status_of os t p))) [
      | inl gone ↦ rw (sent, gone) (_, _, refl, (kill_works sent gone, λ e. cc))
      | inr left ↦ rw (sent, left, here) (_, _, refl, (kill_survived sent left, λ e. tt))
    ]
    | inr refused ↦ rw (refused, on, here) (_, _, refl, (kill_refused refused, λ e. tt))
  ]

  kill_pid-Steps :
      (i : ProcessInstance) (o : Option ℤ) (t : Trace)
      → i.running ≡ true
      → i.pid ≡ o
      → HasValue o
      → Yields (Steps kills t (phase_of true o)) (kill_pid os i o t)
  unfolding kill_pid
  kill_pid-Steps i none t on here v = absurd v
  kill_pid-Steps i (some p) t on here v = terminate-Steps i p t on here

  kill-Steps :
      (i : ProcessInstance) (t : Trace)
      → IsUsable i
      → Yields (Steps kills t (phase i)) (kill_instance os i t)
  unfolding kill_instance
  kill-Steps i t u = elim (Bool-cases i.running) [
    | inl on ↦ simp on (kill_pid-Steps i i.pid t on refl (u on))
    | inr off ↦ simp off ((true, i), t, refl, (simp off kill_idle, λ e. cc))
  ]

  module _ (parent : StaysParent os) where
    start-Steps :
        (i : ProcessInstance) (t : Trace)
        → IsUsable i
        → Yields (Steps starts t (phase i)) (start_instance os i t)
    unfolding start_instance start_forked
    start-Steps i t u = elim (Bool-cases (is_minus_one (os.fork t))) [
      | inl failed ↦ rw failed (_, _, refl, (start_fails failed, u))
      | inr forks ↦ elim (Bool-cases (is_zero (os.fork t))) [
        | inl child ↦ absurd (parent t (zero_only (os.fork t) child))
        | inr other ↦ rw (forks, other) (_, _, refl, (start_works forks, λ e. tt))
      ]
    ]

    -- The second half of a restart.
    after_kill-Steps :
        (t : Trace) (x : Phase) (b : Bool) (j : ProcessInstance) (u : Trace)
        → Steps kills t x (b, j) u
        → Yields (Steps restarts t x) ((if b then start_instance os j else pure (false, j)) u)
    after_kill-Steps t x true j u (s, usable) =
        let ((b, k), v, e, (s', usable')) = start-Steps j u usable in
        ((b, k), v, e, (restart_goes_on s s', usable'))
    after_kill-Steps t x false j u (s, usable) = (_, _, refl, (restart_stops s, usable))

    restart-Steps :
        (i : ProcessInstance) (t : Trace)
        → IsUsable i
        → Yields (Steps restarts t (phase i)) (restart_instance os i t)
    unfolding restart_instance
    restart-Steps i t u =
        >>=-Yields (Steps kills t (phase i)) (Steps restarts t (phase i)) (kill_instance os i t) _
          (kill-Steps i t u) (λ (b, j) v h. after_kill-Steps t (phase i) b j v h)

    module _ (known : Resolves os) where
      wait-Steps :
          (i : ProcessInstance) (t : Trace)
          → IsUsable i
          → Yields (Steps waits t (phase i)) ((do b ← wait_for_instance os i; pure (b, i)) t)
      wait-Steps i t u =
          let (t', g, how) = wait-quiet os i t in
          let (b, v, e, connects, sleeps) = wait-bounds os i t (known t i.ip) in
          elim how [ inl fails ↦ cc | inr (b', f) ↦ ((b', i), t', simp f, (wait g, u)) ]

      call-Steps :
          (c : Call) (i : ProcessInstance) (t : Trace)
          → IsUsable i
          → Yields (Steps c t (phase i)) (call os c i t)
      unfolding call
      call-Steps starts i t u = start-Steps i t u
      call-Steps kills i t u = kill-Steps i t u
      call-Steps restarts i t u = restart-Steps i t u
      call-Steps waits i t u = wait-Steps i t u

      -- Where every name resolves and the program stays the parent of its forks: whatever calls are
      -- made of an instance whose identifier is set if it runs, they all return, each with the
      -- result, the system calls and the new state that the machine `Step` has for it, where the
      -- answers of fork(), kill() and waitpid() decide the step of a start, a kill and a restart;
      -- and the identifier is set afterwards if the instance runs.
      pub call_each-Run :
          (cs : List Call) (i : ProcessInstance) (t : Trace)
          → IsUsable i
          → Yields (Runs cs t (phase i)) (call_each os cs i t)
      unfolding call_each
      call_each-Run [] i t u = (_, _, refl, (finished, u))
      call_each-Run (c ∷ cs) i t u =
          let ((b, j), v, e, (s, usable)) = call-Steps c i t u in
          let ((bs, k), w, f, (run, usable')) = call_each-Run cs j v usable in
          ((b ∷ bs, k), w, simp (e, f), (next s run, usable'))
