-- ===== src/Process/Signals.antt =====
-- Which processes an instance signals, over any sequence of calls of its methods.
use clearwater_fv_test.Base.{
  ℕ, zero, suc, ◌≡◌, refl, inl, inr, Bool, true, false, List, [], ◌∷◌, Option, none, some, arith,
  ◌<◌, Bool-cases, if◌then◌else◌,
}
use clearwater_fv_test.Text.Integer.{ℤ, pos, negsuc, is_zero}
use clearwater_fv_test.Text.{Text}
use clearwater_fv_test.System.{
  Trace, Os, Outcome, ok, raised, terminated, undefined, replaced, M, ◌>>=◌, pure, continue,
  ForkReturns, forked, signalled,
}
use clearwater_fv_test.Process.Live.{has_exited, live, same_pid_refl, Grows-live}
use clearwater_fv_test.Process.Balance.{living}
use clearwater_fv_test.Process.Quiet.{Grows, same, more, execute_process-Fails, wait-quiet}
use clearwater_fv_test.Process.{
  reap, new_instance, Kind, ProcessInstance, execute_process, start_forked, start_instance,
  terminate, kill_pid, kill_instance, restart_instance, wait_for_instance,
}

module _ (os : Os) where
  -- A child of this program that was not yet seen to end.
  abbrev pub IsChild : ℤ → Trace → Type 0
  IsChild (pos zero) t = ⊥
  IsChild (pos (suc n)) t = 0 < living os (pos (suc n)) t
  IsChild (negsuc n) t = ⊥

  -- Every kill() went to such a child.
  abbrev pub SignalsChildren : Trace → Type 0
  SignalsChildren [] = Unit
  SignalsChildren (signalled p r ∷ t) = IsChild p t × SignalsChildren t
  SignalsChildren (_ ∷ t) = SignalsChildren t

  abbrev HasChild : Option ℤ → Trace → Type 0
  HasChild none t = ⊥
  HasChild (some p) t = IsChild p t

  abbrev pub IsReady : ProcessInstance → Trace → Type 0
  IsReady i t = i.running ≡ true → HasChild i.pid t

  abbrev Inv : ProcessInstance → Trace → Type 0
  Inv i t = SignalsChildren t × IsReady i t

  -- The invariant of a result.
  abbrev After : Outcome (Bool × ProcessInstance) × Trace → Type 0
  After (ok (b, i), t) = Inv i t
  After (_, t) = SignalsChildren t

  IsChild-same : (p : ℤ) (t t' : Trace) → live os t' ≡ live os t → IsChild p t → IsChild p t'
  IsChild-same (pos zero) t t' e h = h
  IsChild-same (pos (suc n)) t t' e h = rw e h
  IsChild-same (negsuc n) t t' e h = h

  HasChild-same :
      (o : Option ℤ) (t t' : Trace) → live os t' ≡ live os t → HasChild o t → HasChild o t'
  HasChild-same none t t' e h = h
  HasChild-same (some p) t t' e h = IsChild-same p t t' e h

  Grows-SignalsChildren : {t t' : Trace} → Grows t t' → SignalsChildren t → SignalsChildren t'
  Grows-SignalsChildren same h = h
  Grows-SignalsChildren (more (signalled _ _) q g) h = absurd q
  Grows-SignalsChildren (more _ q g) h = Grows-SignalsChildren g h

  Grows-Inv : {t t' : Trace} (i : ProcessInstance) → Grows t t' → Inv i t → Inv i t'
  Grows-Inv i g (safe, ready) =
      (Grows-SignalsChildren g safe, λ r. HasChild-same i.pid _ _ (Grows-live os g) (ready r))

  execute-Inv :
      (i : ProcessInstance) (t : Trace)
      → Inv i t
      → After ((do s ← execute_process os i; pure (s, i)) t)
  execute-Inv i t h =
      let (t', g, how) = execute_process-Fails os i t in
      elim how [ inl e ↦ rw e (Grows-SignalsChildren g h.0) | inr e ↦ rw e (Grows-Inv i g h) ]

  terminate-Inv :
      (i : ProcessInstance) (p : ℤ) (t : Trace)
      → SignalsChildren t
      → IsChild p t
      → i.pid ≡ some p
      → After (terminate os i p t)
  unfolding terminate reap
  terminate-Inv i p t h c e = elim (Bool-cases (is_zero (os.kill t p))) [
    | inl sent ↦
        let status : ℕ = os.waitpid (signalled p (os.kill t p) ∷ t) p in
        elim (Bool-cases (has_exited os status)) [
          | inl gone ↦ rw (sent, gone) ((c, h), λ r. cc)
          | inr left ↦ rw (sent, left, e) ((c, h), λ r. IsChild-same p t _ (simp left) c)
        ]
    | inr refused ↦ rw (refused, e) ((c, h), λ r. IsChild-same p t _ refl c)
  ]

  kill_pid-Inv :
      (i : ProcessInstance) (o : Option ℤ) (t : Trace)
      → SignalsChildren t
      → HasChild o t
      → i.pid ≡ o
      → After (kill_pid os i o t)
  unfolding kill_pid
  kill_pid-Inv i none t h c e = h
  kill_pid-Inv i (some p) t h c e = terminate-Inv i p t h c e

  kill_if-Inv :
      (b : Bool) (i : ProcessInstance) (t : Trace)
      → Inv i t
      → i.running ≡ b
      → After ((if b then kill_pid os i i.pid else pure (true, i)) t)
  kill_if-Inv true i t (safe, ready) e = kill_pid-Inv i i.pid t safe (ready e) refl
  kill_if-Inv false i t h e = h

  kill-Inv : (i : ProcessInstance) (t : Trace) → Inv i t → After (kill_instance os i t)
  unfolding kill_instance
  kill-Inv i t h = kill_if-Inv i.running i t h refl

  start_forked-Inv :
      (i : ProcessInstance) (p : ℤ) (t : Trace)
      → ((n : ℕ) → p ≡ negsuc n → n ≡ 0)
      → Inv i t
      → After (start_forked os i p (forked p ∷ t))
  unfolding start_forked
  start_forked-Inv i (pos zero) t law (safe, ready) =
      execute-Inv i _ (safe, λ r. HasChild-same i.pid t _ refl (ready r))
  start_forked-Inv i (pos (suc n)) t law (safe, ready) =
      (safe, λ r. rw (same_pid_refl (pos (suc n))) (omega arith))
  start_forked-Inv i (negsuc zero) t law (safe, ready) =
      (safe, λ r. HasChild-same i.pid t _ refl (ready r))
  start_forked-Inv i (negsuc (suc n)) t law h = absurd (omega (arith, law (suc n) refl))

  start-Inv :
      ForkReturns os → (i : ProcessInstance) (t : Trace) → Inv i t → After (start_instance os i t)
  unfolding start_instance
  start-Inv law i t h = start_forked-Inv i (os.fork t) t (law t) h

  -- A call after one that returned keeps the invariant if it does so by itself.
  then-Inv :
      (r : Outcome (Bool × ProcessInstance) × Trace)
      (f : Bool × ProcessInstance → M (Bool × ProcessInstance))
      → ((b : Bool) (i : ProcessInstance) (t : Trace) → Inv i t → After (f (b, i) t))
      → After r
      → After (continue r f)
  then-Inv (ok (b, i), t) f keep h = keep b i t h
  then-Inv (raised e, t) f keep h = h
  then-Inv (terminated, t) f keep h = h
  then-Inv (undefined, t) f keep h = h
  then-Inv (replaced, t) f keep h = h

  start_if-Inv :
      ForkReturns os
      → (b : Bool) (i : ProcessInstance) (t : Trace) → Inv i t
      → After ((if b then start_instance os i else pure (false, i)) t)
  start_if-Inv law true i t h = start-Inv law i t h
  start_if-Inv law false i t h = h

  restart-Inv :
      ForkReturns os → (i : ProcessInstance) (t : Trace) → Inv i t → After (restart_instance os i t)
  unfolding restart_instance
  restart-Inv law i t h = then-Inv (kill_instance os i t) _ (start_if-Inv law) (kill-Inv i t h)

  wait-Inv :
      (i : ProcessInstance) (t : Trace)
      → Inv i t
      → After ((do up ← wait_for_instance os i; pure (up, i)) t)
  wait-Inv i t h =
      let (t', g, how) = wait-quiet os i t in
      elim how [ inl e ↦ rw e (Grows-SignalsChildren g h.0) | inr (b, e) ↦ rw e (Grows-Inv i g h) ]

-- The calls that a test makes of an instance.
pub data Call : Type 0 where
  starts kills restarts waits : Call

unfoldable pub call : Os → Call → ProcessInstance → M (Bool × ProcessInstance)
call os starts i = start_instance os i
call os kills i = kill_instance os i
call os restarts i = restart_instance os i
call os waits i = do up ← wait_for_instance os i; pure (up, i)

unfoldable pub call_all : Os → List Call → ProcessInstance → M (Bool × ProcessInstance)
unfolding call
call_all os [] i = pure (true, i)
call_all os (c ∷ cs) i = do (b, j) ← call os c i; call_all os cs j

call-Inv :
    (os : Os)
    → ForkReturns os
    → (c : Call) (i : ProcessInstance) (t : Trace) → Inv os i t
    → After os (call os c i t)
unfolding call
call-Inv os law starts i t h = start-Inv os law i t h
call-Inv os law kills i t h = kill-Inv os i t h
call-Inv os law restarts i t h = restart-Inv os law i t h
call-Inv os law waits i t h = wait-Inv os i t h

call_all-Inv :
    (os : Os)
    → ForkReturns os
    → (cs : List Call) (i : ProcessInstance) (t : Trace) → Inv os i t
    → After os (call_all os cs i t)
unfolding call_all
call_all-Inv os law [] i t h = h
call_all-Inv os law (c ∷ cs) i t h =
    then-Inv os (call os c i t) _ (λ b j t' k. call_all-Inv os law cs j t' k)
      (call-Inv os law c i t h)

After-SignalsChildren :
    (os : Os) (r : Outcome (Bool × ProcessInstance) × Trace) → After os r → SignalsChildren os r.1
After-SignalsChildren os (ok (b, i), t) h = h.0
After-SignalsChildren os (raised e, t) h = h
After-SignalsChildren os (terminated, t) h = h
After-SignalsChildren os (undefined, t) h = h
After-SignalsChildren os (replaced, t) h = h

-- Where fork() returns no negative number but -1: whatever calls are made of a new instance, in
-- any order, and however the environment answers, every kill() goes to the positive identifier of a
-- child that an earlier fork() returned and that no waitpid() has seen to end since: so never to a
-- process group, to all processes, or to an identifier that might have been reused.
pub call_all-SignalsChildren :
    (os : Os)
    → ForkReturns os
    → (ip : Text) (port : ℤ) (k : Kind) (cs : List Call)
    → SignalsChildren os (call_all os cs (new_instance ip port k) []).1
unfolding new_instance
call_all-SignalsChildren os law ip port k cs =
    After-SignalsChildren os (call_all os cs (new_instance ip port k) [])
      (call_all-Inv os law cs (new_instance ip port k) [] (tt, λ e. cc))
