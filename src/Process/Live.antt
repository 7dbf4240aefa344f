-- ===== src/Process/Live.antt =====
-- Which child processes are left: an instance that is running owns exactly one, and one that is
-- not running owns none, as long as it is never started while it runs.
use clearwater_fv_test.Base.{
  ℕ, zero, suc, ◌≡◌, refl, sym, ap, subst, ◌∙◌, inl, inr, Bool, true, false, not, ◌||◌, List, [],
  ◌∷◌, Option, none, some, arith, ◌==◌, if◌then◌else◌,
}
use clearwater_fv_test.Text.{Text}
use clearwater_fv_test.Text.Integer.{ℤ, pos, negsuc}
use clearwater_fv_test.System.{
  Trace, Os, Outcome, ok, raised, terminated, undefined, replaced, pure, continue, ForkReturns,
  forked, waited,
}
use clearwater_fv_test.Process.Quiet.{Grows, same, more, execute_process-Fails, wait-quiet}
use clearwater_fv_test.Process.{
  Kind, ProcessInstance, new_instance, start_forked, start_instance, terminate, kill_pid,
  kill_instance, restart_instance, wait_for_instance,
}

abbrev pub same_pid : ℤ → ℤ → Bool
same_pid (pos a) (pos b) = a == b
same_pid (pos a) (negsuc b) = false
same_pid (negsuc a) (pos b) = false
same_pid (negsuc a) (negsuc b) = a == b

pub same_pid_refl : (p : ℤ) → same_pid p p ≡ true
same_pid_refl (pos a) = ground arith
same_pid_refl (negsuc a) = ground arith

abbrev pub forget : ℤ → List ℤ → List ℤ
forget p [] = []
forget p (q ∷ qs) = if same_pid p q then qs else q ∷ forget p qs

module _ (os : Os) where
  abbrev pub has_exited : ℕ → Bool
  has_exited status = os.wifsignaled status || os.wifexited status

  -- The children that were forked and whose end was not yet waited for, the youngest first.
  abbrev pub live : Trace → List ℤ
  live [] = []
  live (forked (pos (suc n)) ∷ t) = pos (suc n) ∷ live t
  live (waited p status ∷ t) = if has_exited status then forget p (live t) else live t
  live (_ ∷ t) = live t

  abbrev pub pid_list : Option ℤ → List ℤ
  pid_list none = []
  pid_list (some p) = p ∷ []

  abbrev pub owned : ProcessInstance → List ℤ
  owned i = if i.running then pid_list i.pid else []

  -- An instance, with the trace so far, after any calls that end: `start_instance` is called only
  -- while the instance is not running.
  pub data Reached : ProcessInstance → Trace → Type 0 where
    made : (ip : Text) (port : ℤ) (k : Kind) → Reached (new_instance ip port k) []
    started :
        {i j : ProcessInstance} {t t' : Trace} {b : Bool}
        → Reached i t
        → i.running ≡ false
        → start_instance os i t ≡ (ok (b, j), t')
        → Reached j t'
    killed :
        {i j : ProcessInstance} {t t' : Trace} {b : Bool}
        → Reached i t
        → kill_instance os i t ≡ (ok (b, j), t')
        → Reached j t'
    restarted :
        {i j : ProcessInstance} {t t' : Trace} {b : Bool}
        → Reached i t
        → restart_instance os i t ≡ (ok (b, j), t')
        → Reached j t'
    awaited :
        {i : ProcessInstance} {t t' : Trace} {b : Bool}
        → Reached i t
        → wait_for_instance os i t ≡ (ok b, t')
        → Reached i t'

  pub Grows-live : {t t' : Trace} → Grows t t' → live t' ≡ live t
  Grows-live same = refl
  Grows-live (more (forked _) q g) = absurd q
  Grows-live (more (waited _ _) q g) = absurd q
  Grows-live (more _ q g) = Grows-live g

  abbrev After : Outcome (Bool × ProcessInstance) × Trace → Type 0
  After (ok (b, i), t) = live t ≡ owned i
  After (_, t) = Unit

  start_forked-After :
      (i : ProcessInstance) (p : ℤ) (t : Trace)
      → ((n : ℕ) → p ≡ negsuc n → n ≡ 0)
      → live t ≡ []
      → i.running ≡ false
      → After (start_forked os i p (forked p ∷ t))
  unfolding start_forked
  start_forked-After i (pos zero) t law none_live down =
      let (t', g, how) = execute_process-Fails os i (forked (pos zero) ∷ t) in
      elim how [ inl e ↦ simp e tt | inr e ↦ simp (e, down) (Grows-live g ∙ none_live) ]
  start_forked-After i (pos (suc n)) t law none_live down = ap (◌∷◌ (pos (suc n))) none_live
  start_forked-After i (negsuc zero) t law none_live down = simp down none_live
  start_forked-After i (negsuc (suc n)) t law none_live down =
      absurd (omega (arith, law (suc n) refl))

  terminate-After :
      (i : ProcessInstance) (p : ℤ) (t : Trace)
      → i.running ≡ true
      → i.pid ≡ some p
      → live t ≡ p ∷ []
      → After (terminate os i p t)
  unfolding terminate
  terminate-After i p t up e one_live = ground (arith, same_pid_refl p)

  kill_pid-result :
      (i : ProcessInstance) (o : Option ℤ) (t : Trace) {b : Bool} {j : ProcessInstance} {t' : Trace}
      → i.running ≡ true
      → kill_pid os i o t ≡ (ok (b, j), t')
      → j ≡ record i { running = not b }
  unfolding kill_pid
  kill_pid-result i none t up e = cc
  kill_pid-result i (some p) t up e = ground arith

  kill_if-result :
      (c : Bool) (i : ProcessInstance) (t : Trace) {b : Bool} {j : ProcessInstance} {t' : Trace}
      → i.running ≡ c
      → (if c then kill_pid os i i.pid else pure (true, i)) t ≡ (ok (b, j), t')
      → j ≡ record i { running = not b }
  kill_if-result true i t up e = kill_pid-result i i.pid t up e
  kill_if-result false i t down e = ground arith

  -- When `kill_instance` returns, it says true exactly if the instance is no longer marked as
  -- running, and nothing else of the instance has changed.
  pub kill_result :
      (i : ProcessInstance) (t : Trace) {b : Bool} {j : ProcessInstance} {t' : Trace}
      → kill_instance os i t ≡ (ok (b, j), t')
      → j ≡ record i { running = not b }
  unfolding kill_instance
  kill_result i t e = kill_if-result i.running i t refl e

  kill_pid-After :
      (i : ProcessInstance) (o : Option ℤ) (t : Trace)
      → i.running ≡ true
      → i.pid ≡ o
      → live t ≡ pid_list o
      → After (kill_pid os i o t)
  unfolding kill_pid
  kill_pid-After i none t up e l = tt
  kill_pid-After i (some p) t up e l = terminate-After i p t up e l

  kill_if-After :
      (c : Bool) (i : ProcessInstance) (t : Trace)
      → i.running ≡ c
      → live t ≡ (if c then pid_list i.pid else [])
      → After ((if c then kill_pid os i i.pid else pure (true, i)) t)
  kill_if-After true i t up l = kill_pid-After i i.pid t up refl l
  kill_if-After false i t down l = simp down l

  kill-After : (i : ProcessInstance) (t : Trace) → live t ≡ owned i → After (kill_instance os i t)
  unfolding kill_instance
  kill-After i t l = kill_if-After i.running i t refl l

  start-After :
      ForkReturns os
      → (i : ProcessInstance) (t : Trace) → live t ≡ owned i
      → i.running ≡ false
      → After (start_instance os i t)
  unfolding start_instance
  start-After law i t l down = start_forked-After i (os.fork t) t (law t) (simp down at l) down

  start_if-After :
      ForkReturns os
      → (b : Bool) (j : ProcessInstance) (t : Trace) → live t ≡ owned j
      → j.running ≡ not b
      → After ((if b then start_instance os j else pure (false, j)) t)
  start_if-After law true j t l down = start-After law j t l down
  start_if-After law false j t l up = l

  restart_from-After :
      ForkReturns os
      → (r : Outcome (Bool × ProcessInstance) × Trace) → After r
      → ((b : Bool) (j : ProcessInstance) (t' : Trace) → r ≡ (ok (b, j), t') → j.running ≡ not b)
      → After (continue r (λ (b, j). if b then start_instance os j else pure (false, j)))
  restart_from-After law (ok (b, j), t') l flag = start_if-After law b j t' l (flag b j t' refl)
  restart_from-After law (raised e, t') l flag = tt
  restart_from-After law (terminated, t') l flag = tt
  restart_from-After law (undefined, t') l flag = tt
  restart_from-After law (replaced, t') l flag = tt

  restart-After :
      ForkReturns os
      → (i : ProcessInstance) (t : Trace) → live t ≡ owned i
      → After (restart_instance os i t)
  unfolding restart_instance
  restart-After law i t l =
      restart_from-After law (kill_instance os i t) (kill-After i t l)
        (λ b j t' e. ap (λ (k : ProcessInstance). k.running) (kill_result i t e))

  wait-live :
      (i : ProcessInstance) (t t' : Trace) (b : Bool)
      → wait_for_instance os i t ≡ (ok b, t')
      → live t' ≡ live t
  wait-live i t t' b e =
      let (u, g, how) = wait-quiet os i t in
      elim how [
        | inl f ↦ cc
        | inr (c, f) ↦ ap (λ (r : Outcome Bool × Trace). live r.1) (sym e ∙ f) ∙ Grows-live g
      ]

  -- Where fork() returns no negative number but -1: whatever calls were made of an instance, but
  -- start_instance while it was running, the children that were forked and not yet seen to end
  -- are the one in `_pid` if the instance is marked as running, and none otherwise.
  pub Reached-live :
      ForkReturns os → {i : ProcessInstance} {t : Trace} → Reached i t → live t ≡ owned i
  unfolding new_instance
  Reached-live law (made ip port k) = refl
  Reached-live law (started {i} {t = t} r down e) =
      subst After e (start-After law i t (Reached-live law r) down)
  Reached-live law (killed {i} {t = t} r e) = subst After e (kill-After i t (Reached-live law r))
  Reached-live law (restarted {i} {t = t} r e) =
      subst After e (restart-After law i t (Reached-live law r))
  Reached-live law (awaited {i} {t = t} {t' = t'} {b = b} r e) =
      wait-live i t t' b e ∙ Reached-live law r
