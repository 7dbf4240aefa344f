-- ===== src/Memcached/Scenario.antt =====
-- The failure scenarios of src/test_memcachedsolution.cpp: which processes they stop and restart.
use clearwater_fv_test.Base.{
  ℕ, ◌+◌, ◌≡◌, refl, sym, ap, subst, Bool, not, List, [], ◌∷◌, ◌++◌, if◌then◌else◌,
}
use clearwater_fv_test.Text.Integer.{ℤ, pos}
use clearwater_fv_test.System.{
  Os, Trace, Outcome, ok, M, ◌>>=◌, pure, fault, continue, Ensures, >>=-Ensures,
}
use clearwater_fv_test.Process.{
  ProcessInstance, start_instance, kill_instance, restart_instance, wait_for_instance,
}
use clearwater_fv_test.Process.Live.{kill_result}
use clearwater_fv_test.Site.{Site}

-- The classes of scenarios, with those that inherit from another.
pub data Scenario : Type 0 where
  no_failures memcached_fails memcached_restarts rogers_fails rogers_restarts : Scenario
  lone_rogers_restarts : Scenario
  large_cluster_memcached_fails large_cluster_memcached_restarts : Scenario

unfoldable pub num_memcached_instances : Scenario → ℤ
num_memcached_instances large_cluster_memcached_fails = pos 3
num_memcached_instances large_cluster_memcached_restarts = pos 3
num_memcached_instances _ = pos 2

unfoldable pub num_rogers_instances : Scenario → ℤ
num_rogers_instances lone_rogers_restarts = pos 1
num_rogers_instances large_cluster_memcached_fails = pos 3
num_rogers_instances large_cluster_memcached_restarts = pos 3
num_rogers_instances _ = pos 2

-- A method called on what `get_first_…` returns: the last instance, which the site shares.
unfoldable pub on_last :
    (ProcessInstance → M (Bool × ProcessInstance))
    → List ProcessInstance
    → M (Bool × List ProcessInstance)
on_last method [] = fault
on_last method (i ∷ []) = do (b, j) ← method i; pure (b, j ∷ [])
on_last method (i ∷ k ∷ ks) = do (b, js) ← on_last method (k ∷ ks); pure (b, i ∷ js)

-- `EXPECT_TRUE` of a method of the last memcached: the number of failed expectations, and the site.
unfoldable pub expect_memcached :
    (ProcessInstance → M (Bool × ProcessInstance)) → Site → M (ℕ × Site)
unfolding on_last
expect_memcached method s = do
  (b, is) ← on_last method s.memcached_instances
  pure ((if b then 0 else 1), record s { memcached_instances = is })

unfoldable pub expect_rogers : (ProcessInstance → M (Bool × ProcessInstance)) → Site → M (ℕ × Site)
unfolding on_last
expect_rogers method s = do
  (b, is) ← on_last method s.rogers_instances
  pure ((if b then 0 else 1), record s { rogers_instances = is })

-- Two expectations, one after the other.
unfoldable pub both : (Site → M (ℕ × Site)) → (Site → M (ℕ × Site)) → Site → M (ℕ × Site)
both first second s = do (m, s₁) ← first s; (n, s₂) ← second s₁; pure (m + n, s₂)

module _ (os : Os) where
  unfoldable pub waits : ProcessInstance → M (Bool × ProcessInstance)
  waits i = do up ← wait_for_instance os i; pure (up, i)

  unfoldable pub trigger_failure : Scenario → Site → M (ℕ × Site)
  unfolding expect_memcached expect_rogers both waits
  trigger_failure no_failures s = pure (0, s)
  trigger_failure memcached_fails s = expect_memcached (kill_instance os) s
  trigger_failure large_cluster_memcached_fails s = expect_memcached (kill_instance os) s
  trigger_failure memcached_restarts s =
      both (expect_memcached (restart_instance os)) (expect_memcached waits) s
  trigger_failure large_cluster_memcached_restarts s =
      both (expect_memcached (restart_instance os)) (expect_memcached waits) s
  trigger_failure rogers_fails s = expect_rogers (kill_instance os) s
  trigger_failure rogers_restarts s =
      both (expect_rogers (restart_instance os)) (expect_rogers waits) s
  trigger_failure lone_rogers_restarts s =
      both (expect_rogers (restart_instance os)) (expect_rogers waits) s

  unfoldable pub fix_failure : Scenario → Site → M (ℕ × Site)
  unfolding expect_memcached expect_rogers both waits
  fix_failure memcached_fails s =
      both (expect_memcached (start_instance os)) (expect_memcached waits) s
  fix_failure large_cluster_memcached_fails s =
      both (expect_memcached (start_instance os)) (expect_memcached waits) s
  fix_failure rogers_fails s = both (expect_rogers (start_instance os)) (expect_rogers waits) s
  fix_failure _ s = pure (0, s)

  pub kill-Ensures :
      (i : ProcessInstance) (t : Trace)
      → Ensures (λ (b, j) _. j ≡ record i { running = not b }) (kill_instance os i t)
  kill-Ensures i t = ensured (kill_instance os i t) (λ b j t' e. kill_result os i t e)
    where
      ensured :
          (r : Outcome (Bool × ProcessInstance) × Trace)
          → ((b : Bool) (j : ProcessInstance) (t' : Trace)
              → r ≡ (ok (b, j), t')
              → j ≡ record i { running = not b })
          → Ensures (λ (b, j) _. j ≡ record i { running = not b }) r
      ensured (ok (b, j), t') h = h b j t' refl
      ensured (Outcome.raised e, t') h = tt
      ensured (Outcome.terminated, t') h = tt
      ensured (Outcome.undefined, t') h = tt
      ensured (Outcome.replaced, t') h = tt

  -- The instances with the last one marked as the result of the kill says.
  abbrev Marked :
      List ProcessInstance → ProcessInstance → Bool × List ProcessInstance → Trace → Type 0
  Marked xs x (b, is) t = is ≡ xs ++ record x { running = not b } ∷ []

  kill_one_more :
      (y : ProcessInstance) (xs : List ProcessInstance) (x : ProcessInstance)
      (r : Outcome (Bool × List ProcessInstance) × Trace)
      → Ensures (Marked xs x) r
      → Ensures (Marked (y ∷ xs) x) (continue r (λ (b, js). pure (b, y ∷ js)))
  kill_one_more y xs x r h =
      >>=-Ensures (Marked xs x) (Marked (y ∷ xs) x) r (λ (b, js). pure (b, y ∷ js)) h
        (λ (b, js) u e. ap (◌∷◌ y) e)

  kill_last :
      (xs : List ProcessInstance) (x : ProcessInstance) (t : Trace)
      → Ensures (Marked xs x) (on_last (kill_instance os) (xs ++ x ∷ []) t)
  unfolding on_last
  kill_last [] x t =
      >>=-Ensures (λ (b, j) _. j ≡ record x { running = not b }) (Marked [] x)
        (kill_instance os x t) (λ (b, j). pure (b, j ∷ [])) (kill-Ensures x t)
        (λ (b, j) u e. ap (λ (k : ProcessInstance). k ∷ []) e)
  kill_last (y ∷ []) x t = kill_one_more y [] x _ (kill_last [] x t)
  kill_last (y ∷ z ∷ zs) x t = kill_one_more y (z ∷ zs) x _ (kill_last (z ∷ zs) x t)

  -- Whether the kill succeeded, in the number of failed expectations and in the mark.
  abbrev pub KilledLast : Site → List ProcessInstance → ProcessInstance → ℕ × Site → Trace → Type 0
  KilledLast s xs x (failures, s') t =
      (b : Bool) × (failures ≡ (if b then 0 else 1))
      × (s' ≡ record s { memcached_instances = xs ++ record x { running = not b } ∷ [] })

  -- In the scenarios where a memcached fails, for a site whose Memcached instances are `xs` and
  -- then `x`: where triggering the failure returns, either the expectation holds and `x` is not
  -- running, or it fails and `x` is marked as running; the rest of the site is as it was.
  pub trigger_failure-memcached :
      (s : Site) (xs : List ProcessInstance) (x : ProcessInstance) (t : Trace)
      → s.memcached_instances ≡ xs ++ x ∷ []
      → Ensures (KilledLast s xs x) (trigger_failure memcached_fails s t)
  unfolding trigger_failure
  trigger_failure-memcached s xs x t e =
      >>=-Ensures (Marked xs x) (KilledLast s xs x)
        (on_last (kill_instance os) s.memcached_instances t)
        (λ (b, is). pure ((if b then 0 else 1), record s { memcached_instances = is }))
        (subst (λ is. Ensures (Marked xs x) (on_last (kill_instance os) is t)) (sym e)
          (kill_last xs x t))
        (λ (b, is) u marked. (
          b,
          refl,
          ap (λ (js : List ProcessInstance). record s { memcached_instances = js }) marked,
        ))
