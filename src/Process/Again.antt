-- ===== src/Process/Again.antt =====
-- A start of an instance that is running, which `start_instance` does not exclude.
use clearwater_fv_test.Base.{ℕ, suc, ◌≡◌, refl, ap, ◌∙◌, true, [], ◌∷◌, some, arith}
use clearwater_fv_test.Text.Integer.{ℤ, pos}
use clearwater_fv_test.System.{Os, Trace, ok, forked}
use clearwater_fv_test.Process.Live.{live, owned}
use clearwater_fv_test.Process.Balance.{times, living, Balanced, SignalsLive}
use clearwater_fv_test.Process.Destroyed.{Obeys, destroy-ok}
use clearwater_fv_test.Process.{ProcessInstance, start_instance, start_forked, destroy}

module _ (os : Os) (obeys : Obeys os) where
  started :
      (i : ProcessInstance) (t : Trace) (n : ℕ) (p : ℤ)
      → p ≡ pos (suc n)
      → start_forked os i p (forked p ∷ t) ≡ (
        ok (true, record i { pid = some (pos (suc n)); running = true }),
        forked (pos (suc n)) ∷ t,
      )
  unfolding start_forked
  started i t n p e = rw e refl

  -- Where processes end of the signal that they are sent: if the child of a running instance is
  -- the only one that is left, and the instance is started again, which succeeds, then its
  -- destructor, which returns, still leaves that child: exactly as many children with each
  -- identifier are left as before the second start.
  pub start_again-leaks :
      (i : ProcessInstance) (t : Trace) (p : ℤ) (n : ℕ)
      → i.running ≡ true
      → i.pid ≡ some p
      → live os t ≡ owned os i
      → SignalsLive os t
      → os.fork t ≡ pos (suc n)
      → (j : ProcessInstance) × (t' u : Trace) × (start_instance os i t ≡ (ok (true, j), t'))
        × (destroy os j t' ≡ (ok tt, u))
        × ((q : ℤ) → living os q u ≡ times q (p ∷ []))
  unfolding start_instance
  start_again-leaks i t p n up here left sound forks =
      let child : ℤ = pos (suc n) in
      let j : ProcessInstance = record i { pid = some child; running = true } in
      let t' : Trace = forked child ∷ t in
      let only : live os t ≡ p ∷ [] = left ∙ simp (up, here) in
      let balance : Balanced os (λ q. times q (p ∷ [])) (j ∷ []) t' =
        λ q. omega (arith, ap (times q) only) in
      let (u, e, sound', after) =
        destroy-ok os obeys (λ q. times q (p ∷ [])) j t' (λ r. tt) sound balance in
      (j, t', u, started i t n (os.fork t) forks, e, λ q. omega (arith, after q))
