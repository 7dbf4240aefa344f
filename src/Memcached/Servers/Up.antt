-- ===== src/Memcached/Servers/Up.antt =====
-- Which instances are running after an expectation on the last one.
use clearwater_fv_test.Base.{
  ℕ, ◌≡◌, refl, sym, ap, subst, List, [], ◌∷◌, arith, All, true, false, Bool, if◌then◌else◌,
}
use clearwater_fv_test.System.{Os, Trace, M, Ensures, >>=-Ensures, always}
use clearwater_fv_test.Process.Success.{IsUp, UpIf}
use clearwater_fv_test.Process.{ProcessInstance, wait_for_instance}
use clearwater_fv_test.Site.{Site}
use clearwater_fv_test.Memcached.Scenario.{
  Scenario, memcached_fails, rogers_fails, large_cluster_memcached_fails, on_last, expect_memcached,
  expect_rogers, both, waits,
}

-- All instances but the last are running.
abbrev pub RestUp : List ProcessInstance → Type 0
RestUp [] = Unit
RestUp (i ∷ []) = Unit
RestUp (i ∷ k ∷ ks) = IsUp i × RestUp (k ∷ ks)

pub All-RestUp : (is : List ProcessInstance) → All IsUp is → RestUp is
All-RestUp [] h = tt
All-RestUp (i ∷ []) h = tt
All-RestUp (i ∷ k ∷ ks) h = (h.0, All-RestUp (k ∷ ks) h.1)

RestUp-cons :
    (i : ProcessInstance) (is : List ProcessInstance) → IsUp i → RestUp is → RestUp (i ∷ is)
RestUp-cons i [] up h = tt
RestUp-cons i (k ∷ ks) up h = (up, h)

-- All instances of a site are running.
abbrev pub SiteUp : Site → Type 0
SiteUp s =
    All IsUp s.memcached_instances × All IsUp s.rogers_instances × All IsUp s.chronos_instances

-- What a failure leaves to the repair.
abbrev pub Broken : Scenario → Site → Type 0
Broken memcached_fails s =
    RestUp s.memcached_instances × All IsUp s.rogers_instances × All IsUp s.chronos_instances
Broken large_cluster_memcached_fails s =
    RestUp s.memcached_instances × All IsUp s.rogers_instances × All IsUp s.chronos_instances
Broken rogers_fails s =
    All IsUp s.memcached_instances × RestUp s.rogers_instances × All IsUp s.chronos_instances
Broken _ s = SiteUp s

abbrev AllUpIf : Bool × List ProcessInstance → Trace → Type 0
AllUpIf (b, js) u = b ≡ true → All IsUp js

-- The postcondition of an expectation that did not fail.
abbrev pub Met : (Site → Type 0) → ℕ × Site → Trace → Type 0
Met P (n, s) u = n ≡ 0 → P s

module _ (os : Os) where
  -- Any method leaves the rest as it is.
  pub last-RestUp :
      (method : ProcessInstance → M (Bool × ProcessInstance)) (is : List ProcessInstance)
      (t : Trace)
      → RestUp is
      → Ensures (λ (b, js) u. RestUp js) (on_last method is t)
  unfolding on_last
  last-RestUp method [] t h = tt
  last-RestUp method (i ∷ []) t h =
      >>=-Ensures (λ a u. Unit {0}) (λ (b, js) u. RestUp js) (method i t) _
        (always _ (method i t) (λ a u. tt)) (λ a u x. tt)
  last-RestUp method (i ∷ k ∷ ks) t h =
      >>=-Ensures (λ (b, js) u. RestUp js) (λ (b, js) u. RestUp js) (on_last method (k ∷ ks) t) _
        (last-RestUp method (k ∷ ks) t h.1) (λ (b, js) u x. RestUp-cons i js h.0 x)

  -- A method that leaves its instance running when it returns true.
  last-AllUpIf :
      (method : ProcessInstance → M (Bool × ProcessInstance))
      → ((i : ProcessInstance) (t : Trace) → Ensures UpIf (method i t))
      → (is : List ProcessInstance) (t : Trace) → RestUp is
      → Ensures AllUpIf (on_last method is t)
  unfolding on_last
  last-AllUpIf method works [] t h = tt
  last-AllUpIf method works (i ∷ []) t h =
      >>=-Ensures UpIf AllUpIf (method i t) _ (works i t) (λ (b, j) u up good. (up good, tt))
  last-AllUpIf method works (i ∷ k ∷ ks) t h =
      >>=-Ensures AllUpIf AllUpIf (on_last method (k ∷ ks) t) _
        (last-AllUpIf method works (k ∷ ks) t h.1) (λ (b, js) u up good. (h.0, up good))

  -- Waiting for the last changes none.
  last-waits :
      (is : List ProcessInstance) (t : Trace)
      → Ensures (λ (b, js) u. js ≡ is) (on_last (waits os) is t)
  unfolding on_last waits
  last-waits [] t = tt
  last-waits (i ∷ []) t =
      >>=-Ensures (λ (b, j) u. j ≡ i) (λ (b, js) u. js ≡ i ∷ []) (waits os i t) _
        (>>=-Ensures (λ a u. Unit {0}) (λ (b, j) u. j ≡ i) (wait_for_instance os i t) _
          (always _ (wait_for_instance os i t) (λ a u. tt)) (λ a u x. refl))
        (λ (b, j) u e. ap (λ (x : ProcessInstance). x ∷ []) e)
  last-waits (i ∷ k ∷ ks) t =
      >>=-Ensures (λ (b, js) u. js ≡ k ∷ ks) (λ (b, js) u. js ≡ i ∷ k ∷ ks)
        (on_last (waits os) (k ∷ ks) t) _ (last-waits (k ∷ ks) t) (λ (b, js) u e. ap (◌∷◌ i) e)

  counted : (b : Bool) → ◌≡◌ {A = ℕ} (if b then 0 else 1) 0 → b ≡ true
  counted true e = refl
  counted false e = absurd (omega (arith, e))

  pub memcached_works :
      (method : ProcessInstance → M (Bool × ProcessInstance))
      → ((i : ProcessInstance) (t : Trace) → Ensures UpIf (method i t))
      → (s : Site) (t : Trace) → Broken memcached_fails s
      → Ensures (Met SiteUp) (expect_memcached method s t)
  unfolding expect_memcached
  memcached_works method works s t (ms, rs, cs) =
      >>=-Ensures AllUpIf (Met SiteUp) (on_last method s.memcached_instances t) _
        (last-AllUpIf method works s.memcached_instances t ms)
        (λ (b, js) u up e. (up (counted b e), rs, cs))

  pub rogers_works :
      (method : ProcessInstance → M (Bool × ProcessInstance))
      → ((i : ProcessInstance) (t : Trace) → Ensures UpIf (method i t))
      → (s : Site) (t : Trace) → Broken rogers_fails s
      → Ensures (Met SiteUp) (expect_rogers method s t)
  unfolding expect_rogers
  rogers_works method works s t (ms, rs, cs) =
      >>=-Ensures AllUpIf (Met SiteUp) (on_last method s.rogers_instances t) _
        (last-AllUpIf method works s.rogers_instances t rs)
        (λ (b, js) u up e. (ms, up (counted b e), cs))

  pub memcached_waits :
      (s : Site) (t : Trace) → Ensures (λ (n, s') u. s' ≡ s) (expect_memcached (waits os) s t)
  unfolding expect_memcached
  memcached_waits s t =
      >>=-Ensures (λ (b, js) u. js ≡ s.memcached_instances) (λ (n, s') u. s' ≡ s)
        (on_last (waits os) s.memcached_instances t) _ (last-waits s.memcached_instances t)
        (λ (b, js) u e. ap (λ (is : List ProcessInstance). record s { memcached_instances = is }) e)

  pub rogers_waits :
      (s : Site) (t : Trace) → Ensures (λ (n, s') u. s' ≡ s) (expect_rogers (waits os) s t)
  unfolding expect_rogers
  rogers_waits s t =
      >>=-Ensures (λ (b, js) u. js ≡ s.rogers_instances) (λ (n, s') u. s' ≡ s)
        (on_last (waits os) s.rogers_instances t) _ (last-waits s.rogers_instances t)
        (λ (b, js) u e. ap (λ (is : List ProcessInstance). record s { rogers_instances = is }) e)

  pub both-Met :
      (P : Site → Type 0) (first second : Site → M (ℕ × Site)) (s : Site) (t : Trace)
      → Ensures (Met P) (first s t)
      → ((s' : Site) (u : Trace) → Ensures (λ (n, s'') v. s'' ≡ s') (second s' u))
      → Ensures (Met P) (both first second s t)
  unfolding both
  both-Met P first second s t h still =
      >>=-Ensures (Met P) (Met P) (first s t) _ h (λ (m, s₁) u met.
        >>=-Ensures (λ (n, s₂) v. s₂ ≡ s₁) (Met P) (second s₁ u) _ (still s₁ u)
          (λ (n, s₂) v same e. subst P (sym same) (met (omega (arith, e)))))
