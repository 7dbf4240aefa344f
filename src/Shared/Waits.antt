-- ===== src/Shared/Waits.antt =====
-- Waiting for a site and for a dnsmasq where no call of the operating system fails.
use clearwater_fv_test.Base.{◌≡◌, refl, true, List, [], ◌∷◌, Option, none, some}
use clearwater_fv_test.System.{Os, Trace, Yields}
use clearwater_fv_test.Process.Healthy.{IsHealthy, wait-Yields}
use clearwater_fv_test.Process.{ProcessInstance}
use clearwater_fv_test.Site.Lifecycle.{for_each, for_each_instance, wait_one, wait_for_instances}
use clearwater_fv_test.Site.{Site}
use clearwater_fv_test.Shared.{wait_for_dnsmasq}

module _ (os : Os) (healthy : IsHealthy os) where
  for_each-waits :
      (is : List ProcessInstance) (t : Trace)
      → Yields (λ r u. r.0 ≡ true) (for_each (wait_one os) true is t)
  unfolding for_each wait_one
  for_each-waits [] t = (_, _, refl, refl)
  for_each-waits (i ∷ is) t =
      let (b, u, e, up) = wait-Yields os healthy i t in
      let ((all_up, js), v, f, h) = for_each-waits is u in ((all_up, i ∷ js), v, simp (e, up, f), h)

  pub wait_for_instances-true :
      (s : Site) (t : Trace) → Yields (λ b u. b ≡ true) (wait_for_instances os s t)
  unfolding wait_for_instances for_each_instance
  wait_for_instances-true s t =
      let ((b₁, ms), t₁, e₁, h₁) = for_each-waits s.memcached_instances t in
      let ((b₂, rs), t₂, e₂, h₂) = for_each-waits s.rogers_instances t₁ in
      let ((b₃, cs), t₃, e₃, h₃) = for_each-waits s.chronos_instances t₂ in
      (b₃, t₃, simp (e₁, h₁, e₂, h₂, e₃), h₃)

  pub wait_for_dnsmasq-true :
      (o : Option ProcessInstance) (t : Trace) → Yields (λ b u. b ≡ true) (wait_for_dnsmasq os o t)
  unfolding wait_for_dnsmasq
  wait_for_dnsmasq-true none t = (true, t, refl, refl)
  wait_for_dnsmasq-true (some i) t = wait-Yields os healthy i t
