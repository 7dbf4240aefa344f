-- ===== src/Shared/Released.antt =====
-- A fixture waits for what its pointers hold, and lets go of it.
use clearwater_fv_test.Base.{
  ℕ, ◌≡◌, refl, List, [], Option, none, some, Bool-cases, inl, inr, All, false, Bool, if◌then◌else◌,
}
use clearwater_fv_test.Text.Integer.{ℤ}
use clearwater_fv_test.System.{Os, Trace, ok, M, ◌>>=◌, pure}
use clearwater_fv_test.Process.Balance.{Balanced, SignalsLive, After, >>=-After, HasPid, wait-Kept}
use clearwater_fv_test.Process.Destroyed.{Obeys, destroy-ok}
use clearwater_fv_test.Process.{ProcessInstance}
use clearwater_fv_test.Site.Reached.{wait-Same}
use clearwater_fv_test.Site.Destroyed.{destroy_site-ok}
use clearwater_fv_test.Site.Lifecycle.{wait_for_instances}
use clearwater_fv_test.Site.{Site}
use clearwater_fv_test.Shared.Made.{of_site, of_dnsmasq}
use clearwater_fv_test.Shared.{deref, release_site, release_dnsmasq, wait_for_dnsmasq}

module _ (os : Os) where
  module _ (others : ℤ → ℕ) where
    -- Waiting changes no balance.
    module _ (is : List ProcessInstance) where
      abbrev pub Still : Bool → Trace → Type 0
      Still b u = Balanced os others is u

      pub dnsmasq-Still :
          (o : Option ProcessInstance) (t : Trace)
          → SignalsLive os t
          → Balanced os others is t
          → After os Still (wait_for_dnsmasq os o t)
      unfolding wait_for_dnsmasq
      dnsmasq-Still none t sound balance = (sound, balance)
      dnsmasq-Still (some i) t sound balance = wait-Kept os others is i t sound balance

      deref-Still :
          (o : Option Site) (t : Trace)
          → SignalsLive os t
          → Balanced os others is t
          → After os (λ s u. Balanced os others is u) (deref o t)
      deref-Still none t sound balance = sound
      deref-Still (some s) t sound balance = (sound, balance)

      -- A site that is waited for, and then perhaps more.
      pub site-Still :
          (o : Option Site) (more : M Bool) (t : Trace)
          → ((u : Trace) → SignalsLive os u → Balanced os others is u → After os Still (more u))
          → SignalsLive os t
          → Balanced os others is t
          → After os Still
              ((do s ← deref o; up ← wait_for_instances os s; if up then more else pure false) t)
      site-Still o more t next sound balance =
          >>=-After os (λ s u. Balanced os others is u) Still (deref o t) _
            (deref-Still o t sound balance)
            (λ s u sound₁ balance₁.
              >>=-After os Still Still (wait_for_instances os s u) _
                (wait-Same os others is s u sound₁ balance₁)
                (λ up v sound₂ balance₂. elim (Bool-cases up) [
                  | inl good ↦ rw good (next v sound₂ balance₂)
                  | inr bad ↦ rw bad (sound₂, balance₂)
                ]))

  module _ (obeys : Obeys os) where
    pub release_dnsmasq-ok :
        (others : ℤ → ℕ) (o : Option ProcessInstance) (t : Trace)
        → All (HasPid os) (of_dnsmasq o)
        → SignalsLive os t
        → Balanced os others (of_dnsmasq o) t
        → (u : Trace) × (release_dnsmasq os o t ≡ (ok tt, u))
          × SignalsLive os u
          × Balanced os others [] u
    unfolding release_dnsmasq
    release_dnsmasq-ok others none t ready sound balance = (t, refl, sound, balance)
    release_dnsmasq-ok others (some i) t ready sound balance =
        destroy-ok os obeys others i t ready.0 sound balance

    pub release_site-ok :
        (others : ℤ → ℕ) (o : Option Site) (t : Trace)
        → All (HasPid os) (of_site o)
        → SignalsLive os t
        → Balanced os others (of_site o) t
        → (u : Trace) × (release_site os o t ≡ (ok tt, u))
          × SignalsLive os u
          × Balanced os others [] u
    unfolding release_site
    release_site-ok others none t ready sound balance = (t, refl, sound, balance)
    release_site-ok others (some s) t ready sound balance =
        destroy_site-ok os obeys others s t (sound, (balance, ready))
