-- ===== src/S4/Made.antt =====
-- The processes that `SimpleS4SolutionTest::SetUpTestCase` leaves.
use clearwater_fv_test.Base.{
  ℕ, ◌+◌, ◌≡◌, refl, ap, ◌∙◌, List, [], ◌++◌, none, Option-cases, Bool-cases, inl, inr, arith, All,
  All-append,
}
use clearwater_fv_test.Text.{Text, codes}
use clearwater_fv_test.Text.Integer.{ℤ, pos}
use clearwater_fv_test.System.{Os, Trace, ForkReturns}
use clearwater_fv_test.Process.Quiet.{Grows, same, more}
use clearwater_fv_test.Process.Live.{Grows-live}
use clearwater_fv_test.Process.Balance.{
  times, held, Balanced, SignalsLive, After, >>=-After, HasPid,
}
use clearwater_fv_test.Process.{ProcessInstance}
use clearwater_fv_test.Site.Addresses.{instances}
use clearwater_fv_test.Site.Live.{held-append}
use clearwater_fv_test.Site.{Deployment, at, find}
use clearwater_fv_test.Shared.Made.{of_site, of_dnsmasq, started_site, started_dnsmasq, deref-After}
use clearwater_fv_test.Shared.{deref, release_site, release_dnsmasq}
use clearwater_fv_test.S4.{
  Solution, initial, add_topologies, set_up_base, create_and_start_sites, create_and_start_dns,
  a_records, set_up_test_case,
}

-- All instances, in the order in which they are destroyed.
abbrev pub all_instances : Solution → List ProcessInstance
all_instances f = of_dnsmasq f.dnsmasq_instance ++ (of_site f.site1 ++ of_site f.site2)

module _ (os : Os) where
  -- The children that are left are `others` and those of the solution, whose identifiers are set.
  abbrev pub Owns : (ℤ → ℕ) → Solution → Trace → Type 0
  Owns others f t = Balanced os others (all_instances f) t × All (HasPid os) (all_instances f)

  -- No site and no dnsmasq yet.
  abbrev pub bare : Deployment → Solution
  bare d = record { dnsmasq_instance = none; deployment_topology = d; site1 = none; site2 = none }

  abbrev OwnsSites : (ℤ → ℕ) → Solution → Trace → Type 0
  OwnsSites others f t = Owns others f t × (f.dnsmasq_instance ≡ none)

  module _ (law : ForkReturns os) (others : ℤ → ℕ) where
    sites-Owns :
        (d : Deployment) (t : Trace)
        → SignalsLive os t
        → Balanced os others [] t
        → After os (OwnsSites others) (create_and_start_sites os (bare d) t)
    unfolding create_and_start_sites release_site
    sites-Owns d t sound balance =
        started_site os law others (OwnsSites others) (pos 1) (codes "site1") (codes "tmp/site1") d
          (pos 2) (pos 2) (pos 2) _ t sound balance
          (λ s₁ u sound₁ (balance₁, ready₁).
            started_site os law (λ q. others q + held os q (instances s₁)) (OwnsSites others)
              (pos 2) (codes "site2") (codes "tmp/site2") d (pos 2) (pos 2) (pos 2) _ u sound₁
              (λ q. omega (arith, balance₁ q))
              (λ s₂ v sound₂ (balance₂, ready₂). (
                sound₂,
                (
                  (
                    λ q. omega (arith, balance₂ q, held-append os q (instances s₁) (instances s₂)),
                    All-append (HasPid os) (instances s₁) (instances s₂) ready₁ ready₂,
                  ),
                  refl,
                ),
              )))

    dns-Owns :
        (f : Solution) (records : List (Text × List Text)) (t : Trace)
        → f.dnsmasq_instance ≡ none
        → SignalsLive os t
        → Owns others f t
        → After os (Owns others) (create_and_start_dns os f records t)
    unfolding create_and_start_dns release_dnsmasq
    dns-Owns f records t no_dns sound (balance, ready) =
        let sites = of_site f.site1 ++ of_site f.site2 in
        let ready_sites : All (HasPid os) sites = rw no_dns at ready in
        simp no_dns (
          started_dnsmasq os law (λ q. others q + held os q sites) (Owns others) (codes "127.0.0.1")
            (pos 5353) records _ t sound (λ q. omega (arith, rw no_dns at (balance q)))
            (λ b i u sound' (balance', ready').
              (sound', (λ q. omega (arith, balance' q), (ready', ready_sites)))))

  -- Computations that leave the trace as it is.
  module _ (P : Trace → Type 0) (t : Trace) (sound : SignalsLive os t) (holds : P t) where
    at-After : (d : Deployment) (name : Text) → After os (λ a u. P u) (at d name t)
    unfolding at
    at-After d name = elim (Option-cases (find name d)) [
      | inl missing ↦ rw missing sound
      | inr (tplg, found) ↦ rw found (sound, holds)
    ]

  a_records-After :
      (P : Trace → Type 0) (f : Solution) (t : Trace)
      → SignalsLive os t
      → P t
      → After os (λ a u. P u) (a_records os f t)
  unfolding a_records
  a_records-After P f t sound holds =
      >>=-After os (λ a u. P u) (λ a u. P u) (deref f.site1 t) _
        (deref-After os P t sound holds f.site1)
        (λ s₁ t₁ x₁ p₁.
          >>=-After os (λ a u. P u) (λ a u. P u) (deref f.site2 t₁) _
            (deref-After os P t₁ x₁ p₁ f.site2)
            (λ s₂ t₂ x₂ p₂.
              >>=-After os (λ a u. P u) (λ a u. P u) (at f.deployment_topology (codes "site1") t₂) _
                (at-After P t₂ x₂ p₂ f.deployment_topology (codes "site1"))
                (λ d₁ t₃ x₃ p₃.
                  >>=-After os (λ a u. P u) (λ a u. P u)
                    (at f.deployment_topology (codes "site2") t₃) _
                    (at-After P t₃ x₃ p₃ f.deployment_topology (codes "site2"))
                    (λ d₂ t₄ x₄ p₄. (x₄, p₄)))))

  -- The set-up of the test case, where only `others` are left before it.
  pub set_up-Owns :
      ForkReturns os
      → (others : ℤ → ℕ) (t : Trace) → SignalsLive os t
      → Balanced os others [] t
      → After os (Owns others) (set_up_test_case os initial t)
  unfolding set_up_test_case set_up_base
  set_up-Owns law others t sound balance =
      let d = add_topologies [] in
      >>=-After os (λ f u. (f ≡ bare d) × Grows t u) (Owns others) (set_up_base os initial t) _
        (elim (Bool-cases (os.create_directory t (codes "tmp"))) [
          | inl made ↦ rw made (sound, (refl, more _ tt same))
          | inr thrown ↦ rw thrown sound
        ])
        (λ f u sound₀ (set, quiet).
          >>=-After os (OwnsSites others) (Owns others) (create_and_start_sites os f u) _
            (rw set (
              sites-Owns law others d u sound₀
                (λ q. ap (times q) (Grows-live os quiet) ∙ balance q)))
            (λ f₂ v sound₁ owns.
              >>=-After os (λ records w. OwnsSites others f₂ w) (Owns others) (a_records os f₂ v) _
                (a_records-After (OwnsSites others f₂) f₂ v sound₁ owns)
                (λ records w sound₂ (owned, no_dns).
                  dns-Owns law others f₂ records w no_dns sound₂ owned)))
