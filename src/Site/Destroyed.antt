-- ===== src/Site/Destroyed.antt =====
-- The destructor of a site, where the processes end when they are told to.
use clearwater_fv_test.Base.{
  ℕ, ◌+◌, ◌≡◌, refl, ap, subst, List, [], ◌∷◌, ◌++◌, arith, All, All-append, All-numbered,
  Option-cases, inl, inr,
}
use clearwater_fv_test.Text.{Text}
use clearwater_fv_test.Text.Integer.{ℤ}
use clearwater_fv_test.System.{
  Trace, Os, Outcome, ok, ForkReturns, removed_all, Ensures, Ensures-mono,
}
use clearwater_fv_test.Process.Quiet.{Grows}
use clearwater_fv_test.Process.Live.{Grows-live}
use clearwater_fv_test.Site.Quiet.{new_site-IsSilent}
use clearwater_fv_test.Process.Balance.{
  Grows-SignalsLive, times, living, held, Balanced, SignalsLive, HasPid,
}
use clearwater_fv_test.Process.Destroyed.{Obeys, destroy-ok}
use clearwater_fv_test.Process.{ProcessInstance, new_instance}
use clearwater_fv_test.Site.{Site, Deployment, find, rounds}
use clearwater_fv_test.Site.Lifecycle.{destroy_all, destroy_site, new_site, empty_site}
use clearwater_fv_test.Site.Addresses.{instances, new_site-unknown}
use clearwater_fv_test.Site.Build.{built, memcached_at, rogers_at, chronos_at, new_site-built}
use clearwater_fv_test.Site.Live.{held-append}
use clearwater_fv_test.Site.Reached.{IsDown, SiteReached, SiteInv, SiteReached-SiteInv}

module _ (P : ProcessInstance → Type 0) where
  pub All-left : (is js : List ProcessInstance) → All P (is ++ js) → All P is
  All-left [] js h = tt
  All-left (i ∷ is) js h = (h.0, All-left is js h.1)

  pub All-right : (is js : List ProcessInstance) → All P (is ++ js) → All P js
  All-right [] js h = h
  All-right (i ∷ is) js h = All-right is js h.1

module _ (os : Os) (obeys : Obeys os) where
  destroy_all-ok :
      (others : ℤ → ℕ) (is : List ProcessInstance) (t : Trace)
      → All (HasPid os) is
      → SignalsLive os t
      → Balanced os others is t
      → (u : Trace) × (destroy_all os is t ≡ (ok tt, u))
        × SignalsLive os u
        × Balanced os others [] u
  unfolding destroy_all
  destroy_all-ok others [] t ready sound balance = (t, refl, sound, balance)
  destroy_all-ok others (i ∷ is) t ready sound balance =
      let (u, e, sound', balance') =
        destroy-ok os obeys (λ q. others q + held os q is) i t ready.0 sound
          (λ q. omega (arith, balance q)) in
      let (v, f, sound'', balance'') =
        destroy_all-ok others is u ready.1 sound' (λ q. omega (arith, balance' q)) in
      (v, simp (e, f), sound'', balance'')

  pub destroy_site-ok :
      (others : ℤ → ℕ) (s : Site) (t : Trace)
      → SiteInv os others s t
      → (u : Trace) × (destroy_site os s t ≡ (ok tt, u))
        × SignalsLive os u
        × Balanced os others [] u
  unfolding destroy_site
  destroy_site-ok others s t (sound, (balance, ready)) =
      let ms = s.memcached_instances in
      let rs = s.rogers_instances in
      let cs = s.chronos_instances in
      let ready_rest = All-right (HasPid os) ms (rs ++ cs) ready in
      let (t₁, e₁, sound₁, balance₁) =
        destroy_all-ok (λ q. others q + held os q (rs ++ cs)) ms t
          (All-left (HasPid os) ms (rs ++ cs) ready) sound
          (λ q. omega (arith, balance q, held-append os q ms (rs ++ cs))) in
      let (t₂, e₂, sound₂, balance₂) =
        destroy_all-ok (λ q. others q + held os q cs) rs t₁ (All-left (HasPid os) rs cs ready_rest)
          sound₁ (λ q. omega (arith, balance₁ q, held-append os q rs cs)) in
      let (t₃, e₃, sound₃, balance₃) =
        destroy_all-ok others cs t₂ (All-right (HasPid os) rs cs ready_rest) sound₂
          (λ q. omega (arith, balance₂ q)) in
      (removed_all s.site_dir ∷ t₃, simp (e₁, e₂, e₃, obeys.removes), sound₃, balance₃)

module _ (os : Os) where
  pub down-held : (q : ℤ) (is : List ProcessInstance) → All IsDown is → held os q is ≡ 0
  down-held q [] h = refl
  down-held q (i ∷ is) h = rw h.0 (omega (arith, down-held q is h.1))

  pub down-HasPid : (is : List ProcessInstance) → All IsDown is → All (HasPid os) is
  down-HasPid [] h = tt
  down-HasPid (i ∷ is) h = (λ up. cc h.0, down-HasPid is h.1)

instances-IsDown : (s : Site) (m r c : ℤ) → All IsDown (instances (built s m r c))
unfolding new_instance
instances-IsDown s m r c =
    All-append IsDown _ _ (All-numbered IsDown (memcached_at s) 0 (rounds m) (λ k _. refl)) (
      All-append IsDown _ _ (All-numbered IsDown (rogers_at s) 0 (rounds r) (λ k _. refl))
        (All-numbered IsDown (chronos_at s) 0 (rounds c) (λ k _. refl)))

pub new_site-IsDown :
    (os : Os) (index : ℤ) (name dir : Text) (d : Deployment) (m r c : ℤ) (t : Trace)
    → Ensures (λ s _. All IsDown (instances s)) (new_site os index name dir d m r c t)
new_site-IsDown os index name dir d m r c t = elim (Option-cases (find name d)) [
  | inl unknown ↦ rw (new_site-unknown os index name dir d m r c t unknown) tt
  | inr (tplg, known) ↦
      Ensures-mono (λ s _. s ≡ built (empty_site index name dir d tplg) m r c)
        (λ s _. All IsDown (instances s)) _ (new_site-built os index name dir d m r c tplg t known)
        (λ s u e. rw e (instances-IsDown (empty_site index name dir d tplg) m r c))
]

-- From the constructor of a site, through any calls of its methods that return (`start` only while
-- no instance is running), to its destructor: where fork() returns no negative number but -1, all
-- processes end of the signal that they are sent and directories can be removed, the destructor
-- returns, the children that are then left are exactly those that were left before the
-- constructor, and if every kill() before the constructor went to a child that was left at that
-- time, so did every one after it.
pub site_leaves_nothing :
    (os : Os)
    → ForkReturns os
    → Obeys os
    → (index : ℤ) (name dir : Text) (d : Deployment) (m r c : ℤ) (t₀ : Trace) → SignalsLive os t₀
    → {s₀ : Site} {t₁ : Trace} → new_site os index name dir d m r c t₀ ≡ (ok s₀, t₁)
    → {s : Site} {t : Trace} → SiteReached os s₀ t₁ s t
    → (u : Trace) × (destroy_site os s t ≡ (ok tt, u))
      × SignalsLive os u
      × ((q : ℤ) → living os q u ≡ living os q t₀)
site_leaves_nothing os law obeys index name dir d m r c t₀ sound {s₀} {t₁} made {s} {t} reached =
    let down : All IsDown (instances s₀) =
      subst (Ensures (λ s _. All IsDown (instances s))) made
        (new_site-IsDown os index name dir d m r c t₀) in
    let quiet : Grows t₀ t₁ =
      subst (λ (o : Outcome Site × Trace). Grows t₀ o.1) made
        (new_site-IsSilent os index name dir d m r c t₀) in
    let balanced : (q : ℤ) → living os q t₁ ≡ living os q t₀ + held os q (instances s₀) =
      λ q. omega (arith, ap (times q) (Grows-live os quiet), down-held os q (instances s₀) down) in
    let inv : SiteInv os (λ q. living os q t₀) s₀ t₁ =
      (Grows-SignalsLive os quiet sound, (balanced, down-HasPid os (instances s₀) down)) in
    let (u, e, sound', balance) =
      destroy_site-ok os obeys (λ q. living os q t₀) s t
        (SiteReached-SiteInv os (λ q. living os q t₀) law inv reached) in
    (u, e, sound', λ q. omega (arith, balance q))
