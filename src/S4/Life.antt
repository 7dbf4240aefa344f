-- ===== src/S4/Life.antt =====
-- The processes of the S4 tests, from `SetUpTestCase` to `TearDownTestCase`.
use clearwater_fv_test.Base.{
  ℕ, ◌+◌, ◌≡◌, subst, List, [], ◌∷◌, ◌++◌, none, some, Option-cases, inl, inr, arith, All,
  All-append, Bool,
}
use clearwater_fv_test.Text.{codes}
use clearwater_fv_test.Text.Integer.{ℤ}
use clearwater_fv_test.System.{Os, Trace, ok, ◌>>=◌, pure, ForkReturns, removed_all}
use clearwater_fv_test.Process.Balance.{
  living, held, Balanced, SignalsLive, After, >>=-After, HasPid,
}
use clearwater_fv_test.Process.Destroyed.{Obeys}
use clearwater_fv_test.Process.{ProcessInstance}
use clearwater_fv_test.Site.Addresses.{instances}
use clearwater_fv_test.Site.Live.{held-append}
use clearwater_fv_test.Site.Reached.{SiteOwns, keep_kill}
use clearwater_fv_test.Site.Destroyed.{All-left, All-right}
use clearwater_fv_test.Site.Lifecycle.{kill}
use clearwater_fv_test.Site.{Site}
use clearwater_fv_test.Shared.Made.{of_site, of_dnsmasq}
use clearwater_fv_test.Shared.Released.{
  Still, dnsmasq-Still, site-Still, release_dnsmasq-ok, release_site-ok,
}
use clearwater_fv_test.Shared.{wait_for_dnsmasq}
use clearwater_fv_test.S4.Made.{all_instances, Owns, set_up-Owns}
use clearwater_fv_test.S4.{
  Solution, initial, set_up_test_case, tear_down_test_case, wait_for_second, wait_for_solution,
  kill_site1,
}

module _ (os : Os) where
  -- What the tests do to the processes, by calls that return: the fixture waits for them before
  -- each test, and TracerBullet kills those of the first site.
  pub data SolutionReached (f₀ : Solution) (t₀ : Trace) : Solution → Trace → Type 0 where
    here : SolutionReached f₀ t₀ f₀ t₀
    awaited :
        {f : Solution} {t t' : Trace} {b : Bool}
        → SolutionReached f₀ t₀ f t
        → wait_for_solution os f t ≡ (ok b, t')
        → SolutionReached f₀ t₀ f t'
    site1_killed :
        {f f' : Solution} {t t' : Trace}
        → SolutionReached f₀ t₀ f t
        → kill_site1 os f t ≡ (ok f', t')
        → SolutionReached f₀ t₀ f' t'

  module _ (others : ℤ → ℕ) where
    killed-Owns :
        (f : Solution) (s : Site) (t : Trace)
        → f.site1 ≡ some s
        → SignalsLive os t
        → Owns os others f t
        → After os
            (Owns os others)
            ((do killed ← kill os s; pure (record f { site1 = some killed })) t)
    killed-Owns f s t there sound (balance, ready) =
        let ds = of_dnsmasq f.dnsmasq_instance in
        let rest = of_site f.site2 in
        let ready_sites : All (HasPid os) (instances s ++ rest) =
          rw there at (All-right (HasPid os) ds (of_site f.site1 ++ rest) ready) in
        let ready_dns = All-left (HasPid os) ds (of_site f.site1 ++ rest) ready in
        let before : (q : ℤ)
            → living os q t ≡ others q + held os q ds + held os q rest + held os q (instances s) =
          λ q. omega (
            arith,
            rw there at (balance q),
            held-append os q ds (instances s ++ rest),
            held-append os q (instances s) rest,
          ) in
        >>=-After os (SiteOwns os (λ q. others q + held os q ds + held os q rest)) (Owns os others)
          (kill os s t) _
          (keep_kill os (λ q. others q + held os q ds + held os q rest) s t sound before)
          (λ s' u sound' (balance', ready'). (
            sound',
            (
              λ q. omega (
                arith,
                balance' q,
                held-append os q ds (instances s' ++ rest),
                held-append os q (instances s') rest,
              ),
              All-append (HasPid os) ds (instances s' ++ rest) ready_dns (
                  All-append (HasPid os) (instances s') rest ready'
                    (All-right (HasPid os) (instances s) rest ready_sites)),
            ),
          ))

    kill_site1-Owns :
        (f : Solution) (t : Trace)
        → SignalsLive os t
        → Owns os others f t
        → After os (Owns os others) (kill_site1 os f t)
    unfolding kill_site1
    kill_site1-Owns f t sound owns = elim (Option-cases f.site1) [
      | inl none_there ↦ simp none_there sound
      | inr (s, there) ↦ simp there (killed-Owns f s t there sound owns)
    ]

    module _ (is : List ProcessInstance) where
      wait-Still :
          (f : Solution) (t : Trace)
          → SignalsLive os t
          → Balanced os others is t
          → After os (Still os others is) (wait_for_solution os f t)
      unfolding wait_for_solution wait_for_second
      wait-Still f t sound balance =
          site-Still os others is f.site1 (wait_for_second os f) t
            (λ u s b.
              site-Still os others is f.site2 (wait_for_dnsmasq os f.dnsmasq_instance) u
                (dnsmasq-Still os others is f.dnsmasq_instance) s b)
            sound balance

    SolutionReached-Owns :
        {f₀ : Solution} {t₀ : Trace}
        → SignalsLive os t₀ × Owns os others f₀ t₀
        → {f : Solution} {t : Trace} → SolutionReached f₀ t₀ f t
        → SignalsLive os t × Owns os others f t
    SolutionReached-Owns inv here = inv
    SolutionReached-Owns inv (awaited {f} {t} r e) =
        let (sound, (balance, ready)) = SolutionReached-Owns inv r in
        let (sound', balance') =
          subst (After os (Still os others (all_instances f))) e
            (wait-Still (all_instances f) f t sound balance) in
        (sound', (balance', ready))
    SolutionReached-Owns inv (site1_killed {f} {t = t} r e) =
        let (sound, owns) = SolutionReached-Owns inv r in
        subst (After os (Owns os others)) e (kill_site1-Owns f t sound owns)

  module _ (obeys : Obeys os) where
    tear_down-ok :
        (others : ℤ → ℕ) (f : Solution) (t : Trace)
        → SignalsLive os t
        → Owns os others f t
        → (u : Trace) × (tear_down_test_case os f t
            ≡ (ok (record f { dnsmasq_instance = none; site1 = none; site2 = none }), u))
          × SignalsLive os u
          × Balanced os others [] u
    unfolding tear_down_test_case
    tear_down-ok others f t sound (balance, ready) =
        let ds = of_dnsmasq f.dnsmasq_instance in
        let ss = of_site f.site1 in
        let rs = of_site f.site2 in
        let ready_sites = All-right (HasPid os) ds (ss ++ rs) ready in
        let (t₁, e₁, sound₁, balance₁) =
          release_dnsmasq-ok os obeys (λ q. others q + held os q (ss ++ rs)) f.dnsmasq_instance t
            (All-left (HasPid os) ds (ss ++ rs) ready) sound
            (λ q. omega (arith, balance q, held-append os q ds (ss ++ rs))) in
        let (t₂, e₂, sound₂, balance₂) =
          release_site-ok os obeys (λ q. others q + held os q rs) f.site1 t₁
            (All-left (HasPid os) ss rs ready_sites) sound₁
            (λ q. omega (arith, balance₁ q, held-append os q ss rs)) in
        let (t₃, e₃, sound₃, balance₃) =
          release_site-ok os obeys others f.site2 t₂ (All-right (HasPid os) ss rs ready_sites)
            sound₂ (λ q. omega (arith, balance₂ q)) in
        (removed_all (codes "tmp") ∷ t₃, simp (e₁, e₂, e₃, obeys.removes), sound₃, balance₃)

-- From `SimpleS4SolutionTest::SetUpTestCase`, where that returns, through any waits and kills of
-- the first site that return, to `TearDownTestCase`: where fork() returns no negative number but
-- -1, all processes end of the signal that they are sent and directories can be removed,
-- `TearDownTestCase` returns, with no site and no dnsmasq; the children that are then left are
-- exactly those that were left before the test case; and if every kill() before it went to a child
-- that was left at that time, so did every one after it.
pub solution_leaves_nothing :
    (os : Os)
    → ForkReturns os
    → Obeys os
    → (t₀ : Trace) → SignalsLive os t₀
    → {f₀ : Solution} {t₁ : Trace} → set_up_test_case os initial t₀ ≡ (ok f₀, t₁)
    → {f : Solution} {t : Trace} → SolutionReached os f₀ t₁ f t
    → (u : Trace) × (tear_down_test_case os f t
        ≡ (ok (record f { dnsmasq_instance = none; site1 = none; site2 = none }), u))
      × SignalsLive os u
      × ((q : ℤ) → living os q u ≡ living os q t₀)
solution_leaves_nothing os law obeys t₀ sound {f₀} {t₁} made {f} {t} reached =
    let others : ℤ → ℕ = λ q. living os q t₀ in
    let inv : SignalsLive os t₁ × Owns os others f₀ t₁ =
      subst (After os (Owns os others)) made
        (set_up-Owns os law others t₀ sound (λ q. omega arith)) in
    let (sound', owns) = SolutionReached-Owns os others inv reached in
    let (u, e, sound'', balance) = tear_down-ok os obeys others f t sound' owns in
    (u, e, sound'', λ q. omega (arith, balance q))
