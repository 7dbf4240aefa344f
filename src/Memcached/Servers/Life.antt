-- ===== src/Memcached/Servers/Life.antt =====
-- The processes of the memcached tests, from `SetUpTestCase` to `TearDownTestCase`.
use clearwater_fv_test.Base.{
  ℕ, ◌+◌, ◌≡◌, refl, subst, List, [], ◌∷◌, ◌++◌, some, Bool-cases, inl, inr, arith, All, All-append,
  Bool,
}
use clearwater_fv_test.Text.{codes}
use clearwater_fv_test.Text.Integer.{ℤ, pos}
use clearwater_fv_test.System.{Os, Trace, ok, ForkReturns, removed_all, Ensures}
use clearwater_fv_test.Process.Balance.{
  living, held, Balanced, SignalsLive, After, >>=-After, HasPid,
}
use clearwater_fv_test.Process.Destroyed.{Obeys}
use clearwater_fv_test.Process.{ProcessInstance}
use clearwater_fv_test.Site.Addresses.{instances}
use clearwater_fv_test.Site.Live.{held-append}
use clearwater_fv_test.Site.Reached.{SiteOwns}
use clearwater_fv_test.Site.Destroyed.{All-left, All-right}
use clearwater_fv_test.Site.Lifecycle.{get_rogers_ips}
use clearwater_fv_test.Site.{Site}
use clearwater_fv_test.Shared.Made.{of_site, of_dnsmasq, started_site, started_dnsmasq}
use clearwater_fv_test.Shared.Released.{
  Still, dnsmasq-Still, site-Still, release_dnsmasq-ok, release_site-ok,
}
use clearwater_fv_test.Shared.{release_site, release_dnsmasq, wait_for_dnsmasq}
use clearwater_fv_test.Memcached.Scenario.{
  Scenario, num_memcached_instances, num_rogers_instances, trigger_failure, fix_failure,
}
use clearwater_fv_test.Memcached.Servers.Last.{Left}
use clearwater_fv_test.Memcached.Servers.Failure.{IsRepairable, trigger-Left, fix-Left}
use clearwater_fv_test.Memcached.Servers.Repair.{trigger-IsRepairable}
use clearwater_fv_test.Memcached.Servers.{
  Servers, no_servers, database_topology, create_and_start_databases, create_and_start_dns,
  set_up_databases, set_up_scenario, wait_for_servers, tear_down_databases,
}

-- All instances, in the order in which they are destroyed.
abbrev pub all_servers : Servers → List ProcessInstance
all_servers v = of_dnsmasq v.dnsmasq_instance ++ of_site v.dbs

-- The fixture with another state of its databases.
abbrev pub with_databases : Servers → Site → Servers
with_databases v s = record v { dbs = some s }

module _ (os : Os) where
  abbrev pub Owns : (ℤ → ℕ) → Servers → Trace → Type 0
  Owns others v t = Balanced os others (all_servers v) t × All (HasPid os) (all_servers v)

  -- What the tests of a scenario do to the processes, by calls that return: the fixture waits for
  -- them before each test; a test triggers a failure, and repairs it, which starts an instance only
  -- if the expectations on the failure held.
  pub data ServersReached (c : Scenario) (v₀ : Servers) (t₀ : Trace)
      : Servers → Trace → Type 0 where
    here : ServersReached c v₀ t₀ v₀ t₀
    awaited :
        {v : Servers} {t t' : Trace} {b : Bool}
        → ServersReached c v₀ t₀ v t
        → wait_for_servers os v t ≡ (ok b, t')
        → ServersReached c v₀ t₀ v t'
    failed :
        {v : Servers} {s s₁ : Site} {n : ℕ} {t t₁ : Trace}
        → ServersReached c v₀ t₀ v t
        → v.dbs ≡ some s
        → trigger_failure os c s t ≡ (ok (n, s₁), t₁)
        → ServersReached c v₀ t₀ (with_databases v s₁) t₁
    failed_and_fixed :
        {v : Servers} {s s₁ s₂ : Site} {n : ℕ} {t t₁ t₂ : Trace}
        → ServersReached c v₀ t₀ v t
        → v.dbs ≡ some s
        → trigger_failure os c s t ≡ (ok (0, s₁), t₁)
        → fix_failure os c s₁ t₁ ≡ (ok (n, s₂), t₂)
        → ServersReached c v₀ t₀ (with_databases v s₂) t₂

  module _ (law : ForkReturns os) (others : ℤ → ℕ) where
    set_up-Owns :
        (m r : ℤ) (t : Trace)
        → SignalsLive os t
        → Balanced os others [] t
        → After os (Owns others) (set_up_databases os m r no_servers t)
    unfolding set_up_databases create_and_start_databases create_and_start_dns release_site
        release_dnsmasq
    set_up-Owns m r t sound balance = elim (Bool-cases (os.create_directory t (codes "tmp"))) [
      | inr thrown ↦ rw thrown sound
      | inl made ↦ rw made (
          >>=-After os
            (λ v u. (s : Site) × (v ≡ with_databases no_servers s) × SiteOwns os others s u)
            (Owns others) (create_and_start_databases os m r no_servers _) _
            (started_site os law others
              (λ v u. (s : Site) × (v ≡ with_databases no_servers s) × SiteOwns os others s u)
              (pos 1) (codes "site1") (codes "tmp/site1") database_topology m r (pos 0) _ _ sound
              balance (λ s u sound₁ owns. (sound₁, (s, refl, owns))))
            (λ v u sound₁ (s, e, (balance₁, ready₁)). simp e (
              started_dnsmasq os law (λ q. others q + held os q (instances s)) (Owns others)
                (codes "127.0.0.1") (pos 5353) ((codes "rogers.local", get_rogers_ips s) ∷ []) _ u
                sound₁ (λ q. omega (arith, balance₁ q))
                (λ b i w sound₂ (balance₂, ready₂).
                  (sound₂, (λ q. omega (arith, balance₂ q), (ready₂, ready₁)))))))
    ]

  -- The databases are the fixture's.
  site-Owns :
      (others : ℤ → ℕ) (v : Servers) (s : Site) (t : Trace)
      → v.dbs ≡ some s
      → Owns others v t
      → SiteOwns os (λ q. others q + held os q (of_dnsmasq v.dnsmasq_instance)) s t
  site-Owns others v s t there (balance, ready) =
      let ds = of_dnsmasq v.dnsmasq_instance in
      (
        λ q. omega (arith, rw there at (balance q), held-append os q ds (instances s)),
        All-right (HasPid os) ds (instances s) (rw there at ready),
      )

  put_back :
      (others : ℤ → ℕ) (v : Servers) (s : Site) (t u : Trace)
      → All (HasPid os) (all_servers v)
      → SiteOwns os (λ q. others q + held os q (of_dnsmasq v.dnsmasq_instance)) s u
      → Owns others (with_databases v s) u
  put_back others v s t u ready (balance', ready') =
      let ds = of_dnsmasq v.dnsmasq_instance in
      (
        λ q. omega (arith, balance' q, held-append os q ds (instances s)),
        All-append (HasPid os) ds (instances s) (All-left (HasPid os) ds (of_site v.dbs) ready)
            ready',
      )

  wait-Still :
      (others : ℤ → ℕ) (v : Servers) (t : Trace)
      → SignalsLive os t
      → Balanced os others (all_servers v) t
      → After os (Still os others (all_servers v)) (wait_for_servers os v t)
  unfolding wait_for_servers
  wait-Still others v t sound balance =
      site-Still os others (all_servers v) v.dbs (wait_for_dnsmasq os v.dnsmasq_instance) t
        (dnsmasq-Still os others (all_servers v) v.dnsmasq_instance) sound balance

  module _ (law : ForkReturns os) (others : ℤ → ℕ) where
    -- All children but those of the databases.
    abbrev rest_of : Servers → ℤ → ℕ
    rest_of v q = others q + held os q (of_dnsmasq v.dnsmasq_instance)

    triggered :
        (c : Scenario) (v : Servers) (s s₁ : Site) {n : ℕ} (t t₁ : Trace)
        → v.dbs ≡ some s
        → SignalsLive os t
        → Owns others v t
        → trigger_failure os c s t ≡ (ok (n, s₁), t₁)
        → SignalsLive os t₁ × SiteOwns os (rest_of v) s₁ t₁
    triggered c v s s₁ t t₁ there sound owns e =
        subst (After os (Left os (rest_of v))) e
          (trigger-Left os law (rest_of v) c s t sound (site-Owns others v s t there owns))

    ServersReached-Owns :
        (c : Scenario) {v₀ : Servers} {t₀ : Trace}
        → SignalsLive os t₀ × Owns others v₀ t₀
        → {v : Servers} {t : Trace} → ServersReached c v₀ t₀ v t
        → SignalsLive os t × Owns others v t
    ServersReached-Owns c inv here = inv
    ServersReached-Owns c inv (awaited {v} {t} r e) =
        let (sound, (balance, ready)) = ServersReached-Owns c inv r in
        let (sound', balance') =
          subst (After os (Still os others (all_servers v))) e
            (wait-Still others v t sound balance) in
        (sound', (balance', ready))
    ServersReached-Owns c inv (failed {v} {s} {s₁} {t = t} {t₁} r there e) =
        let (sound, owns) = ServersReached-Owns c inv r in
        let (sound₁, owns₁) = triggered c v s s₁ t t₁ there sound owns e in
        (sound₁, put_back others v s₁ t t₁ owns.1 owns₁)
    ServersReached-Owns c inv (failed_and_fixed {v} {s} {s₁} {s₂} {t = t} {t₁} {t₂} r there e f) =
        let (sound, owns) = ServersReached-Owns c inv r in
        let (sound₁, owns₁) = triggered c v s s₁ t t₁ there sound owns e in
        let repairable =
          subst (Ensures (λ (n, s') u. n ≡ 0 → IsRepairable os c s')) e
            (trigger-IsRepairable os c s t) refl in
        let (sound₂, owns₂) =
          subst (After os (Left os (rest_of v))) f
            (fix-Left os law (rest_of v) c s₁ t₁ repairable sound₁ owns₁) in
        (sound₂, put_back others v s₂ t t₂ owns.1 owns₂)

  module _ (obeys : Obeys os) where
    tear_down-ok :
        (others : ℤ → ℕ) (v : Servers) (t : Trace)
        → SignalsLive os t
        → Owns others v t
        → (u : Trace) × (tear_down_databases os v t ≡ (ok no_servers, u))
          × SignalsLive os u
          × Balanced os others [] u
    unfolding tear_down_databases
    tear_down-ok others v t sound (balance, ready) =
        let ds = of_dnsmasq v.dnsmasq_instance in
        let ss = of_site v.dbs in
        let (t₁, e₁, sound₁, balance₁) =
          release_dnsmasq-ok os obeys (λ q. others q + held os q ss) v.dnsmasq_instance t
            (All-left (HasPid os) ds ss ready) sound
            (λ q. omega (arith, balance q, held-append os q ds ss)) in
        let (t₂, e₂, sound₂, balance₂) =
          release_site-ok os obeys others v.dbs t₁ (All-right (HasPid os) ds ss ready) sound₁
            (λ q. omega (arith, balance₁ q)) in
        (removed_all (codes "tmp") ∷ t₂, simp (e₁, e₂, obeys.removes), sound₂, balance₂)

-- In every scenario: from `SetUpTestCase`, where that returns, through any waits, failures and
-- repairs that return (an instance is repaired only where no expectation on its failure failed), to
-- `TearDownTestCase`: where fork() returns no negative number but -1, all processes end of the
-- signal that they are sent and directories can be removed, `TearDownTestCase` returns, with no
-- site and no dnsmasq; the children that are then left are exactly those that were left before the
-- test case; and if every kill() before it went to a child that was left at that time, so did every
-- one after it.
pub databases_leave_nothing :
    (os : Os)
    → ForkReturns os
    → Obeys os
    → (c : Scenario) (t₀ : Trace) → SignalsLive os t₀
    → {v₀ : Servers} {t₁ : Trace} → set_up_scenario os c no_servers t₀ ≡ (ok v₀, t₁)
    → {v : Servers} {t : Trace} → ServersReached os c v₀ t₁ v t
    → (u : Trace) × (tear_down_databases os v t ≡ (ok no_servers, u))
      × SignalsLive os u
      × ((q : ℤ) → living os q u ≡ living os q t₀)
unfolding set_up_scenario
databases_leave_nothing os law obeys c t₀ sound {v₀} {t₁} made {v} {t} reached =
    let others : ℤ → ℕ = λ q. living os q t₀ in
    let inv : SignalsLive os t₁ × Owns os others v₀ t₁ = subst (After os (Owns os others)) made (
      set_up-Owns os law others (num_memcached_instances c) (num_rogers_instances c) t₀ sound
        (λ q. omega arith)) in
    let (sound', owns) = ServersReached-Owns os law others c inv reached in
    let (u, e, sound'', balance) = tear_down-ok os obeys others v t sound' owns in
    (u, e, sound'', λ q. omega (arith, balance q))
