-- ===== src/S4/Connects/Resolved.antt =====
-- Where the S4 sites of a test connect to, by the names that dnsmasq serves.
use clearwater_fv_test.Base.{◌≡◌, refl, true, List, [], ◌∷◌, ◌++◌, some, map}
use clearwater_fv_test.Text.Decimal.{decimal}
use clearwater_fv_test.Text.{Text, codes}
use clearwater_fv_test.Text.Integer.{pos, to_string}
use clearwater_fv_test.System.{Os, Trace, ok, contents, Yields}
use clearwater_fv_test.Process.Healthy.{IsHealthy, healthy-StaysParent}
use clearwater_fv_test.Process.Config.{cfgfile_name}
use clearwater_fv_test.Process.Resolver.{read_hosts, addresses}
use clearwater_fv_test.Process.Dnsmasq.{answers}
use clearwater_fv_test.Site.{Site, find, at}
use clearwater_fv_test.Shared.Waits.{wait_for_instances-true, wait_for_dnsmasq-true}
use clearwater_fv_test.S4.{Solution, initial, set_up_test_case, wait_for_second, wait_for_solution}
use clearwater_fv_test.S4.Serves.{deployment, two_ips, served, set_up-deployed}
use clearwater_fv_test.S4.Connects.{S4Site, remote_s4s, new_s4_site, set_up}

-- A site at the first of its two addresses: its store and its Chronos server are at its own
-- addresses, Chronos calls back where the HTTP stack listens, and the site has one remote S4
-- object, whose store is at the addresses of the other site.
abbrev pub Connected : Text → Text → List (Text × Text) → S4Site → Type 0
Connected own other hosts s =
    (s.http_stack ≡ (own ++ codes "1", pos 8088))
    × (s.chronos_callback ≡ s.http_stack.0 ++ b':' ∷ to_string s.http_stack.1)
    × (addresses s.store.domain hosts ≡ two_ips own)
    × ((chronos : Text) × (s.chronos_server ≡ chronos ++ codes ":7253")
        × (addresses chronos hosts ≡ two_ips own))
    × (map (λ r. addresses r.store.domain hosts) s.remote_s4s ≡ two_ips other ∷ [])

made-Connected :
    (t : Trace)
    → (s₁ : S4Site) × (s₂ : S4Site) × (new_s4_site (codes "site1") deployment t ≡ (ok s₁, t))
      × (new_s4_site (codes "site2") deployment t ≡ (ok s₂, t))
      × Connected (codes "127.0.1.") (codes "127.0.2.") (answers served) s₁
      × Connected (codes "127.0.2.") (codes "127.0.1.") (answers served) s₂
unfolding new_s4_site remote_s4s at find to_string decimal
made-Connected t = (
  _,
  _,
  refl,
  refl,
  (refl, refl, refl, (codes "chronos.site1", refl, refl), refl),
  (refl, refl, refl, (codes "chronos.site2", refl, refl), refl),
)

module _ (os : Os) (healthy : IsHealthy os) where
  wait_for_solution-true :
      (f : Solution) (s₁ s₂ : Site) (t : Trace)
      → f.site1 ≡ some s₁
      → f.site2 ≡ some s₂
      → Yields (λ b u. b ≡ true) (wait_for_solution os f t)
  unfolding wait_for_solution wait_for_second
  wait_for_solution-true f s₁ s₂ t there₁ there₂ =
      let (b₁, t₁, e₁, up₁) = wait_for_instances-true os healthy s₁ t in
      let (b₂, t₂, e₂, up₂) = wait_for_instances-true os healthy s₂ t₁ in
      let (b₃, t₃, e₃, up₃) = wait_for_dnsmasq-true os healthy f.dnsmasq_instance t₂ in
      (b₃, t₃, simp (there₁, there₂, e₁, up₁, e₂, up₂, e₃), up₃)

  -- Where no call of the operating system fails and directories can be made: `SetUpTestCase` and
  -- then `SetUp` of the S4 tests return, the expectation of `SetUp` holds, and by the names and
  -- addresses that dnsmasq was given, the store and the Chronos server of each S4 site are at the
  -- two addresses of that site, and its only remote store is at the two addresses of the other. The
  -- HTTP stack of each site listens where Chronos is told to call back, at the site's first address.
  pub set_up-Connected :
      ((t : Trace) (dir : Text) → os.create_directory t dir ≡ true)
      → (t : Trace)
      → (f : Solution) × (u : Trace) × (set_up_test_case os initial t ≡ (ok f, u))
        × (s₁ : S4Site) × (s₂ : S4Site) × (v : Trace) × (set_up os f u ≡ (ok (s₁, s₂, 0), v))
        × (let hosts = read_hosts (contents (cfgfile_name (codes "127.0.0.1") (pos 5353)) u) in
            Connected (codes "127.0.1.") (codes "127.0.2.") hosts s₁
            × Connected (codes "127.0.2.") (codes "127.0.1.") hosts s₂)
  unfolding set_up wait_for_solution-true made-Connected
  set_up-Connected makes t =
      let (f, u, e, deployed, (site₁, site₂, there₁, there₂), hosts) =
        set_up-deployed os (healthy-StaysParent os healthy) makes t in
      let (s₁, s₂, made₁, made₂, connected₁, connected₂) = made-Connected u in
      let (b, v, waited, up) = wait_for_solution-true f site₁ site₂ u there₁ there₂ in
      (f, u, e, s₁, s₂, v, simp (deployed, waited, up), rw hosts (connected₁, connected₂))
