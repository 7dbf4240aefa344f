-- ===== src/S4/Serves.antt =====
-- What dnsmasq serves, after `SimpleS4SolutionTest::SetUpTestCase`.
use clearwater_fv_test.Base.{◌≡◌, refl, ap, ◌∙◌, true, List, [], ◌∷◌, ◌++◌, none, some, arith, All}
use clearwater_fv_test.Text.{Text, codes}
use clearwater_fv_test.Text.Integer.{ℤ, pos, to_string}
use clearwater_fv_test.Text.Decimal.{decimal}
use clearwater_fv_test.System.{Os, Trace, ok, contents, created_directory}
use clearwater_fv_test.Map.{less, emplace, assign}
use clearwater_fv_test.Process.Spec.{StaysParent}
use clearwater_fv_test.Process.Config.{cfgfile_name}
use clearwater_fv_test.Process.Resolver.{ArePlain, read_hosts, new_dnsmasq-read_hosts}
use clearwater_fv_test.Process.Dnsmasq.{answers}
use clearwater_fv_test.Process.{new_instance}
use clearwater_fv_test.Site.{
  Site, Topology, Deployment, find, at, new_topology, with_chronos, with_rogers, site_ip,
}
use clearwater_fv_test.Site.Build.{built}
use clearwater_fv_test.Site.Returns.{new_site-returns}
use clearwater_fv_test.Process.Started.{start-ip}
use clearwater_fv_test.Site.Started.{start-ips}
use clearwater_fv_test.Site.Lifecycle.{new_site, empty_site, start, get_rogers_ips, get_chronos_ips}
use clearwater_fv_test.Shared.{release_site, release_dnsmasq}
use clearwater_fv_test.S4.{
  Solution, initial, add_topologies, set_up_base, create_and_start_sites, create_and_start_dns,
  a_records, set_up_test_case,
}

-- The entries of the deployment.
abbrev pub topology : Text → Text → Topology
topology prefix name = record {
  ip_addr_prefix = prefix;
  chronos_domain = codes "chronos." ++ name;
  rogers_domain = codes "rogers." ++ name;
  dns_ip = codes "127.0.0.1";
  dns_port = pos 5353;
}

abbrev pub deployment : Deployment
deployment =
    (codes "site1", topology (codes "127.0.1.") (codes "site1"))
    ∷ (codes "site2", topology (codes "127.0.2.") (codes "site2"))
    ∷ []

deployment_lem : add_topologies [] ≡ deployment
unfolding add_topologies emplace new_topology with_chronos with_rogers less
deployment_lem = refl

-- The addresses of the two Rogers, or Chronos, processes of a site.
abbrev pub two_ips : Text → List Text
two_ips prefix = (prefix ++ codes "1") ∷ (prefix ++ codes "2") ∷ []

-- What dnsmasq is to serve.
abbrev pub served : List (Text × List Text)
served =
    (codes "chronos.site1", two_ips (codes "127.0.1."))
    ∷ (codes "chronos.site2", two_ips (codes "127.0.2."))
    ∷ (codes "rogers.site1", two_ips (codes "127.0.1."))
    ∷ (codes "rogers.site2", two_ips (codes "127.0.2."))
    ∷ []

module _ (os : Os) (parent : StaysParent os)
    (makes : (t : Trace) (dir : Text) → os.create_directory t dir ≡ true) where
  -- A site that is made and started.
  made_site :
      (index : ℤ) (name dir : Text) (tplg : Topology) (t : Trace)
      → find name deployment ≡ some tplg
      → (s : Site) × (u : Trace) × (s' : Site) × (v : Trace) × (new_site os index name dir
            deployment
            (pos 2)
            (pos 2)
            (pos 2)
            t
          ≡ (ok s, u))
        × (start os s u ≡ (ok s', v))
        × (get_rogers_ips s' ≡ two_ips tplg.ip_addr_prefix)
        × (get_chronos_ips s' ≡ two_ips tplg.ip_addr_prefix)
  unfolding get_rogers_ips get_chronos_ips new_instance site_ip to_string decimal
  made_site index name dir tplg t known =
      let (u, e) =
        new_site-returns os makes index name dir deployment (pos 2) (pos 2) (pos 2) tplg t known in
      let (s', v, f, rogers, chronos) =
        start-ips os parent
          (built (empty_site index name dir deployment tplg) (pos 2) (pos 2) (pos 2)) u in
      (_, u, s', v, e, f, rogers, chronos)

  -- The sites, their addresses, and that nothing else has changed.
  created :
      (f : Solution) (t : Trace)
      → f.deployment_topology ≡ deployment
      → f.site1 ≡ none
      → f.site2 ≡ none
      → (s₁ s₂ : Site) × (u : Trace) × (create_and_start_sites os f t
          ≡ (ok (record f { site1 = some s₁; site2 = some s₂ }), u))
        × (get_rogers_ips s₁ ≡ two_ips (codes "127.0.1."))
        × (get_chronos_ips s₁ ≡ two_ips (codes "127.0.1."))
        × (get_rogers_ips s₂ ≡ two_ips (codes "127.0.2."))
        × (get_chronos_ips s₂ ≡ two_ips (codes "127.0.2."))
  unfolding create_and_start_sites release_site find
  created f t here no_site1 no_site2 =
      let (s, u, s₁, v, e, g, r₁, c₁) =
        made_site (pos 1) (codes "site1") (codes "tmp/site1")
          (topology (codes "127.0.1.") (codes "site1")) t refl in
      let (s', u', s₂, v', e', g', r₂, c₂) =
        made_site (pos 2) (codes "site2") (codes "tmp/site2")
          (topology (codes "127.0.2.") (codes "site2")) v refl in
      (s₁, s₂, v', simp (here, no_site1, no_site2, e, g, e', g'), r₁, c₁, r₂, c₂)

  a_records-served :
      (f : Solution) (s₁ s₂ : Site) (t : Trace)
      → f.deployment_topology ≡ deployment
      → f.site1 ≡ some s₁
      → f.site2 ≡ some s₂
      → get_rogers_ips s₁ ≡ two_ips (codes "127.0.1.")
      → get_chronos_ips s₁ ≡ two_ips (codes "127.0.1.")
      → get_rogers_ips s₂ ≡ two_ips (codes "127.0.2.")
      → get_chronos_ips s₂ ≡ two_ips (codes "127.0.2.")
      → a_records os f t ≡ (ok served, t)
  unfolding a_records assign less at find
  a_records-served f s₁ s₂ t here there₁ there₂ r₁ c₁ r₂ c₂ =
      simp (here, there₁, there₂, r₁, c₁, r₂, c₂)

  served-ArePlain : All ArePlain (answers served)
  served-ArePlain = omega arith

  -- What `SimpleS4SolutionTest::SetUpTestCase` leaves.
  pub set_up-deployed :
      (t : Trace)
      → (f : Solution) × (u : Trace) × (set_up_test_case os initial t ≡ (ok f, u))
        × (f.deployment_topology ≡ deployment)
        × ((s₁ : Site) × (s₂ : Site) × (f.site1 ≡ some s₁) × (f.site2 ≡ some s₂))
        × (read_hosts (contents (cfgfile_name (codes "127.0.0.1") (pos 5353)) u) ≡ answers served)
  unfolding set_up_test_case set_up_base create_and_start_dns release_dnsmasq
  set_up-deployed t =
      let dir : Trace = created_directory (codes "tmp") ∷ t in
      let f₁ : Solution = record initial { deployment_topology = add_topologies [] } in
      let (s₁, s₂, u, e, r₁, c₁, r₂, c₂) = created f₁ dir deployment_lem refl refl in
      let f₂ : Solution = record f₁ { site1 = some s₁; site2 = some s₂ } in
      let records = a_records-served f₂ s₁ s₂ u deployment_lem refl refl r₁ c₁ r₂ c₂ in
      let (i, v, g, text) =
        new_dnsmasq-read_hosts (codes "127.0.0.1") (pos 5353) served u (omega arith)
          served-ArePlain in
      let (b, j, w, h, same, files) = start-ip os parent i v in
      (
        record f₂ { dnsmasq_instance = some j },
        w,
        simp (makes, e, records, g, h),
        deployment_lem,
        (s₁, s₂, refl, refl),
        ap read_hosts (files (cfgfile_name (codes "127.0.0.1") (pos 5353))) ∙ text,
      )

  -- Where directories can be made and the program stays the parent of its forks:
  -- `SimpleS4SolutionTest::SetUpTestCase` returns, and who then reads the configuration of dnsmasq
  -- finds, for each of the four domain names of the two sites, exactly the addresses 1 and 2 of the
  -- site that the name belongs to.
  pub set_up-serves :
      (t : Trace)
      → (f : Solution) × (u : Trace) × (set_up_test_case os initial t ≡ (ok f, u))
        × (read_hosts (contents (cfgfile_name (codes "127.0.0.1") (pos 5353)) u) ≡ answers served)
  set_up-serves t = let (f, u, e, deployed, sites, hosts) = set_up-deployed t in (f, u, e, hosts)
