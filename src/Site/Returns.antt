-- ===== src/Site/Returns.antt =====
-- The constructor of `Site` returns, where its directories can be made.
use clearwater_fv_test.Base.{
  ℕ, zero, suc, ◌+◌, ◌≡◌, refl, ap, ◌∙◌, subst, ◌∷◌, ◌++◌, some, true, numbered,
}
use clearwater_fv_test.Text.{Text, codes}
use clearwater_fv_test.Text.Integer.{ℤ, pos, to_string}
use clearwater_fv_test.System.{
  Os, Trace, Outcome, ok, Ensures, opened_file, created_directory, wrote,
}
use clearwater_fv_test.Process.Config.{new_chronos}
use clearwater_fv_test.Site.{
  Topology, Deployment, find, at, Site, site_ip, rounds, create_rogers_instances, rogers_loop,
  chronos_dir, chronos_port, shared_conf_file, cluster_conf_file,
}
use clearwater_fv_test.Site.Lifecycle.{empty_site, chronos_loop, create_chronos_instances, new_site}
use clearwater_fv_test.Site.Build.{
  built, memcached_at, new_site-built, write_shared_conf-ok, create_memcached-ok,
}

abbrev pub Returns {ℓ} : {A : Type ℓ} → Outcome A × Trace → Type ℓ
Returns {A = A} r = (a : A) × (t : Trace) × (r ≡ (ok a, t))

returned {ℓ} :
    {A : Type ℓ} (P : A → Trace → Type ℓ) (r : Outcome A × Trace) {a : A} {t : Trace}
    → r ≡ (ok a, t)
    → Ensures P r
    → P a t
returned P r e h = subst (Ensures P) e h

module _ (os : Os) where
  -- Every directory that is asked for is made.
  abbrev pub MakesDirectories : Type 0
  MakesDirectories = (t : Trace) (dir : Text) → os.create_directory t dir ≡ true

  module _ (made : MakesDirectories) where
    new_chronos-Returns :
        (ip : Text) (port : ℤ) (dir cluster shared dns_ip : Text) (dns_port : ℤ) (t : Trace)
        → Returns (new_chronos os ip port dir cluster shared dns_ip dns_port t)
    unfolding new_chronos
    new_chronos-Returns ip port dir cluster shared dns_ip dns_port t = simp made (_, _, refl)

    chronos_loop-Returns :
        (s : Site) (tplg : Topology) (n ii : ℕ) (t : Trace)
        → Returns (chronos_loop os s tplg n ii t)
    unfolding chronos_loop
    chronos_loop-Returns s tplg zero ii t = (_, _, refl)
    chronos_loop-Returns s tplg (suc n) ii t =
        let (i, u, e) =
          new_chronos-Returns (site_ip s (ii + 1)) chronos_port
            (chronos_dir s ++ codes "/instance" ++ to_string (pos (ii + 1))) (cluster_conf_file s)
            (shared_conf_file s) tplg.dns_ip tplg.dns_port
            (wrote (cluster_conf_file s) (
                codes "node = "
                ++ site_ip s (ii + 1)
                ++ codes ":"
                ++ to_string chronos_port
                ++ codes "\n")
              ∷ t) in
        let (is, v, f) = chronos_loop-Returns s tplg n (ii + 1) u in (i ∷ is, v, simp (e, f))

    create_chronos-Returns :
        (s : Site) (tplg : Topology) (count : ℤ) (t : Trace)
        → find s.site_name s.deployment_topology ≡ some tplg
        → Returns (create_chronos_instances os s count t)
    unfolding create_chronos_instances at
    create_chronos-Returns s tplg count t known =
        let (u, e) =
          write_shared_conf-ok s s.deployment_topology
            (opened_file (shared_conf_file s) ∷ created_directory (chronos_dir s) ∷ t) in
        let (is, v, f) = chronos_loop-Returns s tplg (rounds count) 0 (
          wrote (cluster_conf_file s) (codes "[cluster]\n")
          ∷ opened_file (cluster_conf_file s)
          ∷ u) in
        (record s { chronos_instances = s.chronos_instances ++ is }, v, simp (made, e, known, f))

    new_site-Returns :
        (index : ℤ) (name dir : Text) (d : Deployment) (m r c : ℤ) (tplg : Topology) (t : Trace)
        → find name d ≡ some tplg
        → Returns (new_site os index name dir d m r c t)
    unfolding new_site create_rogers_instances
    new_site-Returns index name dir d m r c tplg t known =
        let s₀ : Site = empty_site index name dir d tplg in
        let (u, e) = create_memcached-ok s₀ m (created_directory dir ∷ t) in
        let s₁ : Site = record s₀ {
          memcached_instances = numbered (memcached_at s₀) 0 (rounds m);
        } in
        let s₂ : Site = record s₁ { rogers_instances = rogers_loop s₁ (rounds r) 0 } in
        let (s, v, f) = create_chronos-Returns s₂ tplg c u known in
        (s, v, rw (known, made t dir, e) f)

    pub new_site-returns :
        (index : ℤ) (name dir : Text) (d : Deployment) (num_memcached num_rogers num_chronos : ℤ)
        (tplg : Topology) (t : Trace)
        → find name d ≡ some tplg
        → (t' : Trace) × (new_site os index name dir d num_memcached num_rogers num_chronos t ≡ (
          ok (built (empty_site index name dir d tplg) num_memcached num_rogers num_chronos),
          t',
        ))
    new_site-returns index name dir d m r c tplg t known =
        let (s, t', e) = new_site-Returns index name dir d m r c tplg t known in
        (
          t',
          e
              ∙ ap (λ (x : Site). (ok x, t'))
                  (returned (λ x _. x ≡ built (empty_site index name dir d tplg) m r c) _ e
                    (new_site-built os index name dir d m r c tplg t known)),
        )
