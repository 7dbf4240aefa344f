-- ===== src/Site/Build.antt =====
-- Which instances the constructor of `Site` makes.
use clearwater_fv_test.Base.{
  ℕ, zero, suc, ◌+◌, ◌≡◌, refl, ap, inl, inr, List, [], ◌∷◌, ◌++◌, some, Bool-cases, Option-cases,
  ◌==◌, if◌then◌else◌, numbered,
}
use clearwater_fv_test.Text.{Text, codes}
use clearwater_fv_test.Text.Integer.{ℤ, pos, to_string}
use clearwater_fv_test.System.{
  Os, Trace, ok, M, ◌>>◌, pure, opened_file, wrote, create_directory, created_directory, Ensures,
  >>=-Ensures,
}
use clearwater_fv_test.Process.{ProcessInstance, memcached, rogers, chronos, new_instance}
use clearwater_fv_test.Process.Config.{chronos_files, new_chronos}
use clearwater_fv_test.Site.{
  Topology, Deployment, find, at, Site, site_ip, rounds, memcached_loop, create_memcached_instances,
  rogers_loop, chronos_dir, memcached_port, rogers_port, chronos_port, shared_conf_file,
  cluster_conf_file, cluster_settings_file,
}
use clearwater_fv_test.Site.Lifecycle.{
  write_sites, write_shared_conf, chronos_loop, create_chronos_instances, empty_site, new_site,
}

-- Round `ii` of each loop.
abbrev pub memcached_at : Site → ℕ → ProcessInstance
memcached_at s ii = new_instance (site_ip s (ii + 1)) memcached_port memcached

abbrev pub rogers_at : Site → ℕ → ProcessInstance
rogers_at s ii = new_instance (site_ip s (ii + 1)) rogers_port (rogers (cluster_settings_file s))

abbrev pub chronos_at : Site → ℕ → ProcessInstance
chronos_at s ii = new_instance (site_ip s (ii + 1)) chronos_port (
    chronos (
      chronos_files (chronos_dir s ++ codes "/instance" ++ to_string (pos (ii + 1)))
        (cluster_conf_file s) (shared_conf_file s)))

-- The site with all its instances, from the site with none.
abbrev pub built : Site → ℤ → ℤ → ℤ → Site
built s num_memcached num_rogers num_chronos = record s {
  memcached_instances = numbered (memcached_at s) 0 (rounds num_memcached);
  rogers_instances = numbered (rogers_at s) 0 (rounds num_rogers);
  chronos_instances = numbered (chronos_at s) 0 (rounds num_chronos);
}

pub memcached_loop-numbered :
    (s : Site) (n ii : ℕ) (t : Trace)
    → (t' : Trace) × (memcached_loop s n ii t ≡ (ok (numbered (memcached_at s) ii n), t'))
unfolding memcached_loop
memcached_loop-numbered s zero ii t = (t, refl)
memcached_loop-numbered s (suc n) ii t =
    let file = cluster_settings_file s in
    let (t', e) = memcached_loop-numbered s n (ii + 1) (
      wrote file (site_ip s (ii + 1) ++ codes ":" ++ to_string memcached_port)
      ∷ wrote file (if ii == 0 then codes "servers=" else codes ",")
      ∷ t) in
    (t', rw e)

pub create_memcached-ok :
    (s : Site) (count : ℤ) (t : Trace)
    → (t' : Trace) × (create_memcached_instances s count t ≡ (
      ok (record s {
        memcached_instances = s.memcached_instances ++ numbered (memcached_at s) 0 (rounds count);
      }),
      t',
    ))
unfolding create_memcached_instances
create_memcached-ok s count t =
    let (t', e) =
      memcached_loop-numbered s (rounds count) 0 (opened_file (cluster_settings_file s) ∷ t) in
    (t', rw e)

pub rogers_loop-numbered : (s : Site) (n ii : ℕ) → rogers_loop s n ii ≡ numbered (rogers_at s) ii n
unfolding rogers_loop
rogers_loop-numbered s zero ii = refl
rogers_loop-numbered s (suc n) ii = ap (◌∷◌ (rogers_at s ii)) (rogers_loop-numbered s n (ii + 1))

write_sites-ok :
    (s : Site) (d : Deployment) (t : Trace) → (t' : Trace) × (write_sites s d t ≡ (ok tt, t'))
unfolding write_sites
write_sites-ok s [] t = (t, refl)
write_sites-ok s (item ∷ rest) t = write_sites-ok s rest _

pub write_shared_conf-ok :
    (s : Site) (d : Deployment) (t : Trace) → (t' : Trace) × (write_shared_conf s d t ≡ (ok tt, t'))
unfolding write_shared_conf
write_shared_conf-ok s [] t = (t, refl)
write_shared_conf-ok s (item ∷ rest) t = write_sites-ok s (item ∷ rest) _

module _ (os : Os) where
  -- A created directory, or an exception and nothing more.
  pub created-then {ℓ κ} :
      {A : Type ℓ} (Q : A → Trace → Type κ) (dir : Text) (m : M A) (t : Trace)
      → Ensures Q (m (created_directory dir ∷ t))
      → Ensures Q ((create_directory os dir >> m) t)
  created-then Q dir m t h = elim (Bool-cases (os.create_directory t dir)) [
    | inl made ↦ rw made h
    | inr not_made ↦ rw not_made tt
  ]

  pub created-Ensures {ℓ κ} :
      {A : Type ℓ} (Q : A → Trace → Type κ) (dir : Text) (m : M A) (t : Trace)
      → ((u : Trace) → Ensures Q (m u))
      → Ensures Q ((create_directory os dir >> m) t)
  created-Ensures Q dir m t h = created-then Q dir m t (h (created_directory dir ∷ t))

  new_chronos-Ensures :
      (ip : Text) (port : ℤ) (dir cluster shared dns_ip : Text) (dns_port : ℤ) (t : Trace)
      → Ensures
          (λ i _. i ≡ new_instance ip port (chronos (chronos_files dir cluster shared)))
          (new_chronos os ip port dir cluster shared dns_ip dns_port t)
  unfolding new_chronos
  new_chronos-Ensures ip port dir cluster shared dns_ip dns_port t =
      created-Ensures _ _ _ t
        (λ u. created-Ensures _ _ _ u (λ v. created-Ensures _ _ _ v (λ w. refl)))

  chronos_loop-Ensures :
      (s : Site) (tplg : Topology) (n ii : ℕ) (t : Trace)
      → Ensures (λ is _. is ≡ numbered (chronos_at s) ii n) (chronos_loop os s tplg n ii t)
  unfolding chronos_loop
  chronos_loop-Ensures s tplg zero ii t = refl
  chronos_loop-Ensures s tplg (suc n) ii t =
      >>=-Ensures (λ i _. i ≡ chronos_at s ii) _ _ _ (new_chronos-Ensures _ _ _ _ _ _ _ _)
        (λ i u e.
          >>=-Ensures (λ is _. is ≡ numbered (chronos_at s) (ii + 1) n) _
            (chronos_loop os s tplg n (ii + 1) u) _ (chronos_loop-Ensures s tplg n (ii + 1) u)
            (λ is v f. cc))

  abbrev with_chronos_instances : Site → ℤ → Site
  with_chronos_instances s count = record s {
    chronos_instances = s.chronos_instances ++ numbered (chronos_at s) 0 (rounds count);
  }

  create_chronos-Ensures :
      (s : Site) (count : ℤ) (t : Trace)
      → Ensures
          (λ s' _. s' ≡ with_chronos_instances s count)
          (create_chronos_instances os s count t)
  unfolding create_chronos_instances at
  create_chronos-Ensures s count t =
      created-Ensures (λ s' _. s' ≡ with_chronos_instances s count) _ _ t
        λ u.
          let (v, e) =
            write_shared_conf-ok s s.deployment_topology (opened_file (shared_conf_file s) ∷ u) in
          simp e (elim (Option-cases (find s.site_name s.deployment_topology)) [
            | inl unknown ↦ simp unknown tt
            | inr (tplg, known) ↦ simp known (
                >>=-Ensures (λ is _. is ≡ numbered (chronos_at s) 0 (rounds count))
                  (λ s' _. s' ≡ with_chronos_instances s count)
                  (chronos_loop os s tplg (rounds count) 0 _)
                  (λ made. pure (record s { chronos_instances = s.chronos_instances ++ made }))
                  (chronos_loop-Ensures s tplg (rounds count) 0 _)
                  (λ is x e'.
                    ap
                      (λ (js : List ProcessInstance). record s {
                        chronos_instances = s.chronos_instances ++ js;
                      })
                      e'))
          ])

  -- A `Site` that the constructor returns has its parameters, the address prefix of its entry in
  -- the deployment, and exactly the given numbers of instances, none of them started, with the
  -- k-th of each kind at address k of the site, the fixed port of its kind and its own files.
  pub new_site-built :
      (index : ℤ) (name dir : Text) (d : Deployment) (num_memcached num_rogers num_chronos : ℤ)
      (tplg : Topology) (t : Trace)
      → find name d ≡ some tplg
      → Ensures
          (λ s _. s ≡ built (empty_site index name dir d tplg) num_memcached num_rogers num_chronos)
          (new_site os index name dir d num_memcached num_rogers num_chronos t)
  unfolding new_site
  new_site-built index name dir d num_memcached num_rogers num_chronos tplg t known =
      let s₀ : Site = empty_site index name dir d tplg in
      rw known (
        created-Ensures (λ s _. s ≡ built s₀ num_memcached num_rogers num_chronos) dir _ t
          λ u.
            let (v, e) = create_memcached-ok s₀ num_memcached u in
            let s₁ : Site = record s₀ {
              memcached_instances = numbered (memcached_at s₀) 0 (rounds num_memcached);
            } in
            let s₂ : Site = record s₁ {
              rogers_instances = numbered (rogers_at s₁) 0 (rounds num_rogers);
            } in
            rw (e, rogers_loop-numbered s₁ (rounds num_rogers) 0)
              (create_chronos-Ensures s₂ num_chronos v))
