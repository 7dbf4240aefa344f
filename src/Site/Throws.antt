-- ===== src/Site/Throws.antt =====
-- The exceptions of the constructor of `Site`.
use clearwater_fv_test.Base.{
  ℕ, zero, suc, ◌+◌, ◌≡◌, ◌↔◌, ap, inl, inr, Bool-cases, none, some, numbered, ◌∷◌, Option-cases,
}
use clearwater_fv_test.Text.{Text, codes}
use clearwater_fv_test.Text.Integer.{ℤ}
use clearwater_fv_test.System.{
  Os, Trace, Outcome, ok, raised, terminated, undefined, replaced, out_of_range, filesystem_error,
  M, ◌>>◌, continue, wrote, opened_file, created_directory, create_directory,
}
use clearwater_fv_test.Process.Config.{new_chronos}
use clearwater_fv_test.Site.{
  Site, Topology, Deployment, find, at, rounds, create_rogers_instances, rogers_loop, chronos_dir,
  shared_conf_file, cluster_conf_file,
}
use clearwater_fv_test.Site.Build.{memcached_at, create_memcached-ok, write_shared_conf-ok}
use clearwater_fv_test.Site.Addresses.{new_site-unknown}
use clearwater_fv_test.Site.Lifecycle.{chronos_loop, create_chronos_instances, empty_site, new_site}

-- A value, or the exception of a directory that could not be made.
abbrev OnlyFiles {ℓ} : {A : Type ℓ} → Outcome A × Trace → Type 0
OnlyFiles (ok a, t) = Unit
OnlyFiles (raised filesystem_error, t) = Unit
OnlyFiles (_, t) = ⊥

module _ {ℓ κ} {A : Type ℓ} {B : Type κ} where
  >>=-OnlyFiles :
      (r : Outcome A × Trace) (f : A → M B)
      → OnlyFiles r
      → ((a : A) (t : Trace) → OnlyFiles (f a t))
      → OnlyFiles (continue r f)
  >>=-OnlyFiles (ok a, t) f h k = k a t
  >>=-OnlyFiles (raised filesystem_error, t) f h k = tt
  >>=-OnlyFiles (raised out_of_range, t) f h k = absurd h
  >>=-OnlyFiles (terminated, t) f h k = absurd h
  >>=-OnlyFiles (undefined, t) f h k = absurd h
  >>=-OnlyFiles (replaced, t) f h k = absurd h

not_out_of_range {ℓ} :
    {A : Type ℓ} (r : Outcome A × Trace) → OnlyFiles r → ¬ r.0 ≡ raised out_of_range
not_out_of_range (ok a, t) h e = cc
not_out_of_range (raised filesystem_error, t) h e = cc
not_out_of_range (raised out_of_range, t) h e = absurd h
not_out_of_range (terminated, t) h e = absurd h
not_out_of_range (undefined, t) h e = absurd h
not_out_of_range (replaced, t) h e = absurd h

module _ (os : Os) where
  created-OnlyFiles {ℓ} :
      {A : Type ℓ} (dir : Text) (m : M A) (t : Trace)
      → OnlyFiles (m (created_directory dir ∷ t))
      → OnlyFiles ((create_directory os dir >> m) t)
  created-OnlyFiles dir m t h = elim (Bool-cases (os.create_directory t dir)) [
    | inl made ↦ rw made h
    | inr not_made ↦ rw not_made tt
  ]

  new_chronos-OnlyFiles :
      (ip : Text) (port : ℤ) (dir cluster shared dns_ip : Text) (dns_port : ℤ) (t : Trace)
      → OnlyFiles (new_chronos os ip port dir cluster shared dns_ip dns_port t)
  unfolding new_chronos
  new_chronos-OnlyFiles ip port dir cluster shared dns_ip dns_port t =
      created-OnlyFiles _ _ t (created-OnlyFiles _ _ _ (created-OnlyFiles _ _ _ tt))

  chronos_loop-OnlyFiles :
      (s : Site) (tplg : Topology) (n ii : ℕ) (t : Trace)
      → OnlyFiles (chronos_loop os s tplg n ii t)
  unfolding chronos_loop
  chronos_loop-OnlyFiles s tplg zero ii t = tt
  chronos_loop-OnlyFiles s tplg (suc n) ii t =
      >>=-OnlyFiles (new_chronos os _ _ _ _ _ _ _ _) _ (new_chronos-OnlyFiles _ _ _ _ _ _ _ _)
        (λ i u.
          >>=-OnlyFiles (chronos_loop os s tplg n (ii + 1) u) _
            (chronos_loop-OnlyFiles s tplg n (ii + 1) u) (λ is v. tt))

  create_chronos-OnlyFiles :
      (s : Site) (tplg : Topology) (count : ℤ) (t : Trace)
      → find s.site_name s.deployment_topology ≡ some tplg
      → OnlyFiles (create_chronos_instances os s count t)
  unfolding create_chronos_instances at
  create_chronos-OnlyFiles s tplg count t known = created-OnlyFiles _ _ t (
      let (u, e) =
        write_shared_conf-ok s s.deployment_topology
          (opened_file (shared_conf_file s) ∷ created_directory (chronos_dir s) ∷ t) in
      simp (e, known)
        (>>=-OnlyFiles (chronos_loop os s tplg (rounds count) 0 _) _
          (chronos_loop-OnlyFiles s tplg (rounds count) 0 (
            wrote (cluster_conf_file s) (codes "[cluster]\n")
            ∷ opened_file (cluster_conf_file s)
            ∷ u))
          (λ is v. tt)))

  new_site-OnlyFiles :
      (index : ℤ) (name dir : Text) (d : Deployment) (m r c : ℤ) (tplg : Topology) (t : Trace)
      → find name d ≡ some tplg
      → OnlyFiles (new_site os index name dir d m r c t)
  unfolding new_site create_rogers_instances
  new_site-OnlyFiles index name dir d m r c tplg t known =
      let s₀ : Site = empty_site index name dir d tplg in
      let s₁ : Site = record s₀ { memcached_instances = numbered (memcached_at s₀) 0 (rounds m) } in
      let s₂ : Site = record s₁ { rogers_instances = rogers_loop s₁ (rounds r) 0 } in
      rw known (
        created-OnlyFiles _ _ t (
          let (u, e) = create_memcached-ok s₀ m (created_directory dir ∷ t) in
          rw e (create_chronos-OnlyFiles s₂ tplg c u known)))

  -- However the environment answers, the constructor throws out_of_range exactly where the
  -- deployment has no entry of the site's name; and exactly there it throws it with no system call
  -- made before.
  pub new_site-throws_iff :
      (index : ℤ) (name dir : Text) (d : Deployment) (m r c : ℤ) (t : Trace)
      → (((new_site os index name dir d m r c t).0 ≡ raised out_of_range) ↔ (find name d ≡ none))
        × ((new_site os index name dir d m r c t ≡ (raised out_of_range, t)) ↔ (find name d ≡ none))
  new_site-throws_iff index name dir d m r c t = elim (Option-cases (find name d)) [
    | inl unknown ↦
        let e = new_site-unknown os index name dir d m r c t unknown in
        ((λ h. unknown, λ h. ap (λ x. x.0) e), (λ h. unknown, λ h. e))
    | inr (tplg, known) ↦
        let no = not_out_of_range _ (new_site-OnlyFiles index name dir d m r c tplg t known) in
        ((λ h. absurd (no h), λ h. cc), (λ h. absurd (no (ap (λ x. x.0) h)), λ h. cc))
  ]
