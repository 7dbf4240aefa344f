-- ===== src/Site/Quiet.antt =====
-- The constructor of a site makes files and directories only: no process is made or signalled.
use clearwater_fv_test.Base.{
  ℕ, zero, suc, ◌+◌, inl, inr, [], ◌∷◌, ◌++◌, Option, none, some, Bool-cases,
}
use clearwater_fv_test.Text.{Text, codes}
use clearwater_fv_test.Text.Integer.{ℤ, pos, to_string}
use clearwater_fv_test.System.{Event, Os, M, create_directory, opened_file, wrote}
use clearwater_fv_test.Process.Quiet.{IsSilent, continue-Grows, Grows, same, more, Grows-trans}
use clearwater_fv_test.Process.Config.{new_chronos, chronos_files}
use clearwater_fv_test.Process.{ProcessInstance}
use clearwater_fv_test.Site.{
  Site, Topology, Deployment, at, find, at_or_raise, rounds, site_ip, memcached_loop,
  create_memcached_instances, create_rogers_instances, rogers_loop, chronos_dir, chronos_port,
  shared_conf_file, cluster_conf_file,
}
use clearwater_fv_test.Site.Lifecycle.{
  write_sites, write_shared_conf, chronos_loop, create_chronos_instances, empty_site, new_site,
}

at-IsSilent : (d : Deployment) (name : Text) → IsSilent (at d name)
unfolding at
at-IsSilent d name t = case (find name d)
  where
    case : (o : Option Topology) → Grows t (at_or_raise o t).1
    case none = same
    case (some tplg) = same

pub create_directory-IsSilent : (os : Os) (dir : Text) → IsSilent (create_directory os dir)
create_directory-IsSilent os dir t = elim (Bool-cases (os.create_directory t dir)) [
  | inl made ↦ rw made (more _ tt same)
  | inr thrown ↦ rw thrown (more _ tt same)
]

memcached_loop-IsSilent : (s : Site) (n ii : ℕ) → IsSilent (memcached_loop s n ii)
unfolding memcached_loop
memcached_loop-IsSilent s zero ii t = same
memcached_loop-IsSilent s (suc n) ii t =
    continue-Grows t _ _
      (Grows-trans (more _ tt (more _ tt same)) (memcached_loop-IsSilent s n (ii + 1) _))
      (λ rest u. same)

create_memcached-IsSilent : (s : Site) (count : ℤ) → IsSilent (create_memcached_instances s count)
unfolding create_memcached_instances
create_memcached-IsSilent s count t =
    continue-Grows t _ _
      (Grows-trans (more _ tt same) (memcached_loop-IsSilent s (rounds count) 0 _)) (λ made u. same)

write_sites-IsSilent : (s : Site) (d : Deployment) → IsSilent (write_sites s d)
unfolding write_sites
write_sites-IsSilent s [] t = same
write_sites-IsSilent s (item ∷ rest) t =
    Grows-trans (more _ tt same) (write_sites-IsSilent s rest _)

write_shared_conf-IsSilent : (s : Site) (d : Deployment) → IsSilent (write_shared_conf s d)
unfolding write_shared_conf
write_shared_conf-IsSilent s [] t = same
write_shared_conf-IsSilent s (item ∷ rest) t =
    Grows-trans (more _ tt same) (write_sites-IsSilent s (item ∷ rest) _)

module _ (os : Os) where
  new_chronos-IsSilent :
      (ip : Text) (port : ℤ) (dir cluster shared dns_ip : Text) (dns_port : ℤ)
      → IsSilent (new_chronos os ip port dir cluster shared dns_ip dns_port)
  unfolding new_chronos chronos_files
  new_chronos-IsSilent ip port dir cluster shared dns_ip dns_port t =
      continue-Grows t (create_directory os dir t) _ (create_directory-IsSilent os dir t) (λ a t₁.
        continue-Grows t₁ (create_directory os (dir ++ codes "/log") t₁) _
          (create_directory-IsSilent os (dir ++ codes "/log") t₁)
          (λ b t₂.
            continue-Grows t₂ (create_directory os (dir ++ codes "/conf") t₂) _
              (create_directory-IsSilent os (dir ++ codes "/conf") t₂)
              (λ c t₃. more _ tt (more _ tt same))))

  chronos_loop-IsSilent :
      (s : Site) (tplg : Topology) (n ii : ℕ) → IsSilent (chronos_loop os s tplg n ii)
  unfolding chronos_loop
  chronos_loop-IsSilent s tplg zero ii t = same
  chronos_loop-IsSilent s tplg (suc n) ii t =
      let ip = site_ip s (ii + 1) in
      let dir = chronos_dir s ++ codes "/instance" ++ to_string (pos (ii + 1)) in
      let node : Event =
        wrote (cluster_conf_file s)
          (codes "node = " ++ ip ++ codes ":" ++ to_string chronos_port ++ codes "\n") in
      let one : M ProcessInstance =
        new_chronos os ip chronos_port dir (cluster_conf_file s) (shared_conf_file s) tplg.dns_ip
          tplg.dns_port in
      continue-Grows t (one (node ∷ t)) _
        (Grows-trans (more node tt same) (
          new_chronos-IsSilent ip chronos_port dir (cluster_conf_file s) (shared_conf_file s)
            tplg.dns_ip tplg.dns_port (node ∷ t)))
        (λ inst u.
          continue-Grows u (chronos_loop os s tplg n (ii + 1) u) _
            (chronos_loop-IsSilent s tplg n (ii + 1) u) (λ rest v. same))

  create_chronos-IsSilent : (s : Site) (count : ℤ) → IsSilent (create_chronos_instances os s count)
  unfolding create_chronos_instances
  create_chronos-IsSilent s count t =
      let d = s.deployment_topology in
      let shared : Event = opened_file (shared_conf_file s) in
      let cluster : Event = opened_file (cluster_conf_file s) in
      let header : Event = wrote (cluster_conf_file s) (codes "[cluster]\n") in
      continue-Grows t (create_directory os (chronos_dir s) t) _
        (create_directory-IsSilent os (chronos_dir s) t)
        (λ a t₁.
          continue-Grows t₁ (write_shared_conf s d (shared ∷ t₁)) _
            (Grows-trans (more shared tt same) (write_shared_conf-IsSilent s d (shared ∷ t₁)))
            (λ c t₂.
              continue-Grows t₂ (at d s.site_name (header ∷ cluster ∷ t₂)) _
                (Grows-trans (more header tt (more cluster tt same))
                  (at-IsSilent d s.site_name (header ∷ cluster ∷ t₂)))
                (λ tplg t₃.
                  continue-Grows t₃ (chronos_loop os s tplg (rounds count) 0 t₃) _
                    (chronos_loop-IsSilent s tplg (rounds count) 0 t₃) (λ made t₄. same))))

  pub new_site-IsSilent :
      (index : ℤ) (name dir : Text) (d : Deployment) (m r c : ℤ)
      → IsSilent (new_site os index name dir d m r c)
  unfolding new_site create_rogers_instances
  new_site-IsSilent index name dir d m r c t =
      continue-Grows t (at d name t) _ (at-IsSilent d name t) (λ tplg t₁.
        continue-Grows t₁ (create_directory os dir t₁) _ (create_directory-IsSilent os dir t₁)
          (λ a t₂.
            continue-Grows t₂ (create_memcached_instances (empty_site index name dir d tplg) m t₂) _
              (create_memcached-IsSilent (empty_site index name dir d tplg) m t₂)
              (λ s₁ t₃.
                create_chronos-IsSilent
                  (record s₁ {
                    rogers_instances = s₁.rogers_instances ++ rogers_loop s₁ (rounds r) 0;
                  })
                  c t₃)))
