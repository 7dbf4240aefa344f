-- ===== src/Site/Files/Whole.antt =====
-- All files of a site, when its constructor returns.
use clearwater_fv_test.Base.{
  ℕ, ◌<◌, ◌≡◌, refl, sym, ap, ◌∙◌, true, false, [], ◌∷◌, ◌++◌, append_assoc, append-nil, arith,
  some, text_eq, text_eq_iff, numbered, map,
}
use clearwater_fv_test.Text.{Text, codes}
use clearwater_fv_test.Text.Integer.{ℤ}
use clearwater_fv_test.System.{
  Os, Trace, Outcome, ok, wrote, opened_file, created_directory, contents, Ensures, >>=-Ensures,
  Ensures-mono, Ensures-both,
}
use clearwater_fv_test.Site.{
  Site, Topology, Deployment, find, at, site_ip, rounds, site_line, shared_conf_file,
  cluster_conf_file, cluster_settings_file, chronos_dir, create_memcached_instances,
  create_rogers_instances,
}
use clearwater_fv_test.Site.Build.{
  memcached_at, rogers_at, built, created-then, new_site-built, create_memcached-ok,
  rogers_loop-numbered,
}
use clearwater_fv_test.Site.Lifecycle.{
  write_sites, write_shared_conf, chronos_loop, create_chronos_instances, empty_site, new_site,
}
use clearwater_fv_test.Site.Settings.{host_port, servers_line, create_memcached-contents}
use clearwater_fv_test.Site.Files.Paths.{
  local_conf_file, cluster_conf-shared, cluster_conf-settings, shared-settings, local-settings,
  local-shared,
}
use clearwater_fv_test.Site.Files.Chronos.{
  concat, ini, site_keys, site_lines-key_lines, local_text-ini, node_line, node_lines, local_conf,
  Written, chronos_loop-Written,
}

-- The file that names all sites of a deployment.
abbrev pub shared_conf : Text → Deployment → Text
shared_conf name [] = []
shared_conf name (item ∷ rest) = ini ((codes "sites", site_keys name (item ∷ rest)) ∷ [])

-- The same, line by line.
abbrev shared_text : Text → Deployment → Text
shared_text name [] = []
shared_text name (item ∷ rest) = codes "[sites]\n" ++ concat (map (site_line name) (item ∷ rest))

shared_text-conf : (name : Text) (d : Deployment) → shared_text name d ≡ shared_conf name d
shared_text-conf name [] = refl
shared_text-conf name (item ∷ rest) =
    ap (λ (x : Text). codes "[sites]\n" ++ x) (site_lines-key_lines name (item ∷ rest))

text_eq_refl : (xs : Text) → text_eq xs xs ≡ true
text_eq_refl xs = (text_eq_iff xs xs).1 refl

-- A text is added to one file, and the others are left alone.
abbrev Added : Text → Text → Trace → Trace → Type 0
Added file text t u =
    (contents file u ≡ contents file t ++ text)
    × ((p : Text) → text_eq file p ≡ false → contents p u ≡ contents p t)

write_sites-Added :
    (s : Site) (d : Deployment) (t : Trace)
    → (u : Trace) × (write_sites s d t ≡ (ok tt, u))
      × Added (shared_conf_file s) (concat (map (site_line s.site_name) d)) t u
unfolding write_sites
write_sites-Added s [] t = (t, refl, (sym (append-nil _), λ p other. refl))
write_sites-Added s (item ∷ rest) t =
    let file : Text = shared_conf_file s in
    let line : Text = site_line s.site_name item in
    let (u, e, (text, others)) = write_sites-Added s rest (wrote file line ∷ t) in
    (
      u,
      e,
      (
        (simp (text_eq_refl file) at text) ∙ append_assoc (contents file t) line _,
        λ p other. others p other ∙ simp other,
      ),
    )

write_shared_conf-Added :
    (s : Site) (d : Deployment) (t : Trace)
    → (u : Trace) × (write_shared_conf s d t ≡ (ok tt, u))
      × Added (shared_conf_file s) (shared_text s.site_name d) t u
unfolding write_shared_conf
write_shared_conf-Added s [] t = (t, refl, (sym (append-nil _), λ p other. refl))
write_shared_conf-Added s (item ∷ rest) t =
    let file : Text = shared_conf_file s in
    let (u, e, (text, others)) =
      write_sites-Added s (item ∷ rest) (wrote file (codes "[sites]\n") ∷ t) in
    (
      u,
      e,
      (
        (simp (text_eq_refl file) at text) ∙ append_assoc (contents file t) (codes "[sites]\n") _,
        λ p other. others p other ∙ simp other,
      ),
    )

-- What the processes of a site read: the files that all of them share, and those of the first
-- `count` Chronos instances.
pub record HasFiles (os : Os) (tplg : Topology) (count : ℕ) (s : Site) (u : Trace) : Type 0 where
  pub settings :
      contents (cluster_settings_file s) u ≡ servers_line (map host_port s.memcached_instances)
  pub shared : contents (shared_conf_file s) u ≡ shared_conf s.site_name s.deployment_topology
  pub cluster :
      contents (cluster_conf_file s) u
      ≡ codes "[cluster]\n" ++ concat (map node_line s.chronos_instances)
  pub locals : (k : ℕ) → k < count → contents (local_conf_file s k) u ≡ ini (local_conf os s tplg k)

module _ (os : Os) where
  -- The files that `create_chronos_instances` writes, and no other.
  record ChronosFiles (s : Site) (tplg : Topology) (count : ℕ) (t u : Trace) : Type 0 where
    shared : contents (shared_conf_file s) u ≡ shared_conf s.site_name s.deployment_topology
    cluster : contents (cluster_conf_file s) u ≡ codes "[cluster]\n" ++ node_lines s 0 count
    locals : (k : ℕ) → k < count → contents (local_conf_file s k) u ≡ ini (local_conf os s tplg k)
    settings : contents (cluster_settings_file s) u ≡ contents (cluster_settings_file s) t

  abbrev before_loop : Site → Trace → Trace
  before_loop s u =
      wrote (cluster_conf_file s) (codes "[cluster]\n") ∷ opened_file (cluster_conf_file s) ∷ u

  loop-ChronosFiles :
      (s : Site) (tplg : Topology) (count : ℕ) (t u v : Trace)
      → Added
          (shared_conf_file s)
          (shared_text s.site_name s.deployment_topology)
          (opened_file (shared_conf_file s) ∷ created_directory (chronos_dir s) ∷ t)
          u
      → Written os s tplg 0 count (before_loop s u) v
      → ChronosFiles s tplg count t v
  loop-ChronosFiles s tplg count t u v (written, others) w = record {
    shared =
        w.rest (shared_conf_file s) (cluster_conf-shared s) (λ k _. local-shared s k)
        ∙ (simp (cluster_conf-shared s))
        ∙ (simp (text_eq_refl (shared_conf_file s)) at written)
        ∙ shared_text-conf s.site_name s.deployment_topology;
    cluster = w.cluster ∙ ap (λ (x : Text). x ++ node_lines s 0 count) (opened s u);
    locals = λ k below. w.locals k (omega arith) (omega arith) ∙ local_text-ini os s tplg k;
    settings =
        w.rest (cluster_settings_file s) (cluster_conf-settings s) (λ k _. local-settings s k)
        ∙ (simp (cluster_conf-settings s))
        ∙ others (cluster_settings_file s) (shared-settings s)
        ∙ simp (shared-settings s);
  }
    where
      opened :
          (s : Site) (u : Trace)
          → contents (cluster_conf_file s) (before_loop s u) ≡ codes "[cluster]\n"
      opened s u = simp (text_eq_refl (cluster_conf_file s))

  create_chronos-ChronosFiles :
      (s : Site) (tplg : Topology) (count : ℤ) (t : Trace)
      → find s.site_name s.deployment_topology ≡ some tplg
      → Ensures
          (λ s' u. ChronosFiles s tplg (rounds count) t u)
          (create_chronos_instances os s count t)
  unfolding create_chronos_instances at
  create_chronos-ChronosFiles s tplg count t known =
      created-then os (λ s' u. ChronosFiles s tplg (rounds count) t u) _ _ t
        (let (u, e, added) =
            write_shared_conf-Added s s.deployment_topology
              (opened_file (shared_conf_file s) ∷ created_directory (chronos_dir s) ∷ t) in
          simp (e, known)
            (>>=-Ensures (λ is v. Written os s tplg 0 (rounds count) (before_loop s u) v)
              (λ s' v. ChronosFiles s tplg (rounds count) t v)
              (chronos_loop os s tplg (rounds count) 0 (before_loop s u)) _
              (chronos_loop-Written os s tplg (rounds count) 0 (before_loop s u))
              (λ is v w. loop-ChronosFiles s tplg (rounds count) t u v added w)))

  module _ (index : ℤ) (name dir : Text) (d : Deployment) (m r c : ℤ) (tplg : Topology) (t : Trace)
      (known : find name d ≡ some tplg) where
    s₀ : Site
    s₀ = empty_site index name dir d tplg

    abbrev with_memcached : Site
    unfolding s₀
    with_memcached = record s₀ { memcached_instances = numbered (memcached_at s₀) 0 (rounds m) }

    abbrev with_rogers : Site
    with_rogers = record with_memcached {
      rogers_instances = numbered (rogers_at with_memcached) 0 (rounds r);
    }

    files-built :
        (v u : Trace)
        → create_memcached_instances s₀ m (created_directory dir ∷ t) ≡ (ok with_memcached, v)
        → ChronosFiles with_rogers tplg (rounds c) v u
        → HasFiles os tplg (rounds c) (built s₀ m r c) u
    unfolding s₀ site_ip
    files-built v u e w = record {
      settings =
          w.settings
          ∙ ap (λ (o : Outcome Site × Trace). contents (cluster_settings_file s₀) o.1) (sym e)
          ∙ create_memcached-contents s₀ m (created_directory dir ∷ t);
      shared = w.shared;
      cluster = w.cluster;
      locals = w.locals;
    }

    new_site-built_files :
        Ensures
          (λ s u. HasFiles os tplg (rounds c) (built s₀ m r c) u)
          (new_site os index name dir d m r c t)
    unfolding new_site create_rogers_instances s₀
    new_site-built_files = rw known (
        created-then os (λ s u. HasFiles os tplg (rounds c) (built s₀ m r c) u) dir _ t
          (let (v, e) = create_memcached-ok s₀ m (created_directory dir ∷ t) in
            rw (e, rogers_loop-numbered with_memcached (rounds r) 0)
              (Ensures-mono (λ s u. ChronosFiles with_rogers tplg (rounds c) v u)
                (λ s u. HasFiles os tplg (rounds c) (built s₀ m r c) u) _
                (create_chronos-ChronosFiles with_rogers tplg c v known)
                (λ s u w. files-built v u e w))))

  -- If the deployment has an entry of the site's name: when the constructor returns, the cluster
  -- settings name exactly the Memcached instances; the shared configuration of Chronos is empty if
  -- no site is known, and has else a section with `local_site = <name>` for the site itself and
  -- `remote_site = <name>=<Chronos domain>` for each other site; its cluster configuration names
  -- exactly the Chronos instances; and the configuration of each of these has its own address, port
  -- 7253 and log directory, the log level, and the resolver of the site's entry, each under its key.
  -- No file overwrites another.
  pub new_site-HasFiles :
      (index : ℤ) (name dir : Text) (d : Deployment) (m r c : ℤ) (tplg : Topology) (t : Trace)
      → find name d ≡ some tplg
      → Ensures (HasFiles os tplg (rounds c)) (new_site os index name dir d m r c t)
  unfolding s₀
  new_site-HasFiles index name dir d m r c tplg t known =
      Ensures-both (λ s _. s ≡ built (empty_site index name dir d tplg) m r c)
        (λ s u. HasFiles os tplg (rounds c) (built (empty_site index name dir d tplg) m r c) u)
        (HasFiles os tplg (rounds c)) _ (new_site-built os index name dir d m r c tplg t known)
        (new_site-built_files index name dir d m r c tplg t known) (λ s u e files. rw e files)
