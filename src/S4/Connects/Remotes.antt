-- ===== src/S4/Connects/Remotes.antt =====
-- Every S4 site has a remote S4 object for each other site, and none for itself.
use clearwater_fv_test.Base.{
  true, false, suc, ◌≡◌, ◌≢◌, refl, sym, ap, ◌∙◌, ◌⊎◌, inl, inr, List, [], ◌∷◌, ◌++◌, some, map,
  length, text_eq, text_eq_iff, text_ne, Bool-cases, Distinct, All,
}
use clearwater_fv_test.Text.{Text, codes}
use clearwater_fv_test.System.{Trace, ok}
use clearwater_fv_test.Site.{Topology, Deployment, find, at}
use clearwater_fv_test.S4.Connects.{RemoteS4, S4Site, remote_s4, remote_s4s, new_s4_site}

abbrev pub Listed : RemoteS4 → List RemoteS4 → Type 0
Listed r [] = ⊥
Listed r (x ∷ xs) = (r ≡ x) ⊎ Listed r xs

abbrev pub names : Deployment → List Text
names d = map (λ e. e.0) d

module _ (site_name ip_addr : Text) where
  -- Without an entry of its own, a site has a remote S4 object for each entry.
  remotes-absent :
      (d : Deployment)
      → All (λ n. site_name ≢ n) (names d)
      → length (remote_s4s site_name ip_addr d) ≡ length d
  unfolding remote_s4s
  remotes-absent [] h = refl
  remotes-absent ((n, tplg) ∷ d) h = elim (Bool-cases (text_eq n site_name)) [
    | inl own ↦ absurd (h.0 (sym ((text_eq_iff n site_name).0 own)))
    | inr other ↦ rw other (ap suc (remotes-absent d h.1))
  ]

  pub remotes-length :
      (d : Deployment) (tplg : Topology)
      → Distinct (names d)
      → find site_name d ≡ some tplg
      → suc (length (remote_s4s site_name ip_addr d)) ≡ length d
  unfolding remote_s4s find
  remotes-length [] tplg differ known = cc
  remotes-length ((n, t) ∷ d) tplg differ known = elim (Bool-cases (text_eq n site_name)) [
    | inl own ↦
        let e : n ≡ site_name = (text_eq_iff n site_name).0 own in
        rw own (ap suc (remotes-absent d (rw e at differ.0)))
    | inr other ↦ rw other (ap suc (remotes-length d tplg differ.1 (rw other at known)))
  ]

  pub remotes-Listed :
      (d : Deployment) (name : Text) (tplg : Topology)
      → name ≢ site_name
      → find name d ≡ some tplg
      → Listed (remote_s4 site_name ip_addr (name, tplg)) (remote_s4s site_name ip_addr d)
  unfolding remote_s4s find
  remotes-Listed [] name tplg ne known = cc
  remotes-Listed ((n, t) ∷ d) name tplg ne known = elim (Bool-cases (text_eq n name)) [
    | inl this ↦
        let e : n ≡ name = (text_eq_iff n name).0 this in
        let same : t ≡ tplg = let f = rw this at known in cc in
        let other : text_eq n site_name ≡ false = text_ne n site_name (λ own. ne (sym e ∙ own)) in
        rw (other, e, same) (inl refl)
    | inr later ↦
        let rest = remotes-Listed d name tplg ne (rw later at known) in
        elim (Bool-cases (text_eq n site_name)) [
          | inl own ↦ rw own rest
          | inr other ↦ rw other (inr rest)
        ]
  ]

-- For a deployment whose sites have different names, and two sites of it: the constructor of
-- `S4Site` for the one returns, with one remote S4 object less than there are sites; and there is
-- one for the other, named after both sites, whose store has the other's Rogers domain and the
-- first address of the one.
pub new_s4_site-Listed :
    (site_name name : Text) (d : Deployment) (tplg other : Topology) (t : Trace)
    → Distinct (names d)
    → find site_name d ≡ some tplg
    → name ≢ site_name
    → find name d ≡ some other
    → (s : S4Site) × (new_s4_site site_name d t ≡ (ok s, t))
      × (suc (length s.remote_s4s) ≡ length d)
      × Listed
          (record {
            name = site_name ++ codes "-remote-s4-to-" ++ name;
            store = record {
              domain = other.rogers_domain;
              third = true;
              ip_addr = tplg.ip_addr_prefix ++ codes "1";
            };
          })
          s.remote_s4s
unfolding new_s4_site at
new_s4_site-Listed site_name name d tplg other t differ known ne there =
    let ip : Text = tplg.ip_addr_prefix ++ codes "1" in
    rw known (
      _,
      refl,
      remotes-length site_name ip d tplg differ known,
      remotes-Listed site_name ip d name other ne there,
    )
