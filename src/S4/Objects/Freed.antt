-- ===== src/S4/Objects/Freed.antt =====
-- What the S4 sites of a test allocate is deleted.
use clearwater_fv_test.Base.{
  Option, none, some, ℕ, suc, ◌+◌, ◌≡◌, refl, Bool-cases, inl, inr, List, [], ◌∷◌, ◌++◌, arith,
  text_eq,
}
use clearwater_fv_test.Text.{Text, codes}
use clearwater_fv_test.Site.{Deployment}
use clearwater_fv_test.S4.Objects.{
  Heap, Remotes, Members, delete_each, new_remotes, new_members, delete_members, allocate_site,
  delete_site, Sites, make_sites, delete_site1, tear_down,
}

-- The sum of the weights of addresses, as often as they are listed.
abbrev pub total : (ℕ → ℕ) → List ℕ → ℕ
total weight [] = 0
total weight (p ∷ ps) = weight p + total weight ps

module _ (weight : ℕ → ℕ) where
  total-append : (ps qs : List ℕ) → total weight (ps ++ qs) ≡ total weight ps + total weight qs
  total-append [] qs = omega arith
  total-append (p ∷ ps) qs = omega (arith, total-append ps qs)

  abbrev of_remotes : Remotes → ℕ
  of_remotes r =
      total weight r.remote_stores + total weight r.remote_aor_stores + total weight r.remote_s4s

  abbrev of_members : Members → ℕ
  of_members s =
      weight s.dns_client
      + weight s.http_resolver
      + weight s.astaire_resolver
      + of_remotes s.remotes
      + weight s.store
      + weight s.aor_store
      + weight s.chronos_http_client
      + weight s.chronos_http_connection
      + weight s.chronos_connection
      + weight s.s4
      + weight s.http_stack
      + weight s.s4_handler_config
      + weight s.s4_handler

  -- What is listed in the vectors is what was allocated.
  new_remotes-total :
      (site_name : Text) (d : Deployment) (r : Remotes) (h : Heap)
      → total weight (new_remotes site_name d r h).1.allocated + of_remotes r
        ≡ total weight h.allocated + of_remotes (new_remotes site_name d r h).0
  unfolding new_remotes
  new_remotes-total site_name [] r h = refl
  new_remotes-total site_name ((name, tplg) ∷ rest) r h =
      elim (Bool-cases (text_eq name site_name)) [
        | inl own ↦ rw own (new_remotes-total site_name rest r h)
        | inr other ↦
            let a = h.next in
            let b = suc a in
            let c = suc b in
            let r' : Remotes = record {
              remote_stores = r.remote_stores ++ a ∷ [];
              remote_aor_stores = r.remote_aor_stores ++ b ∷ [];
              remote_s4s = r.remote_s4s ++ c ∷ [];
            } in
            let h' : Heap = record h { next = suc c; allocated = c ∷ b ∷ a ∷ h.allocated } in
            rw other (
              omega (
                arith,
                new_remotes-total site_name rest r' h',
                total-append r.remote_stores (a ∷ []),
                total-append r.remote_aor_stores (b ∷ []),
                total-append r.remote_s4s (c ∷ []),
              ))
      ]

  new_members-total :
      (site_name : Text) (d : Deployment) (h : Heap)
      → total weight (new_members site_name d h).1.allocated
        ≡ total weight h.allocated + of_members (new_members site_name d h).0
  unfolding new_members
  new_members-total site_name d h =
      let a = h.next in
      let h' : Heap = record h {
        next = suc (suc (suc a));
        allocated = suc (suc a) ∷ suc a ∷ a ∷ h.allocated;
      } in
      omega (
        arith,
        new_remotes-total site_name d
            (record { remote_stores = []; remote_aor_stores = []; remote_s4s = [] }) h',
      )

  delete_each-total :
      (ps : List ℕ) (h : Heap)
      → total weight (delete_each ps h).1.freed ≡ total weight ps + total weight h.freed
  unfolding delete_each
  delete_each-total [] h = omega arith
  delete_each-total (p ∷ ps) h =
      omega (arith, delete_each-total ps (record h { freed = p ∷ h.freed }))

  delete_members-total :
      (s : Members) (h : Heap)
      → total weight (delete_members s h).1.freed ≡ of_members s + total weight h.freed
  unfolding delete_members
  delete_members-total s h =
      let h₀ : Heap = record h { freed = s.http_stack ∷ h.freed } in
      let h₁ : Heap = (delete_each s.remotes.remote_stores h₀).1 in
      let h₂ : Heap = (delete_each s.remotes.remote_aor_stores h₁).1 in
      omega (
        arith,
        delete_each-total s.remotes.remote_stores h₀,
        delete_each-total s.remotes.remote_aor_stores h₁,
        delete_each-total s.remotes.remote_s4s h₂,
      )

  abbrev of_site : ℕ × Members → ℕ
  of_site (p, s) = weight p + of_members s

  allocate_site-total :
      (site_name : Text) (d : Deployment) (h : Heap)
      → total weight (allocate_site site_name d h).1.allocated
        ≡ total weight h.allocated + of_site (allocate_site site_name d h).0
  unfolding new_members
  allocate_site-total site_name d h =
      let h' : Heap = record h { next = suc h.next; allocated = h.next ∷ h.allocated } in
      omega (arith, new_members-total site_name d h')

  abbrev of_pointer : Option (ℕ × Members) → ℕ
  of_pointer none = 0
  of_pointer (some site) = of_site site

  delete_site-total :
      (site : Option (ℕ × Members)) (h : Heap)
      → total weight (delete_site site h).1.freed ≡ of_pointer site + total weight h.freed
  unfolding delete_members
  delete_site-total none h = omega arith
  delete_site-total (some (p, s)) h = omega (arith, delete_members-total s h)

  make_sites-total :
      (d : Deployment) (h : Heap)
      → let r = make_sites d h in
        total weight r.1.allocated
        ≡ total weight h.allocated + of_pointer r.0.s4_site1 + of_pointer r.0.s4_site2
  unfolding make_sites
  make_sites-total d h =
      let made = allocate_site (codes "site1") d h in
      omega (
        arith,
        allocate_site-total (codes "site1") d h,
        allocate_site-total (codes "site2") d made.1,
      )

  tear_down-total :
      (f : Sites) (h : Heap)
      → total weight (tear_down f h).1.freed
        ≡ of_pointer f.s4_site1 + of_pointer f.s4_site2 + total weight h.freed
  unfolding tear_down
  tear_down-total f h = omega (
    arith,
    delete_site-total f.s4_site1 h,
    delete_site-total f.s4_site2 (delete_site f.s4_site1 h).1,
  )

  delete_site1-total :
      (f : Sites) (h : Heap)
      → total weight (delete_site1 f h).1.freed ≡ of_pointer f.s4_site1 + total weight h.freed
  unfolding delete_site1
  delete_site1-total f h = delete_site-total f.s4_site1 h

  after_delete_site1-total :
      (f : Sites) (h h' : Heap)
      → total weight (tear_down (delete_site1 f h).0 h').1.freed
        ≡ of_pointer f.s4_site2 + total weight h'.freed
  unfolding delete_site1
  after_delete_site1-total f h h' = omega (arith, tear_down-total (record f { s4_site1 = none }) h')

-- Where nothing throws, in any deployment, and whatever else is allocated and deleted meanwhile:
-- what `TearDown` deletes is exactly what `SetUp` made for the two S4 sites of a test; and in
-- TracerBullet, what the test deletes with its first S4 site and what `TearDown` then deletes are
-- together exactly that. Stated by weights: for any weights of the addresses, these deletions add
-- to the weight of what was deleted what `SetUp` added to the weight of what was allocated.
pub tear_down-frees :
    (deployment_topology : Deployment) (h between later : Heap) (weight : ℕ → ℕ)
    → let (sites, made) = make_sites deployment_topology h in
      let (left, deleted) = delete_site1 sites between in
      (total weight made.allocated + total weight later.freed
        ≡ total weight h.allocated + total weight (tear_down sites later).1.freed)
      × (total weight made.allocated + total weight between.freed + total weight later.freed
          ≡ total weight h.allocated
            + total weight deleted.freed
            + total weight (tear_down left later).1.freed)
tear_down-frees d h between later weight =
    let f = (make_sites d h).0 in
    let made = make_sites-total weight d h in
    (
      omega (arith, made, tear_down-total weight f later),
      omega (
        arith,
        made,
        delete_site1-total weight f between,
        after_delete_site1-total weight f between later,
      ),
    )
