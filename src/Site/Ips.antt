-- ===== src/Site/Ips.antt =====
-- The lists of addresses that a site gives to the resolver of the tests.
use clearwater_fv_test.Base.{◌+◌, ◌≡◌, List, map-numbered, some, numbered}
use clearwater_fv_test.Text.{Text}
use clearwater_fv_test.Text.Integer.{ℤ}
use clearwater_fv_test.System.{Os, Trace, Ensures, Ensures-mono}
use clearwater_fv_test.Process.{new_instance}
use clearwater_fv_test.Site.{Topology, Deployment, find, Site, site_ip, rounds}
use clearwater_fv_test.Site.Lifecycle.{empty_site, new_site, get_rogers_ips, get_chronos_ips}
use clearwater_fv_test.Site.Build.{built, rogers_at, chronos_at, new_site-built}

-- The addresses 1 to `count` of a site.
abbrev pub first_ips : Site → ℤ → List Text
first_ips s count = numbered (λ k. site_ip s (k + 1)) 0 (rounds count)

abbrev pub HasIps : Site → ℤ → ℤ → Type 0
HasIps s r c = (get_rogers_ips s ≡ first_ips s r) × (get_chronos_ips s ≡ first_ips s c)

pub built-HasIps : (s₀ : Site) (m r c : ℤ) → HasIps (built s₀ m r c) r c
unfolding get_rogers_ips get_chronos_ips new_instance site_ip
built-HasIps s₀ m r c = (
  map-numbered (λ i. i.ip) (rogers_at s₀) 0 (rounds r),
  map-numbered (λ i. i.ip) (chronos_at s₀) 0 (rounds c),
)

-- For a deployment with an entry of the site's name, and a `Site` that the constructor returns:
-- `get_rogers_ips` and `get_chronos_ips` give the site's addresses from 1 up to the number of
-- Rogers and of Chronos instances, in order.
pub new_site-HasIps :
    (os : Os) (index : ℤ) (name dir : Text) (d : Deployment) (tplg : Topology) (m r c : ℤ)
    (t : Trace)
    → find name d ≡ some tplg
    → Ensures (λ s _. HasIps s r c) (new_site os index name dir d m r c t)
new_site-HasIps os index name dir d tplg m r c t known =
    let s₀ : Site = empty_site index name dir d tplg in
    Ensures-mono (λ s _. s ≡ built s₀ m r c) (λ s _. HasIps s r c) _
      (new_site-built os index name dir d m r c tplg t known)
      (λ s u e. rw e (built-HasIps s₀ m r c))
