-- ===== src/Tests/Connects.antt =====
-- The theorems on the S4 sites, at the deployment of the tests.
use clearwater_fv_test.Base.{suc, ◌≡◌, refl, ◌++◌, ◌+◌, ◌*◌, ◌∷◌, [], some, differ, length}
use clearwater_fv_test.Text.{codes}
use clearwater_fv_test.Text.Integer.{pos}
use clearwater_fv_test.System.{Trace, ok, contents}
use clearwater_fv_test.Process.Config.{cfgfile_name}
use clearwater_fv_test.Process.Resolver.{read_hosts}
use clearwater_fv_test.Site.{Topology, find}
use clearwater_fv_test.S4.{Solution, initial, set_up_test_case}
use clearwater_fv_test.S4.Serves.{deployment, topology}
use clearwater_fv_test.S4.Connects.{S4Site, remote_s4, new_s4_site, set_up}
use clearwater_fv_test.S4.Connects.Remotes.{Listed, new_s4_site-Listed}
use clearwater_fv_test.S4.Connects.Resolved.{Connected, set_up-Connected}
use clearwater_fv_test.S4.Objects.{Heap, make_sites, delete_site1, tear_down}
use clearwater_fv_test.S4.Objects.Freed.{total, tear_down-frees}
use clearwater_fv_test.Tests.Processes.{calm-IsHealthy}
use clearwater_fv_test.Tests.{calm_os}

set_up-Connected_example :
    (f : Solution) × (u : Trace) × (set_up_test_case calm_os initial [] ≡ (ok f, u))
    × (s₁ : S4Site) × (s₂ : S4Site) × (v : Trace) × (set_up calm_os f u ≡ (ok (s₁, s₂, 0), v))
    × (let hosts = read_hosts (contents (cfgfile_name (codes "127.0.0.1") (pos 5353)) u) in
        Connected (codes "127.0.1.") (codes "127.0.2.") hosts s₁
        × Connected (codes "127.0.2.") (codes "127.0.1.") hosts s₂)
set_up-Connected_example = set_up-Connected calm_os calm-IsHealthy (λ t dir. refl) []

abbrev first_site : Topology
first_site = topology (codes "127.0.1.") (codes "site1")

abbrev second_site : Topology
second_site = topology (codes "127.0.2.") (codes "site2")

first_known : find (codes "site1") deployment ≡ some first_site
unfolding find
first_known = refl

second_known : find (codes "site2") deployment ≡ some second_site
unfolding find
second_known = refl

new_s4_site-Listed_example :
    (s : S4Site) × (new_s4_site (codes "site1") deployment [] ≡ (ok s, []))
    × (suc (length s.remote_s4s) ≡ 2)
    × Listed
        (remote_s4 (codes "site1") (codes "127.0.1." ++ codes "1") (codes "site2", second_site))
        s.remote_s4s
new_s4_site-Listed_example =
    new_s4_site-Listed (codes "site1") (codes "site2") deployment first_site second_site []
      (((λ e. differ _ _ e refl), tt), (tt, tt)) first_known (λ e. differ _ _ e refl) second_known

abbrev some_heap : Heap
some_heap = record { next = 5; allocated = 4 ∷ []; freed = [] }

abbrev later_heap : Heap
later_heap = record { next = 90; allocated = 89 ∷ 4 ∷ []; freed = 89 ∷ [] }

tear_down-frees_example :
    let (sites, made) = make_sites deployment some_heap in
    let (left, deleted) = delete_site1 sites some_heap in
    (total (λ p. p * p) made.allocated + total (λ p. p * p) later_heap.freed
      ≡ total (λ p. p * p) some_heap.allocated
        + total (λ p. p * p) (tear_down sites later_heap).1.freed)
    × (total (λ p. p * p) made.allocated
          + total (λ p. p * p) some_heap.freed
          + total (λ p. p * p) later_heap.freed
        ≡ total (λ p. p * p) some_heap.allocated
          + total (λ p. p * p) deleted.freed
          + total (λ p. p * p) (tear_down left later_heap).1.freed)
tear_down-frees_example = tear_down-frees deployment some_heap some_heap later_heap (λ p. p * p)
