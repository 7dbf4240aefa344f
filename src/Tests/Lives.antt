-- ===== src/Tests/Lives.antt =====
-- The files of a concrete site, and its life up to its destructor.
use clearwater_fv_test.Base.{◌↔◌, suc, length, ◌+◌, ◌≡◌, refl, arith, true, [], ◌∷◌, map, some}
use clearwater_fv_test.Text.Integer.{ℤ, pos, negsuc}
use clearwater_fv_test.System.{Os, forked, Trace, ok, Ensures, contents}
use clearwater_fv_test.Process.{new_instance}
use clearwater_fv_test.Process.Balance.{living, SignalsLive}
use clearwater_fv_test.Process.{start_instance}
use clearwater_fv_test.Site.{Site, rounds, cluster_settings_file}
use clearwater_fv_test.Site.Lifecycle.{new_site, destroy_site, start}
use clearwater_fv_test.Site.Addresses.{endpoint}
use clearwater_fv_test.Site.Files.Whole.{HasFiles, new_site-HasFiles}
use clearwater_fv_test.Site.Files.Read.{read_servers, new_site-read_servers}
use clearwater_fv_test.Process.Child.{forks}
use clearwater_fv_test.Site.Forked.{start-in_children}
use clearwater_fv_test.Site.Loop.{Pass, for_each_instance-Pass}
use clearwater_fv_test.Site.Lifecycle.{dropping, for_each, for_each_instance}
use clearwater_fv_test.Site.Addresses.{instances}
use clearwater_fv_test.Site.Reached.{here, started, SiteInv, SiteReached-SiteInv}
use clearwater_fv_test.Site.Build.{built, memcached_at}
use clearwater_fv_test.Site.Returns.{new_site-returns}
use clearwater_fv_test.Site.Destroyed.{site_leaves_nothing}
use clearwater_fv_test.Tests.Processes.{calm_law, calm_obeys}
use clearwater_fv_test.Tests.Sites.{local, deployment, name, dir, site, known}
use clearwater_fv_test.Tests.{calm_os, child_os}

new_site-HasFiles_example :
    Ensures
      (HasFiles calm_os local (rounds (pos 2)))
      (new_site calm_os (pos 1) name dir deployment (pos 2) (pos 1) (pos 2) [])
new_site-HasFiles_example =
    new_site-HasFiles calm_os (pos 1) name dir deployment (pos 2) (pos 1) (pos 2) local [] known

new_site-read_servers_example :
    Ensures
      (λ s u.
        read_servers (contents (cluster_settings_file s) u) ≡ map endpoint s.memcached_instances)
      (new_site calm_os (pos 1) name dir deployment (pos 2) (pos 1) (pos 2) [])
new_site-read_servers_example =
    new_site-read_servers calm_os (pos 1) name dir deployment (pos 2) (pos 1) (pos 2) local [] known
      (omega arith) (omega arith)

-- A site with one Memcached instance, and what its constructor leaves in the trace.
abbrev one : Site
one = built site (pos 1) (pos 0) (pos 0)

returned :
    (t' : Trace) × (new_site calm_os (pos 1) name dir deployment (pos 1) (pos 0) (pos 0) []
      ≡ (ok one, t'))
returned =
    new_site-returns calm_os (λ t d. refl) (pos 1) name dir deployment (pos 1) (pos 0) (pos 0) local
      [] known

-- Its instance, started after the trace `t`.
abbrev one_up : Trace → Site
one_up t = record one {
  memcached_instances =
      record (memcached_at site 0) { pid = some (pos (suc (100 + length t))); running = true } ∷ [];
}

one_starts :
    (t : Trace) → start calm_os one t ≡ (ok (one_up t), forked (pos (suc (100 + length t))) ∷ t)
unfolding start new_instance for_each for_each_instance start_instance
one_starts t = refl

SiteReached-SiteInv_example : SiteInv calm_os (λ q. 0) (one_up []) (forked (pos 101) ∷ [])
unfolding new_instance
SiteReached-SiteInv_example =
    SiteReached-SiteInv calm_os (λ q. 0) calm_law (tt, (λ q. refl, (λ e. cc, tt)))
      (started here ((refl, tt), tt, tt) (one_starts []))

site_leaves_nothing_example :
    (u : Trace) × (destroy_site calm_os
        (one_up returned.0)
        (forked (pos (suc (100 + length returned.0))) ∷ returned.0)
      ≡ (ok tt, u))
    × SignalsLive calm_os u
    × ((q : ℤ) → living calm_os q u ≡ living calm_os q [])
unfolding new_instance
site_leaves_nothing_example =
    site_leaves_nothing calm_os calm_law calm_obeys (pos 1) name dir deployment (pos 1) (pos 0)
      (pos 0) [] tt returned.1 (started here ((refl, tt), tt, tt) (one_starts returned.0))

for_each_instance-Pass_example :
    ((s : Site) × (for_each_instance (dropping (start_instance calm_os)) tt one []
        ≡ (ok (tt, s), forked (pos 101) ∷ []))
      × (instances s ≡ instances (one_up [])))
    ↔ Pass
        (dropping (start_instance calm_os))
        tt
        (instances one)
        []
        tt
        (instances (one_up []))
        (forked (pos 101) ∷ [])
for_each_instance-Pass_example =
    for_each_instance-Pass (dropping (start_instance calm_os)) tt one [] tt (instances (one_up []))
      (forked (pos 101) ∷ [])

-- fork() fails each time.
abbrev refused_os : Os
refused_os = record calm_os { fork = λ t. negsuc 0 }

abbrev idle_site : Site
idle_site = built site (pos 2) (pos 1) (pos 1)

start-in_children_example :
    ((start child_os idle_site []).0 ≡ (start refused_os idle_site []).0)
    × ((start child_os idle_site []).0 ≡ ok idle_site)
    × (forks (start child_os idle_site []).1 ≡ 0 + length (instances idle_site))
start-in_children_example =
    start-in_children child_os refused_os (λ t file. refl) (λ t. refl) (λ t. refl) idle_site [] []
