-- ===== src/Memcached/Servers/Serves.antt =====
-- What dnsmasq serves to the memcached tests.
use clearwater_fv_test.Base.{
  ℕ, ◌+◌, ◌≡◌, ◌≢◌, refl, ap, ◌∙◌, List, [], ◌∷◌, ◌++◌, append-nil, some, arith, map, numbered, All,
  All-append, All-numbered, true,
}
use clearwater_fv_test.Text.{Text, codes}
use clearwater_fv_test.Text.Integer.{ℤ, pos}
use clearwater_fv_test.Text.Split.{to_string-Lacks}
use clearwater_fv_test.System.{Os, Trace, ok, contents, created_directory}
use clearwater_fv_test.Process.Spec.{StaysParent}
use clearwater_fv_test.Process.Config.{cfgfile_name}
use clearwater_fv_test.Process.Resolver.{IsPlain, ArePlain, read_hosts, new_dnsmasq-read_hosts}
use clearwater_fv_test.Process.Started.{start-ip}
use clearwater_fv_test.Site.Started.{start-ips}
use clearwater_fv_test.Site.Returns.{new_site-returns}
use clearwater_fv_test.Site.Build.{built}
use clearwater_fv_test.Site.Ips.{first_ips, built-HasIps}
use clearwater_fv_test.Site.Lifecycle.{empty_site, get_rogers_ips}
use clearwater_fv_test.Site.{Site, site_ip, rounds, new_topology, find}
use clearwater_fv_test.Shared.{release_site, release_dnsmasq}
use clearwater_fv_test.Memcached.Servers.{
  Servers, no_servers, database_topology, create_and_start_databases, create_and_start_dns,
  set_up_databases,
}

-- The site of the databases, before its instances are made.
abbrev pub database_site : Site
unfolding database_topology new_topology
database_site =
    empty_site (pos 1) (codes "site1") (codes "tmp/site1") database_topology
      (new_topology (codes "127.0.1."))

answers-ArePlain :
    (name : Text) (ips : List Text)
    → IsPlain name
    → All IsPlain ips
    → All ArePlain (map (λ ip. (name, ip)) ips)
answers-ArePlain name [] plain h = tt
answers-ArePlain name (ip ∷ ips) plain h = ((plain, h.0), answers-ArePlain name ips plain h.1)

ips-ArePlain : (n : ℕ) → All IsPlain (numbered (λ k. site_ip database_site (k + 1)) 0 n)
unfolding site_ip new_topology database_site
ips-ArePlain n =
    All-numbered IsPlain (λ k. site_ip database_site (k + 1)) 0 n
      (λ k below. (
        All-append (λ c. c ≢ b',') (codes "127.0.1.") _ (omega arith)
            (to_string-Lacks b',' (pos (k + 1)) (omega arith)),
        All-append (λ c. c ≢ b'\n') (codes "127.0.1.") _ (omega arith)
            (to_string-Lacks b'\n' (pos (k + 1)) (omega arith)),
      ))

module _ (os : Os) (parent : StaysParent os)
    (makes : (t : Trace) (dir : Text) → os.create_directory t dir ≡ true) where
  -- Where directories can be made and the program stays the parent of its forks: `SetUpTestCase`
  -- returns, for any numbers of instances, and who then reads the configuration of dnsmasq finds
  -- for rogers.local the addresses of the Rogers instances, from 1 up to their number, in order,
  -- and no other name.
  pub set_up_databases-serves :
      (num_memcacheds num_rogers : ℤ) (t : Trace)
      → (v : Servers) × (u : Trace) × (set_up_databases os num_memcacheds num_rogers no_servers t
          ≡ (ok v, u))
        × (read_hosts (contents (cfgfile_name (codes "127.0.0.1") (pos 5353)) u)
            ≡ map (λ ip. (codes "rogers.local", ip)) (first_ips database_site num_rogers))
  unfolding database_site set_up_databases create_and_start_databases create_and_start_dns
      release_site release_dnsmasq database_topology new_topology find site_ip
  set_up_databases-serves m r t =
      let name : Text = codes "rogers.local" in
      let dir : Trace = created_directory (codes "tmp") ∷ t in
      let (u₁, e₁) =
        new_site-returns os makes (pos 1) (codes "site1") (codes "tmp/site1") database_topology m r
          (pos 0) (new_topology (codes "127.0.1.")) dir refl in
      let (s, u₂, e₂, rogers, chronos) = start-ips os parent (built database_site m r (pos 0)) u₁ in
      let ips : get_rogers_ips s ≡ first_ips database_site r =
        rogers ∙ (built-HasIps database_site m r (pos 0)).0 in
      let hosts : List (Text × Text) = map (λ ip. (name, ip)) (first_ips database_site r) in
      let listed : hosts ++ [] ≡ hosts = append-nil hosts in
      let (i, u₃, e₃, text) =
        new_dnsmasq-read_hosts (codes "127.0.0.1") (pos 5353)
          ((name, first_ips database_site r) ∷ []) u₂ (omega arith)
          (rw listed (
            answers-ArePlain name (first_ips database_site r) (omega arith, omega arith)
              (ips-ArePlain (rounds r)))) in
      let (b, j, u₄, e₄, same, files) = start-ip os parent i u₃ in
      (
        record no_servers { dnsmasq_instance = some j; dbs = some s },
        u₄,
        simp (makes, e₁, e₂, ips, e₃, e₄),
        ap read_hosts (files (cfgfile_name (codes "127.0.0.1") (pos 5353))) ∙ text ∙ listed,
      )
