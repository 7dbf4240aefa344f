-- ===== src/Site/Files/Read.antt =====
-- Reading the cluster settings back: the servers that Rogers finds.
use clearwater_fv_test.Base.{
  ℕ, ◌+◌, ◌^◌, ◌<◌, ◌≡◌, ◌≢◌, refl, sym, ap, ◌∙◌, List, [], ◌∷◌, ◌++◌, append_assoc, Option, none,
  some, arith, map, All, All-append, All-numbered,
}
use clearwater_fv_test.Text.{Text, codes, join}
use clearwater_fv_test.Text.Decimal.{decimal, decimal-digits}
use clearwater_fv_test.Text.Integer.{ℤ, pos, to_string, atoi, atoi-decimal}
use clearwater_fv_test.Text.Split.{
  Lacks, split, split-first, split-only, strip, strip-append, digits-Lacks, to_string-Lacks,
}
use clearwater_fv_test.System.{Os, Trace, contents, Ensures, Ensures-both}
use clearwater_fv_test.Process.{ProcessInstance, new_instance}
use clearwater_fv_test.Site.{
  Site, Topology, Deployment, find, rounds, site_ip, cluster_settings_file,
}
use clearwater_fv_test.Site.Lifecycle.{new_site, empty_site}
use clearwater_fv_test.Site.Build.{built, memcached_at, new_site-built}
use clearwater_fv_test.Site.Settings.{host_port, servers_line}
use clearwater_fv_test.Site.Addresses.{endpoint}
use clearwater_fv_test.Site.Files.Whole.{HasFiles, new_site-HasFiles}

abbrev numbered_port : List Text → List (Text × ℤ)
numbered_port (ip ∷ port ∷ []) = (ip, atoi port) ∷ []
numbered_port _ = []

-- `<address>:<port>`.
endpoint_of : Text → List (Text × ℤ)
unfolding split
endpoint_of part = numbered_port (split b':' part)

endpoints_of : List Text → List (Text × ℤ)
unfolding endpoint_of
endpoints_of [] = []
endpoints_of (part ∷ parts) = endpoint_of part ++ endpoints_of parts

endpoints_after : Option Text → List (Text × ℤ)
unfolding endpoints_of split
endpoints_after none = []
endpoints_after (some rest) = endpoints_of (split b',' rest)

-- The servers that a settings file names, none if it has no line of servers.
unfoldable pub read_servers : Text → List (Text × ℤ)
unfolding endpoints_after strip
read_servers file = endpoints_after (strip (codes "servers=") file)

split-join :
    (x : Text) (xs : List Text)
    → All (Lacks b',') (x ∷ xs)
    → split b',' (join (codes ",") (x ∷ xs)) ≡ x ∷ xs
split-join x [] h = split-only b',' x h.0
split-join x (y ∷ ys) h =
    ap (split b',') (append_assoc x (codes ",") (join (codes ",") (y ∷ ys)))
    ∙ split-first b',' x (join (codes ",") (y ∷ ys)) h.0
    ∙ ap (◌∷◌ x) (split-join y ys h.1)

-- An address without commas and colons, and a port that is an `int` from 0 on.
abbrev IsServer : ProcessInstance → Type 0
IsServer i = Lacks b',' i.ip × Lacks b':' i.ip × ((n : ℕ) × (i.port ≡ pos n) × (n < 2 ^ 31))

endpoint_of-host_port :
    (i : ProcessInstance) → IsServer i → endpoint_of (host_port i) ≡ endpoint i ∷ []
unfolding endpoint_of to_string
endpoint_of-host_port i (no_comma, no_colon, (n, port, small)) =
    let line : host_port i ≡ i.ip ++ b':' ∷ decimal n =
      rw port (append_assoc i.ip (codes ":") (decimal n)) in
    let digits =
      split-only b':' (decimal n)
        (digits-Lacks b':' (decimal n) (λ (low, high). omega arith) (decimal-digits n)) in
    let parts = split-first b':' i.ip (decimal n) no_colon ∙ ap (◌∷◌ i.ip) digits in
    ap numbered_port (ap (split b':') line ∙ parts)
    ∙ ap (λ (z : ℤ). (i.ip, z) ∷ []) (atoi-decimal n small ∙ sym port)

host_port-Lacks : (i : ProcessInstance) → IsServer i → Lacks b',' (host_port i)
host_port-Lacks i (no_comma, no_colon, (n, port, small)) =
    All-append (λ c. c ≢ b',') (i.ip ++ codes ":") (to_string i.port)
      (All-append (λ c. c ≢ b',') i.ip (codes ":") no_comma (omega arith))
      (to_string-Lacks b',' i.port (omega arith))

host_ports-Lacks :
    (is : List ProcessInstance) → All IsServer is → All (Lacks b',') (map host_port is)
host_ports-Lacks [] h = tt
host_ports-Lacks (i ∷ is) h = (host_port-Lacks i h.0, host_ports-Lacks is h.1)

endpoints_of-host_ports :
    (is : List ProcessInstance)
    → All IsServer is
    → endpoints_of (map host_port is) ≡ map endpoint is
unfolding endpoints_of
endpoints_of-host_ports [] h = refl
endpoints_of-host_ports (i ∷ is) h =
    ap (λ (x : List (Text × ℤ)). x ++ endpoints_of (map host_port is)) (endpoint_of-host_port i h.0)
    ∙ ap (◌∷◌ (endpoint i)) (endpoints_of-host_ports is h.1)

read_servers-line :
    (is : List ProcessInstance)
    → All IsServer is
    → read_servers (servers_line (map host_port is)) ≡ map endpoint is
unfolding read_servers endpoints_after strip
read_servers-line [] h = refl
read_servers-line (i ∷ is) h =
    ap endpoints_after
      (strip-append (codes "servers=") (join (codes ",") (host_port i ∷ map host_port is)))
    ∙ ap endpoints_of (split-join (host_port i) (map host_port is) (host_ports-Lacks (i ∷ is) h))
    ∙ endpoints_of-host_ports (i ∷ is) h

memcached_at-IsServer :
    (s : Site) (k : ℕ)
    → Lacks b',' s.ip_addr_prefix
    → Lacks b':' s.ip_addr_prefix
    → IsServer (memcached_at s k)
unfolding new_instance site_ip to_string
memcached_at-IsServer s k no_comma no_colon = (
  All-append (λ c. c ≢ b',') s.ip_addr_prefix (decimal (k + 1)) no_comma
      (digits-Lacks b',' (decimal (k + 1)) (λ (low, high). omega arith) (decimal-digits (k + 1))),
  All-append (λ c. c ≢ b':') s.ip_addr_prefix (decimal (k + 1)) no_colon
      (digits-Lacks b':' (decimal (k + 1)) (λ (low, high). omega arith) (decimal-digits (k + 1))),
  (33333, refl, omega arith),
)

-- If the deployment has an entry of the site's name, with an address prefix without commas and
-- colons: when the constructor returns, who reads the cluster settings back finds exactly the
-- addresses and ports of the Memcached instances of the site, in order.
pub new_site-read_servers :
    (os : Os) (index : ℤ) (name dir : Text) (d : Deployment) (m r c : ℤ) (tplg : Topology)
    (t : Trace)
    → find name d ≡ some tplg
    → Lacks b',' tplg.ip_addr_prefix
    → Lacks b':' tplg.ip_addr_prefix
    → Ensures
        (λ s u.
          read_servers (contents (cluster_settings_file s) u) ≡ map endpoint s.memcached_instances)
        (new_site os index name dir d m r c t)
new_site-read_servers os index name dir d m r c tplg t known no_comma no_colon =
    let s₀ : Site = empty_site index name dir d tplg in
    Ensures-both (λ s _. s ≡ built s₀ m r c) (HasFiles os tplg (rounds c))
      (λ s u.
        read_servers (contents (cluster_settings_file s) u) ≡ map endpoint s.memcached_instances)
      _ (new_site-built os index name dir d m r c tplg t known)
      (new_site-HasFiles os index name dir d m r c tplg t known)
      (λ s u e files.
        let servers : All IsServer s.memcached_instances = rw e (
          All-numbered IsServer (memcached_at s₀) 0 (rounds m)
            (λ k _. memcached_at-IsServer s₀ k no_comma no_colon)) in
        ap read_servers files.settings ∙ read_servers-line s.memcached_instances servers)
