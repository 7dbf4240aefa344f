-- ===== src/Site/Addresses.antt =====
-- The addresses on which the processes of sites listen, and which instances the getters return.
use clearwater_fv_test.Base.{
  ℕ, suc, ◌+◌, ◌≡◌, ◌≢◌, refl, sym, ap, subst, ◌∙◌, inl, inr, List, [], ◌∷◌, ◌++◌, map, map-append,
  append_assoc, none, some, Option-cases, arith, numbered, map-numbered, All, Distinct,
  Distinct-append, Distinct-numbered, Apart, Apart-numbered, Apart-append, append_cancel_left,
  numbered_last, get_last?,
}
use clearwater_fv_test.Text.{Text, codes}
use clearwater_fv_test.Text.Decimal.{decimal, decimal_injective, decimal-digits, IsDigit}
use clearwater_fv_test.Text.Integer.{ℤ, pos, negsuc, to_string}
use clearwater_fv_test.System.{Os, Trace, Ensures, Ensures-mono, raised, out_of_range}
use clearwater_fv_test.Process.{ProcessInstance, new_instance}
use clearwater_fv_test.Site.{
  Topology, Deployment, find, Site, site_ip, rounds, memcached_port, rogers_port, chronos_port,
}
use clearwater_fv_test.Site.Lifecycle.{
  empty_site, new_site, get_first_memcached, get_first_rogers, get_first_chronos,
}
use clearwater_fv_test.Site.Build.{built, memcached_at, rogers_at, chronos_at, new_site-built}

abbrev pub endpoint : ProcessInstance → Text × ℤ
endpoint i = (i.ip, i.port)

abbrev pub instances : Site → List ProcessInstance
instances s = s.memcached_instances ++ (s.rogers_instances ++ s.chronos_instances)

-- Address `ii + 1` of the site, with a port.
abbrev endpoint_at : Site → ℤ → ℕ → Text × ℤ
endpoint_at s port ii = (site_ip s (ii + 1), port)

site_ip_injective : (s : Site) (a b : ℕ) → site_ip s a ≡ site_ip s b → a ≡ b
unfolding site_ip to_string
site_ip_injective s a b e =
    decimal_injective a b (append_cancel_left s.ip_addr_prefix (decimal a) (decimal b) e)

endpoint_at_injective :
    (s : Site) (port : ℤ) (a b : ℕ) → endpoint_at s port a ≡ endpoint_at s port b → a ≡ b
endpoint_at_injective s port a b e =
    omega (arith, site_ip_injective s (a + 1) (b + 1) (ap (λ (p : Text × ℤ). p.0) e))

endpoints-built :
    (s : Site) (m r c : ℤ)
    → map endpoint (instances (built s m r c))
      ≡ numbered (endpoint_at s memcached_port) 0 (rounds m)
        ++ (numbered (endpoint_at s rogers_port) 0 (rounds r)
            ++ numbered (endpoint_at s chronos_port) 0 (rounds c))
unfolding new_instance
endpoints-built s m r c = simp (map-append, map-numbered)

ports-Apart :
    (s : Site) (p q : ℤ) (m n : ℕ)
    → p ≢ q
    → Apart (numbered (endpoint_at s p) 0 m) (numbered (endpoint_at s q) 0 n)
ports-Apart s p q m n h =
    Apart-numbered (endpoint_at s p) (endpoint_at s q) 0 m 0 n
      (λ a b e. h (ap (λ (x : Text × ℤ). x.1) e))

magnitude : ℤ → ℕ
magnitude (pos n) = n
magnitude (negsuc n) = n

pos_ne : (a b : ℕ) → a ≢ b → pos a ≢ pos b
unfolding magnitude
pos_ne a b h e = h (ap magnitude e)

endpoints-Distinct : (s : Site) (m r c : ℤ) → Distinct (map endpoint (instances (built s m r c)))
endpoints-Distinct s m r c = rw (endpoints-built s m r c) (
    Distinct-append (block memcached_port m) _ (one_kind memcached_port m)
      (Distinct-append (block rogers_port r) (block chronos_port c) (one_kind rogers_port r)
        (one_kind chronos_port c)
        (ports-Apart s rogers_port chronos_port _ _ (pos_ne 11311 7253 (omega arith))))
      (Apart-append (block memcached_port m) (block rogers_port r) (block chronos_port c)
        (ports-Apart s memcached_port rogers_port _ _ (pos_ne 33333 11311 (omega arith)))
        (ports-Apart s memcached_port chronos_port _ _ (pos_ne 33333 7253 (omega arith)))))
  where
    block : ℤ → ℤ → List (Text × ℤ)
    block port count = numbered (endpoint_at s port) 0 (rounds count)

    one_kind : (port count : ℤ) → Distinct (block port count)
    one_kind port count =
        Distinct-numbered (endpoint_at s port) 0 (rounds count) (endpoint_at_injective s port)

pub new_site-unknown :
    (os : Os) (index : ℤ) (name dir : Text) (d : Deployment) (m r c : ℤ) (t : Trace)
    → find name d ≡ none
    → new_site os index name dir d m r c t ≡ (raised out_of_range, t)
unfolding new_site
new_site-unknown os index name dir d m r c t unknown = rw unknown

-- Whatever the parameters and the environment, no two processes of a `Site` that the constructor
-- returns listen on the same address and port.
pub new_site-Distinct :
    (os : Os) (index : ℤ) (name dir : Text) (d : Deployment) (m r c : ℤ) (t : Trace)
    → Ensures (λ s _. Distinct (map endpoint (instances s))) (new_site os index name dir d m r c t)
new_site-Distinct os index name dir d m r c t = elim (Option-cases (find name d)) [
  | inl unknown ↦ rw (new_site-unknown os index name dir d m r c t unknown) tt
  | inr (tplg, known) ↦
      Ensures-mono (λ s _. s ≡ built (empty_site index name dir d tplg) m r c)
        (λ s _. Distinct (map endpoint (instances s))) _
        (new_site-built os index name dir d m r c tplg t known)
        (λ s u e. rw e (endpoints-Distinct (empty_site index name dir d tplg) m r c))
]

no_dot : (q es : Text) → ¬ All IsDigit (q ++ b'.' ∷ es)
no_dot [] es h = omega arith
no_dot (x ∷ q) es h = no_dot q es h.1

-- Texts that end in a dot and a number agree before the dot if they are the same.
last_dot :
    (p q ds es : Text) → All IsDigit ds → All IsDigit es → p ++ b'.' ∷ ds ≡ q ++ b'.' ∷ es → p ≡ q
last_dot [] [] ds es hd he e = refl
last_dot [] (y ∷ q) ds es hd he e = absurd (no_dot q es (subst (All IsDigit) (cc) hd))
last_dot (x ∷ p) [] ds es hd he e = absurd (no_dot p ds (subst (All IsDigit) (cc) he))
last_dot (x ∷ p) (y ∷ q) ds es hd he e =
    let tails : p ++ b'.' ∷ ds ≡ q ++ b'.' ∷ es = cc in cc (last_dot p q ds es hd he tails)

-- Sites whose address prefixes are different and end in a dot have no address in common: none of
-- the one is one of the other, whatever their numbers.
pub site_ips_disjoint :
    (s s' : Site) (p q : Text) (a b : ℕ)
    → s.ip_addr_prefix ≡ p ++ codes "."
    → s'.ip_addr_prefix ≡ q ++ codes "."
    → p ≢ q
    → site_ip s a ≢ site_ip s' b
unfolding site_ip to_string
site_ips_disjoint s s' p q a b hp hq ne e = ne (
    last_dot p q (decimal a) (decimal b) (decimal-digits a) (decimal-digits b) (
      sym (append_assoc p (codes ".") (decimal a))
      ∙ ap (λ (x : Text). x ++ decimal a) (sym hp)
      ∙ e
      ∙ ap (λ (x : Text). x ++ decimal b) hq
      ∙ append_assoc q (codes ".") (decimal b)))

last_numbered : (f : ℕ → ProcessInstance) (n : ℕ) → get_last? (numbered f 0 (suc n)) ≡ some (f n)
last_numbered f n = numbered_last f 0 n ∙ ap (λ (k : ℕ). some (f k)) (omega arith)

-- What each getter returns is the last of `suc m`, `suc r` and `suc c` instances.
abbrev pub AreLast : Site → ℕ → ℕ → ℕ → Type 0
AreLast s m r c =
    (get_first_memcached s ≡ some (memcached_at s m))
    × (get_first_rogers s ≡ some (rogers_at s r))
    × (get_first_chronos s ≡ some (chronos_at s c))

built_last :
    (s₀ : Site) (m r c : ℕ) → AreLast (built s₀ (pos (suc m)) (pos (suc r)) (pos (suc c))) m r c
unfolding get_first_memcached get_first_rogers get_first_chronos site_ip new_instance
built_last s₀ m r c = (
  last_numbered (memcached_at s₀) m,
  last_numbered (rogers_at s₀) r,
  last_numbered (chronos_at s₀) c,
)

-- Where the constructor returns a site with `m + 1` Memcached, `r + 1` Rogers and `c + 1` Chronos
-- instances, the getters named after the first instance return the last one: number `m`, `r` and
-- `c`, where the first is number 0.
pub get_first-last :
    (os : Os) (index : ℤ) (name dir : Text) (d : Deployment) (tplg : Topology) (m r c : ℕ)
    (t : Trace)
    → find name d ≡ some tplg
    → Ensures
        (λ s _. AreLast s m r c)
        (new_site os index name dir d (pos (suc m)) (pos (suc r)) (pos (suc c)) t)
get_first-last os index name dir d tplg m r c t known =
    let s₀ : Site = empty_site index name dir d tplg in
    Ensures-mono (λ s _. s ≡ built s₀ (pos (suc m)) (pos (suc r)) (pos (suc c)))
      (λ s _. AreLast s m r c) _
      (new_site-built os index name dir d (pos (suc m)) (pos (suc r)) (pos (suc c)) tplg t known)
      (λ s u e. rw e (built_last s₀ m r c))
