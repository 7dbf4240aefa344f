-- ===== src/S4/Objects.antt =====
-- The objects that `S4Site` and the fixture of the S4 tests make with `new`, and their deletion,
-- src/test_s4solution.cpp.
pub mod Freed
use clearwater_fv_test.Base.{
  ℕ, suc, Bool, true, false, List, [], ◌∷◌, ◌++◌, Option, none, some, if◌then◌else◌, text_eq,
}
use clearwater_fv_test.Text.{Text, codes}
use clearwater_fv_test.Site.{Topology, Deployment}

-- The addresses that `new` has given, each greater than those before it, and those that were
-- deleted.
pub record Heap : Type 0 where
  pub next : ℕ
  pub allocated : List ℕ
  pub freed : List ℕ

abbrev pub Alloc : Type 0 → Type 0
Alloc A = Heap → A × Heap

infixl 5 ◌>>=◌ ◌>>◌
abbrev pub ◌>>=◌ : {A B : Type 0} → Alloc A → (A → Alloc B) → Alloc B
◌>>=◌ m k h = let r = m h in k r.0 r.1

abbrev pub ◌>>◌ : {A B : Type 0} → Alloc A → Alloc B → Alloc B
◌>>◌ m k h = k (m h).1

abbrev pub pure : {A : Type 0} → A → Alloc A
pure a h = (a, h)

-- `new`.
abbrev pub allocate : Alloc ℕ
allocate h = (h.next, record h { next = suc h.next; allocated = h.next ∷ h.allocated })

-- `delete`.
abbrev pub free : ℕ → Alloc (Unit {0})
free p h = (tt, record h { freed = p ∷ h.freed })

-- `for (… : …) { delete …; }`.
unfoldable pub delete_each : List ℕ → Alloc (Unit {0})
delete_each [] = pure tt
delete_each (p ∷ ps) = do free p; delete_each ps

pub record Remotes : Type 0 where
  pub remote_stores : List ℕ
  pub remote_aor_stores : List ℕ
  pub remote_s4s : List ℕ

-- The members of `S4Site`, each the address of its object.
pub record Members : Type 0 where
  pub dns_client : ℕ
  pub http_resolver : ℕ
  pub astaire_resolver : ℕ
  pub remotes : Remotes
  pub store : ℕ
  pub aor_store : ℕ
  pub chronos_http_client : ℕ
  pub chronos_http_connection : ℕ
  pub chronos_connection : ℕ
  pub s4 : ℕ
  pub http_stack : ℕ
  pub s4_handler_config : ℕ
  pub s4_handler : ℕ

-- One round of the loop over the deployment: push_back() on each of the three vectors.
abbrev pub new_remote : Remotes → Alloc Remotes
new_remote r = do
  remote_store ← allocate
  remote_aor_store ← allocate
  s4 ← allocate
  pure (record {
    remote_stores = r.remote_stores ++ remote_store ∷ [];
    remote_aor_stores = r.remote_aor_stores ++ remote_aor_store ∷ [];
    remote_s4s = r.remote_s4s ++ s4 ∷ [];
  })

unfoldable pub new_remotes : Text → Deployment → Remotes → Alloc Remotes
new_remotes site_name [] r = pure r
new_remotes site_name ((name, tplg) ∷ rest) r =
    if text_eq name site_name
    then new_remotes site_name rest r
    else (do r' ← new_remote r; new_remotes site_name rest r')

-- The constructor, where nothing throws.
unfoldable pub new_members : Text → Deployment → Alloc Members
unfolding new_remotes
new_members site_name deployment_topology = do
  dns_client ← allocate
  http_resolver ← allocate
  astaire_resolver ← allocate
  remotes ←
      new_remotes site_name deployment_topology
        (record { remote_stores = []; remote_aor_stores = []; remote_s4s = [] })
  store ← allocate
  aor_store ← allocate
  chronos_http_client ← allocate
  chronos_http_connection ← allocate
  chronos_connection ← allocate
  s4 ← allocate
  http_stack ← allocate
  s4_handler_config ← allocate
  s4_handler ← allocate
  pure (record {
    dns_client = dns_client;
    http_resolver = http_resolver;
    astaire_resolver = astaire_resolver;
    remotes = remotes;
    store = store;
    aor_store = aor_store;
    chronos_http_client = chronos_http_client;
    chronos_http_connection = chronos_http_connection;
    chronos_connection = chronos_connection;
    s4 = s4;
    http_stack = http_stack;
    s4_handler_config = s4_handler_config;
    s4_handler = s4_handler;
  })

-- The destructor, where nothing throws.
unfoldable pub delete_members : Members → Alloc (Unit {0})
unfolding delete_each
delete_members s = do
  free s.http_stack
  delete_each s.remotes.remote_stores
  delete_each s.remotes.remote_aor_stores
  delete_each s.remotes.remote_s4s
  free s.s4
  free s.chronos_connection
  free s.chronos_http_connection
  free s.chronos_http_client
  free s.aor_store
  free s.store
  free s.astaire_resolver
  free s.http_resolver
  free s.dns_client
  free s.s4_handler
  free s.s4_handler_config

-- `new S4Site(…)`: the address of the site, and its members.
abbrev pub allocate_site : Text → Deployment → Alloc (ℕ × Members)
allocate_site site_name deployment_topology = do
  s4_site ← allocate
  members ← new_members site_name deployment_topology
  pure (s4_site, members)

-- `delete`, which runs the destructor first, and does nothing with a null pointer.
abbrev pub delete_site : Option (ℕ × Members) → Alloc (Unit {0})
delete_site none = pure tt
delete_site (some (s4_site, members)) = do delete_members members; free s4_site

-- `_s4_site1` and `_s4_site2`; `none` is a null pointer.
pub record Sites : Type 0 where
  pub s4_site1 : Option (ℕ × Members)
  pub s4_site2 : Option (ℕ × Members)

-- What `SetUp` makes.
unfoldable pub make_sites : Deployment → Alloc Sites
unfolding new_members
make_sites deployment_topology = do
  s4_site1 ← allocate_site (codes "site1") deployment_topology
  s4_site2 ← allocate_site (codes "site2") deployment_topology
  pure (record { s4_site1 = some s4_site1; s4_site2 = some s4_site2 })

-- TracerBullet, once it has killed the first site.
unfoldable pub delete_site1 : Sites → Alloc Sites
unfolding delete_members
delete_site1 f = do delete_site f.s4_site1; pure (record f { s4_site1 = none })

unfoldable pub tear_down : Sites → Alloc Sites
unfolding delete_members
tear_down f = do
  delete_site f.s4_site1
  delete_site f.s4_site2
  pure (record { s4_site1 = none; s4_site2 = none })
