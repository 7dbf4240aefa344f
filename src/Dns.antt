-- ===== src/Dns.antt =====
-- The test of a DNS server, src/test_dns.cpp.
pub mod Passes
use clearwater_fv_test.Base.{Bool, List, [], ◌∷◌, ◌==◌, length}
use clearwater_fv_test.Text.{Text, codes}
use clearwater_fv_test.Text.Integer.{ℤ, pos}
use clearwater_fv_test.System.{Os, M, ok, ◌>>=◌, ◌>>◌, pure, contents}
use clearwater_fv_test.Process.Config.{new_dnsmasq, cfgfile_name}
use clearwater_fv_test.Process.{ProcessInstance, start_instance, wait_for_instance, destroy}

abbrev pub server_ip : Text
server_ip = codes "127.0.0.201"

abbrev pub query_records : List (Text × List Text)
query_records = (codes "test.query", codes "1.2.3.4" ∷ codes "5.6.7.8" ∷ []) ∷ []

-- The file as it is now.
abbrev pub file_now : Text → M Text
file_now path t = (ok (contents path t), t)

-- `DNSTest.BasicQuery`: whether its assertion holds. `answer` is what a resolver is told for a name
-- at the address of a dnsmasq, whose configuration file was as given when it was to start. The
-- server is destroyed in any case.
unfoldable pub basic_query : Os → (ProcessInstance → Text → Text → List Text) → M Bool
unfolding start_instance wait_for_instance destroy
basic_query os answer = do
  server ← new_dnsmasq server_ip (pos 5353) query_records
  config ← file_now (cfgfile_name server_ip (pos 5353))
  (started, server₁) ← start_instance os server
  up ← wait_for_instance os server₁
  let passed = length (answer server₁ config (codes "test.query")) == 2
  destroy os server₁
  pure passed
