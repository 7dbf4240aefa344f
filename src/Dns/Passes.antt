-- ===== src/Dns/Passes.antt =====
-- The test of a DNS server passes, and leaves no process.
use clearwater_fv_test.Base.{
  ℕ, ◌≡◌, sym, ap, subst, ◌∙◌, Bool, true, List, [], ◌∷◌, ◌==◌, arith, length,
}
use clearwater_fv_test.Text.{Text, codes}
use clearwater_fv_test.Text.Integer.{ℤ, pos}
use clearwater_fv_test.System.{Os, Trace, contents, Yields}
use clearwater_fv_test.Process.Live.{Grows-live}
use clearwater_fv_test.Process.Balance.{
  times, living, Balanced, SignalsLive, Grows-SignalsLive, After, Kept, start-Kept, wait-Kept,
}
use clearwater_fv_test.Process.Config.{cfgfile_name}
use clearwater_fv_test.Process.Destroyed.{Obeys, destroy-ok}
use clearwater_fv_test.Process.Dnsmasq.{answers, new_dnsmasq-down}
use clearwater_fv_test.Process.Healthy.{
  IsHealthy, IsServing, start-Yields, wait-Yields, healthy-ForkReturns,
}
use clearwater_fv_test.Process.{ProcessInstance}
use clearwater_fv_test.Process.Resolver.{read_hosts, addresses, new_dnsmasq-read_hosts}
use clearwater_fv_test.Dns.{server_ip, query_records, basic_query}

-- The assertion holds, every kill() went to a child that was left, and the children that are left
-- are those that were left before.
abbrev pub LeavesNothing : Os → Trace → Bool → Trace → Type 0
LeavesNothing os t passed u =
    (passed ≡ true) × SignalsLive os u × ((q : ℤ) → living os q u ≡ living os q t)

module _ (os : Os) (healthy : IsHealthy os) (obeys : Obeys os) where
  -- Where no call of the operating system fails, processes end of the signal that they are sent,
  -- and a resolver that asks a running server is told the addresses that the server's configuration
  -- file, as it was when the server was to start, gives to a name:
  -- BasicQuery returns, its assertion holds, and the children that are left are those that were
  -- left before it; and if every kill() before it went to a child that was left at that time, so
  -- did every one of its own.
  pub basic_query-passes :
      (answer : ProcessInstance → Text → Text → List Text)
      → ((i : ProcessInstance) (config name : Text)
          → IsServing i
          → answer i config name ≡ addresses name (read_hosts config))
      → (t : Trace) → SignalsLive os t
      → Yields (LeavesNothing os t) (basic_query os answer t)
  unfolding basic_query
  basic_query-passes answer serves t sound =
      let others : ℤ → ℕ = λ q. living os q t in
      let file : Text = cfgfile_name server_ip (pos 5353) in
      let law = healthy-ForkReturns os healthy in
      let (i₀, u₀, e₀, hosts) =
        new_dnsmasq-read_hosts server_ip (pos 5353) query_records t (omega arith) (omega arith) in
      let (i, u, e, grows, down) = new_dnsmasq-down server_ip (pos 5353) query_records t in
      let read : read_hosts (contents file u) ≡ answers query_records =
        ap (λ r. read_hosts (contents file r.1)) (sym e ∙ e₀) ∙ hosts in
      let ((b, j), v, f, (good, serving)) = start-Yields os healthy i u in
      let told : answer j (contents file u) (codes "test.query")
          ≡ codes "1.2.3.4" ∷ codes "5.6.7.8" ∷ [] =
        serves j (contents file u) (codes "test.query") serving
        ∙ ap (addresses (codes "test.query")) read in
      let (sound₁, (balance₁, ready₁)) = subst (After os (Kept os others)) f (
        start-Kept os others i law u down (Grows-SignalsLive os grows sound)
          (λ q. rw down (ap (times q) (Grows-live os grows) ∙ omega arith))) in
      let (up, w, g, h) = wait-Yields os healthy j v in
      let (sound₂, balance₂) =
        subst (After os (λ b' u'. Balanced os others (j ∷ []) u')) g
          (wait-Kept os others (j ∷ []) j v sound₁ balance₁) in
      let (x, d, sound₃, balance₃) = destroy-ok os obeys others j w ready₁ sound₂ balance₂ in
      (
        length (answer j (contents file u) (codes "test.query")) == 2,
        x,
        simp (e, f, g, d),
        (rw told, sound₃, λ q. omega (arith, balance₃ q)),
      )
