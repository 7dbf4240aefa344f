-- ===== src/Site/Started.antt =====
-- What `Site::start` leaves as it was, in the parent.
use clearwater_fv_test.Base.{◌≡◌, refl, ap, ◌∙◌, List, [], ◌∷◌, map}
use clearwater_fv_test.Text.{Text}
use clearwater_fv_test.System.{Os, Trace, ok}
use clearwater_fv_test.Process.Spec.{StaysParent}
use clearwater_fv_test.Process.Started.{start-ip}
use clearwater_fv_test.Process.{ProcessInstance, start_instance}
use clearwater_fv_test.Site.{Site}
use clearwater_fv_test.Site.Lifecycle.{
  start, for_each, for_each_instance, dropping, get_rogers_ips, get_chronos_ips,
}

abbrev ips : List ProcessInstance → List Text
ips is = map (λ i. i.ip) is

module _ (os : Os) (parent : StaysParent os) where
  for_each-ips :
      (is : List ProcessInstance) (t : Trace)
      → (js : List ProcessInstance) × (u : Trace) × (for_each (dropping (start_instance os)) tt is t
          ≡ (ok (tt, js), u))
        × (ips js ≡ ips is)
  unfolding for_each
  for_each-ips [] t = ([], t, refl, refl)
  for_each-ips (i ∷ is) t =
      let (b, j, u, e, same, files) = start-ip os parent i t in
      let (js, v, f, rest) = for_each-ips is u in
      (j ∷ js, v, simp (e, f), ap (◌∷◌ j.ip) rest ∙ ap (λ (x : Text). x ∷ ips is) same)

  -- A started site has the addresses that it had.
  pub start-ips :
      (s : Site) (t : Trace)
      → (s' : Site) × (u : Trace) × (start os s t ≡ (ok s', u))
        × (get_rogers_ips s' ≡ get_rogers_ips s)
        × (get_chronos_ips s' ≡ get_chronos_ips s)
  unfolding start for_each_instance get_rogers_ips get_chronos_ips
  start-ips s t =
      let (ms, t₁, e₁, i₁) = for_each-ips s.memcached_instances t in
      let (rs, t₂, e₂, i₂) = for_each-ips s.rogers_instances t₁ in
      let (cs, t₃, e₃, i₃) = for_each-ips s.chronos_instances t₂ in
      (
        record s { memcached_instances = ms; rogers_instances = rs; chronos_instances = cs },
        t₃,
        simp (e₁, e₂, e₃),
        i₂,
        i₃,
      )
