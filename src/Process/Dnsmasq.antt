-- ===== src/Process/Dnsmasq.antt =====
-- The configuration file that `DnsmasqInstance` writes for its process.
use clearwater_fv_test.Base.{
  ◌≡◌, refl, sym, ap, ◌∙◌, subst, true, false, List, [], ◌∷◌, ◌++◌, append-nil, append_assoc, map,
  text_eq, text_eq_iff,
}
use clearwater_fv_test.Text.{Text, codes}
use clearwater_fv_test.Text.Integer.{ℤ, to_string}
use clearwater_fv_test.System.{
  Event, Trace, Outcome, ok, pure, continue, opened_file, wrote, contents,
}
use clearwater_fv_test.Process.Quiet.{IsSilent, continue-Grows, Grows, same, more, Grows-trans}
use clearwater_fv_test.Process.{ProcessInstance, dnsmasq, new_instance}
use clearwater_fv_test.Process.Config.{
  host_record, write_hosts, write_records, cfgfile_name, write_config, new_dnsmasq,
}

-- Each name with each of its addresses, in order.
abbrev pub answers : List (Text × List Text) → List (Text × Text)
answers [] = []
answers ((name, ips) ∷ rest) = map (λ ip. (name, ip)) ips ++ answers rest

abbrev pub host_lines : List (Text × Text) → Text
host_lines [] = []
host_lines ((name, ip) ∷ rest) = host_record name ip ++ host_lines rest

host_lines-append :
    (xs ys : List (Text × Text)) → host_lines (xs ++ ys) ≡ host_lines xs ++ host_lines ys
host_lines-append [] ys = refl
host_lines-append ((name, ip) ∷ xs) ys =
    ap (λ (x : Text). host_record name ip ++ x) (host_lines-append xs ys)
    ∙ sym (append_assoc (host_record name ip) (host_lines xs) (host_lines ys))

-- A writer returns, and has added a text to the file.
abbrev Adds : Text → Text → Trace → Trace → Type 0
Adds file added t t' = contents file t' ≡ contents file t ++ added

text_eq_refl : (xs : Text) → text_eq xs xs ≡ true
text_eq_refl xs = (text_eq_iff xs xs).1 refl

write_hosts-Adds :
    (file name : Text) (ips : List Text) (t : Trace)
    → (t' : Trace) × (write_hosts file name ips t ≡ (ok tt, t'))
      × Adds file (host_lines (map (λ ip. (name, ip)) ips)) t t'
unfolding write_hosts
write_hosts-Adds file name [] t = (t, refl, sym (append-nil _))
write_hosts-Adds file name (ip ∷ ips) t =
    let (t', e, adds) = write_hosts-Adds file name ips (wrote file (host_record name ip) ∷ t) in
    (t', e, (simp (text_eq_refl file) at adds) ∙ append_assoc (contents file t) _ _)

write_records-Adds :
    (file : Text) (records : List (Text × List Text)) (t : Trace)
    → (t' : Trace) × (write_records file records t ≡ (ok tt, t'))
      × Adds file (host_lines (answers records)) t t'
unfolding write_records
write_records-Adds file [] t = (t, refl, sym (append-nil _))
write_records-Adds file ((name, ips) ∷ rest) t =
    let (u, e, adds) = write_hosts-Adds file name ips t in
    let (v, f, adds') = write_records-Adds file rest u in
    (
      v,
      simp (e, f),
      adds'
          ∙ ap (λ (x : Text). x ++ host_lines (answers rest)) adds
          ∙ append_assoc (contents file t) _ _
          ∙ ap (λ (x : Text). contents file t ++ x)
              (sym (host_lines-append (map (λ ip. (name, ip)) ips) (answers rest))),
    )

-- The constructor of `DnsmasqInstance` returns an instance that reads the file that it has written,
-- and that file holds the listening address and port, and then a line for each address of each
-- name, in their order, and nothing else, whatever the file held before.
pub new_dnsmasq-contents :
    (ip : Text) (port : ℤ) (records : List (Text × List Text)) (t : Trace)
    → (t' : Trace) × (new_dnsmasq ip port records t
        ≡ (ok (new_instance ip port (dnsmasq (cfgfile_name ip port))), t'))
      × (contents (cfgfile_name ip port) t'
          ≡ (codes "listen-address=" ++ ip ++ codes "\n")
            ++ (codes "port=" ++ to_string port ++ codes "\n")
            ++ host_lines (answers records))
unfolding new_dnsmasq write_config
new_dnsmasq-contents ip port records t =
    let file : Text = cfgfile_name ip port in
    let first : Text = codes "listen-address=" ++ ip ++ codes "\n" in
    let second : Text = codes "port=" ++ to_string port ++ codes "\n" in
    let (t', e, adds) =
      write_records-Adds file records
        (wrote file second ∷ wrote file first ∷ opened_file file ∷ t) in
    (t', simp e, simp (text_eq_refl file) at adds)

write_hosts-IsSilent :
    (cfgfile name : Text) (ips : List Text) → IsSilent (write_hosts cfgfile name ips)
unfolding write_hosts
write_hosts-IsSilent cfgfile name [] t = same
write_hosts-IsSilent cfgfile name (ip ∷ ips) t =
    Grows-trans (more _ tt same) (write_hosts-IsSilent cfgfile name ips _)

write_records-IsSilent :
    (cfgfile : Text) (records : List (Text × List Text)) → IsSilent (write_records cfgfile records)
unfolding write_records
write_records-IsSilent cfgfile [] t = same
write_records-IsSilent cfgfile ((name, ips) ∷ rest) t =
    continue-Grows t (write_hosts cfgfile name ips t) _ (write_hosts-IsSilent cfgfile name ips t)
      (λ a u. write_records-IsSilent cfgfile rest u)

new_dnsmasq-IsSilent :
    (ip : Text) (port : ℤ) (records : List (Text × List Text))
    → IsSilent (new_dnsmasq ip port records)
unfolding new_dnsmasq write_config
new_dnsmasq-IsSilent ip port records t =
    let file : Text = cfgfile_name ip port in
    let first : Event = wrote file (codes "listen-address=" ++ ip ++ codes "\n") in
    let second : Event = wrote file (codes "port=" ++ to_string port ++ codes "\n") in
    let u : Trace = second ∷ first ∷ opened_file file ∷ t in
    let written =
      Grows-trans (more second tt (more first tt (more (opened_file file) tt same)))
        (write_records-IsSilent file records u) in
    continue-Grows t (continue (write_records file records u) (λ a. pure file)) _
      (continue-Grows t (write_records file records u) _ written (λ a v. same)) (λ a v. same)

-- The constructor returns an instance that is not running, and it neither makes nor signals a
-- process.
pub new_dnsmasq-down :
    (ip : Text) (port : ℤ) (records : List (Text × List Text)) (t : Trace)
    → (i : ProcessInstance) × (u : Trace) × (new_dnsmasq ip port records t ≡ (ok i, u))
      × Grows t u
      × (i.running ≡ false)
unfolding new_instance
new_dnsmasq-down ip port records t =
    let (u, e, text) = new_dnsmasq-contents ip port records t in
    (
      new_instance ip port (dnsmasq (cfgfile_name ip port)),
      u,
      e,
      subst (λ (o : Outcome ProcessInstance × Trace). Grows t o.1) e
          (new_dnsmasq-IsSilent ip port records t),
      refl,
    )
