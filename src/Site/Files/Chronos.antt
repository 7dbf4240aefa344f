-- ===== src/Site/Files/Chronos.antt =====
-- What each Chronos instance of a site finds in its configuration files.
use clearwater_fv_test.Base.{
  if◌then◌else◌, ℕ, zero, suc, ◌+◌, ◌≤◌, ◌<◌, ◌≡◌, ◌≢◌, refl, sym, ap, ◌∙◌, inl, inr, true, false,
  List, [], ◌∷◌, ◌++◌, append_assoc, append-nil, arith, Bool-cases, text_eq, text_eq_iff, numbered,
  map, ◌==◌, ==_iff,
}
use clearwater_fv_test.Text.{Text, codes}
use clearwater_fv_test.Text.Decimal.{decimal}
use clearwater_fv_test.Text.Integer.{to_string}
use clearwater_fv_test.Process.{get_log_level}
use clearwater_fv_test.System.{Os, Trace, wrote, contents, Ensures, >>=-Ensures}
use clearwater_fv_test.Process.{ProcessInstance, new_instance}
use clearwater_fv_test.Process.Config.{new_chronos, chronos_conf, chronos_files}
use clearwater_fv_test.Site.{
  Site, Topology, Deployment, site_line, site_ip, chronos_port, shared_conf_file, cluster_conf_file,
}
use clearwater_fv_test.Site.Build.{chronos_at, created-then}
use clearwater_fv_test.Site.Lifecycle.{chronos_loop}
use clearwater_fv_test.Site.Settings.{host_port}
use clearwater_fv_test.Site.Files.Paths.{
  instance_dir, local_conf_file, cluster_conf-local, local-cluster_conf, local-local,
}

abbrev pub concat : List Text → Text
concat [] = []
concat (x ∷ xs) = x ++ concat xs

-- `key = value`, line by line, and a tail.
abbrev pub key_lines : List (Text × Text) → Text → Text
key_lines [] tail = tail
key_lines ((key, value) ∷ rest) tail =
    key ++ (codes " = " ++ (value ++ (codes "\n" ++ key_lines rest tail)))

-- A configuration file of sections, with an empty line between two of them.
abbrev pub ini : List (Text × List (Text × Text)) → Text
ini [] = []
ini ((name, keys) ∷ []) = codes "[" ++ (name ++ (codes "]\n" ++ key_lines keys []))
ini ((name, keys) ∷ next ∷ rest) =
    codes "[" ++ (name ++ (codes "]\n" ++ key_lines keys (codes "\n" ++ ini (next ∷ rest))))

-- One text after another, as `<<` writes them.
streamed : Text → List Text → Text
streamed text [] = text
streamed text (piece ∷ pieces) = streamed (text ++ piece) pieces

streamed-concat : (text : Text) (pieces : List Text) → streamed text pieces ≡ text ++ concat pieces
unfolding streamed
streamed-concat text [] = sym (append-nil text)
streamed-concat text (piece ∷ pieces) =
    streamed-concat (text ++ piece) pieces ∙ append_assoc text piece (concat pieces)

-- The lines on the sites of a deployment, as the site of a given name sees them.
abbrev pub site_keys : Text → Deployment → List (Text × Text)
site_keys own [] = []
site_keys own ((name, tplg) ∷ rest) =
    (if text_eq name own
      then (codes "local_site", name)
      else (codes "remote_site", name ++ codes "=" ++ tplg.chronos_domain))
    ∷ site_keys own rest

pub site_lines-key_lines :
    (own : Text) (d : Deployment) → concat (map (site_line own) d) ≡ key_lines (site_keys own d) []
unfolding site_line
site_lines-key_lines own [] = refl
site_lines-key_lines own ((name, tplg) ∷ rest) =
    let n : Text = codes "\n" in
    let tail : Text = concat (map (site_line own) rest) in
    elim (Bool-cases (text_eq name own)) [
      | inl here ↦ rw here (
          ap (λ (x : Text). codes "local_site = " ++ x)
            (append_assoc name n tail
              ∙ ap (λ (x : Text). name ++ (n ++ x)) (site_lines-key_lines own rest)))
      | inr there ↦
          let value : Text = name ++ codes "=" ++ tplg.chronos_domain in
          rw there (
            ap (λ (x : Text). codes "remote_site = " ++ x)
              (append_assoc value n tail
                ∙ ap (λ (x : Text). value ++ (n ++ x)) (site_lines-key_lines own rest)))
    ]

-- One line of the file that all Chronos processes of a site read.
abbrev pub node_line : ProcessInstance → Text
node_line i = codes "node = " ++ host_port i ++ codes "\n"

abbrev pub node_lines : Site → ℕ → ℕ → Text
node_lines s ii n = concat (map node_line (numbered (chronos_at s) ii n))

text_eq_refl : (xs : Text) → text_eq xs xs ≡ true
text_eq_refl xs = (text_eq_iff xs xs).1 refl

regroup : (a b c d e : Text) → a ++ b ++ c ++ d ++ e ≡ a ++ (b ++ c ++ d) ++ e
regroup a b c d e = simp append_assoc

module _ (os : Os) where
  -- The configuration of instance `k`, as the code writes it.
  abbrev local_text : Site → Topology → ℕ → Text
  local_text s tplg k =
      chronos_conf os (site_ip s (k + 1)) chronos_port (instance_dir s k ++ codes "/log")
        tplg.dns_ip tplg.dns_port

  -- The sections of the configuration of an instance.
  abbrev pub sections : Text → Text → Topology → List (Text × List (Text × Text))
  sections ip log_dir tplg =
      (codes "logging", (codes "level", get_log_level os) ∷ (codes "folder", log_dir) ∷ [])
      ∷ (codes "dns", (codes "servers", tplg.dns_ip) ∷ (codes "port", to_string tplg.dns_port) ∷ [])
      ∷ (codes "http", (codes "bind-address", ip) ∷ (codes "bind-port", codes "7253") ∷ [])
      ∷ (codes "throttling", (codes "max_tokens", codes "1000") ∷ [])
      ∷ (codes "cluster", (codes "localhost", ip ++ codes ":7253") ∷ [])
      ∷ []

  -- Those of instance `k`.
  abbrev pub local_conf : Site → Topology → ℕ → List (Text × List (Text × Text))
  local_conf s tplg k =
      sections (s.ip_addr_prefix ++ decimal (k + 1))
        (s.site_dir ++ codes "/chronos/instance" ++ decimal (k + 1) ++ codes "/log") tplg

  conf_text-ini :
      (ip log_dir : Text) (tplg : Topology)
      → chronos_conf os ip chronos_port log_dir tplg.dns_ip tplg.dns_port
        ≡ ini (sections ip log_dir tplg)
  unfolding chronos_conf to_string decimal streamed
  conf_text-ini ip log_dir tplg =
      let port : Text = to_string tplg.dns_port in
      let n : Text = codes "\n" in
      let pieces : List Text =
        codes "level = "
        ∷ get_log_level os
        ∷ n
        ∷ codes "folder = "
        ∷ log_dir
        ∷ n
        ∷ n
        ∷ codes "[dns]\n"
        ∷ codes "servers = "
        ∷ tplg.dns_ip
        ∷ n
        ∷ codes "port = "
        ∷ port
        ∷ n
        ∷ n
        ∷ codes "[http]\n"
        ∷ codes "bind-address = "
        ∷ ip
        ∷ n
        ∷ codes "bind-port = "
        ∷ codes "7253"
        ∷ n
        ∷ n
        ∷ codes "[throttling]\n"
        ∷ codes "max_tokens = 1000\n"
        ∷ n
        ∷ codes "[cluster]\n"
        ∷ codes "localhost = "
        ∷ ip
        ∷ codes ":"
        ∷ codes "7253"
        ∷ n
        ∷ [] in
      streamed-concat (codes "[logging]\n") pieces
      ∙ ap
          (λ (tail : Text).
            codes "[logging]\nlevel = "
            ++ (get_log_level os
                ++ (codes "\nfolder = "
                    ++ (log_dir
                        ++ (codes "\n\n[dns]\nservers = "
                            ++ (tplg.dns_ip
                                ++ (codes "\nport = "
                                    ++ (port
                                        ++ (codes "\n\n[http]\nbind-address = "
                                            ++ (ip
                                                ++ (codes "\nbind-port = 7253\n\n"
                                                    ++ (codes
                                                          "[throttling]\nmax_tokens = 1000\n\n[cluster]\nlocalhost = "
                                                        ++ tail))))))))))))
          (sym (append_assoc ip (codes ":7253") n))

  log_dir-instance_dir :
      (s : Site) (k : ℕ)
      → instance_dir s k ++ codes "/log"
        ≡ s.site_dir ++ codes "/chronos/instance" ++ decimal (k + 1) ++ codes "/log"
  unfolding to_string
  log_dir-instance_dir s k =
      ap (λ (x : Text). x ++ decimal (k + 1) ++ codes "/log")
        (append_assoc s.site_dir (codes "/chronos") (codes "/instance"))

  pub local_text-ini :
      (s : Site) (tplg : Topology) (k : ℕ) → local_text s tplg k ≡ ini (local_conf s tplg k)
  unfolding site_ip to_string
  local_text-ini s tplg k =
      ap
        (λ (x : Text). chronos_conf os (site_ip s (k + 1)) chronos_port x tplg.dns_ip tplg.dns_port)
        (log_dir-instance_dir s k)
      ∙ conf_text-ini (s.ip_addr_prefix ++ decimal (k + 1)) _ tplg

  -- The file of the instance is written, and no other.
  abbrev OneFile : Text → Text → Trace → Trace → Type 0
  OneFile file text t u =
      (contents file u ≡ text) × ((p : Text) → text_eq file p ≡ false → contents p u ≡ contents p t)

  new_chronos-OneFile :
      (s : Site) (tplg : Topology) (k : ℕ) (t : Trace)
      → Ensures
          (λ i u. OneFile (local_conf_file s k) (local_text s tplg k) t u)
          (new_chronos os
            (site_ip s (k + 1))
            chronos_port
            (instance_dir s k)
            (cluster_conf_file s)
            (shared_conf_file s)
            tplg.dns_ip
            tplg.dns_port
            t)
  unfolding new_chronos chronos_files
  new_chronos-OneFile s tplg k t = created-then os _ _ _ t (
      created-then os _ _ _ _ (
        created-then os _ _ _ _ (simp (text_eq_refl (local_conf_file s k)), λ p other. simp other)))

  -- What the loop over `n` instances from number `ii` leaves in the files.
  pub record Written (s : Site) (tplg : Topology) (ii n : ℕ) (t u : Trace) : Type 0 where
    pub cluster :
        contents (cluster_conf_file s) u ≡ contents (cluster_conf_file s) t ++ node_lines s ii n
    pub locals :
        (k : ℕ) → ii ≤ k → k < ii + n → contents (local_conf_file s k) u ≡ local_text s tplg k
    pub rest :
        (p : Text)
        → text_eq (cluster_conf_file s) p ≡ false
        → ((k : ℕ) → ii ≤ k → text_eq (local_conf_file s k) p ≡ false)
        → contents p u ≡ contents p t

  module _ (s : Site) (tplg : Topology) where
    abbrev node_event : ℕ → Trace → Trace
    node_event ii t =
        wrote (cluster_conf_file s) (
          codes "node = "
          ++ site_ip s (ii + 1)
          ++ codes ":"
          ++ to_string chronos_port
          ++ codes "\n")
        ∷ t

    node_event-line :
        (ii : ℕ) (t : Trace)
        → contents (cluster_conf_file s) (node_event ii t)
          ≡ contents (cluster_conf_file s) t ++ node_line (chronos_at s ii)
    unfolding new_instance
    node_event-line ii t = simp (text_eq_refl (cluster_conf_file s)) (
        ap (λ (x : Text). contents (cluster_conf_file s) t ++ x)
          (regroup (codes "node = ") (site_ip s (ii + 1)) (codes ":") (to_string chronos_port)
            (codes "\n")))

    Written-none : (ii : ℕ) (t : Trace) → Written s tplg ii 0 t t
    Written-none ii t = record {
      cluster = sym (append-nil _);
      locals = λ k above below. absurd (omega arith);
      rest = λ p other others. refl;
    }

    Written-more :
        (ii n : ℕ) (t u v : Trace)
        → OneFile (local_conf_file s ii) (local_text s tplg ii) (node_event ii t) u
        → Written s tplg (ii + 1) n u v
        → Written s tplg ii (suc n) t v
    Written-more ii n t u v (own, others) later =
        let file : Text = cluster_conf_file s in
        let before : contents file u ≡ contents file t ++ node_line (chronos_at s ii) =
          others file (local-cluster_conf s ii) ∙ node_event-line ii t in
        record {
          cluster =
              later.cluster
              ∙ ap (λ (x : Text). x ++ node_lines s (ii + 1) n) before
              ∙ append_assoc (contents file t) (node_line (chronos_at s ii))
                  (node_lines s (ii + 1) n);
          locals = λ k above below. elim (Bool-cases (k == ii)) [
            | inl first ↦
                let e : k ≡ ii = (==_iff k ii).0 first in
                rw e (
                  later.rest (local_conf_file s ii) (cluster_conf-local s ii)
                    (λ j after. local-local s j ii (λ same. omega arith))
                  ∙ own)
            | inr other ↦
                let ne : k ≢ ii = λ e. cc ((==_iff k ii).1 e) in
                later.locals k (omega arith) (omega arith)
          ];
          rest = λ p other locals.
              later.rest p other (λ k above. locals k (omega arith))
              ∙ others p (locals ii (omega arith))
              ∙ simp other;
        }

    pub chronos_loop-Written :
        (n ii : ℕ) (t : Trace)
        → Ensures (λ is u. Written s tplg ii n t u) (chronos_loop os s tplg n ii t)
    unfolding chronos_loop
    chronos_loop-Written zero ii t = Written-none ii t
    chronos_loop-Written (suc n) ii t =
        >>=-Ensures
          (λ i u. OneFile (local_conf_file s ii) (local_text s tplg ii) (node_event ii t) u)
          (λ is v. Written s tplg ii (suc n) t v) _ _
          (new_chronos-OneFile s tplg ii (node_event ii t))
          (λ i u one.
            >>=-Ensures (λ is v. Written s tplg (ii + 1) n u v)
              (λ is v. Written s tplg ii (suc n) t v) (chronos_loop os s tplg n (ii + 1) u) _
              (chronos_loop-Written n (ii + 1) u) (λ is v later. Written-more ii n t u v one later))
