-- ===== src/Process/Resolver.antt =====
-- Reading the configuration of dnsmasq back: the addresses that it serves for each name.
use clearwater_fv_test.Base.{
  text_eq, if◌then◌else◌, ◌≡◌, ◌≢◌, refl, ap, ◌∙◌, List, [], ◌∷◌, ◌++◌, append_assoc, Option, none,
  some, arith, All, All-append,
}
use clearwater_fv_test.Text.{Text, codes}
use clearwater_fv_test.Text.Integer.{ℤ, to_string}
use clearwater_fv_test.Text.Split.{Lacks, split, split-first, split-only, strip, to_string-Lacks}
use clearwater_fv_test.System.{Trace, ok, contents}
use clearwater_fv_test.Process.{ProcessInstance}
use clearwater_fv_test.Process.Config.{host_record, cfgfile_name, new_dnsmasq}
use clearwater_fv_test.Process.Dnsmasq.{answers, host_lines, new_dnsmasq-contents}

abbrev pair : List Text → List (Text × Text)
pair (name ∷ ip ∷ []) = (name, ip) ∷ []
pair _ = []

abbrev record_of : Option Text → List (Text × Text)
record_of none = []
record_of (some rest) = pair (split b',' rest)

-- `host-record=<name>,<address>`, and nothing of any other line.
unfoldable pub host_of : Text → List (Text × Text)
unfolding split strip
host_of line = record_of (strip (codes "host-record=") line)

unfoldable pub hosts_of : List Text → List (Text × Text)
unfolding host_of
hosts_of [] = []
hosts_of (line ∷ lines) = host_of line ++ hosts_of lines

-- The names and addresses of a configuration, line by line.
unfoldable pub read_hosts : Text → List (Text × Text)
unfolding hosts_of split
read_hosts file = hosts_of (split b'\n' file)

-- The addresses of a name.
abbrev pub addresses : Text → List (Text × Text) → List Text
addresses name [] = []
addresses name ((n, ip) ∷ rest) =
    let later = addresses name rest in if text_eq n name then ip ∷ later else later

-- What a text between two commas or line ends can be.
abbrev pub IsPlain : Text → Type 0
IsPlain s = Lacks b',' s × Lacks b'\n' s

abbrev pub ArePlain : Text × Text → Type 0
ArePlain (name, ip) = IsPlain name × IsPlain ip

read_hosts-line :
    (line rest : Text)
    → Lacks b'\n' line
    → read_hosts (line ++ b'\n' ∷ rest) ≡ host_of line ++ read_hosts rest
unfolding read_hosts hosts_of
read_hosts-line line rest h = rw (split-first b'\n' line rest h)

host_of-record :
    (name ip : Text)
    → ArePlain (name, ip)
    → host_of (codes "host-record=" ++ name ++ b',' ∷ ip) ≡ (name, ip) ∷ []
unfolding host_of
host_of-record name ip ((name_comma, name_line), (ip_comma, ip_line)) =
    rw (split-first b',' name ip name_comma, split-only b',' ip ip_comma)

-- A host record up to its line end.
abbrev record_line : Text → Text → Text
record_line name ip = codes "host-record=" ++ name ++ b',' ∷ ip

record_line-Lacks : (name ip : Text) → ArePlain (name, ip) → Lacks b'\n' (record_line name ip)
record_line-Lacks name ip ((name_comma, name_line), (ip_comma, ip_line)) =
    All-append (λ c. c ≢ b'\n') (codes "host-record=" ++ name) (b',' ∷ ip)
      (All-append (λ c. c ≢ b'\n') (codes "host-record=") name (omega arith) name_line)
      (omega arith, ip_line)

record_split :
    (name ip rest : Text) → host_record name ip ++ rest ≡ record_line name ip ++ b'\n' ∷ rest
record_split name ip rest = simp append_assoc

read_hosts-lines : (hs : List (Text × Text)) → All ArePlain hs → read_hosts (host_lines hs) ≡ hs
unfolding read_hosts hosts_of host_of
read_hosts-lines [] h = refl
read_hosts-lines ((name, ip) ∷ hs) (plain, rest) =
    ap read_hosts (record_split name ip (host_lines hs))
    ∙ read_hosts-line (record_line name ip) (host_lines hs) (record_line-Lacks name ip plain)
    ∙ ap (λ (x : List (Text × Text)). x ++ read_hosts (host_lines hs))
        (host_of-record name ip plain)
    ∙ ap (◌∷◌ (name, ip)) (read_hosts-lines hs rest)

regroup :
    (a b rest : Text)
    → (a ++ codes "\n") ++ (b ++ codes "\n") ++ rest ≡ a ++ b'\n' ∷ (b ++ b'\n' ∷ rest)
regroup a b rest = simp append_assoc

-- For names and addresses without commas and line ends: the constructor of `DnsmasqInstance`
-- returns, and who reads its file back finds exactly the given addresses of each name, in order.
pub new_dnsmasq-read_hosts :
    (ip : Text) (port : ℤ) (records : List (Text × List Text)) (t : Trace)
    → Lacks b'\n' ip
    → All ArePlain (answers records)
    → (i : ProcessInstance) × (t' : Trace) × (new_dnsmasq ip port records t ≡ (ok i, t'))
      × (read_hosts (contents (cfgfile_name ip port) t') ≡ answers records)
unfolding read_hosts hosts_of host_of
new_dnsmasq-read_hosts ip port records t one_line plain =
    let (t', e, text) = new_dnsmasq-contents ip port records t in
    let first : Text = codes "listen-address=" ++ ip in
    let second : Text = codes "port=" ++ to_string port in
    let rest : Text = host_lines (answers records) in
    (
      _,
      t',
      e,
      ap read_hosts (text ∙ regroup first second rest)
          ∙ read_hosts-line first (second ++ b'\n' ∷ rest)
              (All-append (λ c. c ≢ b'\n') (codes "listen-address=") ip (omega arith) one_line)
          ∙ read_hosts-line second rest (
              All-append (λ c. c ≢ b'\n') (codes "port=") (to_string port) (omega arith)
                (to_string-Lacks b'\n' port (omega arith)))
          ∙ read_hosts-lines (answers records) plain,
    )
