-- ===== src/Site/Settings.antt =====
-- The cluster settings, which the constructor of `Site` writes and each Rogers process reads.
use clearwater_fv_test.Base.{
  ℕ, zero, suc, ◌+◌, ◌≡◌, refl, sym, ap, ◌∙◌, true, false, List, [], ◌∷◌, ◌++◌, map, append-nil,
  append_assoc, ◌==◌, if◌then◌else◌, numbered, text_eq, text_eq_iff, arith,
}
use clearwater_fv_test.Text.{Text, codes, join}
use clearwater_fv_test.Text.Integer.{ℤ, to_string}
use clearwater_fv_test.System.{Trace, opened_file, wrote, contents}
use clearwater_fv_test.Process.{ProcessInstance}
use clearwater_fv_test.Site.{
  Site, rounds, memcached_loop, create_memcached_instances, cluster_settings_file,
}
use clearwater_fv_test.Site.Build.{memcached_at, memcached_loop-numbered}

-- `IP:port`, as the settings name a process.
abbrev pub host_port : ProcessInstance → Text
host_port i = i.ip ++ codes ":" ++ to_string i.port

-- The settings that name the given servers: a single line with commas between them.
abbrev pub servers_line : List Text → Text
servers_line [] = []
servers_line (x ∷ xs) = codes "servers=" ++ join (codes ",") (x ∷ xs)

text_eq_refl : (xs : Text) → text_eq xs xs ≡ true
text_eq_refl xs = (text_eq_iff xs xs).1 refl

-- What the loop writes from round `ii` on.
abbrev pieces : Site → ℕ → ℕ → Text
pieces s zero ii = []
pieces s (suc n) ii =
    (if ii == 0 then codes "servers=" else codes ",")
    ++ (host_port (memcached_at s ii) ++ pieces s n (ii + 1))

memcached_loop-contents :
    (s : Site) (n ii : ℕ) (t : Trace)
    → let t' = (memcached_loop s n ii t).1 in
      contents (cluster_settings_file s) t' ≡ contents (cluster_settings_file s) t ++ pieces s n ii
unfolding memcached_loop
memcached_loop-contents s zero ii t = sym (append-nil _)
memcached_loop-contents s (suc n) ii t =
    let file = cluster_settings_file s in
    let u : Trace =
      wrote file (host_port (memcached_at s ii))
      ∷ wrote file (if ii == 0 then codes "servers=" else codes ",")
      ∷ t in
    let (t', e) = memcached_loop-numbered s n (ii + 1) u in
    let ih = memcached_loop-contents s n (ii + 1) u in
    rw e ((simp (e, text_eq_refl file) at ih) ∙ simp append_assoc)

-- After the first round.
pieces-join :
    (s : Site) (n ii : ℕ)
    → host_port (memcached_at s ii) ++ pieces s n (ii + 1)
      ≡ join (codes ",") (map host_port (numbered (memcached_at s) ii (suc n)))
pieces-join s zero ii = append-nil _
pieces-join s (suc n) ii =
    let later : ((ii + 1) == 0) ≡ false = ground arith in
    rw later (
      ap (λ (x : Text). host_port (memcached_at s ii) ++ (codes "," ++ x))
        (pieces-join s n (ii + 1))
      ∙ sym (append_assoc (host_port (memcached_at s ii)) (codes ",") _))

pieces-servers_line :
    (s : Site) (n : ℕ) → pieces s n 0 ≡ servers_line (map host_port (numbered (memcached_at s) 0 n))
pieces-servers_line s zero = refl
pieces-servers_line s (suc n) = ap (λ (x : Text). codes "servers=" ++ x) (pieces-join s n 0)

-- The settings file of a site, once its memcached instances are made, names exactly these, by
-- address and port and in their order, on one line without a trailing comma; for no instance it
-- is empty. Nothing of what the file held before is left.
pub create_memcached-contents :
    (s : Site) (count : ℤ) (t : Trace)
    → contents (cluster_settings_file s) (create_memcached_instances s count t).1
      ≡ servers_line (map host_port (numbered (memcached_at s) 0 (rounds count)))
unfolding create_memcached_instances
create_memcached-contents s count t =
    let file = cluster_settings_file s in
    let (t', e) = memcached_loop-numbered s (rounds count) 0 (opened_file file ∷ t) in
    let whole = memcached_loop-contents s (rounds count) 0 (opened_file file ∷ t) in
    rw e ((simp (e, text_eq_refl file) at whole) ∙ pieces-servers_line s (rounds count))
