-- ===== src/Site/Forked.antt =====
-- `Site::start` in forked children of the program.
use clearwater_fv_test.Base.{◌+◌, ◌≡◌, refl, List, [], ◌∷◌, ◌++◌, length, arith}
use clearwater_fv_test.Text.Integer.{pos, negsuc}
use clearwater_fv_test.System.{Os, Trace, ok}
use clearwater_fv_test.Process.{ProcessInstance, start_instance}
use clearwater_fv_test.Process.Child.{
  NoProgram, forks, StartsNone, child-StartsNone, refused-StartsNone,
}
use clearwater_fv_test.Site.Addresses.{instances}
use clearwater_fv_test.Site.Lifecycle.{for_each, for_each_instance, dropping, start}
use clearwater_fv_test.Site.{Site}

length-append : (is js : List ProcessInstance) → length (is ++ js) ≡ length is + length js
length-append [] js = omega arith
length-append (i ∷ is) js = omega (arith, length-append is js)

module _ (os : Os) (starts_none : StartsNone os) where
  for_each-none :
      (is : List ProcessInstance) (t : Trace)
      → (u : Trace) × (for_each (dropping (start_instance os)) tt is t ≡ (ok (tt, is), u))
        × (forks u ≡ forks t + length is)
  unfolding for_each
  for_each-none [] t = (t, refl, omega arith)
  for_each-none (i ∷ is) t =
      let (u, e, one) = starts_none i t in
      let (v, f, more) = for_each-none is u in (v, simp (e, f), omega (arith, one, more))

  start-none :
      (s : Site) (t : Trace)
      → (u : Trace) × (start os s t ≡ (ok s, u)) × (forks u ≡ forks t + length (instances s))
  unfolding start for_each_instance
  start-none s t =
      let ms = s.memcached_instances in
      let rs = s.rogers_instances in
      let cs = s.chronos_instances in
      let (u, e, one) = for_each-none ms t in
      let (v, f, two) = for_each-none rs u in
      let (w, g, three) = for_each-none cs v in
      (
        w,
        simp (e, f, g),
        omega (arith, one, two, three, length-append ms (rs ++ cs), length-append rs cs),
      )

-- Where fork() returns 0 each time and execlp() can start no program, so in the last of a chain of
-- forked children, `Site::start` ends for its caller exactly as it does where fork() fails each
-- time: it returns, with the site as it was; and it has called fork() once for each instance of the
-- site.
pub start-in_children :
    (os os' : Os)
    → NoProgram os
    → ((t : Trace) → os.fork t ≡ pos 0)
    → ((t : Trace) → os'.fork t ≡ negsuc 0)
    → (s : Site) (t t' : Trace)
    → ((start os s t).0 ≡ (start os' s t').0)
      × ((start os s t).0 ≡ ok s)
      × (forks (start os s t).1 ≡ forks t + length (instances s))
start-in_children os os' none_starts child refused s t t' =
    let (u, e, many) = start-none os (child-StartsNone os none_starts child) s t in
    let (v, f, many') = start-none os' (refused-StartsNone os' refused) s t' in
    (rw (e, f), rw e, rw e many)
