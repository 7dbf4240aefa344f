-- ===== src/Site/Waiting.antt =====
-- `wait_for_instances`: every process of a site is waited for, in turn.
use clearwater_fv_test.Base.{
  ◌≡◌, refl, ◌∙◌, Bool, true, false, ◌&&◌, List, [], ◌∷◌, ◌++◌, if◌then◌else◌, All,
}
use clearwater_fv_test.System.{Os, Trace, ok}
use clearwater_fv_test.Process.{ProcessInstance, wait_for_instance}
use clearwater_fv_test.Process.Wait.{wait-bounds}
use clearwater_fv_test.Site.{Site}
use clearwater_fv_test.Site.Lifecycle.{for_each, for_each_instance, wait_one, wait_for_instances}
use clearwater_fv_test.Site.Addresses.{instances}

module _ (os : Os) where
  -- `wait_for_instance` of each instance, one after the other, with the results.
  pub data Waited : List ProcessInstance → Trace → List Bool → Trace → Type 0 where
    none_left : {t : Trace} → Waited [] t [] t
    waited :
        {i : ProcessInstance} {is : List ProcessInstance} {t u v : Trace} {b : Bool}
        {bs : List Bool}
        → wait_for_instance os i t ≡ (ok b, u)
        → Waited is u bs v
        → Waited (i ∷ is) t (b ∷ bs) v

  Waited-append :
      {is js : List ProcessInstance} {t u v : Trace} {bs cs : List Bool}
      → Waited is t bs u
      → Waited js u cs v
      → Waited (is ++ js) t (bs ++ cs) v
  Waited-append none_left w = w
  Waited-append (waited e w') w = waited e (Waited-append w' w)

  abbrev pub conj : List Bool → Bool
  conj [] = true
  conj (b ∷ bs) = b && conj bs

  -- The closure's `ok` after these results.
  abbrev after_results : Bool → List Bool → Bool
  after_results all_up [] = all_up
  after_results all_up (b ∷ bs) = after_results (if b then all_up else false) bs

  after_results-append :
      (a : Bool) (bs cs : List Bool)
      → after_results (after_results a bs) cs ≡ after_results a (bs ++ cs)
  after_results-append a [] cs = refl
  after_results-append a (b ∷ bs) cs = after_results-append (if b then a else false) bs cs

  after_results-false : (bs : List Bool) → after_results false bs ≡ false
  after_results-false [] = refl
  after_results-false (true ∷ bs) = after_results-false bs
  after_results-false (false ∷ bs) = after_results-false bs

  after_results-conj : (bs : List Bool) → after_results true bs ≡ conj bs
  after_results-conj [] = refl
  after_results-conj (true ∷ bs) = after_results-conj bs
  after_results-conj (false ∷ bs) = after_results-false bs

  -- An address is found for every instance.
  abbrev pub AllFound : List ProcessInstance → Type 0
  AllFound is = All (λ i. (t : Trace) → os.getaddrinfo t i.ip ≡ true) is

  for_each-Waited :
      (is : List ProcessInstance) (a : Bool) (t : Trace)
      → AllFound is
      → (bs : List Bool) × (v : Trace) × Waited is t bs v
        × (for_each (wait_one os) a is t ≡ (ok (after_results a bs, is), v))
  unfolding for_each wait_one
  for_each-Waited [] a t found = ([], t, none_left, refl)
  for_each-Waited (i ∷ is) a t found =
      let (b, u, e, calls, sleeps) = wait-bounds os i t (found.0 t) in
      let (bs, v, w, f) = for_each-Waited is (if b then a else false) u found.1 in
      (b ∷ bs, v, waited e w, simp (e, f))

  -- If an address is found for every instance of the site, `wait_for_instances` returns: it waits
  -- for the Memcached, the Rogers and the Chronos instances in this order, for each of them
  -- whatever the others' results are, and its result is the conjunction of theirs.
  pub wait_for_instances-all :
      (s : Site) (t : Trace)
      → AllFound s.memcached_instances
      → AllFound s.rogers_instances
      → AllFound s.chronos_instances
      → (bs : List Bool) × (v : Trace) × Waited (instances s) t bs v
        × (wait_for_instances os s t ≡ (ok (conj bs), v))
  unfolding wait_for_instances for_each_instance
  wait_for_instances-all s t fm fr fc =
      let (bs, u, w, e) = for_each-Waited s.memcached_instances true t fm in
      let (cs, v, w', e') = for_each-Waited s.rogers_instances (after_results true bs) u fr in
      let (ds, x, w'', e'') =
        for_each-Waited s.chronos_instances (after_results (after_results true bs) cs) v fc in
      let result : after_results (after_results (after_results true bs) cs) ds
          ≡ conj (bs ++ (cs ++ ds)) =
        after_results-append (after_results true bs) cs ds
        ∙ after_results-append true bs (cs ++ ds)
        ∙ after_results-conj (bs ++ (cs ++ ds)) in
      (bs ++ (cs ++ ds), x, Waited-append w (Waited-append w' w''), simp (e, e', e'', result))
