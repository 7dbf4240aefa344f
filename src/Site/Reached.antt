-- ===== src/Site/Reached.antt =====
-- A site over any sequence of calls of its methods: which children it leaves, and which it signals.
use clearwater_fv_test.Base.{ℕ, ◌≡◌, subst, Bool, true, false, List, [], ◌∷◌, All}
use clearwater_fv_test.Text.Integer.{ℤ}
use clearwater_fv_test.System.{Trace, Os, Outcome, ok, pure, continue, ForkReturns}
use clearwater_fv_test.Process.Balance.{
  Balanced, SignalsLive, After, >>=-After, Kept, HasPid, kill-Kept, start-Kept, restart-Kept,
  wait-Kept,
}
use clearwater_fv_test.Process.{
  ProcessInstance, start_instance, kill_instance, restart_instance, wait_for_instance,
}
use clearwater_fv_test.Site.{Site}
use clearwater_fv_test.Site.Lifecycle.{
  for_each, for_each_instance, dropping, start, restart, kill, wait_one, wait_for_instances,
}
use clearwater_fv_test.Site.Addresses.{instances}
use clearwater_fv_test.Site.Live.{OneKept, Keeps, SiteKept, for_each_instance-Kept}

abbrev pub IsDown : ProcessInstance → Type 0
IsDown i = i.running ≡ false

-- No instance of the site is running.
abbrev pub AllDown : Site → Type 0
AllDown s =
    All IsDown s.memcached_instances
    × All IsDown s.rogers_instances
    × All IsDown s.chronos_instances

module _ (os : Os) where
  -- From a site and a trace, by calls of its methods that return: `start` is called only while no
  -- instance is running.
  pub data SiteReached (s₀ : Site) (t₀ : Trace) : Site → Trace → Type 0 where
    here : SiteReached s₀ t₀ s₀ t₀
    started :
        {s s' : Site} {t t' : Trace}
        → SiteReached s₀ t₀ s t
        → AllDown s
        → start os s t ≡ (ok s', t')
        → SiteReached s₀ t₀ s' t'
    restarted :
        {s s' : Site} {t t' : Trace}
        → SiteReached s₀ t₀ s t
        → restart os s t ≡ (ok s', t')
        → SiteReached s₀ t₀ s' t'
    killed :
        {s s' : Site} {t t' : Trace}
        → SiteReached s₀ t₀ s t
        → kill os s t ≡ (ok s', t')
        → SiteReached s₀ t₀ s' t'
    awaited :
        {s : Site} {t t' : Trace} {b : Bool}
        → SiteReached s₀ t₀ s t
        → wait_for_instances os s t ≡ (ok b, t')
        → SiteReached s₀ t₀ s t'

  -- The children that are left are `others` and those of the site, whose identifiers are set.
  abbrev pub SiteOwns : (ℤ → ℕ) → Site → Trace → Type 0
  SiteOwns others s t = Balanced os others (instances s) t × All (HasPid os) (instances s)

  abbrev pub SiteInv : (ℤ → ℕ) → Site → Trace → Type 0
  SiteInv others s t = SignalsLive os t × SiteOwns others s t

  dropped :
      (others : ℤ → ℕ) (c : Unit {0}) (r : Outcome (Bool × ProcessInstance) × Trace)
      → After os (Kept os others) r
      → After os (OneKept os others (Unit {0})) (continue r (λ (b, j). pure (c, j)))
  dropped others c r h =
      >>=-After os (Kept os others) (OneKept os others (Unit {0})) r _ h
        (λ (b, j) t sound kept. (sound, kept))

  kill-Keeps : Keeps os {S = Unit {0}} (λ i. Unit {0}) (dropping (kill_instance os))
  kill-Keeps others c i t allowed sound balance =
      dropped others c (kill_instance os i t) (kill-Kept os others i t sound balance)

  restart-Keeps :
      ForkReturns os → Keeps os {S = Unit {0}} (λ i. Unit {0}) (dropping (restart_instance os))
  restart-Keeps law others c i t allowed sound balance =
      dropped others c (restart_instance os i t) (restart-Kept os others law i t sound balance)

  start-Keeps : ForkReturns os → Keeps os {S = Unit {0}} IsDown (dropping (start_instance os))
  start-Keeps law others c i t down sound balance =
      dropped others c (start_instance os i t) (start-Kept os others i law t down sound balance)

  any : (is : List ProcessInstance) → All (λ i. Unit {0}) is
  any [] = tt
  any (i ∷ is) = (tt, any is)

  module _ (others : ℤ → ℕ) where
    result :
        (r : Outcome (Unit {0} × Site) × Trace)
        → After os (SiteKept os others (Unit {0})) r
        → After os (SiteOwns others) (continue r (λ (c, s). pure s))
    result r h =
        >>=-After os (SiteKept os others (Unit {0})) (SiteOwns others) r _ h
          (λ (c, s) t sound kept. (sound, kept))

    pub keep_start :
        ForkReturns os
        → (s : Site) (t : Trace) → AllDown s
        → SignalsLive os t
        → Balanced os others (instances s) t
        → After os (SiteOwns others) (start os s t)
    unfolding start
    keep_start law s t (dm, dr, dc) sound balance =
        result (for_each_instance (dropping (start_instance os)) tt s t) (
          for_each_instance-Kept os (dropping (start_instance os)) (start-Keeps law) others s tt t
            dm dr dc sound balance)

    keep_restart :
        ForkReturns os
        → (s : Site) (t : Trace) → SignalsLive os t
        → Balanced os others (instances s) t
        → After os (SiteOwns others) (restart os s t)
    unfolding restart
    keep_restart law s t sound balance =
        result (for_each_instance (dropping (restart_instance os)) tt s t) (
          for_each_instance-Kept os (dropping (restart_instance os)) (restart-Keeps law) others s tt
            t (any _) (any _) (any _) sound balance)

    pub keep_kill :
        (s : Site) (t : Trace)
        → SignalsLive os t
        → Balanced os others (instances s) t
        → After os (SiteOwns others) (kill os s t)
    unfolding kill
    keep_kill s t sound balance = result (for_each_instance (dropping (kill_instance os)) tt s t) (
        for_each_instance-Kept os (dropping (kill_instance os)) kill-Keeps others s tt t (any _)
          (any _) (any _) sound balance)

    -- Waiting leaves the children of any instances alone.
    module _ (all : List ProcessInstance) where
      abbrev pub Same : {A : Type 0} → A → Trace → Type 0
      Same a u = Balanced os others all u

      wait_one-Same :
          (b : Bool) (i : ProcessInstance) (t : Trace)
          → SignalsLive os t
          → Balanced os others all t
          → After os (Same {A = Bool × ProcessInstance}) (wait_one os b i t)
      unfolding wait_one
      wait_one-Same b i t sound balance =
          >>=-After os (Same {A = Bool}) (Same {A = Bool × ProcessInstance})
            (wait_for_instance os i t) _ (wait-Kept os others all i t sound balance)
            (λ up u s h. (s, h))

      for_each-Same :
          (is : List ProcessInstance) (b : Bool) (t : Trace)
          → SignalsLive os t
          → Balanced os others all t
          → After os (Same {A = Bool × List ProcessInstance}) (for_each (wait_one os) b is t)
      unfolding for_each
      for_each-Same [] b t sound balance = (sound, balance)
      for_each-Same (i ∷ is) b t sound balance =
          >>=-After os (Same {A = Bool × ProcessInstance}) (Same {A = Bool × List ProcessInstance})
            (wait_one os b i t) _ (wait_one-Same b i t sound balance)
            (λ (c, j) u s h.
              >>=-After os (Same {A = Bool × List ProcessInstance})
                (Same {A = Bool × List ProcessInstance}) (for_each (wait_one os) c is u) _
                (for_each-Same is c u s h) (λ (c', js) v s' h'. (s', h')))

      pub wait-Same :
          (s : Site) (t : Trace)
          → SignalsLive os t
          → Balanced os others all t
          → After os (Same {A = Bool}) (wait_for_instances os s t)
      unfolding wait_for_instances for_each_instance
      wait-Same s t sound balance =
          >>=-After os (Same {A = Bool × Site}) (Same {A = Bool})
            (for_each_instance (wait_one os) true s t) _
            (>>=-After os (Same {A = Bool × List ProcessInstance}) (Same {A = Bool × Site})
              (for_each (wait_one os) true s.memcached_instances t) _
              (for_each-Same s.memcached_instances true t sound balance)
              (λ (c₁, ms) t₁ s₁ h₁.
                >>=-After os (Same {A = Bool × List ProcessInstance}) (Same {A = Bool × Site})
                  (for_each (wait_one os) c₁ s.rogers_instances t₁) _
                  (for_each-Same s.rogers_instances c₁ t₁ s₁ h₁)
                  (λ (c₂, rs) t₂ s₂ h₂.
                    >>=-After os (Same {A = Bool × List ProcessInstance}) (Same {A = Bool × Site})
                      (for_each (wait_one os) c₂ s.chronos_instances t₂) _
                      (for_each-Same s.chronos_instances c₂ t₂ s₂ h₂)
                      (λ (c₃, cs) t₃ s₃ h₃. (s₃, h₃)))))
            (λ (b, s') u s'' h. (s'', h))

    -- Where fork() returns no negative number but -1, and the invariant holds of a site: after any
    -- calls of the site's methods that return, but `start` while an instance is running, the
    -- children that are left are those that `others` counts and the ones that the site's instances
    -- own, each as often as its identifier is listed; and each kill() went to a child that was
    -- left at that time, so never to an identifier that might have been reused.
    pub SiteReached-SiteInv :
        ForkReturns os
        → {s₀ : Site} {t₀ : Trace} → SiteInv others s₀ t₀
        → {s : Site} {t : Trace} → SiteReached s₀ t₀ s t
        → SiteInv others s t
    SiteReached-SiteInv law inv here = inv
    SiteReached-SiteInv law inv (started {s} {t = t} r down e) =
        let (sound, (balance, ready)) = SiteReached-SiteInv law inv r in
        subst (After os (SiteOwns others)) e (keep_start law s t down sound balance)
    SiteReached-SiteInv law inv (restarted {s} {t = t} r e) =
        let (sound, (balance, ready)) = SiteReached-SiteInv law inv r in
        subst (After os (SiteOwns others)) e (keep_restart law s t sound balance)
    SiteReached-SiteInv law inv (killed {s} {t = t} r e) =
        let (sound, (balance, ready)) = SiteReached-SiteInv law inv r in
        subst (After os (SiteOwns others)) e (keep_kill s t sound balance)
    SiteReached-SiteInv law inv (awaited {s} {t = t} r e) =
        let (sound, (balance, ready)) = SiteReached-SiteInv law inv r in
        let (sound', balance') =
          subst (After os (Same (instances s) {A = Bool})) e
            (wait-Same (instances s) s t sound balance) in
        (sound', (balance', ready))
