-- ===== src/Shared/Made.antt =====
-- The processes of a site, or of a dnsmasq, that a fixture makes and starts.
use clearwater_fv_test.Base.{ℕ, ap, List, [], ◌∷◌, ◌++◌, Option, none, some, arith, All, Bool}
use clearwater_fv_test.Text.{Text}
use clearwater_fv_test.Text.Integer.{ℤ}
use clearwater_fv_test.System.{
  Os, Trace, Outcome, ok, raised, terminated, undefined, replaced, M, ◌>>=◌, ForkReturns, Ensures,
}
use clearwater_fv_test.Process.Quiet.{Grows}
use clearwater_fv_test.Process.Live.{Grows-live}
use clearwater_fv_test.Process.Balance.{
  times, Balanced, SignalsLive, After, >>=-After, Kept, start-Kept, Grows-SignalsLive,
}
use clearwater_fv_test.Process.Config.{new_dnsmasq}
use clearwater_fv_test.Process.Dnsmasq.{new_dnsmasq-down}
use clearwater_fv_test.Process.{ProcessInstance, start_instance}
use clearwater_fv_test.Site.Addresses.{instances}
use clearwater_fv_test.Site.Quiet.{new_site-IsSilent}
use clearwater_fv_test.Site.Reached.{IsDown, AllDown, SiteOwns, keep_start}
use clearwater_fv_test.Site.Destroyed.{All-left, All-right, down-held, new_site-IsDown}
use clearwater_fv_test.Site.Lifecycle.{new_site, start}
use clearwater_fv_test.Site.{Site, Deployment}
use clearwater_fv_test.Shared.{deref}

abbrev pub of_site : Option Site → List ProcessInstance
of_site none = []
of_site (some s) = instances s

abbrev pub of_dnsmasq : Option ProcessInstance → List ProcessInstance
of_dnsmasq none = []
of_dnsmasq (some i) = i ∷ []

module _ (os : Os) where
  -- A quiet computation keeps the children.
  pub silent-After {ℓ} :
      {A : Type ℓ} (P : A → Trace → Type 0) (t : Trace) (r : Outcome A × Trace)
      → Grows t r.1
      → Ensures P r
      → SignalsLive os t
      → After os (λ a u. P a u × Grows t u) r
  silent-After P t (ok a, u) g h sound = (Grows-SignalsLive os g sound, (h, g))
  silent-After P t (raised e, u) g h sound = Grows-SignalsLive os g sound
  silent-After P t (terminated, u) g h sound = Grows-SignalsLive os g sound
  silent-After P t (undefined, u) g h sound = Grows-SignalsLive os g sound
  silent-After P t (replaced, u) g h sound = Grows-SignalsLive os g sound

  instances-AllDown : (s : Site) → All IsDown (instances s) → AllDown s
  instances-AllDown s h =
      let ms = s.memcached_instances in
      let rs = s.rogers_instances in
      let cs = s.chronos_instances in
      let rest = All-right IsDown ms (rs ++ cs) h in
      (All-left IsDown ms (rs ++ cs) h, All-left IsDown rs cs rest, All-right IsDown rs cs rest)

  module _ (law : ForkReturns os) (others : ℤ → ℕ) where
    -- A site is made, and then started.
    pub started_site {ℓ} :
        {A : Type ℓ} (Q : A → Trace → Type 0) (index : ℤ) (name dir : Text) (d : Deployment)
        (m r c : ℤ) (f : Site → M A) (t : Trace)
        → SignalsLive os t
        → Balanced os others [] t
        → ((s : Site) (u : Trace) → SignalsLive os u → SiteOwns os others s u → After os Q (f s u))
        → After os Q ((do made ← new_site os index name dir d m r c; s ← start os made; f s) t)
    started_site Q index name dir d m r c f t sound balance next =
        let made = new_site os index name dir d m r c t in
        >>=-After os (λ s u. All IsDown (instances s) × Grows t u) Q made _
          (silent-After (λ s u. All IsDown (instances s)) t made
            (new_site-IsSilent os index name dir d m r c t)
            (new_site-IsDown os index name dir d m r c t) sound)
          (λ s u sound' (down, quiet).
            >>=-After os (SiteOwns os others) Q (start os s u) _
              (keep_start os others law s u (instances-AllDown s down) sound' (λ q. omega (
                arith,
                ap (times q) (Grows-live os quiet),
                down-held os q (instances s) down,
                balance q,
              )))
              next)

    -- So is a dnsmasq.
    pub started_dnsmasq {ℓ} :
        {A : Type ℓ} (Q : A → Trace → Type 0) (ip : Text) (port : ℤ)
        (records : List (Text × List Text)) (f : Bool × ProcessInstance → M A) (t : Trace)
        → SignalsLive os t
        → Balanced os others [] t
        → ((b : Bool) (i : ProcessInstance) (u : Trace)
            → SignalsLive os u
            → Kept os others (b, i) u
            → After os Q (f (b, i) u))
        → After os Q ((do made ← new_dnsmasq ip port records; r ← start_instance os made; f r) t)
    started_dnsmasq Q ip port records f t sound balance next =
        let (i, u, e, quiet, down) = new_dnsmasq-down ip port records t in
        let before : Balanced os others (i ∷ []) u =
          λ q. rw down (omega (arith, ap (times q) (Grows-live os quiet), balance q)) in
        simp e (
          >>=-After os (Kept os others) Q (start_instance os i u) _
            (start-Kept os others i law u down (Grows-SignalsLive os quiet sound) before)
            (λ (b, j) v sound' kept. next b j v sound' kept))

  -- A dereferenced pointer leaves the trace as it is.
  module _ (P : Trace → Type 0) (t : Trace) (sound : SignalsLive os t) (holds : P t) where
    pub deref-After {ℓ} : {A : Type ℓ} (o : Option A) → After os (λ a u. P u) (deref o t)
    deref-After none = sound
    deref-After (some a) = (sound, holds)
