-- ===== src/Memcached/Servers/Last.antt =====
-- Failures and repairs, in terms of the children that are left.
use clearwater_fv_test.Base.{ℕ, ◌+◌, List, [], ◌∷◌, ◌++◌, arith, All, All-append, Bool}
use clearwater_fv_test.Text.Integer.{ℤ}
use clearwater_fv_test.System.{Os, Trace, M}
use clearwater_fv_test.Process.Balance.{held, Balanced, SignalsLive, After, >>=-After, Kept, HasPid}
use clearwater_fv_test.Process.{ProcessInstance}
use clearwater_fv_test.Site.Live.{held-append}
use clearwater_fv_test.Site.Reached.{SiteOwns}
use clearwater_fv_test.Site.Destroyed.{All-left, All-right}
use clearwater_fv_test.Site.{Site}
use clearwater_fv_test.Memcached.Scenario.{on_last, expect_memcached, expect_rogers, both}

module _ (os : Os) where
  -- What a method of the last instance leaves, among `others`.
  abbrev pub LastKept : (ℤ → ℕ) → Bool × List ProcessInstance → Trace → Type 0
  LastKept others (b, js) t = Balanced os others js t × All (HasPid os) js

  -- A method that keeps the balance of one instance with its identifier set that `Allowed` admits.
  abbrev pub KeepsOne :
      (ProcessInstance → Type 0) → (ProcessInstance → M (Bool × ProcessInstance)) → Type 0
  KeepsOne Allowed method =
      (others : ℤ → ℕ) (i : ProcessInstance) (t : Trace)
      → Allowed i
      → HasPid os i
      → SignalsLive os t
      → Balanced os others (i ∷ []) t
      → After os (Kept os others) (method i t)

  -- A property of the last instance, if there is one.
  abbrev pub Last : (ProcessInstance → Type 0) → List ProcessInstance → Type 0
  Last Allowed [] = Unit
  Last Allowed (i ∷ []) = Allowed i
  Last Allowed (i ∷ k ∷ ks) = Last Allowed (k ∷ ks)

  module _ {Allowed : ProcessInstance → Type 0}
      (method : ProcessInstance → M (Bool × ProcessInstance))
      (keeps : KeepsOne Allowed method) where
    on_last-Kept :
        (others : ℤ → ℕ) (is : List ProcessInstance) (t : Trace)
        → Last Allowed is
        → All (HasPid os) is
        → SignalsLive os t
        → Balanced os others is t
        → After os (LastKept others) (on_last method is t)
    unfolding on_last
    on_last-Kept others [] t allowed ready sound balance = sound
    on_last-Kept others (i ∷ []) t allowed ready sound balance =
        >>=-After os (Kept os others) (LastKept others) (method i t) _
          (keeps others i t allowed ready.0 sound balance)
          (λ (b, j) u sound' (balance', ready'). (sound', (balance', (ready', tt))))
    on_last-Kept others (i ∷ k ∷ ks) t allowed ready sound balance =
        let more_others : ℤ → ℕ = λ q. others q + held os q (i ∷ []) in
        >>=-After os (LastKept more_others) (LastKept others) (on_last method (k ∷ ks) t) _
          (on_last-Kept more_others (k ∷ ks) t allowed ready.1 sound
            (λ q. omega (arith, balance q)))
          (λ (b, js) u sound' (balance', ready').
            (sound', (λ q. omega (arith, balance' q), (ready.0, ready'))))

  pub any-Last : (is : List ProcessInstance) → Last (λ i. Unit {0}) is
  any-Last [] = tt
  any-Last (i ∷ []) = tt
  any-Last (i ∷ k ∷ ks) = any-Last (k ∷ ks)

  -- What an expectation leaves.
  abbrev pub Left : (ℤ → ℕ) → ℕ × Site → Trace → Type 0
  Left others (n, s) t = SiteOwns os others s t

  module _ {Allowed : ProcessInstance → Type 0}
      (method : ProcessInstance → M (Bool × ProcessInstance)) (keeps : KeepsOne Allowed method)
      (others : ℤ → ℕ) where
    pub expect_memcached-Left :
        (s : Site) (t : Trace)
        → Last Allowed s.memcached_instances
        → SignalsLive os t
        → SiteOwns os others s t
        → After os (Left others) (expect_memcached method s t)
    unfolding expect_memcached
    expect_memcached-Left s t allowed sound (balance, ready) =
        let ms = s.memcached_instances in
        let rest = s.rogers_instances ++ s.chronos_instances in
        >>=-After os (LastKept (λ q. others q + held os q rest)) (Left others) (on_last method ms t)
          _
          (on_last-Kept method keeps (λ q. others q + held os q rest) ms t allowed
            (All-left (HasPid os) ms rest ready) sound
            (λ q. omega (arith, balance q, held-append os q ms rest)))
          (λ (b, js) u sound' (balance', ready'). (
            sound',
            (
              λ q. omega (arith, balance' q, held-append os q js rest),
              All-append (HasPid os) js rest ready' (All-right (HasPid os) ms rest ready),
            ),
          ))

    pub expect_rogers-Left :
        (s : Site) (t : Trace)
        → Last Allowed s.rogers_instances
        → SignalsLive os t
        → SiteOwns os others s t
        → After os (Left others) (expect_rogers method s t)
    unfolding expect_rogers
    expect_rogers-Left s t allowed sound (balance, ready) =
        let ms = s.memcached_instances in
        let rs = s.rogers_instances in
        let cs = s.chronos_instances in
        let ready_rest = All-right (HasPid os) ms (rs ++ cs) ready in
        let more_others : ℤ → ℕ = λ q. others q + held os q (ms ++ cs) in
        >>=-After os (LastKept more_others) (Left others) (on_last method rs t) _
          (on_last-Kept method keeps more_others rs t allowed
            (All-left (HasPid os) rs cs ready_rest) sound
            (λ q. omega (
              arith,
              balance q,
              held-append os q ms (rs ++ cs),
              held-append os q rs cs,
              held-append os q ms cs,
            )))
          (λ (b, js) u sound' (balance', ready'). (
            sound',
            (
              λ q. omega (
                arith,
                balance' q,
                held-append os q ms (js ++ cs),
                held-append os q js cs,
                held-append os q ms cs,
              ),
              All-append (HasPid os) ms (js ++ cs) (All-left (HasPid os) ms (rs ++ cs) ready)
                  (All-append (HasPid os) js cs ready' (All-right (HasPid os) rs cs ready_rest)),
            ),
          ))

  pub both-Left :
      (others : ℤ → ℕ) (first second : Site → M (ℕ × Site)) (s : Site) (t : Trace)
      → After os (Left others) (first s t)
      → ((s' : Site) (u : Trace)
          → SignalsLive os u
          → SiteOwns os others s' u
          → After os (Left others) (second s' u))
      → After os (Left others) (both first second s t)
  unfolding both
  both-Left others first second s t h next =
      >>=-After os (Left others) (Left others) (first s t) _ h (λ (m, s₁) u sound owns.
        >>=-After os (Left others) (Left others) (second s₁ u) _ (next s₁ u sound owns)
          (λ (n, s₂) v sound' owns'. (sound', owns')))
