-- ===== src/Site/Live.antt =====
-- The processes of a whole site: what start, kill, restart, waiting and destruction of a `Site`
-- leave running.
use clearwater_fv_test.Base.{ℕ, ◌+◌, ◌≡◌, List, [], ◌∷◌, ◌++◌, arith, All, All-append}
use clearwater_fv_test.Text.Integer.{ℤ}
use clearwater_fv_test.System.{Trace, Os, M}
use clearwater_fv_test.Process.Balance.{held, Balanced, SignalsLive, After, >>=-After, HasPid}
use clearwater_fv_test.Process.{ProcessInstance}
use clearwater_fv_test.Site.{Site}
use clearwater_fv_test.Site.Lifecycle.{for_each, for_each_instance}
use clearwater_fv_test.Site.Addresses.{instances}

module _ (os : Os) where
  pub held-append :
      (q : ℤ) (is js : List ProcessInstance) → held os q (is ++ js) ≡ held os q is + held os q js
  held-append q [] js = omega arith
  held-append q (i ∷ is) js = omega (arith, held-append q is js)

  -- What a loop over instances leaves, among `others`.
  abbrev pub AllKept : (ℤ → ℕ) → (S : Type 0) → S × List ProcessInstance → Trace → Type 0
  AllKept others S (c, js) t = Balanced os others js t × All (HasPid os) js

  abbrev pub OneKept : (ℤ → ℕ) → (S : Type 0) → S × ProcessInstance → Trace → Type 0
  OneKept others S (c, j) t = Balanced os others (j ∷ []) t × HasPid os j

  -- What a loop over all instances of a site leaves.
  abbrev pub SiteKept : (ℤ → ℕ) → (S : Type 0) → S × Site → Trace → Type 0
  SiteKept others S (c, s) t = Balanced os others (instances s) t × All (HasPid os) (instances s)

  -- A function for the loop that keeps the balance where the instance meets `Allowed`.
  abbrev pub Keeps :
      {S : Type 0}
      → (ProcessInstance → Type 0)
      → (S → ProcessInstance → M (S × ProcessInstance))
      → Type 0
  Keeps {S} Allowed fn =
      (others : ℤ → ℕ) (c : S) (i : ProcessInstance) (t : Trace)
      → Allowed i
      → SignalsLive os t
      → Balanced os others (i ∷ []) t
      → After os (OneKept others S) (fn c i t)

  module _ {S : Type 0} {Allowed : ProcessInstance → Type 0}
      (fn : S → ProcessInstance → M (S × ProcessInstance)) (keeps : Keeps Allowed fn) where
    for_each-Kept :
        (others : ℤ → ℕ) (is : List ProcessInstance) (c : S) (t : Trace)
        → All Allowed is
        → SignalsLive os t
        → Balanced os others is t
        → After os (AllKept others S) (for_each fn c is t)
    unfolding for_each
    for_each-Kept others [] c t allowed sound balance = (sound, (balance, tt))
    for_each-Kept others (i ∷ is) c t allowed sound balance =
        >>=-After os (OneKept (λ q. others q + held os q is) S) (AllKept others S) (fn c i t) _
          (keeps (λ q. others q + held os q is) c i t allowed.0 sound
            (λ q. omega (arith, balance q)))
          (λ (c', j) u sound' (balance', ready).
            >>=-After os (AllKept (λ q. others q + held os q (j ∷ [])) S) (AllKept others S)
              (for_each fn c' is u) _
              (for_each-Kept (λ q. others q + held os q (j ∷ [])) is c' u allowed.1 sound'
                (λ q. omega (arith, balance' q)))
              (λ (c'', js) v sound'' (balance'', all_ready).
                (sound'', (λ q. omega (arith, balance'' q), (ready, all_ready)))))

    pub for_each_instance-Kept :
        (others : ℤ → ℕ) (s : Site) (c : S) (t : Trace)
        → All Allowed s.memcached_instances
        → All Allowed s.rogers_instances
        → All Allowed s.chronos_instances
        → SignalsLive os t
        → Balanced os others (instances s) t
        → After os (SiteKept others S) (for_each_instance fn c s t)
    unfolding for_each_instance
    for_each_instance-Kept others s c t am ar ac sound balance =
        let ms = s.memcached_instances in
        let rs = s.rogers_instances in
        let cs = s.chronos_instances in
        >>=-After os (AllKept (λ q. others q + held os q (rs ++ cs)) S) (SiteKept others S)
          (for_each fn c ms t) _
          (for_each-Kept (λ q. others q + held os q (rs ++ cs)) ms c t am sound
            (λ q. omega (arith, balance q, held-append q ms (rs ++ cs))))
          (λ (c₁, ms') t₁ sound₁ (balance₁, ready₁).
            >>=-After os (AllKept (λ q. others q + held os q (ms' ++ cs)) S) (SiteKept others S)
              (for_each fn c₁ rs t₁) _
              (for_each-Kept (λ q. others q + held os q (ms' ++ cs)) rs c₁ t₁ ar sound₁
                (λ q. omega (arith, balance₁ q, held-append q rs cs, held-append q ms' cs)))
              (λ (c₂, rs') t₂ sound₂ (balance₂, ready₂).
                >>=-After os (AllKept (λ q. others q + held os q (ms' ++ rs')) S)
                  (SiteKept others S) (for_each fn c₂ cs t₂) _
                  (for_each-Kept (λ q. others q + held os q (ms' ++ rs')) cs c₂ t₂ ac sound₂
                    (λ q. omega (arith, balance₂ q, held-append q ms' cs, held-append q ms' rs')))
                  (λ (c₃, cs') t₃ sound₃ (balance₃, ready₃). (
                    sound₃,
                    (
                      λ q. omega (
                        arith,
                        balance₃ q,
                        held-append q ms' rs',
                        held-append q ms' (rs' ++ cs'),
                        held-append q rs' cs',
                      ),
                      All-append (HasPid os) ms' (rs' ++ cs') ready₁
                          (All-append (HasPid os) rs' cs' ready₂ ready₃),
                    ),
                  ))))
