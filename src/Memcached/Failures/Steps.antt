-- ===== src/Memcached/Failures/Steps.antt =====
-- What a failure and its repair make of the record of the test's key, and of the instances.
use clearwater_fv_test.Base.{ℕ, ◌+◌, ◌≡◌, refl, sym, ap, subst, ◌∙◌, none, some, arith}
use clearwater_fv_test.Text.{Text}
use clearwater_fv_test.System.{Os, Trace, M, continue, Yields, >>=-Yields}
use clearwater_fv_test.Process.Healthy.{IsHealthy}
use clearwater_fv_test.Memcached.Store.{Store}
use clearwater_fv_test.Memcached.Timed.{seconds, IsTimed}
use clearwater_fv_test.Memcached.Fixture.{Fixture, table}
use clearwater_fv_test.Memcached.Scenario.{Scenario, trigger_failure, fix_failure}
use clearwater_fv_test.Memcached.Servers.Total.{IsWhole, IsHurt, Clean, trigger-Yields, fix-Yields}
use clearwater_fv_test.Memcached.Simple.Steps.{Now}
use clearwater_fv_test.Memcached.Case.{Case, Faults, IsTolerant, change_store, trigger, fix}

-- No call of the operating system fails, and the store survives the failures.
pub record Setting {S : Store} (T : IsTimed S table) (os : Os) (faults : Faults S) : Type 0 where
  pub healthy : IsHealthy os
  pub fails : IsTolerant T faults.fail
  pub fixes : IsTolerant T faults.fix
  pub renews : IsTolerant T faults.renew

-- No expectation has failed since `c₀`, and all instances are serving.
abbrev pub Passed : {S : Store} → Case S → Unit {0} × Case S → Trace → Type 0
Passed c₀ (x, c) u = (c.fixture.failed ≡ c₀.fixture.failed) × (c.failed ≡ c₀.failed) × IsWhole c.dbs

no_more : (m n : ℕ) → n ≡ 0 → m + n ≡ m
no_more m n e = omega (arith, e)

module _ {S : Store} (T : IsTimed S table) (os : Os) (faults : Faults S)
    (setting : Setting T os faults) (scenario : Scenario) where
  -- What a failure leaves of a case: a changed store, and instances that can be repaired.
  abbrev pub Failed : Case S → Unit {0} × Case S → Trace → Type 0
  Failed c (x, c') u =
      (c'.fixture ≡ change_store faults.fail c) × (c'.failed ≡ c.failed) × IsHurt scenario c'.dbs

  pub trigger-Failed :
      (c : Case S) (t : Trace) → IsWhole c.dbs → Yields (Failed c) (trigger os faults scenario c t)
  unfolding trigger
  trigger-Failed c t whole =
      >>=-Yields (Clean (IsHurt scenario)) (Failed c) (trigger_failure os scenario c.dbs t) _
        (trigger-Yields os setting.healthy scenario c.dbs t whole)
        (λ (n, s) u (none_failed, hurt). (_, _, refl, (refl, no_more c.failed n none_failed, hurt)))

  abbrev pub Fixed : Case S → Unit {0} × Case S → Trace → Type 0
  Fixed c (x, c') u =
      (c'.fixture ≡ change_store faults.fix c) × (c'.failed ≡ c.failed) × IsWhole c'.dbs

  pub fix-Fixed :
      (c : Case S) (t : Trace)
      → IsHurt scenario c.dbs
      → Yields (Fixed c) (fix os faults scenario c t)
  unfolding fix
  fix-Fixed c t hurt =
      >>=-Yields (Clean IsWhole) (Fixed c) (fix_failure os scenario c.dbs t) _
        (fix-Yields os setting.healthy scenario c.dbs t hurt)
        (λ (n, s) u (none_failed, whole).
          (_, _, refl, (refl, no_more c.failed n none_failed, whole)))

  -- The repair at the end of a test.
  pub fix-Passed :
      (c₀ c : Case S) (t : Trace)
      → c.fixture.failed ≡ c₀.fixture.failed
      → c.failed ≡ c₀.failed
      → IsHurt scenario c.dbs
      → Yields (Passed c₀) (fix os faults scenario c t)
  fix-Passed c₀ c t passed kept hurt =
      let (x, u, e, (same, kept', whole)) = fix-Fixed c t hurt in
      (x, u, e, (ap (λ (f : Fixture S). f.failed) same ∙ passed, kept' ∙ kept, whole))

  -- What holds after a failure, when the key had a record with a minute to live.
  pub survives :
      (c : Case S) (f : Fixture S) (d : Text) (cas n : ℕ)
      → f ≡ change_store faults.fail c
      → Now T.store_laws c.fixture (some (d, cas)) n
      → T.left c.fixture.store c.fixture.key ≡ seconds 60
      → (cas' : ℕ) × Now T.store_laws f (some (d, cas')) n
  survives c f d cas n same now lives =
      let (cas', found) =
        setting.fails.keeps c.fixture.store c.fixture.key d cas now.here (omega (arith, lives)) in
      (
        cas',
        subst (λ g. Now T.store_laws g (some (d, cas')) n) (sym same)
            (record { here = found; passed = now.passed }),
      )

  pub stays_gone :
      (c : Case S) (f : Fixture S) (n : ℕ)
      → f ≡ change_store faults.fail c
      → Now T.store_laws c.fixture none n
      → Now T.store_laws f none n
  stays_gone c f n same now =
      subst (λ g. Now T.store_laws g none n) (sym same)
        (record {
          here = setting.fails.stays_missing c.fixture.store c.fixture.key now.here;
          passed = now.passed;
        })

  -- The rest of a test after a failure, by whether the key had a record.
  module _ (c₀ : Case S) (rest : Unit {0} × Case S → M (Unit {0} × Case S)) (c : Case S) (t : Trace)
      (kept : c.failed ≡ c₀.failed) (whole : IsWhole c.dbs) where
    -- The test passes from here on.
    abbrev pub GoesOn : Case S → Type 0
    GoesOn c' =
        (u : Trace)
        → c'.failed ≡ c₀.failed
        → IsHurt scenario c'.dbs
        → Yields (Passed c₀) (rest (tt, c') u)

    pub trigger_found :
        (d : Text) (cas : ℕ)
        → Now T.store_laws c.fixture (some (d, cas)) c₀.fixture.failed
        → T.left c.fixture.store c.fixture.key ≡ seconds 60
        → ((c' : Case S) (cas' : ℕ)
            → Now T.store_laws c'.fixture (some (d, cas')) c₀.fixture.failed
            → GoesOn c')
        → Yields (Passed c₀) (continue (trigger os faults scenario c t) rest)
    trigger_found d cas now lives goes_on =
        >>=-Yields (Failed c) (Passed c₀) (trigger os faults scenario c t) rest
          (trigger-Failed c t whole)
          (λ (x, c') u (same, kept', hurt).
            let (cas', now') = survives c c'.fixture d cas c₀.fixture.failed same now lives in
            goes_on c' cas' now' u (kept' ∙ kept) hurt)

    pub trigger_gone :
        Now T.store_laws c.fixture none c₀.fixture.failed
        → ((c' : Case S) → Now T.store_laws c'.fixture none c₀.fixture.failed → GoesOn c')
        → Yields (Passed c₀) (continue (trigger os faults scenario c t) rest)
    trigger_gone now goes_on =
        >>=-Yields (Failed c) (Passed c₀) (trigger os faults scenario c t) rest
          (trigger-Failed c t whole)
          (λ (x, c') u (same, kept', hurt).
            goes_on c' (stays_gone c c'.fixture c₀.fixture.failed same now) u (kept' ∙ kept) hurt)
