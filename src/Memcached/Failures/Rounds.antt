-- ===== src/Memcached/Failures/Rounds.antt =====
-- AddKillSetSetDataContentionSet: its rounds pass, one after the other, in every scenario.
use clearwater_fv_test.Base.{
  differ, ℕ, zero, suc, ◌+◌, ◌^◌, ◌≤◌, ◌≡◌, ◌≢◌, refl, ap, ◌∙◌, List, [], none, All, All-both,
  Distinct,
}
use clearwater_fv_test.Text.{Text, codes}
use clearwater_fv_test.System.{Os, Trace, Yields, >>=-Yields, continue}
use clearwater_fv_test.Memcached.Store.{Store, stored}
use clearwater_fv_test.Memcached.Timed.{IsTimed}
use clearwater_fv_test.Memcached.Fixture.{Fixture, table, default_expiry, get_new_key, new_keys}
use clearwater_fv_test.Memcached.Fixture.Keys.{new_keys-Distinct, new_keys-next}
use clearwater_fv_test.Memcached.Scenario.{Scenario}
use clearwater_fv_test.Memcached.Servers.Total.{IsWhole, IsHurt}
use clearwater_fv_test.Memcached.Simple.{expect_set, expect_get}
use clearwater_fv_test.Memcached.Case.{Case, CaseTest, Faults, trigger, fix, bounce_store}
use clearwater_fv_test.Memcached.Failures.{
  retry, contention_round, contention_rounds, add_kill_set_set_data_contention_set,
}
use clearwater_fv_test.Memcached.Failures.Steps.{
  Setting, Passed, Failed, trigger-Failed, Fixed, fix-Fixed, survives,
}
use clearwater_fv_test.Memcached.Failures.Parts.{
  started, started-Started, ended, ended-passes, Onward, Onward-trans, Aside-Onward, change-Onward,
}
use clearwater_fv_test.Memcached.Failures.Aside.{Retried, updated, update_status, retry-Retried}

texts_differ :
    codes "MemcachedSolutionFailureTest.AddKillSetSetDataContentionSet"
    ≢ codes "MemcachedSolutionFailureTest.AddKillSetSetDataContentionSet_New1"
texts_differ e = differ _ _ e refl

module _ {S : Store} (T : IsTimed S table) (os : Os) (faults : Faults S)
    (setting : Setting T os faults) (scenario : Scenario) where
  -- What a round leaves: nothing failed, and keys but its own that had no record have none.
  record RoundDone (c : Case S) (r : Unit {0} × Case S) (u : Trace) : Type 0 where
    passed : Passed c r u
    next : r.1.fixture.next_key ≡ (get_new_key c.fixture).1.next_key
    absent :
        (j : Text)
        → (get_new_key c.fixture).1.key ≢ j
        → T.view c.fixture.store j ≡ none
        → T.view r.1.fixture.store j ≡ none

  -- The repair at the end of a round, and the new store object.
  abbrev repair : CaseTest S (Unit {0})
  repair c t = continue (fix os faults scenario c t) (λ (x, c'). bounce_store faults c')

  record Repaired (c : Case S) (r : Unit {0} × Case S) (u : Trace) : Type 0 where
    same_failed : r.1.failed ≡ c.failed
    whole : IsWhole r.1.dbs
    passed : r.1.fixture.failed ≡ c.fixture.failed
    onward : Onward T c.fixture r.1.fixture

  repair-Repaired :
      (c : Case S) (t : Trace) → IsHurt scenario c.dbs → Yields (Repaired c) (repair c t)
  repair-Repaired c t hurt =
      >>=-Yields (Fixed T os faults setting scenario c) (Repaired c) (fix os faults scenario c t) _
        (fix-Fixed T os faults setting scenario c t hurt)
        (λ (x, c') u (same, kept, whole). (
          _,
          _,
          refl,
          record {
            same_failed = kept;
            whole = whole;
            passed = ap (λ (f : Fixture S). f.failed) same;
            onward =
                Onward-trans T (change-Onward T setting.fixes c same)
                  (change-Onward T setting.renews c' refl);
          },
        ))

  contention_round-RoundDone :
      (c : Case S) (t : Trace)
      → T.view c.fixture.store (get_new_key c.fixture).1.key ≡ none
      → IsWhole c.dbs
      → Yields (RoundDone c) (contention_round os faults scenario c t)
  unfolding contention_round get_new_key
  contention_round-RoundDone c t fresh whole =
      let L = T.store_laws in
      let d₁ : Text = codes "MemcachedSolutionFailureTest.AddKillSetSetDataContentionSet" in
      let d₂ : Text = codes "MemcachedSolutionFailureTest.AddKillSetSetDataContentionSet_New1" in
      let d₃ : Text = codes "MemcachedSolutionFailureTest.AddKillSetSetDataContentionSet_New2" in
      let c₀ : Case S = record c { fixture = (get_new_key c.fixture).1 } in
      let begun = started-Started T c₀ d₁ fresh in
      let c₁ : Case S = started T c₀ d₁ in
      let f₀ : Fixture S = (expect_set stored d₁ 0 default_expiry c₀.fixture).1 in
      let ((old, cas), f₁) = expect_get d₁ [] 0 f₀ in
      let n : ℕ = c.fixture.failed in
      >>=-Yields (Failed T os faults setting scenario c₁) (RoundDone c)
        (trigger os faults scenario c₁ t) _ (trigger-Failed T os faults setting scenario c₁ t whole)
        (λ (x, c₂) u (same, kept, hurt).
          let (cas', now₂) =
            survives T os faults setting scenario c₁ c₂.fixture d₁ begun.cas n same begun.now
              begun.lives in
          >>=-Yields (λ r v. Retried L d₂ n c₂ r) (RoundDone c)
            (retry d₂ old cas (update_status L c₂ d₂ cas) (updated L c₂ d₂ cas) u) _
            (retry-Retried L c₂ d₁ d₂ old cas' cas n u now₂ texts_differ)
            (λ ((old', cas₁), c₃) v done.
              let (passed, aside) =
                ended-passes T c₃ d₂ d₃ old' cas₁ done.cas n done.now done.stale in
              let (r, w, e, repaired) =
                repair-Repaired (ended T c₃ d₂ d₃ old' cas₁) v (rw (done.same_dbs) hurt) in
              let onward = Onward-trans T (Aside-Onward T begun.aside) (
                Onward-trans T (change-Onward T setting.fails c₁ same) (
                  Onward-trans T (Aside-Onward T done.aside)
                    (Onward-trans T (Aside-Onward T aside) repaired.onward))) in
              (
                r,
                w,
                e,
                record {
                  passed = (
                    repaired.passed ∙ passed,
                    repaired.same_failed ∙ done.same_failed ∙ kept,
                    repaired.whole,
                  );
                  next = onward.next;
                  absent = onward.absent;
                },
              )))

  -- Rounds with new keys that differ and have no records.
  contention_rounds-Passed :
      (n : ℕ) (c : Case S) (t : Trace)
      → Distinct (new_keys n c.fixture)
      → All (λ k. T.view c.fixture.store k ≡ none) (new_keys n c.fixture)
      → IsWhole c.dbs
      → Yields (Passed c) (contention_rounds os faults scenario n c t)
  unfolding contention_rounds new_keys
  contention_rounds-Passed zero c t differ absent whole = (_, _, refl, (refl, refl, whole))
  contention_rounds-Passed (suc n) c t differ absent whole =
      >>=-Yields (RoundDone c) (Passed c) (contention_round os faults scenario c t) _
        (contention_round-RoundDone c t absent.0 whole)
        (λ (x, c₁) u done.
          let key : Text = (get_new_key c.fixture).1.key in
          let keys : List Text = new_keys n (get_new_key c.fixture).1 in
          let same : new_keys n c₁.fixture ≡ keys = new_keys-next n c₁.fixture _ done.next in
          let absent₁ : All (λ k. T.view c₁.fixture.store k ≡ none) keys =
            All-both (λ k. key ≢ k) (λ k. T.view c.fixture.store k ≡ none)
              (λ k. T.view c₁.fixture.store k ≡ none) keys (λ k ne gone. done.absent k ne gone)
              differ.0 absent.1 in
          let (passed, kept, whole₁) = done.passed in
          let (r, v, e, (passed', kept', whole')) =
            contention_rounds-Passed n c₁ u (rw same differ.1) (rw same absent₁) whole₁ in
          (r, v, e, (passed' ∙ passed, kept' ∙ kept, whole')))

  -- Where no call of the operating system fails and the store survives failures, ten rounds of
  -- AddKillSetSetDataContentionSet run to their end in each scenario, if all instances are serving,
  -- none of the ten next keys has a record, and the counter of keys does not wrap around: no
  -- expectation fails, neither on the store nor on a failure or its repair, whether an update meets
  -- contention after a failure or not, and all instances are serving at the end.
  pub add_kill_set_set_data_contention_set-passes :
      (c : Case S) (t : Trace)
      → c.fixture.next_key + 10 ≤ 2 ^ 32
      → All (λ k. T.view c.fixture.store k ≡ none) (new_keys 10 c.fixture)
      → IsWhole c.dbs
      → Yields (Passed c) (add_kill_set_set_data_contention_set os faults scenario c t)
  unfolding add_kill_set_set_data_contention_set
  add_kill_set_set_data_contention_set-passes c t below absent whole =
      contention_rounds-Passed 10 c t (new_keys-Distinct 10 c.fixture below) absent whole
