-- ===== src/Memcached/Thrash/Main/Fresh.antt =====
-- How long the keys of the thrash test live: a key that was incremented lives on for 300 seconds.
use clearwater_fv_test.Base.{
  differ, ℕ, zero, suc, ◌^◌, ◌<◌, ◌≡◌, ◌≢◌, sym, ◌∙◌, ◌⊎◌, inl, inr, List, [], ◌∷◌, Option, none,
  some, Bool-cases, text_eq, text_eq_iff, ◌==◌, ==_iff, ltb,
}
use clearwater_fv_test.Text.{Text}
use clearwater_fv_test.Text.Decimal.{decimal}
use clearwater_fv_test.Text.Integer.{ℤ, pos, to_string}
use clearwater_fv_test.Memcached.Store.{Store}
use clearwater_fv_test.Memcached.Timed.{seconds, IsTimed}
use clearwater_fv_test.Memcached.Thrash.{
  Thread, World, next_round, fetch, put_back, turn_at, turn, pick, run,
}
use clearwater_fv_test.Memcached.Thrash.Turns.{IsKey}
use clearwater_fv_test.Memcached.Thrash.Total.{goal, Inv}
use clearwater_fv_test.Memcached.Thrash.Final.{pick-Inv}

module _ {S : Store} {table : Text} (T : IsTimed S table) where
  -- The key still holds "0", or the last write to it was just now.
  abbrev pub Fresh : S.State → Text → Type 0
  Fresh s k = ((c : ℕ) × (T.view s k ≡ some (decimal 0, c))) ⊎ (T.left s k ≡ seconds 300)

  -- A state in which the record of a key, and how long it lives, are as before.
  Fresh-same :
      (s s' : S.State) (k : Text)
      → T.view s' k ≡ T.view s k
      → T.left s' k ≡ T.left s k
      → Fresh s k
      → Fresh s' k
  Fresh-same s s' k views lefts (inl (c, found)) = inl (c, views ∙ found)
  Fresh-same s s' k views lefts (inr lives) = inr (lefts ∙ lives)

  set-Fresh :
      (s : S.State) (key d' : Text) (cas : ℕ) (k d : Text) (c : ℕ)
      → T.view s k ≡ some (d, c)
      → Fresh s k
      → Fresh (S.set_data s table key d' cas (pos 300)).1 k
  set-Fresh s key d' cas k d c found fresh = elim (Bool-cases (text_eq key k)) [
    | inl this ↦
        let e : key ≡ k = (text_eq_iff key k).0 this in
        rw e (elim (Bool-cases (cas == c)) [
          | inl same ↦
              let match : cas ≡ c = (==_iff cas c).0 same in
              rw match (inr (T.match_left s k d d' c 299 found))
          | inr other ↦
              let ne : cas ≢ c = λ same. cc ((==_iff cas c).1 same) in
              Fresh-same s (S.set_data s table k d' cas (pos 300)).1 k
                ((T.set_conflict s k d d' c cas (pos 300) found ne).1 ∙ sym found)
                (T.conflict_left s k d d' c cas (pos 300) found ne) fresh
        ])
    | inr other ↦
        let ne : key ≢ k = λ e. differ key k e other in
        Fresh-same s (S.set_data s table key d' cas (pos 300)).1 k
          (T.set_other s key d' cas (pos 300) k ne) (T.other_left s key d' cas (pos 300) k ne) fresh
  ]

  module _ (keys : List Text) (junk : ℕ) where
    turn_at-Fresh :
        (round : ℕ) (rest : List Text) (held : Option (ℤ × ℕ)) (s : S.State) (k d : Text) (c : ℕ)
        → T.view s k ≡ some (d, c)
        → Fresh s k
        → Fresh (turn_at S table keys junk round rest held s).1 k
    unfolding turn_at next_round fetch put_back
    turn_at-Fresh zero [] held s k d c found fresh = fresh
    turn_at-Fresh (suc round) [] held s k d c found fresh = fresh
    turn_at-Fresh round (key ∷ ks) none s k d c found fresh =
        Fresh-same s (S.get_data s table key [] junk).1 k (T.get_view s key [] junk k)
          (T.get_left s key [] junk k) fresh
    turn_at-Fresh round (key ∷ ks) (some (value, cas)) s k d c found fresh =
        set-Fresh s key (to_string value) cas k d c found fresh

    module _ (n : ℕ) (bound : (k : Text) → goal T.cas_laws keys junk n k < 2 ^ 31) where
      pick-Fresh :
          (i : ℕ) (w : World S) (k : Text)
          → IsKey T.cas_laws keys junk k
          → Inv T.cas_laws keys junk n w
          → Fresh w.store k
          → Fresh (pick S table keys junk n i w).store k
      unfolding pick turn
      pick-Fresh i w k h inv fresh = elim (Bool-cases (ltb i n)) [
        | inl below ↦
            let (v, c, found, sum, held) = inv.owed k h in
            let th : Thread = w.threads i in
            rw below (turn_at-Fresh th.round th.rest th.held w.store k (decimal v) c found fresh)
        | inr above ↦ rw above fresh
      ]

      -- Whatever the schedule, a key that no longer holds "0" has 300 seconds to live.
      pub run-Fresh :
          (schedule : List ℕ) (w : World S) (k : Text)
          → IsKey T.cas_laws keys junk k
          → Inv T.cas_laws keys junk n w
          → Fresh w.store k
          → Fresh (run S table keys junk n schedule w).store k
      unfolding run
      run-Fresh [] w k h inv fresh = fresh
      run-Fresh (i ∷ schedule) w k h inv fresh =
          run-Fresh schedule (pick S table keys junk n i w) k h
            (pick-Inv T.cas_laws keys junk n bound i w inv) (pick-Fresh i w k h inv fresh)
