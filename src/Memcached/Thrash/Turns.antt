-- ===== src/Memcached/Thrash/Turns.antt =====
-- One turn of a thread, whatever it is about to do: what it does to each key, and to the checks.
use clearwater_fv_test.Base.{
  differ, ℕ, zero, suc, ◌^◌, ◌<◌, ◌≡◌, refl, sym, ap, subst, ◌∙◌, inl, inr, List, [], ◌∷◌, Option,
  none, some, ◌==◌, Bool-cases, text_eq, text_eq_iff, All, ==_iff,
}
use clearwater_fv_test.Text.{Text}
use clearwater_fv_test.Text.Decimal.{decimal}
use clearwater_fv_test.Text.Integer.{ℤ, pos, to_string}
use clearwater_fv_test.Memcached.Store.{
  Status, stored, not_found, data_contention, error, Store, IsCas,
}
use clearwater_fv_test.Memcached.Thrash.{Thread, turn, turn_at, put_back, after_set}
use clearwater_fv_test.Memcached.Thrash.Invariant.{
  count, HeldAt, Effect, Incremented, at_thread, next_round-Kept, fetch-Kept, put_back-Incremented,
  put_back-Kept, put_back-Kept_other,
}

module _ {S : Store} {table : Text} (C : IsCas S table) (keys : List Text) (junk : ℕ) where
  -- A key with its record and what a thread holds of it.
  abbrev pub Known : S.State → Text → List Text → Option (ℤ × ℕ) → Type 0
  Known s k rest held =
      (v : ℕ) × (c : ℕ) × (C.view s k ≡ some (decimal v, c))
      × HeldAt C keys junk s k v c rest held
      × (v < 2 ^ 31)

  -- A key that the threads work on.
  abbrev pub IsKey : Text → Type 0
  IsKey k = 0 < count k keys

  put_back-Effect :
      (round : ℕ) (key : Text) (ks : List Text) (value : ℤ) (cas : ℕ) (s : S.State)
      → Known s key (key ∷ ks) (some (value, cas))
      → (k : Text) (v c : ℕ) → C.view s k ≡ some (decimal v, c)
      → HeldAt C keys junk s k v c (key ∷ ks) (some (value, cas))
      → Effect C keys junk s k v c
          (at_thread round (key ∷ ks) (some (value, cas)))
          (put_back S table keys junk round key ks value cas s)
  put_back-Effect round key ks value cas s (w, c₀, here, own, small) k v c found held =
      elim (Bool-cases (cas == c₀)) [
        | inl same ↦
            let match : cas ≡ c₀ = (==_iff cas c₀).0 same in
            let here' : C.view s key ≡ some (decimal w, cas) =
              here ∙ ap (λ (x : ℕ). some (decimal w, x)) (sym match) in
            elim (Bool-cases (text_eq key k)) [
              | inl this ↦
                  let e : key ≡ k = (text_eq_iff key k).0 this in
                  let two : ◌≡◌ {A = Option (Text × ℕ)} (some (decimal w, cas))
                      (some (decimal v, c)) =
                    sym here' ∙ ap (C.view s) e ∙ found in
                  let cas_c : cas ≡ c = cc in
                  inr (
                    subst
                      (λ j.
                        Incremented C keys junk s j v
                          (at_thread round (key ∷ ks) (some (value, cas)))
                          (put_back S table keys junk round key ks value cas s))
                      e
                      (put_back-Incremented C keys junk round key ks value cas s v (decimal w) here'
                        ((held e).1 cas_c)))
              | inr other ↦ inl (
                  put_back-Kept_other C keys junk round key ks value cas s (decimal w) k v c here'
                    (λ e. differ key k e other) found)
            ]
        | inr other ↦ inl (
            put_back-Kept C keys junk round key ks value cas s (decimal w) c₀ k v c here
              (λ e. cc ((==_iff cas c₀).1 e)) found)
      ]

  -- One turn makes at most one increment, and the record of a key that is not incremented stays.
  turn_at-Effect :
      (round : ℕ) (rest : List Text) (held : Option (ℤ × ℕ)) (s : S.State)
      → ((j : Text) → IsKey j → Known s j rest held)
      → All IsKey rest
      → (k : Text) (v c : ℕ) → C.view s k ≡ some (decimal v, c)
      → HeldAt C keys junk s k v c rest held
      → v < 2 ^ 31
      → Effect C keys junk s k v c
          (at_thread round rest held)
          (turn_at S table keys junk round rest held s)
  unfolding turn_at
  turn_at-Effect round [] held s known are_keys k v c found own small =
      inl (next_round-Kept C keys junk round held s k v c found)
  turn_at-Effect round (key ∷ ks) none s known are_keys k v c found own small =
      inl (fetch-Kept C keys junk round key ks s k v c found small)
  turn_at-Effect round (key ∷ ks) (some (value, cas)) s known are_keys k v c found own small =
      put_back-Effect round key ks value cas s (known key are_keys.0) k v c found own

  -- No expectation of the thread fails.
  turn_at-failures :
      (round : ℕ) (rest : List Text) (held : Option (ℤ × ℕ)) (s : S.State)
      → ((j : Text) → IsKey j → Known s j rest held)
      → All IsKey rest
      → (turn_at S table keys junk round rest held s).2 ≡ 0
  unfolding turn_at
  turn_at-failures zero [] held s known are_keys = refl
  turn_at-failures (suc round) [] held s known are_keys = refl
  turn_at-failures round (key ∷ ks) none s known are_keys =
      let (v, c, found, own, small) = known key are_keys.0 in
      rw (C.get_found s key (decimal v) [] c junk found)
  turn_at-failures round (key ∷ ks) (some (value, cas)) s known are_keys =
      let (v, c, found, own, small) = known key are_keys.0 in
      elim (Bool-cases (cas == c)) [
        | inl same ↦
            let match : cas ≡ c = (==_iff cas c).0 same in
            rw
              (C.set_match s key (decimal v) (to_string value) cas 299
                (found ∙ ap (λ (x : ℕ). some (decimal v, x)) (sym match))).0
        | inr other ↦
            rw
              (C.set_conflict s key (decimal v) (to_string value) c cas (pos 300) found
                (λ e. cc ((==_iff cas c).1 e))).0
      ]

  turn_at-issued :
      (round : ℕ) (rest : List Text) (held : Option (ℤ × ℕ)) (s : S.State) (x : ℕ)
      → C.Issued s x
      → C.Issued (turn_at S table keys junk round rest held s).1 x
  unfolding turn_at
  turn_at-issued zero [] held s x h = h
  turn_at-issued (suc round) [] held s x h = h
  turn_at-issued round (key ∷ ks) none s x h = C.get_issued s key [] junk x h
  turn_at-issued round (key ∷ ks) (some (value, cas)) s x h =
      C.set_issued s key (to_string value) cas (pos 300) x h

  after_set-All :
      (rc : Status) (key : Text) (ks : List Text)
      → All IsKey (key ∷ ks)
      → All IsKey (after_set rc key ks)
  after_set-All stored key ks h = h.1
  after_set-All not_found key ks h = h.1
  after_set-All data_contention key ks h = h
  after_set-All error key ks h = h.1

  turn_at-keys :
      (round : ℕ) (rest : List Text) (held : Option (ℤ × ℕ)) (s : S.State)
      → All IsKey keys
      → All IsKey rest
      → All IsKey (turn_at S table keys junk round rest held s).0.rest
  unfolding turn_at
  turn_at-keys zero [] held s all h = tt
  turn_at-keys (suc round) [] held s all h = all
  turn_at-keys round (key ∷ ks) none s all h = h
  turn_at-keys round (key ∷ ks) (some (value, cas)) s all h = after_set-All _ key ks h

  module _ (th : Thread) (s : S.State) where
    abbrev pub KnownKeys : Type 0
    KnownKeys = (j : Text) → IsKey j → Known s j th.rest th.held

    pub turn-Effect :
        KnownKeys
        → All IsKey th.rest
        → (k : Text) (v c : ℕ) → C.view s k ≡ some (decimal v, c)
        → HeldAt C keys junk s k v c th.rest th.held
        → v < 2 ^ 31
        → Effect C keys junk s k v c th (turn S table keys junk th s)
    unfolding turn
    turn-Effect = turn_at-Effect th.round th.rest th.held s

    pub turn-failures : KnownKeys → All IsKey th.rest → (turn S table keys junk th s).2 ≡ 0
    unfolding turn
    turn-failures = turn_at-failures th.round th.rest th.held s

    pub turn-issued : (x : ℕ) → C.Issued s x → C.Issued (turn S table keys junk th s).1 x
    unfolding turn
    turn-issued = turn_at-issued th.round th.rest th.held s

    pub turn-keys :
        All IsKey keys → All IsKey th.rest → All IsKey (turn S table keys junk th s).0.rest
    unfolding turn
    turn-keys = turn_at-keys th.round th.rest th.held s
