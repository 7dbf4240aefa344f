-- ===== src/Memcached/Thrash/Invariant.antt =====
-- One turn of a thread, as each key sees it.
use clearwater_fv_test.Base.{
  ℕ, zero, suc, ◌+◌, ◌*◌, ◌^◌, ◌<◌, ◌≡◌, ◌≢◌, refl, sym, ap, ◌∙◌, ◌⊎◌, inl, inr, List, [], ◌∷◌,
  Option, none, some, if◌then◌else◌, Bool-cases, text_eq, text_eq_iff, differ, arith,
}
use clearwater_fv_test.Text.{Text}
use clearwater_fv_test.Text.Decimal.{decimal}
use clearwater_fv_test.Text.Integer.{ℤ, pos, to_string, atoi-decimal}
use clearwater_fv_test.Memcached.Store.{Store, IsCas}
use clearwater_fv_test.Memcached.Thrash.{Thread, succ, next_round, fetch, put_back}

-- How often a key is in a list.
abbrev pub count : Text → List Text → ℕ
count k [] = 0
count k (x ∷ xs) = (if text_eq x k then 1 else 0) + count k xs

-- The increments of a key that a thread has still to make.
abbrev pub remaining : List Text → Text → Thread → ℕ
remaining keys k th = th.round * count k keys + count k th.rest

abbrev pub at_thread : ℕ → List Text → Option (ℤ × ℕ) → Thread
at_thread round rest held = record { round = round; rest = rest; held = held }

count_self : (k : Text) (ks : List Text) → count k (k ∷ ks) ≡ 1 + count k ks
count_self k ks = rw ((text_eq_iff k k).1 refl)

count_other : (key k : Text) (ks : List Text) → key ≢ k → count k (key ∷ ks) ≡ count k ks
count_other key k ks ne = elim (Bool-cases (text_eq key k)) [
  | inl same ↦ absurd (ne ((text_eq_iff key k).0 same))
  | inr other ↦ rw other (omega arith)
]

module _ {S : Store} {table : Text} (C : IsCas S table) (keys : List Text) (junk : ℕ) where
  -- A thread that holds a value for key `k`, whose record is `v` under CAS value `c`: its own CAS
  -- value was issued, and is `c` only if it holds the successor of `v`.
  abbrev pub HeldAt : S.State → Text → ℕ → ℕ → List Text → Option (ℤ × ℕ) → Type 0
  HeldAt s k v c [] held = Unit
  HeldAt s k v c (key ∷ ks) none = Unit
  HeldAt s k v c (key ∷ ks) (some (value, cas)) =
      key ≡ k → C.Issued s cas × (cas ≡ c → value ≡ pos (suc v))

  -- The key keeps its record, and the thread owes it as much as before.
  abbrev pub Kept : S.State → Text → ℕ → ℕ → Thread → Thread × S.State × ℕ → Type 0
  Kept s k v c th (th', s', failures) =
      (C.view s' k ≡ some (decimal v, c))
      × (remaining keys k th' ≡ remaining keys k th)
      × HeldAt s' k v c th'.rest th'.held

  -- The key is incremented under a new CAS value, and the thread owes it one increment less.
  abbrev pub Incremented : S.State → Text → ℕ → Thread → Thread × S.State × ℕ → Type 0
  Incremented s k v th (th', s', failures) =
      (c' : ℕ) × (C.view s' k ≡ some (decimal (suc v), c'))
      × (¬ C.Issued s c')
      × (remaining keys k th' + 1 ≡ remaining keys k th)
      × (th'.held ≡ none)

  abbrev pub Effect : S.State → Text → ℕ → ℕ → Thread → Thread × S.State × ℕ → Type 0
  Effect s k v c th r = Kept s k v c th r ⊎ Incremented s k v th r

  HeldAt-none : (s : S.State) (k : Text) (v c : ℕ) (ks : List Text) → HeldAt s k v c ks none
  HeldAt-none s k v c [] = tt
  HeldAt-none s k v c (x ∷ xs) = tt

  pub next_round-Kept :
      (round : ℕ) (held : Option (ℤ × ℕ)) (s : S.State) (k : Text) (v c : ℕ)
      → C.view s k ≡ some (decimal v, c)
      → Kept s k v c (at_thread round [] held) (next_round S table keys junk round s)
  unfolding next_round
  next_round-Kept zero held s k v c found = (found, refl, tt)
  next_round-Kept (suc round) held s k v c found = (found, omega arith, HeldAt-none s k v c keys)

  pub fetch-Kept :
      (round : ℕ) (key : Text) (ks : List Text) (s : S.State) (k : Text) (v c : ℕ)
      → C.view s k ≡ some (decimal v, c)
      → v < 2 ^ 31
      → Kept s k v c (at_thread round (key ∷ ks) none) (fetch S table keys junk round key ks s)
  unfolding fetch
  fetch-Kept round key ks s k v c found small = (
    C.get_view s key [] junk k ∙ found,
    refl,
    λ e.
        let here = ap (C.view s) e ∙ found in
        rw (C.get_found s key (decimal v) [] c junk here) (
          C.get_issued s key [] junk c (C.view_issued s key (decimal v) c here),
          λ _. ap succ (atoi-decimal v small),
        ),
  )

  module _ (round : ℕ) (key : Text) (ks : List Text) (value : ℤ) (cas : ℕ) (s : S.State) where
    abbrev writer : Thread
    writer = at_thread round (key ∷ ks) (some (value, cas))

    abbrev after : Thread × S.State × ℕ
    after = put_back S table keys junk round key ks value cas s

    -- The thread's CAS value is that of the record, so it is written.
    pub put_back-Incremented :
        (v : ℕ) (d : Text)
        → C.view s key ≡ some (d, cas)
        → value ≡ pos (suc v)
        → Incremented s key v writer after
    unfolding put_back to_string
    put_back-Incremented v d here exact =
        let (status, (c', written, fresh)) = C.set_match s key d (to_string value) cas 299 here in
        (
          c',
          written ∙ ap (λ (x : ℤ). some (to_string x, c')) exact,
          fresh,
          rw status (omega (arith, count_self key ks)),
          refl,
        )

    pub put_back-Kept_other :
        (d : Text) (k : Text) (v c : ℕ)
        → C.view s key ≡ some (d, cas)
        → key ≢ k
        → C.view s k ≡ some (decimal v, c)
        → Kept s k v c writer after
    unfolding put_back
    put_back-Kept_other d k v c here ne found =
        let (status, rest) = C.set_match s key d (to_string value) cas 299 here in
        (
          C.set_other s key (to_string value) cas (pos 300) k ne ∙ found,
          rw status (omega (arith, count_other key k ks ne)),
          HeldAt-none _ k v c _,
        )

    -- Another CAS value is found, and the thread will try the key again.
    pub put_back-Kept :
        (d : Text) (c₀ : ℕ) (k : Text) (v c : ℕ)
        → C.view s key ≡ some (d, c₀)
        → cas ≢ c₀
        → C.view s k ≡ some (decimal v, c)
        → Kept s k v c writer after
    unfolding put_back
    put_back-Kept d c₀ k v c here ne found =
        let (status, kept) = C.set_conflict s key d (to_string value) c₀ cas (pos 300) here ne in
        (
          elim (Bool-cases (text_eq key k)) [
            | inl same ↦
                let e = (text_eq_iff key k).0 same in
                ap (C.view after.1) (sym e) ∙ kept ∙ sym here ∙ ap (C.view s) e ∙ found
            | inr other ↦
                C.set_other s key (to_string value) cas (pos 300) k (λ e. differ key k e other)
                ∙ found
          ],
          rw status,
          HeldAt-none _ k v c _,
        )
