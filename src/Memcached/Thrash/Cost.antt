-- ===== src/Memcached/Thrash/Cost.antt =====
-- What one turn of a thrash thread costs: contention makes a thread try again, but
-- only after another thread's increment.
use clearwater_fv_test.Base.{
  ℕ, zero, suc, ◌+◌, ◌*◌, ◌≤◌, ◌<◌, ◌≡◌, ◌≢◌, refl, sym, ap, ◌∙◌, ◌⊎◌, inl, inr, Bool, true, false,
  List, [], ◌∷◌, Option, none, some, ◌==◌, if◌then◌else◌, Bool-cases, text_eq, text_eq_iff, arith,
  All, length, ==_iff,
}
use clearwater_fv_test.Text.{Text}
use clearwater_fv_test.Text.Integer.{ℤ, pos, to_string}
use clearwater_fv_test.Memcached.Store.{Store, IsCas}
use clearwater_fv_test.Memcached.Thrash.{Thread, next_round, fetch, put_back, turn_at}
use clearwater_fv_test.Memcached.Thrash.Turns.{IsKey}
use clearwater_fv_test.Memcached.Thrash.Total.{total}

module _ (f g : ℕ → ℕ) (d : ℕ) where
  total-slack :
      (n i : ℕ)
      → n ≤ i
      → ((j : ℕ) → j ≢ i → g j ≤ f j + d)
      → total n g ≤ total n f + total n (λ _. d)
  total-slack zero i above h = omega arith
  total-slack (suc n) i above h =
      omega (arith, total-slack n i (omega arith) h, h n (λ e. omega arith))

  -- All summands but one grow by at most `d`.
  pub total-move :
      (n i : ℕ)
      → i < n
      → ((j : ℕ) → j ≢ i → g j ≤ f j + d)
      → total n g + f i ≤ total n f + g i + total n (λ _. d)
  total-move zero i below h = absurd (omega arith)
  total-move (suc n) i below h = elim (Bool-cases (i == n)) [
    | inl last ↦
        let e : i ≡ n = (==_iff i n).0 last in rw e (omega (arith, total-slack n i (omega arith) h))
    | inr before ↦
        let ne : i ≢ n = λ e. cc ((==_iff i n).1 e) in
        omega (arith, total-move n i (omega arith) h, h n (λ e. ne (sym e)))
  ]

pub total-same : (n d : ℕ) → total n (λ _. d) ≡ n * d
total-same zero d = omega arith
total-same (suc n) d = omega (arith, total-same n d)

abbrev pub is_over : ℕ → List Text → Bool
is_over zero [] = true
is_over zero (key ∷ ks) = false
is_over (suc round) rest = false

abbrev pub is_done : Thread → Bool
is_done th = is_over th.round th.rest

module _ {S : Store} {table : Text} (C : IsCas S table) (keys : List Text) (junk n : ℕ) where
  -- Whether a CAS value is that of a record.
  abbrev pub fresh : Option (Text × ℕ) → ℕ → Bool
  fresh none cas = false
  fresh (some (d, c)) cas = cas == c

  abbrev pub phase : S.State → List Text → Option (ℤ × ℕ) → ℕ
  phase s [] held = 0
  phase s (key ∷ ks) none = 1
  phase s (key ∷ ks) (some (value, cas)) = if fresh (C.view s key) cas then 0 else 2

  abbrev pub weight : ℕ
  weight = 2 * n + 2

  abbrev pub sets : ℕ → List Text → ℕ
  sets round rest = round * length keys + length rest

  -- What a thread may still cost: each set that is due, the starts of its rounds, and its own next
  -- calls.
  abbrev pub cost : S.State → ℕ → List Text → Option (ℤ × ℕ) → ℕ
  cost s round rest held = sets round rest * weight + 2 * round + phase s rest held

  abbrev pub cost_of : S.State → Thread → ℕ
  cost_of s th = cost s th.round th.rest th.held

  pub phase-bound : (s : S.State) (rest : List Text) (held : Option (ℤ × ℕ)) → phase s rest held ≤ 2
  phase-bound s [] held = omega arith
  phase-bound s (key ∷ ks) none = omega arith
  phase-bound s (key ∷ ks) (some (value, cas)) = ground arith

  phase-none : (s : S.State) (rest : List Text) → phase s rest none ≤ 1
  phase-none s [] = omega arith
  phase-none s (key ∷ ks) = omega arith

  -- The keys' records are as before.
  abbrev pub SameView : S.State → S.State → Type 0
  SameView s s' = (k : Text) → IsKey C keys junk k → C.view s' k ≡ C.view s k

  pub phase-same :
      (s s' : S.State) (rest : List Text) (held : Option (ℤ × ℕ))
      → SameView s s'
      → All (IsKey C keys junk) rest
      → phase s' rest held ≡ phase s rest held
  phase-same s s' [] held same are_keys = refl
  phase-same s s' (key ∷ ks) none same are_keys = refl
  phase-same s s' (key ∷ ks) (some (value, cas)) same are_keys =
      ap (λ (o : Option (Text × ℕ)). if fresh o cas then 0 else 2) (same key are_keys.0)

  -- A turn that costs the thread something: the records stay and it is cheaper, or it has made a
  -- set, which may cost all others two calls each.
  abbrev pub Pays : S.State → ℕ → Thread × S.State × ℕ → Type 0
  Pays s before (th', s', failures) =
      (SameView s s' × (cost_of s' th' < before)) ⊎ (cost_of s' th' + 2 * n < before)

  more_sets : (x : ℕ) → suc x * weight ≡ x * weight + 2 * n + 2
  more_sets x = omega arith

  next_round-Pays :
      (round : ℕ) (held : Option (ℤ × ℕ)) (s : S.State)
      → Pays s (cost s (suc round) [] held) (next_round S table keys junk (suc round) s)
  unfolding next_round
  next_round-Pays round held s =
      let same_sets : sets round keys ≡ sets (suc round) [] = omega arith in
      inl (λ k h. refl, rw same_sets (omega (arith, phase-none s keys)))

  fetch-Pays :
      (round : ℕ) (key : Text) (ks : List Text) (s : S.State) (d : Text) (c : ℕ)
      → C.view s key ≡ some (d, c)
      → Pays s (cost s round (key ∷ ks) none) (fetch S table keys junk round key ks s)
  unfolding fetch
  fetch-Pays round key ks s d c found =
      let got = C.get_found s key d [] c junk found in
      let kept = C.get_view s key [] junk key ∙ found in
      let same : (c == c) ≡ true = (==_iff c c).1 refl in
      inl (λ k h. C.get_view s key [] junk k, simp (got, kept, same) (omega arith))

  put_back-Pays_fresh :
      (round : ℕ) (key : Text) (ks : List Text) (value : ℤ) (cas : ℕ) (s : S.State) (d : Text)
      → C.view s key ≡ some (d, cas)
      → Pays s
          (cost s round (key ∷ ks) (some (value, cas)))
          (put_back S table keys junk round key ks value cas s)
  unfolding put_back
  put_back-Pays_fresh round key ks value cas s d found =
      let (status, new_record) = C.set_match s key d (to_string value) cas 299 found in
      let one_more : sets round (key ∷ ks) ≡ suc (sets round ks) = omega arith in
      inr (rw (status, one_more, more_sets (sets round ks)) (omega (arith, phase-none _ ks)))

  put_back-Pays_stale :
      (round : ℕ) (key : Text) (ks : List Text) (value : ℤ) (cas : ℕ) (s : S.State) (d : Text)
      (c : ℕ)
      → C.view s key ≡ some (d, c)
      → (cas == c) ≡ false
      → Pays s
          (cost s round (key ∷ ks) (some (value, cas)))
          (put_back S table keys junk round key ks value cas s)
  unfolding put_back
  put_back-Pays_stale round key ks value cas s d c found stale =
      let differ : cas ≢ c = λ e. cc ((==_iff cas c).1 e) in
      let (status, still) = C.set_conflict s key d (to_string value) c cas (pos 300) found differ in
      inl (
        λ k h. elim (Bool-cases (text_eq key k)) [
          | inl this ↦ let e : key ≡ k = (text_eq_iff key k).0 this in rw (← e) (still ∙ sym found)
          | inr other ↦
              C.set_other s key (to_string value) cas (pos 300) k
                (λ e. cc ((text_eq_iff key k).1 e))
        ],
        rw (status, found, stale) (omega arith),
      )

  -- Every key has a record.
  abbrev pub AllFound : S.State → Type 0
  AllFound s = (k : Text) → IsKey C keys junk k → (d : Text) × (c : ℕ) × (C.view s k ≡ some (d, c))

  pub turn_at-Pays :
      (round : ℕ) (rest : List Text) (held : Option (ℤ × ℕ)) (s : S.State)
      → is_over round rest ≡ false
      → AllFound s
      → All (IsKey C keys junk) rest
      → Pays s (cost s round rest held) (turn_at S table keys junk round rest held s)
  unfolding turn_at
  turn_at-Pays zero [] held s busy found are_keys = cc
  turn_at-Pays (suc round) [] held s busy found are_keys = next_round-Pays round held s
  turn_at-Pays round (key ∷ ks) none s busy found are_keys =
      let (d, c, here) = found key are_keys.0 in fetch-Pays round key ks s d c here
  turn_at-Pays round (key ∷ ks) (some (value, cas)) s busy found are_keys =
      let (d, c, here) = found key are_keys.0 in
      elim (Bool-cases (cas == c)) [
        | inl same ↦
            let e : cas ≡ c = (==_iff cas c).0 same in
            put_back-Pays_fresh round key ks value cas s d (rw e here)
        | inr stale ↦ put_back-Pays_stale round key ks value cas s d c here stale
      ]
