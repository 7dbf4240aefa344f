-- ===== src/Memcached/Thrash/Total.antt =====
-- All threads together: no increment is lost, and no expectation fails, in any order of the turns.
use clearwater_fv_test.Base.{
  ℕ, zero, suc, ◌+◌, ◌*◌, ◌^◌, ◌≤◌, ◌<◌, ◌≡◌, refl, subst, inl, inr, List, [], ◌∷◌, Option, none,
  some, ◌==◌, Bool-cases, text_eq_iff, arith, All, All-mono,
}
use clearwater_fv_test.Text.{Text}
use clearwater_fv_test.Text.Decimal.{decimal}
use clearwater_fv_test.Text.Integer.{ℤ}
use clearwater_fv_test.Memcached.Store.{Store, IsCas}
use clearwater_fv_test.Memcached.Thrash.{Thread, World, update, turn, num_incr_per_key_per_thread}
use clearwater_fv_test.Memcached.Thrash.Invariant.{count, remaining, HeldAt, Kept, Incremented}
use clearwater_fv_test.Memcached.Thrash.Turns.{
  IsKey, KnownKeys, turn-Effect, turn-failures, turn-issued, turn-keys,
}

abbrev pub total : ℕ → (ℕ → ℕ) → ℕ
total zero f = 0
total (suc n) f = total n f + f n

module _ (w : Thread → ℕ) where
  total-update_above :
      (n : ℕ) (f : ℕ → Thread) (i : ℕ) (th : Thread)
      → n ≤ i
      → total n (λ j. w (update f i th j)) ≡ total n (λ j. w (f j))
  total-update_above zero f i th h = refl
  total-update_above (suc n) f i th h = ground (arith, total-update_above n f i th)

  total-update :
      (n : ℕ) (f : ℕ → Thread) (i : ℕ) (th : Thread)
      → i < n
      → total n (λ j. w (update f i th j)) + w (f i) ≡ total n (λ j. w (f j)) + w th
  total-update zero f i th h = absurd (omega arith)
  total-update (suc n) f i th h = elim (Bool-cases (i == n)) [
    | inl last ↦ ground (arith, total-update_above n f i th)
    | inr below ↦ ground (arith, total-update n f i th)
  ]

  pub total-const : (n a : ℕ) (th : Thread) → w th ≡ a → total n (λ j. w th) ≡ n * a
  total-const zero a th e = omega arith
  total-const (suc n) a th e = omega (arith, total-const n a th e)

  pub total-zero :
      (n : ℕ) (f : ℕ → Thread) → ((i : ℕ) → i < n → w (f i) ≡ 0) → total n (λ j. w (f j)) ≡ 0
  total-zero zero f h = refl
  total-zero (suc n) f h =
      omega (arith, h n (omega arith), total-zero n f (λ i lt. h i (omega arith)))

count-cons : (j x : Text) (xs : List Text) → count j xs ≤ count j (x ∷ xs)
count-cons j x xs = omega arith

pub keys-counted : (ks : List Text) → All (λ j. 0 < count j ks) ks
keys-counted [] = tt
keys-counted (x ∷ xs) = (
  rw ((text_eq_iff x x).1 refl) (omega arith),
  All-mono (λ j. 0 < count j xs) (λ j. 0 < count j (x ∷ xs)) xs
      (λ j h. omega (arith, count-cons j x xs)) (keys-counted xs),
)

module _ {S : Store} {table : Text} (C : IsCas S table) (keys : List Text) (junk n : ℕ) where
  -- What a key must hold when all threads are done.
  abbrev pub goal : Text → ℕ
  goal k = n * (num_incr_per_key_per_thread * count k keys)

  HeldAt-mono :
      (s s' : S.State) (k : Text) (v c : ℕ) (rest : List Text) (held : Option (ℤ × ℕ))
      → ((x : ℕ) → C.Issued s x → C.Issued s' x)
      → HeldAt C keys junk s k v c rest held
      → HeldAt C keys junk s' k v c rest held
  HeldAt-mono s s' k v c [] held issued h = tt
  HeldAt-mono s s' k v c (key ∷ ks) none issued h = tt
  HeldAt-mono s s' k v c (key ∷ ks) (some (value, cas)) issued h =
      λ e. (issued cas (h e).0, (h e).1)

  -- A new CAS value makes what the threads hold stale.
  HeldAt-stale :
      (s s' : S.State) (k : Text) (v c v' c' : ℕ) (rest : List Text) (held : Option (ℤ × ℕ))
      → ((x : ℕ) → C.Issued s x → C.Issued s' x)
      → ¬ C.Issued s c'
      → HeldAt C keys junk s k v c rest held
      → HeldAt C keys junk s' k v' c' rest held
  HeldAt-stale s s' k v c v' c' [] held issued fresh h = tt
  HeldAt-stale s s' k v c v' c' (key ∷ ks) none issued fresh h = tt
  HeldAt-stale s s' k v c v' c' (key ∷ ks) (some (value, cas)) issued fresh h =
      λ e. (issued cas (h e).0, λ same. absurd (fresh (subst (C.Issued s) same (h e).0)))

  HeldAt-of_none :
      (s : S.State) (k : Text) (v c : ℕ) (rest : List Text) (held : Option (ℤ × ℕ))
      → held ≡ none
      → HeldAt C keys junk s k v c rest held
  HeldAt-of_none s k v c [] held e = tt
  HeldAt-of_none s k v c (key ∷ ks) none e = tt
  HeldAt-of_none s k v c (key ∷ ks) (some x) e = cc

  abbrev pub Holds : World S → Text → ℕ → ℕ → Type 0
  Holds s k v c = (i : ℕ) → HeldAt C keys junk s.store k v c (s.threads i).rest (s.threads i).held

  -- What the key holds and what the threads owe it make up the goal.
  abbrev pub KeyInv : World S → Text → Type 0
  KeyInv s k =
      (v : ℕ) × (c : ℕ) × (C.view s.store k ≡ some (decimal v, c))
      × (v + total n (λ i. remaining keys k (s.threads i)) ≡ goal k)
      × Holds s k v c

  pub record Inv (s : World S) : Type 0 where
    pub clean : s.failed ≡ 0
    pub on_keys : (i : ℕ) → All (IsKey C keys junk) (s.threads i).rest
    pub owed : (k : Text) → IsKey C keys junk k → KeyInv s k

  module _ (bound : (k : Text) → goal k < 2 ^ 31) (s : World S) (inv : Inv s) (i : ℕ) where
    known : KnownKeys C keys junk (s.threads i) s.store
    known j h =
        let (v, c, found, sum, held) = inv.owed j h in (v, c, found, held i, omega (arith, bound j))

    abbrev pub result : Thread × S.State × ℕ
    result = turn S table keys junk (s.threads i) s.store

    abbrev pub next : World S
    next = record {
      store = result.1;
      threads = update s.threads i result.0;
      failed = s.failed + result.2;
    }

    issued : (x : ℕ) → C.Issued s.store x → C.Issued result.1 x
    issued = turn-issued C keys junk (s.threads i) s.store

    -- What holds of the new thread `i` and of the old others holds of all.
    everywhere :
        (P : Thread → Type 0)
        → P result.0
        → ((j : ℕ) → P (s.threads j))
        → (j : ℕ) → P (next.threads j)
    everywhere P mine others j = elim (Bool-cases (i == j)) [
      | inl this ↦ rw this mine
      | inr other ↦ rw other (others j)
    ]

    owed-Kept :
        (k : Text) (v c : ℕ)
        → i < n
        → (v + total n (λ j. remaining keys k (s.threads j)) ≡ goal k)
        → Holds s k v c
        → Kept C keys junk s.store k v c (s.threads i) result
        → KeyInv next k
    owed-Kept k v c lt sum held (found, owes, mine) = (
      v,
      c,
      found,
      omega (arith, total-update (remaining keys k) n s.threads i result.0 lt),
      everywhere (λ th. HeldAt C keys junk result.1 k v c th.rest th.held) mine
          (λ j.
            HeldAt-mono s.store result.1 k v c (s.threads j).rest (s.threads j).held issued
              (held j)),
    )

    owed-Incremented :
        (k : Text) (v c : ℕ)
        → i < n
        → (v + total n (λ j. remaining keys k (s.threads j)) ≡ goal k)
        → Holds s k v c
        → Incremented C keys junk s.store k v (s.threads i) result
        → KeyInv next k
    owed-Incremented k v c lt sum held (c', found, fresh, owes, no_value) = (
      suc v,
      c',
      found,
      omega (arith, total-update (remaining keys k) n s.threads i result.0 lt),
      everywhere (λ th. HeldAt C keys junk result.1 k (suc v) c' th.rest th.held)
          (HeldAt-of_none result.1 k (suc v) c' result.0.rest result.0.held no_value)
          (λ j.
            HeldAt-stale s.store result.1 k v c (suc v) c' (s.threads j).rest (s.threads j).held
              issued fresh (held j)),
    )

    pub next-Inv : i < n → Inv next
    next-Inv lt = record {
      clean =
          omega (
            arith,
            inv.clean,
            turn-failures C keys junk (s.threads i) s.store known (inv.on_keys i),
          );
      on_keys =
          everywhere (λ th. All (IsKey C keys junk) th.rest)
            (turn-keys C keys junk (s.threads i) s.store (keys-counted keys) (inv.on_keys i))
            inv.on_keys;
      owed = λ k h.
          let (v, c, found, sum, held) = inv.owed k h in
          elim (turn-Effect C keys junk (s.threads i) s.store known (inv.on_keys i) k v c found
            (held i) (omega (arith, bound k))) [
              | inl kept ↦ owed-Kept k v c lt sum held kept
              | inr incremented ↦ owed-Incremented k v c lt sum held incremented
            ];
    }
