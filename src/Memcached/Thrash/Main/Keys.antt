-- ===== src/Memcached/Thrash/Main/Keys.antt =====
-- The first loop of the thrash test: ten different keys, each of which holds "0".
use clearwater_fv_test.Base.{
  ℕ, zero, suc, ◌+◌, ◌≤◌, ◌<◌, ◌≡◌, ◌≢◌, refl, sym, ap, ◌∙◌, inl, inr, List, [], ◌∷◌, none, some,
  Bool-cases, text_eq, text_eq_iff, arith, All, All-both, Distinct,
}
use clearwater_fv_test.Text.{Text, codes}
use clearwater_fv_test.Text.Decimal.{decimal}
use clearwater_fv_test.Text.Integer.{pos}
use clearwater_fv_test.Memcached.Store.{Store, IsStore}
use clearwater_fv_test.Memcached.Fixture.{Fixture, get_new_key, new_keys, table}
use clearwater_fv_test.Memcached.Fixture.Keys.{new_keys-next}
use clearwater_fv_test.Memcached.Thrash.Invariant.{count}
use clearwater_fv_test.Memcached.Thrash.Main.{set_keys}

-- A listed key has what all listed keys have.
pub All-counted : (P : Text → Type 0) (k : Text) (xs : List Text) → All P xs → 0 < count k xs → P k
All-counted P k [] h lt = absurd (omega arith)
All-counted P k (x ∷ xs) h lt = elim (Bool-cases (text_eq x k)) [
  | inl this ↦ let e : x ≡ k = (text_eq_iff x k).0 this in rw (← e) h.0
  | inr other ↦ All-counted P k xs h.1 (omega (arith, rw other at lt))
]

count-absent : (k : Text) (xs : List Text) → All (λ y. k ≢ y) xs → count k xs ≡ 0
count-absent k [] h = refl
count-absent k (x ∷ xs) h = elim (Bool-cases (text_eq x k)) [
  | inl this ↦ absurd (h.0 (sym ((text_eq_iff x k).0 this)))
  | inr other ↦ rw other (omega (arith, count-absent k xs h.1))
]

-- Different keys are listed once.
pub count-Distinct : (k : Text) (xs : List Text) → Distinct xs → count k xs ≤ 1
count-Distinct k [] d = omega arith
count-Distinct k (x ∷ xs) d = elim (Bool-cases (text_eq x k)) [
  | inl this ↦
      let e : x ≡ k = (text_eq_iff x k).0 this in
      rw this (omega (arith, count-absent k xs (rw e at d.0)))
  | inr other ↦ rw other (omega (arith, count-Distinct k xs d.1))
]

zero_text : codes "0" ≡ decimal 0
unfolding decimal
zero_text = refl

module _ {S : Store} (L : IsStore S table) where
  abbrev pub Holds0 : S.State → Text → Type 0
  Holds0 s k = (c : ℕ) × (L.view s k ≡ some (decimal 0, c))

  -- What the first loop leaves: its keys at "0", the other keys as they were, and no failure.
  pub record Zeroed (f f' : Fixture S) (keys : List Text) : Type 0 where
    pub passed : f'.failed ≡ f.failed
    pub zeros : All (Holds0 f'.store) keys
    pub others : (j : Text) → All (λ k. j ≢ k) keys → L.view f'.store j ≡ L.view f.store j

  pub set_keys-Zeroed :
      (n : ℕ) (g : Fixture S)
      → Distinct (new_keys n g)
      → All (λ k. L.view g.store k ≡ none) (new_keys n g)
      → ((set_keys n (get_new_key g).1).0 ≡ new_keys n g)
        × Zeroed (get_new_key g).1 (set_keys n (get_new_key g).1).1 (new_keys n g)
  unfolding set_keys new_keys get_new_key
  set_keys-Zeroed zero g differ absent =
      (refl, record { passed = refl; zeros = tt; others = λ j h. refl })
  set_keys-Zeroed (suc n) g differ absent =
      let f : Fixture S = (get_new_key g).1 in
      let (status, (c, here)) = L.set_add g.store f.key (codes "0") 59 absent.0 in
      let s₁ : S.State = (S.set_data g.store table f.key (codes "0") 0 (pos 60)).1 in
      let f₁ : Fixture S = record f { store = s₁; failed = f.failed + 0 } in
      let keys : List Text = new_keys n f in
      let same : new_keys n f₁ ≡ keys = new_keys-next n f₁ f refl in
      let absent₁ : All (λ k. L.view s₁ k ≡ none) keys =
        All-both (λ k. f.key ≢ k) (λ k. L.view g.store k ≡ none) (λ k. L.view s₁ k ≡ none) keys
          (λ k ne gone. L.set_other g.store f.key (codes "0") 0 (pos 60) k ne ∙ gone) differ.0
          absent.1 in
      let (keys_are, later) = set_keys-Zeroed n f₁ (rw same differ.1) (rw same absent₁) in
      rw status (
        ap (◌∷◌ f.key) (keys_are ∙ same),
        record {
          passed = omega (arith, later.passed);
          zeros = (
            (
              c,
              later.others f.key (rw same differ.0)
                  ∙ here
                  ∙ ap (λ (d : Text). some (d, c)) zero_text,
            ),
            rw same at later.zeros,
          );
          others = λ j h.
              later.others j (rw same h.1)
              ∙ L.set_other g.store f.key (codes "0") 0 (pos 60) j (λ e. h.0 (sym e));
        },
      )
