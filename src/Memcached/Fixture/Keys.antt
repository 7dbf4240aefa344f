-- ===== src/Memcached/Fixture/Keys.antt =====
-- The keys that `get_new_key` hands to the tests.
use clearwater_fv_test.Base.{
  ℕ, zero, suc, ◌+◌, ◌%◌, ◌^◌, ◌≤◌, ◌≡◌, refl, ap, ◌∙◌, ◌∷◌, arith, numbered, Distinct,
  Distinct-numbered, subst, sym, length,
}
use clearwater_fv_test.Text.Decimal.{decimal, decimal_injective}
use clearwater_fv_test.Memcached.Store.{Store}
use clearwater_fv_test.Memcached.Fixture.{Fixture, get_new_key, new_keys}

module _ {S : Store} where
  new_keys-numbered :
      (n : ℕ) (f : Fixture S)
      → f.next_key + n ≤ 2 ^ 32
      → new_keys n f ≡ numbered decimal f.next_key n
  unfolding new_keys get_new_key
  new_keys-numbered zero f h = refl
  new_keys-numbered (suc zero) f h = refl
  new_keys-numbered (suc (suc n)) f h =
      let small : (f.next_key + 1) % 2 ^ 32 ≡ f.next_key + 1 = omega arith in
      let f' : Fixture S = (get_new_key f).1 in
      let later : f'.next_key + suc n ≤ 2 ^ 32 = omega (arith, small) in
      ap (◌∷◌ (decimal f.next_key))
        (new_keys-numbered (suc n) f' later ∙ ap (λ (i : ℕ). numbered decimal i (suc n)) small)

  -- Until the counter wraps around, no two calls of `get_new_key` give the same key.
  pub new_keys-Distinct :
      (n : ℕ) (f : Fixture S) → f.next_key + n ≤ 2 ^ 32 → Distinct (new_keys n f)
  new_keys-Distinct n f h =
      subst Distinct (sym (new_keys-numbered n f h))
        (Distinct-numbered decimal f.next_key n decimal_injective)

  -- New keys depend on the counter only.
  pub new_keys-next :
      (n : ℕ) (f g : Fixture S) → f.next_key ≡ g.next_key → new_keys n f ≡ new_keys n g
  unfolding new_keys get_new_key
  new_keys-next zero f g e = refl
  new_keys-next (suc n) f g e =
      let tails = new_keys-next n (get_new_key f).1 (get_new_key g).1 (rw e) in
      let heads = ap decimal e in cc

  pub length-new_keys : (n : ℕ) (f : Fixture S) → length (new_keys n f) ≡ n
  unfolding new_keys
  length-new_keys zero f = refl
  length-new_keys (suc n) f = ap suc (length-new_keys n (get_new_key f).1)
