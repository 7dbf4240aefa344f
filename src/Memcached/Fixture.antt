-- ===== src/Memcached/Fixture.antt =====
-- `BaseMemcachedSolutionTest`, src/test_memcachedsolution.cpp: the state of a test, its helper
-- methods on the store, and expectations. An expectation that fails lets the test go on.
pub mod Keys
use clearwater_fv_test.Base.{
  ℕ, zero, suc, ◌+◌, ◌%◌, ◌^◌, ◌≤◌, ◌<◌, ◌≡◌, ◌≢◌, refl, sym, ap, ◌∙◌, Bool, true, false, List, [],
  ◌∷◌, arith, if◌then◌else◌, text_eq, numbered, Distinct,
}
use clearwater_fv_test.Text.{Text, codes}
use clearwater_fv_test.Text.Decimal.{decimal, decimal_injective}
use clearwater_fv_test.Text.Integer.{ℤ, pos}
use clearwater_fv_test.Memcached.Store.{Status, stored, not_found, data_contention, error, Store}

abbrev pub table : Text
table = codes "test_table"

-- `_next_key` is an unsigned int.
pub record Fixture (S : Store) : Type 0 where
  pub store : S.State
  pub key : Text
  pub next_key : ℕ
  pub failed : ℕ

abbrev pub status_eq : Status → Status → Bool
status_eq stored stored = true
status_eq not_found not_found = true
status_eq data_contention data_contention = true
status_eq error error = true
status_eq _ _ = false

module _ (S : Store) where
  abbrev pub Test : Type 0 → Type 0
  Test A = Fixture S → A × Fixture S

infixl 5 ◌>>=◌ ◌>>◌
abbrev pub ◌>>=◌ : {S : Store} {A B : Type 0} → Test S A → (A → Test S B) → Test S B
◌>>=◌ m k f = k (m f).0 (m f).1

abbrev pub ◌>>◌ : {S : Store} {A B : Type 0} → Test S A → Test S B → Test S B
◌>>◌ m k f = k (m f).1

module _ {S : Store} where
  abbrev pub expect : Bool → Test S (Unit {0})
  expect b f = (tt, record f { failed = f.failed + (if b then 0 else 1) })

  -- `EXPECT_EQ` on a status and on a text.
  abbrev pub expect_status : Status → Status → Test S (Unit {0})
  expect_status wanted rc = expect (status_eq wanted rc)

  abbrev pub expect_text : Text → Text → Test S (Unit {0})
  expect_text a b = expect (text_eq a b)

  -- The helper methods for the key of the test and for a given key.
  abbrev pub set_data_at : Text → Text → ℕ → ℤ → Test S Status
  set_data_at key data_in cas expiry f =
      let r = S.set_data f.store table key data_in cas expiry in (r.0, record f { store = r.1 })

  abbrev pub set_data : Text → ℕ → ℤ → Test S Status
  set_data data_in cas expiry f = set_data_at f.key data_in cas expiry f

  abbrev pub get_data_at : Text → Text → ℕ → Test S (Status × Text × ℕ)
  get_data_at key data_out cas f =
      let r = S.get_data f.store table key data_out cas in (r.0, record f { store = r.1 })

  abbrev pub get_data : Text → ℕ → Test S (Status × Text × ℕ)
  get_data data_out cas f = get_data_at f.key data_out cas f

  abbrev pub delete_data : Test S Status
  delete_data f = let r = S.delete_data f.store table f.key in (r.0, record f { store = r.1 })

  -- `_key = std::to_string(_next_key++)`, here and in `SetUp`.
  unfoldable pub get_new_key : Test S (Unit {0})
  get_new_key f = (tt, record f { key = decimal f.next_key; next_key = (f.next_key + 1) % 2 ^ 32 })

  abbrev pub own_key : Test S Text
  own_key f = (f.key, f)

  -- `sleep` and `usleep`, in microseconds.
  abbrev pub sleep : ℕ → Test S (Unit {0})
  sleep us f = (tt, record f { store = S.wait f.store us })

-- The default expiry, `int expiry = 60`.
abbrev pub default_expiry : ℤ
default_expiry = pos 60

-- The keys of `n` calls of `get_new_key`, one after the other.
unfoldable pub new_keys : {S : Store} → ℕ → Fixture S → List Text
unfolding get_new_key
new_keys zero f = []
new_keys (suc n) f = (get_new_key f).1.key ∷ new_keys n (get_new_key f).1
