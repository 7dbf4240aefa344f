-- ===== src/Memcached/Store.antt =====
-- The store that the tests talk to, `TopologyNeutralMemcachedStore` of the cpp-common submodule:
-- an interface, and what the comments of src/test_memcachedsolution.cpp say that it does.
use clearwater_fv_test.Base.{ℕ, suc, ◌≡◌, ◌≢◌, Option, none, some}
use clearwater_fv_test.Text.{Text}
use clearwater_fv_test.Text.Integer.{ℤ, pos}

-- `Store::Status`, as far as the tests name it.
pub data Status : Type 0 where
  stored not_found data_contention error : Status

-- `State` is all that the store, its proxies and its databases remember. `get_data` is given what
-- its out-parameters hold before the call. `wait` lets a number of microseconds pass.
pub record Store : Type 1 where
  pub State : Type 0
  pub get_data : State → Text → Text → Text → ℕ → (Status × Text × ℕ) × State
  pub set_data : State → Text → Text → Text → ℕ → ℤ → Status × State
  pub delete_data : State → Text → Text → Status × State
  pub wait : State → ℕ → State

-- Compare and set on one table. `view` is the record of each key with its CAS value, and `Issued`
-- holds of the CAS values that were given to some record so far: a new one is never among them.
pub record IsCas (S : Store) (table : Text) : Type 1 where
  pub view : S.State → Text → Option (Text × ℕ)
  pub Issued : S.State → ℕ → Type 0
  pub view_issued : (s : S.State) (k d : Text) (c : ℕ) → view s k ≡ some (d, c) → Issued s c
  pub get_found :
      (s : S.State) (k d d₀ : Text) (c c₀ : ℕ)
      → view s k ≡ some (d, c)
      → (S.get_data s table k d₀ c₀).0 ≡ (Status.stored, d, c)
  pub get_view :
      (s : S.State) (k d₀ : Text) (c₀ : ℕ) (j : Text)
      → view (S.get_data s table k d₀ c₀).1 j ≡ view s j
  pub get_issued :
      (s : S.State) (k d₀ : Text) (c₀ c : ℕ) → Issued s c → Issued (S.get_data s table k d₀ c₀).1 c
  -- A record with the CAS value that is given is replaced, under a new CAS value.
  pub set_match :
      (s : S.State) (k d d' : Text) (c e : ℕ)
      → view s k ≡ some (d, c)
      → let r = S.set_data s table k d' c (pos (suc e)) in
        (r.0 ≡ Status.stored) × ((c' : ℕ) × (view r.1 k ≡ some (d', c')) × (¬ Issued s c'))
  -- With another CAS value nothing is written.
  pub set_conflict :
      (s : S.State) (k d d' : Text) (c c₀ : ℕ) (e : ℤ)
      → view s k ≡ some (d, c)
      → c₀ ≢ c
      → let r = S.set_data s table k d' c₀ e in
        (r.0 ≡ Status.data_contention) × (view r.1 k ≡ some (d, c))
  pub set_other :
      (s : S.State) (k d' : Text) (c₀ : ℕ) (e : ℤ) (j : Text)
      → k ≢ j
      → view (S.set_data s table k d' c₀ e).1 j ≡ view s j
  pub set_issued :
      (s : S.State) (k d' : Text) (c₀ : ℕ) (e : ℤ) (c : ℕ)
      → Issued s c
      → Issued (S.set_data s table k d' c₀ e).1 c

-- What the tests rely on beyond compare and set: records that are absent, added and deleted.
pub record IsStore (S : Store) (table : Text) : Type 1 where
  pub cas_laws : IsCas S table
  pub open cas_laws use *
  pub cas_nonzero : (s : S.State) (k d : Text) (c : ℕ) → view s k ≡ some (d, c) → c ≢ 0
  pub get_missing :
      (s : S.State) (k d₀ : Text) (c₀ : ℕ)
      → view s k ≡ none
      → let r = S.get_data s table k d₀ c₀ in (r.0.0 ≡ Status.not_found) × (r.0.2 ≡ 0)
  -- CAS value 0 adds a record.
  pub set_add :
      (s : S.State) (k d' : Text) (e : ℕ)
      → view s k ≡ none
      → let r = S.set_data s table k d' 0 (pos (suc e)) in
        (r.0 ≡ Status.stored) × ((c' : ℕ) × (view r.1 k ≡ some (d', c')))
  -- Another CAS value does not bring a deleted record back.
  pub set_gone :
      (s : S.State) (k d' : Text) (c₀ : ℕ) (e : ℤ)
      → view s k ≡ none
      → c₀ ≢ 0
      → let r = S.set_data s table k d' c₀ e in (r.0 ≡ Status.data_contention) × (view r.1 k ≡ none)
  -- An expiry of 0 deletes.
  pub set_expired :
      (s : S.State) (k d d' : Text) (c : ℕ)
      → view s k ≡ some (d, c)
      → let r = S.set_data s table k d' c (pos 0) in (r.0 ≡ Status.stored) × (view r.1 k ≡ none)
  pub delete_lem :
      (s : S.State) (k : Text)
      → let r = S.delete_data s table k in (r.0 ≡ Status.stored) × (view r.1 k ≡ none)
  -- A record that is absent stays absent while time passes.
  pub wait_missing :
      (s : S.State) (k : Text) (us : ℕ) → view s k ≡ none → view (S.wait s us) k ≡ none
