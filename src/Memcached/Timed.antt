-- ===== src/Memcached/Timed.antt =====
-- How long the store keeps its records, as the tests rely on it.
use clearwater_fv_test.Base.{ℕ, suc, ◌*◌, ◌<◌, ◌≡◌, ◌≢◌, none, some}
use clearwater_fv_test.Text.{Text}
use clearwater_fv_test.Text.Integer.{ℤ, pos}
use clearwater_fv_test.Memcached.Store.{Store, IsStore}

abbrev pub seconds : ℕ → ℕ
seconds n = n * 1_000_000

-- `left` is the time that the record of a key has still to live, in microseconds. An expiry is in
-- seconds, from the write on. Time passes in `wait` only.
pub record IsTimed (S : Store) (table : Text) : Type 1 where
  pub store_laws : IsStore S table
  pub open store_laws use *
  pub left : S.State → Text → ℕ
  pub get_left :
      (s : S.State) (k d₀ : Text) (c₀ : ℕ) (j : Text)
      → left (S.get_data s table k d₀ c₀).1 j ≡ left s j
  pub add_left :
      (s : S.State) (k d' : Text) (e : ℕ)
      → view s k ≡ none
      → left (S.set_data s table k d' 0 (pos (suc e))).1 k ≡ seconds (suc e)
  pub match_left :
      (s : S.State) (k d d' : Text) (c e : ℕ)
      → view s k ≡ some (d, c)
      → left (S.set_data s table k d' c (pos (suc e))).1 k ≡ seconds (suc e)
  pub conflict_left :
      (s : S.State) (k d d' : Text) (c c₀ : ℕ) (e : ℤ)
      → view s k ≡ some (d, c)
      → c₀ ≢ c
      → left (S.set_data s table k d' c₀ e).1 k ≡ left s k
  pub other_left :
      (s : S.State) (k d' : Text) (c₀ : ℕ) (e : ℤ) (j : Text)
      → k ≢ j
      → left (S.set_data s table k d' c₀ e).1 j ≡ left s j
  pub wait_kept :
      (s : S.State) (k d : Text) (c us : ℕ)
      → view s k ≡ some (d, c)
      → us < left s k
      → view (S.wait s us) k ≡ some (d, c)
  pub wait_expired : (s : S.State) (k : Text) (us : ℕ) → left s k < us → view (S.wait s us) k ≡ none
