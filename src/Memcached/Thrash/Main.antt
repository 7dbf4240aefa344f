-- ===== src/Memcached/Thrash/Main.antt =====
-- ThrashTest itself, src/test_memcachedsolution.cpp: its keys, its threads, and what it checks.
pub mod Fresh
pub mod Keys
pub mod Passes
use clearwater_fv_test.Base.{ℕ, zero, suc, ◌+◌, ◌*◌, ◌==◌, Bool, true, false, List, [], ◌∷◌}
use clearwater_fv_test.Text.{Text, codes}
use clearwater_fv_test.Text.Integer.{ℤ, pos, negsuc, atoi}
use clearwater_fv_test.Memcached.Store.{Status, stored, Store}
use clearwater_fv_test.Memcached.Timed.{seconds}
use clearwater_fv_test.Memcached.Fixture.{
  Fixture, Test, ◌>>=◌, ◌>>◌, expect, expect_status, set_data_at, get_data_at, get_new_key, own_key,
  sleep, default_expiry, table,
}
use clearwater_fv_test.Memcached.Thrash.{run, spawned, num_incr_per_key_per_thread}

-- `==` on an `int`.
abbrev pub int_eq : ℤ → ℤ → Bool
int_eq (pos m) (pos n) = m == n
int_eq (negsuc m) (negsuc n) = m == n
int_eq _ _ = false

-- The keys and the threads of the test, ten of each.
abbrev pub num_keys : ℕ
num_keys = 10

abbrev pub num_threads : ℕ
num_threads = 10

module _ {S : Store} where
  -- The first loop: the test's own key is set to "0", and the next one is taken.
  unfoldable pub set_keys : ℕ → Test S (List Text)
  unfolding get_new_key
  set_keys zero = λ f. ([], f)
  set_keys (suc n) = do
    key ← own_key
    rc ← set_data_at key (codes "0") 0 default_expiry
    expect_status stored rc
    get_new_key
    keys ← set_keys n
    λ f. (key ∷ keys, f)

  -- The second and third loops: the threads take their turns as the schedule says, until the main
  -- thread goes on. `junk` is what their `cas` holds before it is set.
  unfoldable pub run_threads : List Text → ℕ → List ℕ → Test S (Unit {0})
  unfolding run
  run_threads keys junk schedule f =
      let w = run S table keys junk num_threads schedule (spawned S f.store) in
      (tt, record f { store = w.store; failed = f.failed + w.failed })

  -- The last loop, in each round of which `cas` holds `junk` before it is set.
  unfoldable pub check_keys : ℕ → List Text → Test S (Unit {0})
  unfolding atoi
  check_keys junk [] = λ f. (tt, f)
  check_keys junk (key ∷ keys) = do
    let expected_value = pos (num_incr_per_key_per_thread * num_threads)
    (rc, data_out, cas) ← get_data_at key [] junk
    expect_status stored rc
    expect (int_eq expected_value (atoi data_out))
    check_keys junk keys

  unfoldable pub thrash_test : ℕ → ℕ → List ℕ → Test S (Unit {0})
  unfolding set_keys run_threads check_keys
  thrash_test junk junk' schedule = do
    keys ← set_keys num_keys
    run_threads keys junk schedule
    sleep (seconds 61)
    check_keys junk' keys
