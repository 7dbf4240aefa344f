-- ===== src/Driver.antt =====
-- `main` of the tests, src/test_main.cpp, up to its call of RUN_ALL_TESTS.
pub mod Repeats
use clearwater_fv_test.Base.{ℕ, ◌+◌, ◌%◌, ◌^◌, ◌++◌, Option, none, some}
use clearwater_fv_test.Text.{Text, codes}
use clearwater_fv_test.Text.Integer.{pos, to_string, to_int32, to_uint32, atoi}
use clearwater_fv_test.System.{Os}

-- `seed`, an `unsigned int`. `time` and `pid` are the answers of time(NULL) and getpid().
unfoldable pub seed_of : Option Text → ℕ → ℕ → ℕ
unfolding to_uint32 atoi
seed_of (some seed_str) time pid = to_uint32 (atoi seed_str)
seed_of none time pid = (time + pid) % 2 ^ 32

-- printf("%d") of an `unsigned int`: its 32 bits, read as an `int`.
unfoldable pub printed : ℕ → Text
unfolding to_string to_int32
printed seed = to_string (to_int32 (pos seed))

-- What the program has printed before its tests run, and the argument of srand().
pub record Start : Type 0 where
  pub output : Text
  pub srand : ℕ

abbrev pub start_with : ℕ → Start
start_with seed = record {
  output = codes "Running with random seed: " ++ printed seed ++ codes "\n";
  srand = seed;
}

unfoldable pub main : Os → ℕ → ℕ → Start
unfolding seed_of printed
main os time pid = start_with (seed_of (os.getenv (codes "RANDOM_SEED")) time pid)
