-- ===== src/Driver/Repeats.antt =====
-- A run of the tests can be repeated with the seed that it printed.
use clearwater_fv_test.Base.{
  ℕ, ◌^◌, ◌<◌, ◌≡◌, sym, ap, ◌∙◌, ◌++◌, Option, none, some, arith, append_cancel_left,
  append_cancel_right,
}
use clearwater_fv_test.Text.{Text, codes}
use clearwater_fv_test.Text.Integer.{
  ℤ, pos, negsuc, to_int32, to_uint32, atoi-to_string, to_int32-IsInt32, to_uint32-to_int32,
}
use clearwater_fv_test.System.{Os}
use clearwater_fv_test.Driver.{start_with, main, seed_of, printed}

to_uint32-bound : (z : ℤ) → to_uint32 z < 2 ^ 32
unfolding to_uint32
to_uint32-bound (pos n) = omega arith
to_uint32-bound (negsuc n) = omega arith

seed_of-bound : (s : Option Text) (time pid : ℕ) → seed_of s time pid < 2 ^ 32
unfolding seed_of
seed_of-bound none time pid = omega arith
seed_of-bound (some s) time pid = to_uint32-bound _

seed_of-printed :
    (seed time pid : ℕ) → seed < 2 ^ 32 → seed_of (some (printed seed)) time pid ≡ seed
unfolding seed_of printed
seed_of-printed seed time pid h =
    ap to_uint32 (atoi-to_string (to_int32 (pos seed)) (to_int32-IsInt32 seed))
    ∙ to_uint32-to_int32 seed h

output-printed :
    (os : Os) (time pid : ℕ) (text : Text)
    → (main os time pid).output ≡ codes "Running with random seed: " ++ text ++ codes "\n"
    → printed (main os time pid).srand ≡ text
unfolding main
output-printed os time pid text e =
    append_cancel_right _ _ (codes "\n")
      (append_cancel_left (codes "Running with random seed: ") _ _ e)

-- A run whose RANDOM_SEED is the text that another run printed for its seed prints the same line,
-- and gives srand() the same seed, at any time and in any process.
pub main-repeats :
    (os os' : Os) (time pid time' pid' : ℕ) (text : Text)
    → (main os time pid).output ≡ codes "Running with random seed: " ++ text ++ codes "\n"
    → os'.getenv (codes "RANDOM_SEED") ≡ some text
    → main os' time' pid' ≡ main os time pid
unfolding main
main-repeats os os' time pid time' pid' text line set =
    let seed = seed_of (os.getenv (codes "RANDOM_SEED")) time pid in
    let same : seed_of (os'.getenv (codes "RANDOM_SEED")) time' pid' ≡ seed =
      ap (λ x. seed_of x time' pid') (set ∙ ap some (sym (output-printed os time pid text line)))
      ∙ seed_of-printed seed time' pid'
          (seed_of-bound (os.getenv (codes "RANDOM_SEED")) time pid) in
    ap start_with same
