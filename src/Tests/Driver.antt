-- ===== src/Tests/Driver.antt =====
-- The theorem on `main`, at a seed that does not fit an `int`.
use clearwater_fv_test.Base.{◌≡◌, refl, none, some, ◌++◌}
use clearwater_fv_test.Text.{codes}
use clearwater_fv_test.Text.Decimal.{decimal}
use clearwater_fv_test.Text.Integer.{to_string}
use clearwater_fv_test.System.{Os}
use clearwater_fv_test.Driver.{main}
use clearwater_fv_test.Driver.Repeats.{main-repeats}
use clearwater_fv_test.Tests.{calm_os}

abbrev unseeded_os : Os
unseeded_os = record calm_os { getenv = λ name. none }

abbrev seeded_os : Os
seeded_os = record calm_os { getenv = λ name. some (codes "-1294967289") }

prints_negative :
    (main unseeded_os 3_000_000_000 7).output
    ≡ codes "Running with random seed: " ++ codes "-1294967289" ++ codes "\n"
unfolding main to_string decimal
prints_negative = refl

main-repeats_example : main seeded_os 3_000_000_100 42 ≡ main unseeded_os 3_000_000_000 7
main-repeats_example =
    main-repeats unseeded_os seeded_os 3_000_000_000 7 3_000_000_100 42 (codes "-1294967289")
      prints_negative refl
