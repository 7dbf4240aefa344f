-- ===== src/Text/Split.antt =====
-- Reading texts back: parts between separators, and what follows a prefix.
use clearwater_fv_test.Base.{
  ℕ, suc, ◌<◌, ◌≡◌, ◌≢◌, refl, subst, List, [], ◌∷◌, ◌++◌, Option, none, some, arith, ◌==◌,
  if◌then◌else◌, All,
}
use clearwater_fv_test.Text.Decimal.{decimal, IsDigit, decimal-digits}
use clearwater_fv_test.Text.Integer.{ℤ, pos, negsuc, to_string}

abbrev pub Lacks : ℕ → List ℕ → Type 0
Lacks sep s = All (λ c. c ≢ sep) s

abbrev onto_first : ℕ → List (List ℕ) → List (List ℕ)
onto_first c [] = (c ∷ []) ∷ []
onto_first c (x ∷ xs) = (c ∷ x) ∷ xs

-- The parts of a text between separators, of which there is at least one.
unfoldable pub split : ℕ → List ℕ → List (List ℕ)
split sep [] = [] ∷ []
split sep (c ∷ cs) = let rest = split sep cs in if c == sep then [] ∷ rest else onto_first c rest

pub split-first :
    (sep : ℕ) (x rest : List ℕ) → Lacks sep x → split sep (x ++ sep ∷ rest) ≡ x ∷ split sep rest
unfolding split
split-first sep [] rest h = ground arith
split-first sep (c ∷ x) rest h = ground (arith, split-first sep x rest h.1)

pub split-only : (sep : ℕ) (x : List ℕ) → Lacks sep x → split sep x ≡ x ∷ []
unfolding split
split-only sep [] h = refl
split-only sep (c ∷ x) h = ground (arith, split-only sep x h.1)

-- What follows a prefix.
unfoldable pub strip : List ℕ → List ℕ → Option (List ℕ)
strip [] s = some s
strip (p ∷ ps) [] = none
strip (p ∷ ps) (c ∷ cs) = let rest = strip ps cs in if p == c then rest else none

pub strip-append : (p s : List ℕ) → strip p (p ++ s) ≡ some s
unfolding strip
strip-append [] s = refl
strip-append (c ∷ p) s = ground (arith, strip-append p s)

-- Digits are no separator.
pub digits-Lacks : (sep : ℕ) (ds : List ℕ) → ¬ IsDigit sep → All IsDigit ds → Lacks sep ds
digits-Lacks sep [] h ds = tt
digits-Lacks sep (d ∷ ds) h (is_digit, rest) =
    (λ e. h (subst IsDigit e is_digit), digits-Lacks sep ds h rest)

pub to_string-Lacks : (sep : ℕ) (z : ℤ) → sep < b'-' → Lacks sep (to_string z)
unfolding to_string
to_string-Lacks sep (pos n) h =
    digits-Lacks sep (decimal n) (λ (low, high). omega arith) (decimal-digits n)
to_string-Lacks sep (negsuc n) h = (
  λ e. omega arith,
  digits-Lacks sep (decimal (suc n)) (λ (low, high). omega arith) (decimal-digits (suc n)),
)
