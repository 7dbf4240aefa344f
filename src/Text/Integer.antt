-- ===== src/Text/Integer.antt =====
-- C++ `int` values: `std::to_string`, and `strtol` and `atoi` of the C library.
use clearwater_fv_test.Base.{
  ℕ, zero, suc, ◌-◌, ◌%◌, ◌^◌, ◌<◌, ◌≡◌, refl, sym, ap, ◌∙◌, Bool, true, false, ◌&&◌, ◌||◌, List,
  [], ◌∷◌, arith, ltb, leb, ◌==◌, if◌then◌else◌, All, Bool-cases, inl, inr, ltb→lt, ltb-false,
}
use clearwater_fv_test.Text.Decimal.{
  decimal, value, value-decimal, is_digit, IsDigit, decimal-digits, decimal-cons,
}

-- `negsuc n` is -(n + 1).
pub data ℤ : Type 0 where
  pos : ℕ → ℤ
  negsuc : ℕ → ℤ

unfoldable pub to_string : ℤ → List ℕ
to_string (pos n) = decimal n
to_string (negsuc n) = b'-' ∷ decimal (suc n)

abbrev pub is_zero : ℤ → Bool
is_zero (pos zero) = true
is_zero (pos (suc n)) = false
is_zero (negsuc n) = false

abbrev pub is_minus_one : ℤ → Bool
is_minus_one (pos n) = false
is_minus_one (negsuc zero) = true
is_minus_one (negsuc (suc n)) = false

-- A `long` stored in an `int`: the low 32 bits, read as a signed number.
unfoldable pub to_int32 : ℤ → ℤ
to_int32 (pos n) =
    let low = n % 2 ^ 32 in if ltb low (2 ^ 31) then pos low else negsuc (2 ^ 32 - 1 - low)
to_int32 (negsuc n) =
    let low = n % 2 ^ 32 in if ltb low (2 ^ 31) then negsuc low else pos (2 ^ 32 - 1 - low)

-- An `int` stored in an `unsigned int` of 32 bits.
unfoldable pub to_uint32 : ℤ → ℕ
to_uint32 (pos n) = n % 2 ^ 32
to_uint32 (negsuc n) = 2 ^ 32 - 1 - n % 2 ^ 32

-- The values of an `int`.
abbrev pub IsInt32 : ℤ → Type 0
IsInt32 (pos n) = n < 2 ^ 31
IsInt32 (negsuc n) = n < 2 ^ 31

abbrev pub is_space : ℕ → Bool
is_space c = (c == b' ') || (leb 9 c && leb c 13)

pub skip_spaces : List ℕ → List ℕ
skip_spaces [] = []
skip_spaces (c ∷ cs) = if is_space c then skip_spaces cs else c ∷ cs

pub take_digits : List ℕ → List ℕ
take_digits [] = []
take_digits (c ∷ cs) = if is_digit c then c ∷ take_digits cs else []

-- A value out of the range of `long` is clamped.
clamp_pos : ℕ → ℤ
clamp_pos n = if ltb n (2 ^ 63) then pos n else pos (2 ^ 63 - 1)

clamp_neg : ℕ → ℤ
clamp_neg zero = pos 0
clamp_neg (suc n) = if ltb n (2 ^ 63) then negsuc n else negsuc (2 ^ 63 - 1)

strtol_sign : List ℕ → ℤ
unfolding clamp_pos clamp_neg
strtol_sign [] = pos 0
strtol_sign (c ∷ cs) =
    if c == b'-'
    then clamp_neg (value 0 (take_digits cs))
    else if c == b'+'
    then clamp_pos (value 0 (take_digits cs))
    else clamp_pos (value 0 (take_digits (c ∷ cs)))

-- `strtol(s, NULL, 10)`.
unfoldable pub strtol : List ℕ → ℤ
unfolding skip_spaces take_digits strtol_sign value
strtol s = strtol_sign (skip_spaces s)

-- `atoi(s)` is `(int) strtol(s, NULL, 10)`.
unfoldable pub atoi : List ℕ → ℤ
unfolding to_int32 strtol
atoi s = to_int32 (strtol s)

take_digits-All : (xs : List ℕ) → All IsDigit xs → take_digits xs ≡ xs
unfolding take_digits
take_digits-All [] h = refl
take_digits-All (x ∷ xs) h = ground (arith, take_digits-All xs h.1)

strtol-digits :
    (c : ℕ) (cs : List ℕ) → All IsDigit (c ∷ cs) → strtol (c ∷ cs) ≡ clamp_pos (value 0 (c ∷ cs))
unfolding strtol
strtol-digits c cs h = ground (arith, take_digits-All (c ∷ cs) h, take_digits-All cs h.1)

clamp_pos-int : (n : ℕ) → n < 2 ^ 31 → to_int32 (clamp_pos n) ≡ pos n
unfolding to_int32 clamp_pos
clamp_pos-int n h = ground arith

strtol-decimal : (n : ℕ) → strtol (decimal n) ≡ clamp_pos n
strtol-decimal n =
    let (c, cs, e) = decimal-cons n in
    rw e (
      strtol-digits c cs (rw e at (decimal-digits n))
      ∙ ap clamp_pos (ap (value 0) (sym e) ∙ value-decimal n))

pub decimal-strtol_int :
    (n : ℕ) → n < 2 ^ 31 → to_string (to_int32 (strtol (decimal n))) ≡ decimal n
unfolding to_string
decimal-strtol_int n h = rw (strtol-decimal n, clamp_pos-int n h)

-- What `to_string` printed is what `atoi` reads, for a non-negative `int`.
pub atoi-decimal : (n : ℕ) → n < 2 ^ 31 → atoi (decimal n) ≡ pos n
unfolding atoi
atoi-decimal n h = rw (strtol-decimal n) (clamp_pos-int n h)

strtol-negative : (n : ℕ) → strtol (b'-' ∷ decimal (suc n)) ≡ clamp_neg (suc n)
unfolding strtol strtol_sign skip_spaces
strtol-negative n = ap clamp_neg (
    ap (value 0) (take_digits-All (decimal (suc n)) (decimal-digits (suc n)))
    ∙ value-decimal (suc n))

clamp_neg-int : (n : ℕ) → n < 2 ^ 31 → to_int32 (clamp_neg (suc n)) ≡ negsuc n
unfolding to_int32 clamp_neg
clamp_neg-int n h = ground arith

-- What `to_string` or printf("%d") printed of an `int` is what `atoi` reads.
pub atoi-to_string : (z : ℤ) → IsInt32 z → atoi (to_string z) ≡ z
unfolding atoi to_string
atoi-to_string (pos n) h = atoi-decimal n h
atoi-to_string (negsuc n) h = rw (strtol-negative n) (clamp_neg-int n h)

pub to_int32-IsInt32 : (n : ℕ) → IsInt32 (to_int32 (pos n))
unfolding to_int32
to_int32-IsInt32 n = elim (Bool-cases (ltb (n % 2 ^ 32) (2 ^ 31))) [
  | inl small ↦ rw small (ltb→lt (n % 2 ^ 32) (2 ^ 31) small)
  | inr big ↦ rw big (omega (arith, ltb-false (n % 2 ^ 32) (2 ^ 31) big))
]

-- 32 bits read as a signed number, and stored as an unsigned one again, are as before.
pub to_uint32-to_int32 : (n : ℕ) → n < 2 ^ 32 → to_uint32 (to_int32 (pos n)) ≡ n
unfolding to_uint32 to_int32
to_uint32-to_int32 n h = elim (Bool-cases (ltb (n % 2 ^ 32) (2 ^ 31))) [
  | inl small ↦ rw small (omega arith)
  | inr big ↦ rw big (omega (arith, ltb-false (n % 2 ^ 32) (2 ^ 31) big))
]

atoi_tests : (atoi (32 ∷ 45 ∷ 52 ∷ 50 ∷ 58 ∷ []) ≡ negsuc 41) × (atoi [] ≡ pos 0)
unfolding atoi
atoi_tests = (refl, refl)
