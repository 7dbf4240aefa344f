-- ===== src/Base/Lists.antt =====
-- Lists over the native numbers, predicates on lists by recursion, and tests of equality.
use Prim.Native.Nat.{ℕ, zero, suc, ◌+◌, ◌≤◌}
use mathlib.Core.Path.{◌≡◌, refl, ap}
use mathlib.Core.Logic.{◌↔◌, ◌≢◌, inl, inr}
use mathlib.Core.Bool.{Bool, true, false, ◌&&◌}
use mathlib.Core.List.{List, [], ◌∷◌, ◌++◌, map}
use mathlib.Core.Option.{Option, none, some}
use native.Mathlib.Omega.{arith}
use clearwater_fv_test.Base.Tests.{◌==◌, Bool-cases}

module _ {ℓ} {A : Type ℓ} where
  abbrev pub length : List A → ℕ
  length [] = 0
  length (x ∷ xs) = suc (length xs)

  -- `vector::back()`, undefined (here `none`) on an empty vector.
  abbrev pub get_last? : List A → Option A
  get_last? [] = none
  get_last? (x ∷ []) = some x
  get_last? (x ∷ y ∷ ys) = get_last? (y ∷ ys)

module _ {ℓ κ} {A : Type ℓ} (P : A → Type κ) where
  abbrev pub All : List A → Type κ
  All [] = Unit
  All (x ∷ xs) = P x × All xs

  pub All-append : (xs ys : List A) → All xs → All ys → All (xs ++ ys)
  All-append [] ys hx hy = hy
  All-append (x ∷ xs) ys hx hy = (hx.0, All-append xs ys hx.1 hy)

module _ {ℓ κ κ'} {A : Type ℓ} (P : A → Type κ) (Q : A → Type κ') where
  pub All-mono : (xs : List A) → ((x : A) → P x → Q x) → All P xs → All Q xs
  All-mono [] f h = tt
  All-mono (x ∷ xs) f h = (f x h.0, All-mono xs f h.1)

  -- What follows from two properties of each entry.
  pub All-both {ρ} :
      (R : A → Type ρ) (xs : List A) → ((x : A) → P x → Q x → R x) → All P xs → All Q xs → All R xs
  All-both R [] f hp hq = tt
  All-both R (x ∷ xs) f hp hq = (f x hp.0 hq.0, All-both R xs f hp.1 hq.1)

-- No two entries are equal.
abbrev pub Distinct {ℓ} : {A : Type ℓ} → List A → Type ℓ
Distinct [] = Unit
Distinct (x ∷ xs) = All (λ y. x ≢ y) xs × Distinct xs

module _ {ℓ} {A : Type ℓ} where
  -- Every entry of the one list differs from every entry of the other.
  abbrev pub Apart : List A → List A → Type ℓ
  Apart xs ys = All (λ x. All (λ y. x ≢ y) ys) xs

  pub Distinct-append :
      (xs ys : List A) → Distinct xs → Distinct ys → Apart xs ys → Distinct (xs ++ ys)
  Distinct-append [] ys dx dy a = dy
  Distinct-append (x ∷ xs) ys dx dy a =
      (All-append (λ y. x ≢ y) xs ys dx.0 a.0, Distinct-append xs ys dx.1 dy a.1)

  -- `f i`, `f (i + 1)`, …: what a loop over `n` rounds makes.
  abbrev pub numbered : (ℕ → A) → ℕ → ℕ → List A
  numbered f i zero = []
  numbered f i (suc n) = f i ∷ numbered f (i + 1) n

module _ {ℓ κ} {A : Type ℓ} (P : A → Type κ) where
  pub All-numbered : (f : ℕ → A) (i n : ℕ) → ((k : ℕ) → i ≤ k → P (f k)) → All P (numbered f i n)
  All-numbered f i zero h = tt
  All-numbered f i (suc n) h =
      (h i (omega arith), All-numbered f (i + 1) n (λ k lt. h k (omega arith)))

module _ {ℓ} {A : Type ℓ} where
  pub Distinct-numbered :
      (f : ℕ → A) (i n : ℕ) → ((a b : ℕ) → f a ≡ f b → a ≡ b) → Distinct (numbered f i n)
  Distinct-numbered f i zero inj = tt
  Distinct-numbered f i (suc n) inj = (
    All-numbered (λ y. f i ≢ y) f (i + 1) n (λ k lt e. omega (arith, inj i k e)),
    Distinct-numbered f (i + 1) n inj,
  )

  pub Apart-numbered :
      (f g : ℕ → A) (i n j m : ℕ)
      → ((a b : ℕ) → f a ≢ g b)
      → Apart (numbered f i n) (numbered g j m)
  Apart-numbered f g i n j m h =
      All-numbered (λ x. All (λ y. x ≢ y) (numbered g j m)) f i n
        (λ a _. All-numbered (λ y. f a ≢ y) g j m (λ b _. h a b))

  pub Apart-append : (xs ys zs : List A) → Apart xs ys → Apart xs zs → Apart xs (ys ++ zs)
  Apart-append [] ys zs a b = tt
  Apart-append (x ∷ xs) ys zs a b =
      (All-append (λ y. x ≢ y) ys zs a.0 b.0, Apart-append xs ys zs a.1 b.1)

  pub numbered_last : (f : ℕ → A) (i n : ℕ) → get_last? (numbered f i (suc n)) ≡ some (f (i + n))
  numbered_last f i zero = let e : i + 0 ≡ i = omega arith in rw e
  numbered_last f i (suc n) =
      let e : (i + 1) + n ≡ i + suc n = omega arith in rw (← e) (numbered_last f (i + 1) n)

module _ {ℓ κ} {A : Type ℓ} {B : Type κ} where
  pub map-numbered :
      (g : A → B) (f : ℕ → A) (i n : ℕ) → map g (numbered f i n) ≡ numbered (λ k. g (f k)) i n
  map-numbered g f i zero = refl
  map-numbered g f i (suc n) = ap (◌∷◌ (g (f i))) (map-numbered g f (i + 1) n)

-- Equality of texts, byte by byte.
abbrev pub text_eq : List ℕ → List ℕ → Bool
text_eq [] [] = true
text_eq [] (y ∷ ys) = false
text_eq (x ∷ xs) [] = false
text_eq (x ∷ xs) (y ∷ ys) = (x == y) && text_eq xs ys

pub text_eq_iff : (xs ys : List ℕ) → (text_eq xs ys ≡ true) ↔ (xs ≡ ys)
text_eq_iff [] [] = (λ _. refl, λ _. refl)
text_eq_iff [] (y ∷ ys) = (λ e. cc, λ e. cc)
text_eq_iff (x ∷ xs) [] = (λ e. cc, λ e. cc)
text_eq_iff (x ∷ xs) (y ∷ ys) = ground (arith, text_eq_iff xs ys)

pub text_ne : (xs ys : List ℕ) → xs ≢ ys → text_eq xs ys ≡ false
text_ne xs ys ne = elim (Bool-cases (text_eq xs ys)) [
  | inl same ↦ absurd (ne ((text_eq_iff xs ys).0 same))
  | inr other ↦ other
]

-- Two texts that are equal are not found different.
pub differ : (xs ys : List ℕ) → xs ≡ ys → text_eq xs ys ≡ false → ⊥
differ xs ys e other = cc ((text_eq_iff xs ys).1 e)
