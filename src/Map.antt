-- ===== src/Map.antt =====
-- `std::map` with texts as keys, as the list of its entries in the order of the keys.
use clearwater_fv_test.Base.{Bool, true, false, List, [], ◌∷◌, ltb, ◌==◌, if◌then◌else◌, text_eq}
use clearwater_fv_test.Text.{Text}

-- `operator<` of two strings.
unfoldable pub less : Text → Text → Bool
less xs [] = false
less [] (y ∷ ys) = true
less (x ∷ xs) (y ∷ ys) =
    let rest = less xs ys in if ltb x y then true else if x == y then rest else false

-- `map::emplace`: an entry that is there stays.
unfoldable pub emplace {ℓ} : {A : Type ℓ} → Text → A → List (Text × A) → List (Text × A)
unfolding less
emplace k v [] = (k, v) ∷ []
emplace k v ((k', v') ∷ rest) =
    let later = emplace k v rest in
    if less k k'
    then (k, v) ∷ (k', v') ∷ rest
    else if text_eq k k'
    then (k', v') ∷ rest
    else (k', v') ∷ later

-- `m[k] = v`.
unfoldable pub assign {ℓ} : {A : Type ℓ} → Text → A → List (Text × A) → List (Text × A)
unfolding less
assign k v [] = (k, v) ∷ []
assign k v ((k', v') ∷ rest) =
    let later = assign k v rest in
    if less k k'
    then (k, v) ∷ (k', v') ∷ rest
    else if text_eq k k'
    then (k', v) ∷ rest
    else (k', v') ∷ later
