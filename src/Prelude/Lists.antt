-- ===== src/Prelude/Lists.antt =====
-- List functions over the native numbers, and their laws.
use Prim.Native.Nat.{ℕ, zero, suc, ◌+◌, ◌-◌, ◌≤◌, ◌<◌}
use mathlib.Core.Logic.{◌⊎◌}
use mathlib.Core.Path.{◌≡◌, refl, ap}
use mathlib.Core.List.{List, [], ◌∷◌, ◌++◌}
use native.Mathlib.Nat.{zero-add, suc-add}
use native.Mathlib.Omega.{arith}

module _ {ℓ} {A : Type ℓ} where
  abbrev pub length : List A → ℕ
  length [] = 0
  length (x ∷ xs) = suc (length xs)

  abbrev pub get_or : List A → ℕ → A → A
  get_or [] i z = z
  get_or (x ∷ xs) zero z = x
  get_or (x ∷ xs) (suc i) z = get_or xs i z

  -- A write out of bounds changes nothing.
  abbrev pub set : List A → ℕ → A → List A
  set [] i v = []
  set (x ∷ xs) zero v = v ∷ xs
  set (x ∷ xs) (suc i) v = x ∷ set xs i v

  abbrev pub take : ℕ → List A → List A
  take zero xs = []
  take (suc n) [] = []
  take (suc n) (x ∷ xs) = x ∷ take n xs

  abbrev pub drop : ℕ → List A → List A
  drop zero xs = xs
  drop (suc n) [] = []
  drop (suc n) (x ∷ xs) = drop n xs

  abbrev pub replicate : ℕ → A → List A
  replicate zero v = []
  replicate (suc n) v = v ∷ replicate n v

  abbrev pub All {κ} : (A → Type κ) → List A → Type κ
  All P [] = Unit {κ}
  All P (x ∷ xs) = P x × All P xs

  pub length-append : (xs ys : List A) → length (xs ++ ys) ≡ length xs + length ys
  length-append [] ys = omega arith
  length-append (x ∷ xs) ys = omega (arith, length-append xs ys)

  pub length-replicate : (n : ℕ) (v : A) → length (replicate n v) ≡ n
  length-replicate zero v = refl
  length-replicate (suc n) v = omega (arith, length-replicate n v)

  pub length-set : (xs : List A) (i : ℕ) (v : A) → length (set xs i v) ≡ length xs
  length-set [] i v = refl
  length-set (x ∷ xs) zero v = refl
  length-set (x ∷ xs) (suc i) v = omega (arith, length-set xs i v)

  pub length-drop : (n : ℕ) (xs : List A) → length (drop n xs) ≡ length xs - n
  length-drop zero xs = omega arith
  length-drop (suc n) [] = omega arith
  length-drop (suc n) (x ∷ xs) = omega (arith, length-drop n xs)

  pub get_or-drop : (xs : List A) (k i : ℕ) (z : A) → get_or (drop k xs) i z ≡ get_or xs (k + i) z
  get_or-drop xs zero i z = rw zero-add
  get_or-drop [] (suc k) i z = refl
  get_or-drop (x ∷ xs) (suc k) i z = rw suc-add (get_or-drop xs k i z)

  pub get_or-set_self :
      (xs : List A) (i : ℕ) (v z : A) → i < length xs → get_or (set xs i v) i z ≡ v
  get_or-set_self [] i v z h = absurd (omega arith)
  get_or-set_self (x ∷ xs) zero v z h = refl
  get_or-set_self (x ∷ xs) (suc i) v z h = get_or-set_self xs i v z (omega arith)

  pub get_or-set_ne :
      (xs : List A) (i j : ℕ) (v z : A) → (i ≡ j → ⊥) → get_or (set xs i v) j z ≡ get_or xs j z
  get_or-set_ne [] i j v z h = refl
  get_or-set_ne (x ∷ xs) zero zero v z h = absurd (h refl)
  get_or-set_ne (x ∷ xs) zero (suc j) v z h = refl
  get_or-set_ne (x ∷ xs) (suc i) zero v z h = refl
  get_or-set_ne (x ∷ xs) (suc i) (suc j) v z h = get_or-set_ne xs i j v z (λ e. h (ap suc e))

  pub All-drop {κ} : (P : A → Type κ) (n : ℕ) (xs : List A) → All P xs → All P (drop n xs)
  All-drop P zero xs h = h
  All-drop P (suc n) [] h = h
  All-drop P (suc n) (x ∷ xs) h = All-drop P n xs h.1

  pub All-append {κ} : (P : A → Type κ) (xs ys : List A) → All P xs → All P ys → All P (xs ++ ys)
  All-append P [] ys h k = k
  All-append P (x ∷ xs) ys h k = (h.0, All-append P xs ys h.1 k)

  pub take_all : (n : ℕ) (xs : List A) → length xs ≤ n → take n xs ≡ xs
  take_all zero [] h = refl
  take_all zero (x ∷ xs) h = absurd (omega arith)
  take_all (suc n) [] h = refl
  take_all (suc n) (x ∷ xs) h = ap (◌∷◌ x) (take_all n xs (omega arith))

  pub length-take-le : (n : ℕ) (xs : List A) → length (take n xs) ≤ length xs
  length-take-le zero xs = omega arith
  length-take-le (suc n) [] = omega arith
  length-take-le (suc n) (x ∷ xs) = omega (arith, length-take-le n xs)

  pub drop-get_or :
      (xs : List A) (i : ℕ) (z : A) → i < length xs → drop i xs ≡ get_or xs i z ∷ drop (i + 1) xs
  drop-get_or [] i z h = absurd (omega arith)
  drop-get_or (x ∷ xs) zero z h = refl
  drop-get_or (x ∷ xs) (suc i) z h = rw suc-add (drop-get_or xs i z (omega arith))

  pub drop_all : (xs : List A) (i : ℕ) → length xs ≤ i → drop i xs ≡ []
  drop_all [] zero h = refl
  drop_all [] (suc i) h = refl
  drop_all (x ∷ xs) zero h = absurd (omega arith)
  drop_all (x ∷ xs) (suc i) h = drop_all xs i (omega arith)

  pub take-suc :
      (xs : List A) (j : ℕ) (z : A)
      → j < length xs
      → take (suc j) xs ≡ take j xs ++ (get_or xs j z ∷ [])
  take-suc [] j z h = absurd (omega arith)
  take-suc (x ∷ xs) zero z h = refl
  take-suc (x ∷ xs) (suc j) z h = ap (◌∷◌ x) (take-suc xs j z (omega arith))

-- Membership in a list of indices.
abbrev pub In : ℕ → List ℕ → Type 0
In b [] = ⊥
In b (x ∷ xs) = (b ≡ x) ⊎ In b xs
