-- ===== src/Base/Lists.antt =====
-- Lists of numbers: membership as a test, distinctness, removal, and a bound on the length.
use Prim.Native.Nat.{ℕ, zero, suc, ◌+◌, ◌≤◌, ◌<◌}
use mathlib.Core.Path.{◌≡◌, refl}
use mathlib.Core.Logic.{◌≢◌, inl, inr}
use mathlib.Core.Bool.{Bool, true, false, ◌||◌}
use mathlib.Core.List.{List, [], ◌∷◌, ◌++◌}
use native.Mathlib.Omega.{arith}
use ucas_2024fall_oslab.Base.Tests.{◌==◌, if◌then◌else◌, Bool-cases}

module _ {ℓ} {A : Type ℓ} where
  abbrev pub length : List A → ℕ
  length [] = 0
  length (x ∷ xs) = suc (length xs)

  abbrev pub get_or : List A → ℕ → A → A
  get_or [] i d = d
  get_or (x ∷ xs) zero d = x
  get_or (x ∷ xs) (suc i) d = get_or xs i d

  abbrev pub take : ℕ → List A → List A
  take zero xs = []
  take (suc n) [] = []
  take (suc n) (x ∷ xs) = x ∷ take n xs

  abbrev pub drop : ℕ → List A → List A
  drop zero xs = xs
  drop (suc n) [] = []
  drop (suc n) (x ∷ xs) = drop n xs

  pub length-append : (xs ys : List A) → length (xs ++ ys) ≡ length xs + length ys
  length-append [] ys = omega arith
  length-append (x ∷ xs) ys = omega (arith, length-append xs ys)

abbrev pub has : ℕ → List ℕ → Bool
has a [] = false
has a (x ∷ xs) = (a == x) || has a xs

abbrev pub Distinct : List ℕ → Type 0
Distinct [] = Unit {0}
Distinct (x ∷ xs) = (has x xs ≡ false) × Distinct xs

-- Removes the first occurrence.
abbrev pub erase : ℕ → List ℕ → List ℕ
erase n [] = []
erase n (x ∷ xs) = if n == x then xs else x ∷ erase n xs

pub has-append : (a : ℕ) (xs ys : List ℕ) → has a (xs ++ ys) ≡ (has a xs || has a ys)
has-append a [] ys = refl
has-append a (x ∷ xs) ys = ground (arith, has-append a xs ys)

pub erase-absent : (n : ℕ) (xs : List ℕ) → has n xs ≡ false → erase n xs ≡ xs
erase-absent n [] h = refl
erase-absent n (x ∷ xs) h = ground (arith, erase-absent n xs)

pub has-erase_ne : (a n : ℕ) (xs : List ℕ) → a ≢ n → has a (erase n xs) ≡ has a xs
has-erase_ne a n [] h = refl
has-erase_ne a n (x ∷ xs) h = ground (arith, has-erase_ne a n xs h)

pub has-erase_self : (n : ℕ) (xs : List ℕ) → Distinct xs → has n (erase n xs) ≡ false
has-erase_self n [] d = refl
has-erase_self n (x ∷ xs) d = ground (arith, has-erase_self n xs d.1)

pub has-erase_le : (a n : ℕ) (xs : List ℕ) → has a (erase n xs) ≡ true → has a xs ≡ true
has-erase_le a n [] h = h
has-erase_le a n (x ∷ xs) h = ground (arith, has-erase_le a n xs)

pub erase-Distinct : (n : ℕ) (xs : List ℕ) → Distinct xs → Distinct (erase n xs)
erase-Distinct n [] d = tt
erase-Distinct n (x ∷ xs) d = elim (Bool-cases (has x (erase n xs))) [
  | inl e ↦ ground (arith, erase-Distinct n xs d.1, has-erase_le x n xs e)
  | inr e ↦ ground (arith, erase-Distinct n xs d.1)
]

pub append-Distinct :
    (xs : List ℕ) (n : ℕ) → Distinct xs → has n xs ≡ false → Distinct (xs ++ n ∷ [])
append-Distinct [] n d h = (refl, tt)
append-Distinct (x ∷ xs) n d h = ground (arith, append-Distinct xs n d.1, has-append x xs (n ∷ []))

length-erase : (n : ℕ) (xs : List ℕ) → length xs ≤ suc (length (erase n xs))
length-erase n [] = omega arith
length-erase n (x ∷ xs) = ground (arith, length-erase n xs)

-- A list without repetitions whose entries lie below `k` has at most `k` of them.
pub length_le_of_Distinct :
    (k : ℕ) (xs : List ℕ) → Distinct xs → ((a : ℕ) → has a xs ≡ true → a < k) → length xs ≤ k
length_le_of_Distinct k [] d below = omega arith
length_le_of_Distinct zero (x ∷ xs) d below = absurd (omega (arith, below x (ground arith)))
length_le_of_Distinct (suc k) (x ∷ xs) d below = omega (
  arith,
  length-erase k (x ∷ xs),
  length_le_of_Distinct k (erase k (x ∷ xs)) (erase-Distinct k (x ∷ xs) d) smaller,
)
  where
    smaller : (a : ℕ) → has a (erase k (x ∷ xs)) ≡ true → a < k
    smaller a h = elim (Bool-cases (a == k)) [
      | inl e ↦ absurd (ground (arith, has-erase_self k (x ∷ xs) d))
      | inr e ↦ ground (arith, below a (has-erase_le a k (x ∷ xs) h))
    ]
