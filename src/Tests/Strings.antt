-- ===== src/Tests/Strings.antt =====
-- Strings in a small memory.
use ucas_2024fall_oslab.Base.{
  ℕ, ◌≡◌, refl, inr, List, [], ◌∷◌, ◌++◌, arith, some, ◌==◌, if◌then◌else◌,
}
use ucas_2024fall_oslab.Cstring.{strcmp, strcat}
use ucas_2024fall_oslab.Cstring.Copy.{StringAt, Apart, strcat-StringAt}
use ucas_2024fall_oslab.Cstring.Compare.{strcmp-zero}

-- "ls" at 10 and "l" at 20
abbrev memory : ℕ → ℕ
memory a = if a == 10 then 108 else if a == 11 then 115 else if a == 20 then 108 else 0

abbrev ls : List ℕ
ls = 108 ∷ 115 ∷ []

abbrev l : List ℕ
l = 108 ∷ []

ls_at_10 : StringAt memory 10 ls
ls_at_10 = (refl, (λ e. omega arith), (refl, (λ e. omega arith), refl))

l_at_20 : StringAt memory 20 l
l_at_20 = (refl, (λ e. omega arith), refl)

strcat-StringAt_example :
    (m' : ℕ → ℕ) × (strcat 5 20 10 memory ≡ some m')
    × StringAt m' 20 (l ++ ls)
    × ((a : ℕ) → Apart 21 3 a 1 → m' a ≡ memory a)
strcat-StringAt_example =
    strcat-StringAt 5 20 10 memory l ls l_at_20 ls_at_10 (inr (omega arith)) (omega arith)
      (omega arith)

strcmp-zero_example :
    (r : ℕ) × (strcmp 5 10 20 memory ≡ some r) × (r ≡ 0 → ls ≡ l) × (ls ≡ l → r ≡ 0)
strcmp-zero_example =
    strcmp-zero 5 10 20 memory ls l ls_at_10 l_at_20 (omega arith, (omega arith, tt))
      (omega arith, tt) (omega arith)
