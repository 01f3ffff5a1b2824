-- ===== src/Cstring/Compare.antt =====
-- strcmp of libs/string.c against equality of strings.
use ucas_2024fall_oslab.Base.{
  ℕ, zero, suc, ◌+◌, ◌<◌, ◌≡◌, refl, inl, inr, List, [], ◌∷◌, arith, ◌==◌, some, Bool-cases,
  eq_of_==, ne_of_==, sym, ap₂, ◌∙◌, length, sub_int,
}
use ucas_2024fall_oslab.Cstring.{strcmp}
use ucas_2024fall_oslab.Cstring.Copy.{StringAt}

abbrev pub AllBytes : List ℕ → Type 0
AllBytes [] = Unit {0}
AllBytes (c ∷ s) = (c < 256) × AllBytes s

sub_int-zero : (a b : ℕ) → a < 256 → b < 256 → (sub_int a b ≡ 0 → a ≡ b) × (a ≡ b → sub_int a b ≡ 0)
sub_int-zero a b ha hb = ((λ e. omega arith), (λ e. omega arith))

-- strcmp of two strings comes to its end, and its result is 0 if and only if they are equal; the fuel
-- is one round more than the first string is long.
pub strcmp-zero :
    (fuel str1 str2 : ℕ) (m : ℕ → ℕ) (s t : List ℕ)
    → StringAt m str1 s
    → StringAt m str2 t
    → AllBytes s
    → AllBytes t
    → length s < fuel
    → (r : ℕ) × (strcmp fuel str1 str2 m ≡ some r) × (r ≡ 0 → s ≡ t) × (s ≡ t → r ≡ 0)
unfolding strcmp
strcmp-zero zero str1 str2 m s t hs ht bs bt f = absurd (omega arith)
strcmp-zero (suc fuel) str1 str2 m [] [] hs ht bs bt f =
    (sub_int (m str1) (m str2), rw hs refl, (λ e. refl), λ e. ground arith)
strcmp-zero (suc fuel) str1 str2 m [] (d ∷ t) hs (e, nz, ht) bs (b, bt) f =
    (sub_int (m str1) (m str2), rw hs refl, (λ z. absurd (ground arith)), λ z. cc)
strcmp-zero (suc fuel) str1 str2 m (c ∷ s) [] (e, nz, hs) ht (b, bs) bt f =
    (sub_int (m str1) (m str2), ground (arith, ht), (λ z. absurd (ground arith)), λ z. cc)
strcmp-zero (suc fuel) str1 str2 m (c ∷ s) (d ∷ t) (e, nz, hs) (e', nz', ht) (b, bs) (b', bt) f =
    elim (Bool-cases (c == d)) [
      | inl p ↦
          let (r, run, to, of) =
            strcmp-zero fuel (str1 + 1) (str2 + 1) m s t hs ht bs bt (omega arith) in
          (
            r,
            ground arith,
            (λ z. ap₂ (λ x xs. x ∷ xs) (eq_of_== c d p) (to z)),
            λ q. of (tail_eq q),
          )
      | inr p ↦ (
        sub_int (m str1) (m str2),
        ground arith,
        (λ z. absurd (
            ne_of_== c d p
              (sym e ∙ (sub_int-zero (m str1) (m str2) (ground arith) (ground arith)).0 z ∙ e'))),
        λ q. absurd (ne_of_== c d p (head_eq q)),
      )
    ]
  where
    head_eq : c ∷ s ≡ d ∷ t → c ≡ d
    head_eq q = cc

    tail_eq : c ∷ s ≡ d ∷ t → s ≡ t
    tail_eq q = cc
