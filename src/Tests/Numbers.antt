-- ===== src/Tests/Numbers.antt =====
-- atol on two strings at address 10.
use ucas_2024fall_oslab.Base.{ℕ, ◌-◌, ◌%◌, ◌^◌, ◌≡◌, refl, true, none, some, [], ◌∷◌, arith, update}
use ucas_2024fall_oslab.Libc.{is_space, atol}
use ucas_2024fall_oslab.Libc.Atol.{decimal, atol-decimal, atol-blank}

-- "-42"
abbrev minus_42 : ℕ → ℕ
minus_42 = update (update (update (λ i. 0) 10 45) 11 52) 12 50

-- " 2"
abbrev blank_two : ℕ → ℕ
blank_two = update (update (λ i. 0) 10 32) 11 50

atol-decimal_example : atol 9 10 minus_42 ≡ some ((2 ^ 64 - decimal (4 ∷ 2 ∷ [])) % 2 ^ 64)
unfolding decimal
atol-decimal_example =
    atol-decimal 9 10 4 true minus_42 (2 ∷ []) (λ e. omega arith) (omega arith) (omega arith)
      (refl, (refl, omega arith, (refl, omega arith, refl)))

atol-blank_example : atol 100 10 blank_two ≡ none
unfolding is_space
atol-blank_example = atol-blank 100 10 blank_two (λ e. omega arith) refl
