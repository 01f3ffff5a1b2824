-- ===== src/Libc/Atol.antt =====
-- atol of tiny_libc/atoi.c against decimal numbers.
use ucas_2024fall_oslab.Base.{
  ℕ, zero, suc, ◌+◌, ◌-◌, ◌*◌, ◌%◌, ◌^◌, ◌<◌, ◌≤◌, ◌≡◌, ◌≢◌, refl, Bool, none, some, ◌⊎◌, inl, inr,
  List, [], ◌∷◌, length, true, false, ◌&&◌, ◌||◌, arith, ap, ◌∙◌, sym, ◌==◌, if◌then◌else◌, subst,
}
use ucas_2024fall_oslab.Libc.{
  is_digit, is_space, add_digit, skip_blanks, convert, after_sign, signed, atol,
}

-- The string of the decimal digits `ds` stands at address `a`, with a zero byte after it.
abbrev pub DigitsAt : (ℕ → ℕ) → ℕ → List ℕ → Type 0
DigitsAt m a [] = m a ≡ 0
DigitsAt m a (d ∷ ds) = (m a ≡ 48 + d) × (d < 10) × DigitsAt m (a + 1) ds

-- The number that decimal digits stand for.
unfoldable pub decimal : List ℕ → ℕ
decimal [] = 0
decimal (d ∷ ds) = d * 10 ^ length ds + decimal ds

skip_blanks-blank :
    (fuel str : ℕ) (m : ℕ → ℕ) → is_space (m str) ≡ true → skip_blanks fuel str m ≡ none
unfolding skip_blanks
skip_blanks-blank zero str m h = refl
skip_blanks-blank (suc fuel) str m h = rw (h, skip_blanks-blank fuel str m h) refl

is_null : (str : ℕ) → str ≢ 0 → (str == 0) ≡ false
is_null str nz = ground arith

-- With any fuel, atol does not come to its end on a string that starts with a blank.
pub atol-blank :
    (fuel str : ℕ) (m : ℕ → ℕ) → str ≢ 0 → is_space (m str) ≡ true → atol fuel str m ≡ none
unfolding atol
atol-blank fuel str m nz h = rw (is_null str nz, skip_blanks-blank fuel str m h) refl

ten_power : (k : ℕ) → 1 ≤ 10 ^ k
ten_power zero = omega arith
ten_power (suc k) = omega (arith, ten_power k)

next_product : (ret d n p : ℕ) → ret * (10 * p) + (d * p + n) ≡ (ret * 10 + d) * p + n
next_product ret d n p = omega arith

next_digit : (k ret d n : ℕ) → ret * 10 ^ suc k + (d * 10 ^ k + n) ≡ (ret * 10 + d) * 10 ^ k + n
next_digit k ret d n = ap (λ q. ret * q + (d * 10 ^ k + n)) power ∙ next_product ret d n (10 ^ k)
  where
    power : 10 ^ suc k ≡ 10 * 10 ^ k
    power = omega arith

fits : (k x n : ℕ) → x * 10 ^ k + n < 2 ^ 63 → x < 2 ^ 64
fits k x n h = omega (arith, le_mul x (10 ^ k) (ten_power k))
  where
    le_mul : (x p : ℕ) → 1 ≤ p → x ≤ x * p
    le_mul x zero h = absurd (omega arith)
    le_mul x (suc p) h = omega arith

-- `negative ? -ret : ret`
abbrev pub with_sign : Bool → ℕ → ℕ
with_sign negative ret = if negative then (2 ^ 64 - ret) % 2 ^ 64 else ret

-- the tests of the code on a digit
digit-is_digit : (c d : ℕ) → c ≡ 48 + d → d < 10 → is_digit c ≡ true
digit-is_digit c d e h = ground arith

digit-is_space : (c d : ℕ) → c ≡ 48 + d → is_space c ≡ false
unfolding is_space
digit-is_space c d e = ground arith

digit-other : (c d x : ℕ) → c ≡ 48 + d → x < 48 → (c == x) ≡ false
digit-other c d x e h = ground arith

convert-DigitsAt :
    (fuel : ℕ) (negative : Bool) (ret a : ℕ) (m : ℕ → ℕ) (ds : List ℕ)
    → DigitsAt m a ds
    → length ds < fuel
    → ret * 10 ^ length ds + decimal ds < 2 ^ 63
    → convert fuel negative 10 ret a m
      ≡ some (with_sign negative (ret * 10 ^ length ds + decimal ds))
unfolding convert decimal
convert-DigitsAt zero negative ret a m ds h f b = absurd (omega arith)
convert-DigitsAt (suc fuel) negative ret a m [] h f b =
    rw h (ap (λ r. some (with_sign negative r)) (omega arith))
convert-DigitsAt (suc fuel) negative ret a m (d ∷ ds) (e, lt, rest) f b =
    let next = next_digit (length ds) ret d (decimal ds) in
    let b' = subst (λ x. x < 2 ^ 63) next b in
    let same : add_digit 10 ret (48 + d - 48) ≡ ret * 10 + d =
      omega (arith, fits (length ds) (ret * 10 + d) (decimal ds) b') in
    rw (digit-other (m a) d 0 e (omega arith), digit-is_digit (m a) d e lt, e, same)
      (convert-DigitsAt fuel negative (ret * 10 + d) (a + 1) m ds rest (omega arith) b'
        ∙ ap (λ r. some (with_sign negative r)) (sym next))

after_sign-DigitsAt :
    (fuel : ℕ) (negative : Bool) (str d : ℕ) (m : ℕ → ℕ) (ds : List ℕ)
    → DigitsAt m str (d ∷ ds)
    → length ds + 1 < fuel
    → decimal (d ∷ ds) < 2 ^ 63
    → after_sign fuel negative str m ≡ some (with_sign negative (decimal (d ∷ ds)))
unfolding after_sign
after_sign-DigitsAt fuel negative str d m ds h f b = rw (not_hexadecimal ds h.2) (
    convert-DigitsAt fuel negative 0 str m (d ∷ ds) h (omega arith)
      (subst (λ x. x < 2 ^ 63) start b)
    ∙ ap (λ x. some (with_sign negative x)) (sym start))
  where
    start : decimal (d ∷ ds) ≡ 0 * 10 ^ length (d ∷ ds) + decimal (d ∷ ds)
    start = omega arith

    letter : (c x : ℕ) → c < 58 → 58 ≤ x → (c == x) ≡ false
    letter c x h k = ground arith

    small : (ds : List ℕ) → DigitsAt m (str + 1) ds → m (str + 1) < 58
    small [] h = omega arith
    small (c ∷ ds) (e, lt, rest) = omega arith

    not_hexadecimal :
        (ds : List ℕ)
        → DigitsAt m (str + 1) ds
        → ((m str == 48) && ((m (str + 1) == 120) || (m (str + 1) == 88))) ≡ false
    not_hexadecimal ds h =
        rw (letter _ 120 (small ds h) (omega arith), letter _ 88 (small ds h) (omega arith))
          (ground arith)

-- The decimal digits `ds` stand at address `a`, after a minus sign if `negative`, and else alone or after a plus sign.
abbrev pub NumeralAt : (ℕ → ℕ) → ℕ → Bool → List ℕ → Type 0
NumeralAt m a true ds = (m a ≡ 45) × DigitsAt m (a + 1) ds
NumeralAt m a false ds = DigitsAt m a ds ⊎ ((m a ≡ 43) × DigitsAt m (a + 1) ds)

-- On a number below 2^63 in decimal digits, alone or after a sign, atol returns that number, or with a minus sign the
-- opposite one, when there is fuel for more rounds than there are digits.
pub atol-decimal :
    (fuel str d : ℕ) (negative : Bool) (m : ℕ → ℕ) (ds : List ℕ)
    → str ≢ 0
    → length ds + 1 < fuel
    → decimal (d ∷ ds) < 2 ^ 63
    → NumeralAt m str negative (d ∷ ds)
    → atol fuel str m ≡ some (with_sign negative (decimal (d ∷ ds)))
unfolding atol skip_blanks signed is_space
atol-decimal zero str d negative m ds nz f b h = absurd (omega arith)
atol-decimal (suc fuel) str d true m ds nz f b (e, h) =
    rw (is_null str nz, e, e) (after_sign-DigitsAt (suc fuel) true (str + 1) d m ds h f b)
atol-decimal (suc fuel) str d false m ds nz f b (inl h) =
    rw
      (
        is_null str nz,
        digit-is_space (m str) d h.0,
        digit-other (m str) d 43 h.0 (omega arith),
        digit-other (m str) d 45 h.0 (omega arith),
        digit-is_digit (m str) d h.0 h.1,
      )
      (after_sign-DigitsAt (suc fuel) false str d m ds h f b)
atol-decimal (suc fuel) str d false m ds nz f b (inr (e, h)) =
    rw (is_null str nz, e, e) (after_sign-DigitsAt (suc fuel) false (str + 1) d m ds h f b)
