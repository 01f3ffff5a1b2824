-- ===== src/Libc.antt =====
-- tiny_libc/atoi.c, tiny_libc/rand.c and strrev of tiny_libc/string.c, the user library's own functions, with the tests of
-- tiny_libc/include/ctype.h. A memory is a function of bytes; a `long` stands modulo 2^64. A walk over a string is on
-- fuel; `none` is a walk that goes on.
pub mod Atol
use ucas_2024fall_oslab.Base.{
  ℕ, zero, suc, ◌+◌, ◌-◌, ◌*◌, ◌%◌, ◌^◌, Bool, ◌||◌, ◌&&◌, Option, none, some, ◌==◌, true, false,
  leb, ltb, if◌then◌else◌, update,
}
use ucas_2024fall_oslab.Cstring.{strlen}

abbrev pub is_digit : ℕ → Bool
is_digit c = leb 48 c && leb c 57

unfoldable pub is_space : ℕ → Bool
is_space c = (c == 32) || (c == 9) || (c == 10) || (c == 11) || (c == 12) || (c == 13)

-- `ret * base + digit`
abbrev pub add_digit : ℕ → ℕ → ℕ → ℕ
add_digit base ret digit = (ret * base + digit) % 2 ^ 64

-- `while (isspace(*str)) ;`, which does not move `str`
unfoldable pub skip_blanks : ℕ → ℕ → (ℕ → ℕ) → Option ℕ
skip_blanks zero str m = none
skip_blanks (suc fuel) str m =
    let rest = skip_blanks fuel str m in if is_space (m str) then rest else some str

-- the loop over the digits; a wrong character gives 0
unfoldable pub convert : ℕ → Bool → ℕ → ℕ → ℕ → (ℕ → ℕ) → Option ℕ
convert zero negative base ret str m = none
convert (suc fuel) negative base ret str m =
    let c = m str in
    let decimal = convert fuel negative base (add_digit base ret (c - 48)) (str + 1) m in
    let lower = convert fuel negative base (add_digit base ret (c - 97 + 10)) (str + 1) m in
    let upper = convert fuel negative base (add_digit base ret (c - 65 + 10)) (str + 1) m in
    if c == 0
    then some (if negative then (2 ^ 64 - ret) % 2 ^ 64 else ret)
    else if is_digit c
    then decimal
    else if (base == 16) && leb 97 c && leb c 102
    then lower
    else if (base == 16) && leb 65 c && leb c 70
    then upper
    else some 0

-- from the 0x on
unfoldable pub after_sign : ℕ → Bool → ℕ → (ℕ → ℕ) → Option ℕ
after_sign fuel negative str m =
    if (m str == 48) && ((m (str + 1) == 120) || (m (str + 1) == 88))
    then convert fuel negative 16 0 (str + 2) m
    else convert fuel negative 10 0 str m

-- atol of a `str` that is not NULL: the sign, then the number
unfoldable pub signed : ℕ → ℕ → (ℕ → ℕ) → Option ℕ
signed fuel str m =
    if m str == 43
    then after_sign fuel false (str + 1) m
    else if m str == 45
    then after_sign fuel true (str + 1) m
    else if is_digit (m str)
    then after_sign fuel false str m
    else some 0

unfoldable pub atol : ℕ → ℕ → (ℕ → ℕ) → Option ℕ
atol fuel str m =
    if str == 0
    then some 0
    else elim (skip_blanks fuel str m) [ none ↦ none | some s ↦ signed fuel s m ]

-- `(int)atol(str)`
unfoldable pub atoi : ℕ → ℕ → (ℕ → ℕ) → Option ℕ
atoi fuel str m = elim (atol fuel str m) [ none ↦ none | some r ↦ some (r % 2 ^ 32) ]

-- rand, on an `x` that is not negative: the number, which is the new `x`
unfoldable pub rand : ℕ → ℕ
rand x = (25214903917 * x + 11) % 2 ^ 64 % 2 ^ 31

-- the loop of strrev from `i` and `j` on; the bytes are swapped while i < j
unfoldable pub strrev_from : ℕ → ℕ → ℕ → ℕ → (ℕ → ℕ) → ℕ → ℕ
strrev_from zero str i j m = m
strrev_from (suc fuel) str i j m =
    let rest =
      strrev_from fuel str (i + 1) (j - 1)
        (update (update m (str + i) (m (str + j))) (str + j) (m (str + i))) in
    if ltb i j then rest else m

-- strrev; of the empty string, whose `j` is -1, nothing is swapped
unfoldable pub strrev : ℕ → ℕ → (ℕ → ℕ) → Option (ℕ → ℕ)
strrev fuel str m = elim (strlen fuel str m) [
  | none ↦ none
  | some len ↦ some (strrev_from len str 0 (len - 1) m)
]
