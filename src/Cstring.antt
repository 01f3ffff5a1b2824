-- ===== src/Cstring.antt =====
-- libs/string.c: the string functions of the kernel, over a memory of bytes. A walk over a string is on
-- fuel; `none` is a walk that goes on.
pub mod Copy
pub mod Compare
use ucas_2024fall_oslab.Base.{
  ℕ, zero, suc, ◌+◌, Bool, not, ◌||◌, ◌&&◌, Option, none, some, ◌==◌, update, if◌then◌else◌,
  sub_int,
}

-- memcpy
unfoldable pub memcpy : ℕ → ℕ → ℕ → (ℕ → ℕ) → ℕ → ℕ
memcpy dest src zero m = m
memcpy dest src (suc len) m = memcpy (dest + 1) (src + 1) len (update m dest (m src))

-- memset
unfoldable pub memset : ℕ → ℕ → ℕ → (ℕ → ℕ) → ℕ → ℕ
memset dst val zero m = m
memset dst val (suc len) m = memset (dst + 1) val len (update m dst val)

-- bzero
unfoldable pub bzero : ℕ → ℕ → (ℕ → ℕ) → ℕ → ℕ
unfolding memset
bzero dest len m = memset dest 0 len m

-- the loop of strlen at index `i`
unfoldable pub strlen_from : ℕ → ℕ → ℕ → (ℕ → ℕ) → Option ℕ
strlen_from zero src i m = none
strlen_from (suc fuel) src i m =
    let rest = strlen_from fuel src (i + 1) m in if m (src + i) == 0 then some i else rest

unfoldable pub strlen : ℕ → ℕ → (ℕ → ℕ) → Option ℕ
strlen fuel src m = strlen_from fuel src 0 m

-- strcmp; the result is an `int`, and a `char` is unsigned on RISC-V.
unfoldable pub strcmp : ℕ → ℕ → ℕ → (ℕ → ℕ) → Option ℕ
strcmp zero str1 str2 m = none
strcmp (suc fuel) str1 str2 m =
    let rest = strcmp fuel (str1 + 1) (str2 + 1) m in
    if not (m str1 == 0) && not (m str2 == 0)
    then (if m str1 == m str2 then rest else some (sub_int (m str1) (m str2)))
    else some (sub_int (m str1) (m str2))

-- strncmp: the rounds from `i` on
unfoldable pub strncmp_from : ℕ → ℕ → ℕ → ℕ → (ℕ → ℕ) → ℕ
strncmp_from zero i str1 str2 m = 0
strncmp_from (suc n) i str1 str2 m =
    let rest = strncmp_from n (i + 1) str1 str2 m in
    if (m (str1 + i) == 0) || not (m (str1 + i) == m (str2 + i))
    then sub_int (m (str1 + i)) (m (str2 + i))
    else rest

unfoldable pub strncmp : ℕ → ℕ → ℕ → (ℕ → ℕ) → ℕ
strncmp str1 str2 n m = strncmp_from n 0 str1 str2 m

-- strcpy, and the second half of strcat
unfoldable pub strcpy : ℕ → ℕ → ℕ → (ℕ → ℕ) → Option (ℕ → ℕ)
strcpy zero dest src m = none
strcpy (suc fuel) dest src m =
    let rest = strcpy fuel (dest + 1) (src + 1) (update m dest (m src)) in
    if m src == 0 then some (update m dest 0) else rest

-- strncpy: the loop that fills up with zero bytes is memset, `n` rounds are left
unfoldable pub strncpy : ℕ → ℕ → ℕ → (ℕ → ℕ) → ℕ → ℕ
unfolding memset
strncpy dest src zero m = m
strncpy dest src (suc n) m =
    let rest = strncpy (dest + 1) (src + 1) n (update m dest (m src)) in
    if m src == 0 then memset dest 0 (suc n) m else rest

-- strcat: the walk to the end of `dest`, then the copy
unfoldable pub strcat : ℕ → ℕ → ℕ → (ℕ → ℕ) → Option (ℕ → ℕ)
strcat fuel dest src m = elim (strlen fuel dest m) [
  | none ↦ none
  | some n ↦ strcpy fuel (dest + n) src m
]
