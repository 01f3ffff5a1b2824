-- ===== src/Cstring/Copy.antt =====
-- strlen, strcpy, strcat and memcpy of libs/string.c against strings as lists.
use ucas_2024fall_oslab.Base.{
  ℕ, zero, suc, ◌+◌, ◌≤◌, ◌<◌, ◌≡◌, refl, ◌≢◌, ◌⊎◌, inl, inr, false, List, [], ◌∷◌, ◌++◌, arith,
  ◌==◌, Option, none, some, update, ap, ◌∙◌, length, subst, get_or,
}
use ucas_2024fall_oslab.Cstring.{memcpy, strlen_from, strlen, strcpy, strcat}

-- The string `s`, without a zero byte, stands at address `a`, with the zero byte after it.
abbrev pub StringAt : (ℕ → ℕ) → ℕ → List ℕ → Type 0
StringAt m a [] = m a ≡ 0
StringAt m a (c ∷ s) = (m a ≡ c) × (c ≢ 0) × StringAt m (a + 1) s

-- The `n` bytes from `a` on and the `k` bytes from `b` on have none in common.
abbrev pub Apart : ℕ → ℕ → ℕ → ℕ → Type 0
Apart a n b k = (a + n ≤ b) ⊎ (b + k ≤ a)

pub StringAt-frame :
    (m p : ℕ → ℕ) (a : ℕ) (s : List ℕ)
    → ((i : ℕ) → a ≤ i → i < a + suc (length s) → p i ≡ m i)
    → StringAt m a s
    → StringAt p a s
StringAt-frame m p a [] same h = same a (omega arith) (omega arith) ∙ h
StringAt-frame m p a (c ∷ s) same (e, nz, rest) = (
  same a (omega arith) (omega arith) ∙ e,
  nz,
  StringAt-frame m p (a + 1) s (λ i x y. same i (omega arith) (omega arith)) rest,
)

strlen_loop :
    (fuel src i : ℕ) (m : ℕ → ℕ) (s : List ℕ)
    → StringAt m (src + i) s
    → length s < fuel
    → strlen_from fuel src i m ≡ some (i + length s)
unfolding strlen_from
strlen_loop zero src i m s h f = absurd (omega arith)
strlen_loop (suc fuel) src i m [] h f = rw h (ap some (omega arith))
strlen_loop (suc fuel) src i m (c ∷ s) (e, nz, rest) f = ground (
  arith,
  strlen_loop fuel src (i + 1) m s (subst (λ z. StringAt m z s) (omega arith) rest) (omega arith),
)

-- strlen gives the length of the string, with fuel for one round more than that.
pub strlen-StringAt :
    (fuel src : ℕ) (m : ℕ → ℕ) (s : List ℕ)
    → StringAt m src s
    → length s < fuel
    → strlen fuel src m ≡ some (length s)
unfolding strlen
strlen-StringAt fuel src m s h f =
    strlen_loop fuel src 0 m s (subst (λ z. StringAt m z s) (omega arith) h) f
    ∙ ap some (omega arith)

-- strcpy copies the string to where it does not overlap, and changes no other byte.
strcpy-StringAt :
    (fuel dest src : ℕ) (m : ℕ → ℕ) (s : List ℕ)
    → StringAt m src s
    → Apart dest (suc (length s)) src (suc (length s))
    → length s < fuel
    → (m' : ℕ → ℕ) × (strcpy fuel dest src m ≡ some m')
      × StringAt m' dest s
      × ((a : ℕ) → Apart dest (suc (length s)) a 1 → m' a ≡ m a)
unfolding strcpy
strcpy-StringAt zero dest src m s h d f = absurd (omega arith)
strcpy-StringAt (suc fuel) dest src m [] h ap f =
    (update m dest 0, rw h refl, ground arith, λ a x. ground (arith, x))
strcpy-StringAt (suc fuel) dest src m (c ∷ s) (e, nz, rest) d f =
    let p = update m dest (m src) in
    let (m', run, at, frame) =
      strcpy-StringAt fuel (dest + 1) (src + 1) p s
        (StringAt-frame m p (src + 1) s (λ i x y. ground (arith, d)) rest) (shift d)
        (omega arith) in
    (
      m',
      rw nonzero run,
      (frame dest (inr (omega arith)) ∙ ground arith, nz, at),
      λ a x. frame a (outside a x) ∙ ground (arith, x),
    )
  where
    shift :
        Apart dest (suc (suc (length s))) src (suc (suc (length s)))
        → Apart (dest + 1) (suc (length s)) (src + 1) (suc (length s))
    shift (inl x) = inl (omega arith)
    shift (inr x) = inr (omega arith)

    nonzero : (m src == 0) ≡ false
    nonzero = ground arith

    outside :
        (a : ℕ) → Apart dest (suc (suc (length s))) a 1 → Apart (dest + 1) (suc (length s)) a 1
    outside a (inl x) = inl (omega arith)
    outside a (inr x) = inr (omega arith)

-- Two strings, the second one in place of the first one's end.
StringAt-append :
    (m : ℕ → ℕ) (a : ℕ) (s t : List ℕ)
    → ((i : ℕ) → i < length s → m (a + i) ≡ get_or s i 0)
    → ((i : ℕ) → i < length s → get_or s i 0 ≢ 0)
    → StringAt m (a + length s) t
    → StringAt m a (s ++ t)
StringAt-append m a [] t same nz h = subst (λ z. StringAt m z t) (omega arith) h
StringAt-append m a (c ∷ s) t same nz h = (
  subst (λ z. m z ≡ c) (omega arith) (same 0 (omega arith)),
  nz 0 (omega arith),
  StringAt-append m (a + 1) s t
      (λ i x. subst (λ z. m z ≡ get_or s i 0) (omega arith) (same (suc i) (omega arith)))
      (λ i x. nz (suc i) (omega arith)) (subst (λ z. StringAt m z t) (omega arith) h),
)

StringAt-entry :
    (m : ℕ → ℕ) (a : ℕ) (s : List ℕ)
    → StringAt m a s
    → (i : ℕ) → i < length s
    → (m (a + i) ≡ get_or s i 0) × (get_or s i 0 ≢ 0)
StringAt-entry m a [] h i x = absurd (omega arith)
StringAt-entry m a (c ∷ s) (e, nz, rest) zero x = (subst (λ z. m z ≡ c) (omega arith) e, nz)
StringAt-entry m a (c ∷ s) (e, nz, rest) (suc i) x =
    let (p, n) = StringAt-entry m (a + 1) s rest i (omega arith) in
    (subst (λ z. m z ≡ get_or s i 0) (omega arith) p, n)

-- strcat makes the string at `dest` longer by the one at `src`, where the two do not overlap, and changes
-- no byte outside the longer string.
pub strcat-StringAt :
    (fuel dest src : ℕ) (m : ℕ → ℕ) (s t : List ℕ)
    → StringAt m dest s
    → StringAt m src t
    → Apart dest (suc (length s + length t)) src (suc (length t))
    → length s < fuel
    → length t < fuel
    → (m' : ℕ → ℕ) × (strcat fuel dest src m ≡ some m')
      × StringAt m' dest (s ++ t)
      × ((a : ℕ) → Apart (dest + length s) (suc (length t)) a 1 → m' a ≡ m a)
unfolding strcat
strcat-StringAt fuel dest src m s t hs ht d fs ft =
    let (m', run, at, frame) = strcpy-StringAt fuel (dest + length s) src m t ht (part d) ft in
    (
      m',
      ap go (strlen-StringAt fuel dest m s hs fs) ∙ run,
      StringAt-append m' dest s t
          (λ i x. frame (dest + i) (inr (omega arith)) ∙ (StringAt-entry m dest s hs i x).0)
          (λ i x. (StringAt-entry m dest s hs i x).1) at,
      frame,
    )
  where
    go : Option ℕ → Option (ℕ → ℕ)
    go none = none
    go (some n) = strcpy fuel (dest + n) src m

    part :
        Apart dest (suc (length s + length t)) src (suc (length t))
        → Apart (dest + length s) (suc (length t)) src (suc (length t))
    part (inl x) = inl (omega arith)
    part (inr x) = inr (omega arith)

-- memcpy copies every byte where the two regions do not overlap, and changes no other byte.
memcpy-bytes :
    (dest src len : ℕ) (m : ℕ → ℕ)
    → Apart dest len src len
    → ((i : ℕ) → i < len → memcpy dest src len m (dest + i) ≡ m (src + i))
      × ((a : ℕ) → Apart dest len a 1 → memcpy dest src len m a ≡ m a)
unfolding memcpy
memcpy-bytes dest src zero m d = ((λ i x. absurd (omega arith)), λ a x. refl)
memcpy-bytes dest src (suc len) m d =
    let p = update m dest (m src) in
    let (bytes, frame) = memcpy-bytes (dest + 1) (src + 1) len p (shift d) in
    ((λ i x. each bytes frame i x), λ a x. frame a (outside a x) ∙ ground (arith, x))
  where
    shift : Apart dest (suc len) src (suc len) → Apart (dest + 1) len (src + 1) len
    shift (inl x) = inl (omega arith)
    shift (inr x) = inr (omega arith)

    outside : (a : ℕ) → Apart dest (suc len) a 1 → Apart (dest + 1) len a 1
    outside a (inl x) = inl (omega arith)
    outside a (inr x) = inr (omega arith)

    kept :
        Apart dest (suc len) src (suc len)
        → (i : ℕ) → i < len
        → update m dest (m src) (src + 1 + i) ≡ m (src + 1 + i)
    kept (inl x) i lt = ground arith
    kept (inr x) i lt = ground arith

    after : ℕ → ℕ
    after = memcpy (dest + 1) (src + 1) len (update m dest (m src))

    each :
        ((i : ℕ) → i < len → after (dest + 1 + i) ≡ update m dest (m src) (src + 1 + i))
        → ((a : ℕ) → Apart (dest + 1) len a 1 → after a ≡ update m dest (m src) a)
        → (i : ℕ) → i < suc len
        → after (dest + i) ≡ m (src + i)
    each bytes frame zero x =
        let same : src ≡ src + 0 = omega arith in
        subst (λ z. after z ≡ m (src + 0)) (omega arith)
          (frame dest (inr (omega arith)) ∙ ground (arith, ap m same))
    each bytes frame (suc i) x =
        let step : src + 1 + i ≡ src + suc i = omega arith in
        subst (λ z. after z ≡ m (src + suc i)) (omega arith)
          (bytes i (omega arith) ∙ kept d i (omega arith) ∙ ap m step)
