-- ===== src/Fs/Names.antt =====
-- What split_path and seperate_parent of kernel/fs/fs.c cut a path into.
use ucas_2024fall_oslab.Base.{
  add_suc, ℕ, zero, suc, ◌+◌, ◌≤◌, ◌<◌, ◌≡◌, refl, Option, none, some, List, [], ◌∷◌, ◌++◌, true,
  false, has, arith, length, length-append, take, drop, get_or, ◌==◌, inl, inr, Bool-cases, ◌∙◌, ap,
  ◌⊎◌,
}
use ucas_2024fall_oslab.Fs.Paths.{
  slash, skip_slashes, token_of, token_end, after_token, split_from, split_path, walk_back,
  seperate_parent, cut, cut_of, cut-token, drop_empty, tokens, tokens_of, skip_slashes-tokens,
}

-- What is left after the slashes is empty or starts with another character.
abbrev Skipped : List ℕ → Type 0
Skipped path =
    (skip_slashes path ≡ [])
    ⊎ ((c : ℕ) × (cs : List ℕ) × (skip_slashes path ≡ c ∷ cs) × ((c == slash) ≡ false))

skip_slashes-Skipped : (path : List ℕ) → Skipped path
skip_slashes-Skipped [] = inl refl
skip_slashes-Skipped (c ∷ cs) = elim (Bool-cases (c == slash)) [
  | inl e ↦ elim (skip_slashes-Skipped cs) [
    | inl s ↦ inl (ground (arith, s, e))
    | inr (d, ds, s, n) ↦ inr (d, ds, ground (arith, s, e), n)
  ]
  | inr e ↦ inr (c, cs, ground (arith, e), e)
]

-- The outcome of split_path for a path whose parts are `ts`.
abbrev pub Splits : Option (List ℕ) × Option (List ℕ) → List (List ℕ) → Type 0
Splits r ts =
    ((r.0 ≡ none) × (ts ≡ []))
    ⊎ ((token : List ℕ) × (r.0 ≡ some token) × (ts ≡ token ∷ tokens_of r.1))

tokens_of-cut : (o : Option (List ℕ)) → tokens_of o ≡ drop_empty (cut_of o)
tokens_of-cut none = refl
tokens_of-cut (some path) = refl

tokens-token :
    (c : ℕ) (cs : List ℕ)
    → (c == slash) ≡ false
    → tokens (c ∷ cs) ≡ token_of (c ∷ cs) ∷ tokens_of (after_token (token_end (c ∷ cs)))
tokens-token c cs h =
    ground (arith, cut-token (c ∷ cs), tokens_of-cut (after_token (token_end (c ∷ cs))))

split_from-Splits : (path : List ℕ) → Splits (split_from (skip_slashes path)) (tokens path)
split_from-Splits path = elim (skip_slashes-Skipped path) [
  | inl s ↦ inl (ground (arith, s), ground (arith, s, skip_slashes-tokens path))
  | inr (c, cs, s, n) ↦ inr (
    token_of (c ∷ cs),
    ground (arith, s),
    ground (arith, s, tokens-token c cs n, skip_slashes-tokens path),
  )
]

-- split_path gives the first of the parts, and leaves the others.
pub split_path-Splits :
    (path : List ℕ) (last : Option (List ℕ)) → Splits (split_path (some path) last) (tokens path)
unfolding split_path
split_path-Splits path last = split_from-Splits path

pub split_path_next-Splits :
    (last : Option (List ℕ)) → Splits (split_path none last) (tokens_of last)
unfolding split_path
split_path_next-Splits none = inl (refl, refl)
split_path_next-Splits (some path) = split_from-Splits path

get_or-append : (xs ys : List ℕ) (i : ℕ) → get_or (xs ++ ys) (length xs + i) 0 ≡ get_or ys i 0
get_or-append [] ys i = ground arith
get_or-append (x ∷ xs) ys i = ground (arith, get_or-append xs ys i)

get_or-has :
    (a : ℕ) (xs : List ℕ) (i : ℕ) → has a xs ≡ false → i < length xs → (get_or xs i 0 == a) ≡ false
get_or-has a [] i h b = absurd (omega arith)
get_or-has a (x ∷ xs) zero h b = ground arith
get_or-has a (x ∷ xs) (suc i) h b = ground (arith, get_or-has a xs i)

take-append : (xs ys : List ℕ) → take (length xs) (xs ++ ys) ≡ xs
take-append [] ys = refl
take-append (x ∷ xs) ys = ground (arith, take-append xs ys)

drop-append : (xs : List ℕ) (y : ℕ) (ys : List ℕ) → drop (length xs + 1) (xs ++ y ∷ ys) ≡ ys
drop-append [] y ys = refl
drop-append (x ∷ xs) y ys = ground (arith, drop-append xs y ys)

-- The walk stops at the last slash.
walk_back-stop :
    (path : List ℕ) (k d : ℕ)
    → (get_or path k 0 == slash) ≡ true
    → ((i : ℕ) → i < d → (get_or path (k + suc i) 0 == slash) ≡ false)
    → walk_back (k + d) path ≡ k
walk_back-stop path zero zero h g = refl
walk_back-stop path (suc k) zero h g = ground arith
walk_back-stop path k (suc d) h g =
    ap (λ n. walk_back n path) (add_suc k d)
    ∙ ground (
      arith,
      ap (λ n. get_or path n 0) (add_suc k d),
      g d (omega arith),
      walk_back-stop path k d h (λ i b. g i (omega arith)),
    )

walk_back-start :
    (path : List ℕ) (n : ℕ)
    → ((i : ℕ) → i ≤ n → (get_or path i 0 == slash) ≡ false)
    → walk_back n path ≡ 0
walk_back-start path zero g = refl
walk_back-start path (suc n) g =
    ground (arith, g (suc n), walk_back-start path n (λ i b. g i (omega arith)))

-- A path is cut at its last slash: what is in front of it is the parent, what is behind it the name.
pub seperate_parent-split :
    (parent name : List ℕ)
    → has slash name ≡ false
    → seperate_parent (parent ++ slash ∷ name) ≡ some (parent, name)
unfolding seperate_parent
seperate_parent-split [] name h = ground (
  arith,
  walk_back-stop (slash ∷ name) 0 (length name) refl
      (λ i b. ground (arith, get_or-has slash name i h b)),
)
seperate_parent-split (p ∷ ps) name h =
    let path = (p ∷ ps) ++ slash ∷ name in
    ground (
      arith,
      length-append ps (slash ∷ name),
      get_or-append (p ∷ ps) (slash ∷ name) 0,
      walk_back-stop path (suc (length ps)) (length name)
          (ground (arith, get_or-append (p ∷ ps) (slash ∷ name) 0)) rest,
      take-append (p ∷ ps) (slash ∷ name),
      drop-append (p ∷ ps) slash name,
    )
  where
    rest :
        (i : ℕ)
        → i < length name
        → (get_or ((p ∷ ps) ++ slash ∷ name) (suc (length ps) + suc i) 0 == slash) ≡ false
    rest i b =
        ground (arith, get_or-append (p ∷ ps) (slash ∷ name) (suc i), get_or-has slash name i h b)

-- A path without a slash is a name, and its parent the empty path.
pub seperate_parent-bare :
    (c : ℕ) (name : List ℕ)
    → has slash (c ∷ name) ≡ false
    → seperate_parent (c ∷ name) ≡ some ([], c ∷ name)
unfolding seperate_parent
seperate_parent-bare c name h = ground (
  arith,
  walk_back-start (c ∷ name) (length name) (λ i b. get_or-has slash (c ∷ name) i h (omega arith)),
)

cut-some : (p : List ℕ) → (t : List ℕ) × (ts : List (List ℕ)) × (cut p ≡ t ∷ ts)
cut-some p = (token_of p, cut_of (after_token (token_end p)), cut-token p)

cut-append : (p q : List ℕ) → cut (p ++ slash ∷ q) ≡ cut p ++ cut q
cut-append [] q = refl
cut-append (c ∷ cs) q = ground (arith, cut-append cs q, cut-some cs)

drop_empty-append : (xs ys : List (List ℕ)) → drop_empty (xs ++ ys) ≡ drop_empty xs ++ drop_empty ys
drop_empty-append [] ys = refl
drop_empty-append ([] ∷ xs) ys = drop_empty-append xs ys
drop_empty-append ((c ∷ cs) ∷ xs) ys = ap (λ r. (c ∷ cs) ∷ r) (drop_empty-append xs ys)

-- The parts of two paths joined by a slash are those of the first and those of the second.
pub tokens-append : (p q : List ℕ) → tokens (p ++ slash ∷ q) ≡ tokens p ++ tokens q
tokens-append p q = ap drop_empty (cut-append p q) ∙ drop_empty-append (cut p) (cut q)

length-drop_empty : (ts : List (List ℕ)) → length (drop_empty ts) ≤ length ts
length-drop_empty [] = omega arith
length-drop_empty ([] ∷ ts) = omega (arith, length-drop_empty ts)
length-drop_empty ((c ∷ cs) ∷ ts) = omega (arith, length-drop_empty ts)

length-cut : (path : List ℕ) → length (cut path) ≤ length path + 1
length-cut [] = omega arith
length-cut (c ∷ cs) = ground (arith, length-cut cs, cut-some cs)

pub length-tokens : (path : List ℕ) → length (tokens path) ≤ length path + 1
length-tokens path = omega (arith, length-drop_empty (cut path), length-cut path)
