-- ===== src/Fs/Paths.antt =====
-- split_path, seperate_parent and the string functions of kernel/fs/fs.c on names. A C string is the list of its
-- characters; a pointer into it is the list of those from there on.
use ucas_2024fall_oslab.Base.{
  ℕ, zero, suc, ◌+◌, ◌≡◌, refl, Bool, ◌&&◌, Option, none, some, List, [], ◌∷◌, ◌==◌, if◌then◌else◌,
  update, length, take, drop, get_or, arith,
}
use ucas_2024fall_oslab.Fs.Layout.{Bytes}

abbrev pub slash : ℕ
slash = 47

-- `while (*path == '/') path++`
abbrev pub skip_slashes : List ℕ → List ℕ
skip_slashes [] = []
skip_slashes (c ∷ cs) = let rest = skip_slashes cs in if c == slash then rest else c ∷ cs

-- `while (*path && *path != '/') path++`: what it passes, and what it stops at
abbrev pub token_of : List ℕ → List ℕ
token_of [] = []
token_of (c ∷ cs) = let rest = token_of cs in if c == slash then [] else c ∷ rest

abbrev pub token_end : List ℕ → List ℕ
token_end [] = []
token_end (c ∷ cs) = let rest = token_end cs in if c == slash then c ∷ cs else rest

-- The new `last`.
abbrev pub after_token : List ℕ → Option (List ℕ)
after_token [] = none
after_token (c ∷ cs) = some cs

abbrev pub split_from : List ℕ → Option (List ℕ) × Option (List ℕ)
split_from [] = (none, none)
split_from (c ∷ cs) = (some (token_of (c ∷ cs)), after_token (token_end (c ∷ cs)))

-- split_path: the path or NULL, the static `last`; the token and the new `last`.
unfoldable pub split_path : Option (List ℕ) → Option (List ℕ) → Option (List ℕ) × Option (List ℕ)
split_path (some path) last = split_from (skip_slashes path)
split_path none (some path) = split_from (skip_slashes path)
split_path none none = (none, none)

-- `while (*name != '/' && name != path) name--`, as the index of `name`
abbrev pub walk_back : ℕ → List ℕ → ℕ
walk_back zero path = 0
walk_back (suc n) path =
    let rest = walk_back n path in if get_or path (suc n) 0 == slash then suc n else rest

-- seperate_parent: what is left of the path, and the name. For an empty path, the code reads in front of it.
unfoldable pub seperate_parent : List ℕ → Option (List ℕ × List ℕ)
seperate_parent [] = none
seperate_parent (c ∷ cs) =
    let path = c ∷ cs in
    let n = walk_back (length cs) path in
    if get_or path n 0 == slash then some (take n path, drop (n + 1) path) else some ([], path)

-- `strcmp(de[j].name, name) == 0` on the bytes from an offset
abbrev pub same_string : List ℕ → ℕ → Bytes → Bool
same_string [] a m = m a == 0
same_string (c ∷ cs) a m = (m a == c) && same_string cs (a + 1) m

-- `strcpy`
abbrev pub put_string : List ℕ → ℕ → Bytes → Bytes
put_string [] a m = update m a 0
put_string (c ∷ cs) a m = put_string cs (a + 1) (update m a c)

-- The characters up to the NUL, of at most `n`.
abbrev pub string_at : ℕ → ℕ → Bytes → List ℕ
string_at zero a m = []
string_at (suc n) a m = let rest = string_at n (a + 1) m in if m a == 0 then [] else m a ∷ rest

-- A path as the list of its parts: cut at each slash, and without the empty parts.
abbrev pub onto_head : ℕ → List (List ℕ) → List (List ℕ)
onto_head c [] = (c ∷ []) ∷ []
onto_head c (t ∷ ts) = (c ∷ t) ∷ ts

abbrev pub cut : List ℕ → List (List ℕ)
cut [] = [] ∷ []
cut (c ∷ cs) = if c == slash then [] ∷ cut cs else onto_head c (cut cs)

abbrev pub drop_empty : List (List ℕ) → List (List ℕ)
drop_empty [] = []
drop_empty ([] ∷ ts) = drop_empty ts
drop_empty ((c ∷ cs) ∷ ts) = (c ∷ cs) ∷ drop_empty ts

abbrev pub tokens : List ℕ → List (List ℕ)
tokens path = drop_empty (cut path)

abbrev pub tokens_of : Option (List ℕ) → List (List ℕ)
tokens_of none = []
tokens_of (some path) = tokens path

pub skip_slashes-tokens : (path : List ℕ) → tokens (skip_slashes path) ≡ tokens path
skip_slashes-tokens [] = refl
skip_slashes-tokens (c ∷ cs) = ground (arith, skip_slashes-tokens cs)

-- The first part of the cut is the token, the others are those of what comes after it.
abbrev pub cut_of : Option (List ℕ) → List (List ℕ)
cut_of none = []
cut_of (some path) = cut path

pub cut-token : (path : List ℕ) → cut path ≡ token_of path ∷ cut_of (after_token (token_end path))
cut-token [] = refl
cut-token (c ∷ cs) = ground (arith, cut-token cs)
