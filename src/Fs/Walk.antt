-- ===== src/Fs/Walk.antt =====
-- parse_path of kernel/fs/fs.c walks the parts of a path one after the other.
use ucas_2024fall_oslab.Base.{
  ℕ, sym, zero, suc, ◌+◌, ◌≤◌, ◌≡◌, ◌≢◌, refl, Option, none, some, List, [], ◌∷◌, ◌++◌, inl, inr,
  length, arith, minus_one, ◌∙◌, ap,
}
use ucas_2024fall_oslab.Fs.Layout.{Fs, Sd}
use ucas_2024fall_oslab.Fs.Paths.{slash, split_path, tokens, tokens_of}
use ucas_2024fall_oslab.Fs.Names.{
  Splits, split_path-Splits, split_path_next-Splits, length-tokens, tokens-append,
}
use ucas_2024fall_oslab.Fs.Lookup.{find_in, entry_inode, follow_path, first_inode, parse_path, walk}

module _ (sd : Sd) where
  -- one step of follow_path and of walk, behind the scan
  abbrev followed : ℕ → Option (List ℕ) → Option ℕ → Fs → Option (ℕ × Fs)
  followed n last o g = elim o [
    | none ↦ some (minus_one, g)
    | some j ↦ follow_path sd n (entry_inode j g.temp) (split_path none last) g
  ]

  abbrev walked : List (List ℕ) → Option ℕ → Fs → ℕ × Fs
  walked ts o g = elim o [ none ↦ (minus_one, g) | some j ↦ walk sd (entry_inode j g.temp) ts g ]

  follow_path-walk :
      (n dir : ℕ) (r : Option (List ℕ) × Option (List ℕ)) (ts : List (List ℕ)) (f : Fs)
      → Splits r ts
      → length ts ≤ n
      → follow_path sd n dir r f ≡ some (walk sd dir ts f)
  unfolding follow_path walk
  follow_path-walk n dir (none, last) ts f (inl (e, h)) b = ground (arith, h)
  follow_path-walk n dir (none, last) ts f (inr (t, e, h)) b = absurd (ground (arith, e))
  follow_path-walk n dir (some t, last) ts f (inl (e, h)) b = absurd (ground (arith, e))
  follow_path-walk zero dir (some t, last) ts f (inr (u, e, h)) b =
      absurd (ground (arith, ap length h))
  follow_path-walk (suc n) dir (some t, last) ts f (inr (u, e, h)) b =
      let parts : ts ≡ t ∷ tokens_of last = ground (arith, e, h) in
      let r = find_in sd 8 0 dir t f in
      (elim (r.entry) as (λ o. followed n last o r.fs ≡ some (walked (tokens_of last) o r.fs)) [
        | none ↦ refl
        | some j ↦
            follow_path-walk n (entry_inode j r.fs.temp) (split_path none last) (tokens_of last)
              r.fs (split_path_next-Splits last) (ground (arith, ap length parts))
      ])
      ∙ ap (λ us. some (walk sd dir us f)) (sym parts)

  -- The loop of parse_path ends, and parse_path walks the parts of the path, from the root when the path starts with
  -- a slash and else from the current directory.
  pub parse_path-walk :
      (path : List ℕ) (f : Fs)
      → parse_path sd path f ≡ some (walk sd (first_inode sd path f) (tokens path) f)
  unfolding parse_path
  parse_path-walk path f =
      follow_path-walk (length path + 1) (first_inode sd path f) (split_path (some path) none)
        (tokens path) f (split_path-Splits path none) (length-tokens path)

  walk-append :
      (dir : ℕ) (ts us : List (List ℕ)) (f : Fs)
      → (walk sd dir ts f).0 ≢ minus_one
      → walk sd dir (ts ++ us) f ≡ walk sd (walk sd dir ts f).0 us (walk sd dir ts f).1
  unfolding walk
  walk-append dir [] us f h = refl
  walk-append dir (t ∷ ts) us f h =
      let r = find_in sd 8 0 dir t f in
      (elim (r.entry)
          as (λ o.
            (walked ts o r.fs).0 ≢ minus_one
            → walked (ts ++ us) o r.fs ≡ walk sd (walked ts o r.fs).0 us (walked ts o r.fs).1) [
              | none ↦ λ n. absurd (n refl)
              | some j ↦ λ n. walk-append (entry_inode j r.fs.temp) ts us r.fs n
            ])
        h

  -- A path in two pieces is walked from where the first piece leads, when it leads somewhere.
  pub parse_path-append :
      (c : ℕ) (p q : List ℕ) (f : Fs)
      → (walk sd (first_inode sd (c ∷ p) f) (tokens (c ∷ p)) f).0 ≢ minus_one
      → (e : ℕ) (g : Fs) → parse_path sd (c ∷ p) f ≡ some (e, g)
      → parse_path sd ((c ∷ p) ++ slash ∷ q) f ≡ some (walk sd e (tokens q) g)
  parse_path-append c p q f h e g r =
      let w = parse_path-walk (c ∷ p) f in
      ground (
        arith,
        r,
        w,
        parse_path-walk ((c ∷ p) ++ slash ∷ q) f,
        tokens-append (c ∷ p) q,
        walk-append (first_inode sd (c ∷ p) f) (tokens (c ∷ p)) (tokens q) f h,
      )
