-- ===== src/Fs/Parents.antt =====
-- The loop of do_write in kernel/fs/fs.c that carries a file's growth up to its parents, and do_mkdir's change of a
-- directory's parent that this loop does not end on.
use ucas_2024fall_oslab.Base.{
  subst, ℕ, zero, suc, ◌≤◌, ◌≡◌, ◌≢◌, refl, inl, inr, true, Option, none, some, arith, ap, ◌∙◌,
  ◌==◌, ltb, update, add_int, sub_int, minus_one, ==_of_ne, Bool-cases, sym, eq_of_==, ◌>>=◌, has,
  false, List, [], ◌∷◌, length, Distinct, length_le_of_Distinct, ◌<◌, if◌then◌else◌,
}
use ucas_2024fall_oslab.Fs.Layout.{Inode, Fs}
use ucas_2024fall_oslab.Fs.Remove.{change_sizes, parent_fuel}
use ucas_2024fall_oslab.Fs.Write.{extend, extend_within, add_size}

abbrev pub parent_of : (ℕ → Inode) → ℕ → ℕ
parent_of inodes n = (inodes n).parent_inode

-- a change of sizes keeps every parent
parent-resized :
    (inodes : ℕ → Inode) (it n s : ℕ)
    → parent_of (update inodes it (record (inodes it) { size = s })) n ≡ parent_of inodes n
parent-resized inodes it n s = elim (Bool-cases (n == it)) [
  | inl e ↦ ground (arith, ap (parent_of inodes) (eq_of_== n it e))
  | inr e ↦ ground arith
]

-- The inodes on the way from one to the root, whose parent is -1: all different.
pub data Ancestors (inodes : ℕ → Inode) : ℕ → List ℕ → Type 0 where
  top : Ancestors inodes minus_one []
  below :
      (it : ℕ) (xs : List ℕ)
      → it ≢ minus_one
      → has it xs ≡ false
      → Ancestors inodes (parent_of inodes it) xs
      → Ancestors inodes it (it ∷ xs)

-- From an inode that is its own parent the loop does not end.
change_sizes-cycle :
    (n : ℕ) (change : ℕ → ℕ) (it : ℕ) (inodes : ℕ → Inode)
    → it ≢ minus_one
    → parent_of inodes it ≡ it
    → change_sizes n change it inodes ≡ none
unfolding change_sizes
change_sizes-cycle zero change it inodes h p = rw (==_of_ne it minus_one h) refl
change_sizes-cycle (suc n) change it inodes h p = rw (==_of_ne it minus_one h) (
    ap (λ t. change_sizes n change t resized) p
    ∙ change_sizes-cycle n change it resized h
        (parent-resized inodes it it (change (inodes it).size) ∙ p))
  where
    resized : ℕ → Inode
    resized = update inodes it (record (inodes it) { size = change (inodes it).size })

Ancestors-resized :
    (at s : ℕ) (inodes : ℕ → Inode) (it : ℕ) (xs : List ℕ)
    → Ancestors inodes it xs
    → Ancestors (update inodes at (record (inodes at) { size = s })) it xs
Ancestors-resized at s inodes _ _ top = top
Ancestors-resized at s inodes _ _ (below it xs ne new c) = below it xs ne new (
    subst (λ p. Ancestors (update inodes at (record (inodes at) { size = s })) p xs)
      (sym (parent-resized inodes at it s))
      (Ancestors-resized at s inodes (parent_of inodes it) xs c))

Ancestors-Distinct :
    (inodes : ℕ → Inode) (it : ℕ) (xs : List ℕ) → Ancestors inodes it xs → Distinct xs
Ancestors-Distinct inodes _ _ top = _
Ancestors-Distinct inodes _ _ (below it xs ne new c) =
    (new, Ancestors-Distinct inodes (parent_of inodes it) xs c)

-- The inodes of a list with their sizes changed, and the others as they are.
abbrev pub resized_on : (ℕ → ℕ) → List ℕ → (ℕ → Inode) → ℕ → Inode
resized_on change xs inodes m =
    if has m xs then record (inodes m) { size = change (inodes m).size } else inodes m

resized_first :
    (change : ℕ → ℕ) (it m : ℕ) (xs : List ℕ) (inodes : ℕ → Inode)
    → has it xs ≡ false
    → resized_on change xs
        (update inodes it (record (inodes it) { size = change (inodes it).size }))
        m
      ≡ resized_on change (it ∷ xs) inodes m
resized_first change it m xs inodes new = elim (Bool-cases (m == it)) [
  | inl e ↦ ground (arith, ap (λ n. has n xs) (eq_of_== m it e), ap inodes (eq_of_== m it e))
  | inr e ↦ ground arith
]

-- Where the chain of parents ends at -1, the loop ends, and has changed the size of each inode of the chain once.
change_sizes-Ancestors :
    (n : ℕ) (change : ℕ → ℕ) (it : ℕ) (xs : List ℕ) (inodes : ℕ → Inode)
    → length xs ≤ n
    → Ancestors inodes it xs
    → (r : ℕ → Inode) × (change_sizes n change it inodes ≡ some r)
      × ((m : ℕ) → r m ≡ resized_on change xs inodes m)
unfolding change_sizes
change_sizes-Ancestors zero change _ _ inodes h top = (inodes, ground arith, λ m. refl)
change_sizes-Ancestors (suc n) change _ _ inodes h top = (inodes, ground arith, λ m. refl)
change_sizes-Ancestors zero change _ _ inodes h (below it xs ne new c) = absurd (omega arith)
change_sizes-Ancestors (suc n) change _ _ inodes h (below it xs ne new c) =
    let resized = update inodes it (record (inodes it) { size = change (inodes it).size }) in
    let (r, e, sizes) =
      change_sizes-Ancestors n change (parent_of inodes it) xs resized (omega arith)
        (Ancestors-resized it (change (inodes it).size) inodes (parent_of inodes it) xs c) in
    (r, rw (==_of_ne it minus_one ne) e, λ m. sizes m ∙ resized_first change it m xs inodes new)

-- A write that ends behind the end of a file whose ancestors are inodes of the table, all different up to the root and
-- from the file, comes to the end of its loop over them with the 2048 rounds that the model gives it. The file and each of its ancestors have
-- grown by the bytes that the file lacked, as an `int`; the other inodes and the rest of the file system are unchanged.
pub extend-Ancestors :
    (inode end : ℕ) (xs : List ℕ) (f : Fs)
    → has inode xs ≡ false
    → Ancestors f.inodes (parent_of f.inodes inode) xs
    → ((x : ℕ) → has x xs ≡ true → x < 2048)
    → ltb (f.inodes inode).size end ≡ true
    → (g : Fs) × (extend inode end f ≡ some g)
      × (g ≡ record f { inodes = g.inodes })
      × ((m : ℕ)
          → g.inodes m
            ≡ resized_on
                (λ n. add_int n (sub_int end (f.inodes inode).size))
                (inode ∷ xs)
                f.inodes
                m)
unfolding extend extend_within
extend-Ancestors inode end xs f new c small l =
    let s = sub_int end (f.inodes inode).size in
    let (r, e, sizes) =
      change_sizes-Ancestors parent_fuel (λ n. add_int n s) (parent_of f.inodes inode) xs
        (update f.inodes inode (add_size s (f.inodes inode)))
        (length_le_of_Distinct 2048 xs (Ancestors-Distinct f.inodes (parent_of f.inodes inode) xs c)
          small)
        (Ancestors-resized inode (add_int (f.inodes inode).size s) f.inodes
          (parent_of f.inodes inode) xs c) in
    (
      record f { inodes = r },
      rw (l, e) refl,
      refl,
      λ m. sizes m ∙ resized_first (λ n. add_int n s) inode m xs f.inodes new,
    )

-- A write behind the end of a file in a directory that is its own parent does not come to its end: no number of rounds
-- is enough for the loop over the parents, with which do_write makes them larger.
pub extend-self_parent :
    (rounds inode dir end : ℕ) (f : Fs)
    → inode ≢ dir
    → dir ≢ minus_one
    → parent_of f.inodes inode ≡ dir
    → parent_of f.inodes dir ≡ dir
    → ltb (f.inodes inode).size end ≡ true
    → extend_within rounds inode end f ≡ none
unfolding extend_within
extend-self_parent rounds inode dir end f ne h p q l =
    let s = sub_int end (f.inodes inode).size in
    rw l (
      ap (λ (o : Option (ℕ → Inode)). o >>= λ inodes. some (record f { inodes = inodes }))
        (ap
            (λ t.
              change_sizes rounds (λ n. add_int n s) t
                (update f.inodes inode (add_size s (f.inodes inode))))
            p
          ∙ change_sizes-cycle rounds (λ n. add_int n s) dir
              (update f.inodes inode (add_size s (f.inodes inode))) h
              (parent-resized f.inodes inode dir (add_int (f.inodes inode).size s) ∙ q)))
