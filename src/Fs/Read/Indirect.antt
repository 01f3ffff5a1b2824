-- ===== src/Fs/Read/Indirect.antt =====
-- The loop of do_read in kernel/fs/fs.c over the blocks behind the indirect one.
use ucas_2024fall_oslab.Base.{
  add_assoc, [], eq_of_==, sym, false, ℕ, zero, suc, ◌+◌, ◌-◌, ◌*◌, ◌/◌, ◌%◌, ◌<◌, ◌≤◌, ◌≡◌, min,
  refl, List, ◌++◌, ◌==◌, if◌then◌else◌, arith, ap, ◌∙◌, inl, inr, Bool-cases,
}
use ucas_2024fall_oslab.Fs.Layout.{Bytes, Fs, Sd, word_at, load_block, block_bytes}
use ucas_2024fall_oslab.Fs.Read.{slice, zeros, read_indirect}
use ucas_2024fall_oslab.Fs.Read.Contents.{
  file_byte, file_bytes, slice-file_bytes, zeros-file_bytes, file_byte-indirect,
}
use ucas_2024fall_oslab.Fs.Read.Loops.{Same, step_bytes, load_block-Same, min_cases}

-- the position of an offset in a block behind the indirect one
abbrev pub indirect_at : ℕ → ℕ → ℕ → ℕ
indirect_at i j k = 4096 * (7 + 1024 * i + j) + k

min_lt : (t a b : ℕ) → t < min a b → t < a
min_lt t a b h = elim (min_cases a b) [ inl (m, l) ↦ omega arith | inr (m, l) ↦ omega arith ]

min_le : (a b : ℕ) → min a b ≤ a
min_le a b = elim (min_cases a b) [ inl (m, l) ↦ omega arith | inr (m, l) ↦ omega arith ]

min_rest : (a b n : ℕ) → 0 < a → (b == 0) ≡ false → b ≤ suc n → b - min a b ≤ n
min_rest a b n h e bound = elim (min_cases a b) [
  | inl (m, l) ↦ ground arith
  | inr (m, l) ↦ ground arith
]

module _ (sd : Sd) (inode : ℕ) (f : Fs) where
  abbrev first_word : ℕ → ℕ
  first_word i = word_at (4 * i) (load_block sd ((f.inodes inode).sec 7) f)

  abbrev second_word : ℕ → ℕ → ℕ
  second_word i j = word_at (4 * j) (load_block sd (first_word i) f)

  hole_byte :
      (i j k t : ℕ)
      → first_word i ≡ 0
      → t < block_bytes * 1024 - k - j * block_bytes
      → file_byte sd inode (indirect_at i j k + t) f ≡ 0
  hole_byte i j k t z b =
      ap (λ p. file_byte sd inode p f) (omega arith)
      ∙ file_byte-indirect sd inode i (j + (k + t) / 4096) ((k + t) % 4096) f (omega arith)
          (omega arith)
      ∙ rw z refl

  part_byte :
      (i j k t : ℕ)
      → j < 1024
      → k < 4096
      → (first_word i == 0) ≡ false
      → t < block_bytes - k
      → file_byte sd inode (indirect_at i j k + t) f
        ≡ (if second_word i j == 0 then 0 else load_block sd (second_word i j) f (k + t))
  part_byte i j k t hj hk e b =
      ap (λ p. file_byte sd inode p f) (add_assoc (4096 * (7 + 1024 * i + j)) k t)
      ∙ file_byte-indirect sd inode i j (k + t) f hj (omega arith)
      ∙ rw e refl

  part_bytes :
      (i j k n : ℕ)
      → j < 1024
      → k < 4096
      → (first_word i == 0) ≡ false
      → n ≤ block_bytes - k
      → (if second_word i j == 0 then zeros n else slice (load_block sd (second_word i j) f) k n)
        ≡ file_bytes sd inode (indirect_at i j k) n f
  part_bytes i j k n hj hk e b = elim (Bool-cases (second_word i j == 0)) [
    | inl z ↦ rw z (
        zeros-file_bytes sd inode (indirect_at i j k) n f
          (λ t l. part_byte i j k t hj hk e (omega arith) ∙ rw z refl))
    | inr z ↦ rw z (
        slice-file_bytes sd inode (indirect_at i j k) k n _ f
          (λ t l. sym (part_byte i j k t hj hk e (omega arith) ∙ rw z refl)))
  ]

  -- where the step behind a block goes on
  next_at :
      (i j k : ℕ)
      → k < 4096
      → indirect_at i j k + (block_bytes - k)
        ≡ indirect_at (if j + 1 == 1024 then i + 1 else i) (if j + 1 == 1024 then 0 else j + 1) 0
  next_at i j k h = elim (Bool-cases (j + 1 == 1024)) [
    | inl e ↦ rw e (ground arith)
    | inr e ↦ rw e (omega arith)
  ]

  none_left : (i j k size : ℕ) → size ≡ 0 → file_bytes sd inode (indirect_at i j k) size f ≡ []
  unfolding file_bytes
  none_left i j k size z = ap (λ n. file_bytes sd inode (indirect_at i j k) n f) z

  -- A step over a hole on the first level, and a step over a block, before the steps behind them.
  hole_step :
      (i j k size : ℕ)
      → j < 1024
      → k < 4096
      → first_word i ≡ 0
      → (let hole = min (block_bytes * 1024 - k - j * block_bytes) size in
          zeros hole ++ file_bytes sd inode (indirect_at (i + 1) 0 0) (size - hole) f)
        ≡ file_bytes sd inode (indirect_at i j k) size f
  hole_step i j k size hj hk z =
      let room = block_bytes * 1024 - k - j * block_bytes in
      step_bytes sd inode (indirect_at i j k) (indirect_at (i + 1) 0 0) room size (min room size) f
        (zeros (min room size)) refl (omega arith)
        (zeros-file_bytes sd inode (indirect_at i j k) (min room size) f
          (λ t b. hole_byte i j k t z (min_lt t room size b)))

  part_step :
      (i j k size : ℕ)
      → j < 1024
      → k < 4096
      → (first_word i == 0) ≡ false
      → (let part = min (block_bytes - k) size in
          (if second_word i j == 0
            then zeros part
            else slice (load_block sd (second_word i j) f) k part)
          ++ file_bytes sd inode
              (indirect_at
                (if j + 1 == 1024 then i + 1 else i)
                (if j + 1 == 1024 then 0 else j + 1)
                0)
              (size - part)
              f)
        ≡ file_bytes sd inode (indirect_at i j k) size f
  part_step i j k size hj hk e =
      let room = block_bytes - k in
      step_bytes sd inode (indirect_at i j k) _ room size (min room size) f _ refl
        (next_at i j k hk) (part_bytes i j k (min room size) hj hk e (min_le room size))

  next_lt : (j : ℕ) → j < 1024 → (if j + 1 == 1024 then 0 else j + 1) < 1024
  next_lt j h = ground arith

  -- a round of the loop, by the words that it finds and the bytes of the block
  abbrev round : ℕ → ℕ → ℕ → ℕ → ℕ → Fs → ℕ → ℕ → Bytes → List ℕ
  round n i j k size g first second bytes =
      let hole = min (block_bytes * 1024 - k - j * block_bytes) size in
      let part = min (block_bytes - k) size in
      let next_i = if j + 1 == 1024 then i + 1 else i in
      let next_j = if j + 1 == 1024 then 0 else j + 1 in
      let over_hole = zeros hole ++ read_indirect sd n (i + 1) 0 0 (size - hole) g in
      let over_part =
        (if second == 0 then zeros part else slice bytes k part)
        ++ read_indirect sd n next_i next_j 0 (size - part) g in
      if size == 0 then [] else if first == 0 then over_hole else over_part

  read_indirect-round :
      (n i j k size : ℕ) (g : Fs)
      → Same f g
      → g.temp ≡ load_block sd ((f.inodes inode).sec 7) f
      → read_indirect sd (suc n) i j k size g
        ≡ round n i j k size g (first_word i) (second_word i j) (load_block sd (second_word i j) f)
  unfolding read_indirect
  read_indirect-round n i j k size g s e =
      ap (λ w. round n i j k size g w (word g) (load_block sd (word g) g)) first
      ∙ ap (λ w. round n i j k size g (first_word i) w (load_block sd (word g) g)) second
      ∙ ap (λ m. round n i j k size g (first_word i) (second_word i j) m) bytes_same
    where
      word : Fs → ℕ
      word g = word_at (4 * j) (load_block sd (word_at (4 * i) g.temp) g)

      first : word_at (4 * i) g.temp ≡ first_word i
      first = ap (word_at (4 * i)) e

      second : word g ≡ second_word i j
      second =
          ap (λ w. word_at (4 * j) (load_block sd w g)) first
          ∙ ap (word_at (4 * j)) (load_block-Same sd (first_word i) f g s)

      bytes_same : load_block sd (word g) g ≡ load_block sd (second_word i j) f
      bytes_same = ap (λ w. load_block sd w g) second ∙ load_block-Same sd (second_word i j) f g s

  pub read_indirect-bytes :
      (n i j k size : ℕ) (g : Fs)
      → Same f g
      → g.temp ≡ load_block sd ((f.inodes inode).sec 7) f
      → size ≤ n
      → j < 1024
      → k < 4096
      → read_indirect sd n i j k size g ≡ file_bytes sd inode (indirect_at i j k) size f
  unfolding read_indirect
  read_indirect-bytes zero i j k size g s e hs hj hk = sym (none_left i j k size (omega arith))
  read_indirect-bytes (suc n) i j k size g s e hs hj hk =
      read_indirect-round n i j k size g s e ∙ elim (Bool-cases (size == 0)) [
        | inl z ↦ rw z (sym (none_left i j k size (eq_of_== size 0 z)))
        | inr z ↦ rw z (elim (Bool-cases (first_word i == 0)) [
          | inl w ↦ rw w (
              ap (λ xs. zeros (min (block_bytes * 1024 - k - j * block_bytes) size) ++ xs)
                (read_indirect-bytes n (i + 1) 0 0
                  (size - min (block_bytes * 1024 - k - j * block_bytes) size) g s e
                  (min_rest (block_bytes * 1024 - k - j * block_bytes) size n (omega arith) z hs)
                  (omega arith) (omega arith))
              ∙ hole_step i j k size hj hk (eq_of_== (first_word i) 0 w))
          | inr w ↦ rw w (
              ap
                (λ xs.
                  (if second_word i j == 0
                    then zeros (min (block_bytes - k) size)
                    else slice (load_block sd (second_word i j) f) k (min (block_bytes - k) size))
                  ++ xs)
                (read_indirect-bytes n (if j + 1 == 1024 then i + 1 else i)
                  (if j + 1 == 1024 then 0 else j + 1) 0 (size - min (block_bytes - k) size) g s e
                  (min_rest (block_bytes - k) size n (omega arith) z hs) (next_lt j hj)
                  (omega arith))
              ∙ part_step i j k size hj hk w)
        ])
      ]
