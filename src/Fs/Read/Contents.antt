-- ===== src/Fs/Read/Contents.antt =====
-- The bytes of a file as kernel/fs/fs.c lays them out on the disk: seven direct blocks, then two levels of blocks
-- of words, where a zero word is a hole.
use ucas_2024fall_oslab.Base.{
  add_zero, one_more, suc_add, sym, false, ℕ, zero, suc, ◌+◌, ◌-◌, ◌*◌, ◌/◌, ◌%◌, ◌<◌, ◌≡◌, refl,
  List, [], ◌∷◌, ◌++◌, ◌==◌, ltb, if◌then◌else◌, arith, ap, ap₂, ◌∙◌,
}
use ucas_2024fall_oslab.Fs.Layout.{Bytes, Fs, Sd, word_at, load_block}
use ucas_2024fall_oslab.Fs.Read.{slice, zeros}

div_block : (b o : ℕ) → o < 4096 → (4096 * b + o) / 4096 ≡ b
div_block b o h = omega arith

mod_block : (b o : ℕ) → o < 4096 → (4096 * b + o) % 4096 ≡ o
mod_block b o h = omega arith

block_index : (i j : ℕ) → 7 + 1024 * i + j - 7 ≡ 1024 * i + j
block_index i j = omega arith

div_index : (i j : ℕ) → j < 1024 → (1024 * i + j) / 1024 ≡ i
div_index i j h = omega arith

mod_index : (i j : ℕ) → j < 1024 → (1024 * i + j) % 1024 ≡ j
mod_index i j h = omega arith

direct_test : (i j : ℕ) → ltb (7 + 1024 * i + j) 7 ≡ false
direct_test i j = ground arith

module _ (sd : Sd) where
  -- the byte behind the indirect block: the number of its block there, and the offset in it
  unfoldable pub indirect_byte : ℕ → ℕ → ℕ → Fs → ℕ
  indirect_byte inode c o f =
      let first = word_at (4 * (c / 1024)) (load_block sd ((f.inodes inode).sec 7) f) in
      let second = word_at (4 * (c % 1024)) (load_block sd first f) in
      if first == 0 then 0 else if second == 0 then 0 else load_block sd second f o

  unfoldable pub file_byte : ℕ → ℕ → Fs → ℕ
  file_byte inode p f =
      if ltb (p / 4096) 7
      then load_block sd ((f.inodes inode).sec (p / 4096)) f (p % 4096)
      else indirect_byte inode (p / 4096 - 7) (p % 4096) f

  -- `n` bytes of a file from a position on
  unfoldable pub file_bytes : ℕ → ℕ → ℕ → Fs → List ℕ
  file_bytes inode p zero f = []
  file_bytes inode p (suc n) f = file_byte inode p f ∷ file_bytes inode (p + 1) n f

  pub file_bytes-append :
      (inode p a b : ℕ) (f : Fs)
      → file_bytes inode p (a + b) f ≡ file_bytes inode p a f ++ file_bytes inode (p + a) b f
  unfolding file_bytes
  file_bytes-append inode p zero b f =
      ap₂ (λ q n. file_bytes inode q n f) (omega arith) (omega arith)
  file_bytes-append inode p (suc a) b f =
      ap (λ n. file_bytes inode p n f) (suc_add a b)
      ∙ ap (λ r. file_byte inode p f ∷ r)
          (file_bytes-append inode (p + 1) a b f
            ∙ ap (λ q. file_bytes inode (p + 1) a f ++ file_bytes inode q b f) (one_more p a))

  pub slice-file_bytes :
      (inode p k n : ℕ) (m : Bytes) (f : Fs)
      → ((t : ℕ) → t < n → m (k + t) ≡ file_byte inode (p + t) f)
      → slice m k n ≡ file_bytes inode p n f
  unfolding file_bytes
  slice-file_bytes inode p k zero m f h = refl
  slice-file_bytes inode p k (suc n) m f h =
      ap₂ ◌∷◌
        (ap m (sym (add_zero k)) ∙ h 0 (omega arith) ∙ ap (λ q. file_byte inode q f) (add_zero p))
        (slice-file_bytes inode (p + 1) (k + 1) n m f (λ t b.
          ap m (one_more k t)
          ∙ h (suc t) (omega arith)
          ∙ ap (λ q. file_byte inode q f) (sym (one_more p t))))

  pub zeros-file_bytes :
      (inode p n : ℕ) (f : Fs)
      → ((t : ℕ) → t < n → file_byte inode (p + t) f ≡ 0)
      → zeros n ≡ file_bytes inode p n f
  unfolding file_bytes
  zeros-file_bytes inode p zero f h = refl
  zeros-file_bytes inode p (suc n) f h =
      ap₂ ◌∷◌ (sym (ap (λ q. file_byte inode q f) (sym (add_zero p)) ∙ h 0 (omega arith))) (
        zeros-file_bytes inode (p + 1) n f
          (λ t b. ap (λ q. file_byte inode q f) (one_more p t) ∙ h (suc t) (omega arith)))

  -- the byte at an offset of a block
  pub file_byte-direct :
      (inode b o : ℕ) (f : Fs)
      → b < 7
      → o < 4096
      → file_byte inode (4096 * b + o) f ≡ load_block sd ((f.inodes inode).sec b) f o
  unfolding file_byte
  file_byte-direct inode b o f hb ho = rw (div_block b o ho, mod_block b o ho) (ground arith)

  pub file_byte-indirect :
      (inode i j o : ℕ) (f : Fs)
      → j < 1024
      → o < 4096
      → file_byte inode (4096 * (7 + 1024 * i + j) + o) f ≡ (
          let first = word_at (4 * i) (load_block sd ((f.inodes inode).sec 7) f) in
          let second = word_at (4 * j) (load_block sd first f) in
          if first == 0 then 0 else if second == 0 then 0 else load_block sd second f o)
  unfolding file_byte indirect_byte
  file_byte-indirect inode i j o f hj ho =
      rw
        (
          div_block (7 + 1024 * i + j) o ho,
          mod_block (7 + 1024 * i + j) o ho,
          block_index i j,
          div_index i j hj,
          mod_index i j hj,
          direct_test i j,
        )
        refl
