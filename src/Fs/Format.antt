-- ===== src/Fs/Format.antt =====
-- A file system that do_mkfs of kernel/fs/fs.c made is what init_fs finds on the disk.
use ucas_2024fall_oslab.Base.{
  subst, minus_one, Bool-cases, add_zero, ℕ, zero, suc, ◌+◌, ◌*◌, ◌/◌, ◌%◌, ◌^◌, ◌<◌, ◌≤◌, ◌≡◌, ◌≢◌,
  ◌⊎◌, refl, inl, inr, true, false, not, ◌==◌, ltb, arith, ap, ◌∙◌, sym, if◌then◌else◌, ==_of_ne,
}
use ucas_2024fall_oslab.Fs.Layout.{
  Bytes, Superblock, Inode, Fs, Sd, byte_of, word_at, superblock_word, superblock_bytes,
  superblock_of, inode_word, inodes_bytes, inode_of, prefix_of, superblock_magic, start_sec,
  num_fdescs, get_start_sec, store_superblock, load_superblock, store_inode_map, load_inode_map,
  store_block_map, load_block_map, store_inodes, load_inodes, store_a_data_block, store_block_from,
}
use ucas_2024fall_oslab.Fs.Setup.{
  new_superblock, formatted, first_sector, do_mkfs, init_fs, no_fdesc,
}

-- What the firmware's disk does: a read gives what was written there last.
pub record SdLaws (sd : Sd) : Type 0 where
  pub same :
      (n s o : ℕ) (m : Bytes) (d : ℕ → Bytes)
      → o < 512 * n
      → sd.sd_read n s (sd.sd_write n s m d) o ≡ m o
  pub other :
      (n s n' s' o : ℕ) (m : Bytes) (d : ℕ → Bytes)
      → (s + n ≤ s') ⊎ (s' + n' ≤ s)
      → o < 512 * n'
      → sd.sd_read n' s' (sd.sd_write n s m d) o ≡ sd.sd_read n' s' d o

-- A word in memory.
word_bytes :
    (w : ℕ)
    → w < 2 ^ 32
    → byte_of w 0 + 256 * byte_of w 1 + 65536 * byte_of w 2 + 16777216 * byte_of w 3 ≡ w
word_bytes w h = omega arith

word_at-ext :
    (a : ℕ) (m p : Bytes) → ((b : ℕ) → b < 4 → m (a + b) ≡ p (a + b)) → word_at a m ≡ word_at a p
word_at-ext a m p h = λ i.
    (ap m (sym (add_zero a)) ∙ h 0 (omega arith) ∙ ap p (add_zero a)) i
    + 256 * h 1 (omega arith) i
    + 65536 * h 2 (omega arith) i
    + 16777216 * h 3 (omega arith) i

-- A word whose bytes stand in memory.
word_at-bytes :
    (a w : ℕ) (m : Bytes)
    → w < 2 ^ 32
    → ((b : ℕ) → b < 4 → m (a + b) ≡ byte_of w b)
    → word_at a m ≡ w
word_at-bytes a w m l h =
    (λ i.
      (ap m (sym (add_zero a)) ∙ h 0 (omega arith)) i
      + 256 * h 1 (omega arith) i
      + 65536 * h 2 (omega arith) i
      + 16777216 * h 3 (omega arith) i)
    ∙ word_bytes w l

ltb_of_lt : (a b : ℕ) → a < b → ltb a b ≡ true
ltb_of_lt a b h = ground arith

ltb_of_le : (a b : ℕ) → b ≤ a → ltb a b ≡ false
ltb_of_le a b h = ground arith

in_sector : (k b : ℕ) → k < 10 → b < 4 → ltb (4 * k + b) 512 ≡ true
in_sector k b h l = ground arith

inside : (k b : ℕ) → k < 10 → b < 4 → ltb (4 * k + b) 40 ≡ true
inside k b h l = ground arith

word_index : (k b : ℕ) → b < 4 → (4 * k + b) / 4 ≡ k
word_index k b h = omega arith

byte_index : (k b : ℕ) → b < 4 → (4 * k + b) % 4 ≡ b
byte_index k b h = omega arith

inode_index : (n k b : ℕ) → k < 12 → b < 4 → (48 * n + 4 * k + b) / 48 ≡ n
inode_index n k b h l = omega arith

inode_word_index : (n k b : ℕ) → k < 12 → b < 4 → (48 * n + 4 * k + b) % 48 / 4 ≡ k
inode_word_index n k b h l = omega arith

inode_byte_index : (n k b : ℕ) → b < 4 → (48 * n + 4 * k + b) % 4 ≡ b
inode_byte_index n k b l = omega arith

-- The words of the superblock and of an inode in memory are those of the records.
superblock_word-bytes :
    (s : Superblock) (rest : Bytes) (k : ℕ)
    → k < 10
    → superblock_word s k < 2 ^ 32
    → word_at (4 * k) (superblock_bytes s rest) ≡ superblock_word s k
superblock_word-bytes s rest k h l =
    word_at-bytes (4 * k) (superblock_word s k) (superblock_bytes s rest) l
      (λ b hb. rw (inside k b h hb, word_index k b hb, byte_index k b hb) refl)

inode_word-bytes :
    (t : ℕ → Inode) (n k : ℕ)
    → k < 12
    → inode_word (t n) k < 2 ^ 32
    → word_at (48 * n + 4 * k) (inodes_bytes t) ≡ inode_word (t n) k
inode_word-bytes t n k h l =
    word_at-bytes (48 * n + 4 * k) (inode_word (t n) k) (inodes_bytes t) l (λ b hb.
      rw (inode_index n k b h hb, inode_word_index n k b h hb, inode_byte_index n k b hb) refl)

inode_word-of :
    (m : Bytes) (n k : ℕ) → k < 12 → inode_word (inode_of m n) k ≡ word_at (48 * n + 4 * k) m
inode_word-of m n k h = elim (Bool-cases (k == 0)) [
  | inl z ↦ rw z (ap (λ a. word_at a m) (ground arith))
  | inr n0 ↦ rw n0 (elim (Bool-cases (k == 1)) [
    | inl z ↦ rw z (ap (λ a. word_at a m) (ground arith))
    | inr n1 ↦ rw n1 (elim (Bool-cases (k == 2)) [
      | inl z ↦ rw z (ap (λ a. word_at a m) (ground arith))
      | inr n2 ↦ rw n2 (elim (Bool-cases (k == 11)) [
        | inl z ↦ rw z (ap (λ a. word_at a m) (ground arith))
        | inr n3 ↦ rw n3 (ap (λ a. word_at a m) (ground arith))
      ])
    ])
  ])
]

superblock_word-of :
    (m : Bytes) (k : ℕ) → k < 10 → superblock_word (superblock_of m) k ≡ word_at (4 * k) m
superblock_word-of m zero h = refl
superblock_word-of m (suc zero) h = refl
superblock_word-of m (suc (suc zero)) h = refl
superblock_word-of m (suc (suc (suc zero))) h = refl
superblock_word-of m (suc (suc (suc (suc zero)))) h = refl
superblock_word-of m (suc (suc (suc (suc (suc zero))))) h = refl
superblock_word-of m (suc (suc (suc (suc (suc (suc zero)))))) h = refl
superblock_word-of m (suc (suc (suc (suc (suc (suc (suc zero))))))) h = refl
superblock_word-of m (suc (suc (suc (suc (suc (suc (suc (suc zero)))))))) h = refl
superblock_word-of m (suc (suc (suc (suc (suc (suc (suc (suc (suc zero))))))))) h = refl
superblock_word-of m (suc (suc (suc (suc (suc (suc (suc (suc (suc (suc k)))))))))) h =
    absurd (omega arith)

superblock_ext :
    (s t : Superblock) → ((k : ℕ) → k < 10 → superblock_word s k ≡ superblock_word t k) → s ≡ t
superblock_ext s t h = λ i. record {
  magic = h 0 (omega arith) i;
  fs_size = h 1 (omega arith) i;
  fs_start_sec = h 2 (omega arith) i;
  block_size = h 3 (omega arith) i;
  block_map_offset = h 4 (omega arith) i;
  inode_map_offset = h 5 (omega arith) i;
  inode_size = h 6 (omega arith) i;
  dentry_size = h 7 (omega arith) i;
  inode_offset = h 8 (omega arith) i;
  data_offset = h 9 (omega arith) i;
}

-- What init_fs finds, `f` being what do_mkfs had in memory, and `h` the memory before init_fs. The code stores and
-- loads one sector of the block map: its other entries are those that the memory had.
pub record Restored (f h : Fs) (r : ℕ × Fs) : Type 0 where
  pub status : r.0 ≡ 0
  pub superblock : r.1.superblock ≡ new_superblock
  pub current : r.1.current_inode ≡ 0
  pub inode_map : (o : ℕ) → o < 2048 → r.1.inode_map o ≡ f.inode_map o
  pub block_map : (o : ℕ) → o < 512 → r.1.block_map o ≡ f.block_map o
  pub block_map_rest : (o : ℕ) → 512 ≤ o → r.1.block_map o ≡ h.block_map o
  pub inodes :
      (n k : ℕ)
      → n < 2048
      → k < 12
      → inode_word (f.inodes n) k < 2 ^ 32
      → inode_word (r.1.inodes n) k ≡ inode_word (f.inodes n) k

module _ (sd : Sd) (laws : SdLaws sd) where
  -- what the five writes of do_mkfs leave on the disk
  abbrev written : Fs → ℕ → Bytes
  written f =
      let d1 = sd.sd_write 1 start_sec (superblock_bytes f.superblock f.after_superblock) f.disk in
      let d2 = sd.sd_write 4 (start_sec + 1) f.inode_map d1 in
      let d3 = sd.sd_write 1 (start_sec + 197) f.block_map d2 in
      let d4 = sd.sd_write 192 (start_sec + 5) (inodes_bytes f.inodes) d3 in
      sd.sd_write 8 (start_sec + 453) f.temp d4

  do_mkfs-written :
      (f : Fs)
      → sd.sd_status 1 start_sec f.disk ≡ 0
      → (superblock_of (first_sector sd f).temp).magic ≢ superblock_magic
      → ((do_mkfs sd f).0 ≡ 0)
        × ((do_mkfs sd f).1.disk
            ≡ written (
                formatted (record (first_sector sd f) {
                  superblock = superblock_of (first_sector sd f).temp;
                })))
  unfolding do_mkfs store_superblock store_inode_map store_block_map store_inodes store_a_data_block
      store_block_from get_start_sec
  do_mkfs-written f h n = rw (h, ==_of_ne _ superblock_magic n) (refl, refl)

  module _ (f : Fs) where
    read_superblock :
        (o : ℕ)
        → o < 512
        → sd.sd_read 1 start_sec (written f) o ≡ superblock_bytes f.superblock f.after_superblock o
    read_superblock o h =
        laws.other _ _ _ _ o _ _ (inr (omega arith)) (omega arith)
        ∙ laws.other _ _ _ _ o _ _ (inr (omega arith)) (omega arith)
        ∙ laws.other _ _ _ _ o _ _ (inr (omega arith)) (omega arith)
        ∙ laws.other _ _ _ _ o _ _ (inr (omega arith)) (omega arith)
        ∙ laws.same 1 start_sec o _ _ (omega arith)

    read_inode_map : (o : ℕ) → o < 2048 → sd.sd_read 4 (start_sec + 1) (written f) o ≡ f.inode_map o
    read_inode_map o h =
        laws.other _ _ _ _ o _ _ (inr (omega arith)) (omega arith)
        ∙ laws.other _ _ _ _ o _ _ (inr (omega arith)) (omega arith)
        ∙ laws.other _ _ _ _ o _ _ (inr (omega arith)) (omega arith)
        ∙ laws.same 4 (start_sec + 1) o _ _ (omega arith)

    read_block_map :
        (o : ℕ) → o < 512 → sd.sd_read 1 (start_sec + 197) (written f) o ≡ f.block_map o
    read_block_map o h =
        laws.other _ _ _ _ o _ _ (inr (omega arith)) (omega arith)
        ∙ laws.other _ _ _ _ o _ _ (inl (omega arith)) (omega arith)
        ∙ laws.same 1 (start_sec + 197) o _ _ (omega arith)

    read_inodes :
        (o : ℕ) → o < 98304 → sd.sd_read 192 (start_sec + 5) (written f) o ≡ inodes_bytes f.inodes o
    read_inodes o h =
        laws.other _ _ _ _ o _ _ (inr (omega arith)) (omega arith)
        ∙ laws.same 192 (start_sec + 5) o _ _ (omega arith)

  new_words : (k : ℕ) → k < 10 → superblock_word new_superblock k < 2 ^ 32
  new_words k h = ground arith

  -- init_fs by the superblock that it reads
  abbrev init_with : Fs → Superblock → ℕ × Fs
  init_with h s =
      let g = record h {
        temp = prefix_of 512 (sd.sd_read 1 start_sec h.disk) h.temp;
        superblock = s;
        fdesc_array = λ i. if ltb i num_fdescs then no_fdesc else h.fdesc_array i;
      } in
      if not (s.magic == superblock_magic) then (minus_one, g) else (
        0,
        load_inodes sd (load_block_map sd (load_inode_map sd (record g { current_inode = 0 }))),
      )

  module _ (f h : Fs) (e : h.disk ≡ written f) (es : f.superblock ≡ new_superblock) where
    superblock_read :
        superblock_of (prefix_of 512 (sd.sd_read 1 start_sec h.disk) h.temp) ≡ new_superblock
    superblock_read = superblock_ext _ new_superblock (λ k hk.
        superblock_word-of (prefix_of 512 (sd.sd_read 1 start_sec h.disk) h.temp) k hk
        ∙ word_at-ext (4 * k) (prefix_of 512 (sd.sd_read 1 start_sec h.disk) h.temp)
            (superblock_bytes new_superblock f.after_superblock)
            (λ b hb.
              rw (in_sector k b hk hb, e) (read_superblock f (4 * k + b) (omega arith))
              ∙ ap (λ s. superblock_bytes s f.after_superblock (4 * k + b)) es)
        ∙ superblock_word-bytes new_superblock f.after_superblock k hk (new_words k hk))

    init_fs-with : init_fs sd h ≡ init_with h new_superblock
    unfolding init_fs load_superblock
    init_fs-with = ap (init_with h) superblock_read

    init_with-Restored : Restored f h (init_with h new_superblock)
    unfolding load_inode_map load_block_map load_inodes get_start_sec
    init_with-Restored = record {
      status = refl;
      superblock = refl;
      current = refl;
      inode_map = λ o ho. rw (ltb_of_lt o 2048 ho, e) (read_inode_map f o ho);
      block_map = λ o ho. rw (ltb_of_lt o 512 ho, e) (read_block_map f o ho);
      block_map_rest = λ o ho. rw (ltb_of_le o 512 ho) refl;
      inodes = λ n k hn hk l.
          rw (ltb_of_lt n 2048 hn, e)
            (inode_word-of (sd.sd_read 192 (start_sec + 5) (written f)) n k hk
              ∙ word_at-ext (48 * n + 4 * k) (sd.sd_read 192 (start_sec + 5) (written f))
                  (inodes_bytes f.inodes) (λ b hb. read_inodes f (48 * n + 4 * k + b) (omega arith))
              ∙ inode_word-bytes f.inodes n k hk l);
    }

  -- With a disk that can be read and has no file system yet, do_mkfs makes one. Whatever is in memory, init_fs finds
  -- it on that disk: the superblock, the inode map, the inodes, and the first 512 entries of the block map.
  pub do_mkfs-Restored :
      (f h : Fs)
      → sd.sd_status 1 start_sec f.disk ≡ 0
      → (superblock_of (first_sector sd f).temp).magic ≢ superblock_magic
      → h.disk ≡ (do_mkfs sd f).1.disk
      → ((do_mkfs sd f).0 ≡ 0) × Restored (formatted (first_sector sd f)) h (init_fs sd h)
  do_mkfs-Restored f h status magic disk =
      let g =
        formatted
          (record (first_sector sd f) { superblock = superblock_of (first_sector sd f).temp }) in
      let (ok, stored) = do_mkfs-written f status magic in
      (
        ok,
        subst (Restored (formatted (first_sector sd f)) h)
            (sym (init_fs-with g h (disk ∙ stored) refl))
            (init_with-Restored g h (disk ∙ stored) refl),
      )
