-- ===== src/Fs/Read/Whole.antt =====
-- do_read of kernel/fs/fs.c reads the file from the descriptor's offset on.
use ucas_2024fall_oslab.Base.{
  true, none, ltb, ◌&&◌, if◌then◌else◌, update, update_self, sym, ℕ, ◌+◌, ◌-◌, ◌*◌, ◌/◌, ◌%◌, ◌^◌,
  ◌<◌, ◌≤◌, ◌≡◌, min, some, List, [], ◌++◌, arith, ap, ◌∙◌, inl, inr, ◌⊎◌, add_int,
}
use ucas_2024fall_oslab.Fs.Layout.{Fs, Sd, load_block, load_a_data_block}
use ucas_2024fall_oslab.Fs.Read.{
  Reading, read_direct, read_indirect, read_bytes, read_length, do_read,
}
use ucas_2024fall_oslab.Fs.Read.Contents.{file_bytes}
use ucas_2024fall_oslab.Fs.Read.Loops.{
  min_cases, Same, same_refl, Continues, read_direct-Continues, load_block-Same, load-Same,
}
use ucas_2024fall_oslab.Fs.Read.Indirect.{read_indirect-bytes}

in_range : (a b : ℕ) → a < 2 ^ 31 → b < 2 ^ 31 → (ltb a (2 ^ 31) && ltb b (2 ^ 31)) ≡ true
in_range a b h l = ground arith

no_wrap :
    (offset length size : ℕ)
    → offset ≤ size
    → size < 2 ^ 31
    → add_int offset (min length (size - offset)) ≡ offset + min length (size - offset)
no_wrap offset length size h hs = elim (min_cases length (size - offset)) [
  | inl (m, l) ↦ omega arith
  | inr (m, l) ↦ omega arith
]

module _ (sd : Sd) where
  abbrev begin : ℕ → ℕ → Fs → Reading
  begin offset length f = record {
    block = offset / 4096;
    offset = offset % 4096;
    left = length;
    buff = [];
    fs = f;
  }

  begin-Continues :
      (inode offset length : ℕ) (f : Fs)
      → Continues sd inode f
          (begin offset length f)
          (read_direct sd (7 - offset / 4096) inode (begin offset length f))
  begin-Continues inode offset length f =
      read_direct-Continues sd (7 - offset / 4096) inode f (begin offset length f) (same_refl f)
        (omega arith) (omega arith) (omega arith)

  -- what the second loop reads, behind the first one
  rest_bytes :
      (inode : ℕ) (f g : Fs) (r : Reading)
      → r.offset < 4096
      → (r.left ≡ 0) ⊎ (7 ≤ r.block)
      → Same f g
      → g.temp ≡ load_block sd ((f.inodes inode).sec 7) f
      → read_indirect sd r.left ((r.block - 7) / 1024) ((r.block - 7) % 1024) r.offset r.left g
        ≡ file_bytes sd inode (4096 * r.block + r.offset) r.left f
  unfolding read_indirect file_bytes
  rest_bytes inode f g r h (inl z) s e =
      ap (λ n. read_indirect sd n ((r.block - 7) / 1024) ((r.block - 7) % 1024) r.offset n g) z
      ∙ sym (ap (λ n. file_bytes sd inode (4096 * r.block + r.offset) n f) z)
  rest_bytes inode f g r h (inr b) s e =
      read_indirect-bytes sd inode f r.left ((r.block - 7) / 1024) ((r.block - 7) % 1024) r.offset
        r.left g s e (omega arith) (omega arith) h
      ∙ ap (λ p. file_bytes sd inode p r.left f) (omega arith)

  temp-loaded :
      (inode : ℕ) (f g : Fs)
      → Same f g
      → (load_a_data_block sd ((g.inodes inode).sec 7) g).temp
        ≡ load_block sd ((f.inodes inode).sec 7) f
  unfolding load_a_data_block
  temp-loaded inode f g s = rw s.inodes (load_block-Same sd ((f.inodes inode).sec 7) f g s)

  -- The two loops put the file's bytes into the buffer: those of the direct blocks, those of the blocks behind the
  -- indirect one, and a zero for each byte of a hole there. The disk and the inodes stay.
  pub read_bytes-file_bytes :
      (inode offset length : ℕ) (f : Fs)
      → ((read_bytes sd inode offset length f).0 ≡ file_bytes sd inode offset length f)
        × Same f (read_bytes sd inode offset length f).1
  unfolding read_bytes
  read_bytes-file_bytes inode offset length f =
      let c = begin-Continues inode offset length f in
      let r = read_direct sd (7 - offset / 4096) inode (begin offset length f) in
      (
        ap (λ xs. r.buff ++ xs)
              (rest_bytes inode f (load_a_data_block sd ((r.fs.inodes inode).sec 7) r.fs) r c.inside
                c.stop (load-Same sd ((r.fs.inodes inode).sec 7) f r.fs c.same)
                (temp-loaded inode f r.fs c.same))
            ∙ c.bytes
            ∙ ap (λ p. file_bytes sd inode p length f) (omega arith),
        load-Same sd ((r.fs.inodes inode).sec 7) f r.fs c.same,
      )

  read_length-min :
      (size offset length : ℕ)
      → offset ≤ size
      → size < 2 ^ 31
      → length < 2 ^ 31
      → read_length sd size offset length ≡ min length (size - offset)
  read_length-min size offset length h hs hl = elim (min_cases length (size - offset)) [
    | inl (m, l) ↦ ground arith
    | inr (m, l) ↦ ground arith
  ]

  -- the end of do_read, with the length that it settled on
  abbrev read_result : ℕ → ℕ → Fs → ℕ × List ℕ × Fs
  read_result fd n f =
      let d = f.fdesc_array fd in
      let (bytes, g) = read_bytes sd d.inode_num d.offset n f in
      (
        n,
        bytes,
        record g {
          fdesc_array = update g.fdesc_array fd (record d { offset = add_int d.offset n });
        },
      )

  -- With an offset inside the file, do_read gives the bytes from there on, as many as are asked for or as the file
  -- has; it moves the offset behind them, and changes neither the disk nor an inode.
  pub do_read-file_bytes :
      (fd length : ℕ) (f : Fs)
      → (f.fdesc_array fd).offset ≤ (f.inodes (f.fdesc_array fd).inode_num).size
      → (f.inodes (f.fdesc_array fd).inode_num).size < 2 ^ 31
      → length < 2 ^ 31
      → (let d = f.fdesc_array fd in
          let n = min length ((f.inodes d.inode_num).size - d.offset) in
          (g : Fs) × (do_read sd fd length f ≡ some (n, file_bytes sd d.inode_num d.offset n f, g))
          × ((g.fdesc_array fd).offset ≡ d.offset + n)
          × Same f g)
  unfolding do_read
  do_read-file_bytes fd length f h hs hl =
      let d = f.fdesc_array fd in
      let size = (f.inodes d.inode_num).size in
      let n = min length (size - d.offset) in
      let (bytes, same) = read_bytes-file_bytes d.inode_num d.offset n f in
      let g = (read_result fd n f).2 in
      (
        g,
        ap (λ b. if b then some (read_result fd (read_length sd size d.offset length) f) else none)
              (in_range d.offset length (omega arith) hl)
            ∙ ap (λ m. some (read_result fd m f)) (read_length-min size d.offset length h hs hl)
            ∙ ap (λ xs. some (n, xs, g)) bytes,
        ap (λ e. e.offset)
              (update_self (read_bytes sd d.inode_num d.offset n f).1.fdesc_array fd
                (record d { offset = add_int d.offset n }))
            ∙ no_wrap d.offset length size h hs,
        record { superblock = same.superblock; disk = same.disk; inodes = same.inodes },
      )
