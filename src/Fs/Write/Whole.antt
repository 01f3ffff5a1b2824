-- ===== src/Fs/Write/Whole.antt =====
-- do_write of kernel/fs/fs.c inside the direct blocks of a file.
use ucas_2024fall_oslab.Base.{
  ℕ, ◌+◌, ◌-◌, ◌*◌, ◌/◌, ◌%◌, ◌^◌, ◌<◌, ◌≤◌, ◌≡◌, refl, inl, true, false, some, ◌&&◌, leb, ltb,
  arith, ap, ap₂, ◌∙◌, sym, subst, if◌then◌else◌, update, update_self, add_int,
}
use ucas_2024fall_oslab.Fs.Layout.{
  Bytes, Fs, Sd, block_sec, get_start_sec, load_block, store_block_map, store_inodes,
}
use ucas_2024fall_oslab.Fs.Setup.{new_superblock}
use ucas_2024fall_oslab.Fs.Format.{SdLaws}
use ucas_2024fall_oslab.Fs.Read.Contents.{file_byte}
use ucas_2024fall_oslab.Fs.Write.{
  Writing, write_direct, write_behind, write_bytes, extend, extend_within, do_write,
}
use ucas_2024fall_oslab.Fs.Write.Direct.{
  HasBlocks, Written, write_direct-Written, direct_byte, block_sec-new,
}

in_direct : (p : ℕ) → p < 28672 → ltb (p / 4096) 7 ≡ true
in_direct p h = ground arith

behind_inodes :
    (b : ℕ)
    → b < 2 ^ 17
    → get_start_sec new_superblock new_superblock.inode_offset + 192 ≤ block_sec new_superblock b
unfolding get_start_sec
behind_inodes b h = rw (block_sec-new b h) (omega arith)

behind_block_map :
    (b : ℕ)
    → b < 2 ^ 17
    → get_start_sec new_superblock new_superblock.block_map_offset + 1 ≤ block_sec new_superblock b
unfolding get_start_sec
behind_block_map b h = rw (block_sec-new b h) (omega arith)

in_int : (a b : ℕ) → a < 2 ^ 31 → b < 2 ^ 31 → (ltb a (2 ^ 31) && ltb b (2 ^ 31)) ≡ true
in_int a b h l = ground arith

no_growth :
    (offset length size : ℕ)
    → offset + length ≤ size
    → size < 2 ^ 31
    → ltb size (add_int offset length) ≡ false
no_growth offset length size h l = ground arith

abbrev moved : ℕ → ℕ → Fs → Fs
moved fd length g =
    let e = g.fdesc_array fd in
    record g {
      fdesc_array = update g.fdesc_array fd (record e { offset = add_int e.offset length });
    }

start : (offset : ℕ) → 4096 * (offset / 4096) + offset % 4096 ≡ offset
start offset = omega arith

extend-kept :
    (inode end : ℕ) (g : Fs) → ltb (g.inodes inode).size end ≡ false → extend inode end g ≡ some g
unfolding extend extend_within
extend-kept inode end g h = rw h refl

module _ (sd : Sd) (laws : SdLaws sd) where
  file_byte-direct_byte :
      (inode p : ℕ) (f : Fs) → p < 28672 → file_byte sd inode p f ≡ direct_byte sd laws inode f p
  unfolding file_byte
  file_byte-direct_byte inode p f h = rw (in_direct p h) refl

  abbrev begin : ℕ → ℕ → Bytes → Fs → Writing
  begin offset length buff f = record {
    block = offset / 4096;
    offset = offset % 4096;
    left = length;
    buff = buff;
    fs = f;
  }

  abbrev written : ℕ → ℕ → ℕ → Bytes → Fs → Writing
  written inode offset length buff f =
      write_direct sd (7 - offset / 4096) inode (begin offset length buff f)

  written-Written :
      (inode offset length : ℕ) (buff : Bytes) (f : Fs)
      → f.superblock ≡ new_superblock
      → HasBlocks (f.inodes inode) (offset / 4096) ((offset + length + 4095) / 4096)
      → offset + length ≤ 28672
      → Written sd laws inode (begin offset length buff f) (written inode offset length buff f)
  written-Written inode offset length buff f s has_blocks h =
      write_direct-Written sd laws inode (7 - offset / 4096) (offset / 4096)
        ((offset + length + 4095) / 4096) (begin offset length buff f) s has_blocks (omega arith)
        (omega arith) (omega arith) (omega arith) (omega arith)

  -- a write that stays in the direct blocks leaves the others alone
  write_bytes-written :
      (inode offset length : ℕ) (buff table : Bytes) (f : Fs)
      → (written inode offset length buff f).left ≡ 0
      → write_bytes sd inode offset length buff table f ≡ (written inode offset length buff f).fs
  unfolding write_bytes write_behind
  write_bytes-written inode offset length buff table f z = rw z refl

  -- storing the block map and the inodes does not touch the blocks
  stored_byte :
      (inode p lo hi : ℕ) (f : Fs)
      → f.superblock ≡ new_superblock
      → HasBlocks (f.inodes inode) lo hi
      → p < 28672
      → direct_byte sd laws inode (store_inodes sd (store_block_map sd f)) p
        ≡ direct_byte sd laws inode f p
  unfolding store_inodes store_block_map load_block
  stored_byte inode p lo hi f s has_blocks h =
      laws.other _ _ 8 _ (p % 4096) _ _ (inl (rw s (behind_inodes b small))) (omega arith)
      ∙ laws.other _ _ 8 _ (p % 4096) _ _ (inl (rw s (behind_block_map b small))) (omega arith)
    where
      b : ℕ
      b = (f.inodes inode).sec (p / 4096)

      small : b < 2 ^ 17
      small = has_blocks.small (p / 4096) (omega arith)

  -- the end of do_write, with a file system that has the bytes
  abbrev finished : ℕ → ℕ → Fs → Fs
  finished fd length g = store_inodes sd (store_block_map sd (moved fd length g))

  do_write-finished :
      (fd length : ℕ) (buff table : Bytes) (f : Fs)
      → f.superblock ≡ new_superblock
      → (let d = f.fdesc_array fd in
          HasBlocks (f.inodes d.inode_num) (d.offset / 4096) ((d.offset + length + 4095) / 4096))
      → (f.fdesc_array fd).offset + length ≤ (f.inodes (f.fdesc_array fd).inode_num).size
      → (f.inodes (f.fdesc_array fd).inode_num).size < 2 ^ 31
      → (f.fdesc_array fd).offset + length ≤ 28672
      → (let d = f.fdesc_array fd in
          do_write sd fd buff length table f
          ≡ some (length, finished fd length (written d.inode_num d.offset length buff f).fs))
  unfolding do_write
  do_write-finished fd length buff table f s has_blocks h hs hd =
      let d = f.fdesc_array fd in
      let w = written-Written d.inode_num d.offset length buff f s has_blocks hd in
      let e = write_bytes-written d.inode_num d.offset length buff table f w.left in
      let kept =
        extend-kept d.inode_num (add_int d.offset length)
          (written d.inode_num d.offset length buff f).fs
          (ap (λ t. ltb (t d.inode_num).size (add_int d.offset length)) w.kept.inodes
            ∙ no_growth d.offset length (f.inodes d.inode_num).size h hs) in
      rw (in_int d.offset length (omega arith) (omega arith), e, kept) refl

  -- A write that does not grow the file, into direct blocks that exist and that the inode names once, on a disk that
  -- do_mkfs made, returns its length; the other direct blocks may be missing. From then on the file has the new bytes where they were written, and everywhere else in its direct
  -- blocks the old ones; the offset has moved behind them, and no inode has changed.
  pub do_write-file_byte :
      (fd length : ℕ) (buff table : Bytes) (f : Fs)
      → f.superblock ≡ new_superblock
      → (let d = f.fdesc_array fd in
          HasBlocks (f.inodes d.inode_num) (d.offset / 4096) ((d.offset + length + 4095) / 4096))
      → (f.fdesc_array fd).offset + length ≤ (f.inodes (f.fdesc_array fd).inode_num).size
      → (f.inodes (f.fdesc_array fd).inode_num).size < 2 ^ 31
      → (f.fdesc_array fd).offset + length ≤ 28672
      → (let d = f.fdesc_array fd in
          (g : Fs) × (do_write sd fd buff length table f ≡ some (length, g))
          × ((g.fdesc_array fd).offset ≡ d.offset + length)
          × (g.inodes ≡ f.inodes)
          × ((p : ℕ)
              → p < 28672
              → file_byte sd d.inode_num p g ≡ (
                  if leb d.offset p && ltb p (d.offset + length)
                  then buff (p - d.offset)
                  else file_byte sd d.inode_num p f)))
  unfolding store_inodes store_block_map load_block
  do_write-file_byte fd length buff table f s has_blocks h hs hd =
      let d = f.fdesc_array fd in
      let v = (written d.inode_num d.offset length buff f).fs in
      let w = written-Written d.inode_num d.offset length buff f s has_blocks hd in
      (
        finished fd length v,
        do_write-finished fd length buff table f s has_blocks h hs hd,
        ap (λ e. e.offset)
              (update_self v.fdesc_array fd
                (record (v.fdesc_array fd) { offset = add_int (v.fdesc_array fd).offset length }))
            ∙ ap (λ t. add_int (t fd).offset length) w.kept.fdesc_array
            ∙ (omega arith),
        w.kept.inodes,
        λ p hp.
            file_byte-direct_byte d.inode_num p (finished fd length v) hp
            ∙ stored_byte d.inode_num p (d.offset / 4096) ((d.offset + length + 4095) / 4096)
                (moved fd length v) (w.kept.superblock ∙ s)
                (subst
                  (λ t.
                    HasBlocks (t d.inode_num) (d.offset / 4096) ((d.offset + length + 4095) / 4096))
                  (sym w.kept.inodes) has_blocks)
                hp
            ∙ w.bytes p hp
            ∙ ap₂ (λ o x. if leb o p && ltb p (o + length) then buff (p - o) else x)
                (start d.offset) (sym (file_byte-direct_byte d.inode_num p f hp)),
      )
