-- ===== src/Fs/Setup.antt =====
-- do_mkfs, do_statfs, init_fs and do_cd of kernel/fs/fs.c.
use ucas_2024fall_oslab.Base.{
  ltb, ℕ, ◌+◌, ◌*◌, ◌^◌, Option, some, List, [], ◌∷◌, ◌==◌, not, if◌then◌else◌, update, minus_one,
  ◌>>=◌, sub_int, ◌/◌,
}
use ucas_2024fall_oslab.Fs.Layout.{
  Superblock, Inode, Fdesc, Fs, Sd, prefix_of, superblock_of, superblock_magic, inode_num_max,
  num_fdescs, start_sec, block_bytes, block_map_size, clear, store_superblock, load_superblock,
  store_inode_map, load_inode_map, store_block_map, load_block_map, store_inodes, load_inodes,
  store_a_data_block,
}
use ucas_2024fall_oslab.Fs.Lookup.{set_entry, parse_path}

-- the superblock that do_mkfs fills in
abbrev pub new_superblock : Superblock
new_superblock = record {
  magic = superblock_magic;
  fs_size = 2 ^ 29;
  fs_start_sec = start_sec;
  block_size = block_bytes;
  block_map_offset = 512 + inode_num_max + 48 * inode_num_max;
  inode_map_offset = 512;
  inode_size = 48;
  dentry_size = 32;
  inode_offset = 512 + inode_num_max;
  data_offset = 512 + inode_num_max + 48 * inode_num_max + 2 ^ 29 / block_bytes;
}

-- `OWNER_READ | OWNER_WRITE | GROUP_READ | OTHER_READ`
abbrev pub root_mode : ℕ
root_mode = 256 + 128 + 32 + 4

abbrev pub root_inode : Inode → Inode
root_inode n = record n {
  mode = root_mode;
  size = 0;
  link = 1;
  sec = update n.sec 0 0;
  parent_inode = minus_one;
}

abbrev pub dot : List ℕ
dot = 46 ∷ []

abbrev pub dot_dot : List ℕ
dot_dot = 46 ∷ 46 ∷ []

-- what do_mkfs has in memory before it stores it
abbrev pub formatted : Fs → Fs
formatted f = record f {
  superblock = new_superblock;
  block_map = update (clear 0 block_map_size f.block_map) 0 1;
  inode_map = update (clear 0 inode_num_max f.inode_map) 0 1;
  inodes = update f.inodes 0 (root_inode (f.inodes 0));
  current_inode = 0;
  temp = set_entry 0 dot 0 (clear 0 block_bytes f.temp);
}

abbrev pub no_fdesc : Fdesc
no_fdesc = record { mode = 0; offset = 0; inode_num = 0; follow_inode = 0; ref_count = 0 }

module _ (sd : Sd) where
  abbrev pub first_sector : Fs → Fs
  first_sector f = record f { temp = prefix_of 512 (sd.sd_read 1 start_sec f.disk) f.temp }

  -- do_mkfs
  unfoldable pub do_mkfs : Fs → ℕ × Fs
  do_mkfs f =
      let g = first_sector f in
      let h = record g { superblock = superblock_of g.temp } in
      if not (sd.sd_status 1 start_sec f.disk == 0)
      then (minus_one, g)
      else if h.superblock.magic == superblock_magic
      then (sub_int 0 2, h)
      else (
        0,
        store_a_data_block sd 0 (
            store_inodes sd
              (store_block_map sd (store_inode_map sd (store_superblock sd (formatted g))))),
      )

  -- do_statfs: what it returns, and the numbers that it prints
  unfoldable pub do_statfs : Fs → ℕ × List ℕ × Fs
  do_statfs f =
      let g = load_superblock sd f in
      let s = g.superblock in
      if not (s.magic == superblock_magic) then (minus_one, [], g) else (
        0,
        s.fs_size ∷ s.block_size ∷ s.inode_size ∷ inode_num_max ∷ s.block_map_offset
            ∷ s.inode_map_offset ∷ s.data_offset ∷ s.dentry_size ∷ 0 ∷ [],
        g,
      )

  -- init_fs
  unfoldable pub init_fs : Fs → ℕ × Fs
  init_fs f =
      let l = load_superblock sd f in
      let g = record l {
        fdesc_array = λ i. if ltb i num_fdescs then no_fdesc else f.fdesc_array i;
      } in
      if not (g.superblock.magic == superblock_magic) then (minus_one, g) else (
        0,
        load_inodes sd (load_block_map sd (load_inode_map sd (record g { current_inode = 0 }))),
      )

  -- do_cd
  unfoldable pub do_cd : List ℕ → Fs → Option (ℕ × Fs)
  do_cd path f = do
    (inode, g) ← parse_path sd path f
    some (inode, record g { current_inode = inode })
