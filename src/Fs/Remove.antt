-- ===== src/Fs/Remove.antt =====
-- do_rm of kernel/fs/fs.c, and the loops that carry a change of size up to the parents.
use ucas_2024fall_oslab.Base.{
  ℕ, zero, suc, ◌+◌, ◌*◌, Option, none, some, List, ◌==◌, if◌then◌else◌, update, minus_one, ◌>>=◌,
  sub_int,
}
use ucas_2024fall_oslab.Fs.Layout.{
  Bytes, Inode, Fs, Sd, change_inode, get_sec, word_at, load_block, load_a_data_block,
  store_a_data_block, store_inode_map, store_block_map, store_inodes,
}
use ucas_2024fall_oslab.Fs.Lookup.{find_in}
use ucas_2024fall_oslab.Fs.Directory.{free_secs, parent_of, drop_entry}

-- `while (it != -1) { change the size of it; it = inodes[it].parent_inode; }`; `none` is a loop that has not ended.
unfoldable pub change_sizes : ℕ → (ℕ → ℕ) → ℕ → (ℕ → Inode) → Option (ℕ → Inode)
change_sizes zero change it inodes = if it == minus_one then some inodes else none
change_sizes (suc n) change it inodes =
    let rest =
      change_sizes n change (inodes it).parent_inode
        (update inodes it (record (inodes it) { size = change (inodes it).size })) in
    if it == minus_one then some inodes else rest

-- `if (indirect_pointer1[j] != 0) block_map[indirect_pointer1[j]] = 0` for `n` words of a block
unfoldable pub free_words : ℕ → ℕ → Bytes → Bytes → Bytes
free_words zero j block map = map
free_words (suc n) j block map =
    let w = word_at (4 * j) block in
    free_words n (j + 1) block (if w == 0 then map else update map w 0)

-- the rounds that are enough for every chain of parents without a cycle
abbrev pub parent_fuel : ℕ
parent_fuel = 2048

module _ (sd : Sd) where
  -- the loop over the first-level block in TEMP
  unfoldable pub free_indirect : ℕ → ℕ → Fs → Bytes → Bytes
  free_indirect zero i f map = map
  free_indirect (suc n) i f map =
      let w = word_at (4 * i) f.temp in
      free_indirect n (i + 1) f
        (if w == 0 then map else update (free_words 1024 0 (load_block sd w f) map) w 0)

  -- the blocks of a removed file
  unfoldable pub free_file : ℕ → Fs → Fs
  free_file inode f =
      let node = f.inodes inode in
      let g = record f {
        inode_map = update f.inode_map inode 0;
        block_map = free_secs 7 0 node f.block_map;
      } in
      let h = load_a_data_block sd (node.sec 7) g in
      if node.sec 7 == 0
      then g
      else record h { block_map = update (free_indirect 1024 0 h h.block_map) (node.sec 7) 0 }

  unfoldable pub unlink_file : ℕ → Fs → Option Fs
  unlink_file inode f =
      let g = change_inode inode (λ n. record n { link = sub_int n.link 1 }) f in
      let h = free_file inode g in
      let node = h.inodes inode in
      let resized = do
        inodes ← change_sizes parent_fuel (λ s. sub_int s node.size) node.parent_inode h.inodes
        some (record h { inodes = inodes })
      in if (g.inodes inode).link == 0 then resized else some g

  unfoldable pub remove_file : ℕ → List ℕ → ℕ → Fs → Option (ℕ × Fs)
  remove_file garbage name dir f =
      let r = find_in sd 8 0 dir name f in
      let (inode, g) = drop_entry sd r garbage in
      do
        h ← unlink_file inode (store_a_data_block sd (get_sec (g.inodes dir) r.index) g)
        some (0, store_block_map sd (store_inodes sd (store_inode_map sd h)))

  -- do_rm; `garbage` is what `inode_to_remove` holds if nothing has the name
  unfoldable pub do_rm : ℕ → List ℕ → Fs → Option (ℕ × Fs)
  do_rm garbage path f = do
    (name, dir, g) ← parent_of sd path f
    if dir == minus_one then some (minus_one, g) else remove_file garbage name dir g
