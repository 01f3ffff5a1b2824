-- ===== src/Fs/Directory.antt =====
-- do_mkdir, do_rmdir and do_ls of kernel/fs/fs.c.
use ucas_2024fall_oslab.Base.{
  ℕ, zero, suc, ◌+◌, ◌-◌, ◌*◌, true, false, ◌&&◌, not, Option, none, some, List, [], ◌∷◌, ◌==◌,
  if◌then◌else◌, update, minus_one, ◌>>=◌, add_int, sub_int, ◌++◌,
}
use ucas_2024fall_oslab.Fs.Layout.{
  Bytes, Inode, Fs, Sd, block_bytes, clear, change_inode, get_sec, set_sec,
  directory_sec_is_not_used, inode_valid, get_free_inode, get_free_block, load_a_data_block,
  store_a_data_block, store_inode_map, store_block_map, store_inodes,
}
use ucas_2024fall_oslab.Fs.Paths.{seperate_parent, string_at}
use ucas_2024fall_oslab.Fs.Lookup.{Found, entry_inode, set_entry, entry_is, find_in, parse_path}
use ucas_2024fall_oslab.Fs.Setup.{dot, dot_dot}

-- `OWNER_READ | OWNER_WRITE | OWNER_EXEC | GROUP_READ | GROUP_EXEC | OTHER_READ | OTHER_EXEC`
abbrev pub open_mode : ℕ
open_mode = 256 + 128 + 64 + 32 + 8 + 4 + 1

-- What do_mkdir's loop over the entries of a block comes to.
pub data Slot : Type 0 where
  free : ℕ → Slot
  taken : Slot
  full : Slot

unfoldable pub find_slot : ℕ → ℕ → List ℕ → Fs → Slot
find_slot zero j name f = full
find_slot (suc n) j name f = elim (f.temp (32 * j) == 0) [
  | true ↦ free j
  | false ↦ elim (entry_is j name f) [ true ↦ taken | false ↦ find_slot n (j + 1) name f ]
]

pub record SlotFound : Type 0 where
  pub slot : Slot
  pub index : ℕ
  pub fs : Fs

-- `if (sec[i] != 0) block_map[sec[i]] = 0` for `n` of an inode's blocks
unfoldable pub free_secs : ℕ → ℕ → Inode → Bytes → Bytes
free_secs zero i node map = map
free_secs (suc n) i node map =
    free_secs n (i + 1) node (if node.sec i == 0 then map else update map (node.sec i) 0)

-- A line of do_ls: the inode, the sector and entry that it stands in, and the name.
pub record Line : Type 0 where
  pub inode : ℕ
  pub index : ℕ
  pub entry : ℕ
  pub name : List ℕ

unfoldable pub list_block : ℕ → ℕ → ℕ → Fs → List Line
list_block zero i j f = []
list_block (suc n) i j f =
    let rest = list_block n i (j + 1) f in
    if not (f.temp (32 * j) == 0) && inode_valid (entry_inode j f.temp) f
    then record {
      inode = entry_inode j f.temp;
      index = i;
      entry = j;
      name = string_at (32 * (128 - j)) (32 * j) f.temp;
    }
      ∷ rest
    else rest

module _ (sd : Sd) where
  -- do_mkdir's scan of the directory
  unfoldable pub find_slot_in : ℕ → ℕ → ℕ → List ℕ → Fs → SlotFound
  find_slot_in zero i dir name f = record { slot = full; index = i; fs = f }
  find_slot_in (suc n) i dir name f = elim (directory_sec_is_not_used dir i f) [
    | true ↦ record { slot = full; index = i; fs = f }
    | false ↦
        let g = load_a_data_block sd ((f.inodes dir).sec i) f in
        elim (find_slot 128 0 name g) [
          | free j ↦ record { slot = free j; index = i; fs = g }
          | taken ↦ record { slot = taken; index = i; fs = g }
          | full ↦ find_slot_in n (i + 1) dir name g
        ]
  ]

  -- the new directory's inode
  abbrev pub new_directory : ℕ → Inode → Inode
  new_directory dir n = record n { mode = open_mode; size = 0; parent_inode = dir; link = 2 }

  abbrev pub add_link : Inode → Inode
  add_link n = record n { link = add_int n.link 1 }

  abbrev pub use_slot : ℕ → List ℕ → ℕ → ℕ → Fs → Fs
  use_slot j name dir inode f =
      change_inode dir add_link (record f { temp = set_entry j name inode f.temp })

  -- a new sector for the directory's entries
  abbrev pub grow_directory : ℕ → List ℕ → ℕ → ℕ → Fs → Fs
  grow_directory i name dir inode f =
      let (block, g) = get_free_block f in
      let h =
        change_inode dir
          (λ n. add_link (record (set_sec i block n) {
            size = add_int (set_sec i block n).size block_bytes;
            parent_inode = dir;
          }))
          g in
      record h { temp = set_entry 0 name inode (clear 0 block_bytes h.temp) }

  -- the entries "." and ".." in a block of their own
  abbrev pub first_block : ℕ → ℕ → Fs → Fs
  first_block dir inode f =
      let (block, g) = get_free_block f in
      let h = change_inode inode (set_sec 0 block) g in
      store_a_data_block sd block (record h {
        temp = set_entry 1 dot_dot dir (set_entry 0 dot inode (clear 0 block_bytes h.temp));
      })

  abbrev pub store_maps : Fs → Fs
  store_maps f = store_inodes sd (store_inode_map sd (store_block_map sd f))

  -- what do_mkdir does once its entry is in TEMP, for sector `i` of `dir`
  abbrev pub finish_mkdir : ℕ → ℕ → ℕ → Fs → ℕ × Fs
  finish_mkdir i dir inode f =
      (0, store_maps (first_block dir inode (store_a_data_block sd (get_sec (f.inodes dir) i) f)))

  unfoldable pub make_directory : List ℕ → ℕ → Fs → ℕ × Fs
  make_directory name dir f =
      let (inode, g) = get_free_inode f in
      let r = find_slot_in 8 0 dir name (change_inode inode (new_directory dir) g) in
      elim (r.slot) [
        | taken ↦ (sub_int 0 2, r.fs)
        | free j ↦ finish_mkdir r.index dir inode (use_slot j name dir inode r.fs)
        | full ↦ finish_mkdir r.index dir inode (grow_directory r.index name dir inode r.fs)
      ]

  -- The directory that a path stands in and the name there; `none` is the empty path, in front of which the code reads.
  abbrev pub parent_of : List ℕ → Fs → Option (List ℕ × ℕ × Fs)
  parent_of path f = do
    (parent, name) ← seperate_parent path
    (dir, g) ← parse_path sd parent f
    some (name, dir, g)

  -- do_mkdir
  unfoldable pub do_mkdir : List ℕ → Fs → Option (ℕ × Fs)
  do_mkdir path f = do
    (name, dir, g) ← parent_of path f
    some (if dir == minus_one then (minus_one, g) else make_directory name dir g)

  -- The entry is cleared, and its inode is the one to remove; `garbage` is what the variable holds if none is found.
  abbrev pub drop_entry : Found → ℕ → ℕ × Fs
  drop_entry r garbage = elim (r.entry) [
    | none ↦ (garbage, r.fs)
    | some j ↦ (entry_inode j r.fs.temp, record r.fs { temp = clear (32 * j) 32 r.fs.temp })
  ]

  -- do_rmdir's end: the inode loses its links, and its blocks when none is left.
  abbrev pub unlink_directory : ℕ → Fs → Fs
  unlink_directory inode f =
      let g = change_inode inode (λ n. record n { link = sub_int n.link 2 }) f in
      if (g.inodes inode).link == 0
      then record g {
        inode_map = update g.inode_map inode 0;
        block_map = free_secs 8 0 (g.inodes inode) g.block_map;
      }
      else g

  unfoldable pub remove_directory : ℕ → List ℕ → ℕ → Fs → ℕ × Fs
  remove_directory garbage name dir f =
      let r = find_in sd 8 0 dir name f in
      let (inode, g) = drop_entry r garbage in
      let h = store_a_data_block sd (get_sec (g.inodes dir) r.index) g in
      let l =
        unlink_directory inode (change_inode dir (λ n. record n { link = sub_int n.link 1 }) h) in
      (0, store_block_map sd (store_inodes sd (store_inode_map sd l)))

  -- do_rmdir
  unfoldable pub do_rmdir : ℕ → List ℕ → Fs → Option (ℕ × Fs)
  do_rmdir garbage path f = do
    (name, dir, g) ← parent_of path f
    some (if dir == minus_one then (minus_one, g) else remove_directory garbage name dir g)

  unfoldable pub list_in : ℕ → ℕ → ℕ → Fs → List Line × Fs
  list_in zero i dir f = ([], f)
  list_in (suc n) i dir f = elim (directory_sec_is_not_used dir i f) [
    | true ↦ ([], f)
    | false ↦
        let g = load_a_data_block sd ((f.inodes dir).sec i) f in
        let (rest, h) = list_in n (i + 1) dir g in (list_block 128 i 0 g ++ rest, h)
  ]

  -- do_ls: what it returns, and the lines that it prints behind the heading
  unfoldable pub do_ls : List ℕ → Fs → Option (ℕ × List Line × Fs)
  do_ls path f = do
    (dir, g) ← parse_path sd path f
    let (lines, h) = list_in 8 0 dir g
    some (0, lines, h)
