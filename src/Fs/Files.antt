-- ===== src/Fs/Files.antt =====
-- do_open, do_close, do_lseek and do_ln of kernel/fs/fs.c.
use ucas_2024fall_oslab.Base.{
  ℕ, zero, suc, ◌+◌, ◌*◌, true, false, Option, none, some, List, ◌==◌, if◌then◌else◌, update,
  minus_one, ◌>>=◌, add_int, sub_int,
}
use ucas_2024fall_oslab.Fs.Layout.{
  Inode, Fdesc, Fs, Sd, block_bytes, num_fdescs, clear, change_inode, get_sec, set_sec,
  directory_sec_is_not_used, get_free_inode, get_free_block, load_a_data_block, store_a_data_block,
  store_inode_map, store_block_map, store_inodes,
}
use ucas_2024fall_oslab.Fs.Lookup.{Found, entry_inode, set_entry, entry_is, find_in}
use ucas_2024fall_oslab.Fs.Directory.{
  Slot, free, taken, full, SlotFound, open_mode, add_link, parent_of,
}

-- Where do_open's scan ends: the entry, the index of the sector, and the first empty entry with its sector.
pub record OpenFound : Type 0 where
  pub entry : Option ℕ
  pub index : ℕ
  pub empty : Option (ℕ × ℕ)
  pub fs : Fs

abbrev pub first_empty : ℕ → ℕ → Option (ℕ × ℕ) → Fs → Option (ℕ × ℕ)
first_empty i j (some e) f = some e
first_empty i j none f = if f.temp (32 * j) == 0 then some (i, j) else none

unfoldable pub scan_block : ℕ → ℕ → ℕ → List ℕ → Option (ℕ × ℕ) → Fs → Option ℕ × Option (ℕ × ℕ)
scan_block zero i j name empty f = (none, empty)
scan_block (suc n) i j name empty f = elim (entry_is j name f) [
  | true ↦ (some j, empty)
  | false ↦ scan_block n i (j + 1) name (first_empty i j empty f) f
]

-- do_ln's loop over the entries of a block, with the empty entry that it has seen
unfoldable pub find_link_slot : ℕ → ℕ → List ℕ → Option ℕ → Fs → Slot
find_link_slot zero j name none f = full
find_link_slot zero j name (some e) f = free e
find_link_slot (suc n) j name none f = elim (f.temp (32 * j) == 0) [
  | true ↦ find_link_slot n (j + 1) name (some j) f
  | false ↦ elim (entry_is j name f) [ true ↦ taken | false ↦ find_link_slot n (j + 1) name none f ]
]
find_link_slot (suc n) j name (some e) f = elim (entry_is j name f) [
  | true ↦ taken
  | false ↦ find_link_slot n (j + 1) name (some e) f
]

-- The first of `n` descriptors from `i` on that nothing uses, or the one behind them.
unfoldable pub free_fdesc : ℕ → ℕ → (ℕ → Fdesc) → ℕ
free_fdesc zero i table = i
free_fdesc (suc n) i table =
    let rest = free_fdesc n (i + 1) table in if (table i).ref_count == 0 then i else rest

-- do_open's loop over the descriptors, and its result
unfoldable pub take_fdesc : ℕ → ℕ → ℕ → Fs → ℕ × Fs
unfolding free_fdesc
take_fdesc mode inode dir f =
    let fd = free_fdesc num_fdescs 0 f.fdesc_array in
    if fd == num_fdescs then (fd, f) else (
      fd,
      record f {
        fdesc_array = update f.fdesc_array fd (record {
          mode = mode;
          offset = 0;
          inode_num = inode;
          follow_inode = dir;
          ref_count = 1;
        });
      },
    )

module _ (sd : Sd) where
  unfoldable pub scan_in : ℕ → ℕ → ℕ → List ℕ → Option (ℕ × ℕ) → Fs → OpenFound
  scan_in zero i dir name empty f = record { entry = none; index = i; empty = empty; fs = f }
  scan_in (suc n) i dir name empty f = elim (directory_sec_is_not_used dir i f) [
    | true ↦ record { entry = none; index = i; empty = empty; fs = f }
    | false ↦
        let g = load_a_data_block sd ((f.inodes dir).sec i) f in
        let (entry, seen) = scan_block 128 i 0 name empty g in
        elim entry [
          | some j ↦ record { entry = some j; index = i; empty = seen; fs = g }
          | none ↦ scan_in n (i + 1) dir name seen g
        ]
  ]

  -- a new inode's entry, in an empty entry or in a new sector: the inode, and the file system
  abbrev pub enter_file : List ℕ → ℕ → OpenFound → ℕ × Fs
  enter_file name dir r = elim (r.empty) [
    | some e ↦
        let sec = ((r.fs.inodes dir).sec e.0) in
        let (inode, g) = get_free_inode (load_a_data_block sd sec r.fs) in
        (inode, store_a_data_block sd sec (record g { temp = set_entry e.1 name inode g.temp }))
    | none ↦
        let (block, f) = get_free_block r.fs in
        let (inode, g) = get_free_inode (change_inode dir (set_sec r.index block) f) in
        (
          inode,
          store_a_data_block sd (get_sec (g.inodes dir) r.index)
              (record g { temp = set_entry 0 name inode (clear 0 block_bytes g.temp) }),
        )
  ]

  abbrev pub new_file : ℕ → Inode → Inode
  new_file dir n = record n {
    link = add_int n.link 1;
    parent_inode = dir;
    mode = open_mode;
    size = 0;
  }

  -- the inode to open, which is made where the scan has not found it
  abbrev pub open_or_create : List ℕ → ℕ → OpenFound → ℕ × Fs
  open_or_create name dir r = elim (r.entry) [
    | some j ↦ (entry_inode j r.fs.temp, r.fs)
    | none ↦ let (inode, g) = enter_file name dir r in (inode, change_inode inode (new_file dir) g)
  ]

  unfoldable pub open_file : List ℕ → ℕ → ℕ → Fs → ℕ × Fs
  open_file name mode dir f =
      let (inode, g) = open_or_create name dir (scan_in 8 0 dir name none f) in
      take_fdesc mode inode dir (store_inodes sd (store_inode_map sd g))

  -- do_open
  unfoldable pub do_open : List ℕ → ℕ → Fs → Option (ℕ × Fs)
  do_open path mode f = do
    (name, dir, g) ← parent_of sd path f
    some (if dir == minus_one then (minus_one, g) else open_file name mode dir g)

  -- do_ln's scan of the directory that the link goes to
  unfoldable pub find_link_slot_in : ℕ → ℕ → ℕ → List ℕ → Fs → SlotFound
  find_link_slot_in zero i dir name f = record { slot = full; index = i; fs = f }
  find_link_slot_in (suc n) i dir name f = elim (directory_sec_is_not_used dir i f) [
    | true ↦ record { slot = full; index = i; fs = f }
    | false ↦
        let g = load_a_data_block sd ((f.inodes dir).sec i) f in
        elim (find_link_slot 128 0 name none g) [
          | free j ↦ record { slot = free j; index = i; fs = g }
          | taken ↦ record { slot = taken; index = i; fs = g }
          | full ↦ find_link_slot_in n (i + 1) dir name g
        ]
  ]

  abbrev pub finish_ln : ℕ → ℕ → ℕ → Fs → ℕ × Fs
  finish_ln k dir inode f =
      let g = change_inode inode (add_link sd) f in
      let h = store_a_data_block sd (get_sec (g.inodes dir) k) g in
      (0, store_block_map sd (store_inodes sd (store_inode_map sd h)))

  unfoldable pub make_link : ℕ → List ℕ → ℕ → Fs → ℕ × Fs
  make_link inode name dir f =
      let r = find_link_slot_in 8 0 dir name f in
      let (block, g) = get_free_block r.fs in
      let grown = change_inode dir (λ n. add_link sd (set_sec r.index block n)) g in
      let loaded = load_a_data_block sd ((r.fs.inodes dir).sec r.index) r.fs in
      elim (r.slot) [
        | taken ↦ (sub_int 0 4, r.fs)
        | free j ↦
            finish_ln r.index dir inode
              (record loaded { temp = set_entry j name inode loaded.temp })
        | full ↦
            finish_ln r.index dir inode
              (record grown { temp = set_entry 0 name inode (clear 0 block_bytes grown.temp) })
      ]

  -- do_ln behind its search for the file
  abbrev pub link_to : ℕ → List ℕ → Fs → Option (ℕ × Fs)
  link_to inode path f = do
    (name, dir, g) ← parent_of sd path f
    some (if dir == minus_one then (sub_int 0 3, g) else make_link inode name dir g)

  abbrev pub link_found : Found → List ℕ → Option (ℕ × Fs)
  link_found r path = elim (r.entry) [
    | none ↦ some (sub_int 0 2, r.fs)
    | some j ↦ link_to (entry_inode j r.fs.temp) path r.fs
  ]

  -- do_ln
  unfoldable pub do_ln : List ℕ → List ℕ → Fs → Option (ℕ × Fs)
  do_ln source target f = do
    (name, dir, g) ← parent_of sd source f
    if dir == minus_one then some (minus_one, g) else link_found (find_in sd 8 0 dir name g) target

-- do_close
unfoldable pub do_close : ℕ → Fs → ℕ × Fs
do_close fd f =
    let d = f.fdesc_array fd in
    (
      0,
      record f {
        fdesc_array = update f.fdesc_array fd (record d { ref_count = sub_int d.ref_count 1 });
      },
    )

-- `whence`, with SEEK_SET 0, SEEK_CUR 1 and SEEK_END 2
abbrev pub seek : ℕ → ℕ → Fdesc → Fs → ℕ
seek offset whence d f =
    if whence == 0
    then offset
    else if whence == 1
    then add_int d.offset offset
    else if whence == 2
    then add_int (f.inodes d.inode_num).size offset
    else d.offset

-- do_lseek
unfoldable pub do_lseek : ℕ → ℕ → ℕ → Fs → ℕ × Fs
do_lseek fd offset whence f =
    let d = f.fdesc_array fd in
    (
      0,
      record f {
        fdesc_array = update f.fdesc_array fd (record d { offset = seek offset whence d f });
      },
    )
