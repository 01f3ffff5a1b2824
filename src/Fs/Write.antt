-- ===== src/Fs/Write.antt =====
-- do_write of kernel/fs/fs.c. The offset and the length are below 2 ^ 31; for a negative one the model has no result.
pub mod Direct
pub mod Overlay
pub mod Whole
use ucas_2024fall_oslab.Base.{
  ℕ, zero, suc, ◌+◌, ◌-◌, ◌*◌, ◌/◌, ◌%◌, ◌^◌, min, ◌&&◌, Option, none, some, ◌==◌, ltb, leb,
  if◌then◌else◌, update, sub_int, add_int, ◌>>=◌,
}
use ucas_2024fall_oslab.Fs.Layout.{
  Bytes, Inode, Fs, Sd, block_bytes, clear_temp, change_inode, set_sec, word_at, set_word,
  get_free_block, load_block, load_a_data_block, store_block_from, store_block_map, store_inodes,
}
use ucas_2024fall_oslab.Fs.Remove.{change_sizes, parent_fuel}

-- `memcpy(m + k, buff, n)`
abbrev pub copy_to : ℕ → ℕ → Bytes → Bytes → Bytes
copy_to k n buff m o = if leb k o && ltb o (k + n) then buff (o - k) else m o

-- `buff += n`
abbrev pub skip : ℕ → Bytes → Bytes
skip n buff o = buff (n + o)

abbrev pub zero_block : Bytes
zero_block o = 0

-- Where the loop over the direct blocks stands.
pub record Writing : Type 0 where
  pub block : ℕ
  pub offset : ℕ
  pub left : ℕ
  pub buff : Bytes
  pub fs : Fs

-- Where the loop over the other blocks stands: the indices on the two levels, the offset in the block, and the block
-- of the second level at TEMP2.
pub record Writing2 : Type 0 where
  pub i : ℕ
  pub j : ℕ
  pub k : ℕ
  pub left : ℕ
  pub buff : Bytes
  pub table : Bytes
  pub fs : Fs

abbrev pub add_size : ℕ → Inode → Inode
add_size s n = record n { size = add_int n.size s }

-- `do { inodes[it].size += s; it = inodes[it].parent_inode; } while (it != -1)` where the write ends behind the file
unfoldable pub extend_within : ℕ → ℕ → ℕ → Fs → Option Fs
extend_within rounds inode end f =
    let size = (f.inodes inode).size in
    let s = sub_int end size in
    let grown = do
      inodes ←
          change_sizes rounds (λ n. add_int n s) (f.inodes inode).parent_inode
            (update f.inodes inode (add_size s (f.inodes inode)))
      some (record f { inodes = inodes })
    in if ltb size end then grown else some f

-- the same with the rounds that are enough for every chain of parents without a cycle
unfoldable pub extend : ℕ → ℕ → Fs → Option Fs
unfolding extend_within
extend = extend_within parent_fuel

module _ (sd : Sd) where
  -- the block to write into, in TEMP4 where the file has one already
  unfoldable pub direct_block : ℕ → ℕ → Fs → Fs
  direct_block inode b f =
      let (block, g) = get_free_block f in
      let old = (f.inodes inode).sec b in
      if old == 0
      then change_inode inode (set_sec b block) g
      else record f { temp4 = load_block sd old f }

  abbrev pub direct_round : ℕ → Writing → Writing
  direct_round inode w =
      let f = direct_block inode w.block w.fs in
      let size = min (block_bytes - w.offset) w.left in
      let g = record f { temp4 = copy_to w.offset size w.buff f.temp4 } in
      record {
        block = w.block + 1;
        offset = 0;
        left = w.left - size;
        buff = skip size w.buff;
        fs = store_block_from sd ((g.inodes inode).sec w.block) g.temp4 g;
      }

  unfoldable pub write_direct : ℕ → ℕ → Writing → Writing
  write_direct zero inode w = w
  write_direct (suc n) inode w =
      let rest = write_direct n inode (direct_round inode w) in if w.left == 0 then w else rest

  -- the first-level word at TEMP, and the second level at TEMP2: the block, and the file system
  unfoldable pub first_level : ℕ → Bytes → Fs → Bytes × Fs
  first_level i table f =
      let (block, g) = get_free_block f in
      let first = word_at (4 * i) f.temp in
      if first == 0
      then (zero_block, record g { temp = set_word (4 * i) block g.temp })
      else (load_block sd first f, f)

  -- the second-level word, and the block at TEMP3
  unfoldable pub second_level : ℕ → Bytes → Fs → Bytes × Bytes × Fs
  second_level j table f =
      let (block, g) = get_free_block f in
      let second = word_at (4 * j) table in
      if second == 0
      then (set_word (4 * j) block table, zero_block, g)
      else (table, load_block sd second f, f)

  abbrev pub indirect_round : Writing2 → Writing2
  indirect_round w =
      let (fresh, f) = first_level w.i w.table w.fs in
      let (table, bytes, g) = second_level w.j fresh f in
      let size = min (block_bytes - w.k) w.left in
      let h = store_block_from sd (word_at (4 * w.j) table) (copy_to w.k size w.buff bytes) g in
      let wrap = w.j + 1 == 1024 in
      record {
        i = if wrap then w.i + 1 else w.i;
        j = if wrap then 0 else w.j + 1;
        k = 0;
        left = w.left - size;
        buff = skip size w.buff;
        table = table;
        fs = if wrap then store_block_from sd (word_at (4 * w.i) h.temp) table h else h;
      }

  -- the loop; a round takes a byte at least
  unfoldable pub write_indirect : ℕ → Writing2 → Writing2
  write_indirect zero w = w
  write_indirect (suc n) w =
      let rest = write_indirect n (indirect_round w) in if w.left == 0 then w else rest

  -- the indirect block, in TEMP
  unfoldable pub indirect_block : ℕ → Fs → Fs
  indirect_block inode f =
      let g = clear_temp f in
      let (block, h) = get_free_block g in
      let old = (f.inodes inode).sec 7 in
      if old == 0 then change_inode inode (set_sec 7 block) h else load_a_data_block sd old g

  -- the part of do_write behind the direct blocks; `table` is what TEMP2 holds
  unfoldable pub write_behind : ℕ → Bytes → Writing → Fs
  write_behind inode table w =
      let b = w.block - 7 in
      let r = write_indirect w.left (record {
        i = b / 1024;
        j = b % 1024;
        k = w.offset;
        left = w.left;
        buff = w.buff;
        table = table;
        fs = indirect_block inode w.fs;
      }) in
      let f = store_block_from sd (word_at (4 * r.i) r.fs.temp) r.table r.fs in
      if w.left == 0 then w.fs else store_block_from sd ((f.inodes inode).sec 7) f.temp f

  unfoldable pub write_bytes : ℕ → ℕ → ℕ → Bytes → Bytes → Fs → Fs
  write_bytes inode offset length buff table f = write_behind inode table (
      write_direct (7 - offset / block_bytes) inode (record {
        block = offset / block_bytes;
        offset = offset % block_bytes;
        left = length;
        buff = buff;
        fs = f;
      }))

  -- do_write: the length that it returns; `table` is what TEMP2 holds
  unfoldable pub do_write : ℕ → Bytes → ℕ → Bytes → Fs → Option (ℕ × Fs)
  do_write fd buff length table f =
      let d = f.fdesc_array fd in
      let written = do
        g ←
            extend d.inode_num (add_int d.offset length)
              (write_bytes d.inode_num d.offset length buff table f)
        let e = g.fdesc_array fd
        let h = record g {
          fdesc_array = update g.fdesc_array fd (record e { offset = add_int e.offset length });
        }
        some (length, store_inodes sd (store_block_map sd h))
      in if ltb d.offset (2 ^ 31) && ltb length (2 ^ 31) then written else none
