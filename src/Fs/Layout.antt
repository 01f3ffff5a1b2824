-- ===== src/Fs/Layout.antt =====
-- The data of include/os/fs.h and what kernel/fs/fs.c keeps in memory and on the disk. A block, and every
-- other piece of memory, is the function that gives its bytes by their offset; words are little-endian.
use ucas_2024fall_oslab.Base.{
  ℕ, ◌+◌, ◌*◌, ◌/◌, ◌%◌, ◌^◌, Bool, not, ◌&&◌, Option, none, some, ◌==◌, ltb, update, if◌then◌else◌,
  minus_one, ◌-◌, ◌||◌, add_int, div_int, leb,
}
use ucas_2024fall_oslab.Mm.{find_free}

abbrev pub Bytes : Type 0
Bytes = ℕ → ℕ

pub record Superblock : Type 0 where
  pub magic : ℕ
  pub fs_size : ℕ
  pub fs_start_sec : ℕ
  pub block_size : ℕ
  pub block_map_offset : ℕ
  pub inode_map_offset : ℕ
  pub inode_size : ℕ
  pub dentry_size : ℕ
  pub inode_offset : ℕ
  pub data_offset : ℕ

pub record Inode : Type 0 where
  pub mode : ℕ
  pub size : ℕ
  pub link : ℕ
  pub sec : ℕ → ℕ
  pub parent_inode : ℕ

pub record Fdesc : Type 0 where
  pub mode : ℕ
  pub offset : ℕ
  pub inode_num : ℕ
  pub follow_inode : ℕ
  pub ref_count : ℕ

-- `disk` gives the bytes of each sector; `after_superblock` is what stands behind `superblock` in memory.
pub record Fs : Type 0 where
  pub superblock : Superblock
  pub after_superblock : Bytes
  pub inode_map : Bytes
  pub block_map : Bytes
  pub inodes : ℕ → Inode
  pub fdesc_array : ℕ → Fdesc
  pub current_inode : ℕ
  -- TEMP, which is `indirect_pointer` too
  pub temp : Bytes
  pub temp4 : Bytes
  pub disk : ℕ → Bytes

-- The firmware's disk: number of sectors, first sector.
pub record Sd : Type 0 where
  pub sd_read : ℕ → ℕ → (ℕ → Bytes) → Bytes
  pub sd_write : ℕ → ℕ → Bytes → (ℕ → Bytes) → ℕ → Bytes
  -- what sd_read returns
  pub sd_status : ℕ → ℕ → (ℕ → Bytes) → ℕ

abbrev pub superblock_magic : ℕ
superblock_magic = 0xdf4c4459

abbrev pub inode_num_max : ℕ
inode_num_max = 2048

abbrev pub num_fdescs : ℕ
num_fdescs = 16

abbrev pub start_sec : ℕ
start_sec = 2 ^ 20

abbrev pub block_bytes : ℕ
block_bytes = 4096

abbrev pub block_map_size : ℕ
block_map_size = 2 ^ 17

-- `BLOCK_MAP_SIZE/SEC_SIZE`: the macro has no parentheses, so that it reads `1<<(17/SEC_SIZE)`.
abbrev pub block_map_sectors : ℕ
block_map_sectors = 2 ^ (17 / 512)

-- the byte `n` of a word
abbrev pub byte_of : ℕ → ℕ → ℕ
byte_of w n =
    if n == 0
    then w % 256
    else if n == 1
    then w / 256 % 256
    else if n == 2
    then w / 65536 % 256
    else w / 16777216 % 256

-- the word at an offset
abbrev pub word_at : ℕ → Bytes → ℕ
word_at a m = m a + 256 * m (a + 1) + 65536 * m (a + 2) + 16777216 * m (a + 3)

abbrev pub set_word : ℕ → ℕ → Bytes → Bytes
set_word a w m =
    update (update (update (update m a (byte_of w 0)) (a + 1) (byte_of w 1)) (a + 2) (byte_of w 2))
      (a + 3) (byte_of w 3)

abbrev pub superblock_word : Superblock → ℕ → ℕ
superblock_word s n =
    if n == 0
    then s.magic
    else if n == 1
    then s.fs_size
    else if n == 2
    then s.fs_start_sec
    else if n == 3
    then s.block_size
    else if n == 4
    then s.block_map_offset
    else if n == 5
    then s.inode_map_offset
    else if n == 6
    then s.inode_size
    else if n == 7
    then s.dentry_size
    else if n == 8
    then s.inode_offset
    else s.data_offset

-- the struct as it stands in memory, with what follows it
abbrev pub superblock_bytes : Superblock → Bytes → Bytes
superblock_bytes s rest o = if ltb o 40 then byte_of (superblock_word s (o / 4)) (o % 4) else rest o

abbrev pub superblock_of : Bytes → Superblock
superblock_of m = record {
  magic = word_at 0 m;
  fs_size = word_at 4 m;
  fs_start_sec = word_at 8 m;
  block_size = word_at 12 m;
  block_map_offset = word_at 16 m;
  inode_map_offset = word_at 20 m;
  inode_size = word_at 24 m;
  dentry_size = word_at 28 m;
  inode_offset = word_at 32 m;
  data_offset = word_at 36 m;
}

-- An inode is twelve words.
abbrev pub inode_word : Inode → ℕ → ℕ
inode_word i n =
    if n == 0
    then i.mode
    else if n == 1
    then i.size
    else if n == 2
    then i.link
    else if n == 11
    then i.parent_inode
    else i.sec (n - 3)

abbrev pub inodes_bytes : (ℕ → Inode) → Bytes
inodes_bytes t o = byte_of (inode_word (t (o / 48)) (o % 48 / 4)) (o % 4)

abbrev pub inode_of : Bytes → ℕ → Inode
inode_of m n = record {
  mode = word_at (48 * n) m;
  size = word_at (48 * n + 4) m;
  link = word_at (48 * n + 8) m;
  sec = λ i. word_at (48 * n + 12 + 4 * i) m;
  parent_inode = word_at (48 * n + 44) m;
}

-- get_start_sec
unfoldable pub get_start_sec : Superblock → ℕ → ℕ
get_start_sec s offset = add_int s.fs_start_sec (div_int offset 512)

abbrev pub block_sec : Superblock → ℕ → ℕ
block_sec s block = get_start_sec s (add_int s.data_offset (block * block_bytes))

-- `a[i]` from the first `n` bytes of `m`, and from `a` behind them: what a read into `a` leaves.
abbrev pub prefix_of : ℕ → Bytes → Bytes → Bytes
prefix_of n m a o = if ltb o n then m o else a o

module _ (sd : Sd) where
  unfoldable pub store_superblock : Fs → Fs
  unfolding get_start_sec
  store_superblock f = record f {
    disk =
        sd.sd_write 1 (get_start_sec f.superblock 0)
          (superblock_bytes f.superblock f.after_superblock) f.disk;
  }

  unfoldable pub load_superblock : Fs → Fs
  load_superblock f =
      let m = prefix_of 512 (sd.sd_read 1 start_sec f.disk) f.temp in
      record f { temp = m; superblock = superblock_of m }

  unfoldable pub store_inode_map : Fs → Fs
  unfolding get_start_sec
  store_inode_map f = record f {
    disk =
        sd.sd_write 4 (get_start_sec f.superblock f.superblock.inode_map_offset) f.inode_map f.disk;
  }

  unfoldable pub load_inode_map : Fs → Fs
  unfolding get_start_sec
  load_inode_map f = record f {
    inode_map =
        prefix_of 2048
          (sd.sd_read 4 (get_start_sec f.superblock f.superblock.inode_map_offset) f.disk)
          f.inode_map;
  }

  unfoldable pub store_block_map : Fs → Fs
  unfolding get_start_sec
  store_block_map f = record f {
    disk =
        sd.sd_write block_map_sectors (get_start_sec f.superblock f.superblock.block_map_offset)
          f.block_map f.disk;
  }

  unfoldable pub load_block_map : Fs → Fs
  unfolding get_start_sec
  load_block_map f = record f {
    block_map =
        prefix_of (512 * block_map_sectors)
          (sd.sd_read block_map_sectors (get_start_sec f.superblock f.superblock.block_map_offset)
            f.disk)
          f.block_map;
  }

  unfoldable pub store_inodes : Fs → Fs
  unfolding get_start_sec
  store_inodes f = record f {
    disk =
        sd.sd_write 192 (get_start_sec f.superblock f.superblock.inode_offset)
          (inodes_bytes f.inodes) f.disk;
  }

  unfoldable pub load_inodes : Fs → Fs
  unfolding get_start_sec
  load_inodes f =
      let m = sd.sd_read 192 (get_start_sec f.superblock f.superblock.inode_offset) f.disk in
      record f { inodes = λ n. if ltb n inode_num_max then inode_of m n else f.inodes n }

  -- store_a_data_block_from, and store_a_data_block with the bytes at TEMP
  unfoldable pub store_block_from : ℕ → Bytes → Fs → Fs
  unfolding get_start_sec
  store_block_from block m f = record f {
    disk = sd.sd_write 8 (block_sec f.superblock block) m f.disk;
  }

  unfoldable pub store_a_data_block : ℕ → Fs → Fs
  unfolding store_block_from
  store_a_data_block block f = store_block_from block f.temp f

  -- load_a_data_block_to: the bytes that it reads
  unfoldable pub load_block : ℕ → Fs → Bytes
  unfolding get_start_sec
  load_block block f = sd.sd_read 8 (block_sec f.superblock block) f.disk

  unfoldable pub load_a_data_block : ℕ → Fs → Fs
  unfolding load_block
  load_a_data_block block f = record f { temp = load_block block f }

-- `sec[i]`; the word behind `sec[7]` is `parent_inode`.
abbrev pub get_sec : Inode → ℕ → ℕ
get_sec n i = if i == 8 then n.parent_inode else n.sec i

abbrev pub set_sec : ℕ → ℕ → Inode → Inode
set_sec i b n =
    if i == 8 then record n { parent_inode = b } else record n { sec = update n.sec i b }

abbrev pub change_inode : ℕ → (Inode → Inode) → Fs → Fs
change_inode n g f = record f { inodes = update f.inodes n (g (f.inodes n)) }

-- directory_sec_is_not_used
unfoldable pub directory_sec_is_not_used : ℕ → ℕ → Fs → Bool
directory_sec_is_not_used n i f = ((f.inodes n).sec i == 0) && (not (n == 0) || ltb 0 i)

-- inode_valid
unfoldable pub inode_valid : ℕ → Fs → Bool
inode_valid n f = not (f.inode_map n == 0)

abbrev pub mark_taken : Option ℕ → Bytes → ℕ × Bytes
mark_taken none map = (minus_one, map)
mark_taken (some i) map = (i, update map i 1)

-- get_free_inode
unfoldable pub get_free_inode : Fs → ℕ × Fs
get_free_inode f =
    let (i, map) = mark_taken (find_free inode_num_max 0 f.inode_map) f.inode_map in
    (i, record f { inode_map = map })

-- get_free_block
unfoldable pub get_free_block : Fs → ℕ × Fs
get_free_block f =
    let (i, map) = mark_taken (find_free block_map_size 0 f.block_map) f.block_map in
    (i, record f { block_map = map })

-- memset on a part of memory
abbrev pub clear : ℕ → ℕ → Bytes → Bytes
clear a n m o = if leb a o && ltb o (a + n) then 0 else m o

-- `memset(TEMP, 0, BLOCK_SIZE)`
abbrev pub clear_temp : Fs → Fs
clear_temp f = record f { temp = clear 0 block_bytes f.temp }
