-- ===== src/Fs/Read.antt =====
-- do_read of kernel/fs/fs.c. The offset and the length are below 2 ^ 31; for a negative one the model has no result.
pub mod Contents
pub mod Loops
pub mod Indirect
pub mod Whole
use ucas_2024fall_oslab.Base.{
  ℕ, zero, suc, ◌+◌, ◌-◌, ◌*◌, ◌/◌, ◌%◌, ◌^◌, min, Bool, true, false, ◌&&◌, Option, none, some,
  List, [], ◌∷◌, ◌++◌, ◌==◌, ltb, leb, if◌then◌else◌, update, sub_int, add_int,
}
use ucas_2024fall_oslab.Fs.Layout.{
  Bytes, Fs, Sd, block_bytes, word_at, load_block, load_a_data_block,
}

-- `memcpy(buff, m + k, n)`, as the bytes that it puts into the buffer
abbrev pub slice : Bytes → ℕ → ℕ → List ℕ
slice m k zero = []
slice m k (suc n) = m k ∷ slice m (k + 1) n

-- `memset(buff, 0, n)`
abbrev pub zeros : ℕ → List ℕ
zeros zero = []
zeros (suc n) = 0 ∷ zeros n

-- Where do_read stands: the block and the offset in it, what is left to read, and the buffer so far.
pub record Reading : Type 0 where
  pub block : ℕ
  pub offset : ℕ
  pub left : ℕ
  pub buff : List ℕ
  pub fs : Fs

module _ (sd : Sd) where
  -- the loop over the direct blocks, of which `n` are left
  unfoldable pub read_direct : ℕ → ℕ → Reading → Reading
  read_direct zero inode r = r
  read_direct (suc n) inode r =
      let f = load_a_data_block sd ((r.fs.inodes inode).sec r.block) r.fs in
      let size = min (block_bytes - r.offset) r.left in
      let rest = read_direct n inode (record {
        block = r.block + 1;
        offset = 0;
        left = r.left - size;
        buff = r.buff ++ slice f.temp r.offset size;
        fs = f;
      }) in
      if r.left == 0 then r else rest

  -- the loop over the blocks behind the indirect one, whose words are in TEMP: `i` and `j` are the indices on the
  -- two levels, `k` the offset in the block
  unfoldable pub read_indirect : ℕ → ℕ → ℕ → ℕ → ℕ → Fs → List ℕ
  read_indirect zero i j k size f = []
  read_indirect (suc n) i j k size f =
      let first = word_at (4 * i) f.temp in
      let table = load_block sd first f in
      let second = word_at (4 * j) table in
      let hole = min (block_bytes * 1024 - k - j * block_bytes) size in
      let part = min (block_bytes - k) size in
      let next_i = if j + 1 == 1024 then i + 1 else i in
      let next_j = if j + 1 == 1024 then 0 else j + 1 in
      let over_hole = zeros hole ++ read_indirect n (i + 1) 0 0 (size - hole) f in
      let over_part =
        (if second == 0 then zeros part else slice (load_block sd second f) k part)
        ++ read_indirect n next_i next_j 0 (size - part) f in
      if size == 0 then [] else if first == 0 then over_hole else over_part

  -- the bytes that do_read puts into the buffer, and the file system that it leaves
  unfoldable pub read_bytes : ℕ → ℕ → ℕ → Fs → List ℕ × Fs
  read_bytes inode offset length f =
      let r = read_direct (7 - offset / block_bytes) inode (record {
        block = offset / block_bytes;
        offset = offset % block_bytes;
        left = length;
        buff = [];
        fs = f;
      }) in
      let g = load_a_data_block sd ((r.fs.inodes inode).sec 7) r.fs in
      let b = r.block - 7 in
      (r.buff ++ read_indirect r.left (b / 1024) (b % 1024) r.offset r.left g, g)

  -- `if (length >= size - offset) length = size - offset`, in unsigned arithmetic
  abbrev pub read_length : ℕ → ℕ → ℕ → ℕ
  read_length size offset length =
      let rest = sub_int size offset in if leb rest length then rest else length

  -- do_read: the length that it returns, and the bytes in the buffer
  unfoldable pub do_read : ℕ → ℕ → Fs → Option (ℕ × List ℕ × Fs)
  do_read fd length f =
      let d = f.fdesc_array fd in
      let n = read_length (f.inodes d.inode_num).size d.offset length in
      let (bytes, g) = read_bytes d.inode_num d.offset n f in
      if ltb d.offset (2 ^ 31) && ltb length (2 ^ 31)
      then some (
        n,
        bytes,
        record g {
          fdesc_array = update g.fdesc_array fd (record d { offset = add_int d.offset n });
        },
      )
      else none
