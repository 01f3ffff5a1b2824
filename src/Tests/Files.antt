-- ===== src/Tests/Files.antt =====
-- The file system on a small disk, which does what the firmware's disk is taken to do.
use ucas_2024fall_oslab.Base.{
  ℕ, ◌+◌, ◌-◌, ◌*◌, ◌/◌, ◌%◌, ◌<◌, ◌≤◌, ◌≡◌, ◌⊎◌, refl, inl, inr, true, false, ◌&&◌, none, some, [],
  ◌∷◌, ltb, leb, arith, ap, if◌then◌else◌, ◌==◌, min, update, minus_one, add_int, sub_int,
}
use ucas_2024fall_oslab.Fs.Layout.{Inode, Fs, Sd, superblock_of}
use ucas_2024fall_oslab.Fs.Paths.{slash, seperate_parent, tokens}
use ucas_2024fall_oslab.Fs.Names.{seperate_parent-split}
use ucas_2024fall_oslab.Fs.Lookup.{parse_path, walk, first_inode}
use ucas_2024fall_oslab.Fs.Walk.{parse_path-walk}
use ucas_2024fall_oslab.Fs.Setup.{
  new_superblock, formatted, first_sector, do_mkfs, init_fs, no_fdesc,
}
use ucas_2024fall_oslab.Fs.Format.{SdLaws, Restored, do_mkfs-Restored}
use ucas_2024fall_oslab.Fs.Read.{do_read}
use ucas_2024fall_oslab.Fs.Read.Contents.{file_bytes}
use ucas_2024fall_oslab.Fs.Read.Loops.{Same}
use ucas_2024fall_oslab.Fs.Read.Whole.{do_read-file_bytes}
use ucas_2024fall_oslab.Fs.Write.{extend, extend_within, do_write}
use ucas_2024fall_oslab.Fs.Write.Direct.{HasBlocks}
use ucas_2024fall_oslab.Fs.Write.Whole.{do_write-file_byte}
use ucas_2024fall_oslab.Fs.Read.Contents.{file_byte}
use ucas_2024fall_oslab.Fs.Parents.{top, below, resized_on, extend-Ancestors, extend-self_parent}

-- A disk in memory.
abbrev ram : Sd
ram = record {
  sd_read = λ n s d o. d (s + o / 512) (o % 512);
  sd_write = λ n s m d t o. if leb s t && ltb t (s + n) then m (512 * (t - s) + o) else d t o;
  sd_status = λ n s d. 0;
}

quotient : (n o : ℕ) → o < 512 * n → o / 512 < n
quotient n o h = omega arith

sector_outside :
    (n s n' s' o : ℕ)
    → (s + n ≤ s') ⊎ (s' + n' ≤ s)
    → o < 512 * n'
    → (leb s (s' + o / 512) && ltb (s' + o / 512) (s + n)) ≡ false
sector_outside n s n' s' o (inl a) h = ground (arith, quotient n' o h)
sector_outside n s n' s' o (inr a) h = ground (arith, quotient n' o h)

sector_inside :
    (n s o : ℕ) → o < 512 * n → (leb s (s + o / 512) && ltb (s + o / 512) (s + n)) ≡ true
sector_inside n s o h = ground (arith, quotient n o h)

ram-SdLaws : SdLaws ram
ram-SdLaws = record {
  same = λ n s o m d h. rw (sector_inside n s o h) (ap m (omega arith));
  other = λ n s n' s' o m d apart h. rw (sector_outside n s n' s' o apart h) refl;
}

abbrev no_inode : Inode
no_inode = record { mode = 0; size = 0; link = 0; sec = λ i. 0; parent_inode = minus_one }

abbrev blank : Fs
blank = record {
  superblock = superblock_of (λ o. 0);
  after_superblock = λ o. 0;
  inode_map = λ o. 0;
  block_map = λ o. 0;
  inodes = λ n. no_inode;
  fdesc_array = λ i. no_fdesc;
  current_inode = 0;
  temp = λ o. 0;
  temp4 = λ o. 0;
  disk = λ s o. 0;
}

abbrev restarted : Fs
restarted = record blank { disk = (do_mkfs ram blank).1.disk; current_inode = 7 }

do_mkfs-Restored_example :
    ((do_mkfs ram blank).0 ≡ 0)
    × Restored (formatted (first_sector ram blank)) restarted (init_fs ram restarted)
do_mkfs-Restored_example =
    do_mkfs-Restored ram ram-SdLaws blank restarted refl (λ e. ground arith) refl

-- "a/b" and its parts
seperate_parent-split_example : seperate_parent (97 ∷ slash ∷ 98 ∷ []) ≡ some (97 ∷ [], 98 ∷ [])
seperate_parent-split_example = seperate_parent-split (97 ∷ []) (98 ∷ []) refl

parse_path-walk_example :
    parse_path ram (slash ∷ 97 ∷ slash ∷ 98 ∷ []) blank
    ≡ some (
        walk ram
          (first_inode ram (slash ∷ 97 ∷ slash ∷ 98 ∷ []) blank)
          (tokens (slash ∷ 97 ∷ slash ∷ 98 ∷ []))
          blank)
parse_path-walk_example = parse_path-walk ram (slash ∷ 97 ∷ slash ∷ 98 ∷ []) blank

-- A file of ten bytes, open at its third one.
abbrev one_file : Fs
one_file = record blank {
  inodes = update blank.inodes 5 (record no_inode { size = 10; sec = λ i. i + 1 });
  fdesc_array =
      update blank.fdesc_array 3 (record no_fdesc { inode_num = 5; offset = 2; ref_count = 1 });
  disk = λ s o. (s + o) % 256;
}

do_read-file_bytes_example :
    (g : Fs) × (do_read ram 3 5 one_file
      ≡ some (min 5 (10 - 2), file_bytes ram 5 2 (min 5 (10 - 2)) one_file, g))
    × ((g.fdesc_array 3).offset ≡ 2 + min 5 (10 - 2))
    × Same one_file g
do_read-file_bytes_example =
    do_read-file_bytes ram 3 5 one_file (omega arith) (omega arith) (omega arith)

-- Writing three bytes at its offset, where only its first block exists.
abbrev writable : Fs
writable = record one_file {
  superblock = new_superblock;
  inodes =
      update blank.inodes 5 (record no_inode { size = 10; sec = λ i. if i == 0 then 1 else 0 });
}

writable-HasBlocks : HasBlocks (writable.inodes 5) 0 1
writable-HasBlocks = record {
  used = λ b l h. ground arith;
  small = λ b h. ground arith;
  distinct = λ a b l h h7 n. ground arith;
}

do_write-file_byte_example :
    (g : Fs) × (do_write ram 3 (λ i. 65 + i) 3 (λ i. 0) writable ≡ some (3, g))
    × ((g.fdesc_array 3).offset ≡ 2 + 3)
    × (g.inodes ≡ writable.inodes)
    × ((p : ℕ)
        → p < 28672
        → file_byte ram 5 p g
          ≡ (if leb 2 p && ltb p (2 + 3) then 65 + (p - 2) else file_byte ram 5 p writable))
do_write-file_byte_example =
    do_write-file_byte ram ram-SdLaws 3 3 (λ i. 65 + i) (λ i. 0) writable refl writable-HasBlocks
      (omega arith) (omega arith) (omega arith)

-- A file in a directory that is its own parent, and one in the root.
abbrev looping : Fs
looping = record blank {
  inodes =
      update (update blank.inodes 1 (record no_inode { parent_inode = 1 })) 5
        (record no_inode { parent_inode = 1 });
}

extend-self_parent_example : extend_within 5000 5 4096 looping ≡ none
extend-self_parent_example =
    extend-self_parent 5000 5 1 4096 looping (λ e. omega arith) (λ e. omega arith) refl refl refl

-- A file in the root.
abbrev rooted : Fs
rooted = record blank { inodes = update (λ n. no_inode) 5 (record no_inode { parent_inode = 0 }) }

extend-Ancestors_example :
    (g : Fs) × (extend 5 4096 rooted ≡ some g)
    × (g ≡ record rooted { inodes = g.inodes })
    × ((m : ℕ)
        → g.inodes m ≡ resized_on (λ n. add_int n (sub_int 4096 0)) (5 ∷ 0 ∷ []) rooted.inodes m)
extend-Ancestors_example =
    extend-Ancestors 5 4096 (0 ∷ []) rooted refl (below 0 [] (λ e. omega arith) refl top)
      (λ x h. ground arith) refl
