-- ===== src/Fs/Lookup.antt =====
-- parse_path of kernel/fs/fs.c, and the scans of a directory that its callers share. TEMP holds the directory's block:
-- 128 entries of 32 bytes, a name and the number of an inode.
use ucas_2024fall_oslab.Base.{
  ℕ, zero, suc, ◌+◌, ◌*◌, Bool, true, false, ◌&&◌, Option, none, some, List, [], ◌∷◌, ◌==◌,
  if◌then◌else◌, length, get_or, minus_one,
}
use ucas_2024fall_oslab.Fs.Layout.{
  Bytes, Fs, Sd, word_at, set_word, directory_sec_is_not_used, inode_valid, load_a_data_block,
}
use ucas_2024fall_oslab.Fs.Paths.{slash, split_path, same_string, put_string}

-- `de[j].inode_num`
abbrev pub entry_inode : ℕ → Bytes → ℕ
entry_inode j m = word_at (32 * j + 28) m

-- `strcpy(de[j].name, name); de[j].inode_num = inode`
abbrev pub set_entry : ℕ → List ℕ → ℕ → Bytes → Bytes
set_entry j name inode m = set_word (32 * j + 28) inode (put_string name (32 * j) m)

-- `inode_valid(de[j].inode_num) && strcmp(de[j].name, name) == 0`
abbrev pub entry_is : ℕ → List ℕ → Fs → Bool
entry_is j name f = inode_valid (entry_inode j f.temp) f && same_string name (32 * j) f.temp

-- The first of `n` entries from `j` on that has the name.
unfoldable pub find_entry : ℕ → ℕ → List ℕ → Fs → Option ℕ
find_entry zero j name f = none
find_entry (suc n) j name f = elim (entry_is j name f) [
  | true ↦ some j
  | false ↦ find_entry n (j + 1) name f
]

-- Where a scan ends: the entry that it found, and the index of the sector.
pub record Found : Type 0 where
  pub entry : Option ℕ
  pub index : ℕ
  pub fs : Fs

module _ (sd : Sd) where
  -- `for (; rounds; i++)` over the sectors of directory `dir`
  unfoldable pub find_in : ℕ → ℕ → ℕ → List ℕ → Fs → Found
  find_in zero i dir name f = record { entry = none; index = i; fs = f }
  find_in (suc n) i dir name f = elim (directory_sec_is_not_used dir i f) [
    | true ↦ record { entry = none; index = i; fs = f }
    | false ↦
        let g = load_a_data_block sd ((f.inodes dir).sec i) f in
        elim (find_entry 128 0 name g) [
          | some j ↦ record { entry = some j; index = i; fs = g }
          | none ↦ find_in n (i + 1) dir name g
        ]
  ]

  -- The loop of parse_path with the token and `last` that split_path left; `none` is a loop that has not ended.
  unfoldable pub follow_path : ℕ → ℕ → Option (List ℕ) × Option (List ℕ) → Fs → Option (ℕ × Fs)
  follow_path n dir (none, last) f = some (dir, f)
  follow_path zero dir (some token, last) f = none
  follow_path (suc n) dir (some token, last) f =
      let r = find_in 8 0 dir token f in
      elim (r.entry) [
        | none ↦ some (minus_one, r.fs)
        | some j ↦ follow_path n (entry_inode j r.fs.temp) (split_path none last) r.fs
      ]

  abbrev pub first_inode : List ℕ → Fs → ℕ
  first_inode path f = if get_or path 0 0 == slash then 0 else f.current_inode

  -- parse_path
  unfoldable pub parse_path : List ℕ → Fs → Option (ℕ × Fs)
  parse_path path f =
      follow_path (length path + 1) (first_inode path f) (split_path (some path) none) f

  -- The path as the list of its parts: the inode at its end, or -1.
  unfoldable pub walk : ℕ → List (List ℕ) → Fs → ℕ × Fs
  walk dir [] f = (dir, f)
  walk dir (token ∷ ts) f =
      let r = find_in 8 0 dir token f in
      elim (r.entry) [ none ↦ (minus_one, r.fs) | some j ↦ walk (entry_inode j r.fs.temp) ts r.fs ]
