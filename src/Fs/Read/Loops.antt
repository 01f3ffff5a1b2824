-- ===== src/Fs/Read/Loops.antt =====
-- The loops of do_read in kernel/fs/fs.c read the bytes of the file.
use mathlib.Core.List.{append_assoc}
use ucas_2024fall_oslab.Base.{
  add_assoc, sym, ℕ, zero, suc, ◌+◌, ◌-◌, ◌*◌, ◌<◌, ◌≤◌, ◌≡◌, min, refl, List, ◌++◌, ◌==◌, arith,
  ap, ap₂, ◌∙◌, ◌⊎◌, inl, inr, Bool-cases,
}
use ucas_2024fall_oslab.Fs.Layout.{Fs, Sd, load_block, load_a_data_block, block_bytes}
use ucas_2024fall_oslab.Fs.Read.{Reading, slice, read_direct}
use ucas_2024fall_oslab.Fs.Read.Contents.{
  file_byte, file_bytes, file_bytes-append, slice-file_bytes, file_byte-direct,
}

-- What reading does not change.
pub record Same (f g : Fs) : Type 0 where
  pub superblock : g.superblock ≡ f.superblock
  pub disk : g.disk ≡ f.disk
  pub inodes : g.inodes ≡ f.inodes

abbrev pub same_refl : (f : Fs) → Same f f
same_refl f = record { superblock = refl; disk = refl; inodes = refl }

pub min_cases : (a b : ℕ) → ((min a b ≡ a) × (a ≤ b)) ⊎ ((min a b ≡ b) × (b ≤ a))
min_cases a b = ground arith

-- The part of `left` bytes that one step takes, and where the next one starts.
part_lem :
    (p q room left size : ℕ)
    → size ≡ min room left
    → p + room ≡ q
    → (left ≡ size + (left - size)) × ((left - size ≡ 0) ⊎ (p + size ≡ q))
part_lem p q room left size e h = elim (min_cases room left) [
  | inl (m, b) ↦ (omega arith, inr (omega arith))
  | inr (m, b) ↦ (omega arith, inl (omega arith))
]

module _ (sd : Sd) where
  pub load_block-Same : (b : ℕ) (f g : Fs) → Same f g → load_block sd b g ≡ load_block sd b f
  unfolding load_block
  load_block-Same b f g s = rw (s.superblock, s.disk) refl

  pub load-Same : (b : ℕ) (f g : Fs) → Same f g → Same f (load_a_data_block sd b g)
  unfolding load_a_data_block
  load-Same b f g s = record { superblock = s.superblock; disk = s.disk; inodes = s.inodes }

  -- The bytes of a step and those of the next steps are the bytes asked for.
  pub step_bytes :
      (inode p q room left size : ℕ) (f : Fs) (xs : List ℕ)
      → size ≡ min room left
      → p + room ≡ q
      → xs ≡ file_bytes sd inode p size f
      → xs ++ file_bytes sd inode q (left - size) f ≡ file_bytes sd inode p left f
  unfolding file_bytes
  step_bytes inode p q room left size f xs e h same =
      let (l, m) = part_lem p q room left size e h in
      ap₂ ◌++◌ same (next m)
      ∙ sym (file_bytes-append sd inode p size (left - size) f)
      ∙ ap (λ n. file_bytes sd inode p n f) (sym l)
    where
      next :
          (left - size ≡ 0) ⊎ (p + size ≡ q)
          → file_bytes sd inode q (left - size) f ≡ file_bytes sd inode (p + size) (left - size) f
      next (inl z) =
          ap (λ n. file_bytes sd inode q n f) z
          ∙ sym (ap (λ n. file_bytes sd inode (p + size) n f) z)
      next (inr z) = ap (λ n. file_bytes sd inode n (left - size) f) (sym z)

  -- What the loop over the direct blocks leaves.
  pub record Continues (inode : ℕ) (f : Fs) (r s : Reading) : Type 0 where
    pub bytes :
        s.buff ++ file_bytes sd inode (4096 * s.block + s.offset) s.left f
        ≡ r.buff ++ file_bytes sd inode (4096 * r.block + r.offset) r.left f
    pub inside : s.offset < 4096
    pub stop : (s.left ≡ 0) ⊎ (7 ≤ s.block)
    pub same : Same f s.fs

  -- one step of the loop
  abbrev direct_step : ℕ → Reading → Reading
  direct_step inode r =
      let f = load_a_data_block sd ((r.fs.inodes inode).sec r.block) r.fs in
      let size = min (block_bytes - r.offset) r.left in
      record {
        block = r.block + 1;
        offset = 0;
        left = r.left - size;
        buff = r.buff ++ slice f.temp r.offset size;
        fs = f;
      }

  direct_step-bytes :
      (inode : ℕ) (f : Fs) (r : Reading)
      → Same f r.fs
      → r.offset < 4096
      → r.block < 7
      → (let s = direct_step inode r in
          s.buff ++ file_bytes sd inode (4096 * s.block + s.offset) s.left f)
        ≡ r.buff ++ file_bytes sd inode (4096 * r.block + r.offset) r.left f
  unfolding load_a_data_block
  direct_step-bytes inode f r s ho hb =
      let size = min (block_bytes - r.offset) r.left in
      append_assoc r.buff _ _
      ∙ ap (λ xs. r.buff ++ xs)
          (step_bytes inode (4096 * r.block + r.offset) (4096 * (r.block + 1) + 0)
            (block_bytes - r.offset) r.left size f _ refl (omega arith)
            (slice-file_bytes sd inode (4096 * r.block + r.offset) r.offset size _ f byte))
    where
      byte :
          (t : ℕ)
          → t < min (block_bytes - r.offset) r.left
          → load_block sd ((r.fs.inodes inode).sec r.block) r.fs (r.offset + t)
            ≡ file_byte sd inode (4096 * r.block + r.offset + t) f
      byte t b = sym (
          ap (λ p. file_byte sd inode p f) (add_assoc (4096 * r.block) r.offset t)
          ∙ file_byte-direct sd inode r.block (r.offset + t) f hb (below b)
          ∙ ap (λ m. m (r.offset + t)) (sym (loaded)))
        where
          below : t < min (block_bytes - r.offset) r.left → r.offset + t < 4096
          below b = elim (min_cases (block_bytes - r.offset) r.left) [
            | inl (m, l) ↦ omega arith
            | inr (m, l) ↦ omega arith
          ]

          loaded :
              load_block sd ((r.fs.inodes inode).sec r.block) r.fs
              ≡ load_block sd ((f.inodes inode).sec r.block) f
          loaded = rw s.inodes (load_block-Same _ f r.fs s)

  pub read_direct-Continues :
      (n inode : ℕ) (f : Fs) (r : Reading)
      → Same f r.fs
      → r.offset < 4096
      → 7 ≤ r.block + n
      → n ≤ 7 - r.block
      → Continues inode f r (read_direct sd n inode r)
  unfolding read_direct load_a_data_block
  read_direct-Continues zero inode f r s ho hb hn = record {
    bytes = refl;
    inside = ho;
    stop = inr (omega arith);
    same = s;
  }
  read_direct-Continues (suc n) inode f r s ho hb hn = elim (Bool-cases (r.left == 0)) [
    | inl e ↦ rw e (record { bytes = refl; inside = ho; stop = inl (ground arith); same = s })
    | inr e ↦ rw e (
        let c =
          read_direct-Continues n inode f (direct_step inode r) (load-Same _ f r.fs s) (omega arith)
            (omega arith) (omega arith) in
        record {
          bytes = c.bytes ∙ direct_step-bytes inode f r s ho (omega arith);
          inside = c.inside;
          stop = c.stop;
          same = c.same;
        })
  ]
