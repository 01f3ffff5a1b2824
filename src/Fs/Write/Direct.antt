-- ===== src/Fs/Write/Direct.antt =====
-- The loop of do_write in kernel/fs/fs.c over direct blocks that a file has.
use ucas_2024fall_oslab.Base.{
  Bool, ℕ, zero, suc, ◌+◌, ◌-◌, ◌*◌, ◌/◌, ◌%◌, ◌^◌, ◌<◌, ◌≤◌, ◌≡◌, ◌≢◌, ◌⊎◌, inl, inr, refl, false,
  ◌&&◌, ◌==◌, leb, ltb, min, arith, ap, ap₂, ◌∙◌, sym, if◌then◌else◌, Bool-cases, ==_of_ne, subst,
  add_int, div_int, ne_of_==, eq_of_==,
}
use ucas_2024fall_oslab.Fs.Layout.{
  Inode, Fs, Sd, block_bytes, block_sec, get_start_sec, load_block, store_block_from,
}
use ucas_2024fall_oslab.Fs.Setup.{new_superblock}
use ucas_2024fall_oslab.Fs.Format.{SdLaws}
use ucas_2024fall_oslab.Fs.Read.Loops.{min_cases}
use ucas_2024fall_oslab.Fs.Write.Overlay.{
  next_fits, copy_none, part_le, part_next, overlay_step, copy_to-ext,
}
use ucas_2024fall_oslab.Fs.Write.{Writing, copy_to, direct_block, direct_round, write_direct}

-- The block's first sector, for a block that the disk has.
div_small : (a b : ℕ) → a < 2 ^ 31 → div_int a b ≡ a / b
div_small a b h = ground arith

pub block_sec-new : (b : ℕ) → b < 2 ^ 17 → block_sec new_superblock b ≡ 2 ^ 20 + 453 + 8 * b
unfolding get_start_sec
block_sec-new b h =
    ap (add_int new_superblock.fs_start_sec) (div_small _ 512 (omega arith)) ∙ (omega arith)

apart :
    (a b : ℕ)
    → a ≢ b
    → (2 ^ 20 + 453 + 8 * a + 8 ≤ 2 ^ 20 + 453 + 8 * b)
      ⊎ (2 ^ 20 + 453 + 8 * b + 8 ≤ 2 ^ 20 + 453 + 8 * a)
apart a b h = elim (Bool-cases (ltb a b)) [
  | inl e ↦ inl (ground arith)
  | inr e ↦ inr (ground arith)
]

-- A part of a block, as seen from the block and from the file.
quotient : (p b o n : ℕ) → n ≤ 4096 - o → 4096 * b + o ≤ p → p < 4096 * b + o + n → p / 4096 ≡ b
quotient p b o n hn l h = omega arith

split_at : (p b : ℕ) → p / 4096 ≡ b → p ≡ 4096 * b + p % 4096
split_at p b e = omega arith

window_outside :
    (p b o n : ℕ)
    → o < 4096
    → n ≤ 4096 - o
    → p / 4096 ≢ b
    → (leb (4096 * b + o) p && ltb p (4096 * b + o + n)) ≡ false
window_outside p b o n ho hn ne =
    elim (Bool-cases (leb (4096 * b + o) p && ltb p (4096 * b + o + n))) [
      | inl e ↦ absurd (ne (quotient p b o n hn (ground arith) (ground arith)))
      | inr e ↦ e
    ]

window_same :
    (p b o n : ℕ)
    → p / 4096 ≡ b
    → (leb o (p % 4096) && ltb (p % 4096) (o + n))
      ≡ (leb (4096 * b + o) p && ltb p (4096 * b + o + n))
window_same p b o n e = ground (arith, split_at p b e)

-- The direct blocks of an inode are on the disk; those from `lo` to before `hi` exist, and each of them differs from all
-- the others, of which any may be missing (0).
pub record HasBlocks (n : Inode) (lo hi : ℕ) : Type 0 where
  pub used : (b : ℕ) → lo ≤ b → b < hi → n.sec b ≢ 0
  pub small : (b : ℕ) → b < 7 → n.sec b < 2 ^ 17
  pub distinct : (a b : ℕ) → lo ≤ a → a < hi → b < 7 → a ≢ b → n.sec a ≢ n.sec b

-- What a write to the blocks of an inode keeps.
pub record Kept (f g : Fs) : Type 0 where
  pub superblock : g.superblock ≡ f.superblock
  pub inodes : g.inodes ≡ f.inodes
  pub fdesc_array : g.fdesc_array ≡ f.fdesc_array
  pub block_map : g.block_map ≡ f.block_map

module _ (sd : Sd) (laws : SdLaws sd) (inode : ℕ) where
  -- the byte at a position of the direct blocks
  abbrev pub direct_byte : Fs → ℕ → ℕ
  direct_byte f p = load_block sd ((f.inodes inode).sec (p / 4096)) f (p % 4096)

  -- the bytes of a block after a round that wrote into block `b`
  module _ (w : Writing) (s : w.fs.superblock ≡ new_superblock) (lo hi : ℕ)
      (has_blocks : HasBlocks (w.fs.inodes inode) lo hi) (hl : lo ≤ w.block) (hh : w.block < hi)
      (hb : w.block < 7) where
    abbrev size : ℕ
    size = min (block_bytes - w.offset) w.left

    abbrev old : ℕ
    old = (w.fs.inodes inode).sec w.block

    round-Kept : Kept w.fs (direct_round sd inode w).fs
    unfolding direct_block store_block_from
    round-Kept =
        rw (==_of_ne old 0 (has_blocks.used w.block hl hh))
          (record { superblock = refl; inodes = refl; fdesc_array = refl; block_map = refl })

    round-same :
        (o : ℕ)
        → o < 4096
        → load_block sd old (direct_round sd inode w).fs o
          ≡ copy_to w.offset size w.buff (load_block sd old w.fs) o
    unfolding direct_block store_block_from load_block
    round-same o h =
        rw (==_of_ne old 0 (has_blocks.used w.block hl hh)) (laws.same 8 _ o _ _ (omega arith))

    round-other :
        (b o : ℕ)
        → b < 7
        → b ≢ w.block
        → o < 4096
        → load_block sd ((w.fs.inodes inode).sec b) (direct_round sd inode w).fs o
          ≡ load_block sd ((w.fs.inodes inode).sec b) w.fs o
    unfolding direct_block store_block_from load_block
    round-other b o h ne ho = rw (==_of_ne old 0 (has_blocks.used w.block hl hh)) (
        laws.other 8 _ 8 _ o _ _
          (rw s (
            rw
              (
                block_sec-new old (has_blocks.small w.block hb),
                block_sec-new ((w.fs.inodes inode).sec b) (has_blocks.small b h),
              )
              (apart old ((w.fs.inodes inode).sec b)
                (λ e. has_blocks.distinct w.block b hl hh h (λ p. ne (sym p)) e))))
          (omega arith))

    round_byte :
        w.offset < 4096
        → (p : ℕ) → p < 28672
        → direct_byte (direct_round sd inode w).fs p
          ≡ copy_to (4096 * w.block + w.offset) size w.buff (direct_byte w.fs) p
    round_byte ho p hp =
        ap
          (λ (t : ℕ → Inode).
            load_block sd ((t inode).sec (p / 4096)) (direct_round sd inode w).fs (p % 4096))
          round-Kept.inodes
        ∙ elim (Bool-cases (p / 4096 == w.block)) [
          | inl e ↦ in_block (eq_of_== _ _ e)
          | inr e ↦
              round-other (p / 4096) (p % 4096) (omega arith) (ne_of_== _ _ e) (omega arith)
              ∙ sym (
                  ap
                    (λ (t : Bool).
                      if t then w.buff (p - (4096 * w.block + w.offset)) else direct_byte w.fs p)
                    (outside (ne_of_== _ _ e)))
        ]
      where
        size_le : size ≤ 4096 - w.offset
        size_le = elim (min_cases (block_bytes - w.offset) w.left) [
          | inl (m, l) ↦ omega arith
          | inr (m, l) ↦ omega arith
        ]

        outside :
            p / 4096 ≢ w.block
            → (leb (4096 * w.block + w.offset) p && ltb p (4096 * w.block + w.offset + size))
              ≡ false
        outside ne = window_outside p w.block w.offset size ho size_le ne

        in_block :
            p / 4096 ≡ w.block
            → load_block sd
                ((w.fs.inodes inode).sec (p / 4096))
                (direct_round sd inode w).fs
                (p % 4096)
              ≡ copy_to (4096 * w.block + w.offset) size w.buff (direct_byte w.fs) p
        in_block e =
            ap
              (λ b.
                load_block sd ((w.fs.inodes inode).sec b) (direct_round sd inode w).fs (p % 4096))
              e
            ∙ round-same (p % 4096) (omega arith)
            ∙ ap₂ (λ (t : Bool) x. if t then x else load_block sd old w.fs (p % 4096))
                (window_same p w.block w.offset size e) (ap w.buff (omega arith))
            ∙ ap
                (λ b.
                  if leb (4096 * w.block + w.offset) p && ltb p (4096 * w.block + w.offset + size)
                  then w.buff (p - (4096 * w.block + w.offset))
                  else load_block sd ((w.fs.inodes inode).sec b) w.fs (p % 4096))
                (sym e)

module _ (sd : Sd) (laws : SdLaws sd) (inode : ℕ) where
  -- What the loop leaves: everything is written.
  pub record Written (w w' : Writing) : Type 0 where
    pub left : w'.left ≡ 0
    pub kept : Kept w.fs w'.fs
    pub bytes :
        (p : ℕ)
        → p < 28672
        → direct_byte sd laws inode w'.fs p
          ≡ copy_to (4096 * w.block + w.offset) w.left w.buff (direct_byte sd laws inode w.fs) p

  pub write_direct-Written :
      (n lo hi : ℕ) (w : Writing)
      → w.fs.superblock ≡ new_superblock
      → HasBlocks (w.fs.inodes inode) lo hi
      → lo ≤ w.block
      → hi ≤ 7
      → w.offset < 4096
      → w.block + n ≡ 7
      → 4096 * w.block + w.offset + w.left ≤ 4096 * hi
      → Written w (write_direct sd n inode w)
  unfolding write_direct
  write_direct-Written zero lo hi w s has_blocks hl h7 ho hn hb = record {
    left = omega arith;
    kept = record { superblock = refl; inodes = refl; fdesc_array = refl; block_map = refl };
    bytes = λ p hp. copy_none _ w.left p w.buff (direct_byte sd laws inode w.fs) (omega arith);
  }
  write_direct-Written (suc n) lo hi w s has_blocks hl h7 ho hn hb =
      elim (Bool-cases (w.left == 0)) [
        | inl e ↦ rw e (record {
          left = eq_of_== _ _ e;
          kept = record { superblock = refl; inodes = refl; fdesc_array = refl; block_map = refl };
          bytes =
              λ p hp. copy_none _ w.left p w.buff (direct_byte sd laws inode w.fs) (eq_of_== _ _ e);
        })
        | inr e ↦ rw e (
            let within : w.block < hi = omega (arith, ne_of_== _ _ e) in
            let k = round-Kept sd laws inode w s lo hi has_blocks hl within (omega arith) in
            let v = direct_round sd inode w in
            let r =
              write_direct-Written n lo hi v (k.superblock ∙ s)
                (subst (λ (t : ℕ → Inode). HasBlocks (t inode) lo hi) (sym k.inodes) has_blocks)
                (omega arith) h7 (omega arith) (omega arith)
                (next_fits w.block w.offset w.left _ hi within
                  (min_cases (block_bytes - w.offset) w.left) hb) in
            record {
              left = r.left;
              kept = record {
                superblock = r.kept.superblock ∙ k.superblock;
                inodes = r.kept.inodes ∙ k.inodes;
                fdesc_array = r.kept.fdesc_array ∙ k.fdesc_array;
                block_map = r.kept.block_map ∙ k.block_map;
              };
              bytes = λ p hp.
                  r.bytes p hp
                  ∙ copy_to-ext _ _ p v.buff (direct_byte sd laws inode v.fs)
                      (copy_to (4096 * w.block + w.offset) (min (block_bytes - w.offset) w.left)
                        w.buff (direct_byte sd laws inode w.fs))
                      (round_byte sd laws inode w s lo hi has_blocks hl within (omega arith) ho p
                        hp)
                  ∙ overlay_step (4096 * w.block + w.offset) _ _ w.left p w.buff
                      (direct_byte sd laws inode w.fs) (part_le (block_bytes - w.offset) w.left)
                      (part_next w.block w.offset w.left ho);
            })
      ]
