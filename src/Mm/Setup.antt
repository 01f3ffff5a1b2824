-- ===== src/Mm/Setup.antt =====
-- init_mm and share_pgtable of kernel/mm/mm.c.
use ucas_2024fall_oslab.Base.{
  ℕ, zero, suc, ◌+◌, ◌*◌, ◌≤◌, ◌<◌, ◌≡◌, ◌⊎◌, refl, inl, inr, arith, ◌==◌, Bool-cases, eq_of_==,
  ne_of_==, ap, ◌∙◌, update, subst, false,
}
use ucas_2024fall_oslab.State.{Kernel}
use ucas_2024fall_oslab.Mm.{mem_page_num, pgt_page_num, swap_info_num}
use ucas_2024fall_oslab.Mm.Free.{no_swap}

-- `for (; n rounds; i++) a[i] = v;`
unfoldable pub fill_from : {A : Type 0} → ℕ → ℕ → A → (ℕ → A) → ℕ → A
fill_from zero i v a = a
fill_from (suc n) i v a = fill_from n (i + 1) v (update a i v)

-- init_mm
unfoldable pub init_mm : Kernel → Kernel
init_mm k = record k {
  free_mem_map = fill_from mem_page_num 0 0 k.free_mem_map;
  va_info = fill_from mem_page_num 0 0 k.va_info;
  free_pgt_map = fill_from pgt_page_num 0 0 k.free_pgt_map;
  swap_info = fill_from swap_info_num 0 no_swap k.swap_info;
}

-- the loop of share_pgtable: the rest of the table, entry by entry
unfoldable pub share_from : ℕ → ℕ → ℕ → (ℕ → ℕ) → ℕ → ℕ
share_from zero dest src w = w
share_from (suc n) dest src w = share_from n (dest + 8) (src + 8) (update w dest (w src))

-- share_pgtable
unfoldable pub share_pgtable : ℕ → ℕ → (ℕ → ℕ) → ℕ → ℕ
share_pgtable dest src w = share_from 512 dest src w

module _ {A : Type 0} (v : A) where
  fill_from_outside :
      (n i : ℕ) (a : ℕ → A) (j : ℕ) → (j < i) ⊎ (i + n ≤ j) → fill_from n i v a j ≡ a j
  unfolding fill_from
  fill_from_outside zero i a j h = refl
  fill_from_outside (suc n) i a j h =
      fill_from_outside n (i + 1) (update a i v) j (next h) ∙ rw (apart h) refl
    where
      next : (j < i) ⊎ (i + suc n ≤ j) → (j < i + 1) ⊎ (i + 1 + n ≤ j)
      next (inl x) = inl (omega arith)
      next (inr x) = inr (omega arith)

      apart : (j < i) ⊎ (i + suc n ≤ j) → (j == i) ≡ false
      apart (inl x) = ground arith
      apart (inr x) = ground arith

  fill_from_inside : (n i : ℕ) (a : ℕ → A) (j : ℕ) → i ≤ j → j < i + n → fill_from n i v a j ≡ v
  unfolding fill_from
  fill_from_inside zero i a j x y = absurd (omega arith)
  fill_from_inside (suc n) i a j x y = elim (Bool-cases (j == i)) [
    | inl e ↦
        fill_from_outside n (i + 1) (update a i v) j (inl (omega (arith, eq_of_== j i e)))
        ∙ rw e refl
    | inr e ↦
        fill_from_inside n (i + 1) (update a i v) j (omega (arith, ne_of_== j i e)) (omega arith)
  ]

-- After init_mm every page, page table and swap entry is free, no page has a virtual address, and nothing
-- else of the kernel has changed.
pub init_mm-free :
    (k : Kernel)
    → let k' = init_mm k in
      ((j : ℕ) → j < mem_page_num → (k'.free_mem_map j ≡ 0) × (k'.va_info j ≡ 0))
      × ((j : ℕ) → j < pgt_page_num → k'.free_pgt_map j ≡ 0)
      × ((j : ℕ) → j < swap_info_num → k'.swap_info j ≡ no_swap)
      × (k' ≡ record k {
        free_mem_map = k'.free_mem_map;
        va_info = k'.va_info;
        free_pgt_map = k'.free_pgt_map;
        swap_info = k'.swap_info;
      })
unfolding init_mm
init_mm-free k = (
  (λ j h. (
    fill_from_inside 0 mem_page_num 0 k.free_mem_map j (omega arith) (omega arith),
    fill_from_inside 0 mem_page_num 0 k.va_info j (omega arith) (omega arith),
  )),
  (λ j h. fill_from_inside 0 pgt_page_num 0 k.free_pgt_map j (omega arith) (omega arith)),
  (λ j h. fill_from_inside no_swap swap_info_num 0 k.swap_info j (omega arith) (omega arith)),
  refl,
)

-- The two tables of `n` entries have no word in common.
abbrev Apart : ℕ → ℕ → ℕ → Type 0
Apart n dest src = (dest + 8 * n ≤ src) ⊎ (src + 8 * n ≤ dest)

share_from_outside :
    (n dest src : ℕ) (w : ℕ → ℕ) (a : ℕ)
    → (a < dest) ⊎ (dest + 8 * n ≤ a)
    → share_from n dest src w a ≡ w a
unfolding share_from
share_from_outside zero dest src w a h = refl
share_from_outside (suc n) dest src w a h =
    share_from_outside n (dest + 8) (src + 8) (update w dest (w src)) a (next h) ∙ rw (other h) refl
  where
    next : (a < dest) ⊎ (dest + 8 * suc n ≤ a) → (a < dest + 8) ⊎ (dest + 8 + 8 * n ≤ a)
    next (inl x) = inl (omega arith)
    next (inr x) = inr (omega arith)

    other : (a < dest) ⊎ (dest + 8 * suc n ≤ a) → (a == dest) ≡ false
    other (inl x) = ground arith
    other (inr x) = ground arith

share_from_entry :
    (n dest src : ℕ) (w : ℕ → ℕ)
    → Apart n dest src
    → (i : ℕ) → i < n
    → share_from n dest src w (dest + 8 * i) ≡ w (src + 8 * i)
unfolding share_from
share_from_entry zero dest src w apart i h = absurd (omega arith)
share_from_entry (suc n) dest src w apart zero h =
    let here : dest ≡ dest + 8 * 0 = omega arith in
    let there : src ≡ src + 8 * 0 = omega arith in
    subst (λ z. share_from n (dest + 8) (src + 8) (update w dest (w src)) z ≡ w (src + 8 * 0)) here
      (share_from_outside n (dest + 8) (src + 8) (update w dest (w src)) dest (inl (omega arith))
        ∙ ground (arith, ap w there))
share_from_entry (suc n) dest src w apart (suc i) h =
    let here : dest + 8 + 8 * i ≡ dest + 8 * suc i = omega arith in
    let there : src + 8 + 8 * i ≡ src + 8 * suc i = omega arith in
    subst (λ z. share_from n (dest + 8) (src + 8) (update w dest (w src)) z ≡ w (src + 8 * suc i))
      here
      (share_from_entry n (dest + 8) (src + 8) (update w dest (w src)) (next apart) i (omega arith)
        ∙ rw (other apart) (ap w there))
  where
    next : Apart (suc n) dest src → Apart n (dest + 8) (src + 8)
    next (inl x) = inl (omega arith)
    next (inr x) = inr (omega arith)

    other : Apart (suc n) dest src → (src + 8 + 8 * i == dest) ≡ false
    other (inl x) = ground arith
    other (inr x) = ground arith

-- share_pgtable copies every entry of the table where the two do not overlap, and changes no other word.
pub share_pgtable-entries :
    (dest src : ℕ) (w : ℕ → ℕ)
    → (dest + 4096 ≤ src) ⊎ (src + 4096 ≤ dest)
    → ((i : ℕ) → i < 512 → share_pgtable dest src w (dest + 8 * i) ≡ w (src + 8 * i))
      × ((a : ℕ) → (a < dest) ⊎ (dest + 4096 ≤ a) → share_pgtable dest src w a ≡ w a)
unfolding share_pgtable
share_pgtable-entries dest src w apart =
    (share_from_entry 512 dest src w apart, share_from_outside 512 dest src w)
