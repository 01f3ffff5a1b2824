-- ===== src/Mm/Swap.antt =====
-- swap_out and swap_in of kernel/mm/mm.c.
use ucas_2024fall_oslab.Base.{
  ℕ, zero, suc, ◌+◌, ◌*◌, ◌%◌, ◌≤◌, ◌<◌, ◌≡◌, refl, ◌≢◌, inl, inr, false, Option, none, some, arith,
  ◌==◌, update, Bool-cases, eq_of_==, ne_of_==, ap, ◌∙◌, sym, update_self, update_ne, add_int,
}
use ucas_2024fall_oslab.State.{Kernel, SwapInfo}
use ucas_2024fall_oslab.Pgtable.{kva2pa, get_page_base, unset_attribute, page_present}
use ucas_2024fall_oslab.Mm.{
  Sd, swap_out_to, swap_out, swap_in, find_swap_slot, swap_info_num, page_sectors, page_index,
  page_address, mem_page_num, swap_sector, unset_present, get_pte, find_pgdir, task_maxnum,
}

-- The first free entry of `swap_info` from `i` on.
pub record FirstFree (n i : ℕ) (s : ℕ → SwapInfo) : Type 0 where
  pub at : ℕ
  pub from : i ≤ at
  pub below : at < i + n
  pub is_free : (s at).asid ≡ 0
  pub result : find_swap_slot n i s ≡ some at

pub find_swap_slot-FirstFree :
    (n i p : ℕ) (s : ℕ → SwapInfo) → i ≤ p → p < i + n → (s p).asid ≡ 0 → FirstFree n i s
unfolding find_swap_slot
find_swap_slot-FirstFree zero i p s a b z = absurd (omega arith)
find_swap_slot-FirstFree (suc n) i p s a b z = elim (Bool-cases ((s i).asid == 0)) [
  | inl e ↦ record {
    at = i;
    from = omega arith;
    below = omega arith;
    is_free = eq_of_== _ _ e;
    result = rw e refl;
  }
  | inr e ↦ later e (find_swap_slot-FirstFree n (i + 1) p s (further e) (omega arith) z)
]
  where
    further : ((s i).asid == 0) ≡ false → i + 1 ≤ p
    further e = elim (Bool-cases (i == p)) [
      | inl q ↦ absurd (ne_of_== _ _ e (ap (λ m. (s m).asid) (eq_of_== i p q) ∙ z))
      | inr q ↦ omega (arith, ne_of_== i p q)
    ]

    later : ((s i).asid == 0) ≡ false → FirstFree n (i + 1) s → FirstFree (suc n) i s
    later e t = record {
      at = t.at;
      from = omega (arith, t.from);
      below = omega (arith, t.below);
      is_free = t.is_free;
      result = rw e t.result;
    }

-- The page table entry that maps the page at `kva` for its owner, as swap_out finds it.
abbrev pub entry_of : Kernel → ℕ → Option ℕ
entry_of k kva =
    get_pte (get_page_base (k.va_info (page_index kva)))
      (find_pgdir task_maxnum 0 (k.free_mem_map (page_index kva)) k.pcb) k.word

unset_present-other : (r : Option ℕ) (w : ℕ → ℕ) (a : ℕ) → r ≢ some a → unset_present r w a ≡ w a
unfolding unset_present
unset_present-other none w a ne = refl
unset_present-other (some e) w a ne = update_ne w e _ a (λ p. ne (ap some (sym p)))

unset_present-entry :
    (r : Option ℕ) (w : ℕ → ℕ) (e : ℕ)
    → r ≡ some e
    → unset_present r w e ≡ unset_attribute (w e) page_present
unfolding unset_present
unset_present-entry r w e p =
    ap (λ t. unset_present t w e) p ∙ update_self w e (unset_attribute (w e) page_present)

-- What swapping a page out to entry `i` leaves.
pub record SwappedOut (sd : Sd) (kva i : ℕ) (k k' : Kernel) : Type 0 where
  pub entry_va : (k'.swap_info i).va ≡ get_page_base (k.va_info (page_index kva))
  pub entry_asid : (k'.swap_info i).asid ≡ k.free_mem_map (page_index kva) % 256
  pub entry_sec : (k'.swap_info i).sec_num ≡ k.sec_ptr
  pub other_entries : (j : ℕ) → j ≢ i → k'.swap_info j ≡ k.swap_info j
  pub map_now : k'.free_mem_map ≡ update k.free_mem_map (page_index kva) 0
  pub va_now : k'.va_info ≡ update k.va_info (page_index kva) 0
  pub sec_now : k'.sec_ptr ≡ add_int k.sec_ptr 1
  pub same_word : (a : ℕ) → entry_of k kva ≢ some a → k'.word a ≡ k.word a
  pub unmapped :
      (a : ℕ) → entry_of k kva ≡ some a → k'.word a ≡ unset_attribute (k.word a) page_present
  pub disk_now :
      k'.disk
      ≡ sd.sd_write
          (kva2pa kva)
          page_sectors
          (swap_sector k.padding_start_sec k.sec_ptr)
          k'.word
          k.disk
  pub same_padding : k'.padding_start_sec ≡ k.padding_start_sec
  pub same_pcb : k'.pcb ≡ k.pcb
  pub same_links : k'.links ≡ k.links
  pub same_tables : k'.free_pgt_map ≡ k.free_pgt_map
  pub same_rest : k' ≡ record k {
    swap_info = k'.swap_info;
    word = k'.word;
    free_mem_map = k'.free_mem_map;
    va_info = k'.va_info;
    sec_ptr = k'.sec_ptr;
    disk = k'.disk;
  }

swap_out_to-SwappedOut :
    (sd : Sd) (kva i : ℕ) (k : Kernel) → SwappedOut sd kva i k (swap_out_to sd kva i k)
unfolding swap_out_to get_page_base kva2pa get_pte unset_present
swap_out_to-SwappedOut sd kva i k = record {
  entry_va = ground arith;
  entry_asid = ground arith;
  entry_sec = ground arith;
  other_entries = λ j ne. ground arith;
  map_now = refl;
  va_now = refl;
  sec_now = refl;
  same_word = λ a ne. unset_present-other (entry_of k kva) k.word a ne;
  unmapped = λ a e. unset_present-entry (entry_of k kva) k.word a e;
  disk_now = refl;
  same_padding = refl;
  same_pcb = refl;
  same_links = refl;
  same_tables = refl;
  same_rest = refl;
}

swap_out-found :
    (sd : Sd) (kva i : ℕ) (k : Kernel)
    → find_swap_slot swap_info_num 0 k.swap_info ≡ some i
    → swap_out sd kva k ≡ some (swap_out_to sd kva i k)
unfolding swap_out
swap_out-found sd kva i k e = ap go e
  where
    go : Option ℕ → Option Kernel
    go none = none
    go (some j) = some (swap_out_to sd kva j k)

-- Where an entry of `swap_info` is free, swap_out ends. It fills a free entry with the page's virtual
-- address, its owner and the sector, keeps the other entries, frees the page and forgets its virtual
-- address, takes the present bit from the page table entry that maps it, if there is one, and changes no
-- other word, writes the page to the disk, and moves to the next place of the disk, as an `int`. The rest
-- of the kernel stays as it is.
pub swap_out-SwappedOut :
    (sd : Sd) (kva p : ℕ) (k : Kernel)
    → p < swap_info_num
    → (k.swap_info p).asid ≡ 0
    → (i : ℕ) × (k' : Kernel) × (i < swap_info_num)
      × ((k.swap_info i).asid ≡ 0)
      × (swap_out sd kva k ≡ some k')
      × SwappedOut sd kva i k k'
swap_out-SwappedOut sd kva p k h z =
    let t = find_swap_slot-FirstFree swap_info_num 0 p k.swap_info (omega arith) (omega arith) z in
    (
      t.at,
      swap_out_to sd kva t.at k,
      omega (arith, t.below),
      t.is_free,
      swap_out-found sd kva t.at k t.result,
      swap_out_to-SwappedOut sd kva t.at k,
    )

-- What the disk promises: a page of the memory that has been written is read back, into the same page or
-- into another one, as long as its eight sectors keep what the write left in them.
pub record SdLaws (sd : Sd) : Type 0 where
  pub read-write :
      (p r sec o : ℕ) (w v : ℕ → ℕ) (d e : ℕ → ℕ → ℕ)
      → o < 512
      → p < mem_page_num
      → r < mem_page_num
      → ((s : ℕ)
          → sec ≤ s
          → s < sec + page_sectors
          → e s ≡ sd.sd_write (kva2pa (page_address p)) page_sectors sec w d s)
      → sd.sd_read (kva2pa (page_address r)) page_sectors sec e v (page_address r + 8 * o)
        ≡ w (page_address p + 8 * o)

-- A page that has been swapped out comes back whole. Whatever has happened to the memory since, as long
-- as the entry, the eight sectors of the page and the start of the swap area are still there, swap_in puts
-- the words that page `p` had before it was swapped out into page `r`, gives it to the owner of the old
-- page, at the virtual address that it had, and frees the entry. The page table entry that maps the page
-- does not lie in the page itself, and the disk gives back what is written to it.
pub swap_in-swap_out :
    (sd : Sd) (p r i : ℕ) (k m : Kernel)
    → SdLaws sd
    → p < mem_page_num
    → r < mem_page_num
    → ((o : ℕ) → o < 512 → entry_of k (page_address p) ≢ some (page_address p + 8 * o))
    → m.swap_info i ≡ (swap_out_to sd (page_address p) i k).swap_info i
    → ((s : ℕ)
        → swap_sector k.padding_start_sec k.sec_ptr ≤ s
        → s < swap_sector k.padding_start_sec k.sec_ptr + page_sectors
        → m.disk s ≡ (swap_out_to sd (page_address p) i k).disk s)
    → m.padding_start_sec ≡ k.padding_start_sec
    → let k2 = swap_in sd (page_address r) i m in
      ((o : ℕ) → o < 512 → k2.word (page_address r + 8 * o) ≡ k.word (page_address p + 8 * o))
      × (k2.free_mem_map r ≡ k.free_mem_map p % 256)
      × (k2.va_info r ≡ get_page_base (k.va_info p))
      × ((k2.swap_info i).asid ≡ 0)
unfolding swap_in kva2pa
swap_in-swap_out sd p r i k m laws hp hr apart es ed ep = (
  λ o h.
      rw (es, ep, out.entry_sec)
        (laws.read-write p r (swap_sector k.padding_start_sec k.sec_ptr) o
          (swap_out_to sd (page_address p) i k).word m.word k.disk m.disk h hp hr
          (λ s a b. ed s a b ∙ ap (λ (d : ℕ → ℕ → ℕ). d s) out.disk_now))
      ∙ out.same_word (page_address p + 8 * o) (apart o h),
  ground (arith, es, out.entry_asid, index p hp, index r hr),
  ground (arith, es, out.entry_va, index p hp, index r hr),
  ground arith,
)
  where
    out : SwappedOut sd (page_address p) i k (swap_out_to sd (page_address p) i k)
    out = swap_out_to-SwappedOut sd (page_address p) i k

    index : (j : ℕ) → j < mem_page_num → page_index (page_address j) ≡ j
    index j h = omega arith
