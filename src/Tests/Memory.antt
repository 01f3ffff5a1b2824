-- ===== src/Tests/Memory.antt =====
-- Pages, swapping and page table entries on a small machine.
use ucas_2024fall_oslab.Mm.Setup.{share_pgtable, share_pgtable-entries}
use ucas_2024fall_oslab.Base.{
  ℕ, ◌+◌, ◌*◌, ◌-◌, ◌/◌, ◌%◌, ◌<◌, ◌≡◌, refl, ◌&&◌, arith, leb, ltb, some, if◌then◌else◌, ap, ◌⊎◌,
  ◌∙◌, true, ◌≢◌, none, ◌≤◌, inr,
}
use ucas_2024fall_oslab.State.{Kernel}
use ucas_2024fall_oslab.Pgtable.{kva2pa, pa2kva, get_page_base}
use ucas_2024fall_oslab.Mm.{
  Sd, swap_out_to, swap_out, swap_in, choose_swap, mem_page_num, swap_info_num, page_address,
  get_pte, find_pgdir,
}
use ucas_2024fall_oslab.Mm.Clock.{Bytes, IsUser, NotAccessed, Picked, choose_swap-Picked}
use ucas_2024fall_oslab.Mm.Swap.{
  entry_of, SdLaws, SwappedOut, swap_out-SwappedOut, swap_in-swap_out,
}
use ucas_2024fall_oslab.Tests.Machine.{busy}

-- A disk whose sectors are copied to and from the memory.
abbrev disk : Sd
disk = record {
  sd_read = λ pa n sec d w a.
      if leb (pa2kva pa) a && ltb a (pa2kva pa + 512 * n)
      then d (sec + (a - pa2kva pa) / 512) ((a - pa2kva pa) % 512 / 8)
      else w a;
  sd_write = λ pa n sec w d s o.
      if leb sec s && ltb s (sec + n) then w (pa2kva pa + (s - sec) * 512 + 8 * o) else d s o;
}

page_back : (p : ℕ) → p < mem_page_num → pa2kva (kva2pa (page_address p)) ≡ page_address p
unfolding kva2pa pa2kva
page_back p h = omega arith

-- the word at offset `8 * o` of a page, as the disk finds it
same_word :
    (a b sec o : ℕ)
    → a + (sec + (b + 8 * o - b) / 512 - sec) * 512 + 8 * ((b + 8 * o - b) % 512 / 8) ≡ a + 8 * o
same_word a b sec o = omega arith

inside : (a o : ℕ) → o < 512 → (leb a (a + 8 * o) && ltb (a + 8 * o) (a + 512 * 8)) ≡ true
inside a o h = ground arith

disk-SdLaws : SdLaws disk
disk-SdLaws = record {
  read-write = λ p r sec o w v d e ho hp hr same.
      rw (page_back r hr, inside (page_address r) o ho)
        (ap (λ (f : ℕ → ℕ). f ((page_address r + 8 * o - page_address r) % 512 / 8))
            (same (sec + (page_address r + 8 * o - page_address r) / 512) (omega arith)
              (omega arith))
          ∙ rw (page_back p hp)
              (ground (arith, ap w (same_word (page_address p) (page_address r) sec o))));
}

busy-Bytes : Bytes busy.free_mem_map
busy-Bytes i = ground arith

choose_swap-Picked_example :
    (kva : ℕ) × (k' : Kernel) × (choose_swap busy ≡ some (kva, k'))
    × (d : Picked busy.free_mem_map kva k'.free_mem_map k'.clock_ptr) × ((i : ℕ)
        → i < mem_page_num
        → IsUser busy.free_mem_map i
        → NotAccessed busy.free_mem_map i
        → NotAccessed busy.free_mem_map d.page)
    × (k' ≡ record busy { free_mem_map = k'.free_mem_map; clock_ptr = k'.clock_ptr })
choose_swap-Picked_example = choose_swap-Picked busy 2 busy-Bytes (omega arith) (omega arith) refl

swap_out-SwappedOut_example :
    (i : ℕ) × (k' : Kernel) × (i < swap_info_num)
    × ((busy.swap_info i).asid ≡ 0)
    × (swap_out disk (page_address 2) busy ≡ some k')
    × SwappedOut disk (page_address 2) i busy k'
swap_out-SwappedOut_example = swap_out-SwappedOut disk (page_address 2) 0 busy (omega arith) refl

abbrev swapped : Kernel
swapped = swap_out_to disk (page_address 2) 0 busy

no_entry : entry_of busy (page_address 2) ≡ none
unfolding get_pte find_pgdir get_page_base
no_entry = refl

not_inside : (o : ℕ) → o < 512 → entry_of busy (page_address 2) ≢ some (page_address 2 + 8 * o)
not_inside o h e = ground (arith, no_entry)

swap_in-swap_out_example :
    let k2 = swap_in disk (page_address 5) 0 swapped in
    ((o : ℕ) → o < 512 → k2.word (page_address 5 + 8 * o) ≡ busy.word (page_address 2 + 8 * o))
    × (k2.free_mem_map 5 ≡ busy.free_mem_map 2 % 256)
    × (k2.va_info 5 ≡ get_page_base (busy.va_info 2))
    × ((k2.swap_info 0).asid ≡ 0)
unfolding swap_out_to
swap_in-swap_out_example =
    swap_in-swap_out disk 2 5 0 busy swapped disk-SdLaws (omega arith) (omega arith) not_inside refl
      (λ s a b. refl) refl

share_pgtable-entries_example :
    ((i : ℕ) → i < 512 → share_pgtable 8192 0 busy.word (8192 + 8 * i) ≡ busy.word (0 + 8 * i))
    × ((a : ℕ) → (a < 8192) ⊎ (8192 + 4096 ≤ a) → share_pgtable 8192 0 busy.word a ≡ busy.word a)
share_pgtable-entries_example = share_pgtable-entries 8192 0 busy.word (inr (omega arith))
