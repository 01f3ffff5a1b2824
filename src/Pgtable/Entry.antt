-- ===== src/Pgtable/Entry.antt =====
-- The fields of a page table entry of arch/riscv/include/pgtable.h.
use ucas_2024fall_oslab.Base.{ℕ, ◌/◌, ◌%◌, ◌^◌, ◌<◌, ◌≡◌, arith}
use ucas_2024fall_oslab.Pgtable.{word_mod, get_pfn, set_pfn, get_pa, kva2pa}

-- A frame number that is written is read back, the entry's ten attribute bits and its bits from 54 on
-- stay as they are, and the entry stays a 64-bit word.
pub get_pfn-set_pfn :
    (entry pfn : ℕ)
    → entry < word_mod
    → pfn < 2 ^ 44
    → (get_pfn (set_pfn entry pfn) ≡ pfn)
      × (set_pfn entry pfn % 2 ^ 10 ≡ entry % 2 ^ 10)
      × (set_pfn entry pfn / 2 ^ 54 ≡ entry / 2 ^ 54)
      × (set_pfn entry pfn < word_mod)
unfolding get_pfn set_pfn
get_pfn-set_pfn entry pfn h p = (omega arith, omega arith, omega arith, omega arith)

-- The entry that `set_pfn(e, kva2pa(kva) >> 12)` makes for a page-aligned kernel address points back
-- at that page.
pub get_pa-set_pfn_page :
    (entry kva : ℕ) → kva % 4096 ≡ 0 → get_pa (set_pfn entry (kva2pa kva / 2 ^ 12)) ≡ kva2pa kva
unfolding get_pa get_pfn set_pfn kva2pa
get_pa-set_pfn_page entry kva h = omega arith
