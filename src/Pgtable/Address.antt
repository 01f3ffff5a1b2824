-- ===== src/Pgtable/Address.antt =====
-- Virtual and physical addresses of arch/riscv/include/pgtable.h.
use ucas_2024fall_oslab.Base.{ℕ, ◌+◌, ◌*◌, ◌%◌, ◌^◌, ◌<◌, ◌≡◌, arith}
use ucas_2024fall_oslab.Pgtable.{
  kernel_base, kva2pa, pa2kva, get_page_base, get_page_offset, get_vpn2, get_vpn1, get_vpn0,
}

-- A kernel virtual address of the first 4 GB of memory survives the way to its physical address and
-- back, and so does the physical address.
pub kva2pa-pa2kva :
    (a : ℕ)
    → a < 2 ^ 32
    → (kva2pa (pa2kva a) ≡ a) × (pa2kva (kva2pa (kernel_base + a)) ≡ kernel_base + a)
unfolding kva2pa pa2kva
kva2pa-pa2kva a h = (omega arith, omega arith)

-- The three page numbers and the page offset are in range, and together they make up the lower 39
-- bits of the address.
vpn_decomposition :
    (va : ℕ)
    → (get_vpn2 va < 512)
      × (get_vpn1 va < 512)
      × (get_vpn0 va < 512)
      × (get_page_offset va < 4096)
      × (va % 2 ^ 39
          ≡ get_vpn2 va * 2 ^ 30 + get_vpn1 va * 2 ^ 21 + get_vpn0 va * 2 ^ 12 + get_page_offset va)
unfolding get_vpn2 get_vpn1 get_vpn0 get_page_offset
vpn_decomposition va = (omega arith, omega arith, omega arith, omega arith, omega arith)

-- All addresses of a page have its page numbers and its base.
pub vpn_of_page :
    (va off : ℕ)
    → off < 4096
    → let base = get_page_base va in
      (get_vpn2 (base + off) ≡ get_vpn2 va)
      × (get_vpn1 (base + off) ≡ get_vpn1 va)
      × (get_vpn0 (base + off) ≡ get_vpn0 va)
      × (get_page_base (base + off) ≡ base)
      × (base + get_page_offset va ≡ va)
unfolding get_vpn2 get_vpn1 get_vpn0 get_page_base get_page_offset
vpn_of_page va off h = (omega arith, omega arith, omega arith, omega arith, omega arith)
