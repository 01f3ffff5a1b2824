-- ===== src/Pgtable.antt =====
-- arch/riscv/include/pgtable.h: Sv39 page table entries and virtual page numbers, over 64-bit words.
-- `x & ((1 << k) - 1)` is written `x % 2 ^ k`, and an `|` of parts that share no bit as a sum.
pub mod Entry
pub mod Address
use Prim.Native.Nat.{bit_and, bit_or}
use ucas_2024fall_oslab.Base.{ℕ, ◌+◌, ◌-◌, ◌*◌, ◌/◌, ◌%◌, ◌^◌}

abbrev pub word_mod : ℕ
word_mod = 2 ^ 64

abbrev pub page_present : ℕ
page_present = 1

abbrev pub page_accessed : ℕ
page_accessed = 2 ^ 6

abbrev pub page_dirty : ℕ
page_dirty = 2 ^ 7

-- _PAGE_PRESENT | _PAGE_READ | _PAGE_WRITE | _PAGE_EXEC | _PAGE_USER | _PAGE_ACCESSED | _PAGE_DIRTY
abbrev pub page_user_all : ℕ
page_user_all = 0xdf

abbrev pub page_size : ℕ
page_size = 2 ^ 12

-- The upper bits of every kernel virtual address.
abbrev pub kernel_base : ℕ
kernel_base = 0xffffffc000000000

-- kva2pa
unfoldable pub kva2pa : ℕ → ℕ
kva2pa kva = kva % 2 ^ 32

-- pa2kva: the constant has ones in exactly the bits from 38 on.
unfoldable pub pa2kva : ℕ → ℕ
pa2kva pa = pa % 2 ^ 38 + kernel_base

-- get_pfn
unfoldable pub get_pfn : ℕ → ℕ
get_pfn entry = (entry % 2 ^ 54) / 2 ^ 10

-- set_pfn: bits 10 to 53 of the entry are cleared, and the frame number, shifted in 64 bits and cut
-- to 54, takes their place.
unfoldable pub set_pfn : ℕ → ℕ → ℕ
set_pfn entry pfn =
    let old_entry = entry / 2 ^ 54 * 2 ^ 54 + entry % 2 ^ 10 in
    old_entry + (pfn * 2 ^ 10 % word_mod) % 2 ^ 54

-- get_pa
unfoldable pub get_pa : ℕ → ℕ
unfolding get_pfn
get_pa entry = get_pfn entry * 2 ^ 12 % word_mod

-- get_attribute
unfoldable pub get_attribute : ℕ → ℕ → ℕ
get_attribute entry mask = bit_and entry mask

-- set_attribute
unfoldable pub set_attribute : ℕ → ℕ → ℕ
set_attribute entry bits = bit_or entry bits

-- unset_attribute
unfoldable pub unset_attribute : ℕ → ℕ → ℕ
unset_attribute entry bits = bit_and entry (word_mod - 1 - bits)

-- get_page_base
unfoldable pub get_page_base : ℕ → ℕ
get_page_base vaddr = vaddr / 2 ^ 12 * 2 ^ 12

-- get_page_offset
unfoldable pub get_page_offset : ℕ → ℕ
get_page_offset vaddr = vaddr % 2 ^ 12

-- get_vpn2
unfoldable pub get_vpn2 : ℕ → ℕ
get_vpn2 vaddr = (vaddr % 2 ^ 39) / 2 ^ 30

-- get_vpn1
unfoldable pub get_vpn1 : ℕ → ℕ
get_vpn1 vaddr = (vaddr % 2 ^ 39) / 2 ^ 21 % 2 ^ 9

-- get_vpn0
unfoldable pub get_vpn0 : ℕ → ℕ
get_vpn0 vaddr = (vaddr % 2 ^ 39) / 2 ^ 12 % 2 ^ 9
