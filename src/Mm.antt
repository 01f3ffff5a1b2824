-- ===== src/Mm.antt =====
-- kernel/mm/mm.c: the maps of free pages, the clock that chooses a page to swap out, swapping, and
-- page tables in memory. `none` stands for a loop that never ends.
pub mod Flags
pub mod Clock
pub mod Free
pub mod Swap
pub mod Alloc
pub mod Setup
use Prim.Native.Nat.{bit_and, bit_or}
use ucas_2024fall_oslab.Base.{
  ℕ, zero, suc, ◌+◌, ◌-◌, ◌*◌, ◌/◌, ◌%◌, ◌^◌, Bool, not, ◌&&◌, Option, none, some, ◌==◌, ltb, leb,
  update, if◌then◌else◌, add_int,
}
use ucas_2024fall_oslab.Pgtable.{
  page_present, page_user_all, page_size, kva2pa, pa2kva, set_pfn, get_pa, get_attribute,
  set_attribute, unset_attribute, get_page_base, get_vpn2, get_vpn1, get_vpn0,
}
use ucas_2024fall_oslab.State.{Pcb, is_exited, Kernel, SwapInfo}

abbrev pub init_kernel_stack : ℕ
init_kernel_stack = 0xffffffc052000000

abbrev pub init_kernel_pagetable : ℕ
init_kernel_pagetable = 0xffffffc054000000

abbrev pub swap_info_place : ℕ
swap_info_place = 0xffffffc055000000

abbrev pub temp_task_img : ℕ
temp_task_img = 0xffffffc056000000

-- FREE_MEM_SIZE / PAGE_SIZE
abbrev pub mem_page_num : ℕ
mem_page_num = (init_kernel_pagetable - init_kernel_stack) / 4096

-- FREE_PGT_SIZE / PAGE_SIZE
abbrev pub pgt_page_num : ℕ
pgt_page_num = (temp_task_img - init_kernel_pagetable) / 4096

abbrev pub swap_info_num : ℕ
swap_info_num = 4096

abbrev pub task_maxnum : ℕ
task_maxnum = 16

abbrev pub kernel_page : ℕ
kernel_page = 0x40

abbrev pub map_page_accessed : ℕ
map_page_accessed = 0x80

abbrev pub page_address : ℕ → ℕ
page_address i = init_kernel_stack + i * page_size

-- `(kva - INIT_KERNEL_STACK) / PAGE_SIZE` in 64 bits, as an `int`
abbrev pub page_index : ℕ → ℕ
page_index kva = (kva + 2 ^ 64 - init_kernel_stack) % 2 ^ 64 / page_size % 2 ^ 32

-- clean_page, and `clear_pgdir`: the words from `page` on, for one page.
unfoldable pub clean_page : ℕ → (ℕ → ℕ) → ℕ → ℕ
clean_page page w a = if leb page a && ltb a (page + page_size) then 0 else w a

-- `(flag & asid) == asid`: is_same_proc, and the tests of freeProcessMem
unfoldable pub is_same_proc : ℕ → ℕ → Bool
is_same_proc flag asid = bit_and flag asid == asid

-- `for (; i < i + n; i++) if (map[i] == 0) return i;`
unfoldable pub find_free : ℕ → ℕ → (ℕ → ℕ) → Option ℕ
find_free zero i map = none
find_free (suc n) i map = let rest = find_free n (i + 1) map in if map i == 0 then some i else rest

-- choose_swap: the page's address, the map and the new clock pointer.
unfoldable pub choose_swap_from : ℕ → (ℕ → ℕ) → ℕ → Option (ℕ × (ℕ → ℕ) × ℕ)
choose_swap_from zero map c = none
choose_swap_from (suc fuel) map c =
    let next = (c + 1) % mem_page_num in
    let pass = choose_swap_from fuel map next in
    let clear =
      choose_swap_from fuel (update map c (bit_and (map c) (255 - map_page_accessed))) next in
    if bit_and (map c) kernel_page == 0
    then (if bit_and (map c) map_page_accessed == 0
        then some (page_address c, map, next)
        else clear)
    else pass

unfoldable pub choose_swap : Kernel → Option (ℕ × Kernel)
choose_swap k = elim (choose_swap_from (2 * mem_page_num) k.free_mem_map k.clock_ptr) [
  | none ↦ none
  | some (kva, map, c) ↦ some (kva, record k { free_mem_map = map; clock_ptr = c })
]

-- get_pte: the address of the entry, or `none` for NULL. An entry is eight bytes.
unfoldable pub get_pte : ℕ → ℕ → (ℕ → ℕ) → Option ℕ
unfolding kva2pa pa2kva get_pa get_attribute get_vpn2 get_vpn1 get_vpn0
get_pte va pgdir w =
    let e2 = pa2kva pgdir + 8 * get_vpn2 va in
    let e1 = pa2kva (get_pa (w e2)) + 8 * get_vpn1 va in
    let e0 = pa2kva (get_pa (w e1)) + 8 * get_vpn0 va in
    if get_attribute (w e2) page_present == 0
    then none
    else if get_attribute (w e1) page_present == 0
    then none
    else if w e0 == 0
    then none
    else some e0

-- `while (swap_info[i].asid != 0) i++;`, which leaves the array when it is full
unfoldable pub find_swap_slot : ℕ → ℕ → (ℕ → SwapInfo) → Option ℕ
find_swap_slot zero i s = none
find_swap_slot (suc n) i s =
    let rest = find_swap_slot n (i + 1) s in if (s i).asid == 0 then some i else rest

-- the search of swap_out for the page directory of the page's owner; 0 where there is none
unfoldable pub find_pgdir : ℕ → ℕ → ℕ → (ℕ → Pcb) → ℕ
find_pgdir zero j asid pcb = 0
find_pgdir (suc n) j asid pcb =
    if ((pcb j).asid == asid) && not (is_exited (pcb j).status)
    then (pcb j).satp
    else find_pgdir n (j + 1) asid pcb

-- The disk, which the firmware reads and writes: memory address, number of sectors, first sector, the
-- sectors' words and the memory's words, by kernel virtual address.
pub record Sd : Type 0 where
  pub sd_read : ℕ → ℕ → ℕ → (ℕ → ℕ → ℕ) → (ℕ → ℕ) → ℕ → ℕ
  pub sd_write : ℕ → ℕ → ℕ → (ℕ → ℕ) → (ℕ → ℕ → ℕ) → ℕ → ℕ → ℕ

-- PAGE_SIZE / SECTOR_SIZE
abbrev pub page_sectors : ℕ
page_sectors = 8

-- `padding_start_sec + sec_num * 8`
abbrev pub swap_sector : ℕ → ℕ → ℕ
swap_sector start num = add_int start (num * 8)

-- `if (pte) unset_attribute(pte, _PAGE_PRESENT);`
unfoldable pub unset_present : Option ℕ → (ℕ → ℕ) → ℕ → ℕ
unfolding unset_attribute
unset_present none w = w
unset_present (some pte) w = update w pte (unset_attribute (w pte) page_present)

-- swap_out once it has found entry `i`, less its message on the screen. The page's words leave for the
-- disk, and the entry that maps it is no longer present.
unfoldable pub swap_out_to : Sd → ℕ → ℕ → Kernel → Kernel
unfolding unset_present get_pte get_page_base kva2pa
swap_out_to sd kva i k =
    let num = page_index kva in
    let va = get_page_base (k.va_info num) in
    let asid = k.free_mem_map num in
    let pgdir = find_pgdir task_maxnum 0 asid k.pcb in
    let w = unset_present (get_pte va pgdir k.word) k.word in
    record k {
      swap_info = update k.swap_info i (record { va = va; asid = asid % 256; sec_num = k.sec_ptr });
      word = w;
      free_mem_map = update k.free_mem_map num 0;
      va_info = update k.va_info num 0;
      sec_ptr = add_int k.sec_ptr 1;
      disk =
          sd.sd_write (kva2pa kva) page_sectors (swap_sector k.padding_start_sec k.sec_ptr) w
            k.disk;
    }

-- swap_out
unfoldable pub swap_out : Sd → ℕ → Kernel → Option Kernel
swap_out sd kva k = elim (find_swap_slot swap_info_num 0 k.swap_info) [
  | none ↦ none
  | some i ↦ some (swap_out_to sd kva i k)
]

-- swap_in, from entry `i` of `swap_info`
unfoldable pub swap_in : Sd → ℕ → ℕ → Kernel → Kernel
unfolding kva2pa
swap_in sd kva i k =
    let info = k.swap_info i in
    let num = page_index kva in
    record k {
      word =
          sd.sd_read (kva2pa kva) page_sectors (swap_sector k.padding_start_sec info.sec_num) k.disk
            k.word;
      free_mem_map = update k.free_mem_map num info.asid;
      va_info = update k.va_info num info.va;
      swap_info = update k.swap_info i (record { va = 0; asid = 0; sec_num = 0 });
    }

-- the end of allocPage: the page goes to `asid` and is cleared
unfoldable pub take_page : ℕ → ℕ → Kernel → ℕ × Kernel
unfolding clean_page
take_page asid i k = (
  page_address i,
  record k {
    free_mem_map = update k.free_mem_map i (asid % 256);
    word = clean_page (page_address i) k.word;
  },
)

-- the end of allocPage where no page is free: one is swapped out.
unfoldable pub alloc_evict : Sd → ℕ → Kernel → Option (ℕ × Kernel)
unfolding take_page
alloc_evict sd asid k = elim (choose_swap k) [
  | none ↦ none
  | some (kva, k1) ↦ elim (swap_out sd kva k1) [
    | none ↦ none
    | some k2 ↦ some (take_page asid (page_index kva) k2)
  ]
]

-- allocPage
unfoldable pub alloc_page : Sd → ℕ → Kernel → Option (ℕ × Kernel)
unfolding take_page
alloc_page sd asid k = elim (find_free mem_page_num 0 k.free_mem_map) [
  | some i ↦ some (take_page asid i k)
  | none ↦ alloc_evict sd asid k
]

-- allocPagetable, which returns 0 when no page is left
unfoldable pub alloc_pagetable : ℕ → Kernel → ℕ × Kernel
unfolding clean_page
alloc_pagetable asid k = elim (find_free pgt_page_num 0 k.free_pgt_map) [
  | none ↦ (0, k)
  | some i ↦
      let page = init_kernel_pagetable + i * page_size in
      (
        page,
        record k {
          free_pgt_map = update k.free_pgt_map i (asid % 256);
          word = clean_page page k.word;
        },
      )
]

-- page_in_swap: the index of the entry, or `none` for NULL
unfoldable pub page_in_swap_from : ℕ → ℕ → ℕ → ℕ → (ℕ → SwapInfo) → Option ℕ
unfolding is_same_proc
page_in_swap_from zero j va asid s = none
page_in_swap_from (suc n) j va asid s =
    let rest = page_in_swap_from n (j + 1) va asid s in
    if ((s j).va == va) && is_same_proc (s j).asid asid then some j else rest

unfoldable pub page_in_swap : ℕ → ℕ → Kernel → Option ℕ
unfolding get_page_base
page_in_swap va asid k = page_in_swap_from swap_info_num 0 (get_page_base va) asid k.swap_info

-- `for (; n rounds; i++) if (is_same_proc(map[i], asid)) map[i] = 0;`
unfoldable pub free_map : ℕ → ℕ → ℕ → (ℕ → ℕ) → ℕ → ℕ
unfolding is_same_proc
free_map zero i asid map = map
free_map (suc n) i asid map =
    free_map n (i + 1) asid (if is_same_proc (map i) asid then update map i 0 else map)

unfoldable pub free_swap : ℕ → ℕ → ℕ → (ℕ → SwapInfo) → ℕ → SwapInfo
unfolding is_same_proc
free_swap zero i asid s = s
free_swap (suc n) i asid s = free_swap n (i + 1) asid (
    if is_same_proc (s i).asid asid
    then update s i (record { va = 0; asid = 0; sec_num = 0 })
    else s)

-- freeProcessMem
unfoldable pub free_process_mem : ℕ → Kernel → Kernel
free_process_mem asid k = record k {
  free_mem_map = free_map mem_page_num 0 asid k.free_mem_map;
  free_pgt_map = free_map pgt_page_num 0 asid k.free_pgt_map;
  swap_info = free_swap swap_info_num 0 asid k.swap_info;
}

-- the step of alloc_page_helper that allocates a page table for an entry that is zero
unfoldable pub ensure_table : ℕ → ℕ → Kernel → Kernel
unfolding set_pfn set_attribute kva2pa
ensure_table asid e k =
    let (pgt, k1) = alloc_pagetable asid k in
    let entry = set_attribute (set_pfn (k1.word e) (kva2pa pgt / 2 ^ 12)) page_present in
    if k.word e == 0 then record k1 { word = update k1.word e entry } else k

-- alloc_page_helper; `pgdir` is a kernel virtual address
unfoldable pub alloc_page_helper : Sd → ℕ → ℕ → ℕ → Kernel → Option (ℕ × Kernel)
alloc_page_helper sd va0 pgdir asid k =
    let va = va0 % 2 ^ 39 in
    elim (alloc_page sd asid k) [
      | none ↦ none
      | some (kva, k0) ↦
          let e2 = pgdir + 8 * get_vpn2 va in
          let k1 = ensure_table asid e2 k0 in
          let e1 = pa2kva (get_pa (k1.word e2)) + 8 * get_vpn1 va in
          let k2 = ensure_table asid e1 k1 in
          let e0 = pa2kva (get_pa (k2.word e1)) + 8 * get_vpn0 va in
          some (
            kva,
            record k2 {
              word =
                  update k2.word e0
                    (set_attribute (set_pfn (k2.word e0) (kva2pa kva / 2 ^ 12)) page_user_all);
              va_info = update k2.va_info (page_index kva) (get_page_base va);
            },
          )
    ]

-- set_map_page_accessed
unfoldable pub set_map_page_accessed : ℕ → Kernel → Kernel
set_map_page_accessed i k = record k {
  free_mem_map = update k.free_mem_map i (bit_or (k.free_mem_map i) map_page_accessed);
}
