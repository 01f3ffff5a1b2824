-- ===== src/Mm/Clock.antt =====
-- choose_swap of kernel/mm/mm.c: the clock comes to its end.
mod Turns
pub use Turns.*
use Prim.Native.Nat.{bit_and}
use ucas_2024fall_oslab.Base.{
  ℕ, zero, suc, ◌+◌, ◌-◌, ◌*◌, ◌<◌, ◌%◌, ◌≡◌, refl, ◌≢◌, ◌⊎◌, inl, inr, false, Option, none, some,
  arith, ◌==◌, update, Bool-cases, eq_of_==, ne_of_==, sym, ap, ◌∙◌, ◌≤◌, subst,
}
use ucas_2024fall_oslab.State.{Kernel}
use ucas_2024fall_oslab.Mm.{
  choose_swap_from, choose_swap, mem_page_num, kernel_page, map_page_accessed, page_address,
}
use ucas_2024fall_oslab.Mm.Flags.{unaccessed, unaccessed-flags}

choose_swap-some :
    (k : Kernel) (kva : ℕ) (map' : ℕ → ℕ) (c' : ℕ)
    → choose_swap_from (2 * mem_page_num) k.free_mem_map k.clock_ptr ≡ some (kva, map', c')
    → choose_swap k ≡ some (kva, record k { free_mem_map = map'; clock_ptr = c' })
unfolding choose_swap
choose_swap-some k kva map' c' run = ap picked run
  where
    picked : Option (ℕ × (ℕ → ℕ) × ℕ) → Option (ℕ × Kernel)
    picked none = none
    picked (some (kva, map, c)) = some (kva, record k { free_mem_map = map; clock_ptr = c })

abbrev kva_of : Option (ℕ × (ℕ → ℕ) × ℕ) → ℕ
kva_of none = 0
kva_of (some (kva, _, _)) = kva

-- Where a page that is not the kernel's was not accessed when the clock started, the one that it stops at was not either.
second_chance :
    (k : Kernel) (kva : ℕ) (map' : ℕ → ℕ) (c' : ℕ)
    → Bytes k.free_mem_map
    → k.clock_ptr < mem_page_num
    → choose_swap_from (2 * mem_page_num) k.free_mem_map k.clock_ptr ≡ some (kva, map', c')
    → (d : Picked k.free_mem_map kva map' c') (i : ℕ) → i < mem_page_num
    → IsUser k.free_mem_map i
    → NotAccessed k.free_mem_map i
    → NotAccessed k.free_mem_map d.page
second_chance k kva map' c' b hc run d i hi u n =
    let (kva2, _, _, run2, d2, idle, _) =
      reach_idle (2 * mem_page_num) k.free_mem_map k.clock_ptr i b hc hi u n (omega arith) in
    let same : kva2 ≡ kva = ap kva_of (sym run2 ∙ run) in
    subst (NotAccessed k.free_mem_map) (omega (arith, d.address, d2.address, same)) idle

-- As soon as one page is not one of the kernel's (KERNEL_PAGE), choose_swap comes to its end, within two
-- turns of the clock. It chooses such a page that is not marked as accessed now, and, if there was one
-- that was not marked when the clock started, one that was not marked then. It leaves the clock at the
-- page after it, and changes nothing but the access flags that it clears on its way, none of them of the
-- kernel's pages.
pub choose_swap-Picked :
    (k : Kernel) (p : ℕ)
    → Bytes k.free_mem_map
    → k.clock_ptr < mem_page_num
    → p < mem_page_num
    → IsUser k.free_mem_map p
    → (kva : ℕ) × (k' : Kernel) × (choose_swap k ≡ some (kva, k'))
      × (d : Picked k.free_mem_map kva k'.free_mem_map k'.clock_ptr) × ((i : ℕ)
          → i < mem_page_num
          → IsUser k.free_mem_map i
          → NotAccessed k.free_mem_map i
          → NotAccessed k.free_mem_map d.page)
      × (k' ≡ record k { free_mem_map = k'.free_mem_map; clock_ptr = k'.clock_ptr })
choose_swap-Picked k p b hc hp u =
    let (kva, map', c', run, pick) =
      reach_user (2 * mem_page_num) k.free_mem_map k.clock_ptr p b hc hp u (omega arith) in
    (
      kva,
      record k { free_mem_map = map'; clock_ptr = c' },
      choose_swap-some k kva map' c' run,
      pick,
      second_chance k kva map' c' b hc run pick,
      refl,
    )
