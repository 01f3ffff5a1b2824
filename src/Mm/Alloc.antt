-- ===== src/Mm/Alloc.antt =====
-- allocPage of kernel/mm/mm.c.
use ucas_2024fall_oslab.Base.{ℕ, ◌+◌, ◌*◌, ◌%◌, ◌<◌, ◌≡◌, ◌≢◌, ◌⊎◌}
use ucas_2024fall_oslab.State.{Kernel}
use ucas_2024fall_oslab.Mm.{Sd, swap_info_num, page_address, mem_page_num}
use ucas_2024fall_oslab.Mm.Flags.{unaccessed}
use ucas_2024fall_oslab.Mm.Clock.{Picked}
use ucas_2024fall_oslab.Mm.Swap.{SwappedOut}

-- The page was a process's and has been swapped out to a free entry: the clock stopped at it, and swap_out ran on
-- it, whose entry and whose disk are those that allocPage leaves.
pub record Evicted (sd : Sd) (k : Kernel) (kva : ℕ) (k' : Kernel) : Type 0 where
  pub none_free : (i : ℕ) → i < mem_page_num → k.free_mem_map i ≢ 0
  pub chosen : Kernel
  pub picked : Picked k.free_mem_map kva chosen.free_mem_map chosen.clock_ptr
  pub only_flags :
      chosen ≡ record k { free_mem_map = chosen.free_mem_map; clock_ptr = chosen.clock_ptr }
  pub slot : ℕ
  pub slot_in_range : slot < swap_info_num
  pub slot_free : (k.swap_info slot).asid ≡ 0
  pub gone : Kernel
  pub out : SwappedOut sd kva slot chosen gone
  pub same_swap : k'.swap_info ≡ gone.swap_info
  pub same_disk : k'.disk ≡ gone.disk

-- What allocPage gives: page `page`, cleared, for process `asid`.
pub record Allocated (sd : Sd) (asid : ℕ) (k : Kernel) (kva : ℕ) (k' : Kernel) : Type 0 where
  pub page : ℕ
  pub in_range : page < mem_page_num
  pub address : kva ≡ page_address page
  -- It was free, or it has been swapped out because none was free.
  pub available :
      ((k.free_mem_map page ≡ 0) × (k'.swap_info ≡ k.swap_info) × (k'.disk ≡ k.disk))
      ⊎ Evicted sd k kva k'
  pub owner : k'.free_mem_map page ≡ asid % 256
  pub clear : (o : ℕ) → o < 512 → k'.word (kva + 8 * o) ≡ 0
  pub other_pages :
      (i : ℕ)
      → i ≢ page
      → (k'.free_mem_map i ≡ k.free_mem_map i) ⊎ (k'.free_mem_map i ≡ unaccessed (k.free_mem_map i))
  pub same_tables : k'.free_pgt_map ≡ k.free_pgt_map
  pub same_pcb : k'.pcb ≡ k.pcb
  pub same_links : k'.links ≡ k.links
