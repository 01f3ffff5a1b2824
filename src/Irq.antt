-- ===== src/Irq.antt =====
-- kernel/irq/irq.c: the dispatch of traps, the page faults, and the handlers of the timer and of the network card.
-- The saved registers are left out; a handler that ends in `assert(0)` has no result.
use ucas_2024fall_oslab.Base.{
  ℕ, ◌+◌, ◌/◌, ◌%◌, ◌^◌, Option, none, some, ◌==◌, update, if◌then◌else◌, ◌>>=◌,
}
use ucas_2024fall_oslab.State.{Kernel}
use ucas_2024fall_oslab.Sched.{do_scheduler}
use ucas_2024fall_oslab.Pgtable.{
  page_present, page_accessed, page_dirty, kva2pa, pa2kva, get_pa, set_pfn, set_attribute,
}
use ucas_2024fall_oslab.Mm.{
  Sd, page_index, get_pte, page_in_swap, alloc_page, swap_in, alloc_page_helper,
  set_map_page_accessed,
}
use ucas_2024fall_oslab.Screen.{Screen, screen_reflush}
use ucas_2024fall_oslab.Net.{Net, net_handle_irq}

-- the attributes that handle_load_page_fault and handle_store_page_fault set
abbrev pub load_bits : ℕ
load_bits = page_present + page_accessed

abbrev pub store_bits : ℕ
store_bits = page_present + page_accessed + page_dirty

-- the entry of a page that came back from the disk
unfoldable pub remap : ℕ → ℕ → ℕ → Kernel → Kernel
unfolding set_pfn set_attribute kva2pa
remap bits pte kva k = record k {
  word = update k.word pte (set_attribute (set_pfn (k.word pte) (kva2pa kva / 2 ^ 12)) bits);
}

-- the entry of a page in memory that lacked an attribute
unfoldable pub grant : ℕ → ℕ → Kernel → Kernel
unfolding set_attribute
grant bits pte k = record k { word = update k.word pte (set_attribute (k.word pte) bits) }

-- the two handlers of page faults, by the attributes that they set; `none` is a call that finds no page
unfoldable pub handle_page_fault : Sd → ℕ → ℕ → Kernel → Option Kernel
handle_page_fault sd bits stval k =
    let p = k.pcb k.current in
    elim (get_pte stval p.satp k.word) [
      | none ↦ do (kva, g) ← alloc_page_helper sd stval (pa2kva p.satp) p.asid k; some g
      | some pte ↦ elim (page_in_swap stval p.asid k) [
        | some i ↦ do
          (kva, g) ← alloc_page sd p.asid k
          some (set_map_page_accessed (page_index kva) (remap bits pte kva (swap_in sd kva i g)))
        | none ↦
            let g = grant bits pte k in
            some (set_map_page_accessed (page_index (pa2kva (get_pa (g.word pte)))) g)
      ]
    ]

-- handle_load_page_fault
unfoldable pub handle_load_page_fault : Sd → ℕ → Kernel → Option Kernel
handle_load_page_fault sd stval k = handle_page_fault sd load_bits stval k

-- handle_store_page_fault
unfoldable pub handle_store_page_fault : Sd → ℕ → Kernel → Option Kernel
handle_store_page_fault sd stval k = handle_page_fault sd store_bits stval k

-- What the handlers change: the kernel, the screen, the network, and the time of the next timer interrupt.
pub record Machine : Type 0 where
  pub net : Net
  pub screen : Screen
  pub next_timer : ℕ

abbrev pub kernel_of : Machine → Kernel
kernel_of m = m.net.kernel

abbrev pub set_kernel : Kernel → Machine → Machine
set_kernel k m = record m { net = record (m.net) { kernel = k } }

-- What the traps find in the firmware and the devices: the clock, the claimed interrupt, the cause that the card
-- reports, and the system call, which another file's table holds.
pub record Traps : Type 0 where
  pub sd : Sd
  pub ticks : ℕ → ℕ
  pub now : ℕ
  pub plic_claim : ℕ
  pub icr_value : ℕ
  pub handle_syscall : Machine → Option Machine

abbrev pub timer_interval : ℕ
timer_interval = 150000

abbrev pub plic_e1000_irq : ℕ
plic_e1000_irq = 33

-- The handlers; `unset` is an entry of a table that init_exception leaves NULL.
pub data Handler : Type 0 where
  syscall other load_fault store_fault timer ext unset : Handler

-- init_exception
unfoldable pub exc_table : ℕ → Handler
exc_table c =
    if c == 8
    then syscall
    else if c == 3
    then other
    else if c == 0
    then other
    else if c == 1
    then other
    else if c == 5
    then other
    else if c == 7
    then other
    else if c == 12
    then load_fault
    else if c == 13
    then load_fault
    else if c == 15
    then store_fault
    else unset

unfoldable pub irq_table : ℕ → Handler
irq_table c =
    if c == 5
    then timer
    else if c == 9
    then ext
    else if c == 4
    then other
    else if c == 7
    then other
    else if c == 8
    then other
    else if c == 11
    then other
    else if c == 0
    then other
    else if c == 1
    then other
    else if c == 3
    then other
    else unset

-- handle_irq_timer
unfoldable pub handle_irq_timer : Traps → Machine → Option Machine
handle_irq_timer t m = do
  k ← do_scheduler t.ticks (kernel_of m)
  some (
      set_kernel k
        (record m { screen = screen_reflush m.screen; next_timer = t.now + timer_interval }))

-- handle_irq_ext
unfoldable pub handle_irq_ext : Traps → Machine → Machine
handle_irq_ext t m =
    if t.plic_claim == plic_e1000_irq
    then record m { net = net_handle_irq t.icr_value m.net }
    else m

-- a call of a handler
unfoldable pub call_handler : Traps → ℕ → Handler → Machine → Option Machine
call_handler t stval syscall m = t.handle_syscall m
call_handler t stval other m = none
call_handler t stval load_fault m = do
  k ← handle_load_page_fault t.sd stval (kernel_of m)
  some (set_kernel k m)
call_handler t stval store_fault m = do
  k ← handle_store_page_fault t.sd stval (kernel_of m)
  some (set_kernel k m)
call_handler t stval timer m = handle_irq_timer t m
call_handler t stval ext m = some (handle_irq_ext t m)
call_handler t stval unset m = none

-- interrupt_helper; `scause` is a 64-bit word
unfoldable pub interrupt_helper : Traps → ℕ → ℕ → Machine → Option Machine
interrupt_helper t stval scause m =
    let cause = scause % 2 ^ 63 in
    call_handler t stval (if scause / 2 ^ 63 == 0 then exc_table cause else irq_table cause) m
