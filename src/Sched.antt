-- ===== src/Sched.antt =====
-- kernel/sched/sched.c and the sleep queue of kernel/sched/time.c: blocking, waking, sleeping,
-- waiting and the round-robin scheduler.
pub mod Inv
pub mod Moves
pub mod Sleep
pub mod Schedule
pub mod RoundRobin
pub mod Wake
pub mod Waiting
use mathlib.Core.List.{reverse_aux}
use Prim.Native.Nat.{bit_and, bit_or}
use ucas_2024fall_oslab.Base.{
  ℕ, zero, suc, ◌+◌, ◌*◌, ◌/◌, ◌%◌, ◌^◌, Bool, true, false, not, Option, none, some, ◌==◌, leb,
  update, if◌then◌else◌,
}
use ucas_2024fall_oslab.Links.{
  Links, list_is_empty, list_add_head, list_add_tail, list_remove, node_refresh,
}
use ucas_2024fall_oslab.Mm.{free_process_mem}
use ucas_2024fall_oslab.State.{
  Status, blocked, running, ready, exited, is_running, is_exited, Pcb, Kernel, SwapInfo,
  ready_queue, sleep_queue, wait_list, with_links, set_status, status_of,
}

-- do_block
unfoldable pub do_block : ℕ → ℕ → Kernel → Kernel
do_block node queue k = with_links (λ l. list_add_tail queue node (list_remove node l)) k

-- do_unblock
unfoldable pub do_unblock : ℕ → Kernel → Kernel
do_unblock node k = with_links (λ l. list_add_head ready_queue node (list_remove node l)) k

-- `do_unblock(node); NODE_TO_PCB(node)->status = TASK_READY;`
unfoldable pub wake : ℕ → Kernel → Kernel
unfolding do_unblock
wake node k = set_status node ready (do_unblock node k)

-- `while (!LIST_IS_EMPTY(queue)) { wake the first node }`, on fuel; `none` is a loop that goes on.
unfoldable pub wake_all : ℕ → ℕ → Kernel → Option Kernel
wake_all zero queue k = none
wake_all (suc fuel) queue k =
    let rest = wake_all fuel queue (wake (k.links.next queue) k) in
    if list_is_empty queue k.links then some k else rest

-- the body of the loop of check_sleeping: `now` is what `get_ticks()` returns
unfoldable pub wake_sleeper : ℕ → ℕ → Kernel → Kernel
wake_sleeper now t k =
    let p = k.pcb t in
    if leb p.wakeup_time now
    then (record k {
      pcb = update k.pcb t (record p { wakeup_time = 0; status = ready });
      links = list_add_tail ready_queue t (list_remove t k.links);
    })
    else k

-- The loop of check_sleeping from node `p` on. `ticks` is the clock: the value that the read with
-- `fuel` rounds left returns.
unfoldable pub check_sleeping_from : ℕ → (ℕ → ℕ) → ℕ → Kernel → Option Kernel
check_sleeping_from zero ticks p k = none
check_sleeping_from (suc fuel) ticks p k =
    let rest = check_sleeping_from fuel ticks (k.links.next p) (wake_sleeper (ticks fuel) p k) in
    if p == sleep_queue then some k else rest

-- A list of the kernel never holds more nodes than there are tasks, so that a walk over one takes at
-- most `walk_fuel` rounds, the last one to see its end.
abbrev pub walk_fuel : ℕ
walk_fuel = 19

-- check_sleeping
unfoldable pub check_sleeping : (ℕ → ℕ) → Kernel → Option Kernel
check_sleeping ticks k = check_sleeping_from walk_fuel ticks (k.links.next sleep_queue) k

-- set_satp, with the mode SATP_MODE_SV39
unfoldable pub set_satp : ℕ → ℕ → ℕ
set_satp asid ppn = bit_or (bit_or (8 * 2 ^ 60) (asid * 2 ^ 44)) ppn

-- The end of do_scheduler: the address space is switched where the next task has another, the memory
-- of a task that has exited is given back, and the next task becomes the current one.
unfoldable pub switch_to : ℕ → Kernel → Kernel
unfolding set_satp
switch_to next k =
    let cur = k.pcb k.current in
    let p = k.pcb next in
    let k1 = record k { satp = set_satp p.asid (p.satp / 2 ^ 12) } in
    let k2 = if is_exited cur.status then free_process_mem (cur.asid % 256) k1 else k1 in
    if p.asid == cur.asid then record k { current = next } else record k2 { current = next }

-- The middle of do_scheduler: the first ready task leaves the ready queue, and the current one goes to
-- its end if it could run on.
unfoldable pub requeue : ℕ → Kernel → Kernel
requeue next k =
    let k1 = with_links (λ l. node_refresh next (list_remove next l)) (set_status next running k) in
    let cur = k1.current in
    if is_running (status_of k1 cur)
    then set_status cur ready (with_links (list_add_tail ready_queue cur) k1)
    else k1

unfoldable pub run_next : Kernel → Kernel
run_next k =
    let next = k.links.next ready_queue in
    if list_is_empty ready_queue k.links
    then switch_to k.current k
    else switch_to next (requeue next k)

-- do_scheduler
unfoldable pub do_scheduler : (ℕ → ℕ) → Kernel → Option Kernel
do_scheduler ticks k = elim (check_sleeping ticks k) [ none ↦ none | some k1 ↦ some (run_next k1) ]

-- do_sleep: `sleep_time * time_base` is computed in 64 bits.
unfoldable pub do_sleep : ℕ → ℕ → ℕ → (ℕ → ℕ) → Kernel → Option Kernel
unfolding do_block
do_sleep sleep_time time_base now ticks k =
    let cur = k.current in
    let k1 = do_block cur sleep_queue (set_status cur blocked k) in
    let wakeup = (now + sleep_time * time_base) % 2 ^ 64 in
    do_scheduler ticks
      (record k1 { pcb = update k1.pcb cur (record (k1.pcb cur) { wakeup_time = wakeup }) })

-- do_waitpid, which do_thread_join calls
unfoldable pub do_waitpid : ℕ → (ℕ → ℕ) → Kernel → Option Kernel
unfolding do_block
do_waitpid pid ticks k =
    let cur = k.current in
    let next = do_scheduler ticks (set_status cur blocked (do_block cur (wait_list pid) k)) in
    if is_exited (status_of k pid) then some k else next
