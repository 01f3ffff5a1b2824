-- ===== src/Proc.antt =====
-- The end of processes in kernel/sched/sched.c: do_kill, do_kill_all and do_exit, which syscall numbers
-- SYSCALL_KILL and SYSCALL_EXIT reach.
pub mod Release
pub mod Kill
use ucas_2024fall_oslab.Base.{
  ℕ, zero, suc, ◌+◌, ◌%◌, Bool, not, ◌&&◌, Option, none, some, ◌==◌, if◌then◌else◌,
}
use ucas_2024fall_oslab.Links.{list_remove}
use ucas_2024fall_oslab.State.{
  Kernel, exited, is_exited, wait_list, with_links, set_status, status_of, num_max_task,
}
use ucas_2024fall_oslab.Mm.{free_process_mem}
use ucas_2024fall_oslab.Sched.{wake_all, walk_fuel, do_scheduler}
use ucas_2024fall_oslab.Lock.{do_release_locks}

-- do_kill. The waiters' status is set before do_unblock, which does not read it.
unfoldable pub do_kill : ℕ → Kernel → Option Kernel
do_kill pid k =
    let k1 = do_release_locks pid (with_links (list_remove pid) k) in
    elim (wake_all walk_fuel (wait_list pid) k1) [
      | none ↦ none
      | some k2 ↦ some (set_status pid exited k2)
    ]

abbrev pub is_child : Kernel → ℕ → ℕ → Bool
is_child k pid i = ((k.pcb i).parent_pid == pid) && not (is_exited (status_of k i))

-- the loop of do_kill_all from task `i` on
unfoldable pub kill_children_from : ℕ → ℕ → ℕ → Kernel → Option Kernel
kill_children_from zero i pid k = some k
kill_children_from (suc n) i pid k = elim (if is_child k pid i then do_kill i k else some k) [
  | none ↦ none
  | some k1 ↦ kill_children_from n (i + 1) pid k1
]

-- do_kill_all; the address space identifier is passed as a byte.
unfoldable pub do_kill_all : ℕ → Kernel → Option Kernel
do_kill_all pid k = elim (kill_children_from num_max_task 0 pid k) [
  | none ↦ none
  | some k1 ↦ elim (do_kill pid k1) [
    | none ↦ none
    | some k2 ↦ some (free_process_mem ((k2.pcb pid).asid % 256) k2)
  ]
]

-- do_exit
unfoldable pub do_exit : (ℕ → ℕ) → Kernel → Option Kernel
do_exit ticks k = elim (do_kill_all (k.pcb k.current).pid k) [
  | none ↦ none
  | some k1 ↦ do_scheduler ticks k1
]

-- do_getpid
unfoldable pub do_getpid : Kernel → ℕ
do_getpid k = (k.pcb k.current).pid

-- get_child_thread_num: the count over the tasks from `i` on
unfoldable pub count_children_from : ℕ → ℕ → ℕ → Kernel → ℕ
count_children_from zero i pid k = 0
count_children_from (suc n) i pid k =
    let rest = count_children_from n (i + 1) pid k in
    if (k.pcb i).parent_pid == pid then suc rest else rest

unfoldable pub get_child_thread_num : ℕ → Kernel → ℕ
get_child_thread_num pid k = count_children_from num_max_task 0 pid k
