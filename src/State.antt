-- ===== src/State.antt =====
-- The kernel's global state: the process control blocks of include/os/sched.h, the locks of
-- include/os/lock.h, the page maps of kernel/mm/mm.c, and the addresses of the list nodes and heads.
-- One hart is modelled; `current` is its `current_running`.
use ucas_2024fall_oslab.Base.{ℕ, ◌+◌, Bool, true, false, update}
use ucas_2024fall_oslab.Links.{Links}

pub data Status : Type 0 where
  blocked running ready exited : Status

abbrev pub is_running : Status → Bool
is_running s = elim s [ running ↦ true | _ ↦ false ]

abbrev pub is_exited : Status → Bool
is_exited s = elim s [ exited ↦ true | _ ↦ false ]

-- `pcb_t`, less its list nodes, which `Links` holds, and the saved registers.
pub record Pcb : Type 0 where
  pub pid : ℕ
  pub parent_pid : ℕ
  pub status : Status
  pub cursor_x : ℕ
  pub cursor_y : ℕ
  pub wakeup_time : ℕ
  pub mutex_idx : ℕ
  pub mbox_buf : ℕ
  pub mbox_size : ℕ
  pub mbox_rw : ℕ
  pub satp : ℕ
  pub asid : ℕ

pub data LockStatus : Type 0 where
  unlocked locked : LockStatus

pub record MutexLock : Type 0 where
  pub lock : LockStatus
  pub key : ℕ
  pub owner : ℕ

pub record Barrier : Type 0 where
  pub key : ℕ
  pub goal : ℕ
  pub count : ℕ

pub record SwapInfo : Type 0 where
  pub va : ℕ
  pub asid : ℕ
  pub sec_num : ℕ

pub record Kernel : Type 0 where
  pub links : Links
  pub pcb : ℕ → Pcb
  pub current : ℕ
  pub mlocks : ℕ → MutexLock
  pub barriers : ℕ → Barrier
  -- the key of each condition variable
  pub conditions : ℕ → ℕ
  pub free_mem_map : ℕ → ℕ
  pub free_pgt_map : ℕ → ℕ
  pub swap_info : ℕ → SwapInfo
  pub clock_ptr : ℕ
  pub sec_ptr : ℕ
  pub va_info : ℕ → ℕ
  -- the 64-bit word at a kernel virtual address
  pub word : ℕ → ℕ
  -- the 64-bit words of a sector of the disk
  pub disk : ℕ → ℕ → ℕ
  pub padding_start_sec : ℕ
  -- the `satp` register
  pub satp : ℕ

-- `pcb[0..15]`, then `pid0_pcb[0..1]`
abbrev pub num_max_task : ℕ
num_max_task = 16

abbrev pub num_tasks : ℕ
num_tasks = 18

-- The address of a task's `list` node is the number of the task, so that NODE_TO_PCB is the
-- identity; the list heads stand from `first_head` on.
abbrev pub ready_queue : ℕ
ready_queue = 100

abbrev pub sleep_queue : ℕ
sleep_queue = 101

abbrev pub lock_queue : ℕ → ℕ
lock_queue i = 200 + i

abbrev pub barrier_queue : ℕ → ℕ
barrier_queue i = 300 + i

abbrev pub condition_queue : ℕ → ℕ
condition_queue i = 400 + i

abbrev pub wait_list : ℕ → ℕ
wait_list t = 600 + t

abbrev pub with_links : (Links → Links) → Kernel → Kernel
with_links f k = record k { links = f k.links }

-- `pcb[t].status = s`
abbrev pub set_status : ℕ → Status → Kernel → Kernel
set_status t s k = record k { pcb = update k.pcb t (record (k.pcb t) { status = s }) }

abbrev pub status_of : Kernel → ℕ → Status
status_of k t = (k.pcb t).status
