-- ===== src/Tests/Machine.antt =====
-- A kernel in which task 1 runs, task 2 is ready, task 3 waits for lock 0, which task 1 holds, task 4
-- waits for task 1 to exit, and task 5 sleeps.
use ucas_2024fall_oslab.Base.{
  ℕ, ◌≤◌, ◌<◌, refl, [], arith, update, minus_one, if◌then◌else◌, ◌==◌, ◌+◌, ◌*◌,
}
use ucas_2024fall_oslab.Links.{list_add_tail}
use ucas_2024fall_oslab.Links.Queues.{Queues, push_back, Absent, first_head}
use ucas_2024fall_oslab.State.{
  Status, running, ready, blocked, Pcb, unlocked, locked, Kernel, num_tasks, ready_queue,
  sleep_queue, lock_queue, wait_list, with_links, set_status, status_of,
}
use ucas_2024fall_oslab.Sched.Inv.{Inv, nobody, Inv-ext, Inv-same, Belongs}
use ucas_2024fall_oslab.Sched.Moves.{enter_back-Inv}

abbrev pub task : ℕ → Pcb
task t = record {
  pid = t;
  parent_pid = minus_one;
  status = running;
  cursor_x = 0;
  cursor_y = 0;
  wakeup_time = 10 * t;
  mutex_idx = 0;
  mbox_buf = 0;
  mbox_size = 0;
  mbox_rw = minus_one;
  satp = 0;
  asid = 32 + t;
}

-- No task is on a list, the locks are free, and so are the pages from page 3 on; page 0 is the
-- kernel's, page 1 has been accessed.
abbrev pub idle : Kernel
idle = record {
  links = record { next = λ n. n; prev = λ n. n };
  pcb = task;
  current = 1;
  mlocks = λ i. record { lock = unlocked; key = minus_one; owner = 0 };
  barriers = λ i. record { key = 7; goal = 2; count = 0 };
  conditions = λ i. minus_one;
  free_mem_map = λ i. if i == 0 then 0x41 else if i == 1 then 0xa1 else if i == 2 then 0x22 else 0;
  free_pgt_map = λ i. if i == 0 then 0x21 else 0;
  swap_info = λ i. record { va = 0; asid = 0; sec_num = 0 };
  clock_ptr = 0;
  sec_ptr = 0;
  va_info = λ i. 0x10000 + 4096 * i;
  word = λ a. a;
  disk = λ s o. 0;
  padding_start_sec = 1000;
  satp = 0;
}

abbrev no_lists : Queues
no_lists h = []

idle-Inv : Inv idle.links (status_of idle) no_lists nobody
idle-Inv = record {
  view = record {
    ring = λ h hh. (refl, refl);
    distinct = λ h. tt;
    small = λ h n e. absurd (ground arith);
    heads = λ h n e. absurd (ground arith);
    only = λ h g n e f. absurd (ground arith);
  };
  tasks = λ h t e. absurd (ground arith);
  stands = λ t h ne. record { absent = λ g. refl; next_self = refl; prev_self = refl };
  apart = λ g. refl;
}

-- Task `t` is put on list `h`, with status `s`.
abbrev pub enlist : ℕ → ℕ → Status → Kernel → Kernel
enlist h t s k = with_links (list_add_tail h t) (set_status t s k)

pub enlist-Inv :
    (h t : ℕ) (s : Status) (k : Kernel) (q : Queues)
    → Inv k.links (status_of k) q nobody
    → t < num_tasks
    → Absent q t
    → first_head ≤ h
    → Belongs s h
    → Inv (enlist h t s k).links (status_of (enlist h t s k)) (push_back h t q) nobody
enlist-Inv h t s k q i ht absent hh b =
    Inv-ext (status_of (enlist h t s k)) (λ u. ground arith)
      (enter_back-Inv k.links (status_of k) q nobody i t h s ht (omega arith) absent hh b)

abbrev pub two : Kernel
two = enlist ready_queue 2 ready idle

abbrev pub two_lists : Queues
two_lists = push_back ready_queue 2 no_lists

pub two-Inv : Inv two.links (status_of two) two_lists nobody
two-Inv =
    enlist-Inv ready_queue 2 ready idle no_lists idle-Inv (omega arith) (λ h. refl) (omega arith)
      refl

abbrev three : Kernel
three = enlist (lock_queue 0) 3 blocked two

abbrev three_lists : Queues
three_lists = push_back (lock_queue 0) 3 two_lists

three-Inv : Inv three.links (status_of three) three_lists nobody
three-Inv =
    enlist-Inv (lock_queue 0) 3 blocked two two_lists two-Inv (omega arith) (λ h. ground arith)
      (omega arith) (λ e. omega arith)

abbrev four : Kernel
four = enlist (wait_list 1) 4 blocked three

abbrev four_lists : Queues
four_lists = push_back (wait_list 1) 4 three_lists

four-Inv : Inv four.links (status_of four) four_lists nobody
four-Inv =
    enlist-Inv (wait_list 1) 4 blocked three three_lists three-Inv (omega arith) (λ h. ground arith)
      (omega arith) (λ e. omega arith)

abbrev five : Kernel
five = enlist sleep_queue 5 blocked four

abbrev pub busy_lists : Queues
busy_lists = push_back sleep_queue 5 four_lists

five-Inv : Inv five.links (status_of five) busy_lists nobody
five-Inv =
    enlist-Inv sleep_queue 5 blocked four four_lists four-Inv (omega arith) (λ h. ground arith)
      (omega arith) (λ e. omega arith)

abbrev pub busy : Kernel
busy = record five { mlocks = update five.mlocks 0 (record { lock = locked; key = 9; owner = 1 }) }

pub busy-Inv : Inv busy.links (status_of busy) busy_lists nobody
busy-Inv = Inv-same five busy busy_lists nobody refl refl five-Inv
