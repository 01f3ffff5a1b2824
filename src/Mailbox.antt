-- ===== src/Mailbox.antt =====
-- The mailboxes of kernel/locking/lock.c: sixteen buffers of 128 bytes with their names and waiters. An index is what
-- the caller passes; the code does not check it. The name of a box, a C string in 32 bytes, is the list of its
-- characters; the addresses that
-- a task passes are read and written in the address space of the task that runs.
pub mod Bounds
pub mod Fifo
pub mod Names
pub mod Waiters
use ucas_2024fall_oslab.Base.{
  ℕ, zero, suc, ◌+◌, ◌-◌, Bool, true, false, ◌&&◌, Option, none, some, List, [], ◌∷◌, ◌==◌, ltb,
  leb, update, if◌then◌else◌, minus_one, add_int, sub_int, le_int, ◌>>=◌, length,
}
use ucas_2024fall_oslab.State.{Kernel, blocked, set_status, with_links}
use ucas_2024fall_oslab.Links.{node_refresh}
use ucas_2024fall_oslab.Sched.{do_block, do_scheduler, wake, walk_fuel}

abbrev pub Memory : Type 0
Memory = ℕ → ℕ

pub record Mbox : Type 0 where
  pub buffer : Memory
  pub name : List ℕ
  pub length : ℕ
  pub ref_count : ℕ

-- `memory` gives the bytes of each address space, which `satp` selects.
pub record Mail : Type 0 where
  pub kernel : Kernel
  pub mboxes : ℕ → Mbox
  pub memory : ℕ → Memory

abbrev pub max_mbox_length : ℕ
max_mbox_length = 128

abbrev pub mbox_num : ℕ
mbox_num = 16

-- `&mboxes[i].wait_queue`
abbrev pub mbox_queue : ℕ → ℕ
mbox_queue i = 500 + i

-- `memcpy(to + a, from + b, n)`
abbrev pub copy : ℕ → ℕ → ℕ → Memory → Memory → Memory
copy n a b from to o = if leb a o && ltb o (a + n) then from (b + (o - a)) else to o

-- `strcmp(a, b) == 0`
abbrev pub same_name : List ℕ → List ℕ → Bool
same_name [] [] = true
same_name [] (d ∷ ds) = false
same_name (c ∷ cs) [] = false
same_name (c ∷ cs) (d ∷ ds) = (c == d) && same_name cs ds

abbrev pub is_empty : List ℕ → Bool
is_empty [] = true
is_empty (c ∷ cs) = false

-- `memcpy(buffer + length, msg, n); length += n`
abbrev pub put : ℕ → ℕ → Memory → Mbox → Mbox
put n msg from m = record m {
  buffer = copy n m.length msg from m.buffer;
  length = add_int m.length n;
}

-- `length -= n; memcpy(buffer, buffer + n, length)`
abbrev pub remove : ℕ → Mbox → Mbox
remove n m = record m {
  length = sub_int m.length n;
  buffer = copy (sub_int m.length n) 0 n m.buffer m.buffer;
}

abbrev pub has_room : ℕ → Mbox → Bool
has_room n m = le_int (add_int m.length n) max_mbox_length

abbrev pub has_data : ℕ → Mbox → Bool
has_data n m = le_int n m.length

abbrev pub set_mbox : ℕ → Mbox → Mail → Mail
set_mbox i m w = record w { mboxes = update w.mboxes i m }

-- the memory of the task that runs
abbrev pub seen : Mail → Memory
seen w = w.memory w.kernel.satp

abbrev pub set_seen : Memory → Mail → Mail
set_seen m w = record w { memory = update w.memory w.kernel.satp m }

-- `pcb_->mbox_rw = -1; do_unblock(node); pcb_->status = TASK_READY;`
unfoldable pub release_waiter : ℕ → Mail → Mail
release_waiter t w =
    let k = w.kernel in
    record w {
      kernel =
          wake t (record k { pcb = update k.pcb t (record (k.pcb t) { mbox_rw = minus_one }) });
    }

-- a round of do_mbox_send's loop over the waiters
unfoldable pub serve_reader : ℕ → ℕ → Mail → Mail
serve_reader i t w =
    let p = w.kernel.pcb t in
    let m = w.mboxes i in
    let served = release_waiter t (
      set_mbox i (remove p.mbox_size m)
        (set_seen (copy p.mbox_size p.mbox_buf 0 m.buffer (seen w)) w)) in
    if p.mbox_rw == 0 && has_data p.mbox_size m then served else w

-- a round of do_mbox_recv's loop over the waiters
unfoldable pub serve_writer : ℕ → ℕ → Mail → Mail
serve_writer i t w =
    let p = w.kernel.pcb t in
    let m = w.mboxes i in
    let served = release_waiter t (set_mbox i (put p.mbox_size p.mbox_buf (seen w) m) w) in
    if p.mbox_rw == 1 && has_room p.mbox_size m then served else w

-- `while (node != &wait_queue) { temp = node->next; ...; node = temp; }` on fuel; `none` is a loop that goes on.
unfoldable pub serve_all : ℕ → (ℕ → Mail → Mail) → ℕ → ℕ → Mail → Option Mail
serve_all zero step head node w = if node == head then some w else none
serve_all (suc n) step head node w =
    let rest = serve_all n step head (w.kernel.links.next node) (step node w) in
    if node == head then some w else rest

-- The running task waits on the mailbox: `rw` is 0 for a reader and 1 for a writer.
unfoldable pub wait_mbox : ℕ → ℕ → ℕ → ℕ → (ℕ → ℕ) → Mail → Option Mail
wait_mbox i msg n rw ticks w =
    let cur = w.kernel.current in
    let k = do_block cur (mbox_queue i) (set_status cur blocked w.kernel) in
    let waiting = record k {
      pcb = update k.pcb cur (record (k.pcb cur) { mbox_buf = msg; mbox_size = n; mbox_rw = rw });
    } in
    do next ← do_scheduler ticks waiting; some (record w { kernel = next })

-- do_mbox_send
unfoldable pub do_mbox_send : ℕ → ℕ → ℕ → (ℕ → ℕ) → Mail → Option (ℕ × Mail)
do_mbox_send i msg n ticks w =
    let v = set_mbox i (put n msg (seen w) (w.mboxes i)) w in
    do
      next ←
          if has_room n (w.mboxes i)
          then serve_all walk_fuel (serve_reader i) (mbox_queue i)
              (w.kernel.links.next (mbox_queue i)) v
          else wait_mbox i msg n 1 ticks w
      some (n, next)

-- do_mbox_recv
unfoldable pub do_mbox_recv : ℕ → ℕ → ℕ → (ℕ → ℕ) → Mail → Option (ℕ × Mail)
do_mbox_recv i msg n ticks w =
    let m = w.mboxes i in
    let v = set_mbox i (remove n m) (set_seen (copy n msg 0 m.buffer (seen w)) w) in
    do
      next ←
          if has_data n m
          then serve_all walk_fuel (serve_writer i) (mbox_queue i)
              (w.kernel.links.next (mbox_queue i)) v
          else wait_mbox i msg n 0 ticks w
      some (n, next)

-- `length = 0; name[0] = '\0'`, and the list of waiters that is made empty
abbrev pub reset : ℕ → Mail → Mail
reset i w = record w {
  mboxes = update w.mboxes i (record (w.mboxes i) { length = 0; name = [] });
  kernel = with_links (node_refresh (mbox_queue i)) w.kernel;
}

-- init_mbox, from box `i` on
unfoldable pub init_mbox_from : ℕ → ℕ → Mail → Mail
init_mbox_from zero i w = w
init_mbox_from (suc n) i w =
    let v = reset i w in
    init_mbox_from n (i + 1) (set_mbox i (record (v.mboxes i) { ref_count = 0 }) v)

unfoldable pub init_mbox : Mail → Mail
init_mbox w = init_mbox_from mbox_num 0 w

-- the loops of do_mbox_open: the first box with the name, and the first without one
unfoldable pub find_box : ℕ → ℕ → (List ℕ → Bool) → (ℕ → Mbox) → Option ℕ
find_box zero i test boxes = none
find_box (suc n) i test boxes =
    let rest = find_box n (i + 1) test boxes in if test (boxes i).name then some i else rest

abbrev pub add_ref : Mbox → Mbox
add_ref m = record m { ref_count = add_int m.ref_count 1 }

-- the size of `name`
abbrev pub name_size : ℕ
name_size = 32

-- do_mbox_open by the outcomes of its two searches. A new name that does not fit into `name` overwrites what lies behind
-- it, the list of waiters first; the model has no result for it.
abbrev pub opened : List ℕ → Mail → Option ℕ → Option ℕ → Option (ℕ × Mail)
opened name w (some i) unnamed = some (i, set_mbox i (add_ref (w.mboxes i)) w)
opened name w none (some i) =
    if ltb (length name) name_size
    then some (i, set_mbox i (add_ref (record (w.mboxes i) { name = name })) w)
    else none
opened name w none none = some (minus_one, w)

-- do_mbox_open
unfoldable pub do_mbox_open : List ℕ → Mail → Option (ℕ × Mail)
do_mbox_open name w =
    opened name w (find_box mbox_num 0 (same_name name) w.mboxes)
      (find_box mbox_num 0 is_empty w.mboxes)

-- do_mbox_close
unfoldable pub do_mbox_close : ℕ → Mail → Mail
do_mbox_close i w =
    let m = w.mboxes i in
    let v = set_mbox i (record m { ref_count = sub_int m.ref_count 1 }) w in
    if (v.mboxes i).ref_count == 0 then reset i v else v
