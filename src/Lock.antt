-- ===== src/Lock.antt =====
-- kernel/locking/lock.c: mutex locks, barriers and condition variables. An index is what the caller
-- passes; the arrays have 16 elements, and the code does not check it. A key is an `int`, -1 for an
-- element that is free.
pub mod Handles
pub mod Mutex
pub mod BarrierWait
pub mod Condition
pub mod Setup
use ucas_2024fall_oslab.Base.{
  ℕ, zero, suc, ◌+◌, Bool, true, false, Option, none, some, ◌==◌, update, if◌then◌else◌, minus_one,
  add_int, le_int,
}
use ucas_2024fall_oslab.Links.{list_is_empty}
use ucas_2024fall_oslab.State.{
  blocked, ready, LockStatus, unlocked, locked, Kernel, lock_queue, barrier_queue, condition_queue,
  set_status,
}
use ucas_2024fall_oslab.Sched.{do_block, do_unblock, wake, wake_all, do_scheduler, walk_fuel}

abbrev pub lock_num : ℕ
lock_num = 16

-- `for (; i < i + n; i++) if (keys[i] == key) return i;`
unfoldable pub find_key : ℕ → ℕ → ℕ → (ℕ → ℕ) → Option ℕ
find_key zero i key keys = none
find_key (suc n) i key keys =
    let rest = find_key n (i + 1) key keys in if keys i == key then some i else rest

-- The two searches of do_mutex_lock_init, do_barrier_init and do_condition_init: for the key, then for
-- a free element. The flag says that the element has to be set up; `none` is the return value -1.
unfoldable pub find_or_create : ℕ → (ℕ → ℕ) → Option (ℕ × Bool)
find_or_create key keys = elim (find_key lock_num 0 key keys) [
  | some i ↦ some (i, false)
  | none ↦ elim (find_key lock_num 0 minus_one keys) [ some i ↦ some (i, true) | none ↦ none ]
]

abbrev pub lock_key : Kernel → ℕ → ℕ
lock_key k i = (k.mlocks i).key

abbrev pub barrier_key : Kernel → ℕ → ℕ
barrier_key k i = (k.barriers i).key

abbrev pub is_unlocked : LockStatus → Bool
is_unlocked s = elim s [ unlocked ↦ true | locked ↦ false ]

-- do_mutex_lock_init
unfoldable pub do_mutex_lock_init : ℕ → Kernel → Option ℕ × Kernel
do_mutex_lock_init key k = elim (find_or_create key (lock_key k)) [
  | none ↦ (none, k)
  | some (i, fresh) ↦ (
    some i,
    if fresh
        then record k { mlocks = update k.mlocks i (record (k.mlocks i) { key = key }) }
        else k,
  )
]

-- `mlocks[i].lock.status = LOCKED; mlocks[i].owner = pid;`
abbrev pub take_lock : ℕ → ℕ → Kernel → Kernel
take_lock i pid k = record k {
  mlocks = update k.mlocks i (record (k.mlocks i) { lock = locked; owner = pid });
}

-- do_mutex_lock_acquire
unfoldable pub do_mutex_lock_acquire : ℕ → (ℕ → ℕ) → Kernel → Option Kernel
do_mutex_lock_acquire i ticks k =
    let cur = k.current in
    let waits = do_scheduler ticks (do_block cur (lock_queue i) (set_status cur blocked k)) in
    if is_unlocked (k.mlocks i).lock then some (take_lock i (k.pcb cur).pid k) else waits

-- do_mutex_lock_acquire_non_sched
unfoldable pub do_mutex_lock_acquire_non_sched : ℕ → ℕ → Kernel → Kernel
do_mutex_lock_acquire_non_sched t i k =
    if is_unlocked (k.mlocks i).lock
    then take_lock i (k.pcb t).pid k
    else do_block t (lock_queue i) (set_status t blocked k)

-- The common part of do_mutex_lock_release and do_release_locks: the lock goes to the first task that
-- waits for it, or is free.
unfoldable pub hand_over : ℕ → Kernel → Kernel
hand_over i k =
    let t = k.links.next (lock_queue i) in
    let k1 = do_unblock t k in
    let k2 = record k1 {
      mlocks = update k1.mlocks i (record (k1.mlocks i) { owner = (k1.pcb t).pid });
    } in
    if list_is_empty (lock_queue i) k.links
    then record k { mlocks = update k.mlocks i (record (k.mlocks i) { lock = unlocked }) }
    else set_status t ready k2

-- do_mutex_lock_release
unfoldable pub do_mutex_lock_release : ℕ → Kernel → Kernel
do_mutex_lock_release i k = if (k.pcb k.current).pid == (k.mlocks i).owner then hand_over i k else k

-- do_release_locks: the rounds of the loop from lock `i` on
unfoldable pub release_locks_from : ℕ → ℕ → ℕ → Kernel → Kernel
release_locks_from zero i pid k = k
release_locks_from (suc n) i pid k =
    release_locks_from n (i + 1) pid (elim (is_unlocked (k.mlocks i).lock) [
      | true ↦ k
      | false ↦ if (k.mlocks i).owner == pid then hand_over i k else k
    ])

unfoldable pub do_release_locks : ℕ → Kernel → Kernel
do_release_locks pid k = release_locks_from lock_num 0 pid k

-- do_barrier_init
unfoldable pub do_barrier_init : ℕ → ℕ → Kernel → Option ℕ × Kernel
do_barrier_init key goal k = elim (find_or_create key (barrier_key k)) [
  | none ↦ (none, k)
  | some (i, fresh) ↦ (
    some i,
    if fresh
        then (record k {
          barriers = update k.barriers i (record (k.barriers i) { key = key; goal = goal });
        })
        else k,
  )
]

-- do_barrier_wait
unfoldable pub do_barrier_wait : ℕ → (ℕ → ℕ) → Kernel → Option Kernel
do_barrier_wait i ticks k =
    let b = k.barriers i in
    let n = add_int b.count 1 in
    let k1 = record k { barriers = update k.barriers i (record b { count = n }) } in
    let k2 = record k { barriers = update k.barriers i (record b { count = 0 }) } in
    let cur = k.current in
    let waits = do_scheduler ticks (do_block cur (barrier_queue i) (set_status cur blocked k1)) in
    if le_int b.goal n then wake_all walk_fuel (barrier_queue i) k2 else waits

-- do_condition_init
unfoldable pub do_condition_init : ℕ → Kernel → Option ℕ × Kernel
do_condition_init key k = elim (find_or_create key k.conditions) [
  | none ↦ (none, k)
  | some (i, fresh) ↦
      (some i, if fresh then record k { conditions = update k.conditions i key } else k)
]

-- do_condition_wait
unfoldable pub do_condition_wait : ℕ → ℕ → (ℕ → ℕ) → Kernel → Option Kernel
do_condition_wait c m ticks k =
    let k1 = do_mutex_lock_release m k in
    let cur = k1.current in
    let k2 = record k1 {
      pcb = update k1.pcb cur (record (k1.pcb cur) { status = blocked; mutex_idx = m });
    } in
    do_scheduler ticks (do_block cur (condition_queue c) k2)

-- The step of do_condition_signal and do_condition_broadcast: the first waiter is made ready, and then
-- takes its mutex or waits for it.
unfoldable pub signal_first : ℕ → Kernel → Kernel
signal_first c k =
    let t = k.links.next (condition_queue c) in
    let k1 = wake t k in do_mutex_lock_acquire_non_sched t (k1.pcb t).mutex_idx k1

-- do_condition_signal
unfoldable pub do_condition_signal : ℕ → Kernel → Kernel
do_condition_signal c k = if list_is_empty (condition_queue c) k.links then k else signal_first c k

-- do_condition_broadcast, on fuel
unfoldable pub broadcast_from : ℕ → ℕ → Kernel → Option Kernel
broadcast_from zero c k = none
broadcast_from (suc fuel) c k =
    let rest = broadcast_from fuel c (signal_first c k) in
    if list_is_empty (condition_queue c) k.links then some k else rest

unfoldable pub do_condition_broadcast : ℕ → Kernel → Option Kernel
do_condition_broadcast c k = broadcast_from walk_fuel c k
