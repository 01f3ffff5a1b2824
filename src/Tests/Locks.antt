-- ===== src/Tests/Locks.antt =====
-- Locks and barriers on a small machine.
use ucas_2024fall_oslab.Lock.Condition.{Signalled, do_condition_signal-Signalled}
use ucas_2024fall_oslab.Base.{
  ℕ, ◌≡◌, refl, ◌≢◌, inl, inr, [], arith, none, some, Bool-cases, ◌==◌, ne_of_==,
}
use ucas_2024fall_oslab.Links.Queues.{Queues, push_back}
use ucas_2024fall_oslab.State.{unlocked, Kernel, ready_queue, status_of, condition_queue, blocked}
use ucas_2024fall_oslab.Sched.Inv.{Inv, nobody}
use ucas_2024fall_oslab.Lock.{
  find_key, find_or_create, do_mutex_lock_init, do_mutex_lock_acquire, do_mutex_lock_release,
  do_condition_signal,
}
use ucas_2024fall_oslab.Lock.Handles.{Given, do_mutex_lock_init-Given}
use ucas_2024fall_oslab.Lock.Mutex.{
  HandedOver, do_mutex_lock_release-HandedOver, Acquired, do_mutex_lock_acquire-Acquired,
  WaitForTaken, locks-WaitForTaken,
}
use ucas_2024fall_oslab.Lock.BarrierWait.{Arrived, BarrierOk, do_barrier_wait-Arrived}
use ucas_2024fall_oslab.Tests.Machine.{busy, busy_lists, busy-Inv, enlist, enlist-Inv}

abbrev early : ℕ → ℕ
early n = 1

others_ready : busy_lists ready_queue ≢ []
others_ready e = ground arith

busy-WaitForTaken : WaitForTaken busy busy_lists
busy-WaitForTaken i lt ne = elim (Bool-cases (i == 0)) [
  | inl e ↦ rw e refl
  | inr e ↦ absurd (ne (ground (arith, ne_of_== i 0 e)))
]

do_mutex_lock_release-HandedOver_example :
    ((busy.pcb 1).pid ≢ (busy.mlocks 0).owner → do_mutex_lock_release 0 busy ≡ busy)
    × ((busy.pcb 1).pid ≡ (busy.mlocks 0).owner
        → (q' : Queues) × HandedOver busy busy_lists nobody 0 (do_mutex_lock_release 0 busy) q')
do_mutex_lock_release-HandedOver_example =
    do_mutex_lock_release-HandedOver 0 busy busy_lists busy-Inv

do_mutex_lock_acquire-Acquired_example : Acquired early 0 busy busy_lists
do_mutex_lock_acquire-Acquired_example =
    do_mutex_lock_acquire-Acquired early 0 busy busy_lists busy-Inv (omega arith) refl others_ready

locks-WaitForTaken_example :
    ((k' : Kernel) × (q' : Queues) × (do_mutex_lock_acquire 0 early busy ≡ some k')
      × Inv k'.links (status_of k') q' nobody
      × WaitForTaken k' q')
    × ((q' : Queues) × Inv
          (do_mutex_lock_release 0 busy).links
          (status_of (do_mutex_lock_release 0 busy))
          q'
          nobody
        × WaitForTaken (do_mutex_lock_release 0 busy) q')
locks-WaitForTaken_example =
    locks-WaitForTaken early 0 busy busy_lists busy-Inv (omega arith) refl others_ready
      busy-WaitForTaken

barrier_ok : BarrierOk 0 busy busy_lists
barrier_ok = record { counts = refl; below = omega arith; goal_int = omega arith }

do_barrier_wait-Arrived_example : Arrived early 0 busy busy_lists
do_barrier_wait-Arrived_example =
    do_barrier_wait-Arrived early 0 busy busy_lists busy-Inv barrier_ok (omega arith) refl
      others_ready

init_known : do_mutex_lock_init 9 busy ≡ (some 0, busy)
unfolding do_mutex_lock_init find_or_create find_key
init_known = refl

init_new : do_mutex_lock_init 8 busy ≡ (some 1, (do_mutex_lock_init 8 busy).1)
unfolding do_mutex_lock_init find_or_create find_key
init_new = refl

abbrev taken_locks : Kernel
taken_locks = record busy { mlocks = λ i. record { lock = unlocked; key = 5; owner = 0 } }

init_none_left : do_mutex_lock_init 9 taken_locks ≡ (none, taken_locks)
unfolding do_mutex_lock_init find_or_create find_key
init_none_left = refl

do_mutex_lock_init-Given_example : Given 9 busy 0 busy
do_mutex_lock_init-Given_example = do_mutex_lock_init-Given 9 busy 0 busy init_known

-- Task 6 waits for condition variable 0; its mutex is taken.
abbrev waiting : Kernel
waiting = enlist (condition_queue 0) 6 blocked busy

abbrev waiting_lists : Queues
waiting_lists = push_back (condition_queue 0) 6 busy_lists

waiting-Inv : Inv waiting.links (status_of waiting) waiting_lists nobody
waiting-Inv =
    enlist-Inv (condition_queue 0) 6 blocked busy busy_lists busy-Inv (omega arith)
      (λ h. ground arith) (omega arith) (λ e. omega arith)

do_condition_signal-Signalled_example :
    Signalled 0 waiting waiting_lists (do_condition_signal 0 waiting)
do_condition_signal-Signalled_example =
    do_condition_signal-Signalled 0 waiting waiting_lists waiting-Inv (λ t h. ground arith)
