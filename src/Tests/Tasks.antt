-- ===== src/Tests/Tasks.antt =====
-- The scheduler, the lists and the end of processes on a small machine.
use ucas_2024fall_oslab.Base.{ℕ, ◌<◌, ◌≡◌, refl, ◌≢◌, inl, true, [], ◌∷◌, ◌++◌, arith, has, some}
use ucas_2024fall_oslab.Links.{list_remove}
use ucas_2024fall_oslab.Links.Queues.{Queues, View, detach, push_back}
use ucas_2024fall_oslab.Links.Moves.{list_remove-View}
use ucas_2024fall_oslab.State.{
  exited, Kernel, ready_queue, sleep_queue, lock_queue, wait_list, status_of,
}
use ucas_2024fall_oslab.Sched.{
  do_scheduler, check_sleeping, wake_all, walk_fuel, do_waitpid, do_sleep,
}
use ucas_2024fall_oslab.Sched.Inv.{nobody}
use ucas_2024fall_oslab.Sched.Sleep.{woken, asleep, wake_time, Slept, check_sleeping-Slept}
use ucas_2024fall_oslab.Sched.RoundRobin.{Scheduled, do_scheduler-Scheduled}
use ucas_2024fall_oslab.Sched.Wake.{AllWoken, wake_all-AllWoken}
use ucas_2024fall_oslab.Sched.Waiting.{
  blocked_on, sleeping_until, RanScheduler, do_waitpid-RanScheduler, do_sleep-RanScheduler,
}
use ucas_2024fall_oslab.Lock.{lock_num, do_release_locks}
use ucas_2024fall_oslab.Proc.{do_kill}
use ucas_2024fall_oslab.Proc.Release.{Released, do_release_locks-Released}
use ucas_2024fall_oslab.Proc.Kill.{Killed, do_kill-Killed}
use ucas_2024fall_oslab.Tests.Machine.{busy, busy_lists, busy-Inv}

-- the time at which task 5 has slept long enough
abbrev late : ℕ → ℕ
late n = 60

others_ready : busy_lists ready_queue ≢ []
others_ready e = ground arith

do_scheduler-Scheduled_example :
    (k' : Kernel) × (q' : Queues) × (do_scheduler late busy ≡ some k')
    × Scheduled busy busy_lists
        (woken walk_fuel late (wake_time busy) (busy_lists sleep_queue))
        (asleep walk_fuel late (wake_time busy) (busy_lists sleep_queue))
        k'
        q'
do_scheduler-Scheduled_example =
    do_scheduler-Scheduled late busy busy_lists busy-Inv (omega arith) (inl refl)

check_sleeping-Slept_example :
    (k' : Kernel) × (q' : Queues) × (check_sleeping late busy ≡ some k')
    × Slept busy busy_lists []
        (woken walk_fuel late (wake_time busy) (busy_lists sleep_queue))
        (asleep walk_fuel late (wake_time busy) (busy_lists sleep_queue))
        k'
        q'
check_sleeping-Slept_example = check_sleeping-Slept late busy busy_lists busy-Inv

wake_all-AllWoken_example :
    (k' : Kernel) × (q' : Queues) × (wake_all walk_fuel (wait_list 1) busy ≡ some k')
    × AllWoken busy busy_lists nobody (wait_list 1) k' q'
wake_all-AllWoken_example =
    wake_all-AllWoken busy busy_lists nobody (wait_list 1) busy-Inv (omega arith) (omega arith)

do_waitpid-RanScheduler_example :
    (status_of busy 2 ≡ exited → do_waitpid 2 late busy ≡ some busy)
    × (status_of busy 2 ≢ exited
        → (k' : Kernel) × (q' : Queues) × (do_waitpid 2 late busy ≡ some k')
          × RanScheduler late
              (blocked_on (wait_list 2) busy)
              (push_back (wait_list 2) 1 busy_lists)
              k'
              q'
          × (q' (wait_list 2) ≡ busy_lists (wait_list 2) ++ 1 ∷ []))
do_waitpid-RanScheduler_example =
    do_waitpid-RanScheduler 2 late busy busy_lists busy-Inv (omega arith) refl others_ready

do_sleep-RanScheduler_example :
    (k' : Kernel) × (q' : Queues) × (do_sleep 3 10 60 late busy ≡ some k')
    × RanScheduler late (sleeping_until 90 busy) (push_back sleep_queue 1 busy_lists) k' q'
    × (((n : ℕ) → late n < 90) → has 1 (q' sleep_queue) ≡ true)
do_sleep-RanScheduler_example =
    do_sleep-RanScheduler 3 10 60 late busy busy_lists busy-Inv (omega arith) refl others_ready

list_remove-View_example : View (list_remove 3 busy.links) (detach 3 busy_lists)
list_remove-View_example =
    list_remove-View busy.links busy_lists busy-Inv.view 3 (inl (lock_queue 0, refl))

do_release_locks-Released_example :
    (q' : Queues) × Released lock_num 0 1 nobody busy busy_lists (do_release_locks 1 busy) q'
do_release_locks-Released_example =
    do_release_locks-Released 1 nobody busy busy_lists busy-Inv (λ i t lt h. ground arith)

do_kill-Killed_example :
    (k' : Kernel) × (q' : Queues) × (do_kill 1 busy ≡ some k') × Killed 1 busy busy_lists k' q'
do_kill-Killed_example =
    do_kill-Killed 1 busy busy_lists busy-Inv (omega arith) (λ e. ground arith)
      (λ i t lt h. ground arith)
