-- ===== src/Lock/BarrierWait.antt =====
-- do_barrier_wait of kernel/locking/lock.c.
use ucas_2024fall_oslab.Base.{
  ℕ, ◌+◌, ◌^◌, ◌<◌, ◌≡◌, refl, ◌≢◌, inl, inr, true, false, [], ◌∷◌, ◌++◌, arith, Bool-cases, some,
  ap, ◌∙◌, subst, update, length, length-append, add_int, le_int, leb,
}
use ucas_2024fall_oslab.Links.Queues.{Queues, push_back}
use ucas_2024fall_oslab.State.{
  blocked, running, Kernel, Barrier, num_tasks, ready_queue, sleep_queue, barrier_queue, status_of,
  set_status,
}
use ucas_2024fall_oslab.Sched.{do_block, do_scheduler, walk_fuel, wake_all}
use ucas_2024fall_oslab.Sched.Inv.{Inv, nobody, Inv-same}
use ucas_2024fall_oslab.Sched.Sleep.{woken, asleep, wake_time}
use ucas_2024fall_oslab.Sched.RoundRobin.{Scheduled, do_scheduler-Scheduled}
use ucas_2024fall_oslab.Sched.Wake.{AllWoken, wake_all-AllWoken, block_current-Inv}
use ucas_2024fall_oslab.Lock.{do_barrier_wait}

-- The barrier counts the tasks that wait at it, and they are fewer than its goal.
pub record BarrierOk (i : ℕ) (k : Kernel) (q : Queues) : Type 0 where
  pub counts : (k.barriers i).count ≡ length (q (barrier_queue i))
  pub below : (k.barriers i).count < (k.barriers i).goal
  pub goal_int : (k.barriers i).goal < 2 ^ 31

abbrev pub set_count : ℕ → ℕ → Kernel → Kernel
set_count i n k = record k { barriers = update k.barriers i (record (k.barriers i) { count = n }) }

-- The kernel in which the current task waits at barrier `i`.
abbrev pub waiting_at : ℕ → Kernel → Kernel
waiting_at i k =
    do_block k.current (barrier_queue i)
      (set_status k.current blocked (set_count i ((k.barriers i).count + 1) k))

-- What do_barrier_wait leaves.
pub data Arrived (ticks : ℕ → ℕ) (i : ℕ) (k : Kernel) (q : Queues) : Type 0 where
  last :
      (k.barriers i).count + 1 ≡ (k.barriers i).goal
      → (k' : Kernel) (q' : Queues) → do_barrier_wait i ticks k ≡ some k'
      → AllWoken (set_count i 0 k) q nobody (barrier_queue i) k' q'
      → BarrierOk i k' q'
      → Arrived ticks i k q
  early :
      (k.barriers i).count + 1 < (k.barriers i).goal
      → (k' : Kernel) (q' : Queues) → do_barrier_wait i ticks k ≡ some k'
      → Scheduled
          (waiting_at i k)
          (push_back (barrier_queue i) k.current q)
          (woken walk_fuel ticks (wake_time (waiting_at i k)) (q sleep_queue))
          (asleep walk_fuel ticks (wake_time (waiting_at i k)) (q sleep_queue))
          k'
          q'
      → q' (barrier_queue i) ≡ q (barrier_queue i) ++ k.current ∷ []
      → BarrierOk i k' q'
      → Arrived ticks i k q

module _ (ticks : ℕ → ℕ) (i : ℕ) (k : Kernel) (q : Queues)
    (inv : Inv k.links (status_of k) q nobody) (ok : BarrierOk i k q) where
  next_count : add_int (k.barriers i).count 1 ≡ (k.barriers i).count + 1
  next_count = ground (arith, ok.below, ok.goal_int)

  goal_test_last :
      (k.barriers i).count + 1 ≡ (k.barriers i).goal
      → le_int (k.barriers i).goal (add_int (k.barriers i).count 1) ≡ true
  goal_test_last e = ground (arith, ok.goal_int)

  goal_test_early :
      (k.barriers i).count + 1 < (k.barriers i).goal
      → le_int (k.barriers i).goal (add_int (k.barriers i).count 1) ≡ false
  goal_test_early e = ground (arith, ok.goal_int)

  arrive_last : (k.barriers i).count + 1 ≡ (k.barriers i).goal → Arrived ticks i k q
  unfolding do_barrier_wait
  arrive_last e = last e all.0 all.1 (rw (goal_test_last e) all.2) all.3 (record {
    counts = ground (arith, same, ap length all.3.here);
    below = ground (arith, same, ok.below);
    goal_int = ground (arith, same, ok.goal_int);
  })
    where
      all :
          (k' : Kernel) × (q' : Queues) × (wake_all walk_fuel (barrier_queue i) (set_count i 0 k)
            ≡ some k')
          × AllWoken (set_count i 0 k) q nobody (barrier_queue i) k' q'
      all =
          wake_all-AllWoken (set_count i 0 k) q nobody (barrier_queue i)
            (Inv-same k (set_count i 0 k) q nobody refl refl inv) (omega arith) (omega arith)

      same : all.0.barriers i ≡ (set_count i 0 k).barriers i
      same = ap (λ (m : Kernel). m.barriers i) all.3.same_rest

  module _ (cur_task : k.current < num_tasks) (cur_runs : status_of k k.current ≡ running)
      (others : q ready_queue ≢ []) where
    -- the scheduler run that follows the block
    blocked_run :
        let k1 = waiting_at i k in
        let q1 = push_back (barrier_queue i) k.current q in
        let up = woken walk_fuel ticks (wake_time k1) (q1 sleep_queue) in
        let down = asleep walk_fuel ticks (wake_time k1) (q1 sleep_queue) in
        (k' : Kernel) × (q' : Queues) × (do_scheduler ticks k1 ≡ some k')
        × Scheduled k1 q1 up down k' q'
    unfolding do_block
    blocked_run =
        do_scheduler-Scheduled ticks (waiting_at i k) (push_back (barrier_queue i) k.current q)
          (block_current-Inv (set_count i ((k.barriers i).count + 1) k) q (barrier_queue i)
            (Inv-same k (set_count i ((k.barriers i).count + 1) k) q nobody refl refl inv) cur_task
            cur_runs (omega arith) (omega arith))
          cur_task (inr ((λ e. ground arith), (λ e. others (ground arith))))

    same_sleep : push_back (barrier_queue i) k.current q sleep_queue ≡ q sleep_queue
    same_sleep = ground arith

    at_end : blocked_run.1 (barrier_queue i) ≡ q (barrier_queue i) ++ k.current ∷ []
    at_end = blocked_run.3.other (barrier_queue i) (omega arith) (omega arith) ∙ ground arith

    same_barrier : blocked_run.0.barriers i ≡ (set_count i ((k.barriers i).count + 1) k).barriers i
    unfolding do_block
    same_barrier = ap (λ (f : ℕ → Barrier). f i) blocked_run.3.same_barriers

    arrive_early : (k.barriers i).count + 1 < (k.barriers i).goal → Arrived ticks i k q
    unfolding do_barrier_wait
    arrive_early e =
        early e blocked_run.0 blocked_run.1 (rw (goal_test_early e, next_count) blocked_run.2)
          (subst
            (λ z.
              Scheduled (waiting_at i k) (push_back (barrier_queue i) k.current q)
                (woken walk_fuel ticks (wake_time (waiting_at i k)) z)
                (asleep walk_fuel ticks (wake_time (waiting_at i k)) z) blocked_run.0 blocked_run.1)
            same_sleep blocked_run.3)
          at_end
          (record {
            counts = ground (
              arith,
              same_barrier,
              ok.counts,
              ap length at_end,
              length-append (q (barrier_queue i)) (k.current ∷ []),
            );
            below = ground (arith, same_barrier);
            goal_int = ground (arith, same_barrier, ok.goal_int);
          })

-- do_barrier_wait returns, where the lists are in order, a running task calls it, another one is ready
-- and the barrier counts its waiters, fewer than its goal. The last task to arrive makes all the waiters
-- ready and starts the count again. An earlier one goes to the end of the barrier's queue, blocked, and
-- the scheduler chooses another. The barrier still counts its waiters after both.
pub do_barrier_wait-Arrived :
    (ticks : ℕ → ℕ) (i : ℕ) (k : Kernel) (q : Queues)
    → Inv k.links (status_of k) q nobody
    → BarrierOk i k q
    → k.current < num_tasks
    → status_of k k.current ≡ running
    → q ready_queue ≢ []
    → Arrived ticks i k q
do_barrier_wait-Arrived ticks i k q inv ok ct cr others =
    elim (Bool-cases (leb (k.barriers i).goal ((k.barriers i).count + 1))) [
      | inl e ↦ arrive_last ticks i k q inv ok (ground (arith, ok.below))
      | inr e ↦ arrive_early ticks i k q inv ok ct cr others (ground arith)
    ]
