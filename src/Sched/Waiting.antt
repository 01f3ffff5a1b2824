-- ===== src/Sched/Waiting.antt =====
-- do_waitpid and do_sleep of kernel/sched/sched.c: the current task blocks and another one runs.
use ucas_2024fall_oslab.Base.{
  ℕ, zero, suc, ◌+◌, ◌*◌, ◌%◌, ◌^◌, ◌<◌, ◌≡◌, refl, ◌≢◌, inl, inr, true, false, List, [], ◌∷◌, ◌++◌,
  arith, ◌==◌, leb, has, Bool-cases, eq_of_==, some, ◌∙◌, subst, update, has-append,
}
use ucas_2024fall_oslab.Links.Queues.{Queues, push_back}
use ucas_2024fall_oslab.State.{
  blocked, running, ready, exited, Kernel, num_tasks, ready_queue, sleep_queue, wait_list,
  status_of, set_status, Status, is_exited,
}
use ucas_2024fall_oslab.Sched.{do_block, walk_fuel, do_waitpid, do_sleep}
use ucas_2024fall_oslab.Sched.Inv.{Inv, nobody, Inv-ext}
use ucas_2024fall_oslab.Sched.Sleep.{woken, asleep, wake_time}
use ucas_2024fall_oslab.Sched.RoundRobin.{CanSwitch, Scheduled, do_scheduler-Scheduled}
use ucas_2024fall_oslab.Sched.Wake.{block_current-Inv}

-- The kernel in which the current task is blocked on list `h`.
abbrev pub blocked_on : ℕ → Kernel → Kernel
blocked_on h k = do_block k.current h (set_status k.current blocked k)

-- The scheduler ran in kernel `k` with lists `q`.
abbrev pub RanScheduler : (ℕ → ℕ) → Kernel → Queues → Kernel → Queues → Type 0
RanScheduler ticks k q k' q' =
    Scheduled k q (woken walk_fuel ticks (wake_time k) (q sleep_queue))
      (asleep walk_fuel ticks (wake_time k) (q sleep_queue)) k' q'

module _ (k : Kernel) (q : Queues) (inv : Inv k.links (status_of k) q nobody)
    (ct : k.current < num_tasks) (cr : status_of k k.current ≡ running)
    (others : q ready_queue ≢ []) where
  blocked-CanSwitch :
      (h : ℕ) → h ≢ ready_queue → CanSwitch (blocked_on h k) (push_back h k.current q)
  unfolding do_block
  blocked-CanSwitch h nr = inr ((λ e. ground arith), (λ e. others (ground arith)))

not_exited : (s : Status) → s ≢ exited → is_exited s ≡ false
not_exited exited ne = absurd (ne refl)
not_exited running ne = refl
not_exited ready ne = refl
not_exited blocked ne = refl

-- do_waitpid for a process that has exited returns at once and changes nothing. For another one it
-- returns too, when a running task calls it and another task is ready: the caller goes to the end of
-- that process's waiters, blocked, and the scheduler chooses another task.
pub do_waitpid-RanScheduler :
    (pid : ℕ) (ticks : ℕ → ℕ) (k : Kernel) (q : Queues)
    → Inv k.links (status_of k) q nobody
    → k.current < num_tasks
    → status_of k k.current ≡ running
    → q ready_queue ≢ []
    → (status_of k pid ≡ exited → do_waitpid pid ticks k ≡ some k)
      × (status_of k pid ≢ exited
          → (k' : Kernel) × (q' : Queues) × (do_waitpid pid ticks k ≡ some k')
            × RanScheduler ticks
                (blocked_on (wait_list pid) k)
                (push_back (wait_list pid) k.current q)
                k'
                q'
            × (q' (wait_list pid) ≡ q (wait_list pid) ++ k.current ∷ []))
unfolding do_waitpid do_block
do_waitpid-RanScheduler pid ticks k q inv ct cr others = (
  λ e. rw e refl,
  λ ne.
      let (k', q', run, s) =
        do_scheduler-Scheduled ticks (blocked_on (wait_list pid) k)
          (push_back (wait_list pid) k.current q)
          (block_current-Inv k q (wait_list pid) inv ct cr (omega arith) (omega arith)) ct
          (blocked-CanSwitch k q inv ct cr others (wait_list pid) (omega arith)) in
      (
        k',
        q',
        rw (not_exited (status_of k pid) ne) run,
        s,
        s.other (wait_list pid) (omega arith) (omega arith) ∙ ground arith,
      ),
)

-- The kernel in which the current task sleeps until `wakeup`.
abbrev pub sleeping_until : ℕ → Kernel → Kernel
sleeping_until wakeup k =
    let k1 = blocked_on sleep_queue k in
    record k1 {
      pcb = update k1.pcb k1.current (record (k1.pcb k1.current) { wakeup_time = wakeup });
    }

has-asleep :
    (fuel : ℕ) (ticks w : ℕ → ℕ) (t : ℕ) (xs : List ℕ)
    → ((n : ℕ) → ticks n < w t)
    → has t xs ≡ true
    → has t (asleep fuel ticks w xs) ≡ true
unfolding asleep
has-asleep zero ticks w t xs late h = h
has-asleep (suc fuel) ticks w t [] late h = h
has-asleep (suc fuel) ticks w t (x ∷ xs) late h = elim (Bool-cases (t == x)) [
  | inl e ↦
      let awake : leb (w x) (ticks fuel) ≡ false =
        subst (λ y. leb (w y) (ticks fuel) ≡ false) (eq_of_== t x e) (ground (arith, late fuel)) in
      rw awake (ground arith)
  | inr e ↦ ground (arith, has-asleep fuel ticks w t xs late)
]

-- do_sleep returns, when a running task calls it and another task is ready. The caller goes to the end of
-- the sleep queue, blocked until the time `now + sleep_time * time_base`, in 64 bits; then the scheduler
-- runs. If no clock value that it reads has reached that time, the caller is still asleep after it.
pub do_sleep-RanScheduler :
    (sleep_time time_base now : ℕ) (ticks : ℕ → ℕ) (k : Kernel) (q : Queues)
    → Inv k.links (status_of k) q nobody
    → k.current < num_tasks
    → status_of k k.current ≡ running
    → q ready_queue ≢ []
    → let wakeup = (now + sleep_time * time_base) % 2 ^ 64 in
      (k' : Kernel) × (q' : Queues) × (do_sleep sleep_time time_base now ticks k ≡ some k')
      × RanScheduler ticks (sleeping_until wakeup k) (push_back sleep_queue k.current q) k' q'
      × (((n : ℕ) → ticks n < wakeup) → has k.current (q' sleep_queue) ≡ true)
unfolding do_sleep do_block
do_sleep-RanScheduler sleep_time time_base now ticks k q inv ct cr others =
    let wakeup = (now + sleep_time * time_base) % 2 ^ 64 in
    let m = sleeping_until wakeup k in
    let (k', q', run, s) =
      do_scheduler-Scheduled ticks m (push_back sleep_queue k.current q)
        (Inv-ext (status_of m) (λ t. ground arith)
          (block_current-Inv k q sleep_queue inv ct cr (omega arith) (omega arith)))
        ct (inr ((λ e. ground arith), (λ e. others (ground arith)))) in
    (
      k',
      q',
      run,
      s,
      λ late. rw s.sleep_now (
          has-asleep walk_fuel ticks (wake_time m) k.current _ (λ n. ground (arith, late n))
            (ground (arith, has-append k.current (q sleep_queue) (k.current ∷ [])))),
    )
