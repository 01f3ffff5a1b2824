-- ===== src/Lock/Mutex.antt =====
-- do_mutex_lock_acquire and do_mutex_lock_release of kernel/locking/lock.c.
use ucas_2024fall_oslab.Base.{
  ℕ, ◌<◌, ◌≡◌, refl, ◌≢◌, inl, inr, false, List, [], ◌∷◌, ◌++◌, arith, ◌==◌, has, Bool-cases,
  eq_of_==, ne_of_==, some, sym, ap, ◌∙◌, subst, ==_refl, ap₂,
}
use ucas_2024fall_oslab.Links.Queues.{Queues, push_back}
use ucas_2024fall_oslab.State.{
  LockStatus, unlocked, locked, blocked, running, Kernel, num_tasks, ready_queue, sleep_queue,
  lock_queue, status_of, set_status, MutexLock,
}
use ucas_2024fall_oslab.Sched.{do_block, do_scheduler, walk_fuel, wake}
use ucas_2024fall_oslab.Sched.Inv.{Inv, nobody, Inv-same}
use ucas_2024fall_oslab.Sched.Sleep.{woken, asleep, wake_time}
use ucas_2024fall_oslab.Sched.RoundRobin.{Scheduled, do_scheduler-Scheduled}
use ucas_2024fall_oslab.Sched.Wake.{
  block_current-Inv, woken_lists, empty_of, head_of, wake-Inv, woken_here, woken_ready, woken_other,
}
use ucas_2024fall_oslab.Lock.{
  take_lock, do_mutex_lock_acquire, hand_over, do_mutex_lock_release, lock_num,
}

abbrev pub tail : List ℕ → List ℕ
tail [] = []
tail (x ∷ xs) = xs

-- The tasks that a release makes ready: the first that waits.
abbrev pub heir : List ℕ → List ℕ
heir [] = []
heir (x ∷ xs) = x ∷ []

abbrev pub lock_after : LockStatus → List ℕ → LockStatus
lock_after s [] = unlocked
lock_after s (x ∷ xs) = s

abbrev pub owner_after : Kernel → ℕ → List ℕ → ℕ
owner_after k i [] = (k.mlocks i).owner
owner_after k i (x ∷ xs) = (k.pcb x).pid

-- What giving up lock `i` leaves.
pub record HandedOver (k : Kernel) (q : Queues) (x i : ℕ) (k' : Kernel) (q' : Queues) : Type 0 where
  pub inv : Inv k'.links (status_of k') q' x
  pub queue_now : q' (lock_queue i) ≡ tail (q (lock_queue i))
  pub ready_now : q' ready_queue ≡ heir (q (lock_queue i)) ++ q ready_queue
  pub other : (h : ℕ) → h ≢ lock_queue i → h ≢ ready_queue → q' h ≡ q h
  pub lock_now : (k'.mlocks i).lock ≡ lock_after (k.mlocks i).lock (q (lock_queue i))
  pub owner_now : (k'.mlocks i).owner ≡ owner_after k i (q (lock_queue i))
  pub key_now : (k'.mlocks i).key ≡ (k.mlocks i).key
  pub other_locks : (j : ℕ) → j ≢ i → k'.mlocks j ≡ k.mlocks j
  pub same_pcb : (t : ℕ) → has t (heir (q (lock_queue i))) ≡ false → k'.pcb t ≡ k.pcb t
  pub same_pid : (t : ℕ) → (k'.pcb t).pid ≡ (k.pcb t).pid
  pub same_current : k'.current ≡ k.current

module _ (i : ℕ) (k : Kernel) (q : Queues) (x : ℕ) (inv : Inv k.links (status_of k) q x) where
  hand_over_to :
      (t : ℕ) (ts : List ℕ)
      → q (lock_queue i) ≡ t ∷ ts
      → HandedOver k q x i (hand_over i k) (woken_lists t q)
  unfolding hand_over wake
  hand_over_to t ts e =
      rw
        (
          empty_of k q x inv (lock_queue i) (omega arith),
          e,
          head_of k q x inv (lock_queue i) (omega arith),
          e,
        )
        (record {
          inv = wake-Inv k q x inv (lock_queue i) (omega arith) (omega arith) t ts e;
          queue_now =
              woken_here k q x inv (lock_queue i) (omega arith) (omega arith) t ts e
              ∙ sym (ap tail e);
          ready_now =
              woken_ready k q x inv (lock_queue i) (omega arith) (omega arith) t ts e
              ∙ sym (ap (λ zs. heir zs ++ q ready_queue) e);
          other = λ h nh nr.
              woken_other k q x inv (lock_queue i) (omega arith) (omega arith) t ts e h nh nr;
          lock_now = ground (arith, ap (lock_after (k.mlocks i).lock) e);
          owner_now = ground (arith, ap (owner_after k i) e);
          key_now = ground arith;
          other_locks = λ j ne. ground arith;
          same_pcb = λ u nu. ground (arith, ap (λ zs. has u (heir zs)) e);
          same_pid = λ u. ground arith;
          same_current = refl;
        })

  hand_over_free : q (lock_queue i) ≡ [] → HandedOver k q x i (hand_over i k) q
  unfolding hand_over
  hand_over_free e =
      rw (empty_of k q x inv (lock_queue i) (omega arith), e)
        (record {
          inv = inv;
          queue_now = e ∙ sym (ap tail e);
          ready_now = sym (ap (λ zs. heir zs ++ q ready_queue) e);
          other = λ h nh nr. refl;
          lock_now = ground (arith, ap (lock_after (k.mlocks i).lock) e);
          owner_now = ground (arith, ap (owner_after k i) e);
          key_now = ground arith;
          other_locks = λ j ne. ground arith;
          same_pcb = λ u nu. refl;
          same_pid = λ u. ground arith;
          same_current = refl;
        })

  pub hand_over-HandedOver : (q' : Queues) × HandedOver k q x i (hand_over i k) q'
  hand_over-HandedOver = go (q (lock_queue i)) refl
    where
      go :
          (ts : List ℕ)
          → q (lock_queue i) ≡ ts
          → (q' : Queues) × HandedOver k q x i (hand_over i k) q'
      go [] e = (q, hand_over_free e)
      go (t ∷ ts) e = (woken_lists t q, hand_over_to t ts e)

-- do_mutex_lock_release by a task that does not own the lock changes nothing. By its owner, it hands
-- the lock to the first task that waits for it, which becomes ready before all the others and is the
-- owner from then on, or frees the lock where none waits; the other lists, locks and tasks stay as
-- they are, and so does the invariant.
pub do_mutex_lock_release-HandedOver :
    (i : ℕ) (k : Kernel) (q : Queues)
    → Inv k.links (status_of k) q nobody
    → ((k.pcb k.current).pid ≢ (k.mlocks i).owner → do_mutex_lock_release i k ≡ k)
      × ((k.pcb k.current).pid ≡ (k.mlocks i).owner
          → (q' : Queues) × HandedOver k q nobody i (do_mutex_lock_release i k) q')
unfolding do_mutex_lock_release
do_mutex_lock_release-HandedOver i k q inv = (
  λ ne. ground arith,
  λ e. rw (e, ==_refl (k.mlocks i).owner) (hand_over-HandedOver i k q nobody inv),
)

-- The kernel in which the current task waits for lock `i`.
abbrev pub waiting_for : ℕ → Kernel → Kernel
waiting_for i k = do_block k.current (lock_queue i) (set_status k.current blocked k)

-- What do_mutex_lock_acquire leaves.
pub data Acquired (ticks : ℕ → ℕ) (i : ℕ) (k : Kernel) (q : Queues) : Type 0 where
  at_once :
      (k.mlocks i).lock ≡ unlocked
      → (k' : Kernel) → do_mutex_lock_acquire i ticks k ≡ some k'
      → (k'.mlocks i).lock ≡ locked
      → (k'.mlocks i).owner ≡ (k.pcb k.current).pid
      → (k'.mlocks i).key ≡ (k.mlocks i).key
      → ((j : ℕ) → j ≢ i → k'.mlocks j ≡ k.mlocks j)
      → k' ≡ record k { mlocks = k'.mlocks }
      → Acquired ticks i k q
  queued :
      (k.mlocks i).lock ≡ locked
      → (k' : Kernel) (q' : Queues) → do_mutex_lock_acquire i ticks k ≡ some k'
      → Scheduled
          (waiting_for i k)
          (push_back (lock_queue i) k.current q)
          (woken walk_fuel ticks (wake_time (waiting_for i k)) (q sleep_queue))
          (asleep walk_fuel ticks (wake_time (waiting_for i k)) (q sleep_queue))
          k'
          q'
      → q' (lock_queue i) ≡ q (lock_queue i) ++ k.current ∷ []
      → k'.mlocks ≡ k.mlocks
      → Acquired ticks i k q

module _ (ticks : ℕ → ℕ) (i : ℕ) (k : Kernel) (q : Queues)
    (inv : Inv k.links (status_of k) q nobody) (cur_task : k.current < num_tasks)
    (cur_runs : status_of k k.current ≡ running) (others : q ready_queue ≢ []) where
  acquire_free : (k.mlocks i).lock ≡ unlocked → Acquired ticks i k q
  unfolding do_mutex_lock_acquire
  acquire_free e =
      at_once e (take_lock i (k.pcb k.current).pid k) (rw e refl) (ground arith) (ground arith)
        (ground arith) (λ j ne. ground arith) refl

  -- the scheduler run that follows the block
  blocked_run :
      let k1 = waiting_for i k in
      let q1 = push_back (lock_queue i) k.current q in
      let up = woken walk_fuel ticks (wake_time k1) (q1 sleep_queue) in
      let down = asleep walk_fuel ticks (wake_time k1) (q1 sleep_queue) in
      (k' : Kernel) × (q' : Queues) × (do_scheduler ticks k1 ≡ some k')
      × Scheduled k1 q1 up down k' q'
  unfolding do_block
  blocked_run =
      do_scheduler-Scheduled ticks (waiting_for i k) (push_back (lock_queue i) k.current q)
        (block_current-Inv k q (lock_queue i) inv cur_task cur_runs (omega arith) (omega arith))
        cur_task (inr ((λ e. ground arith), (λ e. others (ground arith))))

  same_sleep : push_back (lock_queue i) k.current q sleep_queue ≡ q sleep_queue
  same_sleep = ground arith

  acquire_taken : (k.mlocks i).lock ≡ locked → Acquired ticks i k q
  unfolding do_mutex_lock_acquire do_block
  acquire_taken e =
      queued e blocked_run.0 blocked_run.1 (rw e blocked_run.2)
        (subst
          (λ z.
            Scheduled (waiting_for i k) (push_back (lock_queue i) k.current q)
              (woken walk_fuel ticks (wake_time (waiting_for i k)) z)
              (asleep walk_fuel ticks (wake_time (waiting_for i k)) z) blocked_run.0 blocked_run.1)
          same_sleep blocked_run.3)
        (blocked_run.3.other (lock_queue i) (omega arith) (omega arith) ∙ ground arith)
        blocked_run.3.same_mlocks

-- do_mutex_lock_acquire, run by a running task while others are ready, returns. It takes a lock that is
-- free, and changes nothing else. Where the lock is taken, the task goes to the end of the lock's queue,
-- blocked, the locks stay as they are, and the scheduler chooses another task.
pub do_mutex_lock_acquire-Acquired :
    (ticks : ℕ → ℕ) (i : ℕ) (k : Kernel) (q : Queues)
    → Inv k.links (status_of k) q nobody
    → k.current < num_tasks
    → status_of k k.current ≡ running
    → q ready_queue ≢ []
    → Acquired ticks i k q
do_mutex_lock_acquire-Acquired ticks i k q inv ct cr others = go (k.mlocks i).lock refl
  where
    go : (s : LockStatus) → (k.mlocks i).lock ≡ s → Acquired ticks i k q
    go unlocked e = acquire_free ticks i k q inv ct cr others e
    go locked e = acquire_taken ticks i k q inv ct cr others e

-- The tasks wait for taken locks only.
abbrev pub WaitForTaken : Kernel → Queues → Type 0
WaitForTaken k q = (i : ℕ) → i < lock_num → q (lock_queue i) ≢ [] → (k.mlocks i).lock ≡ locked

-- Giving up a lock keeps it so that tasks wait for taken locks only, whether a task inherits the lock or
-- not, for lock numbers within the array.
pub hand_over-WaitForTaken :
    (i : ℕ) (k : Kernel) (q : Queues) (x : ℕ) (k' : Kernel) (q' : Queues)
    → WaitForTaken k q
    → HandedOver k q x i k' q'
    → WaitForTaken k' q'
hand_over-WaitForTaken i k q x k' q' w h j lt ne = elim (Bool-cases (j == i)) [
  | inl e ↦ own (q (lock_queue i)) refl (eq_of_== j i e)
  | inr e ↦
      let p = h.other (lock_queue j) (λ s. ground arith) (omega arith) in
      ap (λ (m : MutexLock). m.lock) (h.other_locks j (ne_of_== j i e)) ∙ w j lt (λ n. ne (p ∙ n))
]
  where
    own : (ts : List ℕ) → q (lock_queue i) ≡ ts → j ≡ i → (k'.mlocks j).lock ≡ locked
    own [] e s = absurd (ne (ap (λ m. q' (lock_queue m)) s ∙ h.queue_now ∙ ap tail e))
    own (t ∷ ts) e s =
        ap (λ m. (k'.mlocks m).lock) s
        ∙ h.lock_now
        ∙ ap (lock_after (k.mlocks i).lock) e
        ∙ w i (omega (arith, s)) (λ n. ground (arith, sym e ∙ n))

-- The rule that tasks wait for taken locks only survives do_mutex_lock_acquire, whether the task takes the
-- lock or waits for it, and do_mutex_lock_release, when the lists are in order, a running task calls them
-- and, for the first, another task is ready.
pub locks-WaitForTaken :
    (ticks : ℕ → ℕ) (i : ℕ) (k : Kernel) (q : Queues)
    → Inv k.links (status_of k) q nobody
    → k.current < num_tasks
    → status_of k k.current ≡ running
    → q ready_queue ≢ []
    → WaitForTaken k q
    → ((k' : Kernel) × (q' : Queues) × (do_mutex_lock_acquire i ticks k ≡ some k')
        × Inv k'.links (status_of k') q' nobody
        × WaitForTaken k' q')
      × ((q' : Queues) × Inv
            (do_mutex_lock_release i k).links
            (status_of (do_mutex_lock_release i k))
            q'
            nobody
          × WaitForTaken (do_mutex_lock_release i k) q')
locks-WaitForTaken ticks i k q inv ct cr others w = (
  elim (do_mutex_lock_acquire-Acquired ticks i k q inv ct cr others) [
    | at_once e k' run l o key rest same ↦ (
      k',
      q,
      run,
      Inv-same k k' q nobody (ap (λ (m : Kernel). m.links) same) (ap (λ (m : Kernel). m.pcb) same)
          inv,
      λ j lt ne. elim (Bool-cases (j == i)) [
        | inl e ↦ ap (λ m. (k'.mlocks m).lock) (eq_of_== j i e) ∙ l
        | inr e ↦ ap (λ (m : MutexLock). m.lock) (rest j (ne_of_== j i e)) ∙ w j lt ne
      ],
    )
    | queued e k' q' run s here same ↦ (
      k',
      q',
      run,
      s.inv,
      λ j lt ne. elim (Bool-cases (j == i)) [
        | inl p ↦ ap₂ (λ (f : ℕ → MutexLock) m. (f m).lock) same (eq_of_== j i p) ∙ e
        | inr p ↦
            ap (λ (f : ℕ → MutexLock). (f j).lock) same
            ∙ w j lt
                (λ n. ne (s.other (lock_queue j) (omega arith) (omega arith) ∙ ground (arith, n)))
      ],
    )
  ],
  elim (Bool-cases ((k.pcb k.current).pid == (k.mlocks i).owner)) [
    | inl e ↦
        let (q', h) = (do_mutex_lock_release-HandedOver i k q inv).1 (eq_of_== _ _ e) in
        (q', h.inv, hand_over-WaitForTaken i k q nobody (do_mutex_lock_release i k) q' w h)
    | inr e ↦
        let p = (do_mutex_lock_release-HandedOver i k q inv).0 (ne_of_== _ _ e) in
        (q, rw p inv, rw p w)
  ],
)
