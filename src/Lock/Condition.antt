-- ===== src/Lock/Condition.antt =====
-- do_condition_signal of kernel/locking/lock.c.
use ucas_2024fall_oslab.Base.{
  ℕ, ◌≤◌, ◌<◌, ◌≡◌, refl, ◌≢◌, inl, inr, true, false, List, [], ◌∷◌, ◌++◌, arith, has, erase,
  Bool-cases, sym, ap, ◌∙◌, subst, erase-absent, Distinct,
}
use ucas_2024fall_oslab.Links.Queues.{Queues, push_back, detach, first_head}
use ucas_2024fall_oslab.State.{
  LockStatus, unlocked, locked, blocked, ready, Kernel, ready_queue, lock_queue, condition_queue,
  status_of, set_status, MutexLock,
}
use ucas_2024fall_oslab.Sched.{do_block, wake}
use ucas_2024fall_oslab.Sched.Inv.{Inv, nobody, Inv-same, Inv-ext}
use ucas_2024fall_oslab.Sched.Moves.{move_back-Inv}
use ucas_2024fall_oslab.Sched.Wake.{
  woken_lists, empty_of, head_of, wake-Inv, woken_here, woken_ready, woken_other, head_listed,
  head_task, head_ne,
}
use ucas_2024fall_oslab.Lock.{
  take_lock, do_mutex_lock_acquire_non_sched, signal_first, do_condition_signal, lock_num,
}

-- the mutex that task `t` gave up when it began to wait
abbrev pub mutex_of : Kernel → ℕ → ℕ
mutex_of k t = (k.pcb t).mutex_idx

-- What do_condition_signal leaves as `k'`, `t` being the first task that waits.
pub data Signalled (c : ℕ) (k : Kernel) (q : Queues) (k' : Kernel) : Type 0 where
  none_waits : q (condition_queue c) ≡ [] → k' ≡ k → Signalled c k q k'
  takes_mutex :
      (t : ℕ) (ts : List ℕ)
      → q (condition_queue c) ≡ t ∷ ts
      → (k.mlocks (mutex_of k t)).lock ≡ unlocked
      → (q' : Queues) → Inv k'.links (status_of k') q' nobody
      → q' (condition_queue c) ≡ ts
      → q' ready_queue ≡ t ∷ q ready_queue
      → (k'.mlocks (mutex_of k t)).lock ≡ locked
      → (k'.mlocks (mutex_of k t)).owner ≡ (k.pcb t).pid
      → Signalled c k q k'
  waits_for_mutex :
      (t : ℕ) (ts : List ℕ)
      → q (condition_queue c) ≡ t ∷ ts
      → (k.mlocks (mutex_of k t)).lock ≡ locked
      → (q' : Queues) → Inv k'.links (status_of k') q' nobody
      → q' (condition_queue c) ≡ ts
      → q' ready_queue ≡ q ready_queue
      → q' (lock_queue (mutex_of k t)) ≡ q (lock_queue (mutex_of k t)) ++ t ∷ []
      → k'.mlocks ≡ k.mlocks
      → Signalled c k q k'

non_sched-take_lock :
    (t i : ℕ) (k : Kernel)
    → (k.mlocks i).lock ≡ unlocked
    → do_mutex_lock_acquire_non_sched t i k ≡ take_lock i (k.pcb t).pid k
unfolding do_mutex_lock_acquire_non_sched
non_sched-take_lock t i k u = rw u refl

non_sched-do_block :
    (t i : ℕ) (k : Kernel)
    → (k.mlocks i).lock ≡ locked
    → do_mutex_lock_acquire_non_sched t i k ≡ do_block t (lock_queue i) (set_status t blocked k)
unfolding do_mutex_lock_acquire_non_sched
non_sched-do_block t i k u = rw u refl

module _ (c : ℕ) (k : Kernel) (q : Queues) (inv : Inv k.links (status_of k) q nobody) where
  cond_head : first_head ≤ condition_queue c
  cond_head = omega arith

  cond_ne : condition_queue c ≢ ready_queue
  cond_ne = omega arith

  signal_none : q (condition_queue c) ≡ [] → do_condition_signal c k ≡ k
  unfolding do_condition_signal
  signal_none e = rw (empty_of k q nobody inv (condition_queue c) cond_head, e) refl

  module _ (t : ℕ) (ts : List ℕ) (e : q (condition_queue c) ≡ t ∷ ts) where
    signal_some :
        do_condition_signal c k
        ≡ do_mutex_lock_acquire_non_sched t (mutex_of (wake t k) t) (wake t k)
    unfolding do_condition_signal signal_first
    signal_some =
        rw
          (
            empty_of k q nobody inv (condition_queue c) cond_head,
            e,
            head_of k q nobody inv (condition_queue c) cond_head,
            e,
          )
          refl

    same_mutex : mutex_of (wake t k) t ≡ mutex_of k t
    unfolding wake
    same_mutex = ground arith

    same_pid : ((wake t k).pcb t).pid ≡ (k.pcb t).pid
    unfolding wake
    same_pid = ground arith

    same_locks : (wake t k).mlocks ≡ k.mlocks
    unfolding wake
    same_locks = refl

    woken_status : status_of (wake t k) t ≡ ready
    unfolding wake
    woken_status = ground arith

    woken-Inv : Inv (wake t k).links (status_of (wake t k)) (woken_lists t q) nobody
    woken-Inv = wake-Inv k q nobody inv (condition_queue c) cond_head cond_ne t ts e

    signal_here :
        do_condition_signal c k ≡ do_mutex_lock_acquire_non_sched t (mutex_of k t) (wake t k)
    signal_here = signal_some ∙ ap (λ i. do_mutex_lock_acquire_non_sched t i (wake t k)) same_mutex

    lock_here :
        (s : LockStatus)
        → (k.mlocks (mutex_of k t)).lock ≡ s
        → ((wake t k).mlocks (mutex_of k t)).lock ≡ s
    lock_here s u = ap (λ (f : ℕ → MutexLock). (f (mutex_of k t)).lock) same_locks ∙ u

    signal_takes :
        (k.mlocks (mutex_of k t)).lock ≡ unlocked → Signalled c k q (do_condition_signal c k)
    signal_takes u =
        subst (Signalled c k q)
          (sym
            (signal_here ∙ non_sched-take_lock t (mutex_of k t) (wake t k) (lock_here unlocked u)))
          (takes_mutex t ts e u (woken_lists t q)
            (Inv-same (wake t k) (take_lock (mutex_of k t) ((wake t k).pcb t).pid (wake t k))
              (woken_lists t q) nobody refl refl woken-Inv)
            (woken_here k q nobody inv (condition_queue c) cond_head cond_ne t ts e)
            (woken_ready k q nobody inv (condition_queue c) cond_head cond_ne t ts e) (ground arith)
            (ground (arith, same_pid)))

    module _ (small : mutex_of k t < lock_num) where
      -- the lists after the task has gone on to the mutex
      moved : Queues
      moved = push_back (lock_queue (mutex_of k t)) t (detach t (woken_lists t q))

      task_elsewhere : (g : ℕ) → g ≢ condition_queue c → has t (q g) ≡ false
      task_elsewhere g ne = elim (Bool-cases (has t (q g))) [
        | inl p ↦ absurd (
            ne (
              inv.view.only g (condition_queue c) t p
                (head_listed k q nobody inv (condition_queue c) cond_head cond_ne t ts e)))
        | inr p ↦ p
      ]

      moved-Inv :
          let k' = do_block t (lock_queue (mutex_of k t)) (set_status t blocked (wake t k)) in
          Inv k'.links (status_of k') moved nobody
      unfolding do_block moved
      moved-Inv =
          Inv-ext _ (λ u. ground arith)
            (move_back-Inv (wake t k).links (status_of (wake t k)) (woken_lists t q) nobody
              woken-Inv t (head_task k q nobody inv (condition_queue c) cond_head cond_ne t ts e)
              (head_ne k q nobody inv (condition_queue c) cond_head cond_ne t ts e)
              (λ p. ground (arith, woken_status)) (lock_queue (mutex_of k t)) blocked (omega arith)
              (omega arith))

      first_once : has t ts ≡ false
      first_once = (subst Distinct e (inv.view.distinct (condition_queue c))).0

      moved_here : moved (condition_queue c) ≡ ts
      unfolding moved
      moved_here = ground (
        arith,
        ap (erase t) (woken_here k q nobody inv (condition_queue c) cond_head cond_ne t ts e),
        erase-absent t ts first_once,
      )

      moved_ready : moved ready_queue ≡ q ready_queue
      unfolding moved
      moved_ready = ground (
        arith,
        ap (erase t) (woken_ready k q nobody inv (condition_queue c) cond_head cond_ne t ts e),
      )

      moved_lock : moved (lock_queue (mutex_of k t)) ≡ q (lock_queue (mutex_of k t)) ++ t ∷ []
      unfolding moved
      moved_lock = ground (
        arith,
        ap (erase t) (
            woken_other k q nobody inv (condition_queue c) cond_head cond_ne t ts e
              (lock_queue (mutex_of k t)) (omega arith) (omega arith)),
        erase-absent t (q (lock_queue (mutex_of k t)))
            (task_elsewhere (lock_queue (mutex_of k t)) (omega arith)),
      )

      signal_waits :
          (k.mlocks (mutex_of k t)).lock ≡ locked → Signalled c k q (do_condition_signal c k)
      unfolding do_block
      signal_waits u =
          subst (Signalled c k q)
            (sym
              (signal_here ∙ non_sched-do_block t (mutex_of k t) (wake t k) (lock_here locked u)))
            (waits_for_mutex t ts e u moved moved-Inv moved_here moved_ready moved_lock same_locks)

-- do_condition_signal changes nothing where no task waits. Otherwise the first task that waits leaves the
-- queue. If its mutex is free, it takes the mutex and is ready before all the others; if not, it goes to
-- the end of the mutex's queue, and the locks and the ready tasks stay as they are. The lists stay in
-- order. The mutex of the first task that waits must be one of the array.
pub do_condition_signal-Signalled :
    (c : ℕ) (k : Kernel) (q : Queues)
    → Inv k.links (status_of k) q nobody
    → ((t : ℕ) → has t (q (condition_queue c)) ≡ true → mutex_of k t < lock_num)
    → Signalled c k q (do_condition_signal c k)
do_condition_signal-Signalled c k q inv small = go (q (condition_queue c)) refl
  where
    by_lock :
        (t : ℕ) (ts : List ℕ)
        → q (condition_queue c) ≡ t ∷ ts
        → (s : LockStatus) → (k.mlocks (mutex_of k t)).lock ≡ s
        → Signalled c k q (do_condition_signal c k)
    by_lock t ts e unlocked u = signal_takes c k q inv t ts e u
    by_lock t ts e locked u =
        signal_waits c k q inv t ts e
          (small t (
            head_listed k q nobody inv (condition_queue c) (cond_head c k q inv) (cond_ne c k q inv)
              t ts e))
          u

    go : (ts : List ℕ) → q (condition_queue c) ≡ ts → Signalled c k q (do_condition_signal c k)
    go [] e = none_waits e (signal_none c k q inv e)
    go (t ∷ ts) e = by_lock t ts e (k.mlocks (mutex_of k t)).lock refl
