-- ===== src/Proc/Kill.antt =====
-- do_kill of kernel/sched/sched.c.
use mathlib.Core.List.{reverse_aux}
use ucas_2024fall_oslab.Base.{
  ℕ, ◌<◌, ◌≡◌, refl, ◌≢◌, ◌⊎◌, inl, inr, true, List, [], ◌∷◌, arith, ◌==◌, Option, none, some, has,
  erase, Bool-cases, sym, ap, ◌∙◌, subst, has-erase_ne,
}
use ucas_2024fall_oslab.Links.{list_remove}
use ucas_2024fall_oslab.Links.Queues.{Queues, detach, Absent}
use ucas_2024fall_oslab.State.{
  ready, exited, unlocked, locked, Kernel, num_tasks, ready_queue, lock_queue, wait_list,
  with_links, set_status, status_of, MutexLock,
}
use ucas_2024fall_oslab.Sched.{wake_all, walk_fuel}
use ucas_2024fall_oslab.Sched.Inv.{Inv, Inv-ext, nobody, status_of_listed, ready_of_Belongs}
use ucas_2024fall_oslab.Sched.Moves.{drop-Inv, exit-Inv}
use ucas_2024fall_oslab.Sched.Wake.{AllWoken, wake_all-AllWoken}
use ucas_2024fall_oslab.Lock.{do_release_locks, lock_num}
use ucas_2024fall_oslab.Lock.Mutex.{WaitForTaken}
use ucas_2024fall_oslab.Proc.{do_kill}
use ucas_2024fall_oslab.Proc.Release.{
  Inherited, NoHeir, NotOwned, Released, do_release_locks-Released,
}

-- What killing process `pid` leaves.
pub record Killed (pid : ℕ) (k : Kernel) (q : Queues) (k' : Kernel) (q' : Queues) : Type 0 where
  pub inv : Inv k'.links (status_of k') q' nobody
  pub dead : status_of k' pid ≡ exited
  pub gone : Absent q' pid
  pub no_lock : (i : ℕ) → i < lock_num → NotOwned k' pid i
  pub handed :
      (i : ℕ)
      → i < lock_num
      → (k.mlocks i).lock ≡ locked
      → (k.mlocks i).owner ≡ pid
      → Inherited k (detach pid q) i k' q'
  pub kept :
      (i : ℕ)
      → i < lock_num
      → NotOwned k pid i
      → (k'.mlocks i ≡ k.mlocks i) × (q' (lock_queue i) ≡ erase pid (q (lock_queue i)))
  pub no_waiter : q' (wait_list pid) ≡ []
  pub waiters_ready : (t : ℕ) → t ≢ pid → has t (q (wait_list pid)) ≡ true → status_of k' t ≡ ready
  pub taken : WaitForTaken k q → WaitForTaken k' q'
  pub other :
      (h : ℕ)
      → ((i : ℕ) → i < lock_num → h ≢ lock_queue i)
      → h ≢ ready_queue
      → h ≢ wait_list pid
      → q' h ≡ erase pid (q h)
  pub same_current : k'.current ≡ k.current

has-reverse_left : (t : ℕ) (xs ys : List ℕ) → has t ys ≡ true → has t (reverse_aux xs ys) ≡ true
has-reverse_left t [] ys h = h
has-reverse_left t (x ∷ xs) ys h = has-reverse_left t xs (x ∷ ys) (ground arith)

has-reverse_right : (t : ℕ) (xs ys : List ℕ) → has t xs ≡ true → has t (reverse_aux xs ys) ≡ true
has-reverse_right t [] ys h = absurd (ground arith)
has-reverse_right t (x ∷ xs) ys h = elim (Bool-cases (t == x)) [
  | inl e ↦ has-reverse_left t xs (x ∷ ys) (ground arith)
  | inr e ↦ has-reverse_right t xs (x ∷ ys) (ground arith)
]

-- the kernel whose process has left its list
abbrev out_of_list : ℕ → Kernel → Kernel
out_of_list pid k = with_links (list_remove pid) k

module _ (pid : ℕ) (k : Kernel) (q : Queues) (inv : Inv k.links (status_of k) q nobody)
    (task : pid < num_tasks) (live : status_of k pid ≢ exited)
    (nh : NoHeir k (detach pid q) pid) where
  dropped : Inv (out_of_list pid k).links (status_of (out_of_list pid k)) (detach pid q) pid
  dropped = drop-Inv k.links (status_of k) q nobody inv pid task (omega arith) live refl

  released :
      (q1 : Queues) × Released lock_num 0 pid pid
        (out_of_list pid k)
        (detach pid q)
        (do_release_locks pid (out_of_list pid k))
        q1
  released =
      do_release_locks-Released pid pid (out_of_list pid k) (detach pid q) dropped
        (λ i t lt h. nh i t lt h)

  abbrev k1 : Kernel
  k1 = do_release_locks pid (out_of_list pid k)

  woken :
      (k2 : Kernel) × (q2 : Queues) × (wake_all walk_fuel (wait_list pid) k1 ≡ some k2)
      × AllWoken k1 released.0 pid (wait_list pid) k2 q2
  woken =
      wake_all-AllWoken k1 released.0 pid (wait_list pid) released.1.inv (omega arith) (omega arith)

  abbrev k3 : Kernel
  k3 = set_status pid exited woken.0

  dead-Inv : Inv k3.links (status_of k3) woken.1 nobody
  dead-Inv =
      Inv-ext (status_of k3) (λ u. ground arith)
        (exit-Inv woken.0.links (status_of woken.0) woken.1 pid woken.3.inv)

  waiter_ready : (t : ℕ) → t ≢ pid → has t (q (wait_list pid)) ≡ true → status_of k3 t ≡ ready
  waiter_ready t ne h = ready_of_Belongs (status_of k3 t) ready_queue refl (
      status_of_listed k3.links (status_of k3) woken.1 nobody dead-Inv ready_queue t (
        rw woken.3.ready_now (
          has-reverse_right t (released.0 (wait_list pid)) _
            (rw same (has-erase_ne t pid (q (wait_list pid)) ne ∙ h)))))
    where
      same : released.0 (wait_list pid) ≡ erase pid (q (wait_list pid))
      same = released.1.other (wait_list pid) (λ j lt e. omega arith) (omega arith)

  same_locks : k3.mlocks ≡ k1.mlocks
  same_locks = ap (λ (m : Kernel). m.mlocks) woken.3.same_rest

  same_queue : (i : ℕ) → i < lock_num → woken.1 (lock_queue i) ≡ released.0 (lock_queue i)
  same_queue i lt = woken.3.other (lock_queue i) (omega arith) (omega arith)

  killed : Killed pid k q k3 woken.1
  killed = record {
    inv = dead-Inv;
    dead = ground arith;
    gone = woken.3.inv.apart;
    no_lock = λ i lt.
        subst (λ f. ((f i).lock ≡ unlocked) ⊎ ((f i).owner ≢ pid)) (sym same_locks)
          (released.1.not_owned i (omega arith) (omega arith));
    handed = λ i lt l o.
        let d = released.1.handed i (omega arith) (omega arith) l o in
        record {
          lock_now = ap (λ (f : ℕ → MutexLock). (f i).lock) same_locks ∙ d.lock_now;
          owner_now = ap (λ (f : ℕ → MutexLock). (f i).owner) same_locks ∙ d.owner_now;
          queue_now = same_queue i lt ∙ d.queue_now;
        };
    kept = λ i lt o.
        let (a, b) = released.1.kept i o in
        (ap (λ (f : ℕ → MutexLock). f i) same_locks ∙ a, same_queue i lt ∙ b);
    no_waiter = woken.3.here;
    waiters_ready = waiter_ready;
    taken = λ w i lt ne.
        ap (λ (f : ℕ → MutexLock). (f i).lock) same_locks
        ∙ released.1.taken (λ j lj nj. w j lj (λ e. nj (ap (erase pid) e))) i lt
            (λ e. ne (woken.3.other (lock_queue i) (omega arith) (omega arith) ∙ e));
    other = λ h nl nr nw. woken.3.other h nw nr ∙ released.1.other h (λ j b. nl j (omega arith)) nr;
    same_current = ap (λ (m : Kernel). m.current) woken.3.same_rest ∙ released.1.same_current;
  }

-- do_kill of a process that has not exited comes to its end. The process has exited then and is on no
-- list, also where it waited for a lock itself. It holds no lock: each one that it held has gone to the
-- first other task that waited for it, or is free where none did, and the other locks and their queues,
-- less the process, stay as they are. All that waited for the process are ready. Tasks wait for taken
-- locks only, if they did before; lists other than the lock queues, the ready queue and the process's own
-- only lose the process. No other task that waits for a lock may go by the number of the process.
pub do_kill-Killed :
    (pid : ℕ) (k : Kernel) (q : Queues)
    → Inv k.links (status_of k) q nobody
    → pid < num_tasks
    → status_of k pid ≢ exited
    → NoHeir k (detach pid q) pid
    → (k' : Kernel) × (q' : Queues) × (do_kill pid k ≡ some k') × Killed pid k q k' q'
unfolding do_kill
do_kill-Killed pid k q inv task live nh = (
  k3 pid k q inv task live nh,
  (woken pid k q inv task live nh).1,
  ap go (woken pid k q inv task live nh).2,
  killed pid k q inv task live nh,
)
  where
    go : Option Kernel → Option Kernel
    go none = none
    go (some m) = some (set_status pid exited m)
