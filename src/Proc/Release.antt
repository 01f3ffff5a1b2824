-- ===== src/Proc/Release.antt =====
-- do_release_locks of kernel/locking/lock.c: the locks of a process that ends.
mod Round
pub use Round.*
use ucas_2024fall_oslab.Base.{
  ℕ, zero, suc, ◌+◌, ◌≤◌, ◌<◌, ◌≡◌, refl, ◌≢◌, ◌⊎◌, inl, inr, true, List, [], ◌∷◌, ◌++◌, arith,
  ◌==◌, has, Bool-cases, eq_of_==, ne_of_==, sym, ap, ◌∙◌, subst,
}
use ucas_2024fall_oslab.Links.Queues.{Queues}
use ucas_2024fall_oslab.State.{
  LockStatus, unlocked, locked, Kernel, MutexLock, ready_queue, lock_queue, status_of,
}
use ucas_2024fall_oslab.Sched.Inv.{Inv}
use ucas_2024fall_oslab.Lock.{hand_over, release_locks_from, do_release_locks, lock_num}
use ucas_2024fall_oslab.Lock.Mutex.{
  HandedOver, hand_over-HandedOver, WaitForTaken, hand_over-WaitForTaken, tail, heir, lock_after,
  owner_after,
}

module _ (pid x : ℕ) where
  abbrev Releases : ℕ → ℕ → Kernel → Queues → Type 0
  Releases n i k q = (q' : Queues) × Released n i pid x k q (release_locks_from n i pid k) q'

  release_round :
      (n i : ℕ) (k : Kernel) (q : Queues)
      → i + suc n ≤ lock_num
      → Inv k.links (status_of k) q x
      → NoHeir k q pid
      → ((k1 : Kernel) (q1 : Queues)
          → Inv k1.links (status_of k1) q1 x
          → NoHeir k1 q1 pid
          → Releases n (i + 1) k1 q1)
      → (s : LockStatus) → (k.mlocks i).lock ≡ s
      → Releases (suc n) i k q
  unfolding release_locks_from
  release_round n i k q lt inv nh rest unlocked e =
      let (q', r) = rest k q inv nh in
      rw e (q', kept-Released pid x n i k q (release_locks_from n (i + 1) pid k) q' (inl e) r)
  release_round n i k q lt inv nh rest locked e = elim (Bool-cases ((k.mlocks i).owner == pid)) [
    | inl p ↦
        let (q1, h) = hand_over-HandedOver i k q x inv in
        let (q', r) =
          rest (hand_over i k) q1 h.inv (handed-NoHeir pid x i k q (hand_over i k) q1 nh h) in
        rw (e, p)
          (
            q',
            handed-Released pid x i k q (hand_over i k) q1 nh h (omega arith) e (eq_of_== _ _ p) n
                (release_locks_from n (i + 1) pid (hand_over i k)) q' r,
          )
    | inr p ↦
        let (q', r) = rest k q inv nh in
        rw (e, p)
          (
            q',
            kept-Released pid x n i k q (release_locks_from n (i + 1) pid k) q'
                (inr (ne_of_== _ _ p)) r,
          )
  ]

  release_loop :
      (n i : ℕ) (k : Kernel) (q : Queues)
      → i + n ≤ lock_num
      → Inv k.links (status_of k) q x
      → NoHeir k q pid
      → Releases n i k q
  unfolding release_locks_from
  release_loop zero i k q lt inv nh = (
    q,
    record {
      inv = inv;
      no_heir = nh;
      not_owned = λ j a b. absurd (omega arith);
      handed = λ j a b l p. absurd (omega arith);
      kept = λ j o. (refl, refl);
      other_locks = λ j a. refl;
      other_queues = λ j a. refl;
      taken = λ w. w;
      other = λ h nl nr. refl;
      still_ready = λ t m. m;
      same_current = refl;
      same_pid = λ t. refl;
    },
  )
  release_loop (suc n) i k q lt inv nh =
      release_round n i k q lt inv nh (λ k1 q1 v w. release_loop n (i + 1) k1 q1 (omega arith) v w)
        (k.mlocks i).lock refl

-- do_release_locks hands every lock that the process holds to the first task that waits for it, or frees
-- it where none waits, and changes no other lock and no queue of one: no lock is held by the process
-- afterwards, as long as no task that waits for a lock goes by its number. Lists other than the lock
-- queues and the ready queue stay as they are, ready tasks stay ready, and tasks wait for taken locks
-- only, if they did before.
pub do_release_locks-Released :
    (pid x : ℕ) (k : Kernel) (q : Queues)
    → Inv k.links (status_of k) q x
    → NoHeir k q pid
    → (q' : Queues) × Released lock_num 0 pid x k q (do_release_locks pid k) q'
unfolding do_release_locks
do_release_locks-Released pid x k q inv nh = release_loop pid x lock_num 0 k q (omega arith) inv nh
