-- ===== src/Proc/Release/Round.antt =====
-- A round of do_release_locks of kernel/locking/lock.c, put before the later ones.
use ucas_2024fall_oslab.Base.{
  ℕ, suc, ◌+◌, ◌≤◌, ◌<◌, ◌≡◌, refl, ◌≢◌, ◌⊎◌, inl, inr, true, List, [], ◌∷◌, ◌++◌, arith, ◌==◌, has,
  Bool-cases, eq_of_==, ne_of_==, sym, ap, ◌∙◌, subst,
}
use ucas_2024fall_oslab.Links.Queues.{Queues}
use ucas_2024fall_oslab.State.{
  unlocked, locked, Kernel, MutexLock, ready_queue, lock_queue, status_of,
}
use ucas_2024fall_oslab.Sched.Inv.{Inv}
use ucas_2024fall_oslab.Lock.{lock_num}
use ucas_2024fall_oslab.Lock.Mutex.{
  HandedOver, WaitForTaken, hand_over-WaitForTaken, tail, heir, lock_after, owner_after,
}

-- No task that waits for a lock goes by the process's number.
abbrev pub NoHeir : Kernel → Queues → ℕ → Type 0
NoHeir k q pid = (i t : ℕ) → i < lock_num → has t (q (lock_queue i)) ≡ true → (k.pcb t).pid ≢ pid

abbrev pub NotOwned : Kernel → ℕ → ℕ → Type 0
NotOwned k pid i = ((k.mlocks i).lock ≡ unlocked) ⊎ ((k.mlocks i).owner ≢ pid)

-- Lock `j`, given up, has gone to the first task that waited for it, or is free where none did.
pub record Inherited (k : Kernel) (q : Queues) (j : ℕ) (k' : Kernel) (q' : Queues) : Type 0 where
  pub lock_now : (k'.mlocks j).lock ≡ lock_after locked (q (lock_queue j))
  pub owner_now : (k'.mlocks j).owner ≡ owner_after k j (q (lock_queue j))
  pub queue_now : q' (lock_queue j) ≡ tail (q (lock_queue j))

-- What giving up the locks from `i` to `i + n` leaves.
pub record Released (n i pid x : ℕ) (k : Kernel) (q : Queues) (k' : Kernel) (q' : Queues)
    : Type 0 where
  pub inv : Inv k'.links (status_of k') q' x
  pub no_heir : NoHeir k' q' pid
  pub not_owned : (j : ℕ) → i ≤ j → j < i + n → NotOwned k' pid j
  pub handed :
      (j : ℕ)
      → i ≤ j
      → j < i + n
      → (k.mlocks j).lock ≡ locked
      → (k.mlocks j).owner ≡ pid
      → Inherited k q j k' q'
  pub kept :
      (j : ℕ)
      → NotOwned k pid j
      → (k'.mlocks j ≡ k.mlocks j) × (q' (lock_queue j) ≡ q (lock_queue j))
  pub other_locks : (j : ℕ) → j < i → k'.mlocks j ≡ k.mlocks j
  pub other_queues : (j : ℕ) → j < i → q' (lock_queue j) ≡ q (lock_queue j)
  pub taken : WaitForTaken k q → WaitForTaken k' q'
  pub other : (h : ℕ) → ((j : ℕ) → j < i + n → h ≢ lock_queue j) → h ≢ ready_queue → q' h ≡ q h
  pub still_ready : (t : ℕ) → has t (q ready_queue) ≡ true → has t (q' ready_queue) ≡ true
  pub same_current : k'.current ≡ k.current
  pub same_pid : (t : ℕ) → (k'.pcb t).pid ≡ (k.pcb t).pid

has-tail : (t : ℕ) (xs : List ℕ) → has t (tail xs) ≡ true → has t xs ≡ true
has-tail t [] h = h
has-tail t (x ∷ xs) h = ground arith

has-heir : (t : ℕ) (xs ys : List ℕ) → has t ys ≡ true → has t (heir xs ++ ys) ≡ true
has-heir t [] ys h = h
has-heir t (x ∷ xs) ys h = ground arith

has-first : (t : ℕ) (xs ys : List ℕ) → xs ≡ t ∷ ys → has t xs ≡ true
has-first t xs ys e = ground (arith, ap (has t) e)

owned_here :
    (k : Kernel) (pid i : ℕ)
    → NotOwned k pid i
    → (k.mlocks i).lock ≡ locked
    → (k.mlocks i).owner ≢ pid
owned_here k pid i (inl u) e p = status (sym u ∙ e)
  where
    status : unlocked ≢ locked
    status e = cc
owned_here k pid i (inr n) e p = n p

module _ (pid x : ℕ) where
  -- The round for lock `i`, where the process holds it.
  module _ (i : ℕ) (k : Kernel) (q : Queues) (k1 : Kernel) (q1 : Queues) (nh : NoHeir k q pid)
      (h : HandedOver k q x i k1 q1) where
    queue_within : (j t : ℕ) → has t (q1 (lock_queue j)) ≡ true → has t (q (lock_queue j)) ≡ true
    queue_within j t m = elim (Bool-cases (j == i)) [
      | inl e ↦
          let p = eq_of_== j i e in
          subst (λ a. has t (q (lock_queue a)) ≡ true) (sym p)
            (has-tail t (q (lock_queue i))
              (subst (λ zs. has t zs ≡ true) (ap (λ a. q1 (lock_queue a)) p ∙ h.queue_now) m))
      | inr e ↦
          subst (λ zs. has t zs ≡ true)
            (h.other (lock_queue j) (λ s. ne_of_== j i e (omega (arith, s))) (omega arith)) m
    ]

    pub handed-NoHeir : NoHeir k1 q1 pid
    handed-NoHeir j t lt m e = nh j t lt (queue_within j t m) (sym (h.same_pid t) ∙ e)

    handed-NotOwned : i < lock_num → NotOwned k1 pid i
    handed-NotOwned lt = go (q (lock_queue i)) refl
      where
        go : (ts : List ℕ) → q (lock_queue i) ≡ ts → NotOwned k1 pid i
        go [] e = inl (h.lock_now ∙ ap (lock_after (k.mlocks i).lock) e)
        go (t ∷ ts) e = inr (λ o.
            nh i t lt (has-first t (q (lock_queue i)) ts e)
              (sym (h.owner_now ∙ ap (owner_after k i) e) ∙ o))

    same_queue : (j : ℕ) → j ≢ i → q1 (lock_queue j) ≡ q (lock_queue j)
    same_queue j ne = h.other (lock_queue j) (λ s. ne (omega (arith, s))) (omega arith)

    same_owner : (j : ℕ) → j ≢ i → (ts : List ℕ) → owner_after k1 j ts ≡ owner_after k j ts
    same_owner j ne [] = ap (λ (m : MutexLock). m.owner) (h.other_locks j ne)
    same_owner j ne (t ∷ ts) = h.same_pid t

    -- the lock of this round, and the ones of later rounds
    Inherited-now :
        (n : ℕ) (k' : Kernel) (q' : Queues)
        → (k.mlocks i).lock ≡ locked
        → Released n (i + 1) pid x k1 q1 k' q'
        → Inherited k q i k' q'
    Inherited-now n k' q' el r = record {
      lock_now =
          ap (λ (m : MutexLock). m.lock) (r.other_locks i (omega arith))
          ∙ h.lock_now
          ∙ ap (λ s. lock_after s (q (lock_queue i))) el;
      owner_now = ap (λ (m : MutexLock). m.owner) (r.other_locks i (omega arith)) ∙ h.owner_now;
      queue_now = r.other_queues i (omega arith) ∙ h.queue_now;
    }

    Inherited-later :
        (j : ℕ) (k' : Kernel) (q' : Queues)
        → j ≢ i
        → Inherited k1 q1 j k' q'
        → Inherited k q j k' q'
    Inherited-later j k' q' ne d = record {
      lock_now = d.lock_now ∙ ap (lock_after locked) (same_queue j ne);
      owner_now =
          d.owner_now
          ∙ ap (owner_after k1 j) (same_queue j ne)
          ∙ same_owner j ne (q (lock_queue j));
      queue_now = d.queue_now ∙ ap tail (same_queue j ne);
    }

    pub handed-Released :
        i < lock_num
        → (k.mlocks i).lock ≡ locked
        → (k.mlocks i).owner ≡ pid
        → (n : ℕ) (k' : Kernel) (q' : Queues) → Released n (i + 1) pid x k1 q1 k' q'
        → Released (suc n) i pid x k q k' q'
    handed-Released lt el ep n k' q' r = record {
      inv = r.inv;
      no_heir = r.no_heir;
      not_owned = λ j a b. elim (Bool-cases (j == i)) [
        | inl e ↦
            let p = eq_of_== j i e in
            subst (NotOwned k' pid) (sym p) (
              subst (λ (m : MutexLock). (m.lock ≡ unlocked) ⊎ (m.owner ≢ pid))
                (sym (r.other_locks i (omega arith))) (handed-NotOwned lt))
        | inr e ↦ r.not_owned j (omega (arith, ne_of_== j i e)) (omega arith)
      ];
      handed = λ j a b l o. elim (Bool-cases (j == i)) [
        | inl e ↦
            subst (λ t. Inherited k q t k' q') (sym (eq_of_== j i e)) (Inherited-now n k' q' el r)
        | inr e ↦
            let ne = ne_of_== j i e in
            Inherited-later j k' q' ne (
              r.handed j (omega (arith, ne)) (omega arith)
                (ap (λ (m : MutexLock). m.lock) (h.other_locks j ne) ∙ l)
                (ap (λ (m : MutexLock). m.owner) (h.other_locks j ne) ∙ o))
      ];
      kept = λ j o. elim (Bool-cases (j == i)) [
        | inl e ↦ absurd (owned_here k pid i (subst (NotOwned k pid) (eq_of_== j i e) o) el ep)
        | inr e ↦
            let ne = ne_of_== j i e in
            let (a, b) = r.kept j (
              subst (λ (m : MutexLock). (m.lock ≡ unlocked) ⊎ (m.owner ≢ pid))
                (sym (h.other_locks j ne)) o) in
            (a ∙ h.other_locks j ne, b ∙ same_queue j ne)
      ];
      other_locks = λ j a. r.other_locks j (omega arith) ∙ h.other_locks j (omega arith);
      other_queues = λ j a. r.other_queues j (omega arith) ∙ same_queue j (omega arith);
      taken = λ w. r.taken (hand_over-WaitForTaken i k q x k1 q1 w h);
      other =
          λ g nl nr. r.other g (λ j b. nl j (omega arith)) nr ∙ h.other g (nl i (omega arith)) nr;
      still_ready =
          λ t m. r.still_ready t (rw h.ready_now (has-heir t (q (lock_queue i)) (q ready_queue) m));
      same_current = r.same_current ∙ h.same_current;
      same_pid = λ t. r.same_pid t ∙ h.same_pid t;
    }

  -- The round for lock `i`, where it stays as it is.
  pub kept-Released :
      (n i : ℕ) (k : Kernel) (q : Queues) (k' : Kernel) (q' : Queues)
      → NotOwned k pid i
      → Released n (i + 1) pid x k q k' q'
      → Released (suc n) i pid x k q k' q'
  kept-Released n i k q k' q' o r = record {
    inv = r.inv;
    no_heir = r.no_heir;
    not_owned = λ j a b. elim (Bool-cases (j == i)) [
      | inl e ↦
          let p = eq_of_== j i e in
          subst (NotOwned k' pid) (sym p) (
            subst (λ (m : MutexLock). (m.lock ≡ unlocked) ⊎ (m.owner ≢ pid))
              (sym (r.other_locks i (omega arith))) o)
      | inr e ↦ r.not_owned j (omega (arith, ne_of_== j i e)) (omega arith)
    ];
    handed = λ j a b l p. elim (Bool-cases (j == i)) [
      | inl e ↦
          let s = eq_of_== j i e in
          absurd (owned_here k pid j (subst (NotOwned k pid) (sym s) o) l p)
      | inr e ↦ r.handed j (omega (arith, ne_of_== j i e)) (omega arith) l p
    ];
    kept = r.kept;
    other_locks = λ j a. r.other_locks j (omega arith);
    other_queues = λ j a. r.other_queues j (omega arith);
    taken = r.taken;
    other = λ g nl nr. r.other g (λ j b. nl j (omega arith)) nr;
    still_ready = r.still_ready;
    same_current = r.same_current;
    same_pid = r.same_pid;
  }
