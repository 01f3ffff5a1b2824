-- ===== src/Sched/Sleep.antt =====
-- check_sleeping of kernel/sched/time.c against a split of the sleep queue: those whose time has come
-- go to the end of the ready queue in their order, the others stay.
use ucas_2024fall_oslab.Sched.Moves.{move_back-Inv}
use ucas_2024fall_oslab.Sched.{wake_sleeper, check_sleeping_from, check_sleeping, walk_fuel}
use mathlib.Core.List.{append_assoc, append-nil}
use ucas_2024fall_oslab.Base.{
  ℕ, zero, suc, ◌≡◌, ◌≢◌, false, List, [], ◌∷◌, ◌++◌, arith, leb, if◌then◌else◌, has, erase,
  has-append, Distinct, ◌<◌, refl, inl, inr, true, ◌==◌, length, update, Bool-cases, subst, sym,
  some, length_le_of_Distinct, ◌∙◌, ap, erase-absent,
}
use ucas_2024fall_oslab.Links.{Links, list_add_tail, list_remove}
use ucas_2024fall_oslab.Links.Chain.{Chain}
use ucas_2024fall_oslab.Links.Queues.{Queues, detach, push_back}
use ucas_2024fall_oslab.State.{
  blocked, Kernel, ready_queue, sleep_queue, status_of, ready, num_tasks, is_running,
}
use ucas_2024fall_oslab.Sched.Inv.{
  Inv, nobody, Inv-ext, status_of_listed, Belongs, blocked_of_Belongs,
}

-- The sleepers that a walk wakes: `w` gives the time to wake, `ticks` the clock at each round.
unfoldable pub woken : ℕ → (ℕ → ℕ) → (ℕ → ℕ) → List ℕ → List ℕ
woken zero ticks w xs = []
woken (suc fuel) ticks w [] = []
woken (suc fuel) ticks w (x ∷ xs) =
    if leb (w x) (ticks fuel) then x ∷ woken fuel ticks w xs else woken fuel ticks w xs

unfoldable pub asleep : ℕ → (ℕ → ℕ) → (ℕ → ℕ) → List ℕ → List ℕ
asleep zero ticks w xs = xs
asleep (suc fuel) ticks w [] = []
asleep (suc fuel) ticks w (x ∷ xs) =
    if leb (w x) (ticks fuel) then asleep fuel ticks w xs else x ∷ asleep fuel ticks w xs

abbrev pub first : List ℕ → ℕ → ℕ
first [] d = d
first (x ∷ xs) d = x

pub next-of_split :
    (l : Links) (a : ℕ) (ys : List ℕ) (x : ℕ) (xs : List ℕ) (b : ℕ)
    → Chain l a (ys ++ x ∷ xs) b
    → l.next x ≡ first xs b
next-of_split l a [] x [] b c = c.2.0
next-of_split l a [] x (z ∷ xs) b c = c.2.0
next-of_split l a (y ∷ ys) x xs b c = next-of_split l y ys x xs b c.2

pub next-of_head :
    (l : Links) (a : ℕ) (xs : List ℕ) (b : ℕ) → Chain l a xs b → l.next a ≡ first xs b
next-of_head l a [] b c = c.0
next-of_head l a (x ∷ xs) b c = c.0

pub erase-split :
    (ys : List ℕ) (x : ℕ) (xs : List ℕ)
    → Distinct (ys ++ x ∷ xs)
    → (erase x (ys ++ x ∷ xs) ≡ ys ++ xs) × (has x (ys ++ xs) ≡ false)
erase-split [] x xs d = ground arith
erase-split (y ∷ ys) x xs d = ground (arith, erase-split ys x xs d.1, has-append y ys (x ∷ xs))

abbrev pub wake_time : Kernel → ℕ → ℕ
wake_time k t = (k.pcb t).wakeup_time

-- What a walk that began at the nodes `xs` behind `ys` has done.
pub record Slept (k : Kernel) (q : Queues) (ys up down : List ℕ) (k' : Kernel) (q' : Queues)
    : Type 0 where
  pub inv : Inv k'.links (status_of k') q' nobody
  pub ready_now : q' ready_queue ≡ q ready_queue ++ up
  pub sleep_now : q' sleep_queue ≡ ys ++ down
  pub other : (h : ℕ) → h ≢ ready_queue → h ≢ sleep_queue → q' h ≡ q h
  pub same_pcb : (t : ℕ) → has t up ≡ false → k'.pcb t ≡ k.pcb t
  pub woken_pcb :
      (t : ℕ) → has t up ≡ true → k'.pcb t ≡ record (k.pcb t) { wakeup_time = 0; status = ready }
  pub stays : (t : ℕ) → is_running (status_of k' t) ≡ is_running (status_of k t)
  pub same_rest : k' ≡ record k { links = k'.links; pcb = k'.pcb }

-- the state and the lists after a sleeper has woken
abbrev woken_state : ℕ → Kernel → Kernel
woken_state x k = record k {
  pcb = update k.pcb x (record (k.pcb x) { wakeup_time = 0; status = ready });
  links = list_add_tail ready_queue x (list_remove x k.links);
}

abbrev woken_queues : ℕ → Queues → Queues
woken_queues x q = push_back ready_queue x (detach x q)

module _ (ticks w : ℕ → ℕ) where
  wake-Inv :
      (k : Kernel) (q : Queues) (x : ℕ)
      → Inv k.links (status_of k) q nobody
      → has x (q sleep_queue) ≡ true
      → Inv (woken_state x k).links (status_of (woken_state x k)) (woken_queues x q) nobody
  wake-Inv k q x i h =
      let hx : x < num_tasks = i.tasks sleep_queue x h in
      Inv-ext (status_of (woken_state x k)) (λ t. ground arith)
        (move_back-Inv k.links (status_of k) q nobody i x hx (omega arith)
          (λ e.
            subst (λ s. Belongs s sleep_queue) e
              (status_of_listed k.links (status_of k) q nobody i sleep_queue x h))
          ready_queue ready (omega arith) refl)

  -- The walk with `fuel` rounds over the nodes `xs` behind `ys` comes to its end.
  Walk : ℕ → Kernel → Queues → List ℕ → List ℕ → Type 0
  Walk fuel k q ys xs =
      (k' : Kernel) × (q' : Queues) × (check_sleeping_from fuel ticks (first xs sleep_queue) k
        ≡ some k')
      × Slept k q ys (woken fuel ticks w xs) (asleep fuel ticks w xs) k' q'

  Walk-end :
      (fuel : ℕ) (k : Kernel) (q : Queues) (ys : List ℕ)
      → Inv k.links (status_of k) q nobody
      → q sleep_queue ≡ ys ++ []
      → Walk (suc fuel) k q ys []
  unfolding Walk check_sleeping_from woken asleep
  Walk-end fuel k q ys i e = (
    k,
    q,
    refl,
    record {
      inv = i;
      ready_now = sym (append-nil (q ready_queue));
      sleep_now = e;
      other = λ g _ _. refl;
      same_pcb = λ t _. refl;
      woken_pcb = λ t m. absurd (ground arith);
      stays = λ t. refl;
      same_rest = refl;
    },
  )

  module _ (fuel : ℕ) (k : Kernel) (q : Queues) (ys : List ℕ) (x : ℕ) (xs : List ℕ)
      (i : Inv k.links (status_of k) q nobody) (e : q sleep_queue ≡ ys ++ x ∷ xs) where
    ring : Chain k.links sleep_queue (ys ++ x ∷ xs) sleep_queue
    ring =
        subst (λ zs. Chain k.links sleep_queue zs sleep_queue) e
          (i.view.ring sleep_queue (omega arith))

    step : k.links.next x ≡ first xs sleep_queue
    step = next-of_split k.links sleep_queue ys x xs sleep_queue ring

    listed : has x (q sleep_queue) ≡ true
    listed = ground (arith, ap (has x) e, has-append x ys (x ∷ xs))

    node : (x == sleep_queue) ≡ false
    node = ground (arith, i.view.small sleep_queue x listed)

    split : (erase x (ys ++ x ∷ xs) ≡ ys ++ xs) × (has x (ys ++ xs) ≡ false)
    split = erase-split ys x xs (subst Distinct e (i.view.distinct sleep_queue))

    absent_later : (t : ℕ) → has t xs ≡ true → (t == x) ≡ false
    absent_later t m = ground (arith, split.1, has-append x ys xs)

    x_blocked : status_of k x ≡ blocked
    x_blocked =
        blocked_of_Belongs (status_of k x) sleep_queue (omega arith)
          (status_of_listed k.links (status_of k) q nobody i sleep_queue x listed)

    elsewhere : (h : ℕ) → h ≢ sleep_queue → has x (q h) ≡ false
    elsewhere h ne = elim (Bool-cases (has x (q h))) [
      | inl p ↦ absurd (ne (i.view.only h sleep_queue x p listed))
      | inr p ↦ p
    ]

    Walk-due :
        leb (wake_time k x) (ticks fuel) ≡ true
        → wake_time k x ≡ w x
        → Walk fuel (woken_state x k) (woken_queues x q) ys xs
        → Walk (suc fuel) k q ys (x ∷ xs)
    unfolding Walk check_sleeping_from woken asleep wake_sleeper
    Walk-due due same (k', q', run, s) = (
      k',
      q',
      rw (node, due, step) run,
      rw (← same, due)
          (record {
            inv = s.inv;
            ready_now = ground (
              arith,
              s.ready_now,
              erase-absent x (q ready_queue) (elsewhere ready_queue (omega arith)),
              append_assoc (q ready_queue) (x ∷ []) (woken fuel ticks w xs),
            );
            sleep_now = s.sleep_now;
            other =
                λ h nr ns. ground (arith, s.other h nr ns, erase-absent x (q h) (elsewhere h ns));
            same_pcb = λ t nb. ground (arith, s.same_pcb t);
            woken_pcb = λ t m. elim (Bool-cases (has t (woken fuel ticks w xs))) [
              | inl p ↦ s.woken_pcb t p ∙ ground arith
              | inr p ↦ s.same_pcb t p ∙ ground arith
            ];
            stays = λ t. s.stays t ∙ ground (arith, x_blocked);
            same_rest = s.same_rest;
          }),
    )

    Walk-later :
        leb (wake_time k x) (ticks fuel) ≡ false
        → wake_time k x ≡ w x
        → Walk fuel k q (ys ++ x ∷ []) xs
        → Walk (suc fuel) k q ys (x ∷ xs)
    unfolding Walk check_sleeping_from woken asleep wake_sleeper
    Walk-later later same (k', q', run, s) = (
      k',
      q',
      rw (node, later, step) run,
      rw (← same, later)
          (record {
            inv = s.inv;
            ready_now = s.ready_now;
            sleep_now =
                ground (arith, s.sleep_now, append_assoc ys (x ∷ []) (asleep fuel ticks w xs));
            other = s.other;
            same_pcb = s.same_pcb;
            woken_pcb = s.woken_pcb;
            stays = s.stays;
            same_rest = s.same_rest;
          }),
    )

  check_sleeping_from-Slept :
      (fuel : ℕ) (k : Kernel) (q : Queues) (ys xs : List ℕ)
      → Inv k.links (status_of k) q nobody
      → q sleep_queue ≡ ys ++ xs
      → ((t : ℕ) → has t xs ≡ true → wake_time k t ≡ w t)
      → length xs < fuel
      → Walk fuel k q ys xs
  check_sleeping_from-Slept zero k q ys xs i e times h = absurd (omega arith)
  check_sleeping_from-Slept (suc fuel) k q ys [] i e times h = Walk-end fuel k q ys i e
  check_sleeping_from-Slept (suc fuel) k q ys (x ∷ xs) i e times h =
      elim (Bool-cases (leb (wake_time k x) (ticks fuel))) [
        | inl due ↦ Walk-due fuel k q ys x xs i e due (times x (ground arith)) (
            check_sleeping_from-Slept fuel (woken_state x k) (woken_queues x q) ys xs
              (wake-Inv k q x i (listed fuel k q ys x xs i e)) (rw e (split fuel k q ys x xs i e).0)
              (λ t m. ground (arith, times t, absent_later fuel k q ys x xs i e t m)) (omega arith))
        | inr later ↦ Walk-later fuel k q ys x xs i e later (times x (ground arith)) (
            check_sleeping_from-Slept fuel k q (ys ++ x ∷ []) xs i
              (e ∙ sym (append_assoc ys (x ∷ []) xs)) (λ t m. times t (ground arith)) (omega arith))
      ]

-- check_sleeping comes to its end within `walk_fuel` rounds. The sleepers whose time has come, and no
-- others, go to the end of the ready queue in their order and are ready, without a wake-up time; the
-- rest keep sleeping; the other lists, all other tasks and the rest of the kernel are as before.
pub check_sleeping-Slept :
    (ticks : ℕ → ℕ) (k : Kernel) (q : Queues)
    → Inv k.links (status_of k) q nobody
    → let up = woken walk_fuel ticks (wake_time k) (q sleep_queue) in
      let down = asleep walk_fuel ticks (wake_time k) (q sleep_queue) in
      (k' : Kernel) × (q' : Queues) × (check_sleeping ticks k ≡ some k')
      × Slept k q [] up down k' q'
unfolding check_sleeping Walk
check_sleeping-Slept ticks k q i =
    let r : Walk ticks (wake_time k) walk_fuel k q [] (q sleep_queue) =
      check_sleeping_from-Slept ticks (wake_time k) walk_fuel k q [] (q sleep_queue) i refl
        (λ t m. refl) short in
    (r.0, r.1, rw start r.2, r.3)
  where
    short : length (q sleep_queue) < walk_fuel
    short = omega (
      arith,
      length_le_of_Distinct num_tasks (q sleep_queue) (i.view.distinct sleep_queue)
          (i.tasks sleep_queue),
    )

    start : k.links.next sleep_queue ≡ first (q sleep_queue) sleep_queue
    start =
        next-of_head k.links sleep_queue (q sleep_queue) sleep_queue
          (i.view.ring sleep_queue (omega arith))
