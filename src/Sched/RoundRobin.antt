-- ===== src/Sched/RoundRobin.antt =====
-- do_scheduler of kernel/sched/sched.c as a whole: waking the sleepers, then round robin.
use mathlib.Core.Path.{ap₂}
use ucas_2024fall_oslab.Base.{
  ℕ, ◌<◌, ◌≡◌, refl, ◌≢◌, ◌⊎◌, inl, inr, true, List, [], ◌∷◌, ◌++◌, arith, has, some, sym, ap, ◌∙◌,
}
use ucas_2024fall_oslab.Links.Queues.{Queues}
use ucas_2024fall_oslab.State.{
  running, ready, Kernel, num_tasks, ready_queue, sleep_queue, status_of, is_running,
}
use ucas_2024fall_oslab.Sched.{check_sleeping, walk_fuel, run_next, do_scheduler}
use ucas_2024fall_oslab.Sched.Inv.{
  Inv, nobody, status_of_listed, ready_of_Belongs, running-Detached, running_iff,
}
use ucas_2024fall_oslab.Sched.Sleep.{first, woken, asleep, wake_time, Slept, check_sleeping-Slept}
use ucas_2024fall_oslab.Sched.Schedule.{rotate, Chosen, run_next-none, run_next-some, chosen_queues}

-- The current task may run on, or it may not and another one is ready.
abbrev pub CanSwitch : Kernel → Queues → Type 0
CanSwitch k q =
    (status_of k k.current ≡ running) ⊎ ((status_of k k.current ≢ ready) × (q ready_queue ≢ []))

-- What do_scheduler leaves, `up` being the sleepers that it wakes and `down` the others.
pub record Scheduled (k : Kernel) (q : Queues) (up down : List ℕ) (k' : Kernel) (q' : Queues)
    : Type 0 where
  pub inv : Inv k'.links (status_of k') q' nobody
  pub current_now : k'.current ≡ first (q ready_queue ++ up) k.current
  pub ready_now :
      q' ready_queue ≡ rotate (q ready_queue ++ up) k.current (is_running (status_of k k.current))
  pub sleep_now : q' sleep_queue ≡ down
  pub other : (h : ℕ) → h ≢ ready_queue → h ≢ sleep_queue → q' h ≡ q h
  pub runs : status_of k' k'.current ≡ running
  pub same_mlocks : k'.mlocks ≡ k.mlocks
  pub same_barriers : k'.barriers ≡ k.barriers
  pub same_conditions : k'.conditions ≡ k.conditions

append_nil_left : (xs ys : List ℕ) → xs ++ ys ≡ [] → xs ≡ []
append_nil_left [] ys e = refl
append_nil_left (x ∷ xs) ys e = cc

has-first : (ys zs : List ℕ) (x : ℕ) (xs : List ℕ) → ys ≢ [] → ys ++ zs ≡ x ∷ xs → has x ys ≡ true
has-first [] zs x xs ne e = absurd (ne refl)
has-first (y ∷ ys) zs x xs ne e = ground arith

module _ (k : Kernel) (q : Queues) (i : Inv k.links (status_of k) q nobody)
    (cur_task : k.current < num_tasks) (can : CanSwitch k q) where
  module _ (up down : List ℕ) (k1 : Kernel) (q1 : Queues) (s : Slept k q [] up down k1 q1) where
    same_current : k1.current ≡ k.current
    same_current = ap (λ (m : Kernel). m.current) s.same_rest

    same_runs : is_running (status_of k1 k1.current) ≡ is_running (status_of k k.current)
    same_runs = rw same_current (s.stays k.current)

    still_running : status_of k k.current ≡ running → status_of k1 k1.current ≡ running
    still_running r = running_iff (status_of k1 k1.current) (same_runs ∙ ap is_running r)

    -- The first task of a ready queue that was not empty was ready before the sleepers woke.
    first_ready :
        (x : ℕ) (xs : List ℕ) → q1 ready_queue ≡ x ∷ xs → q ready_queue ≢ [] → status_of k x ≡ ready
    first_ready x xs e ne = ready_of_Belongs (status_of k x) ready_queue refl (
        status_of_listed k.links (status_of k) q nobody i ready_queue x
          (has-first (q ready_queue) up x xs ne (sym s.ready_now ∙ e)))

    ne_current : (x : ℕ) (xs : List ℕ) → q1 ready_queue ≡ x ∷ xs → x ≢ k1.current
    ne_current x xs e p = elim can [
      | inl r ↦
          let d =
            running-Detached k1.links (status_of k1) q1 nobody s.inv k1.current
              (rw same_current cur_task) (omega (arith, cur_task, same_current))
              (still_running r) in
          ground (arith, d.absent ready_queue, ap (has k1.current) e)
      | inr (nr, ne) ↦ nr (rw (← same_current, ← p) (first_ready x xs e ne))
    ]

    chosen : (xs : List ℕ) → q1 ready_queue ≡ xs → (q' : Queues) × Chosen k1 q1 xs (run_next k1) q'
    chosen [] e = (q1, run_next-none k1 q1 s.inv (rw same_current cur_task) e)
    chosen (x ∷ xs) e = (
      chosen_queues k1 q1 s.inv (rw same_current cur_task) x xs e (ne_current x xs e) _,
      run_next-some k1 q1 s.inv (rw same_current cur_task) x xs e (ne_current x xs e),
    )

    Scheduled-of :
        (q' : Queues)
        → Chosen k1 q1 (q ready_queue ++ up) (run_next k1) q'
        → Scheduled k q up down (run_next k1) q'
    Scheduled-of q' c = record {
      inv = c.inv;
      current_now = c.current_now ∙ ap (first (q ready_queue ++ up)) same_current;
      ready_now = c.ready_now ∙ ap₂ (rotate (q ready_queue ++ up)) same_current same_runs;
      sleep_now = c.other sleep_queue (λ e. ground arith) ∙ s.sleep_now;
      other = λ h nr ns. c.other h nr ∙ s.other h nr ns;
      runs = c.runs (elim can [
        | inl r ↦ inr (still_running r)
        | inr (nr, ne) ↦ inl (λ e. ne (append_nil_left (q ready_queue) up e))
      ]);
      same_mlocks = c.same_mlocks ∙ ap (λ (m : Kernel). m.mlocks) s.same_rest;
      same_barriers = c.same_barriers ∙ ap (λ (m : Kernel). m.barriers) s.same_rest;
      same_conditions = c.same_conditions ∙ ap (λ (m : Kernel). m.conditions) s.same_rest;
    }

-- do_scheduler returns whenever the current task may run on or another one is ready. It wakes the
-- sleepers whose time has come, behind the tasks that were ready; the first of all these runs, and the
-- current task, if it was still running, goes to the end of the ready queue. The other lists and the
-- locks, barriers and condition variables stay as they are, and so does the invariant.
pub do_scheduler-Scheduled :
    (ticks : ℕ → ℕ) (k : Kernel) (q : Queues)
    → Inv k.links (status_of k) q nobody
    → k.current < num_tasks
    → CanSwitch k q
    → let up = woken walk_fuel ticks (wake_time k) (q sleep_queue) in
      let down = asleep walk_fuel ticks (wake_time k) (q sleep_queue) in
      (k' : Kernel) × (q' : Queues) × (do_scheduler ticks k ≡ some k') × Scheduled k q up down k' q'
unfolding do_scheduler
do_scheduler-Scheduled ticks k q i cur_task can = go (check_sleeping-Slept ticks k q i)
  where
    up : List ℕ
    up = woken walk_fuel ticks (wake_time k) (q sleep_queue)

    down : List ℕ
    down = asleep walk_fuel ticks (wake_time k) (q sleep_queue)

    go :
        ((k1 : Kernel) × (q1 : Queues) × (check_sleeping ticks k ≡ some k1)
          × Slept k q [] up down k1 q1)
        → (k' : Kernel) × (q' : Queues) × (do_scheduler ticks k ≡ some k')
          × Scheduled k q up down k' q'
    go (k1, q1, e, s) =
        let c : (q' : Queues) × Chosen k1 q1 (q ready_queue ++ up) (run_next k1) q' =
          chosen k q i cur_task can up down k1 q1 s (q ready_queue ++ up) s.ready_now in
        (
          run_next k1,
          c.0,
          rw (e, do_scheduler) refl,
          Scheduled-of k q i cur_task can up down k1 q1 s c.0 c.1,
        )
