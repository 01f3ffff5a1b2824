-- ===== src/Sched/Schedule.antt =====
-- do_scheduler of kernel/sched/sched.c is round robin over the ready queue.
use ucas_2024fall_oslab.Base.{
  ℕ, ◌<◌, ◌≡◌, refl, ◌≢◌, ◌⊎◌, inl, inr, Bool, true, false, List, [], ◌∷◌, ◌++◌, arith,
  if◌then◌else◌, has, erase, update, Bool-cases, sym, ap, ◌∙◌, erase-absent, has-erase_ne,
}
use ucas_2024fall_oslab.Links.{list_is_empty, list_add_tail, list_remove, node_refresh}
use ucas_2024fall_oslab.Links.Chain.{Ring-empty}
use ucas_2024fall_oslab.Links.Queues.{Queues, detach, push_back, Absent}
use ucas_2024fall_oslab.Links.Moves.{head-absent}
use ucas_2024fall_oslab.State.{
  running, ready, Kernel, num_tasks, ready_queue, status_of, is_running, set_status, with_links,
}
use ucas_2024fall_oslab.Mm.{free_process_mem}
use ucas_2024fall_oslab.Sched.{switch_to, requeue, run_next}
use ucas_2024fall_oslab.Sched.Inv.{
  Inv, nobody, Inv-ext, Inv-same, status_of_listed, ready_of_Belongs, running_iff, running-Detached,
}
use ucas_2024fall_oslab.Sched.Moves.{run-Inv, enter_back-Inv}
use ucas_2024fall_oslab.Sched.Sleep.{first, next-of_head}

-- The ready queue after its first task has been chosen over the current one.
abbrev pub rotate : List ℕ → ℕ → Bool → List ℕ
rotate [] cur runs = []
rotate (x ∷ xs) cur runs = if runs then xs ++ cur ∷ [] else xs

-- What choosing a task leaves, `xs` being the ready queue before.
pub record Chosen (k : Kernel) (q : Queues) (xs : List ℕ) (k' : Kernel) (q' : Queues) : Type 0 where
  pub inv : Inv k'.links (status_of k') q' nobody
  pub current_now : k'.current ≡ first xs k.current
  pub ready_now : q' ready_queue ≡ rotate xs k.current (is_running (status_of k k.current))
  pub other : (h : ℕ) → h ≢ ready_queue → q' h ≡ q h
  pub runs : (xs ≢ []) ⊎ (status_of k k.current ≡ running) → status_of k' k'.current ≡ running
  pub same_mlocks : k'.mlocks ≡ k.mlocks
  pub same_barriers : k'.barriers ≡ k.barriers
  pub same_conditions : k'.conditions ≡ k.conditions

-- switch_to changes the current task, the address space and the page maps only.
pub switch_to-same :
    (next : ℕ) (k : Kernel)
    → let k' = switch_to next k in
      (k'.current ≡ next)
      × (k'.links ≡ k.links)
      × (k'.pcb ≡ k.pcb)
      × (k'.mlocks ≡ k.mlocks)
      × (k'.barriers ≡ k.barriers)
      × (k'.conditions ≡ k.conditions)
unfolding switch_to free_process_mem
switch_to-same next k = ground arith

-- the state in which `next` has left the ready queue and runs
abbrev mid : ℕ → Kernel → Kernel
mid next k = with_links (λ l. node_refresh next (list_remove next l)) (set_status next running k)

-- the state in which the current task stands behind the ready ones
abbrev behind : ℕ → Kernel → Kernel
behind next k =
    set_status k.current ready (with_links (list_add_tail ready_queue k.current) (mid next k))

module _ (k : Kernel) (q : Queues) (i : Inv k.links (status_of k) q nobody)
    (cur_task : k.current < num_tasks) where
  pub run_next-none : q ready_queue ≡ [] → Chosen k q [] (run_next k) q
  unfolding run_next
  run_next-none e =
      let c = switch_to-same k.current k in
      rw empty (record {
        inv = Inv-same k (switch_to k.current k) q nobody c.1 c.2 i;
        current_now = c.0;
        ready_now = e;
        other = λ h _. refl;
        runs = elim [ inl ne ↦ absurd (ne refl) | inr r ↦ rw (c.0, c.2) r ];
        same_mlocks = c.3;
        same_barriers = c.4;
        same_conditions = c.5;
      })
    where
      empty : list_is_empty ready_queue k.links ≡ true
      empty = ground (
        arith,
        Ring-empty k.links ready_queue (q ready_queue)
            (head-absent k.links q i.view ready_queue (omega arith))
            (i.view.ring ready_queue (omega arith)),
      )

  module _ (x : ℕ) (xs : List ℕ) (e : q ready_queue ≡ x ∷ xs) (ne : x ≢ k.current) where
    listed : has x (q ready_queue) ≡ true
    listed = ground (arith, ap (has x) e)

    next_is : k.links.next ready_queue ≡ x
    next_is =
        next-of_head k.links ready_queue (q ready_queue) ready_queue
          (i.view.ring ready_queue (omega arith))
        ∙ ap (λ ys. first ys ready_queue) e

    nonempty : list_is_empty ready_queue k.links ≡ false
    nonempty = ground (
      arith,
      Ring-empty k.links ready_queue (q ready_queue)
          (head-absent k.links q i.view ready_queue (omega arith))
          (i.view.ring ready_queue (omega arith)),
    )

    x_ready : status_of k x ≡ ready
    x_ready =
        ready_of_Belongs (status_of k x) ready_queue refl
          (status_of_listed k.links (status_of k) q nobody i ready_queue x listed)

    elsewhere : (h : ℕ) → h ≢ ready_queue → has x (q h) ≡ false
    elsewhere h nh = elim (Bool-cases (has x (q h))) [
      | inl p ↦ absurd (nh (i.view.only h ready_queue x p listed))
      | inr p ↦ p
    ]

    x_runs :
        Inv
          (node_refresh x (list_remove x k.links))
          (update (status_of k) x running)
          (detach x q)
          nobody
    x_runs =
        let hx : x < num_tasks = i.tasks ready_queue x listed in
        run-Inv k.links (status_of k) q nobody i x hx (omega arith) (ground (arith, x_ready))

    mid_test : is_running (status_of (mid x k) k.current) ≡ is_running (status_of k k.current)
    mid_test = ground arith

    mid-Inv : Inv (mid x k).links (status_of (mid x k)) (detach x q) nobody
    mid-Inv = Inv-ext (status_of (mid x k)) (λ t. ground arith) x_runs

    requeue_stop :
        is_running (status_of k k.current) ≡ false
        → Inv (requeue x k).links (status_of (requeue x k)) (detach x q) nobody
          × (status_of (requeue x k) x ≡ running)
    requeue_stop stop = rw same (mid-Inv, ground arith)
      where
        same : requeue x k ≡ mid x k
        same = unfold requeue in rw (mid_test ∙ stop)

    requeue_back :
        is_running (status_of k k.current) ≡ true
        → Inv
            (requeue x k).links
            (status_of (requeue x k))
            (push_back ready_queue k.current (detach x q))
            nobody
          × (status_of (requeue x k) x ≡ running)
    requeue_back runs = rw same (back, ground arith)
      where
        same : requeue x k ≡ behind x k
        same = unfold requeue in rw (mid_test ∙ runs)

        absent : Absent (detach x q) k.current
        absent g =
            let d =
              running-Detached k.links (status_of k) q nobody i k.current cur_task (omega arith)
                (running_iff (status_of k k.current) runs) in
            rw (has-erase_ne k.current x (q g) (λ p. ne (sym p))) (d.absent g)

        back :
            Inv
              (behind x k).links
              (status_of (behind x k))
              (push_back ready_queue k.current (detach x q))
              nobody
        back =
            Inv-ext (status_of (behind x k)) (λ t. ground arith)
              (enter_back-Inv _ _ _ _ mid-Inv k.current ready_queue ready cur_task (omega arith)
                absent (omega arith) refl)

    requeue-same :
        ((requeue x k).current ≡ k.current)
        × ((requeue x k).mlocks ≡ k.mlocks)
        × ((requeue x k).barriers ≡ k.barriers)
        × ((requeue x k).conditions ≡ k.conditions)
    unfolding requeue
    requeue-same = elim (Bool-cases (is_running (status_of (mid x k) k.current))) [
      | inl r ↦ rw r (refl, refl, refl, refl)
      | inr r ↦ rw r (refl, refl, refl, refl)
    ]

    -- The lists after the choice.
    pub chosen_queues : Bool → Queues
    chosen_queues true = push_back ready_queue k.current (detach x q)
    chosen_queues false = detach x q

    chosen-Inv :
        Inv
          (requeue x k).links
          (status_of (requeue x k))
          (chosen_queues (is_running (status_of k k.current)))
          nobody
        × (status_of (requeue x k) x ≡ running)
    unfolding chosen_queues
    chosen-Inv = elim (Bool-cases (is_running (status_of k k.current))) [
      | inl r ↦ rw r (requeue_back r)
      | inr r ↦ rw r (requeue_stop r)
    ]

    chosen_ready :
        (b : Bool) → chosen_queues b ready_queue ≡ (if b then xs ++ k.current ∷ [] else xs)
    unfolding chosen_queues
    chosen_ready true = ground (arith, ap (erase x) e)
    chosen_ready false = ground (arith, ap (erase x) e)

    chosen_other : (b : Bool) (h : ℕ) → h ≢ ready_queue → chosen_queues b h ≡ q h
    unfolding chosen_queues
    chosen_other true h nh = ground (arith, erase-absent x (q h) (elsewhere h nh))
    chosen_other false h nh = ground (arith, erase-absent x (q h) (elsewhere h nh))

    pub run_next-some :
        Chosen k q (x ∷ xs) (run_next k) (chosen_queues (is_running (status_of k k.current)))
    unfolding run_next
    run_next-some =
        let c = switch_to-same x (requeue x k) in
        let r = requeue-same in
        rw (nonempty, next_is)
          (record {
            inv =
                Inv-same (requeue x k) (switch_to x (requeue x k))
                  (chosen_queues (is_running (status_of k k.current))) nobody c.1 c.2 chosen-Inv.0;
            current_now = c.0;
            ready_now = chosen_ready (is_running (status_of k k.current));
            other = chosen_other (is_running (status_of k k.current));
            runs = λ _. rw (c.0, c.2) chosen-Inv.1;
            same_mlocks = c.3 ∙ r.1;
            same_barriers = c.4 ∙ r.2;
            same_conditions = c.5 ∙ r.3;
          })
