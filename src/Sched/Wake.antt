-- ===== src/Sched/Wake.antt =====
-- do_unblock and do_block of kernel/sched/sched.c with the change of status that goes with them.
use mathlib.Core.Path.{fun_ext}
use mathlib.Core.List.{reverse_aux}
use ucas_2024fall_oslab.Base.{
  ℕ, zero, suc, ◌≤◌, ◌<◌, ◌≡◌, refl, ◌≢◌, inl, inr, true, false, List, [], ◌∷◌, arith, has, erase,
  length, Bool-cases, subst, sym, some, ap, ap₂, ◌∙◌, erase-absent, length_le_of_Distinct,
}
use ucas_2024fall_oslab.Links.{list_is_empty}
use ucas_2024fall_oslab.Links.Chain.{Ring-empty}
use ucas_2024fall_oslab.Links.Queues.{Queues, detach, push_back, push_front, Detached, first_head}
use ucas_2024fall_oslab.Links.Moves.{head-absent}
use ucas_2024fall_oslab.State.{
  blocked, running, ready, Kernel, num_tasks, ready_queue, status_of, set_status,
}
use ucas_2024fall_oslab.Sched.{do_block, wake, wake_all, walk_fuel}
use ucas_2024fall_oslab.Sched.Inv.{
  Inv, nobody, Inv-ext, status_of_listed, blocked_of_Belongs, running-Detached,
}
use ucas_2024fall_oslab.Sched.Moves.{move_front-Inv, move_back-Inv}
use ucas_2024fall_oslab.Sched.Sleep.{next-of_head, first}

abbrev pub woken_lists : ℕ → Queues → Queues
woken_lists t q = push_front ready_queue t (detach t q)

module _ (k : Kernel) (q : Queues) (x : ℕ) (i : Inv k.links (status_of k) q x) (h : ℕ)
    (hh : first_head ≤ h) where
  pub head_of : k.links.next h ≡ first (q h) h
  head_of = next-of_head k.links h (q h) h (i.view.ring h hh)

  pub empty_of : list_is_empty h k.links ≡ elim (q h) [ [] ↦ true | _ ∷ _ ↦ false ]
  empty_of = Ring-empty k.links h (q h) (head-absent k.links q i.view h hh) (i.view.ring h hh)

  module _ (nr : h ≢ ready_queue) (t : ℕ) (ts : List ℕ) (e : q h ≡ t ∷ ts) where
    pub head_listed : has t (q h) ≡ true
    head_listed = ground (arith, ap (has t) e)

    pub head_task : t < num_tasks
    head_task = i.tasks h t head_listed

    pub head_ne : t ≢ x
    head_ne p = ground (arith, i.apart h, head_listed)

    pub head_blocked : status_of k t ≡ blocked
    head_blocked =
        blocked_of_Belongs (status_of k t) h nr
          (status_of_listed k.links (status_of k) q x i h t head_listed)

    head_elsewhere : (g : ℕ) → g ≢ h → has t (q g) ≡ false
    head_elsewhere g ne = elim (Bool-cases (has t (q g))) [
      | inl p ↦ absurd (ne (i.view.only g h t p head_listed))
      | inr p ↦ p
    ]

    -- The first task of a list is made ready: it goes before the ready tasks.
    pub wake-Inv : Inv (wake t k).links (status_of (wake t k)) (woken_lists t q) x
    unfolding wake
    wake-Inv =
        Inv-ext (status_of (wake t k)) (λ u. ground arith)
          (move_front-Inv k.links (status_of k) q x i t head_task head_ne
            (λ p. ground (arith, head_blocked)) ready_queue ready (omega arith) refl)

    pub woken_here : woken_lists t q h ≡ ts
    woken_here = ground (arith, ap (erase t) e)

    pub woken_ready : woken_lists t q ready_queue ≡ t ∷ q ready_queue
    woken_ready =
        ground
          (arith, erase-absent t (q ready_queue) (head_elsewhere ready_queue (λ p. nr (sym p))))

    pub woken_other : (g : ℕ) → g ≢ h → g ≢ ready_queue → woken_lists t q g ≡ q g
    woken_other g nh ng = ground (arith, erase-absent t (q g) (head_elsewhere g nh))

-- What waking all tasks of list `h` leaves.
pub record AllWoken (k : Kernel) (q : Queues) (x h : ℕ) (k' : Kernel) (q' : Queues) : Type 0 where
  pub inv : Inv k'.links (status_of k') q' x
  pub here : q' h ≡ []
  pub ready_now : q' ready_queue ≡ reverse_aux (q h) (q ready_queue)
  pub other : (g : ℕ) → g ≢ h → g ≢ ready_queue → q' g ≡ q g
  pub same_pcb : (t : ℕ) → has t (q h) ≡ false → k'.pcb t ≡ k.pcb t
  pub woken_pcb : (t : ℕ) → has t (q h) ≡ true → k'.pcb t ≡ record (k.pcb t) { status = ready }
  pub same_rest : k' ≡ record k { links = k'.links; pcb = k'.pcb }

abbrev WakesAll : ℕ → Kernel → Queues → ℕ → ℕ → List ℕ → Type 0
WakesAll fuel k q x h ts =
    (k' : Kernel) × (q' : Queues) × (wake_all fuel h k ≡ some k') × AllWoken k q x h k' q'

module _ (x h : ℕ) (hh : first_head ≤ h) (nr : h ≢ ready_queue) where
  wake_all_step :
      (fuel : ℕ) (k : Kernel) (q : Queues) (i : Inv k.links (status_of k) q x) (t : ℕ) (ts : List ℕ)
      → q h ≡ t ∷ ts
      → WakesAll fuel (wake t k) (woken_lists t q) x h ts
      → WakesAll (suc fuel) k q x h (t ∷ ts)
  unfolding wake_all wake
  wake_all_step fuel k q i t ts e (k', q', run, a) = (
    k',
    q',
    rw (empty_of k q x i h hh, e, head_of k q x i h hh, e) run,
    record {
      inv = a.inv;
      here = a.here;
      ready_now =
          a.ready_now
          ∙ ap₂ reverse_aux (woken_here k q x i h hh nr t ts e) (woken_ready k q x i h hh nr t ts e)
          ∙ sym (ap (λ zs. reverse_aux zs (q ready_queue)) e);
      other = λ g nh ng. a.other g nh ng ∙ woken_other k q x i h hh nr t ts e g nh ng;
      same_pcb = λ u nb.
          a.same_pcb u (ground (arith, ap (has u) (rest_now e), ap (has u) e))
          ∙ ground (arith, ap (has u) e);
      woken_pcb = λ u m. elim (Bool-cases (has u ts)) [
        | inl p ↦ a.woken_pcb u (ap (has u) (rest_now e) ∙ p) ∙ ground arith
        | inr p ↦ a.same_pcb u (ap (has u) (rest_now e) ∙ p) ∙ ground (arith, ap (has u) e)
      ];
      same_rest = a.same_rest;
    },
  )
    where
      rest_now : q h ≡ t ∷ ts → woken_lists t q h ≡ ts
      rest_now e = woken_here k q x i h hh nr t ts e

  wake_all_loop :
      (fuel : ℕ) (k : Kernel) (q : Queues) (ts : List ℕ)
      → Inv k.links (status_of k) q x
      → q h ≡ ts
      → length ts < fuel
      → WakesAll fuel k q x h ts
  unfolding wake_all
  wake_all_loop zero k q ts i e f = absurd (omega arith)
  wake_all_loop (suc fuel) k q [] i e f = (
    k,
    q,
    rw (empty_of k q x i h hh, e) refl,
    record {
      inv = i;
      here = e;
      ready_now = sym (ap (λ zs. reverse_aux zs (q ready_queue)) e);
      other = λ g _ _. refl;
      same_pcb = λ t _. refl;
      woken_pcb = λ t m. absurd (ground (arith, ap (has t) e));
      same_rest = refl;
    },
  )
  wake_all_loop (suc fuel) k q (t ∷ ts) i e f = wake_all_step fuel k q i t ts e (
      wake_all_loop fuel (wake t k) (woken_lists t q) ts (wake-Inv k q x i h hh nr t ts e)
        (woken_here k q x i h hh nr t ts e) (omega arith))

-- Waking all tasks of a list comes to its end within `walk_fuel` rounds. They go before the ready
-- tasks, the last one first, and are ready, with nothing else changed in them; the other lists and tasks
-- and the rest of the kernel stay as they are.
pub wake_all-AllWoken :
    (k : Kernel) (q : Queues) (x h : ℕ)
    → Inv k.links (status_of k) q x
    → first_head ≤ h
    → h ≢ ready_queue
    → (k' : Kernel) × (q' : Queues) × (wake_all walk_fuel h k ≡ some k') × AllWoken k q x h k' q'
wake_all-AllWoken k q x h i hh nr =
    wake_all_loop x h hh nr walk_fuel k q (q h) i refl
      (omega (arith, length_le_of_Distinct num_tasks (q h) (i.view.distinct h) (i.tasks h)))

-- The current task blocks on list `h`: it goes to its end and is blocked.
pub block_current-Inv :
    (k : Kernel) (q : Queues) (h : ℕ)
    → Inv k.links (status_of k) q nobody
    → k.current < num_tasks
    → status_of k k.current ≡ running
    → first_head ≤ h
    → h ≢ ready_queue
    → let k' = do_block k.current h (set_status k.current blocked k) in
      Inv k'.links (status_of k') (push_back h k.current q) nobody
unfolding do_block
block_current-Inv k q h i ht r hh nr =
    subst
      (λ p.
        Inv (do_block k.current h (set_status k.current blocked k)).links
          (status_of (do_block k.current h (set_status k.current blocked k)))
          (push_back h k.current p) nobody)
      (fun_ext λ g. erase-absent k.current (q g) (d.absent g))
      (Inv-ext _ (λ u. ground arith)
        (move_back-Inv k.links (status_of k) q nobody i k.current ht (omega arith)
          (λ p. ground arith) h blocked hh nr))
  where
    d : Detached k.links q k.current
    d = running-Detached k.links (status_of k) q nobody i k.current ht (omega arith) r
