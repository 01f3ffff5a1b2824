-- ===== src/Mailbox/Waiters.antt =====
-- The loops of do_mbox_send and do_mbox_recv over the waiters of a mailbox come to their end: a task that is served
-- leaves the list for the front of the ready queue, and the loop holds the node behind it.
use mathlib.Core.List.{append_assoc}
use ucas_2024fall_oslab.Base.{
  Bool-cases, ◌&&◌, ℕ, zero, suc, ◌≤◌, ◌≡◌, ◌≢◌, refl, inl, inr, ◌⊎◌, true, false, List, [], ◌∷◌,
  ◌++◌, arith, ◌==◌, has, has-append, erase, length, update, Distinct, subst, sym, some, ap, ◌∙◌,
  length_le_of_Distinct,
}
use ucas_2024fall_oslab.Links.{list_add_head, list_remove}
use ucas_2024fall_oslab.Links.Chain.{Chain}
use ucas_2024fall_oslab.Links.Queues.{Queues, detach, push_front}
use ucas_2024fall_oslab.State.{ready, num_tasks, ready_queue, status_of}
use ucas_2024fall_oslab.Sched.{wake, walk_fuel}
use ucas_2024fall_oslab.Sched.Inv.{Inv, nobody, Inv-ext, Belongs, status_of_listed}
use ucas_2024fall_oslab.Sched.Moves.{move_front-Inv}
use ucas_2024fall_oslab.Sched.Sleep.{first, next-of_split, next-of_head, erase-split}
use ucas_2024fall_oslab.Mailbox.{
  has_data, has_room, Mail, serve_all, serve_reader, serve_writer, release_waiter,
}

abbrev pub MailInv : Mail → Queues → Type 0
MailInv w q = Inv w.kernel.links (status_of w.kernel) q nobody

-- Task `t` was made ready.
pub record Released (t : ℕ) (w w' : Mail) : Type 0 where
  pub links : w'.kernel.links ≡ list_add_head ready_queue t (list_remove t w.kernel.links)
  pub status : (u : ℕ) → status_of w'.kernel u ≡ update (status_of w.kernel) t ready u

-- A round leaves the kernel as it is, or releases its task.
abbrev pub StepOk : (ℕ → Mail → Mail) → Type 0
StepOk step = (t : ℕ) (w : Mail) → ((step t w).kernel ≡ w.kernel) ⊎ Released t w (step t w)

abbrev served_queues : ℕ → Queues → Queues
served_queues t q = push_front ready_queue t (detach t q)

module _ (w : Mail) (q : Queues) (head : ℕ) (ys : List ℕ) (x : ℕ) (xs : List ℕ) (i : MailInv w q)
    (hh : 100 ≤ head) (nr : head ≢ ready_queue) (e : q head ≡ ys ++ x ∷ xs) where
  listed : has x (q head) ≡ true
  listed = ground (arith, ap (has x) e, has-append x ys (x ∷ xs))

  next_node : w.kernel.links.next x ≡ first xs head
  next_node =
      next-of_split w.kernel.links head ys x xs head
        (subst (λ zs. Chain w.kernel.links head zs head) e (i.view.ring head hh))

  not_head : (x == head) ≡ false
  not_head = ground (arith, i.view.small head x listed)

  released-Inv : (v : Mail) → Released x w v → MailInv v (served_queues x q)
  released-Inv v r =
      subst (λ l. Inv l (status_of v.kernel) (served_queues x q) nobody) (sym r.links)
        (Inv-ext (status_of v.kernel) r.status (
          move_front-Inv w.kernel.links (status_of w.kernel) q nobody i x (i.tasks head x listed)
            (λ p. ground (arith, i.tasks head x listed))
            (λ p.
              subst (λ s. Belongs s head) p
                (status_of_listed w.kernel.links (status_of w.kernel) q nobody i head x listed))
            ready_queue ready (omega arith) refl))

  left_queue : served_queues x q head ≡ ys ++ xs
  left_queue =
      ground
        (arith, ap (erase x) e, (erase-split ys x xs (subst Distinct e (i.view.distinct head))).0)

module _ (P : Mail → Type 0) (step : ℕ → Mail → Mail) (ok : StepOk step)
    (keeps : (t : ℕ) (w : Mail) → P w → P (step t w)) (head : ℕ) (hh : 100 ≤ head)
    (nr : head ≢ ready_queue) where
  -- The loop with `n` rounds from a node on comes to its end.
  abbrev pub Ends : ℕ → ℕ → Mail → Type 0
  Ends n node w =
      (w' : Mail) × (q' : Queues) × (serve_all n step head node w ≡ some w') × MailInv w' q' × P w'

  serve_all-Ends :
      (n : ℕ) (w : Mail) (q : Queues) (ys xs : List ℕ)
      → MailInv w q
      → P w
      → q head ≡ ys ++ xs
      → length xs ≤ n
      → Ends n (first xs head) w
  unfolding serve_all
  serve_all-Ends zero w q ys [] i p e b = (w, q, ground arith, i, p)
  serve_all-Ends (suc n) w q ys [] i p e b = (w, q, ground arith, i, p)
  serve_all-Ends zero w q ys (x ∷ xs) i p e b = absurd (omega arith)
  serve_all-Ends (suc n) w q ys (x ∷ xs) i p e b = elim (ok x w) [
    | inl same ↦
        rw (not_head w q head ys x xs i hh nr e, next_node w q head ys x xs i hh nr e)
          (serve_all-Ends n (step x w) q (ys ++ x ∷ []) xs
            (subst (λ k. Inv k.links (status_of k) q nobody) (sym same) i) (keeps x w p)
            (e ∙ sym (append_assoc ys (x ∷ []) xs)) (omega arith))
    | inr r ↦
        rw (not_head w q head ys x xs i hh nr e, next_node w q head ys x xs i hh nr e)
          (serve_all-Ends n (step x w) (served_queues x q) ys xs
            (released-Inv w q head ys x xs i hh nr e (step x w) r) (keeps x w p)
            (left_queue w q head ys x xs i hh nr e) (omega arith))
  ]

  -- From the head of the list on, `walk_fuel` rounds are enough.
  pub serve_all-end :
      (w : Mail) (q : Queues) → MailInv w q → P w → Ends walk_fuel (w.kernel.links.next head) w
  serve_all-end w q i p =
      subst (λ n. Ends walk_fuel n w)
        (sym (next-of_head w.kernel.links head (q head) head (i.view.ring head hh)))
        (serve_all-Ends walk_fuel w q [] (q head) i p refl (
          omega (
            arith,
            length_le_of_Distinct num_tasks (q head) (i.view.distinct head) (i.tasks head),
          )))

release_waiter-Released :
    (t : ℕ) (w v : Mail) → v.kernel ≡ w.kernel → Released t w (release_waiter t v)
unfolding release_waiter wake
release_waiter-Released t w v e = record {
  links = ap (λ k. list_add_head ready_queue t (list_remove t k.links)) e;
  status = λ u. ground (arith, ap (λ k. status_of k u) e);
}

pub serve_reader-StepOk : (i : ℕ) → StepOk (serve_reader i)
unfolding serve_reader
serve_reader-StepOk i t w =
    elim (Bool-cases
      ((w.kernel.pcb t).mbox_rw == 0 && has_data (w.kernel.pcb t).mbox_size (w.mboxes i))) [
        | inl e ↦ rw e (inr (release_waiter-Released t w _ refl))
        | inr e ↦ rw e (inl refl)
      ]

pub serve_writer-StepOk : (i : ℕ) → StepOk (serve_writer i)
unfolding serve_writer
serve_writer-StepOk i t w =
    elim (Bool-cases
      ((w.kernel.pcb t).mbox_rw == 1 && has_room (w.kernel.pcb t).mbox_size (w.mboxes i))) [
        | inl e ↦ rw e (inr (release_waiter-Released t w _ refl))
        | inr e ↦ rw e (inl refl)
      ]
