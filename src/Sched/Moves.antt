-- ===== src/Sched/Moves.antt =====
-- What one change of a task's list and status does to the invariant.
use ucas_2024fall_oslab.Base.{
  ℕ, ◌≤◌, ◌<◌, ◌≡◌, ◌≢◌, inl, inr, true, [], ◌∷◌, arith, ◌==◌, has, erase, update, Bool-cases,
  has-erase_ne, has-erase_self, has-append, eq_of_==, ne_of_==, subst, sym,
}
use ucas_2024fall_oslab.Links.{Links, list_add_head, list_add_tail, list_remove, node_refresh}
use ucas_2024fall_oslab.Links.Queues.{
  Queues, first_head, Absent, View, Detached, detach, push_back, push_front,
}
use ucas_2024fall_oslab.Links.Moves.{
  list_remove-View, list_add_tail-View, list_add_head-View, node_refresh-View,
  node_refresh-Detached, node_refresh-Detached_other, list_add_tail-Detached,
  list_add_head-Detached, list_remove-Detached,
}
use ucas_2024fall_oslab.State.{Status, running, exited, num_tasks}
use ucas_2024fall_oslab.Sched.Inv.{
  Inv, Stands, Belongs, Stands-frame, Stands-of_list, Placed-of_live, nobody,
}

has-back_ne :
    (q : Queues) (h t u g : ℕ) → u ≢ t → has u (push_back h t (detach t q) g) ≡ has u (q g)
has-back_ne q h t u g ne =
    ground (arith, has-erase_ne u t (q g) ne, has-append u (erase t (q g)) (t ∷ []))

has-front_ne :
    (q : Queues) (h t u g : ℕ) → u ≢ t → has u (push_front h t (detach t q) g) ≡ has u (q g)
has-front_ne q h t u g ne = ground (arith, has-erase_ne u t (q g) ne)

has-back_self : (q : Queues) (h t : ℕ) → has t (push_back h t (detach t q) h) ≡ true
has-back_self q h t = ground (arith, has-append t (erase t (q h)) (t ∷ []))

has-front_self : (q : Queues) (h t : ℕ) → has t (push_front h t (detach t q) h) ≡ true
has-front_self q h t = ground arith

module _ (l : Links) (st : ℕ → Status) (q : Queues) (x : ℕ) (i : Inv l st q x) where
  -- Task `t` takes a new stand, and the others stay where they are.
  change-Inv :
      (m : Links) (p : Queues) (t : ℕ) (s : Status)
      → t < num_tasks
      → t ≢ x
      → View m p
      → ((u g : ℕ) → u ≢ t → has u (p g) ≡ has u (q g))
      → ((u : ℕ) → u < first_head → u ≢ t → Detached l q u → Detached m p u)
      → Stands m p t s
      → Inv m (update st t s) p x
  change-Inv m p t s ht ne v same keep at = record {
    view = v;
    tasks = λ g u k. elim (Bool-cases (u == t)) [
      | inl e ↦ ground arith
      | inr e ↦ i.tasks g u (rw (same u g (ne_of_== u t e)) at k)
    ];
    stands = λ u hu nu. elim (Bool-cases (u == t)) [
      | inl e ↦ rw e (subst (λ w. Stands m p w s) (sym (eq_of_== u t e)) at)
      | inr e ↦ rw e (
          Stands-frame l m q p u (st u) (λ g. same u g (ne_of_== u t e))
            (keep u (omega arith) (ne_of_== u t e)) (i.stands u hu nu))
    ];
    apart = λ g. rw (same x g (λ e. ne (sym e))) (i.apart g);
  }

  -- A task that is on no list enters one at its end.
  pub enter_back-Inv :
      (t h : ℕ) (s : Status)
      → t < num_tasks
      → t ≢ x
      → Absent q t
      → first_head ≤ h
      → Belongs s h
      → Inv (list_add_tail h t l) (update st t s) (push_back h t q) x
  enter_back-Inv t h s ht ne absent hh b =
      change-Inv _ _ t s ht ne (list_add_tail-View _ _ i.view h t hh (omega arith) absent)
        (λ u g nu. ground (arith, has-append u (q g) (t ∷ [])))
        (λ u hu nu d. list_add_tail-Detached _ _ i.view h t hh (omega arith) absent u hu nu d)
        (Stands-of_list _ (push_back h t q) t h s b (ground (arith, has-append t (q h) (t ∷ []))))

  module _ (t : ℕ) (ht : t < num_tasks) (ne : t ≢ x) (live : st t ≢ exited) where
    removed-View : View (list_remove t l) (detach t q)
    removed-View = list_remove-View l q i.view t (Placed-of_live l st q x i t ht ne live)

    removed-Absent : Absent (detach t q) t
    removed-Absent g = has-erase_self t (q g) (i.view.distinct g)

    removed-Detached :
        (u : ℕ)
        → u < first_head
        → u ≢ t
        → Detached l q u
        → Detached (list_remove t l) (detach t q) u
    removed-Detached u hu nu d =
        list_remove-Detached l q i.view t u (Placed-of_live l st q x i t ht ne live) hu nu d

    -- A live task moves to the end of a list, and gets a status that belongs there.
    pub move_back-Inv :
        (h : ℕ) (s : Status)
        → first_head ≤ h
        → Belongs s h
        → Inv (list_add_tail h t (list_remove t l)) (update st t s) (push_back h t (detach t q)) x
    move_back-Inv h s hh b =
        change-Inv _ _ t s ht ne
          (list_add_tail-View _ _ removed-View h t hh (omega arith) removed-Absent)
          (λ u g nu. has-back_ne q h t u g nu)
          (λ u hu nu d.
            list_add_tail-Detached _ _ removed-View h t hh (omega arith) removed-Absent u hu nu
              (removed-Detached u hu nu d))
          (Stands-of_list _ (push_back h t (detach t q)) t h s b (has-back_self q h t))

    -- A live task moves to the front of a list.
    pub move_front-Inv :
        (h : ℕ) (s : Status)
        → first_head ≤ h
        → Belongs s h
        → Inv (list_add_head h t (list_remove t l)) (update st t s) (push_front h t (detach t q)) x
    move_front-Inv h s hh b =
        change-Inv _ _ t s ht ne
          (list_add_head-View _ _ removed-View h t hh (omega arith) removed-Absent)
          (λ u g nu. has-front_ne q h t u g nu)
          (λ u hu nu d.
            list_add_head-Detached _ _ removed-View h t hh (omega arith) removed-Absent u hu nu
              (removed-Detached u hu nu d))
          (Stands-of_list _ (push_front h t (detach t q)) t h s b (has-front_self q h t))

    -- A live task leaves its list and runs.
    pub run-Inv : Inv (node_refresh t (list_remove t l)) (update st t running) (detach t q) x
    run-Inv =
        change-Inv _ _ t running ht ne
          (node_refresh-View _ _ removed-View t (omega arith) removed-Absent)
          (λ u g nu. has-erase_ne u t (q g) nu)
          (λ u hu nu d.
            node_refresh-Detached_other _ _ removed-View t u nu (removed-Detached u hu nu d))
          (node_refresh-Detached _ _ removed-View t removed-Absent)

    -- A live task leaves its list, and is out of the invariant.
    pub drop-Inv : x ≡ nobody → Inv (list_remove t l) st (detach t q) t
    drop-Inv e = record {
      view = removed-View;
      tasks = λ g u k. elim (Bool-cases (u == t)) [
        | inl e' ↦ ground arith
        | inr e' ↦ i.tasks g u (rw (has-erase_ne u t (q g) (ne_of_== u t e')) at k)
      ];
      stands = λ u hu nu.
          Stands-frame l _ q _ u (st u) (λ g. has-erase_ne u t (q g) nu)
            (removed-Detached u (omega arith) nu) (i.stands u hu (omega arith));
      apart = removed-Absent;
    }

-- The task out of the invariant has exited.
pub exit-Inv :
    (l : Links) (st : ℕ → Status) (q : Queues) (x : ℕ)
    → Inv l st q x
    → Inv l (update st x exited) q nobody
exit-Inv l st q x i = record {
  view = i.view;
  tasks = i.tasks;
  stands = λ u hu nu. elim (Bool-cases (u == x)) [
    | inl e ↦ rw e (subst (Absent q) (sym (eq_of_== u x e)) i.apart)
    | inr e ↦ rw e (i.stands u hu (ne_of_== u x e))
  ];
  apart = λ g. elim (Bool-cases (has nobody (q g))) [
    | inl e ↦ absurd (omega (arith, i.tasks g nobody e))
    | inr e ↦ e
  ];
}
