-- ===== src/Sched/Inv.antt =====
-- Where the tasks stand. A running task is on no list, a ready one on the ready queue, a blocked one
-- on some other list, and a task that has exited on none.
use ucas_2024fall_oslab.Base.{ℕ, ◌<◌, ◌≡◌, ◌≢◌, inl, inr, true, arith, has, subst, refl, sym, ap}
use ucas_2024fall_oslab.Links.{Links}
use ucas_2024fall_oslab.Links.Queues.{Queues, Absent, View, Detached, Placed}
use ucas_2024fall_oslab.State.{
  Status, blocked, running, ready, exited, num_tasks, ready_queue, Kernel, status_of, Pcb,
  is_running,
}

abbrev pub Stands : Links → Queues → ℕ → Status → Type 0
Stands l q t ready = has t (q ready_queue) ≡ true
Stands l q t blocked = (h : ℕ) × (h ≢ ready_queue) × (has t (q h) ≡ true)
Stands l q t running = Detached l q t
Stands l q t exited = Absent q t

-- The invariant for every task but `x`, which is on no list. Where no task is meant, `x` is `nobody`.
pub record Inv (l : Links) (st : ℕ → Status) (q : Queues) (x : ℕ) : Type 0 where
  pub view : View l q
  pub tasks : (h t : ℕ) → has t (q h) ≡ true → t < num_tasks
  pub stands : (t : ℕ) → t < num_tasks → t ≢ x → Stands l q t (st t)
  pub apart : Absent q x

abbrev pub nobody : ℕ
nobody = num_tasks

-- What a status says of the list it belongs to.
abbrev pub Belongs : Status → ℕ → Type 0
Belongs ready h = h ≡ ready_queue
Belongs blocked h = h ≢ ready_queue
Belongs running h = ⊥
Belongs exited h = ⊥

Stands-Placed :
    (l : Links) (q : Queues) (t : ℕ) (s : Status) → s ≢ exited → Stands l q t s → Placed l q t
Stands-Placed l q t ready ne p = inl (ready_queue, p)
Stands-Placed l q t blocked ne (h, _, p) = inl (h, p)
Stands-Placed l q t running ne p = inr p
Stands-Placed l q t exited ne p = absurd (ne (ground arith))

pub Stands-of_list :
    (l : Links) (q : Queues) (t h : ℕ) (s : Status)
    → Belongs s h
    → has t (q h) ≡ true
    → Stands l q t s
Stands-of_list l q t h ready b p = subst (λ g. has t (q g) ≡ true) b p
Stands-of_list l q t h blocked b p = (h, b, p)
Stands-of_list l q t h running b p = absurd b
Stands-of_list l q t h exited b p = absurd b

-- A task stays where it stands when the links and lists change elsewhere.
pub Stands-frame :
    (l m : Links) (q p : Queues) (t : ℕ) (s : Status)
    → ((h : ℕ) → has t (p h) ≡ has t (q h))
    → (Detached l q t → Detached m p t)
    → Stands l q t s
    → Stands m p t s
Stands-frame l m q p t ready same keep st = rw (same ready_queue) st
Stands-frame l m q p t blocked same keep (h, ne, st) = (h, ne, rw (same h) st)
Stands-frame l m q p t running same keep st = keep st
Stands-frame l m q p t exited same keep st = λ h. rw (same h) (st h)

pub Inv-ext :
    {l : Links} {st : ℕ → Status} {q : Queues} {x : ℕ} (st' : ℕ → Status)
    → ((t : ℕ) → st' t ≡ st t)
    → Inv l st q x
    → Inv l st' q x
Inv-ext {l} {st} {q} {x} st' same i = record {
  view = i.view;
  tasks = i.tasks;
  stands = λ t h ne. rw (same t) (i.stands t h ne);
  apart = i.apart;
}

module _ (l : Links) (st : ℕ → Status) (q : Queues) (x : ℕ) (i : Inv l st q x) where
  -- The status of a task that is on a list belongs there.
  pub status_of_listed : (h t : ℕ) → has t (q h) ≡ true → Belongs (st t) h
  status_of_listed h t p = go (st t) (i.stands t (i.tasks h t p) (λ e. ground (arith, i.apart h)))
    where
      go : (s : Status) → Stands l q t s → Belongs s h
      go ready r = i.view.only h ready_queue t p r
      go blocked (g, ne, r) = λ e. ne (ground (arith, i.view.only h g t p r))
      go running r = ground (arith, r.absent h)
      go exited r = ground (arith, r h)

  pub Placed-of_live : (t : ℕ) → t < num_tasks → t ≢ x → st t ≢ exited → Placed l q t
  Placed-of_live t h ne live = Stands-Placed l q t (st t) live (i.stands t h ne)

pub blocked_of_Belongs : (s : Status) (h : ℕ) → h ≢ ready_queue → Belongs s h → s ≡ blocked
blocked_of_Belongs ready h ne b = absurd (ne b)
blocked_of_Belongs blocked h ne b = refl
blocked_of_Belongs running h ne b = absurd b
blocked_of_Belongs exited h ne b = absurd b

pub ready_of_Belongs : (s : Status) (h : ℕ) → h ≡ ready_queue → Belongs s h → s ≡ ready
ready_of_Belongs ready h e b = refl
ready_of_Belongs blocked h e b = absurd (b e)
ready_of_Belongs running h e b = absurd b
ready_of_Belongs exited h e b = absurd b

-- The invariant reads the links and the tasks of the kernel only.
pub Inv-same :
    (k k' : Kernel) (q : Queues) (x : ℕ)
    → k'.links ≡ k.links
    → k'.pcb ≡ k.pcb
    → Inv k.links (status_of k) q x
    → Inv k'.links (status_of k') q x
Inv-same k k' q x el ep i =
    subst (λ l. Inv l (status_of k') q x) (sym el)
      (Inv-ext (status_of k') (λ t. ap (λ (f : ℕ → Pcb). (f t).status) ep) i)

pub running_iff : (s : Status) → is_running s ≡ true → s ≡ running
running_iff running h = refl
running_iff blocked h = cc
running_iff ready h = cc
running_iff exited h = cc

-- A running task is on no list and linked to itself.
pub running-Detached :
    (l : Links) (st : ℕ → Status) (q : Queues) (x : ℕ)
    → Inv l st q x
    → (t : ℕ) → t < num_tasks
    → t ≢ x
    → st t ≡ running
    → Detached l q t
running-Detached l st q x i t ht ne r = subst (Stands l q t) r (i.stands t ht ne)
