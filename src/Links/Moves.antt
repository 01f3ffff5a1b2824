-- ===== src/Links/Moves.antt =====
-- The operations of list.h act on the lists of the kernel as on a family of sequences.
use ucas_2024fall_oslab.Base.{
  ℕ, ◌≤◌, ◌<◌, ◌≡◌, ◌≢◌, ◌⊎◌, true, false, [], ◌∷◌, ◌++◌, arith, ◌==◌, has, erase, inl, inr,
  Bool-cases, eq_of_==, ne_of_==, erase-absent, has-erase_le, has-erase_self, erase-Distinct,
  append-Distinct, has-append, has-erase_ne, subst, sym,
}
use ucas_2024fall_oslab.Links.{Links, list_add_head, list_add_tail, list_remove, node_refresh}
use ucas_2024fall_oslab.Links.Chain.{
  Ring, Chain-frame, has-prev_end, has-prev, has-next, list_add_tail-Ring, list_add_head-Ring,
  list_remove-Ring,
}
use ucas_2024fall_oslab.Links.Queues.{
  Queues, first_head, Absent, View, Detached, Placed, detach, push_back, push_front,
}

module _ (l : Links) (q : Queues) (v : View l q) where
  pub head-absent : (h : ℕ) → first_head ≤ h → has h (q h) ≡ false
  head-absent h i = elim (Bool-cases (has h (q h))) [
    | inl e ↦ absurd (omega (arith, v.small h h e))
    | inr e ↦ e
  ]

  -- Two lists have no address in common, their heads included.
  apart :
      (g h x y : ℕ)
      → g ≢ h
      → first_head ≤ g
      → first_head ≤ h
      → has x (g ∷ q g) ≡ true
      → has y (h ∷ q h) ≡ true
      → x ≢ y
  apart g h x y ne hg hh px py e = ground (arith, v.small g x, v.small h y, v.only g h x)

  detach-Absent : (n : ℕ) → Absent (detach n q) n
  detach-Absent n h = has-erase_self n (q h) (v.distinct h)

  -- The links of a ring that does not hold `n` are not touched when `n` goes.
  list_remove-Ring_other :
      (n h g : ℕ) → has n (q h) ≡ true → first_head ≤ g → g ≢ h → Ring (list_remove n l) g (q g)
  unfolding list_remove
  list_remove-Ring_other n h g held hg ne =
      let hh : first_head ≤ h = v.heads h n held in
      let p = has-prev l h (q h) h n (v.ring h hh) held in
      let s = has-next l h (q h) h n (v.ring h hh) (ground arith) in
      Chain-frame l _ g (q g) g (λ x k. ground (arith, apart g h x (l.prev n) ne hg hh k p))
        (λ x k.
          ground (arith, apart g h x (l.next n) ne hg hh k s, apart g h x (l.prev n) ne hg hh k p))
        (v.ring g hg)

  -- LIST_REMOVE of a node that is on a list takes it off that list; the others stay.
  list_remove-View_held : (n h : ℕ) → has n (q h) ≡ true → View (list_remove n l) (detach n q)
  list_remove-View_held n h held = record {
    ring = λ g hg. elim (Bool-cases (g == h)) [
      | inl e ↦
          subst (λ k. Ring (list_remove n l) k (erase n (q k))) (sym (eq_of_== g h e))
            (list_remove-Ring l h (q h) n (v.distinct h) (head-absent h (v.heads h n held)) held
              (v.ring h (v.heads h n held)))
      | inr e ↦
          rw (erase-absent n (q g) (elsewhere g (ne_of_== g h e)))
            (list_remove-Ring_other n h g held hg (ne_of_== g h e))
    ];
    distinct = λ g. erase-Distinct n (q g) (v.distinct g);
    small = λ g m k. v.small g m (has-erase_le m n (q g) k);
    heads = λ g m k. v.heads g m (has-erase_le m n (q g) k);
    only = λ g g' m k k'. v.only g g' m (has-erase_le m n (q g) k) (has-erase_le m n (q g') k');
  }
    where
      elsewhere : (g : ℕ) → g ≢ h → has n (q g) ≡ false
      elsewhere g ne = elim (Bool-cases (has n (q g))) [
        | inl e ↦ absurd (ne (v.only g h n e held))
        | inr e ↦ e
      ]

  list_remove-View-Detached : (n : ℕ) → Detached l q n → View (list_remove n l) (detach n q)
  unfolding list_remove
  list_remove-View-Detached n d = record {
    ring = λ g hg. rw (erase-absent n (q g) (d.absent g)) (
        Chain-frame l _ g (q g) g (λ x k. ground (arith, d.next_self, d.prev_self))
          (λ x k. ground (arith, d.next_self, d.prev_self)) (v.ring g hg));
    distinct = λ g. erase-Distinct n (q g) (v.distinct g);
    small = λ g m k. v.small g m (has-erase_le m n (q g) k);
    heads = λ g m k. v.heads g m (has-erase_le m n (q g) k);
    only = λ g g' m k k'. v.only g g' m (has-erase_le m n (q g) k) (has-erase_le m n (q g') k');
  }

  -- LIST_REMOVE of a node that is on one of the lists, or on none and linked to itself, takes it off
  -- and leaves every list well formed, if all are well formed before.
  pub list_remove-View : (n : ℕ) → Placed l q n → View (list_remove n l) (detach n q)
  list_remove-View n (inl (h, held)) = list_remove-View_held n h held
  list_remove-View n (inr d) = list_remove-View-Detached n d

  -- A write to the links of a node that is on no list.
  pub node_refresh-View : (n : ℕ) → n < first_head → Absent q n → View (node_refresh n l) q
  unfolding node_refresh
  node_refresh-View n small absent = record {
    ring = λ g hg.
        Chain-frame l _ g (q g) g (λ x k. ground (arith, absent g))
          (λ x k. ground (arith, absent g)) (v.ring g hg);
    distinct = v.distinct;
    small = v.small;
    heads = v.heads;
    only = v.only;
  }

  pub node_refresh-Detached : (n : ℕ) → Absent q n → Detached (node_refresh n l) q n
  unfolding node_refresh
  node_refresh-Detached n absent = record {
    absent = absent;
    next_self = ground arith;
    prev_self = ground arith;
  }

  pub node_refresh-Detached_other :
      (n m : ℕ) → m ≢ n → Detached l q m → Detached (node_refresh n l) q m
  unfolding node_refresh
  node_refresh-Detached_other n m ne d = record {
    absent = d.absent;
    next_self = ground (arith, d.next_self);
    prev_self = ground (arith, d.prev_self);
  }

module _ (l : Links) (q : Queues) (v : View l q) (h n : ℕ) (hh : first_head ≤ h)
    (node : n < first_head) (absent : Absent q n) where
  end_on_list : has (l.prev h) (h ∷ q h) ≡ true
  end_on_list = has-prev_end l h (q h) h (v.ring h hh)

  start_on_list : has (l.next h) (h ∷ q h) ≡ true
  start_on_list = has-next l h (q h) h h (v.ring h hh) (ground arith)

  list_add_tail-Ring_other : (g : ℕ) → first_head ≤ g → g ≢ h → Ring (list_add_tail h n l) g (q g)
  unfolding list_add_tail
  list_add_tail-Ring_other g hg ne =
      Chain-frame l _ g (q g) g
        (λ x k. ground (arith, absent g, apart l q v g h x (l.prev h) ne hg hh k end_on_list))
        (λ x k. ground (arith, absent g, apart l q v g h x h ne hg hh k (ground arith)))
        (v.ring g hg)

  list_add_head-Ring_other : (g : ℕ) → first_head ≤ g → g ≢ h → Ring (list_add_head h n l) g (q g)
  unfolding list_add_head
  list_add_head-Ring_other g hg ne =
      Chain-frame l _ g (q g) g
        (λ x k. ground (arith, absent g, apart l q v g h x h ne hg hh k (ground arith)))
        (λ x k. ground (arith, absent g, apart l q v g h x (l.next h) ne hg hh k start_on_list))
        (v.ring g hg)

  fresh_for_head : has n (h ∷ q h) ≡ false
  fresh_for_head = ground (arith, absent h)

  has-push_back :
      (g m : ℕ) → has m (push_back h n q g) ≡ true → (has m (q g) ≡ true) ⊎ ((m ≡ n) × (g ≡ h))
  has-push_back g m k = ground (arith, has-append m (q g) (n ∷ []))

  has-push_front :
      (g m : ℕ) → has m (push_front h n q g) ≡ true → (has m (q g) ≡ true) ⊎ ((m ≡ n) × (g ≡ h))
  has-push_front g m k = ground arith

  -- LIST_ADD_TAIL of a node that is on no list puts it last on the list of that head, and leaves every
  -- list well formed, if all are well formed before.
  pub list_add_tail-View : View (list_add_tail h n l) (push_back h n q)
  list_add_tail-View = record {
    ring = λ g hg. elim (Bool-cases (g == h)) [
      | inl e ↦ rw e (
          subst (λ k. Ring (list_add_tail h n l) k (q k ++ n ∷ [])) (sym (eq_of_== g h e))
            (list_add_tail-Ring l h (q h) n (v.distinct h) (head-absent l q v h hh) fresh_for_head
              (v.ring h hh)))
      | inr e ↦ rw e (list_add_tail-Ring_other g hg (ne_of_== g h e))
    ];
    distinct = λ g. ground (arith, v.distinct g, append-Distinct (q g) n (v.distinct g) (absent g));
    small = λ g m k. ground (arith, has-push_back g m k, v.small g m);
    heads = λ g m k. ground (arith, has-push_back g m k, v.heads g m);
    only = λ g g' m k k'.
        ground
          (arith, has-push_back g m k, has-push_back g' m k', v.only g g' m, absent g, absent g');
  }

  -- LIST_ADD_HEAD of a node that is on no list puts it first on the list of that head, and leaves every
  -- list well formed, if all are well formed before.
  pub list_add_head-View : View (list_add_head h n l) (push_front h n q)
  list_add_head-View = record {
    ring = λ g hg. elim (Bool-cases (g == h)) [
      | inl e ↦ rw e (
          subst (λ k. Ring (list_add_head h n l) k (n ∷ q k)) (sym (eq_of_== g h e))
            (list_add_head-Ring l h (q h) n (v.distinct h) (head-absent l q v h hh) fresh_for_head
              (v.ring h hh)))
      | inr e ↦ rw e (list_add_head-Ring_other g hg (ne_of_== g h e))
    ];
    distinct = λ g. ground (arith, v.distinct g, absent g);
    small = λ g m k. ground (arith, has-push_front g m k, v.small g m);
    heads = λ g m k. ground (arith, has-push_front g m k, v.heads g m);
    only = λ g g' m k k'.
        ground
          (arith, has-push_front g m k, has-push_front g' m k', v.only g g' m, absent g, absent g');
  }

  -- Other nodes on no list stay so.
  pub list_add_tail-Detached :
      (m : ℕ)
      → m < first_head
      → m ≢ n
      → Detached l q m
      → Detached (list_add_tail h n l) (push_back h n q) m
  unfolding list_add_tail
  list_add_tail-Detached m sm ne d = record {
    absent = λ g. ground (arith, has-append m (q g) (n ∷ []), d.absent g);
    next_self = ground (arith, d.next_self, d.absent h, end_on_list);
    prev_self = ground (arith, d.prev_self, d.absent h);
  }

  pub list_add_head-Detached :
      (m : ℕ)
      → m < first_head
      → m ≢ n
      → Detached l q m
      → Detached (list_add_head h n l) (push_front h n q) m
  unfolding list_add_head
  list_add_head-Detached m sm ne d = record {
    absent = λ g. ground (arith, d.absent g);
    next_self = ground (arith, d.next_self, d.absent h);
    prev_self = ground (arith, d.prev_self, d.absent h, start_on_list);
  }

module _ (l : Links) (q : Queues) (v : View l q) where
  pub list_remove-Detached :
      (n m : ℕ)
      → Placed l q n
      → m < first_head
      → m ≢ n
      → Detached l q m
      → Detached (list_remove n l) (detach n q) m
  unfolding list_remove
  list_remove-Detached n m (inl (h, held)) sm ne d =
      let hh : first_head ≤ h = v.heads h n held in
      let p = has-prev l h (q h) h n (v.ring h hh) held in
      let s = has-next l h (q h) h n (v.ring h hh) (ground arith) in
      record {
        absent = λ g. rw (has-erase_ne m n (q g) ne) (d.absent g);
        next_self = ground (arith, d.next_self, d.absent h, p);
        prev_self = ground (arith, d.prev_self, d.absent h, p, s);
      }
  list_remove-Detached n m (inr dn) sm ne d = record {
    absent = λ g. rw (has-erase_ne m n (q g) ne) (d.absent g);
    next_self = ground (arith, d.next_self, dn.next_self, dn.prev_self);
    prev_self = ground (arith, d.prev_self, dn.next_self, dn.prev_self);
  }
