-- ===== src/Lock/Setup.antt =====
-- Setting up and destroying locks, barriers and condition variables in kernel/locking/lock.c.
use ucas_2024fall_oslab.Base.{
  ℕ, zero, suc, ◌+◌, ◌≤◌, ◌<◌, ◌≡◌, refl, inl, inr, arith, ◌==◌, Bool-cases, eq_of_==, ne_of_==,
  ◌∙◌, update, minus_one, true, subst, ◌≢◌,
}
use ucas_2024fall_oslab.Links.{node_refresh, list_is_empty}
use ucas_2024fall_oslab.State.{
  unlocked, Kernel, lock_queue, barrier_queue, condition_queue, with_links,
}
use ucas_2024fall_oslab.Lock.{lock_num}

-- the body of the loop of init_locks
unfoldable pub init_lock : ℕ → Kernel → Kernel
init_lock i k =
    let k1 = with_links (node_refresh (lock_queue i)) k in
    record k1 {
      mlocks = update k1.mlocks i (record (k1.mlocks i) { lock = unlocked; key = minus_one });
    }

-- do_barrier_destroy, and the body of the loop of init_barriers
unfoldable pub do_barrier_destroy : ℕ → Kernel → Kernel
do_barrier_destroy i k =
    let k1 = with_links (node_refresh (barrier_queue i)) k in
    record k1 {
      barriers = update k1.barriers i (record { key = minus_one; goal = minus_one; count = 0 });
    }

-- do_condition_destroy, and the body of the loop of init_conditions
unfoldable pub do_condition_destroy : ℕ → Kernel → Kernel
do_condition_destroy i k =
    let k1 = with_links (node_refresh (condition_queue i)) k in
    record k1 { conditions = update k1.conditions i minus_one }

-- `for (; n rounds; i++) body(i);`
unfoldable pub each_from : ℕ → ℕ → (ℕ → Kernel → Kernel) → Kernel → Kernel
each_from zero i body k = k
each_from (suc n) i body k = each_from n (i + 1) body (body i k)

unfoldable pub init_locks : Kernel → Kernel
init_locks k = each_from lock_num 0 init_lock k

-- BARRIER_NUM and CONDITION_NUM are 16.
unfoldable pub init_barriers : Kernel → Kernel
init_barriers k = each_from 16 0 do_barrier_destroy k

unfoldable pub init_conditions : Kernel → Kernel
init_conditions k = each_from 16 0 do_condition_destroy k

-- Lock `j` is free, without a key, and no task waits for it.
abbrev pub SetUp : ℕ → Kernel → Type 0
SetUp j k =
    ((k.mlocks j).lock ≡ unlocked)
    × ((k.mlocks j).key ≡ minus_one)
    × (list_is_empty (lock_queue j) k.links ≡ true)

init_lock-SetUp : (i : ℕ) (k : Kernel) → SetUp i (init_lock i k)
unfolding init_lock node_refresh list_is_empty
init_lock-SetUp i k = (ground arith, ground arith, ground arith)

init_lock_other : (i j : ℕ) (k : Kernel) → SetUp j k → SetUp j (init_lock i k)
unfolding init_lock node_refresh list_is_empty
init_lock_other i j k (a, b, c) = (ground arith, ground arith, ground arith)

init_loop_other : (n i j : ℕ) (k : Kernel) → SetUp j k → SetUp j (each_from n i init_lock k)
unfolding each_from
init_loop_other zero i j k h = h
init_loop_other (suc n) i j k h =
    init_loop_other n (i + 1) j (init_lock i k) (init_lock_other i j k h)

init_loop-SetUp : (n i j : ℕ) (k : Kernel) → i ≤ j → j < i + n → SetUp j (each_from n i init_lock k)
unfolding each_from
init_loop-SetUp zero i j k a b = absurd (omega arith)
init_loop-SetUp (suc n) i j k a b = elim (Bool-cases (i == j)) [
  | inl e ↦
      init_loop_other n (i + 1) j (init_lock i k)
        (subst (λ z. SetUp z (init_lock i k)) (eq_of_== i j e) (init_lock-SetUp i k))
  | inr e ↦
      init_loop-SetUp n (i + 1) j (init_lock i k) (omega (arith, ne_of_== i j e)) (omega arith)
]

init_lock_links :
    (i p : ℕ) (k : Kernel)
    → p ≢ lock_queue i
    → ((init_lock i k).links.next p ≡ k.links.next p)
      × ((init_lock i k).links.prev p ≡ k.links.prev p)
unfolding init_lock node_refresh
init_lock_links i p k ne = (ground arith, ground arith)

init_loop_frame :
    (n i p : ℕ) (k : Kernel)
    → ((j : ℕ) → i ≤ j → j < i + n → p ≢ lock_queue j)
    → ((each_from n i init_lock k).links.next p ≡ k.links.next p)
      × ((each_from n i init_lock k).links.prev p ≡ k.links.prev p)
unfolding each_from
init_loop_frame zero i p k apart = (refl, refl)
init_loop_frame (suc n) i p k apart =
    let (a, b) =
      init_loop_frame n (i + 1) p (init_lock i k) (λ j x y. apart j (omega arith) (omega arith)) in
    let (c, d) = init_lock_links i p k (apart i (omega arith) (omega arith)) in (a ∙ c, b ∙ d)

-- After init_locks each of the 16 locks is free, has no key, and no task waits for it; the links of all
-- nodes other than the heads of the lock queues are as before.
pub init_locks-SetUp :
    (k : Kernel)
    → ((j : ℕ) → j < lock_num → SetUp j (init_locks k))
      × ((p : ℕ)
          → ((j : ℕ) → j < lock_num → p ≢ lock_queue j)
          → ((init_locks k).links.next p ≡ k.links.next p)
            × ((init_locks k).links.prev p ≡ k.links.prev p))
unfolding init_locks
init_locks-SetUp k = (
  (λ j h. init_loop-SetUp lock_num 0 j k (omega arith) (omega arith)),
  λ p apart. init_loop_frame lock_num 0 p k (λ j x y. apart j (omega arith)),
)
