-- ===== src/Lock/Handles.antt =====
-- The handles that do_mutex_lock_init, do_barrier_init and do_condition_init give out for a key.
use mathlib.Core.Path.{subst₂}
use ucas_2024fall_oslab.Base.{
  ℕ, zero, suc, ◌+◌, ◌≤◌, ◌<◌, ◌≡◌, refl, ◌≢◌, ◌⊎◌, inl, inr, Bool, true, false, arith, ◌==◌,
  update, Bool-cases, Option, none, some, minus_one, eq_of_==, ne_of_==, ap,
}
use ucas_2024fall_oslab.State.{Kernel}
use ucas_2024fall_oslab.Lock.{find_key, find_or_create, lock_num, lock_key, do_mutex_lock_init}

-- What a search through the keys from `i` on has found.
abbrev Found : ℕ → ℕ → ℕ → (ℕ → ℕ) → Option ℕ → Type 0
Found n i key keys none = (j : ℕ) → i ≤ j → j < i + n → keys j ≢ key
Found n i key keys (some j) =
    (i ≤ j) × (j < i + n) × (keys j ≡ key) × ((m : ℕ) → i ≤ m → m < j → keys m ≢ key)

find_key-Found : (n i key : ℕ) (keys : ℕ → ℕ) → Found n i key keys (find_key n i key keys)
unfolding find_key
find_key-Found zero i key keys = λ j h h'. absurd (omega arith)
find_key-Found (suc n) i key keys = elim (Bool-cases (keys i == key)) [
  | inl e ↦ rw e (omega arith, omega arith, eq_of_== _ _ e, λ m h h'. absurd (omega arith))
  | inr e ↦
      rw e
        (later (find_key n (i + 1) key keys) (ne_of_== _ _ e) (find_key-Found n (i + 1) key keys))
]
  where
    later : (r : Option ℕ) → keys i ≢ key → Found n (i + 1) key keys r → Found (suc n) i key keys r
    later none ne f = λ j h h'. elim (Bool-cases (j == i)) [
      | inl e ↦ rw (eq_of_== j i e) ne
      | inr e ↦ f j (ground arith) (omega arith)
    ]
    later (some j) ne f = (
      omega (arith, f.0),
      omega (arith, f.1),
      f.2,
      λ m h h'. elim (Bool-cases (m == i)) [
        | inl e ↦ rw (eq_of_== m i e) ne
        | inr e ↦ f.3 m (ground arith) h'
      ],
    )

-- The element of the key, if there is one: the first.
find_key-some :
    (n i key : ℕ) (keys : ℕ → ℕ) (j : ℕ)
    → i ≤ j
    → j < i + n
    → keys j ≡ key
    → ((m : ℕ) → i ≤ m → m < j → keys m ≢ key)
    → find_key n i key keys ≡ some j
unfolding find_key
find_key-some zero i key keys j h h' e first = absurd (omega arith)
find_key-some (suc n) i key keys j h h' e first = elim (Bool-cases (keys i == key)) [
  | inl f ↦ rw f (ground (arith, first i))
  | inr f ↦ rw f (
      find_key-some n (i + 1) key keys j (ground arith) (omega arith) e
        (λ m a b. first m (omega arith) b))
]

-- The outcome of the two searches.
abbrev Outcome : ℕ → (ℕ → ℕ) → Option (ℕ × Bool) → Type 0
Outcome key keys none = (j : ℕ) → j < lock_num → (keys j ≢ key) × (keys j ≢ minus_one)
Outcome key keys (some (i, false)) =
    (i < lock_num) × (keys i ≡ key) × ((m : ℕ) → m < i → keys m ≢ key)
Outcome key keys (some (i, true)) =
    (i < lock_num) × (keys i ≡ minus_one) × ((m : ℕ) → m < lock_num → keys m ≢ key)

pub find_or_create-Outcome : (key : ℕ) (keys : ℕ → ℕ) → Outcome key keys (find_or_create key keys)
unfolding find_or_create
find_or_create-Outcome key keys =
    go (find_key lock_num 0 key keys) (find_key lock_num 0 minus_one keys)
      (find_key-Found lock_num 0 key keys) (find_key-Found lock_num 0 minus_one keys)
  where
    go :
        (r s : Option ℕ)
        → Found lock_num 0 key keys r
        → Found lock_num 0 minus_one keys s
        → Outcome key keys (elim r [
          | some i ↦ some (i, false)
          | none ↦ elim s [ some i ↦ some (i, true) | none ↦ none ]
        ])
    go (some i) s f g = (omega (arith, f.1), f.2, λ m h. f.3 m (omega arith) h)
    go none (some i) f g = (omega (arith, g.1), g.2, λ m h. f m (omega arith) (omega arith))
    go none none f g = λ j h. (f j (omega arith) (omega arith), g j (omega arith) (omega arith))

pub find_or_create-some :
    (key : ℕ) (keys : ℕ → ℕ) (i : ℕ)
    → i < lock_num
    → keys i ≡ key
    → ((m : ℕ) → m < i → keys m ≢ key)
    → find_or_create key keys ≡ some (i, false)
unfolding find_or_create
find_or_create-some key keys i h e first = rw (
  find_key-some lock_num 0 key keys i (omega arith) (omega arith) e (λ m _ l. first m l),
  find_or_create,
)

abbrev with_key : ℕ → Kernel → ℕ → Kernel
with_key key k i = record k { mlocks = update k.mlocks i (record (k.mlocks i) { key = key }) }

init_none :
    (key : ℕ) (k : Kernel)
    → find_or_create key (lock_key k) ≡ none
    → do_mutex_lock_init key k ≡ (none, k)
unfolding do_mutex_lock_init
init_none key k p = rw (p, do_mutex_lock_init)

init_found :
    (key : ℕ) (k : Kernel) (i : ℕ)
    → find_or_create key (lock_key k) ≡ some (i, false)
    → do_mutex_lock_init key k ≡ (some i, k)
unfolding do_mutex_lock_init
init_found key k i p = rw (p, do_mutex_lock_init)

init_fresh :
    (key : ℕ) (k : Kernel) (i : ℕ)
    → find_or_create key (lock_key k) ≡ some (i, true)
    → do_mutex_lock_init key k ≡ (some i, with_key key k i)
unfolding do_mutex_lock_init
init_fresh key k i p = rw (p, do_mutex_lock_init)

-- What a call of do_mutex_lock_init that succeeds has done: the handle is in range and has the key, at
-- most its key has changed, and a second call with the key gives the same handle and changes nothing.
pub record Given (key : ℕ) (k : Kernel) (i : ℕ) (k' : Kernel) : Type 0 where
  pub in_range : i < lock_num
  pub has_key : lock_key k' i ≡ key
  pub was : (lock_key k i ≡ key) ⊎ (lock_key k i ≡ minus_one)
  pub others : (j : ℕ) → j ≢ i → k'.mlocks j ≡ k.mlocks j
  pub same_lock : (k'.mlocks i).lock ≡ (k.mlocks i).lock
  pub same_owner : (k'.mlocks i).owner ≡ (k.mlocks i).owner
  pub same_rest : k' ≡ record k { mlocks = k'.mlocks }
  pub again : do_mutex_lock_init key k' ≡ (some i, k')

Given-found :
    (key : ℕ) (k : Kernel) (i : ℕ)
    → find_or_create key (lock_key k) ≡ some (i, false)
    → Outcome key (lock_key k) (some (i, false))
    → Given key k i k
Given-found key k i p o = record {
  in_range = o.0;
  has_key = o.1;
  was = inl o.1;
  others = λ j ne. refl;
  same_lock = refl;
  same_owner = refl;
  same_rest = refl;
  again = init_found key k i p;
}

Given-fresh :
    (key : ℕ) (k : Kernel) (i : ℕ)
    → find_or_create key (lock_key k) ≡ some (i, true)
    → Outcome key (lock_key k) (some (i, true))
    → Given key k i (with_key key k i)
Given-fresh key k i p o = record {
  in_range = o.0;
  has_key = ground arith;
  was = inr o.1;
  others = λ j ne. ground arith;
  same_lock = ground arith;
  same_owner = ground arith;
  same_rest = refl;
  again = init_found key (with_key key k i) i (
      find_or_create-some key (lock_key (with_key key k i)) i o.0 (ground arith)
        (λ m l. ground (arith, o.2 m (omega arith))));
}

-- A handle that do_mutex_lock_init returns is below LOCK_NUM and its lock has the key. The lock had the
-- key before, or was free; its status and owner, the other locks and the rest of the kernel stay as they are. A
-- second call with the key returns the same handle and changes nothing.
pub do_mutex_lock_init-Given :
    (key : ℕ) (k : Kernel) (i : ℕ) (k' : Kernel)
    → do_mutex_lock_init key k ≡ (some i, k')
    → Given key k i k'
do_mutex_lock_init-Given key k i k' e =
    go (find_or_create key (lock_key k)) refl (find_or_create-Outcome key (lock_key k))
  where
    go :
        (r : Option (ℕ × Bool))
        → find_or_create key (lock_key k) ≡ r
        → Outcome key (lock_key k) r
        → Given key k i k'
    go none p o = absurd (ground (arith, init_none key k p))
    go (some (j, false)) p o =
        let eqs : (j ≡ i) × (k ≡ k') = ground (arith, init_found key k j p) in
        subst₂ (λ a b. Given key k a b) eqs.0 eqs.1 (Given-found key k j p o)
    go (some (j, true)) p o =
        let eqs : (j ≡ i) × (with_key key k j ≡ k') = ground (arith, init_fresh key k j p) in
        subst₂ (λ a b. Given key k a b) eqs.0 eqs.1 (Given-fresh key k j p o)

-- Two keys, the first of them not -1, that are asked for in turn get different handles.
pub do_mutex_lock_init_distinct :
    (key1 key2 : ℕ) (k k1 k2 : Kernel) (i j : ℕ)
    → key1 ≢ key2
    → key1 ≢ minus_one
    → do_mutex_lock_init key1 k ≡ (some i, k1)
    → do_mutex_lock_init key2 k1 ≡ (some j, k2)
    → i ≢ j
do_mutex_lock_init_distinct key1 key2 k k1 k2 i j ne free e1 e2 same =
    let a = do_mutex_lock_init-Given key1 k i k1 e1 in
    let b = do_mutex_lock_init-Given key2 k1 j k2 e2 in
    ground (arith, a.has_key, b.was, ap (lock_key k1) same)

-- do_mutex_lock_init fails only if no lock has the key and none is free, and then changes nothing.
pub do_mutex_lock_init_full :
    (key : ℕ) (k k' : Kernel)
    → do_mutex_lock_init key k ≡ (none, k')
    → (k' ≡ k) × ((j : ℕ) → j < lock_num → (lock_key k j ≢ key) × (lock_key k j ≢ minus_one))
do_mutex_lock_init_full key k k' e =
    go (find_or_create key (lock_key k)) refl (find_or_create-Outcome key (lock_key k))
  where
    go :
        (r : Option (ℕ × Bool))
        → find_or_create key (lock_key k) ≡ r
        → Outcome key (lock_key k) r
        → (k' ≡ k) × ((j : ℕ) → j < lock_num → (lock_key k j ≢ key) × (lock_key k j ≢ minus_one))
    go none p o = (ground (arith, init_none key k p), o)
    go (some (j, false)) p o = absurd (ground (arith, init_found key k j p))
    go (some (j, true)) p o = absurd (ground (arith, init_fresh key k j p))
