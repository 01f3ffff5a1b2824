-- ===== src/Links/Queues.antt =====
-- All the lists of the kernel at once. `q` gives the nodes of each list head, in order; a node is on
-- one list at most.
use ucas_2024fall_oslab.Base.{
  ℕ, ◌≤◌, ◌<◌, ◌≡◌, ◌⊎◌, true, false, List, [], ◌∷◌, ◌++◌, ◌==◌, if◌then◌else◌, has, erase,
  Distinct,
}
use ucas_2024fall_oslab.Links.{Links}
use ucas_2024fall_oslab.Links.Chain.{Ring}

abbrev pub Queues : Type 0
Queues = ℕ → List ℕ

-- Addresses from here on are list heads, those below are the nodes of tasks.
abbrev pub first_head : ℕ
first_head = 100

abbrev pub Absent : Queues → ℕ → Type 0
Absent q n = (h : ℕ) → has n (q h) ≡ false

pub record View (l : Links) (q : Queues) : Type 0 where
  pub ring : (h : ℕ) → first_head ≤ h → Ring l h (q h)
  pub distinct : (h : ℕ) → Distinct (q h)
  pub small : (h n : ℕ) → has n (q h) ≡ true → n < first_head
  pub heads : (h n : ℕ) → has n (q h) ≡ true → first_head ≤ h
  pub only : (h g n : ℕ) → has n (q h) ≡ true → has n (q g) ≡ true → h ≡ g

-- A node on no list, linked to itself.
pub record Detached (l : Links) (q : Queues) (n : ℕ) : Type 0 where
  pub absent : Absent q n
  pub next_self : l.next n ≡ n
  pub prev_self : l.prev n ≡ n

abbrev pub Placed : Links → Queues → ℕ → Type 0
Placed l q n = ((h : ℕ) × (has n (q h) ≡ true)) ⊎ Detached l q n

abbrev pub detach : ℕ → Queues → Queues
detach n q h = erase n (q h)

abbrev pub push_back : ℕ → ℕ → Queues → Queues
push_back h n q g = if g == h then q g ++ n ∷ [] else q g

abbrev pub push_front : ℕ → ℕ → Queues → Queues
push_front h n q g = if g == h then n ∷ q g else q g
