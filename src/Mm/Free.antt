-- ===== src/Mm/Free.antt =====
-- The searches of kernel/mm/mm.c for a free page, and freeProcessMem.
use Prim.Native.Nat.{bit_and}
use ucas_2024fall_oslab.Base.{
  ℕ, zero, suc, ◌+◌, ◌≤◌, ◌<◌, ◌≡◌, ◌≢◌, inl, inr, ◌&&◌, Option, none, some, arith, ◌==◌, ltb, leb,
  update, Bool-cases, eq_of_==, ne_of_==, if◌then◌else◌, ap, ◌∙◌,
}
use ucas_2024fall_oslab.State.{SwapInfo}
use ucas_2024fall_oslab.Mm.{find_free, free_map, is_same_proc}

-- What a search for a free page from `i` on, over `n` pages, gives.
pub data Search (n i : ℕ) (map : ℕ → ℕ) : Option ℕ → Type 0 where
  found :
      (j : ℕ)
      → i ≤ j
      → j < i + n
      → map j ≡ 0
      → ((m : ℕ) → i ≤ m → m < j → map m ≢ 0)
      → Search n i map (some j)
  full : ((m : ℕ) → i ≤ m → m < i + n → map m ≢ 0) → Search n i map none

-- The search finds the first free page, and gives up only where none is free.
pub find_free-Search : (n i : ℕ) (map : ℕ → ℕ) → Search n i map (find_free n i map)
unfolding find_free
find_free-Search zero i map = full (λ m a b. absurd (omega arith))
find_free-Search (suc n) i map = elim (Bool-cases (map i == 0)) [
  | inl e ↦
      rw e (found i (omega arith) (omega arith) (eq_of_== _ _ e) (λ m a b. absurd (omega arith)))
  | inr e ↦ rw e (later (find_free n (i + 1) map) (ne_of_== _ _ e) (find_free-Search n (i + 1) map))
]
  where
    at_first : (m : ℕ) → map i ≢ 0 → (i + 1 ≤ m → map m ≢ 0) → i ≤ m → map m ≢ 0
    at_first m ne rest h = elim (Bool-cases (i == m)) [
      | inl e ↦ λ z. ne (ap map (eq_of_== i m e) ∙ z)
      | inr e ↦ rest (omega (arith, ne_of_== i m e))
    ]

    later : (r : Option ℕ) → map i ≢ 0 → Search n (i + 1) map r → Search (suc n) i map r
    later _ ne (found j a b z first) =
        found j (omega arith) (omega arith) z (λ m p q. at_first m ne (λ r. first m r q) p)
    later _ ne (full all) = full (λ m p q. at_first m ne (λ r. all m r (omega arith)) p)

-- free_map frees the entries of its range that pass the test, and no other.
pub free_map-entry :
    (n i asid : ℕ) (map : ℕ → ℕ) (j : ℕ)
    → free_map n i asid map j
      ≡ (if (leb i j && ltb j (i + n)) && is_same_proc (map j) asid then 0 else map j)
unfolding free_map is_same_proc
free_map-entry zero i asid map j = ground arith
free_map-entry (suc n) i asid map j = elim (Bool-cases (bit_and (map i) asid == asid)) [
  | inl e ↦ rw e (
      free_map-entry n (i + 1) asid (update map i 0) j ∙ elim (Bool-cases (j == i)) [
        | inl p ↦ ground (arith, ap map (eq_of_== j i p))
        | inr p ↦ ground arith
      ])
  | inr e ↦ rw e (
      free_map-entry n (i + 1) asid map j ∙ elim (Bool-cases (j == i)) [
        | inl p ↦ ground (arith, ap map (eq_of_== j i p))
        | inr p ↦ ground arith
      ])
]

abbrev pub no_swap : SwapInfo
no_swap = record { va = 0; asid = 0; sec_num = 0 }
