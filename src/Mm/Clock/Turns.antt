-- ===== src/Mm/Clock/Turns.antt =====
-- The rounds of choose_swap of kernel/mm/mm.c: where the clock stops.
use Prim.Native.Nat.{bit_and}
use ucas_2024fall_oslab.Base.{
  ℕ, zero, suc, ◌+◌, ◌-◌, ◌<◌, ◌%◌, ◌≡◌, refl, ◌≢◌, ◌⊎◌, inl, inr, false, some, arith, ◌==◌, update,
  Bool-cases, eq_of_==, ne_of_==, sym, ap, ◌∙◌, ◌≤◌,
}
use ucas_2024fall_oslab.Mm.{
  choose_swap_from, mem_page_num, kernel_page, map_page_accessed, page_address,
}
use ucas_2024fall_oslab.Mm.Flags.{unaccessed, unaccessed-flags}

abbrev pub Bytes : (ℕ → ℕ) → Type 0
Bytes map = (i : ℕ) → map i < 256

abbrev pub IsUser : (ℕ → ℕ) → ℕ → Type 0
IsUser map i = bit_and (map i) kernel_page ≡ 0

abbrev pub NotAccessed : (ℕ → ℕ) → ℕ → Type 0
NotAccessed map i = bit_and (map i) map_page_accessed ≡ 0

-- What the clock finds from the maps it started with: a page that is not one of the kernel's, not accessed since the
-- clock passed it. The clock has only cleared flags on its way.
pub record Picked (map : ℕ → ℕ) (kva : ℕ) (map' : ℕ → ℕ) (c' : ℕ) : Type 0 where
  pub page : ℕ
  pub in_range : page < mem_page_num
  pub address : kva ≡ page_address page
  pub user : IsUser map page
  pub idle : NotAccessed map' page
  pub clock : c' ≡ (page + 1) % mem_page_num
  pub cleared : (i : ℕ) → (map' i ≡ map i) ⊎ (IsUser map i × (map' i ≡ unaccessed (map i)))

abbrev pub Picks : ℕ → (ℕ → ℕ) → ℕ → Type 0
Picks fuel map c =
    (kva : ℕ) × (map' : ℕ → ℕ) × (c' : ℕ) × (choose_swap_from fuel map c ≡ some (kva, map', c'))
    × Picked map kva map' c'

-- the rounds from page `c` to page `p`
abbrev pub distance : ℕ → ℕ → ℕ
distance c p = (p + mem_page_num - c) % mem_page_num

distance_next :
    (c p : ℕ)
    → c < mem_page_num
    → p < mem_page_num
    → c ≢ p
    → distance ((c + 1) % mem_page_num) p + 1 ≡ distance c p
distance_next c p hc hp ne = omega arith

distance_self : (c : ℕ) → c < mem_page_num → distance ((c + 1) % mem_page_num) c ≡ mem_page_num - 1
distance_self c hc = omega arith

abbrev clear_at : ℕ → (ℕ → ℕ) → ℕ → ℕ
clear_at c map = update map c (bit_and (map c) (255 - map_page_accessed))

clear_at-Bytes : (c : ℕ) (map : ℕ → ℕ) → Bytes map → Bytes (clear_at c map)
clear_at-Bytes c map b i = ground (arith, b i, unaccessed-flags (map c) (b c))

clear_at_user :
    (c : ℕ) (map : ℕ → ℕ) (i : ℕ)
    → Bytes map
    → bit_and (clear_at c map i) kernel_page ≡ bit_and (map i) kernel_page
clear_at_user c map i b = ground (arith, unaccessed-flags (map c) (b c))

-- A choice from the map with the flag of `c` cleared is one from the map.
Picked-clear :
    (map : ℕ → ℕ) (c kva : ℕ) (map' : ℕ → ℕ) (c' : ℕ)
    → Bytes map
    → IsUser map c
    → Picked (clear_at c map) kva map' c'
    → Picked map kva map' c'
Picked-clear map c kva map' c' b u p = record {
  page = p.page;
  in_range = p.in_range;
  address = p.address;
  user = sym (clear_at_user c map p.page b) ∙ p.user;
  idle = p.idle;
  clock = p.clock;
  cleared = λ i. elim (Bool-cases (i == c)) [
    | inl e ↦ inr (rw (eq_of_== i c e) u, at_c i (eq_of_== i c e) (p.cleared i))
    | inr e ↦ rw e at (p.cleared i)
  ];
}
  where
    at_c :
        (i : ℕ)
        → i ≡ c
        → (map' i ≡ clear_at c map i)
          ⊎ (IsUser (clear_at c map) i × (map' i ≡ unaccessed (clear_at c map i)))
        → map' i ≡ unaccessed (map i)
    at_c i e (inl q) = ground (arith, ap map e)
    at_c i e (inr (_, q)) = ground (arith, ap map e, unaccessed-flags (map c) (b c))

distance_here : (c : ℕ) → c < mem_page_num → distance c c ≡ 0
distance_here c hc = omega arith

-- The clock stops at a page that was not accessed before it started, at page `p` at the latest.
abbrev pub PicksIdle : ℕ → (ℕ → ℕ) → ℕ → ℕ → Type 0
PicksIdle fuel map c p =
    (kva : ℕ) × (map' : ℕ → ℕ) × (c' : ℕ) × (choose_swap_from fuel map c ≡ some (kva, map', c'))
    × (d : Picked map kva map' c') × NotAccessed map d.page
    × (distance c d.page ≤ distance c p)

stop_idle :
    (fuel : ℕ) (map : ℕ → ℕ) (c p : ℕ)
    → c < mem_page_num
    → IsUser map c
    → NotAccessed map c
    → PicksIdle (suc fuel) map c p
unfolding choose_swap_from
stop_idle fuel map c p h u n = (
  page_address c,
  map,
  (c + 1) % mem_page_num,
  rw (u, n) refl,
  record {
    page = c;
    in_range = h;
    address = refl;
    user = u;
    idle = n;
    clock = refl;
    cleared = λ i. inl refl;
  },
  n,
  omega (arith, distance_here c h),
)

-- The page under the clock is chosen.
stop_here :
    (fuel : ℕ) (map : ℕ → ℕ) (c : ℕ)
    → c < mem_page_num
    → IsUser map c
    → NotAccessed map c
    → Picks (suc fuel) map c
stop_here fuel map c h u n =
    let (kva, map', c', run, d, _, _) = stop_idle fuel map c c h u n in (kva, map', c', run, d)

-- The page under the clock is one of the kernel's.
pass_on :
    (fuel : ℕ) (map : ℕ → ℕ) (c : ℕ)
    → (bit_and (map c) kernel_page == 0) ≡ false
    → Picks fuel map ((c + 1) % mem_page_num)
    → Picks (suc fuel) map c
unfolding choose_swap_from
pass_on fuel map c n (kva, map', c', run, p) = (kva, map', c', rw n run, p)

-- The page under the clock has been accessed.
clear_on :
    (fuel : ℕ) (map : ℕ → ℕ) (c : ℕ)
    → Bytes map
    → IsUser map c
    → (bit_and (map c) map_page_accessed == 0) ≡ false
    → Picks fuel (clear_at c map) ((c + 1) % mem_page_num)
    → Picks (suc fuel) map c
unfolding choose_swap_from
clear_on fuel map c b u n (kva, map', c', run, p) =
    (kva, map', c', rw (u, n) run, Picked-clear map c kva map' c' b u p)

distance_back :
    (c p : ℕ)
    → c < mem_page_num
    → p < mem_page_num
    → distance c p ≤ distance ((c + 1) % mem_page_num) p + 1
distance_back c p hc hp = omega arith

-- A page that is not the kernel's and is not accessed stops the clock at the latest.
pub reach_idle :
    (fuel : ℕ) (map : ℕ → ℕ) (c p : ℕ)
    → Bytes map
    → c < mem_page_num
    → p < mem_page_num
    → IsUser map p
    → NotAccessed map p
    → distance c p < fuel
    → PicksIdle fuel map c p
unfolding choose_swap_from Picked-clear
reach_idle zero map c p b hc hp u n f = absurd (omega arith)
reach_idle (suc fuel) map c p b hc hp u n f = elim (Bool-cases (c == p)) [
  | inl e ↦ stop_idle fuel map c p hc (rw (eq_of_== c p e) u) (rw (eq_of_== c p e) n)
  | inr e ↦ elim (Bool-cases (bit_and (map c) kernel_page == 0)) [
    | inr ku ↦
        let (kva, map', c', run, d, i, l) =
          reach_idle fuel map ((c + 1) % mem_page_num) p b (omega arith) hp u n (closer e) in
        (kva, map', c', rw ku run, d, i, further e d.page d.in_range l)
    | inl ku ↦ elim (Bool-cases (bit_and (map c) map_page_accessed == 0)) [
      | inl a ↦ stop_idle fuel map c p hc (eq_of_== _ _ ku) (eq_of_== _ _ a)
      | inr a ↦
          let (kva, map', c', run, d, i, l) =
            reach_idle fuel (clear_at c map) ((c + 1) % mem_page_num) p (clear_at-Bytes c map b)
              (omega arith) hp (clear_at_user c map p b ∙ u) (ground (arith, ne_of_== c p e))
              (closer e) in
          let v = eq_of_== _ _ ku in
          (
            kva,
            map',
            c',
            rw (v, a) run,
            Picked-clear map c kva map' c' b v d,
            untouched d.page (elsewhere e d.page l) i,
            further e d.page d.in_range l,
          )
    ]
  ]
]
  where
    closer : (c == p) ≡ false → distance ((c + 1) % mem_page_num) p < fuel
    closer e = omega (arith, distance_next c p hc hp (ne_of_== c p e))

    further :
        (c == p) ≡ false
        → (x : ℕ) → x < mem_page_num
        → distance ((c + 1) % mem_page_num) x ≤ distance ((c + 1) % mem_page_num) p
        → distance c x ≤ distance c p
    further e x hx l =
        omega (arith, distance_next c p hc hp (ne_of_== c p e), distance_back c x hc hx)

    elsewhere :
        (c == p) ≡ false
        → (x : ℕ) → distance ((c + 1) % mem_page_num) x ≤ distance ((c + 1) % mem_page_num) p
        → x ≢ c
    elsewhere e x l q =
        let same = ap (distance ((c + 1) % mem_page_num)) q in
        omega (arith, same, distance_self c hc, distance_next c p hc hp (ne_of_== c p e))

    untouched : (x : ℕ) → x ≢ c → NotAccessed (clear_at c map) x → NotAccessed map x
    untouched x ne h = ground arith

-- A page that is not the kernel's stops it after one more turn.
pub reach_user :
    (fuel : ℕ) (map : ℕ → ℕ) (c p : ℕ)
    → Bytes map
    → c < mem_page_num
    → p < mem_page_num
    → IsUser map p
    → distance c p + mem_page_num < fuel
    → Picks fuel map c
reach_user zero map c p b hc hp u f = absurd (omega arith)
reach_user (suc fuel) map c p b hc hp u f = elim (Bool-cases (bit_and (map c) kernel_page == 0)) [
  | inr ku ↦ pass_on fuel map c ku (
      reach_user fuel map ((c + 1) % mem_page_num) p b (omega arith) hp u
        (closer (λ e. ground (arith, ap map e))))
  | inl ku ↦ elim (Bool-cases (bit_and (map c) map_page_accessed == 0)) [
    | inl a ↦ stop_here fuel map c hc (eq_of_== _ _ ku) (eq_of_== _ _ a)
    | inr a ↦ clear_on fuel map c b (eq_of_== _ _ ku) a (elim (Bool-cases (c == p)) [
      | inl e ↦
          let (kva, map', c', run, d, _, _) =
            reach_idle fuel (clear_at c map) ((c + 1) % mem_page_num) c (clear_at-Bytes c map b)
              (omega arith) hc (clear_at_user c map c b ∙ eq_of_== _ _ ku)
              (ground (arith, unaccessed-flags (map c) (b c)))
              (omega (arith, distance_self c hc)) in
          (kva, map', c', run, d)
      | inr e ↦
          reach_user fuel (clear_at c map) ((c + 1) % mem_page_num) p (clear_at-Bytes c map b)
            (omega arith) hp (clear_at_user c map p b ∙ u) (closer (ne_of_== c p e))
    ])
  ]
]
  where
    closer : c ≢ p → distance ((c + 1) % mem_page_num) p + mem_page_num < fuel
    closer e = omega (arith, distance_next c p hc hp e)
