-- ===== src/Links/Chain.antt =====
-- The shape of a list of include/os/list.h: the nodes in order between two ends, linked both ways.
-- A list head with its nodes is a chain from the head back to itself.
use ucas_2024fall_oslab.Base.{
  ℕ, ◌≡◌, true, false, List, [], ◌∷◌, ◌++◌, arith, ◌==◌, has, erase, Distinct, inl, inr, Bool-cases,
}
use ucas_2024fall_oslab.Links.{Links, list_is_empty, list_add_head, list_add_tail, list_remove}

abbrev pub Chain : Links → ℕ → List ℕ → ℕ → Type 0
Chain l a [] b = (l.next a ≡ b) × (l.prev b ≡ a)
Chain l a (x ∷ xs) b = (l.next a ≡ x) × (l.prev x ≡ a) × Chain l x xs b

abbrev pub Ring : Links → ℕ → List ℕ → Type 0
Ring l head xs = Chain l head xs head

-- A chain survives any change of the links that spares its own.
pub Chain-frame :
    (l m : Links) (a : ℕ) (xs : List ℕ) (b : ℕ)
    → ((x : ℕ) → has x (a ∷ xs) ≡ true → m.next x ≡ l.next x)
    → ((x : ℕ) → has x (b ∷ xs) ≡ true → m.prev x ≡ l.prev x)
    → Chain l a xs b
    → Chain m a xs b
Chain-frame l m a [] b sn sp c = ground (arith, sn a, sp b)
Chain-frame l m a (x ∷ xs) b sn sp c =
    let rest : Chain m x xs b =
      Chain-frame l m x xs b (λ y h. sn y (ground arith)) (λ y h. sp y (ground arith)) c.2 in
    ground (arith, sn a, sp x, rest)

-- The predecessor of the end of a chain is the last node, or the start.
pub has-prev_end :
    (l : Links) (a : ℕ) (xs : List ℕ) (b : ℕ) → Chain l a xs b → has (l.prev b) (a ∷ xs) ≡ true
has-prev_end l a [] b c = ground arith
has-prev_end l a (x ∷ xs) b c = ground (arith, has-prev_end l x xs b c.2)

-- The neighbours of a node of a chain are on the chain.
pub has-prev :
    (l : Links) (a : ℕ) (xs : List ℕ) (b n : ℕ)
    → Chain l a xs b
    → has n xs ≡ true
    → has (l.prev n) (a ∷ xs) ≡ true
has-prev l a [] b n c h = ground arith
has-prev l a (x ∷ xs) b n c h = ground (arith, has-prev l x xs b n c.2)

pub has-next :
    (l : Links) (a : ℕ) (xs : List ℕ) (b n : ℕ)
    → Chain l a xs b
    → has n (a ∷ xs) ≡ true
    → has (l.next n) (b ∷ xs) ≡ true
has-next l a [] b n c h = ground arith
has-next l a (x ∷ xs) b n c h = ground (arith, has-next l x xs b n c.2)

-- LIST_IS_EMPTY tells the empty ring.
pub Ring-empty :
    (l : Links) (head : ℕ) (xs : List ℕ)
    → has head xs ≡ false
    → Ring l head xs
    → list_is_empty head l ≡ elim xs [ [] ↦ true | _ ∷ _ ↦ false ]
unfolding list_is_empty
Ring-empty l head [] out c = ground arith
Ring-empty l head (x ∷ xs) out c = ground arith

list_add_tail-Chain :
    (l : Links) (a : ℕ) (xs : List ℕ) (b n : ℕ)
    → Distinct xs
    → has a xs ≡ false
    → has b xs ≡ false
    → has n (a ∷ b ∷ xs) ≡ false
    → Chain l a xs b
    → Chain (list_add_tail b n l) a (xs ++ n ∷ []) b
unfolding list_add_tail
list_add_tail-Chain l a [] b n d oa ob on c = ground arith
list_add_tail-Chain l a (x ∷ xs) b n d oa ob on c =
    let rest : Chain (list_add_tail b n l) x (xs ++ n ∷ []) b =
      list_add_tail-Chain l x xs b n d.1 d.0 (ground arith) (ground arith) c.2 in
    ground (arith, rest, has-prev_end l x xs b c.2)

-- LIST_ADD_TAIL puts a new node behind the others.
pub list_add_tail-Ring :
    (l : Links) (head : ℕ) (xs : List ℕ) (n : ℕ)
    → Distinct xs
    → has head xs ≡ false
    → has n (head ∷ xs) ≡ false
    → Ring l head xs
    → Ring (list_add_tail head n l) head (xs ++ n ∷ [])
list_add_tail-Ring l head xs n d oh on c =
    list_add_tail-Chain l head xs head n d oh oh (ground arith) c

-- LIST_ADD_HEAD puts a new node before the others.
pub list_add_head-Ring :
    (l : Links) (head : ℕ) (xs : List ℕ) (n : ℕ)
    → Distinct xs
    → has head xs ≡ false
    → has n (head ∷ xs) ≡ false
    → Ring l head xs
    → Ring (list_add_head head n l) head (n ∷ xs)
unfolding list_add_head
list_add_head-Ring l head [] n d oh on c = ground arith
list_add_head-Ring l head (x ∷ xs) n d oh on c =
    let rest : Chain (list_add_head head n l) x xs head =
      Chain-frame l _ x xs head (λ y h. ground arith) (λ y h. ground arith) c.2 in
    ground (arith, rest)

list_remove-Chain :
    (l : Links) (a : ℕ) (xs : List ℕ) (b n : ℕ)
    → Distinct xs
    → has a xs ≡ false
    → has b xs ≡ false
    → has n xs ≡ true
    → Chain l a xs b
    → Chain (list_remove n l) a (erase n xs) b
unfolding list_remove
list_remove-Chain l a [] b n d oa ob h c = ground arith
list_remove-Chain l a (x ∷ []) b n d oa ob h c = ground arith
list_remove-Chain l a (x ∷ y ∷ ys) b n d oa ob h c = elim (Bool-cases (n == x)) [
  | inl e ↦
      let rest : Chain (list_remove n l) y ys b =
        Chain-frame l _ y ys b (λ z k. ground arith) (λ z k. ground arith) c.2.2 in
      ground (arith, rest)
  | inr e ↦
      let rest : Chain (list_remove n l) x (erase n (y ∷ ys)) b =
        list_remove-Chain l x (y ∷ ys) b n d.1 d.0 (ground arith) (ground arith) c.2 in
      ground (arith, rest, has-prev l x (y ∷ ys) b n c.2, has-next l y ys b n c.2.2)
]

-- LIST_REMOVE takes a node out and leaves the others in order.
pub list_remove-Ring :
    (l : Links) (head : ℕ) (xs : List ℕ) (n : ℕ)
    → Distinct xs
    → has head xs ≡ false
    → has n xs ≡ true
    → Ring l head xs
    → Ring (list_remove n l) head (erase n xs)
list_remove-Ring l head xs n d oh h c = list_remove-Chain l head xs head n d oh oh h c
