-- ===== src/Links.antt =====
-- include/os/list.h: circular doubly linked lists through embedded nodes, over a store that gives
-- the `next` and `prev` field of each node. A macro is the sequence of its assignments.
pub mod Chain
pub mod Moves
pub mod Queues
use ucas_2024fall_oslab.Base.{ℕ, Bool, ◌==◌, update}

pub record Links : Type 0 where
  pub next : ℕ → ℕ
  pub prev : ℕ → ℕ

-- `(p)->next = v`
abbrev pub set_next : ℕ → ℕ → Links → Links
set_next p v l = record l { next = update l.next p v }

-- `(p)->prev = v`
abbrev pub set_prev : ℕ → ℕ → Links → Links
set_prev p v l = record l { prev = update l.prev p v }

-- LIST_IS_EMPTY, and `list_is_empty`
unfoldable pub list_is_empty : ℕ → Links → Bool
list_is_empty head l = l.next head == head

-- LIST_ADD_HEAD
unfoldable pub list_add_head : ℕ → ℕ → Links → Links
list_add_head head node l =
    let a = set_next node (l.next head) l in
    let b = set_prev node head a in let c = set_prev (b.next head) node b in set_next head node c

-- LIST_ADD_TAIL
unfoldable pub list_add_tail : ℕ → ℕ → Links → Links
list_add_tail head node l =
    let a = set_next node head l in
    let b = set_prev node (a.prev head) a in
    let c = set_next (b.prev head) node b in set_prev head node c

-- LIST_REMOVE
unfoldable pub list_remove : ℕ → Links → Links
list_remove node l =
    let a = set_next (l.prev node) (l.next node) l in set_prev (a.next node) (a.prev node) a

-- NODE_REFRESH, and `node_refresh`
unfoldable pub node_refresh : ℕ → Links → Links
node_refresh node l = set_prev node node (set_next node node l)
