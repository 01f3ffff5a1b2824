-- ===== src/Mailbox/Names.antt =====
-- do_mbox_open and do_mbox_close of kernel/locking/lock.c: a name stands for one mailbox as long as it is in use.
use ucas_2024fall_oslab.Base.{
  ℕ, zero, suc, ◌+◌, ◌≤◌, ◌<◌, ◌≡◌, ◌≢◌, inl, inr, Bool, true, false, List, Option, none, some,
  arith, Bool-cases, add_int, eq_of_==, ap, ◌∙◌, ◌==◌, sym, minus_one,
}
use ucas_2024fall_oslab.Mailbox.{Mbox, Mail, same_name, is_empty, find_box, mbox_num, do_mbox_open}

-- What the search through `n` boxes from `i` on gives.
pub data FirstBox (n i : ℕ) (test : List ℕ → Bool) (boxes : ℕ → Mbox) : Option ℕ → Type 0 where
  found :
      (j : ℕ)
      → i ≤ j
      → j < i + n
      → test (boxes j).name ≡ true
      → ((m : ℕ) → i ≤ m → m < j → test (boxes m).name ≡ false)
      → FirstBox n i test boxes (some j)
  absent :
      ((m : ℕ) → i ≤ m → m < i + n → test (boxes m).name ≡ false) → FirstBox n i test boxes none

-- A box before the others that has the name, or not.
here_or_later :
    (i m : ℕ) (test : List ℕ → Bool) (boxes : ℕ → Mbox)
    → test (boxes i).name ≡ false
    → (i + 1 ≤ m → test (boxes m).name ≡ false)
    → i ≤ m
    → test (boxes m).name ≡ false
here_or_later i m test boxes e rest h = elim (Bool-cases (i == m)) [
  | inl p ↦ ap (λ x. test (boxes x).name) (sym (eq_of_== i m p)) ∙ e
  | inr p ↦ rest (ground arith)
]

pub find_box-FirstBox :
    (n i : ℕ) (test : List ℕ → Bool) (boxes : ℕ → Mbox)
    → FirstBox n i test boxes (find_box n i test boxes)
unfolding find_box
find_box-FirstBox zero i test boxes = absent (λ m a b. absurd (omega arith))
find_box-FirstBox (suc n) i test boxes = elim (Bool-cases (test (boxes i).name)) [
  | inl e ↦ rw e (found i (omega arith) (omega arith) e (λ m a b. absurd (omega arith)))
  | inr e ↦ rw e (later (find_box n (i + 1) test boxes) e (find_box-FirstBox n (i + 1) test boxes))
]
  where
    later :
        (r : Option ℕ)
        → test (boxes i).name ≡ false
        → FirstBox n (i + 1) test boxes r
        → FirstBox (suc n) i test boxes r
    later _ e (found j a b z first) =
        found j (omega arith) (omega arith) z
          (λ m p q. here_or_later i m test boxes e (λ r. first m r q) p)
    later _ e (absent all) =
        absent (λ m p q. here_or_later i m test boxes e (λ r. all m r (omega arith)) p)

-- What opening leaves: box `i` has the name and one user more, and the name leads to it.
abbrev pub Opened : List ℕ → Mail → ℕ × Mail → Type 0
Opened name w r =
    (r.0 < mbox_num)
    × ((r.1.mboxes r.0).name ≡ name)
    × ((r.1.mboxes r.0).ref_count ≡ add_int (w.mboxes r.0).ref_count 1)
    × ((m : ℕ) → m ≢ r.0 → r.1.mboxes m ≡ w.mboxes m)
    × ((v : Mail) × (do_mbox_open name r.1 ≡ some (r.0, v)))

-- What do_mbox_open does with a name: it opens a box, or finds none.
pub data Opening (name : List ℕ) (w : Mail) : Type 0 where
  box : (r : ℕ × Mail) → do_mbox_open name w ≡ some r → Opened name w r → Opening name w
  no_box :
      do_mbox_open name w ≡ some (minus_one, w)
      → ((m : ℕ) → m < mbox_num → same_name name (w.mboxes m).name ≡ false)
      → ((m : ℕ) → m < mbox_num → is_empty (w.mboxes m).name ≡ false)
      → Opening name w
