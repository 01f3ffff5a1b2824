-- ===== src/Mailbox/Fifo.antt =====
-- A mailbox of kernel/locking/lock.c against the queue of its bytes.
use ucas_2024fall_oslab.Base.{
  ==_refl, leb, ltb, ◌&&◌, add_zero, one_more, suc_add, add_int, sub_int, ◌^◌, ℕ, zero, suc, ◌+◌,
  ◌-◌, ◌≤◌, ◌<◌, ◌≡◌, refl, true, ◌⊎◌, inl, inr, List, [], ◌∷◌, ◌++◌, arith, some, ap, ap₂, ◌∙◌,
  sym, take, drop,
}
use ucas_2024fall_oslab.Links.Queues.{Queues}
use ucas_2024fall_oslab.Sched.Sleep.{next-of_head, first}
use ucas_2024fall_oslab.Mailbox.{
  Memory, Mbox, Mail, mbox_queue, put, remove, has_room, has_data, copy, seen, set_seen, set_mbox,
  serve_all, do_mbox_send, do_mbox_recv,
}
use ucas_2024fall_oslab.Mailbox.Waiters.{MailInv}

-- `n` bytes of memory from an address on
abbrev pub bytes : ℕ → ℕ → Memory → List ℕ
bytes zero a m = []
bytes (suc n) a m = m a ∷ bytes n (a + 1) m

-- the bytes that a box holds, in the order in which they were sent
abbrev pub contents : Mbox → List ℕ
contents m = bytes m.length 0 m.buffer

no_wrap : (a b : ℕ) → a + b < 2 ^ 32 → add_int a b ≡ a + b
no_wrap a b h = omega arith

sub_exact : (a b : ℕ) → b ≤ a → a < 2 ^ 32 → sub_int a b ≡ a - b
sub_exact a b h l = omega arith

bytes-same :
    (n a b : ℕ) (m p : Memory)
    → ((t : ℕ) → t < n → m (a + t) ≡ p (b + t))
    → bytes n a m ≡ bytes n b p
bytes-same zero a b m p h = refl
bytes-same (suc n) a b m p h =
    ap₂ ◌∷◌ (ap m (sym (add_zero a)) ∙ h 0 (omega arith) ∙ ap p (add_zero b)) (
      bytes-same n (a + 1) (b + 1) m p
        (λ t l. ap m (one_more a t) ∙ h (suc t) (omega arith) ∙ ap p (sym (one_more b t))))

bytes-append : (n k a : ℕ) (m : Memory) → bytes (n + k) a m ≡ bytes n a m ++ bytes k (a + n) m
bytes-append zero k a m = ap₂ (λ x y. bytes x y m) (omega arith) (sym (add_zero a))
bytes-append (suc n) k a m =
    ap (λ x. bytes x a m) (suc_add n k)
    ∙ ap (λ xs. m a ∷ xs)
        (bytes-append n k (a + 1) m ∙ ap (λ x. bytes n (a + 1) m ++ bytes k x m) (one_more a n))

drop-bytes : (n k a : ℕ) (m : Memory) → drop n (bytes (n + k) a m) ≡ bytes k (a + n) m
drop-bytes zero k a m = ap₂ (λ x y. bytes x y m) (omega arith) (sym (add_zero a))
drop-bytes (suc n) k a m =
    ap (λ x. drop (suc n) (bytes x a m)) (suc_add n k)
    ∙ drop-bytes n k (a + 1) m
    ∙ ap (λ x. bytes k x m) (one_more a n)

take-bytes : (n k a : ℕ) (m : Memory) → take n (bytes (n + k) a m) ≡ bytes n a m
take-bytes zero k a m = refl
take-bytes (suc n) k a m =
    ap (λ x. take (suc n) (bytes x a m)) (suc_add n k)
    ∙ ap (λ xs. m a ∷ xs) (take-bytes n k (a + 1) m)

in_copy : (n a t : ℕ) → t < n → (leb a (a + t) && ltb (a + t) (a + n)) ≡ true
in_copy n a t h = ground arith

copy-at : (n a b t : ℕ) (from to : Memory) → t < n → copy n a b from to (a + t) ≡ from (b + t)
copy-at n a b t from to h = rw (in_copy n a t h) (ap from (omega arith))

copy-outside :
    (n a b o : ℕ) (from to : Memory) → (o < a) ⊎ (a + n ≤ o) → copy n a b from to o ≡ to o
copy-outside n a b o from to (inl h) = ground arith
copy-outside n a b o from to (inr h) = ground arith

-- putting a message behind the others, and taking the first bytes
contents-put :
    (n msg : ℕ) (from : Memory) (m : Mbox)
    → m.length + n < 2 ^ 32
    → contents (put n msg from m) ≡ contents m ++ bytes n msg from
contents-put n msg from m h =
    ap (λ x. bytes x 0 (put n msg from m).buffer) (no_wrap m.length n h)
    ∙ bytes-append m.length n 0 (put n msg from m).buffer
    ∙ ap₂ ◌++◌ (bytes-same m.length 0 0 (put n msg from m).buffer m.buffer (λ t l. ground arith)) (
        bytes-same n (0 + m.length) msg (put n msg from m).buffer from (λ t l.
          ap (put n msg from m).buffer (omega arith) ∙ copy-at n m.length msg t from m.buffer l))

contents-remove :
    (n : ℕ) (m : Mbox)
    → n ≤ m.length
    → m.length < 2 ^ 32
    → contents (remove n m) ≡ drop n (contents m)
contents-remove n m h l =
    ap (λ x. bytes x 0 (remove n m).buffer) (sub_exact m.length n h l)
    ∙ bytes-same (m.length - n) 0 (0 + n) (remove n m).buffer m.buffer (λ t k.
      copy-at (sub_int m.length n) 0 n t m.buffer m.buffer (omega (arith, sub_exact m.length n h l))
      ∙ ap m.buffer (omega arith))
    ∙ sym (drop-bytes n (m.length - n) 0 m.buffer)
    ∙ ap (λ x. drop n (bytes x 0 m.buffer)) (omega arith)

module _ (i msg n : ℕ) (ticks : ℕ → ℕ) (w : Mail) (q : Queues) (inv : MailInv w q)
    (nobody_waits : q (mbox_queue i) ≡ []) where
  head_next : w.kernel.links.next (mbox_queue i) ≡ mbox_queue i
  head_next =
      next-of_head w.kernel.links (mbox_queue i) (q (mbox_queue i)) (mbox_queue i)
        (inv.view.ring (mbox_queue i) (omega arith))
      ∙ ap (λ xs. first xs (mbox_queue i)) nobody_waits

  -- With nobody waiting at the box, do_mbox_send puts the message behind the bytes of the box, where it fits, and
  -- returns its length; the name, the users and the rest of the buffer of the box, the other boxes, the memory and the
  -- tasks stay.
  pub do_mbox_send-contents :
      (w.mboxes i).length ≤ 128
      → n ≤ 2 ^ 30
      → has_room n (w.mboxes i) ≡ true
      → (m : Mbox) × (do_mbox_send i msg n ticks w ≡ some (n, set_mbox i m w))
        × (contents m ≡ contents (w.mboxes i) ++ bytes n msg (seen w))
        × ((o : ℕ) → (w.mboxes i).length + n ≤ o → m.buffer o ≡ (w.mboxes i).buffer o)
        × (m.name ≡ (w.mboxes i).name)
        × (m.ref_count ≡ (w.mboxes i).ref_count)
  unfolding do_mbox_send serve_all
  do_mbox_send-contents h l e = (
    put n msg (seen w) (w.mboxes i),
    rw (e, head_next, ==_refl (mbox_queue i)) refl,
    contents-put n msg (seen w) (w.mboxes i) (omega arith),
    λ o l. copy-outside n (w.mboxes i).length msg o (seen w) (w.mboxes i).buffer (inr l),
    refl,
    refl,
  )

  -- With nobody waiting at the box, do_mbox_recv gives the caller the first bytes of the box, where it has as many,
  -- keeps the others in their order, and returns the length; the rest of the caller's memory, the name and
  -- the users of the box, its buffer behind the bytes that it had, the other boxes and the tasks stay.
  pub do_mbox_recv-contents :
      (w.mboxes i).length ≤ 128
      → n ≤ 2 ^ 30
      → has_data n (w.mboxes i) ≡ true
      → (m : Mbox) × (mem : Memory) × (do_mbox_recv i msg n ticks w
          ≡ some (n, set_mbox i m (set_seen mem w)))
        × (bytes n msg mem ≡ take n (contents (w.mboxes i)))
        × ((a : ℕ) → (a < msg) ⊎ (msg + n ≤ a) → mem a ≡ seen w a)
        × (contents m ≡ drop n (contents (w.mboxes i)))
        × ((o : ℕ) → (w.mboxes i).length ≤ o → m.buffer o ≡ (w.mboxes i).buffer o)
        × (m.name ≡ (w.mboxes i).name)
        × (m.ref_count ≡ (w.mboxes i).ref_count)
  unfolding do_mbox_recv serve_all
  do_mbox_recv-contents h l e =
      let m = w.mboxes i in
      let enough : n ≤ m.length = ground arith in
      (
        remove n m,
        copy n msg 0 m.buffer (seen w),
        rw (e, head_next, ==_refl (mbox_queue i)) refl,
        bytes-same n msg 0 (copy n msg 0 m.buffer (seen w)) m.buffer
              (λ t k. copy-at n msg 0 t m.buffer (seen w) k)
            ∙ sym (take-bytes n (m.length - n) 0 m.buffer)
            ∙ ap (λ x. take n (bytes x 0 m.buffer)) (omega arith),
        λ a l. copy-outside n msg 0 a m.buffer (seen w) l,
        contents-remove n m enough (omega arith),
        λ o l.
            copy-outside (sub_int m.length n) 0 n o m.buffer m.buffer
              (inr (omega (arith, sub_exact m.length n enough (omega arith)))),
        refl,
        refl,
      )
