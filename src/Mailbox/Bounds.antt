-- ===== src/Mailbox/Bounds.antt =====
-- do_mbox_send and do_mbox_recv never write behind a mailbox's buffer, whoever is served on the way.
use ucas_2024fall_oslab.Base.{
  Option, ◌>>=◌, ℕ, ◌^◌, ◌≤◌, ◌<◌, ◌≡◌, ◌≢◌, refl, ◌⊎◌, inl, inr, true, false, [], ◌∷◌, ◌++◌, ◌&&◌,
  arith, ◌==◌, Bool-cases, some, update, ap, ◌∙◌,
}
use ucas_2024fall_oslab.Links.Queues.{Queues, push_back}
use ucas_2024fall_oslab.State.{running, num_tasks, ready_queue, status_of}
use ucas_2024fall_oslab.Sched.Wake.{block_current-Inv}
use ucas_2024fall_oslab.Sched.Inv.{Inv-ext}
use ucas_2024fall_oslab.Sched.RoundRobin.{do_scheduler-Scheduled}
use ucas_2024fall_oslab.Sched.Waiting.{blocked_on}
use ucas_2024fall_oslab.Sched.{do_block, wake}
use ucas_2024fall_oslab.Mailbox.{
  wait_mbox, Mbox, Mail, mbox_queue, put, remove, has_room, has_data, release_waiter, serve_reader,
  serve_writer, do_mbox_send, do_mbox_recv, max_mbox_length, set_mbox, set_seen, copy, seen,
}
use ucas_2024fall_oslab.Mailbox.Waiters.{
  MailInv, serve_all-end, serve_reader-StepOk, serve_writer-StepOk,
}

-- No box is filled beyond its buffer, and no task waits with more than 2 ^ 30 bytes.
pub record Bounded (w : Mail) : Type 0 where
  pub length : (i : ℕ) → (w.mboxes i).length ≤ max_mbox_length
  pub size : (t : ℕ) → (w.kernel.pcb t).mbox_size ≤ 2 ^ 30

length-put :
    (n msg : ℕ) (m : Mbox) (from : ℕ → ℕ)
    → m.length ≤ 128
    → n ≤ 2 ^ 30
    → has_room n m ≡ true
    → (put n msg from m).length ≤ 128
length-put n msg m from h l r = ground arith

length-remove :
    (n : ℕ) (m : Mbox)
    → m.length ≤ 128
    → n ≤ 2 ^ 30
    → has_data n m ≡ true
    → (remove n m).length ≤ 128
length-remove n m h l r = ground arith

set_mbox-Bounded :
    (i : ℕ) (m : Mbox) (w v : Mail)
    → Bounded w
    → v.mboxes ≡ update w.mboxes i m
    → v.kernel ≡ w.kernel
    → m.length ≤ 128
    → Bounded v
set_mbox-Bounded i m w v b e k l = record {
  length = λ j. rw e (elim (Bool-cases (j == i)) [ inl p ↦ rw p l | inr p ↦ rw p (b.length j) ]);
  size = λ t. rw k (b.size t);
}

release_waiter-Bounded : (t : ℕ) (w : Mail) → Bounded w → Bounded (release_waiter t w)
unfolding release_waiter wake
release_waiter-Bounded t w b = record {
  length = b.length;
  size = λ u. ground (arith, b.size u, b.size t);
}

serve_reader-Bounded : (i t : ℕ) (w : Mail) → Bounded w → Bounded (serve_reader i t w)
unfolding serve_reader
serve_reader-Bounded i t w b =
    elim (Bool-cases
      ((w.kernel.pcb t).mbox_rw == 0 && has_data (w.kernel.pcb t).mbox_size (w.mboxes i))) [
        | inl e ↦ rw e (
            release_waiter-Bounded t _ (
              set_mbox-Bounded i _ w _ b refl refl
                (length-remove _ (w.mboxes i) (b.length i) (b.size t) (ground arith))))
        | inr e ↦ rw e b
      ]

serve_writer-Bounded : (i t : ℕ) (w : Mail) → Bounded w → Bounded (serve_writer i t w)
unfolding serve_writer
serve_writer-Bounded i t w b =
    elim (Bool-cases
      ((w.kernel.pcb t).mbox_rw == 1 && has_room (w.kernel.pcb t).mbox_size (w.mboxes i))) [
        | inl e ↦ rw e (
            release_waiter-Bounded t _ (
              set_mbox-Bounded i _ w _ b refl refl (
                length-put (w.kernel.pcb t).mbox_size (w.kernel.pcb t).mbox_buf (w.mboxes i)
                  (seen w) (b.length i) (b.size t) (ground arith))))
        | inr e ↦ rw e b
      ]

-- What a call leaves that finds room, or data.
abbrev pub Finished : Option (ℕ × Mail) → ℕ → Type 0
Finished r n = (w' : Mail) × (q' : Queues) × (r ≡ some (n, w')) × MailInv w' q' × Bounded w'

-- What a call leaves that waits: the caller is the last of the waiters, and the boxes are as they were.
abbrev pub Waits : Option (ℕ × Mail) → ℕ → ℕ → Mail → Queues → Type 0
Waits r n i w q =
    (w' : Mail) × (q' : Queues) × (r ≡ some (n, w'))
    × MailInv w' q'
    × (w'.mboxes ≡ w.mboxes)
    × (q' (mbox_queue i) ≡ q (mbox_queue i) ++ w.kernel.current ∷ [])

module _ (i msg n : ℕ) (ticks : ℕ → ℕ) (w : Mail) (q : Queues) (inv : MailInv w q) where
  module _ (b : Bounded w) (hn : n ≤ 2 ^ 30) where
    send-Finished : has_room n (w.mboxes i) ≡ true → Finished (do_mbox_send i msg n ticks w) n
    unfolding do_mbox_send
    send-Finished e =
        let v = set_mbox i (put n msg (seen w) (w.mboxes i)) w in
        let (w', q', run, j, c) =
          serve_all-end Bounded (serve_reader i) (serve_reader-StepOk i) (serve_reader-Bounded i)
            (mbox_queue i) (omega arith) (omega arith) v q inv
            (set_mbox-Bounded i _ w v b refl refl
              (length-put n msg (w.mboxes i) (seen w) (b.length i) hn e)) in
        (w', q', rw (e, run) refl, j, c)

    recv-Finished : has_data n (w.mboxes i) ≡ true → Finished (do_mbox_recv i msg n ticks w) n
    unfolding do_mbox_recv
    recv-Finished e =
        let m = w.mboxes i in
        let v = set_mbox i (remove n m) (set_seen (copy n msg 0 m.buffer (seen w)) w) in
        let (w', q', run, j, c) =
          serve_all-end Bounded (serve_writer i) (serve_writer-StepOk i) (serve_writer-Bounded i)
            (mbox_queue i) (omega arith) (omega arith) v q inv
            (set_mbox-Bounded i _ w v b refl refl (length-remove n m (b.length i) hn e)) in
        (w', q', rw (e, run) refl, j, c)

  module _ (ct : w.kernel.current < num_tasks) (cr : status_of w.kernel w.kernel.current ≡ running)
      (others : q ready_queue ≢ []) where
    wait_mbox-Waits :
        (rw_flag : ℕ)
        → (w' : Mail) × (q' : Queues) × (wait_mbox i msg n rw_flag ticks w ≡ some w')
          × MailInv w' q'
          × (w'.mboxes ≡ w.mboxes)
          × (q' (mbox_queue i) ≡ q (mbox_queue i) ++ w.kernel.current ∷ [])
    unfolding wait_mbox do_block
    wait_mbox-Waits rw_flag =
        let k = blocked_on (mbox_queue i) w.kernel in
        let m = record k {
          pcb =
              update k.pcb k.current
                (record (k.pcb k.current) { mbox_buf = msg; mbox_size = n; mbox_rw = rw_flag });
        } in
        let (k', q', run, s) =
          do_scheduler-Scheduled ticks m (push_back (mbox_queue i) w.kernel.current q)
            (Inv-ext (status_of m) (λ t. ground arith)
              (block_current-Inv w.kernel q (mbox_queue i) inv ct cr (omega arith) (omega arith)))
            ct (inr ((λ e. ground arith), (λ e. others (ground arith)))) in
        (
          record w { kernel = k' },
          q',
          ap (λ o. o >>= λ next. some (record w { kernel = next })) run,
          s.inv,
          refl,
          s.other (mbox_queue i) (omega arith) (omega arith) ∙ ground arith,
        )

    send-Waits : has_room n (w.mboxes i) ≡ false → Waits (do_mbox_send i msg n ticks w) n i w q
    unfolding do_mbox_send
    send-Waits e =
        let (w', q', run, j, m, l) = wait_mbox-Waits 1 in (w', q', rw (e, run) refl, j, m, l)

    recv-Waits : has_data n (w.mboxes i) ≡ false → Waits (do_mbox_recv i msg n ticks w) n i w q
    unfolding do_mbox_recv
    recv-Waits e =
        let (w', q', run, j, m, l) = wait_mbox-Waits 0 in (w', q', rw (e, run) refl, j, m, l)

    -- do_mbox_send of at most 2 ^ 30 bytes by a running task, while another one is ready, comes to its end. Where the
    -- bytes fit, the walk over the waiters ends and no box is filled beyond its buffer; else the caller waits as the
    -- last one of the box, and no box changes. The lists and states of the tasks keep their invariant.
    pub do_mbox_send-Bounded :
        Bounded w
        → n ≤ 2 ^ 30
        → ((has_room n (w.mboxes i) ≡ true) × Finished (do_mbox_send i msg n ticks w) n)
          ⊎ ((has_room n (w.mboxes i) ≡ false) × Waits (do_mbox_send i msg n ticks w) n i w q)
    do_mbox_send-Bounded b hn = elim (Bool-cases (has_room n (w.mboxes i))) [
      | inl e ↦ inl (e, send-Finished b hn e)
      | inr e ↦ inr (e, send-Waits e)
    ]

    -- do_mbox_recv of at most 2 ^ 30 bytes by a running task, while another one is ready, comes to its end. Where the
    -- box holds as many, the walk over the waiters ends and no box is filled beyond its buffer; else the caller waits
    -- as the last one of the box, and no box changes. The lists and states of the tasks keep their invariant.
    pub do_mbox_recv-Bounded :
        Bounded w
        → n ≤ 2 ^ 30
        → ((has_data n (w.mboxes i) ≡ true) × Finished (do_mbox_recv i msg n ticks w) n)
          ⊎ ((has_data n (w.mboxes i) ≡ false) × Waits (do_mbox_recv i msg n ticks w) n i w q)
    do_mbox_recv-Bounded b hn = elim (Bool-cases (has_data n (w.mboxes i))) [
      | inl e ↦ inl (e, recv-Finished b hn e)
      | inr e ↦ inr (e, recv-Waits e)
    ]
