-- ===== src/Tests/Mails.antt =====
-- Mailboxes on the small machine: task 1 runs, and task 6 waits at box 0 for two bytes.
use ucas_2024fall_oslab.Base.{
  ℕ, ◌+◌, ◌≤◌, ◌<◌, ◌%◌, ◌≡◌, ◌≢◌, ◌⊎◌, refl, true, false, some, [], ◌∷◌, ◌++◌, arith, update, take,
  drop,
}
use ucas_2024fall_oslab.Links.Queues.{Queues, push_back}
use ucas_2024fall_oslab.State.{Kernel, blocked, ready_queue, status_of}
use ucas_2024fall_oslab.Sched.Inv.{Inv, nobody, Inv-ext}
use ucas_2024fall_oslab.Mailbox.{
  Mbox, Mail, Memory, mbox_queue, has_room, has_data, set_mbox, set_seen, seen, do_mbox_send,
  do_mbox_recv,
}
use ucas_2024fall_oslab.Mailbox.Bounds.{
  Bounded, Finished, Waits, do_mbox_send-Bounded, do_mbox_recv-Bounded,
}
use ucas_2024fall_oslab.Mailbox.Fifo.{contents, bytes, do_mbox_send-contents, do_mbox_recv-contents}
use ucas_2024fall_oslab.Tests.Machine.{busy, busy_lists, busy-Inv, enlist, enlist-Inv}

abbrev asking : Kernel
asking = record busy {
  pcb = update busy.pcb 6 (record (busy.pcb 6) { mbox_buf = 300; mbox_size = 2; mbox_rw = 0 });
}

asking-Inv : Inv asking.links (status_of asking) busy_lists nobody
asking-Inv = Inv-ext (status_of asking) (λ t. ground arith) busy-Inv

abbrev waiting : Kernel
waiting = enlist (mbox_queue 0) 6 blocked asking

abbrev waiting_lists : Queues
waiting_lists = push_back (mbox_queue 0) 6 busy_lists

waiting-Inv : Inv waiting.links (status_of waiting) waiting_lists nobody
waiting-Inv =
    enlist-Inv (mbox_queue 0) 6 blocked asking busy_lists asking-Inv (omega arith)
      (λ h. ground arith) (omega arith) (λ e. omega arith)

abbrev empty_box : Mbox
empty_box = record { buffer = λ o. 0; name = []; length = 0; ref_count = 0 }

-- Box 1 holds three bytes.
abbrev mail : Kernel → Mail
mail k = record {
  kernel = k;
  mboxes =
      update (λ i. empty_box) 1
        (record empty_box { buffer = λ o. 65 + o; length = 3; name = 98 ∷ []; ref_count = 1 });
  memory = λ s a. a % 256;
}

mail-Bounded : Bounded (mail waiting)
mail-Bounded = record { length = λ i. ground arith; size = λ t. ground arith }

still_ready : waiting_lists ready_queue ≢ []
still_ready e = ground arith

abbrev early : ℕ → ℕ
early n = 1

do_mbox_send-Bounded_example :
    ((has_room 4 ((mail waiting).mboxes 0) ≡ true)
      × Finished (do_mbox_send 0 600 4 early (mail waiting)) 4)
    ⊎ ((has_room 4 ((mail waiting).mboxes 0) ≡ false)
        × Waits (do_mbox_send 0 600 4 early (mail waiting)) 4 0 (mail waiting) waiting_lists)
do_mbox_send-Bounded_example =
    do_mbox_send-Bounded 0 600 4 early (mail waiting) waiting_lists waiting-Inv (omega arith) refl
      still_ready mail-Bounded (omega arith)

do_mbox_recv-Bounded_example :
    ((has_data 4 ((mail waiting).mboxes 0) ≡ true)
      × Finished (do_mbox_recv 0 600 4 early (mail waiting)) 4)
    ⊎ ((has_data 4 ((mail waiting).mboxes 0) ≡ false)
        × Waits (do_mbox_recv 0 600 4 early (mail waiting)) 4 0 (mail waiting) waiting_lists)
do_mbox_recv-Bounded_example =
    do_mbox_recv-Bounded 0 600 4 early (mail waiting) waiting_lists waiting-Inv (omega arith) refl
      still_ready mail-Bounded (omega arith)

do_mbox_send-contents_example :
    (m : Mbox) × (do_mbox_send 1 600 4 early (mail waiting) ≡ some (4, set_mbox 1 m (mail waiting)))
    × (contents m ≡ contents ((mail waiting).mboxes 1) ++ bytes 4 600 (seen (mail waiting)))
    × ((o : ℕ) → 3 + 4 ≤ o → m.buffer o ≡ ((mail waiting).mboxes 1).buffer o)
    × (m.name ≡ 98 ∷ [])
    × (m.ref_count ≡ 1)
do_mbox_send-contents_example =
    do_mbox_send-contents 1 600 4 early (mail waiting) waiting_lists waiting-Inv refl (omega arith)
      (omega arith) refl

do_mbox_recv-contents_example :
    (m : Mbox) × (mem : Memory) × (do_mbox_recv 1 600 2 early (mail waiting)
      ≡ some (2, set_mbox 1 m (set_seen mem (mail waiting))))
    × (bytes 2 600 mem ≡ take 2 (contents ((mail waiting).mboxes 1)))
    × ((a : ℕ) → (a < 600) ⊎ (600 + 2 ≤ a) → mem a ≡ seen (mail waiting) a)
    × (contents m ≡ drop 2 (contents ((mail waiting).mboxes 1)))
    × ((o : ℕ) → 3 ≤ o → m.buffer o ≡ ((mail waiting).mboxes 1).buffer o)
    × (m.name ≡ 98 ∷ [])
    × (m.ref_count ≡ 1)
do_mbox_recv-contents_example =
    do_mbox_recv-contents 1 600 2 early (mail waiting) waiting_lists waiting-Inv refl (omega arith)
      (omega arith) refl
