-- ===== src/Net.antt =====
-- kernel/net/net.c: sending and receiving packets, with the tasks that wait for the network card. Memory is a function
-- from kernel addresses to bytes; `user satp va` is the kernel address behind a user's address, which the hardware
-- looks up in the page table.
pub mod Receive
use Prim.Native.Nat.{bit_and}
use ucas_2024fall_oslab.Base.{
  ℕ, zero, suc, ◌+◌, ◌-◌, ◌*◌, ◌%◌, ◌&&◌, not, Option, none, some, ◌==◌, leb, ltb, le_int, update,
  if◌then◌else◌, add_int, ◌>>=◌,
}
use ucas_2024fall_oslab.Links.{list_is_empty}
use ucas_2024fall_oslab.State.{Kernel, blocked, set_status}
use ucas_2024fall_oslab.Sched.{do_block, do_scheduler, wake}
use ucas_2024fall_oslab.Pgtable.{pa2kva, get_pa, get_page_offset}
use ucas_2024fall_oslab.Mm.{get_pte}
use ucas_2024fall_oslab.Nic.{
  Packet, Nic, write_reg, e1000_transmit, e1000_poll, ims, imc, icr_txqe, icr_rxdmt0,
}

-- The network fields of `pcb_t`.
pub record Request : Type 0 where
  pub net_buffer : ℕ
  pub net_length : ℕ
  pub net_curr_num : ℕ
  pub net_packet_size : ℕ

-- `pk_lens` and so on are the arrays of one buffered packet, and `lens` the words that the callers pass for the
-- lengths.
pub record Net : Type 0 where
  pub kernel : Kernel
  pub nic : Nic
  pub memory : ℕ → ℕ
  pub lens : ℕ → ℕ
  pub requests : ℕ → Request
  pub pt : ℕ
  pub ph : ℕ
  pub pk_dd : ℕ → ℕ
  pub pk_buff : ℕ → Packet
  pub pk_lens : ℕ → ℕ

abbrev pub recv_buffer_num : ℕ
recv_buffer_num = 1

abbrev pub send_block_queue : ℕ
send_block_queue = 540

abbrev pub recv_block_queue : ℕ
recv_block_queue = 541

-- get_kva of include/os/mm.h; without an entry the code reads through NULL
unfoldable pub get_kva : ℕ → ℕ → Kernel → Option ℕ
unfolding get_pte
get_kva va satp k = do
  pte ← get_pte va satp k.word
  some (pa2kva (get_pa (k.word pte)) + get_page_offset va)

-- `n` bytes of a packet at the addresses that `at` gives
unfoldable pub store_packet : ℕ → (ℕ → ℕ) → Packet → (ℕ → ℕ) → ℕ → ℕ
store_packet zero at packet memory = memory
store_packet (suc n) at packet memory = update (store_packet n at packet memory) (at n) (packet n)

abbrev pub with_nic : Nic → Net → Net
with_nic k s = record s { nic = k }

-- poll, into the addresses that `at` gives
unfoldable pub poll : (ℕ → ℕ) → Net → ℕ × Net
unfolding store_packet
poll at s =
    let len = s.pk_lens s.pt in
    let buffered = record s {
      pk_dd = update s.pk_dd s.pt 0;
      memory = store_packet len at (s.pk_buff s.pt) s.memory;
      pt = (s.pt + 1) % recv_buffer_num;
    } in
    let (n, packet, k) = e1000_poll s.nic in
    let polled = record s { nic = k; memory = store_packet n at packet s.memory } in
    if s.pk_dd s.pt == 1 then (len, buffered) else (n, polled)

-- `while ((len = poll(buffer + bias)) && (i < num)) { bias += len; lens[i] = len; i++; }`: `at` gives the address of
-- each byte of the buffer, and `len_at` that of each length. The result is `i`.
unfoldable pub recv_loop : ℕ → (ℕ → ℕ) → (ℕ → ℕ) → ℕ → ℕ → ℕ → Net → ℕ × Net
unfolding poll
recv_loop zero at len_at num i bias s = (i, s)
recv_loop (suc n) at len_at num i bias s =
    let (len, v) = poll (λ o. at (bias + o)) s in
    let rest =
      recv_loop n at len_at num (i + 1) (bias + len)
        (record v { lens = update v.lens (len_at i) len }) in
    if not (len == 0) && ltb i num then rest else (i, v)

-- The sum of the first `n` lengths from an address on, which are words of four bytes.
unfoldable pub sum_lens : ℕ → ℕ → (ℕ → ℕ) → ℕ
sum_lens zero a lens = 0
sum_lens (suc n) a lens = sum_lens n a lens + lens (a + 4 * n)

abbrev pub satp_now : Net → ℕ
satp_now s = (s.kernel.pcb s.kernel.current).satp

-- the running task waits on `queue`
unfoldable pub wait_net : ℕ → Request → (ℕ → ℕ) → Net → Option Net
wait_net queue r ticks s =
    let cur = s.kernel.current in
    do
      k ← do_scheduler ticks (do_block cur queue (set_status cur blocked s.kernel))
      some (record s { kernel = k; requests = update s.requests cur r })

module _ (user : ℕ → ℕ → ℕ) where
  -- do_net_send
  unfoldable pub do_net_send : ℕ → ℕ → (ℕ → ℕ) → Net → Option (ℕ × Net)
  do_net_send txpacket length ticks s =
      let enabled = write_reg ims icr_txqe s.nic in
      let (sent, k) =
        e1000_transmit (λ o. s.memory (user (satp_now s) (txpacket + o))) length enabled in
      let r = s.requests s.kernel.current in
      let waits = do
        kva ← get_kva txpacket (satp_now s) s.kernel
        v ←
            wait_net send_block_queue (record r { net_buffer = kva; net_length = sent }) ticks
              (with_nic k s)
        some (0, v)
      in if not (sent == 0) then some (sent, with_nic k s) else waits

  -- do_net_recv; `pkt_num` is not negative
  unfoldable pub do_net_recv : ℕ → ℕ → ℕ → (ℕ → ℕ) → Net → Option (ℕ × Net)
  do_net_recv rxbuffer pkt_num pkt_lens ticks s =
      let satp = satp_now s in
      let (i, v) =
        recv_loop (pkt_num + 1) (λ o. user satp (rxbuffer + o)) (λ j. user satp (pkt_lens + 4 * j))
          pkt_num 0 0 s in
      let waits = do
        buffer ← get_kva rxbuffer satp v.kernel
        sizes ← get_kva pkt_lens satp v.kernel
        w ←
            wait_net recv_block_queue
              (record {
                net_buffer = buffer;
                net_length = pkt_num;
                net_curr_num = i;
                net_packet_size = sizes;
              })
              ticks v
        some (pkt_num, w)
      in if i == pkt_num then some (pkt_num, v) else waits

-- update_net_send, less the return value that it puts into the task's registers
unfoldable pub update_net_send : Net → Net
update_net_send s =
    let t = s.kernel.links.next send_block_queue in
    let r = s.requests t in
    let (sent, k) = e1000_transmit (λ o. s.memory (r.net_buffer + o)) r.net_length s.nic in
    if list_is_empty send_block_queue s.kernel.links
    then with_nic (write_reg imc icr_txqe s.nic) s
    else record s { nic = k; kernel = wake t s.kernel }

-- a round of the loop that takes packets into the buffer, of which there is one
unfoldable pub take_ahead : ℕ → Net → Net
take_ahead zero s = s
take_ahead (suc n) s =
    let (len, packet, k) = e1000_poll s.nic in
    let polled = record s {
      nic = k;
      pk_lens = update s.pk_lens s.ph len;
      pk_buff = update s.pk_buff s.ph (λ o. if ltb o len then packet o else s.pk_buff s.ph o);
    } in
    let rest = take_ahead n (record polled {
      pk_dd = update polled.pk_dd polled.ph 1;
      ph = (polled.ph + 1) % recv_buffer_num;
    }) in
    if not (s.pk_dd s.ph == 0) then s else if len == 0 then polled else rest

-- update_net_recv, less the return value that it puts into the task's registers
unfoldable pub update_net_recv : Net → Net
update_net_recv s =
    let t = s.kernel.links.next recv_block_queue in
    let r = s.requests t in
    let bias = sum_lens r.net_curr_num r.net_packet_size s.lens in
    let (i, v) =
      recv_loop (r.net_length - r.net_curr_num + 1) (λ o. r.net_buffer + o)
        (λ j. r.net_packet_size + 4 * j) r.net_length r.net_curr_num bias s in
    if list_is_empty recv_block_queue s.kernel.links
    then take_ahead (recv_buffer_num + 1) s
    else if i == r.net_length
    then record v { kernel = wake t v.kernel }
    else record v { requests = update v.requests t (record r { net_curr_num = i }) }

-- net_handle_irq; `cause` is what the interrupt register gives
unfoldable pub net_handle_irq : ℕ → Net → Net
net_handle_irq cause s =
    let v = if bit_and cause icr_rxdmt0 == 0 then s else update_net_recv s in
    if bit_and cause icr_txqe == 0 then v else update_net_send v
