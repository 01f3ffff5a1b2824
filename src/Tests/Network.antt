-- ===== src/Tests/Network.antt =====
-- The network card with a packet in each of the first descriptors.
use ucas_2024fall_oslab.Base.{ℕ, zero, suc, ◌+◌, ◌*◌, ◌%◌, ◌≡◌, refl, some, List, [], ◌∷◌, arith}
use ucas_2024fall_oslab.Nic.{Nic, Addresses, Packet, rdt, rxdescs, e1000_init, e1000_reset, drain}
use ucas_2024fall_oslab.Nic.Ring.{transmit_all, answers, e1000_init-answers}
use ucas_2024fall_oslab.Net.{Net, recv_loop}
use ucas_2024fall_oslab.Net.Receive.{RxReady, recv_loop-takes_one_more}
use ucas_2024fall_oslab.Tests.Machine.{busy}

abbrev card : Nic
card = record {
  reg = λ r. 0;
  tx_desc = λ i. record { addr = 0; length = 0; cmd = 0; status = 0 };
  rx_desc = λ i. record { addr = 0; length = 60; csum = 0; status = 1; errors = 0; special = 0 };
  tx_pkt_buffer = λ i o. 0;
  rx_pkt_buffer = λ i o. i + o;
}

abbrev places : Addresses
places = record { tx_desc_array = 4096; rx_desc_array = 8192; tx_pkt = λ i. 0; rx_pkt = λ i. 0 }

abbrev quiet : ℕ → ℕ
quiet i = 0

-- The card reports no interrupt, so that e1000_reset ends.
initialised : (v : Nic) × (e1000_init 2 quiet places card ≡ some v)
unfolding e1000_init e1000_reset drain
initialised = (_, refl)

-- Sixty-six packets.
abbrev packets : ℕ → List (Packet × ℕ)
packets zero = []
packets (suc n) = (quiet, 60 + n) ∷ packets n

e1000_init-answers_example : (transmit_all (packets 66) initialised.0).0 ≡ answers 64 (packets 66)
e1000_init-answers_example =
    e1000_init-answers 2 quiet places card initialised.0 (packets 66) initialised.1 refl

abbrev net : Net
net = record {
  kernel = busy;
  nic = card;
  memory = λ a. 0;
  lens = λ a. 0;
  requests = λ t. record { net_buffer = 0; net_length = 0; net_curr_num = 0; net_packet_size = 0 };
  pt = 0;
  ph = 0;
  pk_dd = λ i. 0;
  pk_buff = λ i o. 0;
  pk_lens = λ i. 0;
}

card-RxReady : RxReady 3 card
card-RxReady = record { tail = omega arith; done = λ m h. refl; filled = λ m h e. ground arith }

recv_loop-takes_one_more_example :
    (let r = recv_loop 3 (λ o. o) (λ j. 4 * j) 2 0 0 net in
      (r.0 ≡ 2) × (r.1.nic.reg rdt ≡ (card.reg rdt + 2 + 1) % rxdescs))
recv_loop-takes_one_more_example =
    recv_loop-takes_one_more 2 0 2 0 (λ o. o) (λ j. 4 * j) net refl (omega arith) (λ e. omega arith)
      card-RxReady
